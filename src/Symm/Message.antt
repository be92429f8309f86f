-- ===== src/Symm/Message.antt =====
-- `encrypt`, `decrypt`, `encrypt_aead` and `decrypt_aead` of btls/src/symm.rs.
pub mod Contract
pub mod Parts
pub mod Whole
use btls.Prelude.{ℕ, ◌+◌, Option, List, ◌++◌, leb, if◌then◌else◌, length, take, drop}
use btls.Io.{fine}
use btls.Symm.{
  Mode, encrypt_mode, decrypt_mode, Run, finished, panicked, ◌>>=◌, Evp, Crypter, new, set_tag,
  aad_update, update, finalize, get_tag, zeros,
}

-- `out[count..]`
unfoldable pub slice_from : ℕ → List ℕ → Run (List ℕ)
slice_from count out = if leb count (length out) then finished (fine (drop count out)) else panicked

-- What `finalize(&mut out[count..])` makes of `out`, and `out.truncate(count + rest)`.
abbrev pub truncated : ℕ → ℕ → List ℕ → List ℕ → List ℕ
truncated count rest out tail = take (count + rest) (take count out ++ tail)

module _ {T C : Type 0} (v : Evp T C) where
  -- `cipher`
  unfoldable pub cipher : T → Mode → List ℕ → Option (List ℕ) → List ℕ → Run (List ℕ)
  unfolding new update finalize slice_from
  cipher t mode key iv data_ = do
    k ← new v t mode key iv
    u ← update v data_ (zeros (length data_ + v.block_length t)) k
    rest ← slice_from u.0 u.1
    f ← finalize v rest u.2
    finished (fine (truncated u.0 f.0 u.1 f.1))

  unfoldable pub encrypt : T → List ℕ → Option (List ℕ) → List ℕ → Run (List ℕ)
  unfolding cipher
  encrypt t key iv data_ = cipher t encrypt_mode key iv data_

  unfoldable pub decrypt : T → List ℕ → Option (List ℕ) → List ℕ → Run (List ℕ)
  unfolding cipher
  decrypt t key iv data_ = cipher t decrypt_mode key iv data_

  -- `encrypt_aead`, with the tag that it writes
  unfoldable pub encrypt_aead :
      T → List ℕ → Option (List ℕ) → List ℕ → List ℕ → ℕ → Run (List ℕ × List ℕ)
  unfolding new aad_update update finalize get_tag slice_from
  encrypt_aead t key iv aad data_ tag_len = do
    k ← new v t encrypt_mode key iv
    k' ← aad_update v aad k
    u ← update v data_ (zeros (length data_ + v.block_length t)) k'
    rest ← slice_from u.0 u.1
    f ← finalize v rest u.2
    tag ← get_tag v tag_len f.2
    finished (fine (truncated u.0 f.0 u.1 f.1, tag))

  -- `decrypt_aead`; the tag is set before `finalize`, which checks it.
  unfoldable pub decrypt_aead :
      T → List ℕ → Option (List ℕ) → List ℕ → List ℕ → List ℕ → Run (List ℕ)
  unfolding new aad_update update finalize set_tag slice_from
  decrypt_aead t key iv aad data_ tag = do
    k ← new v t decrypt_mode key iv
    k' ← aad_update v aad k
    u ← update v data_ (zeros (length data_ + v.block_length t)) k'
    k'' ← set_tag v tag u.2
    rest ← slice_from u.0 u.1
    f ← finalize v rest k''
    finished (fine (truncated u.0 f.0 u.1 f.1))
