-- ===== src/Symm.antt =====
-- btls/src/symm.rs: `Crypter` and the functions that encrypt or decrypt a whole message.
pub mod Message
use btls.Prelude.{
  ℕ, zero, suc, ◌+◌, Bool, true, false, Option, none, some, List, [], ◌∷◌, ◌++◌, ltb, leb, ◌==◌,
  if◌then◌else◌, length, take, drop, c_int_max,
}
use btls.Io.{ErrorStack, Fallible, fine, wrong}
use btls.Ssl.Ech.{internal_error}

-- `Mode`
pub data Mode : Type 0 where
  encrypt_mode decrypt_mode : Mode

-- What a call comes to: a result, a panic, or a write of BoringSSL past the buffer that it was given.
pub data Run (A : Type 0) : Type 0 where
  finished : Fallible A → Run A
  panicked : Run A
  overran : Run A

infixl 5 ◌>>=◌
abbrev pub ◌>>=◌ : {A B : Type 0} → Run A → (A → Run B) → Run B
finished (fine a) >>= f = f a
finished (wrong e) >>= f = finished (wrong e)
panicked >>= f = panicked
overran >>= f = overran

-- The functions of BoringSSL on ciphers `T` and contexts `C`; each has its `cvt`, so that a failure
-- is the error stack. `cipher_update` and `cipher_final` give the bytes that they write.
pub record Evp (T C : Type 0) : Type 0 where
  pub key_length : T → ℕ
  pub iv_length : T → ℕ
  pub block_length : T → ℕ
  pub ctx_new : Fallible C
  pub cipher_init : T → Mode → C → Fallible C
  pub set_key_length : ℕ → C → Fallible C
  pub set_iv_length : ℕ → C → Fallible C
  pub key_init : List ℕ → Option (List ℕ) → Mode → C → Fallible C
  pub aad_update : List ℕ → C → Fallible C
  pub data_len_update : ℕ → C → Fallible C
  pub cipher_update : List ℕ → C → Fallible (List ℕ × C)
  pub cipher_final : C → Fallible (List ℕ × C)
  pub set_padding : Bool → C → C
  pub set_tag : Option (List ℕ) → ℕ → C → Fallible C
  pub get_tag : ℕ → C → Fallible (List ℕ)

-- `Crypter`
pub record Crypter (C : Type 0) : Type 0 where
  pub ctx : C
  pub block_size : ℕ

-- `try_int` of btls/src/lib.rs, from a `usize` to a `c_int`
unfoldable pub try_int : ℕ → Fallible ℕ
try_int n = if leb n c_int_max then fine n else wrong internal_error

abbrev pub lift : {A : Type 0} → Fallible A → Run A
lift r = finished r

-- The block that `update` wants on top of the input.
abbrev pub extra : ℕ → ℕ
extra block_size = if ltb 1 block_size then block_size else 0

module _ {T C : Type 0} (v : Evp T C) where
  -- `Cipher::iv_len`
  unfoldable pub iv_len : T → Option ℕ
  iv_len t = if v.iv_length t == 0 then none else some (v.iv_length t)

  -- The IV of the second `EVP_CipherInit_ex`, after `EVP_CTRL_GCM_SET_IVLEN` where lengths differ.
  unfoldable pub choose_iv : Option (List ℕ) → Option ℕ → C → Run (Option (List ℕ) × C)
  unfolding try_int
  choose_iv (some iv) (some len) c = if length iv == len then finished (fine (some iv, c)) else (do
    n ← lift (try_int (length iv))
    c' ← lift (v.set_iv_length n c)
    finished (fine (some iv, c')))
  choose_iv (some iv) none c = finished (fine (none, c))
  choose_iv none none c = finished (fine (none, c))
  choose_iv none (some len) c = panicked

  -- `Crypter::new`
  unfoldable pub new : T → Mode → List ℕ → Option (List ℕ) → Run (Crypter C)
  unfolding choose_iv iv_len try_int
  new t mode key iv = do
    c0 ← lift v.ctx_new
    c1 ← lift (v.cipher_init t mode c0)
    n ← lift (try_int (length key))
    c2 ← lift (v.set_key_length n c1)
    chosen ← choose_iv iv (iv_len t) c2
    c3 ← lift (v.key_init key chosen.0 mode chosen.1)
    finished (fine (record { ctx = c3; block_size = v.block_length t }))

  -- `pad`
  unfoldable pub pad : Bool → Crypter C → Crypter C
  pad padding k = record k { ctx = v.set_padding padding k.ctx }

  abbrev pub with_ctx : Crypter C → Fallible C → Run (Crypter C)
  with_ctx k (fine c) = finished (fine (record k { ctx = c }))
  with_ctx k (wrong e) = finished (wrong e)

  -- `set_tag`, `set_tag_len`, `set_data_len` and `aad_update`
  unfoldable pub set_tag : List ℕ → Crypter C → Run (Crypter C)
  unfolding try_int
  set_tag tag k = do n ← lift (try_int (length tag)); with_ctx k (v.set_tag (some tag) n k.ctx)

  unfoldable pub set_tag_len : ℕ → Crypter C → Run (Crypter C)
  unfolding try_int
  set_tag_len tag_len k = do n ← lift (try_int tag_len); with_ctx k (v.set_tag none n k.ctx)

  unfoldable pub set_data_len : ℕ → Crypter C → Run (Crypter C)
  unfolding try_int
  set_data_len data_len k = do n ← lift (try_int data_len); with_ctx k (v.data_len_update n k.ctx)

  unfoldable pub aad_update : List ℕ → Crypter C → Run (Crypter C)
  unfolding try_int
  aad_update input k = do n ← lift (try_int (length input)); with_ctx k (v.aad_update input k.ctx)

  -- The bytes of a call, written to the front of `output`: their number, and the buffer.
  unfoldable pub write_out : Crypter C → List ℕ → List ℕ × C → Run (ℕ × List ℕ × Crypter C)
  write_out k output (bytes, c) =
      if leb (length bytes) (length output)
      then finished (fine (length bytes, bytes ++ drop (length bytes) output, record k { ctx = c }))
      else overran

  -- `update`
  unfoldable pub update : List ℕ → List ℕ → Crypter C → Run (ℕ × List ℕ × Crypter C)
  unfolding write_out try_int
  update input output k =
      if leb (length input + extra k.block_size) (length output)
      then (do
        outl ← lift (try_int (length output))
        inl ← lift (try_int (length input))
        r ← lift (v.cipher_update input k.ctx)
        write_out k output r)
      else panicked

  -- `finalize`; the length that it hands to BoringSSL is an output of the call.
  unfoldable pub finalize : List ℕ → Crypter C → Run (ℕ × List ℕ × Crypter C)
  unfolding write_out
  finalize output k =
      if leb (extra k.block_size) (length output)
      then (do r ← lift (v.cipher_final k.ctx); write_out k output r)
      else panicked

  -- `get_tag` into a buffer of `n` bytes
  unfoldable pub get_tag : ℕ → Crypter C → Run (List ℕ)
  unfolding try_int
  get_tag n k = do m ← lift (try_int n); lift (v.get_tag m k.ctx)

abbrev pub zeros : ℕ → List ℕ
zeros zero = []
zeros (suc n) = 0 ∷ zeros n
