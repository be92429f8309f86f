-- ===== src/Aead.antt =====
-- btls/src/aead.rs: contexts that seal and open messages with a tag of their own.
pub mod Contract
pub mod Opening
pub mod Sharing
use btls.Prelude.{
  ℕ, Bool, true, false, Option, none, some, List, [], leb, ◌==◌, if◌then◌else◌, length,
}
use btls.Io.{ErrorStack, Fallible, fine, wrong}
use btls.Ssl.Ech.{internal_error}
use btls.Symm.{Run, finished, overran}

-- `Algorithm`: the constructors that the code names.
pub data Algorithm : Type 0 where
  aes_128_gcm aes_256_gcm chacha20_poly1305 xchacha20_poly1305 : Algorithm
  aes_128_gcm_tls12 aes_256_gcm_tls12 aes_128_gcm_tls13 aes_256_gcm_tls13 : Algorithm

-- What `EVP_AEAD_CTX_seal_scatter` leaves: its status, the buffer, what it wrote to the tag's
-- buffer, and the context.
pub record Sealed (C : Type 0) : Type 0 where
  pub status : Fallible (Unit {0})
  pub in_out : List ℕ
  pub written : List ℕ
  pub ctx : C

-- What `EVP_AEAD_CTX_open_gather` leaves.
pub record Opened (C : Type 0) : Type 0 where
  pub status : Fallible (Unit {0})
  pub in_out : List ℕ
  pub ctx : C

-- The functions of BoringSSL on contexts `C`. `seal_scatter` has the nonce, the plaintext, the extra
-- plaintext, the associated data and the size of the tag's buffer; `open_gather` the nonce, the
-- ciphertext, the tag and the associated data.
pub record EvpAead (C : Type 0) : Type 0 where
  pub key_length : Algorithm → ℕ
  pub default_tag_length : ℕ
  pub ctx_new : Algorithm → List ℕ → ℕ → Fallible C
  pub tag_length : C → ℕ → ℕ → Fallible ℕ
  pub seal_scatter : C → List ℕ → List ℕ → List ℕ → List ℕ → ℕ → Sealed C
  pub open_gather : C → List ℕ → List ℕ → List ℕ → List ℕ → Opened C

-- The array of `StatelessAeadCtx::new` and its `contains`
abbrev pub is_stateless : Algorithm → Bool
is_stateless aes_128_gcm = true
is_stateless aes_256_gcm = true
is_stateless chacha20_poly1305 = true
is_stateless xchacha20_poly1305 = true
is_stateless _ = false

-- `extra_in.map(..).unwrap_or((ptr::null(), 0))`
abbrev pub extra_of : Option (List ℕ) → List ℕ
extra_of none = []
extra_of (some extra) = extra

module _ {C : Type 0} (v : EvpAead C) where
  -- `AeadCtx::new`
  unfoldable pub new : Algorithm → List ℕ → ℕ → Fallible C
  new algorithm key tag_len =
      if length key == v.key_length algorithm
      then v.ctx_new algorithm key tag_len
      else wrong internal_error

  unfoldable pub new_default_tag : Algorithm → List ℕ → Fallible C
  unfolding new
  new_default_tag algorithm key = new algorithm key v.default_tag_length

  -- `AeadCtxRef::tag_len`
  unfoldable pub tag_len : C → ℕ → ℕ → Fallible ℕ
  tag_len c in_len extra_in_len = v.tag_length c in_len extra_in_len

  -- The slice of `out_tag` that was written, the buffer, and the context.
  sealed_slice : ℕ → Fallible (Unit {0}) → List ℕ → Run (List ℕ)
  sealed_slice room (wrong e) written = finished (wrong e)
  sealed_slice room (fine u) written =
      if leb (length written) room then finished (fine written) else overran

  -- `raw_seal_scatter`, and `seal_scatter_mut` and `seal_scatter`, which are it
  unfoldable pub raw_seal_scatter :
      List ℕ → List ℕ → List ℕ → Option (List ℕ) → List ℕ → C → Run (List ℕ) × List ℕ × C
  unfolding sealed_slice
  raw_seal_scatter nonce in_out out_tag extra_in associated_data c =
      let r = v.seal_scatter c nonce in_out (extra_of extra_in) associated_data (length out_tag) in
      (sealed_slice (length out_tag) r.status r.written, r.in_out, r.ctx)

  -- `raw_open_gather`, and `open_gather_mut` and `open_gather`, which are it
  unfoldable pub raw_open_gather :
      List ℕ → List ℕ → List ℕ → List ℕ → C → Run (Unit {0}) × List ℕ × C
  raw_open_gather nonce in_out in_tag associated_data c =
      let r = v.open_gather c nonce in_out in_tag associated_data in
      (finished r.status, r.in_out, r.ctx)

  -- `seal_in_place_mut` and `seal_in_place`, of both kinds of context
  unfoldable pub seal_in_place : List ℕ → List ℕ → List ℕ → List ℕ → C → Run (List ℕ) × List ℕ × C
  unfolding raw_seal_scatter
  seal_in_place nonce buffer tag associated_data c =
      raw_seal_scatter nonce buffer tag none associated_data c

  -- `open_in_place_mut` and `open_in_place`, of both kinds of context
  unfoldable pub open_in_place : List ℕ → List ℕ → List ℕ → List ℕ → C → Run (Unit {0}) × List ℕ × C
  unfolding raw_open_gather
  open_in_place nonce buffer tag associated_data c =
      raw_open_gather nonce buffer tag associated_data c

  -- `StatelessAeadCtx::new`
  unfoldable pub stateless_new : Algorithm → List ℕ → ℕ → Fallible C
  unfolding new
  stateless_new algorithm key tag_len =
      if is_stateless algorithm then new algorithm key tag_len else wrong internal_error

  -- `StatelessAeadCtx::new_default_tag`
  unfoldable pub stateless_new_default_tag : Algorithm → List ℕ → Fallible C
  unfolding stateless_new
  stateless_new_default_tag algorithm key = stateless_new algorithm key v.default_tag_length
