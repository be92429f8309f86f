-- ===== src/Aead/Contract.antt =====
-- What BoringSSL documents of the contexts of btls/src/aead.rs.
use btls.Prelude.{ℕ, ◌≤◌, ◌≡◌, true, List, ◌++◌, take, drop, length}
use btls.Io.{Fallible, fine, wrong}
use btls.Aead.{Algorithm, EvpAead, is_stateless}

-- A call that succeeds gives its value a property.
abbrev pub WhenFine : {A : Type 0} → (A → Type 0) → Fallible A → Type 0
WhenFine P (fine a) = P a
WhenFine P (wrong e) = Unit {0}

-- `ciphertext` and `tag` are the functions of the nonce, the associated data and the message that a
-- context stands for.
pub record IsAead {C : Type 0} (v : EvpAead C) : Type 0 where
  pub algorithm_of : C → Algorithm
  pub ciphertext : C → List ℕ → List ℕ → List ℕ → List ℕ
  pub tag : C → List ℕ → List ℕ → List ℕ → List ℕ
  pub ciphertext_len :
      (c : C) (nonce ad message : List ℕ) → length (ciphertext c nonce ad message) ≡ length message
  pub creates :
      (a : Algorithm) (key : List ℕ) (n : ℕ)
      → WhenFine (λ c. algorithm_of c ≡ a) (v.ctx_new a key n)
  -- A generic AEAD keeps no state.
  pub seal_pure :
      (c : C) (nonce message extra ad : List ℕ) (room : ℕ)
      → is_stateless (algorithm_of c) ≡ true
      → (v.seal_scatter c nonce message extra ad room).ctx ≡ c
  pub open_pure :
      (c : C) (nonce message t ad : List ℕ)
      → is_stateless (algorithm_of c) ≡ true
      → (v.open_gather c nonce message t ad).ctx ≡ c
  -- The ciphertext of the plaintext replaces it; that of the extra plaintext and the tag follow.
  pub seals :
      (c : C) (nonce message extra ad : List ℕ) (room : ℕ)
      → (v.seal_scatter c nonce message extra ad room).status ≡ fine tt
      → ((v.seal_scatter c nonce message extra ad room).in_out
          ≡ take (length message) (ciphertext c nonce ad (message ++ extra)))
        × ((v.seal_scatter c nonce message extra ad room).written
            ≡ drop (length message) (ciphertext c nonce ad (message ++ extra))
              ++ tag c nonce ad (message ++ extra))
        × (length (v.seal_scatter c nonce message extra ad room).written ≤ room)
  pub opens :
      (c : C) (nonce ad message : List ℕ)
      → is_stateless (algorithm_of c) ≡ true
      → ((v.open_gather c nonce (ciphertext c nonce ad message) (tag c nonce ad message) ad).status
          ≡ fine tt)
        × ((v.open_gather c nonce
              (ciphertext c nonce ad message)
              (tag c nonce ad message)
              ad).in_out
            ≡ message)
