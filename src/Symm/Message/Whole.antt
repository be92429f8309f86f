-- ===== src/Symm/Message/Whole.antt =====
-- A whole message of btls/src/symm.rs stays in its buffers and decrypts to what was encrypted.
use btls.Prelude.{
  ℕ, ◌+◌, ◌≤◌, ◌≡◌, refl, ap, ◌∙◌, subst, Option, List, ◌++◌, length, take, drop, c_int_max, arith,
  le→leb, length-append, length-drop, take-append_left, take-append_right, take-length,
}
use btls.Io.{fine}
use btls.Symm.{
  Mode, encrypt_mode, decrypt_mode, finished, ◌>>=◌, Evp, Crypter, new, update, finalize, zeros,
}
use btls.Symm.Message.{slice_from, truncated, cipher, encrypt, decrypt}
use btls.Symm.Message.Contract.{IsEvp, Returns, >>=-Returns, length-zeros}
use btls.Symm.Message.Parts.{
  used_iv, HasIv, Ready, new-Returns, Updated, update-Returns, Ended, finalize-Returns,
}

slice_from-fine : (n : ℕ) (o : List ℕ) → n ≤ length o → slice_from n o ≡ finished (fine (drop n o))
unfolding slice_from
slice_from-fine n o h = rw (le→leb n (length o) h) refl

joined : (a x y : List ℕ) (n : ℕ) → n ≤ length y → truncated (length a) n (a ++ x) y ≡ a ++ take n y
joined a x y n h =
    ap (λ b. take (length a + n) (b ++ y))
      (take-append_left (length a) a x (omega arith) ∙ take-length a)
    ∙ take-append_right n a y

module _ {T C : Type 0} {v : Evp T C}
    {transform : T → Mode → List ℕ → Option (List ℕ) → List ℕ → List ℕ} {Excuse : Type 0}
    (l : IsEvp v transform Excuse) where
  -- For a BoringSSL that keeps its contract, a key and a message whose lengths, with a block more,
  -- fit a c_int, and an IV where the cipher takes one: cipher never panics and BoringSSL writes
  -- within the buffers that it is given; unless a call of BoringSSL fails, cipher returns the whole
  -- transformed message.
  pub cipher-Returns :
      (t : T) (m : Mode) (key : List ℕ) (iv : Option (List ℕ)) (message : List ℕ)
      → length key ≤ c_int_max
      → HasIv l t iv
      → length message + v.block_length t ≤ c_int_max
      → Returns Excuse
          (λ out. out ≡ transform t m key (used_iv l t iv) message)
          (cipher v t m key iv message)
  unfolding cipher
  cipher-Returns t m key iv message hk hi hm =
      >>=-Returns Excuse (Ready l t m key iv) Result (new v t m key iv) _
        (new-Returns l t m key iv hk hi)
        λ k ready.
          >>=-Returns Excuse (Updated l t m key iv message out) Result (update v message out k) _
            (update-Returns l t m key iv message out k ready size (omega (arith, size)))
            λ u e. sliced u e
    where
      Result : List ℕ → Type 0
      Result out = out ≡ transform t m key (used_iv l t iv) message

      out : List ℕ
      out = zeros (length message + v.block_length t)

      size : length out ≡ length message + v.block_length t
      size = length-zeros (length message + v.block_length t)

      sliced :
          (u : ℕ × List ℕ × Crypter C)
          → Updated l t m key iv message out u
          → Returns Excuse Result (
              slice_from u.0 u.1 >>= λ rest.
              finalize v rest u.2 >>= λ f. finished (fine (truncated u.0 f.0 u.1 f.1)))
      sliced u e =
          let given = l.given u.2.ctx in
          let whole : length u.1 ≡ length out =
            ap length e.3
            ∙ length-append given (drop (length given) out)
            ∙ omega (arith, length-drop (length given) out, e.4, size) in
          rw (slice_from-fine u.0 u.1 (omega (arith, whole, size, e.2, e.4))) (
            >>=-Returns Excuse (Ended l t m key iv message given (drop u.0 u.1)) Result
              (finalize v (drop u.0 u.1) u.2) _
              (finalize-Returns l t m key iv message out (drop u.0 u.1) u e
                (omega (arith, length-drop u.0 u.1, whole, size, e.2, e.4)))
              λ f ef.
                (λ i. truncated (e.2 i) f.0 (e.3 i) f.1)
                ∙ joined given (drop (length given) out) f.1 f.0 ef.0
                ∙ ef.1)

  module _
      (inverse : (t : T) (key : List ℕ) (iv : Option (List ℕ)) (message : List ℕ)
        → transform t decrypt_mode key iv (transform t encrypt_mode key iv message) ≡ message) where
    -- For a BoringSSL that keeps its contract and whose decryption undoes its encryption, and lengths
    -- that fit a c_int with a block more: encrypting a message and decrypting what comes out with the
    -- same cipher, key and IV never panics, and unless a call of BoringSSL fails it returns the
    -- message.
    pub decrypt-encrypt :
        (t : T) (key : List ℕ) (iv : Option (List ℕ)) (message : List ℕ)
        → length key ≤ c_int_max
        → HasIv l t iv
        → length message + v.block_length t ≤ c_int_max
        → length (transform t encrypt_mode key (used_iv l t iv) message) + v.block_length t
          ≤ c_int_max
        → Returns Excuse (λ out. out ≡ message) (encrypt v t key iv message >>= decrypt v t key iv)
    unfolding encrypt decrypt
    decrypt-encrypt t key iv message hk hi hm hc =
        >>=-Returns Excuse (λ c. c ≡ transform t encrypt_mode key (used_iv l t iv) message)
          (λ out. out ≡ message) (cipher v t encrypt_mode key iv message) _
          (cipher-Returns t encrypt_mode key iv message hk hi hm)
          λ c e.
            subst (λ d. Returns Excuse (λ out. out ≡ d) (cipher v t decrypt_mode key iv c))
              (ap (transform t decrypt_mode key (used_iv l t iv)) e
                ∙ inverse t key (used_iv l t iv) message)
              (cipher-Returns t decrypt_mode key iv c hk hi (omega (arith, ap length e)))
