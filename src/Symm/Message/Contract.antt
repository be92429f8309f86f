-- ===== src/Symm/Message/Contract.antt =====
-- What BoringSSL documents of the contexts of btls/src/symm.rs, and runs that go well.
use btls.Prelude.{
  ℕ, zero, suc, ◌≤◌, ◌≡◌, refl, Option, List, [], ◌++◌, length, c_int_max, arith, le→leb,
}
use btls.Io.{Fallible, fine, wrong}
use btls.Symm.{Mode, Run, finished, panicked, overran, ◌>>=◌, Evp, try_int, extra, zeros}

-- What a call gives where it succeeds; `Excuse` follows where it fails.
abbrev pub Gives : {A : Type 0} → Type 0 → (A → Type 0) → Fallible A → Type 0
Gives Excuse P (fine a) = P a
Gives Excuse P (wrong e) = Excuse

-- The documented behaviour of contexts. `keyed_for` names the function that a context applies to the
-- message, `taken` and `given` the bytes that it has read and written.
pub record IsEvp {T C : Type 0} (v : Evp T C)
    (transform : T → Mode → List ℕ → Option (List ℕ) → List ℕ → List ℕ) (Excuse : Type 0)
    : Type 0 where
  pub cipher_of : C → T × Mode
  pub keyed_for : C → List ℕ → List ℕ
  pub taken : C → List ℕ
  pub given : C → List ℕ
  pub creates : Gives Excuse (λ c. Unit {0}) v.ctx_new
  pub inits :
      (t : T) (m : Mode) (c : C) → Gives Excuse (λ c'. cipher_of c' ≡ (t, m)) (v.cipher_init t m c)
  pub sets_key :
      (n : ℕ) (c : C) → Gives Excuse (λ c'. cipher_of c' ≡ cipher_of c) (v.set_key_length n c)
  pub sets_iv :
      (n : ℕ) (c : C) → Gives Excuse (λ c'. cipher_of c' ≡ cipher_of c) (v.set_iv_length n c)
  -- After the key and the IV are set, nothing has been read or written.
  pub keys :
      (t : T) (m : Mode) (key : List ℕ) (iv : Option (List ℕ)) (c : C)
      → cipher_of c ≡ (t, m)
      → Gives Excuse
          (λ c'.
            (keyed_for c' ≡ transform t m key iv)
            × (taken c' ≡ [])
            × (given c' ≡ [])
            × (cipher_of c' ≡ (t, m)))
          (v.key_init key iv m c)
  -- Before the end no more has been written than read.
  pub updates :
      (input : List ℕ) (c : C)
      → Gives Excuse
          (λ r.
            (keyed_for r.1 ≡ keyed_for c)
            × (taken r.1 ≡ taken c ++ input)
            × (given r.1 ≡ given c ++ r.0)
            × (length (given r.1) ≤ length (taken r.1))
            × (cipher_of r.1 ≡ cipher_of c))
          (v.cipher_update input c)
  -- The end writes a block at most, and nothing for a stream cipher.
  pub finals :
      (c : C)
      → Gives Excuse
          (λ r.
            (given c ++ r.0 ≡ keyed_for c (taken c))
            × (length r.0 ≤ extra (v.block_length (cipher_of c).0)))
          (v.cipher_final c)

-- A run that returns a value with a property: no panic, and no write out of bounds.
abbrev pub Returns : {A : Type 0} → Type 0 → (A → Type 0) → Run A → Type 0
Returns Excuse P (finished r) = Gives Excuse P r
Returns Excuse P panicked = ⊥
Returns Excuse P overran = ⊥

pub >>=-Returns :
    {A B : Type 0} (Excuse : Type 0) (P : A → Type 0) (Q : B → Type 0) (m : Run A) (f : A → Run B)
    → Returns Excuse P m
    → ((a : A) → P a → Returns Excuse Q (f a))
    → Returns Excuse Q (m >>= f)
>>=-Returns Excuse P Q (finished (fine a)) f p k = k a p
>>=-Returns Excuse P Q (finished (wrong e)) f p k = p
>>=-Returns Excuse P Q panicked f p k = absurd p
>>=-Returns Excuse P Q overran f p k = absurd p

pub try_int-Gives :
    (Excuse : Type 0) (n : ℕ) → n ≤ c_int_max → Gives Excuse (λ m. m ≡ n) (try_int n)
unfolding try_int
try_int-Gives Excuse n h = rw (le→leb n c_int_max h) refl

pub extra-le : (n : ℕ) → extra n ≤ n
extra-le n = ground arith

pub length-zeros : (n : ℕ) → length (zeros n) ≡ n
length-zeros zero = refl
length-zeros (suc n) = omega (arith, length-zeros n)
