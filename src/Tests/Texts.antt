-- ===== src/Tests/Texts.antt =====
-- Base64 with another alphabet: the digit n is the character n + 62.
use btls.Prelude.{
  ℕ, suc, ◌+◌, ◌-◌, ◌*◌, ◌/◌, ◌%◌, ◌≤◌, ◌<◌, ◌≡◌, ◌≢◌, refl, ap, ◌∙◌, List, [], ◌∷◌, ◌++◌, length,
  arith, ◌==◌, if◌then◌else◌,
}
use btls.Io.{fine}
use btls.Symm.{finished, ◌>>=◌}
use btls.Base64.{Evp, encode_block, decode_block}
use btls.Base64.Lengths.{encoded_size}
use btls.Base64.Decoding.{Printable, Bytes, pad_zeros, IsEvp, decode_block-encode_block}

abbrev joined : ℕ → ℕ → ℕ → ℕ
joined a b c = a * 65536 + (b * 256 + c)

abbrev digit : ℕ → ℕ
digit n = n % 64 + 62

abbrev quad : ℕ → ℕ → ℕ → List ℕ → List ℕ
quad a b c rest =
    digit (joined a b c / 262144)
    ∷ digit (joined a b c / 4096)
    ∷ digit (joined a b c / 64)
    ∷ digit (joined a b c)
    ∷ rest

abbrev enc : List ℕ → List ℕ
enc [] = []
enc (a ∷ []) = digit (joined a 0 0 / 262144) ∷ digit (joined a 0 0 / 4096) ∷ 61 ∷ 61 ∷ []
enc (a ∷ b ∷ []) =
    digit (joined a b 0 / 262144)
    ∷ digit (joined a b 0 / 4096)
    ∷ digit (joined a b 0 / 64)
    ∷ 61
    ∷ []
enc (a ∷ b ∷ c ∷ s) = quad a b c (enc s)

abbrev value : ℕ → ℕ → ℕ → ℕ → ℕ
value p q r t = (p - 62) * 262144 + ((q - 62) * 4096 + ((r - 62) * 64 + (t - 62)))

abbrev dec : List ℕ → List ℕ
dec (p ∷ q ∷ r ∷ t ∷ cs) =
    value p q r t / 65536 ∷ value p q r t / 256 % 256 ∷ value p q r t % 256 ∷ dec cs
dec _ = []

abbrev digits_evp : Evp
digits_evp = record { encode = enc; decode = λ s. fine (dec s) }

enc-size : (s : List ℕ) → length (enc s) ≡ encoded_size (length s)
enc-size [] = refl
enc-size (a ∷ []) = refl
enc-size (a ∷ b ∷ []) = refl
enc-size (a ∷ b ∷ c ∷ s) = omega (arith, enc-size s)

digit-Printable : (n : ℕ) → (33 ≤ digit n) × (digit n < 127)
digit-Printable n = (omega arith, omega arith)

enc-Printable : (s : List ℕ) → Printable (enc s)
enc-Printable [] = tt
enc-Printable (a ∷ []) = (
  digit-Printable _,
  (digit-Printable _, ((omega arith, omega arith), ((omega arith, omega arith), tt))),
)
enc-Printable (a ∷ b ∷ []) =
    (digit-Printable _, (digit-Printable _, (digit-Printable _, ((omega arith, omega arith), tt))))
enc-Printable (a ∷ b ∷ c ∷ s) = (
  digit-Printable _,
  (digit-Printable _, (digit-Printable _, (digit-Printable _, enc-Printable s))),
)

digit-ne : (n : ℕ) → digit n ≢ 61
digit-ne n h = omega (arith, h)

enc-whole :
    (s : List ℕ)
    → length s % 3 ≡ 0
    → length s ≢ 0
    → (front : List ℕ) × (c : ℕ) × (c ≢ 61) × (enc s ≡ front ++ (c ∷ []))
enc-whole [] e n = absurd (n refl)
enc-whole (a ∷ []) e n = absurd (omega (arith, e))
enc-whole (a ∷ b ∷ []) e n = absurd (omega (arith, e))
enc-whole (a ∷ b ∷ c ∷ []) e n = (
  digit (joined a b c / 262144) ∷ digit (joined a b c / 4096) ∷ digit (joined a b c / 64) ∷ [],
  digit (joined a b c),
  digit-ne (joined a b c),
  refl,
)
enc-whole (a ∷ b ∷ c ∷ d ∷ s) e n =
    let r = enc-whole (d ∷ s) (omega (arith, e)) (λ z. omega (arith, z)) in
    (quad a b c r.0, r.1, r.2, ap (quad a b c) r.3)

enc-one : (s : List ℕ) → length s % 3 ≡ 1 → (front : List ℕ) × (enc s ≡ front ++ (61 ∷ 61 ∷ []))
enc-one [] e = absurd (omega (arith, e))
enc-one (a ∷ []) e = (digit (joined a 0 0 / 262144) ∷ digit (joined a 0 0 / 4096) ∷ [], refl)
enc-one (a ∷ b ∷ []) e = absurd (omega (arith, e))
enc-one (a ∷ b ∷ c ∷ s) e =
    let r = enc-one s (omega (arith, e)) in (quad a b c r.0, ap (quad a b c) r.1)

enc-two :
    (s : List ℕ)
    → length s % 3 ≡ 2
    → (front : List ℕ) × (c : ℕ) × (c ≢ 61) × (enc s ≡ front ++ (c ∷ 61 ∷ []))
enc-two [] e = absurd (omega (arith, e))
enc-two (a ∷ []) e = absurd (omega (arith, e))
enc-two (a ∷ b ∷ []) e = (
  digit (joined a b 0 / 262144) ∷ digit (joined a b 0 / 4096) ∷ [],
  digit (joined a b 0 / 64),
  digit-ne (joined a b 0 / 64),
  refl,
)
enc-two (a ∷ b ∷ c ∷ s) e =
    let r = enc-two s (omega (arith, e)) in (quad a b c r.0, r.1, r.2, ap (quad a b c) r.3)

-- Four digits give back the three bytes.
value-joined :
    (a b c : ℕ)
    → a < 256
    → b < 256
    → c < 256
    → value
        (digit (joined a b c / 262144))
        (digit (joined a b c / 4096))
        (digit (joined a b c / 64))
        (digit (joined a b c))
      ≡ joined a b c
value-joined a b c h i j = omega (arith, h, i, j)

pad_zeros-three : (n : ℕ) → pad_zeros n ≡ pad_zeros (suc (suc (suc n)))
pad_zeros-three n =
    ap (λ r. if r == 0 then [] else if r == 1 then 0 ∷ 0 ∷ [] else 0 ∷ []) {x = n % 3}
      {y = suc (suc (suc n)) % 3} (omega arith)

three_bytes :
    (a b c n : ℕ) (s : List ℕ)
    → a < 256
    → b < 256
    → c < 256
    → n ≡ joined a b c
    → n / 65536 ∷ n / 256 % 256 ∷ n % 256 ∷ s ≡ a ∷ b ∷ c ∷ s
three_bytes a b c n s h i j e =
    ap (λ x. x ∷ n / 256 % 256 ∷ n % 256 ∷ s) {x = n / 65536} {y = a} (omega (arith, e, h, i, j))
    ∙ ap (λ x. a ∷ x ∷ n % 256 ∷ s) {x = n / 256 % 256} {y = b} (omega (arith, e, h, i, j))
    ∙ ap (λ x. a ∷ b ∷ x ∷ s) {x = n % 256} {y = c} (omega (arith, e, h, i, j))

dec-enc : (s : List ℕ) → Bytes s → dec (enc s) ≡ s ++ pad_zeros (length s)
dec-enc [] p = refl
dec-enc (a ∷ []) (h, p) = three_bytes a 0 0 _ [] h (omega arith) (omega arith) (omega (arith, h))
dec-enc (a ∷ b ∷ []) (h, (i, p)) = three_bytes a b 0 _ [] h i (omega arith) (omega (arith, h, i))
dec-enc (a ∷ b ∷ c ∷ s) (h, (i, (j, p))) =
    three_bytes a b c _ (dec (enc s)) h i j (value-joined a b c h i j)
    ∙ ap (λ z. a ∷ b ∷ c ∷ z) (dec-enc s p ∙ ap (◌++◌ s) (pad_zeros-three (length s)))

digits-IsEvp : IsEvp digits_evp
digits-IsEvp = record {
  sizes = enc-size;
  prints = enc-Printable;
  whole = enc-whole;
  one_byte = enc-one;
  two_bytes = enc-two;
  decodes = λ s p. ap fine (dec-enc s p);
}

texts_example :
    encode_block digits_evp (255 ∷ 0 ∷ 17 ∷ 4 ∷ []) >>= decode_block digits_evp
    ≡ finished (fine (255 ∷ 0 ∷ 17 ∷ 4 ∷ []))
texts_example =
    decode_block-encode_block digits-IsEvp (255 ∷ 0 ∷ 17 ∷ 4 ∷ [])
      (omega arith, (omega arith, (omega arith, (omega arith, tt)))) (omega arith)
