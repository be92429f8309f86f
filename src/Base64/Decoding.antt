-- ===== src/Base64/Decoding.antt =====
-- A text that `encode_block` of btls/src/base64.rs made is decoded again.
use btls.Prelude.{
  ℕ, ◌+◌, ◌-◌, ◌*◌, ◌/◌, ◌%◌, ◌≤◌, ◌<◌, ◌≡◌, ◌≢◌, refl, sym, ap, ◌∙◌, Bool-cases, ==→eq,
  append_assoc, subst, true, false, ◌&&◌, some, List, [], ◌∷◌, ◌++◌, ◌⊎◌, inl, inr, arith, ◌==◌,
  le→leb, ne→==, if◌then◌else◌, length, take, length-append, take-append_left, take_all, c_int_max,
  append-nil,
}
use btls.Io.{fine}
use btls.Symm.{finished, ◌>>=◌}
use btls.Base64.{
  Evp, decoded_len, is_whitespace, trim_start, trim_end, is_empty, str_len, ends_with_pad,
  ends_with_pads, pop, stripped, encoded, encode_block, decoded, decode_trimmed, decode_block,
}
use btls.Base64.Lengths.{encoded_size, encoded_len-room, decoded_len-room}

-- Characters of ASCII that are no blanks
abbrev pub Printable : List ℕ → Type 0
Printable [] = Unit {0}
Printable (c ∷ cs) = ((33 ≤ c) × (c < 127)) × Printable cs

abbrev pub Bytes : List ℕ → Type 0
Bytes [] = Unit {0}
Bytes (b ∷ bs) = (b < 256) × Bytes bs

-- The zeros that `EVP_DecodeBlock` leaves where the text is padded.
abbrev pub pad_zeros : ℕ → List ℕ
pad_zeros n = if n % 3 == 0 then [] else if n % 3 == 1 then 0 ∷ 0 ∷ [] else 0 ∷ []

-- The documented behaviour of base64 in BoringSSL: the size of the text, its characters, its padding,
-- and that decoding gives the bytes with zeros up to a multiple of three.
pub record IsEvp (v : Evp) : Type 0 where
  pub sizes : (s : List ℕ) → length (v.encode s) ≡ encoded_size (length s)
  pub prints : (s : List ℕ) → Printable (v.encode s)
  pub whole :
      (s : List ℕ)
      → length s % 3 ≡ 0
      → length s ≢ 0
      → (front : List ℕ) × (c : ℕ) × (c ≢ 61) × (v.encode s ≡ front ++ (c ∷ []))
  pub one_byte :
      (s : List ℕ) → length s % 3 ≡ 1 → (front : List ℕ) × (v.encode s ≡ front ++ (61 ∷ 61 ∷ []))
  pub two_bytes :
      (s : List ℕ)
      → length s % 3 ≡ 2
      → (front : List ℕ) × (c : ℕ) × (c ≢ 61) × (v.encode s ≡ front ++ (c ∷ 61 ∷ []))
  pub decodes : (s : List ℕ) → Bytes s → v.decode (v.encode s) ≡ fine (s ++ pad_zeros (length s))

not_blank : (c : ℕ) → 33 ≤ c → c < 127 → is_whitespace c ≡ false
not_blank c a b = ground arith

trim_start-same : (s : List ℕ) → Printable s → trim_start s ≡ s
unfolding trim_start
trim_start-same [] p = refl
trim_start-same (c ∷ cs) ((a, b), ps) = rw (not_blank c a b) refl

trim_end-same : (s : List ℕ) → Printable s → trim_end s ≡ s
unfolding trim_end
trim_end-same [] p = refl
trim_end-same (c ∷ cs) ((a, b), ps) =
    rw (trim_end-same cs ps, not_blank c a b) (no_blank (is_empty cs))
  where
    no_blank : (e : _) → (if e && false then [] else c ∷ cs) ≡ c ∷ cs
    no_blank true = refl
    no_blank false = refl

str_len-length : (s : List ℕ) → Printable s → str_len s ≡ length s
unfolding str_len
str_len-length [] p = refl
str_len-length (c ∷ cs) ((a, b), ps) = let r = str_len-length cs ps in ground arith

pad-last : (front : List ℕ) (c : ℕ) → ends_with_pad (front ++ (c ∷ [])) ≡ (c == 61)
unfolding ends_with_pad
pad-last [] c = refl
pad-last (x ∷ []) c = refl
pad-last (x ∷ y ∷ front) c = pad-last (y ∷ front) c

pads-last :
    (front : List ℕ) (c d : ℕ) → ends_with_pads (front ++ (c ∷ d ∷ [])) ≡ (c == 61 && d == 61)
unfolding ends_with_pads
pads-last [] c d = refl
pads-last (x ∷ []) c d = refl
pads-last (x ∷ y ∷ []) c d = refl
pads-last (x ∷ y ∷ z ∷ front) c d = pads-last (y ∷ z ∷ front) c d

pop-snoc : (s : List ℕ) (x : ℕ) → pop (s ++ (x ∷ [])) ≡ s
pop-snoc s x =
    ap (λ n. take n (s ++ (x ∷ []))) {x = length (s ++ (x ∷ [])) - 1} {y = length s}
      (omega (arith, length-append s (x ∷ [])))
    ∙ take-append_left (length s) s (x ∷ []) (omega arith)
    ∙ take_all (length s) s (omega arith)

-- What is left when the padding of a text is known.
no_pad : (e out : List ℕ) → ends_with_pad e ≡ false → stripped e out ≡ out
no_pad e out h = rw h refl

one_pad :
    (e s : List ℕ)
    → ends_with_pad e ≡ true
    → ends_with_pads e ≡ false
    → stripped e (s ++ (0 ∷ [])) ≡ s
one_pad e s h k = rw (h, k) (pop-snoc s 0)

two_pads :
    (e s : List ℕ)
    → ends_with_pad e ≡ true
    → ends_with_pads e ≡ true
    → stripped e (s ++ (0 ∷ 0 ∷ [])) ≡ s
two_pads e s h k =
    rw (h, k)
      (ap (λ z. pop (pop z)) (sym (append_assoc s (0 ∷ []) (0 ∷ [])))
        ∙ ap pop (pop-snoc (s ++ (0 ∷ [])) 0)
        ∙ pop-snoc s 0)

rem-cases : (n : ℕ) → (n % 3 ≡ 0) ⊎ ((n % 3 ≡ 1) ⊎ (n % 3 ≡ 2))
rem-cases n = elim (Bool-cases (n % 3 == 0)) [
  | inl e ↦ inl (==→eq (n % 3) 0 e)
  | inr e ↦ elim (Bool-cases (n % 3 == 1)) [
    | inl f ↦ inr (inl (==→eq (n % 3) 1 f))
    | inr f ↦ inr (inr (ground arith))
  ]
]

pads_snoc : (front : List ℕ) (c d : ℕ) → ends_with_pad (front ++ (c ∷ d ∷ [])) ≡ (d == 61)
pads_snoc front c d =
    ap ends_with_pad (sym (append_assoc front (c ∷ []) (d ∷ []))) ∙ pad-last (front ++ (c ∷ [])) d

module _ {v : Evp} (l : IsEvp v) where
  stripped-encode :
      (s : List ℕ) → length s ≢ 0 → stripped (v.encode s) (s ++ pad_zeros (length s)) ≡ s
  stripped-encode s n = elim (rem-cases (length s)) [
    | inl e ↦
        let w = l.whole s e n in
        ap (λ z. stripped (v.encode s) (s ++ z)) {x = pad_zeros (length s)} {y = []} (rw e refl)
        ∙ no_pad (v.encode s) (s ++ []) (ap ends_with_pad w.3 ∙ pad-last w.0 w.1 ∙ ne→== w.1 61 w.2)
        ∙ append-nil s
    | inr (inl e) ↦
        let w = l.one_byte s e in
        ap (λ z. stripped (v.encode s) (s ++ z)) {x = pad_zeros (length s)} {y = 0 ∷ 0 ∷ []}
          (rw e refl)
        ∙ two_pads (v.encode s) s (ap ends_with_pad w.1 ∙ pads_snoc w.0 61 61)
            (ap ends_with_pads w.1 ∙ pads-last w.0 61 61)
    | inr (inr e) ↦
        let w = l.two_bytes s e in
        ap (λ z. stripped (v.encode s) (s ++ z)) {x = pad_zeros (length s)} {y = 0 ∷ []} (rw e refl)
        ∙ one_pad (v.encode s) s (ap ends_with_pad w.3 ∙ pads_snoc w.0 w.1 61)
            (ap ends_with_pads w.3 ∙ pads-last w.0 w.1 61 ∙ ap (λ b. b && true) (ne→== w.1 61 w.2))
  ]

  encode_block-fine :
      (s : List ℕ) → length s ≤ c_int_max → encode_block v s ≡ finished (fine (v.encode s))
  unfolding encode_block encoded
  encode_block-fine s h =
      rw
        (
          le→leb (length s) c_int_max h,
          encoded_len-room (length s) h,
          le→leb (length (v.encode s) + 1) (encoded_size (length s) + 1) (omega (arith, l.sizes s)),
        )
        refl

  decoded-fine :
      (s : List ℕ) (len : ℕ)
      → Bytes s
      → length s ≢ 0
      → length (s ++ pad_zeros (length s)) ≤ len
      → decoded v (v.encode s) (some len) (v.decode (v.encode s)) ≡ finished (fine s)
  unfolding decoded
  decoded-fine s len bytes n room =
      ap (decoded v (v.encode s) (some len)) (l.decodes s bytes)
      ∙ rw (le→leb (length (s ++ pad_zeros (length s))) len room)
          (ap (λ z. finished (fine z)) (stripped-encode s n))

  -- The bytes and their zeros fill the room that is made for them.
  padded_size : (s : List ℕ) → length (s ++ pad_zeros (length s)) ≤ encoded_size (length s) / 4 * 3
  padded_size s =
      let e = length-append s (pad_zeros (length s)) in
      let k : length (pad_zeros (length s)) + length s ≤ encoded_size (length s) / 4 * 3 =
        zeros_size (length s) in
      omega (arith, e, k)
    where
      zeros_size : (n : ℕ) → length (pad_zeros n) + n ≤ (n + 2) / 3 * 4 / 4 * 3
      zeros_size n = ground arith

  decode_text :
      (s e : List ℕ)
      → Bytes s
      → encoded_size (length s) ≤ c_int_max
      → v.encode s ≡ e
      → decode_trimmed v e ≡ finished (fine s)
  unfolding decode_trimmed
  decode_text [] [] bytes h q = refl
  decode_text (x ∷ s) [] bytes h q = absurd (omega (arith, l.sizes (x ∷ s), ap length q))
  decode_text s (c ∷ cs) bytes h q =
      let size : length (c ∷ cs) ≡ encoded_size (length s) = sym (ap length q) ∙ l.sizes s in
      let n : length s ≢ 0 = λ z. omega (arith, size, z) in
      let text : str_len (c ∷ cs) ≡ length (c ∷ cs) =
        str_len-length (c ∷ cs) (subst Printable q (l.prints s)) in
      let room : decoded_len (length (c ∷ cs)) ≡ some (length (c ∷ cs) / 4 * 3) =
        decoded_len-room (length (c ∷ cs)) (omega (arith, size, h)) (omega (arith, size)) in
      rw (text, le→leb (length (c ∷ cs)) c_int_max (omega (arith, size, h)), room)
        (ap (λ z. decoded v z (some (length (c ∷ cs) / 4 * 3)) (v.decode z)) (sym q)
          ∙ decoded-fine s (length (c ∷ cs) / 4 * 3) bytes n (omega (arith, padded_size s, size)))

  -- For a BoringSSL whose base64 is as documented, and bytes whose text fits a c_int: encode_block and
  -- then decode_block on the text return the bytes; neither panics, and BoringSSL never writes
  -- more than the room that was made for it.
  pub decode_block-encode_block :
      (s : List ℕ)
      → Bytes s
      → encoded_size (length s) ≤ c_int_max
      → encode_block v s >>= decode_block v ≡ finished (fine s)
  unfolding decode_block
  decode_block-encode_block s bytes h =
      ap (λ r. r >>= decode_block v) (encode_block-fine s (omega (arith, h)))
      ∙ ap (λ z. decode_trimmed v (trim_end z)) (trim_start-same (v.encode s) (l.prints s))
      ∙ ap (decode_trimmed v) (trim_end-same (v.encode s) (l.prints s))
      ∙ decode_text s (v.encode s) bytes h refl
