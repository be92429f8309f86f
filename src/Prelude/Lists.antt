-- ===== src/Prelude/Lists.antt =====
-- Slices: lists measured, cut and joined by native numbers, under the library's names.
use Prim.Native.Nat.{ℕ, zero, suc, ◌+◌, ◌-◌, ◌≤◌, ◌<◌, min}
use mathlib.Core.Path.{◌≡◌, refl, ap, ◌∙◌, sym}
use mathlib.Core.Logic.{◌⊎◌, inl, inr}
use mathlib.Core.List.{List, [], ◌∷◌, ◌++◌, append-nil, append_assoc}
use native.Mathlib.Omega.{arith}

module _ {ℓ} {A : Type ℓ} where
  abbrev pub length : List A → ℕ
  length [] = 0
  length (x ∷ xs) = suc (length xs)

  abbrev pub get_or : List A → ℕ → A → A
  get_or [] i d = d
  get_or (x ∷ xs) zero d = x
  get_or (x ∷ xs) (suc i) d = get_or xs i d

  abbrev pub take : ℕ → List A → List A
  take zero xs = []
  take (suc n) [] = []
  take (suc n) (x ∷ xs) = x ∷ take n xs

  abbrev pub drop : ℕ → List A → List A
  drop zero xs = xs
  drop (suc n) [] = []
  drop (suc n) (x ∷ xs) = drop n xs

  -- The bytes of the slices, in order.
  abbrev pub flatten : List (List A) → List A
  flatten [] = []
  flatten (x ∷ xs) = x ++ flatten xs

module _ {ℓ} {A : Type ℓ} where
  pub length-append : (xs ys : List A) → length (xs ++ ys) ≡ length xs + length ys
  length-append [] ys = omega arith
  length-append (x ∷ xs) ys = omega (arith, length-append xs ys)

  pub length-take : (n : ℕ) (xs : List A) → length (take n xs) ≡ min n (length xs)
  length-take zero xs = omega arith
  length-take (suc n) [] = omega arith
  length-take (suc n) (x ∷ xs) = omega (arith, length-take n xs)

  pub length-drop : (n : ℕ) (xs : List A) → length (drop n xs) ≡ length xs - n
  length-drop zero xs = omega arith
  length-drop (suc n) [] = omega arith
  length-drop (suc n) (x ∷ xs) = omega (arith, length-drop n xs)

  pub take-append-drop : (n : ℕ) (xs : List A) → take n xs ++ drop n xs ≡ xs
  take-append-drop zero xs = refl
  take-append-drop (suc n) [] = refl
  take-append-drop (suc n) (x ∷ xs) = rw (take-append-drop n xs)

  pub drop-nil : (n : ℕ) → drop {A = A} n [] ≡ []
  drop-nil zero = refl
  drop-nil (suc n) = refl

  pub take-nil : (n : ℕ) → take {A = A} n [] ≡ []
  take-nil zero = refl
  take-nil (suc n) = refl

  pub drop_all : (n : ℕ) (xs : List A) → length xs ≤ n → drop n xs ≡ []
  drop_all zero [] h = refl
  drop_all zero (x ∷ xs) h = absurd (omega arith)
  drop_all (suc n) [] h = refl
  drop_all (suc n) (x ∷ xs) h = drop_all n xs (omega arith)

  pub take_all : (n : ℕ) (xs : List A) → length xs ≤ n → take n xs ≡ xs
  take_all zero [] h = refl
  take_all zero (x ∷ xs) h = absurd (omega arith)
  take_all (suc n) [] h = refl
  take_all (suc n) (x ∷ xs) h = ap (◌∷◌ x) (take_all n xs (omega arith))

  pub take-length : (xs : List A) → take (length xs) xs ≡ xs
  take-length xs = take_all (length xs) xs (omega arith)

  pub drop-drop : (m n : ℕ) (xs : List A) → drop m (drop n xs) ≡ drop (n + m) xs
  drop-drop m zero xs = ap (λ k. drop k xs) (omega arith)
  drop-drop m (suc n) [] = drop-nil m ∙ sym (drop-nil (suc n + m))
  drop-drop m (suc n) (x ∷ xs) =
      drop-drop m n xs ∙ ap (λ k. drop k (x ∷ xs)) {x = suc (n + m)} {y = suc n + m} (omega arith)

  -- A cut inside the first part, and one beyond it.
  pub drop-append_left :
      (n : ℕ) (xs ys : List A) → n ≤ length xs → drop n (xs ++ ys) ≡ drop n xs ++ ys
  drop-append_left zero xs ys h = refl
  drop-append_left (suc n) [] ys h = absurd (omega arith)
  drop-append_left (suc n) (x ∷ xs) ys h = drop-append_left n xs ys (omega arith)

  pub drop-append_right : (n : ℕ) (xs ys : List A) → drop (length xs + n) (xs ++ ys) ≡ drop n ys
  drop-append_right n [] ys = ap (λ k. drop k ys) (omega arith)
  drop-append_right n (x ∷ xs) ys =
      ap (λ k. drop k (x ∷ xs ++ ys)) {x = suc (length xs) + n} {y = suc (length xs + n)}
        (omega arith)
      ∙ drop-append_right n xs ys

  pub take-append_left : (n : ℕ) (xs ys : List A) → n ≤ length xs → take n (xs ++ ys) ≡ take n xs
  take-append_left zero xs ys h = refl
  take-append_left (suc n) [] ys h = absurd (omega arith)
  take-append_left (suc n) (x ∷ xs) ys h = ap (◌∷◌ x) (take-append_left n xs ys (omega arith))

  pub take-append_right :
      (n : ℕ) (xs ys : List A) → take (length xs + n) (xs ++ ys) ≡ xs ++ take n ys
  take-append_right n [] ys = ap (λ k. take k ys) (omega arith)
  take-append_right n (x ∷ xs) ys =
      ap (λ k. take k (x ∷ xs ++ ys)) {x = suc (length xs) + n} {y = suc (length xs + n)}
        (omega arith)
      ∙ ap (◌∷◌ x) (take-append_right n xs ys)

  -- Taking twice in a row is taking once.
  pub take_add : (m n : ℕ) (xs : List A) → take m xs ++ take n (drop m xs) ≡ take (m + n) xs
  take_add zero n xs = ap (λ k. take k xs) (omega arith)
  take_add (suc m) n [] = take-nil n ∙ sym (take-nil (suc m + n))
  take_add (suc m) n (x ∷ xs) =
      ap (◌∷◌ x) (take_add m n xs)
      ∙ ap (λ k. take k (x ∷ xs)) {x = suc (m + n)} {y = suc m + n} (omega arith)

  pub take-take : (m n : ℕ) (xs : List A) → m ≤ n → take m (take n xs) ≡ take m xs
  take-take zero n xs h = refl
  take-take (suc m) zero xs h = absurd (omega arith)
  take-take (suc m) (suc n) [] h = refl
  take-take (suc m) (suc n) (x ∷ xs) h = ap (◌∷◌ x) (take-take m n xs (omega arith))

  pub flatten-append : (xs ys : List (List A)) → flatten (xs ++ ys) ≡ flatten xs ++ flatten ys
  flatten-append [] ys = refl
  flatten-append (x ∷ xs) ys =
      ap (◌++◌ x) (flatten-append xs ys) ∙ sym (append_assoc x (flatten xs) (flatten ys))

  -- `xs[i..]` opened at its first element.
  pub drop-cons :
      (i : ℕ) (xs : List A) (d : A) → i < length xs → drop i xs ≡ get_or xs i d ∷ drop (suc i) xs
  drop-cons i [] d h = absurd (omega arith)
  drop-cons zero (x ∷ xs) d h = refl
  drop-cons (suc i) (x ∷ xs) d h = drop-cons i xs d (omega arith)

module _ {ℓ} {A : Type ℓ} where
  pub List-cases : (xs : List A) → (xs ≡ []) ⊎ ((x : A) × (rest : List A) × (xs ≡ x ∷ rest))
  List-cases [] = inl refl
  List-cases (x ∷ xs) = inr (x, xs, refl)

  -- What `xs[i..]` says of `xs[i + 1..]`, of `xs[i]` and of `i`.
  pub drop_next :
      (i : ℕ) (xs : List A) {y : A} {ys : List A} → drop i xs ≡ y ∷ ys → drop (i + 1) xs ≡ ys
  drop_next zero [] e = cc
  drop_next zero (x ∷ xs) e = cc
  drop_next (suc i) [] e = cc
  drop_next (suc i) (x ∷ xs) e =
      ap (λ k. drop k (x ∷ xs)) {x = suc i + 1} {y = suc (i + 1)} (omega arith) ∙ drop_next i xs e

  pub get_or_of_drop :
      (i : ℕ) (xs : List A) (d : A) {y : A} {ys : List A} → drop i xs ≡ y ∷ ys → get_or xs i d ≡ y
  get_or_of_drop zero [] d e = cc
  get_or_of_drop zero (x ∷ xs) d e = cc
  get_or_of_drop (suc i) [] d e = cc
  get_or_of_drop (suc i) (x ∷ xs) d e = get_or_of_drop i xs d e

  pub get_or-drop : (i k : ℕ) (xs : List A) (d : A) → get_or (drop i xs) k d ≡ get_or xs (i + k) d
  get_or-drop zero k xs d = ap (λ j. get_or xs j d) (omega arith)
  get_or-drop (suc i) k [] d = refl
  get_or-drop (suc i) k (x ∷ xs) d =
      get_or-drop i k xs d
      ∙ ap (λ j. get_or (x ∷ xs) j d) {x = suc (i + k)} {y = suc i + k} (omega arith)

  -- Whole slices and a part of the next are a prefix of the joined slices.
  pub flatten_prefix :
      (k t : ℕ) (xs : List (List A))
      → t ≤ length (get_or xs k [])
      → (flatten (take k xs) ++ take t (get_or xs k [])
          ≡ take (length (flatten (take k xs)) + t) (flatten xs))
        × (length (flatten (take k xs)) + t ≤ length (flatten xs))
  flatten_prefix zero t [] h = (take-nil t ∙ sym (take-nil (0 + t)), omega arith)
  flatten_prefix (suc k) t [] h = (take-nil t ∙ sym (take-nil (0 + t)), omega arith)
  flatten_prefix zero t (x ∷ xs) h = (
    sym (take-append_left t x (flatten xs) h)
        ∙ ap (λ j. take j (x ++ flatten xs)) {x = t} {y = 0 + t} (omega arith),
    omega (arith, length-append x (flatten xs)),
  )
  flatten_prefix (suc k) t (x ∷ xs) h =
      let ih = flatten_prefix k t xs h in
      (
        append_assoc x (flatten (take k xs)) (take t (get_or xs k []))
            ∙ ap (◌++◌ x) ih.0
            ∙ sym (take-append_right (length (flatten (take k xs)) + t) x (flatten xs))
            ∙ ap (λ j. take j (x ++ flatten xs))
                (omega (arith, length-append x (flatten (take k xs)))),
        omega (arith, ih.1, length-append x (flatten xs), length-append x (flatten (take k xs))),
      )

pub ruleset slices = (append-nil, append_assoc)
