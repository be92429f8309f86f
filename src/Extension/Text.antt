-- ===== src/Extension/Text.antt =====
-- The text of an extension: `append`, and the list of elements that it writes.
use btls.Prelude.{
  ℕ, zero, suc, ◌+◌, ◌/◌, ◌%◌, ◌≡◌, refl, sym, ap, ◌∙◌, Bool, true, false, List, [], ◌∷◌, ltb,
  if◌then◌else◌,
}
use Prim.Native.String.{String, ◌++◌, slice}
use Prim.Native.String.append.{nil}
use text.Mathlib.TextLemmas.{append-nil, append_assoc}

-- `append`: `value` and `first` are passed on.
unfoldable pub append : String × Bool → Bool → String → String × Bool
append (value, first) false element = (value, first)
append (value, true) true element = (value ++ element, false)
append (value, false) true element = ((value ++ ",") ++ element, false)

-- The digits of a `u32`, which has at most ten, as `{}` prints them.
abbrev digit : ℕ → String
digit n = slice "0123456789" n (n + 1)

digits : ℕ → ℕ → String
digits zero n = ""
digits (suc fuel) n =
    let rest = digits fuel (n / 10) in if ltb n 10 then digit n else rest ++ digit (n % 10)

unfoldable pub decimal : ℕ → String
unfolding digits
decimal n = digits 10 n

-- A run of `append` over flags and elements.
unfoldable pub append_all : List (Bool × String) → String × Bool → String × Bool
unfolding append
append_all [] v = v
append_all ((should, element) ∷ xs) v = append_all xs (append v should element)

-- What such a run is for: the elements whose flag is set, separated by commas.
unfoldable pub enabled : List (Bool × String) → List String
enabled [] = []
enabled ((true, element) ∷ xs) = element ∷ enabled xs
enabled ((false, element) ∷ xs) = enabled xs

unfoldable pub rest_of : List String → String
rest_of [] = ""
rest_of (x ∷ xs) = ("," ++ x) ++ rest_of xs

unfoldable pub join : List String → String
unfolding rest_of
join [] = ""
join (x ∷ xs) = x ++ rest_of xs

append_all-rest :
    (xs : List (Bool × String)) (v : String)
    → (append_all xs (v, false)).0 ≡ v ++ rest_of (enabled xs)
unfolding append_all enabled rest_of
append_all-rest [] v = sym (append-nil v)
append_all-rest ((false, x) ∷ xs) v = append_all-rest xs v
append_all-rest ((true, x) ∷ xs) v =
    append_all-rest xs ((v ++ ",") ++ x)
    ∙ ap (λ t. t ++ rest_of (enabled xs)) (append_assoc v "," x)
    ∙ append_assoc v ("," ++ x) (rest_of (enabled xs))

-- A run of `append` from the empty text writes the elements whose flag is set, in order, with a comma
-- between each two.
pub append_all-join : (xs : List (Bool × String)) → (append_all xs ("", true)).0 ≡ join (enabled xs)
unfolding append_all enabled join
append_all-join [] = refl
append_all-join ((false, x) ∷ xs) = append_all-join xs
append_all-join ((true, x) ∷ xs) =
    append_all-rest xs ("" ++ x) ∙ ap (λ t. t ++ rest_of (enabled xs)) (nil x)
