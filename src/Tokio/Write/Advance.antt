-- ===== src/Tokio/Write/Advance.antt =====
-- `IoSlice::advance_slices` and the sum of the slices' lengths.
use btls.Prelude.{
  ℕ, ◌+◌, ◌-◌, ◌≤◌, ◌≡◌, sym, ap, ◌∙◌, inl, inr, min, List, [], ◌∷◌, ◌++◌, arith, leb, leb→le,
  leb→gt, Bool-cases, length, length-append, drop, flatten, drop-nil, drop-append_left,
  drop-append_right, usize_max,
}
use btls.Tokio.Write.{advance_slices, total_from}

past : (b rest : List ℕ) (n : ℕ) → length b ≤ n → drop n (b ++ rest) ≡ drop (n - length b) rest
past b rest n h =
    ap (λ k. drop k (b ++ rest)) {x = n} {y = length b + (n - length b)} (omega arith)
    ∙ drop-append_right (n - length b) b rest

-- Advancing slices by `n` bytes drops the first `n` bytes of their concatenation.
pub flatten-advance_slices :
    (n : ℕ) (bs : List (List ℕ)) → flatten (advance_slices n bs) ≡ drop n (flatten bs)
unfolding advance_slices
flatten-advance_slices n [] = sym (drop-nil n)
flatten-advance_slices n (b ∷ bs) = elim (Bool-cases (leb (length b) n)) [
  | inl e ↦
      rw e (flatten-advance_slices (n - length b) bs ∙ sym (past b (flatten bs) n (leb→le _ _ e)))
  | inr e ↦ rw e (sym (drop-append_left n b (flatten bs) (omega (arith, leb→gt _ _ e))))
]

-- The sum of the lengths, which stops at `usize::MAX`.
pub total_from_lem :
    (n : ℕ) (bs : List (List ℕ))
    → n ≤ usize_max
    → total_from n bs ≡ min (n + length (flatten bs)) usize_max
unfolding total_from
total_from_lem n [] h = omega arith
total_from_lem n (b ∷ bs) h =
    total_from_lem (min (n + length b) usize_max) bs (omega arith)
    ∙ omega (arith, length-append b (flatten bs))
