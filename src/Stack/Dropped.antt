-- ===== src/Stack/Dropped.antt =====
-- The drop of a `Stack` of btls/src/stack.rs.
use btls.Prelude.{
  ℕ, zero, suc, ◌<◌, ◌≡◌, refl, sym, ap, ◌∙◌, Option, none, some, List, [], ◌∷◌, ◌++◌, length,
  arith, inl, inr, append-nil, append_assoc, length-append, ◌⊎◌,
}
use mathlib.Core.List.{reverse, reverse-append}
use btls.Stack.{Sk, freed_stack, pop_step, pop_all, drop_stack}
use btls.Stack.Owned.{IsSk}

module _ {S P : Type 0} {v : Sk S P} {contents : S → List P} (l : IsSk v contents) where
  snoc-cases : (xs : List P) → (xs ≡ []) ⊎ ((ys : List P) × (y : P) × (xs ≡ ys ++ (y ∷ [])))
  snoc-cases [] = inl refl
  snoc-cases (x ∷ xs) = elim (snoc-cases xs) [
    | inl e ↦ inr ([], x, ap (◌∷◌ x) e)
    | inr (ys, y, e) ↦ inr (x ∷ ys, y, ap (◌∷◌ x) e)
  ]

  pop_all-reverse :
      (fuel : ℕ) (s : S) (freed : List P)
      → length (contents s) < fuel
      → pop_all v fuel s freed ≡ some (freed ++ reverse (contents s))
  unfolding pop_all
  pop_all-reverse zero s freed h = absurd (omega arith)
  pop_all-reverse (suc fuel) s freed h = elim (snoc-cases (contents s)) [
    | inl e ↦
        stopped (v.sk_pop s) (l.pop_none s e)
        ∙ ap some (sym (append-nil freed) ∙ ap (λ y. freed ++ reverse y) (sym e))
    | inr (ys, y, e) ↦
        let p = l.pop_some s ys y e in
        let shorter : length (contents (v.sk_pop s).1) < fuel =
          omega (arith, ap length e, ap length p.1, length-append ys (y ∷ [])) in
        went (v.sk_pop s) y p.0
        ∙ pop_all-reverse fuel (v.sk_pop s).1 (freed ++ (y ∷ [])) shorter
        ∙ ap some (
            append_assoc freed (y ∷ []) (reverse (contents (v.sk_pop s).1))
            ∙ ap (λ q. freed ++ (y ∷ reverse q)) p.1
            ∙ ap (◌++◌ freed) (sym (reverse-append ys (y ∷ [])) ∙ ap reverse (sym e)))
  ]
    where
      stopped : (r : Option P × S) → r.0 ≡ none → pop_step v (pop_all v fuel) freed r ≡ some freed
      stopped (none, s') e = refl
      stopped (some x, s') e = cc

      went :
          (r : Option P × S) (y : P)
          → r.0 ≡ some y
          → pop_step v (pop_all v fuel) freed r ≡ pop_all v fuel r.1 (freed ++ (y ∷ []))
      went (none, s') y e = cc
      went (some x, s') y e =
          let k : x ≡ y = cc in ap (λ q. pop_all v fuel s' (freed ++ (q ∷ []))) k

  -- For a stack of BoringSSL that keeps its contract: with more fuel than it has elements, the drop
  -- of a Stack comes to an end and frees each element once, the last first, and then the stack.
  pub drop_stack-reverse :
      (fuel : ℕ) (s : S)
      → length (contents s) < fuel
      → drop_stack v fuel s ≡ some (record { elements = reverse (contents s); stacks = 1 })
  unfolding drop_stack
  drop_stack-reverse fuel s h = ap (freed_stack v) (pop_all-reverse fuel s [] h)
