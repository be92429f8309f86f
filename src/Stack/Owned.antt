-- ===== src/Stack/Owned.antt =====
-- Every element of a stack of btls/src/stack.rs is handed out or freed, and that once.
use btls.Prelude.{
  ℕ, zero, suc, ◌+◌, ◌-◌, ◌≤◌, ◌<◌, ◌≡◌, refl, sym, ap, ap₂, ◌∙◌, Option, none, some, List, [], ◌∷◌,
  ◌++◌, ltb, length, take, drop, get_or, arith, inl, inr, Bool-cases, ltb→lt, ltb→ge, append-nil,
  append_assoc, drop-cons, take-append-drop, drop_all, drop-drop,
}
use btls.Stack.{Sk, Iter, len, iter, next, next_back, drain, drop_iter, freed_stack}

-- The documented behaviour of a stack whose pointers are `contents`.
pub record IsSk {S P : Type 0} (v : Sk S P) (contents : S → List P) : Type 0 where
  pub num : (s : S) → v.sk_num s ≡ length (contents s)
  pub value :
      (s : S) (i : ℕ) (d : P) → i < length (contents s) → v.sk_value s i ≡ get_or (contents s) i d
  pub pop_none : (s : S) → contents s ≡ [] → (v.sk_pop s).0 ≡ none
  pub pop_some :
      (s : S) (xs : List P) (x : P)
      → contents s ≡ xs ++ (x ∷ [])
      → ((v.sk_pop s).0 ≡ some x) × (contents (v.sk_pop s).1 ≡ xs)

-- One call of the owner of an iterator.
pub data Side : Type 0 where
  front back : Side

module _ {S P : Type 0} (v : Sk S P) where
  -- What the calls of `next` handed out, in order; those of `next_back`, the last one first; and the
  -- iterator after them.
  abbrev pub Taken : Type 0
  Taken = List P × List P × Iter S

  front_step : List P → List P → Option P × Iter S → Taken
  front_step fs bs (none, it) = (fs, bs, it)
  front_step fs bs (some x, it) = (fs ++ (x ∷ []), bs, it)

  back_step : List P → List P → Option P × Iter S → Taken
  back_step fs bs (none, it) = (fs, bs, it)
  back_step fs bs (some x, it) = (fs, x ∷ bs, it)

  unfoldable pub take_sides : List Side → Taken → Taken
  unfolding front_step back_step next next_back
  take_sides [] t = t
  take_sides (front ∷ sides) (fs, bs, it) = take_sides sides (front_step fs bs (next v it))
  take_sides (back ∷ sides) (fs, bs, it) = take_sides sides (back_step fs bs (next_back v it))

take-suc :
    {P : Type 0} (i : ℕ) (xs : List P) (d : P)
    → i < length xs
    → take (suc i) xs ≡ take i xs ++ (get_or xs i d ∷ [])
take-suc i [] d h = absurd (omega arith)
take-suc zero (x ∷ xs) d h = refl
take-suc (suc i) (x ∷ xs) d h = ap (◌∷◌ x) (take-suc i xs d (omega arith))

module _ {S P : Type 0} {v : Sk S P} {contents : S → List P} (l : IsSk v contents) where
  -- The calls have handed out what stands before and behind the range.
  record Between (s : S) (t : Taken v) : Type 0 where
    stack : t.2.stack ≡ s
    fronts : t.0 ≡ take t.2.start (contents s)
    backs : t.1 ≡ drop t.2.stop (contents s)
    ordered : t.2.start ≤ t.2.stop
    inside : t.2.stop ≤ length (contents s)

  front-Between :
      (s : S) (fs bs : List P) (it : Iter S)
      → Between s (fs, bs, it)
      → Between s (front_step v fs bs (next v it))
  unfolding next front_step
  front-Between s fs bs it b = elim (Bool-cases (ltb it.start it.stop)) [
    | inr e ↦ rw e b
    | inl e ↦
        let lt = ltb→lt it.start it.stop e in
        let small : it.start < length (contents s) = omega (arith, b.inside) in
        let x = v.sk_value it.stack it.start in
        rw e (record {
          stack = b.stack;
          fronts =
              ap (λ y. y ++ (x ∷ [])) b.fronts
              ∙ ap (λ y. take it.start (contents s) ++ (y ∷ []))
                  (ap (λ q. v.sk_value q it.start) b.stack ∙ l.value s it.start x small)
              ∙ sym (take-suc it.start (contents s) x small)
              ∙ ap (λ j. take j (contents s)) {x = suc it.start} {y = it.start + 1} (omega arith);
          backs = b.backs;
          ordered = omega arith;
          inside = b.inside;
        })
  ]

  back-Between :
      (s : S) (fs bs : List P) (it : Iter S)
      → Between s (fs, bs, it)
      → Between s (back_step v fs bs (next_back v it))
  unfolding next_back back_step
  back-Between s fs bs it b = elim (Bool-cases (ltb it.start it.stop)) [
    | inr e ↦ rw e b
    | inl e ↦
        let lt = ltb→lt it.start it.stop e in
        let i = it.stop - 1 in
        let small : i < length (contents s) = omega (arith, b.inside) in
        let x = v.sk_value it.stack i in
        rw e (record {
          stack = b.stack;
          fronts = b.fronts;
          backs =
              ap₂ ◌∷◌ (ap (λ q. v.sk_value q i) b.stack ∙ l.value s i x small)
                (b.backs ∙ ap (λ j. drop j (contents s)) {x = it.stop} {y = suc i} (omega arith))
              ∙ sym (drop-cons i (contents s) x small);
          ordered = omega arith;
          inside = omega (arith, b.inside);
        })
  ]

  take_sides-Between :
      (s : S) (sides : List Side) (t : Taken v) → Between s t → Between s (take_sides v sides t)
  unfolding take_sides
  take_sides-Between s [] t b = b
  take_sides-Between s (front ∷ sides) (fs, bs, it) b =
      take_sides-Between s sides _ (front-Between s fs bs it b)
  take_sides-Between s (back ∷ sides) (fs, bs, it) b =
      take_sides-Between s sides _ (back-Between s fs bs it b)

  -- What is left between the ends of a range is dropped in order.
  drain-rest :
      (s : S) (fuel start stop : ℕ) (freed : List P)
      → start ≤ stop
      → stop ≤ length (contents s)
      → stop - start < fuel
      → drain v fuel (record { stack = s; start = start; stop = stop }) freed
        ≡ some (freed ++ take (stop - start) (drop start (contents s)))
  unfolding drain
  drain-rest s zero start stop freed o h f = absurd (omega arith)
  drain-rest s (suc fuel) start stop freed o h f = elim (Bool-cases (ltb start stop)) [
    | inr e ↦ rw e (
        ap some (
          sym (append-nil freed)
          ∙ ap (λ j. freed ++ take j (drop start (contents s))) {x = zero} {y = stop - start}
              (omega (arith, ltb→ge start stop e))))
    | inl e ↦
        let x = v.sk_value s start in
        let lt = ltb→lt start stop e in
        let opened : drop start (contents s) ≡ x ∷ drop (suc start) (contents s) =
          drop-cons start (contents s) x (omega arith)
          ∙ ap (λ y. y ∷ drop (suc start) (contents s)) (sym (l.value s start x (omega arith))) in
        let rest : drop (start + 1) (contents s) ≡ drop (suc start) (contents s) =
          ap (λ j. drop j (contents s)) {x = start + 1} {y = suc start} (omega arith) in
        rw e (
          drain-rest s fuel (start + 1) stop (freed ++ (x ∷ [])) (omega arith) h (omega arith)
          ∙ ap some (
              append_assoc freed (x ∷ [])
                (take (stop - (start + 1)) (drop (start + 1) (contents s)))
              ∙ ap (λ y. freed ++ (x ∷ take (stop - (start + 1)) y)) rest
              ∙ ap (◌++◌ freed) (
                  ap (λ y. take (suc (stop - (start + 1))) y) (sym opened)
                  ∙ ap (λ j. take j (drop start (contents s))) {x = suc (stop - (start + 1))}
                      {y = stop - start} (omega arith))))
  ]

  three_parts :
      (i j : ℕ) (xs : List P) → i ≤ j → take i xs ++ (take (j - i) (drop i xs) ++ drop j xs) ≡ xs
  three_parts i j xs h =
      ap (λ y. take i xs ++ (take (j - i) (drop i xs) ++ y))
        (ap (λ k. drop k xs) {x = j} {y = i + (j - i)} (omega arith) ∙ sym (drop-drop (j - i) i xs))
      ∙ ap (◌++◌ (take i xs)) (take-append-drop (j - i) (drop i xs))
      ∙ take-append-drop i xs

  -- For a stack of BoringSSL that keeps its contract: however its owner mixes calls of next and
  -- next_back on the iterator of into_iter before it drops it, the drop comes to an end and frees
  -- the stack once; the elements handed out from the front, those that the drop frees, and those
  -- handed out from the back, are together the elements of the stack in their order, so that each
  -- is handed out or freed exactly once. The fuel of the drop is more than the length of the stack.
  pub drop_iter-Owned :
      (s : S) (sides : List Side) (fuel : ℕ)
      → length (contents s) < fuel
      → (freed : List P) × (drop_iter v fuel (take_sides v sides ([], [], iter v s)).2
          ≡ some (record { elements = freed; stacks = 1 }))
        × ((take_sides v sides ([], [], iter v s)).0
              ++ (freed ++ (take_sides v sides ([], [], iter v s)).1)
            ≡ contents s)
  unfolding drop_iter iter len
  drop_iter-Owned s sides fuel h =
      let t = take_sides v sides ([], [], iter v s) in
      let b : Between s t =
        take_sides-Between s sides ([], [], iter v s)
          (record {
            stack = refl;
            fronts = refl;
            backs = sym (drop_all (v.sk_num s) (contents s) (omega (arith, l.num s)));
            ordered = omega arith;
            inside = omega (arith, l.num s);
          }) in
      let freed = take (t.2.stop - t.2.start) (drop t.2.start (contents s)) in
      (
        freed,
        ap (freed_stack v) (
            ap (λ q. drain v fuel (record { stack = q; start = t.2.start; stop = t.2.stop }) [])
              b.stack
            ∙ drain-rest s fuel t.2.start t.2.stop [] b.ordered b.inside (omega (arith, b.inside))),
        ap₂ (λ x y. x ++ (freed ++ y)) b.fronts b.backs
            ∙ three_parts t.2.start t.2.stop (contents s) b.ordered,
      )
