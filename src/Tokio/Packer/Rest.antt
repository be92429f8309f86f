-- ===== src/Tokio/Packer/Rest.antt =====
-- The plaintext that a `Packer` of tokio-btls/src/lib.rs has yet to hand out, and `advance`.
use btls.Prelude.{
  ℕ, ◌+◌, ◌-◌, ◌≤◌, ◌≡◌, refl, sym, ap, ◌∙◌, inl, inr, List, [], ◌∷◌, ◌++◌, arith, ltb, ltb→lt,
  ltb→ge, ◌==◌, ==→eq, Bool-cases, length, drop, flatten, drop_next, drop-drop, drop-append_left,
  drop-append_right, length-drop, drop_all, length-append,
}
use btls.Tokio.Packer.{Packer, advance_loop, advance, new}

-- `bufs[i..]` less the first `off` bytes, given `bufs[i..]` as a list
abbrev pub rest_at : List (List ℕ) → ℕ → List ℕ
rest_at [] off = []
rest_at (b ∷ bs) off = drop off b ++ flatten bs

abbrev pub remaining : Packer → List ℕ
remaining p = rest_at (drop p.i p.bufs) p.off

-- `off` is within the slice that it counts in.
abbrev pub Within : List (List ℕ) → ℕ → Type 0
Within [] off = off ≡ 0
Within (b ∷ bs) off = off ≤ length b

pub rest_at-zero : (bs : List (List ℕ)) → rest_at bs 0 ≡ flatten bs
rest_at-zero [] = refl
rest_at-zero (b ∷ bs) = refl

pub Within-zero : (bs : List (List ℕ)) → Within bs 0
Within-zero [] = refl
Within-zero (b ∷ bs) = omega arith

-- After the slice that the bytes left behind come from.
drop-rest_at :
    (b : List ℕ) (bs : List (List ℕ)) (off n : ℕ)
    → off ≤ length b
    → length b - off ≤ n
    → drop n (rest_at (b ∷ bs) off) ≡ drop (n - (length b - off)) (rest_at bs 0)
drop-rest_at b bs off n w h =
    ap (λ k. drop k (drop off b ++ flatten bs)) {x = n}
      {y = length (drop off b) + (n - (length b - off))} (omega (arith, length-drop off b))
    ∙ drop-append_right (n - (length b - off)) (drop off b) (flatten bs)
    ∙ ap (drop (n - (length b - off))) (sym (rest_at-zero bs))

pub advance_loop_lem :
    (bufs bs : List (List ℕ)) (i off n : ℕ)
    → drop i bufs ≡ bs
    → Within bs off
    → n ≤ length (rest_at bs off)
    → let (i', off') = advance_loop bs i off n in
      (rest_at (drop i' bufs) off' ≡ drop n (rest_at bs off)) × Within (drop i' bufs) off'
unfolding advance_loop
advance_loop_lem bufs [] i off n e w h = (rw e (sym (drop_all n [] (omega arith))), rw e w)
advance_loop_lem bufs (b ∷ bs) i off n e w h = elim (Bool-cases (n == 0)) [
  | inl z ↦
      rw z (rw e (ap (λ k. drop k (drop off b ++ flatten bs)) {x = 0} (sym (==→eq n 0 z))), rw e w)
  | inr nz ↦ rw nz (elim (Bool-cases (ltb n (length b - off))) [
    | inl lt ↦ rw lt (
      rw e (
          ap (λ x. x ++ flatten bs) (sym (drop-drop n off b))
          ∙ sym (
              drop-append_left n (drop off b) (flatten bs)
                (omega (arith, length-drop off b, ltb→lt _ _ lt)))),
      rw e (omega (arith, ltb→lt _ _ lt)),
    )
    | inr ge ↦ rw ge (
        let ih =
          advance_loop_lem bufs bs (i + 1) 0 (n - (length b - off)) (drop_next i bufs e)
            (Within-zero bs) (fits bs h) in
        (ih.0 ∙ sym (drop-rest_at b bs off n w (ltb→ge _ _ ge)), ih.1))
  ])
]
  where
    fits :
        (cs : List (List ℕ))
        → n ≤ length (drop off b ++ flatten cs)
        → n - (length b - off) ≤ length (rest_at cs 0)
    fits cs k =
        rw (rest_at-zero cs)
          (omega (arith, length-append (drop off b) (flatten cs), length-drop off b))

-- The state that `Packer::new` sets up and the operations keep.
pub record IsValid (p : Packer) : Type 0 where
  pub within : Within (drop p.i p.bufs) p.off
  pub limited : 1 ≤ p.limit

-- For a valid packer: advance past n of the bytes that remain drops exactly those bytes, and keeps
-- the invariant.
pub remaining-advance :
    (p : Packer) (n : ℕ)
    → IsValid p
    → n ≤ length (remaining p)
    → (remaining (advance p n) ≡ drop n (remaining p)) × IsValid (advance p n)
unfolding advance
remaining-advance p n v h =
    let r = advance_loop_lem p.bufs (drop p.i p.bufs) p.i p.off n refl v.within h in
    (r.0, record { within = r.1; limited = v.limited })

pub new-IsValid : (bufs : List (List ℕ)) → IsValid (new bufs)
unfolding new
new-IsValid bufs = record { within = Within-zero bufs; limited = omega arith }

pub remaining-new : (bufs : List (List ℕ)) → remaining (new bufs) ≡ flatten bufs
unfolding new
remaining-new bufs = rest_at-zero bufs
