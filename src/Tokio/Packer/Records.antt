-- ===== src/Tokio/Packer/Records.antt =====
-- The records that `next_record` of tokio-btls/src/lib.rs hands out: `pack` and `gather`.
use btls.Prelude.{
  ℕ, zero, suc, ◌+◌, ◌-◌, ◌/◌, ◌≤◌, ◌<◌, ◌≡◌, ◌⊎◌, refl, sym, ap, ◌∙◌, inl, inr, min, Option, none,
  some, List, [], ◌∷◌, ◌++◌, arith, false, ltb, ltb→lt, leb, leb→le, leb→gt, ◌==◌, ==→eq,
  if◌then◌else◌, ◌&&◌, ◌||◌, Bool-cases, List-cases, length, take, drop, flatten, get_or, drop_next,
  length-append, length-take, get_or-drop, flatten_prefix, take-append_left, take-append_right,
}
use btls.Tokio.Packer.{Packer, pack_loop, any_filled, gather, skip_empty, record_with}
use btls.Tokio.Packer.Rest.{rest_at, Within, Within-zero, rest_at-zero}

-- What `pack_loop` over the slices `bs` returns: it takes `k` of them whole, and `tail` bytes of
-- the next.
pub record Packed (bs : List (List ℕ)) (limit len end : ℕ) (r : ℕ × ℕ × ℕ) : Type 0 where
  k : ℕ
  ended : r.1 ≡ end + k
  size : r.0 ≡ len + (length (flatten (take k bs)) + r.2)
  tail_in : r.2 ≤ length (get_or bs k [])
  fits : r.0 ≤ limit
  grew : (r.0 ≡ len) ⊎ (len < limit)

stop-Packed :
    (bs : List (List ℕ)) (limit len end : ℕ) → len ≤ limit → Packed bs limit len end (len, end, 0)
stop-Packed bs limit len end h = record {
  k = 0;
  ended = omega arith;
  size = omega arith;
  tail_in = omega arith;
  fits = h;
  grew = inl refl;
}

split-Packed :
    (b : List ℕ) (bs : List (List ℕ)) (limit len end : ℕ)
    → len < limit
    → limit < len + length b
    → Packed (b ∷ bs) limit len end (limit, end, limit - len)
split-Packed b bs limit len end h more = record {
  k = 0;
  ended = omega arith;
  size = omega arith;
  tail_in = omega arith;
  fits = omega arith;
  grew = inr h;
}

whole-Packed :
    (b : List ℕ) (bs : List (List ℕ)) (limit len end : ℕ) (r : ℕ × ℕ × ℕ)
    → len < limit
    → Packed bs limit (len + length b) (end + 1) r
    → Packed (b ∷ bs) limit len end r
whole-Packed b bs limit len end r h q = record {
  k = suc q.k;
  ended = omega (arith, q.ended);
  size = omega (arith, q.size, length-append b (flatten (take q.k bs)));
  tail_in = q.tail_in;
  fits = q.fits;
  grew = inr h;
}

pub pack_loop-Packed :
    (bs : List (List ℕ)) (limit head_len len end : ℕ)
    → len ≤ limit
    → Packed bs limit len end (pack_loop bs limit head_len len end)
unfolding pack_loop
pack_loop-Packed [] limit head_len len end h = stop-Packed [] limit len end h
pack_loop-Packed (b ∷ bs) limit head_len len end h = elim (Bool-cases (ltb len limit)) [
  | inr ge ↦ rw ge (stop-Packed (b ∷ bs) limit len end h)
  | inl lt ↦ rw lt (elim (Bool-cases (leb (len + length b) limit)) [
    | inl le ↦ rw le (
        whole-Packed b bs limit len end _ (ltb→lt _ _ lt)
          (pack_loop-Packed bs limit head_len (len + length b) (end + 1) (leb→le _ _ le)))
    | inr gt ↦
        rw gt
          (elim (Bool-cases (leb (length b) (limit / 2) && (ltb head_len len || any_filled bs))) [
            | inl fill ↦ rw fill (split-Packed b bs limit len end (ltb→lt _ _ lt) (leb→gt _ _ gt))
            | inr leave ↦ rw leave (stop-Packed (b ∷ bs) limit len end h)
          ])
  ])
]

-- Where `skip_empty` stops.
abbrev pub Skipped : List (List ℕ) → List (List ℕ) → ℕ → ℕ × ℕ × Option (List ℕ) → Type 0
Skipped bufs bs off (i', off', none) =
    (rest_at bs off ≡ []) × (rest_at (drop i' bufs) off' ≡ []) × Within (drop i' bufs) off'
Skipped bufs bs off (i', off', some head) =
    (b : List ℕ) × (bs' : List (List ℕ)) × (drop i' bufs ≡ b ∷ bs')
    × (drop off' b ≡ head)
    × (1 ≤ length head)
    × (off' ≤ length b)
    × (head ++ flatten bs' ≡ rest_at bs off)

Skipped-rest :
    (bufs bs cs : List (List ℕ)) (off off' : ℕ) (r : ℕ × ℕ × Option (List ℕ))
    → rest_at bs off ≡ rest_at cs off'
    → Skipped bufs bs off r
    → Skipped bufs cs off' r
Skipped-rest bufs bs cs off off' (i, o, none) e (x, y, z) = (sym e ∙ x, y, z)
Skipped-rest bufs bs cs off off' (i, o, some h) e (b, bs', p, q, s, t, u) =
    (b, bs', p, q, s, t, u ∙ e)

pub skip_empty-Skipped :
    (bufs bs : List (List ℕ)) (i off : ℕ)
    → drop i bufs ≡ bs
    → Within bs off
    → Skipped bufs bs off (skip_empty bs i off)
unfolding skip_empty
skip_empty-Skipped bufs [] i off e w = (refl, rw e refl, rw e w)
skip_empty-Skipped bufs (b ∷ bs) i off e w = elim (List-cases (drop off b)) [
  | inl z ↦
      rw (z, skip_empty)
        (Skipped-rest bufs bs (b ∷ bs) 0 off _ (rest_at-zero bs ∙ ap (λ l. l ++ flatten bs) (sym z))
          (skip_empty-Skipped bufs bs (i + 1) 0 (drop_next i bufs e) (Within-zero bs)))
  | inr (x, xs, z) ↦
      rw (z, skip_empty) (b, bs, e, z, omega arith, w, ap (λ l. l ++ flatten bs) (sym z))
]

-- A record cut from `rest`: a non-empty prefix of it that the limit allows.
pub record IsRecord (limit : ℕ) (rest r : List ℕ) : Type 0 where
  pub prefix : r ≡ take (length r) rest
  pub filled : 1 ≤ length r
  pub limited : length r ≤ limit
  pub inside : length r ≤ length rest

cut-IsRecord :
    (limit n : ℕ) (rest r : List ℕ)
    → r ≡ take n rest
    → 1 ≤ n
    → n ≤ limit
    → n ≤ length rest
    → IsRecord limit rest r
cut-IsRecord limit n rest r e lo hi inside =
    let l : length r ≡ n = omega (arith, ap length e, length-take n rest) in
    record {
      prefix = e ∙ ap (λ k. take k rest) (sym l);
      filled = omega arith;
      limited = omega arith;
      inside = omega arith;
    }

guarded-take : (t : ℕ) (xs : List ℕ) → (if ltb 0 t then take t xs else []) ≡ take t xs
guarded-take zero xs = refl
guarded-take (suc t) xs = ground arith

-- `gather` joins a prefix of the slices after `head`.
gather-prefix :
    (p : Packer) (head : List ℕ) (bs : List (List ℕ)) (k tail : ℕ)
    → drop (p.i + 1) p.bufs ≡ bs
    → tail ≤ length (get_or bs k [])
    → gather p head (p.i + 1 + k) tail
      ≡ take (length head + (length (flatten (take k bs)) + tail)) (head ++ flatten bs)
unfolding gather
gather-prefix p head bs k tail e h =
    rw (guarded-take, count, ← get_or-drop (p.i + 1) k p.bufs [], e)
      (ap (λ l. head ++ l) (flatten_prefix k tail bs h).0
        ∙ sym (take-append_right (length (flatten (take k bs)) + tail) head (flatten bs)))
  where
    count : p.i + 1 + k - (p.i + 1) ≡ k
    count = omega arith

-- The packer's place is what it was; only `scratch` may differ.
pub record SamePlace (p q : Packer) : Type 0 where
  pub bufs_same : q.bufs ≡ p.bufs
  pub i_same : q.i ≡ p.i
  pub off_same : q.off ≡ p.off
  pub limit_same : q.limit ≡ p.limit

-- At a slice with bytes left, what `pack` chose makes a record.
pub record_with-IsRecord :
    (p : Packer) (head : List ℕ) (bs : List (List ℕ)) (head_len : ℕ) (c : ℕ × ℕ × ℕ)
    → drop (p.i + 1) p.bufs ≡ bs
    → 1 ≤ length head
    → 1 ≤ p.limit
    → head_len ≡ min (length head) p.limit
    → Packed bs p.limit head_len (p.i + 1) c
    → let (r, q) = record_with p head c in IsRecord p.limit (head ++ flatten bs) r × SamePlace p q
unfolding record_with
record_with-IsRecord p head bs head_len (len, end, tail) e h l hl c =
    elim (Bool-cases (len == min (length head) p.limit)) [
      | inl in_place ↦
          let n : len ≡ min (length head) p.limit = ==→eq _ _ in_place in
          rw in_place (
            cut-IsRecord p.limit len (head ++ flatten bs) (take len head)
                (sym (take-append_left len head (flatten bs) (omega arith))) (omega arith)
                (omega arith) (omega (arith, length-append head (flatten bs))),
            record { bufs_same = refl; i_same = refl; off_same = refl; limit_same = refl },
          )
      | inr spans ↦ rw spans (
        cut-IsRecord p.limit len (head ++ flatten bs) (gather p head end tail)
            (rw c.ended (gather-prefix p head bs c.k tail e c.tail_in)
              ∙ ap (λ n. take n (head ++ flatten bs)) (whole spans))
            (omega (arith, whole spans)) (omega (arith, c.fits)) (fits spans),
        record { bufs_same = refl; i_same = refl; off_same = refl; limit_same = refl },
      )
    ]
  where
    grown : (len == min (length head) p.limit) ≡ false → head_len < p.limit
    grown ne = ground (arith, c.grew)

    whole :
        (len == min (length head) p.limit) ≡ false
        → length head + (length (flatten (take c.k bs)) + tail) ≡ len
    whole ne = omega (arith, grown ne, c.size)

    fits : (len == min (length head) p.limit) ≡ false → len ≤ length (head ++ flatten bs)
    fits ne =
        omega (
          arith,
          whole ne,
          (flatten_prefix c.k tail bs c.tail_in).1,
          length-append head (flatten bs),
        )
