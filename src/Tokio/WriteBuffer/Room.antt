-- ===== src/Tokio/WriteBuffer/Room.antt =====
-- The invariant of `WriteBuffer` in tokio-btls/src/lib.rs; `make_room`, `push` and `reserve`.
use btls.Prelude.{
  ℕ, ◌+◌, ◌≤◌, ◌<◌, ◌≡◌, ◌⊎◌, refl, ap, ◌∙◌, inl, inr, List, [], ◌++◌, arith, ltb, Bool-cases,
  List-cases, length, length-append, length-drop, drop-append_left,
}
use btls.Tokio.Limits.{max_record}
use btls.Tokio.Host.{Host, IsHost}
use btls.Tokio.WriteBuffer.{
  WriteBuffer, buffered, compacts, compact, make_room, reserve_room, extend, push, reserve,
}

-- "`pos < bytes.len()` unless both are 0", and the bytes fit their allocation.
pub record IsValid (w : WriteBuffer) : Type 0 where
  pub within : (w.pos < length w.bytes) ⊎ ((w.pos ≡ 0) × (w.bytes ≡ []))
  pub allocated : length w.bytes ≤ w.capacity

pub pos-le : {w : WriteBuffer} → IsValid w → w.pos ≤ length w.bytes
pos-le v = ground (arith, v.within)

-- Valid, with the same records and the same `blocked`.
pub record Keeps (w w' : WriteBuffer) : Type 0 where
  pub same : buffered w' ≡ buffered w
  pub valid : IsValid w'
  pub blocked_same : w'.blocked ≡ w.blocked

module _ {S : Type 0} {h : Host S} (l : IsHost h) where
  compact-Keeps : (w : WriteBuffer) → IsValid w → Keeps w (compact h w)
  compact-Keeps w v = record {
    same = refl;
    valid = record {
      within = within w v.within;
      allocated = omega (arith, v.allocated, length-drop w.pos w.bytes);
    };
    blocked_same = refl;
  }
    where
      within :
          (u : WriteBuffer)
          → (u.pos < length u.bytes) ⊎ ((u.pos ≡ 0) × (u.bytes ≡ []))
          → (0 < length (buffered u)) ⊎ (◌≡◌ {A = ℕ} 0 0 × (buffered u ≡ []))
      within u (inl lt) = inl (omega (arith, length-drop u.pos u.bytes))
      within u (inr (z, e)) = inr (refl, rw (e, z))

  reserve_room-Keeps :
      (w : WriteBuffer) (extra : ℕ)
      → IsValid w
      → Keeps w (reserve_room h w extra)
        × (length w.bytes + extra ≤ (reserve_room h w extra).capacity)
  reserve_room-Keeps w extra v = (
    record {
      same = refl;
      valid = record {
        within = v.within;
        allocated = omega (arith, l.reserves w.capacity (length w.bytes) extra);
      };
      blocked_same = refl;
    },
    l.reserves w.capacity (length w.bytes) extra,
  )

  -- For a valid buffer, and a Vec that reserves what it is asked for: make_room keeps the records
  -- and the invariant, and leaves room for the bytes asked for.
  pub make_room-Keeps :
      (w : WriteBuffer) (extra : ℕ)
      → IsValid w
      → Keeps w (make_room h w extra)
        × (length (make_room h w extra).bytes + extra ≤ (make_room h w extra).capacity)
  unfolding make_room
  make_room-Keeps w extra v = elim (Bool-cases (compacts h w extra)) [
    | inr stays ↦ rw stays (reserve_room-Keeps w extra v)
    | inl drops ↦ rw drops (
        let c = compact-Keeps w v in
        let r = reserve_room-Keeps (compact h w) extra c.valid in
        (record { same = r.0.same; valid = r.0.valid; blocked_same = refl }, r.1))
  ]

  pub reserve-Keeps : (w : WriteBuffer) (total : ℕ) → IsValid w → Keeps w (reserve h w total)
  unfolding reserve
  reserve-Keeps w total v = elim (Bool-cases (ltb max_record total)) [
    | inr small ↦ rw small (record { same = refl; valid = v; blocked_same = refl })
    | inl large ↦ rw large (make_room-Keeps w _ v).0
  ]

  -- `extend` appends; it wants the written prefix to be shorter than what it leaves.
  pub extend-buffered :
      (w : WriteBuffer) (r : List ℕ)
      → w.pos ≤ length w.bytes
      → buffered (extend h w r) ≡ buffered w ++ r
  extend-buffered w r p = drop-append_left w.pos w.bytes r p

  pub extend-IsValid : (w : WriteBuffer) (r : List ℕ) → IsValid w → IsValid (extend h w r)
  extend-IsValid w r v = record {
    within = within v.within;
    allocated =
        omega (arith, length-append w.bytes r, l.reserves w.capacity (length w.bytes) (length r));
  }
    where
      within :
          (w.pos < length w.bytes) ⊎ ((w.pos ≡ 0) × (w.bytes ≡ []))
          → (w.pos < length (w.bytes ++ r)) ⊎ ((w.pos ≡ 0) × (w.bytes ++ r ≡ []))
      within (inl lt) = inl (omega (arith, length-append w.bytes r))
      within (inr (z, e)) = elim (List-cases r) [
        | inl nothing ↦ inr (z, rw (e, nothing))
        | inr (x, xs, some_bytes) ↦
            inl (omega (arith, length-append w.bytes r, ap length some_bytes))
      ]

  -- For a valid buffer, and a Vec that reserves what it is asked for: push appends one record after
  -- the records that wait, keeps the invariant of the buffer, and leaves blocked as it was.
  pub push-buffered :
      (w : WriteBuffer) (r : List ℕ)
      → IsValid w
      → (buffered (push h w r) ≡ buffered w ++ r)
        × IsValid (push h w r)
        × ((push h w r).blocked ≡ w.blocked)
  unfolding push
  push-buffered w r v =
      let m = make_room-Keeps w (length r) v in
      let w' = make_room h w (length r) in
      (
        extend-buffered w' r (pos-le m.0.valid) ∙ ap (λ x. x ++ r) m.0.same,
        extend-IsValid w' r m.0.valid,
        m.0.blocked_same,
      )
