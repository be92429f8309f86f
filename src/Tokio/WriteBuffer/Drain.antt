-- ===== src/Tokio/WriteBuffer/Drain.antt =====
-- `drain` of tokio-btls/src/lib.rs: the bytes on the wire and the bytes that wait.
use btls.Prelude.{
  ℕ, zero, suc, ◌+◌, ◌≤◌, ◌<◌, ◌≡◌, ◌⊎◌, refl, sym, ap, ◌∙◌, inl, inr, List, [], ◌++◌, arith, ◌==◌,
  ==→eq, eq→==, ne→==, Bool-cases, length, take, drop, length-drop, drop-drop, drop_all,
  append_assoc, append-nil, take-append-drop,
}
use btls.Io.{IoError, would_block, write_zero, from_kind, IoResult, ok, err, Poll, ready, pending}
use btls.Tokio.Host.{Host, IsHost, Accepts}
use btls.Tokio.WriteBuffer.{
  WriteBuffer, buffered, len, Drained, after_write, drain_loop, release_written, drain,
}
use btls.Tokio.WriteBuffer.Room.{IsValid, pos-le}

module _ {S : Type 0} {h : Host S} (l : IsHost h) where
  -- All bytes handed to the buffer so far: those on the wire, then those that wait.
  abbrev pub sent : WriteBuffer → S → List ℕ
  sent w s = h.wire s ++ buffered w

  -- What the loop leaves: the bytes and flags as they were, `pos` moved over what went out, and an
  -- error unless all went out.
  record Moved (w : WriteBuffer) (s : S) (r : Drained h) : Type 0 where
    bytes_same : r.1.bytes ≡ w.bytes
    capacity_same : r.1.capacity ≡ w.capacity
    blocked_same : r.1.blocked ≡ w.blocked
    sent_same : sent r.1 r.2 ≡ sent w s
    within : r.1.pos ≤ length w.bytes
    done :
        ((r.0 ≡ ok tt) × (r.1.pos ≡ length w.bytes))
        ⊎ ((e : IoError) × (r.0 ≡ err e) × (r.1.pos < length w.bytes))

  -- A write of `n` of the waiting bytes moves them to the wire.
  sent-advance :
      (w : WriteBuffer) (s s' : S) (n : ℕ)
      → h.wire s' ≡ h.wire s ++ take n (buffered w)
      → sent (record w { pos = w.pos + n }) s' ≡ sent w s
  sent-advance w s s' n e =
      rw (e, ← drop-drop n w.pos w.bytes)
        (append_assoc (h.wire s) (take n (buffered w)) (drop n (buffered w))
          ∙ ap (λ x. h.wire s ++ x) (take-append-drop n (buffered w)))

  stop-Moved :
      (w : WriteBuffer) (s s' : S) (e : IoError)
      → w.pos < length w.bytes
      → h.wire s' ≡ h.wire s
      → Moved w s (err e, w, s')
  stop-Moved w s s' e p same = record {
    bytes_same = refl;
    capacity_same = refl;
    blocked_same = refl;
    sent_same = ap (λ x. x ++ buffered w) same;
    within = omega arith;
    done = inr (e, refl, p);
  }

  end-Moved : (w : WriteBuffer) (s : S) → w.pos ≡ length w.bytes → Moved w s (ok tt, w, s)
  end-Moved w s p = record {
    bytes_same = refl;
    capacity_same = refl;
    blocked_same = refl;
    sent_same = refl;
    within = omega arith;
    done = inl (refl, p);
  }

  step-Moved :
      (w : WriteBuffer) (s s' : S) (n : ℕ) (r : Drained h)
      → h.wire s' ≡ h.wire s ++ take n (buffered w)
      → Moved (record w { pos = w.pos + n }) s' r
      → Moved w s r
  step-Moved w s s' n r e m = record {
    bytes_same = m.bytes_same;
    capacity_same = m.capacity_same;
    blocked_same = m.blocked_same;
    sent_same = m.sent_same ∙ sent-advance w s s' n e;
    within = m.within;
    done = m.done;
  }

  arm-Moved :
      (w : WriteBuffer) (s s' : S) (again : ℕ → Drained h) (polled : Poll ℕ)
      → w.pos < length w.bytes
      → Accepts (h.wire s) (buffered w) polled (h.wire s')
      → ((n : ℕ)
          → 1 ≤ n
          → w.pos + n ≤ length w.bytes
          → Moved (record w { pos = w.pos + n }) s' (again n))
      → Moved w s (after_write h again w s' polled)
  arm-Moved w s s' again (ready (ok zero)) p a ih =
      stop-Moved w s s' (from_kind write_zero) p (a.1 ∙ append-nil (h.wire s))
  arm-Moved w s s' again (ready (ok (suc n))) p a ih =
      step-Moved w s s' (suc n) (again (suc n)) a.1
        (ih (suc n) (omega arith) (omega (arith, a.0, length-drop w.pos w.bytes)))
  arm-Moved w s s' again (ready (err e)) p a ih = stop-Moved w s s' e p a
  arm-Moved w s s' again pending p a ih = stop-Moved w s s' (from_kind would_block) p a

  drain_loop-Moved :
      (fuel : ℕ) (w : WriteBuffer) (s : S)
      → w.pos ≤ length w.bytes
      → length w.bytes ≤ w.pos + fuel
      → Moved w s (drain_loop h fuel w s)
  unfolding drain_loop
  drain_loop-Moved zero w s p f = end-Moved w s (omega arith)
  drain_loop-Moved (suc fuel) w s p f = elim (Bool-cases (w.pos == length w.bytes)) [
    | inl all ↦ rw all (end-Moved w s (==→eq _ _ all))
    | inr more ↦ rw more (
        arm-Moved w s (h.poll_write (buffered w) s).1 _ (h.poll_write (buffered w) s).0
          (ground arith) (l.writes (buffered w) s)
          λ n lo hi. drain_loop-Moved fuel (record w { pos = w.pos + n }) _ hi (omega arith))
  ]

  -- What `drain` leaves: all bytes on the wire and a released vector, or an error and bytes that
  -- wait; in both cases each byte once and in order.
  pub record Flushed (w : WriteBuffer) (s : S) (r : Drained h) : Type 0 where
    pub sent_same : sent r.1 r.2 ≡ sent w s
    pub valid : IsValid r.1
    pub blocked_same : r.1.blocked ≡ w.blocked
    pub done :
        ((r.0 ≡ ok tt) × (r.1.bytes ≡ []) × (r.1.pos ≡ 0))
        ⊎ ((e : IoError) × (r.0 ≡ err e) × (r.1.pos < length r.1.bytes))

  released-Flushed :
      (w w' : WriteBuffer) (s s' : S) (r : IoResult (Unit {0}))
      → IsValid w
      → Moved w s (r, w', s')
      → Flushed w s (release_written h (r, w', s'))
  released-Flushed w w' s s' r v m = elim m.done [
    | inl (e, p) ↦
        let all : w'.pos ≡ length w'.bytes = p ∙ sym (ap length m.bytes_same) in
        rw (eq→== w'.pos (length w'.bytes) all) (record {
          sent_same =
              ap (λ x. h.wire s' ++ x) (sym (drop_all w'.pos w'.bytes (omega arith))) ∙ m.sent_same;
          valid = record { within = inr (refl, refl); allocated = omega arith };
          blocked_same = m.blocked_same;
          done = inl (e, refl, refl);
        })
    | inr (e, f, p) ↦
        let some_left : w'.pos < length w'.bytes = omega (arith, ap length m.bytes_same) in
        rw (ne→== w'.pos (length w'.bytes) (omega arith)) (record {
          sent_same = m.sent_same;
          valid = record {
            within = inl some_left;
            allocated = rw (m.bytes_same, m.capacity_same) v.allocated;
          };
          blocked_same = m.blocked_same;
          done = inr (e, f, some_left);
        })
  ]

  -- For a transport that keeps its contract and a valid buffer: drain keeps every byte in order,
  -- and what leaves the buffer is on the wire. It returns Ok with the buffer emptied, or an error
  -- with bytes left, and keeps the invariant.
  pub drain-Flushed : (w : WriteBuffer) (s : S) → IsValid w → Flushed w s (drain h w s)
  unfolding drain
  drain-Flushed w s v =
      released-Flushed w (drain_loop h (len w) w s).1 s (drain_loop h (len w) w s).2
        (drain_loop h (len w) w s).0 v (drain_loop-Moved (len w) w s (pos-le v) (omega arith))
