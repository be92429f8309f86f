-- ===== src/Tokio/WriteBuffer/Last.antt =====
-- `write_last` of tokio-btls/src/lib.rs: the last record of a write, and the records that wait.
use btls.Prelude.{
  ℕ, ◌+◌, ◌-◌, ◌≤◌, ◌≡◌, refl, sym, ap, ◌∙◌, inl, inr, List, [], ◌∷◌, ◌++◌, arith, true, false, ltb,
  ltb→lt, ltb→ge, ◌==◌, ==→eq, ◌||◌, if_both, if_split, subst, drop-drop, drop-append_left, length,
  take, drop, length-drop, append-nil, append_assoc, take-append-drop, drop-append_right, drop_all,
}
use btls.Io.{ok, err, Poll, ready, pending}
use btls.Tokio.Host.{Host, IsHost, Accepts}
use btls.Tokio.WriteBuffer.{
  WriteBuffer, buffered, len, push, extend, send_last, taken, refused, keep_rest, write_last,
}
use btls.Tokio.WriteBuffer.Room.{IsValid, push-buffered, extend-IsValid}
use btls.Tokio.WriteBuffer.Drain.{sent}

module _ {S : Type 0} {h : Host S} (l : IsHost h) where
  -- The one write takes some of the waiting bytes and the record, as one sequence.
  send_last-Accepts :
      (w : WriteBuffer) (s : S) (r : List ℕ)
      → Accepts (h.wire s) (buffered w ++ r) (send_last h w s r).0 (h.wire (send_last h w s r).1)
  unfolding send_last
  send_last-Accepts w s r =
      if_split Took (len w == 0)
        (λ z.
          subst
            (λ b. Accepts (h.wire s) (b ++ r) (h.poll_write r s).0 (h.wire (h.poll_write r s).1))
            (sym (drop_all w.pos w.bytes (omega (arith, ==→eq _ _ z)))) (l.writes r s))
        λ _.
          if_both Took (h.is_write_vectored s)
            (subst (λ b. Accepts (h.wire s) (buffered w ++ b) (both s).0 (h.wire (both s).1))
              (append-nil r) (l.writes_vectored (buffered w ∷ r ∷ []) s))
            (omega arith, sym (append-nil (h.wire s)))
    where
      Took : Poll ℕ × S → Type 0
      Took (polled, s') = Accepts (h.wire s) (buffered w ++ r) polled (h.wire s')

      both : S → Poll ℕ × S
      both = h.poll_write_vectored (buffered w ∷ r ∷ [])

  taken-lem :
      (before b after : List ℕ) (polled : Poll ℕ)
      → Accepts before b polled after
      → (taken h polled ≤ length b) × (after ≡ before ++ take (taken h polled) b)
  taken-lem before b after (ready (ok n)) a = a
  taken-lem before b after (ready (err e)) a = (omega arith, a ∙ sym (append-nil before))
  taken-lem before b after pending a = (omega arith, a ∙ sym (append-nil before))

  -- The bytes that `n` taken ones leave behind.
  keep_rest-lem :
      (w : WriteBuffer) (r : List ℕ) (n : ℕ)
      → IsValid w
      → n ≤ length (buffered w ++ r)
      → (buffered (keep_rest h w r n) ≡ drop n (buffered w ++ r))
        × IsValid (keep_rest h w r n)
        × ((keep_rest h w r n).blocked ≡ w.blocked)
  unfolding keep_rest
  keep_rest-lem w r n v f = if_split Rest (ltb n (len w)) partly all
    where
      Rest : WriteBuffer → Type 0
      Rest w' = (buffered w' ≡ drop n (buffered w ++ r)) × IsValid w' × (w'.blocked ≡ w.blocked)

      partly : ltb n (len w) ≡ true → Rest (push h (record w { pos = w.pos + n }) r)
      partly lt =
          let less = ltb→lt _ _ lt in
          let moved : IsValid (record w { pos = w.pos + n }) = record {
            within = inl (omega arith);
            allocated = v.allocated;
          } in
          let p = push-buffered l (record w { pos = w.pos + n }) r moved in
          (
            p.0
                ∙ ap (λ b. b ++ r) (sym (drop-drop n w.pos w.bytes))
                ∙ sym
                    (drop-append_left n (buffered w) r (omega (arith, length-drop w.pos w.bytes))),
            p.1,
            p.2,
          )

      all :
          ltb n (len w) ≡ false
          → Rest (extend h (record w { bytes = []; pos = 0 }) (drop (n - len w) r))
      all ge =
          let beyond : n ≡ length (buffered w) + (n - len w) =
            omega (arith, ltb→ge _ _ ge, length-drop w.pos w.bytes) in
          (
            sym (drop-append_right (n - len w) (buffered w) r)
                ∙ ap (λ k. drop k (buffered w ++ r)) (sym beyond),
            extend-IsValid l (record w { bytes = []; pos = 0 }) (drop (n - len w) r)
                (record { within = inr (refl, refl); allocated = omega arith }),
            refl,
          )

  -- For a transport that keeps its contract and a valid buffer: write_last puts the record behind
  -- the waiting bytes, so that what is on the wire and what waits is together what it was, with the
  -- record added. It keeps the invariant, and sets blocked where the transport refuses.
  pub write_last-sent :
      (w : WriteBuffer) (s : S) (r : List ℕ)
      → IsValid w
      → let (w', s') = write_last h w s r in
        (sent l w' s' ≡ sent l w s ++ r)
        × IsValid w'
        × (w'.blocked ≡ (refused h (send_last h w s r).0 || w.blocked))
  unfolding write_last
  write_last-sent w s r v = (joined, kept.1, kept.2)
    where
      polled : Poll ℕ
      polled = (send_last h w s r).0

      s' : S
      s' = (send_last h w s r).1

      w' : WriteBuffer
      w' = record w { blocked = refused h polled || w.blocked }

      took :
          (taken h polled ≤ length (buffered w ++ r))
          × (h.wire s' ≡ h.wire s ++ take (taken h polled) (buffered w ++ r))
      took = taken-lem (h.wire s) (buffered w ++ r) (h.wire s') polled (send_last-Accepts w s r)

      kept :
          (buffered (keep_rest h w' r (taken h polled)) ≡ drop (taken h polled) (buffered w ++ r))
          × IsValid (keep_rest h w' r (taken h polled))
          × ((keep_rest h w' r (taken h polled)).blocked ≡ w'.blocked)
      kept =
          keep_rest-lem w' r (taken h polled)
            (record { within = v.within; allocated = v.allocated }) took.0

      joined : h.wire s' ++ buffered (keep_rest h w' r (taken h polled)) ≡ sent l w s ++ r
      joined =
          rw (took.1, kept.0)
            (append_assoc (h.wire s) _ _
              ∙ ap (λ x. h.wire s ++ x) (take-append-drop (taken h polled) (buffered w ++ r))
              ∙ sym (append_assoc (h.wire s) (buffered w) r))
