-- ===== src/Tokio/WriteBuffer/Retry.antt =====
-- `retry`, which starts a write, and `drain_unless_blocked`, which ends one.
use btls.Prelude.{
  ◌<◌, ◌≡◌, ◌⊎◌, refl, inl, inr, arith, true, false, ltb, ==→eq, Bool-cases, if_both, length,
}
use btls.Io.{kind, is_would_block, IoResult, ok, err}
use btls.Tokio.Host.{Host, IsHost}
use btls.Tokio.WriteBuffer.{
  WriteBuffer, len, is_empty, is_full, Drained, drain, after_retry, retry, drain_unless_blocked,
}
use btls.Tokio.WriteBuffer.Room.{IsValid}
use btls.Tokio.WriteBuffer.Drain.{sent, Flushed, drain-Flushed}

module _ {S : Type 0} {h : Host S} (l : IsHost h) where
  -- `retry` succeeds below the capacity and sets `blocked` where records still wait. It fails with
  -- the transport's error, or with `WouldBlock` on a full buffer.
  abbrev pub Outcome : IoResult (Unit {0}) → WriteBuffer → Type 0
  Outcome (ok _) w = (is_full w ≡ false) × (w.blocked ≡ ltb 0 (length w.bytes))
  Outcome (err e) w = (0 < len w) × ((is_would_block (kind e) ≡ false) ⊎ (is_full w ≡ true))

  pub record Retried (w : WriteBuffer) (s : S) (r : Drained h) : Type 0 where
    pub sent_same : sent l r.1 r.2 ≡ sent l w s
    pub valid : IsValid r.1
    pub outcome : Outcome r.0 r.1

  after_retry-Retried :
      (w w' : WriteBuffer) (s s' : S) (r : IoResult (Unit {0}))
      → Flushed l w s (r, w', s')
      → Retried w s (after_retry h (r, w', s'))
  after_retry-Retried w w' s s' (ok u) f = record {
    sent_same = f.sent_same;
    valid = record { within = f.valid.within; allocated = f.valid.allocated };
    outcome = (ground (arith, f.done), refl);
  }
  after_retry-Retried w w' s s' (err e) f = elim (Bool-cases (is_would_block (kind e))) [
    | inr hard ↦ rw hard (failed (inl hard))
    | inl soft ↦ rw soft (elim (Bool-cases (is_full w')) [
      | inl full ↦ rw full (failed (inr full))
      | inr low ↦ rw low (record {
        sent_same = f.sent_same;
        valid = record { within = f.valid.within; allocated = f.valid.allocated };
        outcome = (low, refl);
      })
    ])
  ]
    where
      failed : (is_would_block (kind e) ≡ false) ⊎ (is_full w' ≡ true) → Retried w s (err e, w', s')
      failed why = record {
        sent_same = f.sent_same;
        valid = f.valid;
        outcome = (ground (arith, f.done), why);
      }

  -- For a transport that keeps its contract and a valid buffer: retry moves buffered bytes to the
  -- wire in order, losing none. It returns Ok with less than WRITE_BUF_CAPACITY buffered and
  -- blocked set exactly where bytes still wait; it fails with bytes buffered, and then with an
  -- error other than WouldBlock or on a full buffer.
  pub retry-Retried : (w : WriteBuffer) (s : S) → IsValid w → Retried w s (retry h w s)
  unfolding retry
  retry-Retried w s v = elim (Bool-cases (is_empty w)) [
    | inl nothing ↦
        let z : length w.bytes ≡ 0 = ==→eq _ _ nothing in
        rw nothing (record {
          sent_same = refl;
          valid = record { within = v.within; allocated = v.allocated };
          outcome = (ground arith, ground arith);
        })
    | inr waits ↦ rw waits (
        after_retry-Retried w (drain h w s).1 s (drain h w s).2 (drain h w s).0
          (drain-Flushed l w s v))
  ]

  -- What every step that ends a write keeps.
  pub record Kept (w : WriteBuffer) (s : S) (r : WriteBuffer × S) : Type 0 where
    pub sent_same : sent l r.0 r.1 ≡ sent l w s
    pub valid : IsValid r.0
    pub blocked_same : r.0.blocked ≡ w.blocked

  pub drain_unless_blocked-Kept :
      (w : WriteBuffer) (s : S) → IsValid w → Kept w s (drain_unless_blocked h w s)
  unfolding drain_unless_blocked
  drain_unless_blocked-Kept w s v =
      let f = drain-Flushed l w s v in
      if_both (Kept w s) w.blocked (record { sent_same = refl; valid = v; blocked_same = refl })
        (record { sent_same = f.sent_same; valid = f.valid; blocked_same = f.blocked_same })
