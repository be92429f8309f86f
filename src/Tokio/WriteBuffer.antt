-- ===== src/Tokio/WriteBuffer.antt =====
-- `WriteBuffer` of tokio-btls/src/lib.rs: sealed records not yet written to the transport.
pub mod Room
pub mod Drain
pub mod Retry
pub mod Last
use btls.Prelude.{
  ℕ, zero, suc, ◌+◌, ◌-◌, ◌*◌, min, Bool, true, false, ◌&&◌, ◌||◌, List, [], ◌∷◌, ◌++◌, ltb, leb,
  ◌==◌, if◌then◌else◌, length, drop, div_ceil,
}
use btls.Io.{
  would_block, write_zero, kind, is_would_block, from_kind, IoResult, ok, err, Poll, ready, pending,
}
use btls.Tokio.Limits.{write_buf_capacity, max_record, record_overhead}
use btls.Tokio.Host.{Host}

-- `bytes` with the capacity of its `Vec`, `pos` and `blocked`
pub record WriteBuffer : Type 0 where
  pub bytes : List ℕ
  pub capacity : ℕ
  pub pos : ℕ
  pub blocked : Bool

-- `WriteBuffer::default()`
abbrev pub default : WriteBuffer
default = record { bytes = []; capacity = 0; pos = 0; blocked = false }

-- `WriteBuffer::buffered`
abbrev pub buffered : WriteBuffer → List ℕ
buffered w = drop w.pos w.bytes

-- `WriteBuffer::len`
abbrev pub len : WriteBuffer → ℕ
len w = length w.bytes - w.pos

-- `WriteBuffer::is_empty`
abbrev pub is_empty : WriteBuffer → Bool
is_empty w = length w.bytes == 0

-- `WriteBuffer::is_full`
abbrev pub is_full : WriteBuffer → Bool
is_full w = leb write_buf_capacity (len w)

-- Back to an empty vector: `Vec::new()` and `pos = 0`.
abbrev pub release : WriteBuffer → WriteBuffer
release w = record w { bytes = []; capacity = 0; pos = 0 }

module _ {S : Type 0} (h : Host S) where
  -- The test of `make_room`: drop the written prefix?
  pub compacts : WriteBuffer → ℕ → Bool
  compacts w extra = ltb 0 w.pos && (leb (len w) w.pos || ltb (w.capacity - length w.bytes) extra)

  -- `copy_within` and `truncate`
  abbrev pub compact : WriteBuffer → WriteBuffer
  compact w = record w { bytes = buffered w; pos = 0 }

  -- `Vec::reserve`
  abbrev pub reserve_room : WriteBuffer → ℕ → WriteBuffer
  reserve_room w extra = record w { capacity = h.reserve w.capacity (length w.bytes) extra }

  -- `WriteBuffer::make_room`
  pub make_room : WriteBuffer → ℕ → WriteBuffer
  unfolding compacts
  make_room w extra = reserve_room (if compacts w extra then compact w else w) extra

  -- `Vec::extend_from_slice`
  abbrev pub extend : WriteBuffer → List ℕ → WriteBuffer
  extend w record_bytes = record (reserve_room w (length record_bytes)) {
    bytes = w.bytes ++ record_bytes;
  }

  -- `WriteBuffer::push`
  pub push : WriteBuffer → List ℕ → WriteBuffer
  unfolding make_room
  push w record_bytes = extend (make_room w (length record_bytes)) record_bytes

  -- `WriteBuffer::reserve`
  pub reserve : WriteBuffer → ℕ → WriteBuffer
  unfolding make_room
  reserve w total =
      let sealed = min total write_buf_capacity in
      if ltb max_record total
      then make_room w (sealed + div_ceil sealed max_record * record_overhead)
      else w

  abbrev pub Drained : Type 0
  Drained = IoResult (Unit {0}) × WriteBuffer × S

  -- The arms of `drain`'s `match` on a write; `again` goes round the loop.
  abbrev pub after_write : (ℕ → Drained) → WriteBuffer → S → Poll ℕ → Drained
  after_write again w s (ready (ok zero)) = (err (from_kind write_zero), w, s)
  after_write again w s (ready (ok (suc n))) = again (suc n)
  after_write again w s (ready (err e)) = (err e, w, s)
  after_write again w s pending = (err (from_kind would_block), w, s)

  -- The loop of `drain`. Every round that goes on moves `pos`, so `len` rounds are enough.
  pub drain_loop : ℕ → WriteBuffer → S → Drained
  drain_loop zero w s = (ok tt, w, s)
  drain_loop (suc fuel) w s =
      let (polled, s') = h.poll_write (buffered w) s in
      let again = λ (n : ℕ). drain_loop fuel (record w { pos = w.pos + n }) s' in
      let arm = after_write again w s' polled in
      if w.pos == length w.bytes then (ok tt, w, s) else arm

  -- The end of `drain`: a vector written to its end is released.
  abbrev pub release_written : Drained → Drained
  release_written (r, w, s) = (r, if w.pos == length w.bytes then release w else w, s)

  -- `WriteBuffer::drain`
  pub drain : WriteBuffer → S → Drained
  unfolding drain_loop
  drain w s = release_written (drain_loop (len w) w s)

  -- The `match` of `retry` on what `drain` returned.
  abbrev pub after_retry : Drained → Drained
  after_retry (ok _, w, s) = (ok tt, record w { blocked = ltb 0 (length w.bytes) }, s)
  after_retry (err e, w, s) =
      if is_would_block (kind e)
      then (if is_full w
          then (err e, w, s)
          else (ok tt, record w { blocked = ltb 0 (length w.bytes) }, s))
      else (err e, w, s)

  -- `WriteBuffer::retry`
  pub retry : WriteBuffer → S → Drained
  unfolding drain
  retry w s =
      if is_empty w then (ok tt, record w { blocked = false }, s) else after_retry (drain w s)

  -- `WriteBuffer::drain_unless_blocked`, which drops the result of `drain`
  pub drain_unless_blocked : WriteBuffer → S → WriteBuffer × S
  unfolding drain
  drain_unless_blocked w s = let (_, w', s') = drain w s in if w.blocked then (w, s) else (w', s')

  -- The one write of `write_last`, or none where the transport is not vectored.
  pub send_last : WriteBuffer → S → List ℕ → Poll ℕ × S
  send_last w s record_bytes =
      if len w == 0
      then h.poll_write record_bytes s
      else (if h.is_write_vectored s
          then h.poll_write_vectored (buffered w ∷ record_bytes ∷ []) s
          else (ready (ok 0), s))

  -- What `write_last` takes from the poll: the bytes taken, and `blocked`.
  abbrev pub taken : Poll ℕ → ℕ
  taken (ready (ok n)) = n
  taken (ready (err e)) = 0
  taken pending = 0

  abbrev pub refused : Poll ℕ → Bool
  refused (ready (ok n)) = false
  refused (ready (err e)) = true
  refused pending = true

  -- The end of `write_last`: keep what the transport did not take.
  pub keep_rest : WriteBuffer → List ℕ → ℕ → WriteBuffer
  unfolding push
  keep_rest w record_bytes n =
      if ltb n (len w)
      then push (record w { pos = w.pos + n }) record_bytes
      else extend (record w { bytes = []; pos = 0 }) (drop (n - len w) record_bytes)

  -- `WriteBuffer::write_last`
  pub write_last : WriteBuffer → S → List ℕ → WriteBuffer × S
  unfolding send_last keep_rest
  write_last w s record_bytes =
      let (polled, s') = send_last w s record_bytes in
      let w' = record w { blocked = refused polled || w.blocked } in
      (keep_rest w' record_bytes (taken polled), s')
