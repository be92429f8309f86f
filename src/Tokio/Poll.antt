-- ===== src/Tokio/Poll.antt =====
-- The poll functions of `SslStream` in tokio-btls/src/lib.rs. `none` means that `patience` ran out.
pub mod Reading
pub mod Closing
use btls.Prelude.{
  ℕ, zero, suc, ◌+◌, ◌-◌, Bool, true, false, ◌||◌, Option, none, some, List, [], ◌∷◌, ◌++◌, ◌==◌,
  if◌then◌else◌, length,
}
use btls.Io.{
  ErrorCode, want_read, want_write, zero_return, protocol_is_shutdown, Reason, PackedError, IoError,
  kind, is_would_block, IoResult, ok, err, Poll, ready, pending,
}
use btls.Bio.{Caught, returned, panicked}
use btls.Ssl.Boring.{Boring}
use btls.Ssl.Error.{Error, ssl_error, into_io_error, is_zero_return, library_reason_ssl}
use btls.Ssl.Stream
use btls.Ssl.Stream.{Outcome, value, error, unwound, ShutdownResult, Tried}
use btls.Tokio.Host.{Host}
use btls.Tokio.ReadBuffer
use btls.Tokio.Wrapper
use btls.Tokio.Wrapper.{StreamWrapper, stream}
use btls.Tokio.Write.{Tls, wrapper, put, write_records}

-- `cvt`
unfoldable pub cvt : {A : Type 0} → IoResult A → Poll A
cvt (ok v) = ready (ok v)
cvt (err e) = if is_would_block (kind e) then pending else ready (err e)

abbrev pub waits : ErrorCode → Bool
waits want_read = true
waits want_write = true
waits _ = false

-- `Poll<Result<A, ssl::Error>>`, or a panic of the stream
pub data PollSsl (A : Type 0) : Type 0 where
  done_ssl : A → PollSsl A
  failed_ssl : Error → PollSsl A
  pending_ssl : PollSsl A
  unwound_ssl : ℕ → PollSsl A

-- `cvt_ossl`
unfoldable pub cvt_ossl : {A : Type 0} → Outcome A → PollSsl A
cvt_ossl (value v) = done_ssl v
cvt_ossl (error e) = if waits e.code then pending_ssl else failed_ssl e
cvt_ossl (unwound p) = unwound_ssl p

abbrev pub is_protocol_shutdown : Option Reason → Bool
is_protocol_shutdown (some protocol_is_shutdown) = true
is_protocol_shutdown _ = false

abbrev pub any_shutdown : List PackedError → Bool
any_shutdown [] = false
any_shutdown (e ∷ es) = is_protocol_shutdown (library_reason_ssl e) || any_shutdown es

abbrev stack_shutdown : Option (List PackedError) → Bool
stack_shutdown none = false
stack_shutdown (some es) = any_shutdown es

-- `closed_by_alert`
abbrev pub closed_by_alert : Error → Bool
closed_by_alert e = stack_shutdown (ssl_error e)

-- How the loop of `poll_read` ends, with the stream `T`: its `end` and the bytes put into the buffer,
-- or a panic.
pub data ReadEnd (T : Type 0) : Type 0 where
  stopped : Option (IoResult (Unit {0})) → List ℕ → T → ReadEnd T
  blew : ℕ → List ℕ → T → ReadEnd T

-- A result of a poll, or a panic, with what it put into the caller's buffer and the stream.
pub data Polled (T : Type 0) : Type 0 where
  polled : Poll (Unit {0}) → List ℕ → T → Polled T
  burst : ℕ → List ℕ → T → Polled T

module _ {C S : Type 0} (g : Boring C) (h : Host S) where
  -- `poll_connect`, `poll_accept` and `poll_do_handshake`
  unfoldable pub poll_connect : Tls C S → PollSsl (Unit {0}) × Tls C S
  poll_connect s = let (r, s') = Stream.connect g (stream h) s in (cvt_ossl r, s')

  unfoldable pub poll_accept : Tls C S → PollSsl (Unit {0}) × Tls C S
  poll_accept s = let (r, s') = Stream.accept g (stream h) s in (cvt_ossl r, s')

  unfoldable pub poll_do_handshake : Tls C S → PollSsl (Unit {0}) × Tls C S
  poll_do_handshake s = let (r, s') = Stream.do_handshake g (stream h) s in (cvt_ossl r, s')

  -- The body of the loop of `poll_read`, after `read_uninit`, with `room` bytes left in the buffer
  -- and `got` put there.
  pub after_read :
      (ℕ → List ℕ → Tls C S → Option (ReadEnd (Tls C S)))
      → ℕ
      → List ℕ
      → Tried g (stream h) (List ℕ)
      → Option (ReadEnd (Tls C S))
  after_read again room got none = none
  after_read again room got (some (panicked x, s)) = some (blew x got s)
  after_read again room got (some (returned (err e), s)) =
      some (stopped (if is_would_block (kind e) then none else some (err e)) got s)
  after_read again room got (some (returned (ok []), s)) = some (stopped (some (ok tt)) got s)
  after_read again room got (some (returned (ok (x ∷ xs)), s)) =
      let left = room - length (x ∷ xs) in
      let got' = got ++ (x ∷ xs) in
      let next = again left got' s in
      if left == 0 || ReadBuffer.is_empty (wrapper s).read_buf
      then some (stopped none got' s)
      else next

  -- The loop of `poll_read`: a round that goes on has filled a byte, so `room` rounds are enough.
  pub read_loop : ℕ → ℕ → ℕ → List ℕ → Tls C S → Option (ReadEnd (Tls C S))
  unfolding after_read
  read_loop patience zero room got s = none
  read_loop patience (suc fuel) room got s =
      after_read (read_loop patience fuel) room got
        (Stream.read_uninit g (stream h) patience room s)

  abbrev pub with_end : Option (IoResult (Unit {0})) → Tls C S → Tls C S
  with_end e s = put s (record (wrapper s) { read_end = e })

  abbrev pub end_of : Option (IoResult (Unit {0})) → Poll (Unit {0})
  end_of none = pending
  end_of (some r) = ready r

  -- What follows the loop.
  pub after_loop : Option (ReadEnd (Tls C S)) → Option (Polled (Tls C S))
  after_loop none = none
  after_loop (some (blew x got s)) = some (burst x got s)
  after_loop (some (stopped e [] s)) = some (polled (end_of e) [] s)
  after_loop (some (stopped e (x ∷ xs) s)) = some (polled (ready (ok tt)) (x ∷ xs) (with_end e s))

  pub unless_ended : ℕ → ℕ → Tls C S → Option (IoResult (Unit {0})) → Option (Polled (Tls C S))
  unfolding after_loop read_loop
  unless_ended patience room s (some r) = some (polled (ready r) [] (with_end none s))
  unless_ended patience room s none = after_loop (read_loop patience room room [] s)

  -- `poll_read` into a buffer with `room` bytes left
  unfoldable pub poll_read : ℕ → ℕ → Tls C S → Option (Polled (Tls C S))
  unfolding unless_ended
  poll_read patience zero s = some (polled (ready (ok tt)) [] s)
  poll_read patience (suc room) s = unless_ended patience (suc room) s (wrapper s).read_end

  abbrev pub cvt_caught : Caught ℕ × Tls C S → Option ℕ × Poll ℕ × Tls C S
  cvt_caught (returned r, s) = (none, cvt r, s)
  cvt_caught (panicked p, s) = (some p, pending, s)

  -- `poll_write` and `poll_write_vectored`: the payload of a panic, or else the result.
  unfoldable pub poll_write_vectored :
      ℕ → Tls C S → List (List ℕ) → Option (Option ℕ × Poll ℕ × Tls C S)
  poll_write_vectored patience s bufs = elim (write_records g h patience s bufs) [
    | none ↦ none
    | some r ↦ some (cvt_caught r)
  ]

  unfoldable pub poll_write : ℕ → Tls C S → List ℕ → Option (Option ℕ × Poll ℕ × Tls C S)
  unfolding poll_write_vectored
  poll_write patience s buf = poll_write_vectored patience s (buf ∷ [])

  -- `poll_flush`
  unfoldable pub poll_flush : Tls C S → Poll (Unit {0}) × Tls C S
  poll_flush s = let (r, w) = Wrapper.flush h (wrapper s) in (cvt r, put s w)

  abbrev pub with_shutdown_sent : Tls C S → Tls C S
  with_shutdown_sent s = put s (record (wrapper s) { shutdown_sent = true })

  -- The flush and the close at the end of `poll_shutdown`.
  pub close : Poll (Unit {0}) × Tls C S → Polled (Tls C S)
  close (ready (ok _), s) =
      let (r, t) = h.poll_shutdown (wrapper s).transport in
      polled r [] (put s (record (wrapper s) { transport = t }))
  close (ready (err e), s) = polled (ready (err e)) [] s
  close (pending, s) = polled pending [] s

  pub after_shutdown : Outcome ShutdownResult × Tls C S → Polled (Tls C S)
  unfolding close poll_flush
  after_shutdown (value _, s) = close (poll_flush (with_shutdown_sent s))
  after_shutdown (unwound p, s) = burst p [] s
  after_shutdown (error e, s) =
      if is_zero_return e.code || closed_by_alert e
      then close (poll_flush (with_shutdown_sent s))
      else (if waits e.code
          then polled pending [] s
          else polled (ready (err (into_io_error e))) [] s)

  -- `poll_shutdown`
  unfoldable pub poll_shutdown : Tls C S → Polled (Tls C S)
  unfolding after_shutdown
  poll_shutdown s =
      if (wrapper s).shutdown_sent
      then close (poll_flush s)
      else after_shutdown (Stream.shutdown g (stream h) s)
