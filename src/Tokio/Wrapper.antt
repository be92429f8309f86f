-- ===== src/Tokio/Wrapper.antt =====
-- `StreamWrapper` of tokio-btls/src/lib.rs, the stream under the BIO, with its `Read` and `Write`.
pub mod Log
use btls.Prelude.{ℕ, Bool, true, false, not, ◌&&◌, Option, none, List, if◌then◌else◌, length}
use btls.Io.{would_block, from_kind, IoResult, ok, err, Poll, ready, pending}
use btls.Bio.{Stream, Caught, returned}
use btls.Tokio.Host.{Host}
use btls.Tokio.ReadBuffer
use btls.Tokio.ReadBuffer.{ReadBuffer}
use btls.Tokio.WriteBuffer
use btls.Tokio.WriteBuffer.{WriteBuffer, Drained}

-- `transport`, `read_buf`, `write_buf`, `write_through`, `shutdown_sent`, `read_end`. Of
-- `Transport` only the stream is kept: the task context carries no data.
pub record StreamWrapper (S : Type 0) : Type 0 where
  pub transport : S
  pub read_buf : ReadBuffer
  pub write_buf : WriteBuffer
  pub write_through : Bool
  pub shutdown_sent : Bool
  pub read_end : Option (IoResult (Unit {0}))

module _ {S : Type 0} where
  -- `StreamWrapper::new`
  unfoldable pub new : S → StreamWrapper S
  new stream = record {
    transport = stream;
    read_buf = ReadBuffer.default;
    write_buf = WriteBuffer.default;
    write_through = false;
    shutdown_sent = false;
    read_end = none;
  }

  -- The wrapper after an operation on its write buffer.
  abbrev pub with_write_buf : StreamWrapper S → WriteBuffer × S → StreamWrapper S
  with_write_buf w (b, s) = record w { write_buf = b; transport = s }

  module _ (h : Host S) where
    -- `Read::read`
    unfoldable pub read : ℕ → StreamWrapper S → IoResult (List ℕ) × StreamWrapper S
    unfolding ReadBuffer.read
    read room w =
        let (r, b, s) = ReadBuffer.read h w.read_buf w.transport room in
        (r, record w { read_buf = b; transport = s })

    -- The state that `Write::write` leaves: a last record goes out with the buffer, unless blocked.
    pub take_record : List ℕ → StreamWrapper S → StreamWrapper S
    take_record buf w =
        if w.write_through && not w.write_buf.blocked
        then with_write_buf w (WriteBuffer.write_last h w.write_buf w.transport buf)
        else with_write_buf w (WriteBuffer.push h w.write_buf buf, w.transport)

    -- `Write::write`
    unfoldable pub write : List ℕ → StreamWrapper S → IoResult ℕ × StreamWrapper S
    unfolding take_record
    write buf w = (ok (length buf), take_record buf w)

    flushed : Poll (Unit {0}) → IoResult (Unit {0})
    flushed (ready r) = r
    flushed pending = err (from_kind would_block)

    after_drain : StreamWrapper S → Drained h → IoResult (Unit {0}) × StreamWrapper S
    unfolding flushed
    after_drain w (ok _, b, s) =
        let (polled, s') = h.poll_flush s in (flushed polled, with_write_buf w (b, s'))
    after_drain w (err e, b, s) = (err e, with_write_buf w (b, s))

    -- `Write::flush`
    unfoldable pub flush : StreamWrapper S → IoResult (Unit {0}) × StreamWrapper S
    unfolding after_drain
    flush w = after_drain w (WriteBuffer.drain h w.write_buf w.transport)

    -- The wrapper as the stream of a BIO. A transport that panics is left out.
    unfoldable pub stream : Stream (StreamWrapper S)
    unfolding read write flush
    stream = record {
      read = λ room w. (returned (read room w).0, (read room w).1);
      write = λ buf w. (returned (write buf w).0, (write buf w).1);
      flush = λ w. (returned (flush w).0, (flush w).1);
    }
