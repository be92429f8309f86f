-- ===== src/Tokio/ReadBuffer.antt =====
-- `ReadBuffer` of tokio-btls/src/lib.rs: ciphertext read from the transport for BoringSSL.
pub mod Order
use btls.Prelude.{ℕ, ◌+◌, min, Bool, List, [], ◌==◌, if◌then◌else◌, length, take, drop}
use btls.Io.{would_block, from_kind, IoResult, ok, err, Poll, ready, pending}
use btls.Tokio.Limits.{read_buf_capacity}
use btls.Tokio.Host.{Host}

-- `bytes` and `pos`. The vector is new whenever it is empty, so its capacity is not kept.
pub record ReadBuffer : Type 0 where
  pub bytes : List ℕ
  pub pos : ℕ

-- `ReadBuffer::default()`, and the state after `Vec::new()` and `pos = 0`
abbrev pub default : ReadBuffer
default = record { bytes = []; pos = 0 }

-- `ReadBuffer::is_empty`
abbrev pub is_empty : ReadBuffer → Bool
is_empty r = length r.bytes == 0

-- `&self.bytes[self.pos..]`
abbrev pub buffered : ReadBuffer → List ℕ
buffered r = drop r.pos r.bytes

module _ {S : Type 0} (h : Host S) where
  abbrev pub Filled : Type 0
  Filled = IoResult (Unit {0}) × ReadBuffer × S

  -- The `match` of `fill`. `mem::take` has emptied the buffer.
  filled : Poll (List ℕ) → S → Filled
  filled (ready (ok bytes)) s = (ok tt, record { bytes = bytes; pos = 0 }, s)
  filled (ready (err e)) s = (err e, default, s)
  filled pending s = (err (from_kind would_block), default, s)

  -- `ReadBuffer::fill`, which reads into the spare room of a vector that `reserve` has grown
  unfoldable pub fill : S → Filled
  unfolding filled
  fill s = let (polled, s') = h.poll_read (h.reserve 0 0 read_buf_capacity) s in filled polled s'

  -- The copy at the end of `read`, into a buffer of `room` bytes.
  unfoldable pub copy_out : ℕ → ReadBuffer → List ℕ × ReadBuffer
  copy_out room r =
      let n = min (length (buffered r)) room in
      (
        take n (buffered r),
        if r.pos + n == length r.bytes then default else record r { pos = r.pos + n },
      )

  abbrev pub ReadResult : Type 0
  ReadResult = IoResult (List ℕ) × ReadBuffer × S

  after_fill : ℕ → Filled → ReadResult
  unfolding copy_out
  after_fill room (ok _, r, s) = let (bytes, r') = copy_out room r in (ok bytes, r', s)
  after_fill room (err e, r, s) = (err e, r, s)

  -- `ReadBuffer::read`: the bytes copied into the buffer of `room` bytes.
  unfoldable pub read : ReadBuffer → S → ℕ → ReadResult
  unfolding fill after_fill
  read r s room = after_fill room (if is_empty r then fill s else (ok tt, r, s))
