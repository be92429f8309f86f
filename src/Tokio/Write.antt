-- ===== src/Tokio/Write.antt =====
-- The write path of tokio-btls/src/lib.rs: `write_records` and what it calls.
-- `patience` bounds the retries of `SslStream::write`; `none` means that it ran out.
pub mod Advance
pub mod Loop
pub mod Plain
pub mod Whole
pub mod Cipher
pub mod Lossless
use btls.Prelude.{
  ℕ, zero, suc, ◌+◌, ◌-◌, Bool, true, false, ◌&&◌, Option, none, some, List, [], ◌∷◌, ◌++◌, ltb,
  leb, ◌==◌, if◌then◌else◌, length, drop, flatten, saturating_add,
}
use btls.Io.{ssl, IoError, wrapped, ErrorStack, IoResult, ok, err}
use btls.Bio.{Caught, returned, panicked}
use btls.Ssl.Boring.{Boring}
use btls.Ssl.Seal.{
  SealLimits, sealed_len, seal_app_data_limits, Seal, sealed, declines, fails, seal_app_data,
}
use btls.Ssl.Stream
use btls.Ssl.Stream.{SslStream, Tried}
use btls.Tokio.Limits.{max_record, seal_stack_len}
use btls.Tokio.Budget.{seal_budget}
use btls.Tokio.Packer
use btls.Tokio.Packer.{Packer, next_record, advance}
use btls.Tokio.Host.{Host}
use btls.Tokio.WriteBuffer
use btls.Tokio.WriteBuffer.{WriteBuffer, drain_unless_blocked}
use btls.Tokio.Wrapper.{StreamWrapper, with_write_buf, stream}

-- `SslStreamCore<StreamWrapper<S>>`
abbrev pub Tls : Type 0 → Type 0 → Type 0
Tls C S = SslStream C (StreamWrapper S)

-- `io::Error::other(ssl::Error::from(stack))`
abbrev pub stack_error : ErrorStack → IoError
stack_error e = wrapped ssl (some e)

-- `bufs.iter().fold(0, |n, b| n.saturating_add(b.len()))`
unfoldable pub total_from : ℕ → List (List ℕ) → ℕ
total_from n [] = n
total_from n (b ∷ bs) = total_from (saturating_add n (length b)) bs

-- `IoSlice::advance_slices`
unfoldable pub advance_slices : ℕ → List (List ℕ) → List (List ℕ)
advance_slices n [] = []
advance_slices n (b ∷ bs) =
    let rest = advance_slices (n - length b) bs in if leb (length b) n then rest else drop n b ∷ bs

module _ {C S : Type 0} where
  abbrev pub wrapper : Tls C S → StreamWrapper S
  wrapper s = s.bio.stream

  -- `s.get_mut()` written through
  abbrev pub put : Tls C S → StreamWrapper S → Tls C S
  put s w = record s { bio = record (s.bio) { stream = w } }

  abbrev pub set_through : Bool → Tls C S → Tls C S
  set_through b s = put s (record (wrapper s) { write_through = b })

-- How the loop of `ssl_write_records` ends, with the stream `T`: by its condition or a `break`, or by
-- a panic.
pub data Ended (T : Type 0) : Type 0 where
  ended : ℕ → Option IoError → T → Ended T
  blown : ℕ → T → Ended T

module _ {C S : Type 0} (g : Boring C) (h : Host S) where
  abbrev pub SealOut : Type 0
  SealOut = IoResult (Option ℕ) × WriteBuffer × C

  pub appended : WriteBuffer → Seal × C → SealOut
  appended w (sealed consumed out, c) = (ok (some consumed), record w { bytes = w.bytes ++ out }, c)
  appended w (declines, c) = (ok none, w, c)
  appended w (fails e, c) = (err (stack_error e), w, c)

  pub seal_into : WriteBuffer → C → List (List ℕ) → ℕ → Option ℕ → SealOut
  unfolding appended
  seal_into w c bufs budget none = (ok none, w, c)
  seal_into w c bufs budget (some max_out) =
      appended (WriteBuffer.make_room h w max_out) (seal_app_data g c bufs budget max_out)

  -- `WriteBuffer::seal`
  unfoldable pub seal : WriteBuffer → C → SealLimits → List (List ℕ) → ℕ → SealOut
  unfolding seal_into
  seal w c limits bufs total =
      let budget =
        seal_budget limits.max_fragment limits.record_overhead limits.pending_len
          (WriteBuffer.len w) total in
      seal_into w c bufs budget (sealed_len limits budget)

  -- The rest of the loop's body, after `s.write` of a record of `len` bytes; `again` goes round with
  -- the packer, `written`, `through` and the stream.
  pub after_record :
      (Packer → ℕ → Bool → Tls C S → Option (Ended (Tls C S)))
      → ℕ
      → Packer
      → ℕ
      → ℕ
      → Bool
      → Option (Caught ℕ × Tls C S)
      → Option (Ended (Tls C S))
  after_record again total p written len through none = none
  after_record again total p written len through (some (panicked x, s)) = some (blown x s)
  after_record again total p written len through (some (returned (err e), s)) =
      some (ended written (some e) s)
  after_record again total p written len through (some (returned (ok n), s)) =
      let short = ltb n len in
      let q = advance (if short then record p { limit = n } else p) n in
      let next = again q (written + n) (if short then false else through) s in
      if WriteBuffer.is_full (wrapper s).write_buf && ltb max_record (total - (written + n))
      then some (ended (written + n) none s)
      else next

  -- The body of the loop of `ssl_write_records`, after `next_record`.
  pub round :
      (Packer → ℕ → Bool → Tls C S → Option (Ended (Tls C S)))
      → ℕ
      → ℕ
      → ℕ
      → Bool
      → Tls C S
      → Option (List ℕ) × Packer
      → Option (Ended (Tls C S))
  unfolding after_record
  round again patience total written through s (none, q) = some (ended written none s)
  round again patience total written through s (some r, q) =
      let s' = set_through (through && leb total (saturating_add written (length r))) s in
      after_record again total q written (length r) through
        (Stream.write g (stream h) patience r s')

  -- The loop of `ssl_write_records`.
  pub record_loop : ℕ → ℕ → ℕ → Packer → ℕ → Bool → Tls C S → Option (Ended (Tls C S))
  unfolding round
  record_loop patience total zero p written through s = none
  record_loop patience total (suc fuel) p written through s =
      round (record_loop patience total fuel) patience total written through s (next_record p)

  -- Every round seals at least a byte, so one round more than there are bytes is enough.
  abbrev pub rounds : List (List ℕ) → ℕ
  rounds bufs = suc (length (flatten bufs))

  -- The end of `ssl_write_records`.
  abbrev pub drained : Tls C S → Tls C S
  drained s =
      let w = record (wrapper s) { write_through = false } in
      put s (with_write_buf w (drain_unless_blocked h w.write_buf w.transport))

  pub finish_records : Option (Ended (Tls C S)) → Tried g (stream h) ℕ
  finish_records none = none
  finish_records (some (blown x s)) = some (panicked x, s)
  finish_records (some (ended written none s)) = some (returned (ok written), drained s)
  finish_records (some (ended written (some e) s)) =
      some (returned (if written == 0 then err e else ok written), drained s)

  -- `SslStream::ssl_write_records`
  unfoldable pub ssl_write_records : ℕ → Tls C S → List (List ℕ) → ℕ → Tried g (stream h) ℕ
  unfolding record_loop finish_records
  ssl_write_records patience s bufs total =
      let w = wrapper s in
      let s' = put s (record w { write_buf = WriteBuffer.reserve h w.write_buf total }) in
      finish_records (record_loop patience total (rounds bufs) (Packer.new bufs) 0 true s')

  -- What `write_buffered` does with the outcome of `seal`; `fallback` is `ssl_write_records`.
  pub after_seal : (Tls C S → Tried g (stream h) ℕ) → Tls C S → SealOut → Tried g (stream h) ℕ
  after_seal fallback s (err e, b, c) =
      some (returned (err e), record (put s (record (wrapper s) { write_buf = b })) { conn = c })
  after_seal fallback s (ok none, b, c) =
      fallback (record (put s (record (wrapper s) { write_buf = b })) { conn = c })
  after_seal fallback s (ok (some n), b, c) =
      let w = record (wrapper s) { write_buf = b } in
      some (
        returned (ok n),
        record (put s (with_write_buf w (drain_unless_blocked h b w.transport))) { conn = c },
      )

  pub buffered_with : ℕ → Tls C S → List (List ℕ) → ℕ → Option SealLimits → Tried g (stream h) ℕ
  unfolding after_seal ssl_write_records
  buffered_with patience s bufs total none = ssl_write_records patience s bufs total
  buffered_with patience s bufs total (some limits) =
      after_seal (λ s'. ssl_write_records patience s' bufs total) s
        (seal (wrapper s).write_buf s.conn limits bufs total)

  -- `SslStream::write_buffered`
  unfoldable pub write_buffered : ℕ → Tls C S → List (List ℕ) → ℕ → Tried g (stream h) ℕ
  unfolding buffered_with
  write_buffered patience s bufs total =
      buffered_with patience s bufs total (seal_app_data_limits g s.conn)

  pub on_stack : Tls C S → ℕ → Seal × C → IoResult (Option ℕ) × Tls C S
  on_stack s total (declines, c) = (ok none, record s { conn = c })
  on_stack s total (fails e, c) = (err (stack_error e), record s { conn = c })
  on_stack s total (sealed consumed records, c) =
      let w = wrapper s in
      (
        ok (some consumed),
        record (put s (
            with_write_buf w (
              if ltb consumed total
              then (WriteBuffer.push h w.write_buf records, w.transport)
              else WriteBuffer.write_last h w.write_buf w.transport records))) { conn = c },
      )

  -- `SslStream::seal_on_stack`
  unfoldable pub seal_on_stack : Tls C S → List (List ℕ) → ℕ → IoResult (Option ℕ) × Tls C S
  unfolding on_stack
  seal_on_stack s bufs total = on_stack s total (seal_app_data g s.conn bufs total seal_stack_len)

  -- `Ok(n + result.unwrap_or(0))`
  abbrev pub plus : ℕ → Tried g (stream h) ℕ → Tried g (stream h) ℕ
  plus n none = none
  plus n (some (returned (ok m), s)) = some (returned (ok (n + m)), s)
  plus n (some (returned (err e), s)) = some (returned (ok (n + 0)), s)
  plus n (some (panicked x, s)) = some (panicked x, s)

  pub after_stack : ℕ → List (List ℕ) → ℕ → IoResult (Option ℕ) × Tls C S → Tried g (stream h) ℕ
  unfolding write_buffered
  after_stack patience bufs total (err e, s) = some (returned (err e), s)
  after_stack patience bufs total (ok none, s) = write_buffered patience s bufs total
  after_stack patience bufs total (ok (some n), s) =
      if ltb n total
      then plus n (write_buffered patience s (advance_slices n bufs) (total - n))
      else some (returned (ok n), s)

  pub seal_all : ℕ → Tls C S → List (List ℕ) → ℕ → Tried g (stream h) ℕ
  unfolding after_stack seal_on_stack
  seal_all patience s bufs total =
      if total == 0
      then some (returned (ok 0), s)
      else (if leb total max_record && WriteBuffer.is_empty (wrapper s).write_buf
          then after_stack patience bufs total (seal_on_stack s bufs total)
          else write_buffered patience s bufs total)

  pub after_retry :
      ℕ → Tls C S → List (List ℕ) → IoResult (Unit {0}) × WriteBuffer × S → Tried g (stream h) ℕ
  unfolding seal_all total_from
  after_retry patience s bufs (err e, b, t) =
      some (returned (err e), put s (with_write_buf (wrapper s) (b, t)))
  after_retry patience s bufs (ok _, b, t) =
      seal_all patience (put s (with_write_buf (wrapper s) (b, t))) bufs (total_from 0 bufs)

  -- `SslStream::write_records`
  unfoldable pub write_records : ℕ → Tls C S → List (List ℕ) → Tried g (stream h) ℕ
  unfolding after_retry
  write_records patience s bufs =
      after_retry patience s bufs (WriteBuffer.retry h (wrapper s).write_buf (wrapper s).transport)
