-- ===== src/Ssl/Stream.antt =====
-- `SslStream` of btls/src/ssl/mod.rs: calls of BoringSSL, their errors, and the retrying loops.
pub mod Laws
pub mod Sealing
pub mod Growth
pub mod Calm
pub mod Opening
use btls.Prelude.{
  ℕ, zero, suc, ◌+◌, ◌-◌, ℤ, pos, negsuc, c_int_max, min, Bool, true, false, ◌&&◌, ◌||◌, Option,
  none, some, List, [], ◌∷◌, take, length, ltb, if◌then◌else◌,
}
use btls.Io.{
  ErrorCode, ErrorStack, ssl, syscall, zero_return, want_read, want_write, IoError, IoResult, ok,
  err,
}
use btls.Bio.{Stream, Bio, Retry, Caught, returned, panicked, take_error, take_panic}
use btls.Bio.Calls.{Prog, run}
use btls.Ssl.Error.{
  Error, InnerError, io, stack, io_error, into_io_error, is_want_read, is_zero_return, is_syscall,
  would_block,
}
use btls.Ssl.Boring.{Boring}

-- `SslStream<S>`: the connection and its BIO.
pub record SslStream (C S : Type 0) : Type 0 where
  pub conn : C
  pub bio : Bio S

-- `Result<A, Error>`, or a panic of the stream that `check_panic` resumes.
pub data Outcome (A : Type 0) : Type 0 where
  value : A → Outcome A
  error : Error → Outcome A
  unwound : ℕ → Outcome A

-- `ShutdownResult`
pub data ShutdownResult : Type 0 where
  sent received : ShutdownResult

abbrev is_none : {A : Type 0} → Option A → Bool
is_none none = true
is_none (some _) = false

abbrev io_cause : Option IoError → Option InnerError
io_cause none = none
io_cause (some e) = some (io e)

module _ {C S : Type 0} (g : Boring C) (st : Stream S) where
  -- `SslStream::new`
  unfoldable pub new : C → S → SslStream C S
  unfolding btls.Bio.new
  new c s = record { conn = c; bio = btls.Bio.new s }

  -- `get_bio_error`, as a cause
  bio_cause : SslStream C S → Option InnerError × SslStream C S
  unfolding take_error
  bio_cause s = let (e, b) = take_error s.bio in (io_cause e, record s { bio = b })

  -- `ErrorStack::get()`, as a cause
  stack_cause : SslStream C S → Option InnerError × SslStream C S
  stack_cause s = let (e, c) = g.err_get s.conn in (some (stack e), record s { conn = c })

  -- The `SYSCALL` arm of `make_error`: the error queue, or the stream's error if that is empty.
  syscall_cause : ErrorStack × C → SslStream C S → Option InnerError × SslStream C S
  unfolding bio_cause
  syscall_cause ([], c) s = bio_cause (record s { conn = c })
  syscall_cause (e ∷ es, c) s = (some (stack (e ∷ es)), record s { conn = c })

  -- The `match` of `make_error` on the code.
  cause_of : ErrorCode → SslStream C S → Option InnerError × SslStream C S
  unfolding stack_cause syscall_cause
  cause_of ssl s = stack_cause s
  cause_of syscall s = syscall_cause (g.err_get s.conn) s
  cause_of zero_return s = (none, s)
  cause_of want_read s = bio_cause s
  cause_of want_write s = bio_cause s
  cause_of _ s = (none, s)

  after_check : {A : Type 0} → ℤ → Option ℕ × Bio S → SslStream C S → Outcome A × SslStream C S
  unfolding cause_of
  after_check ret (some p, b) s = (unwound p, record s { bio = b })
  after_check ret (none, b) s =
      let code = g.ssl_get_error s.conn b.retry ret in
      let (cause, s') = cause_of code (record s { bio = b }) in
      (error (record { code = code; cause = cause }), s')

  -- `make_error`, with `check_panic`
  unfoldable pub make_error : {A : Type 0} → ℤ → SslStream C S → Outcome A × SslStream C S
  unfolding after_check take_panic
  make_error ret s = after_check ret (take_panic s.bio) s

  -- `if ret > 0 { Ok(value) } else { Err(self.make_error(ret)) }`
  positive : {A : Type 0} → ℤ → A → SslStream C S → Outcome A × SslStream C S
  unfolding make_error
  positive (pos zero) a s = make_error (pos zero) s
  positive (pos (suc n)) a s = (value a, s)
  positive (negsuc n) a s = make_error (negsuc n) s

  -- A call that returns a number and the connection.
  abbrev pub call : Prog (ℤ × C) → SslStream C S → ℤ × SslStream C S
  call p s = let ((ret, c), b) = run st p s.bio in (ret, record { conn = c; bio = b })

  abbrev pub to_ℕ : ℤ → ℕ
  to_ℕ (pos n) = n
  to_ℕ (negsuc _) = 0

  -- `ssl_write` of a slice that is not empty
  write_some : List ℕ → SslStream C S → Outcome ℕ × SslStream C S
  unfolding positive run
  write_some buf s =
      let len = min c_int_max (length buf) in
      let (ret, s') = call (g.ssl_write s.conn (take len buf)) s in positive ret (to_ℕ ret) s'

  -- `ssl_write`
  unfoldable pub ssl_write : List ℕ → SslStream C S → Outcome ℕ × SslStream C S
  unfolding write_some
  ssl_write [] s = (value 0, s)
  ssl_write (x ∷ xs) s = write_some (x ∷ xs) s

  -- `ssl_read_uninit` into a buffer of `room` bytes; the value is the bytes read.
  unfoldable pub ssl_read : ℕ → SslStream C S → Outcome (List ℕ) × SslStream C S
  unfolding positive run
  ssl_read zero s = (value [], s)
  ssl_read (suc room) s =
      let ((ret, bytes, c), b) = run st (g.ssl_read s.conn (min c_int_max (suc room))) s.bio in
      positive ret bytes (record { conn = c; bio = b })

  shutdown_result : ℤ → SslStream C S → Outcome ShutdownResult × SslStream C S
  unfolding make_error
  shutdown_result (pos zero) s = (value sent, s)
  shutdown_result (pos (suc zero)) s = (value received, s)
  shutdown_result (pos (suc (suc n))) s = make_error (pos (suc (suc n))) s
  shutdown_result (negsuc n) s = make_error (negsuc n) s

  -- `shutdown`
  unfoldable pub shutdown : SslStream C S → Outcome ShutdownResult × SslStream C S
  unfolding shutdown_result run
  shutdown s = let (ret, s') = call (g.ssl_shutdown s.conn) s in shutdown_result ret s'

  -- `connect`, `accept` and `do_handshake`
  unfoldable pub connect : SslStream C S → Outcome (Unit {0}) × SslStream C S
  unfolding positive run
  connect s = let (ret, s') = call (g.ssl_connect s.conn) s in positive ret tt s'

  unfoldable pub accept : SslStream C S → Outcome (Unit {0}) × SslStream C S
  unfolding positive run
  accept s = let (ret, s') = call (g.ssl_accept s.conn) s in positive ret tt s'

  unfoldable pub do_handshake : SslStream C S → Outcome (Unit {0}) × SslStream C S
  unfolding positive run
  do_handshake s = let (ret, s') = call (g.ssl_do_handshake s.conn) s in positive ret tt s'

  -- A call that asks for a read without an error of the stream is made again.
  abbrev pub retries : Error → Bool
  retries e = is_want_read e.code && is_none (io_error e)

  abbrev pub reads_nothing : Error → Bool
  reads_nothing e = is_zero_return e.code || (is_syscall e.code && is_none (io_error e))

  abbrev pub Tried : Type 0 → Type 0
  Tried A = Option (Caught A × SslStream C S)

  after_write : Tried ℕ → Outcome ℕ × SslStream C S → Tried ℕ
  after_write again (value n, s) = some (returned (ok n), s)
  after_write again (error e, s) =
      if retries e then again else some (returned (err (into_io_error e)), s)
  after_write again (unwound p, s) = some (panicked p, s)

  -- `Write::write`. BoringSSL may ask for any number of retries, so the loop has fuel: `none` means
  -- that it asked more often.
  unfoldable pub write : ℕ → List ℕ → SslStream C S → Tried ℕ
  unfolding after_write ssl_write
  write zero buf s = none
  write (suc fuel) buf s =
      let r = ssl_write buf s in let again = write fuel buf r.1 in after_write again r

  after_read : Tried (List ℕ) → Outcome (List ℕ) × SslStream C S → Tried (List ℕ)
  after_read again (value bytes, s) = some (returned (ok bytes), s)
  after_read again (error e, s) =
      if reads_nothing e
      then some (returned (ok []), s)
      else (if retries e then again else some (returned (err (into_io_error e)), s))
  after_read again (unwound p, s) = some (panicked p, s)

  -- `read_uninit`, with fuel as for `write`
  unfoldable pub read_uninit : ℕ → ℕ → SslStream C S → Tried (List ℕ)
  unfolding after_read ssl_read
  read_uninit zero room s = none
  read_uninit (suc fuel) room s =
      let r = ssl_read room s in let again = read_uninit fuel room r.1 in after_read again r

-- `HandshakeError`, less the setup failure that `handshake` does not return
pub data Handshake (C S : Type 0) : Type 0 where
  complete : SslStream C S → Handshake C S
  would_block_at failed_at : Error → SslStream C S → Handshake C S
  handshake_unwound : ℕ → SslStream C S → Handshake C S

handshake_of : {C S : Type 0} → Outcome (Unit {0}) × SslStream C S → Handshake C S
handshake_of (value _, s) = complete s
handshake_of (error e, s) = if would_block e then would_block_at e s else failed_at e s
handshake_of (unwound p, s) = handshake_unwound p s

-- `MidHandshakeSslStream::handshake`
unfoldable pub handshake : {C S : Type 0} → Boring C → Stream S → SslStream C S → Handshake C S
unfolding handshake_of do_handshake
handshake g st s = handshake_of (do_handshake g st s)
