-- ===== src/Bio.antt =====
-- btls/src/ssl/bio.rs: the BIO through which BoringSSL reads and writes a Rust stream.
-- The BIO object and its `StreamState` are one record here, since each BIO owns one state.
pub mod Calls
use btls.Prelude.{
  ℕ, Bool, true, false, ℤ, pos, negsuc, as_c_int, List, [], Option, none, some, take, length,
  if◌then◌else◌,
}
use btls.Io.{ErrorKind, would_block, not_connected, IoError, kind, IoResult, ok, err}

-- What `catch_unwind` gives for a call that returns an `io::Result`.
pub data Caught {ℓ} (A : Type ℓ) : Type ℓ where
  returned : IoResult A → Caught A
  panicked : ℕ → Caught A

-- `S: Read + Write`. `read` is given the size of the buffer and returns the bytes put into it.
pub record Stream (S : Type 0) : Type 0 where
  pub read : ℕ → S → Caught (List ℕ) × S
  pub write : List ℕ → S → Caught ℕ × S
  pub flush : S → Caught (Unit {0}) × S

-- The retry flags of a BIO: `BIO_set_retry_read`, `BIO_set_retry_write` or neither.
pub data Retry : Type 0 where
  no_retry retry_read retry_write : Retry

-- `StreamState<S>` with the retry flags of its BIO. A panic is a number for its payload.
pub record Bio (S : Type 0) : Type 0 where
  pub stream : S
  pub error : Option IoError
  pub panic : Option ℕ
  pub dtls_mtu_size : ℕ
  pub retry : Retry

-- `bio::new`
unfoldable pub new : {S : Type 0} → S → Bio S
new stream = record {
  stream = stream;
  error = none;
  panic = none;
  dtls_mtu_size = 0;
  retry = no_retry;
}

abbrev retriable_kind : ErrorKind → Bool
retriable_kind would_block = true
retriable_kind not_connected = true
retriable_kind _ = false

-- `retriable_error`
abbrev pub retriable_error : IoError → Bool
retriable_error e = retriable_kind (kind e)

-- -1
abbrev pub failure : ℤ
failure = negsuc 0

module _ {S : Type 0} where
  -- `take_error` and `take_panic`: the value, and the state without it.
  unfoldable pub take_error : Bio S → Option IoError × Bio S
  take_error b = (b.error, record b { error = none })

  unfoldable pub take_panic : Bio S → Option ℕ × Bio S
  take_panic b = (b.panic, record b { panic = none })

  -- `set_dtls_mtu_size` for a size that fits `c_long`
  unfoldable pub set_dtls_mtu_size : ℕ → Bio S → Bio S
  set_dtls_mtu_size size b = record b { dtls_mtu_size = size }

  -- The arms of the callbacks' `match`, after `BIO_clear_retry_flags` and the call, which left the
  -- stream `s`. `flag` is what `BIO_set_retry_*` sets, and `failed` what an error returns.
  abbrev pub caught {ℓ} :
      {A : Type 0} {R : Type ℓ} → Retry → R → (A → R) → Bio S → S → Caught A → R × Bio S
  caught flag failed value b s (returned (ok a)) =
      (value a, record b { stream = s; retry = no_retry })
  caught flag failed value b s (returned (err e)) = (
    failed,
    record b { stream = s; error = some e; retry = if retriable_error e then flag else no_retry },
  )
  caught flag failed value b s (panicked p) =
      (failed, record b { stream = s; panic = some p; retry = no_retry })

  -- `bwrite`: `len` bytes at `buf`
  unfoldable pub bwrite : Stream S → Bio S → List ℕ → ℤ → ℤ × Bio S
  bwrite st b buf (negsuc _) = (failure, record b { retry = no_retry })
  bwrite st b buf (pos len) =
      let (r, s) = st.write (take len buf) b.stream in caught retry_write failure as_c_int b s r

  -- `bread`: the result, and the bytes put into the buffer of `len` bytes
  unfoldable pub bread : Stream S → Bio S → ℤ → (ℤ × List ℕ) × Bio S
  bread st b (negsuc _) = ((failure, []), record b { retry = no_retry })
  bread st b (pos len) =
      let (r, s) = st.read len b.stream in
      caught retry_read (failure, []) (λ bytes. (as_c_int (length bytes), bytes)) b s r

  -- `bputs` of a C string, given as its bytes
  unfoldable pub bputs : Stream S → Bio S → List ℕ → ℤ × Bio S
  unfolding bwrite
  bputs st b s = bwrite st b s (as_c_int (length s))

-- `BIO_CTRL_FLUSH`, `BIO_CTRL_DGRAM_QUERY_MTU` and the other commands of `ctrl`
pub data Cmd : Type 0 where
  ctrl_flush ctrl_dgram_query_mtu ctrl_other : Cmd

-- `ctrl`
unfoldable pub ctrl : {S : Type 0} → Stream S → Bio S → Cmd → ℤ × Bio S
ctrl st b ctrl_flush =
    let (r, s) = st.flush b.stream in caught retry_write (pos 0) (λ _. pos 1) b s r
ctrl st b ctrl_dgram_query_mtu = (pos b.dtls_mtu_size, b)
ctrl st b ctrl_other = (pos 0, b)
