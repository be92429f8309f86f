-- ===== src/Ssl/Quic.antt =====
-- btls/src/ssl/quic.rs: the callbacks of a QUIC connection, and the calls that drive its handshake.
pub mod Told
use btls.Prelude.{
  ℕ, zero, suc, ℤ, pos, negsuc, Bool, true, false, Option, none, some, List, [], ◌∷◌, ◌++◌, ◌==◌,
  if◌then◌else◌, length,
}
use btls.Io.{ErrorStack, ErrorCode, lib_ssl, quic_internal_error}
use btls.Ssl.Async.{Result, ok, err}

-- `QuicEncryptionLevel`
pub data QuicEncryptionLevel : Type 0 where
  initial early_data handshake application : QuicEncryptionLevel

-- `QuicMethodError`
pub data QuicMethodError : Type 0 where
  quic_method_error : QuicMethodError

abbrev pub Answer : Type 0
Answer = Result (Unit {0}) QuicMethodError

-- A connection with all that a method can see, and the errors on the queue of the thread.
pub record Thread (S : Type 0) : Type 0 where
  pub world : S
  pub errors : ErrorStack

-- `QuicMethod`; a cipher is its number.
pub record QuicMethod (S : Type 0) : Type 0 where
  pub set_read_secret : QuicEncryptionLevel → ℕ → List ℕ → Thread S → Answer × Thread S
  pub set_write_secret : QuicEncryptionLevel → ℕ → List ℕ → Thread S → Answer × Thread S
  pub add_handshake_data : QuicEncryptionLevel → List ℕ → Thread S → Answer × Thread S
  pub flush_flight : Thread S → Answer × Thread S
  pub send_alert : QuicEncryptionLevel → ℕ → Thread S → Answer × Thread S

module _ {S : Type 0} where
  -- `is_ok().into()`
  from_answer : Answer × Thread S → ℕ × Thread S
  from_answer (ok u, t) = (1, t)
  from_answer (err e, t) = (0, t)

  -- `with_method`, with what is in the ex data of the context
  unfoldable pub with_method :
      Option (QuicMethod S)
      → (QuicMethod S → Thread S → Answer × Thread S)
      → Thread S
      → ℕ × Thread S
  unfolding from_answer
  with_method none f t = (0, t)
  with_method (some m) f t = from_answer (f m t)

  -- `secret_result`
  unfoldable pub secret_result : ℕ × Thread S → ℕ × Thread S
  secret_result (zero, t) = (
    zero,
    record t {
      errors =
          t.errors ++ (record { library_code = lib_ssl; reason_code = quic_internal_error } ∷ []);
    },
  )
  secret_result (suc n, t) = (suc n, t)

  unfoldable pub raw_set_read_secret :
      Option (QuicMethod S) → QuicEncryptionLevel → ℕ → List ℕ → Thread S → ℕ × Thread S
  unfolding with_method secret_result
  raw_set_read_secret method level cipher secret t =
      secret_result (with_method method (λ m. m.set_read_secret level cipher secret) t)

  unfoldable pub raw_set_write_secret :
      Option (QuicMethod S) → QuicEncryptionLevel → ℕ → List ℕ → Thread S → ℕ × Thread S
  unfolding with_method secret_result
  raw_set_write_secret method level cipher secret t =
      secret_result (with_method method (λ m. m.set_write_secret level cipher secret) t)

  unfoldable pub raw_add_handshake_data :
      Option (QuicMethod S) → QuicEncryptionLevel → List ℕ → Thread S → ℕ × Thread S
  unfolding with_method
  raw_add_handshake_data method level data_ t =
      with_method method (λ m. m.add_handshake_data level data_) t

  unfoldable pub raw_flush_flight : Option (QuicMethod S) → Thread S → ℕ × Thread S
  unfolding with_method
  raw_flush_flight method t = with_method method (λ m. m.flush_flight) t

  unfoldable pub raw_send_alert :
      Option (QuicMethod S) → QuicEncryptionLevel → ℕ → Thread S → ℕ × Thread S
  unfolding with_method
  raw_send_alert method level alert t = with_method method (λ m. m.send_alert level alert) t

  -- `do_handshake` and `process_quic_post_handshake`: the call of BoringSSL, and `error_code` of its
  -- result.
  checked : (ℤ → Thread S → ErrorCode) → ℤ × Thread S → Result (Unit {0}) ErrorCode × Thread S
  checked error_code (pos (suc zero), t) = (ok tt, t)
  checked error_code (r, t) = (err (error_code r t), t)

  unfoldable pub do_handshake :
      (Thread S → ℤ × Thread S)
      → (ℤ → Thread S → ErrorCode)
      → Thread S
      → Result (Unit {0}) ErrorCode × Thread S
  unfolding checked
  do_handshake call error_code t = checked error_code (call t)

  unfoldable pub process_quic_post_handshake :
      (Thread S → ℤ × Thread S)
      → (ℤ → Thread S → ErrorCode)
      → Thread S
      → Result (Unit {0}) ErrorCode × Thread S
  unfolding checked
  process_quic_post_handshake call error_code t = checked error_code (call t)

-- `peer_quic_transport_params`
unfoldable pub peer_quic_transport_params : List ℕ → Option (List ℕ)
peer_quic_transport_params params = if length params == 0 then none else some params
