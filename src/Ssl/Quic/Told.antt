-- ===== src/Ssl/Quic/Told.antt =====
-- What BoringSSL is told by the callbacks of btls/src/ssl/quic.rs, whichever it calls.
use btls.Prelude.{ℕ, ◌≡◌, refl, Bool, true, false, Option, none, some, List, [], ◌∷◌, ◌++◌}
use btls.Io.{PackedError, lib_ssl, quic_internal_error}
use btls.Ssl.Async.{ok, err}
use btls.Ssl.Quic.{
  QuicEncryptionLevel, QuicMethodError, Answer, Thread, QuicMethod, from_answer, with_method,
  secret_result, raw_set_read_secret, raw_set_write_secret, raw_add_handshake_data,
  raw_flush_flight, raw_send_alert,
}

-- What BoringSSL asks a method for.
pub data Event : Type 0 where
  read_secret write_secret : QuicEncryptionLevel → ℕ → List ℕ → Event
  handshake_data : QuicEncryptionLevel → List ℕ → Event
  flight : Event
  alert : QuicEncryptionLevel → ℕ → Event

abbrev pub is_secret : Event → Bool
is_secret (read_secret _ _ _) = true
is_secret (write_secret _ _ _) = true
is_secret (handshake_data _ _) = false
is_secret flight = false
is_secret (alert _ _) = false

abbrev pub quic_error : PackedError
quic_error = record { library_code = lib_ssl; reason_code = quic_internal_error }

module _ {S : Type 0} where
  -- The callback that BoringSSL calls, and the method that is meant to answer.
  unfoldable pub callback : Option (QuicMethod S) → Event → Thread S → ℕ × Thread S
  unfolding raw_set_read_secret raw_set_write_secret raw_add_handshake_data raw_flush_flight
      raw_send_alert
  callback method (read_secret level cipher secret) t =
      raw_set_read_secret method level cipher secret t
  callback method (write_secret level cipher secret) t =
      raw_set_write_secret method level cipher secret t
  callback method (handshake_data level data_) t = raw_add_handshake_data method level data_ t
  callback method flight t = raw_flush_flight method t
  callback method (alert level a) t = raw_send_alert method level a t

  abbrev pub answer : QuicMethod S → Event → Thread S → Answer × Thread S
  answer m (read_secret level cipher secret) t = m.set_read_secret level cipher secret t
  answer m (write_secret level cipher secret) t = m.set_write_secret level cipher secret t
  answer m (handshake_data level data_) t = m.add_handshake_data level data_ t
  answer m flight t = m.flush_flight t
  answer m (alert level a) t = m.send_alert level a t

  -- The thread after a failure: a failed secret has put an error on the queue.
  abbrev pub failed : Bool → Thread S → Thread S
  failed true t = record t { errors = t.errors ++ (quic_error ∷ []) }
  failed false t = t

  abbrev pub Told : Bool → Answer × Thread S → ℕ × Thread S → Type 0
  Told secret (ok u, t) r = r ≡ (1, t)
  Told secret (err e, t) r = r ≡ (0, failed secret t)

  abbrev pub meant : Option (QuicMethod S) → Event → Thread S → Answer × Thread S
  meant none e t = (err QuicMethodError.quic_method_error, t)
  meant (some m) e t = answer m e t

  secret-Told : (r : Answer × Thread S) → Told true r (secret_result (from_answer r))
  unfolding from_answer secret_result
  secret-Told (ok u, t) = refl
  secret-Told (err e, t) = refl

  plain-Told : (r : Answer × Thread S) → Told false r (from_answer r)
  unfolding from_answer
  plain-Told (ok u, t) = refl
  plain-Told (err e, t) = refl

  -- Each callback of the QUIC method table returns 1 exactly where a method is set and answers Ok, with
  -- the thread as the method leaves it, and else 0; a callback for a secret that returns 0 has put
  -- QUIC_INTERNAL_ERROR of the SSL library last on the queue, and the others put nothing there.
  pub callback-Told :
      (method : Option (QuicMethod S)) (e : Event) (t : Thread S)
      → Told (is_secret e) (meant method e t) (callback method e t)
  unfolding callback with_method secret_result
  callback-Told none (read_secret level cipher secret) t = refl
  callback-Told none (write_secret level cipher secret) t = refl
  callback-Told none (handshake_data level data_) t = refl
  callback-Told none flight t = refl
  callback-Told none (alert level a) t = refl
  callback-Told (some m) (read_secret level cipher secret) t =
      secret-Told (m.set_read_secret level cipher secret t)
  callback-Told (some m) (write_secret level cipher secret) t =
      secret-Told (m.set_write_secret level cipher secret t)
  callback-Told (some m) (handshake_data level data_) t =
      plain-Told (m.add_handshake_data level data_ t)
  callback-Told (some m) flight t = plain-Told (m.flush_flight t)
  callback-Told (some m) (alert level a) t = plain-Told (m.send_alert level a t)
