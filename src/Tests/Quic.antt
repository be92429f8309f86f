-- ===== src/Tests/Quic.antt =====
-- A QUIC method that refuses to set a write secret.
use btls.Prelude.{ℕ, [], ◌∷◌}
use btls.Ssl.Async.{ok, err}
use btls.Ssl.Quic.{initial, quic_method_error, QuicMethod, Thread}
use btls.Prelude.{◌≡◌, some}
use btls.Ssl.Quic.Told.{write_secret, callback, quic_error, callback-Told}

abbrev refusing : QuicMethod ℕ
refusing = record {
  set_read_secret = λ level cipher secret t. (ok tt, t);
  set_write_secret = λ level cipher secret t. (err quic_method_error, record t { world = 5 });
  add_handshake_data = λ level data_ t. (ok tt, t);
  flush_flight = λ t. (ok tt, t);
  send_alert = λ level alert t. (ok tt, t);
}

abbrev thread : Thread ℕ
thread = record { world = 4; errors = [] }

quic_example :
    callback (some refusing) (write_secret initial 1 (7 ∷ [])) thread
    ≡ (0, record { world = 5; errors = quic_error ∷ [] })
quic_example = callback-Told (some refusing) (write_secret initial 1 (7 ∷ [])) thread
