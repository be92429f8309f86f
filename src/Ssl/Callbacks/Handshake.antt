-- ===== src/Ssl/Callbacks/Handshake.antt =====
-- The callbacks of btls/src/ssl/callbacks.rs that decide on a peer, a name, a protocol or a
-- certificate.
use btls.Prelude.{
  ℕ, zero, ℤ, pos, negsuc, Bool, true, false, Option, none, some, List, [], if◌then◌else◌, length,
}
use btls.Io.{ErrorStack, Fallible, fine, wrong}
use btls.Ssl.Async.{
  Result, ok, err, Call, returned, panicked, SslVerifyError, invalid, verify_retry, SelectCertError,
  cert_error, cert_retry, SelectCertAction, success, disable_ech,
}
use btls.Ssl.Callbacks.{
  Tlsext, tlsext_ok, alert_fatal, noack, VerifyResult, verify_ok, verify_invalid, verify_again,
  SelectCertResult, cert_success, cert_disable_ech, cert_failed, cert_again, as_u8, expecting,
}

-- `c_int::from(bool)`
abbrev pub c_int_from : Bool → ℕ
c_int_from true = 1
c_int_from false = 0

-- `preverify_ok != 0`
abbrev nonzero : ℤ → Bool
nonzero (pos zero) = false
nonzero _ = true

abbrev pub Done : Type 0 → Type 0 → Type 0
Done S A = Call A × S

module _ {S : Type 0} where
  verdict : Bool × S → Done S ℕ
  verdict (b, s) = (returned (c_int_from b), s)

  -- `raw_verify` and `ssl_raw_verify`: the closure comes from the context or from the connection.
  unfoldable pub raw_verify : Option (Bool → S → Bool × S) → ℤ → S → Done S ℕ
  unfolding verdict
  raw_verify callback preverify_ok s =
      expecting callback s (λ verify. verdict (verify (nonzero preverify_ok) s))

  -- `raw_cert_verify`
  unfoldable pub raw_cert_verify : Option (S → Bool × S) → S → Done S ℕ
  unfolding verdict
  raw_cert_verify callback s = expecting callback s (λ verify. verdict (verify s))

  -- `raw_custom_verify_callback`: the result, and the alert that it wrote to `out_alert`.
  unfoldable pub raw_custom_verify_callback :
      Done S (Result (Unit {0}) SslVerifyError) → ℕ → Done S (VerifyResult × ℕ)
  raw_custom_verify_callback (returned (ok u), s) out_alert = (returned (verify_ok, out_alert), s)
  raw_custom_verify_callback (returned (err (invalid alert)), s) out_alert =
      (returned (verify_invalid, as_u8 alert), s)
  raw_custom_verify_callback (returned (err verify_retry), s) out_alert =
      (returned (verify_again, out_alert), s)
  raw_custom_verify_callback (panicked, s) out_alert = (panicked, s)

  -- `raw_custom_verify` and `ssl_raw_custom_verify`
  unfoldable pub raw_custom_verify :
      Option (S → Done S (Result (Unit {0}) SslVerifyError)) → ℕ → S → Done S (VerifyResult × ℕ)
  unfolding raw_custom_verify_callback
  raw_custom_verify callback out_alert s =
      expecting callback s (λ f. raw_custom_verify_callback (f s) out_alert)

  -- `raw_sni`: the closure may change the alert whether it fails or not.
  sni_reply : Result (Unit {0}) Tlsext × ℕ × S → Done S (Tlsext × ℕ)
  sni_reply (ok u, alert, s) = (returned (tlsext_ok, alert), s)
  sni_reply (err e, alert, s) = (returned (e, alert), s)

  unfoldable pub raw_sni : (ℕ → S → Result (Unit {0}) Tlsext × ℕ × S) → ℕ → S → Done S (Tlsext × ℕ)
  unfolding sni_reply
  raw_sni callback al s = sni_reply (callback al s)

  -- `raw_alpn_select`: the code, and the protocol and the length that it wrote.
  alpn_reply : Result (List ℕ) Tlsext × S → Done S (Tlsext × Option (List ℕ × ℕ))
  alpn_reply (ok proto, s) = (returned (tlsext_ok, some (proto, as_u8 (length proto))), s)
  alpn_reply (err e, s) = (returned (e, none), s)

  unfoldable pub raw_alpn_select :
      Option (List ℕ → S → Result (List ℕ) Tlsext × S)
      → List ℕ
      → S
      → Done S (Tlsext × Option (List ℕ × ℕ))
  unfolding alpn_reply
  raw_alpn_select callback protos s = expecting callback s (λ f. alpn_reply (f protos s))

  -- `raw_select_cert`; `ech_accepted` is read before the closure runs.
  select_reply : Bool → Done S (Result SelectCertAction SelectCertError) → Done S SelectCertResult
  select_reply ech (returned (ok success), s) = (returned cert_success, s)
  select_reply ech (returned (ok disable_ech), s) =
      (returned (if ech then cert_disable_ech else cert_failed), s)
  select_reply ech (returned (err cert_error), s) = (returned cert_failed, s)
  select_reply ech (returned (err cert_retry), s) = (returned cert_again, s)
  select_reply ech (panicked, s) = (panicked, s)

  unfoldable pub raw_select_cert :
      (S → Bool)
      → Option (S → Done S (Result SelectCertAction SelectCertError))
      → S
      → Done S SelectCertResult
  unfolding select_reply
  raw_select_cert ech_accepted callback s =
      let ech = ech_accepted s in expecting callback s (λ f. select_reply ech (f s))

-- `raw_tlsext_status`: the code of either side, and the errors that it put.
pub data StatusReply : Type 0 where
  server_code : Tlsext → ErrorStack → StatusReply
  client_code : ℤ → ErrorStack → StatusReply

status_server : Fallible Bool → StatusReply
status_server (fine true) = server_code tlsext_ok []
status_server (fine false) = server_code noack []
status_server (wrong e) = server_code alert_fatal e

status_client : Fallible Bool → StatusReply
status_client (fine true) = client_code (pos 1) []
status_client (fine false) = client_code (pos 0) []
status_client (wrong e) = client_code (negsuc 0) e

module _ {S : Type 0} where
  status_reply : (S → Bool) → Fallible Bool × S → Done S StatusReply
  unfolding status_server status_client
  status_reply is_server (ret, s) =
      (returned (if is_server s then status_server ret else status_client ret), s)

  unfoldable pub raw_tlsext_status :
      (S → Bool) → Option (S → Fallible Bool × S) → S → Done S StatusReply
  unfolding status_reply
  raw_tlsext_status is_server callback s = expecting callback s (λ f. status_reply is_server (f s))
