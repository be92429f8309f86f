-- ===== src/Ssl/Callbacks.antt =====
-- btls/src/ssl/callbacks.rs: the C functions between BoringSSL's callbacks and Rust closures, and
-- what they return to BoringSSL. `S` is the connection with all that a closure can see.
pub mod Handshake
pub mod Secrets
pub mod Compression
use btls.Prelude.{ℕ, ◌*◌, ◌%◌, ◌^◌, Bool, Option, none, some}
use btls.Ssl.Async.{Call, returned, panicked}

-- `SSL_TLSEXT_ERR_*`: what SNI, ALPN and status callbacks return.
pub data Tlsext : Type 0 where
  tlsext_ok alert_warning alert_fatal noack : Tlsext

-- `ssl_verify_result_t`
pub data VerifyResult : Type 0 where
  verify_ok verify_invalid verify_again : VerifyResult

-- `ssl_select_cert_result_t`
pub data SelectCertResult : Type 0 where
  cert_success cert_disable_ech cert_failed cert_again : SelectCertResult

-- `ssl_private_key_result_t`
pub data PrivateKeyResult : Type 0 where
  key_success key_failure key_again : PrivateKeyResult

abbrev pub as_u8 : ℕ → ℕ
as_u8 n = n % 256

abbrev pub as_u32 : ℕ → ℕ
as_u32 n = n % 2 ^ 32

-- The lookup of the closure in the context's ex data, `expect("BUG: ...")`.
abbrev pub expecting : {F S A : Type 0} → Option F → S → (F → Call A × S) → Call A × S
expecting none s k = (panicked, s)
expecting (some f) s k = k f
