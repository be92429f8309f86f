-- ===== src/Ssl/Error.antt =====
-- btls/src/ssl/error.rs: `ssl::Error` and what callers ask of it.
use btls.Prelude.{Bool, true, false, Option, none, some}
use btls.Io.{
  ErrorCode, want_read, want_write, want_x509_lookup, pending_session, pending_certificate,
  want_private_key_operation, want_certificate_verify, pending_ticket, zero_return, syscall, ssl,
  IoError, wrapped, PackedError, ErrorStack, ErrLib, lib_ssl, Reason,
}

-- `InnerError`
pub data InnerError : Type 0 where
  io : IoError → InnerError
  stack : ErrorStack → InnerError

-- `Error`
pub record Error : Type 0 where
  pub code : ErrorCode
  pub cause : Option InnerError

-- `Error::from(ErrorStack)`
abbrev pub from_stack : ErrorStack → Error
from_stack e = record { code = ssl; cause = some (stack e) }

abbrev io_of : Option InnerError → Option IoError
io_of (some (io e)) = some e
io_of (some (stack s)) = none
io_of none = none

-- `Error::io_error`
abbrev pub io_error : Error → Option IoError
io_error e = io_of e.cause

abbrev stack_of : Option InnerError → Option ErrorStack
stack_of (some (stack s)) = some s
stack_of (some (io e)) = none
stack_of none = none

-- `Error::ssl_error`
abbrev pub ssl_error : Error → Option ErrorStack
ssl_error e = stack_of e.cause

abbrev into_io : ErrorCode → Option InnerError → IoError
into_io c (some (io e)) = e
into_io c (some (stack s)) = wrapped c (some s)
into_io c none = wrapped c none

-- `e.into_io_error().unwrap_or_else(io::Error::other)`
abbrev pub into_io_error : Error → IoError
into_io_error e = into_io e.code e.cause

abbrev code_would_block : ErrorCode → Bool
code_would_block want_read = true
code_would_block want_write = true
code_would_block want_x509_lookup = true
code_would_block pending_session = true
code_would_block pending_certificate = true
code_would_block want_private_key_operation = true
code_would_block want_certificate_verify = true
code_would_block pending_ticket = true
code_would_block _ = false

-- `Error::would_block`
abbrev pub would_block : Error → Bool
would_block e = code_would_block e.code

-- Tests of a code against one constant.
abbrev pub is_want_read : ErrorCode → Bool
is_want_read want_read = true
is_want_read _ = false

abbrev pub is_zero_return : ErrorCode → Bool
is_zero_return zero_return = true
is_zero_return _ = false

abbrev pub is_syscall : ErrorCode → Bool
is_syscall syscall = true
is_syscall _ = false

-- `Error::library_reason` of btls/src/error.rs: the reason, if the error is of the SSL library.
abbrev reason_in_ssl : ErrLib → Reason → Option Reason
reason_in_ssl lib_ssl r = some r
reason_in_ssl _ r = none

abbrev pub library_reason_ssl : PackedError → Option Reason
library_reason_ssl e = reason_in_ssl e.library_code e.reason_code
