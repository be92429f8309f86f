-- ===== src/Io.antt =====
-- The parts of `std::io` and `std::task` that the code uses: errors and their kinds, and `Poll`.
use btls.Prelude.{ℕ, Bool, true, false, Option, List}

-- `io::ErrorKind`: the kinds that the code names, and any other by its number.
pub data ErrorKind : Type 0 where
  would_block not_connected write_zero other : ErrorKind
  unlisted : ℕ → ErrorKind

-- `ErrLib`, and the reasons of `ERR_LIB_SSL`: the constants that the code names, and any other.
pub data ErrLib : Type 0 where
  lib_none lib_ssl : ErrLib
  lib : ℕ → ErrLib

pub data Reason : Type 0 where
  protocol_is_shutdown quic_internal_error : Reason
  reason : ℕ → Reason

-- `error::Error`, read through `ERR_GET_LIB` and `ERR_GET_REASON` of its packed code.
pub record PackedError : Type 0 where
  pub library_code : ErrLib
  pub reason_code : Reason

abbrev pub ErrorStack : Type 0
ErrorStack = List PackedError

-- `Result<A, ErrorStack>`
pub data Fallible {ℓ} (A : Type ℓ) : Type ℓ where
  fine : A → Fallible A
  wrong : ErrorStack → Fallible A

-- `?` on such results
infixl 5 ◌>>=◌
abbrev pub ◌>>=◌ : {A B : Type 0} → Fallible A → (A → Fallible B) → Fallible B
fine a >>= f = f a
wrong e >>= f = wrong e

-- `ssl::ErrorCode`: the constants of `SSL_ERROR_*` that the code names, and any other.
pub data ErrorCode : Type 0 where
  no_error zero_return want_read want_write want_x509_lookup pending_session : ErrorCode
  pending_certificate want_certificate_verify want_private_key_operation : ErrorCode
  pending_ticket early_data_rejected syscall ssl : ErrorCode
  raw : ℕ → ErrorCode

-- `io::Error`: one with a kind (the number stands for its payload), or `io::Error::other` of an
-- `ssl::Error` that wraps no `io::Error`.
pub data IoError : Type 0 where
  simple : ErrorKind → ℕ → IoError
  wrapped : ErrorCode → Option ErrorStack → IoError

-- `io::Error::kind`
abbrev pub kind : IoError → ErrorKind
kind (simple k _) = k
kind (wrapped _ _) = other

abbrev pub is_would_block : ErrorKind → Bool
is_would_block would_block = true
is_would_block _ = false

-- `io::Error::from(ErrorKind)`
abbrev pub from_kind : ErrorKind → IoError
from_kind k = simple k 0

-- `io::Result<A>`
pub data IoResult {ℓ} (A : Type ℓ) : Type ℓ where
  ok : A → IoResult A
  err : IoError → IoResult A

-- `Poll<io::Result<A>>`
pub data Poll {ℓ} (A : Type ℓ) : Type ℓ where
  ready : IoResult A → Poll A
  pending : Poll A
