-- ===== src/Ssl/Seal.antt =====
-- `SealLimits` and `SslRef::seal_app_data` of btls/src/ssl/mod.rs.
pub mod Laws
use btls.Prelude.{
  ℕ, ◌+◌, ◌*◌, Bool, true, false, ◌&&◌, Option, none, some, List, [], ◌∷◌, usize_max, div_ceil, ltb,
  leb, ◌==◌, if◌then◌else◌, length,
}
use btls.Io.{ErrorStack, lib_none, reason}
use btls.Ssl.Boring.{Boring, RawLimits, SealResult, success, declined, failed}

-- `SealLimits`
pub record SealLimits : Type 0 where
  pub max_fragment : ℕ
  pub record_overhead : ℕ
  pub pending_len : ℕ

-- `usize::checked_add` and `usize::checked_mul`
abbrev pub checked : ℕ → Option ℕ
checked n = if leb n usize_max then some n else none

infixl 5 ◌>>=◌
abbrev pub ◌>>=◌ : Option ℕ → (ℕ → Option ℕ) → Option ℕ
none >>= f = none
some a >>= f = f a

-- `SealLimits::sealed_len`
unfoldable pub sealed_len : SealLimits → ℕ → Option ℕ
sealed_len l len = do
  records ← checked (div_ceil len l.max_fragment * l.record_overhead)
  body ← checked (records + len)
  checked (body + l.pending_len)

abbrev pub limits_of : RawLimits → Option SealLimits
limits_of r =
    if r.ret == 1 && ltb 0 r.max_fragment
    then some (record {
      max_fragment = r.max_fragment;
      record_overhead = r.record_overhead;
      pending_len = r.pending_len;
    })
    else none

-- `SslRef::seal_app_data_limits`
unfoldable pub seal_app_data_limits : {C : Type 0} → Boring C → C → Option SealLimits
seal_app_data_limits g c = limits_of (g.ssl_seal_app_data_limits c)

-- `Result<Option<Sealed>, ErrorStack>`, with the `written` bytes of `out` in place of their number
pub data Seal : Type 0 where
  sealed : ℕ → List ℕ → Seal
  declines : Seal
  fails : ErrorStack → Seal

-- `ErrorStack::internal_error_str`: one error of `ERR_LIB_NONE`.
abbrev internal_error : ErrorStack
internal_error = record { library_code = lib_none; reason_code = reason 0 } ∷ []

-- `SslRef::seal_app_data`: `out` is given by its length.
pub seal_result : {C : Type 0} → Boring C → ℕ → ℕ → SealResult × C → Seal × C
seal_result g max_in max_out (success consumed out, c) =
    if leb (length out) max_out && leb consumed max_in
    then (sealed consumed out, c)
    else (fails internal_error, c)
seal_result g max_in max_out (declined, c) = (declines, c)
seal_result g max_in max_out (failed, c) = let (e, c') = g.err_get c in (fails e, c')

unfoldable pub seal_app_data : {C : Type 0} → Boring C → C → List (List ℕ) → ℕ → ℕ → Seal × C
unfolding seal_result
seal_app_data g c bufs max_in max_out =
    seal_result g max_in max_out (g.ssl_seal_app_data c bufs max_in max_out)
