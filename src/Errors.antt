-- ===== src/Errors.antt =====
-- btls/src/error.rs: errors that are taken off BoringSSL's queue, put back, and shown. Texts are their
-- bytes, and a C string ends before its first 0.
pub mod Queue
pub mod Again
use btls.Prelude.{
  ℕ, zero, suc, ◌+◌, ◌*◌, ◌/◌, ◌%◌, ◌^◌, Bool, true, false, ◌||◌, Option, none, some, List, [], ◌∷◌,
  ◌++◌, ◌==◌, if◌then◌else◌,
}

-- `ERR_PACK`, `ERR_GET_LIB`, `ERR_GET_FUNC` and `ERR_GET_REASON` of btls-sys/src/lib.rs; the fields
-- that `ERR_PACK` joins have no bit in common.
abbrev pub err_pack : ℕ → ℕ → ℕ → ℕ
err_pack l f r = (l % 256) * 2 ^ 24 + ((f % 4096) * 2 ^ 12 + r % 4096)

abbrev pub err_get_lib : ℕ → ℕ
err_get_lib code = (code / 2 ^ 24) % 256

abbrev pub err_get_func : ℕ → ℕ
err_get_func code = (code / 2 ^ 12) % 4096

abbrev pub err_get_reason : ℕ → ℕ
err_get_reason code = code % 4096

-- `Data`
pub data Data : Type 0 where
  no_data : Data
  c_string : List ℕ → Data
  string : List ℕ → Data
  static_text : List ℕ → Data

-- `Error`; a file is the address of its name.
pub record Error : Type 0 where
  pub code : ℕ
  pub file : ℕ
  pub line : ℕ
  pub text : Data

-- What `ERR_get_error_line_data` gives: the code, which is 0 where the queue is empty, the file, the
-- line, the data, and whether the flag `ERR_FLAG_STRING` is set.
pub record Entry : Type 0 where
  pub code : ℕ
  pub file : ℕ
  pub line : ℕ
  pub bytes : List ℕ
  pub is_string : Bool

-- The functions of BoringSSL on the queue `Q` of a thread, and the address of `BORING_INTERNAL`.
pub record ErrorQueue (Q : Type 0) : Type 0 where
  pub get_error : Q → Entry × Q
  pub put_error : ℕ → ℕ → ℕ → ℕ → ℕ → Q → Q
  pub add_error_data : List ℕ → Q → Q
  pub clear_error : Q → Q
  pub boring_internal : ℕ
  -- `ERR_lib_error_string` and `ERR_reason_error_string`; whether bytes are UTF-8.
  pub lib_error_string : ℕ → Option (List ℕ)
  pub reason_error_string : ℕ → Option (List ℕ)
  pub is_utf8 : List ℕ → Bool
  pub is_unknown_library : List ℕ → Bool

-- A C string can hold these bytes: `CString::new`
abbrev pub has_zero : List ℕ → Bool
has_zero [] = false
has_zero (b ∷ bs) = b == 0 || has_zero bs

abbrev pub c_string_new : List ℕ → Option (List ℕ)
c_string_new s = if has_zero s then none else some s

-- `Error::data_cstr`
unfoldable pub data_cstr : Data → Option (List ℕ)
data_cstr no_data = none
data_cstr (c_string s) = some s
data_cstr (string s) = c_string_new s
data_cstr (static_text s) = c_string_new s

module _ {Q : Type 0} (v : ErrorQueue Q) where
  -- `Error::get`
  popped_data : Entry → Data
  popped_data r = if r.is_string then c_string r.bytes else no_data

  popped : Entry × Q → Option Error × Q
  unfolding popped_data
  popped (r, q) =
      if r.code == 0
      then (none, q)
      else (some (record { code = r.code; file = r.file; line = r.line; text = popped_data r }), q)

  unfoldable pub get : Q → Option Error × Q
  unfolding popped
  get q = popped (v.get_error q)

  -- `Error::put`
  with_data : Option (List ℕ) → Q → Q
  with_data none q = q
  with_data (some s) q = v.add_error_data s q

  unfoldable pub put : Error → Q → Q
  unfolding with_data
  put e q = with_data (data_cstr e.text) (
      v.put_error (err_get_lib e.code) (err_get_func e.code) (err_get_reason e.code) e.file e.line
        q)

  -- `ErrorStack::get`; `none` means that the fuel ran out.
  get_step :
      (Q → List Error → Option (List Error × Q))
      → List Error
      → Option Error × Q
      → Option (List Error × Q)
  get_step k vec (none, q) = some (vec, q)
  get_step k vec (some e, q) = k q (vec ++ (e ∷ []))

  unfoldable pub get_loop : ℕ → Q → List Error → Option (List Error × Q)
  unfolding get get_step
  get_loop zero q vec = none
  get_loop (suc fuel) q vec = get_step (get_loop fuel) vec (get q)

  unfoldable pub get_all : ℕ → Q → Option (List Error × Q)
  unfolding get_loop
  get_all fuel q = get_loop fuel q []

  -- `ErrorStack::put`
  unfoldable pub put_all : List Error → Q → Q
  put_all [] q = q
  put_all (e ∷ es) q = put_all es (put e q)

  -- `ErrorStack::clear`
  unfoldable pub clear : Q → Q
  clear q = v.clear_error q

  -- `Error::new_internal`, `ErrorStack::internal_error` and `internal_error_str`; `ERR_LIB_NONE` is 1.
  unfoldable pub new_internal : Data → Error
  new_internal msg = record {
    code = err_pack 1 0 0;
    file = v.boring_internal;
    line = 0;
    text = msg;
  }

  unfoldable pub internal_error : List ℕ → List Error
  unfolding new_internal
  internal_error err = new_internal (string err) ∷ []

  unfoldable pub internal_error_str : List ℕ → List Error
  unfolding new_internal
  internal_error_str message = new_internal (static_text message) ∷ []

  unfoldable pub is_internal : Error → Bool
  is_internal e = e.file == v.boring_internal

  -- `CStr::to_str().ok()`
  to_str : List ℕ → Option (List ℕ)
  to_str s = if v.is_utf8 s then some s else none

  -- `Error::data`, `reason` and `library`
  unfoldable pub data_of : Data → Option (List ℕ)
  unfolding to_str
  data_of no_data = none
  data_of (c_string s) = to_str s
  data_of (string s) = some s
  data_of (static_text s) = some s

  from_c : Option (List ℕ) → Option (List ℕ)
  unfolding to_str
  from_c none = none
  from_c (some s) = to_str s

  known_library : Option (List ℕ) → Option (List ℕ)
  known_library none = none
  known_library (some s) = if v.is_unknown_library s then none else some s

  unfoldable pub reason : Error → Option (List ℕ)
  unfolding is_internal data_of from_c
  reason e = if is_internal e then data_of e.text else from_c (v.reason_error_string e.code)

  unfoldable pub library : Error → Option (List ℕ)
  unfolding is_internal from_c known_library
  library e = if is_internal e then none else known_library (from_c (v.lib_error_string e.code))

-- `reason().or_else(|| library()).unwrap_or("unknown reason")`
abbrev pub reason_text : List ℕ → Option (List ℕ) → Option (List ℕ) → List ℕ
reason_text unknown (some r) l = r
reason_text unknown none (some l) = l
reason_text unknown none none = unknown

-- `Display` of `ErrorStack`: the two messages are arguments; 91, 93 and 32 are the brackets and a blank.
module _ {Q : Type 0} (v : ErrorQueue Q) (unknown_error unknown_reason : List ℕ) where
  abbrev bracketed : Error → List ℕ
  bracketed e = 91 ∷ (reason_text unknown_reason (reason v e) (library v e) ++ (93 ∷ []))

  fmt_rest : List Error → List ℕ
  fmt_rest [] = []
  fmt_rest (e ∷ es) = 32 ∷ (bracketed e ++ fmt_rest es)

  unfoldable pub fmt : List Error → List ℕ
  unfolding fmt_rest
  fmt [] = unknown_error
  fmt (e ∷ es) = bracketed e ++ fmt_rest es
