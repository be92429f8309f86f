-- ===== src/Prelude/Int.antt =====
-- C integers: a signed number, and the cast of a `usize` to a 32-bit `c_int`; `usize` arithmetic.
use Prim.Native.Nat.{ℕ, suc, ◌+◌, ◌-◌, ◌*◌, ◌/◌, ◌%◌, ◌^◌, min}
use btls.Prelude.Tests.{ltb, if◌then◌else◌}

-- `negsuc n` is -(n + 1).
pub data ℤ : Type 0 where
  pos : ℕ → ℤ
  negsuc : ℕ → ℤ

-- `n as c_int` for a `usize` `n`: the low 32 bits, read as a signed number.
abbrev pub as_c_int : ℕ → ℤ
as_c_int n =
    if ltb (n % 2 ^ 32) (2 ^ 31) then pos (n % 2 ^ 32) else negsuc (2 ^ 32 - suc (n % 2 ^ 32))

abbrev pub c_int_max : ℕ
c_int_max = 2 ^ 31 - 1

-- `usize` of a 64-bit target
abbrev pub usize_max : ℕ
usize_max = 2 ^ 64 - 1

abbrev pub saturating_add : ℕ → ℕ → ℕ
saturating_add a b = min (a + b) usize_max

abbrev pub saturating_mul : ℕ → ℕ → ℕ
saturating_mul a b = min (a * b) usize_max

-- `usize::div_ceil`, for a divisor above 0
abbrev pub div_ceil : ℕ → ℕ → ℕ
div_ceil a b = (a + (b - 1)) / b
