-- ===== src/Prelude/Int.antt =====
-- Signed integers over the native numbers, with Go's conversions and arithmetic.
use alya.Prelude.Tests.{leb, ltb, if◌then◌else◌}
use Prim.Native.Nat.{ℕ, zero, suc, ◌+◌, ◌-◌, ◌*◌, ◌/◌, ◌%◌, ◌^◌, ◌<◌}
use mathlib.Core.Path.{◌≡◌}
use mathlib.Core.Bool.{Bool, true, false}
use native.Mathlib.Omega.{arith}

-- `negsuc n` is -(n + 1).
pub data ℤ : Type 0 where
  pos : ℕ → ℤ
  negsuc : ℕ → ℤ

-- The pattern of the low 32 bits, read as two's complement.
abbrev pub signed32 : ℕ → ℤ
signed32 m = if ltb m (2 ^ 31) then pos m else negsuc (2 ^ 32 - 1 - m)

-- Go's `int32(x)`: the low 32 bits are kept.
abbrev pub int32 : ℤ → ℤ
int32 (pos n) = signed32 (n % 2 ^ 32)
int32 (negsuc n) = signed32 (2 ^ 32 - 1 - n % 2 ^ 32)

-- The pattern of the low 64 bits, read as two's complement.
abbrev pub signed64 : ℕ → ℤ
signed64 m = if ltb m (2 ^ 63) then pos m else negsuc (2 ^ 64 - 1 - m)

-- The result of an operation on Go's `int`: the low 64 bits are kept.
abbrev pub int64 : ℤ → ℤ
int64 (pos n) = signed64 (n % 2 ^ 64)
int64 (negsuc n) = signed64 (2 ^ 64 - 1 - n % 2 ^ 64)

-- -n
abbrev pub negative : ℕ → ℤ
negative zero = pos zero
negative (suc n) = negsuc n

abbrev pub times : ℤ → ℕ → ℤ
times (pos n) k = pos (n * k)
times (negsuc n) k = negative ((n + 1) * k)

-- Go's division cuts off towards zero.
abbrev pub quotient : ℤ → ℕ → ℤ
quotient (pos n) k = pos (n / k)
quotient (negsuc n) k = negative ((n + 1) / k)

-- m - n
abbrev pub difference : ℕ → ℕ → ℤ
difference m n = if ltb m n then negsuc (n - m - 1) else pos (m - n)

infixl 6 ◌+ℤ◌ ◌-ℤ◌
abbrev pub ◌+ℤ◌ : ℤ → ℤ → ℤ
pos m +ℤ pos n = pos (m + n)
pos m +ℤ negsuc n = difference m (n + 1)
negsuc m +ℤ pos n = difference n (m + 1)
negsuc m +ℤ negsuc n = negsuc (m + n + 1)

abbrev pub ◌-ℤ◌ : ℤ → ℤ → ℤ
x -ℤ pos n = x +ℤ negative n
x -ℤ negsuc n = x +ℤ pos (n + 1)

-- `x <= 0`
abbrev pub nonpositive : ℤ → Bool
nonpositive (pos n) = leb n 0
nonpositive (negsuc n) = true

-- `x == 0`
abbrev pub is_zero : ℤ → Bool
is_zero (pos n) = leb n 0
is_zero (negsuc n) = false

pub int32-pos : (n : ℕ) → n < 2 ^ 31 → int32 (pos n) ≡ pos n
int32-pos n h = ground arith

pub int64-pos : (n : ℕ) → n < 2 ^ 63 → int64 (pos n) ≡ pos n
int64-pos n h = ground arith
