-- ===== src/Common/Int.antt =====
-- Signed integers over the native numbers: Go's int64, and math/big's unbounded integers.
use Prim.Native.Nat.{ℕ, ◌-◌, ◌%◌, ◌^◌, ◌<◌}
use mathlib.Core.Path.{◌≡◌}
use native.Mathlib.Omega.{arith}
use monty_go.Common.Tests.{ltb, if◌then◌else◌}

-- `negsuc n` is -(n + 1).
pub data ℤ : Type 0 where
  pos : ℕ → ℤ
  negsuc : ℕ → ℤ

-- The `uint64` with the bits of an `int64`: `uint64(x)`.
abbrev pub to_u64 : ℤ → ℕ
to_u64 (pos n) = n % 2 ^ 64
to_u64 (negsuc n) = 2 ^ 64 - 1 - n % 2 ^ 64

-- `int32(v)` of a `uint64`, as an integer.
abbrev pub int32_of : ℕ → ℤ
int32_of v =
    if ltb (v % 2 ^ 32) (2 ^ 31) then pos (v % 2 ^ 32) else negsuc (2 ^ 32 - 1 - v % 2 ^ 32)

-- `int64(v)` of a `uint64`, as an integer.
abbrev pub int64_of : ℕ → ℤ
int64_of v =
    if ltb (v % 2 ^ 64) (2 ^ 63) then pos (v % 2 ^ 64) else negsuc (2 ^ 64 - 1 - v % 2 ^ 64)

abbrev pub IsInt32 : ℤ → Type 0
IsInt32 (pos n) = n < 2 ^ 31
IsInt32 (negsuc n) = n < 2 ^ 31

abbrev pub IsInt64 : ℤ → Type 0
IsInt64 (pos n) = n < 2 ^ 63
IsInt64 (negsuc n) = n < 2 ^ 63

-- A negative `int32` is widened to ten bytes of varint, and `int32` reads it back.
pub int32_of-to_u64 : (z : ℤ) → IsInt32 z → int32_of (to_u64 z) ≡ z
int32_of-to_u64 (pos n) h = ground arith
int32_of-to_u64 (negsuc n) h = ground arith

pub int64_of-to_u64 : (z : ℤ) → IsInt64 z → int64_of (to_u64 z) ≡ z
int64_of-to_u64 (pos n) h = ground arith
int64_of-to_u64 (negsuc n) h = ground arith

pub to_u64-lt : (z : ℤ) → to_u64 z < 2 ^ 64
to_u64-lt (pos n) = omega arith
to_u64-lt (negsuc n) = omega arith
