-- ===== src/Common/Words.antt =====
-- int32 and its bit pattern: Go's conversions int32(x) of a uint32 and uint32(x) of an int32.
use Prim.Native.Nat.{ℕ, ◌-◌, ◌%◌, ◌^◌, ◌<◌}
use mathlib.Core.Path.{◌≡◌}
use native.Mathlib.Omega.{arith}
use tccelta.Common.Tests.{ltb, if◌then◌else◌}
use tccelta.Common.Int.{ℤ, pos, negsuc}

abbrev pub int32 : ℕ → ℤ
int32 w = if ltb w (2 ^ 31) then pos w else negsuc (2 ^ 32 - w - 1)

abbrev pub uint32_of : ℤ → ℕ
uint32_of (pos n) = n % 2 ^ 32
uint32_of (negsuc n) = 2 ^ 32 - 1 - n % 2 ^ 32

abbrev pub IsI32 : ℤ → Type 0
IsI32 (pos n) = n < 2 ^ 31
IsI32 (negsuc n) = n < 2 ^ 31

pub uint32_of-lt : (z : ℤ) → uint32_of z < 2 ^ 32
uint32_of-lt (pos n) = omega arith
uint32_of-lt (negsuc n) = omega arith

pub int32-uint32_of : (z : ℤ) → IsI32 z → int32 (uint32_of z) ≡ z
int32-uint32_of (pos n) h = ground arith
int32-uint32_of (negsuc n) h = ground arith

-- An int64 that an operation has left: the 64 low bits.
unfoldable pub int64 : ℤ → ℤ
int64 (pos n) = let w = n % 2 ^ 64 in if ltb w (2 ^ 63) then pos w else negsuc (2 ^ 64 - w - 1)
int64 (negsuc n) = let w = n % 2 ^ 64 in if ltb w (2 ^ 63) then negsuc w else pos (2 ^ 64 - w - 1)

-- An integer that fits is left alone.
pub int64_pos : (n : ℕ) → n < 2 ^ 63 → int64 (pos n) ≡ pos n
unfolding int64
int64_pos n h = ground (arith, h)

pub int64_negsuc : (n : ℕ) → n < 2 ^ 63 → int64 (negsuc n) ≡ negsuc n
unfolding int64
int64_negsuc n h = ground (arith, h)
