-- ===== src/Base/Bytes/Signed.antt =====
-- `i32`: an integer by its two's complement bits.
use Prim.Native.Nat.{ℕ, ◌-◌, ◌%◌, ◌^◌, ◌<◌}
use mathlib.Core.Path.{◌≡◌}
use native.Mathlib.Omega.{arith}
use droidmirror.Base.Tests.{ltb, if◌then◌else◌}
use droidmirror.Base.Int.{ℤ, pos, negsuc}

-- The range of `i32`.
abbrev pub IsI32 : ℤ → Type 0
IsI32 (pos n) = n < 2 ^ 31
IsI32 (negsuc n) = n < 2 ^ 31

-- The 32 bits of an integer, and the integer that 32 bits stand for.
unfoldable pub i32_bits : ℤ → ℕ
i32_bits (pos n) = n % 2 ^ 32
i32_bits (negsuc n) = 2 ^ 32 - 1 - n % 2 ^ 32

unfoldable pub i32_of_bits : ℕ → ℤ
i32_of_bits w = if ltb w (2 ^ 31) then pos w else negsuc (2 ^ 32 - 1 - w)

pub i32_of_bits-i32_bits : (z : ℤ) → IsI32 z → i32_of_bits (i32_bits z) ≡ z
unfolding i32_bits i32_of_bits
i32_of_bits-i32_bits (pos n) h = ground arith
i32_of_bits-i32_bits (negsuc n) h = ground arith

pub i32_bits-lt : (z : ℤ) → i32_bits z < 2 ^ 32
unfolding i32_bits
i32_bits-lt (pos n) = omega arith
i32_bits-lt (negsuc n) = omega arith

pub i32_of_bits-IsI32 : (w : ℕ) → w < 2 ^ 32 → IsI32 (i32_of_bits w)
unfolding i32_of_bits
i32_of_bits-IsI32 w h = ground arith
