-- ===== src/Common/Int.antt =====
-- Signed integers over the native numbers, and C++'s conversions between signed and unsigned words.
use Prim.Native.Nat.{ℕ, ◌-◌, ◌*◌, ◌<◌}
use mathlib.Core.Path.{◌≡◌}
use native.Mathlib.Omega.{arith}
use lightnet.Common.Tests.{ltb, if◌then◌else◌}

-- `negsuc n` is -(n + 1).
pub data ℤ : Type 0 where
  pos : ℕ → ℤ
  negsuc : ℕ → ℤ

-- A two's complement word of `2 * half` values as the number that it stands for, and back.
abbrev pub to_signed : ℕ → ℕ → ℤ
to_signed half w = if ltb w half then pos w else negsuc (2 * half - w - 1)

abbrev pub to_unsigned : ℕ → ℤ → ℕ
to_unsigned half (pos n) = n
to_unsigned half (negsuc n) = 2 * half - n - 1

-- The range -half ≤ z < half.
abbrev pub InRange : ℕ → ℤ → Type 0
InRange half (pos n) = n < half
InRange half (negsuc n) = n < half

pub to_signed-to_unsigned :
    (half : ℕ) (z : ℤ) → InRange half z → to_signed half (to_unsigned half z) ≡ z
to_signed-to_unsigned half (pos n) h = ground arith
to_signed-to_unsigned half (negsuc n) h = ground arith

pub to_unsigned-lt : (half : ℕ) (z : ℤ) → InRange half z → to_unsigned half z < 2 * half
to_unsigned-lt half (pos n) h = omega arith
to_unsigned-lt half (negsuc n) h = omega arith
