-- ===== src/Prelude/Word.antt =====
-- Machine words. A C `int` or `uint` is its 32-bit pattern, a number below `2 ^ 32`; the signed
-- reading of a pattern from `2 ^ 31` on is negative.
use Prim.Native.Nat.{ℕ, ◌+◌, ◌-◌, ◌%◌, ◌^◌, ◌<◌, ◌≤◌}
use mathlib.Core.Bool.{Bool, true, false}
use mathlib.Core.Path.{◌≡◌}
use native.Mathlib.Omega.{arith}
use operating_systems.Prelude.Tests.{ltb, lt→ltb}

abbrev pub u32_mod : ℕ
u32_mod = 2 ^ 32

-- the first pattern that reads as a negative `int`
abbrev pub i32_sign : ℕ
i32_sign = 2 ^ 31

-- `a + b` and `a - b` on `int` or `uint`, as the machine computes them.
abbrev pub add32 : ℕ → ℕ → ℕ
add32 a b = (a + b) % u32_mod

abbrev pub sub32 : ℕ → ℕ → ℕ
sub32 a b = (a + u32_mod - b) % u32_mod

-- `a < b` on `int`.
abbrev pub slt32 : ℕ → ℕ → Bool
slt32 a b = ltb ((a + i32_sign) % u32_mod) ((b + i32_sign) % u32_mod)

-- `-1` as an `int`
abbrev pub minus_one : ℕ
minus_one = u32_mod - 1

-- On non-negative values the signed test is the plain one.
pub slt32-of_lt : (a b : ℕ) → b < i32_sign → a < b → slt32 a b ≡ true
slt32-of_lt a b k h = lt→ltb _ _ (omega arith)

pub slt32-of_le : (a b : ℕ) → b < i32_sign → a ≤ b → slt32 b a ≡ false
slt32-of_le a b k h = ground arith
