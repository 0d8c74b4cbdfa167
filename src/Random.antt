-- ===== src/Random.antt =====
-- xv6-Lottery-Scheduler-Offline-03/kernel/random.c: the generator and its range.
pub mod Range
mod Tests
use Prim.Native.Nat.{bit_and, bit_xor}
use operating_systems.Prelude.{
  ℕ, ◌+◌, ◌*◌, ◌/◌, ◌%◌, ◌^◌, ◌<◌, u32_mod, add32, sub32, slt32, if◌then◌else◌,
}

-- The four static words of `random`.
pub record Seed : Type 0 where
  pub z1 : ℕ
  pub z2 : ℕ
  pub z3 : ℕ
  pub z4 : ℕ

abbrev pub first_seed : Seed
first_seed = record { z1 = 12345; z2 = 12345; z3 = 12345; z4 = 12345 }

-- `a << k`, `a >> k` and `a ^ b` on `unsigned int`.
shl : ℕ → ℕ → ℕ
shl a k = (a * 2 ^ k) % u32_mod

shr : ℕ → ℕ → ℕ
shr a k = a / 2 ^ k

xor32 : ℕ → ℕ → ℕ
xor32 a b = bit_xor a b % u32_mod

-- One word's update: `b = ((z << q) ^ z) >> s; z = ((z & c) << d) ^ b`.
advance : ℕ → ℕ → ℕ → ℕ → ℕ → ℕ
unfolding shl shr xor32
advance q s c d z = let b = shr (xor32 (shl z q) z) s in xor32 (shl (bit_and z c) d) b

unfoldable pub random : Seed → ℕ × Seed
unfolding advance xor32
random s =
    let z1 = advance 6 13 4294967294 18 s.z1 in
    let z2 = advance 2 27 4294967288 2 s.z2 in
    let z3 = advance 13 21 4294967280 7 s.z3 in
    let z4 = advance 3 12 4294967168 13 s.z4 in
    (xor32 (xor32 (xor32 z1 z2) z3) z4 / 2, record { z1 = z1; z2 = z2; z3 = z3; z4 = z4 })

-- The part of `randomrange` behind the swap: `range = hi - lo + 1; return random() % range + lo`.
-- `random` is unsigned, so `range` is read as unsigned.
in_range : ℕ → ℕ → Seed → ℕ × Seed
in_range lo hi s = let (r, s') = random s in (add32 (r % add32 (sub32 hi lo) 1) lo, s')

unfoldable pub randomrange : ℕ → ℕ → Seed → ℕ × Seed
unfolding in_range random
randomrange lo hi s = if slt32 hi lo then in_range hi lo s else in_range lo hi s
