-- ===== src/Random/Range.antt =====
-- The values of `random` and `randomrange`.
use operating_systems.Prelude.{
  ℕ, ◌+◌, ◌-◌, ◌%◌, ◌≤◌, ◌<◌, ◌≡◌, arith, add32, sub32, min, max, i32_sign, dec_lt, slt32-of_lt,
  slt32-of_le,
}
use operating_systems.Random.{Seed, xor32, random, in_range, randomrange}
use native.Mathlib.Nat.{mod-lt}

-- `random` returns a number below 2 ^ 31, so it is never negative as an `int`.
pub random-lt : (s : Seed) → (random s).0 < i32_sign
unfolding random xor32
random-lt s = omega arith

in_range_bounds :
    (lo hi : ℕ) (s : Seed)
    → lo ≤ hi
    → hi < i32_sign
    → (lo ≤ (in_range lo hi s).0) × ((in_range lo hi s).0 ≤ hi)
unfolding in_range
in_range_bounds lo hi s h k =
    let width : add32 (sub32 hi lo) 1 ≡ hi - lo + 1 = omega arith in
    let inside : (random s).0 % add32 (sub32 hi lo) 1 < hi - lo + 1 =
      rw width (mod-lt (random s).0 (omega arith)) in
    (omega arith, omega arith)

-- For non-negative bounds, in either order, the result lies between them, both included.
pub randomrange_bounds :
    (lo hi : ℕ) (s : Seed)
    → lo < i32_sign
    → hi < i32_sign
    → (min lo hi ≤ (randomrange lo hi s).0) × ((randomrange lo hi s).0 ≤ max lo hi)
unfolding randomrange
randomrange_bounds lo hi s h k = elim (dec_lt hi lo) [
  | yes p ↦
      rw (slt32-of_lt hi lo h p) (let b = in_range_bounds hi lo s (omega arith) h in omega arith)
  | no p ↦
      rw (slt32-of_le lo hi k (omega arith))
        (let b = in_range_bounds lo hi s (omega arith) k in omega arith)
]
