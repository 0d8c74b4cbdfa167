-- ===== src/Random/Tests.antt =====
-- The generator on its first seed.
use operating_systems.Prelude.{◌≤◌, arith, min, max}
use operating_systems.Random.{first_seed, randomrange}
use operating_systems.Random.Range.{randomrange_bounds}

randomrange_bounds_example :
    (min 9 2 ≤ (randomrange 9 2 first_seed).0) × ((randomrange 9 2 first_seed).0 ≤ max 9 2)
randomrange_bounds_example = randomrange_bounds 9 2 first_seed (omega arith) (omega arith)
