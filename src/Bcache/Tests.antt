-- ===== src/Bcache/Tests.antt =====
-- Calls of the buffer cache on three buffers.
use operating_systems.Prelude.{ℕ, ◌≡◌, ◌⊎◌, refl, arith, Option, none, some, List, [], ◌∷◌, true}
use operating_systems.Bcache.{Buf, binit, bget, find_cached, recycle}
use operating_systems.Bcache.Lru.{Missing, Hits, Recycles, bget-Lru}
use operating_systems.Bcache.Unique.{copies, IsUnique, bget-IsUnique}

abbrev fresh : List Buf
fresh = binit 3

abbrev cache_of : Option (ℕ × List Buf) → List Buf
cache_of none = []
cache_of (some (i, bs)) = bs

abbrev one_cached : List Buf
one_cached = cache_of (bget 1 7 fresh)

-- The buffer at the end of the list is taken, that of the lowest address.
gets : bget 1 7 fresh ≡ some (0, one_cached)
unfolding bget find_cached recycle binit
gets = refl

bget-Lru_example :
    Hits 1 7 0 fresh one_cached ⊎ (Missing 1 7 fresh × Recycles 1 7 0 fresh one_cached)
bget-Lru_example = bget-Lru 1 7 0 fresh one_cached gets

fresh-IsUnique : IsUnique fresh
unfolding copies binit
fresh-IsUnique dev blockno pos = ground arith

bget-IsUnique_example : IsUnique one_cached × (copies 1 7 one_cached ≡ 1)
bget-IsUnique_example = bget-IsUnique 1 7 0 fresh one_cached (omega arith) fresh-IsUnique gets

-- The first buffer of the list, locked by process 5.
abbrev lock_by : List Buf → List Buf
lock_by [] = []
lock_by (b ∷ bs) = record b { refcnt = 1; lock = record { locked = true; pid = 5 } } ∷ bs

abbrev list_of : Option (List Buf) → List Buf
list_of none = []
list_of (some bs) = bs
