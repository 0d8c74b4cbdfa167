-- ===== src/Bcache.antt =====
-- xv6-Lottery-Scheduler-Offline-03/kernel/bio.c: the buffer cache, with the sleep lock of each
-- buffer (kernel/sleeplock.c). The cache is the list of its buffers from `head.next`, the most
-- recently used, to `head.prev`; a buffer's address is its `id`. The data are not kept here.
pub mod Lru
pub mod Unique
mod Tests
use operating_systems.Prelude.{
  ℕ, zero, suc, ◌+◌, Bool, true, false, ◌&&◌, not, Option, none, some, List, [], ◌∷◌, ◌==◌,
  if◌then◌else◌, add32, sub32, map,
}

-- `struct sleeplock`, less the spinlock inside.
pub record Sleeplock : Type 0 where
  pub locked : Bool
  pub pid : ℕ

-- `acquiresleep` by the process `me`: `none` is its `sleep`.
pub acquiresleep : ℕ → Sleeplock → Option Sleeplock
acquiresleep me lk = if lk.locked then none else some (record { locked = true; pid = me })

pub releasesleep : Sleeplock → Sleeplock
releasesleep lk = record { locked = false; pid = 0 }

pub holdingsleep : ℕ → Sleeplock → Bool
holdingsleep me lk = lk.locked && lk.pid == me

-- `struct buf`, less its data and its links.
pub record Buf : Type 0 where
  pub id : ℕ
  pub dev : ℕ
  pub blockno : ℕ
  pub valid : Bool
  pub refcnt : ℕ
  pub lock : Sleeplock

-- `b->dev == dev && b->blockno == blockno`
abbrev pub caches : ℕ → ℕ → Buf → Bool
caches dev blockno b = b.dev == dev && b.blockno == blockno

-- The first loop of `bget`, from `head.next` on.
pub find_cached : ℕ → ℕ → List Buf → Option (ℕ × List Buf)
find_cached dev blockno [] = none
find_cached dev blockno (b ∷ bs) =
    if caches dev blockno b
    then some (b.id, record b { refcnt = add32 b.refcnt 1 } ∷ bs)
    else elim (find_cached dev blockno bs) [ none ↦ none | some (i, cs) ↦ some (i, b ∷ cs) ]

-- The second loop of `bget`, from `head.prev` back.
pub recycle : ℕ → ℕ → List Buf → Option (ℕ × List Buf)
recycle dev blockno [] = none
recycle dev blockno (b ∷ bs) = elim (recycle dev blockno bs) [
  | some (i, cs) ↦ some (i, b ∷ cs)
  | none ↦
      if b.refcnt == 0
      then some (b.id, record b { dev = dev; blockno = blockno; valid = false; refcnt = 1 } ∷ bs)
      else none
]

-- `bget`, up to its `acquiresleep`: the buffer and the cache. `none` is its panic.
pub bget : ℕ → ℕ → List Buf → Option (ℕ × List Buf)
unfolding find_cached recycle
bget dev blockno bs = elim (find_cached dev blockno bs) [
  | some r ↦ some r
  | none ↦ recycle dev blockno bs
]

-- The buffer at an address, and the others in their order.
pub unlink : ℕ → List Buf → Option (Buf × List Buf)
unlink i [] = none
unlink i (b ∷ bs) =
    if b.id == i
    then some (b, bs)
    else elim (unlink i bs) [ none ↦ none | some (c, cs) ↦ some (c, b ∷ cs) ]

-- A change of the buffer at an address, in its place.
pub update : ℕ → (Buf → Buf) → List Buf → List Buf
update i f [] = []
update i f (b ∷ bs) = if b.id == i then f b ∷ bs else b ∷ update i f bs

-- `brelse` by the process `me`; `none` is its panic, or an address that is no buffer's.
pub brelse : ℕ → ℕ → List Buf → Option (List Buf)
unfolding unlink update holdingsleep releasesleep
brelse me i bs = elim (unlink i bs) [
  | none ↦ none
  | some (b, rest) ↦
      let released =
        λ (c : Buf). record c { lock = releasesleep c.lock; refcnt = sub32 c.refcnt 1 } in
      if not (holdingsleep me b.lock)
      then none
      else if sub32 b.refcnt 1 == 0
      then some (released b ∷ rest)
      else some (update i released bs)
]

pub bpin : ℕ → List Buf → List Buf
unfolding update
bpin i bs = update i (λ b. record b { refcnt = add32 b.refcnt 1 }) bs

pub bunpin : ℕ → List Buf → List Buf
unfolding update
bunpin i bs = update i (λ b. record b { refcnt = sub32 b.refcnt 1 }) bs

-- `binit` over `n` buffers of zeroed memory, each put in front of the ones before it.
pub binit : ℕ → List Buf
binit zero = []
binit (suc n) =
    record {
      id = n;
      dev = 0;
      blockno = 0;
      valid = false;
      refcnt = 0;
      lock = record { locked = false; pid = 0 };
    }
    ∷ binit n
