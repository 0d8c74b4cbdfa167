-- ===== src/Bcache/Unique.antt =====
-- At most one buffer caches each block.
use operating_systems.Prelude.{
  ℕ, ◌+◌, ◌≤◌, ◌<◌, ◌≡◌, refl, ap, arith, true, ◌&&◌, some, List, [], ◌∷◌, ◌++◌, ◌==◌,
  if◌then◌else◌, sub32, Bool-cases, Option-cases, inl, inr, ◌⊎◌,
}
use operating_systems.Bcache.{Buf, caches, bget, unlink, update, brelse, holdingsleep, releasesleep}
use operating_systems.Bcache.Lru.{Missing, Changes, Hits, Recycles, bget-Lru}

-- How many buffers cache a block.
unfoldable pub copies : ℕ → ℕ → List Buf → ℕ
copies dev blockno [] = 0
copies dev blockno (b ∷ bs) = (if caches dev blockno b then 1 else 0) + copies dev blockno bs

-- No block of a device is cached twice. Device 0, which the buffers name before their first use, is
-- left out.
abbrev pub IsUnique : List Buf → Type 0
IsUnique bs = (dev blockno : ℕ) → 0 < dev → copies dev blockno bs ≤ 1

copies-append :
    (dev blockno : ℕ) (bs cs : List Buf)
    → copies dev blockno (bs ++ cs) ≡ copies dev blockno bs + copies dev blockno cs
unfolding copies
copies-append dev blockno [] cs = omega arith
copies-append dev blockno (b ∷ bs) cs = omega (arith, copies-append dev blockno bs cs)

copies-Missing :
    (dev blockno : ℕ) (bs : List Buf) → Missing dev blockno bs → copies dev blockno bs ≡ 0
unfolding copies
copies-Missing dev blockno [] m = refl
copies-Missing dev blockno (b ∷ bs) m = ground (arith, m.0, copies-Missing dev blockno bs m.1)

-- A change of one buffer changes the copies by that buffer's.
copies-change :
    (dev blockno i : ℕ) (bs cs : List Buf) (c : Changes i bs cs)
    → copies dev blockno cs + (if caches dev blockno c.old then 1 else 0)
      ≡ copies dev blockno bs + (if caches dev blockno c.new then 1 else 0)
unfolding copies
copies-change dev blockno i bs cs c =
    let a = copies-append dev blockno c.before (c.old ∷ c.after) in
    let b = copies-append dev blockno c.before (c.new ∷ c.after) in
    omega (arith, ap (copies dev blockno) c.was, ap (copies dev blockno) c.is, a, b)

copies-old :
    (dev blockno i : ℕ) (bs cs : List Buf) (c : Changes i bs cs)
    → (if caches dev blockno c.old then 1 else 0) ≤ copies dev blockno bs
unfolding copies
copies-old dev blockno i bs cs c =
    omega
      (arith, ap (copies dev blockno) c.was, copies-append dev blockno c.before (c.old ∷ c.after))

copies-Hits :
    (dev blockno i : ℕ) (bs cs : List Buf) (r : Hits dev blockno i bs cs) (d n : ℕ)
    → copies d n cs ≡ copies d n bs
copies-Hits dev blockno i bs cs r d n =
    let same : caches d n r.change.new ≡ caches d n r.change.old = ap (caches d n) r.counts in
    ground (arith, copies-change d n i bs cs r.change, same)

copies-Recycles :
    (dev blockno i : ℕ) (bs cs : List Buf) (m : Missing dev blockno bs)
    (r : Recycles dev blockno i bs cs) (d n : ℕ)
    → (copies d n cs ≤ copies d n bs) ⊎ ((d ≡ dev) × (n ≡ blockno) × (copies d n cs ≡ 1))
copies-Recycles dev blockno i bs cs m r d n =
    let named : caches d n r.change.new ≡ (dev == d && blockno == n) = ap (caches d n) r.taken in
    let change = copies-change d n i bs cs r.change in
    let old = copies-old d n i bs cs r.change in
    elim (Bool-cases (dev == d && blockno == n)) [
      | inl same ↦
          let d_is : d ≡ dev = ground (arith, same) in
          let n_is : n ≡ blockno = ground (arith, same) in
          let none_yet : copies d n bs ≡ 0 = rw (d_is, n_is) (copies-Missing dev blockno bs m) in
          inr (d_is, n_is, ground (arith, same, named, change, old, none_yet))
      | inr other ↦ inl (ground (arith, other, named, change))
    ]

recycled_once :
    (dev blockno i : ℕ) (bs cs : List Buf)
    → Missing dev blockno bs
    → Recycles dev blockno i bs cs
    → copies dev blockno cs ≡ 1
recycled_once dev blockno i bs cs m r =
    let named : caches dev blockno r.change.new ≡ true =
      ground (arith, ap (caches dev blockno) r.taken) in
    ground (
      arith,
      named,
      copies-change dev blockno i bs cs r.change,
      copies-old dev blockno i bs cs r.change,
      copies-Missing dev blockno bs m,
    )

-- A `bget` that returns, for a device other than 0, keeps the blocks of every device other than 0
-- unique, and the block that it is asked for is then cached by exactly one buffer.
pub bget-IsUnique :
    (dev blockno i : ℕ) (bs cs : List Buf)
    → 0 < dev
    → IsUnique bs
    → bget dev blockno bs ≡ some (i, cs)
    → IsUnique cs × (copies dev blockno cs ≡ 1)
bget-IsUnique dev blockno i bs cs pos u h = elim (bget-Lru dev blockno i bs cs h) [
  | inl r ↦
      let one : 1 ≤ copies dev blockno bs =
        ground (arith, copies-old dev blockno i bs cs r.change, r.found) in
      (
        λ d n p. omega (arith, copies-Hits dev blockno i bs cs r d n, u d n p),
        omega (arith, copies-Hits dev blockno i bs cs r dev blockno, u dev blockno pos, one),
      )
  | inr (m, r) ↦ (
    λ d n p. elim (copies-Recycles dev blockno i bs cs m r d n) [
      | inl less ↦ omega (arith, less, u d n p)
      | inr (_, _, one) ↦ omega (arith, one)
    ],
    recycled_once dev blockno i bs cs m r,
  )
]

copies-unlink :
    (dev blockno i : ℕ) (b : Buf) (bs cs : List Buf)
    → unlink i bs ≡ some (b, cs)
    → copies dev blockno bs ≡ (if caches dev blockno b then 1 else 0) + copies dev blockno cs
unfolding unlink copies
copies-unlink dev blockno i b [] cs h = absurd (ground arith)
copies-unlink dev blockno i b (x ∷ bs) cs h = elim (Bool-cases (x.id == i)) [
  | inl here ↦
      let same : x ≡ b = ground (arith, h, here) in
      let rest : bs ≡ cs = ground (arith, h, here) in rw (same, rest) refl
  | inr later ↦ elim (Option-cases (unlink i bs)) [
    | inl e ↦ absurd (ground (arith, h, later, e))
    | inr ((c, ds), e) ↦
        let same : c ≡ b = ground (arith, h, later, e) in
        let rest : cs ≡ x ∷ ds = ground (arith, h, later, e) in
        rw (rest, ← same) (omega (arith, copies-unlink dev blockno i c bs ds e))
  ]
]

copies-update :
    (dev blockno i : ℕ) (f : Buf → Buf) (bs : List Buf)
    → ((b : Buf) → caches dev blockno (f b) ≡ caches dev blockno b)
    → copies dev blockno (update i f bs) ≡ copies dev blockno bs
unfolding update copies
copies-update dev blockno i f [] h = refl
copies-update dev blockno i f (b ∷ bs) h = ground (arith, h b, copies-update dev blockno i f bs h)

-- `brelse`, whether it moves the buffer to the front or leaves it, changes nothing in how many
-- buffers cache each block.
pub copies-brelse :
    (me i dev blockno : ℕ) (bs cs : List Buf)
    → brelse me i bs ≡ some cs
    → copies dev blockno cs ≡ copies dev blockno bs
unfolding brelse copies
copies-brelse me i dev blockno bs cs h = elim (Option-cases (unlink i bs)) [
  | inl e ↦ absurd (ground (arith, h, e))
  | inr ((b, rest), e) ↦ elim (Bool-cases (holdingsleep me b.lock)) [
    | inr not_held ↦ absurd (ground (arith, h, e, not_held))
    | inl mine ↦ elim (Bool-cases (sub32 b.refcnt 1 == 0)) [
      | inl last ↦
          let moved : cs
              ≡ record b { lock = releasesleep b.lock; refcnt = sub32 b.refcnt 1 } ∷ rest =
            ground (arith, h, e, mine, last) in
          rw moved (omega (arith, copies-unlink dev blockno i b bs rest e))
      | inr shared ↦
          let released =
            λ (c : Buf). record c { lock = releasesleep c.lock; refcnt = sub32 c.refcnt 1 } in
          let kept : cs ≡ update i released bs = ground (arith, h, e, mine, shared) in
          rw kept (copies-update dev blockno i released bs (λ c. refl))
    ]
  ]
]
