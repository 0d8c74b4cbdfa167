-- ===== src/Bcache/Lru.antt =====
-- What `bget` chooses: the buffer that caches the block, or the least recently used free one.
use operating_systems.Prelude.{
  ℕ, ◌≡◌, ◌↔◌, refl, ap, arith, true, false, none, some, List, [], ◌∷◌, ◌++◌, ◌==◌, add32,
  Bool-cases, Option-cases, inl, inr, ◌⊎◌,
}
use operating_systems.Bcache.{Buf, caches, find_cached, recycle, bget}

-- No buffer caches the block.
abbrev pub Missing : ℕ → ℕ → List Buf → Type 0
Missing dev blockno [] = Unit
Missing dev blockno (b ∷ bs) = (caches dev blockno b ≡ false) × Missing dev blockno bs

-- Every buffer is in use.
abbrev pub AllUsed : List Buf → Type 0
AllUsed [] = Unit
AllUsed (b ∷ bs) = ((b.refcnt == 0) ≡ false) × AllUsed bs

-- One buffer of `bs` becomes another in `cs`, in its place.
pub record Changes (i : ℕ) (bs cs : List Buf) : Type 0 where
  pub before : List Buf
  pub old : Buf
  pub new : Buf
  pub after : List Buf
  pub was : bs ≡ before ++ old ∷ after
  pub is : cs ≡ before ++ new ∷ after
  pub address : old.id ≡ i

-- The first buffer that caches the block counts one user more.
pub record Hits (dev blockno i : ℕ) (bs cs : List Buf) : Type 0 where
  pub change : Changes i bs cs
  pub found : caches dev blockno change.old ≡ true
  pub first : Missing dev blockno change.before
  pub counts : change.new ≡ record (change.old) { refcnt = add32 change.old.refcnt 1 }

-- The last buffer without a user gets the block, and has one user and no data.
pub record Recycles (dev blockno i : ℕ) (bs cs : List Buf) : Type 0 where
  pub change : Changes i bs cs
  pub free : change.old.refcnt ≡ 0
  pub last : AllUsed change.after
  pub taken :
      change.new ≡ record (change.old) { dev = dev; blockno = blockno; valid = false; refcnt = 1 }

-- The same change behind one more buffer.
abbrev behind : (b : Buf) (i : ℕ) (bs cs : List Buf) → Changes i bs cs → Changes i (b ∷ bs) (b ∷ cs)
behind b i bs cs c = record {
  before = b ∷ c.before;
  old = c.old;
  new = c.new;
  after = c.after;
  was = ap (λ l. b ∷ l) c.was;
  is = ap (λ l. b ∷ l) c.is;
  address = c.address;
}

find_cached-Hits :
    (dev blockno i : ℕ) (bs cs : List Buf)
    → find_cached dev blockno bs ≡ some (i, cs)
    → Hits dev blockno i bs cs
unfolding find_cached
find_cached-Hits dev blockno i [] cs h = absurd (ground arith)
find_cached-Hits dev blockno i (b ∷ bs) cs h = elim (Bool-cases (caches dev blockno b)) [
  | inl hit ↦ record {
    change = record {
      before = [];
      old = b;
      new = record b { refcnt = add32 b.refcnt 1 };
      after = bs;
      was = refl;
      is = ground (arith, h, hit);
      address = ground (arith, h, hit);
    };
    found = hit;
    first = tt;
    counts = refl;
  }
  | inr miss ↦ elim (Option-cases (find_cached dev blockno bs)) [
    | inl e ↦ absurd (ground (arith, h, miss, e))
    | inr ((j, ds), e) ↦
        let same : cs ≡ b ∷ ds = ground (arith, h, miss, e) in
        let here : i ≡ j = ground (arith, h, miss, e) in
        let r = find_cached-Hits dev blockno j bs ds e in
        rw (same, here)
          (record {
            change = behind b j bs ds r.change;
            found = r.found;
            first = (miss, r.first);
            counts = r.counts;
          })
  ]
]

find_cached-Missing :
    (dev blockno : ℕ) (bs : List Buf) → (find_cached dev blockno bs ≡ none) ↔ Missing dev blockno bs
unfolding find_cached
find_cached-Missing dev blockno [] = (λ h. tt, λ h. refl)
find_cached-Missing dev blockno (b ∷ bs) = ground (arith, find_cached-Missing dev blockno bs)

recycle-AllUsed : (dev blockno : ℕ) (bs : List Buf) → (recycle dev blockno bs ≡ none) ↔ AllUsed bs
unfolding recycle
recycle-AllUsed dev blockno [] = (λ h. tt, λ h. refl)
recycle-AllUsed dev blockno (b ∷ bs) = ground (arith, recycle-AllUsed dev blockno bs)

recycle-Recycles :
    (dev blockno i : ℕ) (bs cs : List Buf)
    → recycle dev blockno bs ≡ some (i, cs)
    → Recycles dev blockno i bs cs
unfolding recycle
recycle-Recycles dev blockno i [] cs h = absurd (ground arith)
recycle-Recycles dev blockno i (b ∷ bs) cs h = elim (Option-cases (recycle dev blockno bs)) [
  | inl e ↦ elim (Bool-cases (b.refcnt == 0)) [
    | inl idle ↦ record {
      change = record {
        before = [];
        old = b;
        new = record b { dev = dev; blockno = blockno; valid = false; refcnt = 1 };
        after = bs;
        was = refl;
        is = ground (arith, h, e, idle);
        address = ground (arith, h, e, idle);
      };
      free = ground (arith, idle);
      last = (recycle-AllUsed dev blockno bs).0 e;
      taken = refl;
    }
    | inr busy ↦ absurd (ground (arith, h, e, busy))
  ]
  | inr ((j, ds), e) ↦
      let same : cs ≡ b ∷ ds = ground (arith, h, e) in
      let here : i ≡ j = ground (arith, h, e) in
      let r = recycle-Recycles dev blockno j bs ds e in
      rw (same, here)
        (record {
          change = behind b j bs ds r.change;
          free = r.free;
          last = r.last;
          taken = r.taken;
        })
]

-- A `bget` that returns changes one buffer: the first that caches the block, which counts one user
-- more; or, if no buffer caches it, the last one without a user, the least recently used, which then
-- caches the block for one user and holds no data.
pub bget-Lru :
    (dev blockno i : ℕ) (bs cs : List Buf)
    → bget dev blockno bs ≡ some (i, cs)
    → Hits dev blockno i bs cs ⊎ (Missing dev blockno bs × Recycles dev blockno i bs cs)
unfolding bget
bget-Lru dev blockno i bs cs h = elim (Option-cases (find_cached dev blockno bs)) [
  | inl e ↦
      let r : recycle dev blockno bs ≡ some (i, cs) = ground (arith, h, e) in
      inr ((find_cached-Missing dev blockno bs).0 e, recycle-Recycles dev blockno i bs cs r)
  | inr (r, e) ↦
      let found : find_cached dev blockno bs ≡ some (i, cs) = ground (arith, h, e) in
      inl (find_cached-Hits dev blockno i bs cs found)
]

-- `bget` panics exactly if no buffer caches the block and every buffer is in use.
pub bget-eq-none_iff :
    (dev blockno : ℕ) (bs : List Buf)
    → (bget dev blockno bs ≡ none) ↔ (Missing dev blockno bs × AllUsed bs)
unfolding bget
bget-eq-none_iff dev blockno bs =
    ground (arith, find_cached-Missing dev blockno bs, recycle-AllUsed dev blockno bs)
