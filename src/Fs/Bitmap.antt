-- ===== src/Fs/Bitmap.antt =====
-- The bitmap as a set of blocks: what `balloc` and `bfree` do to it.
use mathlib.Core.Path.{subst}
use operating_systems.Prelude.{
  ℕ, zero, suc, ◌+◌, ◌-◌, ◌*◌, ◌/◌, ◌%◌, ◌<◌, ◌≤◌, ◌≡◌, ◌⊎◌, inl, inr, refl, ap, ◌∙◌, arith, Bool,
  true, false, ◌&&◌, Option, none, some, ◌==◌, ltb, if◌then◌else◌, ◌∷◌, Bool-cases, dec_lt,
}
use operating_systems.Fs.{
  Superblock, Disk, bblock, bpb, set_bit, free_bit, take_block, balloc_from, balloc, bfree,
}

module _ (sb : Superblock) where
  -- The block is marked in use.
  abbrev pub in_use : Disk → ℕ → Bool
  in_use s b = s.bits (bblock sb b) (b % bpb / 8) (b % 8)

  -- The blocks of the bitmap are blocks of the image and in use themselves, as it is made.
  abbrev pub IsSound : Disk → Type 0
  IsSound s = (b : ℕ) → b < sb.size → (bblock sb b < sb.size) × (in_use s (bblock sb b) ≡ true)

  in_use-at :
      (b bi : ℕ) (s : Disk)
      → b % bpb ≡ 0
      → bi < bpb
      → in_use s (b + bi) ≡ s.bits (bblock sb b) (bi / 8) (bi % 8)
  in_use-at b bi s aligned small =
      let block : (b + bi) / bpb ≡ b / bpb = omega arith in
      let byte : (b + bi) % bpb / 8 ≡ bi / 8 = omega arith in
      let bit : (b + bi) % 8 ≡ bi % 8 = omega arith in
      ap (λ x. s.bits (x + sb.bmapstart) ((b + bi) % bpb / 8) ((b + bi) % 8)) block
      ∙ ap (λ y. s.bits (bblock sb b) y ((b + bi) % 8)) byte
      ∙ ap (λ z. s.bits (bblock sb b) (bi / 8) z) bit

  -- Two numbers stand for the same bit only if they are equal.
  same_bit :
      (b c : ℕ)
      → (bblock sb b == bblock sb c && (b % bpb / 8 == c % bpb / 8 && b % 8 == c % 8)) ≡ (b == c)
  same_bit b c = ground arith

  -- What the inner loop finds.
  abbrev Finds : ℕ → ℕ → Disk → Option ℕ → Type 0
  Finds b bi s none = (j : ℕ) → bi ≤ j → j < bpb → b + j < sb.size → in_use s (b + j) ≡ true
  Finds b bi s (some k) =
      (bi ≤ k)
      × (k < bpb)
      × (b + k < sb.size)
      × (in_use s (b + k) ≡ false)
      × ((j : ℕ) → bi ≤ j → j < k → in_use s (b + j) ≡ true)

  used_step :
      (b bi j : ℕ) (s : Disk)
      → in_use s (b + bi) ≡ true
      → (bi + 1 ≤ j → in_use s (b + j) ≡ true)
      → bi ≤ j
      → in_use s (b + j) ≡ true
  used_step b bi j s here later l = elim (dec_lt bi j) [
    | yes more ↦ later (omega arith)
    | no same ↦ let e : b + j ≡ b + bi = omega arith in ap (in_use s) e ∙ here
  ]

  Finds-suc :
      (b bi : ℕ) (s : Disk) (o : Option ℕ)
      → in_use s (b + bi) ≡ true
      → Finds b (bi + 1) s o
      → Finds b bi s o
  Finds-suc b bi s none here h = λ j l small k. used_step b bi j s here (λ m. h j m small k) l
  Finds-suc b bi s (some k) here (l, small, k_in, clear, before) =
      (omega arith, small, k_in, clear, (λ j m h. used_step b bi j s here (λ n. before j n h) m))

  free_bit-Finds :
      (n b bi : ℕ) (s : Disk) → n + bi ≡ bpb → b % bpb ≡ 0 → Finds b bi s (free_bit sb n b bi s)
  unfolding free_bit
  free_bit-Finds zero b bi s whole aligned = λ j l h k. absurd (omega arith)
  free_bit-Finds (suc n) b bi s whole aligned =
      let at = in_use-at b bi s aligned (omega arith) in
      elim (Bool-cases (ltb (b + bi) sb.size)) [
        | inr over ↦ rw over (λ j l h k. absurd (ground (arith, over)))
        | inl inside ↦ rw inside (elim (Bool-cases (s.bits (bblock sb b) (bi / 8) (bi % 8))) [
          | inr clear ↦ rw clear (
            omega arith,
            omega arith,
            ground (arith, inside),
            at ∙ clear,
            (λ j l h. absurd (omega arith)),
          )
          | inl set ↦ rw set (
              Finds-suc b bi s (free_bit sb n b (bi + 1) s) (at ∙ set)
                (free_bit-Finds n b (bi + 1) s (omega arith) aligned))
        ])
      ]

  -- `balloc` marks `r` in use and clears it, and leaves the other blocks alone.
  abbrev pub Takes : ℕ → Disk → Disk → Type 0
  Takes r s t =
      ((b : ℕ) → b < sb.size → in_use t b ≡ (if r == b then true else in_use s b))
      × ((b y k : ℕ)
          → t.bits b y k ≡ (
              if r == b
              then false
              else set_bit (bblock sb r) (r % bpb / 8) (r % 8) true s.bits b y k))
      × (t.logged ≡ r ∷ bblock sb r ∷ s.logged)

  pub no_map_block :
      (r c : ℕ) (s : Disk)
      → IsSound s
      → in_use s r ≡ false
      → c < sb.size
      → (r == bblock sb c) ≡ false
  no_map_block r c s sound clear l = elim (Bool-cases (r == bblock sb c)) [
    | inr e ↦ e
    | inl e ↦
        let same : r ≡ bblock sb c = ground (arith, e) in
        let used : in_use s r ≡ true = ap (in_use s) same ∙ (sound c l).1 in
        absurd (ground (arith, clear, used))
  ]

  take_block-Takes :
      (b bi : ℕ) (s : Disk)
      → IsSound s
      → b % bpb ≡ 0
      → bi < bpb
      → b + bi < sb.size
      → in_use s (b + bi) ≡ false
      → Takes (b + bi) s (take_block sb b bi s)
  take_block-Takes b bi s sound aligned small inside clear = (
    (λ c l.
        let other : (b + bi == bblock sb c) ≡ false = no_map_block (b + bi) c s sound clear l in
        let same : (bblock sb b == bblock sb c && (bi / 8 == c % bpb / 8 && bi % 8 == c % 8))
            ≡ (b + bi == c) =
          ground arith in
        rw (other, same) refl),
    (λ c y k.
        let block : bblock sb (b + bi) ≡ bblock sb b = omega arith in
        let byte : (b + bi) % bpb / 8 ≡ bi / 8 = omega arith in
        let bit : (b + bi) % 8 ≡ bi % 8 = omega arith in rw (block, byte, bit) refl),
    let e : bblock sb b ≡ bblock sb (b + bi) = omega arith in ap (λ k. (b + bi) ∷ k ∷ s.logged) e,
  )

  -- How `balloc` ends.
  abbrev pub Allocates : Disk → Option (ℕ × Disk) → Type 0
  Allocates s none = ⊥
  Allocates s (some (r, t)) =
      ((r ≡ 0) × (t ≡ s) × ((b : ℕ) → b < sb.size → in_use s b ≡ true))
      ⊎ ((r < sb.size) × (in_use s r ≡ false) × ((b : ℕ) → b < r → in_use s b ≡ true) × Takes r s t)

  -- A round of the outer loop, and the rounds behind it.
  Allocates-round :
      (b : ℕ) (s : Disk) (rest : Option (ℕ × Disk)) (o : Option ℕ)
      → IsSound s
      → b % bpb ≡ 0
      → ((c : ℕ) → c < b → c < sb.size → in_use s c ≡ true)
      → Finds b 0 s o
      → (((c : ℕ) → c < b + bpb → c < sb.size → in_use s c ≡ true) → Allocates s rest)
      → Allocates s (elim o [ none ↦ rest | some bi ↦ some (b + bi, take_block sb b bi s) ])
  Allocates-round b s rest none sound aligned before finds go = go (λ c l small. elim (dec_lt c b) [
    | yes early ↦ before c early small
    | no late ↦
        let e : b + (c - b) ≡ c = omega arith in
        subst (λ k. in_use s k ≡ true) e (finds (c - b) (omega arith) (omega arith) (omega arith))
  ])
  Allocates-round b s rest (some bi) sound aligned before (l, small, inside, clear, used) go = inr (
    inside,
    clear,
    (λ c h. elim (dec_lt c b) [
      | yes early ↦ before c early (omega arith)
      | no late ↦
          let e : b + (c - b) ≡ c = omega arith in
          subst (λ k. in_use s k ≡ true) e (used (c - b) (omega arith) (omega arith))
    ]),
    take_block-Takes b bi s sound aligned small inside clear,
  )

  balloc_from-Allocates :
      (fuel b : ℕ) (s : Disk)
      → IsSound s
      → b % bpb ≡ 0
      → ((c : ℕ) → c < b → c < sb.size → in_use s c ≡ true)
      → b < sb.size + bpb
      → sb.size + bpb ≤ b + fuel * bpb
      → Allocates s (balloc_from sb fuel b s)
  unfolding balloc_from
  balloc_from-Allocates zero b s sound aligned before low enough = absurd (omega arith)
  balloc_from-Allocates (suc fuel) b s sound aligned before low enough =
      elim (Bool-cases (ltb b sb.size)) [
        | inr over ↦ rw over (inl (refl, refl, (λ c l. before c (ground (arith, over)) l)))
        | inl inside ↦ rw inside (
            Allocates-round b s (balloc_from sb fuel (b + bpb) s) (free_bit sb bpb b 0 s) sound
              aligned before (free_bit-Finds bpb b 0 s (omega arith) aligned)
              (λ h.
                balloc_from-Allocates fuel (b + bpb) s sound (omega arith) h
                  (ground (arith, inside)) (omega arith)))
      ]

  -- `balloc` with fuel for each block of the bitmap, on a disk whose bitmap's own blocks are in use,
  -- ends. It returns 0 and changes nothing exactly when every block is in use; otherwise it returns
  -- the least block that is not, marks it and no other, clears it and no other, and logs the block
  -- of the bitmap and the block itself.
  pub balloc-Allocates :
      (fuel : ℕ) (s : Disk) → IsSound s → sb.size / bpb + 2 ≤ fuel → Allocates s (balloc sb fuel s)
  unfolding balloc
  balloc-Allocates fuel s sound enough =
      balloc_from-Allocates fuel 0 s sound refl (λ c l. absurd (omega arith)) (omega arith)
        (omega arith)

  -- How `bfree` ends.
  abbrev pub Frees : ℕ → Disk → Option Disk → Type 0
  Frees r s none = in_use s r ≡ false
  Frees r s (some t) =
      (in_use s r ≡ true)
      × ((b : ℕ) → in_use t b ≡ (if r == b then false else in_use s b))
      × ((b y k : ℕ)
          → t.bits b y k ≡ set_bit (bblock sb r) (r % bpb / 8) (r % 8) false s.bits b y k)

  -- `bfree` panics exactly at a block that is not in use; otherwise it marks it free, and no other.
  pub bfree-Frees : (r : ℕ) (s : Disk) → Frees r s (bfree sb r s)
  unfolding bfree
  bfree-Frees r s =
      let bit : r % bpb % 8 ≡ r % 8 = omega arith in
      rw bit (elim (Bool-cases (in_use s r)) [
        | inr clear ↦ rw clear clear
        | inl used ↦ rw used (used, (λ b. rw (same_bit r b) refl), (λ b y k. refl))
      ])
