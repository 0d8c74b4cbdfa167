-- ===== src/Fs/Inode/Owned.antt =====
-- An inode that owns its blocks, and a change of its map.
use mathlib.Core.Path.{subst}
use operating_systems.Prelude.{
  ℕ, ◌-◌, ◌^◌, ◌≤◌, ◌<◌, ◌≡◌, ◌≢◌, ◌⊎◌, inl, inr, refl, ap, sym, ◌∙◌, arith, true, false, ◌==◌, ltb,
  if◌then◌else◌, Bool-cases,
}
use operating_systems.Fs.{Superblock, Disk, bblock, word}
use operating_systems.Fs.Words.{word_zero, word_cong}
use operating_systems.Fs.Bitmap.{in_use, IsSound, Takes, no_map_block}
use operating_systems.Fs.Inode.{Inode, ndirect, put_word}

-- Block `k` of an inode, 0 for a hole.
abbrev pub nth : Disk → Inode → ℕ → ℕ
nth s ip k =
    if ltb k ndirect
    then ip.addrs k
    else if ip.addrs ndirect == 0
    then 0
    else word s (ip.addrs ndirect) (k - ndirect)

-- `MAXFILE`
abbrev pub maxfile : ℕ
maxfile = 268

module _ (sb : Superblock) where
  -- A block that is none of the bitmap.
  abbrev pub IsPlain : ℕ → Type 0
  IsPlain b = (c : ℕ) → c < sb.size → (bblock sb c == b) ≡ false

  -- An address of the inode: a hole, or a block in use that is none of the bitmap.
  abbrev pub IsAddr : Disk → ℕ → Type 0
  IsAddr s a = (a ≡ 0) ⊎ ((a < sb.size) × (in_use sb s a ≡ true) × IsPlain a)

  -- A free block is none of the bitmap.
  pub fresh-IsPlain : (r : ℕ) (s : Disk) → IsSound sb s → in_use sb s r ≡ false → IsPlain r
  fresh-IsPlain r s sound free c l =
      let ne = no_map_block sb r c s sound free l in ground (arith, ne)

  -- The words of a block that is none of the bitmap behind `balloc`.
  pub Takes-word :
      (r : ℕ) (s t : Disk)
      → r < sb.size
      → Takes sb r s t
      → (b i : ℕ) → IsPlain b
      → word t b i ≡ (if r == b then 0 else word s b i)
  Takes-word r s t small (used, bits, logged) b i plain = elim (Bool-cases (r == b)) [
    | inl e ↦ rw e (word_zero t b i (λ y k. bits b y k ∙ rw e refl))
    | inr e ↦ rw e (word_cong s t b i (λ y k at l. bits b y k ∙ rw (e, plain r small) refl))
  ]

  -- A word of such a block is no part of the bitmap.
  pub in_use-put_word :
      (b i v : ℕ) (s : Disk)
      → IsPlain b
      → (c : ℕ) → c < sb.size
      → in_use sb (put_word b i v s) c ≡ in_use sb s c
  in_use-put_word b i v s plain c h =
      let other : (b == bblock sb c) ≡ false = ground (arith, plain c h) in rw other refl

  -- The inode's blocks are in use, are none of the bitmap, and differ from each other and from its
  -- indirect block. In use are the blocks of the bitmap, and block 0. `size` is a `uint`.
  pub record IsOwned (s : Disk) (ip : Inode) : Type 0 where
    pub sound : IsSound sb s
    pub some_block : 0 < sb.size
    pub small : sb.size ≤ 2 ^ 32
    pub boot : in_use sb s 0 ≡ true
    pub indirect : IsAddr s (ip.addrs ndirect)
    pub direct : (k : ℕ) → k < maxfile → IsAddr s (nth s ip k)
    pub apart : (k : ℕ) → k < maxfile → nth s ip k ≢ 0 → nth s ip k ≢ ip.addrs ndirect
    pub distinct :
        (j k : ℕ) → j < maxfile → k < maxfile → nth s ip j ≡ nth s ip k → nth s ip j ≢ 0 → j ≡ k

  -- What a change of the map to `r` at block `k` does.
  pub record Enters (k r : ℕ) (s t : Disk) (ip jp : Inode) : Type 0 where
    pub map : (j : ℕ) → j < maxfile → nth t jp j ≡ (if k == j then r else nth s ip j)
    pub fresh : in_use sb s r ≡ false
    pub inside : r < sb.size
    pub plain : IsPlain r
    pub used : (b : ℕ) → b < sb.size → in_use sb t b ≡ (if r == b then true else in_use sb s b)
    pub same_indirect : jp.addrs ndirect ≡ ip.addrs ndirect

  -- Two addresses of which the second is a block that was free.
  pub addr_ne :
      (a r : ℕ) (s : Disk) → IsAddr s a → in_use sb s 0 ≡ true → in_use sb s r ≡ false → a ≢ r
  addr_ne a r s (inl hole) boot fresh e =
      let zero_free : in_use sb s 0 ≡ false = ap (in_use sb s) (sym hole ∙ e) ∙ fresh in
      ground (arith, boot, zero_free)
  addr_ne a r s (inr (small, used, plain)) boot fresh e =
      let free : in_use sb s a ≡ false = ap (in_use sb s) e ∙ fresh in ground (arith, used, free)

  module _ (k r : ℕ) (s t : Disk) (ip jp : Inode) (o : IsOwned s ip)
      (e : Enters k r s t ip jp) where
    mono : (b : ℕ) → b < sb.size → in_use sb s b ≡ true → in_use sb t b ≡ true
    mono b small used = elim (Bool-cases (r == b)) [
      | inl h ↦ e.used b small ∙ rw h refl
      | inr h ↦ e.used b small ∙ rw h used
    ]

    IsAddr-mono : (a : ℕ) → IsAddr s a → IsAddr t a
    IsAddr-mono a (inl hole) = inl hole
    IsAddr-mono a (inr (small, used, plain)) = inr (small, mono a small used, plain)

    taken : in_use sb t r ≡ true
    taken = let h : (r == r) ≡ true = ground arith in e.used r e.inside ∙ rw h refl

    -- What stands at a block behind the change.
    at_here : (j : ℕ) → j < maxfile → (k == j) ≡ true → nth t jp j ≡ r
    at_here j small h = e.map j small ∙ rw h refl

    at_other : (j : ℕ) → j < maxfile → (k == j) ≡ false → nth t jp j ≡ nth s ip j
    at_other j small h = e.map j small ∙ rw h refl

    direct_after : (j : ℕ) → j < maxfile → IsAddr t (nth t jp j)
    direct_after j small = elim (Bool-cases (k == j)) [
      | inl h ↦ subst (IsAddr t) (sym (at_here j small h)) (inr (e.inside, taken, e.plain))
      | inr h ↦
          subst (IsAddr t) (sym (at_other j small h)) (IsAddr-mono (nth s ip j) (o.direct j small))
    ]

    apart_after : (j : ℕ) → j < maxfile → nth t jp j ≢ 0 → nth t jp j ≢ jp.addrs ndirect
    apart_after j small some_block same = elim (Bool-cases (k == j)) [
      | inl h ↦
          addr_ne (ip.addrs ndirect) r s o.indirect o.boot e.fresh
            (sym (sym (at_here j small h) ∙ same ∙ e.same_indirect))
      | inr h ↦
          o.apart j small (λ z. some_block (at_other j small h ∙ z))
            (sym (at_other j small h) ∙ same ∙ e.same_indirect)
    ]

    distinct_after :
        (i j : ℕ) → i < maxfile → j < maxfile → nth t jp i ≡ nth t jp j → nth t jp i ≢ 0 → i ≡ j
    distinct_after i j si sj same some_block = elim (Bool-cases (k == i)) [
      | inl hi ↦ elim (Bool-cases (k == j)) [
        | inl hj ↦ ground (arith, hi, hj)
        | inr hj ↦ absurd (
            addr_ne (nth s ip j) r s (o.direct j sj) o.boot e.fresh
              (sym (at_other j sj hj) ∙ sym same ∙ at_here i si hi))
      ]
      | inr hi ↦ elim (Bool-cases (k == j)) [
        | inl hj ↦ absurd (
            addr_ne (nth s ip i) r s (o.direct i si) o.boot e.fresh
              (sym (at_other i si hi) ∙ same ∙ at_here j sj hj))
        | inr hj ↦
            o.distinct i j si sj (sym (at_other i si hi) ∙ same ∙ at_other j sj hj)
              (λ z. some_block (at_other i si hi ∙ z))
      ]
    ]

    pub Enters-IsOwned : IsOwned t jp
    Enters-IsOwned = record {
      sound = λ b small.
          let (inside, used) = o.sound b small in (inside, mono (bblock sb b) inside used);
      some_block = o.some_block;
      small = o.small;
      boot = mono 0 o.some_block o.boot;
      indirect = subst (IsAddr t) (sym e.same_indirect) (IsAddr-mono (ip.addrs ndirect) o.indirect);
      direct = direct_after;
      apart = apart_after;
      distinct = distinct_after;
    }

  pub not_same : (a b : ℕ) → a ≢ b → (a == b) ≡ false
  not_same a b h = ground (arith, h)
