-- ===== src/Fs/Inode/Hang.antt =====
-- What `bmap` makes of an inode's map, and how a fresh block enters it.
use mathlib.Core.Path.{subst}
use operating_systems.Prelude.{
  ℕ, ◌+◌, ◌-◌, ◌<◌, ◌≤◌, ◌≡◌, ◌≢◌, ◌⊎◌, inl, inr, refl, ap, sym, ◌∙◌, arith, true, false, ◌==◌, ltb,
  if◌then◌else◌, Bool-cases,
}
use operating_systems.Fs.{Superblock, Disk, bblock, word}
use operating_systems.Fs.Words.{word-put_word}
use operating_systems.Fs.Bitmap.{in_use, Takes}
use operating_systems.Fs.Inode.{Inode, ndirect, put, put_word, Mapped, done, panics, starved}
use operating_systems.Fs.Inode.Owned.{
  nth, maxfile, IsPlain, IsAddr, IsOwned, Enters, addr_ne, not_same, fresh-IsPlain, Takes-word,
  in_use-put_word,
}

module _ (sb : Superblock) where
  -- The words of the blocks in use that are none of the bitmap and not the inode's indirect block are
  -- as before.
  abbrev pub Keeps : Disk → Disk → Inode → Type 0
  Keeps s t ip =
      (b i : ℕ)
      → b < sb.size
      → in_use sb s b ≡ true
      → IsPlain sb b
      → b ≢ ip.addrs ndirect
      → word t b i ≡ word s b i

  -- How `bmap` of block `k` ends: with the block that is mapped there, or else without a block
  -- left, or with one that was free.
  abbrev pub MapsTo : ℕ → Disk → Inode → Mapped → Type 0
  MapsTo k s ip starved = ⊥
  MapsTo k s ip panics = maxfile ≤ k
  MapsTo k s ip (done r jp t) =
      (k < maxfile)
      × IsOwned sb t jp
      × Keeps s t ip
      × (((nth s ip k ≢ 0) × (r ≡ nth s ip k) × (t ≡ s) × (jp ≡ ip))
          ⊎ ((nth s ip k ≡ 0)
              × (((r ≡ 0)
                    × ((b : ℕ) → b < sb.size → in_use sb t b ≡ true)
                    × ((j : ℕ) → j < maxfile → nth t jp j ≡ nth s ip j))
                  ⊎ ((r ≢ 0)
                      × (r < sb.size)
                      × (in_use sb s r ≡ false)
                      × ((j : ℕ)
                          → j < maxfile
                          → nth t jp j ≡ (if k == j then r else nth s ip j))))))

  -- The indirect block is none of the bitmap.
  pub indirect-IsPlain :
      (s : Disk) (ip : Inode)
      → IsOwned sb s ip
      → ip.addrs ndirect ≢ 0
      → IsPlain sb (ip.addrs ndirect)
  indirect-IsPlain s ip o there = elim o.indirect [
    | inl hole ↦ absurd (there hole)
    | inr (_, _, plain) ↦ plain
  ]

  -- A block taken for a hole among the first twelve addresses.
  pub take_direct :
      (k r : ℕ) (s t : Disk) (ip : Inode)
      → IsOwned sb s ip
      → k < ndirect
      → r < sb.size
      → in_use sb s r ≡ false
      → Takes sb r s t
      → Enters sb k r s t ip (record ip { addrs = put k r ip.addrs })
  take_direct k r s t ip o low small fresh takes = record {
    map = λ j h. elim o.indirect [
      | inl hole ↦ ground (arith, low, hole)
      | inr (_, _, plain) ↦
          let ne = not_same sb _ _ (addr_ne sb (ip.addrs ndirect) r s o.indirect o.boot fresh) in
          let same : (r == ip.addrs ndirect) ≡ false = ground (arith, ne) in
          let w : word t (ip.addrs ndirect) (j - ndirect)
              ≡ word s (ip.addrs ndirect) (j - ndirect) =
            Takes-word sb r s t small takes (ip.addrs ndirect) (j - ndirect) plain ∙ rw same refl in
          ground (arith, low, ne, w)
    ];
    fresh = fresh;
    inside = small;
    plain = fresh-IsPlain sb r s o.sound fresh;
    used = takes.0;
    same_indirect = ground (arith, low);
  }

  -- A block taken for a hole in the indirect block.
  pub take_indirect :
      (k r : ℕ) (s t : Disk) (ip : Inode)
      → IsOwned sb s ip
      → ip.addrs ndirect ≢ 0
      → r < sb.size
      → in_use sb s r ≡ false
      → Takes sb r s t
      → Enters sb (ndirect + k) r s (put_word (ip.addrs ndirect) k r t) ip ip
  take_indirect k r s t ip o some_block small fresh takes =
      let b = ip.addrs ndirect in
      let plain = indirect-IsPlain s ip o some_block in
      record {
        map = λ j h.
            let ne = not_same sb _ _ (addr_ne sb b r s o.indirect o.boot fresh) in
            let there = not_same sb _ _ some_block in
            let same : (r == b) ≡ false = ground (arith, ne) in
            let here : (b == b) ≡ true = ground arith in
            let w : word t b (j - ndirect) ≡ word s b (j - ndirect) =
              Takes-word sb r s t small takes b (j - ndirect) plain ∙ rw same refl in
            let x : word (put_word b k r t) b (j - ndirect)
                ≡ (if k == j - ndirect then r else word s b (j - ndirect)) =
              word-put_word b k r t (omega (arith, small, o.small)) b (j - ndirect)
              ∙ rw (here, w) refl in
            ground (arith, ne, x, there);
        fresh = fresh;
        inside = small;
        plain = fresh-IsPlain sb r s o.sound fresh;
        used = λ c l. in_use-put_word sb b k r t plain c l ∙ takes.0 c l;
        same_indirect = refl;
      }

  pub busy_ne :
      (r b : ℕ) (s : Disk) → in_use sb s b ≡ true → in_use sb s r ≡ false → (r == b) ≡ false
  busy_ne r b s used fresh =
      not_same sb r b
        (λ e. let free = ap (in_use sb s) (sym e) ∙ fresh in ground (arith, used, free))

  pub behind_hole :
      (k : ℕ) (s : Disk) (ip : Inode) → ip.addrs ndirect ≡ 0 → nth s ip (ndirect + k) ≡ 0
  behind_hole k s ip hole = ground (arith, hole)

  -- A block taken for the indirect block: it is cleared, so that no block is mapped through it.
  module _ (r : ℕ) (s t : Disk) (ip : Inode) (o : IsOwned sb s ip) (hole : ip.addrs ndirect ≡ 0)
      (small : r < sb.size) (fresh : in_use sb s r ≡ false) (takes : Takes sb r s t) where
    abbrev pub hung : Inode
    hung = record ip { addrs = put ndirect r ip.addrs }

    hung_map : (j : ℕ) → j < maxfile → nth t hung j ≡ nth s ip j
    hung_map j h =
        let here : (r == r) ≡ true = ground arith in
        let w : word t r (j - ndirect) ≡ 0 =
          Takes-word sb r s t small takes r (j - ndirect) (fresh-IsPlain sb r s o.sound fresh)
          ∙ rw here refl in
        ground (arith, w, hole)

    kept_in_use : (b : ℕ) → b < sb.size → in_use sb s b ≡ true → in_use sb t b ≡ true
    kept_in_use b h used = elim (Bool-cases (r == b)) [
      | inl e ↦ takes.0 b h ∙ rw e refl
      | inr e ↦ takes.0 b h ∙ rw e used
    ]

    kept-IsAddr : (a : ℕ) → IsAddr sb s a → IsAddr sb t a
    kept-IsAddr a (inl z) = inl z
    kept-IsAddr a (inr (h, used, plain)) = inr (h, kept_in_use a h used, plain)

    hung_used : in_use sb t r ≡ true
    hung_used = let e : (r == r) ≡ true = ground arith in takes.0 r small ∙ rw e refl

    pub hung-IsOwned : IsOwned sb t hung
    hung-IsOwned = record {
      sound = λ b h.
          let (inside, used) = o.sound b h in (inside, kept_in_use (bblock sb b) inside used);
      some_block = o.some_block;
      small = o.small;
      boot = kept_in_use 0 o.some_block o.boot;
      indirect = inr (small, hung_used, fresh-IsPlain sb r s o.sound fresh);
      direct =
          λ k h. subst (IsAddr sb t) (sym (hung_map k h)) (kept-IsAddr (nth s ip k) (o.direct k h));
      apart = λ k h some_here e.
          addr_ne sb (nth s ip k) r s (o.direct k h) o.boot fresh (sym (hung_map k h) ∙ e);
      distinct = λ j k hj hk e some_here.
          o.distinct j k hj hk (sym (hung_map j hj) ∙ e ∙ hung_map k hk)
            (λ z. some_here (hung_map j hj ∙ z));
    }

    -- A block that is free behind the change was free before it.
    free_before : (b : ℕ) → b < sb.size → in_use sb t b ≡ false → in_use sb s b ≡ false
    free_before b h free = elim (Bool-cases (in_use sb s b)) [
      | inr e ↦ e
      | inl used ↦ let still = kept_in_use b h used in absurd (ground (arith, free, still))
    ]

    hung-Keeps : (u : Disk) → Keeps t u hung → Keeps s u ip
    hung-Keeps u keeps b i h used plain ne =
        keeps b i h (kept_in_use b h used) plain (λ e.
          let free : in_use sb s b ≡ false = ap (in_use sb s) e ∙ fresh in
          ground (arith, used, free))
        ∙ Takes-word sb r s t small takes b i plain
        ∙ rw (busy_ne r b s used fresh) refl

    pub MapsTo-hung :
        (k : ℕ) (m : Mapped)
        → ip.addrs ndirect ≡ 0
        → MapsTo (ndirect + k) t hung m
        → MapsTo (ndirect + k) s ip m
    MapsTo-hung k starved z h = h
    MapsTo-hung k panics z h = h
    MapsTo-hung k (done a jp u) z (small_k, owned, keeps, inl (there, at, same, same_inode)) =
        absurd (there (hung_map (ndirect + k) small_k ∙ behind_hole k s ip z))
    MapsTo-hung k (done a jp u) z (small_k, owned, keeps, inr (here, inl (none_left, full, map))) =
        (
          small_k,
          owned,
          hung-Keeps u keeps,
          inr (behind_hole k s ip z, inl (none_left, full, (λ j h. map j h ∙ hung_map j h))),
        )
    MapsTo-hung k (done a jp u) z
          (small_k, owned, keeps, inr (here, inr (some_block, inside, free, map))) =
        (
          small_k,
          owned,
          hung-Keeps u keeps,
          inr (
            behind_hole k s ip z,
            inr (
              some_block,
              inside,
              free_before a inside free,
              (λ j h. map j h ∙ ap (λ x. if ndirect + k == j then a else x) (hung_map j h)),
            ),
          ),
        )

  pub taken_nonzero : (r : ℕ) (s : Disk) → in_use sb s 0 ≡ true → in_use sb s r ≡ false → r ≢ 0
  taken_nonzero r s boot fresh e =
      let used : in_use sb s r ≡ true = ap (in_use sb s) e ∙ boot in ground (arith, used, fresh)

  pub first_hole : (k : ℕ) (s : Disk) (ip : Inode) → k < ndirect → ip.addrs k ≡ 0 → nth s ip k ≡ 0
  first_hole k s ip low hole = ground (arith, low, hole)

  pub through_word :
      (k : ℕ) (s : Disk) (ip : Inode)
      → ip.addrs ndirect ≢ 0
      → nth s ip (ndirect + k) ≡ word s (ip.addrs ndirect) k
  through_word k s ip there =
      let busy = not_same sb _ _ there in
      let e : ndirect + k - ndirect ≡ k = omega arith in
      let far : ltb (ndirect + k) ndirect ≡ false = ground arith in rw (far, busy, e) refl
