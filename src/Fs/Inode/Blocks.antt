-- ===== src/Fs/Inode/Blocks.antt =====
-- `bmap` refines a map from the numbers of an inode's blocks to the blocks of the disk.
use mathlib.Core.Path.{subst}
use operating_systems.Prelude.{
  ℕ, ◌+◌, ◌-◌, ◌/◌, ◌<◌, ◌≤◌, ◌≡◌, ◌≢◌, inl, inr, refl, sym, ◌∙◌, arith, Option, none, some, ◌==◌,
  ltb, Bool-cases,
}
use operating_systems.Fs.{Superblock, Disk, bpb, word, balloc}
use operating_systems.Fs.Words.{word-put_word}
use operating_systems.Fs.Bitmap.{Allocates, balloc-Allocates}
use operating_systems.Fs.Inode.{
  Inode, ndirect, nindirect, put_word, alloc_addr, load_addr, alloc_word, load_word, through, bmap,
}
use operating_systems.Fs.Inode.Owned.{nth, IsOwned, not_same, Enters-IsOwned, Takes-word}
use operating_systems.Fs.Inode.Hang.{
  MapsTo, take_direct, take_indirect, busy_ne, behind_hole, hung, hung-IsOwned, MapsTo-hung,
  taken_nonzero, first_hole, through_word,
}

module _ (sb : Superblock) (fuel : ℕ) (enough : sb.size / bpb + 2 ≤ fuel) where
  alloc_addr-MapsTo :
      (k : ℕ) (s : Disk) (ip : Inode) (a : Option (ℕ × Disk))
      → IsOwned sb s ip
      → k < ndirect
      → ip.addrs k ≡ 0
      → Allocates sb s a
      → MapsTo sb k s ip (alloc_addr sb fuel k ip a)
  alloc_addr-MapsTo k s ip none o low hole h = h
  alloc_addr-MapsTo k s ip (some (r, t)) o low hole (inl (zero_block, same, full)) =
      rw (zero_block, same)
        (
          omega arith,
          o,
          (λ b i h used plain ne. refl),
          inr (first_hole sb k s ip low hole, inl (refl, full, (λ j h. refl))),
        )
  alloc_addr-MapsTo k s ip (some (r, t)) o low hole (inr (small, fresh, least, takes)) =
      let busy = not_same sb r 0 (taken_nonzero sb r s o.boot fresh) in
      let e = take_direct sb k r s t ip o low small fresh takes in
      rw busy (
        omega arith,
        Enters-IsOwned sb k r s t ip _ o e,
        (λ b i h used plain ne.
            Takes-word sb r s t small takes b i plain ∙ rw (busy_ne sb r b s used fresh) refl),
        inr (
          first_hole sb k s ip low hole,
          inr (taken_nonzero sb r s o.boot fresh, small, fresh, e.map),
        ),
      )

  load_addr-MapsTo :
      (k : ℕ) (s : Disk) (ip : Inode)
      → IsOwned sb s ip
      → k < ndirect
      → MapsTo sb k s ip (load_addr sb fuel k ip s)
  unfolding load_addr
  load_addr-MapsTo k s ip o low =
      let direct : nth s ip k ≡ ip.addrs k = ground (arith, low) in
      elim (Bool-cases (ip.addrs k == 0)) [
        | inl hole ↦ rw hole (
            alloc_addr-MapsTo k s ip (balloc sb fuel s) o low (ground (arith, hole))
              (balloc-Allocates sb fuel s o.sound enough))
        | inr there ↦ rw there (
          omega arith,
          o,
          (λ b i h used plain ne. refl),
          inl ((λ z. ground (arith, there, direct, z)), sym direct, refl, refl),
        )
      ]

  alloc_word-MapsTo :
      (k : ℕ) (s : Disk) (ip : Inode) (a : Option (ℕ × Disk))
      → IsOwned sb s ip
      → k < nindirect
      → ip.addrs ndirect ≢ 0
      → word s (ip.addrs ndirect) k ≡ 0
      → Allocates sb s a
      → MapsTo sb (ndirect + k) s ip (alloc_word sb fuel (ip.addrs ndirect) k ip a)
  alloc_word-MapsTo k s ip none o low there hole h = h
  alloc_word-MapsTo k s ip (some (r, t)) o low there hole (inl (zero_block, same, full)) =
      rw (zero_block, same)
        (
          omega arith,
          o,
          (λ b i h used plain ne. refl),
          inr (through_word sb k s ip there ∙ hole, inl (refl, full, (λ j h. refl))),
        )
  alloc_word-MapsTo k s ip (some (r, t)) o low there hole (inr (small, fresh, least, takes)) =
      let busy = not_same sb r 0 (taken_nonzero sb r s o.boot fresh) in
      let e = take_indirect sb k r s t ip o there small fresh takes in
      rw busy (
        omega arith,
        Enters-IsOwned sb (ndirect + k) r s (put_word (ip.addrs ndirect) k r t) ip ip o e,
        (λ b i h used plain ne.
            let other = not_same sb (ip.addrs ndirect) b (λ z. ne (sym z)) in
            word-put_word (ip.addrs ndirect) k r t (omega (arith, small, o.small)) b i
            ∙ rw other (
                Takes-word sb r s t small takes b i plain ∙ rw (busy_ne sb r b s used fresh) refl)),
        inr (
          through_word sb k s ip there ∙ hole,
          inr (taken_nonzero sb r s o.boot fresh, small, fresh, e.map),
        ),
      )

  load_word-MapsTo :
      (k : ℕ) (s : Disk) (ip : Inode)
      → IsOwned sb s ip
      → k < nindirect
      → ip.addrs ndirect ≢ 0
      → MapsTo sb (ndirect + k) s ip (load_word sb fuel (ip.addrs ndirect) k ip s)
  unfolding load_word
  load_word-MapsTo k s ip o low there =
      let mapped = through_word sb k s ip there in
      elim (Bool-cases (word s (ip.addrs ndirect) k == 0)) [
        | inl hole ↦ rw hole (
            alloc_word-MapsTo k s ip (balloc sb fuel s) o low there (ground (arith, hole))
              (balloc-Allocates sb fuel s o.sound enough))
        | inr full ↦ rw full (
          omega arith,
          o,
          (λ b i h used plain ne. refl),
          inl ((λ z. ground (arith, full, mapped, z)), sym mapped, refl, refl),
        )
      ]

  -- The indirect block is a hole.
  through_hole :
      (k : ℕ) (s : Disk) (ip : Inode) (a : Option (ℕ × Disk))
      → IsOwned sb s ip
      → k < nindirect
      → ip.addrs ndirect ≡ 0
      → Allocates sb s a
      → MapsTo sb (ndirect + k) s ip (through sb fuel k (alloc_addr sb fuel ndirect ip a))
  through_hole k s ip none o low hole h = h
  through_hole k s ip (some (r, t)) o low hole (inl (zero_block, same, full)) =
      rw (zero_block, same)
        (
          omega arith,
          o,
          (λ b i h used plain ne. refl),
          inr (behind_hole sb k s ip hole, inl (refl, full, (λ j h. refl))),
        )
  through_hole k s ip (some (r, t)) o low hole (inr (small, fresh, least, takes)) =
      let nonzero = taken_nonzero sb r s o.boot fresh in
      let busy = not_same sb r 0 nonzero in
      rw busy (
        rw busy (
          MapsTo-hung sb r s t ip o hole small fresh takes k
            (load_word sb fuel r k (hung sb r s t ip o hole small fresh takes) t) hole
            (load_word-MapsTo k t (hung sb r s t ip o hole small fresh takes)
              (hung-IsOwned sb r s t ip o hole small fresh takes) low nonzero)))

  through-MapsTo :
      (k : ℕ) (s : Disk) (ip : Inode)
      → IsOwned sb s ip
      → k < nindirect
      → MapsTo sb (ndirect + k) s ip (through sb fuel k (load_addr sb fuel ndirect ip s))
  unfolding load_addr
  through-MapsTo k s ip o low = elim (Bool-cases (ip.addrs ndirect == 0)) [
    | inl hole ↦ rw hole (
        through_hole k s ip (balloc sb fuel s) o low (ground (arith, hole))
          (balloc-Allocates sb fuel s o.sound enough))
    | inr there ↦ rw (there, there) (load_word-MapsTo k s ip o low (λ z. ground (arith, there, z)))
  ]

  -- `bmap` of block `k` of an inode whose blocks are in use, are none of the bitmap and differ from
  -- each other, with fuel for each block of the bitmap. It panics exactly from `MAXFILE` on. Otherwise it returns the block
  -- that is mapped at `k` and changes nothing; or, at a hole, 0 without a change of the map and with every block in use, or
  -- else a block that was free, which then is mapped at `k`, and no other entry changes. The
  -- inode's blocks are so again, and the words of the blocks in use that are none of the bitmap, but
  -- for the inode's indirect block, are as before.
  pub bmap-MapsTo :
      (k : ℕ) (s : Disk) (ip : Inode) → IsOwned sb s ip → MapsTo sb k s ip (bmap sb fuel ip k s)
  unfolding bmap
  bmap-MapsTo k s ip o = elim (Bool-cases (ltb k ndirect)) [
    | inl low ↦ rw low (load_addr-MapsTo k s ip o (ground (arith, low)))
    | inr high ↦ rw high (elim (Bool-cases (ltb (k - ndirect) nindirect)) [
      | inl low ↦
          let e : ndirect + (k - ndirect) ≡ k = ground (arith, high) in
          rw low (
            subst
              (λ n.
                MapsTo sb n s ip (through sb fuel (k - ndirect) (load_addr sb fuel ndirect ip s)))
              e (through-MapsTo (k - ndirect) s ip o (ground (arith, low))))
      | inr far ↦ rw far (ground (arith, high, far))
    ])
  ]
