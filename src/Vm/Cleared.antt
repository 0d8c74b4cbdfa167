-- ===== src/Vm/Cleared.antt =====
-- One round of the loop of `uvmunmap`: it clears an entry, and frees the page behind it.
use mathlib.Core.Path.{subst}
use operating_systems.Prelude.{
  ℕ, ◌+◌, ◌<◌, ◌≡◌, refl, ap, sym, ◌∙◌, arith, Bool, true, false, ◌&&◌, ◌||◌, not, Option, none,
  some, ◌==◌, leb, if◌then◌else◌, Bool-cases, Option-cases, inl, inr, ◌%◌, ◌/◌, ◌^◌,
}
use operating_systems.Kalloc.{pgsize, is_bad, kfree, Kmem, update, freed_junk}
use operating_systems.Vm.{
  Machine, put, px, maxva, is_valid, pte2pa, pte_flags, freed_bytes, freed_ptes, free_page,
}
use operating_systems.Vm.Tree.{table, IsTree, IsApart}
use operating_systems.Vm.Freed.{table-freed, entry-freed, freed-IsTree, freed-IsApart}
use operating_systems.Vm.View.{
  view, slot_of, walk-reads, found_entry, missing_entry, entered-IsTree, entered-IsApart,
  view-entered,
}
use operating_systems.Vm.Pages.{unmap_one}

-- An entry at which `uvmunmap` panics: it is not mapped, it points to a table, or the page that it
-- points to is to be freed and cannot be.
abbrev pub refuses : ℕ → Bool → ℕ → Bool
refuses end do_free pte =
    not (is_valid pte) || (pte_flags pte == 1 || do_free && is_bad end (pte2pa pte))

-- The allocator and the bytes.
abbrev pub Store : Type 0
Store = Kmem × (ℕ → ℕ)

-- A page in front of the free list, and what that leaves in it.
abbrev pub push : ℕ → Store → Store
push p k = (
  record { freelist = p; next = update (update k.0.next p freed_junk) p k.0.freelist },
  freed_bytes p k.0.freelist k.1,
)

module _ (end root : ℕ) (do_free : Bool) where
  -- A round.
  abbrev pub UnmapsOne : ℕ → Machine → Option Machine → Type 0
  UnmapsOne a s none = refuses end do_free (view s.ptes root (a / pgsize)) ≡ true
  UnmapsOne a s (some t) =
      (refuses end do_free (view s.ptes root (a / pgsize)) ≡ false)
      × ((vpn : ℕ)
          → vpn < 2 ^ 26
          → view t.ptes root vpn ≡ (if a / pgsize == vpn then 0 else view s.ptes root vpn))
      × IsTree t.ptes root
      × ((t.kmem, t.bytes) ≡ (
          if do_free
          then push (pte2pa (view s.ptes root (a / pgsize))) (s.kmem, s.bytes)
          else (s.kmem, s.bytes)))
      × ((other : ℕ) → IsApart s.ptes root other → IsApart t.ptes root other)

  -- The pages of a range that are to be freed are no tables.
  abbrev pub LeavesApart : ℕ → ℕ → Machine → Type 0
  LeavesApart first count s =
      do_free ≡ true
      → (i : ℕ) → i < count
      → refuses end do_free (view s.ptes root (first + i)) ≡ false
      → IsApart s.ptes root (pte2pa (view s.ptes root (first + i)))

  -- A page is freed, and its entry cleared.
  freed_entry :
      (a q : ℕ) (s : Machine) (t : IsTree s.ptes root)
      (at : table s.ptes root (px 2 a) (px 1 a) ≡ some q)
      → a < maxva
      → (page next : ℕ) → IsApart s.ptes root page
      → let m = put q (px 0 a) 0 (freed_ptes page next s.ptes) in
        ((vpn : ℕ)
          → vpn < 2 ^ 26
          → view m root vpn ≡ (if a / pgsize == vpn then 0 else view s.ptes root vpn))
        × IsTree m root
        × ((other : ℕ) → IsApart s.ptes root other → IsApart m root other)
  freed_entry a q s t at small page next b =
      let s1 : Machine = record s { ptes = freed_ptes page next s.ptes } in
      let t1 : IsTree s1.ptes root = freed-IsTree s.ptes root page next b t in
      let at1 : table s1.ptes root (px 2 a) (px 1 a) ≡ some q =
        table-freed s.ptes root page next b (px 2 a) (px 1 a) ∙ at in
      (
        (λ vpn h.
            view-entered root a 0 q s1 t1 at1 small vpn h
            ∙ ap (λ x. if a / pgsize == vpn then 0 else x)
                (entry-freed s.ptes root page next b (vpn / 2 ^ 18 % 512) (vpn / 2 ^ 9 % 512)
                  (vpn % 512))),
        entered-IsTree root a 0 q s1 t1 at1,
        (λ other c.
            entered-IsApart root a 0 q s1 t1 at1 other
              (freed-IsApart s.ptes root page next b other c)),
      )

  leaf-IsApart :
      (a q : ℕ) (s : Machine)
      → LeavesApart (a / pgsize) 1 s
      → view s.ptes root (a / pgsize) ≡ s.ptes q (px 0 a)
      → do_free ≡ true
      → refuses end true (view s.ptes root (a / pgsize)) ≡ false
      → IsApart s.ptes root (pte2pa (s.ptes q (px 0 a)))
  leaf-IsApart a q s leaf_apart e give ok =
      let here : a / pgsize + 0 ≡ a / pgsize = omega arith in
      let fine : refuses end do_free (view s.ptes root (a / pgsize + 0)) ≡ false =
        rw (give, here) ok in
      subst (λ n. IsApart s.ptes root (pte2pa n)) (ap (view s.ptes root) here ∙ e)
        (leaf_apart give 0 (omega arith) fine)

  -- The part of the round behind `walk`.
  cleared :
      (a q : ℕ) (s : Machine) (t : IsTree s.ptes root)
      → table s.ptes root (px 2 a) (px 1 a) ≡ some q
      → a < maxva
      → LeavesApart (a / pgsize) 1 s
      → UnmapsOne a s (
          let pte = s.ptes q (px 0 a) in
          if not (is_valid pte)
          then none
          else if pte_flags pte == 1
          then none
          else if do_free
          then elim (free_page end (pte2pa pte) s) [
            | none ↦ none
            | some s1 ↦ some (record s1 { ptes = put q (px 0 a) 0 s1.ptes })
          ]
          else some (record s { ptes = put q (px 0 a) 0 s.ptes }))
  unfolding kfree
  cleared a q s t at small leaf_apart =
      let e = found_entry root a q s at in
      let free : IsTree (put q (px 0 a) 0 s.ptes) root = entered-IsTree root a 0 q s t at in
      let one = view-entered root a 0 q s t at small in
      elim (Bool-cases (is_valid (s.ptes q (px 0 a)))) [
        | inr unmapped ↦ rw unmapped (ap (refuses end do_free) e ∙ rw unmapped refl)
        | inl there ↦ elim (Bool-cases (pte_flags (s.ptes q (px 0 a)) == 1)) [
          | inl table_ptr ↦
              rw (there, table_ptr) (ap (refuses end do_free) e ∙ rw (there, table_ptr) refl)
          | inr leaf ↦
              rw (there, leaf)
                (elim (Bool-cases do_free) [
                  | inr keep ↦ rw keep (
                    ap (refuses end false) e ∙ rw (there, leaf) refl,
                    one,
                    free,
                    refl,
                    entered-IsApart root a 0 q s t at,
                  )
                  | inl give ↦
                      rw give (elim (Bool-cases (is_bad end (pte2pa (s.ptes q (px 0 a))))) [
                        | inl bad ↦ rw bad (ap (refuses end true) e ∙ rw (there, leaf, bad) refl)
                        | inr good ↦
                            let ok : refuses end true (view s.ptes root (a / pgsize)) ≡ false =
                              ap (refuses end true) e ∙ rw (there, leaf, good) refl in
                            let page_apart : IsApart s.ptes root (pte2pa (s.ptes q (px 0 a))) =
                              leaf-IsApart a q s leaf_apart e give ok in
                            let (after, free1, others) =
                              freed_entry a q s t at small (pte2pa (s.ptes q (px 0 a)))
                                s.kmem.freelist page_apart in
                            rw good (
                              ok,
                              after,
                              free1,
                              ap (λ x. push (pte2pa x) (s.kmem, s.bytes)) (sym e),
                              others,
                            )
                      ])
                ])
        ]
      ]

  pub unmap_one-UnmapsOne :
      (a : ℕ) (s : Machine)
      → IsTree s.ptes root
      → a < maxva
      → LeavesApart (a / pgsize) 1 s
      → UnmapsOne a s (unmap_one end root a do_free s)
  unfolding unmap_one slot_of
  unmap_one-UnmapsOne a s t small leaf_apart =
      let low : leb maxva a ≡ false = ground arith in
      rw (low, walk-reads root a s)
        (elim (Option-cases (table s.ptes root (px 2 a) (px 1 a))) [
          | inl gone ↦
              rw gone (ap (refuses end do_free) (missing_entry root a s gone) ∙ ground arith)
          | inr (q, at) ↦ rw at (cleared a q s t at small leaf_apart)
        ])
