-- ===== src/Vm/Unmap.antt =====
-- `uvmunmap` refines an update of the view: the entries of a range become 0.
use mathlib.Core.Path.{subst}
use operating_systems.Prelude.{
  ℕ, zero, suc, ◌+◌, ◌<◌, ◌≤◌, ◌≡◌, refl, ap, sym, ◌∙◌, arith, Bool, true, false, ◌&&◌, Option,
  none, some, ◌==◌, ltb, leb, if◌then◌else◌, Bool-cases, inl, inr, ◌%◌, ◌/◌, ◌*◌, ◌^◌,
}
use operating_systems.Kalloc.{pgsize}
use operating_systems.Vm.{Ptes, Machine, maxva, pte2pa}
use operating_systems.Vm.Tree.{IsTree, IsApart}
use operating_systems.Vm.View.{view}
use operating_systems.Vm.Pages.{unmap_one, unmap_from, uvmunmap}
use operating_systems.Vm.Cleared.{refuses, Store, push, UnmapsOne, LeavesApart, unmap_one-UnmapsOne}

-- The allocator and the bytes after the pages of a range are freed, in their order.
unfoldable pub give_back : ℕ → ℕ → ℕ → Ptes → Store → Store
give_back root zero first m k = k
give_back root (suc count) first m k =
    give_back root count (suc first) m (push (pte2pa (view m root first)) k)

give_back-same :
    (root count first : ℕ) (m m1 : Ptes) (k : Store)
    → first + count ≤ 2 ^ 26
    → ((vpn : ℕ) → vpn < 2 ^ 26 → first ≤ vpn → view m1 root vpn ≡ view m root vpn)
    → give_back root count first m1 k ≡ give_back root count first m k
unfolding give_back
give_back-same root zero first m m1 k fits same = refl
give_back-same root (suc count) first m m1 k fits same =
    give_back-same root count (suc first) m m1 _ (omega arith) (λ vpn h l. same vpn h (omega arith))
    ∙ ap (λ x. give_back root count (suc first) m (push (pte2pa x) k))
        (same first (omega arith) (omega arith))

kept :
    (do_free : Bool) (root first : ℕ) (m : Ptes) (k : Store)
    → k ≡ (if do_free then give_back root 0 first m k else k)
unfolding give_back
kept true root first m k = refl
kept false root first m k = refl

module _ (end root : ℕ) (do_free : Bool) where
  -- How `uvmunmap` of `count` pages ends.
  abbrev pub UnmapsAll : ℕ → ℕ → Machine → Option Machine → Type 0
  UnmapsAll first count s none =
      (i : ℕ) × (i < count) × (refuses end do_free (view s.ptes root (first + i)) ≡ true)
  UnmapsAll first count s (some t) =
      ((i : ℕ) → i < count → refuses end do_free (view s.ptes root (first + i)) ≡ false)
      × ((vpn : ℕ)
          → vpn < 2 ^ 26
          → view t.ptes root vpn
            ≡ (if leb first vpn && ltb vpn (first + count) then 0 else view s.ptes root vpn))
      × IsTree t.ptes root
      × ((t.kmem, t.bytes) ≡ (
          if do_free
          then give_back root count first s.ptes (s.kmem, s.bytes)
          else (s.kmem, s.bytes)))

  kept_or_freed :
      (first count : ℕ) (m m1 : Ptes) (k k1 k2 : Store)
      → first + suc count ≤ 2 ^ 26
      → ((vpn : ℕ)
          → vpn < 2 ^ 26
          → view m1 root vpn ≡ (if first == vpn then 0 else view m root vpn))
      → k1 ≡ (if do_free then push (pte2pa (view m root first)) k else k)
      → k2 ≡ (if do_free then give_back root count (suc first) m1 k1 else k1)
      → k2 ≡ (if do_free then give_back root (suc count) first m k else k)
  unfolding give_back
  kept_or_freed first count m m1 k k1 k2 fits one g h = elim (Bool-cases do_free) [
    | inr keep ↦ rw keep (h ∙ rw keep (g ∙ rw keep refl))
    | inl give ↦ rw give (
        h
        ∙ rw give (
            give_back-same root count (suc first) m m1 k1 (omega arith)
              (λ vpn l n. one vpn l ∙ ground arith)
            ∙ ap (give_back root count (suc first) m) (g ∙ rw give refl)))
  ]

  cleared_step :
      (first count vpn y z : ℕ)
      → y ≡ (if first == vpn then 0 else z)
      → (if leb (suc first) vpn && ltb vpn (suc first + count) then 0 else y)
        ≡ (if leb first vpn && ltb vpn (first + suc count) then 0 else z)
  cleared_step first count vpn y z h = ground (arith, h)

  later :
      (first i : ℕ) (s s1 : Machine)
      → ((vpn : ℕ)
          → vpn < 2 ^ 26
          → view s1.ptes root vpn ≡ (if first == vpn then 0 else view s.ptes root vpn))
      → suc first + i < 2 ^ 26
      → view s.ptes root (suc first + i) ≡ view s1.ptes root (suc first + i)
  later first i s s1 one fits =
      let ne : (first == suc first + i) ≡ false = ground arith in
      sym (one (suc first + i) fits ∙ rw ne refl)

  unmaps_step :
      (a count : ℕ) (s s1 : Machine)
      → refuses end do_free (view s.ptes root (a / pgsize)) ≡ false
      → ((vpn : ℕ)
          → vpn < 2 ^ 26
          → view s1.ptes root vpn ≡ (if a / pgsize == vpn then 0 else view s.ptes root vpn))
      → ((i : ℕ)
          → i < count
          → refuses end do_free (view s1.ptes root (suc (a / pgsize) + i)) ≡ false)
      → a / pgsize + suc count ≤ 2 ^ 26
      → (i : ℕ) → i < suc count
      → refuses end do_free (view s.ptes root (a / pgsize + i)) ≡ false
  unmaps_step a count s s1 ok one all fits zero l =
      let e : a / pgsize + 0 ≡ a / pgsize = omega arith in
      ap (λ n. refuses end do_free (view s.ptes root n)) e ∙ ok
  unmaps_step a count s s1 ok one all fits (suc i) l =
      let shift : a / pgsize + suc i ≡ suc (a / pgsize) + i = omega arith in
      ap (λ n. refuses end do_free (view s.ptes root n)) shift
      ∙ ap (refuses end do_free) (later (a / pgsize) i s s1 one (omega arith))
      ∙ all i (omega arith)

  UnmapsAll-step :
      (a count : ℕ) (s s1 : Machine) (r : Option Machine)
      → a / pgsize + suc count ≤ 2 ^ 26
      → UnmapsOne end root do_free a s (some s1)
      → UnmapsAll (suc (a / pgsize)) count s1 r
      → UnmapsAll (a / pgsize) (suc count) s r
  UnmapsAll-step a count s s1 none fits (ok, one, t, store, others) (i, l, h) =
      let shift : a / pgsize + suc i ≡ suc (a / pgsize) + i = omega arith in
      (
        suc i,
        omega arith,
        ap (λ k. refuses end do_free (view s.ptes root k)) shift
            ∙ ap (refuses end do_free) (later (a / pgsize) i s s1 one (omega arith))
            ∙ h,
      )
  UnmapsAll-step a count s s1 (some t1) fits (ok, one, t, store, others) (all, rest, t2, store2) = (
    unmaps_step a count s s1 ok one all fits,
    (λ vpn h.
        let x = rest vpn h in let y = one vpn h in x ∙ cleared_step (a / pgsize) count vpn _ _ y),
    t2,
    kept_or_freed (a / pgsize) count s.ptes s1.ptes (s.kmem, s.bytes) (s1.kmem, s1.bytes)
        (t1.kmem, t1.bytes) fits one store store2,
  )

  -- The pages behind the first one are no tables after its round either.
  LeavesApart-later :
      (a count : ℕ) (s s1 : Machine)
      → a / pgsize + suc count ≤ 2 ^ 26
      → ((vpn : ℕ)
          → vpn < 2 ^ 26
          → view s1.ptes root vpn ≡ (if a / pgsize == vpn then 0 else view s.ptes root vpn))
      → ((other : ℕ) → IsApart s.ptes root other → IsApart s1.ptes root other)
      → LeavesApart end root do_free (a / pgsize) (suc count) s
      → LeavesApart end root do_free (suc (a / pgsize)) count s1
  LeavesApart-later a count s s1 fits one others leaves give i l ok =
      let shift : a / pgsize + suc i ≡ suc (a / pgsize) + i = omega arith in
      let same : view s.ptes root (a / pgsize + suc i) ≡ view s1.ptes root (suc (a / pgsize) + i) =
        ap (view s.ptes root) shift ∙ later (a / pgsize) i s s1 one (omega arith) in
      others (pte2pa (view s1.ptes root (suc (a / pgsize) + i))) (
        subst (λ n. IsApart s.ptes root (pte2pa n)) same
          (leaves give (suc i) (omega arith) (ap (refuses end do_free) same ∙ ok)))

  LeavesApart-first :
      (first count : ℕ) (s : Machine)
      → LeavesApart end root do_free first (suc count) s
      → LeavesApart end root do_free first 1 s
  LeavesApart-first first count s leaves give i l ok = leaves give i (omega arith) ok

  -- What a round of the loop makes of the rest.
  UnmapsAll-round :
      (a count : ℕ) (s : Machine) (r : Option Machine) (rest : Machine → Option Machine)
      → a / pgsize + suc count ≤ 2 ^ 26
      → UnmapsOne end root do_free a s r
      → LeavesApart end root do_free (a / pgsize) (suc count) s
      → ((t : Machine)
          → IsTree t.ptes root
          → LeavesApart end root do_free (suc (a / pgsize)) count t
          → UnmapsAll (suc (a / pgsize)) count t (rest t))
      → UnmapsAll (a / pgsize) (suc count) s (elim r [ none ↦ none | some t ↦ rest t ])
  UnmapsAll-round a count s none rest fits stops leaves k =
      let e : a / pgsize + 0 ≡ a / pgsize = omega arith in
      (0, omega arith, ap (λ n. refuses end do_free (view s.ptes root n)) e ∙ stops)
  UnmapsAll-round a count s (some t) rest fits one leaves k =
      let (ok, entries, tree, store, others) = one in
      UnmapsAll-step a count s t (rest t) fits one
        (k t tree (LeavesApart-later a count s t fits entries others leaves))

  unmap_from-UnmapsAll :
      (count a : ℕ) (s : Machine)
      → IsTree s.ptes root
      → a % pgsize ≡ 0
      → a + count * pgsize ≤ maxva
      → LeavesApart end root do_free (a / pgsize) count s
      → UnmapsAll (a / pgsize) count s (unmap_from end count root a do_free s)
  unfolding unmap_from give_back
  unmap_from-UnmapsAll zero a s t aligned fits leaves = (
    (λ i l. absurd (omega arith)),
    (λ vpn h. ground arith),
    t,
    kept do_free root (a / pgsize) s.ptes (s.kmem, s.bytes),
  )
  unmap_from-UnmapsAll (suc count) a s t aligned fits leaves =
      let next : suc (a / pgsize) ≡ (a + pgsize) / pgsize = omega arith in
      UnmapsAll-round a count s (unmap_one end root a do_free s)
        (λ s1. unmap_from end count root (a + pgsize) do_free s1) (omega arith)
        (unmap_one-UnmapsOne end root do_free a s t (omega arith)
          (LeavesApart-first (a / pgsize) count s leaves))
        leaves
        (λ s1 t1 leaves1.
          let leaves2 : LeavesApart end root do_free ((a + pgsize) / pgsize) count s1 =
            subst (λ k. LeavesApart end root do_free k count s1) next leaves1 in
          rw next
            (unmap_from-UnmapsAll count (a + pgsize) s1 t1 (omega arith) (omega arith) leaves2))

-- `uvmunmap` of `npages` pages below `MAXVA`, from an aligned address on, in a tree of tables, where
-- with `do_free` the pages that it frees are no tables of this tree. It panics only when some page of
-- the range is not mapped as a leaf, or is to be freed and `kfree` refuses its address. Otherwise no
-- page of the range is so; its entries are 0 afterwards and all others as before, and the tables are a
-- tree again. When `do_free` is set, the pages that the entries pointed to have been put in front of
-- the free list, one after the other, and each has been filled with ones behind a pointer to the page
-- that the list began with before; no other byte has changed. When it is not, the allocator and all
-- bytes are as before.
pub uvmunmap-UnmapsAll :
    (end root : ℕ) (do_free : Bool) (npages va : ℕ) (s : Machine)
    → IsTree s.ptes root
    → va % pgsize ≡ 0
    → va + npages * pgsize ≤ maxva
    → LeavesApart end root do_free (va / pgsize) npages s
    → UnmapsAll end root do_free (va / pgsize) npages s (uvmunmap end root va npages do_free s)
unfolding uvmunmap
uvmunmap-UnmapsAll end root do_free npages va s t aligned fits leaves =
    let whole : (va % pgsize == 0) ≡ true = ground arith in
    rw whole (unmap_from-UnmapsAll end root do_free npages va s t aligned fits leaves)
