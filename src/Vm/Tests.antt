-- ===== src/Vm/Tests.antt =====
-- Page tables in four free pages below `PHYSTOP`.
use mathlib.Core.Path.{subst}
use operating_systems.Prelude.{
  ℕ, ◌+◌, ◌-◌, ◌*◌, ◌/◌, ◌≡◌, refl, arith, true, List, [], ◌∷◌, none, Option, ◌==◌, if◌then◌else◌,
  ap, sym, inl, inr, ◌∙◌, ◌<◌, ◌^◌, ◌%◌, ltb, Bool-cases, ◌&&◌,
}
use operating_systems.Kalloc.{Kmem, pgsize, phystop, kalloc, kfree}
use operating_systems.Kalloc.Pages.{Holds}
use operating_systems.Vm.{
  Machine, put, make_pte, walk_from, pte2pa, maxva, is_valid, is_user, walkaddr,
}
use operating_systems.Vm.Tree.{IsTree, IsApart}
use operating_systems.Vm.Walk.{IsValid, Walked, walk-Walked}
use operating_systems.Vm.Pages.{uvmcreate, mappages, unmap_one, uvmunmap}
use operating_systems.Vm.View.{view, entered-IsTree, entered-IsApart, view-entered, walkaddr-view}
use operating_systems.Vm.Create.{Created, uvmcreate-Created}
use operating_systems.Vm.Map.{MapsAll, mappages-MapsAll}
use operating_systems.Vm.Unmap.{UnmapsAll, uvmunmap-UnmapsAll}
use operating_systems.Vm.Cleared.{LeavesApart}
use operating_systems.Vm.User.{copyin, copyinstr, bytes_in, string_in}
use operating_systems.Vm.Copy.{IsKernel}
use operating_systems.Vm.Copy.In.{copyin-bytes_in}
use operating_systems.Vm.Copy.Text.{copyinstr-string_in}

-- The kernel ends below the last four pages.
abbrev page : ℕ → ℕ
page i = phystop - 4 * pgsize + i * pgsize

abbrev four : Kmem
four = record {
  freelist = page 0;
  next = λ p.
      if p == page 0
      then page 1
      else if p == page 1
      then page 2
      else if p == page 2
      then page 3
      else 0;
}

abbrev free : List ℕ
free = page 1 ∷ page 2 ∷ page 3 ∷ []

four-Holds : Holds (page 0) four (page 0 ∷ free)
four-Holds = record {
  chain = (
    refl,
    (λ e. absurd (omega arith)),
    (
      refl,
      (λ e. absurd (omega arith)),
      (refl, (λ e. absurd (omega arith)), (refl, (λ e. absurd (omega arith)), refl)),
    ),
  );
  pages = (
    refl,
    (refl, (refl, (refl, tt))),
    (refl, (refl, (refl, tt)), (refl, (refl, tt), (refl, tt, tt))),
  );
}

abbrev start : Machine
start = record { ptes = λ p i. 77; kmem = four; bytes = λ p. p }

Created-empty : Created (page 0) (page 0 ∷ free) start (uvmcreate start)
Created-empty = uvmcreate-Created (page 0) (page 0 ∷ free) start four-Holds

abbrev empty : Machine
empty = (uvmcreate start).1

empty-IsValid : IsValid (page 0) (page 0) free empty
unfolding kalloc uvmcreate
empty-IsValid = Created-empty.1

-- The page of address 0x5000 is not mapped, and two pages are taken for the tables above it.
walk-Walked_example : Walked (page 0) (page 0) 0x5000 empty (walk_from 2 (page 0) 0x5000 true empty)
walk-Walked_example = walk-Walked (page 0) (page 0) 0x5000 free empty empty-IsValid

Walked-empty : Walked (page 0) (page 0) 0x5000 empty (walk_from 2 (page 0) 0x5000 true empty)
Walked-empty = walk-Walked (page 0) (page 0) 0x5000 free empty empty-IsValid

mappages-MapsAll_example :
    MapsAll
      (page 0)
      (page 0)
      5
      3
      0x40000000
      22
      empty
      (mappages 5 (page 0) 0x5800 0x2000 0x40000000 22 empty)
mappages-MapsAll_example =
    mappages-MapsAll (page 0) (page 0) 5 0x5800 0x2000 0x40000000 22 free empty empty-IsValid
      (omega arith) (omega arith) (omega arith) (omega arith) (omega arith)

-- The table with page 3 mapped at 0x5000 for the user, to read and write.
abbrev walked : Option (ℕ × ℕ) × Machine
walked = walk_from 2 (page 0) 0x5000 true empty

abbrev mapped : Machine
mapped = record walked.1 { ptes = put (page 2) 5 (make_pte (page 3) 22) walked.1.ptes }

mapped-IsTree : IsTree mapped.ptes (page 0)
unfolding kalloc walk_from uvmcreate
mapped-IsTree =
    entered-IsTree (page 0) 0x5000 (make_pte (page 3) 22) (page 2) walked.1 Walked-empty.valid.tree
      refl

-- The page behind it is not mapped.
second_panics : (uvmunmap (page 0) (page 0) 0x5000 2 true mapped) ≡ none
unfolding kalloc kfree uvmunmap walk_from uvmcreate unmap_one
second_panics = refl

left_over-IsApart :
    (ys : List ℕ) → IsValid (page 0) (page 0) ys walked.1 → IsApart walked.1.ptes (page 0) (page 3)
unfolding kalloc walk_from uvmcreate
left_over-IsApart [] v = absurd (ground (arith, v.holds.chain))
left_over-IsApart (y ∷ ys) v =
    subst (λ k. IsApart walked.1.ptes (page 0) k) (sym v.holds.chain.0) v.apart.0

-- Page 3, which is to be freed, is no table: the tables are pages 0 to 2.
mapped-LeavesApart : LeavesApart (page 0) (page 0) true 5 1 mapped
unfolding kalloc walk_from uvmcreate
mapped-LeavesApart give i l ok =
    let first : i ≡ 0 = omega arith in
    subst (λ k. IsApart mapped.ptes (page 0) (pte2pa (view mapped.ptes (page 0) (5 + k))))
      (sym first)
      (entered-IsApart (page 0) 0x5000 (make_pte (page 3) 22) (page 2) walked.1
        Walked-empty.valid.tree refl (page 3)
        (left_over-IsApart Walked-empty.pages Walked-empty.valid))

uvmunmap-UnmapsAll_example :
    UnmapsAll (page 0) (page 0) true 5 1 mapped (uvmunmap (page 0) (page 0) 0x5000 1 true mapped)
uvmunmap-UnmapsAll_example =
    uvmunmap-UnmapsAll (page 0) (page 0) true 1 0x5000 mapped mapped-IsTree refl (omega arith)
      mapped-LeavesApart

mapped-view :
    (vpn : ℕ)
    → vpn < 2 ^ 26
    → view mapped.ptes (page 0) vpn ≡ (if 5 == vpn then make_pte (page 3) 22 else 0)
unfolding kalloc walk_from uvmcreate
mapped-view vpn h =
    view-entered (page 0) 0x5000 (make_pte (page 3) 22) (page 2) walked.1 Walked-empty.valid.tree
      refl (omega arith) vpn h
    ∙ ap (λ e. if 5 == vpn then make_pte (page 3) 22 else e)
        (Walked-empty.same.entries (vpn / 2 ^ 18 % 512) (vpn / 2 ^ 9 % 512) (vpn % 512)
          ∙ Created-empty.2 vpn)

buffer-IsKernel : IsKernel (page 0) 0x1000 16 mapped
buffer-IsKernel va = elim (Bool-cases (ltb (va / pgsize * pgsize) maxva)) [
  | inr high ↦ inl (walkaddr-view (page 0) (va / pgsize * pgsize) mapped ∙ rw high refl)
  | inl low ↦
      let small : va / pgsize * pgsize / pgsize < 2 ^ 26 = ground (arith, low) in
      let k = va / pgsize * pgsize / pgsize in
      let f : ℕ → ℕ = λ pte. if is_valid pte && is_user pte then pte2pa pte else 0 in
      let e : walkaddr (page 0) (va / pgsize * pgsize) mapped
          ≡ f (if 5 == k then make_pte (page 3) 22 else 0) =
        walkaddr-view (page 0) (va / pgsize * pgsize) mapped
        ∙ rw low (ap f (mapped-view k small)) in
      elim (Bool-cases (5 == k)) [
        | inl here ↦ inr (inr (rw (e, here) (omega arith)))
        | inr there ↦ inl (rw (e, there) refl)
      ]
]

copyin-bytes_in_example :
    copyin (page 0) 0x1000 0x5ff8 16 mapped ≡ bytes_in (page 0) 0x1000 0x5ff8 16 mapped
copyin-bytes_in_example = copyin-bytes_in (page 0) 0x1000 0x5ff8 16 mapped buffer-IsKernel

copyinstr-string_in_example :
    copyinstr (page 0) 0x1000 0x5ff8 16 mapped ≡ string_in (page 0) 0x1000 0x5ff8 16 mapped
copyinstr-string_in_example = copyinstr-string_in (page 0) 0x1000 0x5ff8 16 mapped
