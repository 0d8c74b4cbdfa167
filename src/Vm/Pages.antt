-- ===== src/Vm/Pages.antt =====
-- kernel/vm.c: mapping and unmapping pages.
use operating_systems.Prelude.{
  ℕ, zero, suc, ◌+◌, ◌-◌, ◌*◌, ◌/◌, ◌%◌, ◌^◌, Bool, true, false, ◌&&◌, not, Option, none, some,
  ◌==◌, ltb, leb, if◌then◌else◌, minus_one,
}
use operating_systems.Kalloc.{kalloc, pgsize}
use operating_systems.Vm.{
  Machine, put, clear, maxva, is_valid, pte2pa, pte_flags, make_pte, free_page, walk_from,
}

-- How a call ends: with its result, in a panic, or without fuel.
pub data Outcome (A : Type 0) : Type 0 where
  done : A → Machine → Outcome A
  panics starved : Outcome A

-- `PGROUNDDOWN`
abbrev pub page_round_down : ℕ → ℕ
page_round_down a = a / pgsize * pgsize

-- `memset(p, 0, PGSIZE)` and `memmove(to, from, PGSIZE)` on the bytes of a page.
abbrev pub zero_page : ℕ → (ℕ → ℕ) → ℕ → ℕ
zero_page p f q = if leb p q && ltb q (p + pgsize) then 0 else f q

abbrev pub copy_page : ℕ → ℕ → (ℕ → ℕ) → ℕ → ℕ
copy_page to from f q = if leb to q && ltb q (to + pgsize) then f (from + (q - to)) else f q

-- One round of the loop of `mappages`: whether it goes on, or the call returns -1.
pub data Round : Type 0 where
  goes_on returns : Machine → Round
  stops : Round

-- The part of the round behind `walk`.
abbrev pub enter : ℕ → Option (ℕ × ℕ) → Machine → Round
enter pte none s = returns s
enter pte (some (p, i)) s =
    if is_valid (s.ptes p i) then stops else goes_on (record s { ptes = put p i pte s.ptes })

unfoldable pub map_one : ℕ → ℕ → ℕ → ℕ → Machine → Round
map_one pagetable a pa perm s =
    let (slot, s1) = walk_from 2 pagetable a true s in
    if leb maxva a then stops else enter (make_pte pa perm) slot s1

-- The loop of `mappages` from `a` on, on fuel.
unfoldable pub map_from : ℕ → ℕ → ℕ → ℕ → ℕ → ℕ → Machine → Outcome ℕ
map_from zero pagetable a last pa perm s = starved
map_from (suc fuel) pagetable a last pa perm s = elim (map_one pagetable a pa perm s) [
  | stops ↦ panics
  | returns s1 ↦ done minus_one s1
  | goes_on s1 ↦ elim (a == last) [
    | true ↦ done 0 s1
    | false ↦ map_from fuel pagetable ((a + pgsize) % 2 ^ 64) last ((pa + pgsize) % 2 ^ 64) perm s1
  ]
]

unfoldable pub mappages : ℕ → ℕ → ℕ → ℕ → ℕ → ℕ → Machine → Outcome ℕ
unfolding map_from
mappages fuel pagetable va size pa perm s =
    if size == 0
    then panics
    else map_from fuel pagetable (page_round_down va)
        (page_round_down ((va + size + (2 ^ 64 - 1)) % 2 ^ 64)) pa perm s

-- One round of the loop of `uvmunmap`; `none` is a panic. `end` is where the kernel ends.
unfoldable pub unmap_one : ℕ → ℕ → ℕ → Bool → Machine → Option Machine
unmap_one end pagetable a do_free s =
    if leb maxva a then none else elim (walk_from 2 pagetable a false s).0 [
      | none ↦ none
      | some (p, i) ↦
          let pte = s.ptes p i in
          if not (is_valid pte)
          then none
          else if pte_flags pte == 1
          then none
          else if do_free
          then elim (free_page end (pte2pa pte) s) [
            | none ↦ none
            | some s1 ↦ some (record s1 { ptes = put p i 0 s1.ptes })
          ]
          else some (record s { ptes = put p i 0 s.ptes })
    ]

-- The loop of `uvmunmap`, with `npages` rounds left.
unfoldable pub unmap_from : ℕ → ℕ → ℕ → ℕ → Bool → Machine → Option Machine
unmap_from end zero pagetable a do_free s = some s
unmap_from end (suc npages) pagetable a do_free s = elim (unmap_one end pagetable a do_free s) [
  | none ↦ none
  | some s1 ↦ unmap_from end npages pagetable (a + pgsize) do_free s1
]

-- `uvmunmap` of pages that end below 2 ^ 64, so that the loop's bound does not wrap.
unfoldable pub uvmunmap : ℕ → ℕ → ℕ → ℕ → Bool → Machine → Option Machine
unfolding unmap_from
uvmunmap end pagetable va npages do_free s =
    if not (va % pgsize == 0) then none else unmap_from end npages pagetable va do_free s

unfoldable pub uvmcreate : Machine → ℕ × Machine
uvmcreate s =
    let (page, k) = kalloc s.kmem in
    if page == 0
    then (0, record s { kmem = k })
    else (page, record s { kmem = k; ptes = clear page s.ptes })
