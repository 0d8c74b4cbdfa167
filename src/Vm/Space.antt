-- ===== src/Vm/Space.antt =====
-- kernel/vm.c: growing, shrinking, copying and freeing an address space.
use operating_systems.Prelude.{
  ℕ, zero, suc, ◌+◌, ◌-◌, ◌/◌, true, false, Option, none, some, ◌==◌, ltb, leb, if◌then◌else◌,
  minus_one,
}
use operating_systems.Kalloc.{kalloc, pgsize, page_round_up}
use operating_systems.Vm.{
  Machine, put, maxva, is_valid, is_user, is_leaf, pte2pa, pte_flags, free_page, walk_from,
}
use operating_systems.Vm.Pages.{
  Outcome, done, panics, starved, zero_page, copy_page, mappages, uvmunmap,
}

-- `uvmdealloc`: the new size.
pub uvmdealloc : ℕ → ℕ → ℕ → ℕ → Machine → Outcome ℕ
unfolding uvmunmap
uvmdealloc end pagetable oldsz newsz s =
    if leb oldsz newsz
    then done oldsz s
    else if ltb (page_round_up newsz) (page_round_up oldsz)
    then elim (uvmunmap end pagetable (page_round_up newsz)
        ((page_round_up oldsz - page_round_up newsz) / pgsize) true s) [
          | none ↦ panics
          | some s1 ↦ done newsz s1
        ]
    else done newsz s

-- `uvmdealloc(pagetable, a, oldsz); return 0;` of `uvmalloc`
abbrev give_up : ℕ → ℕ → ℕ → ℕ → Machine → Outcome ℕ
give_up end pagetable a oldsz s = elim (uvmdealloc end pagetable a oldsz s) [
  | done n s1 ↦ done 0 s1
  | panics ↦ panics
  | starved ↦ starved
]

-- The loop of `uvmalloc` from `a` on, on fuel. `oldsz` is rounded up, and `xperm` holds neither
-- `PTE_R` nor `PTE_U`, which are added to it.
pub alloc_from : ℕ → ℕ → ℕ → ℕ → ℕ → ℕ → ℕ → Machine → Outcome ℕ
unfolding uvmdealloc mappages
alloc_from zero end pagetable a oldsz newsz xperm s = starved
alloc_from (suc fuel) end pagetable a oldsz newsz xperm s = elim (ltb a newsz) [
  | false ↦ done newsz s
  | true ↦
      let (mem, k) = kalloc s.kmem in
      elim (mem == 0) [
        | true ↦ give_up end pagetable a oldsz (record s { kmem = k })
        | false ↦
            elim (mappages 1 pagetable a pgsize mem (2 + 16 + xperm)
              (record s { kmem = k; bytes = zero_page mem s.bytes })) [
                | panics ↦ panics
                | starved ↦ starved
                | done zero s1 ↦ alloc_from fuel end pagetable (a + pgsize) oldsz newsz xperm s1
                | done (suc _) s1 ↦ elim (free_page end mem s1) [
                  | none ↦ panics
                  | some s2 ↦ give_up end pagetable a oldsz s2
                ]
              ]
      ]
]

pub uvmalloc : ℕ → ℕ → ℕ → ℕ → ℕ → ℕ → Machine → Outcome ℕ
unfolding alloc_from
uvmalloc fuel end pagetable oldsz newsz xperm s =
    if ltb newsz oldsz
    then done oldsz s
    else alloc_from fuel end pagetable (page_round_up oldsz) (page_round_up oldsz) newsz xperm s

-- The tail of `uvmcopy` behind `err`, at page `i`.
abbrev undo_copy : ℕ → ℕ → ℕ → Machine → Outcome ℕ
undo_copy end new i s = elim (uvmunmap end new 0 (i / pgsize) true s) [
  | none ↦ panics
  | some s1 ↦ done minus_one s1
]

-- The loop of `uvmcopy` from `i` on, on fuel.
pub copy_from : ℕ → ℕ → ℕ → ℕ → ℕ → ℕ → Machine → Outcome ℕ
unfolding uvmunmap mappages walk_from
copy_from zero end old new i sz s = starved
copy_from (suc fuel) end old new i sz s = elim (ltb i sz) [
  | false ↦ done 0 s
  | true ↦ elim (leb maxva i) [
    | true ↦ panics
    | false ↦ elim (walk_from 2 old i false s).0 [
      | none ↦ panics
      | some (p, j) ↦
          let pte = s.ptes p j in
          let (mem, k) = kalloc s.kmem in
          elim (is_valid pte) [
            | false ↦ panics
            | true ↦ elim (mem == 0) [
              | true ↦ undo_copy end new i (record s { kmem = k })
              | false ↦
                  elim (mappages 1 new i pgsize mem (pte_flags pte)
                    (record s { kmem = k; bytes = copy_page mem (pte2pa pte) s.bytes })) [
                      | panics ↦ panics
                      | starved ↦ starved
                      | done zero s1 ↦ copy_from fuel end old new (i + pgsize) sz s1
                      | done (suc _) s1 ↦ elim (free_page end mem s1) [
                        | none ↦ panics
                        | some s2 ↦ undo_copy end new i s2
                      ]
                    ]
            ]
          ]
    ]
  ]
]

pub uvmcopy : ℕ → ℕ → ℕ → ℕ → ℕ → Machine → Outcome ℕ
unfolding copy_from
uvmcopy fuel end old new sz s = copy_from fuel end old new 0 sz s

-- `uvmclear`: `*pte &= ~PTE_U`
pub uvmclear : ℕ → ℕ → Machine → Option Machine
unfolding walk_from
uvmclear pagetable va s = if leb maxva va then none else elim (walk_from 2 pagetable va false s).0 [
  | none ↦ none
  | some (p, i) ↦
      let pte = s.ptes p i in
      some (record s { ptes = put p i (if is_user pte then pte - 16 else pte) s.ptes })
]

-- The loop of `freewalk` over a table with `n` entries left; `rec` frees the table of an entry.
pub free_entries : (ℕ → Machine → Option Machine) → ℕ → ℕ → ℕ → Machine → Option Machine
free_entries rec zero i pagetable s = some s
free_entries rec (suc n) i pagetable s =
    let pte = s.ptes pagetable i in
    elim (is_valid pte) [
      | false ↦ free_entries rec n (i + 1) pagetable s
      | true ↦ elim (is_leaf pte) [
        | true ↦ none
        | false ↦ elim (rec (pte2pa pte) s) [
          | none ↦ none
          | some s1 ↦
              free_entries rec n (i + 1) pagetable (record s1 { ptes = put pagetable i 0 s1.ptes })
        ]
      ]
    ]

-- `freewalk`, on fuel for the levels below; `none` is a panic, or the fuel's end.
pub freewalk : ℕ → ℕ → ℕ → Machine → Option Machine
unfolding free_entries
freewalk zero end pagetable s = none
freewalk (suc depth) end pagetable s = elim (free_entries (freewalk depth end) 512 0 pagetable s) [
  | none ↦ none
  | some s1 ↦ free_page end pagetable s1
]

pub uvmfree : ℕ → ℕ → ℕ → ℕ → Machine → Option Machine
unfolding uvmunmap freewalk
uvmfree depth end pagetable sz s = elim (ltb 0 sz) [
  | false ↦ freewalk depth end pagetable s
  | true ↦ elim (uvmunmap end pagetable 0 (page_round_up sz / pgsize) true s) [
    | none ↦ none
    | some s1 ↦ freewalk depth end pagetable s1
  ]
]
