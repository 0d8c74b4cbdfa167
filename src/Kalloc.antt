-- ===== src/Kalloc.antt =====
-- xv6-System-Call-Offline-02/kernel/kalloc.c: the allocator of physical pages, and `freemem`.
-- A pointer is an address, 0 for null. Of a page's contents the model keeps the word that
-- `struct run` puts at its start.
pub mod Pages
pub mod Range
mod Tests
use operating_systems.Prelude.{
  ℕ, zero, suc, ◌+◌, ◌-◌, ◌*◌, ◌/◌, ◌%◌, Bool, true, false, ◌||◌, not, Option, none, some, u32_mod,
  add32, ◌==◌, ltb, leb, if◌then◌else◌,
}

abbrev pub pgsize : ℕ
pgsize = 4096

-- `PHYSTOP`: 128 MB from 0x80000000 on (kernel/memlayout.h).
abbrev pub phystop : ℕ
phystop = 0x88000000

-- `kmem`, and the `next` word of each page.
pub record Kmem : Type 0 where
  pub freelist : ℕ
  pub next : ℕ → ℕ

-- A store of the word at `p`.
abbrev pub update : (ℕ → ℕ) → ℕ → ℕ → ℕ → ℕ
update f p v q = if p == q then v else f q

-- The word that `memset(pa, 1, PGSIZE)` and `memset(r, 5, PGSIZE)` leave.
abbrev pub freed_junk : ℕ
freed_junk = 0x0101010101010101

abbrev pub allocated_junk : ℕ
allocated_junk = 0x0505050505050505

-- `PGROUNDUP` of kernel/riscv.h.
abbrev pub page_round_up : ℕ → ℕ
page_round_up sz = (sz + pgsize - 1) / pgsize * pgsize

module _ (end : ℕ) where
  -- The test of `kfree`.
  abbrev pub is_bad : ℕ → Bool
  is_bad pa = not (pa % pgsize == 0) || ltb pa end || leb phystop pa

  -- `kfree`; `none` is its panic.
  unfoldable pub kfree : ℕ → Kmem → Option Kmem
  kfree pa k =
      if is_bad pa
      then none
      else some
          (record { freelist = pa; next = update (update k.next pa freed_junk) pa k.freelist })

  -- The loop of `freerange`, on fuel.
  pub free_pages : ℕ → ℕ → ℕ → Kmem → Option Kmem
  free_pages zero p pa_end k = some k
  free_pages (suc fuel) p pa_end k = elim (leb (p + pgsize) pa_end) [
    | false ↦ some k
    | true ↦ elim (kfree p k) [ none ↦ none | some k' ↦ free_pages fuel (p + pgsize) pa_end k' ]
  ]

  pub freerange : ℕ → ℕ → ℕ → Kmem → Option Kmem
  unfolding free_pages
  freerange fuel pa_start pa_end k = free_pages fuel (page_round_up pa_start) pa_end k

  -- `kinit`: from an empty list, every page between `end` and `PHYSTOP`.
  pub kinit : ℕ → (ℕ → ℕ) → Option Kmem
  unfolding freerange
  kinit fuel memory = freerange fuel end phystop (record { freelist = 0; next = memory })

-- `kalloc`: the page, or 0.
unfoldable pub kalloc : Kmem → ℕ × Kmem
kalloc k =
    let r = k.freelist in
    if r == 0
    then (r, k)
    else (r, record { freelist = k.next r; next = update k.next r allocated_junk })

-- The loop of `freemem`, on fuel.
pub count_free : ℕ → (ℕ → ℕ) → ℕ → ℕ → Option ℕ
count_free zero next r n = none
count_free (suc fuel) next r n = elim (r == 0) [
  | true ↦ some n
  | false ↦ count_free fuel next (next r) (add32 n 1)
]

-- `freemem`: an `int`.
pub freemem : ℕ → Kmem → Option ℕ
unfolding count_free
freemem fuel k = elim (count_free fuel k.next k.freelist 0) [
  | none ↦ none
  | some n ↦ some (n * pgsize % u32_mod)
]
