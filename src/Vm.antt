-- ===== src/Vm.antt =====
-- xv6-Lottery-Scheduler-Offline-03/kernel/vm.c: the Sv39 page tables of the user processes.
-- A `pte_t *` is a page and an index in it. A page that holds a page table and a page that holds
-- bytes are two views that are kept apart: each page is set as a whole, by `memset` or `memmove`,
-- before it is read, and `kfree` sets both. Flags are added where the source joins them by `|`: they are below bit 10.
pub mod Tree
pub mod Walk
pub mod Pages
pub mod Space
pub mod View
pub mod Create
pub mod Map
pub mod Freed
pub mod Cleared
pub mod Unmap
pub mod User
pub mod Copy
mod Tests
use operating_systems.Prelude.{
  ℕ, zero, suc, ◌+◌, ◌-◌, ◌*◌, ◌/◌, ◌%◌, ◌^◌, Bool, true, false, ◌&&◌, ◌||◌, not, Option, none,
  some, ◌==◌, ltb, leb, if◌then◌else◌, minus_one,
}
use operating_systems.Kalloc.{Kmem, kalloc, kfree, pgsize, page_round_up, freed_junk}

-- `MAXVA` of kernel/riscv.h
abbrev pub maxva : ℕ
maxva = 2 ^ 38

-- `PX(level, va)`
abbrev pub px : ℕ → ℕ → ℕ
px level va = va / 2 ^ (12 + 9 * level) % 512

-- The flags `PTE_V`, `PTE_U`, and `PTE_R|PTE_W|PTE_X` of an entry.
abbrev pub is_valid : ℕ → Bool
is_valid pte = pte % 2 == 1

abbrev pub is_user : ℕ → Bool
is_user pte = pte / 16 % 2 == 1

abbrev pub is_leaf : ℕ → Bool
is_leaf pte = not (pte / 2 % 8 == 0)

-- `PTE_FLAGS(pte)`
abbrev pub pte_flags : ℕ → ℕ
pte_flags pte = pte % 1024

abbrev pub pte2pa : ℕ → ℕ
pte2pa pte = pte / 1024 * 4096 % 2 ^ 64

-- `PA2PTE(pa) | perm | PTE_V`, for flags `perm` below bit 10.
abbrev pub make_pte : ℕ → ℕ → ℕ
make_pte pa perm = pa / 4096 * 1024 % 2 ^ 64 + perm / 2 * 2 + 1

-- The entries of the page tables, page by page.
abbrev pub Ptes : Type 0
Ptes = ℕ → ℕ → ℕ

-- `pagetable[i] = v`
abbrev pub put : ℕ → ℕ → ℕ → Ptes → Ptes
put p i v m q j = if p == q && i == j then v else m q j

-- `memset(pagetable, 0, PGSIZE)`
abbrev pub clear : ℕ → Ptes → Ptes
clear p m q j = if p == q then 0 else m q j

-- The page tables, the allocator, and the bytes of the other pages.
pub record Machine : Type 0 where
  pub ptes : Ptes
  pub kmem : Kmem
  pub bytes : ℕ → ℕ

-- What `kfree` leaves in the page `pa`: ones, and the old head of the free list in its first word; by
-- bytes, and by entries.
abbrev pub freed_bytes : ℕ → ℕ → (ℕ → ℕ) → ℕ → ℕ
freed_bytes pa next f q =
    if leb pa q && ltb q (pa + pgsize)
    then if ltb q (pa + 8) then next / 256 ^ (q - pa) % 256 else 1
    else f q

abbrev pub freed_ptes : ℕ → ℕ → Ptes → Ptes
freed_ptes pa next m p i = if p == pa then if i == 0 then next else freed_junk else m p i

-- `kfree(pa)`; `none` is its panic.
abbrev pub free_page : ℕ → ℕ → Machine → Option Machine
free_page end pa s = elim (kfree end pa s.kmem) [
  | none ↦ none
  | some k ↦ some (record {
    ptes = freed_ptes pa s.kmem.freelist s.ptes;
    kmem = k;
    bytes = freed_bytes pa s.kmem.freelist s.bytes;
  })
]

-- The loop of `walk` from `level` down, and its last line. `none` is the result 0.
unfoldable pub walk_from : ℕ → ℕ → ℕ → Bool → Machine → Option (ℕ × ℕ) × Machine
walk_from zero pagetable va alloc s = (some (pagetable, px 0 va), s)
walk_from (suc level) pagetable va alloc s =
    let i = px (suc level) va in
    let pte = s.ptes pagetable i in
    let below = walk_from level (pte2pa pte) va alloc s in
    let (page, kmem) = kalloc s.kmem in
    let made =
      walk_from level page va alloc
        (record s { kmem = kmem; ptes = put pagetable i (make_pte page 0) (clear page s.ptes) }) in
    if is_valid pte
    then below
    else if not alloc
    then (none, s)
    else if page == 0
    then (none, record s { kmem = kmem })
    else made

-- `walk`; `none` is its panic.
unfoldable pub walk : ℕ → ℕ → Bool → Machine → Option (Option (ℕ × ℕ) × Machine)
unfolding walk_from
walk pagetable va alloc s = if leb maxva va then none else some (walk_from 2 pagetable va alloc s)

-- `walkaddr`: the physical address, or 0.
unfoldable pub walkaddr : ℕ → ℕ → Machine → ℕ
unfolding walk_from
walkaddr pagetable va s = if leb maxva va then 0 else elim ((walk_from 2 pagetable va false s).0) [
  | none ↦ 0
  | some (p, i) ↦
      let pte = s.ptes p i in
      if not (is_valid pte) then 0 else if not (is_user pte) then 0 else pte2pa pte
]
