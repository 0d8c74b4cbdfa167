-- ===== src/Vm/User.antt =====
-- kernel/vm.c: `copyout`, `copyin` and `copyinstr`, between the kernel and a user's pages, and the
-- copies byte by byte that they stand for.
use operating_systems.Prelude.{
  ℕ, zero, suc, ◌+◌, ◌-◌, ◌%◌, Bool, true, false, ◌&&◌, not, ◌==◌, ltb, if◌then◌else◌, minus_one,
}
use operating_systems.Kalloc.{pgsize}
use operating_systems.Strings.{Memory, store, memmove}
use operating_systems.Vm.{Machine, walkaddr}
use operating_systems.Vm.Pages.{Outcome, done, starved, page_round_down}

-- `n`: how many of `len` bytes are left on the page of `va`.
abbrev pub on_page : ℕ → ℕ → ℕ
on_page va len = let n = pgsize - (va - page_round_down va) in if ltb len n then len else n

-- The loop of `copyout`, on fuel. `walkaddr` is 0 from `MAXVA` on, so `va0 + PGSIZE` does not wrap.
unfoldable pub copyout_from : ℕ → ℕ → ℕ → ℕ → ℕ → Machine → Outcome ℕ
copyout_from zero pagetable dstva src len s = if ltb 0 len then starved else done 0 s
copyout_from (suc fuel) pagetable dstva src len s =
    let va0 = page_round_down dstva in
    let pa0 = walkaddr pagetable va0 s in
    let n = on_page dstva len in
    let rest =
      copyout_from fuel pagetable (va0 + pgsize) (src + n) (len - n)
        (record s { bytes = memmove (pa0 + (dstva - va0)) src n s.bytes }) in
    if ltb 0 len then (if pa0 == 0 then done minus_one s else rest) else done 0 s

unfoldable pub copyout : ℕ → ℕ → ℕ → ℕ → Machine → Outcome ℕ
unfolding copyout_from
copyout pagetable dstva src len s = copyout_from len pagetable dstva src len s

-- The loop of `copyin`, on fuel.
unfoldable pub copyin_from : ℕ → ℕ → ℕ → ℕ → ℕ → Machine → Outcome ℕ
copyin_from zero pagetable dst srcva len s = if ltb 0 len then starved else done 0 s
copyin_from (suc fuel) pagetable dst srcva len s =
    let va0 = page_round_down srcva in
    let pa0 = walkaddr pagetable va0 s in
    let n = on_page srcva len in
    let rest =
      copyin_from fuel pagetable (dst + n) (va0 + pgsize) (len - n)
        (record s { bytes = memmove dst (pa0 + (srcva - va0)) n s.bytes }) in
    if ltb 0 len then (if pa0 == 0 then done minus_one s else rest) else done 0 s

unfoldable pub copyin : ℕ → ℕ → ℕ → ℕ → Machine → Outcome ℕ
unfolding copyin_from
copyin pagetable dst srcva len s = copyin_from len pagetable dst srcva len s

-- The inner loop of `copyinstr`: `got_null`, `dst`, `max` and the memory behind it.
unfoldable pub scan : ℕ → ℕ → ℕ → ℕ → Memory → Bool × ℕ × ℕ × Memory
scan zero p dst max m = (false, dst, max, m)
scan (suc n) p dst max m =
    let rest = scan n (p + 1) (dst + 1) (max - 1) (store dst (m p) m) in
    if m p == 0 then (true, dst, max, store dst 0 m) else rest

-- The outer loop of `copyinstr` and its last lines, on fuel.
unfoldable pub copyinstr_from : ℕ → ℕ → Bool → ℕ → ℕ → ℕ → Machine → Outcome ℕ
unfolding scan
copyinstr_from zero pagetable got_null dst srcva max s =
    if not got_null && ltb 0 max then starved else done (if got_null then 0 else minus_one) s
copyinstr_from (suc fuel) pagetable got_null dst srcva max s =
    let va0 = page_round_down srcva in
    let pa0 = walkaddr pagetable va0 s in
    let (got, dst1, max1, m) = scan (on_page srcva max) (pa0 + (srcva - va0)) dst max s.bytes in
    let rest =
      copyinstr_from fuel pagetable got dst1 (va0 + pgsize) max1 (record s { bytes = m }) in
    if not got_null && ltb 0 max
    then (if pa0 == 0 then done minus_one s else rest)
    else done (if got_null then 0 else minus_one) s

unfoldable pub copyinstr : ℕ → ℕ → ℕ → ℕ → Machine → Outcome ℕ
unfolding copyinstr_from
copyinstr pagetable dst srcva max s = copyinstr_from max pagetable false dst srcva max s

-- The physical address of a user's byte, whose page is mapped.
abbrev pub phys : ℕ → ℕ → Machine → ℕ
phys pagetable va s = walkaddr pagetable (page_round_down va) s + va % pgsize

-- The page of a user's byte is not mapped for the user.
abbrev pub is_missing : ℕ → ℕ → Machine → Bool
is_missing pagetable va s = walkaddr pagetable (page_round_down va) s == 0

-- A copy byte by byte, each with its own look-up: to the user, from the user, and up to a 0.
unfoldable pub bytes_out : ℕ → ℕ → ℕ → ℕ → Machine → Outcome ℕ
bytes_out pagetable dstva src zero s = done 0 s
bytes_out pagetable dstva src (suc len) s =
    if is_missing pagetable dstva s
    then done minus_one s
    else bytes_out pagetable (dstva + 1) (src + 1) len
        (record s { bytes = store (phys pagetable dstva s) (s.bytes src) s.bytes })

unfoldable pub bytes_in : ℕ → ℕ → ℕ → ℕ → Machine → Outcome ℕ
bytes_in pagetable dst srcva zero s = done 0 s
bytes_in pagetable dst srcva (suc len) s =
    if is_missing pagetable srcva s
    then done minus_one s
    else bytes_in pagetable (dst + 1) (srcva + 1) len
        (record s { bytes = store dst (s.bytes (phys pagetable srcva s)) s.bytes })

unfoldable pub string_in : ℕ → ℕ → ℕ → ℕ → Machine → Outcome ℕ
string_in pagetable dst srcva zero s = done minus_one s
string_in pagetable dst srcva (suc max) s =
    if is_missing pagetable srcva s
    then done minus_one s
    else let c = s.bytes (phys pagetable srcva s) in
      let rest =
        string_in pagetable (dst + 1) (srcva + 1) max (record s { bytes = store dst c s.bytes }) in
      if c == 0 then done 0 (record s { bytes = store dst 0 s.bytes }) else rest
