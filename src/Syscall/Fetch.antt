-- ===== src/Syscall/Fetch.antt =====
-- xv6-System-Call-Offline-02/kernel/syscall.c: `fetchaddr` and `fetchstr`, over `copyin` and
-- `copyinstr`, which that kernel shares with the one of Vm. `sz` is the size of the process.
use operating_systems.Prelude.{
  ℕ, zero, suc, ◌+◌, ◌%◌, ◌^◌, ◌<◌, ◌≤◌, ◌≡◌, refl, ap, ◌∙◌, arith, true, false, ◌||◌, none, some,
  ◌==◌, ltb, leb, if◌then◌else◌, minus_one, Bool-cases, inl, inr,
}
use operating_systems.Strings.{strlen}
use operating_systems.Vm.{Machine, maxva}
use operating_systems.Vm.Pages.{Outcome, done, panics, starved}
use operating_systems.Vm.User.{copyin, copyinstr, bytes_in, is_missing}
use operating_systems.Vm.Copy.{IsKernel}
use operating_systems.Vm.Copy.In.{copyin-bytes_in}

-- -1 for every result but 0.
abbrev pub fetched : Outcome ℕ → Outcome ℕ
fetched (done code s) = if code == 0 then done 0 s else done minus_one s
fetched panics = panics
fetched starved = starved

unfoldable pub fetchaddr : ℕ → ℕ → ℕ → ℕ → Machine → Outcome ℕ
fetchaddr pagetable sz addr ip s =
    if leb sz addr || ltb sz ((addr + 8) % 2 ^ 64)
    then done minus_one s
    else fetched (copyin pagetable ip addr 8 s)

-- What `fetchstr` makes of the result of `copyinstr`, with fuel for `strlen`; `buf` is a kernel
-- address.
abbrev pub measured : ℕ → ℕ → Outcome ℕ → Outcome ℕ
measured fuel buf (done code s) =
    if code == minus_one
    then done minus_one s
    else elim (strlen fuel buf 0 s.bytes) [ none ↦ starved | some n ↦ done n s ]
measured fuel buf panics = panics
measured fuel buf starved = starved

unfoldable pub fetchstr : ℕ → ℕ → ℕ → ℕ → ℕ → Machine → Outcome ℕ
fetchstr fuel pagetable addr buf max s = measured fuel buf (copyinstr pagetable buf addr max s)

fetched-bytes_in :
    (root ip addr len : ℕ) (s : Machine)
    → fetched (bytes_in root ip addr len s) ≡ bytes_in root ip addr len s
unfolding bytes_in
fetched-bytes_in root ip addr zero s = refl
fetched-bytes_in root ip addr (suc len) s = elim (Bool-cases (is_missing root addr s)) [
  | inl e ↦ rw e refl
  | inr e ↦ rw e (fetched-bytes_in root (ip + 1) (addr + 1) len _)
]

-- For a process of at most `MAXVA` bytes, `fetchaddr` copies the eight bytes at any 64-bit address
-- one by one when they lie below the size of the process, and else returns -1 without a copy: the
-- sum in its test does not let an address that wraps pass.
pub fetchaddr-bytes_in :
    (root sz addr ip : ℕ) (s : Machine)
    → sz ≤ maxva
    → addr < 2 ^ 64
    → IsKernel root ip 8 s
    → fetchaddr root sz addr ip s
      ≡ (if leb (addr + 8) sz then bytes_in root ip addr 8 s else done minus_one s)
unfolding fetchaddr
fetchaddr-bytes_in root sz addr ip s small word k =
    let copies =
      ap fetched (copyin-bytes_in root ip addr 8 s k) ∙ fetched-bytes_in root ip addr 8 s in
    elim (Bool-cases (leb (addr + 8) sz)) [
      | inl e ↦
          let passes : (leb sz addr || ltb sz ((addr + 8) % 2 ^ 64)) ≡ false = ground arith in
          rw (e, passes) copies
      | inr e ↦
          let fails : (leb sz addr || ltb sz ((addr + 8) % 2 ^ 64)) ≡ true = ground arith in
          rw (e, fails) refl
    ]
