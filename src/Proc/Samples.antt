-- ===== src/Proc/Samples.antt =====
-- A small kernel for tests: three slots, memory calls that always succeed, and the states that the
-- first calls leave.
use operating_systems.Prelude.{
  ℕ, zero, suc, ◌+◌, ◌≡◌, refl, arith, [], ◌∷◌, Option, some, none, Bool, true, false, get_elem?,
}
use operating_systems.Proc.{Proc, unused, null}
use operating_systems.Proc.Kernel.{Resources, Kernel}
use operating_systems.Proc.Life.{allocproc, fork}
use operating_systems.Proc.Ids.{ids}
use operating_systems.Proc.Ids.Enter.{IsValid, allocproc-IsValid, fork-IsValid}

-- Every call succeeds, and the store counts the calls that allocate.
abbrev pub resources : Resources
resources = record {
  Store = ℕ;
  kalloc = λ n. (4096, n + 1);
  kfree = λ p n. n;
  proc_pagetable = λ f n. (8192, n + 1);
  proc_freepagetable = λ t s n. n;
  uvmcopy = λ a b s n. (true, n);
  copyout = λ t a v n. (true, n);
  filedup = λ f n. n;
  fileclose = λ f n. n;
  idup = λ i n. n;
  iput = λ i n. n;
}

-- A slot as `procinit` leaves it.
abbrev pub free_slot : Proc
free_slot = record {
  state = unused;
  chan = null;
  killed = 0;
  xstate = 0;
  pid = 0;
  initial_tickets = 0;
  current_tickets = 0;
  ticks_used = 0;
  parent = none;
  kstack = 65536;
  sz = 0;
  pagetable = 0;
  trapframe = 0;
  frame = record { epc = 0; sp = 0; a0 = 0; a7 = 0; others = [] };
  context = record { ra = 0; sp = 0; saved = [] };
  ofile = none ∷ some 3 ∷ [];
  cwd = none;
  name = 105 ∷ 110 ∷ [];
}

abbrev pub booted : Kernel ℕ
booted = record {
  procs = free_slot ∷ free_slot ∷ free_slot ∷ [];
  nextpid = 1;
  initproc = some 0;
  store = 0;
}

ids-booted :
    (i n : ℕ) (u : Bool) → get_elem? (ids booted.procs) i ≡ some (n, u) → (n ≡ 0) × (u ≡ true)
unfolding ids
ids-booted zero n u h = ground (arith, h)
ids-booted (suc zero) n u h = ground (arith, h)
ids-booted (suc (suc zero)) n u h = ground (arith, h)
ids-booted (suc (suc (suc i))) n u h = absurd (ground (arith, h))

pub booted-IsValid : IsValid booted
booted-IsValid = record {
  numbered = record {
    below = λ i n u h. omega (arith, (ids-booted i n u h).0);
    free = λ i n h. (ids-booted i n true h).0;
    live = λ i n h. absurd (ground (arith, (ids-booted i n false h).1));
    distinct = λ i j n u v h k ne. absurd (ne (ids-booted i n u h).0);
  };
  positive = omega arith;
}

-- The first process is allocated, and it forks.
abbrev pub one_process : Kernel ℕ
one_process = (allocproc resources 7 booted).0

pub one_process-IsValid : IsValid one_process
one_process-IsValid = allocproc-IsValid resources 7 booted booted-IsValid (omega arith)

abbrev kernel_of : Kernel ℕ → Option (Kernel ℕ × ℕ) → Kernel ℕ
kernel_of k none = k
kernel_of k (some (k', code)) = k'

abbrev pub two_processes : Kernel ℕ
two_processes = kernel_of one_process (fork resources 7 0 one_process)

pub forked : fork resources 7 0 one_process ≡ some (two_processes, 2)
unfolding fork allocproc
forked = refl

pub two_processes-IsValid : IsValid two_processes
unfolding allocproc
two_processes-IsValid =
    fork-IsValid resources 7 0 one_process one_process-IsValid (omega arith) forked
