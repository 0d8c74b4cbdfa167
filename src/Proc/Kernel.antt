-- ===== src/Proc/Kernel.antt =====
-- The state that the functions of kernel/proc.c share, and the calls that they make into the memory
-- allocator, the virtual memory and the file system.
use operating_systems.Prelude.{ℕ, Bool, Option, List}
use operating_systems.Proc.{Proc}

-- The calls into kalloc.c, vm.c, file.c and fs.c. An address 0 is a failed allocation; `uvmcopy`
-- and `copyout` return whether they succeed.
pub record Resources : Type 1 where
  pub Store : Type 0
  pub kalloc : Store → ℕ × Store
  pub kfree : ℕ → Store → Store
  pub proc_pagetable : ℕ → Store → ℕ × Store
  pub proc_freepagetable : ℕ → ℕ → Store → Store
  pub uvmcopy : ℕ → ℕ → ℕ → Store → Bool × Store
  pub copyout : ℕ → ℕ → ℕ → Store → Bool × Store
  pub filedup : ℕ → Store → Store
  pub fileclose : ℕ → Store → Store
  pub idup : Option ℕ → Store → Store
  pub iput : Option ℕ → Store → Store

-- `proc`, `nextpid`, `initproc`, and the state behind the calls.
pub record Kernel (S : Type 0) : Type 0 where
  pub procs : List Proc
  pub nextpid : ℕ
  pub initproc : Option ℕ
  pub store : S
