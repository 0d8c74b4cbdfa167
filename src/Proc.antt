-- ===== src/Proc.antt =====
-- xv6-Lottery-Scheduler-Offline-03/kernel/proc.h, param.h and pstat.h: the process table.
-- A pointer to a `struct proc` is its index in the table, and the null pointer is `none`. Locks are
-- not fields: the kernel runs on one CPU (`CPUS := 1` in the Makefile), and each function is taken
-- as a step that no other process interrupts.
pub mod Kernel
pub mod Sleep
pub mod Life
pub mod Ids
pub mod Orphans
pub mod Child
pub mod Samples
mod Tests
use operating_systems.Prelude.{ℕ, Bool, true, false, Option, some, none, List, ◌==◌}

abbrev pub nproc : ℕ
nproc = 64

abbrev pub nofile : ℕ
nofile = 16

-- `enum procstate`
pub data ProcState : Type 0 where
  unused used sleeping runnable running zombie : ProcState

-- `struct trapframe`, its page's contents: the registers that the kernel reads or writes by name,
-- and all the others, which are only copied.
pub record TrapFrame : Type 0 where
  pub epc : ℕ
  pub sp : ℕ
  pub a0 : ℕ
  pub a7 : ℕ
  pub others : List ℕ

-- `struct context`: `ra`, `sp`, and the callee-saved registers.
pub record Context : Type 0 where
  pub ra : ℕ
  pub sp : ℕ
  pub saved : List ℕ

-- What a `void *chan` points to: nothing, a slot of the process table, or another object.
pub data Chan : Type 0 where
  null : Chan
  slot : ℕ → Chan
  other : ℕ → Chan

abbrev pub same_chan : Chan → Chan → Bool
same_chan null null = true
same_chan (slot i) (slot j) = i == j
same_chan (other i) (other j) = i == j
same_chan _ _ = false

-- A `struct proc *` used as a channel.
abbrev pub chan_of : Option ℕ → Chan
chan_of none = null
chan_of (some i) = slot i

-- `p == q` on `struct proc *`.
abbrev pub same_proc : Option ℕ → Option ℕ → Bool
same_proc none none = true
same_proc (some i) (some j) = i == j
same_proc _ _ = false

-- `struct proc`. Every `int` is a 32-bit pattern. `trapframe` and `pagetable` are addresses, 0 for
-- null, and `frame` is what `trapframe` points to. A file or an inode is its index. `name` is the
-- text in front of the NUL.
pub record Proc : Type 0 where
  pub state : ProcState
  pub chan : Chan
  pub killed : ℕ
  pub xstate : ℕ
  pub pid : ℕ
  pub initial_tickets : ℕ
  pub current_tickets : ℕ
  pub ticks_used : ℕ
  pub parent : Option ℕ
  pub kstack : ℕ
  pub sz : ℕ
  pub pagetable : ℕ
  pub trapframe : ℕ
  pub frame : TrapFrame
  pub context : Context
  pub ofile : List (Option ℕ)
  pub cwd : Option ℕ
  pub name : List ℕ

abbrev pub is_unused : Proc → Bool
is_unused p = elim (p.state) [ unused ↦ true | _ ↦ false ]

abbrev pub is_sleeping : Proc → Bool
is_sleeping p = elim (p.state) [ sleeping ↦ true | _ ↦ false ]

abbrev pub is_runnable : Proc → Bool
is_runnable p = elim (p.state) [ runnable ↦ true | _ ↦ false ]

abbrev pub is_zombie : Proc → Bool
is_zombie p = elim (p.state) [ zombie ↦ true | _ ↦ false ]
