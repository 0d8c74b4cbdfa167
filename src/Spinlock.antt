-- ===== src/Spinlock.antt =====
-- xv6-Lottery-Scheduler-Offline-03/kernel/spinlock.c: spin locks, and the nesting of the sections
-- with interrupts off. The memory fences, which change no value, are left out.
pub mod Nesting
mod Tests
use operating_systems.Prelude.{
  ℕ, zero, suc, Bool, true, false, ◌&&◌, not, Option, none, some, ◌==◌, if◌then◌else◌, add32, sub32,
  slt32,
}

-- `struct cpu`, less its process and its context: `noff` is a 32-bit pattern, and `intr` is whether
-- the CPU's interrupts are on.
pub record Cpu : Type 0 where
  pub id : ℕ
  pub noff : ℕ
  pub intena : Bool
  pub intr : Bool

-- `struct spinlock`, less its name; `cpu` is `none` for null.
pub record Spinlock : Type 0 where
  pub locked : Bool
  pub cpu : Option ℕ

pub initlock : Spinlock
initlock = record { locked = false; cpu = none }

unfoldable pub push_off : Cpu → Cpu
push_off c = record c {
  intr = false;
  intena = if c.noff == 0 then c.intr else c.intena;
  noff = add32 c.noff 1;
}

-- `none` is a panic.
unfoldable pub pop_off : Cpu → Option Cpu
pop_off c =
    if c.intr
    then none
    else if slt32 c.noff 1
    then none
    else (let d = record c { noff = sub32 c.noff 1 } in
        some (if d.noff == 0 && d.intena then record d { intr = true } else d))

-- Whether a lock's `cpu` is the CPU `i`.
abbrev pub held_by : ℕ → Option ℕ → Bool
held_by i none = false
held_by i (some j) = i == j

pub holding : Cpu → Spinlock → Bool
holding c lk = lk.locked && held_by c.id lk.cpu

-- How a call of `acquire` ends, or that it spins on a lock that another CPU holds.
pub data Acquired : Type 0 where
  panics spins : Acquired
  acquired : Cpu → Spinlock → Acquired

pub acquire : Cpu → Spinlock → Acquired
unfolding push_off holding
acquire c lk =
    let d = push_off c in
    if holding d lk
    then panics
    else if lk.locked
    then spins
    else acquired d (record { locked = true; cpu = some d.id })

-- `none` is a panic.
pub release : Cpu → Spinlock → Option (Cpu × Spinlock)
unfolding pop_off holding
release c lk =
    if not (holding c lk)
    then none
    else elim (pop_off c) [ none ↦ none | some d ↦ some (d, record { locked = false; cpu = none }) ]
