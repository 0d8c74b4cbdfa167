-- ===== src/Syscall.antt =====
-- xv6-System-Call-Offline-02/kernel/syscall.c and sysproc.c: the dispatch of system calls with the
-- tracing that `sys_trace` sets up, and `sys_sysinfo` over `freemem` and `aliveproc`. What the other
-- system calls do to the caller and to the rest of the kernel is a parameter.
pub mod Fetch
pub mod Trace
mod Tests
use operating_systems.Prelude.{
  ℕ, zero, suc, ◌+◌, ◌-◌, ◌%◌, ◌^◌, Bool, true, false, ◌&&◌, not, Option, none, some, ◌==◌, ltb,
  slt32, u32_mod, if◌then◌else◌, List, [], ◌∷◌, ◌++◌,
}

-- `SYS_trace`, `SYS_sysinfo` and `NELEM(syscalls)`. Every entry from 1 on is set.
abbrev pub sys_trace_number : ℕ
sys_trace_number = 22

abbrev pub sys_sysinfo_number : ℕ
sys_sysinfo_number = 23

abbrev pub nelem : ℕ
nelem = 24

-- The process that calls: its `pid`, `tracer`, and the registers `a0` to `a5` and `a7` of its trap
-- frame.
pub record Caller : Type 0 where
  pub pid : ℕ
  pub tracer : ℕ
  pub args : ℕ → ℕ
  pub a7 : ℕ

-- What is printed: an unknown call, with the pid and the number; a traced call, with the pid, the
-- number of its title and the return value, or for number 0 with `(null)` as its title; and what
-- `sys_sysinfo` prints.
pub data Line : Type 0 where
  unknown : ℕ → ℕ → Line
  traced : ℕ → ℕ → ℕ → Line
  untitled : ℕ → ℕ → ℕ → Line
  sysinfo : ℕ → ℕ → Line

-- `argraw`; `none` is its panic.
pub argraw : ℕ → Caller → Option ℕ
argraw n p = if ltb n 6 then some (p.args n) else none

-- `p->trapframe->a0 = v`
abbrev pub set_a0 : ℕ → Caller → Caller
set_a0 v p = record p { args = λ n. if n == 0 then v else p.args n }

-- `aliveproc`: of the processes, those whose state is not `UNUSED`.
pub aliveproc : List Bool → ℕ
aliveproc [] = 0
aliveproc (unused ∷ ps) = if unused then aliveproc ps else suc (aliveproc ps)

-- What a system call returns, the caller and the kernel behind it, and what it prints.
pub record Called (K : Type 0) : Type 0 where
  pub result : ℕ
  pub caller : Caller
  pub kernel : K
  pub lines : List Line

-- How a call ends: it returns; it does not, as `exit`; or the tracing reads `syscalltitles` past its
-- end, which C leaves undefined.
pub data Ended (K : Type 0) : Type 0 where
  returns : Called K → Ended K
  gone : Ended K
  wild : Ended K

-- The other calls, where `none` is a call that does not return, `freemem` and which processes are
-- `UNUSED`.
pub record Calls (K : Type 0) : Type 0 where
  pub other : ℕ → Caller → K → Option (ℕ × Caller × K)
  pub free_bytes : K → ℕ
  pub unused : K → List Bool

module _ {K : Type 0} (calls : Calls K) where
  unfoldable pub sys_trace : Caller → K → Called K
  sys_trace p k = record {
    result = 0;
    caller = record p { tracer = p.args 0 % u32_mod };
    kernel = k;
    lines = [];
  }

  unfoldable pub sys_sysinfo : Caller → K → Called K
  unfolding aliveproc
  sys_sysinfo p k = record {
    result = 0;
    caller = p;
    kernel = k;
    lines = sysinfo (calls.free_bytes k) (aliveproc (calls.unused k)) ∷ [];
  }

  -- What another call makes.
  abbrev pub called : Option (ℕ × Caller × K) → Option (Called K)
  called none = none
  called (some (v, q, k1)) = some (record { result = v; caller = q; kernel = k1; lines = [] })

  -- `syscalls[num]()`
  unfoldable pub syscalls : ℕ → Caller → K → Option (Called K)
  unfolding sys_trace sys_sysinfo
  syscalls num p k =
      if num == sys_trace_number
      then some (sys_trace p k)
      else if num == sys_sysinfo_number
      then some (sys_sysinfo p k)
      else called (calls.other num p k)

  -- `p->trapframe->a0 = ` behind the call.
  abbrev pub stored : Option (Called K) → Option (Called K)
  stored none = none
  stored (some c) = some (record c { caller = set_a0 c.result c.caller })

  -- The first part of `syscall`.
  unfoldable pub call_entry : ℕ → Caller → K → Option (Called K)
  unfolding syscalls
  call_entry num p k =
      if slt32 0 num && ltb num nelem
      then stored (syscalls num p k)
      else some (record {
        result = 2 ^ 64 - 1;
        caller = set_a0 (2 ^ 64 - 1) p;
        kernel = k;
        lines = unknown p.pid num ∷ [];
      })

  -- The line for tracing, if any; `%d` prints the lower half of `a0`. `none` is a read past the end
  -- of `syscalltitles`, which has as many entries as `syscalls`.
  abbrev pub trace_line : ℕ → Caller → Option (List Line)
  trace_line num p =
      if p.tracer == num
      then if num == 0
        then some (untitled p.pid num (p.args 0 % u32_mod) ∷ [])
        else if ltb num nelem
        then some (traced p.pid num (p.args 0 % u32_mod) ∷ [])
        else none
      else some []

  -- The second part of `syscall`, behind a call that returned.
  abbrev pub trace_entry : Called K → Option (List Line) → Ended K
  trace_entry c none = wild
  trace_entry c (some ls) = returns (record c { lines = c.lines ++ ls })

  abbrev pub trace_call : ℕ → Option (Called K) → Ended K
  trace_call num none = gone
  trace_call num (some c) = trace_entry c (trace_line num c.caller)

  -- `syscall`
  unfoldable pub syscall : Caller → K → Ended K
  unfolding call_entry
  syscall p k = let num = p.a7 % u32_mod in trace_call num (call_entry num p k)
