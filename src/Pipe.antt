-- ===== src/Pipe.antt =====
-- xv6-Lottery-Scheduler-Offline-03/kernel/pipe.c: `pipewrite`, `piperead` and `pipeclose` on a pipe.
-- A call runs until it returns or sleeps; the user's memory is what `copyin` and `copyout` say of
-- each byte. `wakeup` on the pipe's channels is in the result.
pub mod Buffer
pub mod Flow
mod Tests
use operating_systems.Prelude.{
  ℕ, zero, suc, ◌+◌, ◌%◌, Bool, true, false, ◌&&◌, ◌||◌, not, Option, none, some, add32, slt32,
  ◌==◌, if◌then◌else◌, List, [], ◌∷◌, set, get_elem?, get_or,
}

-- `PIPESIZE`
abbrev pub pipe_size : ℕ
pipe_size = 512

-- `struct pipe`, less its lock. `nread` and `nwrite` are 32-bit counters that wrap.
pub record Pipe : Type 0 where
  pub buf : List ℕ
  pub nread : ℕ
  pub nwrite : ℕ
  pub readopen : Bool
  pub writeopen : Bool

-- Why a call stops: it returns a count, it returns -1, or it calls `sleep` with `i` bytes done.
pub data Stop : Type 0 where
  returned : ℕ → Stop
  failed : Stop
  asleep : ℕ → Stop

-- `pi->data[pi->nwrite++ % PIPESIZE] = ch`
unfoldable pub put : ℕ → Pipe → Pipe
put ch pi = record pi { buf = set pi.buf (pi.nwrite % pipe_size) ch; nwrite = add32 pi.nwrite 1 }

-- `pi->nread++`, and the byte `pi->data[pi->nread % PIPESIZE]` in front of it.
unfoldable pub advance : Pipe → Pipe
advance pi = record pi { nread = add32 pi.nread 1 }

unfoldable pub front : Pipe → ℕ
front pi = get_or pi.buf (pi.nread % pipe_size) 0

-- The rounds of a loop that counts `i` from 0 on while `i < n`, for an `int n`: none when `n` is
-- negative.
abbrev pub rounds : ℕ → ℕ
rounds n = if slt32 0 n then n else 0

-- The loop of `pipewrite` with `m` of its rounds left. `src i` is the byte that `copyin` reads at
-- `addr + i`, if it succeeds; `dead` is `killed(pr)`.
pub write_from : (ℕ → Option ℕ) → Bool → ℕ → ℕ → Pipe → Stop × Pipe
unfolding put
write_from src dead zero i pi = (returned i, pi)
write_from src dead (suc m) i pi = elim (not pi.readopen || dead) [
  | true ↦ (failed, pi)
  | false ↦ elim (pi.nwrite == add32 pi.nread pipe_size) [
    | true ↦ (asleep i, pi)
    | false ↦ elim (src i) [
      | none ↦ (returned i, pi)
      | some ch ↦ write_from src dead m (suc i) (put ch pi)
    ]
  ]
]

pub pipewrite : (ℕ → Option ℕ) → Bool → ℕ → Pipe → Stop × Pipe
unfolding write_from
pipewrite src dead n pi = write_from src dead (rounds n) 0 pi

-- The copying loop of `piperead` with `m` of its rounds left: the count, the bytes that reach the user,
-- and the pipe. `dst i` is whether `copyout` to `addr + i` succeeds.
pub read_from : (ℕ → Bool) → ℕ → ℕ → Pipe → ℕ × List ℕ × Pipe
unfolding advance front
read_from dst zero i pi = (i, [], pi)
read_from dst (suc m) i pi = elim (pi.nread == pi.nwrite) [
  | true ↦ (i, [], pi)
  | false ↦ elim (dst i) [
    | false ↦ (i, [], advance pi)
    | true ↦ let (n, out, pi') = read_from dst m (suc i) (advance pi) in (n, front pi ∷ out, pi')
  ]
]

-- `piperead`: the waiting loop's first round, then the copying loop.
pub piperead : (ℕ → Bool) → Bool → ℕ → Pipe → Stop × List ℕ × Pipe
unfolding read_from
piperead dst dead n pi =
    let (i, out, pi') = read_from dst (rounds n) 0 pi in
    if pi.nread == pi.nwrite && pi.writeopen
    then (if dead then failed else asleep 0, [], pi)
    else (returned i, out, pi')

-- `pipeclose`: the pipe, and whether its page is freed.
pub pipeclose : Bool → Pipe → Pipe × Bool
pipeclose writable pi =
    let pi' =
      if writable then record pi { writeopen = false } else record pi { readopen = false } in
    (pi', not pi'.readopen && not pi'.writeopen)

-- The pipe that `pipealloc` sets up in a fresh page.
pub pipealloc : List ℕ → Pipe
pipealloc page = record { buf = page; nread = 0; nwrite = 0; readopen = true; writeopen = true }
