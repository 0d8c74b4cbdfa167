-- ===== src/Proc/Sleep.antt =====
-- kernel/proc.c: `wakeup`, the part of `sleep` in front of `sched`, `yield`, `kill`, `setkilled`,
-- `killed`.
use mathlib.Core.Option
use operating_systems.Prelude.{
  ℕ, zero, suc, ◌+◌, ◌≡◌, refl, arith, List, [], ◌∷◌, some, ◌&&◌, not, ◌==◌, if◌then◌else◌,
  minus_one, get_elem?,
}
use operating_systems.Proc.{Proc, Chan, null, same_chan, sleeping, runnable, is_sleeping}

-- The test and the assignment of `wakeup` on one process.
wake : Chan → Proc → Proc
wake c p = if is_sleeping p && same_chan p.chan c then record p { state = runnable } else p

-- The body of the loop of `wakeup`, called by the process at `me`, for slot `i`.
unfoldable pub woken : ℕ → Chan → ℕ → Proc → Proc
unfolding wake
woken me c i p = if i == me then p else wake c p

unfoldable pub wakeup_from : ℕ → Chan → ℕ → List Proc → List Proc
wakeup_from me c i [] = []
wakeup_from me c i (p ∷ ps) = woken me c i p ∷ wakeup_from me c (suc i) ps

unfoldable pub wakeup : ℕ → Chan → List Proc → List Proc
unfolding wakeup_from woken
wakeup me c ps = wakeup_from me c 0 ps

-- `sleep`, up to the call of `sched`. The caller's own lock is not part of the table.
unfoldable pub sleep : Chan → Proc → Proc
sleep c p = record p { chan = c; state = sleeping }

-- `sleep`, behind `sched`.
unfoldable pub awake : Proc → Proc
awake p = record p { chan = null }

-- `yield`, up to the call of `sched`.
unfoldable pub yield : Proc → Proc
yield p = record p { state = runnable }

-- `kill` on the process that it finds.
unfoldable pub kill_proc : Proc → Proc
kill_proc p =
    if is_sleeping p then record p { killed = 1; state = runnable } else record p { killed = 1 }

-- The loop of `kill`: the table, and the return value.
unfoldable pub kill : ℕ → List Proc → List Proc × ℕ
unfolding kill_proc
kill pid [] = ([], minus_one)
kill pid (p ∷ ps) =
    if p.pid == pid then (kill_proc p ∷ ps, 0) else let (ps', code) = kill pid ps in (p ∷ ps', code)

unfoldable pub setkilled : Proc → Proc
setkilled p = record p { killed = 1 }

unfoldable pub killed : Proc → ℕ
killed p = p.killed

get_elem?-wakeup_from :
    (me : ℕ) (c : Chan) (k : ℕ) (ps : List Proc) (i : ℕ)
    → get_elem? (wakeup_from me c k ps) i ≡ Option.map (woken me c (k + i)) (get_elem? ps i)
unfolding wakeup_from
get_elem?-wakeup_from me c k [] i = refl
get_elem?-wakeup_from me c k (p ∷ ps) zero = let e : k + 0 ≡ k = omega arith in rw e refl
get_elem?-wakeup_from me c k (p ∷ ps) (suc i) =
    let e : k + suc i ≡ suc k + i = omega arith in rw e (get_elem?-wakeup_from me c (suc k) ps i)

-- What `wakeup` leaves in each slot.
pub get_elem?-wakeup :
    (me : ℕ) (c : Chan) (ps : List Proc) (i : ℕ)
    → get_elem? (wakeup me c ps) i ≡ Option.map (woken me c i) (get_elem? ps i)
unfolding wakeup
get_elem?-wakeup me c ps i =
    let e : 0 + i ≡ i = omega arith in rw e at (get_elem?-wakeup_from me c 0 ps i)

-- A `wakeup` on channel `c` makes every process that sleeps on `c` RUNNABLE, but for the caller,
-- and changes no other slot and no other field.
pub wakeup_wakes :
    (me : ℕ) (c : Chan) (ps : List Proc) (i : ℕ) (p : Proc)
    → get_elem? ps i ≡ some p
    → get_elem? (wakeup me c ps) i
      ≡ some (
          if not (i == me) && is_sleeping p && same_chan p.chan c
          then record p { state = runnable }
          else p)
unfolding woken
wakeup_wakes me c ps i p h = rw (get_elem?-wakeup me c ps i) (rw h (ground arith))
