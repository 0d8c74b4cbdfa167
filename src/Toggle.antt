-- ===== src/Toggle.antt =====
-- Pthread-Synchronization-Offline-04/zemaphore: zemaphore.c, and the three threads of test-toggle.c
-- that take turns by it. What a call does while it holds `s->lock` is one step. Thread `i` is the
-- only one that calls `zem_down` on semaphore `i`, so that it is the one that a signal can wake;
-- `pthread_cond_wait` may also return without one. A value is never negative here. `main` creates
-- thread `i` before it calls `zem_init` for the next semaphore, and `zem_up` may come first: it then
-- finds a semaphore filled with 0, whose lock and condition work, as those of Linux do.
pub mod Places
pub mod Turns
mod Tests
use operating_systems.Prelude.{
  ℕ, zero, suc, ◌+◌, ◌-◌, ◌%◌, ◌<◌, ◌≡◌, Bool, true, false, ◌==◌, ltb, if◌then◌else◌, List, [], ◌∷◌,
}

abbrev pub num_iter : ℕ
num_iter = 10

-- Where a thread stands: not yet created, about to take the lock in `zem_down`, in `pthread_cond_wait`, behind
-- `zem_down`, behind `printf`, or behind its loop.
pub data Pc : Type 0 where
  absent locking asleep entered shown finished : Pc

-- The values of the semaphores, the places of the threads and their `i`, the thread numbers that are
-- printed, the last one first, and the `i` of `main`'s first loop.
pub record State : Type 0 where
  pub value : ℕ → ℕ
  pub pc : ℕ → Pc
  pub iter : ℕ → ℕ
  pub printed : List ℕ
  pub made : ℕ

abbrev pub put {ℓ} : {A : Type ℓ} → ℕ → A → (ℕ → A) → ℕ → A
put i v f j = if i == j then v else f j

-- `pthread_cond_signal`, on a thread that may wait.
abbrev pub signal : Pc → Pc
signal absent = absent
signal locking = locking
signal asleep = locking
signal entered = entered
signal shown = shown
signal finished = finished

-- `zem_down(&zemaphores[i])` of the thread `i`, from `pthread_mutex_lock` or the return of
-- `pthread_cond_wait` on.
unfoldable pub zem_down : ℕ → State → State
zem_down i s =
    if ltb 0 (s.value i)
    then record s { value = put i (s.value i - 1) s.value; pc = put i entered s.pc }
    else record s { pc = put i asleep s.pc }

-- `zem_up(&zemaphores[j])`
unfoldable pub zem_up : ℕ → State → State
zem_up j s = record s { value = put j (s.value j + 1) s.value; pc = put j (signal (s.pc j)) s.pc }

-- `printf` of the thread `i`.
abbrev pub show : ℕ → State → State
show i s = record s { printed = i ∷ s.printed; pc = put i shown s.pc }

-- The last call of the round of the thread `i`, and the test of its loop.
unfoldable pub pass_on : ℕ → State → State
unfolding zem_up
pass_on i s =
    let t = zem_up ((i + 1) % 3) s in
    record t {
      iter = put i (s.iter i + 1) s.iter;
      pc = put i (if ltb (s.iter i + 1) num_iter then locking else finished) t.pc;
    }

-- A round of `main`'s first loop: `zem_init` of semaphore `i`, and the creation of thread `i`.
unfoldable pub create : State → State
create s =
    let i = s.made in
    record s {
      value = put i (if i == 0 then 1 else 0) s.value;
      pc = put i locking s.pc;
      made = i + 1;
    }

-- The steps of `main` and of the threads.
pub data Step : State → State → Type 0 where
  creates : (s : State) → s.made < 3 → Step s (create s)
  downs : (i : ℕ) (s : State) → i < 3 → s.pc i ≡ locking → Step s (zem_down i s)
  wakes :
      (i : ℕ) (s : State) → i < 3 → s.pc i ≡ asleep → Step s (record s { pc = put i locking s.pc })
  shows : (i : ℕ) (s : State) → i < 3 → s.pc i ≡ entered → Step s (show i s)
  passes : (i : ℕ) (s : State) → i < 3 → s.pc i ≡ shown → Step s (pass_on i s)

-- The state in which `main` starts: the semaphores are globals, so all is 0.
abbrev pub started : State
started = record { value = λ j. 0; pc = λ i. absent; iter = λ i. 0; printed = []; made = 0 }

pub data IsReachable : State → Type 0 where
  starts : IsReachable started
  goes_on : (s t : State) → IsReachable s → Step s t → IsReachable t
