-- ===== src/Workers.antt =====
-- Pthread-Synchronization-Offline-04/master-worker/master-worker.c: the masters and workers that
-- share a buffer. What a thread does while it holds `mutex` is one step; a thread in
-- `pthread_cond_wait` is asleep until a broadcast, or a spurious wakeup, which POSIX allows, lets it
-- take the mutex again. `total` and `max` are `total_items` and `max_buf_size`.
pub mod Places
pub mod Items
pub mod Progress
mod Tests
use operating_systems.Prelude.{
  ℕ, suc, ◌+◌, ◌-◌, Bool, ◌&&◌, none, some, List, [], ◌∷◌, map, ◌==◌, ltb, leb, if◌then◌else◌, set,
  get_elem?, replicate,
}

-- Where a thread stands: at the test of its outer loop, about to take the mutex and test its inner
-- loop, in `pthread_cond_wait`, or behind its outer loop.
pub data Pc : Type 0 where
  top locking asleep finished : Pc

-- The shared variables, the items that `print_consumed` has printed, the last one first, and the
-- threads.
pub record State : Type 0 where
  pub item_to_produce : ℕ
  pub item_to_consume : ℕ
  pub curr_buf_size : ℕ
  pub buffer : ℕ → ℕ
  pub printed : List ℕ
  pub masters : List Pc
  pub workers : List Pc

-- `pthread_cond_broadcast`, on one waiting thread.
pub signal : Pc → Pc
signal asleep = locking
signal p = p

pub broadcast : List Pc → List Pc
unfolding signal
broadcast ps = map signal ps

-- Which thread runs, or is woken without a broadcast.
pub data Event : Type 0 where
  master worker wakes_master wakes_worker : ℕ → Event

module _ (total max : ℕ) where
  -- The body of `generate_requests_loop` from `pthread_mutex_lock` on, for the master `i`.
  pub produce : ℕ → State → State
  unfolding broadcast
  produce i s =
      if leb max s.curr_buf_size && ltb s.item_to_produce total
      then record s { masters = set s.masters i asleep }
      else if s.item_to_produce == total
      then record s { masters = set s.masters i finished }
      else record s {
        buffer = λ q. if s.curr_buf_size == q then s.item_to_produce else s.buffer q;
        curr_buf_size = s.curr_buf_size + 1;
        item_to_produce = s.item_to_produce + 1;
        workers = broadcast s.workers;
        masters = set s.masters i top;
      }

  -- The body of `consume_requests_loop` from `pthread_mutex_lock` on, for the worker `i`.
  pub consume : ℕ → State → State
  unfolding broadcast
  consume i s =
      if s.curr_buf_size == 0 && ltb s.item_to_consume total
      then record s { workers = set s.workers i asleep }
      else if s.item_to_consume == total
      then record s { workers = set s.workers i finished }
      else record s {
        curr_buf_size = s.curr_buf_size - 1;
        printed = s.buffer (s.curr_buf_size - 1) ∷ s.printed;
        item_to_consume = s.item_to_consume + 1;
        masters = broadcast s.masters;
        workers = set s.workers i top;
      }

  -- The next step of the master `i`, which takes none while it is asleep.
  pub generate_requests_loop : ℕ → State → State
  unfolding produce
  generate_requests_loop i s = elim (get_elem? s.masters i) [
    | none ↦ s
    | some top ↦ record s {
      masters = set s.masters i (if ltb s.item_to_produce total then locking else finished);
    }
    | some locking ↦ produce i s
    | some asleep ↦ s
    | some finished ↦ s
  ]

  pub consume_requests_loop : ℕ → State → State
  unfolding consume
  consume_requests_loop i s = elim (get_elem? s.workers i) [
    | none ↦ s
    | some top ↦ record s {
      workers = set s.workers i (if ltb s.item_to_consume total then locking else finished);
    }
    | some locking ↦ consume i s
    | some asleep ↦ s
    | some finished ↦ s
  ]

  pub step : Event → State → State
  unfolding generate_requests_loop consume_requests_loop signal
  step (master i) s = generate_requests_loop i s
  step (worker i) s = consume_requests_loop i s
  step (wakes_master i) s = elim (get_elem? s.masters i) [
    | none ↦ s
    | some p ↦ record s { masters = set s.masters i (signal p) }
  ]
  step (wakes_worker i) s = elim (get_elem? s.workers i) [
    | none ↦ s
    | some p ↦ record s { workers = set s.workers i (signal p) }
  ]

  pub run : List Event → State → State
  unfolding step
  run [] s = s
  run (e ∷ es) s = run es (step e s)

-- The state in which `main` has created its threads; `memory` is what `malloc` left in the buffer.
pub created : ℕ → ℕ → (ℕ → ℕ) → State
created num_masters num_workers memory = record {
  item_to_produce = 0;
  item_to_consume = 0;
  curr_buf_size = 0;
  buffer = memory;
  printed = [];
  masters = replicate num_masters top;
  workers = replicate num_workers top;
}
