-- ===== src/Workers/Progress.antt =====
-- The threads of the master-worker program never all wait for each other.
use operating_systems.Prelude.{
  ℕ, ◌<◌, ◌≡◌, refl, arith, List, [], ◌∷◌, get_elem?, length, length-set, length-map,
  length-replicate, ◌∙◌, ◌⊎◌, inl, inr, Option-cases,
}
use operating_systems.Workers.{
  Pc, top, locking, asleep, finished, State, Event, master, worker, wakes_master, wakes_worker,
  step, run, created, produce, consume, generate_requests_loop, consume_requests_loop, signal,
  broadcast,
}
use operating_systems.Workers.Places.{AllAre, Produces, Consumes}
use operating_systems.Workers.Items.{IsValid, reached, reached-IsValid}

-- A thread that waits or has ended.
abbrev pub IsBlocked : Pc → Type 0
IsBlocked top = ⊥
IsBlocked locking = ⊥
IsBlocked asleep = Unit
IsBlocked finished = Unit

abbrev pub IsFinished : Pc → Type 0
IsFinished p = p ≡ finished

module _ (total max : ℕ) where
  -- All items are made: no master can sleep.
  masters-IsFinished :
      (made size : ℕ) (ps : List Pc)
      → made ≡ total
      → AllAre (Produces total max made size) ps
      → AllAre IsBlocked ps
      → AllAre IsFinished ps
  masters-IsFinished made size [] h a b = tt
  masters-IsFinished made size (top ∷ ps) h a b = absurd b.0
  masters-IsFinished made size (locking ∷ ps) h a b = absurd b.0
  masters-IsFinished made size (asleep ∷ ps) h a b = absurd (omega (arith, a.0.1))
  masters-IsFinished made size (finished ∷ ps) h a b =
      (refl, masters-IsFinished made size ps h a.1 b.1)

  workers-IsFinished :
      (used size : ℕ) (ps : List Pc)
      → used ≡ total
      → AllAre (Consumes total used size) ps
      → AllAre IsBlocked ps
      → AllAre IsFinished ps
  workers-IsFinished used size [] h a b = tt
  workers-IsFinished used size (top ∷ ps) h a b = absurd b.0
  workers-IsFinished used size (locking ∷ ps) h a b = absurd b.0
  workers-IsFinished used size (asleep ∷ ps) h a b = absurd (omega (arith, a.0.1))
  workers-IsFinished used size (finished ∷ ps) h a b =
      (refl, workers-IsFinished used size ps h a.1 b.1)

  -- A blocked master before a buffer with room has ended.
  made_all :
      (made size : ℕ) (ps : List Pc)
      → 0 < length ps
      → size < max
      → AllAre (Produces total max made size) ps
      → AllAre IsBlocked ps
      → made ≡ total
  made_all made size [] n h a b = absurd (omega arith)
  made_all made size (top ∷ ps) n h a b = absurd b.0
  made_all made size (locking ∷ ps) n h a b = absurd b.0
  made_all made size (asleep ∷ ps) n h a b = absurd (omega (arith, a.0.0))
  made_all made size (finished ∷ ps) n h a b = a.0

  -- A blocked worker waits at an empty buffer, or has ended.
  first_worker :
      (used size : ℕ) (ps : List Pc)
      → 0 < length ps
      → AllAre (Consumes total used size) ps
      → AllAre IsBlocked ps
      → (size ≡ 0) ⊎ (used ≡ total)
  first_worker used size [] n a b = absurd (omega arith)
  first_worker used size (top ∷ ps) n a b = absurd b.0
  first_worker used size (locking ∷ ps) n a b = absurd b.0
  first_worker used size (asleep ∷ ps) n a b = inl a.0.0
  first_worker used size (finished ∷ ps) n a b = inr a.0

  used_all :
      (s : State)
      → IsValid total max s
      → 0 < max
      → 0 < length s.masters
      → 0 < length s.workers
      → AllAre IsBlocked s.masters
      → AllAre IsBlocked s.workers
      → s.item_to_consume ≡ total
  used_all s v room m w bm bw =
      elim (first_worker s.item_to_consume s.curr_buf_size s.workers w v.consumers bw) [
        | inl drained ↦
            let made =
              made_all s.item_to_produce s.curr_buf_size s.masters m (omega arith) v.producers bm in
            omega (arith, made, v.balanced)
        | inr used ↦ used
      ]

  length-step :
      (e : Event) (s : State)
      → (length (step total max e s).masters ≡ length s.masters)
        × (length (step total max e s).workers ≡ length s.workers)
  unfolding step generate_requests_loop consume_requests_loop produce consume broadcast
  length-step (master i) s = ground (
    arith,
    length-set s.masters i top,
    length-set s.masters i locking,
    length-set s.masters i asleep,
    length-set s.masters i finished,
    length-map s.workers signal,
  )
  length-step (worker i) s = ground (
    arith,
    length-set s.workers i top,
    length-set s.workers i locking,
    length-set s.workers i asleep,
    length-set s.workers i finished,
    length-map s.masters signal,
  )
  length-step (wakes_master i) s = elim (Option-cases (get_elem? s.masters i)) [
    | inl gone ↦ rw (gone, step) (refl, refl)
    | inr (p, at) ↦ rw (at, step) (ground (arith, length-set s.masters i (signal p)))
  ]
  length-step (wakes_worker i) s = elim (Option-cases (get_elem? s.workers i)) [
    | inl gone ↦ rw (gone, step) (refl, refl)
    | inr (p, at) ↦ rw (at, step) (ground (arith, length-set s.workers i (signal p)))
  ]

  length-run :
      (es : List Event) (s : State)
      → (length (run total max es s).masters ≡ length s.masters)
        × (length (run total max es s).workers ≡ length s.workers)
  unfolding run
  length-run [] s = (refl, refl)
  length-run (e ∷ es) s =
      let (a, b) = length-run es (step total max e s) in
      let (c, d) = length-step e s in (a ∙ c, b ∙ d)

  -- With at least one master, one worker and one place in the buffer, the threads never all wait
  -- for each other: in every state they reach in which each of them waits or has ended, each has
  -- ended.
  pub reached-IsFinished :
      (num_masters num_workers : ℕ) (memory : ℕ → ℕ) (es : List Event)
      → 0 < max
      → 0 < num_masters
      → 0 < num_workers
      → AllAre IsBlocked (reached total max num_masters num_workers memory es).masters
      → AllAre IsBlocked (reached total max num_masters num_workers memory es).workers
      → AllAre IsFinished (reached total max num_masters num_workers memory es).masters
        × AllAre IsFinished (reached total max num_masters num_workers memory es).workers
  unfolding created
  reached-IsFinished num_masters num_workers memory es room m w bm bw =
      let s = reached total max num_masters num_workers memory es in
      let v = reached-IsValid total max num_masters num_workers memory es in
      let (lm, lw) = length-run es (created num_masters num_workers memory) in
      let some_master : 0 < length s.masters = rw (lm, length-replicate num_masters top) m in
      let some_worker : 0 < length s.workers = rw (lw, length-replicate num_workers top) w in
      let used = used_all s v room some_master some_worker bm bw in
      (
        masters-IsFinished s.item_to_produce s.curr_buf_size s.masters
            (omega (arith, used, v.balanced, v.bounded)) v.producers bm,
        workers-IsFinished s.item_to_consume s.curr_buf_size s.workers used v.consumers bw,
      )
