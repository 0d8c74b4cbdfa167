-- ===== src/Workers/Items.antt =====
-- The numbers and the items in every state that the threads reach.
use operating_systems.Prelude.{
  ℕ, zero, suc, ◌+◌, ◌-◌, ◌≤◌, ◌<◌, ◌≡◌, refl, ap, arith, ◌&&◌, some, List, [], ◌∷◌, ◌==◌, ltb, leb,
  if◌then◌else◌, set, get_elem?, Bool-cases, Option-cases, inl, inr,
}
use operating_systems.Workers.{
  Pc, top, locking, asleep, finished, State, signal, broadcast, produce, consume,
  generate_requests_loop, consume_requests_loop, Event, master, worker, wakes_master, wakes_worker,
  step, run, created,
}
use operating_systems.Workers.Places.{
  AllAre, AllAre-set, AllAre-map, AllAre-replicate, AllAre-at, AllAre-mono, Produces, Consumes,
  Produces-more, Produces-signal, Consumes-more, Consumes-signal,
}

-- How often `v` stands among the first `n` entries, and in a list.
unfoldable pub held : ℕ → ℕ → (ℕ → ℕ) → ℕ
held v zero f = 0
held v (suc n) f = (if f n == v then 1 else 0) + held v n f

unfoldable pub count : ℕ → List ℕ → ℕ
count v [] = 0
count v (x ∷ xs) = (if x == v then 1 else 0) + count v xs

held-write :
    (v n k x : ℕ) (f : ℕ → ℕ) → n ≤ k → held v n (λ q. if k == q then x else f q) ≡ held v n f
unfolding held
held-write v zero k x f h = refl
held-write v (suc n) k x f h = ground (arith, held-write v n k x f)

pub record IsValid (total max : ℕ) (s : State) : Type 0 where
  pub balanced : s.item_to_consume + s.curr_buf_size ≡ s.item_to_produce
  pub bounded : s.item_to_produce ≤ total
  pub fits : s.curr_buf_size ≤ max
  pub items :
      (v : ℕ)
      → held v s.curr_buf_size s.buffer + count v s.printed
        ≡ (if ltb v s.item_to_produce then 1 else 0)
  pub producers : AllAre (Produces total max s.item_to_produce s.curr_buf_size) s.masters
  pub consumers : AllAre (Consumes total s.item_to_consume s.curr_buf_size) s.workers

module _ (total max : ℕ) where
  module _ (s : State) (v : IsValid total max s) where
    -- A master that moves to a place which the numbers allow.
    set_master :
        (i : ℕ) (p : Pc)
        → Produces total max s.item_to_produce s.curr_buf_size p
        → IsValid total max (record s { masters = set s.masters i p })
    set_master i p h = record {
      balanced = v.balanced;
      bounded = v.bounded;
      fits = v.fits;
      items = v.items;
      producers =
          AllAre-set (Produces total max s.item_to_produce s.curr_buf_size) s.masters i p h
            v.producers;
      consumers = v.consumers;
    }

    set_worker :
        (i : ℕ) (p : Pc)
        → Consumes total s.item_to_consume s.curr_buf_size p
        → IsValid total max (record s { workers = set s.workers i p })
    set_worker i p h = record {
      balanced = v.balanced;
      bounded = v.bounded;
      fits = v.fits;
      items = v.items;
      producers = v.producers;
      consumers =
          AllAre-set (Consumes total s.item_to_consume s.curr_buf_size) s.workers i p h v.consumers;
    }

    produce-IsValid : (i : ℕ) → IsValid total max (produce total max i s)
    unfolding produce broadcast held
    produce-IsValid i = elim (Bool-cases (leb max s.curr_buf_size && ltb s.item_to_produce total)) [
      | inl full ↦ rw full (set_master i asleep (ground (arith, full), ground (arith, full)))
      | inr open_slot ↦ rw open_slot (elim (Bool-cases (s.item_to_produce == total)) [
        | inl over ↦ rw over (set_master i finished (ground (arith, over)))
        | inr more ↦
            let left : s.item_to_produce < total = ground (arith, more, v.bounded) in
            let room : s.curr_buf_size < max = ground (arith, open_slot, left) in
            rw more (record {
              balanced = omega (arith, v.balanced);
              bounded = omega arith;
              fits = omega arith;
              items = λ n. ground (
                arith,
                v.items n,
                held-write n s.curr_buf_size s.curr_buf_size s.item_to_produce s.buffer,
              );
              producers =
                  AllAre-set (Produces total max (s.item_to_produce + 1) (s.curr_buf_size + 1))
                    s.masters i top tt
                    (AllAre-mono _ _ s.masters
                      (Produces-more total max s.item_to_produce s.curr_buf_size left room)
                      v.producers);
              consumers =
                  AllAre-map _ _ s.workers signal
                    (Consumes-signal total s.item_to_consume s.curr_buf_size (s.curr_buf_size + 1))
                    v.consumers;
            })
      ])
    ]

    consume-IsValid : (i : ℕ) → IsValid total max (consume total max i s)
    unfolding consume broadcast held count
    consume-IsValid i = elim (Bool-cases (s.curr_buf_size == 0 && ltb s.item_to_consume total)) [
      | inl drained ↦
          rw drained (set_worker i asleep (ground (arith, drained), ground (arith, drained)))
      | inr some_item ↦ rw some_item (elim (Bool-cases (s.item_to_consume == total)) [
        | inl over ↦ rw over (set_worker i finished (ground (arith, over)))
        | inr more ↦
            let left : s.item_to_consume < total = ground (arith, more, v.bounded, v.balanced) in
            let filled : 0 < s.curr_buf_size = ground (arith, some_item, left) in
            let size : s.curr_buf_size ≡ suc (s.curr_buf_size - 1) = omega arith in
            rw more (record {
              balanced = omega (arith, v.balanced);
              bounded = v.bounded;
              fits = omega (arith, v.fits);
              items = λ n. ground (arith, v.items n, ap (λ k. held n k s.buffer) size);
              producers =
                  AllAre-map _ _ s.masters signal
                    (Produces-signal total max s.item_to_produce s.curr_buf_size
                      (s.curr_buf_size - 1))
                    v.producers;
              consumers =
                  AllAre-set (Consumes total (s.item_to_consume + 1) (s.curr_buf_size - 1))
                    s.workers i top tt
                    (AllAre-mono _ _ s.workers
                      (Consumes-more total s.item_to_consume s.curr_buf_size left filled)
                      v.consumers);
            })
      ])
    ]

    generate_requests_loop-IsValid :
        (i : ℕ) → IsValid total max (generate_requests_loop total max i s)
    unfolding generate_requests_loop
    generate_requests_loop-IsValid i = elim (Option-cases (get_elem? s.masters i)) [
      | inl gone ↦ rw (gone, generate_requests_loop) v
      | inr (top, at) ↦
          rw (at, generate_requests_loop)
            (elim (Bool-cases (ltb s.item_to_produce total)) [
              | inl more ↦ rw more (set_master i locking tt)
              | inr over ↦ rw over (set_master i finished (ground (arith, over, v.bounded)))
            ])
      | inr (locking, at) ↦ rw (at, generate_requests_loop) (produce-IsValid i)
      | inr (asleep, at) ↦ rw (at, generate_requests_loop) v
      | inr (finished, at) ↦ rw (at, generate_requests_loop) v
    ]

    consume_requests_loop-IsValid :
        (i : ℕ) → IsValid total max (consume_requests_loop total max i s)
    unfolding consume_requests_loop
    consume_requests_loop-IsValid i = elim (Option-cases (get_elem? s.workers i)) [
      | inl gone ↦ rw (gone, consume_requests_loop) v
      | inr (top, at) ↦
          rw (at, consume_requests_loop)
            (elim (Bool-cases (ltb s.item_to_consume total)) [
              | inl more ↦ rw more (set_worker i locking tt)
              | inr over ↦
                  rw over (set_worker i finished (ground (arith, over, v.bounded, v.balanced)))
            ])
      | inr (locking, at) ↦ rw (at, consume_requests_loop) (consume-IsValid i)
      | inr (asleep, at) ↦ rw (at, consume_requests_loop) v
      | inr (finished, at) ↦ rw (at, consume_requests_loop) v
    ]

    step-IsValid : (e : Event) → IsValid total max (step total max e s)
    unfolding step
    step-IsValid (master i) = generate_requests_loop-IsValid i
    step-IsValid (worker i) = consume_requests_loop-IsValid i
    step-IsValid (wakes_master i) = elim (Option-cases (get_elem? s.masters i)) [
      | inl gone ↦ rw (gone, step) v
      | inr (p, at) ↦
          rw (at, step)
            (set_master i (signal p) (
              Produces-signal total max s.item_to_produce s.curr_buf_size s.curr_buf_size p
                (AllAre-at _ s.masters i p at v.producers)))
    ]
    step-IsValid (wakes_worker i) = elim (Option-cases (get_elem? s.workers i)) [
      | inl gone ↦ rw (gone, step) v
      | inr (p, at) ↦
          rw (at, step)
            (set_worker i (signal p) (
              Consumes-signal total s.item_to_consume s.curr_buf_size s.curr_buf_size p
                (AllAre-at _ s.workers i p at v.consumers)))
    ]

  run-IsValid :
      (es : List Event) (s : State) → IsValid total max s → IsValid total max (run total max es s)
  unfolding run
  run-IsValid [] s v = v
  run-IsValid (e ∷ es) s v = run-IsValid es (step total max e s) (step-IsValid s v e)

  pub created-IsValid :
      (masters workers : ℕ) (memory : ℕ → ℕ) → IsValid total max (created masters workers memory)
  unfolding created held count
  created-IsValid masters workers memory = record {
    balanced = omega arith;
    bounded = omega arith;
    fits = omega arith;
    items = λ v. ground arith;
    producers = AllAre-replicate _ masters top tt;
    consumers = AllAre-replicate _ workers top tt;
  }

  module _ (num_masters num_workers : ℕ) (memory : ℕ → ℕ) (es : List Event) where
    abbrev pub reached : State
    reached = run total max es (created num_masters num_workers memory)

    pub reached-IsValid : IsValid total max reached
    reached-IsValid = run-IsValid es _ (created-IsValid num_masters num_workers memory)

    -- Whatever the order in which the threads run, no item is printed twice, and only items below
    -- `total_items` are; the buffer never holds more than `max_buf_size` items.
    pub reached-once :
        (v : ℕ)
        → (count v reached.printed ≤ (if ltb v total then 1 else 0)) × (reached.curr_buf_size ≤ max)
    reached-once v = let w = reached-IsValid in (ground (arith, w.items v, w.bounded), w.fits)

    -- Once a worker has ended, every item below `total_items` is printed exactly once, and no other.
    pub finished-all :
        (i v : ℕ)
        → get_elem? reached.workers i ≡ some finished
        → count v reached.printed ≡ (if ltb v total then 1 else 0)
    unfolding held
    finished-all i v at =
        let w = reached-IsValid in
        let used : reached.item_to_consume ≡ total =
          AllAre-at (Consumes total reached.item_to_consume reached.curr_buf_size) reached.workers i
            finished at w.consumers in
        let drained : reached.curr_buf_size ≡ 0 = omega (arith, used, w.bounded, w.balanced) in
        let made : reached.item_to_produce ≡ total = omega (arith, used, w.bounded, w.balanced) in
        ground (arith, w.items v, made, ap (λ k. held v k reached.buffer) drained)
