-- ===== src/Toggle/Turns.antt =====
-- The threads of test-toggle.c take turns.
use mathlib.Core.Path.{subst}
use operating_systems.Prelude.{
  ℕ, ◌+◌, ◌-◌, ◌%◌, ◌<◌, ◌≤◌, ◌≡◌, inl, inr, refl, ap, sym, ◌∙◌, arith, Bool, true, false, ◌==◌,
  ltb, if◌then◌else◌, length, Bool-cases, ◌∷◌,
}
use operating_systems.Toggle.{
  num_iter, Pc, absent, locking, asleep, entered, shown, finished, State, put, signal, zem_down,
  zem_up, show, create, pass_on, Step, creates, downs, wakes, shows, passes, IsReachable, starts,
  goes_on,
}
use operating_systems.Toggle.Places.{
  turns, is_quiet, HasTurn, is_up, prints, passing, nowhere, IsValid, started-IsValid, born,
  put_here, put_other, put-unborn, quiet_put, moves-IsValid,
}

-- A thread that is not quiet has the turn, and so has one whose semaphore is up.
has_turn :
    (i : ℕ) (s : State) (v : IsValid s)
    → i < 3
    → is_quiet (s.pc i) ≡ false
    → (v.own ≡ i) × HasTurn i s
has_turn i s v h busy = elim (Bool-cases (v.own == i)) [
  | inr ne ↦ let (z, q) = v.others i h ne in absurd (ground (arith, q, busy))
  | inl eq ↦
      let same : v.own ≡ i = ground (arith, eq) in (same, subst (λ o. HasTurn o s) same v.turn)
]

up_turn :
    (i : ℕ) (s : State) (v : IsValid s)
    → i < 3
    → ltb 0 (s.value i) ≡ true
    → (v.own ≡ i) × HasTurn i s
up_turn i s v h up = elim (Bool-cases (v.own == i)) [
  | inr ne ↦ let (z, q) = v.others i h ne in absurd (ground (arith, z, up))
  | inl eq ↦
      let same : v.own ≡ i = ground (arith, eq) in (same, subst (λ o. HasTurn o s) same v.turn)
]

enters :
    (i : ℕ) (s : State)
    → HasTurn i s
    → s.pc i ≡ entered
    → (s.value i ≡ 0) × (i ≡ length s.printed % 3)
enters i s (is_up one q at) e = absurd (ground (arith, ap is_quiet e, q))
enters i s (prints z p at) e = (z, at)
enters i s (passing z p at) e = absurd (ground (arith, e, p))
enters i s (nowhere z q) e = absurd (ground (arith, ap is_quiet e, q))

ends_turn :
    (i : ℕ) (s : State)
    → HasTurn i s
    → s.pc i ≡ shown
    → (s.value i ≡ 0) × ((i + 1) % 3 ≡ length s.printed % 3)
ends_turn i s (is_up one q at) e = absurd (ground (arith, ap is_quiet e, q))
ends_turn i s (prints z p at) e = absurd (ground (arith, e, p))
ends_turn i s (passing z p at) e = (z, at)
ends_turn i s (nowhere z q) e = absurd (ground (arith, ap is_quiet e, q))

one_turn :
    (i : ℕ) (s : State)
    → HasTurn i s
    → ltb 0 (s.value i) ≡ true
    → (s.value i ≡ 1) × (i ≡ length s.printed % 3)
one_turn i s (is_up one q at) up = (one, at)
one_turn i s (prints z p at) up = absurd (ground (arith, z, up))
one_turn i s (passing z p at) up = absurd (ground (arith, z, up))
one_turn i s (nowhere z q) up = absurd (ground (arith, z, up))

shows-IsValid : (i : ℕ) (s : State) → IsValid s → i < 3 → s.pc i ≡ entered → IsValid (show i s)
shows-IsValid i s v h e =
    let (same, t) = has_turn i s v h (ap is_quiet e) in
    let (mine, at) = enters i s t e in
    let alive = born i s entered v e (λ x. ground (arith, x)) in
    record {
      own = i;
      is_thread = h;
      others = λ j hj ne. let (z, q) = v.others j hj (rw same ne) in (z, rw ne q);
      turn = passing mine (put_here i shown s.pc) (omega (arith, at));
      unborn = put-unborn i s shown v alive;
      begins = λ z. absurd (omega (arith, z, alive));
      printed_turns = ap (λ l. i ∷ l) v.printed_turns ∙ ap (λ k. k ∷ turns (length s.printed)) at;
    }

downs-IsValid : (i : ℕ) (s : State) → IsValid s → i < 3 → s.pc i ≡ locking → IsValid (zem_down i s)
unfolding zem_down
downs-IsValid i s v h e = elim (Bool-cases (ltb 0 (s.value i))) [
  | inr down ↦ rw down (moves-IsValid i s locking asleep v e (λ x. ground (arith, x)) refl refl)
  | inl up ↦
      let (same, t) = up_turn i s v h up in
      let (one, at) = one_turn i s t up in
      let left : s.value i - 1 ≡ 0 = omega (arith, one) in
      let alive = born i s locking v e (λ x. ground (arith, x)) in
      rw up (record {
        own = i;
        is_thread = h;
        others = λ j hj ne. let (z, q) = v.others j hj (rw same ne) in (rw ne z, rw ne q);
        turn = prints (put_here i (s.value i - 1) s.value ∙ left) (put_here i entered s.pc) at;
        unborn = put-unborn i s entered v alive;
        begins = λ z. absurd (omega (arith, z, alive));
        printed_turns = v.printed_turns;
      })
]

signal_quiet : (p : Pc) → is_quiet p ≡ true → is_quiet (signal p) ≡ true
signal_quiet absent q = refl
signal_quiet locking q = refl
signal_quiet asleep q = refl
signal_quiet entered q = q
signal_quiet shown q = q
signal_quiet finished q = refl

back_quiet : (b : Bool) → is_quiet (if b then locking else finished) ≡ true
back_quiet true = refl
back_quiet false = refl

-- A signal wakes no thread that has not been created.
signal-unborn : (n j : ℕ) (f : ℕ → Pc) → f j ≡ absent → put n (signal (f n)) f j ≡ absent
signal-unborn n j f e = elim (Bool-cases (n == j)) [
  | inr ne ↦ put_other n j (signal (f n)) f ne ∙ e
  | inl eq ↦
      let same : n ≡ j = ground (arith, eq) in
      let gone : f n ≡ absent = ap f same ∙ e in rw eq (ap signal gone)
]

passes-IsValid : (i : ℕ) (s : State) → IsValid s → i < 3 → s.pc i ≡ shown → IsValid (pass_on i s)
unfolding pass_on zem_up
passes-IsValid i s v h e =
    let (same, t) = has_turn i s v h (ap is_quiet e) in
    let (mine, at) = ends_turn i s t e in
    let alive = born i s shown v e (λ x. ground (arith, x)) in
    let n = (i + 1) % 3 in
    let hn : n < 3 = omega arith in
    let i_n : (i == n) ≡ false = ground arith in
    let (zn, qn) = v.others n hn (rw same i_n) in
    let back : Pc = if ltb (s.iter i + 1) num_iter then locking else finished in
    let up : ℕ → Pc = put n (signal (s.pc n)) s.pc in
    let quiet = back_quiet (ltb (s.iter i + 1) num_iter) in
    record {
      own = n;
      is_thread = hn;
      others = λ j hj ne. elim (Bool-cases (i == j)) [
        | inl eq ↦ let ij : i ≡ j = ground (arith, eq) in (rw ne (rw (← ij) mine), rw eq quiet)
        | inr other ↦ let (z, q) = v.others j hj (rw same other) in (rw ne z, rw (other, ne) q)
      ];
      turn =
          is_up (put_here n (s.value n + 1) s.value ∙ omega (arith, zn))
            (rw i_n (ap is_quiet (put_here n (signal (s.pc n)) s.pc) ∙ signal_quiet (s.pc n) qn))
            at;
      unborn = λ j hj.
          let ne : (i == j) ≡ false = ground arith in
          put_other i j back up ne ∙ signal-unborn n j s.pc (v.unborn j hj);
      begins = λ z. absurd (omega (arith, z, alive));
      printed_turns = v.printed_turns;
    }

kept-HasTurn :
    (i own : ℕ) (s : State)
    → (i == own) ≡ false
    → HasTurn own s
    → HasTurn own (record s { value = put i 0 s.value; pc = put i locking s.pc; made = i + 1 })
kept-HasTurn i own s ne (is_up one q at) = is_up (rw ne one) (rw ne q) at
kept-HasTurn i own s ne (prints z p at) = prints (rw ne z) (rw ne p) at
kept-HasTurn i own s ne (passing z p at) = passing (rw ne z) (rw ne p) at
kept-HasTurn i own s ne (nowhere z q) = nowhere (rw ne z) (rw ne q)

-- `zem_init` of a semaphore whose thread has not been created takes the turn away if it is there.
loses_turn :
    (i own : ℕ) (s : State)
    → HasTurn own s
    → HasTurn own (record s { value = put i 0 s.value; pc = put i locking s.pc; made = i + 1 })
loses_turn i own s t = elim (Bool-cases (i == own)) [
  | inr ne ↦ kept-HasTurn i own s ne t
  | inl eq ↦ nowhere (rw eq refl) (rw eq refl)
]

still_down : (i j : ℕ) (f : ℕ → ℕ) → f j ≡ 0 → put i 0 f j ≡ 0
still_down i j f z = elim (Bool-cases (i == j)) [ inl eq ↦ rw eq refl | inr ne ↦ rw ne z ]

creates-IsValid : (s : State) → IsValid s → s.made < 3 → IsValid (create s)
unfolding create
creates-IsValid s v h =
    let i = s.made in
    let alive : (j : ℕ) → i + 1 ≤ j → put i locking s.pc j ≡ absent = λ j hj.
      let ne : (i == j) ≡ false = ground arith in
      put_other i j locking s.pc ne ∙ v.unborn j (omega arith) in
    elim (Bool-cases (i == 0)) [
      | inl first ↦
          let none_made : i ≡ 0 = ground (arith, first) in
          let (nothing, down) = v.begins none_made in
          let up : put i 1 s.value 0 ≡ 1 = rw first refl in
          let at : 0 ≡ length s.printed % 3 = ap (λ l. length l % 3) (sym nothing) in
          rw first (record {
            own = 0;
            is_thread = omega arith;
            others = λ j hj ne.
                let other : (i == j) ≡ false = ground (arith, ne, none_made) in
                let absent_j = v.unborn j (omega (arith, none_made)) in
                (
                  put_other i j 1 s.value other ∙ down j hj,
                  quiet_put i j locking s.pc refl (ap is_quiet absent_j),
                );
            turn =
                is_up up
                  (quiet_put i 0 locking s.pc refl
                    (ap is_quiet (v.unborn 0 (omega (arith, none_made)))))
                  at;
            unborn = alive;
            begins = λ z. absurd (omega (arith, z));
            printed_turns = v.printed_turns;
          })
      | inr later ↦ rw later (record {
        own = v.own;
        is_thread = v.is_thread;
        others = λ j hj ne.
            let (z, q) = v.others j hj ne in
            (still_down i j s.value z, quiet_put i j locking s.pc refl q);
        turn = loses_turn i v.own s v.turn;
        unborn = alive;
        begins = λ z. absurd (omega (arith, z));
        printed_turns = v.printed_turns;
      })
    ]

reachable-IsValid : (s : State) → IsReachable s → IsValid s
reachable-IsValid _ starts = started-IsValid
reachable-IsValid _ (goes_on s t r step) = after s t (reachable-IsValid s r) step
  where
    after : (s t : State) → IsValid s → Step s t → IsValid t
    after _ _ v (creates s h) = creates-IsValid s v h
    after _ _ v (downs i s h e) = downs-IsValid i s v h e
    after _ _ v (wakes i s h e) =
        moves-IsValid i s asleep locking v e (λ x. ground (arith, x)) refl refl
    after _ _ v (shows i s h e) = shows-IsValid i s v h e
    after _ _ v (passes i s h e) = passes-IsValid i s v h e

-- In every state that `main` and the threads reach, whatever the order of their steps, with a thread
-- that runs before `main` has called `zem_init` for the next one, and with wakeups without a signal,
-- what is printed are the thread numbers 0, 1, 2, 0, 1, 2 and so on in this order.
pub reachable-turns : (s : State) → IsReachable s → s.printed ≡ turns (length s.printed)
reachable-turns s r = (reachable-IsValid s r).printed_turns
