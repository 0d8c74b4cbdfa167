-- ===== src/Toggle/Places.antt =====
-- Where the turn of the threads of test-toggle.c is.
use operating_systems.Prelude.{
  ℕ, zero, suc, ◌+◌, ◌%◌, ◌<◌, ◌≤◌, ◌≡◌, ◌≢◌, inl, inr, refl, ap, sym, ◌∙◌, arith, Bool, true,
  false, ◌==◌, List, [], ◌∷◌, length, Bool-cases, dec_lt,
}
use operating_systems.Toggle.{
  Pc, absent, locking, asleep, entered, shown, finished, State, put, started,
}

-- The first `k` numbers of 0, 1, 2, 0, 1, 2 and so on, the last one first.
abbrev pub turns : ℕ → List ℕ
turns zero = []
turns (suc k) = k % 3 ∷ turns k

-- The thread has not passed `zem_down`, or is behind `zem_up`.
abbrev pub is_quiet : Pc → Bool
is_quiet absent = true
is_quiet locking = true
is_quiet asleep = true
is_quiet entered = false
is_quiet shown = false
is_quiet finished = true

-- The turn is at `own`: its semaphore is up, or the thread is about to print or to pass the turn on.
-- Or else the turn is nowhere, and the semaphore is down and the thread quiet as all others are.
pub data HasTurn (own : ℕ) (s : State) : Type 0 where
  is_up : s.value own ≡ 1 → is_quiet (s.pc own) ≡ true → own ≡ length s.printed % 3 → HasTurn own s
  prints : s.value own ≡ 0 → s.pc own ≡ entered → own ≡ length s.printed % 3 → HasTurn own s
  passing :
      s.value own ≡ 0 → s.pc own ≡ shown → (own + 1) % 3 ≡ length s.printed % 3 → HasTurn own s
  nowhere : s.value own ≡ 0 → is_quiet (s.pc own) ≡ true → HasTurn own s

pub record IsValid (s : State) : Type 0 where
  pub own : ℕ
  pub is_thread : own < 3
  pub others : (i : ℕ) → i < 3 → (own == i) ≡ false → (s.value i ≡ 0) × (is_quiet (s.pc i) ≡ true)
  pub turn : HasTurn own s
  pub unborn : (i : ℕ) → s.made ≤ i → s.pc i ≡ absent
  pub begins : s.made ≡ 0 → (s.printed ≡ []) × ((i : ℕ) → i < 3 → s.value i ≡ 0)
  pub printed_turns : s.printed ≡ turns (length s.printed)

pub started-IsValid : IsValid started
started-IsValid = record {
  own = 0;
  is_thread = omega arith;
  others = λ i h ne. (refl, refl);
  turn = nowhere refl refl;
  unborn = λ i h. refl;
  begins = λ e. (refl, (λ i h. refl));
  printed_turns = refl;
}

-- A thread that takes a step is one that `main` has created.
pub born : (i : ℕ) (s : State) (p : Pc) → IsValid s → s.pc i ≡ p → absent ≢ p → i < s.made
born i s p v e ne = elim (dec_lt i s.made) [
  | yes l ↦ l
  | no over ↦ absurd (ne (sym (v.unborn i (omega arith)) ∙ e))
]

pub put_here {ℓ} : {A : Type ℓ} (i : ℕ) (x : A) (f : ℕ → A) → put i x f i ≡ x
put_here i x f = let e : (i == i) ≡ true = ground arith in rw e refl

pub put_other {ℓ} :
    {A : Type ℓ} (i j : ℕ) (x : A) (f : ℕ → A) → (i == j) ≡ false → put i x f j ≡ f j
put_other i j x f e = rw e refl

-- A change of the place of a thread that has been created.
pub put-unborn :
    (i : ℕ) (s : State) (p : Pc)
    → IsValid s
    → i < s.made
    → (j : ℕ) → s.made ≤ j
    → put i p s.pc j ≡ absent
put-unborn i s p v l j h =
    let ne : (i == j) ≡ false = ground arith in put_other i j p s.pc ne ∙ v.unborn j h

pub quiet_put :
    (i j : ℕ) (p : Pc) (f : ℕ → Pc)
    → is_quiet p ≡ true
    → is_quiet (f j) ≡ true
    → is_quiet (put i p f j) ≡ true
quiet_put i j p f h q = elim (Bool-cases (i == j)) [ inl e ↦ rw e h | inr e ↦ rw e q ]

pub other_pc :
    (i own : ℕ) (s : State) (a b p : Pc) → s.pc i ≡ a → s.pc own ≡ p → a ≢ p → put i b s.pc own ≡ p
other_pc i own s a b p e h ne = elim (Bool-cases (i == own)) [
  | inr other ↦ rw other h
  | inl eq ↦ let same : i ≡ own = ground (arith, eq) in absurd (ne (sym e ∙ ap s.pc same ∙ h))
]

-- A quiet thread takes another quiet place.
pub moves-HasTurn :
    (i own : ℕ) (s : State) (a b : Pc)
    → s.pc i ≡ a
    → is_quiet a ≡ true
    → is_quiet b ≡ true
    → HasTurn own s
    → HasTurn own (record s { pc = put i b s.pc })
moves-HasTurn i own s a b e qa qb (is_up one q at) = is_up one (quiet_put i own b s.pc qb q) at
moves-HasTurn i own s a b e qa qb (prints z p at) =
    prints z (other_pc i own s a b entered e p (λ x. ground (arith, qa, ap is_quiet x))) at
moves-HasTurn i own s a b e qa qb (passing z p at) =
    passing z (other_pc i own s a b shown e p (λ x. ground (arith, qa, ap is_quiet x))) at
moves-HasTurn i own s a b e qa qb (nowhere z q) = nowhere z (quiet_put i own b s.pc qb q)

pub moves-IsValid :
    (i : ℕ) (s : State) (a b : Pc)
    → IsValid s
    → s.pc i ≡ a
    → absent ≢ a
    → is_quiet a ≡ true
    → is_quiet b ≡ true
    → IsValid (record s { pc = put i b s.pc })
moves-IsValid i s a b v e ne qa qb = record {
  own = v.own;
  is_thread = v.is_thread;
  others = λ j hj n. let (z, q) = v.others j hj n in (z, quiet_put i j b s.pc qb q);
  turn = moves-HasTurn i v.own s a b e qa qb v.turn;
  unborn = put-unborn i s b v (born i s a v e ne);
  begins = v.begins;
  printed_turns = v.printed_turns;
}
