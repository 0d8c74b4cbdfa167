-- ===== src/Lottery/Fair.antt =====
-- How often each process wins: the share of the random numbers that choose it.
use operating_systems.Prelude.{
  ℕ, zero, suc, ◌+◌, ◌-◌, ◌<◌, ◌≡◌, refl, ap, ◌∙◌, arith, List, [], ◌∷◌, false, if◌then◌else◌, ◌==◌,
  i32_sign, length, get_elem?, some, none,
}
use operating_systems.Proc.{Proc}
use operating_systems.Lottery.{draw}
use operating_systems.Lottery.Holder.{tickets, pool, holder, draw-eq-holder}

-- How many of the random numbers below `n` make `f` choose `i`.
pub wins : ℕ → ℕ → (ℕ → ℕ) → ℕ
wins i zero f = 0
wins i (suc n) f = (if f n == i then 1 else 0) + wins i n f

wins-ext : (i n : ℕ) (f g : ℕ → ℕ) → ((r : ℕ) → r < n → f r ≡ g r) → wins i n f ≡ wins i n g
unfolding wins
wins-ext i zero f g h = refl
wins-ext i (suc n) f g h =
    ground (arith, h n (omega arith), wins-ext i n f g (λ r k. h r (omega arith)))

wins-add : (i n m : ℕ) (f : ℕ → ℕ) → wins i (n + m) f ≡ wins i n f + wins i m (λ r. f (n + r))
unfolding wins
wins-add i n zero f = let e : n + zero ≡ n = omega arith in rw e (omega arith)
wins-add i n (suc m) f =
    let e : n + suc m ≡ suc (n + m) = omega arith in rw e (omega (arith, wins-add i n m f))

wins-const_eq : (i n : ℕ) → wins i n (λ _. i) ≡ n
unfolding wins
wins-const_eq i zero = refl
wins-const_eq i (suc n) = ground (arith, wins-const_eq i n)

wins-const_ne : (i j n : ℕ) → (i == j) ≡ false → wins i n (λ _. j) ≡ 0
unfolding wins
wins-const_ne i j zero h = refl
wins-const_ne i j (suc n) h = ground (arith, wins-const_ne i j n h)

wins-suc : (i n : ℕ) (f : ℕ → ℕ) → wins (suc i) n (λ r. suc (f r)) ≡ wins i n f
unfolding wins
wins-suc i zero f = refl
wins-suc i (suc n) f = ground (arith, wins-suc i n f)

wins_zero-suc : (n : ℕ) (f : ℕ → ℕ) → wins 0 n (λ r. suc (f r)) ≡ 0
unfolding wins
wins_zero-suc zero f = refl
wins_zero-suc (suc n) f = ground (arith, wins_zero-suc n f)

-- The tickets of the process at `i`, none past the end of the table.
unfoldable pub tickets_at : List Proc → ℕ → ℕ
tickets_at ps i = elim (get_elem? ps i) [ none ↦ 0 | some p ↦ tickets p ]

module _ (p : Proc) (ps : List Proc) where
  holder-low : (r : ℕ) → r < tickets p → holder (p ∷ ps) r ≡ 0
  unfolding holder
  holder-low r h = ground arith

  holder-high : (r : ℕ) → holder (p ∷ ps) (tickets p + r) ≡ suc (holder ps r)
  unfolding holder
  holder-high r =
      let e : tickets p + r - tickets p ≡ r = omega arith in ground (arith, ap (holder ps) e)

wins-holder :
    (ps : List Proc) (i : ℕ) → i < length ps → wins i (pool ps) (holder ps) ≡ tickets_at ps i
unfolding tickets_at pool
wins-holder [] i h = absurd (omega arith)
wins-holder (p ∷ ps) zero h =
    wins-add 0 (tickets p) (pool ps) (holder (p ∷ ps))
    ∙ omega (
      arith,
      wins-ext 0 (tickets p) (holder (p ∷ ps)) (λ _. 0) (holder-low p ps),
      wins-const_eq 0 (tickets p),
      wins-ext 0 (pool ps) (λ r. holder (p ∷ ps) (tickets p + r)) (λ r. suc (holder ps r))
          (λ r _. holder-high p ps r),
      wins_zero-suc (pool ps) (holder ps),
    )
wins-holder (p ∷ ps) (suc i) h =
    wins-add (suc i) (tickets p) (pool ps) (holder (p ∷ ps))
    ∙ omega (
      arith,
      wins-ext (suc i) (tickets p) (holder (p ∷ ps)) (λ _. 0) (holder-low p ps),
      wins-const_ne (suc i) 0 (tickets p) (ground arith),
      wins-ext (suc i) (pool ps) (λ r. holder (p ∷ ps) (tickets p + r)) (λ r. suc (holder ps r))
          (λ r _. holder-high p ps r),
      wins-suc i (pool ps) (holder ps),
      wins-holder ps i (omega arith),
    )

-- While the tickets of the RUNNABLE processes fit an `int`, each of them is chosen by exactly as
-- many of the random numbers below their total as it has tickets, and every other process of the
-- table by none.
pub wins-draw :
    (ps : List Proc) (i : ℕ)
    → pool ps < i32_sign
    → i < length ps
    → wins i (pool ps) (λ r. draw r 0 ps) ≡ tickets_at ps i
wins-draw ps i k h =
    wins-ext i (pool ps) _ (holder ps) (λ r l. draw-eq-holder r ps (omega arith) k)
    ∙ wins-holder ps i h
