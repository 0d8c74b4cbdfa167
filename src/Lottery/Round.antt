-- ===== src/Lottery/Round.antt =====
-- What one round of `scheduler` does: the refill, the winner, and the access past the table.
use operating_systems.Prelude.{
  ℕ, zero, suc, ◌+◌, ◌-◌, ◌≤◌, ◌<◌, ◌≡◌, refl, ap, ◌∙◌, arith, List, [], ◌∷◌, map, ◌↔◌, true, false,
  if◌then◌else◌, ltb, ◌==◌, i32_sign, length, set, get_elem?, some, none, dec_lt, max, add32, sub32,
  Bool-cases, inl, inr,
}
use native.Mathlib.Nat.{le_trans}
use operating_systems.Random.{Seed, randomrange}
use operating_systems.Random.Range.{randomrange_bounds}
use operating_systems.Proc.{Proc, running, is_runnable}
use operating_systems.Lottery.{Picked, refill, refill_all, dispatch, switch_to, round}
use operating_systems.Lottery.Holder.{tickets, pool, holder, draw-eq-holder, total-eq-pool}

-- The tickets that a table can ever put into a draw without `settickets`.
unfoldable pub load : List Proc → ℕ
load [] = 0
load (p ∷ ps) = max p.initial_tickets p.current_tickets + load ps

-- The tickets of the RUNNABLE processes after a refill.
pub initial_pool : List Proc → ℕ
initial_pool [] = 0
initial_pool (p ∷ ps) = (if is_runnable p then p.initial_tickets else 0) + initial_pool ps

pool-le-load : (ps : List Proc) → pool ps ≤ load ps
unfolding pool load
pool-le-load [] = omega arith
pool-le-load (p ∷ ps) = ground (arith, pool-le-load ps)

pool-refill : (ps : List Proc) → pool (map refill ps) ≡ initial_pool ps
unfolding pool initial_pool refill
pool-refill [] = refl
pool-refill (p ∷ ps) = ground (arith, pool-refill ps)

load-refill : (ps : List Proc) → load (map refill ps) ≤ load ps
unfolding load refill
load-refill [] = omega arith
load-refill (p ∷ ps) = ground (arith, load-refill ps)

load-refill_all : (ps : List Proc) → load (refill_all ps) ≤ load ps
unfolding refill_all
load-refill_all ps = ground (arith, load-refill ps)

-- The reset at the head of a round happens exactly if no RUNNABLE process has a ticket left, and
-- then every RUNNABLE process takes part with its initial tickets.
pub pool-refill_all :
    (ps : List Proc)
    → load ps < i32_sign
    → pool (refill_all ps) ≡ (if pool ps == 0 then initial_pool ps else pool ps)
unfolding refill_all
pool-refill_all ps h =
    ground (arith, pool-refill ps, total-eq-pool ps (omega (arith, pool-le-load ps)))

pub holder-missed : (ps : List Proc) (r : ℕ) → pool ps ≤ r → holder ps r ≡ length ps
unfolding pool holder
holder-missed [] r h = refl
holder-missed (p ∷ ps) r h = ground (arith, holder-missed ps (r - tickets p))

pub record Wins (ps : List Proc) (i : ℕ) (p : Proc) : Type 0 where
  pub at : get_elem? ps i ≡ some p
  pub ready : is_runnable p ≡ true
  pub paid : 0 < p.current_tickets

holder-found : (ps : List Proc) (r : ℕ) → r < pool ps → (p : Proc) × Wins ps (holder ps r) p
unfolding pool holder
holder-found [] r h = absurd (omega arith)
holder-found (p ∷ ps) r h = elim (Bool-cases (ltb r (tickets p))) [
  | inl e ↦ rw e (p, record { at = refl; ready = ground arith; paid = ground arith })
  | inr e ↦ rw e (
      let (q, w) = holder-found ps (r - tickets p) (ground arith) in
      (q, record { at = w.at; ready = w.ready; paid = w.paid }))
]

load-set :
    (ps : List Proc) (i : ℕ) (p q : Proc)
    → get_elem? ps i ≡ some p
    → load (set ps i q) + max p.initial_tickets p.current_tickets
      ≡ load ps + max q.initial_tickets q.current_tickets
unfolding load
load-set [] i p q h = absurd (ground arith)
load-set (x ∷ ps) zero p q h = ground arith
load-set (x ∷ ps) (suc i) p q h = omega (arith, load-set ps i p q h)

get_elem?-length : (ps : List Proc) → get_elem? ps (length ps) ≡ none
get_elem?-length [] = refl
get_elem?-length (p ∷ ps) = get_elem?-length ps

switch_to-Wins :
    (ps : List Proc) (s : Seed) (i : ℕ) (p : Proc)
    → Wins ps i p
    → switch_to ps s i ≡ some (record { table = set ps i (dispatch p); seed = s; current = some i })
unfolding switch_to
switch_to-Wins ps s i p w = ground (arith, w.at, w.ready)

switch_to-none :
    (ps : List Proc) (s : Seed) (i : ℕ) → get_elem? ps i ≡ none → switch_to ps s i ≡ none
unfolding switch_to
switch_to-none ps s i h = ground arith

get_elem?-load :
    (ps : List Proc) (i : ℕ) (p : Proc)
    → get_elem? ps i ≡ some p
    → max p.initial_tickets p.current_tickets ≤ load ps
unfolding load
get_elem?-load [] i p h = absurd (ground arith)
get_elem?-load (x ∷ ps) zero p h = ground arith
get_elem?-load (x ∷ ps) (suc i) p h = omega (arith, get_elem?-load ps i p h)

-- What a process that is chosen looks like when it runs: one ticket fewer, one time slot more.
abbrev pub ran : Proc → Proc
ran p = record p {
  current_tickets = p.current_tickets - 1;
  ticks_used = add32 p.ticks_used 1;
  state = running;
}

dispatch-eq-ran :
    (p : Proc) → 0 < p.current_tickets → p.current_tickets < i32_sign → dispatch p ≡ ran p
unfolding dispatch
dispatch-eq-ran p paid small =
    let one_fewer : sub32 p.current_tickets 1 ≡ p.current_tickets - 1 = omega arith in
    rw one_fewer refl

-- The winner has a ticket to pay with, so its count does not wrap.
load-ran :
    (ps : List Proc) (i : ℕ) (p : Proc)
    → Wins ps i p
    → load ps < i32_sign
    → load (set ps i (ran p)) ≤ load ps
load-ran ps i p w h =
    omega (arith, load-set ps i p (ran p) w.at, get_elem?-load ps i p w.at, w.paid)

-- The random number of a round.
abbrev pub drawn : List Proc → Seed → ℕ
drawn ps s = (randomrange 0 (pool (refill_all ps)) s).0

pool_idle :
    (ps : List Proc)
    → ((i : ℕ) (p : Proc) → get_elem? ps i ≡ some p → is_runnable p ≡ false)
    → (pool ps ≡ 0) × (initial_pool ps ≡ 0)
unfolding pool initial_pool
pool_idle [] h = (refl, refl)
pool_idle (p ∷ ps) h = ground (arith, h 0 p refl, pool_idle ps (λ i q e. h (suc i) q e))

-- What `round` returns once `i` is chosen from the table `ps` by a generator left at `s`.
abbrev pub picked : List Proc → Seed → ℕ → Proc → Picked
picked ps s i p = record { table = set ps i (ran p); seed = s; current = some i }

module _ (ps : List Proc) (s : Seed) (fits : load ps < i32_sign) where
  pool_fits : pool (refill_all ps) < i32_sign
  pool_fits = omega (arith, pool-le-load (refill_all ps), load-refill_all ps)

  pub drawn-le : drawn ps s ≤ pool (refill_all ps)
  drawn-le = omega (arith, randomrange_bounds 0 (pool (refill_all ps)) s (omega arith) pool_fits)

  round-holder :
      round ps s
      ≡ switch_to
          (refill_all ps)
          (randomrange 0 (pool (refill_all ps)) s).1
          (holder (refill_all ps) (drawn ps s))
  unfolding round
  round-holder = rw (total-eq-pool (refill_all ps) pool_fits) (
      rw (
        draw-eq-holder (drawn ps s) (refill_all ps) (omega (arith, drawn-le, pool_fits)) pool_fits))

  -- While the tickets that the table can put into a draw fit an `int`: if the random number of a
  -- round is below the total of the tickets, the round runs a RUNNABLE process of the table with a
  -- ticket left. It takes one ticket from it, counts one time slot, marks it RUNNING, makes it the
  -- current process of the CPU, and leaves the other slots as the refill left them.
  pub round_runs :
      drawn ps s < pool (refill_all ps)
      → (p : Proc) × Wins (refill_all ps) (holder (refill_all ps) (drawn ps s)) p
        × (round ps s
            ≡ some (
                picked
                  (refill_all ps)
                  (randomrange 0 (pool (refill_all ps)) s).1
                  (holder (refill_all ps) (drawn ps s))
                  p))
  round_runs h =
      let (p, w) = holder-found (refill_all ps) (drawn ps s) h in
      let small : p.current_tickets < i32_sign =
        omega (arith, get_elem?-load (refill_all ps) _ p w.at, load-refill_all ps, fits) in
      (
        p,
        w,
        round-holder
            ∙ switch_to-Wins (refill_all ps) _ _ p w
            ∙ ap
                (λ q. some (record {
                  table = set (refill_all ps) (holder (refill_all ps) (drawn ps s)) q;
                  seed = (randomrange 0 (pool (refill_all ps)) s).1;
                  current = some (holder (refill_all ps) (drawn ps s));
                }))
                (dispatch-eq-ran p w.paid small),
      )

  -- While the tickets that the table can put into a draw fit an `int`: a round leaves the process
  -- table behind exactly if its random number is the total of the tickets, which `randomrange`
  -- includes.
  pub round-eq-none_iff : (round ps s ≡ none) ↔ (drawn ps s ≡ pool (refill_all ps))
  round-eq-none_iff = (
    λ e. elim (dec_lt (drawn ps s) (pool (refill_all ps))) [
      | yes l ↦ let (p, w, runs) = round_runs l in cc
      | no n ↦ omega (arith, drawn-le)
    ],
    λ e.
        round-holder
        ∙ switch_to-none (refill_all ps) _ _ (
            ap (get_elem? (refill_all ps)) (holder-missed (refill_all ps) _ (omega arith))
            ∙ get_elem?-length (refill_all ps)),
  )

  -- What a round that runs a process has done.
  pub round_inverts :
      {r : Picked}
      → round ps s ≡ some r
      → (i : ℕ) × (p : Proc) × Wins (refill_all ps) i p
        × (r ≡ picked (refill_all ps) (randomrange 0 (pool (refill_all ps)) s).1 i p)
  round_inverts {r} e = elim (dec_lt (drawn ps s) (pool (refill_all ps))) [
    | yes l ↦ let (p, w, runs) = round_runs l in (_, p, w, cc)
    | no n ↦
        let missed : round ps s ≡ none = round-eq-none_iff.1 (omega (arith, drawn-le)) in
        absurd (cc)
  ]

  -- A round never raises what the tickets can add up to.
  pub round-load : {r : Picked} → round ps s ≡ some r → load r.table ≤ load ps
  round-load {r} e =
      let (i, p, w, same) = round_inverts e in
      rw same (
        le_trans (load-ran (refill_all ps) i p w (omega (arith, load-refill_all ps)))
          (load-refill_all ps))

-- While the tickets that the table can put into a draw fit an `int`: with no RUNNABLE process, a
-- round leaves the process table.
pub round_idle :
    (ps : List Proc) (s : Seed)
    → load ps < i32_sign
    → ((i : ℕ) (p : Proc) → get_elem? ps i ≡ some p → is_runnable p ≡ false)
    → round ps s ≡ none
round_idle ps s fits idle =
    (round-eq-none_iff ps s fits).1
      (ground (arith, drawn-le ps s fits, pool-refill_all ps fits, pool_idle ps idle))
