-- ===== src/Lottery/Tickets.antt =====
-- `settickets`, and what `getpinfo` shows of the rounds of the scheduler.
use operating_systems.Prelude.{
  ℕ, zero, suc, ◌+◌, ◌-◌, ◌≤◌, ◌<◌, ◌≡◌, refl, arith, List, [], ◌∷◌, map, true, false, ◌==◌, slt32,
  i32_sign, u32_mod, set, get_elem?, some, minus_one, slt32-of_le, Bool-cases, Option-cases, inl,
  inr,
}
use operating_systems.Random.{Seed}
use operating_systems.Proc.{Proc}
use operating_systems.Lottery.{
  Picked, Pstat, settickets, set_first, getpinfo_table, round, refill, refill_all,
}
use operating_systems.Lottery.Holder.{pool}
use operating_systems.Lottery.Round.{load, ran, round_inverts}

-- A request for fewer than one ticket, a negative number included, is refused with -1 and changes
-- nothing.
pub settickets_refuses :
    (me n : ℕ) (ps : List Proc) → slt32 n 1 ≡ true → settickets me n ps ≡ some (ps, minus_one)
unfolding settickets
settickets_refuses me n ps h = ground arith

set_first-at :
    (me pid n : ℕ) (ps : List Proc) {p : Proc}
    → get_elem? ps me ≡ some p
    → p.pid ≡ pid
    → ((j : ℕ) (q : Proc) → j < me → get_elem? ps j ≡ some q → (q.pid == pid) ≡ false)
    → set_first pid n ps ≡ set ps me (record p { initial_tickets = n })
unfolding set_first
set_first-at me pid n [] h e first = absurd (ground arith)
set_first-at zero pid n (x ∷ ps) h e first = ground arith
set_first-at (suc me) pid n (x ∷ ps) h e first = ground (
  arith,
  first 0 x (omega arith) refl,
  set_first-at me pid n ps h e (λ j q l g. first (suc j) q (omega arith) g),
)

-- A request for `n` tickets, from 1 to the largest `int`, is accepted with 0. If no slot before the
-- caller's has its pid, the caller's initial tickets become `n`, and nothing else changes.
pub settickets_sets :
    (me n : ℕ) (ps : List Proc) (p : Proc)
    → 1 ≤ n
    → n < i32_sign
    → get_elem? ps me ≡ some p
    → ((j : ℕ) (q : Proc) → j < me → get_elem? ps j ≡ some q → (q.pid == p.pid) ≡ false)
    → settickets me n ps ≡ some (set ps me (record p { initial_tickets = n }), 0)
unfolding settickets
settickets_sets me n ps p low high at first =
    rw (slt32-of_le 1 n high low) (ground (arith, at, set_first-at me p.pid n ps at refl first))

set_first-pool : (pid n : ℕ) (ps : List Proc) → pool (set_first pid n ps) ≡ pool ps
unfolding set_first pool
set_first-pool pid n [] = refl
set_first-pool pid n (p ∷ ps) = ground (arith, set_first-pool pid n ps)

-- Setting the tickets changes no draw before the next refill: the pool stays as it is.
pub settickets-pool :
    (me n : ℕ) (ps ps' : List Proc) (code : ℕ)
    → settickets me n ps ≡ some (ps', code)
    → pool ps' ≡ pool ps
unfolding settickets
settickets-pool me n ps ps' code h = elim (Bool-cases (slt32 n 1)) [
  | inl e ↦ ground (arith, h, e)
  | inr e ↦ elim (Option-cases (get_elem? ps me)) [
    | inl gone ↦ absurd (ground (arith, h, e, gone))
    | inr (p, at) ↦
        let same : ps' ≡ set_first p.pid n ps = ground (arith, h, e, at) in
        rw same (set_first-pool p.pid n ps)
  ]
]

-- The time slices that `getpinfo` reports, over all slots.
unfoldable pub slices : List Pstat → ℕ
slices [] = 0
slices (r ∷ rs) = r.time_slices + slices rs

slices-map-refill :
    (ps : List Proc) → slices (getpinfo_table (map refill ps)) ≡ slices (getpinfo_table ps)
unfolding slices getpinfo_table refill
slices-map-refill [] = refl
slices-map-refill (p ∷ ps) = ground (arith, slices-map-refill ps)

slices-refill :
    (ps : List Proc) → slices (getpinfo_table (refill_all ps)) ≡ slices (getpinfo_table ps)
unfolding refill_all
slices-refill ps = ground (arith, slices-map-refill ps)

slices-set :
    (ps : List Proc) (i : ℕ) (p q : Proc)
    → get_elem? ps i ≡ some p
    → slices (getpinfo_table (set ps i q)) + p.ticks_used
      ≡ slices (getpinfo_table ps) + q.ticks_used
unfolding slices getpinfo_table
slices-set [] i p q h = absurd (ground arith)
slices-set (x ∷ ps) zero p q h = ground arith
slices-set (x ∷ ps) (suc i) p q h = omega (arith, slices-set ps i p q h)

ticks_used-le-slices :
    (ps : List Proc) (i : ℕ) (p : Proc)
    → get_elem? ps i ≡ some p
    → p.ticks_used ≤ slices (getpinfo_table ps)
unfolding slices getpinfo_table
ticks_used-le-slices [] i p h = absurd (ground arith)
ticks_used-le-slices (x ∷ ps) zero p h = ground arith
ticks_used-le-slices (x ∷ ps) (suc i) p h = omega (arith, ticks_used-le-slices ps i p h)

-- While the tickets that the table can put into a draw fit an `int`: every round that runs a process
-- adds one to the time slices that `getpinfo` reports, as long as their sum does not wrap.
pub getpinfo-round :
    (ps : List Proc) (s : Seed) (r : Picked)
    → load ps < i32_sign
    → slices (getpinfo_table ps) < u32_mod - 1
    → round ps s ≡ some r
    → slices (getpinfo_table r.table) ≡ slices (getpinfo_table ps) + 1
getpinfo-round ps s r fits small h =
    let (i, p, w, same) = round_inverts ps s fits h in
    rw same (
      omega (
        arith,
        slices-set (refill_all ps) i p (ran p) w.at,
        ticks_used-le-slices (refill_all ps) i p w.at,
        slices-refill ps,
      ))
