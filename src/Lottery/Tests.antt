-- ===== src/Lottery/Tests.antt =====
-- Rounds of the scheduler on a table of three processes.
use operating_systems.Prelude.{
  ℕ, zero, suc, ◌+◌, ◌≡◌, ◌<◌, ◌↔◌, refl, arith, List, [], ◌∷◌, some, none, false, set, get_elem?,
  ◌==◌,
}
use operating_systems.Random.{first_seed, randomrange}
use operating_systems.Proc.{Proc, ProcState, runnable, zombie, is_runnable}
use operating_systems.Proc.Samples.{free_slot}
use operating_systems.Lottery.{
  Picked, draw, round, refill_all, getpinfo_table, get_total_runnable_tickets,
}
use operating_systems.Lottery.Holder.{pool, holder}
use operating_systems.Lottery.Fair.{wins, tickets_at, wins-draw}
use operating_systems.Lottery.Round.{
  load, Wins, drawn, picked, round_runs, round-eq-none_iff, round_idle,
}
use operating_systems.Lottery.Tickets.{slices, getpinfo-round}

abbrev with_tickets : ProcState → ℕ → ℕ → Proc
with_tickets s pid n = record free_slot {
  state = s;
  pid = pid;
  initial_tickets = n;
  current_tickets = n;
}

-- A RUNNABLE process with 3 tickets, a ZOMBIE with 5, and a RUNNABLE process with 4.
abbrev three : List Proc
three = with_tickets runnable 1 3 ∷ with_tickets zombie 2 5 ∷ with_tickets runnable 3 4 ∷ []

draws : draw 2 0 three ∷ draw 3 0 three ∷ draw 6 0 three ∷ draw 7 0 three ∷ [] ≡ 0 ∷ 2 ∷ 2 ∷ 3 ∷ []
unfolding draw
draws = refl

wins-draw_example : wins 2 7 (λ r. draw r 0 three) ≡ 4
unfolding pool tickets_at
wins-draw_example = wins-draw three 2 (omega arith) (omega arith)

abbrev idle : List Proc
idle = with_tickets zombie 1 3 ∷ []

idle_zombies : (i : ℕ) (p : Proc) → get_elem? idle i ≡ some p → is_runnable p ≡ false
idle_zombies zero p e = ground (arith, e)
idle_zombies (suc i) p e = absurd (ground (arith, e))

round_idle_example : round idle first_seed ≡ none
unfolding load
round_idle_example = round_idle idle first_seed (omega arith) idle_zombies

-- 5 is drawn, and the third process wins.
abbrev first_round : Picked
first_round = elim (round three first_seed) [
  | none ↦ record { table = []; seed = first_seed; current = none }
  | some r ↦ r
]

first_round_runs : (drawn three first_seed ≡ 5) × (round three first_seed ≡ some first_round)
unfolding load pool randomrange round draw get_total_runnable_tickets refill_all
first_round_runs = (refl, refl)

round_runs_example :
    (p : Proc) × Wins (refill_all three) (holder (refill_all three) (drawn three first_seed)) p
    × (round three first_seed
        ≡ some (
            picked
              (refill_all three)
              (randomrange 0 (pool (refill_all three)) first_seed).1
              (holder (refill_all three) (drawn three first_seed))
              p))
unfolding load pool refill_all get_total_runnable_tickets
round_runs_example = round_runs three first_seed (omega arith) (omega (arith, first_round_runs.0))

round-eq-none_iff_example :
    (round three first_seed ≡ none) ↔ (drawn three first_seed ≡ pool (refill_all three))
unfolding load
round-eq-none_iff_example = round-eq-none_iff three first_seed (omega arith)

getpinfo-round_example :
    slices (getpinfo_table first_round.table) ≡ slices (getpinfo_table three) + 1
unfolding load slices getpinfo_table
getpinfo-round_example =
    getpinfo-round three first_seed first_round (omega arith) (omega arith) first_round_runs.1

pids_before : (j : ℕ) (q : Proc) → j < 2 → get_elem? three j ≡ some q → (q.pid == 3) ≡ false
pids_before zero q l e = ground (arith, e)
pids_before (suc zero) q l e = ground (arith, e)
pids_before (suc (suc j)) q l e = absurd (omega arith)

abbrev nine : List Proc
nine = set three 2 (record (with_tickets runnable 3 4) { initial_tickets = 9 })
