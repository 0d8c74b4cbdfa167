-- ===== src/Lottery.antt =====
-- xv6-Lottery-Scheduler-Offline-03/kernel/proc.c: `get_total_runnable_tickets` and one round of the
-- loop of `scheduler`, up to its `swtch`; `settickets` and `getpinfo`.
pub mod Holder
pub mod Fair
pub mod Round
pub mod Tickets
mod Tests
use operating_systems.Prelude.{
  ℕ, suc, Bool, Option, none, some, List, [], ◌∷◌, map, add32, sub32, slt32, minus_one, ◌==◌,
  if◌then◌else◌, set, get_elem?, length,
}
use operating_systems.Random.{Seed, randomrange}
use operating_systems.Proc.{Proc, running, is_runnable, is_unused}

-- The loop of `get_total_runnable_tickets`, with its counter.
pub count_tickets : ℕ → List Proc → ℕ
count_tickets count [] = count
count_tickets count (p ∷ ps) =
    count_tickets (if is_runnable p then add32 count p.current_tickets else count) ps

pub get_total_runnable_tickets : List Proc → ℕ
unfolding count_tickets
get_total_runnable_tickets ps = count_tickets 0 ps

-- The reset at the head of a round.
pub refill : Proc → Proc
refill p = if is_runnable p then record p { current_tickets = p.initial_tickets } else p

pub refill_all : List Proc → List Proc
unfolding refill
refill_all ps = if get_total_runnable_tickets ps == 0 then map refill ps else ps

-- The search for the winner: where `p` stands in the table when the loop ends. Without a `break`
-- that is `&proc[NPROC]`, one past the last process.
pub draw : ℕ → ℕ → List Proc → ℕ
draw random_number count [] = 0
draw random_number count (p ∷ ps) =
    let count' = if is_runnable p then add32 count p.current_tickets else count in
    let rest = draw random_number count' ps in
    if is_runnable p then (if slt32 random_number count' then 0 else suc rest) else suc rest

-- What the scheduler does to the chosen process before `swtch`.
pub dispatch : Proc → Proc
dispatch p = record p {
  current_tickets = sub32 p.current_tickets 1;
  ticks_used = add32 p.ticks_used 1;
  state = running;
}

-- What a round leaves: the table, the generator, and `c->proc`.
pub record Picked : Type 0 where
  pub table : List Proc
  pub seed : Seed
  pub current : Option ℕ

-- The part of a round behind the search: `none` is the access to `proc[NPROC]`, out of the table.
pub switch_to : List Proc → Seed → ℕ → Option Picked
unfolding dispatch
switch_to ps s i = elim (get_elem? ps i) [
  | none ↦ none
  | some p ↦ some (
      if is_runnable p
      then record { table = set ps i (dispatch p); seed = s; current = some i }
      else record { table = ps; seed = s; current = none })
]

-- One round of the loop of `scheduler`.
pub round : List Proc → Seed → Option Picked
unfolding refill_all switch_to draw get_total_runnable_tickets
round ps s =
    let ps' = refill_all ps in
    let (random_number, s') = randomrange 0 (get_total_runnable_tickets ps') s in
    switch_to ps' s' (draw random_number 0 ps')

-- The loop of `settickets`: the first process with the caller's pid.
pub set_first : ℕ → ℕ → List Proc → List Proc
set_first pid tickets [] = []
set_first pid tickets (p ∷ ps) =
    if p.pid == pid
    then record p { initial_tickets = tickets } ∷ ps
    else p ∷ set_first pid tickets ps

-- `settickets` called by the process at `me`. The result is the new table and the return value;
-- `none` is a caller outside the table.
pub settickets : ℕ → ℕ → List Proc → Option (List Proc × ℕ)
unfolding set_first
settickets me tickets ps =
    if slt32 tickets 1
    then some (ps, minus_one)
    else elim (get_elem? ps me) [ none ↦ none | some p ↦ some (set_first p.pid tickets ps, 0) ]

-- `struct pstat`, its five arrays side by side: a row for each slot of the process table.
pub record Pstat : Type 0 where
  pub pid : ℕ
  pub inuse : ℕ
  pub tickets_original : ℕ
  pub tickets_current : ℕ
  pub time_slices : ℕ

-- What the loop of `getpinfo` puts into `temp`.
pub getpinfo_row : Proc → Pstat
getpinfo_row p = record {
  pid = p.pid;
  inuse = if is_unused p then 0 else 1;
  tickets_original = p.initial_tickets;
  tickets_current = p.current_tickets;
  time_slices = p.ticks_used;
}

pub getpinfo_table : List Proc → List Pstat
unfolding getpinfo_row
getpinfo_table ps = map getpinfo_row ps
