-- ===== src/Proc/Tests.antt =====
-- The calls of kernel/proc.c on the small kernel.
use operating_systems.Prelude.{
  ℕ, ◌≡◌, refl, arith, Option, some, none, true, false, ◌&&◌, set, get_elem?,
}
use operating_systems.Proc.{Proc, slot, is_unused, is_zombie, is_sleeping, same_chan}
use operating_systems.Proc.Kernel.{Kernel}
use operating_systems.Proc.Sleep.{wakeup, kill}
use operating_systems.Proc.Life.{allocproc, fork, exit, wait, returned, freeproc}
use operating_systems.Proc.Ids.Enter.{IsValid, fork-IsValid}
use operating_systems.Proc.Orphans.{parents}
use operating_systems.Proc.Orphans.Exit.{parents-exit, wait-exit}
use operating_systems.Proc.Child.{IsChild, fork-IsChild, allocproc-kill_zero}
use operating_systems.Proc.Samples.{
  resources, free_slot, booted, booted-IsValid, one_process, one_process-IsValid, two_processes,
  forked,
}

fork-IsValid_example : IsValid two_processes
unfolding allocproc
fork-IsValid_example =
    fork-IsValid resources 7 0 one_process one_process-IsValid (omega arith) forked

-- The child leaves with status 9.
abbrev after : Kernel ℕ → Option (Kernel ℕ) → Kernel ℕ
after k none = k
after k (some k') = k'

abbrev child_left : Kernel ℕ
child_left = after two_processes (exit resources 7 1 9 two_processes)

child_exits : exit resources 7 1 9 two_processes ≡ some child_left
unfolding exit fork allocproc
child_exits = refl

parents-exit_example : get_elem? (parents child_left.procs) 1 ≡ some (some 0)
unfolding fork allocproc parents
parents-exit_example = parents-exit resources 7 1 9 two_processes child_exits 1

-- The slot of the first process.
abbrev slot_of : Kernel ℕ → Proc → Proc
slot_of k p = elim (get_elem? k.procs 0) [ none ↦ p | some q ↦ q ]

abbrev first_slot : Kernel ℕ → Proc
first_slot k = slot_of k free_slot

wait-exit_example :
    (is_sleeping (first_slot child_left) && same_chan (first_slot child_left).chan (slot 0) ≡ false)
    × ((i : ℕ) × (z : Proc) × (get_elem? child_left.procs i ≡ some z)
        × (is_zombie z ≡ true)
        × (z.parent ≡ some 0)
        × (wait resources 7 0 0 child_left
            ≡ some (
              record child_left {
                procs = set child_left.procs i (freeproc resources 7 z child_left.store).0;
                store = (freeproc resources 7 z child_left.store).1;
              },
              returned z.pid,
            )))
unfolding fork allocproc parents exit wakeup
wait-exit_example =
    wait-exit resources 7 1 9 two_processes child_exits 0 (first_slot child_left) refl refl refl

reaped : (k : Kernel ℕ) × (wait resources 7 0 0 child_left ≡ some (k, returned 2))
unfolding wait exit fork allocproc wakeup
reaped = (_, refl)

fork-IsChild_example :
    (i : ℕ) × (old : Proc) × (c : Proc) × (get_elem? one_process.procs i ≡ some old)
    × (is_unused old ≡ true)
    × (get_elem? two_processes.procs i ≡ some c)
    × (2 ≡ one_process.nextpid)
    × IsChild 0 one_process.nextpid (first_slot one_process) old c
unfolding allocproc
fork-IsChild_example =
    fork-IsChild resources 7 0 one_process two_processes 2 (first_slot one_process) refl refl forked
      (λ e. absurd (omega arith))

allocproc-kill_zero_example :
    ((kill 0 booted.procs).1 ≡ 0)
    × (c : Proc) × (get_elem?
          (allocproc resources 7 (record booted { procs = (kill 0 booted.procs).0 })).0.procs
          0
        ≡ some c)
    × (c.killed ≡ 1)
unfolding allocproc kill
allocproc-kill_zero_example = allocproc-kill_zero resources 7 booted 0 booted-IsValid refl
