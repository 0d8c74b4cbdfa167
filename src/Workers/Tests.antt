-- ===== src/Workers/Tests.antt =====
-- One master and one worker pass one item.
use operating_systems.Prelude.{◌≡◌, refl, arith, List, [], ◌∷◌}
use operating_systems.Workers.{Event, master, worker, created, run}
use operating_systems.Workers.Places.{AllAre}
use operating_systems.Workers.Items.{count, reached, finished-all}
use operating_systems.Workers.Progress.{IsFinished, reached-IsFinished}

abbrev schedule : List Event
schedule = worker 0 ∷ worker 0 ∷ master 0 ∷ master 0 ∷ master 0 ∷ worker 0 ∷ worker 0 ∷ []

finished-all_example : count 0 (reached 1 1 1 1 (λ q. 9) schedule).printed ≡ 1
unfolding run created
finished-all_example = finished-all 1 1 1 1 (λ q. 9) schedule 0 0 refl

reached-IsFinished_example :
    AllAre IsFinished (reached 1 1 1 1 (λ q. 9) schedule).masters
    × AllAre IsFinished (reached 1 1 1 1 (λ q. 9) schedule).workers
unfolding run created
reached-IsFinished_example =
    reached-IsFinished 1 1 1 1 (λ q. 9) schedule (omega arith) (omega arith) (omega arith) (tt, tt)
      (tt, tt)
