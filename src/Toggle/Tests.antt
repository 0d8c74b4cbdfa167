-- ===== src/Toggle/Tests.antt =====
-- The first turns of the three threads, with thread 1 waiting first; and the threads that all wait
-- since the second `zem_init` comes after the first turn.
use operating_systems.Prelude.{◌≡◌, refl, arith, [], ◌∷◌, length}
use operating_systems.Toggle.{
  asleep, State, creates, downs, shows, passes, started, IsReachable, starts, goes_on, create,
  zem_down, zem_up, show, pass_on,
}
use operating_systems.Toggle.Places.{turns}
use operating_systems.Toggle.Turns.{reachable-turns}

abbrev with_0 : State
with_0 = create started

abbrev with_1 : State
with_1 = create with_0

abbrev with_2 : State
with_2 = create with_1

abbrev waiting : State
waiting = zem_down 1 with_2

abbrev entered_0 : State
entered_0 = zem_down 0 waiting

abbrev shown_0 : State
shown_0 = show 0 entered_0

abbrev passed : State
passed = pass_on 0 shown_0

abbrev entered_1 : State
entered_1 = zem_down 1 passed

abbrev shown_1 : State
shown_1 = show 1 entered_1

with_2-IsReachable : IsReachable with_2
unfolding create
with_2-IsReachable =
    goes_on with_1 with_2
      (goes_on with_0 with_1 (goes_on started with_0 starts (creates started (omega arith)))
        (creates with_0 (omega arith)))
      (creates with_1 (omega arith))

shown_1-IsReachable : IsReachable shown_1
unfolding create zem_down pass_on zem_up
shown_1-IsReachable =
    goes_on entered_1 shown_1
      (goes_on passed entered_1
        (goes_on shown_0 passed
          (goes_on entered_0 shown_0
            (goes_on waiting entered_0
              (goes_on with_2 waiting with_2-IsReachable (downs 1 with_2 (omega arith) refl))
              (downs 0 waiting (omega arith) refl))
            (shows 0 entered_0 (omega arith) refl))
          (passes 0 shown_0 (omega arith) refl))
        (downs 1 passed (omega arith) refl))
      (shows 1 entered_1 (omega arith) refl)

two_turns : shown_1.printed ≡ 1 ∷ 0 ∷ []
unfolding create zem_down pass_on zem_up
two_turns = refl

-- Thread 0 has its first turn before `main` goes on.
abbrev early : State
early = pass_on 0 (show 0 (zem_down 0 with_0))

abbrev hurried : State
hurried = create (create early)

abbrev stuck : State
stuck = zem_down 2 (zem_down 1 (zem_down 0 hurried))

early-IsReachable : IsReachable early
unfolding create zem_down pass_on zem_up
early-IsReachable =
    goes_on (show 0 (zem_down 0 with_0)) early
      (goes_on (zem_down 0 with_0) (show 0 (zem_down 0 with_0))
        (goes_on with_0 (zem_down 0 with_0)
          (goes_on started with_0 starts (creates started (omega arith)))
          (downs 0 with_0 (omega arith) refl))
        (shows 0 (zem_down 0 with_0) (omega arith) refl))
      (passes 0 (show 0 (zem_down 0 with_0)) (omega arith) refl)

hurried-IsReachable : IsReachable hurried
unfolding create zem_down pass_on zem_up
hurried-IsReachable =
    goes_on (create early) hurried
      (goes_on early (create early) early-IsReachable (creates early (omega arith)))
      (creates (create early) (omega arith))

stuck-IsReachable : IsReachable stuck
unfolding create zem_down pass_on zem_up
stuck-IsReachable =
    goes_on (zem_down 1 (zem_down 0 hurried)) stuck
      (goes_on (zem_down 0 hurried) (zem_down 1 (zem_down 0 hurried))
        (goes_on hurried (zem_down 0 hurried) hurried-IsReachable
          (downs 0 hurried (omega arith) refl))
        (downs 1 (zem_down 0 hurried) (omega arith) refl))
      (downs 2 (zem_down 1 (zem_down 0 hurried)) (omega arith) refl)

all_asleep :
    (stuck.pc 0 ≡ asleep) × (stuck.pc 1 ≡ asleep) × (stuck.pc 2 ≡ asleep) × (stuck.made ≡ 3)
unfolding create zem_down pass_on zem_up
all_asleep = (refl, refl, refl, refl)

reachable-turns_example : shown_1.printed ≡ turns (length shown_1.printed)
reachable-turns_example = reachable-turns shown_1 shown_1-IsReachable
