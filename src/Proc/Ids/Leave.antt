-- ===== src/Proc/Ids/Leave.antt =====
-- `exit` and `wait` keep the invariant on the pids.
use operating_systems.Prelude.{
  ℕ, ◌≡◌, refl, ap, ◌∙◌, arith, List, none, some, true, false, ◌||◌, not, ◌==◌, if◌then◌else◌, set,
  get_elem?, modify, map, Option-cases, Bool-cases, inl, inr,
}
use operating_systems.Proc.{Proc, chan_of, same_proc, slot, zombie}
use operating_systems.Proc.Kernel.{Resources, Kernel}
use operating_systems.Proc.Sleep.{wakeup, sleep, killed}
use operating_systems.Proc.Life.{
  find_zombie, exit, finish_exit, reparent, wait, reap, has_child, Waited,
}
use operating_systems.Proc.Ids.{
  ids, ids-set, ids-set_same, ids-modify, ids-wakeup, ids-reparent, get_elem?-ids,
  find_zombie-child, IsNumbered-release,
}
use operating_systems.Proc.Ids.Enter.{IsValid, IsValid-same}

-- `me` is a slot in use.
abbrev pub IsLive : {S : Type 0} → ℕ → Kernel S → Type 0
IsLive me k = (n : ℕ) × (get_elem? (ids k.procs) me ≡ some (n, false))

finish_exit-ids :
    (me status n : ℕ) (ps : List Proc) {ps' : List Proc}
    → get_elem? (ids ps) me ≡ some (n, false)
    → finish_exit me status ps ≡ some ps'
    → ids ps' ≡ ids ps
unfolding finish_exit
finish_exit-ids me status n ps {ps'} live h = elim (Option-cases (get_elem? ps me)) [
  | inl gone ↦ absurd (ground (arith, h, gone))
  | inr (p, at) ↦
      let woken_up = wakeup me (chan_of p.parent) ps in
      let die = λ (q : Proc). record q { xstate = status; state = zombie } in
      let same : ps' ≡ modify woken_up me die = ground (arith, h, at) in
      rw same (
        ids-modify woken_up me die (λ q e. ground (
          arith,
          live,
          get_elem?-ids woken_up me e,
          ap (λ l. get_elem? l me) (ids-wakeup me (chan_of p.parent) ps),
        ))
        ∙ ids-wakeup me (chan_of p.parent) ps)
]

module _ (R : Resources) (forkret : ℕ) where
  open R use {Store}

  -- The parts of a successful `exit`.
  pub exit_inverts :
      (me status : ℕ) (k : Kernel Store) {k' : Kernel Store}
      → exit R forkret me status k ≡ some k'
      → (p : Proc) × (get_elem? k.procs me ≡ some p)
        × (finish_exit me status (
              reparent me k.initproc
                (set k.procs me (record p { ofile = map (λ _. none) p.ofile; cwd = none })))
            ≡ some k'.procs)
        × (k'.nextpid ≡ k.nextpid)
        × (same_proc (some me) k.initproc ≡ false)
  unfolding exit
  exit_inverts me status k {k'} h = elim (Bool-cases (same_proc (some me) k.initproc)) [
    | inl init ↦ absurd (ground (arith, h, init))
    | inr other ↦ elim (Option-cases (get_elem? k.procs me)) [
      | inl gone ↦ absurd (ground (arith, h, other, gone))
      | inr (p, at) ↦ (p, at, ground (arith, h, other, at), ground (arith, h, other, at), other)
    ]
  ]

  -- An `exit` by a process in use, which does not panic, keeps the numbering of the slots that
  -- `IsValid` describes.
  pub exit-IsValid :
      (me status : ℕ) (k : Kernel Store) {k' : Kernel Store}
      → IsValid k
      → IsLive me k
      → exit R forkret me status k ≡ some k'
      → IsValid k'
  exit-IsValid me status k {k'} v (n, live) h =
      let (p, at, finished, kept, _) = exit_inverts me status k h in
      let closed = record p { ofile = map (λ _. none) p.ofile; cwd = none } in
      let before : ids (reparent me k.initproc (set k.procs me closed)) ≡ ids k.procs =
        ids-reparent me k.initproc (set k.procs me closed)
        ∙ ids-set_same k.procs me closed at refl in
      let live' : get_elem? (ids (reparent me k.initproc (set k.procs me closed))) me
          ≡ some (n, false) =
        rw before live in
      IsValid-same k k' v (finish_exit-ids me status n _ live' finished ∙ before) kept

  reap-IsValid :
      (table addr i : ℕ) (pp : Proc) (k : Kernel Store)
      → IsValid k
      → get_elem? k.procs i ≡ some pp
      → IsValid (reap R forkret table addr i pp k).0
  unfolding reap
  reap-IsValid table addr i pp k v at =
      elim (Bool-cases
        (if addr == 0 then (true, k.store) else R.copyout table addr pp.xstate k.store).0) [
          | inl done ↦ rw done (record {
            numbered = rw (ids-set k.procs i _) (
                IsNumbered-release k.nextpid (ids k.procs) i (get_elem?-ids k.procs i at) v.numbered
                  v.positive);
            positive = v.positive;
          })
          | inr failed ↦ rw failed (record { numbered = v.numbered; positive = v.positive })
        ]

  -- A round of `wait` by a process in use keeps the numbering of the slots that `IsValid` describes,
  -- whether it frees a child, fails, or sleeps.
  pub wait-IsValid :
      (me addr : ℕ) (k : Kernel Store) {k' : Kernel Store} {w : Waited}
      → IsValid k
      → IsLive me k
      → wait R forkret me addr k ≡ some (k', w)
      → IsValid k'
  unfolding wait sleep
  wait-IsValid me addr k {k'} v live h = elim (Option-cases (get_elem? k.procs me)) [
    | inl gone ↦ absurd (ground (arith, h, gone))
    | inr (p, at) ↦ elim (Option-cases (find_zombie me k.procs)) [
      | inr (i, e) ↦
          let (pp, there, z, c) = find_zombie-child me k.procs i e in
          let same : k' ≡ (reap R forkret p.pagetable addr i pp k).0 =
            ground (arith, h, at, e, there) in
          rw same (reap-IsValid p.pagetable addr i pp k v there)
      | inl e ↦ elim (Bool-cases (not (has_child me k.procs) || not (killed p == 0))) [
        | inl stop ↦ let same : k' ≡ k = ground (arith, h, at, e, stop) in rw same v
        | inr stay ↦
            let same : k' ≡ record k { procs = modify k.procs me (sleep (slot me)) } =
              ground (arith, h, at, e, stay) in
            rw same (
              IsValid-same k _ v
                (ids-modify k.procs me (sleep (slot me))
                  (λ q there. ground (arith, live.1, get_elem?-ids k.procs me there)))
                refl)
      ]
    ]
  ]
