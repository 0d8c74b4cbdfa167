-- ===== src/Proc/Life.antt =====
-- kernel/proc.c: `allocpid`, `allocproc`, `freeproc`, `fork`, `reparent`, `exit` up to its call of
-- `sched`, and one round of the loop of `wait`.
use mathlib.Core.Option
use operating_systems.Prelude.{
  ℕ, zero, suc, ◌+◌, List, [], ◌∷◌, Option, none, some, Bool, true, false, ◌&&◌, ◌||◌, not, ◌==◌,
  if◌then◌else◌, minus_one, add32, set, get_elem?, length, take, replicate, ◌-◌, modify, map,
}
use operating_systems.Proc.{
  Proc, null, slot, chan_of, same_proc, unused, used, zombie, runnable, is_unused, is_zombie,
}
use operating_systems.Proc.Kernel.{Resources, Kernel}
use operating_systems.Proc.Sleep.{wakeup, sleep, killed}

abbrev pub pgsize : ℕ
pgsize = 4096

-- `sizeof(p->name)`
abbrev pub sizeof_name : ℕ
sizeof_name = 16

-- The search of `allocproc`: the first UNUSED slot.
unfoldable pub find_unused : List Proc → Option ℕ
find_unused [] = none
find_unused (p ∷ ps) =
    if is_unused p then some 0 else elim (find_unused ps) [ none ↦ none | some i ↦ some (suc i) ]

-- `safestrcpy` between two `name`s, on the texts in front of the NUL.
abbrev pub copy_name : List ℕ → List ℕ
copy_name t = take (sizeof_name - 1) t

-- The body of the loop of `reparent` for slot `i`.
unfoldable pub hand_over : ℕ → Option ℕ → ℕ → List Proc → List Proc
hand_over me init i ps = elim (get_elem? ps i) [
  | none ↦ ps
  | some p ↦
      if same_proc p.parent (some me)
      then wakeup me (chan_of init) (set ps i (record p { parent = init }))
      else ps
]

-- The loop of `reparent` from slot `i` on, with `n` slots left.
unfoldable pub reparent_from : ℕ → Option ℕ → ℕ → ℕ → List Proc → List Proc
unfolding hand_over
reparent_from me init zero i ps = ps
reparent_from me init (suc n) i ps = reparent_from me init n (suc i) (hand_over me init i ps)

unfoldable pub reparent : ℕ → Option ℕ → List Proc → List Proc
unfolding reparent_from
reparent me init ps = reparent_from me init (length ps) 0 ps

-- `havekids` of `wait`: whether the scan meets a child.
unfoldable pub has_child : ℕ → List Proc → Bool
has_child me [] = false
has_child me (p ∷ ps) = same_proc p.parent (some me) || has_child me ps

-- The scan of `wait`: the first ZOMBIE child of `me`.
unfoldable pub find_zombie : ℕ → List Proc → Option ℕ
find_zombie me [] = none
find_zombie me (p ∷ ps) =
    if same_proc p.parent (some me) && is_zombie p
    then some 0
    else elim (find_zombie me ps) [ none ↦ none | some i ↦ some (suc i) ]

-- `exit` behind `reparent`: the parent is woken, and the process becomes a ZOMBIE.
unfoldable pub finish_exit : ℕ → ℕ → List Proc → Option (List Proc)
finish_exit me status ps = elim (get_elem? ps me) [
  | none ↦ none
  | some p ↦ some (
      modify (wakeup me (chan_of p.parent) ps) me
        (λ q. record q { xstate = status; state = zombie }))
]

-- How a round of the loop of `wait` ends: a return, or `sleep` and another round.
pub data Waited : Type 0 where
  returned : ℕ → Waited
  asleep : Waited

module _ (R : Resources) (forkret : ℕ) where
  open R use {
    Store, kalloc, kfree, proc_pagetable, proc_freepagetable, uvmcopy, copyout, filedup, fileclose,
    idup, iput,
  }

  -- `freeproc`: the slot, and the memory behind it.
  unfoldable pub freeproc : Proc → Store → Proc × Store
  freeproc p st =
      let st1 = if p.trapframe == 0 then st else kfree p.trapframe st in
      let st2 = if p.pagetable == 0 then st1 else proc_freepagetable p.pagetable p.sz st1 in
      (
        record p {
          trapframe = 0;
          pagetable = 0;
          sz = 0;
          pid = 0;
          parent = none;
          name = [];
          chan = null;
          killed = 0;
          xstate = 0;
          state = unused;
        },
        st2,
      )

  -- `allocproc` on the slot that it finds: whether it succeeds, the slot, and the store.
  unfoldable pub setup : ℕ → Proc → Store → Bool × Proc × Store
  unfolding freeproc
  setup pid p st =
      let (frame_page, st1) = kalloc st in
      let p1 = record p { pid = pid; state = used; trapframe = frame_page } in
      let (table, st2) = proc_pagetable frame_page st1 in
      let p2 = record p1 { pagetable = table } in
      if frame_page == 0
      then (let (q, st') = freeproc p1 st1 in (false, q, st'))
      else if table == 0
      then (let (q, st') = freeproc p2 st2 in (false, q, st'))
      else (
        true,
        record p2 {
          context = record { ra = forkret; sp = p.kstack + pgsize; saved = replicate 12 0 };
        },
        st2,
      )

  -- `allocpid`: the pid, and the new `nextpid`.
  unfoldable pub allocpid : Kernel Store → ℕ × Kernel Store
  allocpid k = (k.nextpid, record k { nextpid = add32 k.nextpid 1 })

  unfoldable pub allocproc : Kernel Store → Kernel Store × Option ℕ
  unfolding setup allocpid find_unused
  allocproc k = elim (find_unused k.procs) [
    | none ↦ (k, none)
    | some i ↦ elim (get_elem? k.procs i) [
      | none ↦ (k, none)
      | some p ↦
          let (pid, k1) = allocpid k in
          let (done, q, st) = setup pid p k1.store in
          (record k1 { procs = set k1.procs i q; store = st }, if done then some i else none)
    ]
  ]

  -- The loop of `fork` over the open files: the parent's, then the child's.
  unfoldable pub dup_files : List (Option ℕ) → List (Option ℕ) → Store → List (Option ℕ) × Store
  dup_files [] gs st = (gs, st)
  dup_files (f ∷ fs) [] st = ([], st)
  dup_files (none ∷ fs) (g ∷ gs) st = let (hs, st') = dup_files fs gs st in (g ∷ hs, st')
  dup_files (some f ∷ fs) (g ∷ gs) st =
      let (hs, st') = dup_files fs gs (filedup f st) in (some f ∷ hs, st')

  -- The child that `fork` makes of the allocated slot `np` once the memory is copied.
  unfoldable pub child_of : ℕ → Proc → Proc → List (Option ℕ) → Proc
  child_of me p np files = record np {
    sz = p.sz;
    initial_tickets = p.initial_tickets;
    current_tickets = p.initial_tickets;
    frame = record (p.frame) { a0 = 0 };
    ofile = files;
    cwd = p.cwd;
    name = copy_name p.name;
    parent = some me;
    state = runnable;
  }

  -- `fork` from `uvmcopy` on.
  unfoldable pub fork_copy : ℕ → Proc → ℕ → Proc → Kernel Store → Kernel Store × ℕ
  unfolding freeproc child_of dup_files
  fork_copy me p i np k =
      let (done, st1) = uvmcopy p.pagetable np.pagetable p.sz k.store in
      let (files, st2) = dup_files p.ofile np.ofile st1 in
      let (q, st') = freeproc np st1 in
      if done
      then (
        record k { procs = set k.procs i (child_of me p np files); store = idup p.cwd st2 },
        np.pid,
      )
      else (record k { procs = set k.procs i q; store = st' }, minus_one)

  -- `fork` by the process at `me`. `none` is an access outside the table.
  unfoldable pub fork : ℕ → Kernel Store → Option (Kernel Store × ℕ)
  unfolding allocproc fork_copy
  fork me k =
      let (k1, got) = allocproc k in
      elim got [
        | none ↦ some (k1, minus_one)
        | some i ↦ elim (get_elem? k1.procs me) [
          | none ↦ none
          | some p ↦ elim (get_elem? k1.procs i) [
            | none ↦ none
            | some np ↦ some (fork_copy me p i np k1)
          ]
        ]
      ]

  -- The loop of `exit` over the open files.
  unfoldable pub close_files : List (Option ℕ) → Store → Store
  close_files [] st = st
  close_files (none ∷ fs) st = close_files fs st
  close_files (some f ∷ fs) st = close_files fs (fileclose f st)

  -- `exit` by the process at `me`, up to `sched`. `none` is the panic "init exiting", or an access
  -- outside the table.
  unfoldable pub exit : ℕ → ℕ → Kernel Store → Option (Kernel Store)
  unfolding close_files finish_exit reparent
  exit me status k = if same_proc (some me) k.initproc then none else elim (get_elem? k.procs me) [
    | none ↦ none
    | some p ↦
        let st1 = iput p.cwd (close_files p.ofile k.store) in
        let closed = record p { ofile = map (λ _. none) p.ofile; cwd = none } in
        let procs1 = reparent me k.initproc (set k.procs me closed) in
        Option.map (λ procs2. record k { procs = procs2; store = st1 })
          (finish_exit me status procs1)
  ]

  -- `wait` by the process at `me` that has found the ZOMBIE child `pp` at `i`.
  unfoldable pub reap : ℕ → ℕ → ℕ → Proc → Kernel Store → Kernel Store × Waited
  unfolding freeproc
  reap table addr i pp k =
      let (done, st) =
        if addr == 0 then (true, k.store) else copyout table addr pp.xstate k.store in
      let (q, st') = freeproc pp st in
      if done
      then (record k { procs = set k.procs i q; store = st' }, returned pp.pid)
      else (record k { store = st }, returned minus_one)

  -- One round of the loop of `wait`, `sleep` up to its `sched`.
  unfoldable pub wait : ℕ → ℕ → Kernel Store → Option (Kernel Store × Waited)
  unfolding find_zombie has_child reap
  wait me addr k = elim (get_elem? k.procs me) [
    | none ↦ none
    | some p ↦ elim (find_zombie me k.procs) [
      | some i ↦ elim (get_elem? k.procs i) [
        | none ↦ none
        | some pp ↦ some (reap p.pagetable addr i pp k)
      ]
      | none ↦ some (
          if not (has_child me k.procs) || not (killed p == 0)
          then (k, returned minus_one)
          else (record k { procs = modify k.procs me (sleep (slot me)) }, asleep))
    ]
  ]
