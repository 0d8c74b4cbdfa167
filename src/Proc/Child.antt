-- ===== src/Proc/Child.antt =====
-- What a successful `fork` makes of the free slot, and what the slot's last owner leaves in it.
use operating_systems.Prelude.{
  ℕ, suc, ◌≡◌, ◌≢◌, refl, ap, sym, ◌∙◌, arith, List, [], ◌∷◌, Option, some, true, false, ◌==◌,
  minus_one, set, get_elem?, get_elem?-set_here, get_elem?-set, Option-cases, Bool-cases, inl, inr,
}
use operating_systems.Proc.{Proc, is_unused, is_runnable}
use operating_systems.Proc.Kernel.{Resources, Kernel}
use operating_systems.Proc.Sleep.{kill}
use operating_systems.Proc.Life.{
  find_unused, freeproc, setup, allocproc, fork, fork_copy, child_of, dup_files,
}
use operating_systems.Proc.Ids.{ids, get_elem?-ids}
use operating_systems.Proc.Ids.Enter.{IsValid, allocproc-got, allocproc-find}

-- The process `c` in the slot that held `old`, forked by `p` at `me`.
pub record IsChild (me pid : ℕ) (p old c : Proc) : Type 0 where
  pub ready : is_runnable c ≡ true
  pub numbered : c.pid ≡ pid
  pub parent : c.parent ≡ some me
  pub returns_zero : c.frame.a0 ≡ 0
  pub resumes : c.frame.epc ≡ p.frame.epc
  pub sized : c.sz ≡ p.sz
  pub tickets : c.initial_tickets ≡ p.initial_tickets
  pub fresh_tickets : c.current_tickets ≡ p.initial_tickets
  pub stale_ticks : c.ticks_used ≡ old.ticks_used
  pub stale_killed : c.killed ≡ old.killed

-- A slot has pid 0 exactly if it is UNUSED.
numbered_zero :
    {S : Type 0} (k : Kernel S)
    → IsValid k
    → (j : ℕ) (p : Proc) → get_elem? k.procs j ≡ some p
    → (p.pid == 0) ≡ is_unused p
numbered_zero k v j p at = elim (Bool-cases (is_unused p)) [
  | inl u ↦
      let e : get_elem? (ids k.procs) j ≡ some (p.pid, true) =
        get_elem?-ids k.procs j at ∙ ap (λ b. some (p.pid, b)) u in
      ground (arith, u, v.numbered.free j p.pid e)
  | inr u ↦
      let e : get_elem? (ids k.procs) j ≡ some (p.pid, false) =
        get_elem?-ids k.procs j at ∙ ap (λ b. some (p.pid, b)) u in
      ground (arith, u, v.numbered.live j p.pid e)
]

kill_zero :
    (ps : List Proc)
    → ((j : ℕ) (p : Proc) → get_elem? ps j ≡ some p → (p.pid == 0) ≡ is_unused p)
    → (i : ℕ) (q : Proc) → find_unused (kill 0 ps).0 ≡ some i
    → get_elem? (kill 0 ps).0 i ≡ some q
    → ((kill 0 ps).1 ≡ 0) × (q.killed ≡ 1)
unfolding kill find_unused
kill_zero [] all i q h at = absurd (ground arith)
kill_zero (p ∷ ps) all i q h at = elim (Bool-cases (is_unused p)) [
  | inl u ↦ ground (arith, u, h, at, all 0 p refl)
  | inr u ↦ elim (Option-cases (find_unused (kill 0 ps).0)) [
    | inl e ↦ absurd (ground (arith, u, h, e, all 0 p refl))
    | inr (j, e) ↦
        ground (arith, u, h, at, e, all 0 p refl, kill_zero ps (λ l r m. all (suc l) r m) j q e)
  ]
]

module _ (R : Resources) (forkret : ℕ) where
  open R use {Store}

  setup_keeps :
      (pid : ℕ) (p : Proc) (st : Store)
      → (setup R forkret pid p st).0 ≡ true
      → ((setup R forkret pid p st).1.pid ≡ pid)
        × ((setup R forkret pid p st).1.ticks_used ≡ p.ticks_used)
        × ((setup R forkret pid p st).1.killed ≡ p.killed)
  unfolding setup freeproc
  setup_keeps pid p st h = ground arith

  fork_copy-child :
      (me : ℕ) (p : Proc) (i : ℕ) (np : Proc) (k : Kernel Store)
      → get_elem? k.procs i ≡ some np
      → (fork_copy R forkret me p i np k).1 ≢ minus_one
      → (files : List (Option ℕ)) × (get_elem? (fork_copy R forkret me p i np k).0.procs i
          ≡ some (child_of R forkret me p np files))
        × ((fork_copy R forkret me p i np k).1 ≡ np.pid)
  unfolding fork_copy
  fork_copy-child me p i np k at ok =
      let (done, st1) = R.uvmcopy p.pagetable np.pagetable p.sz k.store in
      let files = (dup_files R forkret p.ofile np.ofile st1).0 in
      elim (Bool-cases done) [
        | inl e ↦ (
          files,
          rw e (get_elem?-set_here k.procs i (child_of R forkret me p np files) at),
          rw e refl,
        )
        | inr e ↦ absurd (ok (rw e refl))
      ]

  child_of-IsChild :
      (me pid : ℕ) (p old np : Proc) (files : List (Option ℕ))
      → np.pid ≡ pid
      → np.ticks_used ≡ old.ticks_used
      → np.killed ≡ old.killed
      → IsChild me pid p old (child_of R forkret me p np files)
  unfolding child_of
  child_of-IsChild me pid p old np files a b c = record {
    ready = refl;
    numbered = a;
    parent = refl;
    returns_zero = refl;
    resumes = refl;
    sized = refl;
    tickets = refl;
    fresh_tickets = refl;
    stale_ticks = b;
    stale_killed = c;
  }

  -- A `fork` by a process in use that does not fail returns the next pid and leaves, in a slot that
  -- was UNUSED, a RUNNABLE child that returns 0 and has its parent's memory size and initial
  -- tickets, all of them current; its `ticks_used` and `killed` are what the slot held before.
  pub fork-IsChild :
      (me : ℕ) (k k' : Kernel Store) (code : ℕ) (p : Proc)
      → get_elem? k.procs me ≡ some p
      → is_unused p ≡ false
      → fork R forkret me k ≡ some (k', code)
      → code ≢ minus_one
      → (i : ℕ) × (old : Proc) × (c : Proc) × (get_elem? k.procs i ≡ some old)
        × (is_unused old ≡ true)
        × (get_elem? k'.procs i ≡ some c)
        × (code ≡ k.nextpid)
        × IsChild me k.nextpid p old c
  unfolding fork
  fork-IsChild me k k' code p at live h ok = elim (Option-cases (allocproc R forkret k).1) [
    | inl e ↦ absurd (ground (arith, h, e))
    | inr (i, e) ↦
        let (old, was, free, all, done) = allocproc-got R forkret k i e in
        let np = (setup R forkret k.nextpid old k.store).1 in
        let k1 = (allocproc R forkret k).0 in
        let table : k1.procs ≡ set k.procs i np = ap (λ r. r.0.procs) all in
        let there : get_elem? k1.procs i ≡ some np =
          ap (λ l. get_elem? l i) table ∙ get_elem?-set_here k.procs i np was in
        let apart : (i == me) ≡ false = ground (arith, was, at, free, live) in
        let mine : get_elem? k1.procs me ≡ some p =
          ap (λ l. get_elem? l me) table ∙ get_elem?-set k.procs i me np was ∙ rw apart at in
        let result : some (k', code) ≡ some (fork_copy R forkret me p i np k1) =
          sym h ∙ ground (arith, e, mine, there) in
        let same : k' ≡ (fork_copy R forkret me p i np k1).0 = cc in
        let returns : code ≡ (fork_copy R forkret me p i np k1).1 = cc in
        let (files, held, pid_of) =
          fork_copy-child me p i np k1 there (λ failed. ok (returns ∙ failed)) in
        let (pid_is, ticks, kills) = setup_keeps k.nextpid old k.store done in
        (
          i,
          old,
          child_of R forkret me p np files,
          was,
          free,
          ap (λ r. get_elem? r.procs i) same ∙ held,
          returns ∙ pid_of ∙ pid_is,
          child_of-IsChild me k.nextpid p old np files pid_is ticks kills,
        )
  ]

  -- On a table that is numbered as `IsValid` says: if `allocproc` makes a process behind a `kill` of
  -- pid 0, then that `kill` has reported success, and the process starts as killed.
  pub allocproc-kill_zero :
      (k : Kernel Store) (i : ℕ)
      → IsValid k
      → (allocproc R forkret (record k { procs = (kill 0 k.procs).0 })).1 ≡ some i
      → ((kill 0 k.procs).1 ≡ 0)
        × (c : Proc) × (get_elem?
              (allocproc R forkret (record k { procs = (kill 0 k.procs).0 })).0.procs
              i
            ≡ some c)
        × (c.killed ≡ 1)
  allocproc-kill_zero k i v h =
      let marked = record k { procs = (kill 0 k.procs).0 } in
      let (old, was, free, all, done) = allocproc-got R forkret marked i h in
      let (code, marks) =
        kill_zero k.procs (numbered_zero k v) i old (allocproc-find R forkret marked i h) was in
      let (_, _, kills) = setup_keeps k.nextpid old k.store done in
      (
        code,
        (setup R forkret k.nextpid old k.store).1,
        ap (λ r. get_elem? r.0.procs i) all
            ∙ get_elem?-set_here (kill 0 k.procs).0 i (setup R forkret k.nextpid old k.store).1 was,
        kills ∙ marks,
      )
