-- ===== src/Proc/Ids/Enter.antt =====
-- `allocproc` and `fork` keep the invariant on the pids.
use operating_systems.Prelude.{
  ℕ, ◌+◌, ◌<◌, ◌≡◌, refl, arith, List, some, true, false, if◌then◌else◌, add32, u32_mod, set,
  get_elem?, get_elem?-set_here, Option-cases, Bool-cases, inl, inr,
}
use operating_systems.Proc.{Proc, used, is_unused}
use operating_systems.Proc.Kernel.{Resources, Kernel}
use operating_systems.Proc.Life.{
  find_unused, freeproc, setup, allocproc, fork, fork_copy, child_of, dup_files,
}
use operating_systems.Proc.Ids.{
  IsNumbered, ids, id_of, ids-set, ids-set_same, get_elem?-ids, find_unused-free, IsNumbered-claim,
  IsNumbered-release, IsNumbered-mono,
}

-- The invariant on the process table: every slot in use has a pid of its own below `nextpid`.
pub record IsValid {S : Type 0} (k : Kernel S) : Type 0 where
  pub numbered : IsNumbered k.nextpid (ids k.procs)
  pub positive : 0 < k.nextpid

pub IsValid-same :
    {S : Type 0} (k k' : Kernel S)
    → IsValid k
    → ids k'.procs ≡ ids k.procs
    → k'.nextpid ≡ k.nextpid
    → IsValid k'
IsValid-same k k' v e f = record { numbered = rw (e, f) v.numbered; positive = rw f v.positive }

module _ (R : Resources) (forkret : ℕ) where
  open R use {Store}

  id_of-freeproc : (p : Proc) (st : Store) → id_of (freeproc R forkret p st).0 ≡ (0, true)
  unfolding freeproc
  id_of-freeproc p st = refl

  id_of-setup :
      (pid : ℕ) (p : Proc) (st : Store)
      → id_of (setup R forkret pid p st).1
        ≡ (if (setup R forkret pid p st).0 then (pid, false) else (0, true))
  unfolding setup
  id_of-setup pid p st = ground arith

  setup-IsNumbered :
      (next i : ℕ) (ps : List Proc) (p : Proc) (st : Store)
      → IsNumbered next (ids ps)
      → 0 < next
      → get_elem? ps i ≡ some p
      → IsNumbered (next + 1) (ids (set ps i (setup R forkret next p st).1))
  setup-IsNumbered next i ps p st v pos at =
      rw (ids-set ps i (setup R forkret next p st).1, id_of-setup next p st)
        (elim (Bool-cases (setup R forkret next p st).0) [
          | inl e ↦ rw e (IsNumbered-claim next (ids ps) i (get_elem?-ids ps i at) v pos)
          | inr e ↦ rw e (
              IsNumbered-mono next _
                (IsNumbered-release next (ids ps) i (get_elem?-ids ps i at) v pos))
        ])

  -- While `nextpid` does not wrap, `allocproc`, whether it finds a slot or not and whether its
  -- allocations succeed or not, keeps the numbering: a slot in use has a pid other than 0 and below
  -- `nextpid`, no other slot has that pid, and the UNUSED slots have pid 0.
  pub allocproc-IsValid :
      (k : Kernel Store) → IsValid k → k.nextpid + 1 < u32_mod → IsValid (allocproc R forkret k).0
  unfolding allocproc
  allocproc-IsValid k v small = elim (Option-cases (find_unused k.procs)) [
    | inl e ↦ rw (e, allocproc) v
    | inr (i, e) ↦
        let (p, at, free) = find_unused-free k.procs i e in
        let next : add32 k.nextpid 1 ≡ k.nextpid + 1 = omega arith in
        rw (e, at, next, allocproc)
          (record {
            numbered = setup-IsNumbered k.nextpid i k.procs p k.store v.numbered v.positive at;
            positive = omega arith;
          })
  ]

  setup-used :
      (pid : ℕ) (p : Proc) (st : Store)
      → (setup R forkret pid p st).0 ≡ true
      → (setup R forkret pid p st).1.state ≡ used
  unfolding setup freeproc
  setup-used pid p st h = ground arith

  -- The slot that `allocproc` returns.
  pub allocproc-got :
      (k : Kernel Store) (i : ℕ)
      → (allocproc R forkret k).1 ≡ some i
      → (p : Proc) × (get_elem? k.procs i ≡ some p)
        × (is_unused p ≡ true)
        × (allocproc R forkret k ≡ (
          record k {
            procs = set k.procs i (setup R forkret k.nextpid p k.store).1;
            nextpid = add32 k.nextpid 1;
            store = (setup R forkret k.nextpid p k.store).2;
          },
          some i,
        ))
        × ((setup R forkret k.nextpid p k.store).0 ≡ true)
  unfolding allocproc
  allocproc-got k i h = elim (Option-cases (find_unused k.procs)) [
    | inl e ↦ absurd (ground (arith, h, e))
    | inr (j, e) ↦
        let (p, at, free) = find_unused-free k.procs j e in
        elim (Bool-cases (setup R forkret k.nextpid p k.store).0) [
          | inl done ↦
              let same : j ≡ i = ground (arith, h, e, at, done) in
              (p, rw (← same) at, free, rw (← same) (ground (arith, e, at, done)), done)
          | inr failed ↦ absurd (ground (arith, h, e, at, failed))
        ]
  ]

  fork_copy-IsValid :
      (me : ℕ) (p : Proc) (i : ℕ) (np : Proc) (k : Kernel Store)
      → IsValid k
      → get_elem? k.procs i ≡ some np
      → np.state ≡ used
      → IsValid (fork_copy R forkret me p i np k).0
  unfolding fork_copy
  fork_copy-IsValid me p i np k v at fresh =
      elim (Bool-cases (R.uvmcopy p.pagetable np.pagetable p.sz k.store).0) [
        | inl done ↦
            let child =
              child_of R forkret me p np
                (dup_files R forkret p.ofile np.ofile
                  (R.uvmcopy p.pagetable np.pagetable p.sz k.store).1).0 in
            let same : id_of child ≡ id_of np = ground (arith, fresh) in
            rw done (IsValid-same k _ v (ids-set_same k.procs i child at same) refl)
        | inr failed ↦ rw failed (record {
          numbered = rw (ids-set k.procs i _) (
              IsNumbered-release k.nextpid (ids k.procs) i (get_elem?-ids k.procs i at) v.numbered
                v.positive);
          positive = v.positive;
        })
      ]

  -- On a table that is numbered as `IsValid` says and while `nextpid` does not wrap, every way that
  -- `fork` returns keeps the numbering.
  pub fork-IsValid :
      (me : ℕ) (k : Kernel Store) {k' : Kernel Store} {code : ℕ}
      → IsValid k
      → k.nextpid + 1 < u32_mod
      → fork R forkret me k ≡ some (k', code)
      → IsValid k'
  unfolding fork
  fork-IsValid me k {k'} v small h = elim (Option-cases (allocproc R forkret k).1) [
    | inl e ↦
        let same : k' ≡ (allocproc R forkret k).0 = ground (arith, h, e) in
        rw same (allocproc-IsValid k v small)
    | inr (i, e) ↦
        let (old, at, free, all, done) = allocproc-got k i e in
        let k1 = (allocproc R forkret k).0 in
        let np = (setup R forkret k.nextpid old k.store).1 in
        let there : get_elem? k1.procs i ≡ some np = rw all (get_elem?-set_here k.procs i np at) in
        elim (Option-cases (get_elem? k1.procs me)) [
          | inl gone ↦ absurd (ground (arith, h, e, gone))
          | inr (p, found) ↦
              let same : k' ≡ (fork_copy R forkret me p i np k1).0 =
                ground (arith, h, e, found, there) in
              rw same (
                fork_copy-IsValid me p i np k1 (allocproc-IsValid k v small) there
                  (setup-used k.nextpid old k.store done))
        ]
  ]

  pub allocproc-find :
      (k : Kernel Store) (i : ℕ) → (allocproc R forkret k).1 ≡ some i → find_unused k.procs ≡ some i
  unfolding allocproc
  allocproc-find k i h = elim (Option-cases (find_unused k.procs)) [
    | inl e ↦ absurd (ground (arith, h, e))
    | inr (j, e) ↦
        let (p, at, free) = find_unused-free k.procs j e in
        elim (Bool-cases (setup R forkret k.nextpid p k.store).0) [
          | inl done ↦ ground (arith, h, e, at, done)
          | inr failed ↦ absurd (ground (arith, h, e, at, failed))
        ]
  ]
