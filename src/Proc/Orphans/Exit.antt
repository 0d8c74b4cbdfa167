-- ===== src/Proc/Orphans/Exit.antt =====
-- What `exit` leaves to the parent, and what the parent's `wait` then does.
use mathlib.Core.Option
use operating_systems.Prelude.{
  ℕ, zero, suc, ◌≡◌, refl, ap, sym, ◌∙◌, arith, List, [], ◌∷◌, none, some, true, false, ◌&&◌, ◌==◌,
  map, set, get_elem?, modify, get_elem?-modify, Option-cases, Bool-cases, inl, inr,
}
use operating_systems.Proc.{
  Proc, Chan, slot, zombie, chan_of, same_proc, same_chan, is_zombie, is_sleeping,
}
use operating_systems.Proc.Kernel.{Resources, Kernel}
use operating_systems.Proc.Sleep.{wakeup, woken, get_elem?-wakeup}
use operating_systems.Proc.Life.{reparent, finish_exit, exit, wait, freeproc, find_zombie, returned}
use operating_systems.Proc.Ids.{find_zombie-child}
use operating_systems.Proc.Ids.Leave.{exit_inverts}
use operating_systems.Proc.Orphans.{
  parents, given, get_elem?-parents, parents-wakeup, get_elem?-reparent,
}

parents-modify :
    (ps : List Proc) (i : ℕ) (f : Proc → Proc)
    → ((p : Proc) → (f p).parent ≡ p.parent)
    → parents (modify ps i f) ≡ parents ps
unfolding parents
parents-modify [] i f h = refl
parents-modify (x ∷ ps) zero f h = ap (λ y. y ∷ parents ps) (h x)
parents-modify (x ∷ ps) (suc i) f h = ap (λ l. x.parent ∷ l) (parents-modify ps i f h)

-- What `finish_exit` makes of the table.
abbrev pub dead : ℕ → Proc → Proc
dead status q = record q { xstate = status; state = zombie }

finish_exit_inverts :
    (me status : ℕ) (ps : List Proc) {ps' : List Proc}
    → finish_exit me status ps ≡ some ps'
    → (p : Proc) × (get_elem? ps me ≡ some p)
      × (ps' ≡ modify (wakeup me (chan_of p.parent) ps) me (dead status))
unfolding finish_exit
finish_exit_inverts me status ps {ps'} h = elim (Option-cases (get_elem? ps me)) [
  | inl gone ↦ absurd (ground (arith, h, gone))
  | inr (p, at) ↦ (p, at, ground (arith, h, at))
]

find_zombie-some :
    (me : ℕ) (ps : List Proc) (i : ℕ) (p : Proc)
    → get_elem? ps i ≡ some p
    → is_zombie p ≡ true
    → p.parent ≡ some me
    → (j : ℕ) × (find_zombie me ps ≡ some j)
unfolding find_zombie
find_zombie-some me [] i p h z c = absurd (ground arith)
find_zombie-some me (x ∷ ps) zero p h z c = (0, ground (arith, h, z, c))
find_zombie-some me (x ∷ ps) (suc i) p h z c =
    let (j, e) = find_zombie-some me ps i p h z c in
    elim (Bool-cases (same_proc x.parent (some me) && is_zombie x)) [
      | inl first ↦ (0, rw first refl)
      | inr later ↦ (suc j, rw (later, e) refl)
    ]

parents-set_same :
    (ps : List Proc) (i : ℕ) {p : Proc} (q : Proc)
    → get_elem? ps i ≡ some p
    → q.parent ≡ p.parent
    → parents (set ps i q) ≡ parents ps
unfolding parents
parents-set_same [] i q h e = refl
parents-set_same (x ∷ ps) zero q h e = ground (arith, h, e)
parents-set_same (x ∷ ps) (suc i) q h e = ap (λ l. x.parent ∷ l) (parents-set_same ps i q h e)

get_elem?-parents_at :
    (ps : List Proc) (i : ℕ) {p : Proc}
    → get_elem? ps i ≡ some p
    → get_elem? (parents ps) i ≡ some p.parent
get_elem?-parents_at ps i h = get_elem?-parents ps i ∙ ap (Option.map (λ q. q.parent)) h

woken_self : (me : ℕ) (c : Chan) (p : Proc) → woken me c me p ≡ p
unfolding woken
woken_self me c p = ground arith

woken-not_asleep :
    (me : ℕ) (c : Chan) (i : ℕ) (p : Proc)
    → (i == me) ≡ false
    → (is_sleeping (woken me c i p) && same_chan (woken me c i p).chan c) ≡ false
unfolding woken
woken-not_asleep me c i p h = ground arith

parent-not_asleep :
    (me q status : ℕ) (before : List Proc) (r : Proc)
    → (q == me) ≡ false
    → get_elem? (modify (wakeup me (slot q) before) me (dead status)) q ≡ some r
    → (is_sleeping r && same_chan r.chan (slot q)) ≡ false
parent-not_asleep me q status before r ne at = elim (Option-cases (get_elem? before q)) [
  | inl gone ↦ absurd (
      ground (
        arith,
        at,
        ne,
        gone,
        get_elem?-modify (wakeup me (slot q) before) me q (dead status),
        get_elem?-wakeup me (slot q) before q,
      ))
  | inr (s, there) ↦
      let same : r ≡ woken me (slot q) q s = ground (
        arith,
        at,
        ne,
        there,
        get_elem?-modify (wakeup me (slot q) before) me q (dead status),
        get_elem?-wakeup me (slot q) before q,
      ) in
      rw same (woken-not_asleep me (slot q) q s ne)
]

wait_reaps :
    (R : Resources) (forkret : ℕ) (k : Kernel R.Store) (q j : ℕ) (r z : Proc)
    → get_elem? k.procs q ≡ some r
    → find_zombie q k.procs ≡ some j
    → get_elem? k.procs j ≡ some z
    → wait R forkret q 0 k
      ≡ some (
        record k {
          procs = set k.procs j (freeproc R forkret z k.store).0;
          store = (freeproc R forkret z k.store).1;
        },
        returned z.pid,
      )
unfolding wait
wait_reaps R forkret k q j r z at found there = ground (arith, at, found, there)

module _ (R : Resources) (forkret : ℕ) (me status : ℕ) (k : Kernel R.Store) {k' : Kernel R.Store}
    (left : exit R forkret me status k ≡ some k') where
  -- After `exit`, every child of the exiting process has `initproc` as its parent; all other
  -- parents are as before.
  pub parents-exit :
      (j : ℕ)
      → get_elem? (parents k'.procs) j
        ≡ Option.map (given me k.initproc) (get_elem? (parents k.procs) j)
  parents-exit j =
      let (p, at, finished, _, _) = exit_inverts R forkret me status k left in
      let (q, there, same) = finish_exit_inverts me status _ finished in
      let closed = record p { ofile = map (λ _. none) p.ofile; cwd = none } in
      let moved = reparent me k.initproc (set k.procs me closed) in
      rw same (
        ap (λ l. get_elem? l j)
          (parents-modify (wakeup me (chan_of q.parent) moved) me (dead status) (λ _. refl)
            ∙ parents-wakeup me (chan_of q.parent) moved)
        ∙ get_elem?-reparent me k.initproc (set k.procs me closed) j
        ∙ ap (λ l. Option.map (given me k.initproc) (get_elem? l j))
            (parents-set_same k.procs me closed at refl))

  -- The exiting process is a ZOMBIE with its status and its parent, and the parent was woken.
  pub exit_zombie :
      (q : ℕ)
      → get_elem? (parents k.procs) me ≡ some (some q)
      → (q == me) ≡ false
      → (p : Proc) × (before : List Proc) × (get_elem? k'.procs me ≡ some p)
        × (is_zombie p ≡ true)
        × (p.xstate ≡ status)
        × (p.parent ≡ some q)
        × (k'.procs ≡ modify (wakeup me (slot q) before) me (dead status))
  exit_zombie q h ne =
      let (p, at, finished, _, _) = exit_inverts R forkret me status k left in
      let (p', there, same) = finish_exit_inverts me status _ finished in
      let closed = record p { ofile = map (λ _. none) p.ofile; cwd = none } in
      let moved = reparent me k.initproc (set k.procs me closed) in
      let child : p'.parent ≡ some q = ground (
        arith,
        ne,
        h,
        get_elem?-parents_at moved me there,
        get_elem?-reparent me k.initproc (set k.procs me closed) me,
        ap (λ l. get_elem? l me) (parents-set_same k.procs me closed at refl),
      ) in
      let table : k'.procs ≡ modify (wakeup me (slot q) moved) me (dead status) =
        same ∙ ap (λ c. modify (wakeup me (chan_of c) moved) me (dead status)) child in
      (
        dead status p',
        moved,
        ap (λ l. get_elem? l me) table
            ∙ get_elem?-modify (wakeup me (slot q) moved) me me (dead status)
            ∙ ground
                (arith, get_elem?-wakeup me (slot q) moved me, woken_self me (slot q) p', there),
        refl,
        refl,
        child,
        table,
      )

  -- After the exit of a process whose parent is another process `q`, `q` is not asleep in `wait`,
  -- and its next `wait` with no address returns the pid of a ZOMBIE child, whose slot it frees.
  pub wait-exit :
      (q : ℕ) (r : Proc)
      → get_elem? (parents k.procs) me ≡ some (some q)
      → (q == me) ≡ false
      → get_elem? k'.procs q ≡ some r
      → (is_sleeping r && same_chan r.chan (slot q) ≡ false)
        × ((i : ℕ) × (z : Proc) × (get_elem? k'.procs i ≡ some z)
            × (is_zombie z ≡ true)
            × (z.parent ≡ some q)
            × (wait R forkret q 0 k'
                ≡ some (
                  record k' {
                    procs = set k'.procs i (freeproc R forkret z k'.store).0;
                    store = (freeproc R forkret z k'.store).1;
                  },
                  returned z.pid,
                )))
  wait-exit q r h ne at =
      let (p, before, here, dies, _, child, table) = exit_zombie q h ne in
      let (j, found) = find_zombie-some q k'.procs me p here dies child in
      let (z, there, zombified, mine) = find_zombie-child q k'.procs j found in
      (
        parent-not_asleep me q status before r ne (sym (ap (λ l. get_elem? l q) table) ∙ at),
        (j, z, there, zombified, mine, wait_reaps R forkret k' q j r z at found there),
      )
