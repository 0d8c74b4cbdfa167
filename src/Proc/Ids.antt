-- ===== src/Proc/Ids.antt =====
-- The pids of the process table: which slots have one, and that no two live processes share one.
pub mod Enter
pub mod Leave
use mathlib.Core.Path.{ap₂}
use operating_systems.Prelude.{
  ℕ, zero, suc, ◌+◌, ◌≤◌, ◌<◌, ◌≡◌, ◌≢◌, refl, ap, sym, ◌∙◌, arith, List, [], ◌∷◌, Option, none,
  some, Bool, true, false, ◌&&◌, ◌||◌, not, ◌==◌, if◌then◌else◌, minus_one, set, get_elem?, length,
  modify, modify-eq-set, get_elem?-set, Bool-cases, Option-cases, inl, inr,
}
use operating_systems.Proc.{Proc, Chan, chan_of, same_proc, is_unused, is_zombie}
use operating_systems.Proc.Sleep.{wakeup, wakeup_from, woken, sleep, yield, kill, setkilled}
use operating_systems.Proc.Life.{
  hand_over, reparent_from, reparent, finish_exit, find_unused, find_zombie,
}

-- What the invariant reads of a slot: its pid, and whether it is UNUSED.
abbrev pub id_of : Proc → ℕ × Bool
id_of p = (p.pid, is_unused p)

unfoldable pub ids : List Proc → List (ℕ × Bool)
ids [] = []
ids (p ∷ ps) = id_of p ∷ ids ps

-- UNUSED slots have pid 0, the others a pid below `next` that no other slot has.
pub record IsNumbered (next : ℕ) (xs : List (ℕ × Bool)) : Type 0 where
  pub below : (i n : ℕ) (u : Bool) → get_elem? xs i ≡ some (n, u) → n < next
  pub free : (i n : ℕ) → get_elem? xs i ≡ some (n, true) → n ≡ 0
  pub live : (i n : ℕ) → get_elem? xs i ≡ some (n, false) → n ≢ 0
  pub distinct :
      (i j n : ℕ) (u v : Bool)
      → get_elem? xs i ≡ some (n, u)
      → get_elem? xs j ≡ some (n, v)
      → n ≢ 0
      → i ≡ j

module _ (next : ℕ) (xs : List (ℕ × Bool)) (i : ℕ) {x : ℕ × Bool}
    (at : get_elem? xs i ≡ some x) where
  pub IsNumbered-claim :
      IsNumbered next xs → 0 < next → IsNumbered (next + 1) (set xs i (next, false))
  IsNumbered-claim v pos = record {
    below = λ j n u h. ground (arith, get_elem?-set xs i j (next, false) at, v.below j n u);
    free = λ j n h. ground (arith, get_elem?-set xs i j (next, false) at, v.free j n);
    live = λ j n h. ground (arith, get_elem?-set xs i j (next, false) at, v.live j n);
    distinct = λ j k n u w h l ne. ground (
      arith,
      get_elem?-set xs i j (next, false) at,
      get_elem?-set xs i k (next, false) at,
      v.distinct j k n u w,
      v.below j n u,
      v.below k n w,
    );
  }

  pub IsNumbered-release : IsNumbered next xs → 0 < next → IsNumbered next (set xs i (0, true))
  IsNumbered-release v pos = record {
    below = λ j n u h. ground (arith, get_elem?-set xs i j (0, true) at, v.below j n u);
    free = λ j n h. ground (arith, get_elem?-set xs i j (0, true) at, v.free j n);
    live = λ j n h. ground (arith, get_elem?-set xs i j (0, true) at, v.live j n);
    distinct = λ j k n u w h l ne. ground (
      arith,
      get_elem?-set xs i j (0, true) at,
      get_elem?-set xs i k (0, true) at,
      v.distinct j k n u w,
    );
  }

pub IsNumbered-mono :
    (next : ℕ) (xs : List (ℕ × Bool)) → IsNumbered next xs → IsNumbered (next + 1) xs
IsNumbered-mono next xs v = record {
  below = λ i n u h. omega (arith, v.below i n u h);
  free = v.free;
  live = v.live;
  distinct = v.distinct;
}

pub ids-set : (ps : List Proc) (i : ℕ) (p : Proc) → ids (set ps i p) ≡ set (ids ps) i (id_of p)
unfolding ids
ids-set [] i p = refl
ids-set (x ∷ ps) zero p = refl
ids-set (x ∷ ps) (suc i) p = ap (λ l. id_of x ∷ l) (ids-set ps i p)

pub get_elem?-ids :
    (ps : List Proc) (i : ℕ) {p : Proc}
    → get_elem? ps i ≡ some p
    → get_elem? (ids ps) i ≡ some (id_of p)
unfolding ids
get_elem?-ids [] i h = absurd (ground arith)
get_elem?-ids (x ∷ ps) zero h = ground arith
get_elem?-ids (x ∷ ps) (suc i) h = get_elem?-ids ps i h

set_self : {xs : List (ℕ × Bool)} (i : ℕ) {x : ℕ × Bool} → get_elem? xs i ≡ some x → set xs i x ≡ xs
set_self {xs = []} i h = refl
set_self {xs = y ∷ xs} zero h = ground arith
set_self {xs = y ∷ xs} (suc i) h = ap (λ l. y ∷ l) (set_self i h)

-- A change that keeps a slot's pid and leaves it used keeps the ids.
pub ids-set_same :
    (ps : List Proc) (i : ℕ) {p : Proc} (q : Proc)
    → get_elem? ps i ≡ some p
    → id_of q ≡ id_of p
    → ids (set ps i q) ≡ ids ps
ids-set_same ps i q h e = ids-set ps i q ∙ ap (set (ids ps) i) e ∙ set_self i (get_elem?-ids ps i h)

pub ids-modify :
    (ps : List Proc) (i : ℕ) (f : Proc → Proc)
    → ((p : Proc) → get_elem? ps i ≡ some p → id_of (f p) ≡ id_of p)
    → ids (modify ps i f) ≡ ids ps
unfolding ids
ids-modify [] i f h = refl
ids-modify (x ∷ ps) zero f h = ap (λ y. y ∷ ids ps) (h x refl)
ids-modify (x ∷ ps) (suc i) f h = ap (λ l. id_of x ∷ l) (ids-modify ps i f h)

id_of-woken : (me : ℕ) (c : Chan) (i : ℕ) (p : Proc) → id_of (woken me c i p) ≡ id_of p
unfolding woken
id_of-woken me c i p = ground arith

ids-wakeup_from :
    (me : ℕ) (c : Chan) (i : ℕ) (ps : List Proc) → ids (wakeup_from me c i ps) ≡ ids ps
unfolding ids wakeup_from
ids-wakeup_from me c i [] = refl
ids-wakeup_from me c i (p ∷ ps) = ap₂ ◌∷◌ (id_of-woken me c i p) (ids-wakeup_from me c (suc i) ps)

pub ids-wakeup : (me : ℕ) (c : Chan) (ps : List Proc) → ids (wakeup me c ps) ≡ ids ps
unfolding wakeup
ids-wakeup me c ps = ids-wakeup_from me c 0 ps

pub ids-hand_over :
    (me : ℕ) (init : Option ℕ) (i : ℕ) (ps : List Proc) → ids (hand_over me init i ps) ≡ ids ps
unfolding hand_over
ids-hand_over me init i ps = elim (Option-cases (get_elem? ps i)) [
  | inl e ↦ rw (e, hand_over) refl
  | inr (p, e) ↦
      let given = record p { parent = init } in
      let woken_up = ids-wakeup me (chan_of init) (set ps i given) in
      let moved = ids-set_same ps i {p = p} given e refl in ground (arith, e, woken_up, moved)
]

ids-reparent_from :
    (me : ℕ) (init : Option ℕ) (n i : ℕ) (ps : List Proc)
    → ids (reparent_from me init n i ps) ≡ ids ps
unfolding reparent_from
ids-reparent_from me init zero i ps = refl
ids-reparent_from me init (suc n) i ps =
    ids-reparent_from me init n (suc i) (hand_over me init i ps) ∙ ids-hand_over me init i ps

pub ids-reparent : (me : ℕ) (init : Option ℕ) (ps : List Proc) → ids (reparent me init ps) ≡ ids ps
unfolding reparent
ids-reparent me init ps = ids-reparent_from me init (length ps) 0 ps

pub ids-kill : (pid : ℕ) (ps : List Proc) → ids (kill pid ps).0 ≡ ids ps
unfolding ids kill
ids-kill pid [] = refl
ids-kill pid (p ∷ ps) = ground (arith, ids-kill pid ps)

-- The slot that `find_unused` returns is UNUSED.
pub find_unused-free :
    (ps : List Proc) (i : ℕ)
    → find_unused ps ≡ some i
    → (p : Proc) × (get_elem? ps i ≡ some p) × (is_unused p ≡ true)
unfolding find_unused
find_unused-free [] i h = absurd (ground arith)
find_unused-free (p ∷ ps) i h = elim (Bool-cases (is_unused p)) [
  | inl u ↦ (p, ground (arith, h, u), u)
  | inr u ↦ elim (Option-cases (find_unused ps)) [
    | inl e ↦ absurd (ground (arith, h, u, e))
    | inr (j, e) ↦
        let (q, at, free) = find_unused-free ps j e in
        let k : i ≡ suc j = ground (arith, h, u, e) in (q, rw k at, free)
  ]
]

pub find_zombie-child :
    (me : ℕ) (ps : List Proc) (i : ℕ)
    → find_zombie me ps ≡ some i
    → (p : Proc) × (get_elem? ps i ≡ some p) × (is_zombie p ≡ true) × (p.parent ≡ some me)
unfolding find_zombie
find_zombie-child me [] i h = absurd (ground arith)
find_zombie-child me (p ∷ ps) i h =
    elim (Bool-cases (same_proc p.parent (some me) && is_zombie p)) [
      | inl u ↦ (p, ground (arith, h, u), ground (arith, u), ground (arith, u))
      | inr u ↦ elim (Option-cases (find_zombie me ps)) [
        | inl e ↦ absurd (ground (arith, h, u, e))
        | inr (j, e) ↦
            let (q, at, z, c) = find_zombie-child me ps j e in
            let k : i ≡ suc j = ground (arith, h, u, e) in (q, rw k at, z, c)
      ]
    ]
