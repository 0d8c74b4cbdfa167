-- ===== src/Proc/Orphans.antt =====
-- `reparent`, `exit` and `wait` together: who is whose child, and that no exit is missed.
pub mod Exit
use mathlib.Core.Option
use mathlib.Core.Path.{ap₂}
use operating_systems.Prelude.{
  ℕ, zero, suc, ◌+◌, ◌≤◌, ◌<◌, ◌≡◌, ◌≢◌, refl, ap, sym, ◌∙◌, arith, List, [], ◌∷◌, Option, none,
  some, Bool, true, false, ◌&&◌, ◌||◌, not, ◌==◌, ltb, leb, if◌then◌else◌, minus_one, set,
  get_elem?, length, length-set, modify, modify-eq-set, modify-none, modify-fixed, get_elem?-none,
  get_elem?-modify, get_elem?-set, Option-cases, Bool-cases, inl, inr,
}
use operating_systems.Proc.{Proc, Chan, chan_of, same_proc}
use operating_systems.Proc.Sleep.{wakeup, wakeup_from, woken}
use operating_systems.Proc.Life.{hand_over, reparent_from, reparent}

unfoldable pub parents : List Proc → List (Option ℕ)
parents [] = []
parents (p ∷ ps) = p.parent ∷ parents ps

pub get_elem?-parents :
    (ps : List Proc) (i : ℕ)
    → get_elem? (parents ps) i ≡ Option.map (λ p. p.parent) (get_elem? ps i)
unfolding parents
get_elem?-parents [] i = refl
get_elem?-parents (p ∷ ps) zero = refl
get_elem?-parents (p ∷ ps) (suc i) = get_elem?-parents ps i

pub parents-set :
    (ps : List Proc) (i : ℕ) (p : Proc) → parents (set ps i p) ≡ set (parents ps) i p.parent
unfolding parents
parents-set [] i p = refl
parents-set (x ∷ ps) zero p = refl
parents-set (x ∷ ps) (suc i) p = ap (λ l. x.parent ∷ l) (parents-set ps i p)

length-parents : (ps : List Proc) → length (parents ps) ≡ length ps
unfolding parents
length-parents [] = refl
length-parents (p ∷ ps) = ap suc (length-parents ps)

parent-woken : (me : ℕ) (c : Chan) (i : ℕ) (p : Proc) → (woken me c i p).parent ≡ p.parent
unfolding woken
parent-woken me c i p = ground arith

parents-wakeup_from :
    (me : ℕ) (c : Chan) (i : ℕ) (ps : List Proc) → parents (wakeup_from me c i ps) ≡ parents ps
unfolding parents wakeup_from
parents-wakeup_from me c i [] = refl
parents-wakeup_from me c i (p ∷ ps) =
    ap₂ ◌∷◌ (parent-woken me c i p) (parents-wakeup_from me c (suc i) ps)

pub parents-wakeup : (me : ℕ) (c : Chan) (ps : List Proc) → parents (wakeup me c ps) ≡ parents ps
unfolding wakeup
parents-wakeup me c ps = parents-wakeup_from me c 0 ps

-- The parent that `reparent` leaves to a process whose parent is `q`.
abbrev pub given : ℕ → Option ℕ → Option ℕ → Option ℕ
given me init q = if same_proc q (some me) then init else q

parents-hand_over :
    (me : ℕ) (init : Option ℕ) (i : ℕ) (ps : List Proc)
    → parents (hand_over me init i ps) ≡ modify (parents ps) i (given me init)
unfolding hand_over
parents-hand_over me init i ps = elim (Option-cases (get_elem? ps i)) [
  | inl gone ↦
      rw (gone, hand_over)
        (sym (
          modify-none (parents ps) i (given me init)
            (get_elem?-parents ps i ∙ ap (Option.map (λ q. q.parent)) gone)))
  | inr (p, at) ↦
      let there : get_elem? (parents ps) i ≡ some p.parent =
        get_elem?-parents ps i ∙ ap (Option.map (λ q. q.parent)) at in
      elim (Bool-cases (same_proc p.parent (some me))) [
        | inl mine ↦
            rw (at, mine, hand_over)
              (parents-wakeup me (chan_of init) _
                ∙ parents-set ps i _
                ∙ sym (modify-eq-set (parents ps) i (given me init) there ∙ rw mine refl))
        | inr other ↦
            rw (at, other, hand_over)
              (sym (modify-fixed (parents ps) i (given me init) there (rw other refl)))
      ]
]

get_elem?-reparent_from :
    (me : ℕ) (init : Option ℕ) (n i : ℕ) (ps : List Proc) (j : ℕ)
    → get_elem? (parents (reparent_from me init n i ps)) j ≡ (
        if leb i j && ltb j (i + n)
        then Option.map (given me init) (get_elem? (parents ps) j)
        else get_elem? (parents ps) j)
unfolding reparent_from
get_elem?-reparent_from me init zero i ps j = ground arith
get_elem?-reparent_from me init (suc n) i ps j =
    get_elem?-reparent_from me init n (suc i) (hand_over me init i ps) j
    ∙ rw (parents-hand_over me init i ps, get_elem?-modify (parents ps) i j (given me init))
        (ground arith)

-- `reparent` gives every child of `me` to init, and leaves the other parents alone.
pub get_elem?-reparent :
    (me : ℕ) (init : Option ℕ) (ps : List Proc) (j : ℕ)
    → get_elem? (parents (reparent me init ps)) j
      ≡ Option.map (given me init) (get_elem? (parents ps) j)
unfolding reparent
get_elem?-reparent me init ps j = ground (
  arith,
  get_elem?-reparent_from me init (length ps) 0 ps j,
  get_elem?-none (parents ps) j,
  length-parents ps,
)
