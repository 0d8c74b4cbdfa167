-- ===== src/Workers/Places.antt =====
-- Where the threads stand, and what that says of the numbers.
use operating_systems.Prelude.{
  ℕ, zero, suc, ◌+◌, ◌-◌, ◌≤◌, ◌<◌, ◌≡◌, arith, some, List, [], ◌∷◌, map, set, get_elem?, replicate,
}
use operating_systems.Workers.{Pc, top, locking, asleep, finished, signal}

abbrev pub AllAre : (Pc → Type 0) → List Pc → Type 0
AllAre P [] = Unit
AllAre P (p ∷ ps) = P p × AllAre P ps

pub AllAre-set :
    (P : Pc → Type 0) (ps : List Pc) (i : ℕ) (p : Pc) → P p → AllAre P ps → AllAre P (set ps i p)
AllAre-set P [] i p h a = tt
AllAre-set P (q ∷ ps) zero p h a = (h, a.1)
AllAre-set P (q ∷ ps) (suc i) p h a = (a.0, AllAre-set P ps i p h a.1)

pub AllAre-map :
    (P Q : Pc → Type 0) (ps : List Pc) (f : Pc → Pc)
    → ((p : Pc) → P p → Q (f p))
    → AllAre P ps
    → AllAre Q (map f ps)
AllAre-map P Q [] f h a = tt
AllAre-map P Q (p ∷ ps) f h a = (h p a.0, AllAre-map P Q ps f h a.1)

pub AllAre-replicate : (P : Pc → Type 0) (n : ℕ) (p : Pc) → P p → AllAre P (replicate n p)
AllAre-replicate P zero p h = tt
AllAre-replicate P (suc n) p h = (h, AllAre-replicate P n p h)

pub AllAre-at :
    (P : Pc → Type 0) (ps : List Pc) (i : ℕ) (p : Pc) → get_elem? ps i ≡ some p → AllAre P ps → P p
AllAre-at P [] i p h a = absurd (ground arith)
AllAre-at P (q ∷ ps) zero p h a = let e : q ≡ p = ground arith in rw (← e) a.0
AllAre-at P (q ∷ ps) (suc i) p h a = AllAre-at P ps i p h a.1

-- What a master's place says of the numbers: it sleeps only before a full buffer with items to
-- produce, and ends only when all are produced.
abbrev pub Produces : ℕ → ℕ → ℕ → ℕ → Pc → Type 0
Produces total max made size top = Unit
Produces total max made size locking = Unit
Produces total max made size asleep = (max ≤ size) × (made < total)
Produces total max made size finished = made ≡ total

abbrev pub Consumes : ℕ → ℕ → ℕ → Pc → Type 0
Consumes total used size top = Unit
Consumes total used size locking = Unit
Consumes total used size asleep = (size ≡ 0) × (used < total)
Consumes total used size finished = used ≡ total

pub AllAre-mono :
    (P Q : Pc → Type 0) (ps : List Pc) → ((p : Pc) → P p → Q p) → AllAre P ps → AllAre Q ps
AllAre-mono P Q [] h a = tt
AllAre-mono P Q (p ∷ ps) h a = (h p a.0, AllAre-mono P Q ps h a.1)

module _ (total max : ℕ) where
  -- Another item in a buffer with room: no master sleeps or has ended.
  pub Produces-more :
      (made size : ℕ)
      → made < total
      → size < max
      → (p : Pc) → Produces total max made size p
      → Produces total max (made + 1) (size + 1) p
  Produces-more made size h k top a = tt
  Produces-more made size h k locking a = tt
  Produces-more made size h k asleep a = absurd (omega arith)
  Produces-more made size h k finished a = absurd (omega arith)

  -- A broadcast wakes the masters that sleep, so the buffer may shrink.
  pub Produces-signal :
      (made size size' : ℕ) (p : Pc)
      → Produces total max made size p
      → Produces total max made size' (signal p)
  unfolding signal
  Produces-signal made size size' top a = tt
  Produces-signal made size size' locking a = tt
  Produces-signal made size size' asleep a = tt
  Produces-signal made size size' finished a = a

module _ (total : ℕ) where
  pub Consumes-more :
      (used size : ℕ)
      → used < total
      → 0 < size
      → (p : Pc) → Consumes total used size p
      → Consumes total (used + 1) (size - 1) p
  Consumes-more used size h k top a = tt
  Consumes-more used size h k locking a = tt
  Consumes-more used size h k asleep a = absurd (omega arith)
  Consumes-more used size h k finished a = absurd (omega arith)

  pub Consumes-signal :
      (used size size' : ℕ) (p : Pc)
      → Consumes total used size p
      → Consumes total used size' (signal p)
  unfolding signal
  Consumes-signal used size size' top a = tt
  Consumes-signal used size size' locking a = tt
  Consumes-signal used size size' asleep a = tt
  Consumes-signal used size size' finished a = a
