-- ===== src/Pipe/Buffer.antt =====
-- The bytes that a pipe holds, oldest first, as a window of its ring buffer.
use mathlib.Core.Path.{ap₂}
use operating_systems.Prelude.{
  ℕ, zero, suc, ◌+◌, ◌%◌, ◌≤◌, ◌<◌, ◌≡◌, ◌≢◌, refl, ap, ◌∙◌, add32, sub32, u32_mod, List, [], ◌∷◌,
  ◌++◌, length, set, get_or, length-set, get_or-set_self, get_or-set_ne, arith,
}
use operating_systems.Pipe.{Pipe, pipe_size, put, advance, front}

-- `n` bytes from counter `h` on.
abbrev pub window : List ℕ → ℕ → ℕ → List ℕ
window buf h zero = []
window buf h (suc n) = get_or buf (h % pipe_size) 0 ∷ window buf (add32 h 1) n

-- `nwrite - nread`, on `uint`.
abbrev pub held : Pipe → ℕ
held pi = sub32 pi.nwrite pi.nread

pub contents : Pipe → List ℕ
contents pi = window pi.buf pi.nread (held pi)

pub record IsValid (pi : Pipe) : Type 0 where
  pub storage : length pi.buf ≡ pipe_size
  pub reads : pi.nread < u32_mod
  pub writes : pi.nwrite < u32_mod
  pub fits : held pi ≤ pipe_size

pub length-window : (buf : List ℕ) (h n : ℕ) → length (window buf h n) ≡ n
length-window buf h zero = refl
length-window buf h (suc n) = ap suc (length-window buf (add32 h 1) n)

-- Writing the byte just behind a window extends it by that byte.
window-set_end :
    (buf : List ℕ) (h n x : ℕ)
    → length buf ≡ pipe_size
    → n < pipe_size
    → window (set buf ((h + n) % pipe_size) x) h (suc n) ≡ window buf h n ++ (x ∷ [])
window-set_end buf h zero x l f =
    let e : (h + zero) % pipe_size ≡ h % pipe_size = omega arith in
    ap₂ ◌∷◌
      (ap (λ j. get_or (set buf j x) (h % pipe_size) 0) e
        ∙ get_or-set_self buf (h % pipe_size) x 0 (omega arith))
      refl
window-set_end buf h (suc n) x l f =
    let e : (h + suc n) % pipe_size ≡ (add32 h 1 + n) % pipe_size = omega arith in
    ap₂ ◌∷◌ (get_or-set_ne buf ((h + suc n) % pipe_size) (h % pipe_size) x 0 (omega arith)) (
      ap (λ j. window (set buf j x) (add32 h 1) (suc n)) e
      ∙ window-set_end buf (add32 h 1) n x l (omega arith))

-- A byte that is put into a pipe with room comes last.
pub put_lem :
    (ch : ℕ) (pi : Pipe)
    → IsValid pi
    → held pi < pipe_size
    → IsValid (put ch pi) × (contents (put ch pi) ≡ contents pi ++ (ch ∷ []))
unfolding put contents
put_lem ch pi v room =
    let grows : held (put ch pi) ≡ suc (held pi) = omega arith in
    let index : pi.nwrite % pipe_size ≡ (pi.nread + held pi) % pipe_size = omega arith in
    (
      record {
        storage = length-set pi.buf (pi.nwrite % pipe_size) ch ∙ v.storage;
        reads = v.reads;
        writes = omega arith;
        fits = omega arith;
      },
      ap (window (set pi.buf (pi.nwrite % pipe_size) ch) pi.nread) grows
          ∙ ap (λ j. window (set pi.buf j ch) pi.nread (suc (held pi))) index
          ∙ window-set_end pi.buf pi.nread (held pi) ch v.storage room,
    )

-- A pipe that holds a byte has it in front, and `advance` takes it away.
pub advance_lem :
    (pi : Pipe)
    → IsValid pi
    → pi.nread ≢ pi.nwrite
    → IsValid (advance pi) × (contents pi ≡ front pi ∷ contents (advance pi))
unfolding advance front contents
advance_lem pi v some_held =
    let shrinks : held pi ≡ suc (held (advance pi)) = omega arith in
    (
      record { storage = v.storage; reads = omega arith; writes = v.writes; fits = omega arith },
      ap (window pi.buf pi.nread) shrinks,
    )

pub contents-empty : (pi : Pipe) → IsValid pi → pi.nread ≡ pi.nwrite → contents pi ≡ []
unfolding contents
contents-empty pi v e =
    let none_held : held pi ≡ 0 = omega arith in ap (window pi.buf pi.nread) none_held

pub length-contents : (pi : Pipe) → length (contents pi) ≡ held pi
unfolding contents
length-contents pi = length-window pi.buf pi.nread (held pi)
