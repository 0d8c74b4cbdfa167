-- ===== src/Pipe/Flow.antt =====
-- What goes into a pipe and what comes out of it, on every way that the calls can stop.
use mathlib.Core.List.{append_assoc, append-nil}
use operating_systems.Prelude.{
  ℕ, zero, suc, ◌+◌, ◌<◌, ◌≡◌, ap, sym, ◌∙◌, Bool, true, false, ◌&&◌, ◌||◌, not, Option, none, some,
  add32, u32_mod, ◌==◌, List, [], ◌∷◌, ◌++◌, length, arith, Bool-cases, Option-cases, inl, inr, ◌⊎◌,
  ◌↔◌,
}
use operating_systems.Pipe.{
  Pipe, Stop, returned, failed, asleep, pipe_size, put, write_from, pipewrite, pipeclose, rounds,
}
use operating_systems.Pipe.Buffer.{IsValid, contents, held, put_lem}

-- The bytes that `copyin` reads from index `i` on.
abbrev pub Sends : (ℕ → Option ℕ) → ℕ → List ℕ → Type 0
Sends src i [] = Unit
Sends src i (x ∷ xs) = (src i ≡ some x) × Sends src (suc i) xs

-- Why a write stops after `sent`, of the `m` bytes from index `i` on.
abbrev pub WriteStop : (ℕ → Option ℕ) → Bool → ℕ → ℕ → List ℕ → Pipe → Stop → Type 0
WriteStop src dead m i sent pi (returned n) = (n ≡ i + length sent) × ((n ≡ i + m) ⊎ (src n ≡ none))
WriteStop src dead m i sent pi (asleep n) =
    (n ≡ i + length sent) × (n < i + m) × (held pi ≡ pipe_size)
WriteStop src dead m i sent pi failed = (not pi.readopen || dead) ≡ true

abbrev pub Wrote : (ℕ → Option ℕ) → Bool → ℕ → ℕ → Pipe → Stop × Pipe → Type 0
Wrote src dead m i pi (s, pi') =
    (sent : List ℕ) × IsValid pi'
    × (contents pi' ≡ contents pi ++ sent)
    × Sends src i sent
    × WriteStop src dead m i sent pi' s

-- The test of `pipewrite` for a full pipe is exact.
full_iff :
    (pi : Pipe) → IsValid pi → (pi.nwrite == add32 pi.nread pipe_size) ≡ (held pi == pipe_size)
full_iff pi v = ground arith

WriteStop-cons :
    (src : ℕ → Option ℕ) (dead : Bool) (m i ch : ℕ) (sent : List ℕ) (pi : Pipe) (s : Stop)
    → WriteStop src dead m (suc i) sent pi s
    → WriteStop src dead (suc m) i (ch ∷ sent) pi s
WriteStop-cons src dead m i ch sent pi (returned n) (a, inl b) = (omega arith, inl (omega arith))
WriteStop-cons src dead m i ch sent pi (returned n) (a, inr b) = (omega arith, inr b)
WriteStop-cons src dead m i ch sent pi (asleep n) (a, b, c) = (omega arith, omega arith, c)
WriteStop-cons src dead m i ch sent pi failed h = h

write_from-Wrote :
    (src : ℕ → Option ℕ) (dead : Bool) (m i : ℕ) (pi : Pipe)
    → IsValid pi
    → Wrote src dead m i pi (write_from src dead m i pi)
unfolding write_from
write_from-Wrote src dead zero i pi v =
    ([], v, sym (append-nil (contents pi)), tt, (omega arith, inl (omega arith)))
write_from-Wrote src dead (suc m) i pi v = elim (Bool-cases (not pi.readopen || dead)) [
  | inl stop ↦ rw (stop, write_from) ([], v, sym (append-nil (contents pi)), tt, stop)
  | inr go ↦ elim (Bool-cases (pi.nwrite == add32 pi.nread pipe_size)) [
    | inl full ↦
        let is_full : held pi ≡ pipe_size = ground (arith, full, full_iff pi v) in
        rw (go, full, write_from)
          ([], v, sym (append-nil (contents pi)), tt, (omega arith, omega arith, is_full))
    | inr room ↦ elim (Option-cases (src i)) [
      | inl gone ↦
          rw (go, room, gone, write_from)
            ([], v, sym (append-nil (contents pi)), tt, (omega arith, inr gone))
      | inr (ch, e) ↦
          let (v', c) = put_lem ch pi v (ground (arith, room, full_iff pi v, v.fits)) in
          let (sent, valid, goes, sends, why) =
            write_from-Wrote src dead m (suc i) (put ch pi) v' in
          rw (go, room, e, write_from)
            (
              ch ∷ sent,
              valid,
              goes ∙ ap (λ l. l ++ sent) c ∙ append_assoc (contents pi) (ch ∷ []) sent,
              (e, sends),
              WriteStop-cons src dead m i ch sent (write_from src dead m (suc i) (put ch pi)).1
                  (write_from src dead m (suc i) (put ch pi)).0 why,
            )
    ]
  ]
]

-- A write of an `int n` into a valid pipe appends to its contents the first of the caller's bytes, in
-- order, and keeps the pipe valid. It returns the number of bytes appended, and then has appended all
-- `n` or met a byte that `copyin` cannot read; or it sleeps with fewer than `n` appended and the pipe
-- full; or it fails, with the read end closed or the caller killed. A negative `n` counts as 0.
pub pipewrite-Wrote :
    (src : ℕ → Option ℕ) (dead : Bool) (n : ℕ) (pi : Pipe)
    → IsValid pi
    → n < u32_mod
    → Wrote src dead (rounds n) 0 pi (pipewrite src dead n pi)
unfolding pipewrite
pipewrite-Wrote src dead n pi v int = write_from-Wrote src dead (rounds n) 0 pi v

-- Why the copying loop of `piperead` stops after `out`, with `lost` gone from the pipe as well.
abbrev pub ReadStop : (ℕ → Bool) → ℕ → ℕ → ℕ → List ℕ → Pipe → Type 0
ReadStop dst m i n lost pi =
    ((lost ≡ []) × ((n ≡ i + m) ⊎ (contents pi ≡ []))) ⊎ ((length lost ≡ 1) × (dst n ≡ false))

abbrev pub Read : (ℕ → Bool) → ℕ → ℕ → Pipe → ℕ × List ℕ × Pipe → Type 0
Read dst m i pi (n, out, pi') =
    (lost : List ℕ) × IsValid pi'
    × (contents pi ≡ out ++ lost ++ contents pi')
    × (n ≡ i + length out)
    × ReadStop dst m i n lost pi'

-- How a call of `piperead` for `m` bytes ends.
abbrev pub Outcome : (ℕ → Bool) → Bool → ℕ → Pipe → Stop × List ℕ × Pipe → Type 0
Outcome dst dead m pi (returned n, out, pi') = Read dst m 0 pi (n, out, pi')
Outcome dst dead m pi (asleep n, out, pi') =
    (n ≡ 0) × (out ≡ []) × (pi' ≡ pi) × (contents pi ≡ []) × (pi.writeopen ≡ true) × (dead ≡ false)
Outcome dst dead m pi (failed, out, pi') =
    (out ≡ []) × (pi' ≡ pi) × (contents pi ≡ []) × (pi.writeopen ≡ true) × (dead ≡ true)

-- `pipeclose` closes the end that it is told to, leaves the other, and frees the pipe exactly when
-- both are closed.
pub pipeclose_frees :
    (w : Bool) (pi : Pipe)
    → ((pipeclose w pi).0.writeopen ≡ (not w && pi.writeopen))
      × ((pipeclose w pi).0.readopen ≡ (w && pi.readopen))
      × (((pipeclose w pi).1 ≡ true)
          ↔ ((pipeclose w pi).0.readopen ≡ false) × ((pipeclose w pi).0.writeopen ≡ false))
unfolding pipeclose
pipeclose_frees w pi = ground arith
