-- ===== src/Syscall/Trace.antt =====
-- What a process that makes one system call after the other has traced.
use operating_systems.Prelude.{
  ℕ, zero, suc, ◌%◌, ◌<◌, ◌≡◌, refl, ap, ◌∙◌, arith, true, false, ◌&&◌, Option, none, some, ◌==◌,
  ltb, slt32, u32_mod, if◌then◌else◌, List, [], ◌∷◌, ◌++◌, length, Bool-cases, inl, inr,
}
use operating_systems.Syscall.{
  Caller, Line, unknown, traced, untitled, sysinfo, Called, Ended, returns, gone, wild, Calls,
  sys_trace_number, sys_sysinfo_number, nelem, sys_sysinfo, called, syscalls, stored, call_entry,
  trace_line, trace_entry, trace_call, syscall,
}

-- The numbers of the traced calls among the lines, with and without a title.
unfoldable pub traced_numbers : List Line → List ℕ
traced_numbers [] = []
traced_numbers (unknown pid num ∷ lines) = traced_numbers lines
traced_numbers (traced pid num v ∷ lines) = num ∷ traced_numbers lines
traced_numbers (untitled pid num v ∷ lines) = num ∷ traced_numbers lines
traced_numbers (sysinfo bytes n ∷ lines) = traced_numbers lines

-- The occurrences of a number among the first `count` of the list.
unfoldable pub occurrences : ℕ → ℕ → List ℕ → List ℕ
occurrences t zero ns = []
occurrences t (suc count) [] = []
occurrences t (suc count) (n ∷ ns) =
    let rest = occurrences t count ns in if t == n then n ∷ rest else rest

-- How a run of calls ends.
pub data Ending : Type 0 where
  all_returned one_gone undefined_read : Ending

-- How a run ends, how many of its calls have returned, and what was printed for tracing and else.
pub record Run : Type 0 where
  pub ending : Ending
  pub returned : ℕ
  pub lines : List Line

-- All of `n` calls have returned, or the one behind those that have does not return.
abbrev pub Stops : Ending → ℕ → ℕ → Type 0
Stops all_returned m n = m ≡ n
Stops one_gone m n = m < n
Stops undefined_read m n = ⊥

module _ {K : Type 0} (calls : Calls K) where
  -- The process calls one number after the other, each with its arguments.
  unfoldable pub run : List ((ℕ → ℕ) × ℕ) → Caller → K → Run
  run [] p k = record { ending = all_returned; returned = 0; lines = [] }
  run ((args, num) ∷ rest) p k = elim (syscall calls (record p { args = args; a7 = num }) k) [
    | returns c ↦
        let r = run rest c.caller c.kernel in
        record { ending = r.ending; returned = suc r.returned; lines = c.lines ++ r.lines }
    | gone ↦ record { ending = one_gone; returned = 0; lines = [] }
    | wild ↦ record { ending = undefined_read; returned = 0; lines = [] }
  ]

  unfoldable pub numbers : List ((ℕ → ℕ) × ℕ) → List ℕ
  numbers [] = []
  numbers ((args, num) ∷ rest) = num % u32_mod ∷ numbers rest

  -- None of the calls is `SYS_trace`.
  unfoldable pub NoTrace : List ((ℕ → ℕ) × ℕ) → Type 0
  NoTrace [] = Unit
  NoTrace ((args, num) ∷ rest) = ((num % u32_mod == sys_trace_number) ≡ false) × NoTrace rest

  traced_numbers-append :
      (a b : List Line) → traced_numbers (a ++ b) ≡ traced_numbers a ++ traced_numbers b
  unfolding traced_numbers
  traced_numbers-append [] b = refl
  traced_numbers-append (unknown pid num ∷ a) b = traced_numbers-append a b
  traced_numbers-append (traced pid num v ∷ a) b = ap (λ l. num ∷ l) (traced_numbers-append a b)
  traced_numbers-append (untitled pid num v ∷ a) b = ap (λ l. num ∷ l) (traced_numbers-append a b)
  traced_numbers-append (sysinfo bytes n ∷ a) b = traced_numbers-append a b

  -- A call that returned keeps the tracer `t` and has traced nothing yet.
  Keeps : ℕ → Option (Called K) → Type 0
  Keeps t none = Unit
  Keeps t (some c) = (c.caller.tracer ≡ t) × (traced_numbers c.lines ≡ [])

  -- A call of the number `num` that returned keeps the tracer `t` and has traced itself exactly if
  -- that is its number.
  Traces : ℕ → ℕ → Ended K → Type 0
  Traces t num (returns c) =
      (c.caller.tracer ≡ t) × (traced_numbers c.lines ≡ (if t == num then num ∷ [] else []))
  Traces t num gone = Unit
  Traces t num wild = ⊥

  -- A call that returns leaves the tracer as it is.
  abbrev pub KeepsTracer : ℕ → Option (ℕ × Caller × K) → Type 0
  KeepsTracer t none = Unit
  KeepsTracer t (some (v, q, k1)) = q.tracer ≡ t

  called-Keeps : (t : ℕ) (r : Option (ℕ × Caller × K)) → KeepsTracer t r → Keeps t (called calls r)
  unfolding Keeps traced_numbers
  called-Keeps t none h = tt
  called-Keeps t (some (v, q, k1)) h = (h, refl)

  stored-Keeps : (t : ℕ) (r : Option (Called K)) → Keeps t r → Keeps t (stored calls r)
  unfolding Keeps
  stored-Keeps t none h = tt
  stored-Keeps t (some c) h = h

  trace_entry-Traces :
      (t num : ℕ) (c : Called K)
      → t < nelem
      → c.caller.tracer ≡ t
      → traced_numbers c.lines ≡ []
      → Traces t num (trace_entry calls c (trace_line calls num c.caller))
  unfolding Traces traced_numbers
  trace_entry-Traces t num c small same nothing = elim (Bool-cases (t == num)) [
    | inr other ↦
        let test : (c.caller.tracer == num) ≡ false = ground (arith, same, other) in
        rw test (same, traced_numbers-append c.lines [] ∙ rw (nothing, other) refl)
    | inl here ↦
        let inside : ltb num nelem ≡ true = ground (arith, here, small) in
        let test : (c.caller.tracer == num) ≡ true = ground (arith, same, here) in
        rw test (elim (Bool-cases (num == 0)) [
          | inl z ↦ rw z (
            same,
            traced_numbers-append c.lines
                  (untitled c.caller.pid num (c.caller.args 0 % u32_mod) ∷ [])
                ∙ rw (nothing, here) refl,
          )
          | inr z ↦
              rw (z, inside)
                (
                  same,
                  traced_numbers-append c.lines
                        (traced c.caller.pid num (c.caller.args 0 % u32_mod) ∷ [])
                      ∙ rw (nothing, here) refl,
                )
        ])
  ]

  trace_call-Traces :
      (t num : ℕ) (r : Option (Called K))
      → t < nelem
      → Keeps t r
      → Traces t num (trace_call calls num r)
  unfolding Keeps Traces
  trace_call-Traces t num none small h = tt
  trace_call-Traces t num (some c) small (same, nothing) =
      trace_entry-Traces t num c small same nothing

  -- What a call makes of the rest of a run.
  Run-step :
      (t num n : ℕ) (ns : List ℕ) (e : Ended K) (rest : Called K → Run)
      → Traces t num e
      → ((c : Called K)
          → c.caller.tracer ≡ t
          → Stops (rest c).ending (rest c).returned n
            × (traced_numbers (rest c).lines ≡ occurrences t (rest c).returned ns))
      → let r : Run = elim e [
        | returns c ↦ record {
          ending = (rest c).ending;
          returned = suc (rest c).returned;
          lines = c.lines ++ (rest c).lines;
        }
        | gone ↦ record { ending = one_gone; returned = 0; lines = [] }
        | wild ↦ record { ending = undefined_read; returned = 0; lines = [] }
      ] in
        Stops r.ending r.returned (suc n)
        × (traced_numbers r.lines ≡ occurrences t r.returned (num ∷ ns))
  unfolding Traces traced_numbers occurrences
  Run-step t num n ns (returns c) rest (same, here) k =
      let (stops, lines) = k c same in
      (
        next_Stops (rest c).returned (rest c).ending stops,
        traced_numbers-append c.lines (rest c).lines
            ∙ rw (here, lines)
                (elim (Bool-cases (t == num)) [ inl e ↦ rw e refl | inr e ↦ rw e refl ]),
      )
    where
      next_Stops : (m : ℕ) (e : Ending) → Stops e m n → Stops e (suc m) (suc n)
      next_Stops m all_returned h = ap suc h
      next_Stops m one_gone h = omega arith
      next_Stops m undefined_read h = h
  Run-step t num n ns gone rest h k = (omega arith, refl)
  Run-step t num n ns wild rest h k = absurd h

  module _
      (keeps : (num : ℕ) (p : Caller) (k : K) → KeepsTracer p.tracer (calls.other num p k)) where
    syscalls-Keeps :
        (num : ℕ) (p : Caller) (k : K)
        → (num == sys_trace_number) ≡ false
        → Keeps p.tracer (syscalls calls num p k)
    unfolding syscalls sys_sysinfo traced_numbers Keeps
    syscalls-Keeps num p k no_trace = elim (Bool-cases (num == sys_sysinfo_number)) [
      | inl e ↦ rw (no_trace, e) (refl, refl)
      | inr e ↦ rw (no_trace, e) (called-Keeps p.tracer (calls.other num p k) (keeps num p k))
    ]

    call_entry-Keeps :
        (num : ℕ) (p : Caller) (k : K)
        → (num == sys_trace_number) ≡ false
        → Keeps p.tracer (call_entry calls num p k)
    unfolding call_entry traced_numbers Keeps
    call_entry-Keeps num p k no_trace = elim (Bool-cases (slt32 0 num && ltb num nelem)) [
      | inl e ↦
          rw e (stored-Keeps p.tracer (syscalls calls num p k) (syscalls-Keeps num p k no_trace))
      | inr e ↦ rw e (refl, refl)
    ]

    -- While no call that returns changes the tracer but `SYS_trace`, and a process that traces a number
    -- below `NELEM(syscalls)` does not call that one, a run of its calls ends when all have returned or
    -- at one that does not return, and never reads `syscalltitles` past its end. The lines that are
    -- printed for tracing are one for each call that has returned with the number that it traces, in
    -- their order, and no others; number 0, which is no call, is one of those numbers.
    pub run-occurrences :
        (requests : List ((ℕ → ℕ) × ℕ)) (p : Caller) (k : K)
        → p.tracer < nelem
        → NoTrace requests
        → Stops (run requests p k).ending (run requests p k).returned (length requests)
          × (traced_numbers (run requests p k).lines
              ≡ occurrences p.tracer (run requests p k).returned (numbers requests))
    unfolding run numbers NoTrace occurrences traced_numbers syscall
    run-occurrences [] p k small h = (refl, refl)
    run-occurrences ((args, num) ∷ rest) p k small h =
        let q : Caller = record p { args = args; a7 = num } in
        let n = num % u32_mod in
        Run-step p.tracer n (length rest) (numbers rest) (syscall calls q k)
          (λ c. run rest c.caller c.kernel)
          (trace_call-Traces p.tracer n (call_entry calls n q k) small (call_entry-Keeps n q k h.0))
          (λ c same.
            let small_c : c.caller.tracer < nelem = omega (arith, same) in
            let (stops, lines) = run-occurrences rest c.caller c.kernel small_c h.1 in
            (
              stops,
              lines
                  ∙ ap (λ t. occurrences t (run rest c.caller c.kernel).returned (numbers rest))
                      same,
            ))
