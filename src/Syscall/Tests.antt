-- ===== src/Syscall/Tests.antt =====
-- A process that traces `SYS_read`, and one that traces nothing.
use operating_systems.Prelude.{
  ℕ, ◌-◌, ◌^◌, ◌≡◌, ◌==◌, refl, arith, Bool, true, false, none, some, if◌then◌else◌, List, [], ◌∷◌,
  length, Bool-cases, inl, inr,
}
use operating_systems.Syscall.{
  Caller, untitled, unknown, wild, returns, Calls, syscall, call_entry, syscalls, set_a0,
}
use operating_systems.Syscall.Trace.{
  traced_numbers, occurrences, run, numbers, NoTrace, Stops, one_gone, KeepsTracer, run-occurrences,
}

-- `exit` does not return, and every other call returns 7.
abbrev seven : Calls Bool
seven = record {
  other = λ num p k. if num == 2 then none else some (7, p, k);
  free_bytes = λ k. 4096;
  unused = λ k. false ∷ true ∷ [];
}

seven-KeepsTracer :
    (num : ℕ) (p : Caller) (k : Bool) → KeepsTracer seven p.tracer (seven.other num p k)
seven-KeepsTracer num p k = elim (Bool-cases (num == 2)) [ inl e ↦ rw e tt | inr e ↦ rw e refl ]

abbrev reader : Caller
reader = record { pid = 3; tracer = 5; args = λ n. 0; a7 = 0 }

abbrev untraced : Caller
untraced = record { pid = 3; tracer = 0; args = λ n. 0; a7 = 0 }

-- It traces a number that is no call, and calls it.
abbrev outside : Caller
outside = record { pid = 3; tracer = 99; args = λ n. 0; a7 = 99 }

-- It reads, writes, makes an unknown call, reads, exits, and does not read again.
abbrev requests : List ((ℕ → ℕ) × ℕ)
requests =
    ((λ n. 1), 5)
    ∷ ((λ n. 1), 16)
    ∷ ((λ n. 1), 99)
    ∷ ((λ n. 1), 5)
    ∷ ((λ n. 1), 2)
    ∷ ((λ n. 1), 5)
    ∷ []

requests-NoTrace : NoTrace seven requests
unfolding NoTrace
requests-NoTrace = (refl, (refl, (refl, (refl, (refl, (refl, tt))))))

-- Call 0 is no call, and is traced for a process that traces nothing.
traces_zero :
    (syscall seven untraced true)
    ≡ returns (record {
      result = 2 ^ 64 - 1;
      caller = set_a0 (2 ^ 64 - 1) untraced;
      kernel = true;
      lines = unknown 3 0 ∷ untitled 3 0 (2 ^ 32 - 1) ∷ [];
    })
unfolding syscall call_entry syscalls
traces_zero = refl

reads_outside : syscall seven outside true ≡ wild
unfolding syscall call_entry syscalls
reads_outside = refl

exits :
    ((run seven requests reader true).ending ≡ one_gone)
    × ((run seven requests reader true).returned ≡ 4)
unfolding run syscall call_entry syscalls
exits = (refl, refl)

run-occurrences_example :
    Stops
      (run seven requests reader true).ending
      (run seven requests reader true).returned
      (length requests)
    × (traced_numbers (run seven requests reader true).lines
        ≡ occurrences 5 (run seven requests reader true).returned (numbers seven requests))
run-occurrences_example =
    run-occurrences seven seven-KeepsTracer requests reader true (omega arith) requests-NoTrace
