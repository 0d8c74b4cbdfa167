-- ===== src/Pipe/Tests.antt =====
-- Calls on a pipe that holds two bytes, its counters about to wrap.
use operating_systems.Prelude.{
  ℕ, ◌-◌, ◌≡◌, refl, arith, List, [], ◌∷◌, some, true, false, u32_mod, zero, suc,
}
use operating_systems.Pipe.{Pipe, returned, pipe_size, pipewrite, piperead, rounds}
use operating_systems.Pipe.Buffer.{IsValid}
use operating_systems.Pipe.Flow.{Wrote, pipewrite-Wrote}

abbrev zeros : ℕ → List ℕ
zeros zero = []
zeros (suc n) = 0 ∷ zeros n

abbrev two_bytes : Pipe
two_bytes = record {
  buf = zeros pipe_size;
  nread = u32_mod - 1;
  nwrite = 1;
  readopen = true;
  writeopen = true;
}

two_bytes-IsValid : IsValid two_bytes
two_bytes-IsValid = record {
  storage = refl;
  reads = omega arith;
  writes = omega arith;
  fits = omega arith;
}

pipewrite-Wrote_example :
    Wrote (λ i. some 65) false (rounds 3) 0 two_bytes (pipewrite (λ i. some 65) false 3 two_bytes)
pipewrite-Wrote_example =
    pipewrite-Wrote (λ i. some 65) false 3 two_bytes two_bytes-IsValid (omega arith)

reads_two : (piperead (λ i. true) false 5 two_bytes).0 ≡ returned 2
unfolding piperead
reads_two = refl

-- A negative count writes nothing.
writes_none : (pipewrite (λ i. some 65) false (u32_mod - 1) two_bytes).0 ≡ returned 0
unfolding pipewrite
writes_none = refl
