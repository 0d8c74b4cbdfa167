-- ===== src/Strings/Tests.antt =====
-- The functions of string.c on a memory that holds a short text.
use operating_systems.Prelude.{ℕ, ◌+◌, ◌≡◌, ◌<◌, ◌≤◌, ◌≢◌, arith, ltb, if◌then◌else◌}
use operating_systems.Strings.{Memory, memmove}
use operating_systems.Strings.Move.{memmove_lem}

-- Five bytes of text at 100, and a NUL behind it.
abbrev text : Memory
text p = if ltb p 105 then 65 else 0

-- An overlapping move, two bytes up.
memmove_example : memmove 102 100 5 text 106 ≡ 65
memmove_example = memmove_lem 102 100 5 text 106

text_bytes : (p : ℕ) → text p < 256
text_bytes p = ground arith

text_before : (i : ℕ) → 0 ≤ i → i < 5 → text (100 + i) ≢ 0
text_before i l h e = ground (arith, h, e)
