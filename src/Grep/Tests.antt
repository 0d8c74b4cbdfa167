-- ===== src/Grep/Tests.antt =====
-- The pattern `a*b` on two lines, read three bytes at a time.
use operating_systems.Prelude.{
  ℕ, ◌≡◌, ◌↔◌, refl, arith, true, false, some, List, [], ◌∷◌, min, length, ◌≤◌, ◌+◌, ◌==◌,
}
use operating_systems.Grep.{
  newline, match, matchhere, match_from, matchstar, grep, grep_from, write_lines, next_line,
}
use operating_systems.Grep.Match.{Means, match_iff}
use operating_systems.Grep.Cut.{IsText, matching, complete_lines}
use operating_systems.Grep.Lines.{IsRead, grep-matching}

abbrev by_three : ℕ → List ℕ → ℕ
by_three n input = min n (min 3 (length input))

by_three-IsRead : IsRead by_three
by_three-IsRead = record {
  fits = λ n input. omega arith;
  there = λ n input. omega arith;
  gives = λ n x input h. omega arith;
}

-- "a*b"
abbrev pattern : List ℕ
pattern = 97 ∷ 42 ∷ 98 ∷ []

-- "cab\nc\n"
abbrev text : List ℕ
text = 99 ∷ 97 ∷ 98 ∷ 10 ∷ 99 ∷ 10 ∷ []

matches_here : match (94 ∷ pattern) (97 ∷ 97 ∷ 98 ∷ 99 ∷ []) ≡ true
unfolding match matchhere matchstar
matches_here = refl

misses_end : match (98 ∷ 36 ∷ []) (98 ∷ 99 ∷ []) ≡ false
unfolding match match_from matchhere
misses_end = refl

first_line : grep by_three pattern text ≡ some (99 ∷ 97 ∷ 98 ∷ 10 ∷ [])
unfolding grep grep_from write_lines next_line match match_from matchhere matchstar
first_line = refl

match_iff_example : (match pattern (99 ∷ 98 ∷ []) ≡ true) ↔ Means pattern (99 ∷ 98 ∷ [])
match_iff_example = match_iff pattern (99 ∷ 98 ∷ [])

byte :
    (n x : ℕ) (t : List ℕ)
    → n ≤ 1022
    → (x == 0) ≡ false
    → (x == newline) ≡ false
    → IsText (n + 1) t
    → IsText n (x ∷ t)
byte n x t small z no_line h = (small, z, ((λ e. ground (arith, e, no_line)), (λ e. h)))

line : (n : ℕ) (t : List ℕ) → n ≤ 1022 → IsText 0 t → IsText n (newline ∷ t)
line n t small h = (small, refl, ((λ e. h), (λ e. ground (arith, e))))

text-IsText : IsText 0 text
text-IsText = byte 0 99 (97 ∷ 98 ∷ newline ∷ 99 ∷ newline ∷ []) (omega arith) refl refl (
    byte 1 97 (98 ∷ newline ∷ 99 ∷ newline ∷ []) (omega arith) refl refl (
      byte 2 98 (newline ∷ 99 ∷ newline ∷ []) (omega arith) refl refl (
        line 3 (99 ∷ newline ∷ []) (omega arith)
          (byte 0 99 (newline ∷ []) (omega arith) refl refl (line 1 [] (omega arith) tt)))))

grep-matching_example :
    grep by_three pattern text ≡ some (matching pattern (complete_lines [] text))
grep-matching_example = grep-matching by_three by_three-IsRead pattern text text-IsText
