-- ===== src/Grep/Lines.antt =====
-- What `grep` writes: the lines of its input that match, however `read` cuts the input.
use mathlib.Core.Path.{subst}
use operating_systems.Prelude.{
  ℕ, zero, suc, ◌-◌, ◌≤◌, ◌<◌, ◌≡◌, refl, ap, sym, ◌∙◌, true, false, some, ◌==◌, List, [], ◌∷◌,
  ◌++◌, length, take, drop, length-drop, length-take, length-append, take-append-drop, arith,
}
use operating_systems.Grep.{write_lines, buf_size, grep_from, grep}
use operating_systems.Grep.Cut.{
  complete_lines, last_line, matching, IsText, IsLine, complete_lines-append, last-append,
  matching-append, line_complete, line_last, NoZero, NoZero-append, IsLine-NoZero, IsText-NoZero,
  last-IsLine, IsText-rest, write_lines_lem,
}

-- What a `read` of a file or a pipe does: it gives no more than it is asked for and than there is,
-- and something, unless nothing is asked for or nothing is left.
pub record IsRead (read : ℕ → List ℕ → ℕ) : Type 0 where
  pub fits : (n : ℕ) (input : List ℕ) → read n input ≤ n
  pub there : (n : ℕ) (input : List ℕ) → read n input ≤ length input
  pub gives : (n x : ℕ) (input : List ℕ) → 0 < n → 0 < read n (x ∷ input)

module _ (read : ℕ → List ℕ → ℕ) (reads : IsRead read) (pattern : List ℕ) where
  -- The rounds of the outer loop.
  grep_ends :
      (fuel : ℕ) (buf : List ℕ)
      → grep_from read (suc fuel) pattern buf [] ≡ some (matching pattern (complete_lines buf []))
  unfolding grep_from matching complete_lines
  grep_ends fuel buf =
      let none_left : (read (buf_size - length buf - 1) [] == 0) ≡ true =
        ground (arith, reads.there (buf_size - length buf - 1) []) in
      rw none_left refl

  grep_goes :
      (fuel : ℕ) (buf input left out more : List ℕ)
      → let n = read (buf_size - length buf - 1) input in
        0 < n
        → write_lines buf_size pattern (buf ++ take n input) ≡ (out, left)
        → grep_from read fuel pattern left (drop n input) ≡ some more
        → grep_from read (suc fuel) pattern buf input ≡ some (out ++ more)
  unfolding grep_from
  grep_goes fuel buf input left out more pos e h =
      let some_read : (read (buf_size - length buf - 1) input == 0) ≡ false = ground arith in
      rw (some_read, e, h) refl

  -- A read of the bytes `t` behind a line's first bytes `buf`.
  read_lines :
      (buf t u : List ℕ)
      → length (buf ++ t) ≤ buf_size
      → IsLine buf
      → NoZero t
      → (write_lines buf_size pattern (buf ++ t)
          ≡ (matching pattern (complete_lines buf t), last_line buf t))
        × (matching pattern (complete_lines buf t)
              ++ matching pattern (complete_lines (last_line buf t) u)
            ≡ matching pattern (complete_lines buf (t ++ u)))
  read_lines buf t u small line z =
      let a : complete_lines [] (buf ++ t) ≡ complete_lines buf t =
        complete_lines-append [] buf t
        ∙ rw (line_complete [] buf line, line_last [] buf line) refl in
      let b : last_line [] (buf ++ t) ≡ last_line buf t =
        last-append [] buf t ∙ ap (λ l. last_line l t) (line_last [] buf line) in
      (
        write_lines_lem buf_size pattern (buf ++ t) small
              (NoZero-append buf t (IsLine-NoZero buf line) z)
            ∙ rw (a, b) refl,
        sym (matching-append pattern (complete_lines buf t) (complete_lines (last_line buf t) u))
            ∙ ap (matching pattern) (sym (complete_lines-append buf t u)),
      )

  -- The loop behind a line's first bytes `buf`.
  grep_from_lem :
      (fuel : ℕ) (buf input : List ℕ)
      → length input < fuel
      → IsLine buf
      → IsText (length buf) input
      → grep_from read fuel pattern buf input ≡ some (matching pattern (complete_lines buf input))
  grep_from_lem zero buf input enough line text = absurd (omega arith)
  grep_from_lem (suc fuel) buf [] enough line text = grep_ends fuel buf
  grep_from_lem (suc fuel) buf (x ∷ input) enough line text =
      let n = read (buf_size - length buf - 1) (x ∷ input) in
      let pos : 0 < n = reads.gives (buf_size - length buf - 1) x input (omega (arith, text.0)) in
      let t = take n (x ∷ input) in
      let u = drop n (x ∷ input) in
      let split : t ++ u ≡ x ∷ input = take-append-drop n (x ∷ input) in
      let text' = subst (IsText (length buf)) (sym split) text in
      let z = IsText-NoZero (length buf) t u text' in
      let small : length (buf ++ t) ≤ buf_size = omega (
        arith,
        length-append buf t,
        length-take n (x ∷ input),
        reads.fits (buf_size - length buf - 1) (x ∷ input),
        text.0,
      ) in
      let fewer : length u < fuel = omega (arith, length-drop n (x ∷ input), enough, pos) in
      let (w, joins) = read_lines buf t u small line z in
      let ih =
        grep_from_lem fuel (last_line buf t) u fewer (last-IsLine buf t line z)
          (IsText-rest buf t u text') in
      grep_goes fuel buf (x ∷ input) _ _ _ pos w ih
      ∙ ap some (joins ∙ ap (λ l. matching pattern (complete_lines buf l)) split)

  -- `grep` ends, and writes the lines of its input that match, each with its newline, in their order
  -- and no other bytes, however `read` cuts the input: for an input without a byte 0 whose lines have
  -- at most 1022 bytes each. What stands behind the last newline is not a line to it.
  pub grep-matching :
      (input : List ℕ)
      → IsText 0 input
      → grep read pattern input ≡ some (matching pattern (complete_lines [] input))
  unfolding grep
  grep-matching input text = grep_from_lem (suc (length input)) [] input (omega arith) tt text
