-- ===== src/Grep.antt =====
-- xv6-Lottery-Scheduler-Offline-03/user/grep.c: the matcher, and the loop that reads and prints.
-- A C string is the list of its bytes before the 0, so that `*text == '\0'` is the empty list.
pub mod Match
pub mod Cut
pub mod Lines
mod Tests
use mathlib.Core.Option
use operating_systems.Prelude.{
  ℕ, zero, suc, ◌+◌, ◌-◌, Bool, true, false, ◌&&◌, ◌||◌, not, Option, none, some, ◌==◌,
  if◌then◌else◌, List, [], ◌∷◌, ◌++◌, length, take, drop,
}

-- `'^'`, `'.'`, `'*'`, `'$'` and `'\n'`
abbrev pub caret : ℕ
caret = 94

abbrev pub dot : ℕ
dot = 46

abbrev pub star : ℕ
star = 42

abbrev pub dollar : ℕ
dollar = 36

abbrev pub newline : ℕ
newline = 10

-- `matchstar(c, re, text)`; `here` is `matchhere(re, ·)`.
unfoldable pub matchstar : (List ℕ → Bool) → ℕ → List ℕ → Bool
matchstar here c [] = here []
matchstar here c (x ∷ text) =
    let rest = matchstar here c text in
    if here (x ∷ text) then true else if x == c || c == dot then rest else false

-- The last three lines of `matchhere`, for `re[0] = c`; `here` is `matchhere(re + 1, ·)`.
abbrev pub match_char : (List ℕ → Bool) → ℕ → List ℕ → Bool
match_char here c [] = false
match_char here c (x ∷ text) = if c == dot || c == x then here text else false

unfoldable pub matchhere : List ℕ → List ℕ → Bool
unfolding matchstar
matchhere [] text = true
matchhere (c ∷ []) text =
    if c == dollar
    then (elim text [ [] ↦ true | x ∷ rest ↦ false ])
    else match_char (λ t. true) c text
matchhere (c ∷ d ∷ re) text =
    if d == star then matchstar (matchhere re) c text else match_char (matchhere (d ∷ re)) c text

-- The loop of `match`.
unfoldable pub match_from : List ℕ → List ℕ → Bool
unfolding matchhere
match_from re [] = matchhere re []
match_from re (x ∷ text) =
    let rest = match_from re text in if matchhere re (x ∷ text) then true else rest

unfoldable pub match : List ℕ → List ℕ → Bool
unfolding matchhere match_from
match [] text = match_from [] text
match (c ∷ re) text = if c == caret then matchhere re text else match_from (c ∷ re) text

-- `q = strchr(p, '\n')`: the bytes before `q` and those behind it.
unfoldable pub next_line : List ℕ → Option (List ℕ × List ℕ)
next_line [] = none
next_line (x ∷ p) =
    let rest = next_line p in
    if x == 0
    then none
    else if x == newline
    then some ([], p)
    else elim rest [ none ↦ none | some (line, left) ↦ some (x ∷ line, left) ]

-- `if(match(pattern, p)) write(1, p, q+1 - p)` in front of the rounds behind it.
abbrev pub emit : List ℕ → List ℕ → List ℕ × List ℕ → List ℕ × List ℕ
emit pattern line (out, left) =
    if match pattern line then (line ++ (newline ∷ out), left) else (out, left)

-- The inner loop of `grep`, on fuel: what it writes, and the bytes from `p` on.
unfoldable pub write_lines : ℕ → List ℕ → List ℕ → List ℕ × List ℕ
write_lines zero pattern p = ([], p)
write_lines (suc fuel) pattern p = elim (next_line p) [
  | none ↦ ([], p)
  | some (line, rest) ↦ emit pattern line (write_lines fuel pattern rest)
]

-- `sizeof(buf)`
abbrev pub buf_size : ℕ
buf_size = 1024

-- The outer loop of `grep`, on fuel: what it writes. `buf` holds the `m` bytes that are left, and
-- `input` is what stands behind the offset of `fd`; `read n input` is how many bytes a call reads.
unfoldable pub grep_from : (ℕ → List ℕ → ℕ) → ℕ → List ℕ → List ℕ → List ℕ → Option (List ℕ)
grep_from read zero pattern buf input = none
grep_from read (suc fuel) pattern buf input =
    let n = read (buf_size - length buf - 1) input in
    let (out, left) = write_lines buf_size pattern (buf ++ take n input) in
    let rest = grep_from read fuel pattern left (drop n input) in
    if n == 0 then some [] else Option.map (λ more. out ++ more) rest

-- `grep`, for the input of `fd`.
unfoldable pub grep : (ℕ → List ℕ → ℕ) → List ℕ → List ℕ → Option (List ℕ)
unfolding grep_from
grep read pattern input = grep_from read (suc (length input)) pattern [] input
