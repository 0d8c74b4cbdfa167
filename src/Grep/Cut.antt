-- ===== src/Grep/Cut.antt =====
-- The lines of a text, and the inner loop of `grep`.
use mathlib.Core.Path.{subst}
use operating_systems.Prelude.{
  ℕ, zero, suc, ◌+◌, ◌≤◌, ◌≡◌, refl, ap, sym, ◌∙◌, true, false, none, some, ◌==◌, if◌then◌else◌,
  List, [], ◌∷◌, ◌++◌, length, length-append, arith, Bool-cases, inl, inr, ◌⊎◌,
}
use operating_systems.Grep.{newline, match, next_line, write_lines, emit}

-- The complete lines of a text behind the bytes `pending` of a line, and the bytes of the last line,
-- which no newline ends.
unfoldable pub complete_lines : List ℕ → List ℕ → List (List ℕ)
complete_lines pending [] = []
complete_lines pending (x ∷ text) =
    let here = complete_lines [] text in
    let rest = complete_lines (pending ++ (x ∷ [])) text in
    if x == newline then pending ∷ here else rest

unfoldable pub last_line : List ℕ → List ℕ → List ℕ
last_line pending [] = pending
last_line pending (x ∷ text) =
    let here = last_line [] text in
    let rest = last_line (pending ++ (x ∷ [])) text in if x == newline then here else rest

-- The lines that match, each with its newline.
unfoldable pub matching : List ℕ → List (List ℕ) → List ℕ
matching pattern [] = []
matching pattern (line ∷ lines) =
    let rest = matching pattern lines in
    if match pattern line then line ++ (newline ∷ rest) else rest

-- No byte of the text is 0, and a line has at most 1022 bytes before its newline; `n` bytes of the
-- first line stand before the text.
abbrev pub IsText : ℕ → List ℕ → Type 0
IsText n [] = Unit
IsText n (x ∷ text) =
    (n ≤ 1022)
    × ((x == 0) ≡ false)
    × (((x == newline) ≡ true → IsText 0 text) × ((x == newline) ≡ false → IsText (n + 1) text))

-- The bytes of a line.
abbrev pub IsLine : List ℕ → Type 0
IsLine [] = Unit
IsLine (x ∷ line) = ((x == 0) ≡ false) × ((x == newline) ≡ false) × IsLine line

pub IsLine-append : (a b : List ℕ) → IsLine a → IsLine b → IsLine (a ++ b)
IsLine-append [] b ha hb = hb
IsLine-append (x ∷ a) b ha hb = (ha.0, ha.1, IsLine-append a b ha.2 hb)

pub append_assoc : (a b c : List ℕ) → (a ++ b) ++ c ≡ a ++ (b ++ c)
append_assoc [] b c = refl
append_assoc (x ∷ a) b c = ap (λ l. x ∷ l) (append_assoc a b c)

pub append_nil : (a : List ℕ) → a ++ [] ≡ a
append_nil [] = refl
append_nil (x ∷ a) = ap (λ l. x ∷ l) (append_nil a)

pub complete_lines-append :
    (pending t u : List ℕ)
    → complete_lines pending (t ++ u)
      ≡ complete_lines pending t ++ complete_lines (last_line pending t) u
unfolding complete_lines last_line
complete_lines-append pending [] u = refl
complete_lines-append pending (x ∷ t) u = elim (Bool-cases (x == newline)) [
  | inl e ↦ rw e (ap (λ l. pending ∷ l) (complete_lines-append [] t u))
  | inr e ↦ rw e (complete_lines-append (pending ++ (x ∷ [])) t u)
]

pub last-append :
    (pending t u : List ℕ) → last_line pending (t ++ u) ≡ last_line (last_line pending t) u
unfolding last_line
last-append pending [] u = refl
last-append pending (x ∷ t) u = elim (Bool-cases (x == newline)) [
  | inl e ↦ rw e (last-append [] t u)
  | inr e ↦ rw e (last-append (pending ++ (x ∷ [])) t u)
]

pub matching-append :
    (pattern : List ℕ) (a b : List (List ℕ))
    → matching pattern (a ++ b) ≡ matching pattern a ++ matching pattern b
unfolding matching
matching-append pattern [] b = refl
matching-append pattern (l ∷ a) b = elim (Bool-cases (match pattern l)) [
  | inl e ↦ rw e (
      rw (append_assoc l (newline ∷ matching pattern a) (matching pattern b))
        (ap (λ r. l ++ (newline ∷ r)) (matching-append pattern a b)))
  | inr e ↦ rw e (matching-append pattern a b)
]

-- A line without its newline.
pub line_complete : (pending line : List ℕ) → IsLine line → complete_lines pending line ≡ []
unfolding complete_lines
line_complete pending [] h = refl
line_complete pending (x ∷ line) h =
    let e = h.1 in rw e (line_complete (pending ++ (x ∷ [])) line h.2)

pub line_last : (pending line : List ℕ) → IsLine line → last_line pending line ≡ pending ++ line
unfolding last_line
line_last pending [] h = sym (append_nil pending)
line_last pending (x ∷ line) h =
    let e = h.1 in
    rw e (line_last (pending ++ (x ∷ [])) line h.2 ∙ append_assoc pending (x ∷ []) line)

abbrev pub NoZero : List ℕ → Type 0
NoZero [] = Unit
NoZero (x ∷ text) = ((x == 0) ≡ false) × NoZero text

pub NoZero-append : (a b : List ℕ) → NoZero a → NoZero b → NoZero (a ++ b)
NoZero-append [] b ha hb = hb
NoZero-append (x ∷ a) b ha hb = (ha.0, NoZero-append a b ha.1 hb)

pub NoZero-rest : (a b : List ℕ) → NoZero (a ++ b) → NoZero b
NoZero-rest [] b h = h
NoZero-rest (x ∷ a) b h = NoZero-rest a b h.1

pub IsLine-NoZero : (a : List ℕ) → IsLine a → NoZero a
IsLine-NoZero [] h = tt
IsLine-NoZero (x ∷ a) h = (h.0, IsLine-NoZero a h.2)

pub IsText-NoZero : (n : ℕ) (t u : List ℕ) → IsText n (t ++ u) → NoZero t
IsText-NoZero n [] u h = tt
IsText-NoZero n (x ∷ t) u (small, z, (yes_line, no_line)) = (
  z,
  elim (Bool-cases (x == newline)) [
    | inl e ↦ IsText-NoZero 0 t u (yes_line e)
    | inr e ↦ IsText-NoZero (n + 1) t u (no_line e)
  ],
)

pub last-IsLine : (pending t : List ℕ) → IsLine pending → NoZero t → IsLine (last_line pending t)
unfolding last_line
last-IsLine pending [] h z = h
last-IsLine pending (x ∷ t) h z = elim (Bool-cases (x == newline)) [
  | inl e ↦ rw e (last-IsLine [] t tt z.1)
  | inr e ↦
      rw e (last-IsLine (pending ++ (x ∷ [])) t (IsLine-append pending (x ∷ []) h (z.0, e, tt)) z.1)
]

pub IsText-rest :
    (pending t u : List ℕ)
    → IsText (length pending) (t ++ u)
    → IsText (length (last_line pending t)) u
unfolding last_line
IsText-rest pending [] u h = h
IsText-rest pending (x ∷ t) u (small, z, (yes_line, no_line)) = elim (Bool-cases (x == newline)) [
  | inl e ↦ rw e (IsText-rest [] t u (yes_line e))
  | inr e ↦
      let len : length (pending ++ (x ∷ [])) ≡ length pending + 1 =
        length-append pending (x ∷ []) in
      rw e (IsText-rest (pending ++ (x ∷ [])) t u (rw len (no_line e)))
]

-- What `strchr` finds in a text without 0.
pub next_line-cases :
    (p : List ℕ)
    → NoZero p
    → ((next_line p ≡ none) × IsLine p)
      ⊎ ((line : List ℕ) × (rest : List ℕ) × (next_line p ≡ some (line, rest))
          × (p ≡ line ++ (newline ∷ rest))
          × IsLine line)
unfolding next_line
next_line-cases [] h = inl (refl, tt)
next_line-cases (x ∷ p) (z, h) = elim (Bool-cases (x == newline)) [
  | inl e ↦
      let same : x ≡ newline = ground (arith, e) in inr ([], p, rw (z, e) refl, rw same refl, tt)
  | inr e ↦ elim (next_line-cases p h) [
    | inl (gone, line) ↦ inl (rw (z, e, gone) refl, (z, e, line))
    | inr (line, rest, found, split, is_line) ↦
        inr (x ∷ line, rest, rw (z, e, found) refl, ap (λ l. x ∷ l) split, (z, e, is_line))
  ]
]

pub complete_lines-line :
    (line rest : List ℕ)
    → IsLine line
    → (complete_lines [] (line ++ (newline ∷ rest)) ≡ line ∷ complete_lines [] rest)
      × (last_line [] (line ++ (newline ∷ rest)) ≡ last_line [] rest)
unfolding complete_lines last_line
complete_lines-line line rest h = (
  complete_lines-append [] line (newline ∷ rest)
      ∙ rw (line_complete [] line h, line_last [] line h) refl,
  last-append [] line (newline ∷ rest),
)

-- One round of the inner loop.
pub write_none :
    (fuel : ℕ) (pattern p : List ℕ)
    → next_line p ≡ none
    → write_lines (suc fuel) pattern p ≡ ([], p)
unfolding write_lines
write_none fuel pattern p e = rw (e, write_lines) refl

pub write_some :
    (fuel : ℕ) (pattern p line rest : List ℕ)
    → next_line p ≡ some (line, rest)
    → write_lines (suc fuel) pattern p ≡ emit pattern line (write_lines fuel pattern rest)
unfolding write_lines
write_some fuel pattern p line rest e = rw (e, write_lines) refl

pub write_nothing :
    (pattern : List ℕ)
    → write_lines zero pattern [] ≡ (matching pattern (complete_lines [] []), last_line [] [])
unfolding write_lines matching complete_lines last_line
write_nothing pattern = refl

pub nothing : (pattern p : List ℕ) → ◌≡◌ {A = List ℕ × List ℕ} ([], p) (matching pattern [], p)
unfolding matching
nothing pattern p = refl

pub emits :
    (pattern line rest : List ℕ)
    → emit pattern line (matching pattern (complete_lines [] rest), last_line [] rest)
      ≡ (matching pattern (line ∷ complete_lines [] rest), last_line [] rest)
unfolding matching
emits pattern line rest = elim (Bool-cases (match pattern line)) [
  | inl e ↦ rw e refl
  | inr e ↦ rw e refl
]

pub write_lines_lem :
    (fuel : ℕ) (pattern p : List ℕ)
    → length p ≤ fuel
    → NoZero p
    → write_lines fuel pattern p ≡ (matching pattern (complete_lines [] p), last_line [] p)
write_lines_lem zero pattern [] enough z = write_nothing pattern
write_lines_lem zero pattern (x ∷ p) enough z = absurd (omega arith)
write_lines_lem (suc fuel) pattern p enough z = elim (next_line-cases p z) [
  | inl (gone, line) ↦
      write_none fuel pattern p gone
      ∙ rw (line_complete [] p line, line_last [] p line) (nothing pattern p)
  | inr (line, rest, found, split, is_line) ↦
      let shorter : length rest ≤ fuel =
        omega (arith, enough, ap length split, length-append line (newline ∷ rest)) in
      let z' : NoZero rest = (NoZero-rest line (newline ∷ rest) (subst NoZero split z)).1 in
      let (all, last) = complete_lines-line line rest is_line in
      write_some fuel pattern p line rest found
      ∙ ap (emit pattern line) (write_lines_lem fuel pattern rest shorter z')
      ∙ rw (split, all, last) (emits pattern line rest)
]
