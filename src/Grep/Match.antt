-- ===== src/Grep/Match.antt =====
-- What a pattern of `grep` means, and that `match` decides it.
use operating_systems.Prelude.{
  ℕ, Bool, true, false, ◌||◌, ◌==◌, if◌then◌else◌, List, [], ◌∷◌, ◌++◌, ◌≡◌, refl, ap, ◌∙◌, ◌↔◌,
  inl, inr, arith, Bool-cases,
}
use operating_systems.Grep.{
  caret, dot, star, dollar, matchstar, match_char, matchhere, match_from, match,
}

-- A pattern behind its `^`: it ends, it asks for the end of the text, or it goes on behind a byte or
-- behind any number of bytes that fit one.
pub data Regexp : Type 0 where
  whatever at_end : Regexp
  one many : ℕ → Regexp → Regexp

unfoldable pub parse : List ℕ → Regexp
parse [] = whatever
parse (c ∷ []) = if c == dollar then at_end else one c whatever
parse (c ∷ d ∷ re) = if d == star then many c (parse re) else one c (parse (d ∷ re))

abbrev pub fits : ℕ → ℕ → Bool
fits c x = c == dot || c == x

abbrev pub AllFit : ℕ → List ℕ → Type 0
AllFit c [] = Unit
AllFit c (x ∷ xs) = (fits c x ≡ true) × AllFit c xs

-- The pattern matches a first part of the text.
abbrev pub Begins : Regexp → List ℕ → Type 0
Begins whatever text = Unit
Begins at_end text = text ≡ []
Begins (one c r) text =
    (x : ℕ) × (rest : List ℕ) × (text ≡ x ∷ rest) × (fits c x ≡ true) × Begins r rest
Begins (many c r) text = (a : List ℕ) × (b : List ℕ) × (text ≡ a ++ b) × AllFit c a × Begins r b

-- The pattern matches somewhere in the text.
abbrev pub Occurs : Regexp → List ℕ → Type 0
Occurs r text = (a : List ℕ) × (b : List ℕ) × (text ≡ a ++ b) × Begins r b

-- What a pattern of `grep` means: `^` in front ties it to the start of the text.
abbrev pub Means : List ℕ → List ℕ → Type 0
Means [] text = Occurs whatever text
Means (c ∷ re) text = if c == caret then Begins (parse re) text else Occurs (parse (c ∷ re)) text

no_rest : (a b : List ℕ) → [] ≡ a ++ b → [] ≡ b
no_rest [] b e = e
no_rest (x ∷ a) b e = absurd (ground (arith, e))

-- A match of `c*` that `here` does not match takes the first byte.
star_head :
    (here : List ℕ → Bool) (r : Regexp) (c x : ℕ) (text : List ℕ)
    → ((t : List ℕ) → (here t ≡ true) ↔ Begins r t)
    → here (x ∷ text) ≡ false
    → Begins (many c r) (x ∷ text)
    → (fits c x ≡ true) × Begins (many c r) text
star_head here r c x text h later ([], b, e, fit, beg) =
    absurd (ground (arith, later, (h (x ∷ text)).1 (rw e beg)))
star_head here r c x text h later (y ∷ a, b, e, (fit, all), beg) =
    let (same, rest) : (x ≡ y) × (text ≡ a ++ b) = (ground (arith, e), ground (arith, e)) in
    (ap (fits c) same ∙ fit, (a, b, rest, all, beg))

matchstar_iff :
    (here : List ℕ → Bool) (r : Regexp) (c : ℕ)
    → ((t : List ℕ) → (here t ≡ true) ↔ Begins r t)
    → (text : List ℕ) → (matchstar here c text ≡ true) ↔ Begins (many c r) text
unfolding matchstar
matchstar_iff here r c h [] = (
  (λ e. ([], [], refl, tt, (h []).0 e)),
  (λ m. let (a, b, e, fit, beg) = m in (h []).1 (rw (no_rest a b e) beg)),
)
matchstar_iff here r c h (x ∷ text) =
    let ih = matchstar_iff here r c h text in
    elim (Bool-cases (here (x ∷ text))) [
      | inl now ↦ rw now ((λ e. ([], x ∷ text, refl, tt, (h (x ∷ text)).0 now)), (λ m. refl))
      | inr later ↦ rw later (elim (Bool-cases (x == c || c == dot)) [
        | inl fit ↦ rw fit (
          (λ e.
              let (a, b, g, all, beg) = ih.0 e in
              (x ∷ a, b, ap (λ l. x ∷ l) g, (ground (arith, fit), all), beg)),
          (λ m. let (f, rest) = star_head here r c x text h later m in ih.1 rest),
        )
        | inr misfit ↦ rw misfit (
          (λ e. absurd (ground (arith, e))),
          (λ m.
              let (fit, rest) = star_head here r c x text h later m in ground (arith, fit, misfit)),
        )
      ])
    ]

match_char_iff :
    (here : List ℕ → Bool) (r : Regexp) (c : ℕ)
    → ((t : List ℕ) → (here t ≡ true) ↔ Begins r t)
    → (text : List ℕ) → (match_char here c text ≡ true) ↔ Begins (one c r) text
match_char_iff here r c h [] =
    ((λ e. ground (arith, e)), (λ m. let (x, rest, e, fit, beg) = m in ground (arith, e)))
match_char_iff here r c h (x ∷ text) = elim (Bool-cases (fits c x)) [
  | inl fit ↦ rw fit (
    (λ e. (x, text, refl, fit, (h text).0 e)),
    (λ m.
        let (y, rest, e, f, beg) = m in
        let same : rest ≡ text = ground (arith, e) in (h text).1 (rw (← same) beg)),
  )
  | inr misfit ↦ rw misfit (
    (λ e. ground (arith, e)),
    (λ m.
        let (y, rest, e, f, beg) = m in
        let same : x ≡ y = ground (arith, e) in ground (arith, misfit, ap (fits c) same ∙ f)),
  )
]

at_end_iff : (text : List ℕ) → ((elim text [ [] ↦ true | x ∷ rest ↦ false ]) ≡ true) ↔ (text ≡ [])
at_end_iff [] = ((λ e. refl), (λ m. refl))
at_end_iff (x ∷ text) = ((λ e. ground (arith, e)), (λ m. ground (arith, m)))

matchhere_iff : (re text : List ℕ) → (matchhere re text ≡ true) ↔ Begins (parse re) text
unfolding matchhere parse
matchhere_iff [] text = ((λ e. tt), (λ m. refl))
matchhere_iff (c ∷ []) text = elim (Bool-cases (c == dollar)) [
  | inl e ↦ rw e (at_end_iff text)
  | inr e ↦ rw e (match_char_iff (λ t. true) whatever c (λ t. ((λ e. tt), (λ m. refl))) text)
]
matchhere_iff (c ∷ d ∷ re) text = elim (Bool-cases (d == star)) [
  | inl e ↦ rw e (matchstar_iff (matchhere re) (parse re) c (matchhere_iff re) text)
  | inr e ↦
      rw e (match_char_iff (matchhere (d ∷ re)) (parse (d ∷ re)) c (matchhere_iff (d ∷ re)) text)
]

Occurs-later :
    (re : List ℕ) (x : ℕ) (text : List ℕ)
    → matchhere re (x ∷ text) ≡ false
    → Occurs (parse re) (x ∷ text)
    → Occurs (parse re) text
Occurs-later re x text later ([], b, e, beg) =
    absurd (ground (arith, later, (matchhere_iff re (x ∷ text)).1 (rw e beg)))
Occurs-later re x text later (y ∷ a, b, e, beg) = (a, b, ground (arith, e), beg)

match_from_iff : (re text : List ℕ) → (match_from re text ≡ true) ↔ Occurs (parse re) text
unfolding match_from
match_from_iff re [] = (
  (λ e. ([], [], refl, (matchhere_iff re []).0 e)),
  (λ m. let (a, b, e, beg) = m in (matchhere_iff re []).1 (rw (no_rest a b e) beg)),
)
match_from_iff re (x ∷ text) = elim (Bool-cases (matchhere re (x ∷ text))) [
  | inl now ↦ rw now ((λ e. ([], x ∷ text, refl, (matchhere_iff re (x ∷ text)).0 now)), (λ m. refl))
  | inr later ↦ rw later (
    (λ e. let (a, b, g, beg) = (match_from_iff re text).0 e in (x ∷ a, b, ap (λ l. x ∷ l) g, beg)),
    (λ m. (match_from_iff re text).1 (Occurs-later re x text later m)),
  )
]

-- `match` returns 1 exactly when the text holds what the pattern means, for every pattern and text:
-- somewhere, or at its start where the pattern begins with `^`; a byte stands for itself, `.` for
-- any byte, `*` behind a byte for any number of bytes that fit it, and a `$` at the pattern's end
-- for the end of the text.
pub match_iff : (re text : List ℕ) → (match re text ≡ true) ↔ Means re text
unfolding match parse
match_iff [] text = match_from_iff [] text
match_iff (c ∷ re) text = elim (Bool-cases (c == caret)) [
  | inl e ↦ rw e (matchhere_iff re text)
  | inr e ↦ rw e (match_from_iff (c ∷ re) text)
]
