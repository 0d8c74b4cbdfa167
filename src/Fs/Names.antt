-- ===== src/Fs/Names.antt =====
-- `skipelem` takes a path apart at its slashes.

use operating_systems.Prelude.{
  ℕ, zero, suc, ◌≤◌, ◌<◌, ◌≡◌, refl, ap, sym, ◌∙◌, arith, false, none, some, ◌==◌, ltb,
  if◌then◌else◌, List, [], ◌∷◌, ◌++◌, take, length, map, Bool-cases, inl, inr, ◌⊎◌,
}
use operating_systems.Fs.Path.{slash, dirsiz, skip_slashes, element, skipelem, path_names}

-- The parts of a path between its slashes, behind the bytes `front` of the first part.
unfoldable pub split_slashes : List ℕ → List ℕ → List (List ℕ)
split_slashes front [] = front ∷ []
split_slashes front (c ∷ path) =
    let here = split_slashes [] path in
    let rest = split_slashes (front ++ (c ∷ [])) path in if c == slash then front ∷ here else rest

-- The parts that are not empty.
unfoldable pub nonempty : List (List ℕ) → List (List ℕ)
nonempty [] = []
nonempty ([] ∷ parts) = nonempty parts
nonempty ((c ∷ part) ∷ parts) = (c ∷ part) ∷ nonempty parts

-- The names of a path.
abbrev pub components : List ℕ → List (List ℕ)
components path = map (take dirsiz) (nonempty (split_slashes [] path))

components-skip_slashes : (path : List ℕ) → components (skip_slashes path) ≡ components path
unfolding split_slashes nonempty skip_slashes
components-skip_slashes [] = refl
components-skip_slashes (c ∷ path) = elim (Bool-cases (c == slash)) [
  | inl e ↦ rw e (components-skip_slashes path)
  | inr e ↦ rw e (rw e refl)
]

append_nil : (a : List ℕ) → a ++ [] ≡ a
append_nil [] = refl
append_nil (x ∷ a) = ap (λ l. x ∷ l) (append_nil a)

append_assoc : (a b c : List ℕ) → (a ++ b) ++ c ≡ a ++ (b ++ c)
append_assoc [] b c = refl
append_assoc (x ∷ a) b c = ap (λ l. x ∷ l) (append_assoc a b c)

-- The parts behind the first one, for the path that `element` leaves.
unfoldable behind : List ℕ → List (List ℕ)
behind [] = []
behind (c ∷ path) = split_slashes [] path

split-element :
    (front path : List ℕ)
    → split_slashes front path ≡ (front ++ (element path).0) ∷ behind (element path).1
unfolding split_slashes element behind
split-element front [] = ap (λ l. l ∷ []) (sym (append_nil front))
split-element front (c ∷ path) = elim (Bool-cases (c == slash)) [
  | inl e ↦ rw e (ap (λ l. l ∷ split_slashes [] path) (sym (append_nil front)))
  | inr e ↦ rw e (
      split-element (front ++ (c ∷ [])) path
      ∙ ap (λ l. l ∷ behind (element path).1) (append_assoc front (c ∷ []) (element path).0))
]

nonempty-behind :
    (path : List ℕ)
    → nonempty (behind (element path).1) ≡ nonempty (split_slashes [] (element path).1)
unfolding split_slashes element behind nonempty
nonempty-behind [] = refl
nonempty-behind (c ∷ path) = elim (Bool-cases (c == slash)) [
  | inl e ↦ rw (e, e) refl
  | inr e ↦ rw e (nonempty-behind path)
]

take_long : (n : ℕ) (s : List ℕ) → length s < n → take n s ≡ s
take_long zero s h = absurd (omega arith)
take_long (suc n) [] h = refl
take_long (suc n) (x ∷ s) h = ap (λ l. x ∷ l) (take_long n s (omega arith))

take_all : (s : List ℕ) → (if ltb (length s) dirsiz then s else take dirsiz s) ≡ take dirsiz s
take_all s = elim (Bool-cases (ltb (length s) dirsiz)) [
  | inl e ↦ rw e (sym (take_long dirsiz s (ground (arith, e))))
  | inr e ↦ rw e refl
]

-- What is left of a path whose leading slashes are skipped.
skip_slashes-cases :
    (path : List ℕ)
    → (skip_slashes path ≡ [])
      ⊎ ((c : ℕ) × (rest : List ℕ) × (skip_slashes path ≡ c ∷ rest)
          × ((c == slash) ≡ false)
          × (length rest < length path))
unfolding skip_slashes
skip_slashes-cases [] = inl refl
skip_slashes-cases (c ∷ path) = elim (Bool-cases (c == slash)) [
  | inr e ↦ inr (c, path, rw e refl, e, omega arith)
  | inl e ↦ elim (skip_slashes-cases path) [
    | inl none_left ↦ inl (rw e none_left)
    | inr (d, rest, at, no_slash, l) ↦ inr (d, rest, rw e at, no_slash, omega arith)
  ]
]

length-skip_slashes : (path : List ℕ) → length (skip_slashes path) ≤ length path
unfolding skip_slashes
length-skip_slashes [] = omega arith
length-skip_slashes (c ∷ path) = ground (arith, length-skip_slashes path)

length-element : (path : List ℕ) → length (element path).1 ≤ length path
unfolding element
length-element [] = omega arith
length-element (c ∷ path) = elim (Bool-cases (c == slash)) [
  | inl e ↦ rw e (omega arith)
  | inr e ↦ rw e (omega (arith, length-element path))
]

nonempty-first :
    (c : ℕ) (rest : List ℕ) (parts : List (List ℕ))
    → (c == slash) ≡ false
    → nonempty ((element (c ∷ rest)).0 ∷ parts) ≡ (element (c ∷ rest)).0 ∷ nonempty parts
unfolding element nonempty
nonempty-first c rest parts e = rw e refl

-- The first name of a path, and the path behind it.
skipelem-components :
    (path rest : List ℕ) (c : ℕ)
    → skip_slashes path ≡ c ∷ rest
    → (c == slash) ≡ false
    → (skipelem path
        ≡ some (take dirsiz (element (c ∷ rest)).0, skip_slashes (element (c ∷ rest)).1))
      × (components path
          ≡ take dirsiz (element (c ∷ rest)).0 ∷ components (skip_slashes (element (c ∷ rest)).1))
unfolding skipelem
skipelem-components path rest c at no_slash =
    let name = (element (c ∷ rest)).0 in
    let left = (element (c ∷ rest)).1 in
    (
      rw (at, skipelem) (ap (λ n. some (n, skip_slashes left)) (take_all name)),
      sym (components-skip_slashes path)
          ∙ ap components at
          ∙ ap (λ l. map (take dirsiz) (nonempty l)) (split-element [] (c ∷ rest))
          ∙ ap (map (take dirsiz)) (nonempty-first c rest (behind left) no_slash)
          ∙ ap (λ l. take dirsiz name ∷ map (take dirsiz) l) (nonempty-behind (c ∷ rest))
          ∙ ap (λ l. take dirsiz name ∷ l) (sym (components-skip_slashes left)),
    )

skipelem-none :
    (path : List ℕ) → skip_slashes path ≡ [] → (skipelem path ≡ none) × (components path ≡ [])
unfolding skipelem split_slashes nonempty
skipelem-none path at =
    (rw (at, skipelem) refl, sym (components-skip_slashes path) ∙ ap components at)

element-length :
    (c : ℕ) (rest : List ℕ) → (c == slash) ≡ false → length (element (c ∷ rest)).1 ≤ length rest
unfolding element
element-length c rest no_slash = rw no_slash (length-element rest)

names_end : (fuel : ℕ) (path : List ℕ) → skipelem path ≡ none → path_names (suc fuel) path ≡ some []
unfolding path_names
names_end fuel path e = rw (e, path_names) refl

names_step :
    (fuel : ℕ) (path name rest : List ℕ) (names : List (List ℕ))
    → skipelem path ≡ some (name, rest)
    → path_names fuel rest ≡ some names
    → path_names (suc fuel) path ≡ some (name ∷ names)
unfolding path_names
names_step fuel path name rest names e h = rw (e, path_names) (rw h refl)

-- The names that the loop of `namex` goes through: the parts of the path between its slashes that are
-- not empty, in their order, each cut to `DIRSIZ` bytes; the loop ends within a round for each byte
-- and one.
pub path_names-components :
    (fuel : ℕ) (path : List ℕ) → length path < fuel → path_names fuel path ≡ some (components path)
path_names-components zero path enough = absurd (omega arith)
path_names-components (suc fuel) path enough = elim (skip_slashes-cases path) [
  | inl none_left ↦
      let (stops, no_parts) = skipelem-none path none_left in
      names_end fuel path stops ∙ ap some (sym no_parts)
  | inr (c, rest, at, no_slash, l) ↦
      let (takes, parts) = skipelem-components path rest c at no_slash in
      let left = skip_slashes (element (c ∷ rest)).1 in
      let fewer : length left < fuel =
        omega (arith, length-skip_slashes (element (c ∷ rest)).1, element-length c rest no_slash) in
      let ih = path_names-components fuel left fewer in
      names_step fuel path _ left _ takes ih ∙ ap some (sym parts)
]
