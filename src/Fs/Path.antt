-- ===== src/Fs/Path.antt =====
-- kernel/fs.c: `skipelem`. A path is the list of its bytes before the 0.
use operating_systems.Prelude.{
  ℕ, zero, suc, Option, none, some, ◌==◌, ltb, if◌then◌else◌, List, [], ◌∷◌, take, length,
}

-- `'/'` and `DIRSIZ`
abbrev pub slash : ℕ
slash = 47

abbrev pub dirsiz : ℕ
dirsiz = 14

-- `while(*path == '/') path++;`
unfoldable pub skip_slashes : List ℕ → List ℕ
skip_slashes [] = []
skip_slashes (c ∷ path) = let rest = skip_slashes path in if c == slash then rest else c ∷ path

-- `while(*path != '/' && *path != 0) path++;`: the bytes passed, and the path behind them.
unfoldable pub element : List ℕ → List ℕ × List ℕ
element [] = ([], [])
element (c ∷ path) =
    let (s, rest) = element path in if c == slash then ([], c ∷ path) else (c ∷ s, rest)

-- `skipelem`: the bytes of `name` before its end, of at most `DIRSIZ`, and the path that is returned.
unfoldable pub skipelem : List ℕ → Option (List ℕ × List ℕ)
skipelem path = elim (skip_slashes path) [
  | [] ↦ none
  | c ∷ rest ↦
      let (s, behind) = element (c ∷ rest) in
      some (if ltb (length s) dirsiz then s else take dirsiz s, skip_slashes behind)
]

-- The names of the loop of `namex`, one after the other, on fuel.
unfoldable pub path_names : ℕ → List ℕ → Option (List (List ℕ))
path_names zero path = none
path_names (suc fuel) path = elim (skipelem path) [
  | none ↦ some []
  | some (name, rest) ↦ elim (path_names fuel rest) [
    | none ↦ none
    | some names ↦ some (name ∷ names)
  ]
]
