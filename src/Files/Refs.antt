-- ===== src/Files/Refs.antt =====
-- The reference counts against the references that are held.
use operating_systems.Prelude.{
  ℕ, suc, ◌+◌, ◌<◌, ◌≤◌, ◌≡◌, refl, ap, ◌∙◌, arith, true, false, none, some, List, [], ◌∷◌, ◌==◌,
  if◌then◌else◌, add32, sub32, slt32, slt32-of_le, slt32-of_lt, i32_sign, set, get_elem?,
  get_elem?-set, length, Bool-cases, Option-cases, inl, inr,
}
use operating_systems.Files.{File, filealloc, filedup, nothing, closing, fileclose, fd_none}

-- How many of the references in `hs` are to file `i`.
unfoldable pub holders : ℕ → List ℕ → ℕ
holders i [] = 0
holders i (h ∷ hs) = (if h == i then 1 else 0) + holders i hs

-- The references `hs` are all that exist: each file of the table counts its own, and no reference
-- is to a file outside the table.
pub record Counts (hs : List ℕ) (fs : List File) : Type 0 where
  pub refs : (i : ℕ) (f : File) → get_elem? fs i ≡ some f → f.ref ≡ holders i hs
  pub outside : (i : ℕ) → get_elem? fs i ≡ none → holders i hs ≡ 0

holders-le : (i : ℕ) (hs : List ℕ) → holders i hs ≤ length hs
unfolding holders
holders-le i [] = omega arith
holders-le i (h ∷ hs) = ground (arith, holders-le i hs)

filealloc-set :
    (fs gs : List File) (i : ℕ)
    → filealloc fs ≡ some (i, gs)
    → (f : File) × (get_elem? fs i ≡ some f) × (f.ref ≡ 0) × (gs ≡ set fs i (record f { ref = 1 }))
unfolding filealloc
filealloc-set [] gs i h = absurd (ground arith)
filealloc-set (f ∷ fs) gs i h = elim (Bool-cases (f.ref == 0)) [
  | inl free ↦
      let zero_th : i ≡ 0 = ground (arith, h, free) in
      rw zero_th (f, refl, ground (arith, free), ground (arith, h, free))
  | inr busy ↦ elim (Option-cases (filealloc fs)) [
    | inl e ↦ absurd (ground (arith, h, busy, e))
    | inr ((j, ds), e) ↦
        let (g, at, free, same) = filealloc-set fs ds j e in
        let later : i ≡ suc j = ground (arith, h, busy, e) in
        let moved : gs ≡ f ∷ ds = ground (arith, h, busy, e) in
        rw later (g, at, free, moved ∙ ap (λ l. f ∷ l) same)
  ]
]

-- A file that changes its count to that of its references.
Counts-set :
    (hs ks : List ℕ) (fs : List File) (i : ℕ) (f g : File)
    → get_elem? fs i ≡ some f
    → Counts hs fs
    → g.ref ≡ holders i ks
    → ((j : ℕ) → (i == j) ≡ false → holders j ks ≡ holders j hs)
    → Counts ks (set fs i g)
Counts-set hs ks fs i f g at c e others = record {
  refs = λ j x h. ground (arith, get_elem?-set fs i j g at, e, others j, c.refs j x, h);
  outside = λ j h. ground (arith, get_elem?-set fs i j g at, others j, c.outside j, h);
}

holders-other : (i j : ℕ) (hs : List ℕ) → (i == j) ≡ false → holders j (i ∷ hs) ≡ holders j hs
unfolding holders
holders-other i j hs h = ground (arith, h)

holders_self : (i : ℕ) (hs : List ℕ) → holders i (i ∷ hs) ≡ suc (holders i hs)
unfolding holders
holders_self i hs = ground arith

-- With exact counts, the file that `filealloc` returns is one that nobody holds, and with the new
-- reference the counts are exact again.
pub filealloc-Counts :
    (hs : List ℕ) (fs gs : List File) (i : ℕ)
    → Counts hs fs
    → filealloc fs ≡ some (i, gs)
    → (holders i hs ≡ 0) × Counts (i ∷ hs) gs
filealloc-Counts hs fs gs i c h =
    let (f, at, free, same) = filealloc-set fs gs i h in
    let nobody : holders i hs ≡ 0 = omega (arith, c.refs i f at, free) in
    (
      nobody,
      rw same (
          Counts-set hs (i ∷ hs) fs i f (record f { ref = 1 }) at c
            (omega (arith, holders_self i hs, nobody)) (λ j ne. holders-other i j hs ne)),
    )

-- With exact counts and fewer than 2 ^ 31 - 1 references, `filedup` of a file that somebody holds
-- does not panic, and counts the new reference.
pub filedup-Counts :
    (hs : List ℕ) (fs : List File) (i : ℕ)
    → Counts hs fs
    → 0 < holders i hs
    → length hs + 1 < i32_sign
    → (gs : List File) × (filedup i fs ≡ some gs) × Counts (i ∷ hs) gs
unfolding filedup
filedup-Counts hs fs i c held small = elim (Option-cases (get_elem? fs i)) [
  | inl gone ↦ absurd (omega (arith, c.outside i gone))
  | inr (f, at) ↦
      let count = c.refs i f at in
      let bound = holders-le i hs in
      let used : slt32 f.ref 1 ≡ false = slt32-of_le 1 f.ref (omega arith) (omega arith) in
      let more : add32 f.ref 1 ≡ holders i (i ∷ hs) = omega (arith, holders_self i hs) in
      (
        set fs i (record f { ref = add32 f.ref 1 }),
        ground (arith, at, used),
        Counts-set hs (i ∷ hs) fs i f (record f { ref = add32 f.ref 1 }) at c more
            (λ j ne. holders-other i j hs ne),
      )
]

-- With exact counts and fewer than 2 ^ 31 references, `fileclose` of a file that the caller holds
-- does not panic, counts one reference less, and gives the pipe end or the inode back exactly when
-- that was the last one.
pub fileclose-Counts :
    (hs : List ℕ) (fs : List File) (i : ℕ)
    → Counts (i ∷ hs) fs
    → length hs + 1 < i32_sign
    → (f : File) × (gs : List File) × (get_elem? fs i ≡ some f)
      × (fileclose i fs ≡ some (gs, if holders i hs == 0 then closing f else nothing))
      × Counts hs gs
unfolding fileclose closing
fileclose-Counts hs fs i c small = elim (Option-cases (get_elem? fs i)) [
  | inl gone ↦ absurd (omega (arith, c.outside i gone, holders_self i hs))
  | inr (f, at) ↦
      let count : f.ref ≡ suc (holders i hs) = c.refs i f at ∙ holders_self i hs in
      let bound = holders-le i hs in
      let used : slt32 f.ref 1 ≡ false = slt32-of_le 1 f.ref (omega arith) (omega arith) in
      let left : sub32 f.ref 1 ≡ holders i hs = omega arith in
      elim (Bool-cases (holders i hs == 0)) [
        | inl last ↦
            let over : slt32 0 (sub32 f.ref 1) ≡ false =
              slt32-of_le (sub32 f.ref 1) 0 (omega arith) (ground (arith, left, last)) in
            (
              f,
              set fs i (record f { ref = 0; kind = fd_none }),
              at,
              ground (arith, at, used, over, last),
              Counts-set (i ∷ hs) hs fs i f (record f { ref = 0; kind = fd_none }) at c
                  (ground (arith, last)) (λ j ne. ground (arith, holders-other i j hs ne)),
            )
        | inr shared ↦
            let more : slt32 0 (sub32 f.ref 1) ≡ true =
              slt32-of_lt 0 (sub32 f.ref 1) (omega (arith, left)) (ground (arith, left, shared)) in
            (
              f,
              set fs i (record f { ref = sub32 f.ref 1 }),
              at,
              ground (arith, at, used, more, shared),
              Counts-set (i ∷ hs) hs fs i f (record f { ref = sub32 f.ref 1 }) at c left
                  (λ j ne. ground (arith, holders-other i j hs ne)),
            )
      ]
]
