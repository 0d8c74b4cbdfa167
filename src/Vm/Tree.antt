-- ===== src/Vm/Tree.antt =====
-- The tables that hang below a root, and what a write to one of them changes.
use operating_systems.Prelude.{
  ℕ, ◌≡◌, ◌≢◌, refl, ap, sym, ◌∙◌, arith, true, ◌&&◌, Option, none, some, ◌==◌, if◌then◌else◌,
  Bool-cases, Option-cases, inl, inr,
}
use operating_systems.Vm.{Ptes, put, clear, is_valid, pte2pa}

-- The table that an entry points to.
abbrev pub child : Ptes → ℕ → ℕ → Option ℕ
child m p i = if is_valid (m p i) then some (pte2pa (m p i)) else none

abbrev pub below : Ptes → ℕ → Option ℕ → Option ℕ
below m j none = none
below m j (some p) = child m p j

-- The last table on the way to the entry with the indices `i`, `j` and `k`.
abbrev pub table : Ptes → ℕ → ℕ → ℕ → Option ℕ
table m root i j = below m j (child m root i)

abbrev pub read : Ptes → ℕ → Option ℕ → ℕ
read m k none = 0
read m k (some q) = m q k

-- The entry with these indices, 0 where a table on the way is missing.
abbrev pub entry : Ptes → ℕ → ℕ → ℕ → ℕ → ℕ
entry m root i j k = read m k (table m root i j)

-- No table below the root stands in two places.
pub record IsTree (m : Ptes) (root : ℕ) : Type 0 where
  pub root_middle : (i p : ℕ) → child m root i ≡ some p → p ≢ root
  pub root_last : (i j q : ℕ) → table m root i j ≡ some q → q ≢ root
  pub middle : (i i' p : ℕ) → child m root i ≡ some p → child m root i' ≡ some p → i ≡ i'
  pub middle_last : (i j i' q : ℕ) → table m root i j ≡ some q → child m root i' ≢ some q
  pub last :
      (i j i' j' q : ℕ)
      → table m root i j ≡ some q
      → table m root i' j' ≡ some q
      → (i ≡ i') × (j ≡ j')

-- A page that is no table below the root.
pub record IsApart (m : Ptes) (root page : ℕ) : Type 0 where
  pub root_apart : page ≢ root
  pub middle_apart : (i : ℕ) → child m root i ≢ some page
  pub last_apart : (i j : ℕ) → table m root i j ≢ some page

module _ (m : Ptes) (root page : ℕ) (a : IsApart m root page) where
  pub child-clear : (i : ℕ) → child (clear page m) root i ≡ child m root i
  child-clear i = ground (arith, a.root_apart)

  pub table-clear : (i j : ℕ) → table (clear page m) root i j ≡ table m root i j
  table-clear i j = elim (Option-cases (child m root i)) [
    | inl e ↦ rw (child-clear i) (rw e refl)
    | inr (p, e) ↦ rw (child-clear i) (rw e (ground (arith, a.middle_apart i, e)))
  ]

  pub entry-clear : (i j k : ℕ) → entry (clear page m) root i j k ≡ entry m root i j k
  entry-clear i j k = elim (Option-cases (table m root i j)) [
    | inl e ↦ rw (table-clear i j) (rw e refl)
    | inr (q, e) ↦ rw (table-clear i j) (rw e (ground (arith, a.last_apart i j, e)))
  ]

-- A fresh page, cleared and hung below the root at index `i`.
module _ (m : Ptes) (root page pte i : ℕ) (t : IsTree m root) (a : IsApart m root page)
    (valid : is_valid pte ≡ true) (there : pte2pa pte ≡ page)
    (missing : child m root i ≡ none) where
  unfoldable pub hung : Ptes
  hung = put root i pte (clear page m)

  pub child-hung : (i' : ℕ) → child hung root i' ≡ (if i == i' then some page else child m root i')
  unfolding hung
  child-hung i' = ground (arith, a.root_apart, valid, there)

  child-hung-page : (j : ℕ) → child hung page j ≡ none
  unfolding hung
  child-hung-page j = ground (arith, a.root_apart)

  child-hung_other : (p j : ℕ) → p ≢ root → p ≢ page → child hung p j ≡ child m p j
  unfolding hung
  child-hung_other p j ne nf = ground (arith, ne, nf)

  pub table-hung : (i' j : ℕ) → table hung root i' j ≡ table m root i' j
  table-hung i' j = elim (Bool-cases (i == i')) [
    | inl e ↦
        let same : i ≡ i' = ground (arith, e) in
        let here : child hung root i' ≡ some page = child-hung i' ∙ ground (arith, e) in
        ap (below hung j) here
        ∙ child-hung-page j
        ∙ sym (ap (below m j) (ap (child m root) (sym same) ∙ missing))
    | inr ne ↦
        let kept : child hung root i' ≡ child m root i' = child-hung i' ∙ ground (arith, ne) in
        ap (below hung j) kept ∙ elim (Option-cases (child m root i')) [
          | inl e ↦ rw e refl
          | inr (p, e) ↦
              rw e (
                child-hung_other p j (t.root_middle i' p e)
                  (λ f. a.middle_apart i' (e ∙ ap some f)))
        ]
  ]

  pub entry-hung : (i' j k : ℕ) → entry hung root i' j k ≡ entry m root i' j k
  unfolding hung
  entry-hung i' j k = elim (Option-cases (table m root i' j)) [
    | inl e ↦ rw (table-hung i' j) (rw e refl)
    | inr (q, e) ↦
        rw (table-hung i' j) (rw e (ground (arith, a.last_apart i' j, t.root_last i' j q e, e)))
  ]

  pub hung-IsTree : IsTree hung root
  hung-IsTree = record {
    root_middle = λ x p h. ground (arith, a.root_apart, child-hung x, t.root_middle x p, h);
    root_last = λ x y q h. t.root_last x y q (sym (table-hung x y) ∙ h);
    middle = λ x y p h l. ground (
      arith,
      child-hung x,
      child-hung y,
      h,
      l,
      a.middle_apart x,
      a.middle_apart y,
      t.middle x y p,
    );
    middle_last = λ x y z q h l.
        ground (arith, child-hung z, table-hung x y, h, l, a.last_apart x y, t.middle_last x y z q);
    last = λ x y x' y' q h l.
        t.last x y x' y' q (sym (table-hung x y) ∙ h) (sym (table-hung x' y') ∙ l);
  }

  pub hung-IsApart : (other : ℕ) → IsApart m root other → other ≢ page → IsApart hung root other
  hung-IsApart other b ne = record {
    root_apart = b.root_apart;
    middle_apart = λ x h. ground (arith, child-hung x, b.middle_apart x, ne, h);
    last_apart = λ x y h. b.last_apart x y (sym (table-hung x y) ∙ h);
  }

-- A fresh page, cleared and hung below the table `p` at index `j`, where `p` hangs below the root
-- at index `i`.
module _ (m : Ptes) (root page pte i j p : ℕ) (t : IsTree m root) (a : IsApart m root page)
    (valid : is_valid pte ≡ true) (there : pte2pa pte ≡ page) (middle : child m root i ≡ some p)
    (missing : child m p j ≡ none) where
  unfoldable pub linked : Ptes
  linked = put p j pte (clear page m)

  pub child-linked : (x : ℕ) → child linked root x ≡ child m root x
  unfolding linked
  child-linked x = ground (arith, a.root_apart, t.root_middle i p middle)

  child-linked_at :
      (q y : ℕ)
      → q ≢ page
      → child linked q y ≡ (if p == q && j == y then some page else child m q y)
  unfolding linked
  child-linked_at q y ne = ground (arith, ne, valid, there)

  pub table-linked :
      (x y : ℕ) → table linked root x y ≡ (if i == x && j == y then some page else table m root x y)
  table-linked x y = ap (below linked y) (child-linked x) ∙ elim (Option-cases (child m root x)) [
    | inl e ↦ rw e (ground (arith, e, middle))
    | inr (q, e) ↦
        let other : q ≢ page = λ f. a.middle_apart x (e ∙ ap some f) in
        rw e (child-linked_at q y other ∙ ground (arith, e, middle, t.middle i x p middle))
  ]

  pub entry-linked : (x y k : ℕ) → entry linked root x y k ≡ entry m root x y k
  unfolding linked
  entry-linked x y k =
      ap (read linked k) (table-linked x y) ∙ elim (Bool-cases (i == x && j == y)) [
        | inl e ↦
            let i_is : i ≡ x = ground (arith, e) in
            let j_is : j ≡ y = ground (arith, e) in
            let gone : table m root x y ≡ none =
              ap (λ z. table m root z y) (sym i_is)
              ∙ ap (below m y) middle
              ∙ ap (child m p) (sym j_is)
              ∙ missing in
            let own : p ≢ page = λ f. a.middle_apart i (middle ∙ ap some f) in
            rw (e, gone) (ground (arith, own))
        | inr e ↦ rw e (elim (Option-cases (table m root x y)) [
          | inl none_there ↦ rw none_there refl
          | inr (q, found) ↦
              rw found
                (ground (arith, found, a.last_apart x y, t.middle_last x y i q found, middle))
        ])
      ]

  pub linked-IsTree : IsTree linked root
  linked-IsTree = record {
    root_middle = λ x q h. t.root_middle x q (sym (child-linked x) ∙ h);
    root_last = λ x y q h. ground (arith, a.root_apart, table-linked x y, t.root_last x y q, h);
    middle = λ x y q h l. t.middle x y q (sym (child-linked x) ∙ h) (sym (child-linked y) ∙ l);
    middle_last = λ x y z q h l.
        ground
          (arith, child-linked z, table-linked x y, h, l, a.middle_apart z, t.middle_last x y z q);
    last = λ x y x' y' q h l. ground (
      arith,
      table-linked x y,
      table-linked x' y',
      h,
      l,
      a.last_apart x y,
      a.last_apart x' y',
      t.last x y x' y' q,
    );
  }

  pub linked-IsApart : (other : ℕ) → IsApart m root other → other ≢ page → IsApart linked root other
  linked-IsApart other b ne = record {
    root_apart = b.root_apart;
    middle_apart = λ x h. b.middle_apart x (sym (child-linked x) ∙ h);
    last_apart = λ x y h. ground (arith, table-linked x y, b.last_apart x y, ne, h);
  }

-- A write to an entry of a last table, which no walk goes through.
module _ (m : Ptes) (root pte i j k q : ℕ) (t : IsTree m root)
    (at : table m root i j ≡ some q) where
  unfoldable pub written : Ptes
  written = put q k pte m

  pub child-written : (x : ℕ) → child written root x ≡ child m root x
  unfolding written
  child-written x = ground (arith, t.root_last i j q at)

  pub table-written : (x y : ℕ) → table written root x y ≡ table m root x y
  unfolding written
  table-written x y =
      ap (below written y) (child-written x) ∙ elim (Option-cases (child m root x)) [
        | inl e ↦ rw e refl
        | inr (p, e) ↦ rw e (ground (arith, t.middle_last i j x q at, e))
      ]

  pub entry-written :
      (x y z : ℕ)
      → entry written root x y z
        ≡ (if i == x && (j == y && k == z) then pte else entry m root x y z)
  unfolding written
  entry-written x y z =
      ap (read written z) (table-written x y) ∙ elim (Option-cases (table m root x y)) [
        | inl e ↦ rw e (ground (arith, e, at))
        | inr (p, e) ↦ rw e (ground (arith, e, at, t.last i j x y q at))
      ]

  pub written-IsTree : IsTree written root
  written-IsTree = record {
    root_middle = λ x p h. t.root_middle x p (sym (child-written x) ∙ h);
    root_last = λ x y p h. t.root_last x y p (sym (table-written x y) ∙ h);
    middle = λ x y p h l. t.middle x y p (sym (child-written x) ∙ h) (sym (child-written y) ∙ l);
    middle_last = λ x y z p h l.
        t.middle_last x y z p (sym (table-written x y) ∙ h) (sym (child-written z) ∙ l);
    last = λ x y x' y' p h l.
        t.last x y x' y' p (sym (table-written x y) ∙ h) (sym (table-written x' y') ∙ l);
  }

  pub written-IsApart : (other : ℕ) → IsApart m root other → IsApart written root other
  written-IsApart other b = record {
    root_apart = b.root_apart;
    middle_apart = λ x h. b.middle_apart x (sym (child-written x) ∙ h);
    last_apart = λ x y h. b.last_apart x y (sym (table-written x y) ∙ h);
  }
