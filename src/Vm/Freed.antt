-- ===== src/Vm/Freed.antt =====
-- A page that is no table is freed: the tables stay as they are.
use operating_systems.Prelude.{
  ℕ, ◌≡◌, ◌≢◌, refl, ap, sym, ◌∙◌, arith, some, Option-cases, inl, inr, ◌==◌, false,
}
use operating_systems.Vm.{Ptes, freed_ptes}
use operating_systems.Vm.Tree.{child, table, below, read, entry, IsTree, IsApart}

module _ (m : Ptes) (root page next : ℕ) (a : IsApart m root page) where
  abbrev freed : Ptes
  freed = freed_ptes page next m

  other_entry : (p i : ℕ) → p ≢ page → freed p i ≡ m p i
  other_entry p i ne = let test : (p == page) ≡ false = ground (arith, ne) in rw test refl

  child-freed : (i : ℕ) → child freed root i ≡ child m root i
  child-freed i = rw (other_entry root i (λ e. a.root_apart (sym e))) refl

  pub table-freed : (i j : ℕ) → table freed root i j ≡ table m root i j
  table-freed i j = ap (below freed j) (child-freed i) ∙ elim (Option-cases (child m root i)) [
    | inl e ↦ rw e refl
    | inr (p, e) ↦
        let same : freed p j ≡ m p j = other_entry p j (λ f. a.middle_apart i (e ∙ ap some f)) in
        rw e (rw same refl)
  ]

  pub entry-freed : (i j k : ℕ) → entry freed root i j k ≡ entry m root i j k
  entry-freed i j k = ap (read freed k) (table-freed i j) ∙ elim (Option-cases (table m root i j)) [
    | inl e ↦ rw e refl
    | inr (q, e) ↦ rw e (other_entry q k (λ f. a.last_apart i j (e ∙ ap some f)))
  ]

  pub freed-IsTree : IsTree m root → IsTree freed root
  freed-IsTree t = record {
    root_middle = λ x p h. t.root_middle x p (sym (child-freed x) ∙ h);
    root_last = λ x y p h. t.root_last x y p (sym (table-freed x y) ∙ h);
    middle = λ x y p h l. t.middle x y p (sym (child-freed x) ∙ h) (sym (child-freed y) ∙ l);
    middle_last =
        λ x y z p h l. t.middle_last x y z p (sym (table-freed x y) ∙ h) (sym (child-freed z) ∙ l);
    last = λ x y x' y' p h l.
        t.last x y x' y' p (sym (table-freed x y) ∙ h) (sym (table-freed x' y') ∙ l);
  }

  pub freed-IsApart : (other : ℕ) → IsApart m root other → IsApart freed root other
  freed-IsApart other b = record {
    root_apart = b.root_apart;
    middle_apart = λ x h. b.middle_apart x (sym (child-freed x) ∙ h);
    last_apart = λ x y h. b.last_apart x y (sym (table-freed x y) ∙ h);
  }
