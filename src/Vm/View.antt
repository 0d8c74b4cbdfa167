-- ===== src/Vm/View.antt =====
-- The abstract view of a page table, a map from page numbers to entries, and how one round of the
-- loops of `mappages` and `uvmunmap` changes it.
use operating_systems.Prelude.{
  ℕ, ◌<◌, ◌≡◌, refl, ap, sym, ◌∙◌, arith, true, false, ◌&&◌, Option, none, some, ◌==◌, ltb, leb,
  if◌then◌else◌, Bool-cases, Option-cases, inl, inr, ◌%◌, ◌/◌, ◌^◌, List, [], ◌∷◌,
}
use operating_systems.Kalloc.{pgsize}
use operating_systems.Vm.{
  Ptes, Machine, put, px, maxva, is_valid, is_user, pte2pa, make_pte, walk_from, walkaddr,
}
use operating_systems.Vm.Tree.{
  table, read, entry, IsTree, IsApart, entry-written, written, written-IsTree, written-IsApart,
}
use operating_systems.Vm.Walk.{AllApart, IsValid, SameEntries, Ends, walk-Walked}
use operating_systems.Vm.Pages.{Round, goes_on, returns, stops, enter, map_one}

-- The entry of a page number.
abbrev pub view : Ptes → ℕ → ℕ → ℕ
view m root vpn = entry m root (vpn / 2 ^ 18 % 512) (vpn / 2 ^ 9 % 512) (vpn % 512)

-- The entry of an address.
abbrev pub entry_of : Ptes → ℕ → ℕ → ℕ
entry_of m root va = entry m root (px 2 va) (px 1 va) (px 0 va)

pub entry_of-eq-view : (m : Ptes) (root va : ℕ) → entry_of m root va ≡ view m root (va / pgsize)
entry_of-eq-view m root va =
    let i : va / 2 ^ 30 % 512 ≡ va / pgsize / 2 ^ 18 % 512 = omega arith in
    let j : va / 2 ^ 21 % 512 ≡ va / pgsize / 2 ^ 9 % 512 = omega arith in rw (i, j) refl

-- Two page numbers have the same indices only if they are equal.
indices_eq :
    (a vpn : ℕ)
    → a < maxva
    → vpn < 2 ^ 26
    → (px 2 a == vpn / 2 ^ 18 % 512 && (px 1 a == vpn / 2 ^ 9 % 512 && px 0 a == vpn % 512))
      ≡ (a / pgsize == vpn)
indices_eq a vpn h k = ground arith

unfoldable pub slot_of : Ptes → ℕ → ℕ → Option ℕ → Option (ℕ × ℕ)
slot_of m root va none = none
slot_of m root va (some q) = some (q, px 0 va)

-- A `walk` that may not allocate only reads.
pub walk-reads :
    (root va : ℕ) (s : Machine)
    → walk_from 2 root va false s
      ≡ (slot_of s.ptes root va (table s.ptes root (px 2 va) (px 1 va)), s)
unfolding walk_from slot_of
walk-reads root va s = ground arith

-- What a round of `mappages` that enters `pte` for the page of `a` does to the view.
abbrev pub MapsOne : ℕ → ℕ → ℕ → ℕ → Machine → Round → Type 0
MapsOne end root a pte s stops = is_valid (view s.ptes root (a / pgsize)) ≡ true
MapsOne end root a pte s (returns t) = IsValid end root [] t × SameEntries root s t
MapsOne end root a pte s (goes_on t) =
    (ys : List ℕ) × IsValid end root ys t
    × (is_valid (view s.ptes root (a / pgsize)) ≡ false)
    × ((vpn : ℕ)
        → vpn < 2 ^ 26
        → view t.ptes root vpn ≡ (if a / pgsize == vpn then pte else view s.ptes root vpn))
    × (t.bytes ≡ s.bytes)

AllApart-written :
    (m : Ptes) (root pte i j k q : ℕ) (t : IsTree m root) (at : table m root i j ≡ some q)
    (xs : List ℕ)
    → AllApart m root xs
    → AllApart (written m root pte i j k q t at) root xs
AllApart-written m root pte i j k q t at [] a = tt
AllApart-written m root pte i j k q t at (x ∷ xs) a =
    (written-IsApart m root pte i j k q t at x a.0, AllApart-written m root pte i j k q t at xs a.1)

-- A write to the entry that a walk of `a` has found.
module _ (root a pte q : ℕ) (s : Machine) (t : IsTree s.ptes root)
    (at : table s.ptes root (px 2 a) (px 1 a) ≡ some q) where
  pub entered-IsTree : IsTree (put q (px 0 a) pte s.ptes) root
  unfolding written
  entered-IsTree = written-IsTree s.ptes root pte (px 2 a) (px 1 a) (px 0 a) q t at

  pub entered-IsApart :
      (other : ℕ) → IsApart s.ptes root other → IsApart (put q (px 0 a) pte s.ptes) root other
  unfolding written
  entered-IsApart = written-IsApart s.ptes root pte (px 2 a) (px 1 a) (px 0 a) q t at

  pub view-entered :
      a < maxva
      → (vpn : ℕ) → vpn < 2 ^ 26
      → view (put q (px 0 a) pte s.ptes) root vpn
        ≡ (if a / pgsize == vpn then pte else view s.ptes root vpn)
  unfolding written
  view-entered small vpn h =
      entry-written s.ptes root pte (px 2 a) (px 1 a) (px 0 a) q t at (vpn / 2 ^ 18 % 512)
        (vpn / 2 ^ 9 % 512) (vpn % 512)
      ∙ ap (λ b. if b then pte else view s.ptes root vpn) (indices_eq a vpn small h)

pub found_entry :
    (root a q : ℕ) (s : Machine)
    → table s.ptes root (px 2 a) (px 1 a) ≡ some q
    → view s.ptes root (a / pgsize) ≡ s.ptes q (px 0 a)
found_entry root a q s at = sym (entry_of-eq-view s.ptes root a) ∙ ap (read s.ptes (px 0 a)) at

pub missing_entry :
    (root a : ℕ) (s : Machine)
    → table s.ptes root (px 2 a) (px 1 a) ≡ none
    → view s.ptes root (a / pgsize) ≡ 0
missing_entry root a s gone = sym (entry_of-eq-view s.ptes root a) ∙ ap (read s.ptes (px 0 a)) gone

-- `walkaddr` reads the abstract view: below `MAXVA`, an entry that is valid and the user's yields
-- the address that it points to, and everything else 0.
pub walkaddr-view :
    (root va : ℕ) (s : Machine)
    → walkaddr root va s ≡ (
        let pte = view s.ptes root (va / pgsize) in
        if ltb va maxva && (is_valid pte && is_user pte) then pte2pa pte else 0)
unfolding walkaddr slot_of
walkaddr-view root va s =
    rw (walk-reads root va s) (elim (Option-cases (table s.ptes root (px 2 va) (px 1 va))) [
      | inl gone ↦ rw (gone, missing_entry root va s gone) (ground arith)
      | inr (q, at) ↦ rw (at, found_entry root va q s at) (ground arith)
    ])

entered-IsValid :
    (end root a pte q : ℕ) (xs : List ℕ) (s : Machine) (v : IsValid end root xs s)
    → table s.ptes root (px 2 a) (px 1 a) ≡ some q
    → IsValid end root xs (record s { ptes = put q (px 0 a) pte s.ptes })
unfolding written
entered-IsValid end root a pte q xs s v at = record {
  holds = v.holds;
  tree = entered-IsTree root a pte q s v.tree at;
  apart = AllApart-written s.ptes root pte (px 2 a) (px 1 a) (px 0 a) q v.tree at xs v.apart;
}

enter-MapsOne :
    (end root a pte : ℕ) (s s1 : Machine) (ys : List ℕ) (slot : Option (ℕ × ℕ))
    → a < maxva
    → IsValid end root ys s1
    → SameEntries root s s1
    → Ends root a ys s1 slot
    → MapsOne end root a pte s (enter pte slot s1)
enter-MapsOne end root a pte s s1 ys none small v same e = (rw (← e.0) v, same)
enter-MapsOne end root a pte s s1 ys (some (q, k)) small v same e =
    let before : view s.ptes root (a / pgsize) ≡ s1.ptes q k =
      sym (same.entries _ _ _) ∙ found_entry root a q s1 e.0 ∙ ap (s1.ptes q) (sym e.1) in
    elim (Bool-cases (is_valid (s1.ptes q k))) [
      | inl mapped ↦ rw mapped (ap is_valid before ∙ mapped)
      | inr free ↦ rw free (
        ys,
        rw e.1 (entered-IsValid end root a pte q ys s1 v e.0),
        ap is_valid before ∙ free,
        rw e.1 (λ vpn h.
            view-entered root a pte q s1 v.tree e.0 small vpn h
            ∙ ap (λ x. if a / pgsize == vpn then pte else x) (same.entries _ _ _)),
        same.bytes,
      )
    ]

-- A round of `mappages` below `MAXVA`: it panics exactly at a page that is mapped, it returns only
-- when no page is left, and otherwise it changes the page's entry and no other.
pub map_one-MapsOne :
    (end root a pa perm : ℕ) (xs : List ℕ) (s : Machine)
    → a < maxva
    → IsValid end root xs s
    → MapsOne end root a (make_pte pa perm) s (map_one root a pa perm s)
unfolding map_one
map_one-MapsOne end root a pa perm xs s small v =
    let w = walk-Walked end root a xs s v in
    let low : leb maxva a ≡ false = ground arith in
    rw low (enter-MapsOne end root a (make_pte pa perm) s _ w.pages _ small w.valid w.same w.ends)
