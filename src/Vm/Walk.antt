-- ===== src/Vm/Walk.antt =====
-- `walk`: where it ends, and that it changes no entry.
use operating_systems.Prelude.{
  ℕ, ◌+◌, ◌<◌, ◌≡◌, ◌≢◌, refl, ap, ◌∙◌, arith, true, false, Option, none, some, ◌==◌, Bool-cases,
  inl, inr, ◌%◌, ◌/◌, ◌*◌, ◌^◌, List, [], ◌∷◌,
}
use operating_systems.Kalloc.{Kmem, kalloc, is_bad, pgsize, phystop}
use operating_systems.Kalloc.Pages.{Holds, Absent, kalloc-Pops}
use operating_systems.Vm.{Ptes, Machine, put, clear, px, is_valid, pte2pa, make_pte, walk_from}
use operating_systems.Vm.Tree.{
  child, below, table, entry, IsTree, IsApart, hung, child-hung, entry-hung, hung-IsTree,
  hung-IsApart, linked, table-linked, entry-linked, linked-IsTree, linked-IsApart,
}

abbrev pub AllApart : Ptes → ℕ → List ℕ → Type 0
AllApart m root [] = Unit
AllApart m root (x ∷ xs) = IsApart m root x × AllApart m root xs

AllApart-map :
    (m m' : Ptes) (root x : ℕ) (xs : List ℕ)
    → ((y : ℕ) → IsApart m root y → y ≢ x → IsApart m' root y)
    → Absent x xs
    → AllApart m root xs
    → AllApart m' root xs
AllApart-map m m' root x [] f b a = tt
AllApart-map m m' root x (y ∷ xs) f b a =
    (f y a.0 (λ e. ground (arith, b.0, e)), AllApart-map m m' root x xs f b.1 a.1)

-- The allocator holds the pages `xs`, the tables below `root` are a tree, and none of the pages is
-- one of them.
pub record IsValid (end root : ℕ) (xs : List ℕ) (s : Machine) : Type 0 where
  pub holds : Holds end s.kmem xs
  pub tree : IsTree s.ptes root
  pub apart : AllApart s.ptes root xs

-- The number that the three indices of an address stand for.
pub record SameEntries (root : ℕ) (s s' : Machine) : Type 0 where
  pub entries : (i j k : ℕ) → entry s'.ptes root i j k ≡ entry s.ptes root i j k
  pub bytes : s'.bytes ≡ s.bytes

pub SameEntries-trans :
    (root : ℕ) (a b c : Machine)
    → SameEntries root a b
    → SameEntries root b c
    → SameEntries root a c
SameEntries-trans root a b c p q = record {
  entries = λ i j k. q.entries i j k ∙ p.entries i j k;
  bytes = q.bytes ∙ p.bytes;
}

pub SameEntries-refl : (root : ℕ) (s : Machine) → SameEntries root s s
SameEntries-refl root s = record { entries = λ i j k. refl; bytes = refl }

-- The entry of a page that a process allocates is valid and points to it.
made_valid :
    (end page : ℕ)
    → is_bad end page ≡ false
    → (is_valid (make_pte page 0) ≡ true) × (pte2pa (make_pte page 0) ≡ page)
made_valid end page good =
    let aligned : page % pgsize ≡ 0 = ground (arith, good) in
    let low : page < phystop = ground (arith, good) in
    let odd : (page / 4096 * 1024 % 2 ^ 64 + 0 + 1) % 2 ≡ 1 = omega arith in
    (ground (arith, odd), omega arith)

-- How a `walk` that may allocate ends.
abbrev pub Ends : ℕ → ℕ → List ℕ → Machine → Option (ℕ × ℕ) → Type 0
Ends root va xs s none = (xs ≡ []) × (table s.ptes root (px 2 va) (px 1 va) ≡ none)
Ends root va xs s (some (q, k)) = (table s.ptes root (px 2 va) (px 1 va) ≡ some q) × (k ≡ px 0 va)

pub record Walked (end root va : ℕ) (s : Machine) (r : Option (ℕ × ℕ) × Machine) : Type 0 where
  pub pages : List ℕ
  pub valid : IsValid end root pages r.1
  pub same : SameEntries root s r.1
  pub ends : Ends root va pages r.1 r.0

module _ (end root va : ℕ) where
  -- The first page of the allocator becomes the last table.
  link_last :
      (p x : ℕ) (xs : List ℕ) (kmem : Kmem) (s : Machine)
      → IsValid end root (x ∷ xs) s
      → Holds end kmem xs
      → child s.ptes root (px 2 va) ≡ some p
      → child s.ptes p (px 1 va) ≡ none
      → Walked end root va s (
        some (x, px 0 va),
        record s { kmem = kmem; ptes = put p (px 1 va) (make_pte x 0) (clear x s.ptes) },
      )
  unfolding linked
  link_last p x xs kmem s v held at missing =
      let (odd, back) = made_valid end x v.holds.pages.0 in
      let m = s.ptes in
      let i = px 2 va in
      let j = px 1 va in
      let pte = make_pte x 0 in
      record {
        pages = xs;
        valid = record {
          holds = held;
          tree = linked-IsTree m root x pte i j p v.tree v.apart.0 odd back at missing;
          apart =
              AllApart-map m _ root x xs
                (linked-IsApart m root x pte i j p v.tree v.apart.0 odd back at missing)
                v.holds.pages.1 v.apart.1;
        };
        same = record {
          entries = entry-linked m root x pte i j p v.tree v.apart.0 odd back at missing;
          bytes = refl;
        };
        ends = (
          table-linked m root x pte i j p v.tree v.apart.0 odd back at missing i j ∙ ground arith,
          refl,
        );
      }

  middle_missing :
      (p : ℕ) (xs : List ℕ) (s : Machine)
      → IsValid end root xs s
      → child s.ptes root (px 2 va) ≡ some p
      → is_valid (s.ptes p (px 1 va)) ≡ false
      → Walked end root va s (walk_from 1 p va true s)
  unfolding walk_from
  middle_missing p [] s v at missing =
      let e : kalloc s.kmem ≡ (0, s.kmem) = kalloc-Pops end s.kmem [] v.holds in
      rw (missing) (
        rw e (record {
          pages = [];
          valid = v;
          same = SameEntries-refl root s;
          ends = (refl, ap (below s.ptes (px 1 va)) at ∙ ground (arith, missing));
        }))
  middle_missing p (x ∷ xs) s v at missing =
      let (e, held) = kalloc-Pops end s.kmem (x ∷ xs) v.holds in
      let busy : ((kalloc s.kmem).0 == 0) ≡ false = ground (arith, e, v.holds.chain.1) in
      rw (missing)
        (rw busy (rw e (link_last p x xs (kalloc s.kmem).1 s v held at (ground (arith, missing)))))

  -- From a table `p` that hangs below the root.
  walk_middle :
      (p : ℕ) (xs : List ℕ) (s : Machine)
      → IsValid end root xs s
      → child s.ptes root (px 2 va) ≡ some p
      → Walked end root va s (walk_from 1 p va true s)
  unfolding walk_from
  walk_middle p xs s v at = elim (Bool-cases (is_valid (s.ptes p (px 1 va)))) [
    | inl there ↦ rw there (record {
      pages = xs;
      valid = v;
      same = SameEntries-refl root s;
      ends = (ap (below s.ptes (px 1 va)) at ∙ ground (arith, there), refl);
    })
    | inr missing ↦ middle_missing p xs s v at missing
  ]

  -- The first page of the allocator becomes the middle table.
  hang_middle :
      (x : ℕ) (xs : List ℕ) (kmem : Kmem) (s : Machine)
      → IsValid end root (x ∷ xs) s
      → Holds end kmem xs
      → child s.ptes root (px 2 va) ≡ none
      → (let s' = record s {
        kmem = kmem;
        ptes = put root (px 2 va) (make_pte x 0) (clear x s.ptes);
      } in
          IsValid end root xs s' × SameEntries root s s' × (child s'.ptes root (px 2 va) ≡ some x))
  unfolding hung
  hang_middle x xs kmem s v held missing =
      let (odd, back) = made_valid end x v.holds.pages.0 in
      let m = s.ptes in
      let i = px 2 va in
      let pte = make_pte x 0 in
      (
        record {
          holds = held;
          tree = hung-IsTree m root x pte i v.tree v.apart.0 odd back missing;
          apart =
              AllApart-map m _ root x xs
                (hung-IsApart m root x pte i v.tree v.apart.0 odd back missing) v.holds.pages.1
                v.apart.1;
        },
        record {
          entries = entry-hung m root x pte i v.tree v.apart.0 odd back missing;
          bytes = refl;
        },
        child-hung m root x pte i v.tree v.apart.0 odd back missing i ∙ ground arith,
      )

  Walked-after :
      (s t : Machine) (r : Option (ℕ × ℕ) × Machine)
      → SameEntries root s t
      → Walked end root va t r
      → Walked end root va s r
  Walked-after s t r q w = record {
    pages = w.pages;
    valid = w.valid;
    same = SameEntries-trans root s t r.1 q w.same;
    ends = w.ends;
  }

  root_missing :
      (xs : List ℕ) (s : Machine)
      → IsValid end root xs s
      → is_valid (s.ptes root (px 2 va)) ≡ false
      → Walked end root va s (walk_from 2 root va true s)
  unfolding walk_from
  root_missing [] s v missing =
      let e : kalloc s.kmem ≡ (0, s.kmem) = kalloc-Pops end s.kmem [] v.holds in
      rw (missing) (
        rw e (record {
          pages = [];
          valid = v;
          same = SameEntries-refl root s;
          ends = (refl, ground (arith, missing));
        }))
  root_missing (x ∷ xs) s v missing =
      let (e, held) = kalloc-Pops end s.kmem (x ∷ xs) v.holds in
      let busy : ((kalloc s.kmem).0 == 0) ≡ false = ground (arith, e, v.holds.chain.1) in
      let (v', q, at) = hang_middle x xs (kalloc s.kmem).1 s v held (ground (arith, missing)) in
      rw (missing) (rw busy (rw e (Walked-after s _ _ q (walk_middle x xs _ v' at))))

  -- A `walk` that may allocate keeps the tables a tree, the pages that it takes apart from those
  -- that are left, and every entry as it was; it ends at the entry of its address, or with no page
  -- left and without the last table.
  pub walk-Walked :
      (xs : List ℕ) (s : Machine)
      → IsValid end root xs s
      → Walked end root va s (walk_from 2 root va true s)
  unfolding walk_from
  walk-Walked xs s v = elim (Bool-cases (is_valid (s.ptes root (px 2 va)))) [
    | inl there ↦
        rw there (walk_middle (pte2pa (s.ptes root (px 2 va))) xs s v (ground (arith, there)))
    | inr missing ↦ root_missing xs s v missing
  ]
