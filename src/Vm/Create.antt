-- ===== src/Vm/Create.antt =====
-- `uvmcreate` makes an empty tree.
use operating_systems.Prelude.{ℕ, ◌≡◌, ◌≢◌, refl, arith, false, none, ◌==◌, List, [], ◌∷◌}
use operating_systems.Kalloc.{kalloc}
use operating_systems.Kalloc.Pages.{Holds, Absent, kalloc-Pops}
use operating_systems.Vm.{Ptes, Machine, clear}
use operating_systems.Vm.Tree.{child, table, IsTree, IsApart}
use operating_systems.Vm.Walk.{AllApart, IsValid}
use operating_systems.Vm.Pages.{uvmcreate}
use operating_systems.Vm.View.{view}

module _ (m : Ptes) (root : ℕ) where
  empty-child : (i : ℕ) → child (clear root m) root i ≡ none
  empty-child i = ground arith

  empty-table : (i j : ℕ) → table (clear root m) root i j ≡ none
  empty-table i j = rw (empty-child i) refl

  empty-IsTree : IsTree (clear root m) root
  empty-IsTree = record {
    root_middle = λ i p h. absurd (ground (arith, h, empty-child i));
    root_last = λ i j q h. absurd (ground (arith, h, empty-table i j));
    middle = λ i i' p h h'. absurd (ground (arith, h, empty-child i));
    middle_last = λ i j i' q h h'. absurd (ground (arith, h, empty-table i j));
    last = λ i j i' j' q h h'. absurd (ground (arith, h, empty-table i j));
  }

  empty-IsApart : (page : ℕ) → page ≢ root → IsApart (clear root m) root page
  empty-IsApart page ne = record {
    root_apart = ne;
    middle_apart = λ i h. ground (arith, h, empty-child i);
    last_apart = λ i j h. ground (arith, h, empty-table i j);
  }

  empty-AllApart : (xs : List ℕ) → Absent root xs → AllApart (clear root m) root xs
  empty-AllApart [] a = tt
  empty-AllApart (x ∷ xs) a = (empty-IsApart x (λ e. ground (arith, a.0, e)), empty-AllApart xs a.1)

-- How `uvmcreate` ends, by the pages that the allocator holds.
abbrev pub Created : ℕ → List ℕ → Machine → ℕ × Machine → Type 0
Created end [] s (root, t) = (root ≡ 0) × (t ≡ s)
Created end (x ∷ xs) s (root, t) =
    (root ≡ x)
    × IsValid end root xs t
    × ((vpn : ℕ) → view t.ptes root vpn ≡ 0)
    × (t.bytes ≡ s.bytes)

-- `uvmcreate` returns 0 and changes nothing when no page is left. Otherwise it returns the first
-- free page, as the root of a tree that maps nothing and that is apart from the pages left.
pub uvmcreate-Created :
    (end : ℕ) (xs : List ℕ) (s : Machine) → Holds end s.kmem xs → Created end xs s (uvmcreate s)
unfolding uvmcreate
uvmcreate-Created end [] s h =
    let e : kalloc s.kmem ≡ (0, s.kmem) = kalloc-Pops end s.kmem [] h in rw e (refl, refl)
uvmcreate-Created end (x ∷ xs) s h =
    let (e, held) = kalloc-Pops end s.kmem (x ∷ xs) h in
    let busy : ((kalloc s.kmem).0 == 0) ≡ false = ground (arith, e, h.chain.1) in
    rw (busy, e)
      (
        refl,
        record {
          holds = held;
          tree = empty-IsTree s.ptes x;
          apart = empty-AllApart s.ptes x xs h.pages.1;
        },
        (λ vpn. rw (empty-table s.ptes x _ _) refl),
        refl,
      )
