-- ===== src/Kalloc/Tests.antt =====
-- The allocator on the last pages below `PHYSTOP`.
use operating_systems.Prelude.{
  ℕ, ◌-◌, ◌*◌, ◌/◌, ◌≡◌, refl, arith, List, [], ◌∷◌, some, none, length,
}
use operating_systems.Kalloc.{Kmem, pgsize, phystop, page_round_up, kfree, kalloc, kinit, freemem}
use operating_systems.Kalloc.Pages.{Holds, kalloc-kfree, freemem_lem}
use operating_systems.Kalloc.Range.{kinit_lem}

-- The kernel ends below the last three pages.
abbrev end : ℕ
end = phystop - 3 * pgsize

abbrev last_page : ℕ
last_page = phystop - pgsize

abbrev holding_one : Kmem
holding_one = record { freelist = last_page; next = λ p. 0 }

holding_one-Holds : Holds end holding_one (last_page ∷ [])
holding_one-Holds = record {
  chain = (refl, (λ e. absurd (omega arith)), refl);
  pages = (refl, tt, tt);
}

abbrev freed : Kmem
freed = elim (kfree end end holding_one) [ none ↦ holding_one | some k ↦ k ]

frees : kfree end end holding_one ≡ some freed
unfolding kfree
frees = refl

kalloc-kfree_example : ((kalloc freed).0 ≡ end) × Holds end (kalloc freed).1 (last_page ∷ [])
kalloc-kfree_example =
    kalloc-kfree end holding_one freed (last_page ∷ []) end (omega arith) holding_one-Holds
      (refl, tt) frees

freemem_example : freemem 2 holding_one ≡ some (1 * pgsize)
freemem_example =
    freemem_lem end 2 holding_one (last_page ∷ []) holding_one-Holds (omega arith) (omega arith)

kinit_example :
    (k : Kmem) × (xs : List ℕ) × (kinit end 600000 (λ p. 0) ≡ some k)
    × Holds end k xs
    × (length xs ≡ (phystop - page_round_up end) / pgsize)
kinit_example = kinit_lem end 600000 (λ p. 0) (omega arith) (omega arith) (omega arith)
