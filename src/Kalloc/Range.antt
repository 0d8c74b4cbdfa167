-- ===== src/Kalloc/Range.antt =====
-- `kinit`: which pages the allocator starts with.
use operating_systems.Prelude.{
  ℕ, zero, suc, ◌+◌, ◌-◌, ◌/◌, ◌%◌, ◌≤◌, ◌<◌, ◌≡◌, refl, false, some, leb, List, [], ◌∷◌, length,
  arith, Bool-cases, inl, inr, Option,
}
use operating_systems.Kalloc.{Kmem, free_pages, kinit, pgsize, phystop, page_round_up, is_bad}
use operating_systems.Kalloc.Pages.{Holds, Absent, kfree-Holds}

abbrev Below : ℕ → List ℕ → Type 0
Below p [] = Unit
Below p (x ∷ xs) = (x < p) × Below p xs

Below-mono : (p q : ℕ) (xs : List ℕ) → p ≤ q → Below p xs → Below q xs
Below-mono p q [] h b = tt
Below-mono p q (x ∷ xs) h b = (omega arith, Below-mono p q xs h b.1)

Below-Absent : (p : ℕ) (xs : List ℕ) → Below p xs → Absent p xs
Below-Absent p [] b = tt
Below-Absent p (x ∷ xs) b = (ground arith, Below-Absent p xs b.1)

-- How the allocator stands after `n` more pages.
abbrev Grown : ℕ → ℕ → Option Kmem → Type 0
Grown end n o = (k : Kmem) × (xs : List ℕ) × (o ≡ some k) × Holds end k xs × (length xs ≡ n)

free_pages-grows :
    (end fuel p pa_end : ℕ) (k : Kmem) (xs : List ℕ)
    → 0 < end
    → end ≤ p
    → p % pgsize ≡ 0
    → pa_end ≤ phystop
    → Holds end k xs
    → Below p xs
    → (pa_end - p) / pgsize < fuel
    → Grown end (length xs + (pa_end - p) / pgsize) (free_pages end fuel p pa_end k)
unfolding free_pages
free_pages-grows end zero p pa_end k xs pos low al top v b f = absurd (omega arith)
free_pages-grows end (suc fuel) p pa_end k xs pos low al top v b f =
    elim (Bool-cases (leb (p + pgsize) pa_end)) [
      | inr stop ↦
          let small : pa_end < p + pgsize = ground (arith, stop) in
          rw (stop, free_pages) (k, xs, refl, v, omega arith)
      | inl more ↦
          let room : p + pgsize ≤ pa_end = ground (arith, more) in
          let good : is_bad end p ≡ false = ground (arith, room, al) in
          let (k1, e, v1) = kfree-Holds end k xs p pos v good (Below-Absent p xs b) in
          let (k2, ys, done, v2, n) =
            free_pages-grows end fuel (p + pgsize) pa_end k1 (p ∷ xs) pos (omega arith)
              (omega arith) top v1 (omega arith, Below-mono p (p + pgsize) xs (omega arith) b)
              (omega arith) in
          (k2, ys, rw (more, e, free_pages) done, v2, omega arith)
    ]

-- With `end` inside the memory and fuel for every page, `kinit` ends without a panic, and the
-- allocator then holds every whole page from `end` rounded up to `PHYSTOP`.
pub kinit_lem :
    (end fuel : ℕ) (memory : ℕ → ℕ)
    → 0 < end
    → end ≤ phystop
    → phystop / pgsize < fuel
    → (k : Kmem) × (xs : List ℕ) × (kinit end fuel memory ≡ some k)
      × Holds end k xs
      × (length xs ≡ (phystop - page_round_up end) / pgsize)
unfolding kinit
kinit_lem end fuel memory pos top f =
    let (k, xs, e, v, n) =
      free_pages-grows end fuel (page_round_up end) phystop (record { freelist = 0; next = memory })
        [] pos (omega arith) (omega arith) (omega arith) (record { chain = refl; pages = tt }) tt
        (omega arith) in
    (k, xs, e, v, omega arith)
