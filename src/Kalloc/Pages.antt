-- ===== src/Kalloc/Pages.antt =====
-- The free list as a list of pages: what `kalloc`, `kfree` and `freemem` do to it.
use mathlib.Core.Path.{subst}
use operating_systems.Prelude.{
  ℕ, zero, suc, ◌+◌, ◌*◌, ◌<◌, ◌≡◌, ◌≢◌, refl, ap, sym, ◌∙◌, true, false, none, some, u32_mod,
  add32, ◌==◌, List, [], ◌∷◌, length, arith, ◌↔◌, ◌^◌, Bool-cases, inl, inr,
}
use operating_systems.Kalloc.{
  Kmem, update, is_bad, kfree, kalloc, count_free, freemem, pgsize, allocated_junk, freed_junk,
}

-- The pages of a free list, from `r` on.
abbrev pub Chain : (ℕ → ℕ) → ℕ → List ℕ → Type 0
Chain next r [] = r ≡ 0
Chain next r (x ∷ xs) = (r ≡ x) × (x ≢ 0) × Chain next (next x) xs

abbrev pub Absent : ℕ → List ℕ → Type 0
Absent x [] = Unit
Absent x (y ∷ ys) = ((x == y) ≡ false) × Absent x ys

-- Every entry is a whole page between `end` and `PHYSTOP`, and none stands twice.
abbrev pub ArePages : ℕ → List ℕ → Type 0
ArePages end [] = Unit
ArePages end (x ∷ xs) = (is_bad end x ≡ false) × Absent x xs × ArePages end xs

-- The allocator holds exactly the pages `xs`, the next one to hand out first.
pub record Holds (end : ℕ) (k : Kmem) (xs : List ℕ) : Type 0 where
  pub chain : Chain k.next k.freelist xs
  pub pages : ArePages end xs

Chain-update :
    (next : ℕ → ℕ) (p v r : ℕ) (xs : List ℕ)
    → Absent p xs
    → Chain next r xs
    → Chain (update next p v) r xs
Chain-update next p v r [] a c = c
Chain-update next p v r (x ∷ xs) a c =
    (c.0, c.1, rw a.0 (Chain-update next p v (next x) xs a.1 c.2))

update_self : (f : ℕ → ℕ) (p v : ℕ) → update f p v p ≡ v
update_self f p v = ground arith

-- The result of `kalloc` on an allocator that holds the given pages.
abbrev pub Pops : ℕ → Kmem → List ℕ → ℕ × Kmem → Type 0
Pops end k [] r = r ≡ (0, k)
Pops end k (x ∷ xs) r = (r.0 ≡ x) × Holds end r.1 xs

module _ (end : ℕ) where
  -- `kalloc` on an allocator with pages left hands out the first and keeps the others; with none
  -- left it returns 0 and changes nothing.
  pub kalloc-Pops : (k : Kmem) (xs : List ℕ) → Holds end k xs → Pops end k xs (kalloc k)
  unfolding kalloc
  kalloc-Pops k [] v = ground arith
  kalloc-Pops k (x ∷ xs) v =
      let (e, ne, rest) = v.chain in
      let busy : (k.freelist == 0) ≡ false = ground (arith, e, ne) in
      rw busy (
        e,
        record {
          chain = rw e (Chain-update k.next x allocated_junk (k.next x) xs v.pages.1 rest);
          pages = v.pages.2;
        },
      )

  -- `kfree` of a page that the allocator does not hold, inside the memory it manages, puts that
  -- page first.
  pub kfree-Holds :
      (k : Kmem) (xs : List ℕ) (x : ℕ)
      → 0 < end
      → Holds end k xs
      → is_bad end x ≡ false
      → Absent x xs
      → (k' : Kmem) × (kfree end x k ≡ some k') × Holds end k' (x ∷ xs)
  unfolding kfree
  kfree-Holds k xs x pos v good absent = (
    record { freelist = x; next = update (update k.next x freed_junk) x k.freelist },
    rw good refl,
    record {
      chain = (
        refl,
        ground (arith, good),
        subst (λ r. Chain (update (update k.next x freed_junk) x k.freelist) r xs)
            (sym (update_self (update k.next x freed_junk) x k.freelist))
            (Chain-update _ x k.freelist k.freelist xs absent
              (Chain-update k.next x freed_junk k.freelist xs absent v.chain)),
      );
      pages = (good, absent, v.pages);
    },
  )

  -- A page outside the managed memory, or not at a page's start, makes `kfree` panic.
  pub kfree-eq-none_iff : (x : ℕ) (k : Kmem) → (kfree end x k ≡ none) ↔ (is_bad end x ≡ true)
  unfolding kfree
  kfree-eq-none_iff x k = ground arith

  -- After a `kfree` that does not panic, of a page that the allocator does not hold, `kalloc` gives
  -- that page back, and the allocator holds the pages that it held before. The kernel's `end` is not
  -- 0.
  pub kalloc-kfree :
      (k k' : Kmem) (xs : List ℕ) (x : ℕ)
      → 0 < end
      → Holds end k xs
      → Absent x xs
      → kfree end x k ≡ some k'
      → ((kalloc k').0 ≡ x) × Holds end (kalloc k').1 xs
  kalloc-kfree k k' xs x pos v absent h =
      let good : is_bad end x ≡ false = elim (Bool-cases (is_bad end x)) [
        | inl bad ↦ absurd (cc (h, (kfree-eq-none_iff x k).1 bad))
        | inr good ↦ good
      ] in
      let (k1, e, held) = kfree-Holds k xs x pos v good absent in
      let same : k' ≡ k1 = cc in rw same (kalloc-Pops k1 (x ∷ xs) held)

count_free_lem :
    (next : ℕ → ℕ) (xs : List ℕ) (fuel r n : ℕ)
    → Chain next r xs
    → length xs < fuel
    → n + length xs < u32_mod
    → count_free fuel next r n ≡ some (n + length xs)
unfolding count_free
count_free_lem next xs zero r n c h b = absurd (omega arith)
count_free_lem next [] (suc fuel) r n c h b = ground arith
count_free_lem next (x ∷ xs) (suc fuel) r n (e, ne, c) h b =
    let busy : (r == 0) ≡ false = ground (arith, e, ne) in
    let rest = count_free_lem next xs fuel (next x) (add32 n 1) c (omega arith) (omega arith) in
    rw (busy, count_free) (rw e (rest ∙ ap some (omega arith)))

-- `freemem` returns the bytes of the pages that the allocator holds, for fewer than 2 ^ 20 pages and
-- with fuel for one more than them.
pub freemem_lem :
    (end fuel : ℕ) (k : Kmem) (xs : List ℕ)
    → Holds end k xs
    → length xs < fuel
    → length xs < 2 ^ 20
    → freemem fuel k ≡ some (length xs * pgsize)
unfolding freemem
freemem_lem end fuel k xs v h b =
    rw (count_free_lem k.next xs fuel k.freelist 0 v.chain h (omega arith), freemem)
      (ap some (omega arith))
