-- ===== src/Strings/Move.antt =====
-- `memset`, `memmove` and `memcmp`: what each byte is afterwards.
use operating_systems.Prelude.{
  ℕ, zero, suc, ◌+◌, ◌-◌, ◌%◌, ◌≤◌, ◌<◌, ◌≡◌, refl, ap, ◌∙◌, Bool, ◌&&◌, ◌==◌, ltb, leb,
  if◌then◌else◌, arith, Bool-cases, inl, inr, ◌↔◌, ◌⊎◌,
}
use operating_systems.Strings.{Memory, store, memset, memcmp, copy_up, copy_down, memmove}

-- Address `q` lies in the `n` bytes from `p` on.
abbrev pub inside : ℕ → ℕ → ℕ → Bool
inside p n q = leb p q && ltb q (p + n)

-- `memset` sets exactly the bytes of its range.
pub memset_lem :
    (dst c n : ℕ) (m : Memory) (q : ℕ)
    → memset dst c n m q ≡ (if inside dst n q then c % 256 else m q)
unfolding memset
memset_lem dst c zero m q = ground arith
memset_lem dst c (suc n) m q = ground (arith, memset_lem (dst + 1) c n (store dst (c % 256) m) q)

-- What a copy of `n` bytes from `s` to `d` should leave at `q`.
abbrev pub moved : ℕ → ℕ → ℕ → Memory → ℕ → ℕ
moved d s n m q = if inside d n q then m (s + (q - d)) else m q

copy_up_lem :
    (d s n : ℕ) (m : Memory) (q : ℕ) → ((d ≤ s) ⊎ (s + n ≤ d)) → copy_up d s n m q ≡ moved d s n m q
unfolding copy_up
copy_up_lem d s zero m q h = ground arith
copy_up_lem d s (suc n) m q h = ground (arith, copy_up_lem (d + 1) (s + 1) n (store d (m s) m) q)

copy_down_lem : (d s n : ℕ) (m : Memory) (q : ℕ) → s ≤ d → copy_down d s n m q ≡ moved d s n m q
unfolding copy_down
copy_down_lem d s zero m q h = ground arith
copy_down_lem d s (suc n) m q h =
    ground (arith, copy_down_lem d s n (store (d + n) (m (s + n)) m) q)

-- `memmove` copies correctly whether or not the ranges overlap: each byte of the destination is
-- what the source held before the call, and no other byte changes.
pub memmove_lem : (d s n : ℕ) (m : Memory) (q : ℕ) → memmove d s n m q ≡ moved d s n m q
unfolding memmove
memmove_lem d s n m q = ground (arith, copy_up_lem d s n m q, copy_down_lem d s n m q)

-- On a memory of bytes below 256, `memcmp` returns 0 exactly if the two ranges hold the same bytes.
pub memcmp-eq-zero_iff :
    (s1 s2 n : ℕ) (m : Memory)
    → ((p : ℕ) → m p < 256)
    → (memcmp s1 s2 n m ≡ 0) ↔ ((i : ℕ) → i < n → m (s1 + i) ≡ m (s2 + i))
unfolding memcmp
memcmp-eq-zero_iff s1 s2 zero m b = (λ h i l. absurd (omega arith), λ h. refl)
memcmp-eq-zero_iff s1 s2 (suc n) m b =
    let ih = memcmp-eq-zero_iff (s1 + 1) (s2 + 1) n m b in
    elim (Bool-cases (m s1 == m s2)) [
      | inr differ ↦
          let first : ((i : ℕ) → i < suc n → m (s1 + i) ≡ m (s2 + i)) → m s1 ≡ m s2 =
            λ h. ap m (omega arith) ∙ h 0 (omega arith) ∙ ap m (omega arith) in
          (
            λ e. absurd (ground (arith, differ, e, b s1, b s2)),
            λ h. absurd (ground (arith, differ, first h)),
          )
      | inl same ↦ (
        λ e i l. let rest = ih.0 (rw (same, memcmp) at e) (i - 1) in ground (arith, same, rest),
        λ h. rw (same, memcmp) (ih.1 (λ i l. ground (arith, h (suc i)))),
      )
    ]
