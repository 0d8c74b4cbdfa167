-- ===== src/Vm/Copy.antt =====
-- `copyout`, `copyin` and `copyinstr` copy page by page what the loops byte by byte copy.
pub mod In
pub mod Out
pub mod Text
use operating_systems.Prelude.{
  ℕ, zero, suc, ◌+◌, ◌-◌, ◌*◌, ◌/◌, ◌%◌, ◌^◌, ◌<◌, ◌≤◌, ◌≡◌, ◌≢◌, ◌⊎◌, refl, ap, sym, ◌∙◌, arith,
  Bool, true, false, ◌&&◌, ◌||◌, not, Option, none, some, ◌==◌, ltb, leb, if◌then◌else◌, minus_one,
  Bool-cases, inl, inr,
}
use operating_systems.Kalloc.{pgsize}
use operating_systems.Strings.{Memory, store, memmove, copy_up}
use operating_systems.Vm.{Machine, walkaddr}
use operating_systems.Vm.Pages.{Outcome, done, panics, starved, page_round_down}
use operating_systems.Vm.User.{
  on_page, copyout_from, copyout, copyin_from, copyin, scan, copyinstr_from, copyinstr, phys,
  is_missing, bytes_out, bytes_in, string_in,
}
use operating_systems.Vm.View.{walkaddr-view}

-- A look-up reads the page tables only.
pub walkaddr-bytes :
    (root va : ℕ) (m : Memory) (s : Machine)
    → walkaddr root va (record s { bytes = m }) ≡ walkaddr root va s
walkaddr-bytes root va m s =
    walkaddr-view root va (record s { bytes = m }) ∙ sym (walkaddr-view root va s)

module _ (root : ℕ) where
  -- The `n` bytes from `va` on lie on pages of the user, at the addresses from `p` on.
  abbrev pub LieAt : ℕ → ℕ → ℕ → Machine → Type 0
  LieAt va p n s =
      (i : ℕ) → i < n → (is_missing root (va + i) s ≡ false) × (phys root (va + i) s ≡ p + i)

  pub LieAt-suc :
      (va p n : ℕ) (s : Machine) (m : Memory)
      → LieAt va p (suc n) s
      → LieAt (va + 1) (p + 1) n (record s { bytes = m })
  LieAt-suc va p n s m h i l =
      let (there, at) = h (suc i) (omega arith) in
      let e : va + 1 + i ≡ va + suc i = omega arith in
      let same = walkaddr-bytes root (page_round_down (va + 1 + i)) m s in
      (
        ap (λ a. a == 0) same ∙ ap (λ k. is_missing root k s) e ∙ there,
        ap (λ a. a + (va + 1 + i) % pgsize) same ∙ ap (λ k. phys root k s) e ∙ at ∙ omega arith,
      )

  pub LieAt-first :
      (va p n : ℕ) (s : Machine)
      → LieAt va p (suc n) s
      → (is_missing root va s ≡ false) × (phys root va s ≡ p)
  LieAt-first va p n s h =
      let (there, at) = h 0 (omega arith) in
      let e : va + 0 ≡ va = omega arith in
      (
        ap (λ k. is_missing root k s) (sym e) ∙ there,
        ap (λ k. phys root k s) (sym e) ∙ at ∙ omega arith,
      )

  pub LieAt-page :
      (va len : ℕ) (s : Machine)
      → is_missing root va s ≡ false
      → LieAt va
          (walkaddr root (page_round_down va) s + (va - page_round_down va))
          (on_page va len)
          s
  LieAt-page va len s there i l =
      let low : va % pgsize + i < pgsize = ground arith in
      let e : page_round_down (va + i) ≡ page_round_down va = omega arith in
      let off : (va + i) % pgsize ≡ va - page_round_down va + i = omega arith in
      rw (e, off) (there, omega arith)

  -- The kernel's buffer overlaps no page of the user.
  abbrev pub IsKernel : ℕ → ℕ → Machine → Type 0
  IsKernel buf len s =
      (va : ℕ)
      → let pa = walkaddr root (page_round_down va) s in
        (pa ≡ 0) ⊎ ((pa + pgsize ≤ buf) ⊎ (buf + len ≤ pa))

  IsKernel-bytes :
      (buf len buf1 len1 : ℕ) (m : Memory) (s : Machine)
      → buf ≤ buf1
      → buf1 + len1 ≤ buf + len
      → IsKernel buf len s
      → IsKernel buf1 len1 (record s { bytes = m })
  IsKernel-bytes buf len buf1 len1 m s a b k va =
      let e = walkaddr-bytes root (page_round_down va) m s in
      elim (k va) [
        | inl z ↦ inl (e ∙ z)
        | inr (inl l) ↦ inr (inl (rw e (omega arith)))
        | inr (inr l) ↦ inr (inr (rw e (omega arith)))
      ]

  -- `memmove` takes its upward loop there.
  pub upward : (d f n : ℕ) (m : Memory) → (f + n ≤ d) ⊎ (d ≤ f) → memmove d f n m ≡ copy_up d f n m
  unfolding memmove copy_up
  upward d f zero m h = refl
  upward d f (suc n) m h =
      let up : (ltb f d && ltb d (f + suc n)) ≡ false = ground (arith, h) in
      let more : (suc n == 0) ≡ false = ground arith in rw (up, more) refl

  -- The bytes of the first round of a loop, and whether its two ranges overlap.
  pub on_page-bounds :
      (va len : ℕ)
      → (on_page va (suc len) ≤ suc len)
        × (0 < on_page va (suc len))
        × (va % pgsize + on_page va (suc len) ≤ pgsize)
  on_page-bounds va len = (ground arith, ground arith, ground arith)

  pub apart :
      (buf len va n : ℕ) (s : Machine)
      → IsKernel buf len s
      → is_missing root va s ≡ false
      → n ≤ len
      → va % pgsize + n ≤ pgsize
      → let p = walkaddr root (page_round_down va) s + (va - page_round_down va) in
        (p + n ≤ buf) ⊎ (buf + n ≤ p)
  apart buf len va n s k there small fits = elim (k va) [
    | inl z ↦ absurd (ground (arith, z, there))
    | inr (inl l) ↦ inl (omega arith)
    | inr (inr l) ↦ inr (omega arith)
  ]

  pub next_page :
      (va len : ℕ)
      → (suc len - on_page va (suc len) ≡ 0)
        ⊎ (page_round_down va + pgsize ≡ va + on_page va (suc len))
  next_page va len = elim (Bool-cases (ltb (suc len) (pgsize - (va - page_round_down va)))) [
    | inl e ↦ inl (ground (arith, e))
    | inr e ↦ inr (ground (arith, e))
  ]

  pub enough_left : (fuel va len : ℕ) → suc len ≤ suc fuel → suc len - on_page va (suc len) ≤ fuel
  enough_left fuel va len h = let (a, b, c) = on_page-bounds va len in omega arith

  pub IsKernel-rest :
      (buf va len : ℕ) (m : Memory) (s : Machine)
      → IsKernel buf (suc len) s
      → let n = on_page va (suc len) in IsKernel (buf + n) (suc len - n) (record s { bytes = m })
  IsKernel-rest buf va len m s k =
      let (a, b, c) = on_page-bounds va len in
      IsKernel-bytes buf (suc len) (buf + on_page va (suc len)) (suc len - on_page va (suc len)) m s
        (omega arith) (omega arith) k
