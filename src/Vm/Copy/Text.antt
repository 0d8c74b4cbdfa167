-- ===== src/Vm/Copy/Text.antt =====
-- `copyinstr` copies page by page what the loop byte by byte copies.
use mathlib.Core.Path.{subst}
use operating_systems.Prelude.{
  ℕ, zero, suc, ◌+◌, ◌-◌, ◌≤◌, ◌≡◌, ◌⊎◌, refl, ap, sym, ◌∙◌, arith, Bool, true, false, ◌==◌, ltb,
  if◌then◌else◌, Bool-cases, inl, inr,
}
use operating_systems.Kalloc.{pgsize}
use operating_systems.Strings.{Memory, store}
use operating_systems.Vm.{Machine, walkaddr}
use operating_systems.Vm.Pages.{Outcome, done, page_round_down}
use operating_systems.Vm.User.{on_page, scan, copyinstr_from, copyinstr, is_missing, string_in}
use operating_systems.Vm.Copy.{
  LieAt, LieAt-suc, LieAt-first, LieAt-page, on_page-bounds, next_page, enough_left,
}

module _ (root : ℕ) where
  -- What the rest of a call is behind the inner loop.
  abbrev after : ℕ → ℕ → Machine → Bool × ℕ × ℕ × Memory → Outcome ℕ
  after va n s (got, dst, max, m) =
      if got
      then done 0 (record s { bytes = m })
      else string_in root dst (va + n) max (record s { bytes = m })

  string_in-scan :
      (n left dst va p : ℕ) (s : Machine)
      → LieAt root va p n s
      → string_in root dst va (n + left) s ≡ after va n s (scan n p dst (n + left) s.bytes)
  unfolding scan string_in
  string_in-scan zero left dst va p s h =
      let (a, c) : (0 + left ≡ left) × (va + 0 ≡ va) = (omega arith, omega arith) in rw (a, c) refl
  string_in-scan (suc n) left dst va p s h =
      let m : Memory = store dst (s.bytes p) s.bytes in
      let ih =
        string_in-scan n left (dst + 1) (va + 1) (p + 1) (record s { bytes = m })
          (LieAt-suc root va p n s m h) in
      let (there, at) = LieAt-first root va p n s h in
      let a : suc n + left ≡ suc (n + left) = omega arith in
      let b : suc (n + left) - 1 ≡ n + left = omega arith in
      let c : va + suc n ≡ va + 1 + n = omega arith in
      rw (a, there, at)
        (elim (Bool-cases (s.bytes p == 0)) [
          | inl ends ↦ rw ends refl
          | inr goes ↦ rw (goes, b, c) ih
        ])

  -- The inner loop uses up its bytes, or has found a 0.
  scan-max :
      (n left p dst : ℕ) (m : Memory)
      → let r = scan n p dst (n + left) m in (r.0 ≡ true) ⊎ ((r.0 ≡ false) × (r.2 ≡ left))
  unfolding scan
  scan-max zero left p dst m = inr (refl, omega arith)
  scan-max (suc n) left p dst m =
      let ih = scan-max n left (p + 1) (dst + 1) (store dst (m p) m) in
      let a : suc n + left - 1 ≡ n + left = omega arith in
      elim (Bool-cases (m p == 0)) [ inl ends ↦ rw ends (inl refl) | inr goes ↦ rw (goes, a) ih ]

  got-eq-done :
      (fuel dst va max : ℕ) (s : Machine) → copyinstr_from fuel root true dst va max s ≡ done 0 s
  unfolding copyinstr_from
  got-eq-done zero dst va max s = refl
  got-eq-done (suc fuel) dst va max s = refl

  copyinstr_stops :
      (fuel dst va k : ℕ) (s : Machine)
      → is_missing root va s ≡ true
      → copyinstr_from (suc fuel) root false dst va (suc k) s ≡ string_in root dst va (suc k) s
  unfolding copyinstr_from string_in
  copyinstr_stops fuel dst va k s gone =
      let more : ltb 0 (suc k) ≡ true = ground arith in rw (more, gone) refl

  -- The rounds that are left behind the inner loop's result.
  abbrev go_on : ℕ → ℕ → Machine → Bool × ℕ × ℕ × Memory → Outcome ℕ
  go_on fuel va s (got, dst, max, m) =
      copyinstr_from fuel root got dst (page_round_down va + pgsize) max (record s { bytes = m })

  copyinstr_round :
      (fuel dst va k : ℕ) (s : Machine)
      → is_missing root va s ≡ false
      → copyinstr_from (suc fuel) root false dst va (suc k) s
        ≡ go_on fuel va s (
            scan
              (on_page va (suc k))
              (walkaddr root (page_round_down va) s + (va - page_round_down va))
              dst
              (suc k)
              s.bytes)
  unfolding copyinstr_from
  copyinstr_round fuel dst va k s there =
      let more : ltb 0 (suc k) ≡ true = ground arith in rw (more, there) refl

  go_on-after :
      (fuel va k : ℕ) (s : Machine) (r : Bool × ℕ × ℕ × Memory)
      → (r.0 ≡ true) ⊎ ((r.0 ≡ false) × (r.2 ≡ suc k - on_page va (suc k)))
      → ((dst : ℕ) (m : Memory)
          → let max = suc k - on_page va (suc k) in
            copyinstr_from fuel root false dst
              (page_round_down va + pgsize)
              max
              (record s { bytes = m })
            ≡ string_in root dst (page_round_down va + pgsize) max (record s { bytes = m }))
      → go_on fuel va s r ≡ after va (on_page va (suc k)) s r
  unfolding string_in
  go_on-after fuel va k s (got, dst, max, m) (inl found) rest =
      rw found (got-eq-done fuel dst _ max (record s { bytes = m }))
  go_on-after fuel va k s (got, dst, max, m) (inr (on, e)) rest =
      rw (on, e)
        (rest dst m ∙ elim (next_page root va k) [
          | inl over ↦ rw over refl
          | inr e ↦
              ap (λ a. string_in root dst a (suc k - on_page va (suc k)) (record s { bytes = m })) e
        ])

  copyinstr_goes :
      (fuel dst va k : ℕ) (s : Machine)
      → is_missing root va s ≡ false
      → ((dst : ℕ) (m : Memory)
          → let max = suc k - on_page va (suc k) in
            copyinstr_from fuel root false dst
              (page_round_down va + pgsize)
              max
              (record s { bytes = m })
            ≡ string_in root dst (page_round_down va + pgsize) max (record s { bytes = m }))
      → copyinstr_from (suc fuel) root false dst va (suc k) s ≡ string_in root dst va (suc k) s
  copyinstr_goes fuel dst va k s there rest =
      let n = on_page va (suc k) in
      let left = suc k - n in
      let p = walkaddr root (page_round_down va) s + (va - page_round_down va) in
      let (small, some_bytes, fits) = on_page-bounds root va k in
      let whole : suc k ≡ n + left = omega arith in
      let r : suc k ≡ n + left
          → (scan n p dst (suc k) s.bytes).0 ≡ true
            ⊎ (((scan n p dst (suc k) s.bytes).0 ≡ false)
                × ((scan n p dst (suc k) s.bytes).2 ≡ left)) =
        λ e.
          subst
            (λ l.
              (scan n p dst l s.bytes).0 ≡ true
              ⊎ (((scan n p dst l s.bytes).0 ≡ false) × ((scan n p dst l s.bytes).2 ≡ left)))
            (sym e) (scan-max n left p dst s.bytes) in
      copyinstr_round fuel dst va k s there
      ∙ go_on-after fuel va k s (scan n p dst (suc k) s.bytes) (r whole) rest
      ∙ ap (λ l. after va n s (scan n p dst l s.bytes)) whole
      ∙ sym (string_in-scan n left dst va p s (LieAt-page root va (suc k) s there))
      ∙ ap (λ l. string_in root dst va l s) (sym whole)

  copyinstr_from-string_in :
      (fuel dst va max : ℕ) (s : Machine)
      → max ≤ fuel
      → copyinstr_from fuel root false dst va max s ≡ string_in root dst va max s
  unfolding copyinstr_from string_in
  copyinstr_from-string_in zero dst va max s enough = let e : max ≡ 0 = omega arith in rw e refl
  copyinstr_from-string_in (suc fuel) dst va zero s enough = refl
  copyinstr_from-string_in (suc fuel) dst va (suc k) s enough =
      elim (Bool-cases (is_missing root va s)) [
        | inl gone ↦ copyinstr_stops fuel dst va k s gone
        | inr there ↦ copyinstr_goes fuel dst va k s there (λ dst1 m.
            copyinstr_from-string_in fuel dst1 _ _ (record s { bytes = m })
              (enough_left root fuel va k enough))
      ]

  -- `copyinstr` is the copy byte by byte up to the first 0, without any condition: it returns 0 with
  -- the bytes up to and with that 0, or -1 when the first `max` bytes have none or when the page of
  -- a byte before it is not the user's. The loop ends within a round for each byte.
  pub copyinstr-string_in :
      (dst va max : ℕ) (s : Machine) → copyinstr root dst va max s ≡ string_in root dst va max s
  unfolding copyinstr
  copyinstr-string_in dst va max s = copyinstr_from-string_in max dst va max s (omega arith)
