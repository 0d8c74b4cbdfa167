-- ===== src/Vm/Copy/In.antt =====
-- `copyin` copies page by page what the loop byte by byte copies.
use operating_systems.Prelude.{
  ℕ, zero, suc, ◌+◌, ◌-◌, ◌≤◌, ◌≡◌, refl, ap, sym, ◌∙◌, arith, true, false, ltb, Bool-cases, inl,
  inr,
}
use operating_systems.Kalloc.{pgsize}
use operating_systems.Strings.{Memory, store, memmove, copy_up}
use operating_systems.Vm.{Machine, walkaddr}
use operating_systems.Vm.Pages.{page_round_down}
use operating_systems.Vm.User.{on_page, copyin_from, copyin, is_missing, bytes_in}
use operating_systems.Vm.Copy.{
  LieAt, LieAt-suc, LieAt-first, LieAt-page, IsKernel, upward, on_page-bounds, apart, next_page,
  enough_left, IsKernel-rest,
}

module _ (root : ℕ) where
  -- The bytes of one page, then the rest.
  bytes_in-copy_up :
      (n len dst va p : ℕ) (s : Machine)
      → LieAt root va p n s
      → bytes_in root dst va (n + len) s
        ≡ bytes_in root (dst + n) (va + n) len (record s { bytes = copy_up dst p n s.bytes })
  unfolding copy_up bytes_in
  bytes_in-copy_up zero len dst va p s h =
      let (a, b, c) : (0 + len ≡ len) × (dst + 0 ≡ dst) × (va + 0 ≡ va) =
        (omega arith, omega arith, omega arith) in
      rw (a, b, c) refl
  bytes_in-copy_up (suc n) len dst va p s h =
      let m : Memory = store dst (s.bytes p) s.bytes in
      let ih =
        bytes_in-copy_up n len (dst + 1) (va + 1) (p + 1) (record s { bytes = m })
          (LieAt-suc root va p n s m h) in
      let (there, at) = LieAt-first root va p n s h in
      let a : suc n + len ≡ suc (n + len) = omega arith in
      let b : dst + suc n ≡ dst + 1 + n = omega arith in
      let c : va + suc n ≡ va + 1 + n = omega arith in rw (a, b, c, there, at) ih

  moved_on :
      (dst va len : ℕ) (s : Machine)
      → let n = on_page va (suc len) in
        bytes_in root dst (page_round_down va + pgsize) (suc len - n) s
        ≡ bytes_in root dst (va + n) (suc len - n) s
  unfolding bytes_in
  moved_on dst va len s = elim (next_page root va len) [
    | inl e ↦ rw e refl
    | inr e ↦ ap (λ a. bytes_in root dst a (suc len - on_page va (suc len)) s) e
  ]

  -- The rounds of the two loops.
  copyin_round :
      (fuel dst va len : ℕ) (s : Machine)
      → is_missing root va s ≡ false
      → let n = on_page va (suc len) in
        copyin_from (suc fuel) root dst va (suc len) s
        ≡ copyin_from fuel root (dst + n) (page_round_down va + pgsize) (suc len - n) (record s {
          bytes =
              memmove dst
                (walkaddr root (page_round_down va) s + (va - page_round_down va))
                n
                s.bytes;
        })
  unfolding copyin_from
  copyin_round fuel dst va len s there =
      let more : ltb 0 (suc len) ≡ true = ground arith in rw (more, there) refl

  copyin_stops :
      (fuel dst va len : ℕ) (s : Machine)
      → is_missing root va s ≡ true
      → copyin_from (suc fuel) root dst va (suc len) s ≡ bytes_in root dst va (suc len) s
  unfolding copyin_from bytes_in
  copyin_stops fuel dst va len s gone =
      let more : ltb 0 (suc len) ≡ true = ground arith in rw (more, gone) refl

  copyin_goes :
      (fuel dst va len : ℕ) (s : Machine)
      → is_missing root va s ≡ false
      → IsKernel root dst (suc len) s
      → let n = on_page va (suc len) in
        ((m : Memory)
          → copyin_from fuel root
              (dst + n)
              (page_round_down va + pgsize)
              (suc len - n)
              (record s { bytes = m })
            ≡ bytes_in root
                (dst + n)
                (page_round_down va + pgsize)
                (suc len - n)
                (record s { bytes = m }))
        → copyin_from (suc fuel) root dst va (suc len) s ≡ bytes_in root dst va (suc len) s
  copyin_goes fuel dst va len s there k rest =
      let n = on_page va (suc len) in
      let p = walkaddr root (page_round_down va) s + (va - page_round_down va) in
      let (small, some_bytes, fits) = on_page-bounds root va len in
      let m = memmove dst p n s.bytes in
      let up : m ≡ copy_up dst p n s.bytes =
        upward root dst p n s.bytes
          (ground (arith, apart root dst (suc len) va n s k there small fits)) in
      let whole : suc len ≡ n + (suc len - n) = omega arith in
      copyin_round fuel dst va len s there
      ∙ rest m
      ∙ ap
          (λ b.
            bytes_in root (dst + n) (page_round_down va + pgsize) (suc len - n)
              (record s { bytes = b }))
          up
      ∙ moved_on (dst + n) va len (record s { bytes = copy_up dst p n s.bytes })
      ∙ sym (bytes_in-copy_up n (suc len - n) dst va p s (LieAt-page root va (suc len) s there))
      ∙ ap (λ l. bytes_in root dst va l s) (sym whole)

  -- `copyin`'s loop with fuel for each byte.
  copyin_from-bytes_in :
      (fuel dst va len : ℕ) (s : Machine)
      → len ≤ fuel
      → IsKernel root dst len s
      → copyin_from fuel root dst va len s ≡ bytes_in root dst va len s
  unfolding copyin_from bytes_in
  copyin_from-bytes_in zero dst va len s enough k = let e : len ≡ 0 = omega arith in rw e refl
  copyin_from-bytes_in (suc fuel) dst va zero s enough k = refl
  copyin_from-bytes_in (suc fuel) dst va (suc len) s enough k =
      elim (Bool-cases (is_missing root va s)) [
        | inl gone ↦ copyin_stops fuel dst va len s gone
        | inr there ↦ copyin_goes fuel dst va len s there k (λ m.
            copyin_from-bytes_in fuel _ _ _ (record s { bytes = m })
              (enough_left root fuel va len enough) (IsKernel-rest root dst va len m s k))
      ]

  -- `copyin`, for a buffer of the kernel that overlaps no page that the table maps for the user, is the
  -- copy byte by byte: it returns 0 with the bytes that the user has at `srcva`, or -1 at the first
  -- byte whose page is not the user's, with the bytes before it copied. The loop ends within a round
  -- for each byte.
  pub copyin-bytes_in :
      (dst va len : ℕ) (s : Machine)
      → IsKernel root dst len s
      → copyin root dst va len s ≡ bytes_in root dst va len s
  unfolding copyin
  copyin-bytes_in dst va len s k = copyin_from-bytes_in len dst va len s (omega arith) k
