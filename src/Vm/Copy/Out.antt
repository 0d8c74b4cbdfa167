-- ===== src/Vm/Copy/Out.antt =====
-- `copyout` copies page by page what the loop byte by byte copies.
use operating_systems.Prelude.{
  ℕ, zero, suc, ◌+◌, ◌-◌, ◌≤◌, ◌≡◌, refl, ap, sym, ◌∙◌, arith, true, false, ltb, Bool-cases, inl,
  inr,
}
use operating_systems.Kalloc.{pgsize}
use operating_systems.Strings.{Memory, store, memmove, copy_up}
use operating_systems.Vm.{Machine, walkaddr}
use operating_systems.Vm.Pages.{page_round_down}
use operating_systems.Vm.User.{on_page, copyout_from, copyout, is_missing, bytes_out}
use operating_systems.Vm.Copy.{
  LieAt, LieAt-suc, LieAt-first, LieAt-page, IsKernel, upward, on_page-bounds, apart, next_page,
  enough_left, IsKernel-rest,
}

module _ (root : ℕ) where
  -- The same towards the user.
  bytes_out-copy_up :
      (n len va src p : ℕ) (s : Machine)
      → LieAt root va p n s
      → bytes_out root va src (n + len) s
        ≡ bytes_out root (va + n) (src + n) len (record s { bytes = copy_up p src n s.bytes })
  unfolding copy_up bytes_out
  bytes_out-copy_up zero len va src p s h =
      let (a, b, c) : (0 + len ≡ len) × (src + 0 ≡ src) × (va + 0 ≡ va) =
        (omega arith, omega arith, omega arith) in
      rw (a, b, c) refl
  bytes_out-copy_up (suc n) len va src p s h =
      let m : Memory = store p (s.bytes src) s.bytes in
      let ih =
        bytes_out-copy_up n len (va + 1) (src + 1) (p + 1) (record s { bytes = m })
          (LieAt-suc root va p n s m h) in
      let (there, at) = LieAt-first root va p n s h in
      let a : suc n + len ≡ suc (n + len) = omega arith in
      let b : src + suc n ≡ src + 1 + n = omega arith in
      let c : va + suc n ≡ va + 1 + n = omega arith in rw (a, b, c, there, at) ih

  moved_on :
      (src va len : ℕ) (s : Machine)
      → let n = on_page va (suc len) in
        bytes_out root (page_round_down va + pgsize) src (suc len - n) s
        ≡ bytes_out root (va + n) src (suc len - n) s
  unfolding bytes_out
  moved_on src va len s = elim (next_page root va len) [
    | inl e ↦ rw e refl
    | inr e ↦ ap (λ a. bytes_out root a src (suc len - on_page va (suc len)) s) e
  ]

  -- The rounds of the two loops.
  copyout_round :
      (fuel va src len : ℕ) (s : Machine)
      → is_missing root va s ≡ false
      → let n = on_page va (suc len) in
        copyout_from (suc fuel) root va src (suc len) s
        ≡ copyout_from fuel root (page_round_down va + pgsize) (src + n) (suc len - n) (record s {
          bytes =
              memmove
                (walkaddr root (page_round_down va) s + (va - page_round_down va))
                src
                n
                s.bytes;
        })
  unfolding copyout_from
  copyout_round fuel va src len s there =
      let more : ltb 0 (suc len) ≡ true = ground arith in rw (more, there) refl

  copyout_stops :
      (fuel va src len : ℕ) (s : Machine)
      → is_missing root va s ≡ true
      → copyout_from (suc fuel) root va src (suc len) s ≡ bytes_out root va src (suc len) s
  unfolding copyout_from bytes_out
  copyout_stops fuel va src len s gone =
      let more : ltb 0 (suc len) ≡ true = ground arith in rw (more, gone) refl

  copyout_goes :
      (fuel va src len : ℕ) (s : Machine)
      → is_missing root va s ≡ false
      → IsKernel root src (suc len) s
      → let n = on_page va (suc len) in
        ((m : Memory)
          → copyout_from fuel root
              (page_round_down va + pgsize)
              (src + n)
              (suc len - n)
              (record s { bytes = m })
            ≡ bytes_out root
                (page_round_down va + pgsize)
                (src + n)
                (suc len - n)
                (record s { bytes = m }))
        → copyout_from (suc fuel) root va src (suc len) s ≡ bytes_out root va src (suc len) s
  copyout_goes fuel va src len s there k rest =
      let n = on_page va (suc len) in
      let p = walkaddr root (page_round_down va) s + (va - page_round_down va) in
      let (small, some_bytes, fits) = on_page-bounds root va len in
      let m = memmove p src n s.bytes in
      let up : m ≡ copy_up p src n s.bytes =
        upward root p src n s.bytes
          (ground (arith, apart root src (suc len) va n s k there small fits)) in
      let whole : suc len ≡ n + (suc len - n) = omega arith in
      copyout_round fuel va src len s there
      ∙ rest m
      ∙ ap
          (λ b.
            bytes_out root (page_round_down va + pgsize) (src + n) (suc len - n)
              (record s { bytes = b }))
          up
      ∙ moved_on (src + n) va len (record s { bytes = copy_up p src n s.bytes })
      ∙ sym (bytes_out-copy_up n (suc len - n) va src p s (LieAt-page root va (suc len) s there))
      ∙ ap (λ l. bytes_out root va src l s) (sym whole)

  -- `copyout`'s loop with fuel for each byte.
  copyout_from-bytes_out :
      (fuel va src len : ℕ) (s : Machine)
      → len ≤ fuel
      → IsKernel root src len s
      → copyout_from fuel root va src len s ≡ bytes_out root va src len s
  unfolding copyout_from bytes_out
  copyout_from-bytes_out zero va src len s enough k = let e : len ≡ 0 = omega arith in rw e refl
  copyout_from-bytes_out (suc fuel) va src zero s enough k = refl
  copyout_from-bytes_out (suc fuel) va src (suc len) s enough k =
      elim (Bool-cases (is_missing root va s)) [
        | inl gone ↦ copyout_stops fuel va src len s gone
        | inr there ↦ copyout_goes fuel va src len s there k (λ m.
            copyout_from-bytes_out fuel _ _ _ (record s { bytes = m })
              (enough_left root fuel va len enough) (IsKernel-rest root src va len m s k))
      ]

  -- `copyout`, for a buffer of the kernel that overlaps no page that the table maps for the user, is
  -- the copy byte by byte: it returns 0 with the buffer's bytes at the user's `dstva`, or -1 at the
  -- first byte whose page is not the user's, with the bytes before it copied. The loop ends within a
  -- round for each byte.
  pub copyout-bytes_out :
      (va src len : ℕ) (s : Machine)
      → IsKernel root src len s
      → copyout root va src len s ≡ bytes_out root va src len s
  unfolding copyout
  copyout-bytes_out va src len s k = copyout_from-bytes_out len va src len s (omega arith) k
