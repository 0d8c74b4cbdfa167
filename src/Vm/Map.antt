-- ===== src/Vm/Map.antt =====
-- `mappages` refines an update of the view: the pages of a range get their entries, at once.
use mathlib.Core.Path.{subst}
use operating_systems.Prelude.{
  ℕ, zero, suc, ◌+◌, ◌-◌, ◌<◌, ◌≤◌, ◌≡◌, refl, ap, sym, ◌∙◌, arith, true, false, ◌&&◌, ◌==◌, ltb,
  leb, if◌then◌else◌, inl, inr, ◌%◌, ◌/◌, ◌*◌, ◌^◌, List, [], ◌⊎◌, minus_one, dec_lt,
}
use operating_systems.Kalloc.{pgsize}
use operating_systems.Vm.{Machine, maxva, is_valid, make_pte}
use operating_systems.Vm.Walk.{IsValid}
use operating_systems.Vm.Pages.{
  Outcome, done, panics, starved, Round, goes_on, returns, stops, map_one, map_from, mappages,
}
use operating_systems.Vm.View.{view, MapsOne, map_one-MapsOne}

-- The pages from `first` on, `count` of them, point to those from `pa` on; the others are as before.
abbrev pub Maps : ℕ → ℕ → ℕ → ℕ → ℕ → Machine → Machine → Type 0
Maps root first count pa perm s t =
    (vpn : ℕ)
    → vpn < 2 ^ 26
    → view t.ptes root vpn ≡ (
        if leb first vpn && ltb vpn (first + count)
        then make_pte (pa + (vpn - first) * pgsize) perm
        else view s.ptes root vpn)

-- None of the pages is mapped.
abbrev pub AllFree : ℕ → ℕ → ℕ → Machine → Type 0
AllFree root first count s = (i : ℕ) → i < count → is_valid (view s.ptes root (first + i)) ≡ false

-- How `mappages` of `count` pages ends.
abbrev pub MapsAll : ℕ → ℕ → ℕ → ℕ → ℕ → ℕ → Machine → Outcome ℕ → Type 0
MapsAll end root first count pa perm s starved = ⊥
MapsAll end root first count pa perm s panics =
    (i : ℕ) × (i < count) × (is_valid (view s.ptes root (first + i)) ≡ true)
MapsAll end root first count pa perm s (done code t) =
    (t.bytes ≡ s.bytes)
    × (((code ≡ 0)
          × AllFree root first count s
          × Maps root first count pa perm s t
          × ((ys : List ℕ) × IsValid end root ys t))
        ⊎ ((code ≡ minus_one)
            × IsValid end root [] t
            × ((n : ℕ) × (n < count) × Maps root first n pa perm s t)))

-- One page more in front of a range, for any function `f` from a page's address to its entry.
range_step :
    (f : ℕ → ℕ) (first count pa vpn x y z : ℕ)
    → x ≡ (
        if leb (suc first) vpn && ltb vpn (suc first + count)
        then f (pa + pgsize + (vpn - suc first) * pgsize)
        else y)
    → y ≡ (if first == vpn then f pa else z)
    → x ≡ (
        if leb first vpn && ltb vpn (first + suc count) then f (pa + (vpn - first) * pgsize) else z)
range_step f first count pa vpn x y z g h = elim (dec_lt first vpn) [
  | yes later ↦
      let e : pa + pgsize + (vpn - suc first) * pgsize ≡ pa + (vpn - first) * pgsize =
        omega arith in
      ground (arith, g, h, ap f e)
  | no here ↦ elim (dec_lt vpn first) [
    | yes before ↦ ground (arith, g, h)
    | no same ↦
        let e : pa ≡ pa + (vpn - first) * pgsize = omega arith in ground (arith, g, h, ap f e)
  ]
]

module _ (end root : ℕ) where
  free_step :
      (first count : ℕ) (s s1 : Machine)
      → is_valid (view s.ptes root first) ≡ false
      → ((vpn : ℕ)
          → vpn < 2 ^ 26
          → (first == vpn) ≡ false
          → view s1.ptes root vpn ≡ view s.ptes root vpn)
      → AllFree root (suc first) count s1
      → first + count < 2 ^ 26
      → AllFree root first (suc count) s
  free_step first count s s1 free others all fits zero l =
      let e : first + 0 ≡ first = omega arith in ap (λ k. is_valid (view s.ptes root k)) e ∙ free
  free_step first count s s1 free others all fits (suc i) l =
      let e : first + suc i ≡ suc first + i = omega arith in
      ap (λ k. is_valid (view s.ptes root k)) e
      ∙ ap is_valid (sym (others (suc first + i) (omega arith) (ground arith)))
      ∙ all i (omega arith)

  -- A round, and the rest of the loop behind it.
  MapsAll-step :
      (first count pa perm : ℕ) (s s1 : Machine) (r : Outcome ℕ)
      → first < 2 ^ 26
      → is_valid (view s.ptes root first) ≡ false
      → ((vpn : ℕ)
          → vpn < 2 ^ 26
          → view s1.ptes root vpn
            ≡ (if first == vpn then make_pte pa perm else view s.ptes root vpn))
      → s1.bytes ≡ s.bytes
      → first + count < 2 ^ 26
      → MapsAll end root (suc first) count (pa + pgsize) perm s1 r
      → MapsAll end root first (suc count) pa perm s r
  MapsAll-step first count pa perm s s1 starved small free one bytes fits h = h
  MapsAll-step first count pa perm s s1 panics small free one bytes fits (i, l, h) =
      let shift : first + suc i ≡ suc first + i = omega arith in
      (
        suc i,
        omega arith,
        ap (λ k. is_valid (view s.ptes root k)) shift
            ∙ ap is_valid (sym (one (suc first + i) (omega arith) ∙ ground arith))
            ∙ h,
      )
  MapsAll-step first count pa perm s s1 (done code t) small free one bytes fits
        (same, inl (zero_code, all, maps, ys)) =
      (
        same ∙ bytes,
        inl (
          zero_code,
          free_step first count s s1 free (λ vpn h ne. one vpn h ∙ ground (arith, ne)) all fits,
          (λ vpn h.
              range_step (λ k. make_pte k perm) first count pa vpn _ _ _ (maps vpn h) (one vpn h)),
          ys,
        ),
      )
  MapsAll-step first count pa perm s s1 (done code t) small free one bytes fits
        (same, inr (failed, out, (n, l, maps))) =
      (
        same ∙ bytes,
        inr (
          failed,
          out,
          (
            suc n,
            omega arith,
            (λ vpn h.
                range_step (λ k. make_pte k perm) first n pa vpn _ _ _ (maps vpn h) (one vpn h)),
          ),
        ),
      )

  -- The last page of a range.
  MapsAll-last :
      (first pa perm : ℕ) (s t : Machine) (ys : List ℕ)
      → is_valid (view s.ptes root first) ≡ false
      → ((vpn : ℕ)
          → vpn < 2 ^ 26
          → view t.ptes root vpn
            ≡ (if first == vpn then make_pte pa perm else view s.ptes root vpn))
      → t.bytes ≡ s.bytes
      → IsValid end root ys t
      → MapsAll end root first 1 pa perm s (done 0 t)
  MapsAll-last first pa perm s t ys free one bytes v = (
    bytes,
    inl (
      refl,
      (λ i l.
          let e : first + i ≡ first = omega arith in
          ap (λ k. is_valid (view s.ptes root k)) e ∙ free),
      (λ vpn h. range_step (λ k. make_pte k perm) first 0 pa vpn _ _ _ (ground arith) (one vpn h)),
      (ys, v),
    ),
  )

  -- What a round of the loop makes of the rest.
  MapsAll-round :
      (a count pa perm : ℕ) (s : Machine) (r : Round) (rest : Machine → Outcome ℕ)
      → a + count * pgsize < maxva
      → MapsOne end root a (make_pte pa perm) s r
      → ((t : Machine) (ys : List ℕ)
          → IsValid end root ys t
          → ((count ≡ 0) × (rest t ≡ done 0 t))
            ⊎ ((n : ℕ) × (count ≡ suc n)
                × MapsAll end root (suc (a / pgsize)) count (pa + pgsize) perm t (rest t)))
      → MapsAll end root
          (a / pgsize)
          (suc count)
          pa
          perm
          s
          (elim r [ stops ↦ panics | returns t ↦ done minus_one t | goes_on t ↦ rest t ])
  MapsAll-round a count pa perm s stops rest fits h k =
      let e : a / pgsize + 0 ≡ a / pgsize = omega arith in
      (0, omega arith, ap (λ n. is_valid (view s.ptes root n)) e ∙ h)
  MapsAll-round a count pa perm s (returns t) rest fits (v, same) k =
      (same.bytes, inr (refl, v, (0, omega arith, (λ vpn l. same.entries _ _ _ ∙ ground arith))))
  MapsAll-round a count pa perm s (goes_on t) rest fits (ys, v, free, one, bytes) k =
      elim (k t ys v) [
        | inl (last, e) ↦ rw (last, e) (MapsAll-last (a / pgsize) pa perm s t ys free one bytes v)
        | inr (n, more, all) ↦
            MapsAll-step (a / pgsize) count pa perm s t (rest t) (omega arith) free one bytes
              (omega arith) all
      ]

  map_from-MapsAll :
      (fuel count a pa perm : ℕ) (xs : List ℕ) (s : Machine)
      → IsValid end root xs s
      → a % pgsize ≡ 0
      → a + count * pgsize < maxva
      → count < fuel
      → pa + count * pgsize < 2 ^ 64
      → MapsAll end root
          (a / pgsize)
          (suc count)
          pa
          perm
          s
          (map_from fuel root a (a + count * pgsize) pa perm s)
  unfolding map_from
  map_from-MapsAll zero count a pa perm xs s v aligned fits enough low = absurd (omega arith)
  map_from-MapsAll (suc fuel) zero a pa perm xs s v aligned fits enough low =
      MapsAll-round a 0 pa perm s (map_one root a pa perm s)
        (λ t. elim (a == a + 0 * pgsize) [
          | true ↦ done 0 t
          | false ↦
              map_from fuel root ((a + pgsize) % 2 ^ 64) (a + 0 * pgsize) ((pa + pgsize) % 2 ^ 64)
                perm t
        ])
        fits (map_one-MapsOne end root a pa perm xs s (omega arith) v)
        (λ t ys w. inl (refl, ground arith))
  map_from-MapsAll (suc fuel) (suc count) a pa perm xs s v aligned fits enough low =
      MapsAll-round a (suc count) pa perm s (map_one root a pa perm s)
        (λ t. elim (a == a + suc count * pgsize) [
          | true ↦ done 0 t
          | false ↦
              map_from fuel root ((a + pgsize) % 2 ^ 64) (a + suc count * pgsize)
                ((pa + pgsize) % 2 ^ 64) perm t
        ])
        fits (map_one-MapsOne end root a pa perm xs s (omega arith) v)
        (λ t ys w. inr (
          count,
          refl,
          let more : (a == a + suc count * pgsize) ≡ false = ground arith in
              let next : (a + pgsize) % 2 ^ 64 ≡ a + pgsize = omega arith in
              let target : (pa + pgsize) % 2 ^ 64 ≡ pa + pgsize = omega arith in
              let last : a + suc count * pgsize ≡ a + pgsize + count * pgsize = omega arith in
              let first : suc (a / pgsize) ≡ (a + pgsize) / pgsize = omega arith in
              rw (more, next, target, last, first)
                (map_from-MapsAll fuel count (a + pgsize) (pa + pgsize) perm ys t w (omega arith)
                  (omega arith) (omega arith) (omega arith)),
        ))

  -- `mappages` of a range that is not empty and ends at `MAXVA` at most, with flags `perm` below bit
  -- 10, to physical addresses that stay a page below 2 ^ 64, on a tree of tables apart from the free
  -- pages, with fuel for each of its pages. It returns 0 exactly with every page of the range pointing
  -- to its physical page, none of them mapped before; or it returns -1 with no page left to allocate
  -- and only a first part of the range mapped; or it panics, and one of the range's pages was mapped
  -- already. All other entries and all bytes are as before, and the tables are a tree apart from the
  -- free pages again.
  pub mappages-MapsAll :
      (fuel va size pa perm : ℕ) (xs : List ℕ) (s : Machine)
      → IsValid end root xs s
      → 0 < size
      → perm < 1024
      → va + size ≤ maxva
      → pa + size + pgsize < 2 ^ 64
      → size / pgsize + 2 < fuel
      → MapsAll end root
          (va / pgsize)
          (suc ((va + size - 1) / pgsize - va / pgsize))
          pa
          perm
          s
          (mappages fuel root va size pa perm s)
  unfolding mappages
  mappages-MapsAll fuel va size pa perm xs s v pos flags fits low enough =
      let count = (va + size - 1) / pgsize - va / pgsize in
      let some_bytes : (size == 0) ≡ false = ground arith in
      let last : (va + size + (2 ^ 64 - 1)) % 2 ^ 64 / pgsize * pgsize
          ≡ va / pgsize * pgsize + count * pgsize =
        omega arith in
      let first : va / pgsize ≡ va / pgsize * pgsize / pgsize = omega arith in
      rw (some_bytes, last)
        (subst
          (λ k. MapsAll end root k (suc count) pa perm s (
            map_from fuel root (va / pgsize * pgsize) (va / pgsize * pgsize + count * pgsize) pa
              perm s))
          (sym first)
          (map_from-MapsAll fuel count (va / pgsize * pgsize) pa perm xs s v (omega arith)
            (omega arith) (omega arith) (omega arith)))
