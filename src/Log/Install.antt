-- ===== src/Log/Install.antt =====
-- `install_trans`: what the home blocks hold afterwards, with or without a loss of power.
use mathlib.Core.Path.{subst}
use operating_systems.Prelude.{
  ℕ, suc, ◌+◌, ◌-◌, ◌≤◌, ◌<◌, ◌≡◌, refl, sym, ◌∙◌, true, false, List, [], ◌∷◌, arith, length, inl,
  inr, Bool-cases,
}
use operating_systems.Log.{Log, copy_block, install_from, log_slots}
use operating_systems.Log.Region.{AllOutside, member, Slots, Copied, copy_block-Copied}

pub member-outside :
    (start n : ℕ) (bs : List ℕ)
    → AllOutside start bs
    → start ≤ n
    → n ≤ start + log_slots
    → member n bs ≡ false
member-outside start n [] o l h = refl
member-outside start n (b ∷ bs) o l h = ground (arith, o.0, member-outside start n bs o.1 l h)

module _ {B : Type 0} where
  pub Slots-agree :
      (f h : ℕ → B) (start tail : ℕ) (bs : List ℕ) (v : ℕ → B)
      → tail + length bs ≤ log_slots
      → ((n : ℕ) → start < n → n ≤ start + log_slots → f n ≡ h n)
      → Slots f start tail bs v
      → Slots h start tail bs v
  Slots-agree f h start tail [] v l e s = tt
  Slots-agree f h start tail (b ∷ bs) v l e s = (
    sym (e (start + tail + 1) (omega arith) (omega arith)) ∙ s.0,
    Slots-agree f h start (suc tail) bs v (omega arith) e s.1,
  )

  -- What `install_trans` from `tail` on leaves, where the slots hold the values `v`.
  pub record Installed (bs : List ℕ) (v : ℕ → B) (g g' : Log B) : Type 0 where
    pub start : g'.start ≡ g.start
    pub lh : g'.lh ≡ g.lh
    pub power : g'.power ≡ g.power - length bs
    pub disk_fixed : (n : ℕ) → member n bs ≡ false → g'.disk n ≡ g.disk n
    pub cache_fixed : (n : ℕ) → member n bs ≡ false → g'.cache n ≡ g.cache n
    pub dead : g.power ≡ 0 → (n : ℕ) → g'.disk n ≡ g.disk n
    pub disk_new : length bs ≤ g.power → (n : ℕ) → member n bs ≡ true → g'.disk n ≡ v n

  Installed-cons :
      (tail b : ℕ) (bs : List ℕ) (v : ℕ → B) (g g1 g' : Log B)
      → g.cache (g.start + tail + 1) ≡ v b
      → Copied b (g.start + tail + 1) g g1
      → Installed bs v g1 g'
      → Installed (b ∷ bs) v g g'
  Installed-cons tail b bs v g g1 g' s c w = record {
    start = w.start ∙ c.start;
    lh = w.lh ∙ c.lh;
    power = omega (arith, w.power, c.power);
    disk_fixed = λ n h. ground (arith, h, c.disk n, w.disk_fixed n);
    cache_fixed = λ n h. ground (arith, h, c.cache n, w.cache_fixed n);
    dead = λ h n. ground (arith, h, c.disk n, w.dead (omega (arith, c.power)) n);
    disk_new = λ h n k. elim (Bool-cases (member n bs)) [
      | inl later ↦ w.disk_new (omega (arith, c.power)) n later
      | inr last ↦ ground (arith, h, k, last, s, c.disk n, w.disk_fixed n last)
    ];
  }

  pub install_from-Installed :
      (tail : ℕ) (bs : List ℕ) (v : ℕ → B) (g : Log B)
      → AllOutside g.start bs
      → tail + length bs ≤ log_slots
      → Slots g.cache g.start tail bs v
      → Installed bs v g (install_from tail bs g)
  unfolding install_from
  install_from-Installed tail [] v g o f s = record {
    start = refl;
    lh = refl;
    power = omega arith;
    disk_fixed = λ n h. refl;
    cache_fixed = λ n h. refl;
    dead = λ h n. refl;
    disk_new = λ h n k. absurd (ground arith);
  }
  install_from-Installed tail (b ∷ bs) v g o f s =
      let slot = g.start + tail + 1 in
      let g1 = copy_block b slot g in
      let c = copy_block-Copied b slot g in
      let kept =
        Slots-agree g.cache g1.cache g.start (suc tail) bs v (omega arith)
          (λ n l h. ground (arith, o.0, l, h, c.cache n)) s.1 in
      Installed-cons tail b bs v g g1 _ s.0 c (
        install_from-Installed (suc tail) bs v g1 (rw c.start o.1) (omega arith)
          (subst (λ k. Slots g1.cache k (suc tail) bs v) (sym c.start) kept))
