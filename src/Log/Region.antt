-- ===== src/Log/Region.antt =====
-- Which disk blocks belong to the log, and what the loops of `commit` leave outside their part.
use mathlib.Core.Path.{subst}
use operating_systems.Prelude.{
  ℕ, suc, ◌+◌, ◌-◌, ◌≤◌, ◌<◌, ◌≡◌, refl, ◌∙◌, Bool, false, ◌||◌, List, [], ◌∷◌, arith, ◌==◌,
  if◌then◌else◌, length, ◌⊎◌,
}
use operating_systems.Log.{Log, copy_block, write_log_from, log_slots}

-- The blocks from `start` on that the log may write: its header and the slots after it.
abbrev pub Outside : ℕ → ℕ → Type 0
Outside start n = (n < start) ⊎ (start + log_slots < n)

abbrev pub AllOutside : ℕ → List ℕ → Type 0
AllOutside start [] = Unit
AllOutside start (b ∷ bs) = Outside start b × AllOutside start bs

abbrev pub member : ℕ → List ℕ → Bool
member n [] = false
member n (b ∷ bs) = b == n || member n bs

module _ {B : Type 0} where
  -- Slot `tail` onwards holds the values `v` of the blocks `bs`.
  abbrev pub Slots : (ℕ → B) → ℕ → ℕ → List ℕ → (ℕ → B) → Type 0
  Slots f start tail [] v = Unit
  Slots f start tail (b ∷ bs) v = (f (start + tail + 1) ≡ v b) × Slots f start (suc tail) bs v

  -- What `write_log` from `tail` on leaves.
  pub record WroteLog (tail : ℕ) (bs : List ℕ) (g g' : Log B) : Type 0 where
    pub start : g'.start ≡ g.start
    pub lh : g'.lh ≡ g.lh
    pub power : g'.power ≡ g.power - length bs
    pub disk_outside :
        (n : ℕ) → (n ≤ g.start + tail) ⊎ (g.start + log_slots < n) → g'.disk n ≡ g.disk n
    pub cache_outside :
        (n : ℕ) → (n ≤ g.start + tail) ⊎ (g.start + log_slots < n) → g'.cache n ≡ g.cache n
    pub cached : Slots g'.cache g.start tail bs g.cache
    pub written : length bs ≤ g.power → Slots g'.disk g.start tail bs g.cache

  -- What a copy of block `from` to block `to` with its `bwrite` leaves.
  pub record Copied (to from : ℕ) (g g' : Log B) : Type 0 where
    pub start : g'.start ≡ g.start
    pub lh : g'.lh ≡ g.lh
    pub power : g'.power ≡ g.power - 1
    pub cache : (n : ℕ) → g'.cache n ≡ (if to == n then g.cache from else g.cache n)
    pub disk :
        (n : ℕ)
        → g'.disk n
          ≡ (if g.power == 0 then g.disk n else if to == n then g.cache from else g.disk n)

  pub copy_block-Copied : (to from : ℕ) (g : Log B) → Copied to from g (copy_block to from g)
  unfolding copy_block
  copy_block-Copied to from g = record {
    start = ground arith;
    lh = ground arith;
    power = ground arith;
    cache = λ n. ground arith;
    disk = λ n. ground arith;
  }

  pub Slots-ext :
      (f : ℕ → B) (start tail : ℕ) (bs : List ℕ) (v w : ℕ → B)
      → AllOutside start bs
      → ((n : ℕ) → Outside start n → v n ≡ w n)
      → Slots f start tail bs v
      → Slots f start tail bs w
  Slots-ext f start tail [] v w o h s = tt
  Slots-ext f start tail (b ∷ bs) v w o h s =
      (s.0 ∙ h b o.0, Slots-ext f start (suc tail) bs v w o.1 h s.1)

  WroteLog-cons :
      (tail b : ℕ) (bs : List ℕ) (g g1 g' : Log B)
      → AllOutside g.start (b ∷ bs)
      → tail + suc (length bs) ≤ log_slots
      → Copied (g.start + tail + 1) b g g1
      → WroteLog (suc tail) bs g1 g'
      → WroteLog tail (b ∷ bs) g g'
  WroteLog-cons tail b bs g g1 g' o f c w =
      let agree : (n : ℕ) → Outside g.start n → g1.cache n ≡ g.cache n =
        λ n h. ground (arith, c.cache n, h) in
      let moved : (h : ℕ → B)
          → Slots h g1.start (suc tail) bs g1.cache
          → Slots h g.start (suc tail) bs g.cache =
        λ h s.
          Slots-ext h g.start (suc tail) bs g1.cache g.cache o.1 agree
            (subst (λ k. Slots h k (suc tail) bs g1.cache) c.start s) in
      record {
        start = w.start ∙ c.start;
        lh = w.lh ∙ c.lh;
        power = omega (arith, w.power, c.power);
        disk_outside = λ n h. ground (arith, h, c.disk n, w.disk_outside n, c.start);
        cache_outside = λ n h. ground (arith, h, c.cache n, w.cache_outside n, c.start);
        cached = (
          ground
              (arith, c.cache (g.start + tail + 1), w.cache_outside (g.start + tail + 1), c.start),
          moved g'.cache w.cached,
        );
        written = λ h. (
          ground
              (arith, h, c.disk (g.start + tail + 1), w.disk_outside (g.start + tail + 1), c.start),
          moved g'.disk (w.written (omega (arith, c.power))),
        );
      }

  pub write_log_from-WroteLog :
      (tail : ℕ) (bs : List ℕ) (g : Log B)
      → AllOutside g.start bs
      → tail + length bs ≤ log_slots
      → WroteLog tail bs g (write_log_from tail bs g)
  unfolding write_log_from
  write_log_from-WroteLog tail [] g o f = record {
    start = refl;
    lh = refl;
    power = omega arith;
    disk_outside = λ n h. refl;
    cache_outside = λ n h. refl;
    cached = tt;
    written = λ h. tt;
  }
  write_log_from-WroteLog tail (b ∷ bs) g o f =
      let to = g.start + tail + 1 in
      let g1 = copy_block to b g in
      let c = copy_block-Copied to b g in
      let w = write_log_from-WroteLog (suc tail) bs g1 (rw c.start o.1) (omega arith) in
      WroteLog-cons tail b bs g g1 _ o f c w
