-- ===== src/Strings/Text.antt =====
-- The functions on strings that end in NUL.
use mathlib.Core.Path.{subst}
use operating_systems.Prelude.{
  ℕ, zero, suc, ◌+◌, ◌-◌, ◌≤◌, ◌<◌, ◌≡◌, ◌≢◌, refl, ap, false, ◌==◌, arith, slt32, i32_sign,
  slt32-of_lt, dec_lt, Bool-cases, inl, inr, ◌⊎◌, some,
}
use operating_systems.Strings.{Memory, store, strlen, safestrcpy_from, safestrcpy}
use operating_systems.Strings.Move.{inside}

-- From a distance before the first NUL on, and with fuel for one round more than the distance to it,
-- `strlen` returns that NUL's distance from the start.
pub strlen_lem :
    (fuel s n k : ℕ) (m : Memory)
    → ((i : ℕ) → n ≤ i → i < k → m (s + i) ≢ 0)
    → m (s + k) ≡ 0
    → n ≤ k
    → k < n + fuel
    → strlen fuel s n m ≡ some k
unfolding strlen
strlen_lem zero s n k m text end h f = absurd (omega arith)
strlen_lem (suc fuel) s n k m text end h f = elim (Bool-cases (m (s + n) == 0)) [
  | inl stop ↦
      rw (stop, strlen)
        (ap some (elim (dec_lt n k) [
          | yes l ↦ absurd (text n (omega arith) l (ground (arith, stop)))
          | no g ↦ omega arith
        ]))
  | inr more ↦
      let later : n + 1 ≤ k = elim (dec_lt n k) [
        | yes l ↦ omega arith
        | no g ↦ let here : n ≡ k = omega arith in absurd (ground (arith, more, end, here))
      ] in
      rw (more, strlen)
        (strlen_lem fuel s (n + 1) k m (λ i l. text i (omega arith)) end later (omega arith))
]

-- The memory `m'` holds at `s` a copy of the string at `t` of `m`, cut to fit `n` bytes with its
-- NUL, and differs from `m` only inside these `n` bytes.
pub record IsCopy (s t n : ℕ) (m m' : Memory) : Type 0 where
  pub size : ℕ
  pub room : size < n
  pub ends : m' (s + size) ≡ 0
  pub same : (i : ℕ) → i < size → m' (s + i) ≡ m (t + i)
  pub text : (i : ℕ) → i < size → m (t + i) ≢ 0
  pub cut : (size + 1 ≡ n) ⊎ (m (t + size) ≡ 0)
  pub apart : (q : ℕ) → inside s n q ≡ false → m' q ≡ m q

-- One more byte that is no NUL in front of a copy.
IsCopy-step :
    (s t n : ℕ) (m m' : Memory)
    → ((t + suc n < s) ⊎ (s + suc n < t))
    → m t ≢ 0
    → IsCopy (s + 1) (t + 1) (n + 1) (store s (m t) m) m'
    → IsCopy s t (suc n + 1) m m'
IsCopy-step s t n m m' h ne c = record {
  size = suc c.size;
  room = omega (arith, c.room);
  ends = ground (arith, c.ends);
  same = λ i l. ground (arith, c.apart s, c.same (i - 1), c.room);
  text = λ i l. ground (arith, ne, c.text (i - 1), c.room);
  cut = ground (arith, c.cut, c.room);
  apart = λ q o. ground (arith, c.apart q);
}

safestrcpy_from-IsCopy :
    (s t n : ℕ) (m : Memory)
    → ((t + n < s) ⊎ (s + n < t))
    → IsCopy s t (n + 1) m (safestrcpy_from s t n m)
unfolding safestrcpy_from
safestrcpy_from-IsCopy s t zero m h = record {
  size = 0;
  room = omega arith;
  ends = ground arith;
  same = λ i l. absurd (omega arith);
  text = λ i l. absurd (omega arith);
  cut = inl (omega arith);
  apart = λ q o. ground arith;
}
safestrcpy_from-IsCopy s t (suc n) m h = elim (Bool-cases (m t == 0)) [
  | inl end ↦
      rw (end, safestrcpy_from)
        (record {
          size = 0;
          room = omega arith;
          ends = ground (arith, end);
          same = λ i l. absurd (omega arith);
          text = λ i l. absurd (omega arith);
          cut = inr (ground (arith, end));
          apart = λ q o. ground (arith, end);
        })
  | inr more ↦
      rw (more, safestrcpy_from)
        (IsCopy-step s t n m _ h (ground (arith, more))
          (safestrcpy_from-IsCopy (s + 1) (t + 1) n (store s (m t) m) (omega arith)))
]

-- For a positive size and a source apart from the destination, `safestrcpy` leaves a copy of the
-- source string that ends in NUL inside the `n` bytes, and changes nothing outside them; for a size
-- that is zero or negative it changes nothing.
pub safestrcpy_lem :
    (s t n : ℕ) (m : Memory)
    → ((t + n ≤ s) ⊎ (s + n ≤ t))
    → (0 < n → n < i32_sign → IsCopy s t n m (safestrcpy s t n m))
      × (slt32 0 n ≡ false → safestrcpy s t n m ≡ m)
unfolding safestrcpy
safestrcpy_lem s t n m h = (
  λ pos small. rw (slt32-of_lt 0 n small pos) (
      subst (λ k. IsCopy s t k m (safestrcpy_from s t (n - 1) m)) (omega arith)
        (safestrcpy_from-IsCopy s t (n - 1) m (omega arith))),
  λ neg. rw neg refl,
)
