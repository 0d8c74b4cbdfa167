-- ===== src/Fs/Words.antt =====
-- The words of a block, and what a change of its bits does to them.
use operating_systems.Prelude.{
  ℕ, zero, suc, ◌+◌, ◌*◌, ◌/◌, ◌%◌, ◌^◌, ◌<◌, ◌≡◌, refl, ◌∙◌, arith, Bool, true, false, ◌&&◌, ◌==◌,
  if◌then◌else◌, Bool-cases, inl, inr,
}
use operating_systems.Fs.{Disk, of_bits, bit_of, word}
use operating_systems.Fs.Inode.{put_word}

of_bits_cong : (n : ℕ) (f g : ℕ → Bool) → ((j : ℕ) → j < n → f j ≡ g j) → of_bits n f ≡ of_bits n g
unfolding of_bits
of_bits_cong zero f g h = refl
of_bits_cong (suc n) f g h =
    let first : f 0 ≡ g 0 = h 0 (omega arith) in
    let rest = of_bits_cong n (λ j. f (suc j)) (λ j. g (suc j)) (λ j l. h (suc j) (omega arith)) in
    rw (first, rest) refl

-- A number below 2 ^ n is its `n` lowest bits.
of_bits-bit_of : (n v : ℕ) → v < 2 ^ n → of_bits n (bit_of v) ≡ v
unfolding of_bits bit_of
of_bits-bit_of zero v h = omega arith
of_bits-bit_of (suc n) v h =
    let half : v / 2 < 2 ^ n = omega arith in
    let ih = of_bits-bit_of n (v / 2) half in
    elim (Bool-cases (v % 2 == 1)) [
      | inl e ↦ rw (e, ih) (ground (arith, e))
      | inr e ↦ rw (e, ih) (ground (arith, e))
    ]

pub word_cong :
    (s t : Disk) (b i : ℕ)
    → ((y k : ℕ) → y / 4 ≡ i → k < 8 → t.bits b y k ≡ s.bits b y k)
    → word t b i ≡ word s b i
word_cong s t b i h =
    of_bits_cong 32 (λ j. t.bits b (4 * i + j / 8) (j % 8)) (λ j. s.bits b (4 * i + j / 8) (j % 8))
      (λ j l. h (4 * i + j / 8) (j % 8) (omega arith) (omega arith))

pub word_zero : (t : Disk) (b i : ℕ) → ((y k : ℕ) → t.bits b y k ≡ false) → word t b i ≡ 0
unfolding of_bits
word_zero t b i h =
    of_bits_cong 32 (λ j. t.bits b (4 * i + j / 8) (j % 8)) (λ j. false)
      (λ j l. h (4 * i + j / 8) (j % 8))

pub word-put_word :
    (b i v : ℕ) (s : Disk)
    → v < 2 ^ 32
    → (c j : ℕ) → word (put_word b i v s) c j ≡ (if b == c && i == j then v else word s c j)
word-put_word b i v s small c j = elim (Bool-cases (b == c && i == j)) [
  | inl e ↦
      let bits : (k : ℕ) → k < 32 → (put_word b i v s).bits c (4 * j + k / 8) (k % 8) ≡ bit_of v k =
        λ k l.
          let at : (b == c && i == (4 * j + k / 8) / 4) ≡ true = ground (arith, e) in
          let place : (4 * j + k / 8) % 4 * 8 + k % 8 ≡ k = omega arith in rw (at, place) refl in
      rw e (
        of_bits_cong 32 (λ k. (put_word b i v s).bits c (4 * j + k / 8) (k % 8)) (bit_of v) bits
        ∙ of_bits-bit_of 32 v small)
  | inr e ↦ rw e (
      word_cong s (put_word b i v s) c j
        (λ y k at l. let other : (b == c && i == y / 4) ≡ false = rw at e in rw other refl))
]
