-- ===== src/Fs.antt =====
-- xv6-Lottery-Scheduler-Offline-03/kernel/fs.c and fs.h: the blocks of the disk, the block map of an
-- inode, and path names. A block is read and written in place; `logged` holds the blocks that
-- `log_write` was called with, the last one first. A block is its bits, by byte and bit, and a word
-- of an indirect block is read from 32 of them, the lowest one first.
pub mod Words
pub mod Bitmap
pub mod Inode
pub mod Path
pub mod Names
mod Tests
use operating_systems.Prelude.{
  ℕ, zero, suc, ◌+◌, ◌-◌, ◌*◌, ◌/◌, ◌%◌, Bool, true, false, ◌&&◌, not, Option, none, some, ◌==◌,
  ltb, leb, if◌then◌else◌, List, [], ◌∷◌,
}

-- `BPB`
abbrev pub bpb : ℕ
bpb = 8192

-- `superblock`, of which these functions read two fields.
pub record Superblock : Type 0 where
  pub size : ℕ
  pub bmapstart : ℕ

-- `BBLOCK(b, sb)`
abbrev pub bblock : Superblock → ℕ → ℕ
bblock sb b = b / bpb + sb.bmapstart

pub record Disk : Type 0 where
  pub bits : ℕ → ℕ → ℕ → Bool
  pub logged : List ℕ

-- The number with these `n` bits, the lowest one first.
unfoldable pub of_bits : ℕ → (ℕ → Bool) → ℕ
of_bits zero f = 0
of_bits (suc n) f = (if f 0 then 1 else 0) + 2 * of_bits n (λ j. f (suc j))

-- Bit `j` of a number.
unfoldable pub bit_of : ℕ → ℕ → Bool
bit_of v zero = v % 2 == 1
bit_of v (suc j) = bit_of (v / 2) j

-- `a[i]` for the data `a` of block `b`, an array of `uint`.
abbrev pub word : Disk → ℕ → ℕ → ℕ
word s b i = of_bits 32 (λ j. s.bits b (4 * i + j / 8) (j % 8))

-- `bp->data[i] |= m` and `bp->data[i] &= ~m`, for the mask `m` of bit `k`.
abbrev pub set_bit : ℕ → ℕ → ℕ → Bool → (ℕ → ℕ → ℕ → Bool) → ℕ → ℕ → ℕ → Bool
set_bit bno i k v f bno' i' k' = if bno == bno' && (i == i' && k == k') then v else f bno' i' k'

-- `bzero`
abbrev pub bzero : ℕ → Disk → Disk
bzero bno s = record {
  bits = λ b i k. if bno == b then false else s.bits b i k;
  logged = bno ∷ s.logged;
}

module _ (sb : Superblock) where
  -- The inner loop of `balloc`, with `n` rounds left: the first clear bit.
  unfoldable pub free_bit : ℕ → ℕ → ℕ → Disk → Option ℕ
  free_bit zero b bi s = none
  free_bit (suc n) b bi s =
      let rest = free_bit n b (bi + 1) s in
      if not (ltb (b + bi) sb.size)
      then none
      else if s.bits (bblock sb b) (bi / 8) (bi % 8)
      then rest
      else some bi

  -- What `balloc` does with a clear bit: it marks the block in use and clears it.
  abbrev pub take_block : ℕ → ℕ → Disk → Disk
  take_block b bi s = bzero (b + bi) (record s {
    bits = set_bit (bblock sb b) (bi / 8) (bi % 8) true s.bits;
    logged = bblock sb b ∷ s.logged;
  })

  -- The outer loop of `balloc`, on fuel. An `int b` does not wrap: an image has far fewer blocks.
  unfoldable pub balloc_from : ℕ → ℕ → Disk → Option (ℕ × Disk)
  balloc_from zero b s = none
  balloc_from (suc fuel) b s =
      let rest = balloc_from fuel (b + bpb) s in
      if not (ltb b sb.size)
      then some (0, s)
      else elim (free_bit bpb b 0 s) [ none ↦ rest | some bi ↦ some (b + bi, take_block b bi s) ]

  -- `balloc`: the block, or 0.
  unfoldable pub balloc : ℕ → Disk → Option (ℕ × Disk)
  unfolding balloc_from
  balloc fuel s = balloc_from fuel 0 s

  -- `bfree`; `none` is its panic.
  unfoldable pub bfree : ℕ → Disk → Option Disk
  bfree b s =
      let bi = b % bpb in
      if not (s.bits (bblock sb b) (bi / 8) (bi % 8))
      then none
      else some (record s {
        bits = set_bit (bblock sb b) (bi / 8) (bi % 8) false s.bits;
        logged = bblock sb b ∷ s.logged;
      })
