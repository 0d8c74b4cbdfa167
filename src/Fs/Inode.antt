-- ===== src/Fs/Inode.antt =====
-- kernel/fs.c: `bmap`, which finds or allocates the nth block of an inode.
pub mod Owned
pub mod Hang
pub mod Blocks
use operating_systems.Prelude.{
  ℕ, zero, suc, ◌+◌, ◌-◌, ◌*◌, ◌/◌, ◌%◌, Bool, true, false, ◌&&◌, not, Option, none, some, ◌==◌,
  ltb, leb, if◌then◌else◌, List, [], ◌∷◌,
}
use operating_systems.Fs.{Superblock, Disk, bit_of, word, balloc, bfree}

-- `NDIRECT`, `NINDIRECT` and `MAXFILE`
abbrev pub ndirect : ℕ
ndirect = 12

abbrev pub nindirect : ℕ
nindirect = 256

-- `inode`, of which `bmap` and `itrunc` use two fields.
pub record Inode : Type 0 where
  pub size : ℕ
  pub addrs : ℕ → ℕ

-- `f[i] = v`
abbrev pub put : ℕ → ℕ → (ℕ → ℕ) → ℕ → ℕ
put i v f j = if i == j then v else f j

-- `a[i] = v` and `log_write(bp)` for the buffer `bp` of block `b`.
abbrev pub put_word : ℕ → ℕ → ℕ → Disk → Disk
put_word b i v s = record s {
  bits = λ c y k. if b == c && i == y / 4 then bit_of v (y % 4 * 8 + k) else s.bits c y k;
  logged = b ∷ s.logged;
}

-- How a call ends: with a block, in a panic, or without fuel.
pub data Mapped : Type 0 where
  done : ℕ → Inode → Disk → Mapped
  panics starved : Mapped

module _ (sb : Superblock) (fuel : ℕ) where
  -- `addr = balloc(ip->dev); if(addr == 0) return 0; ip->addrs[i] = addr;`
  abbrev pub alloc_addr : ℕ → Inode → Option (ℕ × Disk) → Mapped
  alloc_addr i ip none = starved
  alloc_addr i ip (some (r, t)) =
      if r == 0 then done 0 ip t else done r (record ip { addrs = put i r ip.addrs }) t

  -- `ip->addrs[i]`, allocated if necessary.
  unfoldable pub load_addr : ℕ → Inode → Disk → Mapped
  load_addr i ip s =
      if ip.addrs i == 0 then alloc_addr i ip (balloc sb fuel s) else done (ip.addrs i) ip s

  -- `addr = balloc(ip->dev); if(addr){ a[k] = addr; log_write(bp); }` for the indirect block `b`.
  abbrev pub alloc_word : ℕ → ℕ → Inode → Option (ℕ × Disk) → Mapped
  alloc_word b k ip none = starved
  alloc_word b k ip (some (r, t)) = if r == 0 then done 0 ip t else done r ip (put_word b k r t)

  -- Entry `k` of the indirect block `b`, allocated if necessary.
  unfoldable pub load_word : ℕ → ℕ → Inode → Disk → Mapped
  load_word b k ip s =
      if word s b k == 0 then alloc_word b k ip (balloc sb fuel s) else done (word s b k) ip s

  -- The part of `bmap` behind the load of the indirect block.
  abbrev pub through : ℕ → Mapped → Mapped
  through k (done b ip s) = if b == 0 then done 0 ip s else load_word b k ip s
  through k panics = panics
  through k starved = starved

  unfoldable pub bmap : Inode → ℕ → Disk → Mapped
  bmap ip bn s =
      if ltb bn ndirect
      then load_addr bn ip s
      else if ltb (bn - ndirect) nindirect
      then through (bn - ndirect) (load_addr ndirect ip s)
      else panics
