-- ===== src/Files/Transfer.antt =====
-- kernel/file.c: `fileread`, `filewrite` and `filestat`. The calls into pipe.c, fs.c, the devices
-- and `copyout` are the parameter `Calls`; an `int` result is its 32-bit pattern.
pub mod Bytes
use operating_systems.Prelude.{
  ℕ, zero, suc, ◌+◌, ◌-◌, ◌*◌, ◌/◌, Bool, true, false, not, Option, none, some, ◌==◌, leb,
  if◌then◌else◌, add32, sub32, slt32, minus_one,
}
use operating_systems.Files.{File, fd_none, fd_pipe, fd_inode, fd_device}

abbrev pub ndev : ℕ
ndev = 10

-- `((MAXOPBLOCKS-1-1-2) / 2) * BSIZE`
abbrev pub max_chunk : ℕ
max_chunk = (10 - 1 - 1 - 2) / 2 * 1024

-- `n1` of `filewrite`: the bytes of the next transaction.
unfoldable pub chunk : ℕ → ℕ → ℕ
chunk n i = if slt32 max_chunk (sub32 n i) then max_chunk else sub32 n i

-- `if(r > 0) f->off += r`
unfoldable pub next_off : ℕ → ℕ → ℕ
next_off off r = if slt32 0 r then add32 off r else off

-- The inode calls stand for what is between `ilock` and `iunlock`, `writei` also for its
-- transaction. They take the inode or the pipe, where it applies the offset in the user's memory
-- and the file, and the number of bytes.
pub record Calls (S : Type 0) : Type 0 where
  pub piperead : ℕ → ℕ → S → ℕ × S
  pub pipewrite : ℕ → ℕ → S → ℕ × S
  pub devread : ℕ → Option (ℕ → S → ℕ × S)
  pub devwrite : ℕ → Option (ℕ → S → ℕ × S)
  pub readi : ℕ → ℕ → ℕ → S → ℕ × S
  pub writei : ℕ → ℕ → ℕ → ℕ → S → ℕ × S
  pub stat_out : ℕ → S → Bool × S

module _ {S : Type 0} (C : Calls S) where
  open C use {piperead, pipewrite, devread, devwrite, readi, writei, stat_out}

  pub filestat : File → S → ℕ × S
  filestat f s =
      let (copied, s') = stat_out f.ip s in
      let found : ℕ × S = (if copied then 0 else minus_one, s') in
      elim (f.kind) [
        | fd_inode ↦ found
        | fd_device ↦ found
        | fd_none ↦ (minus_one, s)
        | fd_pipe ↦ (minus_one, s)
      ]

  -- `none` is the panic.
  pub fileread : File → ℕ → S → Option (ℕ × File × S)
  unfolding next_off
  fileread f n s = if not f.readable then some (minus_one, f, s) else elim (f.kind) [
    | fd_pipe ↦ (let (r, s') = piperead f.pipe n s in some (r, f, s'))
    | fd_device ↦ if leb ndev f.major then some (minus_one, f, s) else elim (devread f.major) [
      | none ↦ some (minus_one, f, s)
      | some read ↦ (let (r, s') = read n s in some (r, f, s'))
    ]
    | fd_inode ↦
        (let (r, s') = readi f.ip f.off n s in some (r, record f { off = next_off f.off r }, s'))
    | fd_none ↦ none
  ]

  -- The loop of `filewrite` from `i` on, with fuel: where it stops, the offset, and the state.
  unfoldable pub write_chunks : ℕ → ℕ → ℕ → ℕ → ℕ → S → ℕ × ℕ × S
  unfolding chunk next_off
  write_chunks zero ip n i off s = (i, off, s)
  write_chunks (suc fuel) ip n i off s =
      let (r, s') = writei ip i off (chunk n i) s in
      let later = write_chunks fuel ip n (add32 i r) (next_off off r) s' in
      if slt32 i n then (if r == chunk n i then later else (i, next_off off r, s')) else (i, off, s)

  unfoldable pub filewrite : File → ℕ → S → Option (ℕ × File × S)
  unfolding write_chunks
  filewrite f n s = if not f.writable then some (minus_one, f, s) else elim (f.kind) [
    | fd_pipe ↦ (let (r, s') = pipewrite f.pipe n s in some (r, f, s'))
    | fd_device ↦ if leb ndev f.major then some (minus_one, f, s) else elim (devwrite f.major) [
      | none ↦ some (minus_one, f, s)
      | some write ↦ (let (r, s') = write n s in some (r, f, s'))
    ]
    | fd_inode ↦
        (let (i, off, s') = write_chunks n f.ip n 0 f.off s in
          some (if i == n then n else minus_one, record f { off = off }, s'))
    | fd_none ↦ none
  ]
