-- ===== src/Log.antt =====
-- xv6-Lottery-Scheduler-Offline-03/kernel/log.c: the write-ahead log of the file system.
-- A block's contents are an abstract type. `cache` is what `bread` returns for a block number, and
-- `bwrite` copies one block of it to `disk`. The disk loses power after `power` more block writes:
-- from then on nothing reaches it, and what `disk` holds is what the next start finds.
pub mod Region
pub mod Install
pub mod Crash
pub mod Commit
pub mod Space
mod Tests
use operating_systems.Prelude.{
  ℕ, zero, suc, ◌+◌, ◌-◌, ◌*◌, ◌≤◌, ◌≡◌, Bool, true, false, ◌||◌, not, Option, none, some, List, [],
  ◌∷◌, ◌++◌, ◌==◌, leb, sub32, add32, slt32, u32_mod, ◌%◌, if◌then◌else◌, length,
}

-- `MAXOPBLOCKS` and `LOGSIZE` of kernel/param.h.
abbrev pub max_op_blocks : ℕ
max_op_blocks = 10

abbrev pub log_size : ℕ
log_size = 30

-- `mkfs` gives the log `LOGSIZE` blocks, and the first of them is the header.
abbrev pub log_slots : ℕ
log_slots = 29

-- How a `struct logheader` lies in a block: the compiler's layout, which is not written in the
-- source. `encode l b` is block `b` with the header of the block numbers `l` stored over it.
pub record Layout (B : Type 0) : Type 0 where
  pub encode : List ℕ → B → B
  pub decode : B → List ℕ
  pub decode-encode : (l : List ℕ) (b : B) → length l ≤ log_size → decode (encode l b) ≡ l

-- `log`, with `outstanding` a 32-bit pattern, the block numbers of `lh`, and the disk behind it.
pub record Log (B : Type 0) : Type 0 where
  pub start : ℕ
  pub size : ℕ
  pub outstanding : ℕ
  pub committing : Bool
  pub lh : List ℕ
  pub cache : ℕ → B
  pub disk : ℕ → B
  pub power : ℕ

abbrev pub put {ℓ} : {B : Type ℓ} → ℕ → B → (ℕ → B) → ℕ → B
put n v f q = if n == q then v else f q

-- The search of `log_write`, and its store: the block numbers, and whether one was added.
pub absorb : ℕ → List ℕ → List ℕ × Bool
absorb n [] = (n ∷ [], true)
absorb n (b ∷ bs) =
    let (rest, added) = absorb n bs in if b == n then (b ∷ bs, false) else (b ∷ rest, added)

module _ {B : Type 0} where
  -- `bwrite`
  pub bwrite : ℕ → Log B → Log B
  bwrite n g =
      if g.power == 0 then g else record g { disk = put n (g.cache n) g.disk; power = g.power - 1 }

  -- `memmove(to->data, from->data, BSIZE)` between two buffers, and `bwrite(to)`.
  pub copy_block : ℕ → ℕ → Log B → Log B
  unfolding bwrite
  copy_block to from g = bwrite to (record g { cache = put to (g.cache from) g.cache })

  -- The loop of `write_log` from `tail` on, over the blocks that are left.
  pub write_log_from : ℕ → List ℕ → Log B → Log B
  write_log_from tail [] g = g
  write_log_from tail (b ∷ bs) g =
      write_log_from (suc tail) bs (copy_block (g.start + tail + 1) b g)

  pub write_log : Log B → Log B
  unfolding write_log_from
  write_log g = write_log_from 0 g.lh g

  -- The loop of `install_trans` from `tail` on. Pins are not counted here.
  pub install_from : ℕ → List ℕ → Log B → Log B
  install_from tail [] g = g
  install_from tail (b ∷ bs) g = install_from (suc tail) bs (copy_block b (g.start + tail + 1) g)

  pub install_trans : Log B → Log B
  unfolding install_from
  install_trans g = install_from 0 g.lh g

  module _ (lay : Layout B) where
    open lay use {encode, decode}

    pub read_head : Log B → Log B
    read_head g = record g { lh = decode (g.cache g.start) }

    pub write_head : Log B → Log B
    unfolding bwrite
    write_head g =
        bwrite g.start (record g { cache = put g.start (encode g.lh (g.cache g.start)) g.cache })

    pub recover_from_log : Log B → Log B
    unfolding read_head install_trans write_head
    recover_from_log g =
        let installed = install_trans (read_head g) in write_head (record installed { lh = [] })

    pub commit : Log B → Log B
    unfolding write_log install_trans write_head
    commit g =
        if length g.lh == 0
        then g
        else (let installed = install_trans (write_head (write_log g)) in
            write_head (record installed { lh = [] }))

    -- `end_op`: `none` is its panic.
    pub end_op : Log B → Option (Log B)
    unfolding commit
    end_op g =
        let ended = record g { outstanding = sub32 g.outstanding 1 } in
        if g.committing
        then none
        else if ended.outstanding == 0
        then (let done = commit (record ended { committing = true }) in
            some (record done { committing = false }))
        else some ended

    -- The machine starts again: the cache is empty, so `bread` reads the disk, and `initlog` runs
    -- its recovery. `power` is how many block writes the disk lasts this time.
    pub reboot : ℕ → Log B → Log B
    unfolding recover_from_log
    reboot power g =
        recover_from_log
          (record g { lh = []; outstanding = 0; committing = false; cache = g.disk; power = power })

  -- One round of the loop of `begin_op`: `none` is `sleep`.
  pub begin_op : Log B → Option (Log B)
  begin_op g =
      if g.committing
      then none
      else if slt32 log_size (add32 (length g.lh) (add32 g.outstanding 1 * max_op_blocks % u32_mod))
      then none
      else some (record g { outstanding = add32 g.outstanding 1 })

  -- `log_write` of block `n`: `none` is a panic.
  pub log_write : ℕ → Log B → Option (Log B)
  unfolding absorb
  log_write n g =
      if leb log_size (length g.lh) || leb (g.size - 1) (length g.lh)
      then none
      else if slt32 g.outstanding 1
      then none
      else some (record g { lh = (absorb n g.lh).0 })
