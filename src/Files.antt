-- ===== src/Files.antt =====
-- xv6-Lottery-Scheduler-Offline-03/kernel/file.c: the reference counts of the open files. A
-- `struct file *` is its index in `ftable.file`.
pub mod Refs
pub mod Transfer
mod Tests
use operating_systems.Prelude.{
  ℕ, zero, suc, Bool, Option, none, some, List, [], ◌∷◌, ◌==◌, if◌then◌else◌, add32, sub32, slt32,
  set, get_elem?,
}

-- `type` of `struct file`
pub data FileType : Type 0 where
  fd_none fd_pipe fd_inode fd_device : FileType

-- `struct file`, its pipe and its inode as indices.
pub record File : Type 0 where
  pub kind : FileType
  pub ref : ℕ
  pub readable : Bool
  pub writable : Bool
  pub pipe : ℕ
  pub ip : ℕ
  pub off : ℕ
  pub major : ℕ

-- The search of `filealloc`, and its store. `none` is its result 0.
pub filealloc : List File → Option (ℕ × List File)
filealloc [] = none
filealloc (f ∷ fs) =
    if f.ref == 0
    then some (0, record f { ref = 1 } ∷ fs)
    else elim (filealloc fs) [ none ↦ none | some (i, gs) ↦ some (suc i, f ∷ gs) ]

-- `filedup`; `none` is its panic, or an index outside the table.
pub filedup : ℕ → List File → Option (List File)
filedup i fs = elim (get_elem? fs i) [
  | none ↦ none
  | some f ↦ if slt32 f.ref 1 then none else some (set fs i (record f { ref = add32 f.ref 1 }))
]

-- What `fileclose` gives back behind the table's update.
pub data Closing : Type 0 where
  nothing : Closing
  closes_pipe : ℕ → Bool → Closing
  puts_inode : ℕ → Closing

-- The last part of `fileclose`, on the copy of the file.
pub closing : File → Closing
closing f = elim (f.kind) [
  | fd_pipe ↦ closes_pipe f.pipe f.writable
  | fd_inode ↦ puts_inode f.ip
  | fd_device ↦ puts_inode f.ip
  | fd_none ↦ nothing
]

-- `fileclose`; `none` is its panic, or an index outside the table.
pub fileclose : ℕ → List File → Option (List File × Closing)
unfolding closing
fileclose i fs = elim (get_elem? fs i) [
  | none ↦ none
  | some f ↦
      let left = sub32 f.ref 1 in
      if slt32 f.ref 1
      then none
      else if slt32 0 left
      then some (set fs i (record f { ref = left }), nothing)
      else some (set fs i (record f { ref = 0; kind = fd_none }), closing (record f { ref = left }))
]
