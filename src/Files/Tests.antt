-- ===== src/Files/Tests.antt =====
-- A table of two files, the second one open as the write end of a pipe.
use operating_systems.Prelude.{
  ℕ, zero, suc, ◌≡◌, ◌==◌, refl, arith, true, false, none, some, List, [], ◌∷◌, get_elem?,
  if◌then◌else◌,
}
use operating_systems.Files.{
  File, fd_none, fd_pipe, filealloc, fileclose, nothing, closing, closes_pipe,
}
use operating_systems.Prelude.{◌+◌, ◌-◌, ◌≤◌, ◌⊎◌, inl, inr, false, ltb, leb, minus_one, Bool-cases}
use operating_systems.Files.{fd_inode}
use operating_systems.Files.Transfer.{Calls, chunk, next_off, write_chunks, filewrite}
use operating_systems.Files.Transfer.Bytes.{inside, Wrote, WriteiLaw, FallsShort, filewrite-Wrote}
use operating_systems.Files.Refs.{Counts, holders, fileclose-Counts}

abbrev closed_file : File
closed_file = record {
  kind = fd_none;
  ref = 0;
  readable = false;
  writable = false;
  pipe = 0;
  ip = 0;
  off = 0;
  major = 0;
}

abbrev pipe_file : File
pipe_file = record {
  kind = fd_pipe;
  ref = 1;
  readable = false;
  writable = true;
  pipe = 4;
  ip = 0;
  off = 0;
  major = 0;
}

abbrev files : List File
files = closed_file ∷ pipe_file ∷ []

files-Counts : Counts (1 ∷ []) files
unfolding holders
files-Counts = record { refs = refs_of; outside = outside_of }
  where
    refs_of : (i : ℕ) (f : File) → get_elem? files i ≡ some f → f.ref ≡ holders i (1 ∷ [])
    refs_of zero f h = ground (arith, h)
    refs_of (suc zero) f h = ground (arith, h)
    refs_of (suc (suc i)) f h = absurd (ground (arith, h))

    outside_of : (i : ℕ) → get_elem? files i ≡ none → holders i (1 ∷ []) ≡ 0
    outside_of zero h = absurd (ground (arith, h))
    outside_of (suc zero) h = absurd (ground (arith, h))
    outside_of (suc (suc i)) h = ground arith

abbrev opened : List File
opened = record closed_file { ref = 1 } ∷ pipe_file ∷ []

opens : filealloc files ≡ some (0, opened)
unfolding filealloc
opens = refl

fileclose-Counts_example :
    (f : File) × (gs : List File) × (get_elem? files 1 ≡ some f)
    × (fileclose 1 files ≡ some (gs, if holders 1 [] == 0 then closing f else nothing))
    × Counts [] gs
fileclose-Counts_example = fileclose-Counts [] files 1 files-Counts (omega arith)

closes : (r : List File) × (fileclose 1 files ≡ some (r, closes_pipe 4 true))
unfolding fileclose closing
closes = (_, refl)

-- The bytes of the inodes, where an inode holds up to five blocks: a write past their end is cut, and
-- one that starts past it fails.
abbrev room : ℕ → ℕ → ℕ
room off k = if leb (off + k) 5120 then k else 5120 - off

abbrev write_bytes : ℕ → ℕ → ℕ → ℕ → (ℕ → ℕ → ℕ) → ℕ → ℕ → ℕ
write_bytes ip at off m c j q = if inside ip off m j q then at + (q - off) + 7 else c j q

abbrev calls : Calls (ℕ → ℕ → ℕ)
calls = record {
  piperead = λ p n s. (0, s);
  pipewrite = λ p n s. (0, s);
  devread = λ m. none;
  devwrite = λ m. none;
  readi = λ i o n s. (0, s);
  writei = λ i a o k s.
      if ltb 5120 o then (minus_one, s) else (room o k, write_bytes i a o (room o k) s);
  stat_out = λ i s. (true, s);
}

-- The caller's buffer holds 7, 8, 9 and so on.
abbrev buffer : ℕ → ℕ
buffer q = q + 7

calls-WriteiLaw : WriteiLaw calls (λ s. s) buffer
calls-WriteiLaw ip at off k s le = elim (Bool-cases (ltb 5120 off)) [
  | inl over ↦ rw over (
      inl (refl, record { bytes = λ q l h. absurd (omega (arith, l, h)); outside = λ j q h. refl }))
  | inr fits ↦ rw fits (
      inr (
        ground (arith, fits),
        record {
          bytes = λ q l h.
              let here : inside ip off (room off k) ip q ≡ true = ground (arith, l, h) in
              rw here refl;
          outside = λ j q h.
              let there : inside ip off (room off k) j q ≡ false = ground (arith, h) in
              rw there refl;
        },
      ))
]

abbrev inode_file : File
inode_file = record pipe_file { kind = fd_inode }

abbrev blank : ℕ → ℕ → ℕ
blank j q = 0

-- Of 4000 bytes, written in two rounds, all fit; of 8000 the first 5120.
writes_all :
    (s : ℕ → ℕ → ℕ) × (filewrite calls inode_file 4000 blank
      ≡ some (4000, record inode_file { off = 4000 }, s))
unfolding filewrite write_chunks chunk next_off
writes_all = (_, refl)

filewrite-Wrote_example :
    (m : ℕ) × (s1 : ℕ → ℕ → ℕ) × (m ≤ 8000)
    × (filewrite calls inode_file 8000 blank
        ≡ some (if m == 8000 then 8000 else minus_one, record inode_file { off = 0 + m }, s1))
    × Wrote calls (λ s. s) buffer 0 0 0 8000 m blank s1
    × ((m ≡ 8000) ⊎ FallsShort calls (λ s. s) buffer 0 8000 0)
filewrite-Wrote_example =
    filewrite-Wrote calls (λ s. s) buffer inode_file 8000 blank calls-WriteiLaw refl refl
      (omega arith)
