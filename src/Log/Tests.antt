-- ===== src/Log/Tests.antt =====
-- Commits of two blocks that lose power, and the room of the log.
use operating_systems.Prelude.{
  ℕ, zero, suc, ◌+◌, ◌≤◌, ◌<◌, ◌≡◌, ◌↔◌, refl, arith, inr, List, [], ◌∷◌, some, none, true, false,
  if◌then◌else◌, ◌==◌,
}
use operating_systems.Log.{
  Layout, Log, log_size, max_op_blocks, copy_block, commit, reboot, begin_op, log_write,
}
use operating_systems.Log.Region.{Outside, member}
use operating_systems.Log.Commit.{IsReady, reboot-commit, commit-installs}
use operating_systems.Log.Space.{opened, start, next, log_write-Runs}

-- A block is the header it holds, and a block with one number is that number's data.
abbrev layout : Layout (List ℕ)
layout = record { encode = λ l b. l; decode = λ b. b; decode-encode = λ l b h. refl }

-- Home block `n` holds `n`, and the cache a changed block 100 and a changed block 200. The log
-- starts at block 2, and the disk lasts for `power` writes.
abbrev changed : ℕ → Log (List ℕ)
changed power = record {
  start = 2;
  size = 30;
  outstanding = 0;
  committing = true;
  lh = 100 ∷ 200 ∷ [];
  cache =
      λ n. if n == 2 then [] else if n == 100 then 7 ∷ [] else if n == 200 then 8 ∷ [] else n ∷ [];
  disk = λ n. if n == 2 then [] else n ∷ [];
  power = power;
}

changed-IsReady : (power : ℕ) → IsReady layout (changed power)
changed-IsReady power = record {
  home = (inr (omega arith), (inr (omega arith), tt));
  fits = omega arith;
  some_block = omega arith;
  clear = refl;
}

-- Power for the two slots and the header, but for no home block.
reboot-commit_example : (reboot layout 5 (commit layout (changed 3))).disk 200 ≡ 8 ∷ []
reboot-commit_example =
    reboot-commit layout (changed 3) (changed-IsReady 3) 5 (omega arith) 200 (inr (omega arith))

-- Without power for the header, the old block is kept.
keeps_old : (reboot layout 5 (commit layout (changed 2))).disk 200 ≡ 200 ∷ []
unfolding reboot commit copy_block
keeps_old = refl

commit-installs_example :
    ((commit layout (changed 9)).lh ≡ [])
    × ((commit layout (changed 9)).disk 2 ≡ [])
    × ((n : ℕ)
        → Outside 2 n
        → (commit layout (changed 9)).disk n
          ≡ (if member n (100 ∷ 200 ∷ []) then (changed 9).cache n else (changed 9).disk n))
commit-installs_example = commit-installs layout (changed 9) (changed-IsReady 9) (omega arith)

-- `mkfs` gives the log 30 blocks. One operation is open.
abbrev empty_log : Log (List ℕ)
empty_log = record (changed 9) { lh = []; committing = false }

abbrev open_log : Log (List ℕ)
open_log = record empty_log { outstanding = 1 }

opens : begin_op empty_log ≡ some open_log
unfolding begin_op
opens = refl

log_write-Runs_example : ((log_write 100 open_log ≡ none) ↔ (30 ≤ 1)) × (0 < log_size)
log_write-Runs_example =
    log_write-Runs layout empty_log (record { log = open_log; ops = max_op_blocks ∷ [] }) [] [] 9
      100 refl refl (next start (opened opens refl)) refl

-- Three operations of 10 writes are let in together, and their 30th block panics.
abbrev blocks : ℕ → List ℕ
blocks zero = []
blocks (suc n) = (100 + n) ∷ blocks n

panics : log_write 400 (record empty_log { outstanding = 3; lh = blocks 29 }) ≡ none
unfolding log_write
panics = refl
