-- ===== src/Log/Crash.antt =====
-- Crash safety: a commit that loses power at any block write is recovered as a whole or not at all.
use mathlib.Core.Path.{subst}
use operating_systems.Prelude.{
  ℕ, ◌-◌, ◌≤◌, ◌<◌, ◌≡◌, ◌∙◌, false, List, [], arith, ◌==◌, if◌then◌else◌, length, inl, inr,
  Bool-cases,
}
use operating_systems.Log.{
  Log, Layout, install_from, install_trans, read_head, write_head, recover_from_log, reboot,
  log_slots,
}
use operating_systems.Log.Region.{Outside, AllOutside, member, Slots}
use operating_systems.Log.Install.{install_from-Installed}

module _ {B : Type 0} (lay : Layout B) where
  open lay use {encode, decode}

  -- What `write_head` leaves.
  pub record WroteHead (g g' : Log B) : Type 0 where
    pub start : g'.start ≡ g.start
    pub lh : g'.lh ≡ g.lh
    pub power : g'.power ≡ g.power - 1
    pub cache : (n : ℕ) → (g.start == n) ≡ false → g'.cache n ≡ g.cache n
    pub disk : (n : ℕ) → (g.start == n) ≡ false → g'.disk n ≡ g.disk n
    pub dead : g.power ≡ 0 → (n : ℕ) → g'.disk n ≡ g.disk n
    pub header : 0 < g.power → length g.lh ≤ log_slots → decode (g'.disk g.start) ≡ g.lh

  pub write_head-WroteHead : (g : Log B) → WroteHead g (write_head lay g)
  unfolding write_head
  write_head-WroteHead g = record {
    start = ground arith;
    lh = ground arith;
    power = ground arith;
    cache = λ n h. ground arith;
    disk = λ n h. ground arith;
    dead = λ h n. ground arith;
    header = λ h l. ground (arith, lay.decode-encode g.lh (g.cache g.start) (omega (arith, l)));
  }

  -- What recovery makes of the home blocks.
  recover-disk :
      (g : Log B) (v : ℕ → B)
      → length (decode (g.cache g.start)) ≤ log_slots
      → AllOutside g.start (decode (g.cache g.start))
      → Slots g.cache g.start 0 (decode (g.cache g.start)) v
      → length (decode (g.cache g.start)) ≤ g.power
      → (n : ℕ) → Outside g.start n
      → (recover_from_log lay g).disk n
        ≡ (if member n (decode (g.cache g.start)) then v n else g.disk n)
  unfolding recover_from_log install_trans read_head
  recover-disk g v small home slots enough n out =
      let bs = decode (g.cache g.start) in
      let r = read_head lay g in
      let i = install_from-Installed 0 bs v r home (omega arith) slots in
      let cleared = record (install_from 0 bs r) { lh = [] } in
      let h = write_head-WroteHead cleared in
      h.disk n (ground (arith, i.start, out)) ∙ elim (Bool-cases (member n bs)) [
        | inl m ↦ rw m (i.disk_new enough n m)
        | inr m ↦ rw m (i.disk_fixed n m)
      ]

  -- After a restart with power for the whole recovery, the home blocks that the header on disk
  -- names hold what the log holds for them, and the others what they held.
  pub reboot-disk :
      (power : ℕ) (g : Log B) (bs : List ℕ) (v : ℕ → B)
      → decode (g.disk g.start) ≡ bs
      → length bs ≤ log_slots
      → AllOutside g.start bs
      → Slots g.disk g.start 0 bs v
      → length bs ≤ power
      → (n : ℕ) → Outside g.start n
      → (reboot lay power g).disk n ≡ (if member n bs then v n else g.disk n)
  reboot-disk power g bs v header small home slots enough n out =
      subst
        (λ l.
          length l ≤ log_slots
          → AllOutside g.start l
          → Slots g.disk g.start 0 l v
          → length l ≤ power
          → (reboot lay power g).disk n ≡ (if member n l then v n else g.disk n))
        header
        (λ a b c d.
          unfold reboot in
          recover-disk
            (record g {
              lh = [];
              outstanding = 0;
              committing = false;
              cache = g.disk;
              power = power;
            })
            v a b c d n out)
        small home slots enough
