-- ===== src/Log/Commit.antt =====
-- A commit that loses power at any block write, and the recovery after it.
use mathlib.Core.Path.{subst}
use operating_systems.Prelude.{
  ℕ, ◌+◌, ◌≤◌, ◌<◌, ◌≡◌, ap, sym, ◌∙◌, false, ◌&&◌, [], arith, ◌==◌, ltb, if◌then◌else◌, length,
  ◌⊎◌, inl, inr, Bool-cases, dec_lt,
}
use operating_systems.Log.{
  Log, Layout, write_log, install_from, install_trans, write_head, commit, reboot, log_slots,
}
use operating_systems.Log.Region.{
  Outside, AllOutside, member, Slots, WroteLog, write_log_from-WroteLog,
}
use operating_systems.Log.Install.{Slots-agree, member-outside, Installed, install_from-Installed}
use operating_systems.Log.Crash.{WroteHead, write_head-WroteHead, reboot-disk}

-- A transaction that can be committed: its blocks are home blocks and fit the log, and the header
-- on disk names none.
pub record IsReady {B : Type 0} (lay : Layout B) (g : Log B) : Type 0 where
  pub home : AllOutside g.start g.lh
  pub fits : length g.lh ≤ log_slots
  pub some_block : 0 < length g.lh
  pub clear : lay.decode (g.disk g.start) ≡ []

module _ {B : Type 0} (lay : Layout B) (g : Log B) (ready : IsReady lay g) where
  open lay use {decode}
  open ready use {home, fits, some_block, clear}

  -- The states between the steps of `commit`.
  abbrev logged : Log B
  logged = write_log g

  abbrev marked : Log B
  marked = write_head lay logged

  abbrev installed : Log B
  installed = install_trans marked

  abbrev cleared : Log B
  cleared = write_head lay (record installed { lh = [] })

  commit-cleared : commit lay g ≡ cleared
  unfolding commit
  commit-cleared = ground (arith, some_block)

  logged-WroteLog : WroteLog 0 g.lh g logged
  unfolding write_log
  logged-WroteLog = write_log_from-WroteLog 0 g.lh g home (omega (arith, fits))

  marked-WroteHead : WroteHead lay logged marked
  marked-WroteHead = write_head-WroteHead lay logged

  marked-start : marked.start ≡ g.start
  marked-start = marked-WroteHead.start ∙ logged-WroteLog.start

  marked-lh : marked.lh ≡ g.lh
  marked-lh = marked-WroteHead.lh ∙ logged-WroteLog.lh

  marked-Slots : Slots marked.cache g.start 0 g.lh g.cache
  marked-Slots =
      Slots-agree logged.cache marked.cache g.start 0 g.lh g.cache (omega (arith, fits))
        (λ n l h. sym (marked-WroteHead.cache n (ground (arith, l, logged-WroteLog.start))))
        logged-WroteLog.cached

  installed-Installed : Installed g.lh g.cache marked installed
  unfolding install_trans
  installed-Installed =
      subst (λ l. Installed g.lh g.cache marked (install_from 0 l marked)) (sym marked-lh)
        (install_from-Installed 0 g.lh g.cache marked (rw marked-start home) (omega (arith, fits))
          (subst (λ k. Slots marked.cache k 0 g.lh g.cache) (sym marked-start) marked-Slots))

  cleared-WroteHead : WroteHead lay (record installed { lh = [] }) cleared
  cleared-WroteHead = write_head-WroteHead lay (record installed { lh = [] })

  cleared-start : cleared.start ≡ g.start
  cleared-start = cleared-WroteHead.start ∙ installed-Installed.start ∙ marked-start

  -- Too little power for the header: no home block and no header has changed.
  early :
      g.power ≤ length g.lh
      → (n : ℕ) → (n ≤ g.start) ⊎ (g.start + log_slots < n)
      → cleared.disk n ≡ g.disk n
  early short n h =
      cleared-WroteHead.dead
        (omega
          (arith, installed-Installed.power, marked-WroteHead.power, logged-WroteLog.power, short))
        n
      ∙ installed-Installed.dead
          (omega (arith, marked-WroteHead.power, logged-WroteLog.power, short)) n
      ∙ marked-WroteHead.dead (omega (arith, logged-WroteLog.power, short)) n
      ∙ logged-WroteLog.disk_outside n (omega (arith, h))

  -- The home blocks of the disk that a commit leaves, by what power it had.
  abbrev pub settled : ℕ → B
  settled n = if ltb (length g.lh) g.power && member n g.lh then g.cache n else g.disk n

  kept_home : (n : ℕ) → Outside g.start n → marked.disk n ≡ g.disk n
  kept_home n out =
      marked-WroteHead.disk n (ground (arith, out, logged-WroteLog.start))
      ∙ logged-WroteLog.disk_outside n (ground (arith, out))

  away : (n : ℕ) → Outside g.start n → ((record installed { lh = [] }).start == n) ≡ false
  away n out = ground (arith, out, installed-Installed.start, marked-start)

  module _ (power : ℕ) (enough : length g.lh ≤ power) (n : ℕ) (out : Outside g.start n) where
    out' : Outside cleared.start n
    out' = rw cleared-start out

    reboot-early : g.power ≤ length g.lh → (reboot lay power cleared).disk n ≡ settled n
    reboot-early short =
        reboot-disk lay power cleared [] g.cache
          (ap decode (ap cleared.disk cleared-start ∙ early short g.start (omega arith)) ∙ clear)
          (omega arith) tt tt (omega arith) n out'
        ∙ early short n (ground (arith, out))
        ∙ ground (arith, short)

    module _ (long : length g.lh < g.power) where
      -- Without power for the second header, the disk is what `install_trans` left.
      unerased :
          g.power ≤ length g.lh + 1 + length g.lh → (k : ℕ) → cleared.disk k ≡ installed.disk k
      unerased short k =
          cleared-WroteHead.dead
            (omega (
              arith, installed-Installed.power, marked-WroteHead.power, logged-WroteLog.power,
              short,
            ))
            k

      kept_log :
          g.power ≤ length g.lh + 1 + length g.lh
          → (k : ℕ) → g.start ≤ k
          → k ≤ g.start + log_slots
          → cleared.disk k ≡ marked.disk k
      kept_log short k l h =
          unerased short k
          ∙ installed-Installed.disk_fixed k (member-outside g.start k g.lh home l h)

      kept_header :
          g.power ≤ length g.lh + 1 + length g.lh → decode (cleared.disk cleared.start) ≡ g.lh
      kept_header short =
          ap (λ k. decode (cleared.disk k)) cleared-start
          ∙ ap decode (kept_log short g.start (omega arith) (omega arith))
          ∙ ap (λ k. decode (marked.disk k)) (sym logged-WroteLog.start)
          ∙ marked-WroteHead.header (omega (arith, logged-WroteLog.power, long))
              (omega (arith, ap length logged-WroteLog.lh, fits))
          ∙ logged-WroteLog.lh

      kept-Slots :
          g.power ≤ length g.lh + 1 + length g.lh → Slots cleared.disk g.start 0 g.lh g.cache
      kept-Slots short =
          Slots-agree logged.disk cleared.disk g.start 0 g.lh g.cache (omega (arith, fits))
            (λ k l h. sym (
              kept_log short k (omega arith) h
              ∙ marked-WroteHead.disk k (ground (arith, l, logged-WroteLog.start))))
            (logged-WroteLog.written (omega (arith, long)))

      -- The header names the transaction: recovery installs it again.
      reboot_marked :
          g.power ≤ length g.lh + 1 + length g.lh → (reboot lay power cleared).disk n ≡ settled n
      reboot_marked short =
          reboot-disk lay power cleared g.lh g.cache (kept_header short) fits
            (rw cleared-start home)
            (subst (λ k. Slots cleared.disk k 0 g.lh g.cache) (sym cleared-start)
              (kept-Slots short))
            enough n out'
          ∙ elim (Bool-cases (member n g.lh)) [
            | inl m ↦ ground (arith, m, long)
            | inr m ↦ ground (
              arith,
              m,
              long,
              unerased short n,
              installed-Installed.disk_fixed n m,
              kept_home n out,
            )
          ]

      -- The header is erased: the transaction is installed already.
      reboot_erased :
          length g.lh + 1 + length g.lh < g.power → (reboot lay power cleared).disk n ≡ settled n
      reboot_erased plenty =
          reboot-disk lay power cleared [] g.cache
            (ap (λ k. decode (cleared.disk k))
                (cleared-start ∙ sym (installed-Installed.start ∙ marked-start))
              ∙ cleared-WroteHead.header
                  (omega (
                    arith, installed-Installed.power, marked-WroteHead.power, logged-WroteLog.power,
                  ))
                  (omega arith))
            (omega arith) tt tt (omega arith) n out'
          ∙ cleared-WroteHead.disk n (away n out)
          ∙ elim (Bool-cases (member n g.lh)) [
            | inl m ↦
                installed-Installed.disk_new
                  (omega (arith, marked-WroteHead.power, logged-WroteLog.power, plenty)) n m
                ∙ ground (arith, m, long)
            | inr m ↦ installed-Installed.disk_fixed n m ∙ kept_home n out ∙ ground (arith, m, long)
          ]

    -- For a transaction as `IsReady` says: `commit` runs on a disk that loses power after any number
    -- of block writes, and the machine then restarts with power for at least the transaction's
    -- blocks. A home block then holds what it held before the commit if the disk lasted for at most
    -- as many writes as the transaction has blocks. If it lasted for one more, that of the header,
    -- it holds its committed contents if the transaction names it, and what it held otherwise.
    pub reboot-commit : (reboot lay power (commit lay g)).disk n ≡ settled n
    reboot-commit =
        ap (λ c. (reboot lay power c).disk n) commit-cleared ∙ elim (dec_lt (length g.lh) g.power) [
          | yes long ↦ elim (dec_lt (length g.lh + 1 + length g.lh) g.power) [
            | yes plenty ↦ reboot_erased long plenty
            | no few ↦ reboot_marked long (omega arith)
          ]
          | no short ↦ reboot-early (omega arith)
        ]

  -- A commit of a transaction as `IsReady` says, with power for all its block writes: the
  -- transaction is closed, the header on disk names no block, and a home block holds its committed
  -- contents when the transaction names it, and what it held otherwise.
  pub commit-installs :
      length g.lh + 1 + length g.lh < g.power
      → ((commit lay g).lh ≡ [])
        × (decode ((commit lay g).disk g.start) ≡ [])
        × ((n : ℕ)
            → Outside g.start n
            → (commit lay g).disk n ≡ (if member n g.lh then g.cache n else g.disk n))
  commit-installs plenty =
      subst
        (λ c.
          (c.lh ≡ [])
          × (decode (c.disk g.start) ≡ [])
          × ((n : ℕ)
              → Outside g.start n
              → c.disk n ≡ (if member n g.lh then g.cache n else g.disk n)))
        (sym commit-cleared)
        (
          cleared-WroteHead.lh,
          ap (λ k. decode (cleared.disk k)) (sym (installed-Installed.start ∙ marked-start))
              ∙ cleared-WroteHead.header
                  (omega (
                    arith, installed-Installed.power, marked-WroteHead.power, logged-WroteLog.power,
                    plenty,
                  ))
                  (omega arith),
          λ n out. cleared-WroteHead.disk n (away n out) ∙ elim (Bool-cases (member n g.lh)) [
            | inl m ↦
                installed-Installed.disk_new
                  (omega (arith, marked-WroteHead.power, logged-WroteLog.power, plenty)) n m
                ∙ ground (arith, m)
            | inr m ↦ installed-Installed.disk_fixed n m ∙ kept_home n out ∙ ground (arith, m)
          ],
        )
