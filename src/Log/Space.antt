-- ===== src/Log/Space.antt =====
-- `begin_op`, `log_write` and `end_op` together: the room that `begin_op` reserves is enough.
use mathlib.Core.Path.{subst}
use operating_systems.Prelude.{
  ℕ, suc, ◌+◌, ◌-◌, ◌*◌, ◌≤◌, ◌<◌, ◌≡◌, ◌↔◌, refl, ap, sym, ◌∙◌, true, none, some, List, [], ◌∷◌,
  ◌++◌, arith, length,
}
use operating_systems.Log.{
  Log, Layout, absorb, copy_block, write_log, write_log_from, install_from, install_trans,
  write_head, commit, end_op, begin_op, log_write, log_size, max_op_blocks,
}

-- The sum of what the open operations may still write.
abbrev pub room : List ℕ → ℕ
room [] = 0
room (k ∷ ks) = k + room ks

-- No operation has more writes left than `MAXOPBLOCKS`.
abbrev AllSmall : List ℕ → Type 0
AllSmall [] = Unit
AllSmall (k ∷ ks) = k ≤ max_op_blocks × AllSmall ks

room_small : (ops : List ℕ) → AllSmall ops → room ops ≤ length ops * max_op_blocks
room_small [] a = omega arith
room_small (k ∷ ks) a = omega (arith, a.0, room_small ks a.1)

-- Closing an operation, or taking one write from it, leaves all small.
AllSmall-drop :
    (before after : List ℕ) (k : ℕ) → AllSmall (before ++ k ∷ after) → AllSmall (before ++ after)
AllSmall-drop [] after k a = a.1
AllSmall-drop (b ∷ before) after k a = (a.0, AllSmall-drop before after k a.1)

AllSmall-take :
    (before after : List ℕ) (k : ℕ)
    → AllSmall (before ++ suc k ∷ after)
    → AllSmall (before ++ k ∷ after)
AllSmall-take [] after k a = (omega (arith, a.0), a.1)
AllSmall-take (b ∷ before) after k a = (a.0, AllSmall-take before after k a.1)

length-absorb : (n : ℕ) (bs : List ℕ) → length (absorb n bs).0 ≤ length bs + 1
unfolding absorb
length-absorb n [] = omega arith
length-absorb n (b ∷ bs) = ground (arith, length-absorb n bs)

module _ {B : Type 0} where
  -- What the loops of `commit` keep.
  record Kept (g g' : Log B) : Type 0 where
    pub size : g'.size ≡ g.size
    pub outstanding : g'.outstanding ≡ g.outstanding
    pub lh : g'.lh ≡ g.lh

  copy_block-Kept : (to from : ℕ) (g : Log B) → Kept g (copy_block to from g)
  unfolding copy_block
  copy_block-Kept to from g = record {
    size = ground arith;
    outstanding = ground arith;
    lh = ground arith;
  }

  Kept-trans : (a b c : Log B) → Kept a b → Kept b c → Kept a c
  Kept-trans a b c p q = record {
    size = q.size ∙ p.size;
    outstanding = q.outstanding ∙ p.outstanding;
    lh = q.lh ∙ p.lh;
  }

  write_log_from-Kept : (tail : ℕ) (bs : List ℕ) (g : Log B) → Kept g (write_log_from tail bs g)
  unfolding write_log_from
  write_log_from-Kept tail [] g = record { size = refl; outstanding = refl; lh = refl }
  write_log_from-Kept tail (b ∷ bs) g =
      Kept-trans g _ _ (copy_block-Kept (g.start + tail + 1) b g)
        (write_log_from-Kept (suc tail) bs _)

  install_from-Kept : (tail : ℕ) (bs : List ℕ) (g : Log B) → Kept g (install_from tail bs g)
  unfolding install_from
  install_from-Kept tail [] g = record { size = refl; outstanding = refl; lh = refl }
  install_from-Kept tail (b ∷ bs) g =
      Kept-trans g _ _ (copy_block-Kept b (g.start + tail + 1) g)
        (install_from-Kept (suc tail) bs _)

  module _ (lay : Layout B) where
    write_head-Kept : (g : Log B) → Kept g (write_head lay g)
    unfolding write_head
    write_head-Kept g = record {
      size = ground arith;
      outstanding = ground arith;
      lh = ground arith;
    }

    commit-closes :
        (g : Log B)
        → ((commit lay g).lh ≡ [])
          × ((commit lay g).size ≡ g.size)
          × ((commit lay g).outstanding ≡ g.outstanding)
    unfolding commit write_log install_trans
    commit-closes g =
        let a = write_log_from 0 g.lh g in
        let b = write_head lay a in
        let c = install_from 0 b.lh b in
        let k =
          Kept-trans g a c (write_log_from-Kept 0 g.lh g)
            (Kept-trans a b c (write_head-Kept a) (install_from-Kept 0 b.lh b)) in
        let h = write_head-Kept (record c { lh = [] }) in
        ground (arith, k.size, k.outstanding, h.size, h.outstanding, h.lh)

    -- The log, and what each open operation may still write.
    pub record State : Type 0 where
      pub log : Log B
      pub ops : List ℕ

    -- `begin_op` opens an operation of `MAXOPBLOCKS` writes, an open operation with writes left
    -- calls `log_write`, and `end_op` closes one, whatever it has left.
    pub data Step (s t : State) : Type 0 where
      opened : begin_op s.log ≡ some t.log → t.ops ≡ max_op_blocks ∷ s.ops → Step s t
      wrote :
          (before after : List ℕ) (k n : ℕ)
          → s.ops ≡ before ++ suc k ∷ after
          → log_write n s.log ≡ some t.log
          → t.ops ≡ before ++ k ∷ after
          → Step s t
      closed :
          (before after : List ℕ) (k : ℕ)
          → s.ops ≡ before ++ k ∷ after
          → end_op lay s.log ≡ some t.log
          → t.ops ≡ before ++ after
          → Step s t

    -- The states that follow a state `first`.
    pub data Reachable (first : State) : State → Type 0 where
      start : Reachable first first
      next : {s t : State} → Reachable first s → Step s t → Reachable first t

    record HasRoom (blocks : ℕ) (s : State) : Type 0 where
      pub size : s.log.size ≡ blocks
      pub reserved : length s.log.lh + room s.ops ≤ log_size
      pub counted : s.log.outstanding ≡ length s.ops
      pub few : length s.ops ≤ 3
      pub small : AllSmall s.ops

    room-split :
        (before after : List ℕ) (k : ℕ) → room (before ++ k ∷ after) ≡ k + room (before ++ after)
    room-split [] after k = refl
    room-split (b ∷ before) after k = omega (arith, room-split before after k)

    length-split :
        (before after : List ℕ) (k : ℕ)
        → length (before ++ k ∷ after) ≡ suc (length (before ++ after))
    length-split [] after k = refl
    length-split (b ∷ before) after k = omega (arith, length-split before after k)

    begin_op_inverts :
        (g g' : Log B)
        → g.outstanding ≤ 3
        → length g.lh ≤ log_size
        → begin_op g ≡ some g'
        → length g.lh + (g.outstanding + 1) * max_op_blocks ≤ log_size
          × (g' ≡ record g { outstanding = g.outstanding + 1 })
    unfolding begin_op
    begin_op_inverts g g' few fits e = ground arith

    log_write_inverts :
        (n : ℕ) (g g' : Log B) → log_write n g ≡ some g' → g' ≡ record g { lh = (absorb n g.lh).0 }
    unfolding log_write
    log_write_inverts n g g' e = ground arith

    end_op_inverts :
        (g g' : Log B)
        → 0 < g.outstanding
        → g.outstanding ≤ 3
        → end_op lay g ≡ some g'
        → (g'.size ≡ g.size) × (g'.outstanding ≡ g.outstanding - 1) × (length g'.lh ≤ length g.lh)
    unfolding end_op
    end_op_inverts g g' some_op few e =
        ground
          (arith, commit-closes (record g { outstanding = g.outstanding - 1; committing = true }))

    Step-HasRoom : (blocks : ℕ) (s t : State) → HasRoom blocks s → Step s t → HasRoom blocks t
    Step-HasRoom blocks s t h (opened e o) =
        let i =
          begin_op_inverts s.log t.log (omega (arith, h.counted, h.few)) (omega (arith, h.reserved))
            e in
        record {
          size = ground (arith, i, h.size);
          reserved = ground (arith, i, o, h.counted, h.reserved, room_small s.ops h.small);
          counted = ground (arith, i, o, h.counted);
          few = ground (arith, i, o, h.counted);
          small = subst AllSmall (sym o) (omega arith, h.small);
        }
    Step-HasRoom blocks s t h (wrote before after k n e w o) =
        let i = log_write_inverts n s.log t.log w in
        let r = room-split before after in
        let l = length-split before after in
        record {
          size = ground (arith, i, h.size);
          reserved = ground (arith, i, o, e, r k, r (suc k), length-absorb n s.log.lh, h.reserved);
          counted = ground (arith, i, o, e, l k, l (suc k), h.counted);
          few = ground (arith, o, e, l k, l (suc k), h.few);
          small = subst AllSmall (sym o) (AllSmall-take before after k (subst AllSmall e h.small));
        }
    Step-HasRoom blocks s t h (closed before after k e c o) =
        let r = room-split before after k in
        let l = length-split before after k in
        let counted : s.log.outstanding ≡ suc (length (before ++ after)) =
          h.counted ∙ ap length e ∙ l in
        let few : suc (length (before ++ after)) ≤ 3 = ground (arith, h.few, e, l) in
        let i =
          end_op_inverts s.log t.log (omega (arith, counted)) (omega (arith, counted, few)) c in
        record {
          size = i.0 ∙ h.size;
          reserved = ground (arith, i.2, o, e, r, h.reserved);
          counted = ground (arith, i.1, o, counted);
          few = ground (arith, o, few);
          small = subst AllSmall (sym o) (AllSmall-drop before after k (subst AllSmall e h.small));
        }

    Reachable-HasRoom :
        (blocks : ℕ) (s t : State) → HasRoom blocks s → Reachable s t → HasRoom blocks t
    Reachable-HasRoom blocks s _ h start = h
    Reachable-HasRoom blocks s t h (next r e) =
        Step-HasRoom blocks _ t (Reachable-HasRoom blocks s _ h r) e

    -- From a log with no block and no operation open, by calls of `begin_op`, `log_write` and
    -- `end_op` in which no operation writes more than `MAXOPBLOCKS` times: the log has a free entry
    -- for the next `log_write` of an operation that has a write left, and that call panics exactly
    -- when the log names `log.size - 1` blocks or more.
    pub log_write-Runs :
        (first : Log B) (t : State) (before after : List ℕ) (k n : ℕ)
        → first.lh ≡ []
        → first.outstanding ≡ 0
        → Reachable (record { log = first; ops = [] }) t
        → t.ops ≡ before ++ suc k ∷ after
        → ((log_write n t.log ≡ none) ↔ (first.size ≤ suc (length t.log.lh)))
          × (length t.log.lh < log_size)
    unfolding log_write
    log_write-Runs first t before after k n empty idle r e =
        let h =
          Reachable-HasRoom first.size _ t
            (record {
              size = refl;
              reserved = ground (arith, empty);
              counted = idle;
              few = omega arith;
              small = tt;
            })
            r in
        let room = room-split before after (suc k) in
        let count = length-split before after (suc k) in
        let fits : length t.log.lh < log_size = ground (arith, h.reserved, e, room) in
        let some_op : t.log.outstanding ≡ suc (length (before ++ after)) =
          h.counted ∙ ap length e ∙ count in
        let few : suc (length (before ++ after)) ≤ 3 = ground (arith, h.few, e, count) in
        ((λ p. ground (arith, fits, some_op, few, h.size), λ p. ground (arith, p, h.size)), fits)
