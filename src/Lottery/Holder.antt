-- ===== src/Lottery/Holder.antt =====
-- Which process holds which ticket, and that the search of `scheduler` finds it.
use operating_systems.Prelude.{
  ℕ, suc, ◌+◌, ◌-◌, ◌≤◌, ◌<◌, ◌≡◌, refl, ap, ◌∙◌, arith, List, [], ◌∷◌, if◌then◌else◌, ltb, add32,
  i32_sign,
}
use operating_systems.Proc.{Proc, is_runnable}
use operating_systems.Lottery.{draw, count_tickets, get_total_runnable_tickets}

-- The tickets of a process that take part in a draw.
abbrev pub tickets : Proc → ℕ
tickets p = if is_runnable p then p.current_tickets else 0

unfoldable pub pool : List Proc → ℕ
pool [] = 0
pool (p ∷ ps) = tickets p + pool ps

-- The specification of a draw: tickets are numbered from 0 through the table, and ticket `r` is
-- held by the process whose block it falls into; a ticket past the pool by none.
unfoldable pub holder : List Proc → ℕ → ℕ
holder [] r = 0
holder (p ∷ ps) r =
    let rest = holder ps (r - tickets p) in if ltb r (tickets p) then 0 else suc rest

count_tickets-eq-pool :
    (count : ℕ) (ps : List Proc)
    → count + pool ps < i32_sign
    → count_tickets count ps ≡ count + pool ps
unfolding count_tickets pool
count_tickets-eq-pool count [] h = omega arith
count_tickets-eq-pool count (p ∷ ps) h = ground (
  arith,
  count_tickets-eq-pool (if is_runnable p then add32 count p.current_tickets else count) ps,
)

-- The sum that `get_total_runnable_tickets` returns is exact while the pool fits an `int`.
pub total-eq-pool : (ps : List Proc) → pool ps < i32_sign → get_total_runnable_tickets ps ≡ pool ps
unfolding get_total_runnable_tickets
total-eq-pool ps h = count_tickets-eq-pool 0 ps (omega arith) ∙ omega arith

draw-eq-holder_from :
    (r count : ℕ) (ps : List Proc)
    → count ≤ r
    → r < i32_sign
    → count + pool ps < i32_sign
    → draw r count ps ≡ holder ps (r - count)
unfolding draw holder pool
draw-eq-holder_from r count [] h k l = refl
draw-eq-holder_from r count (p ∷ ps) h k l = ground (
  arith,
  draw-eq-holder_from r count ps,
  draw-eq-holder_from r (add32 count p.current_tickets) ps,
)

pub draw-eq-holder :
    (r : ℕ) (ps : List Proc) → r < i32_sign → pool ps < i32_sign → draw r 0 ps ≡ holder ps r
draw-eq-holder r ps k l =
    draw-eq-holder_from r 0 ps (omega arith) k (omega arith) ∙ ap (holder ps) (omega arith)
