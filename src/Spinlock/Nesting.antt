-- ===== src/Spinlock/Nesting.antt =====
-- Matched calls leave the interrupts as they were.
use operating_systems.Prelude.{
  ℕ, zero, suc, ◌+◌, ◌<◌, ◌≡◌, refl, ap, ◌∙◌, arith, true, false, Option, none, some, ◌==◌,
  if◌then◌else◌, add32, sub32, slt32, i32_sign, slt32-of_le,
}
use operating_systems.Spinlock.{
  Cpu, Spinlock, push_off, pop_off, holding, panics, acquired, acquire, release,
}

abbrev then_pop : Option Cpu → Option Cpu
then_pop none = none
then_pop (some c) = pop_off c

-- `n` calls of `push_off`, and of `pop_off`.
unfoldable pub pushes : ℕ → Cpu → Cpu
pushes zero c = c
pushes (suc n) c = pushes n (push_off c)

unfoldable pub pops : ℕ → Cpu → Option Cpu
pops zero c = some c
pops (suc n) c = then_pop (pops n c)

-- A section with interrupts off has them off.
pub record IsValid (c : Cpu) : Type 0 where
  pub off : 0 < c.noff → c.intr ≡ false
  pub counts : c.noff < i32_sign

-- One matched pair gives back the interrupts and the depth, and inside a section everything.
pop_off-push_off :
    (c : Cpu)
    → IsValid c
    → c.noff + 1 < i32_sign
    → pop_off (push_off c) ≡ some (record c { intena = if c.noff == 0 then c.intr else c.intena })
unfolding push_off pop_off
pop_off-push_off c v small =
    let up : add32 c.noff 1 ≡ c.noff + 1 = omega arith in
    let down : sub32 (c.noff + 1) 1 ≡ c.noff = omega arith in
    let inside : slt32 (c.noff + 1) 1 ≡ false =
      slt32-of_le 1 (c.noff + 1) (omega arith) (omega arith) in
    rw (up, inside, down) (ground (arith, v.off))

push_off-IsValid : (c : Cpu) → IsValid c → c.noff + 1 < i32_sign → IsValid (push_off c)
unfolding push_off
push_off-IsValid c v small = record { off = λ h. refl; counts = omega arith }

noff-push_off : (c : Cpu) → c.noff + 1 < i32_sign → (push_off c).noff ≡ c.noff + 1
unfolding push_off
noff-push_off c small = omega arith

-- Inside a section, any number of matched pairs changes nothing.
pops-pushes_inside :
    (n : ℕ) (c : Cpu)
    → IsValid c
    → 0 < c.noff
    → c.noff + n < i32_sign
    → pops n (pushes n c) ≡ some c
unfolding pops pushes
pops-pushes_inside zero c v inside small = refl
pops-pushes_inside (suc n) c v inside small =
    let next = noff-push_off c (omega arith) in
    let ih =
      pops-pushes_inside n (push_off c) (push_off-IsValid c v (omega arith)) (omega (arith, next))
        (omega (arith, next)) in
    let deeper : (c.noff == 0) ≡ false = ground arith in
    ap then_pop ih
    ∙ (pop_off-push_off c v (omega arith)
        ∙ ap (λ b. some (record c { intena = if b then c.intr else c.intena })) deeper)

-- As many calls of `pop_off` as of `push_off`, at least one of each, end without a panic, with the
-- depth that they started with and the interrupts as they were. The depth stays below 2 ^ 31, and a
-- CPU that starts inside a section has its interrupts off.
pub pops-pushes :
    (n : ℕ) (c : Cpu)
    → IsValid c
    → 0 < n
    → c.noff + n < i32_sign
    → (d : Cpu) × (pops n (pushes n c) ≡ some d) × (d.intr ≡ c.intr) × (d.noff ≡ c.noff)
unfolding pops pushes
pops-pushes zero c v pos small = absurd (omega arith)
pops-pushes (suc n) c v pos small =
    let next = noff-push_off c (omega arith) in
    (
      record c { intena = if c.noff == 0 then c.intr else c.intena },
      ap then_pop (
            pops-pushes_inside n (push_off c) (push_off-IsValid c v (omega arith))
              (omega (arith, next)) (omega (arith, next)))
          ∙ pop_off-push_off c v (omega arith),
      refl,
      refl,
    )

-- On a free lock `acquire` succeeds: the CPU holds the lock, with its interrupts off, a second
-- `acquire` of it panics, and `release` frees the lock and gives the interrupts and the depth back.
-- The depth stays below 2 ^ 31, and a CPU that starts inside a section has its interrupts off.
pub release-acquire :
    (c : Cpu) (lk : Spinlock)
    → IsValid c
    → c.noff + 1 < i32_sign
    → lk.locked ≡ false
    → (d : Cpu) × (held : Spinlock) × (e : Cpu) × (acquire c lk ≡ acquired d held)
      × (d.intr ≡ false)
      × (holding d held ≡ true)
      × (acquire d held ≡ panics)
      × (release d held ≡ some (e, record { locked = false; cpu = none }))
      × (e.intr ≡ c.intr)
      × (e.noff ≡ c.noff)
unfolding acquire release holding push_off
release-acquire c lk v small free =
    let d = push_off c in
    let held : Spinlock = record { locked = true; cpu = some c.id } in
    let back = pop_off-push_off c v small in
    (
      d,
      held,
      record c { intena = if c.noff == 0 then c.intr else c.intena },
      ground (arith, free),
      refl,
      ground arith,
      ground arith,
      ground (arith, back),
      refl,
      refl,
    )
