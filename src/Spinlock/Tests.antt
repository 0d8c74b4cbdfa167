-- ===== src/Spinlock/Tests.antt =====
-- A CPU with interrupts on takes a lock.
use operating_systems.Prelude.{◌≡◌, refl, arith, true, false, none, some}
use operating_systems.Spinlock.{
  Cpu, Spinlock, initlock, holding, panics, acquired, acquire, release,
}
use operating_systems.Spinlock.Nesting.{IsValid, pushes, pops, pops-pushes, release-acquire}

abbrev cpu : Cpu
cpu = record { id = 0; noff = 0; intena = false; intr = true }

cpu-IsValid : IsValid cpu
cpu-IsValid = record { off = λ h. absurd (omega arith); counts = omega arith }

pops-pushes_example : (d : Cpu) × (pops 3 (pushes 3 cpu) ≡ some d) × (d.intr ≡ true) × (d.noff ≡ 0)
pops-pushes_example = pops-pushes 3 cpu cpu-IsValid (omega arith) (omega arith)

release-acquire_example :
    (d : Cpu) × (held : Spinlock) × (e : Cpu) × (acquire cpu initlock ≡ acquired d held)
    × (d.intr ≡ false)
    × (holding d held ≡ true)
    × (acquire d held ≡ panics)
    × (release d held ≡ some (e, record { locked = false; cpu = none }))
    × (e.intr ≡ true)
    × (e.noff ≡ 0)
unfolding initlock
release-acquire_example = release-acquire cpu initlock cpu-IsValid (omega arith) refl
