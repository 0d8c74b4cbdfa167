-- ===== src/Strings.antt =====
-- xv6-Lottery-Scheduler-Offline-03/kernel/string.c: the memory and string functions of the kernel.
-- Memory is a function from addresses to bytes; a `char` is a byte below 256.
pub mod Move
pub mod Text
mod Tests
use operating_systems.Prelude.{
  ℕ, zero, suc, ◌+◌, ◌-◌, ◌%◌, Bool, true, false, ◌&&◌, not, Option, none, some, sub32, slt32, ◌==◌,
  ltb, if◌then◌else◌,
}

abbrev pub Memory : Type 0
Memory = ℕ → ℕ

-- `*p = v`
abbrev pub store : ℕ → ℕ → Memory → Memory
store p v m q = if p == q then v else m q

-- `memset`: `n` bytes from `dst` on, each `(char)c`.
pub memset : ℕ → ℕ → ℕ → Memory → Memory
memset dst c zero m = m
memset dst c (suc n) m = memset (dst + 1) c n (store dst (c % 256) m)

-- `memcmp`; the result is an `int`.
pub memcmp : ℕ → ℕ → ℕ → Memory → ℕ
memcmp s1 s2 zero m = 0
memcmp s1 s2 (suc n) m = elim (m s1 == m s2) [
  | false ↦ sub32 (m s1) (m s2)
  | true ↦ memcmp (s1 + 1) (s2 + 1) n m
]

-- The two loops of `memmove`: upwards, and downwards from the ends.
unfoldable pub copy_up : ℕ → ℕ → ℕ → Memory → Memory
copy_up d s zero m = m
copy_up d s (suc n) m = copy_up (d + 1) (s + 1) n (store d (m s) m)

pub copy_down : ℕ → ℕ → ℕ → Memory → Memory
copy_down d s zero m = m
copy_down d s (suc n) m = copy_down d s n (store (d + n) (m (s + n)) m)

unfoldable pub memmove : ℕ → ℕ → ℕ → Memory → Memory
unfolding copy_up copy_down
memmove dst src n m =
    if n == 0
    then m
    else if ltb src dst && ltb dst (src + n)
    then copy_down dst src n m
    else copy_up dst src n m

pub memcpy : ℕ → ℕ → ℕ → Memory → Memory
unfolding memmove
memcpy dst src n m = memmove dst src n m

-- `strncmp`; the result is an `int`.
pub strncmp : ℕ → ℕ → ℕ → Memory → ℕ
strncmp p q zero m = 0
strncmp p q (suc n) m = elim (not (m p == 0) && m p == m q) [
  | true ↦ strncmp (p + 1) (q + 1) n m
  | false ↦ sub32 (m p) (m q)
]

-- The second loop of `strncpy`.
pub fill_zero : ℕ → ℕ → Memory → Memory
fill_zero s zero m = m
fill_zero s (suc n) m = fill_zero (s + 1) n (store s 0 m)

-- The first loop of `strncpy`, and the second with the rounds that are left.
pub strncpy_from : ℕ → ℕ → ℕ → Memory → Memory
unfolding fill_zero
strncpy_from s t zero m = m
strncpy_from s t (suc n) m = elim (m t == 0) [
  | true ↦ fill_zero (s + 1) n (store s (m t) m)
  | false ↦ strncpy_from (s + 1) (t + 1) n (store s (m t) m)
]

-- `strncpy` for an `int n`.
pub strncpy : ℕ → ℕ → ℕ → Memory → Memory
unfolding strncpy_from
strncpy s t n m = if slt32 0 n then strncpy_from s t n m else m

-- The loop of `safestrcpy` with `n` rounds left, and the store behind it.
pub safestrcpy_from : ℕ → ℕ → ℕ → Memory → Memory
safestrcpy_from s t zero m = store s 0 m
safestrcpy_from s t (suc n) m = elim (m t == 0) [
  | true ↦ store (s + 1) 0 (store s (m t) m)
  | false ↦ safestrcpy_from (s + 1) (t + 1) n (store s (m t) m)
]

-- `safestrcpy` for an `int n`.
pub safestrcpy : ℕ → ℕ → ℕ → Memory → Memory
unfolding safestrcpy_from
safestrcpy s t n m = if slt32 0 n then safestrcpy_from s t (n - 1) m else m

-- `strlen`, on fuel.
pub strlen : ℕ → ℕ → ℕ → Memory → Option ℕ
strlen zero s n m = none
strlen (suc fuel) s n m = elim (m (s + n) == 0) [ true ↦ some n | false ↦ strlen fuel s (n + 1) m ]
