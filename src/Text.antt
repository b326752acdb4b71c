-- ===== src/Text.antt =====
-- string.c: the memory routines of the kernel. A memory is a function from addresses to bytes, and a
-- pointer is an address; the objects do not wrap round at the end of the address space.
pub mod Move
pub mod Copy
mod Tests
use cs461_hw.Prelude.{
  ◌%◌, Option, none, some, ℕ, zero, suc, ◌+◌, ◌-◌, Bool, true, false, not, ◌&&◌, ltb, ◌==◌,
  if◌then◌else◌,
}

abbrev pub Memory : Type 0
Memory = ℕ → ℕ

abbrev pub poke : Memory → ℕ → ℕ → Memory
poke mem a v k = if k == a then v else mem k

-- `memset`, through either of its two instructions, which both store the byte `c` in all places.
pub memset : Memory → ℕ → ℕ → ℕ → Memory
memset mem dst c zero = mem
memset mem dst c (suc n) = memset (poke mem dst (c % 256)) (dst + 1) c n

-- A difference of two bytes as an `int`: the first less the second.
pub record Difference : Type 0 where
  pub left : ℕ
  pub right : ℕ

-- `memcmp`
pub memcmp : Memory → ℕ → ℕ → ℕ → Difference
memcmp mem v1 v2 zero = record { left = 0; right = 0 }
memcmp mem v1 v2 (suc n) =
    let rest = memcmp mem (v1 + 1) (v2 + 1) n in
    if not (mem v1 == mem v2) then record { left = mem v1; right = mem v2 } else rest

-- `memmove`'s loop from the high end down: `n` bytes are left, and the pointers are `d + n` and
-- `s + n`.
pub move_down : Memory → ℕ → ℕ → ℕ → Memory
move_down mem d s zero = mem
move_down mem d s (suc n) = move_down (poke mem (d + n) (mem (s + n))) d s n

-- And from the low end up.
pub move_up : Memory → ℕ → ℕ → ℕ → Memory
move_up mem d s zero = mem
move_up mem d s (suc n) = move_up (poke mem d (mem s)) (d + 1) (s + 1) n

-- `memmove`
pub memmove : Memory → ℕ → ℕ → ℕ → Memory
memmove mem dst src n =
    if ltb src dst && ltb dst (src + n) then move_down mem dst src n else move_up mem dst src n

-- `memcpy`
pub memcpy : Memory → ℕ → ℕ → ℕ → Memory
memcpy mem dst src n = memmove mem dst src n

-- `strncmp`
pub strncmp : Memory → ℕ → ℕ → ℕ → Difference
strncmp mem p q zero = record { left = 0; right = 0 }
strncmp mem p q (suc n) =
    let rest = strncmp mem (p + 1) (q + 1) n in
    if not (mem p == 0) && mem p == mem q then rest else record { left = mem p; right = mem q }

-- The second loop of `strncpy`.
pub pad : Memory → ℕ → ℕ → Memory
pad mem s zero = mem
pad mem s (suc n) = pad (poke mem s 0) (s + 1) n

-- `strncpy`; a negative count does what 0 does.
pub strncpy : Memory → ℕ → ℕ → ℕ → Memory
strncpy mem s t zero = mem
strncpy mem s t (suc n) =
    let mem' = poke mem s (mem t) in
    let rest = strncpy mem' (s + 1) (t + 1) n in if mem t == 0 then pad mem' (s + 1) n else rest

-- The loop of `safestrcpy` with `n` bytes of space behind the one for the terminator, and the last
-- store.
pub safe_loop : Memory → ℕ → ℕ → ℕ → Memory
safe_loop mem s t zero = poke mem s 0
safe_loop mem s t (suc n) =
    let mem' = poke mem s (mem t) in
    let rest = safe_loop mem' (s + 1) (t + 1) n in if mem t == 0 then poke mem' (s + 1) 0 else rest

-- `safestrcpy`; a negative count does what 0 does.
pub safestrcpy : Memory → ℕ → ℕ → ℕ → Memory
safestrcpy mem s t zero = mem
safestrcpy mem s t (suc n) = safe_loop mem s t n

-- `strlen`, for a string that ends within `fuel` bytes from `s[n]` on.
pub strlen_from : ℕ → Memory → ℕ → ℕ → Option ℕ
strlen_from zero mem s n = none
strlen_from (suc fuel) mem s n =
    let rest = strlen_from fuel mem s (n + 1) in if mem (s + n) == 0 then some n else rest

pub strlen : ℕ → Memory → ℕ → Option ℕ
strlen fuel mem s = strlen_from fuel mem s 0
