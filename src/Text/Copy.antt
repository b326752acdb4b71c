-- ===== src/Text/Copy.antt =====
-- safestrcpy of string.c.
use cs461_hw.Prelude.{
  ◌∙◌, ℕ_discrete, ap, ◌==◌, ℕ, zero, suc, ◌+◌, ◌≤◌, ◌<◌, ◌≡◌, ◌⊎◌, inl, refl, arith, if◌then◌else◌,
}
use cs461_hw.Text.{Memory, poke, safe_loop, safestrcpy}

-- The bytes before the terminator, at most n.
abbrev pub bytes_before : Memory → ℕ → ℕ → ℕ
bytes_before mem t zero = 0
bytes_before mem t (suc n) = if mem t == 0 then 0 else suc (bytes_before mem (t + 1) n)

-- The ranges of n bytes at two addresses do not meet.
abbrev pub Apart : ℕ → ℕ → ℕ → Type 0
Apart s t n = (t + n ≤ s) ⊎ (s + n ≤ t)

-- What an address may be that is outside n bytes from s on.
abbrev pub Outside : ℕ → ℕ → ℕ → Type 0
Outside s n a = (a < s) ⊎ (s + n ≤ a)

bytes_before-poke :
    (mem : Memory) (t n a v : ℕ)
    → Outside t n a
    → bytes_before (poke mem a v) t n ≡ bytes_before mem t n
bytes_before-poke mem t zero a v o = refl
bytes_before-poke mem t (suc n) a v o =
    let rest = bytes_before-poke mem (t + 1) n a v (ground (arith, o)) in ground (arith, o, rest)

bytes_before-le : (mem : Memory) (t n : ℕ) → bytes_before mem t n ≤ n
bytes_before-le mem t zero = omega arith
bytes_before-le mem t (suc n) = ground (arith, bytes_before-le mem (t + 1) n)

safe_loop-Outside :
    (mem : Memory) (s t n a : ℕ) → Outside s (suc n) a → safe_loop mem s t n a ≡ mem a
unfolding safe_loop
safe_loop-Outside mem s t zero a o = ground (arith, o)
safe_loop-Outside mem s t (suc n) a o =
    let rest = safe_loop-Outside (poke mem s (mem t)) (s + 1) (t + 1) n a (ground (arith, o)) in
    ground (arith, o, rest)

safe_loop-ends :
    (mem : Memory) (s t n : ℕ)
    → Apart s t (suc n)
    → safe_loop mem s t n (s + bytes_before mem t n) ≡ 0
unfolding safe_loop
safe_loop-ends mem s t zero apart = ground arith
safe_loop-ends mem s t (suc n) apart =
    let rest = safe_loop-ends (poke mem s (mem t)) (s + 1) (t + 1) n (ground (arith, apart)) in
    let same = bytes_before-poke mem (t + 1) n s (mem t) (ground (arith, apart)) in
    let index : s + suc (bytes_before mem (t + 1) n)
        ≡ s + 1 + bytes_before (poke mem s (mem t)) (t + 1) n =
      omega (arith, same) in
    let shifted = ap (safe_loop (poke mem s (mem t)) (s + 1) (t + 1) n) index ∙ rest in
    elim (ℕ_discrete (mem t) 0) [ yes z ↦ ground (arith, z) | no nz ↦ ground (arith, nz, shifted) ]

safe_loop-copies :
    (mem : Memory) (s t n k : ℕ)
    → Apart s t (suc n)
    → k < bytes_before mem t n
    → safe_loop mem s t n (s + k) ≡ mem (t + k)
unfolding safe_loop
safe_loop-copies mem s t zero k apart lt = absurd (omega arith)
safe_loop-copies mem s t (suc n) zero apart lt =
    let kept = safe_loop-Outside (poke mem s (mem t)) (s + 1) (t + 1) n s (inl (omega arith)) in
    ground (arith, lt, kept)
safe_loop-copies mem s t (suc n) (suc k) apart lt =
    let same = bytes_before-poke mem (t + 1) n s (mem t) (ground (arith, apart)) in
    let le = bytes_before-le mem (t + 1) n in
    let inside : k < bytes_before mem (t + 1) n = ground (arith, lt) in
    let rest =
      safe_loop-copies (poke mem s (mem t)) (s + 1) (t + 1) n k (ground (arith, apart))
        (rw same inside) in
    let index : s + suc k ≡ s + 1 + k = omega arith in
    let source : t + 1 + k ≡ t + suc k = omega arith in
    let kept : poke mem s (mem t) (t + 1 + k) ≡ mem (t + suc k) =
      ground (arith, apart, inside, le, ap mem source) in
    let shifted = ap (safe_loop (poke mem s (mem t)) (s + 1) (t + 1) n) index ∙ rest ∙ kept in
    ground (arith, lt, shifted)

-- safestrcpy into n bytes, n not 0, that lie apart from the source: the bytes of the source before its
-- terminator are copied, at most n - 1 of them, a 0 follows within the n bytes, and no address
-- outside them is changed.
pub safestrcpy_terminates :
    (mem : Memory) (s t n k a : ℕ)
    → Apart s t (suc n)
    → k < bytes_before mem t n
    → Outside s (suc n) a
    → (safestrcpy mem s t (suc n) (s + k) ≡ mem (t + k))
      × (safestrcpy mem s t (suc n) (s + bytes_before mem t n) ≡ 0)
      × (bytes_before mem t n ≤ n)
      × (safestrcpy mem s t (suc n) a ≡ mem a)
unfolding safestrcpy
safestrcpy_terminates mem s t n k a apart lt o = (
  safe_loop-copies mem s t n k apart lt,
  safe_loop-ends mem s t n apart,
  bytes_before-le mem t n,
  safe_loop-Outside mem s t n a o,
)
