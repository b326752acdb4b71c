-- ===== src/Text/Move.antt =====
-- memmove of string.c on ranges that overlap.
use cs461_hw.Prelude.{
  ap, ◌∙◌, dec_lt, ℕ_discrete, ℕ, zero, suc, ◌+◌, ◌-◌, ◌≤◌, ◌<◌, ◌≡◌, ◌⊎◌, inl, inr, ◌&&◌, arith,
  ltb, leb, if◌then◌else◌,
}
use cs461_hw.Text.{memmove, Memory, move_down, move_up, poke}

-- What a copy of n bytes is to leave at the address k.
abbrev pub moved : Memory → ℕ → ℕ → ℕ → ℕ → ℕ
moved mem d s n k = if leb d k && ltb k (d + n) then mem (s + (k - d)) else mem k

down_step :
    (mem : Memory) (d s n k : ℕ)
    → s < d
    → moved (poke mem (d + n) (mem (s + n))) d s n k ≡ moved mem d s (suc n) k
down_step mem d s n k h = elim (ℕ_discrete k (d + n)) [
  | yes e ↦ let last : s + (d + n - d) ≡ s + n = omega arith in ground (arith, e, h, ap mem last)
  | no ne ↦ ground (arith, ne, h)
]

up_step :
    (mem : Memory) (d s n k : ℕ)
    → (d ≤ s) ⊎ (s + suc n ≤ d)
    → moved (poke mem d (mem s)) (d + 1) (s + 1) n k ≡ moved mem d s (suc n) k
up_step mem d s n k h = elim (ℕ_discrete k d) [
  | yes e ↦ let first : s + (d - d) ≡ s = omega arith in ground (arith, e, h, ap mem first)
  | no ne ↦ elim (dec_lt k d) [
    | yes below ↦ ground (arith, below)
    | no above ↦
        let shift : s + 1 + (k - (d + 1)) ≡ s + (k - d) = omega arith in
        ground (arith, ne, above, h, ap mem shift)
  ]
]

move_down-moved : (mem : Memory) (d s n k : ℕ) → s < d → move_down mem d s n k ≡ moved mem d s n k
unfolding move_down
move_down-moved mem d s zero k h = ground arith
move_down-moved mem d s (suc n) k h =
    move_down-moved (poke mem (d + n) (mem (s + n))) d s n k h ∙ down_step mem d s n k h

move_up-moved :
    (mem : Memory) (d s n k : ℕ) → (d ≤ s) ⊎ (s + n ≤ d) → move_up mem d s n k ≡ moved mem d s n k
unfolding move_up
move_up-moved mem d s zero k h = ground arith
move_up-moved mem d s (suc n) k h =
    move_up-moved (poke mem d (mem s)) (d + 1) (s + 1) n k (ground (arith, h))
    ∙ up_step mem d s n k h

-- memmove leaves at every address of the destination what stood in the source before it, and
-- anything else as it was, whether and however the two ranges overlap.
pub memmove_moves :
    (mem : Memory) (dst src n k : ℕ) → memmove mem dst src n k ≡ moved mem dst src n k
unfolding memmove
memmove_moves mem dst src n k = elim (dec_lt src dst) [
  | no a ↦ ground (arith, a, move_up-moved mem dst src n k (inl (omega arith)))
  | yes a ↦ elim (dec_lt dst (src + n)) [
    | no b ↦ ground (arith, a, b, move_up-moved mem dst src n k (inr (omega arith)))
    | yes b ↦ ground (arith, a, b, move_down-moved mem dst src n k a)
  ]
]
