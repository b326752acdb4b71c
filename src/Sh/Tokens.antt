-- ===== src/Sh/Tokens.antt =====
-- How much of the text the tokens of sh.c take.
use cs461_hw.Prelude.{
  ℕ_discrete, ap, ℕ, ◌≤◌, ◌<◌, ◌≡◌, ◌≢◌, ◌⊎◌, inl, inr, refl, true, false, [], ◌∷◌, length, arith,
  ◌==◌, Bool-cases,
}
use cs461_hw.Sh.{gettoken, is_in, is_whitespace, peek, skip, symbols, Text, token_at, word}

pub skip-le : (s : Text) → length (skip s) ≤ length s
unfolding skip
skip-le [] = omega arith
skip-le (c ∷ cs) = ground (arith, skip-le cs)

pub skip-head :
    (s : Text)
    → (skip s ≡ []) ⊎ ((c : ℕ) × (cs : Text) × (skip s ≡ c ∷ cs) × (is_whitespace c ≡ false))
unfolding skip
skip-head [] = inl refl
skip-head (c ∷ cs) = elim (Bool-cases (is_whitespace c)) [
  | inl w ↦ rw w (skip-head cs)
  | inr n ↦ inr (c, cs, rw n refl, n)
]

word-le : (s : Text) → length (word s).1 ≤ length s
unfolding word
word-le [] = omega arith
word-le (c ∷ cs) = ground (arith, word-le cs)

no_symbol :
    (c : ℕ) → is_in (124 ∷ 40 ∷ 41 ∷ 59 ∷ 38 ∷ 60 ∷ []) c ≡ false → c ≢ 62 → is_in symbols c ≡ false
no_symbol c a b = ground (arith, a, b)

word_first :
    (c : ℕ) (cs : Text)
    → is_whitespace c ≡ false
    → is_in symbols c ≡ false
    → length (word (c ∷ cs)).1 ≤ length cs
unfolding word
word_first c cs w i = rw (w, i) (word-le cs)

greater-le : (c : ℕ) (cs : Text) → c ≡ 62 → length (token_at (c ∷ cs)).rest ≤ length cs
unfolding token_at
greater-le c [] e = ground (arith, e, skip-le [])
greater-le c (d ∷ ds) e = ground (arith, e, skip-le ds, skip-le (d ∷ ds))

-- A token that is not the end of the text takes a character at least.
token_at-le :
    (c : ℕ) (cs : Text) → is_whitespace c ≡ false → length (token_at (c ∷ cs)).rest ≤ length cs
unfolding token_at
token_at-le c cs n = elim (Bool-cases (is_in (124 ∷ 40 ∷ 41 ∷ 59 ∷ 38 ∷ 60 ∷ []) c)) [
  | inl one ↦ rw one (skip-le cs)
  | inr more ↦ elim (ℕ_discrete c 62) [
    | yes e ↦ greater-le c cs e
    | no ne ↦
        let first = word_first c cs n (no_symbol c more ne) in
        let other : (c == 62) ≡ false = ground (arith, ne) in
        rw (more, other) (omega (arith, first, skip-le (word (c ∷ cs)).1))
  ]
]

gettoken-shorter :
    (s : Text)
    → ((skip s ≡ []) × (gettoken s ≡ record { code = 0; text = []; rest = [] }))
      ⊎ (length (gettoken s).rest < length s)
unfolding gettoken token_at
gettoken-shorter s = elim (skip-head s) [
  | inl e ↦ inl (e, rw e refl)
  | inr (c, cs, e, n) ↦ inr (rw e (omega (arith, token_at-le c cs n, ap length e, skip-le s)))
]

pub gettoken-le : (s : Text) → length (gettoken s).rest ≤ length s
gettoken-le s = elim (gettoken-shorter s) [
  | inl (e, g) ↦ rw g (omega arith)
  | inr lt ↦ omega (arith, lt)
]

pub peek-shorter : (s toks : Text) → peek s toks ≡ true → length (gettoken s).rest < length s
unfolding peek
peek-shorter s toks p = elim (gettoken-shorter s) [
  | inl (e, g) ↦ absurd (ground (arith, e, p))
  | inr lt ↦ lt
]

pub word-shorter : (s : Text) → (gettoken s).code ≡ 97 → length (gettoken s).rest < length s
word-shorter s w = elim (gettoken-shorter s) [
  | inl (e, g) ↦ absurd (ground (arith, g, w))
  | inr lt ↦ lt
]
