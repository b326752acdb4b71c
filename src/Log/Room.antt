-- ===== src/Log/Room.antt =====
-- log_write of log.c for the blocks of one call, which it may log more than once.
use cs461_hw.Prelude.{
  refl, ◌⊎◌, inl, inr, Bool, false, ◌||◌, List, [], ◌∷◌, arith, ◌==◌, if◌then◌else◌, Bool-cases,
  length, ℕ, ◌+◌, ◌≤◌, ◌<◌, ◌≡◌,
}
use cs461_hw.Log.{Log, LogResult, log_write, absorb, logsize, done, panicked}

abbrev pub In : ℕ → List ℕ → Type 0
In c [] = ⊥
In c (x ∷ xs) = (c ≡ x) ⊎ In c xs

abbrev pub Every : (ℕ → Type 0) → List ℕ → Type 0
Every P [] = Unit {0}
Every P (c ∷ cs) = P c × Every P cs

-- The calls of log_write for these blocks, one after another.
pub log_writes : Log → List ℕ → LogResult
log_writes lg [] = done lg
log_writes lg (b ∷ bs) = elim (log_write lg b) [
  | panicked p ↦ panicked p
  | done lg' ↦ log_writes lg' bs
]

abbrev has : List ℕ → ℕ → Bool
has [] c = false
has (b ∷ bs) c = b == c || has bs c

-- How many of the blocks `xs` the log does not hold.
abbrev missing : List ℕ → List ℕ → ℕ
missing bs [] = 0
missing bs (x ∷ xs) = (if has bs x then 0 else 1) + missing bs xs

missing-le : (bs xs : List ℕ) → missing bs xs ≤ length xs
missing-le bs [] = omega arith
missing-le bs (x ∷ xs) = ground (arith, missing-le bs xs)

has-absorb : (bs : List ℕ) (b c : ℕ) → has (absorb bs b) c ≡ (has bs c || b == c)
unfolding absorb
has-absorb [] b c = ground arith
has-absorb (d ∷ bs) b c = ground (arith, has-absorb bs b c)

length-absorb_if :
    (bs : List ℕ) (b : ℕ) → length (absorb bs b) ≡ length bs + (if has bs b then 0 else 1)
unfolding absorb
length-absorb_if [] b = refl
length-absorb_if (d ∷ bs) b = ground (arith, length-absorb_if bs b)

missing-absorb_le : (bs xs : List ℕ) (b : ℕ) → missing (absorb bs b) xs ≤ missing bs xs
missing-absorb_le bs [] b = omega arith
missing-absorb_le bs (x ∷ xs) b = ground (arith, missing-absorb_le bs xs b, has-absorb bs b x)

missing-absorb_lt :
    (bs xs : List ℕ) (b : ℕ)
    → In b xs
    → has bs b ≡ false
    → missing (absorb bs b) xs + 1 ≤ missing bs xs
missing-absorb_lt bs [] b h e = elim h [ ]
missing-absorb_lt bs (x ∷ xs) b (inl q) e =
    ground (arith, missing-absorb_le bs xs b, has-absorb bs b x, q, e)
missing-absorb_lt bs (x ∷ xs) b (inr h) e =
    ground (arith, missing-absorb_lt bs xs b h e, has-absorb bs b x)

-- A block of `xs` that is logged takes its own room.
absorb-room :
    (bs xs : List ℕ) (b : ℕ)
    → In b xs
    → length (absorb bs b) + missing (absorb bs b) xs ≤ length bs + missing bs xs
absorb-room bs xs b h = elim (Bool-cases (has bs b)) [
  | inl e ↦ ground (arith, e, length-absorb_if bs b, missing-absorb_le bs xs b)
  | inr e ↦ ground (arith, e, length-absorb_if bs b, missing-absorb_lt bs xs b h e)
]

log_writes-missing :
    (ws xs : List ℕ) (lg : Log)
    → logsize < lg.size
    → 0 < lg.outstanding
    → length lg.block + missing lg.block xs < logsize
    → Every (λ c. In c xs) ws
    → (lg' : Log) × (log_writes lg ws ≡ done lg')
unfolding log_writes log_write
log_writes-missing [] xs lg s o room h = (lg, refl)
log_writes-missing (b ∷ ws) xs lg s o room h =
    let lg1 = record lg { block = absorb lg.block b } in
    let (lg', e) =
      log_writes-missing ws xs lg1 s o (omega (arith, absorb-room lg.block xs b h.0, room)) h.1 in
    (lg', ground (arith, e, s, o, room))

-- Blocks that are all among `xs` find room in a transaction, in any order and number.
pub log_writes-done :
    (ws xs : List ℕ) (lg : Log)
    → logsize < lg.size
    → 0 < lg.outstanding
    → length lg.block + length xs < logsize
    → Every (λ c. In c xs) ws
    → (lg' : Log) × (log_writes lg ws ≡ done lg')
log_writes-done ws xs lg s o room h =
    log_writes-missing ws xs lg s o (omega (arith, missing-le lg.block xs, room)) h
