-- ===== src/Fs/Scan.antt =====
-- What the loops of balloc in fs.c find.
use cs461_hw.Prelude.{
  Option-cases, ap, ◌∙◌, inl, inr, dec_lt, ℕ_discrete, Bool-cases, ◌⊎◌, ℕ, zero, suc, ◌+◌, ◌*◌, ◌/◌,
  ◌%◌, ◌≤◌, ◌<◌, ◌≡◌, refl, Bool, true, false, Option, none, some, arith,
}
use cs461_hw.Fs.{bblock, bpb, Disk, scan_bits, scan_blocks}

-- Whether the bitmap marks a block as used.
abbrev pub is_used : ℕ → Disk → ℕ → Bool
is_used bmapstart d b = d (bblock bmapstart b) (b % bpb / 8) (b % bpb % 8)

-- What a scan of the blocks from `lo` to below `hi` finds: the first that is not used, or none.
pub data Scanned (used : ℕ → Bool) (lo hi : ℕ) (r : Option ℕ) : Type 0 where
  first :
      (b : ℕ)
      → lo ≤ b
      → b < hi
      → used b ≡ false
      → ((c : ℕ) → lo ≤ c → c < b → used c ≡ true)
      → r ≡ some b
      → Scanned used lo hi r
  all_used : ((c : ℕ) → lo ≤ c → c < hi → used c ≡ true) → r ≡ none → Scanned used lo hi r

abbrev shift : ℕ → Option ℕ → Option ℕ
shift b none = none
shift b (some bi) = some (b + bi)

Scanned-extend :
    (used : ℕ → Bool) (lo lo' hi : ℕ) (r : Option ℕ)
    → lo' ≡ lo + 1
    → used lo ≡ true
    → Scanned used lo' hi r
    → Scanned used lo hi r
Scanned-extend used lo lo' hi r e u (first b l h f before q) =
    first b (omega (arith, l, e)) h f
      (λ c lc cb. elim (ℕ_discrete c lo) [
        | yes same ↦ rw same u
        | no ne ↦ before c (omega (arith, ne, lc, e)) cb
      ])
      q
Scanned-extend used lo lo' hi r e u (all_used all q) =
    all_used
      (λ c lc ch. elim (ℕ_discrete c lo) [
        | yes same ↦ rw same u
        | no ne ↦ all c (omega (arith, ne, lc, e)) ch
      ])
      q

bit_of :
    (bmapstart b bi : ℕ) (d : Disk)
    → b % bpb ≡ 0
    → bi < bpb
    → is_used bmapstart d (b + bi) ≡ d (bblock bmapstart b) (bi / 8) (bi % 8)
bit_of bmapstart b bi d al lt =
    let block : bblock bmapstart (b + bi) ≡ bblock bmapstart b = omega (arith, al, lt) in
    let bit : (b + bi) % bpb ≡ bi = omega (arith, al, lt) in
    ap (λ k. d k ((b + bi) % bpb / 8) ((b + bi) % bpb % 8)) block
    ∙ ap (λ k. d (bblock bmapstart b) (k / 8) (k % 8)) bit

-- The inner loop over a whole bitmap block, from bit `bi` on.
scan_bits-Scanned :
    (size bmapstart b n bi hi : ℕ) (d : Disk)
    → b % bpb ≡ 0
    → bi + n ≡ bpb
    → hi ≤ b + bpb
    → hi ≤ size
    → (size ≤ hi) ⊎ (hi ≡ b + bpb)
    → Scanned
        (is_used bmapstart d)
        (b + bi)
        hi
        (shift b (scan_bits size (d (bblock bmapstart b)) b n bi))
unfolding scan_bits
scan_bits-Scanned size bmapstart b zero bi hi d al e hb hs last =
    all_used (λ c l h. absurd (omega arith)) refl
scan_bits-Scanned size bmapstart b (suc n) bi hi d al e hb hs last = elim (dec_lt (b + bi) size) [
  | no out ↦ all_used (λ c l h. absurd (omega arith)) (ground (arith, out))
  | yes in_range ↦
      let bit = bit_of bmapstart b bi d al (omega (arith, e)) in
      elim (Bool-cases (is_used bmapstart d (b + bi))) [
        | inr free ↦
            first (b + bi) (omega arith) (ground (arith, last, in_range, e)) free
              (λ c l h. absurd (omega (arith, l, h))) (ground (arith, in_range, bit, free))
        | inl used ↦
            let rest =
              scan_bits-Scanned size bmapstart b n (bi + 1) hi d al (omega (arith, e)) hb hs last in
            let same : scan_bits size (d (bblock bmapstart b)) b (suc n) bi
                ≡ scan_bits size (d (bblock bmapstart b)) b n (bi + 1) =
              ground (arith, in_range, bit, used) in
            rw same (
              Scanned-extend (is_used bmapstart d) (b + bi) (b + (bi + 1)) hi _ (omega arith) used
                rest)
      ]
]

Scanned-join :
    (used : ℕ → Bool) (lo mid hi : ℕ) (r : Option ℕ)
    → lo ≤ mid
    → ((c : ℕ) → lo ≤ c → c < mid → used c ≡ true)
    → Scanned used mid hi r
    → Scanned used lo hi r
Scanned-join used lo mid hi r h u (first b l lt f before q) =
    first b (omega arith) lt f
      (λ c lc cb. elim (dec_lt c mid) [
        | yes early ↦ u c lc early
        | no late ↦ before c (omega arith) cb
      ])
      q
Scanned-join used lo mid hi r h u (all_used all q) =
    all_used
      (λ c lc ch. elim (dec_lt c mid) [
        | yes early ↦ u c lc early
        | no late ↦ all c (omega arith) ch
      ])
      q

Scanned-widen :
    (used : ℕ → Bool) (lo mid hi b : ℕ) (r : Option ℕ)
    → mid ≤ hi
    → r ≡ some b
    → Scanned used lo mid r
    → Scanned used lo hi r
Scanned-widen used lo mid hi b r h e (first c l lt f before q) =
    first c l (omega (arith, lt, h)) f before q
Scanned-widen used lo mid hi b r h e (all_used all q) = absurd (ground (arith, e, q))

-- Beyond the end there is nothing to find.
Scanned-beyond :
    (used : ℕ → Bool) (lo hi : ℕ) (r : Option ℕ)
    → hi ≤ lo
    → Scanned used lo hi r
    → Scanned used hi hi r
Scanned-beyond used lo hi r h (first b l lt f before q) = absurd (omega (arith, h, l, lt))
Scanned-beyond used lo hi r h (all_used all q) = all_used (λ c l k. absurd (omega (arith, l, k))) q

Scanned-chain :
    (used : ℕ → Bool) (lo mid hi : ℕ) (r r' : Option ℕ)
    → lo ≤ mid
    → r ≡ none
    → Scanned used lo mid r
    → Scanned used mid hi r'
    → Scanned used lo hi r'
Scanned-chain used lo mid hi r r' h e (first b l lt f before q) s = absurd (ground (arith, e, q))
Scanned-chain used lo mid hi r r' h e (all_used all q) s = Scanned-join used lo mid hi r' h all s

module _ (size bmapstart b : ℕ) (d : Disk) (al : b % bpb ≡ 0) (lt : b < size) where
  -- One round of the outer loop, by what the inner loop finds.
  round_found :
      (fuel hi bi : ℕ)
      → hi ≤ b + bpb
      → hi ≤ size
      → (size ≤ hi) ⊎ (hi ≡ b + bpb)
      → scan_bits size (d (bblock bmapstart b)) b bpb 0 ≡ some bi
      → Scanned (is_used bmapstart d) b size (scan_blocks (suc fuel) size bmapstart d b)
  unfolding scan_blocks
  round_found fuel hi bi hb hs last e =
      let bits = scan_bits-Scanned size bmapstart b bpb 0 hi d al refl hb hs last in
      let zero_added : b + 0 ≡ b = omega arith in
      let here : Scanned (is_used bmapstart d) b hi (some (b + bi)) = rw (e, zero_added) at bits in
      let result : scan_blocks (suc fuel) size bmapstart d b ≡ some (b + bi) =
        ground (arith, lt, e) in
      rw result (Scanned-widen (is_used bmapstart d) b hi size (b + bi) _ hs refl here)

  round_none :
      (fuel hi : ℕ)
      → hi ≤ b + bpb
      → hi ≤ size
      → (size ≤ hi) ⊎ (hi ≡ b + bpb)
      → scan_bits size (d (bblock bmapstart b)) b bpb 0 ≡ none
      → Scanned (is_used bmapstart d) hi size (scan_blocks fuel size bmapstart d (b + bpb))
      → Scanned (is_used bmapstart d) b size (scan_blocks (suc fuel) size bmapstart d b)
  unfolding scan_blocks
  round_none fuel hi hb hs last e later =
      let bits = scan_bits-Scanned size bmapstart b bpb 0 hi d al refl hb hs last in
      let zero_added : b + 0 ≡ b = omega arith in
      let here : Scanned (is_used bmapstart d) b hi none = rw (e, zero_added) at bits in
      let result : scan_blocks (suc fuel) size bmapstart d b
          ≡ scan_blocks fuel size bmapstart d (b + bpb) =
        ground (arith, lt, e) in
      rw result (
        Scanned-chain (is_used bmapstart d) b hi size none _ (ground (arith, last, lt)) refl here
          later)

pub scan_blocks-Scanned :
    (fuel size bmapstart b : ℕ) (d : Disk)
    → b % bpb ≡ 0
    → size < b + fuel * bpb
    → Scanned (is_used bmapstart d) b size (scan_blocks fuel size bmapstart d b)
unfolding scan_blocks
scan_blocks-Scanned zero size bmapstart b d al enough =
    all_used (λ c l h. absurd (omega arith)) refl
scan_blocks-Scanned (suc fuel) size bmapstart b d al enough = elim (dec_lt b size) [
  | no past ↦ all_used (λ c l h. absurd (omega arith)) (ground (arith, past))
  | yes lt ↦
      let later =
        scan_blocks-Scanned fuel size bmapstart (b + bpb) d (omega (arith, al))
          (omega (arith, enough)) in
      let bits = scan_bits size (d (bblock bmapstart b)) b bpb 0 in
      elim (dec_lt size (b + bpb)) [
        | yes short ↦ elim (Option-cases bits) [
          | inr (bi, e) ↦
              round_found size bmapstart b d al lt fuel size bi (omega arith) (omega arith)
                (inl (omega arith)) e
          | inl e ↦
              round_none size bmapstart b d al lt fuel size (omega arith) (omega arith)
                (inl (omega arith)) e (Scanned-beyond _ (b + bpb) size _ (omega arith) later)
        ]
        | no long ↦ elim (Option-cases bits) [
          | inr (bi, e) ↦
              round_found size bmapstart b d al lt fuel (b + bpb) bi (omega arith) (omega arith)
                (inr refl) e
          | inl e ↦
              round_none size bmapstart b d al lt fuel (b + bpb) (omega arith) (omega arith)
                (inr refl) e later
        ]
      ]
]
