-- ===== src/Fs/Bitmap.antt =====
-- balloc and bfree of fs.c as operations on a set of used blocks.
use mathlib.Core.Path.{fun_ext}
use cs461_hw.Prelude.{
  ◌⊎◌, inl, inr, ◌≢◌, sym, List, ◌||◌, [], ◌∷◌, ◌==◌, if◌then◌else◌, ℕ_discrete, ℕ, ◌+◌, ◌/◌, ◌%◌,
  ◌<◌, ◌≡◌, refl, Bool, true, false, none, some, arith,
}
use cs461_hw.Fs.{bfree, balloc, bzero, put_bit, bblock, bpb, Disk}
use cs461_hw.Fs.Scan.{is_used, first, all_used, scan_blocks-Scanned}

-- The bits of two blocks are the same only for the same block.
bit_inj :
    (bmapstart b c : ℕ)
    → bblock bmapstart c ≡ bblock bmapstart b
    → c % bpb / 8 ≡ b % bpb / 8
    → c % bpb % 8 ≡ b % bpb % 8
    → c ≡ b
bit_inj bmapstart b c e f g = omega (arith, e, f, g)

pub is_used-put_bit :
    (bmapstart b c : ℕ) (d : Disk) (v : Bool)
    → is_used bmapstart (put_bit d (bblock bmapstart b) (b % bpb) v) c
      ≡ (if c == b then v else is_used bmapstart d c)
is_used-put_bit bmapstart b c d v = elim (ℕ_discrete c b) [
  | yes e ↦ ground (arith, e)
  | no ne ↦ ground (arith, ne, bit_inj bmapstart b c)
]

pub bfree_used :
    (bmapstart b : ℕ) (d : Disk)
    → is_used bmapstart d b ≡ true
    → bfree bmapstart d b
      ≡ some (put_bit d (bblock bmapstart b) (b % bpb) false, bblock bmapstart b ∷ [])
unfolding bfree
bfree_used bmapstart b d e = ground (arith, e)

-- The blocks of the bitmap are marked as used.
abbrev pub ProtectsBitmap : ℕ → ℕ → Disk → Type 0
ProtectsBitmap size bmapstart d =
    (c : ℕ) → c < size → is_used bmapstart d (bblock bmapstart c) ≡ true

-- What a call of balloc does.
pub data Allocated (size bmapstart : ℕ) (d : Disk) : Type 0 where
  full :
      ((c : ℕ) → c < size → is_used bmapstart d c ≡ true)
      → balloc size bmapstart d ≡ none
      → Allocated size bmapstart d
  block :
      (d' : Disk) (b : ℕ)
      → b < size
      → is_used bmapstart d b ≡ false
      → balloc size bmapstart d ≡ some (d', b, bblock bmapstart b ∷ b ∷ [])
      → ((c : ℕ) → c < size → is_used bmapstart d' c ≡ (c == b || is_used bmapstart d c))
      → ((i j : ℕ) → d' b i j ≡ false)
      → ((c : ℕ) → c ≢ b → c ≢ bblock bmapstart b → d' c ≡ d c)
      → Allocated size bmapstart d

used_after :
    (size bmapstart b c : ℕ) (d : Disk)
    → ProtectsBitmap size bmapstart d
    → is_used bmapstart d b ≡ false
    → c < size
    → is_used bmapstart (bzero (put_bit d (bblock bmapstart b) (b % bpb) true) b) c
      ≡ (c == b || is_used bmapstart d c)
used_after size bmapstart b c d p free lt = elim (ℕ_discrete (bblock bmapstart c) b) [
  | yes e ↦
      let taken : is_used bmapstart d b ≡ true = rw (sym e) (p c lt) in
      absurd (ground (arith, taken, free))
  | no ne ↦ ground (arith, ne, is_used-put_bit bmapstart b c d true)
]

untouched :
    (bmapstart b c : ℕ) (d : Disk)
    → c ≢ b
    → c ≢ bblock bmapstart b
    → bzero (put_bit d (bblock bmapstart b) (b % bpb) true) b c ≡ d c
untouched bmapstart b c d n m = fun_ext (λ i. fun_ext (λ j. ground arith))

-- On a disk whose bitmap is marked as used, balloc panics only if all blocks are used. Otherwise it
-- returns a block that was not used, all zero, and logs it and its bitmap block; exactly this
-- block is used in addition, and no other block is changed.
pub balloc-Allocated :
    (size bmapstart : ℕ) (d : Disk) → ProtectsBitmap size bmapstart d → Allocated size bmapstart d
unfolding balloc
balloc-Allocated size bmapstart d p =
    elim (scan_blocks-Scanned (size / bpb + 1) size bmapstart 0 d refl (omega arith)) [
      | first b l lt free before q ↦
          block (bzero (put_bit d (bblock bmapstart b) (b % bpb) true) b) b lt free
            (ground (arith, q)) (λ c h. used_after size bmapstart b c d p free h)
            (λ i j. ground arith) (λ c n m. untouched bmapstart b c d n m)
      | all_used all q ↦ full (λ c h. all c (omega arith) h) (ground (arith, q))
    ]

-- On any disk, what balloc logs.
pub balloc_cases :
    (size bmapstart : ℕ) (d : Disk)
    → (balloc size bmapstart d ≡ none)
      ⊎ ((d' : Disk) × (b : ℕ) × (b < size)
          × (balloc size bmapstart d ≡ some (d', b, bblock bmapstart b ∷ b ∷ [])))
unfolding balloc
balloc_cases size bmapstart d =
    elim (scan_blocks-Scanned (size / bpb + 1) size bmapstart 0 d refl (omega arith)) [
      | all_used all q ↦ inl (ground (arith, q))
      | first b l lt free before q ↦
          inr (bzero (put_bit d (bblock bmapstart b) (b % bpb) true) b, b, lt, ground (arith, q))
    ]

-- bfree of the block that balloc returned does not panic: it logs the bitmap block of the block, and
-- the same blocks are used as before the two calls.
pub bfree-balloc :
    (size bmapstart : ℕ) (d d' : Disk) (b c : ℕ) (logged : List ℕ)
    → ProtectsBitmap size bmapstart d
    → balloc size bmapstart d ≡ some (d', b, logged)
    → c < size
    → (d'' : Disk) × (bfree bmapstart d' b ≡ some (d'', bblock bmapstart b ∷ []))
      × (is_used bmapstart d'' c ≡ is_used bmapstart d c)
unfolding bfree
bfree-balloc size bmapstart d d' b c logged p e lt = elim (balloc-Allocated size bmapstart d p) [
  | full all q ↦ absurd (ground (arith, e, q))
  | block e' b' lt' free q used zeros others ↦
      let same_b : b' ≡ b = ground (arith, e, q) in
      let same_d : e' ≡ d' = ground (arith, e, q) in
      let set : is_used bmapstart d' b ≡ true = ground (arith, same_b, same_d, used b' lt') in
      (
        put_bit d' (bblock bmapstart b) (b % bpb) false,
        ground (arith, set),
        ground (arith, is_used-put_bit bmapstart b c d' false, same_b, same_d, used c lt, free),
      )
]
