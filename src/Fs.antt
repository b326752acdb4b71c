-- ===== src/Fs.antt =====
-- fs.c: the allocation of blocks. The contents of the blocks, as bread returns them, are a function
-- of the block, the byte in it and the bit in the byte; so `data[bi/8] & (1 << bi%8)` is one bit.
-- `size` and `bmapstart` are of the superblock, which does not change.
pub mod Scan
pub mod Bitmap
mod Tests
use cs461_hw.Prelude.{
  ℕ, zero, suc, ◌+◌, ◌*◌, ◌/◌, ◌%◌, Bool, true, false, not, ◌&&◌, Option, none, some, List, [], ◌∷◌,
  ltb, ◌==◌, if◌then◌else◌,
}

abbrev pub Disk : Type 0
Disk = ℕ → ℕ → ℕ → Bool

abbrev pub bpb : ℕ
bpb = 512 * 8

-- `BBLOCK(b, sb)`
abbrev pub bblock : ℕ → ℕ → ℕ
bblock bmapstart b = b / bpb + bmapstart

abbrev pub put_bit : Disk → ℕ → ℕ → Bool → Disk
put_bit d block bi v k i j = if k == block && (i == bi / 8 && j == bi % 8) then v else d k i j

-- `bzero`
abbrev pub bzero : Disk → ℕ → Disk
bzero d bno k i j = if k == bno then false else d k i j

-- The inner loop of `balloc`, for `n` more bits from `bi` on.
pub scan_bits : ℕ → (ℕ → ℕ → Bool) → ℕ → ℕ → ℕ → Option ℕ
scan_bits size bits b zero bi = none
scan_bits size bits b (suc n) bi =
    let rest = scan_bits size bits b n (bi + 1) in
    if ltb (b + bi) size then if not (bits (bi / 8) (bi % 8)) then some bi else rest else none

-- The outer loop of `balloc` from `b` on.
pub scan_blocks : ℕ → ℕ → ℕ → Disk → ℕ → Option ℕ
scan_blocks zero size bmapstart d b = none
scan_blocks (suc fuel) size bmapstart d b =
    let rest = scan_blocks fuel size bmapstart d (b + bpb) in
    let found : Option ℕ = elim (scan_bits size (d (bblock bmapstart b)) b bpb 0) [
      | none ↦ rest
      | some bi ↦ some (b + bi)
    ] in
    if ltb b size then found else none

-- `balloc`: the blocks after it, the new block, and the blocks that it logs; none is its panic. A
-- round for each bitmap block is enough.
pub balloc : ℕ → ℕ → Disk → Option (Disk × ℕ × List ℕ)
balloc size bmapstart d = elim (scan_blocks (size / bpb + 1) size bmapstart d 0) [
  | none ↦ none
  | some b ↦
      some (bzero (put_bit d (bblock bmapstart b) (b % bpb) true) b, b, bblock bmapstart b ∷ b ∷ [])
]

-- `bfree`; none is its panic.
pub bfree : ℕ → Disk → ℕ → Option (Disk × List ℕ)
bfree bmapstart d b =
    let block = bblock bmapstart b in
    let bi = b % bpb in
    if not (d block (bi / 8) (bi % 8)) then none else some (put_bit d block bi false, block ∷ [])
