-- ===== src/Fs/Tests.antt =====
-- fs.c on a disk of 3000 blocks with the bitmap in block 1.
use cs461_hw.Prelude.{true, ◌≡◌, refl, arith, some, [], ◌∷◌, ltb, ◌==◌, ◌&&◌, ◌+◌, ◌*◌}
use cs461_hw.Fs.{balloc, bzero, Disk, put_bit, scan_bits, scan_blocks}
use cs461_hw.Fs.Bitmap.{Allocated, balloc-Allocated, ProtectsBitmap}

-- Blocks 0 to 2 are used.
abbrev disk : Disk
disk k i j = k == 1 && ltb (i * 8 + j) 3

disk-ProtectsBitmap : ProtectsBitmap 3000 1 disk
disk-ProtectsBitmap c lt = ground arith

balloc-Allocated_example : Allocated 3000 1 disk
balloc-Allocated_example = balloc-Allocated 3000 1 disk disk-ProtectsBitmap

abbrev disk_after : Disk
disk_after = bzero (put_bit disk 1 3 true) 3

takes_three : balloc 3000 1 disk ≡ some (disk_after, 3, 1 ∷ 3 ∷ [])
unfolding balloc scan_blocks scan_bits
takes_three = refl
