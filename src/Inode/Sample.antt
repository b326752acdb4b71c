-- ===== src/Inode/Sample.antt =====
-- A disk of 20 blocks for the tests: the inodes in block 1, the bitmap in block 2, and a file with block 5.
use cs461_hw.Prelude.{
  none, some, ◌∷◌, ℕ, ◌+◌, ◌*◌, ◌%◌, ◌≤◌, ◌≡◌, refl, ◌∙◌, inl, inr, false, ◌||◌, [], arith, ltb,
  ◌==◌, if◌then◌else◌,
}
use cs461_hw.Fs.{Disk, bblock}
use cs461_hw.Inode.{
  writei, write_loop, bmap, bmap_direct, iupdate, write_block, copy_into, put_words, put_block,
  dinode_words, ok, Byte, Inode, State,
}
use cs461_hw.Inode.Slots.{slot, slot-direct, slot-table, slot-entry, slot_cases, IsValid, Ready}

abbrev pub test_disk : Disk
test_disk k i j = if k == 2 then ltb (8 * i + j) 3 || 8 * i + j == 5 else false

abbrev pub test_file : Inode
test_file = record {
  kind = 2;
  major = 0;
  minor = 0;
  nlink = 1;
  size = 8;
  addrs = λ l. if l == 0 then 5 else 0;
}

abbrev pub test_state : State
test_state = record { disk = test_disk; logged = [] }

pub test_disk-Ready : Ready 20 2 1 test_disk
test_disk-Ready = record {
  bitmap = λ c h. let e : bblock 2 c ≡ 2 = omega (arith, h) in rw e refl;
  bitmap_range = λ c h. omega (arith, h);
  boot = refl;
  inode = refl;
  inode_range = omega arith;
  inode_apart = λ c h. omega (arith, h);
  fits = omega arith;
}

pub test_slot : (k : ℕ) → k ≤ 140 → slot test_disk test_file k ≡ (if k == 0 then 5 else 0)
test_slot k h = elim (slot_cases k h) [
  | inl a ↦ slot-direct test_disk test_file k a
  | inr (inl e) ↦ rw e (slot-table test_disk test_file)
  | inr (inr (j, hj, e)) ↦ rw e (slot-entry test_disk test_file j hj ∙ ground arith)
]

pub test_file-IsValid : IsValid 20 2 1 test_disk test_file
test_file-IsValid = record {
  good = λ k h ne.
      let five : slot test_disk test_file k ≡ 5 = ground (arith, test_slot k h, ne) in
      rw five (record {
        in_range = omega arith;
        used = refl;
        not_bitmap = λ c l. omega (arith, l);
        not_inode = omega arith;
      });
  apart = λ k l hk hl ne full. ground (arith, test_slot k hk, test_slot l hl, ne, full);
}

abbrev pub test_bytes : ℕ → Byte
test_bytes i j = i % 2 == 1

-- Ten bytes written at offset 6, by the first chunk of a filewrite.
abbrev pub written_disk : Disk
written_disk = put_block test_disk 5 (copy_into (test_disk 5) 6 10 (λ i. test_bytes (0 + (0 + i))))

abbrev pub grown_file : Inode
grown_file = record test_file { size = 16 }

abbrev pub grown_state : State
grown_state = record {
  disk = put_block written_disk 1 (put_words (written_disk 1) 16 (dinode_words grown_file));
  logged = 5 ∷ 1 ∷ [];
}

pub sample_write :
    writei 20 2 1 (λ k. none) 1 (λ k. test_bytes (0 + k)) test_file 6 10 test_state
    ≡ ok (grown_file, some 10) grown_state
unfolding writei write_loop bmap bmap_direct iupdate write_block
sample_write = refl
