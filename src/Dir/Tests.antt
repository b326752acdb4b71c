-- ===== src/Dir/Tests.antt =====
-- A directory of two entries in block 5, "." of inode 1 and an empty one, on a disk of 20 blocks with the
-- inodes in block 1 and the bitmap in block 2.
use cs461_hw.Prelude.{
  ℕ, ◌+◌, ◌*◌, ◌/◌, ◌≤◌, ◌≡◌, refl, ◌∙◌, inl, inr, false, ◌&&◌, ◌||◌, [], arith, ltb, ◌==◌,
  if◌then◌else◌,
}
use cs461_hw.Fs.{Disk, bblock}
use cs461_hw.Inode.{Inode, State}
use cs461_hw.Inode.Slots.{slot, slot-direct, slot-table, slot-entry, slot_cases}
use cs461_hw.Dir.{dirlink}
use cs461_hw.Dir.Entries.{IsDir}
use cs461_hw.Dir.Link.{Linked, dirlink-Linked}

abbrev test_disk : Disk
test_disk k i j =
    if k == 2
    then ltb (8 * i + j) 3 || 8 * i + j == 5
    else if k == 5
    then (i == 0 && j == 0) || (i == 2 && (ltb 0 j && (ltb j 4 || j == 5)))
    else false

abbrev test_dir : Inode
test_dir = record {
  kind = 1;
  major = 0;
  minor = 0;
  nlink = 1;
  size = 32;
  addrs = λ l. if l == 0 then 5 else 0;
}

abbrev test_state : State
test_state = record { disk = test_disk; logged = [] }

-- The name "a".
abbrev test_name : ℕ → ℕ
test_name i = if i == 0 then 97 else 0

test_slot : (k : ℕ) → k ≤ 140 → slot test_disk test_dir k ≡ (if k == 0 then 5 else 0)
test_slot k h = elim (slot_cases k h) [
  | inl a ↦ slot-direct test_disk test_dir k a
  | inr (inl e) ↦ rw e (slot-table test_disk test_dir)
  | inr (inr (j, hj, e)) ↦ rw e (slot-entry test_disk test_dir j hj ∙ ground arith)
]

test_dir-IsDir : IsDir test_disk test_dir
test_dir-IsDir = record {
  kind = refl;
  whole = refl;
  fits = omega arith;
  present = λ o h.
      let e : o / 512 ≡ 0 = omega (arith, h) in rw e (ground (arith, test_slot 0 (omega arith)));
}

dirlink-Linked_example :
    Linked 20 2 1 1 test_state test_dir test_name 7
      (dirlink 20 2 1 1 test_dir test_name 7 test_state)
dirlink-Linked_example =
    dirlink-Linked 20 2 1 1 test_state test_dir test_name 7
      (record {
        bitmap = λ c h. let e : bblock 2 c ≡ 2 = omega (arith, h) in rw e refl;
        bitmap_range = λ c h. omega (arith, h);
        boot = refl;
        inode = refl;
        inode_range = omega arith;
        inode_apart = λ c h. omega (arith, h);
        fits = omega arith;
      })
      (record {
        good = λ k h ne.
            let five : slot test_disk test_dir k ≡ 5 = ground (arith, test_slot k h, ne) in
            rw five (record {
              in_range = omega arith;
              used = refl;
              not_bitmap = λ c l. omega (arith, l);
              not_inode = omega arith;
            });
        apart = λ k l hk hl ne full. ground (arith, test_slot k hk, test_slot l hl, ne, full);
      })
      test_dir-IsDir (omega arith) (λ k. ground arith) (omega arith) (omega arith)
