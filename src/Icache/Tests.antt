-- ===== src/Icache/Tests.antt =====
-- A cache where inode 1 of device 1, without links, has one reference; its file is that of a disk of 20
-- blocks, with the inodes in block 1, the bitmap in block 2 and block 5 in the file.
use cs461_hw.Prelude.{
  ℕ, ◌+◌, ◌*◌, ◌≤◌, ◌<◌, ◌≡◌, refl, ◌∙◌, inl, inr, true, false, ◌||◌, some, [], arith, ltb, ◌==◌,
  if◌then◌else◌,
}
use cs461_hw.Fs.{Disk, bblock}
use cs461_hw.Inode.{Inode, State, ok}
use cs461_hw.Inode.Slots.{slot, slot-direct, slot-table, slot-entry, slot_cases}
use cs461_hw.Icache.{iget_loop, Cache, iget, iput, put_entry}
use cs461_hw.Icache.Refs.{starts, gets, more, Reach-shared}
use cs461_hw.Icache.Unlink.{Unlinked, iput-Unlinked}

abbrev test_disk : Disk
test_disk k i j = if k == 2 then ltb (8 * i + j) 3 || 8 * i + j == 5 else false

abbrev test_file : Inode
test_file = record {
  kind = 2;
  major = 0;
  minor = 0;
  nlink = 0;
  size = 8;
  addrs = λ l. if l == 0 then 5 else 0;
}

abbrev test_state : State
test_state = record { disk = test_disk; logged = [] }

abbrev test_cache : Cache
test_cache i = record {
  dev = 1;
  inum = 1;
  ref = if i == 3 then 1 else 0;
  valid = true;
  copy = test_file;
}

test_slot : (k : ℕ) → k ≤ 140 → slot test_disk test_file k ≡ (if k == 0 then 5 else 0)
test_slot k h = elim (slot_cases k h) [
  | inl a ↦ slot-direct test_disk test_file k a
  | inr (inl e) ↦ rw e (slot-table test_disk test_file)
  | inr (inr (j, hj, e)) ↦ rw e (slot-entry test_disk test_file j hj ∙ ground arith)
]

iput-Unlinked_example :
    (c' : Cache) × (st' : State) × (iput 20 2 1 test_cache 3 test_state ≡ ok c' st')
    × ((c' 3).ref ≡ 0)
    × ((c' 3).valid ≡ false)
    × Unlinked 20 2 1 1 test_state test_file st'
iput-Unlinked_example =
    iput-Unlinked 20 2 1 test_cache 3 test_state
      (record {
        bitmap = λ c h. let e : bblock 2 c ≡ 2 = omega (arith, h) in rw e refl;
        bitmap_range = λ c h. omega (arith, h);
        boot = refl;
        inode = refl;
        inode_range = omega arith;
        inode_apart = λ c h. omega (arith, h);
        fits = omega arith;
      })
      (record {
        good = λ k h ne.
            let five : slot test_disk test_file k ≡ 5 = ground (arith, test_slot k h, ne) in
            rw five (record {
              in_range = omega arith;
              used = refl;
              not_bitmap = λ c l. omega (arith, l);
              not_inode = omega arith;
            });
        apart = λ k l hk hl ne full. ground (arith, test_slot k hk, test_slot l hl, ne, full);
      })
      (record {
        kind = omega arith;
        major = omega arith;
        minor = omega arith;
        nlink = omega arith;
        size = omega arith;
        addrs = λ l h. ground arith;
      })
      refl refl refl

abbrev no_cache : Cache
no_cache i = record { dev = 0; inum = 0; ref = 0; valid = false; copy = test_file }

abbrev one_cache : Cache
one_cache = put_entry no_cache 0 (record (no_cache 0) { dev = 1; inum = 7; ref = 1; valid = false })

test_iget : iget 1 7 no_cache ≡ some (one_cache, 0)
unfolding iget iget_loop
test_iget = refl

Reach-shared_example :
    ((one_cache 0).ref ≡ 1)
    × ((j : ℕ) → 0 < more (λ i. 0) 0 j → (one_cache j).dev ≡ 1 → (one_cache j).inum ≡ 7 → j ≡ 0)
    × (iget 1 7 one_cache ≡ some (put_entry one_cache 0 (record (one_cache 0) { ref = 2 }), 0))
Reach-shared_example =
    Reach-shared 20 2 1 no_cache one_cache (more (λ i. 0) 0) 0 (λ j. refl)
      (gets 1 7 0 starts test_iget) (omega arith)
