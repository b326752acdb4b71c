-- ===== src/Inode/Tests.antt =====
-- The contents of inodes at concrete inputs.
use cs461_hw.Inode.Read.{readi-bytes}
use cs461_hw.Inode.Store.{byte_at}
use cs461_hw.Inode.Sample.{
  test_slot, test_disk, test_file, test_state, test_disk-Ready, test_file-IsValid, test_bytes,
}
use cs461_hw.Prelude.{◌-◌, ◌/◌, min, ◌∷◌, ℕ, ◌+◌, ◌≡◌, refl, ◌≢◌, false, none, some, [], arith}
use cs461_hw.Fs.{Disk}
use cs461_hw.Inode.{
  dinode_words, write_block, bmap_direct, copy_into, put_words, put_block, write_loop, Inode, State,
  bmap, readi, writei, iupdate, ilock_read, ◌>>◌, ok, bytes,
}
use cs461_hw.Inode.Map.{Mapped, bmap-Mapped}
use cs461_hw.Inode.Files.{readi-writei, Saved}
use cs461_hw.Inode.Reserved.{writei-Saved, HasRoom}
use cs461_hw.Log.{Log}
use cs461_hw.Inode.Stored.{SameInode, dinode_at, ilock_read-iupdate}
use cs461_hw.Inode.Alloc.{Claimed, ialloc, ialloc-Claimed}
use cs461_hw.Inode.Trunc.{itrunc}
use cs461_hw.Inode.Trunc.Freed.{itrunc-Truncated, Truncated}

bmap-Mapped_example : Mapped 20 2 1 test_state test_file 20 (bmap 20 2 1 test_file 20 test_state)
bmap-Mapped_example =
    bmap-Mapped 20 2 1 1 test_state test_file 20 test_disk-Ready test_file-IsValid (omega arith)

abbrev transaction : Log
transaction = record { start = 2; size = 40; outstanding = 1; committing = false; block = 5 ∷ [] }

writei-Saved_example :
    Saved 20 2 1 1 test_state test_file 6 600 test_bytes
      (writei 20 2 1 (λ k. none) 1 test_bytes test_file 6 600 test_state)
    × HasRoom transaction test_state
        (writei 20 2 1 (λ k. none) 1 test_bytes test_file 6 600 test_state)
writei-Saved_example =
    writei-Saved 20 2 1 1 (λ k. none) test_bytes test_file 6 600 test_state transaction
      test_disk-Ready test_file-IsValid (omega arith) (omega arith) (omega arith) (omega arith)
      (omega arith) (omega arith) (omega arith) (omega arith)

ilock_read-iupdate_example :
    (jp : Inode) × (st' : State) × ((iupdate 20 2 1 1 test_file >> ilock_read 20 2 1 1) test_state
      ≡ ok jp st')
    × SameInode jp test_file
    × ((j : ℕ) → j ≢ 1 → SameInode (dinode_at 20 2 1 st'.disk j) (dinode_at 20 2 1 test_disk j))
ilock_read-iupdate_example =
    ilock_read-iupdate 20 2 1 1 test_file test_state
      (record {
        kind = omega arith;
        major = omega arith;
        minor = omega arith;
        nlink = omega arith;
        size = omega arith;
        addrs = λ l h. ground arith;
      })
      (omega arith)

ialloc-Claimed_example : Claimed 20 2 1 test_state 1 1 7 (ialloc 20 2 1 8 1 test_state)
ialloc-Claimed_example = ialloc-Claimed 20 2 1 8 1 test_state (omega arith)

itrunc-Truncated_example :
    (jp : Inode) × (st' : State) × (itrunc 20 2 1 1 test_file test_state ≡ ok jp st')
    × Truncated 20 2 1 1 test_state test_file jp st'
itrunc-Truncated_example =
    itrunc-Truncated 20 2 1 1 test_state test_file test_disk-Ready test_file-IsValid

abbrev written_disk : Disk
written_disk = put_block test_disk 5 (copy_into (test_disk 5) 6 10 (λ i. test_bytes (0 + i)))

abbrev grown_file : Inode
grown_file = record test_file { size = 16 }

abbrev grown_state : State
grown_state = record {
  disk = put_block written_disk 1 (put_words (written_disk 1) 16 (dinode_words grown_file));
  logged = 5 ∷ 1 ∷ [];
}

test_write :
    writei 20 2 1 (λ k. none) 1 test_bytes test_file 6 10 test_state
    ≡ ok (grown_file, some 10) grown_state
unfolding writei write_loop bmap bmap_direct iupdate write_block
test_write = refl

readi-writei_example :
    readi 20 2 1 (λ k. none) grown_file 6 10 grown_state
    ≡ ok (grown_file, some (bytes test_bytes 0 10)) grown_state
readi-writei_example =
    readi-writei 20 2 1 1 (λ k. none) (λ k. none) test_bytes test_file grown_file 6 10 test_state
      grown_state test_disk-Ready test_file-IsValid (omega arith) (omega arith) (omega arith)
      (omega arith) test_write

readi-bytes_example :
    readi 20 2 1 (λ k. none) test_file 2 20 test_state
    ≡ ok (test_file, some (bytes (byte_at test_disk test_file) 2 (min 20 (8 - 2)))) test_state
readi-bytes_example =
    readi-bytes 20 2 1 test_state test_file (λ k. none) 2 20 (omega arith) (omega arith)
      (omega arith) (omega arith)
      (λ o a b c. let first : o / 512 ≡ 0 = omega (arith, c) in ground (arith, first, test_slot 0))
