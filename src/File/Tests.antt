-- ===== src/File/Tests.antt =====
-- file.c at concrete inputs.
use cs461_hw.Prelude.{◌+◌, Option, none, ℕ, ◌≡◌, ◌≢◌, refl, some, List, [], ◌∷◌, arith, true}
use cs461_hw.File.{
  write_loop, write_inode, file_at, wrote, failed, fd_inode, File, filealloc, fileclose, filedup,
  filewrite, no_file, fileread, closing,
}
use cs461_hw.File.Whole.{write_chunk-ok, filewrite_whole, write_chunk, live}
use cs461_hw.Inode.Files.{grown_size}
use cs461_hw.Inode.Slots.{IsValid}
use cs461_hw.Inode.Rewrites.{Rewrites}
use cs461_hw.Inode.Sample.{
  grown_file, grown_state, sample_write, test_disk, test_file, test_state, test_disk-Ready,
  test_file-IsValid, test_bytes,
}
use cs461_hw.File.Refs.{starts, allocs, Reach-counted}

abbrev two_files : List File
two_files = no_file ∷ no_file ∷ []

abbrev one_open : List File
one_open = record no_file { ref = 1 } ∷ no_file ∷ []

opens_first : filealloc two_files ≡ (one_open, some 0)
unfolding filealloc
opens_first = refl

Reach-counted_example :
    ((file_at one_open 0).ref ≡ 1)
    × ((t' : List File) × (filedup one_open 0 ≡ some t'))
    × ((t' : List File) × (fileclose one_open 0 ≡ some (t', closing (record no_file { ref = 1 }))))
    × ((filealloc one_open).1 ≢ some 0)
Reach-counted_example =
    Reach-counted 0 (refl, (refl, tt)) (allocs 0 starts opens_first) (omega arith)

abbrev log_file : File
log_file = record no_file { kind = fd_inode; ref = 1; writable = true; off = 100 }

abbrev open_file : File
open_file = record log_file { off = 6 }

ten_bytes :
    filewrite
      (λ n. failed)
      (write_chunk 20 2 1 1 (λ k. none) test_bytes)
      (live test_file test_state)
      open_file
      10
    ≡ some (live grown_file grown_state, record open_file { off = 16 }, wrote 10)
unfolding filewrite write_inode write_loop
ten_bytes =
    let chunk_written =
      write_chunk-ok 20 2 1 1 (λ k. none) test_bytes test_file grown_file test_state grown_state 6 0
        10 (some 10) sample_write in
    ground (arith, chunk_written)

filewrite_whole_example :
    (wrote 10 ≡ wrote 10)
    × (record open_file { off = 16 } ≡ record open_file { off = 6 + 10 })
    × (grown_file.size ≡ grown_size 8 (6 + 10))
    × IsValid 20 2 1 grown_state.disk grown_file
    × Rewrites 20 2 1 test_disk test_file grown_state.disk grown_file 6 10 test_bytes
filewrite_whole_example =
    filewrite_whole 20 2 1 1 (λ k. none) test_bytes (λ n. failed) test_file grown_file test_state
      grown_state open_file (record open_file { off = 16 }) 10 (wrote 10) test_disk-Ready
      test_file-IsValid (omega arith) refl refl (omega arith) (omega arith) ten_bytes

abbrev no_read : ℕ → ℕ → Option ℕ
no_read off n = none

unreadable : fileread (λ n. some n) no_read log_file 5 ≡ some (log_file, none)
unfolding fileread
unreadable = refl
