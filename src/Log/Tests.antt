-- ===== src/Log/Tests.antt =====
-- log.c at concrete inputs.
use cs461_hw.Log.Header.{listed-head_block, listed}
use cs461_hw.Prelude.{
  ◌⊎◌, get_or, ◌≤◌, ◌≡◌, refl, inr, false, [], ◌∷◌, arith, ◌==◌, if◌then◌else◌, take, replicate,
}
use cs461_hw.Log.{
  absorb, store_words, install_trans, done, write_head, begin_op, head_block, load_words, log_write,
  write_log, apply_writes, commit, logsize, read_head, update, Blocks,
}
use cs461_hw.Log.Crash.{recovered, reboots}
use cs461_hw.Log.Commit.{CanCommit, commit_atomic}
use cs461_hw.Log.Space.{Ends, begins, here, next, Reach, initial, State, Reach-no_panic}

-- A log of 4 blocks from block 2; block 9 is logged with contents 7.
abbrev old_disk : Blocks
old_disk x = if x == 2 then replicate 5 0 else (1 ∷ [])

abbrev cache : Blocks
cache = update old_disk 9 (7 ∷ [])

commit_writes_four :
    (commit 2 cache (9 ∷ [])).1
    ≡ (3, 7 ∷ []) ∷ (2, 1 ∷ 9 ∷ 0 ∷ 0 ∷ 0 ∷ []) ∷ (9, 7 ∷ []) ∷ (2, 0 ∷ 9 ∷ 0 ∷ 0 ∷ 0 ∷ []) ∷ []
unfolding commit write_log write_head install_trans head_block store_words
commit_writes_four = refl

header_reads_back : listed (head_block (3 ∷ 4 ∷ 5 ∷ 6 ∷ []) (8 ∷ 9 ∷ [])) ≡ 8 ∷ 9 ∷ []
header_reads_back = listed-head_block (3 ∷ 4 ∷ 5 ∷ 6 ∷ []) (8 ∷ 9 ∷ []) (omega arith)

cache-CanCommit : CanCommit 2 4 old_disk cache (9 ∷ [])
unfolding read_head load_words
cache-CanCommit = record {
  room = omega arith;
  fits = omega arith;
  home = (inr (omega arith), tt);
  idle = refl;
  clean = λ x hx e. ground arith;
}

commit_atomic_example :
    recovered 2
      (reboots 2 (apply_writes old_disk (take 2 (commit 2 cache (9 ∷ [])).1)) (1 ∷ 0 ∷ []))
      9
    ≡ 7 ∷ []
commit_atomic_example =
    commit_atomic 2 4 old_disk cache (9 ∷ []) 2 (1 ∷ 0 ∷ []) 9 cache-CanCommit (inr (omega arith))

abbrev running : State
running = record {
  log = record { start = 2; size = 40; outstanding = 1; committing = false; block = [] };
  left = 10 ∷ [];
}

running-Reach : Reach (initial 2 40 old_disk) running
unfolding begin_op
running-Reach = next here (begins refl)

Reach-no_panic_example :
    (0 ≤ logsize)
    × ((1 ≤ 0)
        ⊎ (Ends running
            × ((get_or running.left 0 0 ≡ 0)
                ⊎ (log_write running.log 5 ≡ done (record running.log { block = 5 ∷ [] })))))
unfolding absorb
Reach-no_panic_example = Reach-no_panic 2 40 0 5 old_disk (omega arith) running-Reach
