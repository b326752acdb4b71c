-- ===== src/Log.antt =====
-- log.c: the write-ahead log of the file system. A block is the list of its 32-bit words.
-- `bread` reads through the buffer cache, so the functions work on a `view`: for each block number
-- the contents that `bread` returns. `bwrite` changes the view and writes the block to the disk;
-- the writes are listed in their order, and the disk is what they make of it, one whole block
-- at a time. The buffer cache keeps a dirty block (bio.c), so a view differs from the disk
-- where blocks are logged and not yet written.
pub mod Header
pub mod Writes
pub mod Install
pub mod Crash
pub mod Commit
pub mod Space
pub mod Room
mod Tests
use cs461_hw.Prelude.{
  ◌-◌, ◌*◌, true, false, ◌||◌, ltb, leb, ℕ, zero, suc, ◌+◌, Bool, List, [], ◌∷◌, ◌++◌, ◌==◌,
  if◌then◌else◌, length, set, get_or,
}

abbrev pub Block : Type 0
Block = List ℕ

abbrev pub Blocks : Type 0
Blocks = ℕ → Block

abbrev pub Write : Type 0
Write = ℕ × Block

abbrev pub maxopblocks : ℕ
maxopblocks = 10

abbrev pub logsize : ℕ
logsize = 30

-- `struct log`, without its lock and `dev`. Of `lh` the list `block` is `block[0..n)` and `n` is its
-- length: the code reads no entry from `n` on before it has written it.
pub record Log : Type 0 where
  pub start : ℕ
  pub size : ℕ
  pub outstanding : ℕ
  pub committing : Bool
  pub block : List ℕ

abbrev pub update {ℓ} : {A : Type ℓ} → (ℕ → A) → ℕ → A → ℕ → A
update f k v j = if j == k then v else f j

-- What a list of writes makes of a disk.
pub apply_writes : Blocks → List Write → Blocks
apply_writes d [] = d
apply_writes d ((b, v) ∷ ws) = apply_writes (update d b v) ws

-- `write_log` from `tail` on: copies the logged blocks from the cache to the log.
pub write_log : ℕ → Blocks → ℕ → List ℕ → Blocks × List Write
write_log start view tail [] = (view, [])
write_log start view tail (b ∷ bs) =
    let to = start + tail + 1 in
    let (view', ws) = write_log start (update view to (view b)) (suc tail) bs in
    (view', (to, view b) ∷ ws)

-- `install_trans` from `tail` on: copies the log to the home locations.
pub install_trans : ℕ → Blocks → ℕ → List ℕ → Blocks × List Write
install_trans start view tail [] = (view, [])
install_trans start view tail (b ∷ bs) =
    let from = start + tail + 1 in
    let (view', ws) = install_trans start (update view b (view from)) (suc tail) bs in
    (view', (b, view from) ∷ ws)

-- `hb->block[i] = log.lh.block[i]` from word `at` on.
pub store_words : Block → ℕ → List ℕ → Block
store_words words at [] = words
store_words words at (b ∷ bs) = store_words (set words at b) (suc at) bs

-- The header block that `write_head` leaves: `n` in word 0, the block numbers behind it.
pub head_block : Block → List ℕ → Block
head_block words bs = store_words (set words 0 (length bs)) 1 bs

pub write_head : ℕ → Blocks → List ℕ → Blocks × List Write
write_head start view bs =
    let words = head_block (view start) bs in (update view start words, (start, words) ∷ [])

-- `log.lh.block[i] = lh->block[i]` for `n` words from word `at` on.
pub load_words : Block → ℕ → ℕ → List ℕ
load_words words at zero = []
load_words words at (suc n) = get_or words at 0 ∷ load_words words (suc at) n

pub read_head : ℕ → Blocks → List ℕ
read_head start view = load_words (view start) 1 (get_or (view start) 0 0)

-- `recover_from_log`: the writes that it makes. The log is empty after it.
pub recover_from_log : ℕ → Blocks → Blocks × List Write
recover_from_log start view =
    let bs = read_head start view in
    let (installed, ws) = install_trans start view 0 bs in
    let (cleared, us) = write_head start installed [] in (cleared, ws ++ us)

-- `initlog`: the log that the superblock's `logstart` and `nlog` describe, and the recovery's writes.
-- The header's size check is between two constants (124 and BSIZE) and never fails.
abbrev pub init_log : ℕ → ℕ → Blocks → Log × Blocks × List Write
init_log logstart nlog view =
    let (view', ws) = recover_from_log logstart view in
    (
      record { start = logstart; size = nlog; outstanding = 0; committing = false; block = [] },
      view',
      ws,
    )

-- `commit`, for the blocks that are logged. The log is empty after it.
pub commit : ℕ → Blocks → List ℕ → Blocks × List Write
commit start view [] = (view, [])
commit start view (b ∷ bs) =
    let blocks = b ∷ bs in
    let (logged, ws) = write_log start view 0 blocks in
    let (headed, us) = write_head start logged blocks in
    let (installed, xs) = install_trans start headed 0 blocks in
    let (cleared, ys) = write_head start installed [] in (cleared, ws ++ (us ++ (xs ++ ys)))

-- The loop of `log_write` over `block[0..n)`: a block that is logged already stays where it is.
pub absorb : List ℕ → ℕ → List ℕ
absorb [] b = b ∷ []
absorb (c ∷ cs) b = if c == b then b ∷ cs else c ∷ absorb cs b

pub data Panic : Type 0 where
  too_big_a_transaction log_write_outside_of_trans log_committing : Panic

pub data LogResult : Type 0 where
  panicked : Panic → LogResult
  done : Log → LogResult

-- `log_write`; that it marks the buffer dirty is in the view.
pub log_write : Log → ℕ → LogResult
log_write lg b =
    if leb logsize (length lg.block) || leb lg.size (length lg.block + 1)
    then panicked too_big_a_transaction
    else if ltb lg.outstanding 1
    then panicked log_write_outside_of_trans
    else done (record lg { block = absorb lg.block b })

-- One run of `begin_op`, from its start or a wakeup to its end or to its `sleep(&log, …)`.
pub data BeginRun : Type 0 where
  waiting : BeginRun
  begun : Log → BeginRun

pub begin_op : Log → BeginRun
begin_op lg =
    if lg.committing
    then waiting
    else if ltb logsize (length lg.block + (lg.outstanding + 1) * maxopblocks)
    then waiting
    else begun (record lg { outstanding = lg.outstanding + 1 })

-- `end_op` up to its first `release`: it goes on to commit, or has woken the waiting callers.
-- `below_zero` stands for an `outstanding` of -1, which a call outside a transaction makes.
pub data EndRun : Type 0 where
  end_panicked : Panic → EndRun
  below_zero : EndRun
  commits : Log → EndRun
  wakes : Log → EndRun

pub end_op : Log → EndRun
end_op lg =
    if lg.committing
    then end_panicked log_committing
    else if lg.outstanding == 0
    then below_zero
    else if lg.outstanding == 1
    then commits (record lg { outstanding = 0; committing = true })
    else wakes (record lg { outstanding = lg.outstanding - 1 })

-- `end_op` after `commit`, which has emptied the log; it wakes the waiting callers.
pub end_commit : Log → Log
end_commit lg = record lg { committing = false; block = [] }
