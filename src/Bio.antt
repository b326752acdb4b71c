-- ===== src/Bio.antt =====
-- bio.c: the buffer cache, and the `iderw` of memide.c below it. The circular list through `head` is
-- the list of buffers from `head.next`, the most recently used, to `head.prev`. A `struct buf *` is
-- the buffer's number in the array `buf`. Of a sleep lock only `locked` is kept.
pub mod Get
pub mod Unique
pub mod Recency
pub mod Sync
mod Tests
use cs461_hw.Prelude.{
  ◌-◌, ℕ, zero, suc, ◌+◌, ◌%◌, ◌^◌, Bool, true, false, not, ◌&&◌, ◌||◌, Option, none, some, List,
  [], ◌∷◌, leb, ◌==◌, if◌then◌else◌,
}

pub record Buf : Type 0 where
  pub id : ℕ
  pub valid : Bool
  pub dirty : Bool
  pub dev : ℕ
  pub blockno : ℕ
  pub locked : Bool
  pub refcnt : ℕ
  pub content : List ℕ

-- `binit` for `n` buffers, which lie in zeroed memory: each is put in front of the one before.
pub binit : ℕ → List Buf
binit zero = []
binit (suc n) =
    record {
      id = n;
      valid = false;
      dirty = false;
      dev = 0;
      blockno = 0;
      locked = false;
      refcnt = 0;
      content = [];
    }
    ∷ binit n

-- `b->dev == dev && b->blockno == blockno`
abbrev pub is_for : ℕ → ℕ → Buf → Bool
is_for dev blockno b = b.dev == dev && b.blockno == blockno

-- `b->refcnt == 0 && (b->flags & B_DIRTY) == 0`
abbrev pub is_spare : Buf → Bool
is_spare b = b.refcnt == 0 && not b.dirty

-- `b->refcnt++`
abbrev pub retained : Buf → Buf
retained b = record b { refcnt = (b.refcnt + 1) % 2 ^ 32 }

abbrev pub recycled : ℕ → ℕ → Buf → Buf
recycled dev blockno b = record b {
  dev = dev;
  blockno = blockno;
  valid = false;
  dirty = false;
  refcnt = 1;
}

-- The first loop of `bget`: from the most recently used buffer on, one for the block.
pub find_cached : ℕ → ℕ → List Buf → Option (ℕ × List Buf)
find_cached dev blockno [] = none
find_cached dev blockno (b ∷ bs) =
    if is_for dev blockno b
    then some (b.id, retained b ∷ bs)
    else elim (find_cached dev blockno bs) [ none ↦ none | some (i, cs) ↦ some (i, b ∷ cs) ]

-- The second loop of `bget`: from the other end, one that can be taken for the block.
pub recycle : ℕ → ℕ → List Buf → Option (ℕ × List Buf)
recycle dev blockno [] = none
recycle dev blockno (b ∷ bs) = elim (recycle dev blockno bs) [
  | some (i, cs) ↦ some (i, b ∷ cs)
  | none ↦ if is_spare b then some (b.id, recycled dev blockno b ∷ bs) else none
]

-- `bget` up to its `release`; none is the panic "bget: no buffers".
pub bget_buf : ℕ → ℕ → List Buf → Option (ℕ × List Buf)
bget_buf dev blockno bs = elim (find_cached dev blockno bs) [
  | some r ↦ some r
  | none ↦ recycle dev blockno bs
]

abbrev pub find_buf : ℕ → List Buf → Option Buf
find_buf i [] = none
find_buf i (b ∷ bs) = if b.id == i then some b else find_buf i bs

abbrev pub put_buf : Buf → List Buf → List Buf
put_buf b' [] = []
put_buf b' (b ∷ bs) = if b.id == b'.id then b' ∷ bs else b ∷ put_buf b' bs

abbrev pub remove_buf : ℕ → List Buf → List Buf
remove_buf i [] = []
remove_buf i (b ∷ bs) = if b.id == i then bs else b ∷ remove_buf i bs

-- `acquiresleep(&b->lock)`; none where it sleeps.
pub lock_buf : Buf → Option Buf
lock_buf b = if b.locked then none else some (record b { locked = true })

-- `iderw` on a disk of `disksize` blocks; none for its panics.
pub iderw : ℕ → (ℕ → List ℕ) → Buf → Option ((ℕ → List ℕ) × Buf)
iderw disksize disk b =
    if not b.locked || (b.valid && not b.dirty || (not (b.dev == 1) || leb disksize b.blockno))
    then none
    else if b.dirty
    then some (
      (λ k. if k == b.blockno then b.content else disk k),
      record b { dirty = false; valid = true },
    )
    else some (disk, record b { content = disk b.blockno; valid = true })

-- `bread` once `bget` has locked its buffer.
pub bread : ℕ → (ℕ → List ℕ) → Buf → Option ((ℕ → List ℕ) × Buf)
bread disksize disk b = if not b.valid then iderw disksize disk b else some (disk, b)

pub bwrite : ℕ → (ℕ → List ℕ) → Buf → Option ((ℕ → List ℕ) × Buf)
bwrite disksize disk b =
    if not b.locked then none else iderw disksize disk (record b { dirty = true })

-- `releasesleep(&b->lock)`
abbrev pub unlocked : Buf → Buf
unlocked b = record b { locked = false }

-- `b->refcnt--`
abbrev pub dropped : Buf → Buf
dropped b = record b { refcnt = (b.refcnt + 2 ^ 32 - 1) % 2 ^ 32 }

-- `brelse` from its `acquire` on.
pub drop_ref : ℕ → List Buf → List Buf
drop_ref i bs = elim (find_buf i bs) [
  | none ↦ bs
  | some b ↦ if (dropped b).refcnt == 0 then dropped b ∷ remove_buf i bs else put_buf (dropped b) bs
]

-- `brelse`, if no other process runs between the two locks; none is its panic.
pub brelse : ℕ → List Buf → Option (List Buf)
brelse i bs = elim (find_buf i bs) [
  | none ↦ none
  | some b ↦ if not b.locked then none else some (drop_ref i (put_buf (unlocked b) bs))
]
