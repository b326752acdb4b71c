-- ===== src/Icache.antt =====
-- fs.c: the cache of inodes. A `struct inode *` is an index in `icache.inode`, and the array is a function
-- of the index. The lock of the cache is held throughout in the model, except where iput frees the
-- inode on the disk; the lock of an inode is not in the model.
pub mod Search
pub mod Refs
pub mod Unlink
mod Tests
use cs461_hw.Prelude.{
  ℕ, zero, suc, ◌+◌, ◌-◌, Bool, true, false, ◌&&◌, Option, none, some, ltb, ◌==◌, if◌then◌else◌,
}
use cs461_hw.Inode.{Inode, M, pure, panic, ok, bind, ◌>>=◌, ◌>>◌, iupdate, ilock_read}
use cs461_hw.Inode.Trunc.{itrunc}

-- `struct inode`; `valid` is the flag I_VALID, and `copy` what is read from the disk.
pub record Entry : Type 0 where
  pub dev : ℕ
  pub inum : ℕ
  pub ref : ℕ
  pub valid : Bool
  pub copy : Inode

abbrev pub Cache : Type 0
Cache = ℕ → Entry

abbrev pub ninode : ℕ
ninode = 50

abbrev pub put_entry : Cache → ℕ → Entry → Cache
put_entry c i e j = if j == i then e else c j

-- The test of the loop of `iget`.
abbrev pub is_for : ℕ → ℕ → Entry → Bool
is_for dev inum e = ltb 0 e.ref && (e.dev == dev && e.inum == inum)

abbrev pub remember : Option ℕ → ℕ → ℕ → Option ℕ
remember none i ref = if ref == 0 then some i else none
remember (some e) i ref = some e

-- The loop of `iget` over the last `left` entries, with the empty slot that it remembers: the entry
-- that it finds, if any, or else the slot.
pub iget_loop : ℕ → Cache → ℕ → ℕ → Option ℕ → Option ℕ × Option ℕ
iget_loop zero c dev inum empty = (none, empty)
iget_loop (suc left) c dev inum empty =
    let i = ninode - suc left in
    let empty' = remember empty i (c i).ref in
    let rest = iget_loop left c dev inum empty' in
    if is_for dev inum (c i) then (some i, empty) else rest

-- `iget`; none is its panic.
pub iget : ℕ → ℕ → Cache → Option (Cache × ℕ)
iget dev inum c =
    let (found, empty) = iget_loop ninode c dev inum none in
    elim found [
      | some i ↦ some (put_entry c i (record (c i) { ref = (c i).ref + 1 }), i)
      | none ↦ elim empty [
        | none ↦ none
        | some i ↦
            some
              (put_entry c i (record (c i) { dev = dev; inum = inum; ref = 1; valid = false }), i)
      ]
    ]

pub idup : Cache → ℕ → Cache
idup c i = put_entry c i (record (c i) { ref = (c i).ref + 1 })

module _ (size bmapstart inodestart : ℕ) where
  -- `ilock`, once it has the lock.
  pub ilock : Cache → ℕ → M Cache
  ilock c i =
      let read = do
        copy ← ilock_read size bmapstart inodestart (c i).inum
        pure (put_entry c i (record (c i) { copy = copy; valid = true }))
      in if ltb (c i).ref 1 then panic else if (c i).valid then pure c else read

  -- What `iput` does to an inode without links: the copy in the cache after it.
  pub free_inode : ℕ → Inode → M Inode
  free_inode inum ip = do
    ip' ← itrunc size bmapstart inodestart inum ip
    let ip'' = record ip' { kind = 0 }
    iupdate size bmapstart inodestart inum ip''
    pure ip''

  -- Its test for that.
  abbrev pub is_last : Entry → Bool
  is_last e = e.ref == 1 && (e.valid && e.copy.nlink == 0)

  pub iput : Cache → ℕ → M Cache
  iput c i =
      let freed = do
        copy ← free_inode (c i).inum (c i).copy
        pure (put_entry c i (record (c i) { copy = copy; valid = false; ref = (c i).ref - 1 }))
      in if is_last (c i)
        then freed
        else pure (put_entry c i (record (c i) { ref = (c i).ref - 1 }))
