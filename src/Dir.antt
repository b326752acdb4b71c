-- ===== src/Dir.antt =====
-- fs.c: directories. A directory is a file of entries of 16 bytes, an inode number of two bytes and a
-- name of 14; a name is a function from indices to the values of its bytes. The `iget` at the end of
-- dirlookup, and the `iput` of dirlink, are not in the model: dirlookup returns the number of the inode.
pub mod Entries
pub mod Lookup
pub mod Link
mod Tests
use cs461_hw.Prelude.{
  ℕ, zero, suc, ◌+◌, ◌*◌, ◌/◌, ◌%◌, Bool, true, false, not, ◌&&◌, ◌||◌, Option, none, some, List,
  [], ◌∷◌, ltb, ◌==◌, if◌then◌else◌, length, get_or, replicate,
}
use cs461_hw.Inode.{
  Byte, Inode, M, pure, panic, ok, bind, ◌>>=◌, ◌>>◌, readi, writei, value, bit, out_of_fuel,
}

-- T_DIR
abbrev pub dir_kind : ℕ
dir_kind = 1

abbrev pub dirsiz : ℕ
dirsiz = 14

-- `sizeof(struct dirent)`
abbrev pub dirent_size : ℕ
dirent_size = 16

-- Whether `strncmp` of the `n` bytes is 0, as `namecmp` asks.
pub same_name : ℕ → (ℕ → ℕ) → (ℕ → ℕ) → Bool
same_name zero s t = true
same_name (suc n) s t =
    let rest = same_name n (λ i. s (suc i)) (λ i. t (suc i)) in
    if not (s 0 == 0) && s 0 == t 0 then rest else s 0 == t 0

-- The `n` bytes that `strncpy` stores.
pub copied_name : ℕ → (ℕ → ℕ) → List ℕ
copied_name zero t = []
copied_name (suc n) t =
    let rest = copied_name n (λ i. t (suc i)) in t 0 ∷ (if t 0 == 0 then replicate n 0 else rest)

-- The value of a byte that readi has stored.
abbrev pub byte_value : List Byte → ℕ → ℕ
byte_value bs i = value 8 (get_or bs i (λ j. false))

-- `de.inum` and `de.name`
pub de_inum : List Byte → ℕ
de_inum bs = byte_value bs 0 + 256 * byte_value bs 1

pub de_name : List Byte → ℕ → ℕ
de_name bs i = byte_value bs (2 + i)

-- The bytes of an entry for an inode and a name.
pub de_bytes : ℕ → (ℕ → ℕ) → ℕ → Byte
de_bytes inum name zero j = bit j (inum % 256)
de_bytes inum name (suc zero) j = bit j (inum / 256 % 256)
de_bytes inum name (suc (suc i)) j = bit j (get_or (copied_name dirsiz name) i 0)

module _ (size bmapstart inodestart : ℕ) where
  -- `readi` of an entry, which panics if it is short. A directory is not a device.
  pub read_entry : Inode → ℕ → M (Inode × List Byte)
  read_entry dp off = do
    (dp', r) ← readi size bmapstart inodestart (λ k. none) dp off dirent_size
    elim r [ none ↦ panic | some bs ↦ if length bs == dirent_size then pure (dp', bs) else panic ]

  -- The loop of `dirlookup`: the number of the inode, and the offset of the entry.
  pub lookup_loop : ℕ → Inode → (ℕ → ℕ) → ℕ → M (Inode × Option (ℕ × ℕ))
  lookup_loop zero dp name off = if ltb off dp.size then (λ st. out_of_fuel) else pure (dp, none)
  lookup_loop (suc fuel) dp name off =
      let round = do
        (dp', bs) ← read_entry dp off
        let skip = de_inum bs == 0 || not (same_name dirsiz name (de_name bs))
        let found : M (Inode × Option (ℕ × ℕ)) = pure (dp', some (de_inum bs, off))
        if skip then lookup_loop fuel dp' name (off + dirent_size) else found
      in if ltb off dp.size then round else pure (dp, none)

  -- `dirlookup`
  pub dirlookup : Inode → (ℕ → ℕ) → M (Inode × Option (ℕ × ℕ))
  dirlookup dp name = if dp.kind == dir_kind then lookup_loop dp.size dp name 0 else panic

  -- The loop of `dirlink`: the offset of the first empty entry, or the end.
  pub empty_loop : ℕ → Inode → ℕ → M (Inode × ℕ)
  empty_loop zero dp off = if ltb off dp.size then (λ st. out_of_fuel) else pure (dp, off)
  empty_loop (suc fuel) dp off =
      let round = do
        (dp', bs) ← read_entry dp off
        if de_inum bs == 0 then pure (dp', off) else empty_loop fuel dp' (off + dirent_size)
      in if ltb off dp.size then round else pure (dp, off)

  -- `dirlink` of the directory with number `dnum`: false is -1.
  pub dirlink : ℕ → Inode → (ℕ → ℕ) → ℕ → M (Inode × Bool)
  dirlink dnum dp name inum = do
    (dp1, found) ← dirlookup dp name
    let enter = do
      (dp2, off) ← empty_loop dp1.size dp1 0
      (dp3, r) ←
          writei size bmapstart inodestart (λ k. none) dnum (de_bytes inum name) dp2 off dirent_size
      elim r [ none ↦ panic | some n ↦ if n == dirent_size then pure (dp3, true) else panic ]
    elim found [ some x ↦ pure (dp1, false) | none ↦ enter ]
