-- ===== src/Inode.antt =====
-- fs.c: the contents of inodes. A call works on the blocks as bread returns them and on the list of
-- the blocks that it gives to log_write; it ends with a result, with a panic, or without fuel.
-- The bytes of a block are its bits, as in Fs, and `a[k]`, of a block that is read as an array
-- of `uint`, is made of the 32 bits from byte 4 * k on. `size`, `bmapstart` and `inodestart` are of the
-- superblock.
pub mod Words
pub mod Slots
pub mod Grow
pub mod Map
pub mod Store
pub mod Rewrites
pub mod Write
pub mod Read
pub mod Save
pub mod Files
pub mod Logged
pub mod Reserved
pub mod Stored
pub mod Alloc
pub mod Trunc
pub mod Sample
mod Tests
use cs461_hw.Prelude.{
  take, ℕ, zero, suc, ◌+◌, ◌-◌, ◌*◌, ◌/◌, ◌%◌, ◌^◌, min, Bool, true, false, ◌&&◌, ◌||◌, Option,
  none, some, List, [], ◌∷◌, ◌++◌, ltb, leb, ◌==◌, if◌then◌else◌,
}
use cs461_hw.Fs.{balloc, Disk}

abbrev pub Byte : Type 0
Byte = ℕ → Bool

abbrev pub Block : Type 0
Block = ℕ → Byte

pub record State : Type 0 where
  pub disk : Disk
  pub logged : List ℕ

-- `out_of_fuel` has no counterpart in the program.
pub data Result {ℓ} (A : Type ℓ) : Type ℓ where
  ok : A → State → Result A
  panic : State → Result A
  out_of_fuel : Result A

abbrev pub M {ℓ} : Type ℓ → Type ℓ
M A = State → Result A

abbrev pub pure {ℓ} : {A : Type ℓ} → A → M A
pure a st = ok a st

abbrev pub bind {ℓ κ} : {A : Type ℓ} {B : Type κ} → Result A → (A → State → Result B) → Result B
bind (ok a st) f = f a st
bind (panic st) f = panic st
bind out_of_fuel f = out_of_fuel

infixl 5 ◌>>=◌ ◌>>◌
abbrev pub ◌>>=◌ {ℓ κ} : {A : Type ℓ} {B : Type κ} → M A → (A → M B) → M B
◌>>=◌ m f st = bind (m st) f

abbrev pub ◌>>◌ {ℓ} : {B : Type ℓ} → M (Unit {0}) → M B → M B
m >> k = m >>= λ _. k

-- `struct inode`, as far as it is a copy of the inode on the disk; `type` is `kind`.
pub record Inode : Type 0 where
  pub kind : ℕ
  pub major : ℕ
  pub minor : ℕ
  pub nlink : ℕ
  pub size : ℕ
  pub addrs : ℕ → ℕ

abbrev pub ndirect : ℕ
ndirect = 12

abbrev pub nindirect : ℕ
nindirect = 128

abbrev pub maxfile : ℕ
maxfile = ndirect + nindirect

-- T_DEV
abbrev pub dev_kind : ℕ
dev_kind = 3

-- The number that `n` bits make, the lowest first, and the bits of a number.
pub value : ℕ → (ℕ → Bool) → ℕ
value zero f = 0
value (suc n) f = (if f 0 then 1 else 0) + 2 * value n (λ i. f (suc i))

pub bit : ℕ → ℕ → Bool
bit zero v = v % 2 == 1
bit (suc t) v = bit t (v / 2)

-- `a[k]`
pub word_at : Block → ℕ → ℕ
word_at block k = value 32 (λ t. block (4 * k + t / 8) (t % 8))

-- `a[k] = v`
pub put_word : Block → ℕ → ℕ → Block
put_word block k v i j = if i / 4 == k then bit (8 * (i % 4) + j) v else block i j

abbrev pub put_block : Disk → ℕ → Block → Disk
put_block d b block c = if c == b then block else d c

-- `bread`
abbrev pub bread : ℕ → M Block
bread b st = ok (st.disk b) st

-- The change of a buffer's contents and its `log_write`, which is listed; its panics, where the
-- transaction has no room or there is none, are not in it.
pub write_block : ℕ → Block → M (Unit {0})
write_block b block st =
    ok tt (record st { disk = put_block st.disk b block; logged = st.logged ++ (b ∷ []) })

abbrev pub put_addr : (ℕ → ℕ) → ℕ → ℕ → ℕ → ℕ
put_addr addrs k v l = if l == k then v else addrs l

-- `memmove` of `m` bytes, from `at` on in the block.
abbrev pub copy_into : Block → ℕ → ℕ → (ℕ → Byte) → Block
copy_into block at m src i = if leb at i && ltb i (at + m) then src (i - at) else block i

pub bytes : (ℕ → Byte) → ℕ → ℕ → List Byte
bytes f at zero = []
bytes f at (suc n) = f at ∷ bytes f (at + 1) n

pub words : (ℕ → ℕ) → ℕ → ℕ → List ℕ
words f at zero = []
words f at (suc n) = f at ∷ words f (at + 1) n

-- The words of a `struct dinode`: two `short` in each of the first two.
pub dinode_words : Inode → List ℕ
dinode_words ip =
    (ip.kind + 2 ^ 16 * ip.major) ∷ (ip.minor + 2 ^ 16 * ip.nlink) ∷ ip.size ∷ words ip.addrs 0 13

pub put_words : Block → ℕ → List ℕ → Block
put_words block k [] = block
put_words block k (v ∷ vs) = put_words (put_word block k v) (k + 1) vs

-- The contents of a `struct dinode` at word `k` of a block.
pub read_dinode : Block → ℕ → Inode
read_dinode block k = record {
  kind = word_at block k % 2 ^ 16;
  major = word_at block k / 2 ^ 16;
  minor = word_at block (k + 1) % 2 ^ 16;
  nlink = word_at block (k + 1) / 2 ^ 16;
  size = word_at block (k + 2);
  addrs = λ l. word_at block (k + 3 + l);
}

abbrev pub ipb : ℕ
ipb = 8

module _ (size bmapstart inodestart : ℕ) where
  -- `IBLOCK(i, sb)`
  abbrev pub iblock : ℕ → ℕ
  iblock inum = inum / ipb + inodestart

  -- `balloc`, with the blocks that it logs.
  pub balloc_block : M ℕ
  balloc_block st = elim (balloc size bmapstart st.disk) [
    | none ↦ panic st
    | some (d, b, bs) ↦ ok b (record st { disk = d; logged = st.logged ++ bs })
  ]

  -- `iupdate`
  pub iupdate : ℕ → Inode → M (Unit {0})
  iupdate inum ip = do
    block ← bread (iblock inum)
    write_block (iblock inum) (put_words block (16 * (inum % ipb)) (dinode_words ip))

  -- `ilock` of an entry that is not I_VALID, once it has the lock.
  pub ilock_read : ℕ → M Inode
  ilock_read inum = do
    block ← bread (iblock inum)
    let ip = read_dinode block (16 * (inum % ipb))
    if ip.kind == 0 then panic else pure ip

  -- `bmap` below NDIRECT: the inode and the block's address.
  pub bmap_direct : Inode → ℕ → M (Inode × ℕ)
  bmap_direct ip bn =
      let fresh = do
        addr ← balloc_block
        pure (record ip { addrs = put_addr ip.addrs bn addr }, addr)
      in if ip.addrs bn == 0 then fresh else pure (ip, ip.addrs bn)

  -- The indirect block.
  pub bmap_table : Inode → M (Inode × ℕ)
  bmap_table ip = bmap_direct ip ndirect

  -- `bmap` from the indirect block at `table` on, for the entry `bn`.
  pub bmap_entry : ℕ → ℕ → M ℕ
  bmap_entry table bn = do
    a ← bread table
    let addr = word_at a bn
    let fresh = do
      new ← balloc_block
      a' ← bread table
      write_block table (put_word a' bn new)
      pure new
    if addr == 0 then fresh else pure addr

  pub bmap : Inode → ℕ → M (Inode × ℕ)
  bmap ip bn =
      let indirect = do
        (ip', table) ← bmap_table ip
        addr ← bmap_entry table (bn - ndirect)
        pure (ip', addr)
      in if ltb bn ndirect
        then bmap_direct ip bn
        else if ltb (bn - ndirect) nindirect
        then indirect
        else panic

  -- The loop of `readi`, with the bytes that it copies.
  pub read_loop : ℕ → Inode → ℕ → ℕ → ℕ → M (Inode × List Byte)
  read_loop zero ip off tot n = if ltb tot n then (λ st. out_of_fuel) else pure (ip, [])
  read_loop (suc fuel) ip off tot n =
      let m = min (n - tot) (512 - off % 512) in
      let round = do
        (ip', b) ← bmap ip (off / 512)
        block ← bread b
        (ip'', rest) ← read_loop fuel ip' (off + m) (tot + m) n
        pure (ip'', bytes block (off % 512) m ++ rest)
      in if ltb tot n then round else pure (ip, [])

  -- The loop of `writei`, with the offset where it ends.
  pub write_loop : ℕ → (ℕ → Byte) → Inode → ℕ → ℕ → ℕ → M (Inode × ℕ)
  write_loop zero src ip off tot n = if ltb tot n then (λ st. out_of_fuel) else pure (ip, off)
  write_loop (suc fuel) src ip off tot n =
      let m = min (n - tot) (512 - off % 512) in
      let round = do
        (ip', b) ← bmap ip (off / 512)
        block ← bread b
        write_block b (copy_into block (off % 512) m (λ i. src (tot + i)))
        write_loop fuel src ip' (off + m) (tot + m) n
      in if ltb tot n then round else pure (ip, off)

  -- `readi`: the inode, and the bytes read; none is -1. `device` is what `devsw` has for a major
  -- number, with the bytes that its `read` gives.
  pub readi :
      (ℕ → Option (ℕ → ℕ → Option (List Byte))) → Inode → ℕ → ℕ → M (Inode × Option (List Byte))
  readi device ip off n =
      let from_device : Option (List Byte) =
        if leb 10 ip.major
        then none
        else elim (device ip.major) [ none ↦ none | some read ↦ read off n ] in
      let count = if ltb ip.size ((off + n) % 2 ^ 32) then ip.size - off else n in
      let from_blocks = do (ip', bs) ← read_loop count ip off 0 count; pure (ip', some bs)
      in if ip.kind == dev_kind
        then pure (ip, from_device)
        else if ltb ip.size off || ltb ((off + n) % 2 ^ 32) off
        then pure (ip, none)
        else from_blocks

  -- `writei` of `n` bytes of `src`: the inode and the number of bytes; none is -1.
  pub writei :
      (ℕ → Option (ℕ → ℕ → Option ℕ)) → ℕ → (ℕ → Byte) → Inode → ℕ → ℕ → M (Inode × Option ℕ)
  writei device inum src ip off n =
      let to_device : Option ℕ =
        if leb 10 ip.major
        then none
        else elim (device ip.major) [ none ↦ none | some write ↦ write off n ] in
      let to_blocks = do
        (ip', end) ← write_loop n src ip off 0 n
        let ip'' = record ip' { size = end }
        let grown = do iupdate inum ip''; pure (ip'', some n)
        if ltb 0 n && ltb ip'.size end then grown else pure (ip', some n)
      in if ip.kind == dev_kind
        then pure (ip, to_device)
        else if ltb ip.size off || ltb ((off + n) % 2 ^ 32) off
        then pure (ip, none)
        else if ltb (maxfile * 512) ((off + n) % 2 ^ 32)
        then pure (ip, none)
        else to_blocks
