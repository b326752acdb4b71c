-- ===== src/File.antt =====
-- file.c: the table of open files. A `struct file *` is an index in `ftable.file`; the pipe or inode
-- of a file is a number. The functions of pipe.c and fs.c that a file calls are arguments: they
-- return `none` for a negative result. The lock of the table is not in the model.
pub mod Refs
pub mod Chunks
pub mod Whole
mod Tests
use cs461_hw.Prelude.{
  ℕ, zero, suc, ◌+◌, ◌-◌, ◌*◌, ◌/◌, ◌%◌, ◌^◌, Bool, true, false, not, Option, none, some, List, [],
  ◌∷◌, ltb, ◌==◌, if◌then◌else◌, get_or, set,
}
use cs461_hw.Log.{logsize}

pub data FileType : Type 0 where
  fd_none fd_pipe fd_inode : FileType

pub record File : Type 0 where
  pub kind : FileType
  pub ref : ℕ
  pub readable : Bool
  pub writable : Bool
  pub pipe : ℕ
  pub ip : ℕ
  pub off : ℕ

abbrev pub no_file : File
no_file = record {
  kind = fd_none;
  ref = 0;
  readable = false;
  writable = false;
  pipe = 0;
  ip = 0;
  off = 0;
}

abbrev pub file_at : List File → ℕ → File
file_at t i = get_or t i no_file

-- `filealloc`
pub filealloc : List File → List File × Option ℕ
filealloc [] = ([], none)
filealloc (f ∷ fs) =
    let (fs', found) = filealloc fs in
    if f.ref == 0
    then (record f { ref = 1 } ∷ fs, some 0)
    else (f ∷ fs', elim found [ none ↦ none | some i ↦ some (suc i) ])

-- `filedup`; none is its panic.
pub filedup : List File → ℕ → Option (List File)
filedup t i =
    let f = file_at t i in
    if ltb f.ref 1 then none else some (set t i (record f { ref = f.ref + 1 }))

-- What `fileclose` goes on to do without the lock: nothing as the file is still open, the call
-- `pipeclose(ff.pipe, ff.writable)`, the transaction with `iput(ff.ip)`, or nothing.
pub data Closing : Type 0 where
  still_open : Closing
  closes_pipe : ℕ → Bool → Closing
  puts_inode : ℕ → Closing
  closes_nothing : Closing

-- The end of `fileclose`, for its copy `ff`.
pub closing : File → Closing
closing ff = elim ff.kind [
  | fd_none ↦ closes_nothing
  | fd_pipe ↦ closes_pipe ff.pipe ff.writable
  | fd_inode ↦ puts_inode ff.ip
]

-- `fileclose`; none is its panic.
pub fileclose : List File → ℕ → Option (List File × Closing)
fileclose t i =
    let f = file_at t i in
    if ltb f.ref 1
    then none
    else if ltb 0 (f.ref - 1)
    then some (set t i (record f { ref = f.ref - 1 }), still_open)
    else some (set t i (record f { ref = 0; kind = fd_none }), closing f)

-- `filestat`: whether it fills in the metadata, or returns -1.
pub filestat : File → Bool
filestat f = elim f.kind [ fd_inode ↦ true | _ ↦ false ]

-- `fileread` of `n` bytes: the file after it and the result; none is its panic.
pub fileread : (ℕ → Option ℕ) → (ℕ → ℕ → Option ℕ) → File → ℕ → Option (File × Option ℕ)
fileread piperead readi f n =
    let from_inode : File × Option ℕ = elim (readi f.off n) [
      | none ↦ (f, none)
      | some r ↦ (record f { off = (f.off + r) % 2 ^ 32 }, some r)
    ] in
    if not f.readable then some (f, none) else elim f.kind [
      | fd_none ↦ none
      | fd_pipe ↦ some (f, piperead n)
      | fd_inode ↦ some from_inode
    ]

-- `max` of `filewrite`
abbrev pub max_chunk : ℕ
max_chunk = (logsize - 1 - 1 - 2) / 2 * 512

-- How the loop of `filewrite` ends: a return of `n`, a return of -1, or the panic; `unfinished` is
-- the end of the fuel.
pub data WriteEnd : Type 0 where
  wrote : ℕ → WriteEnd
  failed : WriteEnd
  short_filewrite : WriteEnd
  unfinished : WriteEnd

-- `n1`
abbrev pub chunk : ℕ → ℕ → ℕ
chunk n i = if ltb max_chunk (n - i) then max_chunk else n - i

-- The loop of `filewrite` on the inode layer's state, the file's offset and `i`. Each round is one
-- transaction; `writei` takes the position in `addr`, the offset, and the number of bytes.
pub write_loop {ℓ} :
    {S : Type ℓ} → (S → ℕ → ℕ → ℕ → S × Option ℕ) → ℕ → S → ℕ → ℕ → ℕ → S × ℕ × WriteEnd
write_loop {S = S} writei zero s off i n = (s, off, unfinished)
write_loop {S = S} writei (suc fuel) s off i n =
    let (s', r) = writei s i off (chunk n i) in
    let round : S × ℕ × WriteEnd = elim r [
      | none ↦ (s', off, failed)
      | some k ↦
          let off' = (off + k) % 2 ^ 32 in
          let rest = write_loop writei fuel s' off' (i + k) n in
          if k == chunk n i then rest else (s', off', short_filewrite)
    ] in
    if ltb i n then round else (s, off, if i == n then wrote n else failed)

-- `filewrite` of `n` bytes, not negative, to an inode. Each round writes a byte at least, so that `n`
-- rounds and the last test are enough.
pub write_inode {ℓ} : {S : Type ℓ} → (S → ℕ → ℕ → ℕ → S × Option ℕ) → S → ℕ → ℕ → S × ℕ × WriteEnd
write_inode writei s off n = write_loop writei (suc n) s off 0 n

-- `filewrite`; the outer none is its last panic. A pipe's result is the call of `pipewrite`.
pub filewrite {ℓ} :
    {S : Type ℓ}
    → (ℕ → WriteEnd)
    → (S → ℕ → ℕ → ℕ → S × Option ℕ)
    → S
    → File
    → ℕ
    → Option (S × File × WriteEnd)
filewrite pipewrite writei s f n =
    let (s', off, end) = write_inode writei s f.off n in
    if not f.writable then some (s, f, failed) else elim f.kind [
      | fd_none ↦ none
      | fd_pipe ↦ some (s, f, pipewrite n)
      | fd_inode ↦ some (s', record f { off = off }, end)
    ]
