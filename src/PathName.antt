-- ===== src/PathName.antt =====
-- fs.c: paths. A path is the list of its bytes before the terminator, and so is a name. What namex asks of
-- the inodes is in a record: whether ilock finds a directory, and what dirlookup gives. The
-- reference counts and the locks of the inodes on the way are not in the model.
pub mod Elements
mod Tests
use cs461_hw.Prelude.{
  ℕ, zero, suc, ◌+◌, Bool, true, false, not, ◌&&◌, Option, none, some, List, [], ◌∷◌, ◌==◌,
  if◌then◌else◌, length, take,
}

abbrev pub slash : ℕ
slash = 47

abbrev pub dirsiz : ℕ
dirsiz = 14

-- `while(*path == '/') path++`
pub drop_slashes : List ℕ → List ℕ
drop_slashes [] = []
drop_slashes (c ∷ cs) = let rest = drop_slashes cs in if c == slash then rest else c ∷ cs

-- The bytes up to the next slash, and the rest from there.
pub element : List ℕ → List ℕ × List ℕ
element [] = ([], [])
element (c ∷ cs) =
    let (taken, rest) = element cs in if c == slash then ([], c ∷ cs) else (c ∷ taken, rest)

-- `skipelem`: the path that is left, and the name; none is 0.
pub skipelem : List ℕ → Option (List ℕ × List ℕ)
skipelem path = elim (drop_slashes path) [
  | [] ↦ none
  | c ∷ cs ↦ let (taken, rest) = element (c ∷ cs) in some (drop_slashes rest, take dirsiz taken)
]

-- The inodes, by their numbers.
pub record Tree : Type 0 where
  pub root : ℕ
  pub cwd : ℕ
  pub is_dir : ℕ → Bool
  pub lookup : ℕ → List ℕ → Option ℕ

abbrev pub is_empty : List ℕ → Bool
is_empty [] = true
is_empty (c ∷ cs) = false

-- The loop of `namex`: none is 0, and otherwise the inode, with the last name. `name` is what it holds.
-- A round for each byte is enough; without fuel it would end with 0.
pub namex_loop : ℕ → Tree → Bool → List ℕ → List ℕ → ℕ → Option (ℕ × List ℕ)
namex_loop zero t parent path name ip = none
namex_loop (suc fuel) t parent path name ip = elim (skipelem path) [
  | none ↦ if parent then none else some (ip, name)
  | some (path', name') ↦
      let next : Option (ℕ × List ℕ) = elim (t.lookup ip name') [
        | none ↦ none
        | some j ↦ namex_loop fuel t parent path' name' j
      ] in
      if not (t.is_dir ip)
      then none
      else if parent && is_empty path'
      then some (ip, name')
      else next
]

abbrev pub starts_at : Tree → List ℕ → ℕ
starts_at t [] = t.cwd
starts_at t (c ∷ cs) = if c == slash then t.root else t.cwd

-- `namex`
pub namex : Tree → Bool → List ℕ → Option (ℕ × List ℕ)
namex t parent path = namex_loop (length path + 1) t parent path [] (starts_at t path)

-- `namei` and `nameiparent`
pub namei : Tree → List ℕ → Option ℕ
namei t path = elim (namex t false path) [ none ↦ none | some (ip, name) ↦ some ip ]

pub nameiparent : Tree → List ℕ → Option (ℕ × List ℕ)
nameiparent t path = namex t true path
