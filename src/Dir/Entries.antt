-- ===== src/Dir/Entries.antt =====
-- The entries of a directory of fs.c, on the bytes of its file.
use native.Mathlib.Nat.{add-zero}
use cs461_hw.Prelude.{
  ap, ◌∙◌, ◌||◌, ℕ, zero, suc, ◌+◌, ◌-◌, ◌*◌, ◌/◌, ◌%◌, ◌≤◌, ◌<◌, min, ◌≡◌, refl, ◌≢◌, Bool, true,
  false, not, ◌&&◌, none, arith, ℕ_discrete, ◌==◌, get_or,
}
use cs461_hw.Fs.{Disk}
use cs461_hw.Inode.{Inode, value, bytes, State, ok}
use cs461_hw.Inode.Slots.{slot}
use cs461_hw.Inode.Store.{byte_at}
use cs461_hw.Inode.Read.{readi-bytes, length-bytes, get_or-bytes}
use cs461_hw.Dir.{same_name, copied_name, de_inum, de_name, dirsiz, read_entry, dir_kind}

-- The number of the inode, and the name, of the entry at an offset.
abbrev pub inum_at : Disk → Inode → ℕ → ℕ
inum_at d dp off = value 8 (byte_at d dp off) + 256 * value 8 (byte_at d dp (off + 1))

abbrev pub name_at : Disk → Inode → ℕ → ℕ → ℕ
name_at d dp off i = value 8 (byte_at d dp (off + (2 + i)))

-- Whether the entry at an offset is for a name.
unfoldable pub matches : Disk → Inode → (ℕ → ℕ) → ℕ → Bool
matches d dp name off = not (inum_at d dp off == 0) && same_name dirsiz name (name_at d dp off)

-- A directory whose entries are all there.
pub record IsDir (d : Disk) (dp : Inode) : Type 0 where
  pub kind : dp.kind ≡ dir_kind
  pub whole : dp.size % 16 ≡ 0
  pub fits : dp.size ≤ 140 * 512
  pub present : (o : ℕ) → o < dp.size → slot d dp (o / 512) ≢ 0

pub same_name-congr :
    (n : ℕ) (s t t' : ℕ → ℕ) → ((i : ℕ) → i < n → t i ≡ t' i) → same_name n s t ≡ same_name n s t'
unfolding same_name
same_name-congr zero s t t' h = refl
same_name-congr (suc n) s t t' h =
    let first = h 0 (omega arith) in
    let rest =
      same_name-congr n (λ i. s (suc i)) (λ i. t (suc i)) (λ i. t' (suc i))
        (λ i l. h (suc i) (omega (arith, l))) in
    rw (first, rest) refl

-- The name that strncpy has stored compares as equal.
pub same_name-copied_name :
    (n : ℕ) (s : ℕ → ℕ) → same_name n s (λ i. get_or (copied_name n s) i 0) ≡ true
unfolding same_name copied_name
same_name-copied_name zero s = refl
same_name-copied_name (suc n) s = elim (ℕ_discrete (s 0) 0) [
  | yes z ↦ rw z refl
  | no ne ↦
      let test : (s 0 == 0) ≡ false = ground (arith, ne) in
      rw test (let rest = same_name-copied_name n (λ i. s (suc i)) in ground (arith, rest))
]

-- What is read of an entry.
pub de_inum-bytes :
    (d : Disk) (dp : Inode) (off : ℕ) → de_inum (bytes (byte_at d dp) off 16) ≡ inum_at d dp off
unfolding de_inum
de_inum-bytes d dp off =
    let f = byte_at d dp in
    let low = get_or-bytes f off 16 0 (omega arith) ∙ ap f (add-zero off) in
    let high = get_or-bytes f off 16 1 (omega arith) in rw (low, high) refl

pub de_name-bytes :
    (d : Disk) (dp : Inode) (off i : ℕ)
    → i < dirsiz
    → de_name (bytes (byte_at d dp) off 16) i ≡ name_at d dp off i
unfolding de_name
de_name-bytes d dp off i h =
    ap (value 8) (get_or-bytes (byte_at d dp) off 16 (2 + i) (omega (arith, h)))

or_not : (a b : Bool) → (a || not b) ≡ not (not a && b)
or_not true b = refl
or_not false b = refl

pub matches-bytes :
    (d : Disk) (dp : Inode) (name : ℕ → ℕ) (off : ℕ)
    → (de_inum (bytes (byte_at d dp) off 16) == 0
        || not (same_name dirsiz name (de_name (bytes (byte_at d dp) off 16))))
      ≡ not (matches d dp name off)
unfolding matches
matches-bytes d dp name off =
    let same =
      same_name-congr dirsiz name (de_name (bytes (byte_at d dp) off 16)) (name_at d dp off)
        (λ i h. de_name-bytes d dp off i h) in
    rw (de_inum-bytes d dp off, same)
      (or_not (inum_at d dp off == 0) (same_name dirsiz name (name_at d dp off)))

module _ (size bmapstart inodestart : ℕ) (st : State) (dp : Inode) (v : IsDir st.disk dp) where
  -- An entry that is read.
  pub read_entry-bytes :
      (off : ℕ)
      → off % 16 ≡ 0
      → off < dp.size
      → read_entry size bmapstart inodestart dp off st
        ≡ ok (dp, bytes (byte_at st.disk dp) off 16) st
  unfolding read_entry
  read_entry-bytes off a h =
      let file : dp.kind ≢ 3 = λ e. omega (arith, e, v.kind) in
      let read =
        readi-bytes size bmapstart inodestart st dp (λ k. none) off 16 file (omega (arith, h))
          (omega (arith, v.fits, h)) v.fits (λ o x y l. v.present o l) in
      let all : min 16 (dp.size - off) ≡ 16 = omega (arith, a, h, v.whole) in
      let len = length-bytes (byte_at st.disk dp) off 16 in ground (arith, rw all at read, len)
