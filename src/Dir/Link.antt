-- ===== src/Dir/Link.antt =====
-- dirlink of fs.c, and dirlookup after it.
use native.Mathlib.Nat.{add-zero}
use cs461_hw.Prelude.{
  ◌⊎◌, ◌-◌, ◌≤◌, Bool, ◌&&◌, none, some, dec_lt, ltb, leb, if◌then◌else◌, ℕ, zero, suc, ◌+◌, ◌*◌,
  ◌/◌, ◌%◌, ◌^◌, ◌<◌, ◌≡◌, refl, sym, ap, ◌∙◌, ◌≢◌, true, false, arith, ℕ_discrete, ◌==◌, get_or,
  replicate,
}
use cs461_hw.Fs.{Disk}
use cs461_hw.Inode.{Result, State, iblock, Inode, value}
use cs461_hw.Inode.Words.{value-bit}
use cs461_hw.Inode.Store.{byte_at}
use cs461_hw.Inode.Slots.{Ready, IsValid}
use cs461_hw.Inode.Grow.{IsFull}
use cs461_hw.Inode.Rewrites.{Rewrites}
use cs461_hw.Inode.Files.{saved, no_block, writei_lem, grown_size}
use cs461_hw.Dir.Lookup.{found, absent, dirlookup-Looked, empty_loop-Emptied}
use cs461_hw.Dir.{panic, dirlookup, dirlink, ok, Byte, dirlink, copied_name, de_bytes, dirsiz}
use cs461_hw.Dir.Entries.{
  IsDir, IsDir, inum_at, name_at, matches, same_name-congr, same_name-copied_name,
}

copied_byte :
    (n : ℕ) (t : ℕ → ℕ) (i : ℕ) → ((k : ℕ) → t k < 256) → get_or (copied_name n t) i 0 < 256
unfolding copied_name
copied_byte zero t i h = omega arith
copied_byte (suc n) t zero h = h 0
copied_byte (suc n) t (suc i) h = elim (ℕ_discrete (t 0) 0) [
  | yes z ↦ rw z (zeros n i)
  | no ne ↦
      let test : (t 0 == 0) ≡ false = ground (arith, ne) in
      rw test (copied_byte n (λ k. t (suc k)) i (λ k. h (suc k)))
]
  where
    zeros : (n i : ℕ) → get_or (replicate n 0) i 0 < 256
    zeros zero i = omega arith
    zeros (suc n) zero = omega arith
    zeros (suc n) (suc i) = zeros n i

-- A file with the bytes of an entry at an offset.
module _ (d : Disk) (dp : Inode) (off inum : ℕ) (name : ℕ → ℕ) (small : inum < 2 ^ 16)
    (chars : (k : ℕ) → name k < 256)
    (put : (i : ℕ) → i < 16 → byte_at d dp (off + i) ≡ de_bytes inum name i) where
  put_inum : inum_at d dp off ≡ inum
  unfolding de_bytes
  put_inum =
      let low = ap (byte_at d dp) (sym (add-zero off)) ∙ put 0 (omega arith) in
      let high = put 1 (omega arith) in
      ap (λ b. value 8 b + 256 * value 8 (byte_at d dp (off + 1))) low
      ∙ ap (λ b. value 8 (de_bytes inum name 0) + 256 * value 8 b) high
      ∙ ap (λ a. a + 256 * value 8 (de_bytes inum name 1)) (value-bit 8 (inum % 256) (omega arith))
      ∙ ap (λ a. inum % 256 + 256 * a) (value-bit 8 (inum / 256 % 256) (omega arith))
      ∙ omega (arith, small)

  put_name : (i : ℕ) → i < 14 → name_at d dp off i ≡ get_or (copied_name dirsiz name) i 0
  unfolding de_bytes
  put_name i h =
      let index : 2 + i ≡ suc (suc i) = omega arith in
      ap (value 8) (put (2 + i) (omega (arith, h)) ∙ ap (de_bytes inum name) index)
      ∙ value-bit 8 (get_or (copied_name dirsiz name) i 0) (copied_byte dirsiz name i chars)

  put-matches : inum ≢ 0 → matches d dp name off ≡ true
  unfolding matches
  put-matches ne =
      let same =
        same_name-congr dirsiz name (name_at d dp off) (λ i. get_or (copied_name dirsiz name) i 0)
          put_name
        ∙ same_name-copied_name dirsiz name in
      let used : (inum_at d dp off == 0) ≡ false = let e = put_inum in ground (arith, e, ne) in
      rw (used, same) refl

-- An entry whose bytes are kept.
kept-matches :
    (d d' : Disk) (dp dp' : Inode) (name : ℕ → ℕ) (o : ℕ)
    → ((i : ℕ) → i < 16 → byte_at d' dp' (o + i) ≡ byte_at d dp (o + i))
    → matches d' dp' name o ≡ matches d dp name o
unfolding matches
kept-matches d d' dp dp' name o h =
    let low : byte_at d' dp' o ≡ byte_at d dp o =
      ap (byte_at d' dp') (sym (add-zero o)) ∙ h 0 (omega arith) ∙ ap (byte_at d dp) (add-zero o) in
    let names =
      same_name-congr dirsiz name (name_at d' dp' o) (name_at d dp o)
        (λ i l. ap (value 8) (h (2 + i) (omega (arith, l)))) in
    rw (low, h 1 (omega arith), names) refl

module _ (size bmapstart inodestart dnum : ℕ) where
  abbrev own : ℕ
  own = iblock size bmapstart inodestart dnum

  -- What dirlink does.
  pub data Linked (st : State) (dp : Inode) (name : ℕ → ℕ) (inum : ℕ) (r : Result (Inode × Bool))
      : Type 0 where
    present :
        (off : ℕ)
        → off < dp.size
        → off % 16 ≡ 0
        → matches st.disk dp name off ≡ true
        → r ≡ ok (dp, false) st
        → Linked st dp name inum r
    linked :
        (st' : State) (dp' : Inode) (off : ℕ)
        → r ≡ ok (dp', true) st'
        → Ready size bmapstart own st'.disk
        → IsValid size bmapstart own st'.disk dp'
        → IsDir st'.disk dp'
        → ((o : ℕ) → o < dp.size → o % 16 ≡ 0 → matches st.disk dp name o ≡ false)
        → dirlookup size bmapstart inodestart dp' name st' ≡ ok (dp', some (inum, off)) st'
        → ((o : ℕ)
            → o < dp.size
            → o % 16 ≡ 0
            → o ≢ off
            → (n : ℕ → ℕ) → matches st'.disk dp' n o ≡ matches st.disk dp n o)
        → (off < dp.size → inum_at st.disk dp off ≡ 0)
        → Linked st dp name inum r
    disk_full :
        (st' : State)
        → r ≡ panic st'
        → IsFull size bmapstart own st'.disk
        → Linked st dp name inum r

  module _ (st st' : State) (dp dp' : Inode) (off : ℕ) (src : ℕ → Byte) (v : IsDir st.disk dp)
      (room : dp.size + 16 ≤ 140 * 512) (aligned : off % 16 ≡ 0) (below : off ≤ dp.size)
      (grown : dp'.size ≡ grown_size dp.size (off + 16))
      (w : Rewrites size bmapstart own st.disk dp st'.disk dp' off 16 src) where
    written-IsDir : IsDir st'.disk dp'
    written-IsDir = record {
      kind = w.kind_kept ∙ v.kind;
      whole = ground (arith, grown, aligned, v.whole);
      fits = ground (arith, grown, below, room);
      present = λ o h. elim (dec_lt o dp.size) [
        | yes l ↦ w.filled (o / 512) (omega (arith, l, room)) (v.present o l)
        | no n ↦ w.present o (omega (arith, n, below)) (ground (arith, grown, h, n))
      ];
    }

    written_byte : (i : ℕ) → i < 16 → byte_at st'.disk dp' (off + i) ≡ src i
    written_byte i h =
        let hit : (leb off (off + i) && ltb (off + i) (off + 16)) ≡ true = ground (arith, h) in
        let index : off + i - off ≡ i = omega arith in
        w.bytes (off + i) (omega (arith, h, below, room))
        ∙ ap (λ x. if x then src (off + i - off) else byte_at st.disk dp (off + i)) hit
        ∙ ap src index

    other_byte :
        (o i : ℕ)
        → o % 16 ≡ 0
        → o < dp.size
        → o ≢ off
        → i < 16
        → byte_at st'.disk dp' (o + i) ≡ byte_at st.disk dp (o + i)
    other_byte o i a l ne h =
        let miss : (leb off (o + i) && ltb (o + i) (off + 16)) ≡ false =
          ground (arith, a, aligned, ne, h) in
        w.bytes (o + i) (omega (arith, h, l, room))
        ∙ ap (λ x. if x then src (o + i - off) else byte_at st.disk dp (o + i)) miss

  -- The new entry is the one that dirlookup finds.
  looked :
      (st st' : State) (dp dp' : Inode) (off : ℕ) (name : ℕ → ℕ) (inum : ℕ)
      → IsDir st'.disk dp'
      → ((o : ℕ) → 0 ≤ o → o < dp.size → o % 16 ≡ 0 → matches st.disk dp name o ≡ false)
      → off < dp'.size
      → off % 16 ≡ 0
      → matches st'.disk dp' name off ≡ true
      → inum_at st'.disk dp' off ≡ inum
      → ((o : ℕ)
          → o < dp.size
          → o % 16 ≡ 0
          → o ≢ off
          → (n : ℕ → ℕ) → matches st'.disk dp' n o ≡ matches st.disk dp n o)
      → (dp'.size ≡ dp.size) ⊎ ((off ≡ dp.size) × (dp'.size ≡ off + 16))
      → dirlookup size bmapstart inodestart dp' name st' ≡ ok (dp', some (inum, off)) st'
  looked st st' dp dp' off name inum dir none_for l a hit number others grown =
      elim (dirlookup-Looked size bmapstart inodestart st' dp' dir name) [
        | absent missing q ↦ absurd (ground (arith, missing off (omega arith) l a, hit))
        | found o _ b c hit' before q ↦
            let same : o ≡ off = elim (ℕ_discrete o off) [
              | yes y ↦ y
              | no n ↦
                  let old : o < dp.size = omega (arith, grown, b, c, a, n) in
                  let was = others o old c n name in
                  absurd (ground (arith, was, hit', none_for o (omega arith) old c))
            ] in
            q
            ∙ ap (λ x. ok (dp', some (inum_at st'.disk dp' x, x)) st') same
            ∙ ap (λ n. ok (dp', some (n, off)) st') number
      ]

  -- dirlink of a name, for an inode number that is not 0 and has 16 bits, in a valid directory with
  -- room: if an entry has the name it returns -1 and changes nothing. Otherwise it panics only if all
  -- blocks of the disk are in use, or returns 0; dirlookup of the name then gives the inode number,
  -- every entry that was there is as it was, for every name, and the directory stays valid.
  pub dirlink-Linked :
      (st : State) (dp : Inode) (name : ℕ → ℕ) (inum : ℕ)
      → Ready size bmapstart own st.disk
      → IsValid size bmapstart own st.disk dp
      → IsDir st.disk dp
      → dp.size + 16 ≤ 140 * 512
      → ((k : ℕ) → name k < 256)
      → inum ≢ 0
      → inum < 2 ^ 16
      → Linked st dp name inum (dirlink size bmapstart inodestart dnum dp name inum st)
  unfolding dirlink
  dirlink-Linked st dp name inum r v dir room chars ne small =
      elim (dirlookup-Looked size bmapstart inodestart st dp dir name) [
        | found off a b c hit before q ↦ present off b c hit (rw q refl)
        | absent none_for q ↦
            let (off, e, at) =
              empty_loop-Emptied size bmapstart inodestart st dp dir dp.size 0 (omega arith)
                (omega arith) (omega arith) in
            let file : dp.kind ≢ 3 = λ x. omega (arith, x, dir.kind) in
            elim (writei_lem size bmapstart inodestart dnum (λ k. none) (de_bytes inum name) dp off
              16 st r v file at.below (omega (arith, at.below, room))) [
                | no_block st1 e1 full ↦ disk_full st1 (rw (q, e, e1) refl) full
                | saved st1 dp1 e1 r1 v1 z w _ ↦
                    let dir1 =
                      written-IsDir st st1 dp dp1 off (de_bytes inum name) dir room at.aligned
                        at.below z w in
                    let put =
                      written_byte st st1 dp dp1 off (de_bytes inum name) dir room at.aligned
                        at.below z w in
                    let kept =
                      other_byte st st1 dp dp1 off (de_bytes inum name) dir room at.aligned at.below
                        z w in
                    let hit = put-matches st1.disk dp1 off inum name small chars put ne in
                    let others =
                      λ (o : ℕ) (l : o < dp.size) (a : o % 16 ≡ 0) (n : o ≢ off) (m : ℕ → ℕ).
                        kept-matches st.disk st1.disk dp dp1 m o (λ i h. kept o i a l n h) in
                    linked st1 dp1 off (rw (q, e, e1) refl) r1 v1 dir1
                      (λ o l a. none_for o (omega arith) l a)
                      (looked st st1 dp dp1 off name inum dir1 none_for
                        (ground (arith, z, at.below)) at.aligned hit
                        (put_inum st1.disk dp1 off inum name small chars put) others
                        (ground (arith, z, at.below)))
                      others at.empty
              ]
      ]
