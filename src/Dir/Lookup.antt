-- ===== src/Dir/Lookup.antt =====
-- dirlookup and the search for an empty entry of dirlink, in fs.c.
use cs461_hw.Prelude.{
  ◌==◌, ℕ, zero, suc, ◌+◌, ◌%◌, ◌≤◌, ◌<◌, ◌≡◌, refl, ap, ◌∙◌, inl, inr, true, false, not, Option,
  none, some, arith, dec_lt, ℕ_discrete, lt→ltb, Bool-cases,
}
use cs461_hw.Inode.{Inode, State, Result, ok}
use cs461_hw.Dir.{dirlookup, empty_loop, lookup_loop}
use cs461_hw.Dir.Entries.{inum_at, matches, IsDir, de_inum-bytes, matches-bytes, read_entry-bytes}

-- What a search from `from` on gives: the first entry for the name, or that there is none.
pub data Looked (st : State) (dp : Inode) (name : ℕ → ℕ) (from : ℕ)
    (r : Result (Inode × Option (ℕ × ℕ))) : Type 0 where
  found :
      (off : ℕ)
      → from ≤ off
      → off < dp.size
      → off % 16 ≡ 0
      → matches st.disk dp name off ≡ true
      → ((o : ℕ) → from ≤ o → o < off → o % 16 ≡ 0 → matches st.disk dp name o ≡ false)
      → r ≡ ok (dp, some (inum_at st.disk dp off, off)) st
      → Looked st dp name from r
  absent :
      ((o : ℕ) → from ≤ o → o < dp.size → o % 16 ≡ 0 → matches st.disk dp name o ≡ false)
      → r ≡ ok (dp, none) st
      → Looked st dp name from r

module _ (size bmapstart inodestart : ℕ) (st : State) (dp : Inode) (v : IsDir st.disk dp) where
  Looked-next :
      (name : ℕ → ℕ) (off : ℕ) (r : Result (Inode × Option (ℕ × ℕ)))
      → off % 16 ≡ 0
      → matches st.disk dp name off ≡ false
      → Looked st dp name (off + 16) r
      → Looked st dp name off r
  Looked-next name off r a m (found o b l x hit before q) =
      found o (omega (arith, b)) l x hit
        (λ p c d e. elim (ℕ_discrete p off) [
          | yes y ↦ rw y m
          | no n ↦ before p (omega (arith, c, e, a, n)) d e
        ])
        q
  Looked-next name off r a m (absent before q) =
      absent
        (λ p c d e. elim (ℕ_discrete p off) [
          | yes y ↦ rw y m
          | no n ↦ before p (omega (arith, c, e, a, n)) d e
        ])
        q

  lookup_loop-Looked :
      (fuel : ℕ) (name : ℕ → ℕ) (off : ℕ)
      → off % 16 ≡ 0
      → dp.size ≤ fuel + off
      → Looked st dp name off (lookup_loop size bmapstart inodestart fuel dp name off st)
  unfolding lookup_loop
  lookup_loop-Looked zero name off a f =
      absent (λ o b c. absurd (omega (arith, b, c, f))) (ground (arith, f))
  lookup_loop-Looked (suc fuel) name off a f = elim (dec_lt off dp.size) [
    | no n ↦ absent (λ o b c. absurd (omega (arith, b, c, n))) (ground (arith, n))
    | yes l ↦
        let read = read_entry-bytes size bmapstart inodestart st dp v off a l in
        let test = matches-bytes st.disk dp name off in
        let rest = lookup_loop-Looked fuel name (off + 16) (omega (arith, a)) (omega (arith, f)) in
        elim (Bool-cases (matches st.disk dp name off)) [
          | inl hit ↦
              let skip = test ∙ ap not hit in
              found off (omega arith) l a hit (λ o b c. absurd (omega (arith, b, c)))
                (rw (lt→ltb off dp.size l, read, skip, de_inum-bytes st.disk dp off) refl)
          | inr miss ↦
              let skip = test ∙ ap not miss in
              rw (lt→ltb off dp.size l, read, skip) (Looked-next name off _ a miss rest)
        ]
  ]

  -- dirlookup in a directory ends without a panic and changes nothing: it gives the inode number and the
  -- offset of the first entry that is in use and has the name, or nothing if there is none.
  pub dirlookup-Looked :
      (name : ℕ → ℕ) → Looked st dp name 0 (dirlookup size bmapstart inodestart dp name st)
  unfolding dirlookup
  dirlookup-Looked name =
      let kind : (dp.kind == 1) ≡ true = ground (arith, v.kind) in
      rw kind (lookup_loop-Looked dp.size name 0 (omega arith) (omega arith))

  -- The search of dirlink: the first empty entry, or the end of the directory.
  pub record Emptied (from off : ℕ) : Type 0 where
    pub above : from ≤ off
    pub below : off ≤ dp.size
    pub aligned : off % 16 ≡ 0
    pub empty : off < dp.size → inum_at st.disk dp off ≡ 0

  pub empty_loop-Emptied :
      (fuel off : ℕ)
      → off % 16 ≡ 0
      → off ≤ dp.size
      → dp.size ≤ fuel + off
      → (o : ℕ) × (empty_loop size bmapstart inodestart fuel dp off st ≡ ok (dp, o) st)
        × Emptied off o
  unfolding empty_loop
  empty_loop-Emptied zero off a b f = (
    off,
    ground (arith, f),
    record {
      above = omega arith;
      below = b;
      aligned = a;
      empty = λ h. absurd (omega (arith, h, f));
    },
  )
  empty_loop-Emptied (suc fuel) off a b f = elim (dec_lt off dp.size) [
    | no n ↦ (
      off,
      ground (arith, n),
      record { above = omega arith; below = b; aligned = a; empty = λ h. absurd (n h) },
    )
    | yes l ↦
        let read = read_entry-bytes size bmapstart inodestart st dp v off a l in
        let number = de_inum-bytes st.disk dp off in
        elim (ℕ_discrete (inum_at st.disk dp off) 0) [
          | yes z ↦
              let test : (inum_at st.disk dp off == 0) ≡ true = ground (arith, z) in
              (
                off,
                rw (lt→ltb off dp.size l, read, number, test) refl,
                record { above = omega arith; below = b; aligned = a; empty = λ h. z },
              )
          | no nz ↦
              let test : (inum_at st.disk dp off == 0) ≡ false = ground (arith, nz) in
              let (o, q, e) =
                empty_loop-Emptied fuel (off + 16) (omega (arith, a)) (omega (arith, a, l, v.whole))
                  (omega (arith, f)) in
              (
                o,
                rw (lt→ltb off dp.size l, read, number, test) q,
                record {
                  above = omega (arith, e.above);
                  below = e.below;
                  aligned = e.aligned;
                  empty = e.empty;
                },
              )
        ]
  ]
