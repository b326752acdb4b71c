-- ===== src/Inode/Alloc.antt =====
-- ialloc of fs.c: the search for an inode on the disk that is free.
use cs461_hw.Prelude.{
  if◌then◌else◌, ◌-◌, ◌/◌, ℕ, zero, suc, ◌+◌, ◌*◌, ◌%◌, ◌^◌, ◌≤◌, ◌<◌, ◌≡◌, refl, ap, ◌≢◌, true,
  false, [], ◌∷◌, ◌++◌, arith, ℕ_discrete, ◌==◌, length, get_or,
}
use cs461_hw.Inode.{
  put_words, bread, M, pure, ◌>>=◌, ◌>>◌, Inode, State, Result, read_dinode, write_block, iblock,
  word_at, words, ipb, ok, panic,
}
use cs461_hw.Inode.Stored.{
  SameInode, dinode_at, SameInode-other, same_words, put_dinode, inode_word_self, length-words,
}

-- The fields of an inode that is new.
abbrev pub blank : ℕ → Inode
blank kind = record { kind = kind; major = 0; minor = 0; nlink = 0; size = 0; addrs = λ l. 0 }

zero_words : (at n j : ℕ) → get_or (words (λ i. 0) at n) j 0 ≡ 0
unfolding words
zero_words at zero j = refl
zero_words at (suc n) zero = refl
zero_words at (suc n) (suc j) = zero_words (at + 1) n j

blank_fits : (kind j : ℕ) → kind < 2 ^ 16 → get_or (kind ∷ words (λ i. 0) 0 15) j 0 < 2 ^ 32
blank_fits kind zero h = omega (arith, h)
blank_fits kind (suc j) h = rw (zero_words 0 15 j) (omega arith)

module _ (size bmapstart inodestart : ℕ) where
  -- The loop of `ialloc` from `inum` on: the number of the inode that it takes. `dip->type` is the
  -- lower half of the first word.
  pub ialloc_loop : ℕ → ℕ → ℕ → M ℕ
  ialloc_loop zero kind inum = panic
  ialloc_loop (suc left) kind inum = do
    block ← bread (iblock size bmapstart inodestart inum)
    let k = 16 * (inum % ipb)
    let take = do
      write_block (iblock size bmapstart inodestart inum)
          (put_words block k (kind ∷ words (λ i. 0) 0 15))
      pure inum
    if word_at block k % 2 ^ 16 == 0 then take else ialloc_loop left kind (inum + 1)

  -- `ialloc`, before its `iget`; `ninodes` is of the superblock.
  pub ialloc : ℕ → ℕ → M ℕ
  ialloc ninodes kind = ialloc_loop (ninodes - 1) kind 1

  -- The search from `inum` on, among `left` inodes.
  pub data Claimed (st : State) (kind inum left : ℕ) (r : Result ℕ) : Type 0 where
    claimed :
        (i : ℕ) (st' : State)
        → inum ≤ i
        → i < inum + left
        → r ≡ ok i st'
        → (dinode_at size bmapstart inodestart st.disk i).kind ≡ 0
        → ((j : ℕ) → inum ≤ j → j < i → (dinode_at size bmapstart inodestart st.disk j).kind ≢ 0)
        → SameInode (dinode_at size bmapstart inodestart st'.disk i) (blank kind)
        → ((j : ℕ)
            → j ≢ i
            → SameInode
                (dinode_at size bmapstart inodestart st'.disk j)
                (dinode_at size bmapstart inodestart st.disk j))
        → Claimed st kind inum left r
    none_free :
        r ≡ panic st
        → ((j : ℕ)
            → inum ≤ j
            → j < inum + left
            → (dinode_at size bmapstart inodestart st.disk j).kind ≢ 0)
        → Claimed st kind inum left r

  Claimed-next :
      (kind inum left : ℕ) (st : State) (r : Result ℕ)
      → (dinode_at size bmapstart inodestart st.disk inum).kind ≢ 0
      → Claimed st kind (inum + 1) left r
      → Claimed st kind inum (suc left) r
  Claimed-next kind inum left st r ne (claimed i st' a b e free before same others) =
      claimed i st' (omega (arith, a)) (omega (arith, b)) e free
        (λ j c d. elim (ℕ_discrete j inum) [
          | yes q ↦ rw q ne
          | no n ↦ before j (omega (arith, c, n)) d
        ])
        same others
  Claimed-next kind inum left st r ne (none_free e used) = none_free e (λ j c d.
      elim (ℕ_discrete j inum) [
        | yes q ↦ rw q ne
        | no n ↦ used j (omega (arith, c, n)) (omega (arith, d))
      ])

  ialloc_loop-Claimed :
      (left kind inum : ℕ) (st : State)
      → kind < 2 ^ 16
      → Claimed st kind inum left (ialloc_loop left kind inum st)
  unfolding ialloc_loop read_dinode write_block
  ialloc_loop-Claimed zero kind inum st h = none_free refl (λ j a b. absurd (omega (arith, a, b)))
  ialloc_loop-Claimed (suc left) kind inum st h =
      elim (ℕ_discrete ((dinode_at size bmapstart inodestart st.disk inum).kind) 0) [
        | yes free ↦
            let vs = kind ∷ words (λ i. 0) 0 15 in
            let len : length vs ≡ 16 = ap suc (length-words (λ i. 0) 0 15) in
            let d = put_dinode size bmapstart inodestart st.disk inum vs in
            let test : (word_at (st.disk (iblock size bmapstart inodestart inum))
                      (16 * (inum % ipb))
                    % 2 ^ 16
                  == 0)
                ≡ true =
              ground (arith, free) in
            claimed inum
              (record {
                disk = d;
                logged = st.logged ++ (iblock size bmapstart inodestart inum ∷ []);
              })
              (omega arith) (omega arith) (rw test refl) free
              (λ j a b. absurd (omega (arith, a, b)))
              (same_words size bmapstart inodestart d inum (blank kind) (λ w. get_or vs w 0)
                (λ w l.
                  inode_word_self size bmapstart inodestart st.disk inum w vs (rw len l)
                    (blank_fits kind w h))
                (omega (arith, h)) (omega (arith, h)) (ap (λ x. x % 2 ^ 16) (zero_words 0 15 0))
                (ap (λ x. x / 2 ^ 16) (zero_words 0 15 0)) (zero_words 0 15 1)
                (λ l _. zero_words 0 15 (suc (suc l))))
              (λ j ne. SameInode-other size bmapstart inodestart st.disk inum j vs ne len)
        | no ne ↦
            let test : (word_at (st.disk (iblock size bmapstart inodestart inum))
                      (16 * (inum % ipb))
                    % 2 ^ 16
                  == 0)
                ≡ false =
              ground (arith, ne) in
            rw test
              (Claimed-next kind inum left st _ ne (ialloc_loop-Claimed left kind (inum + 1) st h))
      ]

  -- ialloc takes the first inode whose type on the disk is 0, from inode 1 on: that inode gets the
  -- type, and 0 in all other fields, and no other inode changes. It panics only if there is none.
  pub ialloc-Claimed :
      (ninodes kind : ℕ) (st : State)
      → kind < 2 ^ 16
      → Claimed st kind 1 (ninodes - 1) (ialloc ninodes kind st)
  unfolding ialloc
  ialloc-Claimed ninodes kind st h = ialloc_loop-Claimed (ninodes - 1) kind 1 st h
