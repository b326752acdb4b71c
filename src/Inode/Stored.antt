-- ===== src/Inode/Stored.antt =====
-- iupdate and ilock of fs.c: the copy of an inode on the disk.
use native.Mathlib.Nat.{zero-add, add-zero}
use cs461_hw.Prelude.{
  false, ◌++◌, ◌==◌, ◌/◌, ◌*◌, ◌%◌, sym, ◌≢◌, dec_lt, ℕ_discrete, ℕ, zero, suc, ◌+◌, ◌^◌, ◌≤◌, ◌<◌,
  ◌≡◌, refl, ap, ◌∙◌, ◌⊎◌, inl, inr, List, [], ◌∷◌, arith, length, get_or,
}
use cs461_hw.Inode.{
  ok, ◌>>◌, State, dinode_words, write_block, ilock_read, iupdate, ipb, read_dinode, Inode, iblock,
  put_block, Disk, Block, put_word, put_words, word_at, words,
}
use cs461_hw.Inode.Words.{word_at-put_word, word_at-put_word_ne}

pub length-words : (f : ℕ → ℕ) (at n : ℕ) → length (words f at n) ≡ n
unfolding words
length-words f at zero = refl
length-words f at (suc n) = rw (length-words f (at + 1) n) refl

pub get_or-words : (f : ℕ → ℕ) (at n i : ℕ) → i < n → get_or (words f at n) i 0 ≡ f (at + i)
unfolding words
get_or-words f at zero i h = absurd (omega (arith, h))
get_or-words f at (suc n) zero h = ap f (omega arith)
get_or-words f at (suc n) (suc i) h =
    get_or-words f (at + 1) n i (omega (arith, h)) ∙ ap f (omega arith)

-- The words put are read back, and the others are kept.
word_at-put_words_outside :
    (block : Block) (k : ℕ) (vs : List ℕ) (j : ℕ)
    → (j < k) ⊎ (k + length vs ≤ j)
    → word_at (put_words block k vs) j ≡ word_at block j
unfolding put_words
word_at-put_words_outside block k [] j h = refl
word_at-put_words_outside block k (v ∷ vs) j h =
    word_at-put_words_outside (put_word block k v) (k + 1) vs j
      (elim h [ inl l ↦ inl (omega (arith, l)) | inr g ↦ inr (omega (arith, g)) ])
    ∙ word_at-put_word_ne block k j v (omega (arith, h))

word_at-put_words :
    (block : Block) (k : ℕ) (vs : List ℕ) (i : ℕ)
    → i < length vs
    → get_or vs i 0 < 2 ^ 32
    → word_at (put_words block k vs) (k + i) ≡ get_or vs i 0
unfolding put_words
word_at-put_words block k [] i h fits = absurd (omega (arith, h))
word_at-put_words block k (v ∷ vs) zero h fits = rw (add-zero k) (
    word_at-put_words_outside (put_word block k v) (k + 1) vs k (inl (omega arith))
    ∙ word_at-put_word block k v fits)
word_at-put_words block k (v ∷ vs) (suc i) h fits =
    let shift : k + suc i ≡ k + 1 + i = omega arith in
    rw shift (word_at-put_words (put_word block k v) (k + 1) vs i (omega (arith, h)) fits)

-- The same fields.
pub record SameInode (ip jp : Inode) : Type 0 where
  pub kind : ip.kind ≡ jp.kind
  pub major : ip.major ≡ jp.major
  pub minor : ip.minor ≡ jp.minor
  pub nlink : ip.nlink ≡ jp.nlink
  pub size : ip.size ≡ jp.size
  pub addrs : (l : ℕ) → l < 13 → ip.addrs l ≡ jp.addrs l

-- The fields have values of their types.
pub record Fits (ip : Inode) : Type 0 where
  pub kind : ip.kind < 2 ^ 16
  pub major : ip.major < 2 ^ 16
  pub minor : ip.minor < 2 ^ 16
  pub nlink : ip.nlink < 2 ^ 16
  pub size : ip.size < 2 ^ 32
  pub addrs : (l : ℕ) → l < 13 → ip.addrs l < 2 ^ 32

pub length-dinode_words : (ip : Inode) → length (dinode_words ip) ≡ 16
unfolding dinode_words
length-dinode_words ip = ap (λ n. suc (suc (suc n))) (length-words ip.addrs 0 13)

words_fit : (ip : Inode) (j : ℕ) → j < 16 → Fits ip → get_or (dinode_words ip) j 0 < 2 ^ 32
unfolding dinode_words
words_fit ip zero h f = omega (arith, f.kind, f.major)
words_fit ip (suc zero) h f = omega (arith, f.minor, f.nlink)
words_fit ip (suc (suc zero)) h f = f.size
words_fit ip (suc (suc (suc l))) h f =
    rw (get_or-words ip.addrs 0 13 l (omega (arith, h)), zero-add l) (f.addrs l (omega (arith, h)))

module _ (size bmapstart inodestart : ℕ) where
  -- The inode on the disk.
  abbrev pub dinode_at : Disk → ℕ → Inode
  dinode_at d inum = read_dinode (d (iblock size bmapstart inodestart inum)) (16 * (inum % ipb))

  abbrev pub inode_word : Disk → ℕ → ℕ → ℕ
  inode_word d inum w = word_at (d (iblock size bmapstart inodestart inum)) (16 * (inum % ipb) + w)

  -- The disk with the 16 words of an inode put.
  abbrev pub put_dinode : Disk → ℕ → List ℕ → Disk
  put_dinode d inum vs =
      put_block d (iblock size bmapstart inodestart inum)
        (put_words (d (iblock size bmapstart inodestart inum)) (16 * (inum % ipb)) vs)

  pub inode_word_self :
      (d : Disk) (inum w : ℕ) (vs : List ℕ)
      → w < length vs
      → get_or vs w 0 < 2 ^ 32
      → inode_word (put_dinode d inum vs) inum w ≡ get_or vs w 0
  inode_word_self d inum w vs h fits =
      let b = iblock size bmapstart inodestart inum in
      let here : put_dinode d inum vs b ≡ put_words (d b) (16 * (inum % ipb)) vs = ground arith in
      ap (λ x. word_at x (16 * (inum % ipb) + w)) here
      ∙ word_at-put_words (d b) (16 * (inum % ipb)) vs w h fits

  inode_word_other :
      (d : Disk) (inum j w : ℕ) (vs : List ℕ)
      → j ≢ inum
      → w < 16
      → length vs ≡ 16
      → inode_word (put_dinode d inum vs) j w ≡ inode_word d j w
  inode_word_other d inum j w vs ne h len =
      let b = iblock size bmapstart inodestart inum in
      elim (ℕ_discrete (iblock size bmapstart inodestart j) b) [
        | no nb ↦
            let there : put_dinode d inum vs (iblock size bmapstart inodestart j)
                ≡ d (iblock size bmapstart inodestart j) =
              ground (arith, nb) in
            ap (λ x. word_at x (16 * (j % ipb) + w)) there
        | yes e ↦
            let here : put_dinode d inum vs (iblock size bmapstart inodestart j)
                ≡ put_words (d b) (16 * (inum % ipb)) vs =
              ground (arith, e) in
            let apart : j % ipb ≢ inum % ipb = λ q. ne (omega (arith, q, e)) in
            let outside : (16 * (j % ipb) + w < 16 * (inum % ipb))
                ⊎ (16 * (inum % ipb) + length vs ≤ 16 * (j % ipb) + w) =
              elim (dec_lt (j % ipb) (inum % ipb)) [
                | yes l ↦ inl (omega (arith, l, h))
                | no l ↦ inr (omega (arith, l, apart, len))
              ] in
            ap (λ x. word_at x (16 * (j % ipb) + w)) here
            ∙ word_at-put_words_outside (d b) (16 * (inum % ipb)) vs (16 * (j % ipb) + w) outside
            ∙ ap (λ x. word_at (d x) (16 * (j % ipb) + w)) (sym e)
      ]

  pub same_words :
      (d : Disk) (inum : ℕ) (ip : Inode) (vs : ℕ → ℕ)
      → ((w : ℕ) → w < 16 → inode_word d inum w ≡ vs w)
      → vs 0 % 2 ^ 16 ≡ ip.kind
      → vs 0 / 2 ^ 16 ≡ ip.major
      → vs 1 % 2 ^ 16 ≡ ip.minor
      → vs 1 / 2 ^ 16 ≡ ip.nlink
      → vs 2 ≡ ip.size
      → ((l : ℕ) → l < 13 → vs (suc (suc (suc l))) ≡ ip.addrs l)
      → SameInode (dinode_at d inum) ip
  unfolding read_dinode
  same_words d inum ip vs same kind major minor nlink length_kept addrs =
      let block = d (iblock size bmapstart inodestart inum) in
      let k = 16 * (inum % ipb) in
      let start : word_at block k ≡ vs 0 =
        ap (word_at block) (sym (add-zero k)) ∙ same 0 (omega arith) in
      record {
        kind = ap (λ x. x % 2 ^ 16) start ∙ kind;
        major = ap (λ x. x / 2 ^ 16) start ∙ major;
        minor = ap (λ x. x % 2 ^ 16) (same 1 (omega arith)) ∙ minor;
        nlink = ap (λ x. x / 2 ^ 16) (same 1 (omega arith)) ∙ nlink;
        size = same 2 (omega arith) ∙ length_kept;
        addrs = λ l h.
            ap (word_at block) (omega arith)
            ∙ same (suc (suc (suc l))) (omega (arith, h))
            ∙ addrs l h;
      }

  -- The other inodes.
  pub SameInode-other :
      (d : Disk) (inum j : ℕ) (vs : List ℕ)
      → j ≢ inum
      → length vs ≡ 16
      → SameInode (dinode_at (put_dinode d inum vs) j) (dinode_at d j)
  unfolding read_dinode
  SameInode-other d inum j vs ne len =
      let k = 16 * (j % ipb) in
      let block = d (iblock size bmapstart inodestart j) in
      let first = ap (word_at block) (add-zero k) in
      same_words (put_dinode d inum vs) j (dinode_at d j) (λ w. inode_word d j w)
        (λ w h. inode_word_other d inum j w vs ne h len) (ap (λ x. x % 2 ^ 16) first)
        (ap (λ x. x / 2 ^ 16) first) refl refl refl (λ l h. ap (word_at block) (omega arith))

  pub iupdate-put_dinode :
      (inum : ℕ) (ip : Inode) (st : State)
      → iupdate size bmapstart inodestart inum ip st
        ≡ ok tt (record st {
          disk = put_dinode st.disk inum (dinode_words ip);
          logged = st.logged ++ (iblock size bmapstart inodestart inum ∷ []);
        })
  unfolding iupdate write_block
  iupdate-put_dinode inum ip st = refl

  -- The type of an inode that iupdate writes.
  pub stored_kind :
      (d : Disk) (inum : ℕ) (ip : Inode)
      → Fits ip
      → (dinode_at (put_dinode d inum (dinode_words ip)) inum).kind ≡ ip.kind
  unfolding dinode_words read_dinode
  stored_kind d inum ip f =
      let len = length-dinode_words ip in
      let k = 16 * (inum % ipb) in
      let d' = put_dinode d inum (dinode_words ip) in
      let first =
        inode_word_self d inum 0 (dinode_words ip) (rw len (omega arith))
          (words_fit ip 0 (omega arith) f) in
      ap (λ n. word_at (d' (iblock size bmapstart inodestart inum)) n % 2 ^ 16) (sym (add-zero k))
      ∙ ap (λ w. w % 2 ^ 16) first
      ∙ omega (arith, f.kind)

  -- ilock after iupdate, of an inode that has a type and whose fields have values of their C types,
  -- gives the same fields back without a panic, and all other inodes on the disk are as they were.
  pub ilock_read-iupdate :
      (inum : ℕ) (ip : Inode) (st : State)
      → Fits ip
      → ip.kind ≢ 0
      → (jp : Inode) × (st' : State) × ((iupdate size bmapstart inodestart inum ip
              >> ilock_read size bmapstart inodestart inum)
            st
          ≡ ok jp st')
        × SameInode jp ip
        × ((j : ℕ) → j ≢ inum → SameInode (dinode_at st'.disk j) (dinode_at st.disk j))
  unfolding iupdate ilock_read write_block dinode_words
  ilock_read-iupdate inum ip st fits ne =
      let vs = dinode_words ip in
      let len : length vs ≡ 16 = length-dinode_words ip in
      let d = put_dinode st.disk inum vs in
      let same =
        same_words d inum ip (λ w. get_or vs w 0)
          (λ w h. inode_word_self st.disk inum w vs (rw len h) (words_fit ip w h fits))
          (omega (arith, fits.kind)) (omega (arith, fits.kind)) (omega (arith, fits.minor))
          (omega (arith, fits.minor)) refl
          (λ l h. get_or-words ip.addrs 0 13 l h ∙ ap ip.addrs (zero-add l)) in
      let typed : ((dinode_at d inum).kind == 0) ≡ false = ground (arith, same.kind, ne) in
      (
        dinode_at d inum,
        record { disk = d; logged = st.logged ++ (iblock size bmapstart inodestart inum ∷ []) },
        rw typed refl,
        same,
        λ j nj. SameInode-other st.disk inum j vs nj len,
      )

  -- The size and the addresses of an inode are on the disk.
  pub record OnDisk (d : Disk) (inum : ℕ) (ip : Inode) : Type 0 where
    pub end : (dinode_at d inum).size ≡ ip.size
    pub addrs : (l : ℕ) → l < 13 → (dinode_at d inum).addrs l ≡ ip.addrs l

  pub put_dinode-OnDisk :
      (d : Disk) (inum : ℕ) (ip : Inode)
      → ip.size < 2 ^ 32
      → ((l : ℕ) → l < 13 → ip.addrs l < 2 ^ 32)
      → OnDisk (put_dinode d inum (dinode_words ip)) inum ip
  unfolding dinode_words read_dinode
  put_dinode-OnDisk d inum ip small fits =
      let vs = dinode_words ip in
      let len = length-dinode_words ip in
      let block = put_dinode d inum vs (iblock size bmapstart inodestart inum) in
      record {
        end = inode_word_self d inum 2 vs (rw len (omega arith)) small;
        addrs = λ l h.
            let here : get_or (words ip.addrs 0 13) l 0 ≡ ip.addrs l =
              get_or-words ip.addrs 0 13 l h ∙ ap ip.addrs (zero-add l) in
            ap (word_at block) (omega arith)
            ∙ inode_word_self d inum (suc (suc (suc l))) vs (rw len (omega (arith, h)))
                (rw here (fits l h))
            ∙ here;
      }
