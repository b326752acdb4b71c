-- ===== src/Icache/Unlink.antt =====
-- iput of fs.c, where the last reference to an inode without links goes.
use cs461_hw.Prelude.{
  ◌-◌, refl, ap, ◌∙◌, true, false, [], ◌∷◌, ◌++◌, arith, ℕ, ◌<◌, ◌≡◌, ◌≢◌, not, ◌&&◌,
}
use cs461_hw.Fs.{bblock}
use cs461_hw.Fs.Scan.{is_used}
use cs461_hw.Inode.{Inode, State, ok, iblock, dinode_words}
use cs461_hw.Inode.Slots.{IsValid, Ready}
use cs461_hw.Inode.Stored.{
  stored_kind, SameInode, SameInode-other, dinode_at, length-dinode_words, Fits, iupdate-put_dinode,
  put_dinode,
}
use cs461_hw.Inode.Trunc.Among.{among}
use cs461_hw.Inode.Trunc.Freed.{itrunc-Truncated, Truncated}
use cs461_hw.Icache.{Cache, put_entry, iput, is_last, free_inode}

module _ (size bmapstart inodestart : ℕ) where
  -- The block of an inode is none of the bitmap.
  abbrev pub Apart : ℕ → Type 0
  Apart inum = (x : ℕ) → x < size → iblock size bmapstart inodestart inum ≢ bblock bmapstart x

  -- What iput leaves of inode `inum`: its blocks are free, and so is the inode on the disk; the others stay.
  pub record Unlinked (inum : ℕ) (st : State) (ip : Inode) (st' : State) : Type 0 where
    pub blocks :
        (c : ℕ)
        → c < size
        → is_used bmapstart st'.disk c
          ≡ (is_used bmapstart st.disk c && not (among st.disk ip 141 c))
    pub no_type : (dinode_at size bmapstart inodestart st'.disk inum).kind ≡ 0
    pub others :
        (j : ℕ)
        → j ≢ inum
        → Apart j
        → SameInode
            (dinode_at size bmapstart inodestart st'.disk j)
            (dinode_at size bmapstart inodestart st.disk j)

  SameInode-trans : {ip jp kp : Inode} → SameInode ip jp → SameInode jp kp → SameInode ip kp
  SameInode-trans a b = record {
    kind = a.kind ∙ b.kind;
    major = a.major ∙ b.major;
    minor = a.minor ∙ b.minor;
    nlink = a.nlink ∙ b.nlink;
    size = a.size ∙ b.size;
    addrs = λ l h. a.addrs l h ∙ b.addrs l h;
  }

  -- The fields of the freed inode have values of their types.
  freed-Fits :
      (ip jp : Inode) (st st' : State) (inum : ℕ)
      → Fits ip
      → Truncated size bmapstart inodestart inum st ip jp st'
      → Fits (record jp { kind = 0 })
  freed-Fits ip jp st st' inum f t = record {
    kind = omega arith;
    major = let e = ap (λ (x : Inode). x.major) t.kept in rw e f.major;
    minor = let e = ap (λ (x : Inode). x.minor) t.kept in rw e f.minor;
    nlink = let e = ap (λ (x : Inode). x.nlink) t.kept in rw e f.nlink;
    size = omega (arith, t.empty);
    addrs = λ l h. omega (arith, t.no_blocks l h);
  }

  free_inode-Unlinked :
      (inum : ℕ) (st : State) (ip : Inode)
      → Ready size bmapstart (iblock size bmapstart inodestart inum) st.disk
      → IsValid size bmapstart (iblock size bmapstart inodestart inum) st.disk ip
      → Fits ip
      → (jp : Inode) × (st' : State) × (free_inode size bmapstart inodestart inum ip st ≡ ok jp st')
        × Unlinked inum st ip st'
  unfolding free_inode
  free_inode-Unlinked inum st ip r v f =
      let (jp, st1, q, t) = itrunc-Truncated size bmapstart inodestart inum st ip r v in
      let own = iblock size bmapstart inodestart inum in
      let kp = record jp { kind = 0 } in
      let vs = dinode_words kp in
      let d = put_dinode size bmapstart inodestart st1.disk inum vs in
      (
        kp,
        record { disk = d; logged = st1.logged ++ (own ∷ []) },
        rw (q, iupdate-put_dinode size bmapstart inodestart inum kp st1) refl,
        record {
          blocks = λ c h. ground (arith, t.used c h, r.inode_apart c h);
          no_type =
              stored_kind size bmapstart inodestart st1.disk inum kp
                (freed-Fits ip jp st st1 inum f t);
          others = λ j nj a.
              SameInode-trans
                (SameInode-other size bmapstart inodestart st1.disk inum j vs nj
                  (length-dinode_words kp))
                (t.others j nj a);
        },
      )

  -- iput of the last reference to an inode without links, which is in the cache and valid, does not panic:
  -- the entry is free, exactly the blocks of the inode are no longer in use, its type on the disk is
  -- 0, so that it is free, and no other inode changes whose block is none of the bitmap.
  pub iput-Unlinked :
      (c : Cache) (i : ℕ) (st : State)
      → Ready size bmapstart (iblock size bmapstart inodestart (c i).inum) st.disk
      → IsValid size bmapstart (iblock size bmapstart inodestart (c i).inum) st.disk (c i).copy
      → Fits (c i).copy
      → (c i).ref ≡ 1
      → (c i).valid ≡ true
      → (c i).copy.nlink ≡ 0
      → (c' : Cache) × (st' : State) × (iput size bmapstart inodestart c i st ≡ ok c' st')
        × ((c' i).ref ≡ 0)
        × ((c' i).valid ≡ false)
        × Unlinked (c i).inum st (c i).copy st'
  unfolding iput
  iput-Unlinked c i st r v f one valid links =
      let (jp, st', q, u) = free_inode-Unlinked (c i).inum st (c i).copy r v f in
      let last : is_last size bmapstart inodestart (c i) ≡ true =
        ground (arith, one, valid, links) in
      (
        put_entry c i (record (c i) { copy = jp; valid = false; ref = (c i).ref - 1 }),
        st',
        rw (last, q) refl,
        ground (arith, one),
        ground arith,
        u,
      )
