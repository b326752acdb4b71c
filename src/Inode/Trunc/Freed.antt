-- ===== src/Inode/Trunc/Freed.antt =====
-- The blocks that itrunc of fs.c frees.
use mathlib.Core.Path.{subst}
use cs461_hw.Prelude.{
  ◌*◌, sym, ◌∙◌, [], ◌∷◌, ℕ_discrete, ℕ, zero, suc, ◌+◌, ◌%◌, ◌≤◌, ◌<◌, ◌≡◌, refl, ap, ◌≢◌, true,
  false, ◌&&◌, ◌++◌, arith, ◌==◌, not,
}
use cs461_hw.Fs.{Disk, bblock, bpb, put_bit}
use cs461_hw.Fs.Bitmap.{bfree_used}
use cs461_hw.Fs.Scan.{is_used}
use cs461_hw.Inode.{
  read_dinode, Block, put_block, dinode_words, ipb, put_words, write_block, iblock, State, Inode,
  iupdate, put_addr, word_at, ok,
}
use cs461_hw.Inode.Slots.{slot-entry, slot-table, slot-direct, slot, IsValid, Ready}
use cs461_hw.Inode.Stored.{SameInode, SameInode-other, dinode_at, length-dinode_words}
use cs461_hw.Inode.Trunc.{free_block, trunc_direct, trunc_entries, trunc_table, itrunc}
use cs461_hw.Inode.Trunc.Among.{among, Freed, Freed-skip, still_used, Freed-put_bit}

module _ (size bmapstart inodestart : ℕ) where
  trunc_table_step :
      (jp : Inode) (t : ℕ) (st1 st2 st3 : State)
      → jp.addrs 12 ≡ t
      → t ≢ 0
      → trunc_entries size bmapstart inodestart 128 t 0 st1 ≡ ok tt st2
      → free_block size bmapstart inodestart t st2 ≡ ok tt st3
      → trunc_table size bmapstart inodestart jp st1
        ≡ ok (record jp { addrs = put_addr jp.addrs 12 0 }) st3
  unfolding trunc_table
  trunc_table_step jp t st1 st2 st3 e ne q q3 =
      let test : (t == 0) ≡ false = ground (arith, ne) in rw (e, test, q, q3) refl

-- What itrunc leaves: no blocks, and the size 0; exactly the blocks of the inode are no longer in use;
-- apart from the bitmap and the inode's own block no block changes, nor do other inodes.
pub record Truncated (size bmapstart inodestart inum : ℕ) (st : State) (ip jp : Inode) (st' : State)
    : Type 0 where
  pub empty : jp.size ≡ 0
  pub kept : jp ≡ record ip { size = jp.size; addrs = jp.addrs }
  pub no_blocks : (l : ℕ) → l < 13 → jp.addrs l ≡ 0
  pub used :
      (c : ℕ)
      → c < size
      → is_used bmapstart st'.disk c ≡ (is_used bmapstart st.disk c && not (among st.disk ip 141 c))
  pub contents :
      (c : ℕ)
      → ((x : ℕ) → x < size → c ≢ bblock bmapstart x)
      → c ≢ iblock size bmapstart inodestart inum
      → st'.disk c ≡ st.disk c
  pub others :
      (j : ℕ)
      → j ≢ inum
      → ((x : ℕ) → x < size → iblock size bmapstart inodestart j ≢ bblock bmapstart x)
      → SameInode
          (dinode_at size bmapstart inodestart st'.disk j)
          (dinode_at size bmapstart inodestart st.disk j)

same_contents :
    (ip : Inode) {block block' : Block} (k : ℕ)
    → block ≡ block'
    → SameInode ip (read_dinode block k)
    → SameInode ip (read_dinode block' k)
same_contents ip k e s = subst (λ b. SameInode ip (read_dinode b k)) e s

-- What a part of itrunc does that ends with the first `k` slots free, in a step to the inode `ip'`.
module _ (size bmapstart inodestart inum : ℕ) (st : State) (ip : Inode)
    (r : Ready size bmapstart (iblock size bmapstart inodestart inum) st.disk)
    (v : IsValid size bmapstart (iblock size bmapstart inodestart inum) st.disk ip) where
  abbrev FreedOf : ℕ → Disk → Type 0
  FreedOf = Freed size bmapstart (iblock size bmapstart inodestart inum) r v

  free_block-Freed :
      (k : ℕ) (st1 : State) (b : ℕ)
      → k ≤ 140
      → b ≢ 0
      → slot st.disk ip k ≡ b
      → FreedOf k st1.disk
      → (st2 : State) × (free_block size bmapstart inodestart b st1 ≡ ok tt st2)
        × FreedOf (suc k) st2.disk
  unfolding free_block
  free_block-Freed k st1 b h ne e f =
      let full : slot st.disk ip k ≢ 0 = λ z. ne (sym e ∙ z) in
      let d2 = put_bit st1.disk (bblock bmapstart b) (b % bpb) false in
      let used = still_used size bmapstart _ r v k st1.disk h full f in
      let freed = bfree_used bmapstart b st1.disk (rw e at used) in
      (
        record { disk = d2; logged = st1.logged ++ (bblock bmapstart b ∷ []) },
        ground (arith, freed),
        rw e at (Freed-put_bit size bmapstart _ r v k st1.disk h full f),
      )

  -- The inode after the first `i` direct blocks.
  record Cleared (i : ℕ) (jp : Inode) : Type 0 where
    low : (l : ℕ) → l < i → jp.addrs l ≡ 0
    high : (l : ℕ) → i ≤ l → jp.addrs l ≡ ip.addrs l
    kept : jp ≡ record ip { size = jp.size; addrs = jp.addrs }

  trunc_direct-Freed :
      (left i : ℕ) (jp : Inode) (st1 : State)
      → i + left ≡ 12
      → Cleared i jp
      → FreedOf i st1.disk
      → (jp' : Inode) × (st2 : State) × (trunc_direct size bmapstart inodestart left jp i st1
          ≡ ok jp' st2)
        × Cleared 12 jp'
        × FreedOf 12 st2.disk
  unfolding trunc_direct
  trunc_direct-Freed zero i jp st1 e c f =
      let twelve : i ≡ 12 = omega (arith, e) in (jp, st1, refl, rw twelve at c, rw twelve at f)
  trunc_direct-Freed (suc left) i jp st1 e c f =
      let here : slot st.disk ip i ≡ jp.addrs i =
        slot-direct st.disk ip i (omega (arith, e)) ∙ sym (c.high i (omega arith)) in
      let next : suc i ≡ i + 1 = omega arith in
      elim (ℕ_discrete (jp.addrs i) 0) [
        | yes z ↦
            let test : (jp.addrs i == 0) ≡ true = ground (arith, z) in
            let c1 : Cleared (suc i) jp = record {
              low = λ l h. elim (ℕ_discrete l i) [
                | yes q ↦ rw q z
                | no ne ↦ c.low l (omega (arith, h, ne))
              ];
              high = λ l h. c.high l (omega (arith, h));
              kept = c.kept;
            } in
            let f1 = Freed-skip size bmapstart _ r v i st1.disk (here ∙ z) f in
            let (jp', st', q', c', f') =
              trunc_direct-Freed left (i + 1) jp st1 (omega (arith, e)) (rw next at c1)
                (rw next at f1) in
            (jp', st', rw test q', c', f')
        | no ne ↦
            let test : (jp.addrs i == 0) ≡ false = ground (arith, ne) in
            let (st2, q, f2) = free_block-Freed i st1 (jp.addrs i) (omega (arith, e)) ne here f in
            let jp1 = record jp { addrs = put_addr jp.addrs i 0 } in
            let c1 : Cleared (suc i) jp1 = record {
              low = λ l h. ground (arith, c.low l, h);
              high = λ l h. ground (arith, c.high l, h);
              kept = ap (λ (x : Inode). record x { addrs = put_addr jp.addrs i 0 }) c.kept;
            } in
            let (jp', st', q', c', f') =
              trunc_direct-Freed left (i + 1) jp1 st2 (omega (arith, e)) (rw next at c1)
                (rw next at f2) in
            (jp', st', rw (test, q) q', c', f')
      ]

  -- The entries of the indirect block, from `j` on.
  trunc_entries-Freed :
      (left j : ℕ) (st1 : State)
      → j + left ≡ 128
      → ip.addrs 12 ≢ 0
      → FreedOf (12 + j) st1.disk
      → (st2 : State) × (trunc_entries size bmapstart inodestart left (ip.addrs 12) j st1
          ≡ ok tt st2)
        × FreedOf 140 st2.disk
  unfolding trunc_entries
  trunc_entries-Freed zero j st1 e full f =
      let all : 12 + j ≡ 140 = omega (arith, e) in (st1, refl, rw all at f)
  trunc_entries-Freed (suc left) j st1 e full f =
      let t = ip.addrs 12 in
      let table = v.good 140 (omega arith) (λ z. full (sym (slot-table st.disk ip) ∙ z)) in
      let kept : st1.disk t ≡ st.disk t =
        f.contents t (rw (slot-table st.disk ip) at table.not_bitmap) in
      let here : slot st.disk ip (12 + j) ≡ word_at (st1.disk t) j =
        slot-entry st.disk ip j (omega (arith, e))
        ∙ ground (arith, full)
        ∙ ap (λ b. word_at b j) (sym kept) in
      let next : suc (12 + j) ≡ 12 + (j + 1) = omega arith in
      elim (ℕ_discrete (word_at (st1.disk t) j) 0) [
        | yes z ↦
            let test : (word_at (st1.disk t) j == 0) ≡ true = ground (arith, z) in
            let f1 = Freed-skip size bmapstart _ r v (12 + j) st1.disk (here ∙ z) f in
            let (st', q', f') =
              trunc_entries-Freed left (j + 1) st1 (omega (arith, e)) full (rw next at f1) in
            (st', rw test q', f')
        | no ne ↦
            let test : (word_at (st1.disk t) j == 0) ≡ false = ground (arith, ne) in
            let (st2, q, f2) =
              free_block-Freed (12 + j) st1 (word_at (st1.disk t) j) (omega (arith, e)) ne here f in
            let (st', q', f') =
              trunc_entries-Freed left (j + 1) st2 (omega (arith, e)) full (rw next at f2) in
            (st', rw (test, q) q', f')
      ]

  -- Without an indirect block, all its entries are empty.
  no_entries : (d' : Disk) → ip.addrs 12 ≡ 0 → FreedOf 12 d' → FreedOf 140 d'
  no_entries d' z f = skip_entries 128 0 refl f
    where
      skip_entries : (left j : ℕ) → j + left ≡ 128 → FreedOf (12 + j) d' → FreedOf 140 d'
      skip_entries zero j e g = let all : 12 + j ≡ 140 = omega (arith, e) in rw all at g
      skip_entries (suc left) j e g =
          let next : suc (12 + j) ≡ 12 + (j + 1) = omega arith in
          let empty : slot st.disk ip (12 + j) ≡ 0 =
            slot-entry st.disk ip j (omega (arith, e)) ∙ ground (arith, z) in
          skip_entries left (j + 1) (omega (arith, e))
            (rw next at (Freed-skip size bmapstart _ r v (12 + j) d' empty g))

  trunc_table-Freed :
      (jp : Inode) (st1 : State)
      → Cleared 12 jp
      → FreedOf 12 st1.disk
      → (jp' : Inode) × (st2 : State) × (trunc_table size bmapstart inodestart jp st1 ≡ ok jp' st2)
        × Cleared 13 jp'
        × FreedOf 141 st2.disk
  unfolding trunc_table among
  trunc_table-Freed jp st1 c f =
      let t : jp.addrs 12 ≡ ip.addrs 12 = c.high 12 (omega arith) in
      elim (ℕ_discrete (jp.addrs 12) 0) [
        | yes z ↦
            let test : (jp.addrs 12 == 0) ≡ true = ground (arith, z) in
            let c1 : Cleared 13 jp = record {
              low = λ l h. elim (ℕ_discrete l 12) [
                | yes e ↦ rw e z
                | no ne ↦ c.low l (omega (arith, h, ne))
              ];
              high = λ l h. c.high l (omega (arith, h));
              kept = c.kept;
            } in
            let no_table : ip.addrs 12 ≡ 0 = sym t ∙ z in
            (
              jp,
              st1,
              rw test refl,
              c1,
              Freed-skip size bmapstart _ r v 140 st1.disk (slot-table st.disk ip ∙ no_table)
                  (no_entries st1.disk no_table f),
            )
        | no ne ↦
            let test : (jp.addrs 12 == 0) ≡ false = ground (arith, ne) in
            let full : ip.addrs 12 ≢ 0 = λ z. ne (t ∙ z) in
            let (st2, q, f2) = trunc_entries-Freed 128 0 st1 refl full f in
            let (st3, q3, f3) =
              free_block-Freed 140 st2 (ip.addrs 12) (omega arith) full (slot-table st.disk ip)
                f2 in
            let jp1 = record jp { addrs = put_addr jp.addrs 12 0 } in
            let c1 : Cleared 13 jp1 = record {
              low = λ l h. ground (arith, c.low l, h);
              high = λ l h. ground (arith, c.high l, h);
              kept = ap (λ (x : Inode). record x { addrs = put_addr jp.addrs 12 0 }) c.kept;
            } in
            (
              jp1,
              st3,
              trunc_table_step size bmapstart inodestart jp (ip.addrs 12) st1 st2 st3 t full q q3,
              c1,
              f3,
            )
      ]

  -- itrunc of a valid inode does not panic. The inode has no block and the size 0 then, and is otherwise
  -- as it was. Exactly its blocks are no longer in use; apart from the bitmap and the inode's own block
  -- no block changes, and no other inode changes whose block is none of the bitmap.
  pub itrunc-Truncated :
      (jp : Inode) × (st' : State) × (itrunc size bmapstart inodestart inum ip st ≡ ok jp st')
      × Truncated size bmapstart inodestart inum st ip jp st'
  unfolding itrunc iupdate write_block among
  itrunc-Truncated =
      let start : Cleared 0 ip = record {
        low = λ l h. absurd (omega (arith, h));
        high = λ l h. refl;
        kept = refl;
      } in
      let nothing : FreedOf 0 st.disk = record {
        used = λ c h. ground arith;
        contents = λ c n. refl;
      } in
      let (jp1, st1, q1, c1, f1) = trunc_direct-Freed 12 0 ip st refl start nothing in
      let (jp2, st2, q2, c2, f2) = trunc_table-Freed jp1 st1 c1 f1 in
      let own = iblock size bmapstart inodestart inum in
      let jp = record jp2 { size = 0 } in
      let block = put_words (st2.disk own) (16 * (inum % ipb)) (dinode_words jp) in
      let last : State = record {
        disk = put_block st2.disk own block;
        logged = st2.logged ++ (own ∷ []);
      } in
      (
        jp,
        last,
        rw (q1, q2) refl,
        record {
          empty = refl;
          kept = ap (λ (x : Inode). record x { size = 0 }) c2.kept;
          no_blocks = c2.low;
          used = λ c h. ground (arith, r.inode_apart c h, f2.used c h);
          contents = λ c n ne. ground (arith, ne, f2.contents c n);
          others = λ j nj n.
              same_contents _ (16 * (j % ipb)) (f2.contents (iblock size bmapstart inodestart j) n)
                (SameInode-other size bmapstart inodestart st2.disk inum j (dinode_words jp) nj
                  (length-dinode_words jp));
        },
      )
