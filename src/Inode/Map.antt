-- ===== src/Inode/Map.antt =====
-- bmap of fs.c: the block of a file at an index, which it allocates if there is none.
use cs461_hw.Prelude.{
  false, lt→ltb, true, [], ◌∷◌, ◌++◌, dec_lt, ℕ_discrete, ℕ, ◌+◌, ◌-◌, ◌<◌, ◌≡◌, ◌≢◌, refl, sym,
  ◌∙◌, ap, ltb, arith,
}
use cs461_hw.Fs.{Disk}
use cs461_hw.Inode.{
  bind, put_addr, put_block, panic, ok, bmap, bmap_direct, bmap_entry, bmap_table, Inode, Result,
  State, put_word, word_at, write_block,
}
use cs461_hw.Inode.Slots.{
  Keeps-trans, Keeps-Grows, IsValid-Grows, Ready-put_block, Keeps-refl, Ready-New, slot-direct,
  slot-table, slot-entry, Grows, IsValid, Keeps, New, Ready, slot,
}
use cs461_hw.Inode.Grow.{
  IsFull, got, no_space, balloc_block-Balloc, direct-Grows, table-Grows, entry-Grows, table_good,
  table_block,
}

module _ (size bmapstart iblk : ℕ) where
  -- What a part of bmap does for slot `k`: it gives the block that the slot has then, and keeps what
  -- there was, or the disk is full.
  pub data Mapped (st : State) (ip : Inode) (k : ℕ) (r : Result (Inode × ℕ)) : Type 0 where
    mapped :
        (st' : State) (ip' : Inode) (a : ℕ)
        → r ≡ ok (ip', a) st'
        → Ready size bmapstart iblk st'.disk
        → IsValid size bmapstart iblk st'.disk ip'
        → Keeps size bmapstart iblk st.disk ip st'.disk ip'
        → slot st'.disk ip' k ≡ a
        → a ≢ 0
        → Mapped st ip k r
    disk_full :
        (st' : State) → r ≡ panic st' → IsFull size bmapstart iblk st'.disk → Mapped st ip k r

  module _ (inodestart : ℕ) (st : State) (ip : Inode) (r : Ready size bmapstart iblk st.disk)
      (v : IsValid size bmapstart iblk st.disk ip) where
    -- The part that the direct blocks and the indirect block share.
    fresh-Mapped :
        (k l : ℕ)
        → ip.addrs k ≡ 0
        → ((d' : Disk) (b : ℕ)
            → New size bmapstart iblk st.disk d' b
            → Grows size bmapstart iblk st.disk ip d'
                (record ip { addrs = put_addr ip.addrs k b })
                l
                b)
        → Mapped st ip l (bmap_direct size bmapstart inodestart ip k st)
    unfolding bmap_direct
    fresh-Mapped k l z grows = elim (balloc_block-Balloc size bmapstart iblk inodestart st r) [
      | got st' b e n ↦
          let g = grows st'.disk b n in
          mapped st' (record ip { addrs = put_addr ip.addrs k b }) b (ground (arith, z, e))
            (Ready-New size bmapstart iblk r n) (IsValid-Grows size bmapstart iblk v g)
            (Keeps-Grows size bmapstart iblk v g) (ground (arith, g.slots l g.at_most)) g.not_zero
      | no_space e f ↦ disk_full st (ground (arith, z, e)) f
    ]

    present-Mapped :
        (k l : ℕ)
        → ip.addrs k ≢ 0
        → slot st.disk ip l ≡ ip.addrs k
        → Mapped st ip l (bmap_direct size bmapstart inodestart ip k st)
    unfolding bmap_direct
    present-Mapped k l ne e =
        mapped st ip (ip.addrs k) (ground (arith, ne)) r v
          (Keeps-refl size bmapstart iblk st.disk ip) e ne

    direct-Mapped :
        (k : ℕ) → k < 12 → Mapped st ip k (bmap_direct size bmapstart inodestart ip k st)
    direct-Mapped k h = elim (ℕ_discrete (ip.addrs k) 0) [
      | yes z ↦ fresh-Mapped k k z (λ d' b n. direct-Grows size bmapstart iblk r v n k h z)
      | no ne ↦ present-Mapped k k ne (slot-direct st.disk ip k h)
    ]

    table-Mapped : Mapped st ip 140 (bmap_table size bmapstart inodestart ip st)
    unfolding bmap_table
    table-Mapped = elim (ℕ_discrete (ip.addrs 12) 0) [
      | yes z ↦ fresh-Mapped 12 140 z (λ d' b n. table-Grows size bmapstart iblk r v n z)
      | no ne ↦ present-Mapped 12 140 ne (slot-table st.disk ip)
    ]

    entry-Mapped :
        (j : ℕ)
        → j < 128
        → ip.addrs 12 ≢ 0
        → Mapped st ip (12 + j) (
            bind
              (bmap_entry size bmapstart inodestart (ip.addrs 12) j st)
              (λ a st'. ok (ip, a) st'))
    unfolding bmap_entry write_block table_block
    entry-Mapped j h full_table = elim (ℕ_discrete (word_at (st.disk (ip.addrs 12)) j) 0) [
      | no ne ↦
          mapped st ip (word_at (st.disk (ip.addrs 12)) j) (ground (arith, ne)) r v
            (Keeps-refl size bmapstart iblk st.disk ip)
            (ground (arith, slot-entry st.disk ip j h, full_table)) ne
      | yes z ↦ elim (balloc_block-Balloc size bmapstart iblk inodestart st r) [
        | no_space e f ↦ disk_full st (ground (arith, z, e)) f
        | got st' b e n ↦
            let g = entry-Grows size bmapstart iblk r v n j h full_table z in
            let t = ip.addrs 12 in
            let last : State = record {
              disk = put_block st'.disk t (put_word (st'.disk t) j b);
              logged = st'.logged ++ (t ∷ []);
            } in
            mapped last ip b (ground (arith, z, e))
              (Ready-put_block size bmapstart iblk st'.disk t (put_word (st'.disk t) j b)
                (table_good size bmapstart iblk r v n j h full_table z).not_bitmap
                (Ready-New size bmapstart iblk r n))
              (IsValid-Grows size bmapstart iblk v g) (Keeps-Grows size bmapstart iblk v g)
              (ground (arith, g.slots (12 + j) g.at_most)) g.not_zero
      ]
    ]

  -- bmap for an index within a file, on a valid inode: it panics only if all blocks of the disk are in
  -- use; otherwise it returns the address of the block that the inode then has at the index, not 0.
  -- The inode stays valid, the contents of the file stay what they were, with zeros in a block that
  -- is new, and no block of another file is changed or taken.
  pub bmap-Mapped :
      (inodestart : ℕ) (st : State) (ip : Inode) (k : ℕ)
      → Ready size bmapstart iblk st.disk
      → IsValid size bmapstart iblk st.disk ip
      → k < 140
      → Mapped st ip k (bmap size bmapstart inodestart ip k st)
  unfolding bmap
  bmap-Mapped inodestart st ip k r v h = elim (dec_lt k 12) [
    | yes low ↦ rw (lt→ltb k 12 low) (direct-Mapped inodestart st ip r v k low)
    | no high ↦
        let j = k - 12 in
        let index : 12 + j ≡ k = omega (arith, high) in
        let entry : ltb k 12 ≡ false = ground (arith, high) in
        let within : ltb j 128 ≡ true = ground (arith, h, high) in
        elim (table-Mapped inodestart st ip r v) [
          | disk_full st' e f ↦ disk_full st' (rw (entry, within, e) refl) f
          | mapped st1 ip1 table e r1 v1 keeps1 slot1 ne1 ↦
              let t : ip1.addrs 12 ≡ table = sym (slot-table st1.disk ip1) ∙ slot1 in
              let full_table : ip1.addrs 12 ≢ 0 = λ z. ne1 (sym t ∙ z) in
              let step : bmap size bmapstart inodestart ip k st
                  ≡ bind (bmap_entry size bmapstart inodestart (ip1.addrs 12) j st1)
                      (λ a st'. ok (ip1, a) st') =
                rw (entry, within, e)
                  (ap
                    (λ x.
                      bind (bmap_entry size bmapstart inodestart x j st1)
                        (λ a st'. ok (ip1, a) st'))
                    (sym t)) in
              elim (entry-Mapped inodestart st1 ip1 r1 v1 j (omega (arith, h, high)) full_table) [
                | disk_full st2 e2 f ↦ disk_full st2 (step ∙ e2) f
                | mapped st2 ip2 a e2 r2 v2 keeps2 slot2 ne2 ↦
                    mapped st2 ip2 a (step ∙ e2) r2 v2
                      (Keeps-trans size bmapstart iblk st.disk st1.disk st2.disk ip ip1 ip2 keeps1
                        keeps2)
                      (rw index at slot2) ne2
              ]
        ]
  ]
