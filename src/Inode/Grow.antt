-- ===== src/Inode/Grow.antt =====
-- The new blocks that bmap of fs.c puts into the slots of an inode.
use mathlib.Core.Path.{fun_ext}
use cs461_hw.Prelude.{
  ◌^◌, inl, inr, true, [], ◌∷◌, ◌++◌, ℕ_discrete, ◌==◌, if◌then◌else◌, ℕ, ◌+◌, ◌<◌, ◌≡◌, ◌≢◌, refl,
  sym, ◌∙◌, ap, arith,
}
use cs461_hw.Fs.{bblock, Disk}
use cs461_hw.Fs.Bitmap.{full, block, balloc-Allocated}
use cs461_hw.Fs.Scan.{is_used}
use cs461_hw.Inode.{
  Block, put_addr, put_block, panic, ok, balloc_block, Inode, Result, State, put_word, word_at,
}
use cs461_hw.Inode.Slots.{
  slot_cases, New-ne_zero, Good-put_block, New-Good, zero_block, Good-kept, slot-direct, slot-table,
  slot-entry, Good, Grows, IsValid, New, Ready, slot,
}
use cs461_hw.Inode.Words.{word_at-put_word_ne, word_at_zero, word_at-put_word}

module _ (size bmapstart iblk : ℕ) where
  -- All blocks are in use.
  abbrev pub IsFull : Disk → Type 0
  IsFull d = (c : ℕ) → c < size → is_used bmapstart d c ≡ true

  pub data Balloc (st : State) (r : Result ℕ) : Type 0 where
    got :
        (st' : State) (b : ℕ)
        → r ≡ ok b st'
        → New size bmapstart iblk st.disk st'.disk b
        → Balloc st r
    no_space : r ≡ panic st → IsFull st.disk → Balloc st r

  pub balloc_block-Balloc :
      (inodestart : ℕ) (st : State)
      → Ready size bmapstart iblk st.disk
      → Balloc st (balloc_block size bmapstart inodestart st)
  unfolding balloc_block
  balloc_block-Balloc inodestart st r = elim (balloc-Allocated size bmapstart st.disk r.bitmap) [
    | full all q ↦ no_space (ground (arith, q)) all
    | block d' b lt free q used zeros others ↦
        got (record { disk = d'; logged = st.logged ++ (bblock bmapstart b ∷ b ∷ []) }) b
          (ground (arith, q))
          (record {
            in_range = lt;
            was_free = free;
            used = used;
            zeros = fun_ext (λ i. fun_ext (zeros i));
            others = others;
          })
  ]

  module _ {d d' : Disk} {ip : Inode} {b : ℕ} (r : Ready size bmapstart iblk d)
      (v : IsValid size bmapstart iblk d ip) (n : New size bmapstart iblk d d' b) where
    table_kept : ip.addrs 12 ≢ 0 → d' (ip.addrs 12) ≡ d (ip.addrs 12)
    table_kept ne =
        let t = slot-table d ip in
        let g : Good size bmapstart iblk d (ip.addrs 12) =
          rw (← t) (v.good 140 (omega arith) (λ z. ne (sym t ∙ z))) in
        (Good-kept size bmapstart iblk r n (ip.addrs 12) g).1

    entry_kept :
        (j : ℕ)
        → j < 128
        → (ip' : Inode) → ip'.addrs 12 ≡ ip.addrs 12
        → slot d' ip' (12 + j) ≡ slot d ip (12 + j)
    entry_kept j h ip' e = elim (ℕ_discrete (ip.addrs 12) 0) [
      | yes z ↦ ground (arith, slot-entry d ip j h, slot-entry d' ip' j h, e, z)
      | no ne ↦
          let w = ap (λ block. word_at block j) (table_kept ne) in
          let t = ap d' e in ground (arith, slot-entry d ip j h, slot-entry d' ip' j h, e, ne, w, t)
    ]

    pub direct-Grows :
        (k : ℕ)
        → k < 12
        → ip.addrs k ≡ 0
        → Grows size bmapstart iblk d ip d' (record ip { addrs = put_addr ip.addrs k b }) k b
    direct-Grows k h z =
        let ip' = record ip { addrs = put_addr ip.addrs k b } in
        record {
          at_most = omega (arith, h);
          empty = slot-direct d ip k h ∙ z;
          slots = λ l hl. elim (slot_cases l hl) [
            | inl a ↦ ground (arith, slot-direct d ip l a, slot-direct d' ip' l a)
            | inr (inl e) ↦ ground (arith, e, h, slot-table d ip, slot-table d' ip')
            | inr (inr (j, hj, e)) ↦
                rw e (ground (arith, h, entry_kept j hj ip' (ground (arith, h))))
          ];
          new = New-Good size bmapstart iblk r n;
          not_zero = New-ne_zero size bmapstart iblk r n;
          good = λ c g. let (g', q, ne) = Good-kept size bmapstart iblk r n c g in (g', ne);
          contents = λ c g ne. (Good-kept size bmapstart iblk r n c g).1;
          zeros = n.zeros;
          size_kept = refl;
          kind_kept = refl;
        }

    new_entry : (j : ℕ) → word_at (d' b) j ≡ 0
    new_entry j = ap (λ block. word_at block j) n.zeros ∙ word_at_zero zero_block j (λ i t. refl)

    pub table-Grows :
        ip.addrs 12 ≡ 0
        → Grows size bmapstart iblk d ip d' (record ip { addrs = put_addr ip.addrs 12 b }) 140 b
    table-Grows z =
        let ip' = record ip { addrs = put_addr ip.addrs 12 b } in
        record {
          at_most = omega arith;
          empty = slot-table d ip ∙ z;
          slots = λ l hl. elim (slot_cases l hl) [
            | inl a ↦ ground (arith, slot-direct d ip l a, slot-direct d' ip' l a)
            | inr (inl e) ↦ ground (arith, e, slot-table d ip, slot-table d' ip')
            | inr (inr (j, hj, e)) ↦
                rw e
                  (ground (arith, hj, slot-entry d ip j hj, slot-entry d' ip' j hj, z, new_entry j))
          ];
          new = New-Good size bmapstart iblk r n;
          not_zero = New-ne_zero size bmapstart iblk r n;
          good = λ c g. let (g', q, ne) = Good-kept size bmapstart iblk r n c g in (g', ne);
          contents = λ c g ne. (Good-kept size bmapstart iblk r n c g).1;
          zeros = n.zeros;
          size_kept = refl;
          kind_kept = refl;
        }

    module _ (j : ℕ) (hj : j < 128) (full : ip.addrs 12 ≢ 0)
        (empty : word_at (d (ip.addrs 12)) j ≡ 0) where
      unfoldable pub table_block : Block
      table_block = put_word (d' (ip.addrs 12)) j b

      pub table_good : Good size bmapstart iblk d (ip.addrs 12)
      table_good =
          let t = slot-table d ip in rw (← t) (v.good 140 (omega arith) (λ z. full (sym t ∙ z)))

      entry_slot :
          (l : ℕ) (hl : l < 128)
          → slot (put_block d' (ip.addrs 12) table_block) ip (12 + l)
            ≡ (if l == j then b else slot d ip (12 + l))
      unfolding table_block
      entry_slot l hl =
          let d'' = put_block d' (ip.addrs 12) table_block in
          let at_table : d'' (ip.addrs 12) ≡ table_block = ground arith in
          let w = ap (λ block. word_at block l) (table_kept full) in
          let fits : b < 2 ^ 32 = omega (arith, n.in_range, r.fits) in
          let after : slot d'' ip (12 + l) ≡ word_at table_block l =
            ground (arith, slot-entry d'' ip l hl, full, ap (λ block. word_at block l) at_table) in
          elim (ℕ_discrete l j) [
            | yes e ↦
                after
                ∙ ap (word_at table_block) e
                ∙ word_at-put_word (d' (ip.addrs 12)) j b fits
                ∙ ground (arith, e)
            | no ne ↦
                after
                ∙ word_at-put_word_ne (d' (ip.addrs 12)) j l b (λ x. ne (sym x))
                ∙ w
                ∙ ground (arith, ne, full, slot-entry d ip l hl)
          ]

      pub entry-Grows :
          Grows size bmapstart iblk d ip (put_block d' (ip.addrs 12) table_block) ip (12 + j) b
      entry-Grows =
          let d'' = put_block d' (ip.addrs 12) table_block in
          let put = Good-put_block size bmapstart iblk d' (ip.addrs 12) in
          record {
            at_most = omega (arith, hj);
            empty = ground (arith, slot-entry d ip j hj, full, empty);
            slots = λ l hl. elim (slot_cases l hl) [
              | inl a ↦ ground (arith, slot-direct d ip l a, slot-direct d'' ip l a)
              | inr (inl e) ↦ ground (arith, e, hj, slot-table d ip, slot-table d'' ip)
              | inr (inr (i, hi, e)) ↦ rw e (ground (arith, entry_slot i hi))
            ];
            new = put b table_block table_good.not_bitmap (New-Good size bmapstart iblk r n);
            not_zero = New-ne_zero size bmapstart iblk r n;
            good = λ c g.
                let (g', q, ne) = Good-kept size bmapstart iblk r n c g in
                (put c table_block table_good.not_bitmap g', ne);
            contents = λ c g ne.
                let q = (Good-kept size bmapstart iblk r n c g).1 in
                ground (arith, ne, slot-table d ip, q);
            zeros =
                let apart = (Good-kept size bmapstart iblk r n (ip.addrs 12) table_good).2 in
                ground (arith, apart, n.zeros);
            size_kept = refl;
            kind_kept = refl;
          }
