-- ===== src/Inode/Store.antt =====
-- A store into a block of a file.
use cs461_hw.Prelude.{
  true, false, ◌*◌, inl, inr, ℕ_discrete, ℕ, ◌+◌, ◌-◌, ◌/◌, ◌%◌, ◌<◌, ◌≤◌, ◌≡◌, ◌≢◌, refl, sym, ◌∙◌,
  ap, ltb, leb, ◌==◌, ◌&&◌, if◌then◌else◌, arith,
}
use cs461_hw.Fs.{bblock, Disk}
use cs461_hw.Inode.{word_at, copy_into, Inode, put_block, Byte, Block}
use cs461_hw.Inode.Slots.{
  Good-put_block, Ready-put_block, block_of, Foreign, Good, IsValid, Ready, slot, slot-table,
  slot-direct, slot-entry, slot_cases,
}

-- The byte of a file at an offset, with zeros in blocks that it does not have.
unfoldable pub byte_at : Disk → Inode → ℕ → Byte
byte_at d ip o = block_of d ip (o / 512) (o % 512)

-- A block that is written, and is not the indirect block.
module _ (size bmapstart iblk : ℕ) {d : Disk} {ip : Inode} (v : IsValid size bmapstart iblk d ip)
    (t : ℕ) (not_bitmap : (c : ℕ) → c < size → t ≢ bblock bmapstart c)
    (table_apart : ip.addrs 12 ≢ 0 → ip.addrs 12 ≢ t) (block : Block) where
  table_kept :
      (j : ℕ)
      → (if ip.addrs 12 == 0 then 0 else word_at (put_block d t block (ip.addrs 12)) j)
        ≡ (if ip.addrs 12 == 0 then 0 else word_at (d (ip.addrs 12)) j)
  table_kept j = elim (ℕ_discrete (ip.addrs 12) 0) [
    | yes z ↦ ground (arith, z)
    | no ne ↦
        let e : put_block d t block (ip.addrs 12) ≡ d (ip.addrs 12) =
          ground (arith, table_apart ne) in
        ap (λ b. if ip.addrs 12 == 0 then 0 else word_at b j) e
  ]

  pub slot-put_block : (k : ℕ) → k ≤ 140 → slot (put_block d t block) ip k ≡ slot d ip k
  slot-put_block k hk = elim (slot_cases k hk) [
    | inl a ↦ slot-direct (put_block d t block) ip k a ∙ sym (slot-direct d ip k a)
    | inr (inl e) ↦ rw e (slot-table (put_block d t block) ip ∙ sym (slot-table d ip))
    | inr (inr (j, hj, e)) ↦
        rw e (slot-entry (put_block d t block) ip j hj ∙ table_kept j ∙ sym (slot-entry d ip j hj))
  ]

  pub IsValid-put_block : IsValid size bmapstart iblk (put_block d t block) ip
  IsValid-put_block = record {
    good = λ k hk n.
        let s = slot-put_block k hk in
        rw s (
          Good-put_block size bmapstart iblk d t (slot d ip k) block not_bitmap
            (v.good k hk (λ z. n (s ∙ z))));
    apart = λ k m hk hm ne n q.
        v.apart k m hk hm ne (λ z. n (slot-put_block k hk ∙ z))
          (sym (slot-put_block k hk) ∙ q ∙ slot-put_block m hm);
  }

  pub Foreign-put_block :
      (c : ℕ)
      → Foreign size bmapstart iblk d ip c
      → Foreign size bmapstart iblk (put_block d t block) ip c
  Foreign-put_block c f = record {
    good = Good-put_block size bmapstart iblk d t c block not_bitmap f.good;
    apart = λ k hk q. f.apart k hk (sym (slot-put_block k hk) ∙ q);
  }

-- A block of the file that is written.
module _ (size bmapstart iblk : ℕ) {d : Disk} {ip : Inode} (v : IsValid size bmapstart iblk d ip)
    (l : ℕ) (h : l < 140) (full : slot d ip l ≢ 0) (block : Block) where
  owned : Good size bmapstart iblk d (slot d ip l)
  owned = v.good l (omega (arith, h)) full

  table_apart : ip.addrs 12 ≢ 0 → ip.addrs 12 ≢ slot d ip l
  table_apart n e =
      v.apart l 140 (omega (arith, h)) (omega arith) (omega (arith, h)) full
        (sym e ∙ sym (slot-table d ip))

  pub slot-after : (k : ℕ) → k ≤ 140 → slot (put_block d (slot d ip l) block) ip k ≡ slot d ip k
  slot-after = slot-put_block size bmapstart iblk v (slot d ip l) owned.not_bitmap table_apart block

  pub IsValid-after : IsValid size bmapstart iblk (put_block d (slot d ip l) block) ip
  IsValid-after =
      IsValid-put_block size bmapstart iblk v (slot d ip l) owned.not_bitmap table_apart block

  pub Ready-after :
      Ready size bmapstart iblk d → Ready size bmapstart iblk (put_block d (slot d ip l) block)
  Ready-after r = Ready-put_block size bmapstart iblk d (slot d ip l) block owned.not_bitmap r

  pub block_of-after :
      (k : ℕ)
      → k < 140
      → block_of (put_block d (slot d ip l) block) ip k
        ≡ (if k == l then block else block_of d ip k)
  block_of-after k hk = elim (ℕ_discrete k l) [
    | yes e ↦ ground (arith, e, slot-after k (omega (arith, hk)), full)
    | no ne ↦ elim (ℕ_discrete (slot d ip k) 0) [
      | yes z ↦ ground (arith, slot-after k (omega (arith, hk)), z, ne)
      | no fk ↦
          let apart = v.apart k l (omega (arith, hk)) (omega (arith, h)) ne fk in
          ground (arith, slot-after k (omega (arith, hk)), fk, ne, apart)
    ]
  ]

  pub Foreign-after :
      (c : ℕ)
      → Foreign size bmapstart iblk d ip c
      → Foreign size bmapstart iblk (put_block d (slot d ip l) block) ip c
        × ((put_block d (slot d ip l) block) c ≡ d c)
  Foreign-after c f =
      let apart : slot d ip l ≢ c = f.apart l (omega (arith, h)) in
      (
        Foreign-put_block size bmapstart iblk v (slot d ip l) owned.not_bitmap table_apart block c
            f,
        ground (arith, apart),
      )

copied_byte :
    (block : Block) (off m o : ℕ) (src : ℕ → Byte)
    → o / 512 ≡ off / 512
    → copy_into block (off % 512) m src (o % 512)
      ≡ (if leb off o && ltb o (off + m) then src (o - off) else block (o % 512))
copied_byte block off m o src e =
    let low : leb (off % 512) (o % 512) ≡ leb off o = ground (arith, e) in
    let high : ltb (o % 512) (off % 512 + m) ≡ ltb o (off + m) = ground (arith, e) in
    let index : o % 512 - off % 512 ≡ o - off = omega (arith, e) in rw (low, high, index) refl

outside :
    (off m o : ℕ)
    → m ≤ 512 - off % 512
    → o / 512 ≢ off / 512
    → (leb off o && ltb o (off + m)) ≡ false
outside off m o h ne = ground (arith, h, ne)

-- The bytes of a chunk that lies within one block.
pub byte_at-chunk :
    (size bmapstart iblk : ℕ) {d : Disk} {ip : Inode} (v : IsValid size bmapstart iblk d ip)
    (off m o : ℕ) (src : ℕ → Byte) (h : off / 512 < 140) (full : slot d ip (off / 512) ≢ 0)
    → m ≤ 512 - off % 512
    → o < 140 * 512
    → byte_at
        (put_block d
          (slot d ip (off / 512))
          (copy_into (d (slot d ip (off / 512))) (off % 512) m src))
        ip
        o
      ≡ (if leb off o && ltb o (off + m) then src (o - off) else byte_at d ip o)
unfolding byte_at
byte_at-chunk size bmapstart iblk {d} {ip} v off m o src h full hm ho =
    let l = off / 512 in
    let block = copy_into (d (slot d ip l)) (off % 512) m src in
    let k : o / 512 < 140 = omega (arith, ho) in
    let hit : o / 512 ≡ l → (o / 512 == l) ≡ true = λ e. ground (arith, e) in
    let miss : o / 512 ≢ l → (o / 512 == l) ≡ false = λ ne. ground (arith, ne) in
    let here =
      ap (λ b. b (o % 512)) (block_of-after size bmapstart iblk v l h full block (o / 512) k) in
    elim (ℕ_discrete (o / 512) l) [
      | yes e ↦
          let old : block_of d ip (o / 512) ≡ d (slot d ip l) = ground (arith, e, full) in
          here
          ∙ ap (λ t. (if t then block else block_of d ip (o / 512)) (o % 512)) (hit e)
          ∙ copied_byte (d (slot d ip l)) off m o src e
          ∙ ap (λ b. if leb off o && ltb o (off + m) then src (o - off) else b (o % 512)) (sym old)
      | no ne ↦
          here
          ∙ ap (λ t. (if t then block else block_of d ip (o / 512)) (o % 512)) (miss ne)
          ∙ ap (λ t. if t then src (o - off) else block_of d ip (o / 512) (o % 512))
              (sym (outside off m o hm ne))
    ]
