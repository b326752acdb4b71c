-- ===== src/Inode/Save.antt =====
-- writei of fs.c: the loop, and the copy of the inode on the disk.
use cs461_hw.Prelude.{
  ◌+◌, ◌==◌, if◌then◌else◌, ℕ, ◌*◌, ◌/◌, ◌%◌, ◌≤◌, ◌<◌, ◌≡◌, sym, ap, ◌∙◌, ◌≢◌, arith, ℕ_discrete,
}
use cs461_hw.Fs.{Disk}
use cs461_hw.Inode.{Byte, Block, Inode, put_block}
use cs461_hw.Inode.Slots.{
  Good-put_block, Foreign, slot-resize, zero_block, slot-table, IsValid, Ready, slot, block_of,
}
use cs461_hw.Inode.Store.{IsValid-put_block, byte_at, slot-put_block}
use cs461_hw.Inode.Rewrites.{Rewrites}

module _ (size bmapstart iblk : ℕ) {d : Disk} {ip : Inode} (r : Ready size bmapstart iblk d)
    (v : IsValid size bmapstart iblk d ip) (block : Block) where
  apart : ip.addrs 12 ≢ 0 → ip.addrs 12 ≢ iblk
  apart n e =
      let s = slot-table d ip in (v.good 140 (omega arith) (λ z. n (sym s ∙ z))).not_inode (s ∙ e)

  same : (l : ℕ) → l ≤ 140 → slot (put_block d iblk block) ip l ≡ slot d ip l
  same = slot-put_block size bmapstart iblk v iblk r.inode_apart apart block

  same_block : (l : ℕ) → l < 140 → block_of (put_block d iblk block) ip l ≡ block_of d ip l
  same_block l h = elim (ℕ_discrete (slot d ip l) 0) [
    | yes z ↦ ground (arith, same l (omega (arith, h)), z)
    | no ne ↦
        let g = (v.good l (omega (arith, h)) ne).not_inode in
        ground (arith, same l (omega (arith, h)), ne, g)
  ]

-- The disk after the inode's block is written, and the size set.
module _ (size bmapstart iblk : ℕ) {d : Disk} {ip : Inode} (r : Ready size bmapstart iblk d)
    (v : IsValid size bmapstart iblk d ip) (block : Block) (n : ℕ) where
  saved_slot :
      (l : ℕ) → l ≤ 140 → slot (put_block d iblk block) (record ip { size = n }) l ≡ slot d ip l
  saved_slot l h =
      slot-resize (put_block d iblk block) ip n l ∙ same size bmapstart iblk r v block l h

  saved_block :
      (l : ℕ)
      → l < 140
      → block_of (put_block d iblk block) (record ip { size = n }) l ≡ block_of d ip l
  saved_block l h =
      ap (λ s. if s == 0 then zero_block else put_block d iblk block s)
        (slot-resize (put_block d iblk block) ip n l)
      ∙ same_block size bmapstart iblk r v block l h

  saved_byte :
      (o : ℕ)
      → o < 140 * 512
      → byte_at (put_block d iblk block) (record ip { size = n }) o ≡ byte_at d ip o
  unfolding byte_at
  saved_byte o h = ap (λ b. b (o % 512)) (saved_block (o / 512) (omega (arith, h)))

  pub saved-IsValid : IsValid size bmapstart iblk (put_block d iblk block) (record ip { size = n })
  saved-IsValid =
      let put =
        IsValid-put_block size bmapstart iblk v iblk r.inode_apart
          (apart size bmapstart iblk r v block) block in
      let e = slot-resize (put_block d iblk block) ip n in
      record {
        good = λ k h ne. rw (e k) (put.good k h (λ z. ne (e k ∙ z)));
        apart = λ k l hk hl ne full q.
            put.apart k l hk hl ne (λ z. full (e k ∙ z)) (sym (e k) ∙ q ∙ e l);
      }

  saved-Foreign :
      (c : ℕ)
      → Foreign size bmapstart iblk d ip c
      → Foreign size bmapstart iblk (put_block d iblk block) (record ip { size = n }) c
        × (put_block d iblk block c ≡ d c)
  saved-Foreign c f = (
    record {
      good = Good-put_block size bmapstart iblk d iblk c block r.inode_apart f.good;
      apart = λ k h q. f.apart k h (sym (saved_slot k h) ∙ q);
    },
    let ne = f.good.not_inode in ground (arith, ne),
  )

  pub saved-Rewrites :
      {d0 : Disk} {ip0 : Inode} {off m : ℕ} {src : ℕ → Byte}
      → off + m ≤ 140 * 512
      → Rewrites size bmapstart iblk d0 ip0 d ip off m src
      → Rewrites size bmapstart iblk d0 ip0
          (put_block d iblk block)
          (record ip { size = n })
          off
          m
          src
  saved-Rewrites fits w = record {
    bytes = λ o h. saved_byte o h ∙ w.bytes o h;
    present = λ o a b z. w.present o a b (sym (saved_slot (o / 512) (omega (arith, b, fits))) ∙ z);
    filled = λ l h ne z. w.filled l h ne (sym (saved_slot l (omega (arith, h))) ∙ z);
    foreign =
        λ c f. let (f1, e1) = w.foreign c f in let (f2, e2) = saved-Foreign c f1 in (f2, e2 ∙ e1);
    kind_kept = w.kind_kept;
  }
