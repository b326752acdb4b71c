-- ===== src/Inode/Slots.antt =====
-- The blocks of an inode in fs.c: the 12 direct ones, the 128 of the indirect block and the indirect
-- block itself, and what a new block of balloc does to them.
use cs461_hw.Prelude.{
  ◌⊎◌, inl, inr, dec_lt, ◌+◌, ◌∙◌, ℕ_discrete, ◌^◌, sym, ap, ℕ, ◌-◌, ◌<◌, ◌≤◌, ◌≡◌, ◌≢◌, refl, true,
  false, ◌||◌, ltb, ◌==◌, if◌then◌else◌, arith,
}
use cs461_hw.Fs.{bblock, Disk}
use cs461_hw.Fs.Bitmap.{ProtectsBitmap}
use cs461_hw.Fs.Scan.{is_used}
use cs461_hw.Inode.{put_block, Block, Inode, word_at}

-- The address in slot `k`, 0 if there is none; slot 140 is that of the indirect block.
pub slot : Disk → Inode → ℕ → ℕ
slot d ip k =
    if ltb k 12
    then ip.addrs k
    else if k == 140
    then ip.addrs 12
    else if ip.addrs 12 == 0
    then 0
    else word_at (d (ip.addrs 12)) (k - 12)

pub slot-direct : (d : Disk) (ip : Inode) (k : ℕ) → k < 12 → slot d ip k ≡ ip.addrs k
unfolding slot
slot-direct d ip k h = ground arith

pub slot-table : (d : Disk) (ip : Inode) → slot d ip 140 ≡ ip.addrs 12
unfolding slot
slot-table d ip = refl

pub slot-entry :
    (d : Disk) (ip : Inode) (j : ℕ)
    → j < 128
    → slot d ip (12 + j) ≡ (if ip.addrs 12 == 0 then 0 else word_at (d (ip.addrs 12)) j)
unfolding slot
slot-entry d ip j h =
    let e : 12 + j - 12 ≡ j = omega arith in ground (arith, h, ap (word_at (d (ip.addrs 12))) e)

-- The slots do not depend on the size.
pub slot-resize :
    (d : Disk) (ip : Inode) (n k : ℕ) → slot d (record ip { size = n }) k ≡ slot d ip k
unfolding slot
slot-resize d ip n k = refl

-- An index is one of the three kinds of slot.
pub slot_cases : (k : ℕ) → k ≤ 140 → (k < 12) ⊎ ((k ≡ 140) ⊎ ((j : ℕ) × (j < 128) × (k ≡ 12 + j)))
slot_cases k h = elim (dec_lt k 12) [
  | yes a ↦ inl a
  | no a ↦ elim (ℕ_discrete k 140) [
    | yes e ↦ inr (inl e)
    | no e ↦ inr (inr (k - 12, omega (arith, a, e, h), omega arith))
  ]
]

abbrev pub zero_block : Block
zero_block i j = false

-- The contents of block `l` of the file, zeros where there is none.
abbrev pub block_of : Disk → Inode → ℕ → Block
block_of d ip l = if slot d ip l == 0 then zero_block else d (slot d ip l)

module _ (size bmapstart iblk : ℕ) where
  -- A block that a slot may hold: in use, and neither of the bitmap nor the inode's own.
  pub record Good (d : Disk) (b : ℕ) : Type 0 where
    pub in_range : b < size
    pub used : is_used bmapstart d b ≡ true
    pub not_bitmap : (c : ℕ) → c < size → b ≢ bblock bmapstart c
    pub not_inode : b ≢ iblk

  -- The disk: the bitmap, the boot block and the inode's block are marked as used.
  pub record Ready (d : Disk) : Type 0 where
    pub bitmap : ProtectsBitmap size bmapstart d
    pub bitmap_range : (c : ℕ) → c < size → bblock bmapstart c < size
    pub boot : is_used bmapstart d 0 ≡ true
    pub inode : is_used bmapstart d iblk ≡ true
    pub inode_range : iblk < size
    pub inode_apart : (c : ℕ) → c < size → iblk ≢ bblock bmapstart c
    pub fits : size < 2 ^ 32

  -- All slots of the inode hold good blocks, no two the same.
  pub record IsValid (d : Disk) (ip : Inode) : Type 0 where
    pub good : (k : ℕ) → k ≤ 140 → slot d ip k ≢ 0 → Good d (slot d ip k)
    pub apart : (k l : ℕ) → k ≤ 140 → l ≤ 140 → k ≢ l → slot d ip k ≢ 0 → slot d ip k ≢ slot d ip l

  -- `b` is a new block of `d'`.
  pub record New (d d' : Disk) (b : ℕ) : Type 0 where
    pub in_range : b < size
    pub was_free : is_used bmapstart d b ≡ false
    pub used : (c : ℕ) → c < size → is_used bmapstart d' c ≡ (c == b || is_used bmapstart d c)
    pub zeros : d' b ≡ zero_block
    pub others : (c : ℕ) → c ≢ b → c ≢ bblock bmapstart b → d' c ≡ d c

  module _ {d d' : Disk} {b : ℕ} (r : Ready d) (n : New d d' b) where
    New-ne_of_used : (c : ℕ) → is_used bmapstart d c ≡ true → c ≢ b
    New-ne_of_used c u e = cc (u, n.was_free, ap (is_used bmapstart d) e)

    pub New-ne_zero : b ≢ 0
    New-ne_zero e = New-ne_of_used 0 r.boot (sym e)

    pub New-Good : Good d' b
    New-Good = record {
      in_range = n.in_range;
      used = ground (arith, n.used b n.in_range);
      not_bitmap = λ c l e. New-ne_of_used (bblock bmapstart c) (r.bitmap c l) (sym e);
      not_inode = λ e. New-ne_of_used iblk r.inode (sym e);
    }

    pub Good-kept : (c : ℕ) → Good d c → Good d' c × (d' c ≡ d c) × (c ≢ b)
    Good-kept c g =
        let ne = New-ne_of_used c g.used in
        (
          record {
            in_range = g.in_range;
            used = ground (arith, n.used c g.in_range, g.used);
            not_bitmap = g.not_bitmap;
            not_inode = g.not_inode;
          },
          n.others c ne (g.not_bitmap b n.in_range),
          ne,
        )

    pub Ready-New : Ready d'
    Ready-New = record {
      bitmap =
          λ c l. ground (arith, n.used (bblock bmapstart c) (r.bitmap_range c l), r.bitmap c l);
      bitmap_range = r.bitmap_range;
      boot = ground (arith, n.used 0 (omega arith), r.boot);
      inode = ground (arith, n.used iblk r.inode_range, r.inode);
      inode_range = r.inode_range;
      inode_apart = r.inode_apart;
      fits = r.fits;
    }

  -- A block written whose place in the bitmap this does not touch.
  is_used-put_block :
      (d : Disk) (t c : ℕ) (v : Block)
      → ((x : ℕ) → x < size → t ≢ bblock bmapstart x)
      → c < size
      → is_used bmapstart (put_block d t v) c ≡ is_used bmapstart d c
  is_used-put_block d t c v n l = ground (arith, n c l)

  pub Good-put_block :
      (d : Disk) (t c : ℕ) (v : Block)
      → ((x : ℕ) → x < size → t ≢ bblock bmapstart x)
      → Good d c
      → Good (put_block d t v) c
  Good-put_block d t c v n g = record {
    in_range = g.in_range;
    used = is_used-put_block d t c v n g.in_range ∙ g.used;
    not_bitmap = g.not_bitmap;
    not_inode = g.not_inode;
  }

  pub Ready-put_block :
      (d : Disk) (t : ℕ) (v : Block)
      → ((x : ℕ) → x < size → t ≢ bblock bmapstart x)
      → Ready d
      → Ready (put_block d t v)
  Ready-put_block d t v n r = record {
    bitmap =
        λ c l. is_used-put_block d t (bblock bmapstart c) v n (r.bitmap_range c l) ∙ r.bitmap c l;
    bitmap_range = r.bitmap_range;
    boot = is_used-put_block d t 0 v n (omega (arith, r.inode_range)) ∙ r.boot;
    inode = is_used-put_block d t iblk v n r.inode_range ∙ r.inode;
    inode_range = r.inode_range;
    inode_apart = r.inode_apart;
    fits = r.fits;
  }

  -- A block of another file.
  pub record Foreign (d : Disk) (ip : Inode) (c : ℕ) : Type 0 where
    pub good : Good d c
    pub apart : (l : ℕ) → l ≤ 140 → slot d ip l ≢ c

  -- What a change keeps: the contents of the file, the blocks that it has, and other files.
  pub record Keeps (d : Disk) (ip : Inode) (d' : Disk) (ip' : Inode) : Type 0 where
    pub blocks : (l : ℕ) → l < 140 → block_of d' ip' l ≡ block_of d ip l
    pub slots : (l : ℕ) → l ≤ 140 → slot d ip l ≢ 0 → slot d' ip' l ≡ slot d ip l
    pub foreign : (c : ℕ) → Foreign d ip c → Foreign d' ip' c × (d' c ≡ d c)
    pub size_kept : ip'.size ≡ ip.size
    pub kind_kept : ip'.kind ≡ ip.kind

  pub Keeps-refl : (d : Disk) (ip : Inode) → Keeps d ip d ip
  Keeps-refl d ip = record {
    blocks = λ l h. refl;
    slots = λ l h n. refl;
    foreign = λ c f. (f, refl);
    size_kept = refl;
    kind_kept = refl;
  }

  pub Keeps-trans :
      (d d' d'' : Disk) (ip ip' ip'' : Inode)
      → Keeps d ip d' ip'
      → Keeps d' ip' d'' ip''
      → Keeps d ip d'' ip''
  Keeps-trans d d' d'' ip ip' ip'' j k = record {
    blocks = λ l h. k.blocks l h ∙ j.blocks l h;
    slots = λ l h n. k.slots l h (rw (j.slots l h n) n) ∙ j.slots l h n;
    foreign = λ c f. let (f', e) = j.foreign c f in let (f'', e') = k.foreign c f' in (f'', e' ∙ e);
    size_kept = k.size_kept ∙ j.size_kept;
    kind_kept = k.kind_kept ∙ j.kind_kept;
  }

  -- A slot that was empty gets a new block.
  pub record Grows (d : Disk) (ip : Inode) (d' : Disk) (ip' : Inode) (k b : ℕ) : Type 0 where
    pub at_most : k ≤ 140
    pub empty : slot d ip k ≡ 0
    pub slots : (l : ℕ) → l ≤ 140 → slot d' ip' l ≡ (if l == k then b else slot d ip l)
    pub new : Good d' b
    pub not_zero : b ≢ 0
    pub good : (c : ℕ) → Good d c → Good d' c × (c ≢ b)
    pub contents : (c : ℕ) → Good d c → slot d ip 140 ≢ c → d' c ≡ d c
    pub zeros : d' b ≡ zero_block
    pub size_kept : ip'.size ≡ ip.size
    pub kind_kept : ip'.kind ≡ ip.kind

  module _ {d d' : Disk} {ip ip' : Inode} {k b : ℕ} (v : IsValid d ip)
      (g : Grows d ip d' ip' k b) where
    same_slot : (l : ℕ) → l ≤ 140 → l ≢ k → slot d' ip' l ≡ slot d ip l
    same_slot l h ne = ground (arith, g.slots l h, ne)

    new_slot : (l : ℕ) → l ≤ 140 → l ≡ k → slot d' ip' l ≡ b
    new_slot l h e = ground (arith, g.slots l h, e)

    old_slot_ne : (l : ℕ) → l ≤ 140 → slot d ip l ≢ b
    old_slot_ne l h e =
        let full : slot d ip l ≢ 0 = λ z. g.not_zero (sym e ∙ z) in
        (g.good (slot d ip l) (v.good l h full)).1 e

    pub IsValid-Grows : IsValid d' ip'
    IsValid-Grows = record {
      good = λ l h n. elim (ℕ_discrete l k) [
        | yes e ↦ rw (new_slot l h e) g.new
        | no ne ↦
            let s = same_slot l h ne in rw s (g.good (slot d ip l) (v.good l h (λ z. n (s ∙ z)))).0
      ];
      apart = λ l m hl hm ne n. elim (ℕ_discrete l k) [
        | yes e ↦ λ q.
            old_slot_ne m hm (sym (same_slot m hm (λ x. ne (e ∙ sym x))) ∙ sym q ∙ new_slot l hl e)
        | no nk ↦ elim (ℕ_discrete m k) [
          | yes e ↦ λ q. old_slot_ne l hl (sym (same_slot l hl nk) ∙ q ∙ new_slot m hm e)
          | no nm ↦ λ q.
              v.apart l m hl hm ne (λ z. n (same_slot l hl nk ∙ z))
                (sym (same_slot l hl nk) ∙ q ∙ same_slot m hm nm)
        ]
      ];
    }

    same_block : (l : ℕ) → l < 140 → block_of d' ip' l ≡ block_of d ip l
    same_block l h = elim (ℕ_discrete l k) [
      | yes e ↦
          let was : slot d ip l ≡ 0 = ap (slot d ip) e ∙ g.empty in
          ground (arith, new_slot l (omega (arith, h)) e, was, g.not_zero, g.zeros)
      | no ne ↦ elim (ℕ_discrete (slot d ip l) 0) [
        | yes z ↦ ground (arith, same_slot l (omega (arith, h)) ne, z)
        | no full ↦
            let apart : slot d ip 140 ≢ slot d ip l =
              λ q. v.apart l 140 (omega (arith, h)) (omega arith) (omega (arith, h)) full (sym q) in
            let kept = g.contents (slot d ip l) (v.good l (omega (arith, h)) full) apart in
            ground (arith, same_slot l (omega (arith, h)) ne, full, kept)
      ]
    ]

    pub Keeps-Grows : Keeps d ip d' ip'
    Keeps-Grows = record {
      blocks = same_block;
      slots = λ l h n. same_slot l h (λ e. n (ap (slot d ip) e ∙ g.empty));
      foreign = λ c f. (
        record {
          good = (g.good c f.good).0;
          apart = λ l h q. elim (ℕ_discrete l k) [
            | yes e ↦ (g.good c f.good).1 (sym q ∙ new_slot l h e)
            | no ne ↦ f.apart l h (sym (same_slot l h ne) ∙ q)
          ];
        },
        g.contents c f.good (f.apart 140 (omega arith)),
      );
      size_kept = g.size_kept;
      kind_kept = g.kind_kept;
    }
