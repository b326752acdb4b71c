-- ===== src/Inode/Rewrites.antt =====
-- What the loop of writei in fs.c does to the bytes of a file, round by round.
use cs461_hw.Prelude.{
  sym, ◌≢◌, ◌≤◌, dec_lt, ℕ, ◌+◌, ◌-◌, ◌*◌, ◌/◌, ◌%◌, ◌<◌, ◌≡◌, refl, ap, ◌∙◌, ◌&&◌, arith, ltb, leb,
  if◌then◌else◌,
}
use cs461_hw.Fs.{Disk}
use cs461_hw.Inode.{Byte, Inode}
use cs461_hw.Inode.Slots.{slot, Foreign, Keeps}
use cs461_hw.Inode.Store.{byte_at}

-- What a write of `n` bytes at `off` changes: these bytes of the file, and nothing of other files. Their
-- blocks are there afterwards, and no block is lost.
pub record Rewrites (size bmapstart iblk : ℕ) (d : Disk) (ip : Inode) (d' : Disk) (ip' : Inode)
    (off n : ℕ) (src : ℕ → Byte) : Type 0 where
  pub bytes :
      (o : ℕ)
      → o < 140 * 512
      → byte_at d' ip' o ≡ (if leb off o && ltb o (off + n) then src (o - off) else byte_at d ip o)
  pub present : (o : ℕ) → off ≤ o → o < off + n → slot d' ip' (o / 512) ≢ 0
  pub filled : (l : ℕ) → l < 140 → slot d ip l ≢ 0 → slot d' ip' l ≢ 0
  pub foreign :
      (c : ℕ)
      → Foreign size bmapstart iblk d ip c
      → Foreign size bmapstart iblk d' ip' c × (d' c ≡ d c)
  pub kind_kept : ip'.kind ≡ ip.kind

module _ (size bmapstart iblk : ℕ) where
  byte_at-Keeps :
      {d d' : Disk} {ip ip' : Inode}
      → Keeps size bmapstart iblk d ip d' ip'
      → (o : ℕ) → o < 140 * 512
      → byte_at d' ip' o ≡ byte_at d ip o
  unfolding byte_at
  byte_at-Keeps k o h = ap (λ b. b (o % 512)) (k.blocks (o / 512) (omega (arith, h)))

  pub Rewrites-refl :
      (d : Disk) (ip : Inode) (off : ℕ) (src : ℕ → Byte)
      → Rewrites size bmapstart iblk d ip d ip off 0 src
  Rewrites-refl d ip off src = record {
    bytes = λ o h. ground arith;
    present = λ o a b. absurd (omega (arith, a, b));
    filled = λ l h ne. ne;
    foreign = λ c f. (f, refl);
    kind_kept = refl;
  }

  -- What is kept before a write changes nothing of it.
  pub Rewrites-Keeps :
      {d d1 d2 : Disk} {ip ip1 ip2 : Inode} {off n : ℕ} {src : ℕ → Byte}
      → Keeps size bmapstart iblk d ip d1 ip1
      → Rewrites size bmapstart iblk d1 ip1 d2 ip2 off n src
      → Rewrites size bmapstart iblk d ip d2 ip2 off n src
  Rewrites-Keeps {off} {n} {src} k w = record {
    bytes = λ o h.
        w.bytes o h
        ∙ ap (λ b. if leb off o && ltb o (off + n) then src (o - off) else b) (byte_at-Keeps k o h);
    present = w.present;
    filled = λ l h ne. w.filled l h (λ z. ne (sym (k.slots l (omega (arith, h)) ne) ∙ z));
    foreign = λ c f. let (f1, e1) = k.foreign c f in let (f2, e2) = w.foreign c f1 in (f2, e2 ∙ e1);
    kind_kept = w.kind_kept ∙ k.kind_kept;
  }

  -- Two writes one after the other.
  pub Rewrites-append :
      {d d1 d2 : Disk} {ip ip1 ip2 : Inode} {off m n : ℕ} {src src' : ℕ → Byte}
      → Rewrites size bmapstart iblk d ip d1 ip1 off m src
      → Rewrites size bmapstart iblk d1 ip1 d2 ip2 (off + m) n src'
      → ((i : ℕ) → src' i ≡ src (m + i))
      → off + (m + n) ≤ 140 * 512
      → Rewrites size bmapstart iblk d ip d2 ip2 off (m + n) src
  Rewrites-append {off} {m} {n} {src} {src'} v w e fits = record {
    bytes = λ o h.
        let index : off + m ≤ o → m + (o - (off + m)) ≡ o - off = λ q. omega (arith, q) in
        elim (dec_lt o (off + m)) [
          | yes l ↦ ground (arith, v.bytes o h, w.bytes o h, l)
          | no nl ↦
              let i = index (omega (arith, nl)) in
              ground (arith, v.bytes o h, w.bytes o h, nl, e (o - (off + m)) ∙ ap src i)
        ];
    present = λ o a b. elim (dec_lt o (off + m)) [
      | yes l ↦ w.filled (o / 512) (omega (arith, b, fits)) (v.present o a l)
      | no nl ↦ w.present o (omega (arith, nl)) (omega (arith, b))
    ];
    filled = λ l h ne. w.filled l h (v.filled l h ne);
    foreign = λ c f. let (f1, e1) = v.foreign c f in let (f2, e2) = w.foreign c f1 in (f2, e2 ∙ e1);
    kind_kept = w.kind_kept ∙ v.kind_kept;
  }
