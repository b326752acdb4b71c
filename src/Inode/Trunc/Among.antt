-- ===== src/Inode/Trunc/Among.antt =====
-- The bits of the blocks that itrunc of fs.c frees.
use mathlib.Core.Path.{fun_ext}
use cs461_hw.Prelude.{
  ℕ, zero, suc, ◌%◌, ◌≤◌, ◌<◌, ◌≡◌, refl, ap, ◌≢◌, Bool, true, false, ◌&&◌, ◌||◌, arith, ◌==◌, not,
}
use cs461_hw.Fs.{Disk, bblock, bpb, put_bit}
use cs461_hw.Fs.Bitmap.{is_used-put_bit}
use cs461_hw.Fs.Scan.{is_used}
use cs461_hw.Inode.{Inode}
use cs461_hw.Inode.Slots.{slot, IsValid, Ready}

-- Whether `c` is in one of the first `k` slots.
unfoldable pub among : Disk → Inode → ℕ → ℕ → Bool
among d ip zero c = false
among d ip (suc k) c = not (slot d ip k == 0) && slot d ip k == c || among d ip k c

among-false :
    (d : Disk) (ip : Inode) (k c : ℕ)
    → ((l : ℕ) → l < k → slot d ip l ≢ 0 → slot d ip l ≢ c)
    → among d ip k c ≡ false
unfolding among
among-false d ip zero c h = refl
among-false d ip (suc k) c h =
    ground (arith, among-false d ip k c (λ l a. h l (omega (arith, a))), h k (omega arith))

module _ (size bmapstart iblk : ℕ) {d : Disk} {ip : Inode} (r : Ready size bmapstart iblk d)
    (v : IsValid size bmapstart iblk d ip) where
  -- The blocks of the first `k` slots are free; the blocks outside the bitmap are as before.
  pub record Freed (k : ℕ) (d' : Disk) : Type 0 where
    pub used :
        (c : ℕ)
        → c < size
        → is_used bmapstart d' c ≡ (is_used bmapstart d c && not (among d ip k c))
    pub contents : (c : ℕ) → ((x : ℕ) → x < size → c ≢ bblock bmapstart x) → d' c ≡ d c

  pub Freed-skip : (k : ℕ) (d' : Disk) → slot d ip k ≡ 0 → Freed k d' → Freed (suc k) d'
  unfolding among
  Freed-skip k d' z f = record {
    used = λ c h. ground (arith, f.used c h, z);
    contents = f.contents;
  }

  pub still_used :
      (k : ℕ) (d' : Disk)
      → k ≤ 140
      → slot d ip k ≢ 0
      → Freed k d'
      → is_used bmapstart d' (slot d ip k) ≡ true
  still_used k d' h ne f =
      let g = v.good k h ne in
      let fresh =
        among-false d ip k (slot d ip k)
          (λ l a n. v.apart l k (omega (arith, a, h)) h (omega (arith, a)) n) in
      ground (arith, f.used (slot d ip k) g.in_range, g.used, fresh)

  pub Freed-put_bit :
      (k : ℕ) (d' : Disk)
      → k ≤ 140
      → slot d ip k ≢ 0
      → Freed k d'
      → Freed (suc k) (put_bit d' (bblock bmapstart (slot d ip k)) (slot d ip k % bpb) false)
  unfolding among
  Freed-put_bit k d' h ne f =
      let b = slot d ip k in
      let g = v.good k h ne in
      record {
        used = λ c l. ground (arith, is_used-put_bit bmapstart b c d' false, f.used c l, ne);
        contents = λ c n. fun_ext (λ i.
            fun_ext
              (λ j. let q = ap (λ x. x i j) (f.contents c n) in ground (arith, q, n b g.in_range)));
      }
