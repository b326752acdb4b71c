-- ===== src/Inode/Write.antt =====
-- The loop of writei in fs.c.
use cs461_hw.Prelude.{
  sym, ap, ◌∙◌, ◌*◌, dec_lt, ℕ, zero, suc, ◌+◌, ◌-◌, ◌/◌, ◌%◌, ◌≤◌, ◌<◌, min, ◌≡◌, refl, ◌≢◌, [],
  ◌∷◌, ◌++◌, arith, lt→ltb,
}
use cs461_hw.Fs.{Disk}
use cs461_hw.Inode.{
  ok, panic, Byte, Inode, State, Result, write_loop, bmap, write_block, put_block, copy_into,
}
use cs461_hw.Inode.Slots.{Keeps, IsValid, Ready, slot}
use cs461_hw.Inode.Map.{Mapped, mapped, bmap-Mapped}
use cs461_hw.Inode.Grow.{IsFull}
use cs461_hw.Inode.Store.{slot-after, IsValid-after, Ready-after, byte_at-chunk, Foreign-after}
use cs461_hw.Inode.Rewrites.{Rewrites-Keeps, Rewrites-append, Rewrites-refl, Rewrites}

-- The number of bytes of a round.
abbrev pub round_bytes : ℕ → ℕ → ℕ
round_bytes off rest = min rest (512 - off % 512)

module _ (size bmapstart iblk : ℕ) where
  chunk-Rewrites :
      {d : Disk} {ip : Inode} (v : IsValid size bmapstart iblk d ip) (off m : ℕ) (src : ℕ → Byte)
      (h : off / 512 < 140) (full : slot d ip (off / 512) ≢ 0)
      → m ≤ 512 - off % 512
      → Rewrites size bmapstart iblk d ip
          (put_block d
            (slot d ip (off / 512))
            (copy_into (d (slot d ip (off / 512))) (off % 512) m src))
          ip
          off
          m
          src
  chunk-Rewrites {d} {ip} v off m src h full hm =
      let kept =
        slot-after size bmapstart iblk v (off / 512) h full
          (copy_into (d (slot d ip (off / 512))) (off % 512) m src) in
      record {
        bytes = λ o ho. byte_at-chunk size bmapstart iblk v off m o src h full hm ho;
        present = λ o a b z. full (
            ap (slot d ip) (omega (arith, a, b, hm))
            ∙ sym (kept (o / 512) (omega (arith, a, b, hm, h)))
            ∙ z);
        filled = λ l hl ne z. ne (sym (kept l (omega (arith, hl))) ∙ z);
        foreign = λ c f.
            Foreign-after size bmapstart iblk v (off / 512) h full
              (copy_into (d (slot d ip (off / 512))) (off % 512) m src) c f;
        kind_kept = refl;
      }

  -- What a write of `n` bytes of a file does: all of it, or it ends because no block is free.
  pub data Written (st : State) (ip : Inode) (off n : ℕ) (src : ℕ → Byte) (r : Result (Inode × ℕ))
      : Type 0 where
    written :
        (st' : State) (ip' : Inode)
        → r ≡ ok (ip', off + n) st'
        → Ready size bmapstart iblk st'.disk
        → IsValid size bmapstart iblk st'.disk ip'
        → ip'.size ≡ ip.size
        → Rewrites size bmapstart iblk st.disk ip st'.disk ip' off n src
        → Written st ip off n src r
    disk_full :
        (st' : State)
        → r ≡ panic st'
        → IsFull size bmapstart iblk st'.disk
        → Written st ip off n src r

  module _ (inodestart : ℕ) (src : ℕ → Byte) where
    -- The state after the block of a round is written.
    unfoldable pub after : State → ℕ → ℕ → ℕ → ℕ → State
    after st b off tot m = record st {
      disk = put_block st.disk b (copy_into (st.disk b) (off % 512) m (λ i. src (tot + i)));
      logged = st.logged ++ (b ∷ []);
    }

    pub write_loop_step :
        (fuel : ℕ) (ip ip' : Inode) (off tot n b : ℕ) (st st' : State)
        → tot < n
        → bmap size bmapstart inodestart ip (off / 512) st ≡ ok (ip', b) st'
        → write_loop size bmapstart inodestart (suc fuel) src ip off tot n st
          ≡ write_loop size bmapstart inodestart fuel src ip'
              (off + round_bytes off (n - tot))
              (tot + round_bytes off (n - tot))
              n
              (after st' b off tot (round_bytes off (n - tot)))
    unfolding write_loop after write_block
    write_loop_step fuel ip ip' off tot n b st st' l e = rw (lt→ltb tot n l, e) refl

    pub write_loop_panic :
        (fuel : ℕ) (ip : Inode) (off tot n : ℕ) (st st' : State)
        → tot < n
        → bmap size bmapstart inodestart ip (off / 512) st ≡ panic st'
        → write_loop size bmapstart inodestart (suc fuel) src ip off tot n st ≡ panic st'
    unfolding write_loop
    write_loop_panic fuel ip off tot n st st' l e = rw (lt→ltb tot n l, e) refl

    pub write_loop_end :
        (fuel : ℕ) (ip : Inode) (off tot n : ℕ) (st : State)
        → ¬ (tot < n)
        → write_loop size bmapstart inodestart fuel src ip off tot n st ≡ ok (ip, off) st
    unfolding write_loop
    write_loop_end zero ip off tot n st h = ground (arith, h)
    write_loop_end (suc fuel) ip off tot n st h = ground (arith, h)

    -- A round and the rest of the loop.
    Written-round :
        (ip ip1 : Inode) (off tot n : ℕ) (st st1 : State) (r : Result (Inode × ℕ))
        → tot < n
        → off + (n - tot) ≤ 140 * 512
        → (v1 : IsValid size bmapstart iblk st1.disk ip1)
        → Keeps size bmapstart iblk st.disk ip st1.disk ip1
        → slot st1.disk ip1 (off / 512) ≢ 0
        → Written
            (after st1 (slot st1.disk ip1 (off / 512)) off tot (round_bytes off (n - tot)))
            ip1
            (off + round_bytes off (n - tot))
            (n - (tot + round_bytes off (n - tot)))
            (λ i. src (tot + round_bytes off (n - tot) + i))
            r
        → Written st ip off (n - tot) (λ i. src (tot + i)) r
    unfolding after
    Written-round ip ip1 off tot n st st1 r l fits v1 keeps full (disk_full st2 e f) =
        disk_full st2 e f
    Written-round ip ip1 off tot n st st1 r l fits v1 keeps full (written st2 ip2 e r2 v2 z w) =
        let m = round_bytes off (n - tot) in
        let total : m + (n - (tot + m)) ≡ n - tot = omega (arith, l) in
        let end : off + m + (n - (tot + m)) ≡ off + (n - tot) = omega (arith, l) in
        let first =
          chunk-Rewrites v1 off m (λ i. src (tot + i)) (omega (arith, fits, l)) full
            (omega arith) in
        let both =
          Rewrites-append size bmapstart iblk first w (λ i. ap src (omega arith))
            (omega (arith, fits, l)) in
        written st2 ip2 (rw end at e) r2 v2 (z ∙ keeps.size_kept)
          (Rewrites-Keeps size bmapstart iblk keeps (rw total at both))

    write_loop-Written_end :
        (fuel : ℕ) (ip : Inode) (off tot n : ℕ) (st : State)
        → Ready size bmapstart iblk st.disk
        → IsValid size bmapstart iblk st.disk ip
        → ¬ (tot < n)
        → Written st ip off
            (n - tot)
            (λ i. src (tot + i))
            (write_loop size bmapstart inodestart fuel src ip off tot n st)
    write_loop-Written_end fuel ip off tot n st r v h =
        let nothing : n - tot ≡ 0 = omega (arith, h) in
        let last = write_loop_end fuel ip off tot n st h in
        let none_left : off ≡ off + (n - tot) = omega (arith, h) in
        let same = Rewrites-refl size bmapstart iblk st.disk ip off (λ i. src (tot + i)) in
        written st ip (last ∙ ap (λ x. ok (ip, x) st) none_left) r v refl (rw (sym nothing) at same)

    -- With `n - tot` rounds at most, the loop writes the bytes from `tot` on.
    pub write_loop-Written :
        (fuel : ℕ) (ip : Inode) (off tot n : ℕ) (st : State)
        → Ready size bmapstart iblk st.disk
        → IsValid size bmapstart iblk st.disk ip
        → n - tot ≤ fuel
        → off + (n - tot) ≤ 140 * 512
        → Written st ip off
            (n - tot)
            (λ i. src (tot + i))
            (write_loop size bmapstart inodestart fuel src ip off tot n st)
    unfolding after
    write_loop-Written zero ip off tot n st r v f fits =
        write_loop-Written_end zero ip off tot n st r v (omega (arith, f))
    write_loop-Written (suc fuel) ip off tot n st r v f fits = elim (dec_lt tot n) [
      | no h ↦ write_loop-Written_end (suc fuel) ip off tot n st r v h
      | yes l ↦
          let m = round_bytes off (n - tot) in
          let index : off / 512 < 140 = omega (arith, fits, l) in
          elim (bmap-Mapped size bmapstart iblk inodestart st ip (off / 512) r v index) [
            | Mapped.disk_full st1 e full ↦
                disk_full st1 (write_loop_panic fuel ip off tot n st st1 l e) full
            | mapped st1 ip1 b e r1 v1 keeps has ne ↦
                let b' = slot st1.disk ip1 (off / 512) in
                let full : b' ≢ 0 = λ z. ne (sym has ∙ z) in
                let e' = rw (sym has) at e in
                let block = copy_into (st1.disk b') (off % 512) m (λ i. src (tot + i)) in
                let st2 = after st1 b' off tot m in
                rw (write_loop_step fuel ip ip1 off tot n b' st st1 l e') (
                  Written-round ip ip1 off tot n st st1 _ l fits v1 keeps full (
                    write_loop-Written fuel ip1 (off + m) (tot + m) n st2
                      (Ready-after size bmapstart iblk v1 (off / 512) index full block r1)
                      (IsValid-after size bmapstart iblk v1 (off / 512) index full block)
                      (omega (arith, f, l)) (omega (arith, fits, l))))
          ]
    ]
