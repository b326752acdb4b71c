-- ===== src/File/Whole.antt =====
-- filewrite of file.c over writei of fs.c: the chunks of one call. No other process comes between them.
use native.Mathlib.Nat.{zero-add}
use mathlib.Core.Path.{fun_ext}
use cs461_hw.Prelude.{
  true, ◌*◌, refl, sym, ap, ◌∙◌, ◌≢◌, Option, none, some, arith, ℕ_discrete, ℕ, zero, suc, ◌+◌, ◌-◌,
  ◌≤◌, ◌<◌, ◌≡◌,
}
use cs461_hw.File.{
  fd_inode, File, write_inode, filewrite, WriteEnd, write_loop, chunk, wrote, failed,
}
use cs461_hw.File.Chunks.{write_loop-round, write_loop-done}
use cs461_hw.Inode.{Byte, Inode, Result, State, writei, ok, panic, out_of_fuel, dev_kind}
use cs461_hw.Inode.Slots.{IsValid, Ready}
use cs461_hw.Inode.Rewrites.{Rewrites, Rewrites-append, Rewrites-refl}
use cs461_hw.Inode.Files.{own, saved, no_block, writei_lem, grown_size}

-- The inode and the disk, until a panic.
pub data Fs : Type 0 where
  live : Inode → State → Fs
  dead : Fs

abbrev pub after_writei : Result (Inode × Option ℕ) → Fs × Option ℕ
after_writei (ok (ip, r) st) = (live ip st, r)
after_writei (panic st) = (dead, none)
after_writei out_of_fuel = (dead, none)

module _ (size bmapstart inodestart inum : ℕ) (device : ℕ → Option (ℕ → ℕ → Option ℕ))
    (src : ℕ → Byte) where
  -- `writei(f->ip, addr + i, f->off, n1)`
  pub write_chunk : Fs → ℕ → ℕ → ℕ → Fs × Option ℕ
  write_chunk dead i off m = (dead, none)
  write_chunk (live ip st) i off m =
      after_writei (writei size bmapstart inodestart device inum (λ k. src (i + k)) ip off m st)

  -- How the loop ends.
  data Ended (st : State) (ip : Inode) (off i m n : ℕ) (r : Fs × ℕ × WriteEnd) : Type 0 where
    whole :
        (st' : State) (ip' : Inode)
        → r ≡ (live ip' st', off + m, wrote n)
        → Ready size bmapstart (own size bmapstart inodestart inum) st'.disk
        → IsValid size bmapstart (own size bmapstart inodestart inum) st'.disk ip'
        → ip'.size ≡ grown_size ip.size (off + m)
        → Rewrites size bmapstart
            (own size bmapstart inodestart inum)
            st.disk
            ip
            st'.disk
            ip'
            off
            m
            (λ k. src (i + k))
        → Ended st ip off i m n r
    dies : r.0 ≡ dead → Ended st ip off i m n r

  write_loop-dies :
      (fuel : ℕ) (ip : Inode) (st st' : State) (off i n : ℕ)
      → i < n
      → writei size bmapstart inodestart device inum (λ k. src (i + k)) ip off (chunk n i) st
        ≡ panic st'
      → write_loop write_chunk (suc fuel) (live ip st) off i n ≡ (dead, off, failed)
  unfolding write_loop write_chunk
  write_loop-dies fuel ip st st' off i n l e = ground (arith, l, e)

  pub write_chunk-ok :
      (ip ip' : Inode) (st st' : State) (off i m : ℕ) (r : Option ℕ)
      → writei size bmapstart inodestart device inum (λ k. src (i + k)) ip off m st
        ≡ ok (ip', r) st'
      → write_chunk (live ip st) i off m ≡ (live ip' st', r)
  unfolding write_chunk
  write_chunk-ok ip ip' st st' off i m r e = ap after_writei e

  Ended-done :
      (fuel : ℕ) (ip : Inode) (st : State) (off i n : ℕ)
      → Ready size bmapstart (own size bmapstart inodestart inum) st.disk
      → IsValid size bmapstart (own size bmapstart inodestart inum) st.disk ip
      → i ≡ n
      → off ≤ ip.size
      → Ended st ip off i 0 n (write_loop write_chunk (suc fuel) (live ip st) off i n)
  Ended-done fuel ip st off i n r v e a =
      let here : off ≡ off + 0 = omega arith in
      whole st ip
        (rw e (write_loop-done write_chunk fuel (live ip st) off n)
          ∙ ap (λ x. (live ip st, x, wrote n)) here)
        r v (ground (arith, a))
        (Rewrites-refl size bmapstart (own size bmapstart inodestart inum) st.disk ip off
          (λ k. src (i + k)))

  -- A chunk and the rest.
  Ended-round :
      (ip ip1 : Inode) (st st1 : State) (off i m rest n : ℕ) (r : Fs × ℕ × WriteEnd)
      → off + (m + rest) ≤ 140 * 512
      → ip1.size ≡ grown_size ip.size (off + m)
      → Rewrites size bmapstart
          (own size bmapstart inodestart inum)
          st.disk
          ip
          st1.disk
          ip1
          off
          m
          (λ k. src (i + k))
      → Ended st1 ip1 (off + m) (i + m) rest n r
      → Ended st ip off i (m + rest) n r
  Ended-round ip ip1 st st1 off i m rest n r fits z w (dies e) = dies e
  Ended-round ip ip1 st st1 off i m rest n r fits z w (whole st2 ip2 e r2 v2 z2 w2) =
      let end : off + m + rest ≡ off + (m + rest) = omega arith in
      let both =
        Rewrites-append size bmapstart (own size bmapstart inodestart inum) w w2
          (λ k. ap src (omega arith)) fits in
      whole st2 ip2 (rw end at e) r2 v2 (ground (arith, z, z2)) both

  write_loop-Ended :
      (fuel : ℕ) (ip : Inode) (st : State) (off i m n : ℕ)
      → Ready size bmapstart (own size bmapstart inodestart inum) st.disk
      → IsValid size bmapstart (own size bmapstart inodestart inum) st.disk ip
      → ip.kind ≢ dev_kind
      → off ≤ ip.size
      → off + m ≤ 140 * 512
      → i + m ≡ n
      → m < fuel
      → Ended st ip off i m n (write_loop write_chunk fuel (live ip st) off i n)
  write_loop-Ended zero ip st off i m n r v file a b e f = absurd (omega (arith, f))
  write_loop-Ended (suc fuel) ip st off i m n r v file a b e f = elim (ℕ_discrete m 0) [
    | yes z ↦ rw z (Ended-done fuel ip st off i n r v (omega (arith, e, z)) a)
    | no ne ↦
        let c = chunk n i in
        let small : (c ≤ m) × (0 < c) = ground (arith, e, ne) in
        let total : c + (m - c) ≡ m = omega (arith, small.0) in
        elim (writei_lem size bmapstart inodestart inum device (λ k. src (i + k)) ip off c st r v
          file a (omega (arith, b, small.0))) [
            | no_block st1 q full ↦ dies (
                ap (λ (x : Fs × ℕ × WriteEnd). x.0)
                  (write_loop-dies fuel ip st st1 off i n (omega (arith, e, ne)) q))
            | saved st1 ip1 q r1 v1 z w _ ↦
                let step =
                  write_loop-round write_chunk fuel (live ip st) (live ip1 st1) off i c n
                    (omega (arith, e, ne)) refl (omega (arith, b, small.0))
                    (write_chunk-ok ip ip1 st st1 off i c (some c) q) in
                let rest =
                  write_loop-Ended fuel ip1 st1 (off + c) (i + c) (m - c) n r1 v1
                    (λ x. file (sym w.kind_kept ∙ x)) (ground (arith, z))
                    (omega (arith, b, small.0)) (omega (arith, e, small.0))
                    (omega (arith, f, small)) in
                rw (sym total, step)
                  (Ended-round ip ip1 st st1 off i c (m - c) n _ (omega (arith, b, total)) z w rest)
          ]
  ]

  -- filewrite of n bytes, through writei, to an open file of a valid inode that is no device, at an offset
  -- not beyond its size and within the largest file: where none of its calls panics and no other
  -- process comes between its chunks, it returns n and advances the offset by n; the file has the n
  -- bytes from the source at the old offset and its old bytes elsewhere, its size has grown to the new
  -- offset where that is beyond it, the inode stays valid, and no block of another file is changed.
  pub filewrite_whole :
      (pipewrite : ℕ → WriteEnd) (ip ip' : Inode) (st st' : State) (f f' : File) (n : ℕ)
      (end : WriteEnd)
      → Ready size bmapstart (own size bmapstart inodestart inum) st.disk
      → IsValid size bmapstart (own size bmapstart inodestart inum) st.disk ip
      → ip.kind ≢ dev_kind
      → f.writable ≡ true
      → f.kind ≡ fd_inode
      → f.off ≤ ip.size
      → f.off + n ≤ 140 * 512
      → filewrite pipewrite write_chunk (live ip st) f n ≡ some (live ip' st', f', end)
      → (end ≡ wrote n)
        × (f' ≡ record f { off = f.off + n })
        × (ip'.size ≡ grown_size ip.size (f.off + n))
        × IsValid size bmapstart (own size bmapstart inodestart inum) st'.disk ip'
        × Rewrites size bmapstart
            (own size bmapstart inodestart inum)
            st.disk
            ip
            st'.disk
            ip'
            f.off
            n
            src
  unfolding filewrite write_inode
  filewrite_whole pipewrite ip ip' st st' f f' n end r v file wr k a b e =
      let loop = write_loop write_chunk (suc n) (live ip st) f.off 0 n in
      let here : Option (Fs × File × WriteEnd) = some (loop.0, record f { off = loop.1 }, loop.2) in
      let there : Option (Fs × File × WriteEnd) = some (live ip' st', f', end) in
      let ends : here ≡ there = ground (arith, wr, k, e) in
      let live_loop : loop.0 ≡ live ip' st' = ground (arith, ends) in
      let f_loop : f' ≡ record f { off = loop.1 } = ground (arith, ends) in
      let end_loop : end ≡ loop.2 = ground (arith, ends) in
      elim (write_loop-Ended (suc n) ip st f.off 0 n n r v file a b (zero-add n) (omega arith)) [
        | dies q ↦ absurd (cc (q, live_loop))
        | whole st1 ip1 q r1 v1 z w ↦
            let same : live ip1 st1 ≡ live ip' st' = cc (q, live_loop) in
            let same_inode : ip' ≡ ip1 = cc (same) in
            let same_state : st' ≡ st1 = cc (same) in
            let from_start : (λ k. src (0 + k)) ≡ src = fun_ext (λ k. ap src (zero-add k)) in
            let off1 : loop.1 ≡ f.off + n = ap (λ (x : Fs × ℕ × WriteEnd). x.1) q in
            let end1 : loop.2 ≡ wrote n = ap (λ (x : Fs × ℕ × WriteEnd). x.2) q in
            (
              end_loop ∙ end1,
              f_loop ∙ ap (λ (x : ℕ). record f { off = x }) off1,
              rw (same_inode) z,
              rw (same_inode, same_state) v1,
              rw (same_inode, same_state) (rw from_start at w),
            )
      ]
