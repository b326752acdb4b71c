-- ===== src/Inode/Files.antt =====
-- readi and writei of fs.c as operations on the bytes of a file.
use cs461_hw.Inode.Store.{byte_at}
use cs461_hw.Inode.Read.{readi-bytes, bytes-congr}
use native.Mathlib.Nat.{zero-add}
use mathlib.Core.Path.{fun_ext}
use cs461_hw.Prelude.{
  inl, inr, ℕ_discrete, min, leb, sym, ◌∙◌, List, ap, ◌&&◌, [], ◌∷◌, ◌++◌, true, dec_lt, lt→ltb, ℕ,
  ◌+◌, ◌-◌, ◌*◌, ◌%◌, ◌^◌, ◌≤◌, ◌<◌, ◌≡◌, refl, ◌≢◌, ◌⊎◌, false, ◌||◌, Option, none, some, arith,
  ltb, ◌==◌, if◌then◌else◌,
}
use cs461_hw.Inode.{
  Disk, bytes, readi, Byte, Inode, State, Result, writei, iupdate, write_block, iblock, put_block,
  dev_kind, dinode_words, put_words, ipb, ok, panic,
}
use cs461_hw.Inode.Stored.{OnDisk, put_dinode-OnDisk}
use cs461_hw.Inode.Slots.{slot, slot-direct, slot-table, Ready-put_block, IsValid, Ready}
use cs461_hw.Inode.Grow.{IsFull}
use cs461_hw.Inode.Rewrites.{Rewrites}
use cs461_hw.Inode.Save.{saved-Rewrites, saved-IsValid}
use cs461_hw.Inode.Write.{written, disk_full, write_loop-Written}

-- The size of a file after a write.
abbrev pub grown_size : ℕ → ℕ → ℕ
grown_size size end = if ltb size end then end else size

module _ (size bmapstart inodestart : ℕ) where
  -- writei to a file, with an offset and a length below 2^32, returns -1 and changes nothing if the offset
  -- is beyond the end of the file or the range ends beyond the largest file, even where the sum of the
  -- two wraps round.
  pub writei_refused :
      (device : ℕ → Option (ℕ → ℕ → Option ℕ)) (inum : ℕ) (src : ℕ → Byte) (ip : Inode) (off n : ℕ)
      (st : State)
      → ip.kind ≢ dev_kind
      → off < 2 ^ 32
      → n < 2 ^ 32
      → (ip.size < off) ⊎ (140 * 512 < off + n)
      → writei size bmapstart inodestart device inum src ip off n st ≡ ok (ip, none) st
  unfolding writei
  writei_refused device inum src ip off n st file a b bad =
      let kind : (ip.kind == dev_kind) ≡ false = ground (arith, file) in
      let wrap = (off + n) % 2 ^ 32 in
      elim (dec_lt ip.size off) [
        | yes l ↦ rw (kind, lt→ltb ip.size off l) refl
        | no nl ↦ elim (dec_lt wrap off) [
          | yes l ↦
              let test : (ltb ip.size off || ltb wrap off) ≡ true = ground (arith, l) in
              rw (kind, test) refl
          | no nw ↦
              let test : (ltb ip.size off || ltb wrap off) ≡ false = ground (arith, nw, nl) in
              let large : ltb (140 * 512) wrap ≡ true =
                lt→ltb (140 * 512) wrap (omega (arith, a, b, bad, nl, nw)) in
              rw (kind, test, large) refl
        ]
      ]

module _ (size bmapstart inodestart inum : ℕ) where
  abbrev pub own : ℕ
  own = iblock size bmapstart inodestart inum

  -- What writei of `n` bytes does to a file.
  pub data Saved (st : State) (ip : Inode) (off n : ℕ) (src : ℕ → Byte)
      (r : Result (Inode × Option ℕ)) : Type 0 where
    saved :
        (st' : State) (ip' : Inode)
        → r ≡ ok (ip', some n) st'
        → Ready size bmapstart own st'.disk
        → IsValid size bmapstart own st'.disk ip'
        → ip'.size ≡ grown_size ip.size (off + n)
        → Rewrites size bmapstart own st.disk ip st'.disk ip' off n src
        → (ip'.size ≡ ip.size) ⊎ OnDisk size bmapstart inodestart st'.disk inum ip'
        → Saved st ip off n src r
    no_block :
        (st' : State) → r ≡ panic st' → IsFull size bmapstart own st'.disk → Saved st ip off n src r

  saved_addrs :
      {d : Disk} {ip : Inode}
      → Ready size bmapstart own d
      → IsValid size bmapstart own d ip
      → (l : ℕ) → l < 13
      → ip.addrs l < 2 ^ 32
  saved_addrs {d} {ip} r v l h = elim (ℕ_discrete (ip.addrs l) 0) [
    | yes z ↦ omega (arith, z)
    | no ne ↦ elim (dec_lt l 12) [
      | yes low ↦
          let s = slot-direct d ip l low in
          let g = (v.good l (omega (arith, h)) (λ z. ne (sym s ∙ z))).in_range in
          omega (arith, s, g, r.fits)
      | no high ↦
          let q : l ≡ 12 = omega (arith, h, high) in
          let s : slot d ip 140 ≡ ip.addrs l = slot-table d ip ∙ ap ip.addrs (sym q) in
          let g = (v.good 140 (omega arith) (λ z. ne (sym s ∙ z))).in_range in
          omega (arith, s, g, r.fits)
    ]
  ]

  -- writei of any number of bytes, as far as the blocks go; whether the log has room for them is not
  -- in it.
  pub writei_lem :
      (device : ℕ → Option (ℕ → ℕ → Option ℕ)) (src : ℕ → Byte) (ip : Inode) (off n : ℕ)
      (st : State)
      → Ready size bmapstart own st.disk
      → IsValid size bmapstart own st.disk ip
      → ip.kind ≢ dev_kind
      → off ≤ ip.size
      → off + n ≤ 140 * 512
      → Saved st ip off n src (writei size bmapstart inodestart device inum src ip off n st)
  unfolding writei iupdate write_block
  writei_lem device src ip off n st r v file a b =
      let kind : (ip.kind == dev_kind) ≡ false = ground (arith, file) in
      let sum : (off + n) % 2 ^ 32 ≡ off + n = omega (arith, b) in
      let within : (ltb ip.size off || ltb (off + n) off) ≡ false = ground (arith, a) in
      let fits : ltb (140 * 512) (off + n) ≡ false = ground (arith, b) in
      let all : n - 0 ≡ n = omega arith in
      elim (write_loop-Written size bmapstart own inodestart src n ip off 0 n st r v (omega arith)
        (omega (arith, b))) [
          | disk_full st1 e full ↦ no_block st1 (rw (kind, sum, within, fits, e) refl) full
          | written st1 ip1 e r1 v1 z w ↦
              let from_start : (λ i. src (0 + i)) ≡ src = fun_ext (λ i. ap src (zero-add i)) in
              let w1 = rw (all, from_start) at w in
              let e1 = rw all at e in
              elim (dec_lt ip.size (off + n)) [
                | no l ↦
                    let test : (ltb 0 n && ltb ip1.size (off + n)) ≡ false = ground (arith, l, z) in
                    saved st1 ip1 (rw (kind, sum, within, fits, e1, test) refl) r1 v1
                      (ground (arith, l, z)) w1 (inl z)
                | yes l ↦
                    let test : (ltb 0 n && ltb ip1.size (off + n)) ≡ true =
                      ground (arith, l, z, a) in
                    let ip2 = record ip1 { size = off + n } in
                    let block = put_words (st1.disk own) (16 * (inum % ipb)) (dinode_words ip2) in
                    let st2 : State = record {
                      disk = put_block st1.disk own block;
                      logged = st1.logged ++ (own ∷ []);
                    } in
                    saved st2 ip2 (rw (kind, sum, within, fits, e1, test) refl)
                      (Ready-put_block size bmapstart own st1.disk own block r1.inode_apart r1)
                      (saved-IsValid size bmapstart own r1 v1 block (off + n)) (ground (arith, l))
                      (saved-Rewrites size bmapstart own r1 v1 block (off + n) b w1)
                      (inr (
                        put_dinode-OnDisk size bmapstart inodestart st1.disk inum ip2
                          (omega (arith, b)) (saved_addrs r1 v1)))
              ]
        ]

  -- Where writei to a valid inode has returned n, readi of n bytes at the same offset returns the bytes
  -- that were written, and changes nothing.
  pub readi-writei :
      (reads : ℕ → Option (ℕ → ℕ → Option (List Byte))) (device : ℕ → Option (ℕ → ℕ → Option ℕ))
      (src : ℕ → Byte) (ip ip' : Inode) (off n : ℕ) (st st' : State)
      → Ready size bmapstart own st.disk
      → IsValid size bmapstart own st.disk ip
      → ip.kind ≢ dev_kind
      → off ≤ ip.size
      → off + n ≤ 140 * 512
      → ip.size ≤ 140 * 512
      → writei size bmapstart inodestart device inum src ip off n st ≡ ok (ip', some n) st'
      → readi size bmapstart inodestart reads ip' off n st' ≡ ok (ip', some (bytes src 0 n)) st'
  readi-writei reads device src ip ip' off n st st' r v file a b c e =
      elim (writei_lem device src ip off n st r v file a b) [
        | no_block st1 q full ↦ absurd (cc (q, e))
        | saved st1 ip1 q r1 v1 z w _ ↦
            let same_inode : ip' ≡ ip1 = cc (q, e) in
            let same_state : st' ≡ st1 = cc (q, e) in
            let kind : ip1.kind ≢ dev_kind = λ x. file (sym w.kind_kept ∙ x) in
            let all : min n (ip1.size - off) ≡ n = ground (arith, z, a) in
            let got = bytes-congr (byte_at st1.disk ip1) src off 0 n (λ t l.
              let hit : (leb off (off + t) && ltb (off + t) (off + n)) ≡ true = ground (arith, l) in
              let index : off + t - off ≡ 0 + t = omega arith in
              w.bytes (off + t) (omega (arith, b, l))
              ∙ ap (λ x. if x then src (off + t - off) else byte_at st.disk ip (off + t)) hit
              ∙ ap src index) in
            let read =
              readi-bytes size bmapstart inodestart st1 ip1 reads off n kind (ground (arith, z, a))
                (omega (arith, b)) (ground (arith, z, b, c)) (λ o x y low. w.present o x y) in
            rw (same_inode, same_state)
              (read
                ∙ ap (λ bs. ok (ip1, some bs) st1)
                    (ap (bytes (byte_at st1.disk ip1) off) all ∙ got))
      ]
