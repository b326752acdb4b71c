-- ===== src/Inode/Reserved.antt =====
-- writei of fs.c in a transaction: what it gives to log_write has room in the log.
use mathlib.Core.List.{append-nil, append_assoc}
use cs461_hw.Prelude.{
  ◌^◌, false, ◌&&◌, ◌||◌, Option, some, ltb, Bool-cases, zero, suc, ◌*◌, ◌%◌, dec_lt, ◌-◌, ◌/◌,
  refl, sym, ap, ◌∙◌, ◌≢◌, ◌⊎◌, inl, inr, List, [], ◌∷◌, ◌++◌, arith, ◌==◌, if◌then◌else◌, length,
  ℕ, ◌+◌, ◌≤◌, ◌<◌, ◌≡◌,
}
use cs461_hw.Log.Room.{Every, In, log_writes, log_writes-done}
use cs461_hw.Inode.{
  put_block, dev_kind, write_block, iupdate, writei, Disk, copy_into, Byte, write_loop, Inode,
  State, Result, ok, panic, put_words, dinode_words, ipb,
}
use cs461_hw.Inode.Slots.{slot, slot-entry, IsValid, Ready}
use cs461_hw.Inode.Map.{Mapped, mapped, bmap-Mapped}
use cs461_hw.Inode.Store.{IsValid-after, Ready-after}
use cs461_hw.Inode.Write.{after, round_bytes, write_loop_step, write_loop_panic, write_loop_end}
use cs461_hw.Log.{Log, done, logsize, maxopblocks}
use cs461_hw.Inode.Files.{own, Saved, writei_lem}
use cs461_hw.Inode.Logged.{logs, stops, OfBmap, KeepsTable, Every-map, Every-append, bmap-Logs}

-- The blocks that a range of m bytes from off on meets.
abbrev pub touched : ℕ → ℕ → ℕ
touched off m = if m == 0 then 0 else (off + m - 1) / 512 - off / 512 + 1

touched-round :
    (off m : ℕ)
    → m ≢ 0
    → touched (off + round_bytes off m) (m - round_bytes off m) + 1 ≡ touched off m
touched-round off m ne = ground (arith, ne)

-- A block that the loop of writei logs, where `xs` are blocks of the file.
abbrev OfLoop : ℕ → Inode → List ℕ → ℕ → Type 0
OfLoop bmapstart ip xs c = (c ≡ bmapstart) ⊎ (((c ≡ ip.addrs 12) × (c ≢ 0)) ⊎ In c xs)

module _ (size bmapstart iblk inodestart : ℕ) (one_block : size ≤ 4096) (src : ℕ → Byte) where
  data LoopLogs (st : State) (ip : Inode) (off m : ℕ) (r : Result (Inode × ℕ)) : Type 0 where
    loop_logs :
        (st' : State) (ip' : Inode) (end : ℕ) (ws xs : List ℕ)
        → r ≡ ok (ip', end) st'
        → st'.logged ≡ st.logged ++ ws
        → Every (OfLoop bmapstart ip' xs) ws
        → length xs ≤ touched off m
        → KeepsTable ip ip'
        → LoopLogs st ip off m r
    loop_stops : (st' : State) → r ≡ panic st' → LoopLogs st ip off m r

  -- The end of the loop.
  LoopLogs-end :
      (fuel : ℕ) (ip : Inode) (off tot n : ℕ) (st : State)
      → ¬ (tot < n)
      → LoopLogs st ip off (n - tot) (write_loop size bmapstart inodestart fuel src ip off tot n st)
  LoopLogs-end fuel ip off tot n st h =
      loop_logs st ip off [] []
        (write_loop_end size bmapstart iblk inodestart src fuel ip off tot n st h)
        (sym (append-nil st.logged)) tt (omega arith) (inr refl)

  -- A round before the rest.
  LoopLogs-round :
      (ip ip1 : Inode) (off tot n b : ℕ) (st st1 : State) (ws : List ℕ) (r : Result (Inode × ℕ))
      → tot < n
      → st1.logged ≡ st.logged ++ ws
      → Every (OfBmap bmapstart ip1 b (off / 512)) ws
      → KeepsTable ip ip1
      → (ip1.addrs 12 ≢ 0) ⊎ (off / 512 < 12)
      → LoopLogs
          (after size bmapstart iblk inodestart src st1 b off tot (round_bytes off (n - tot)))
          ip1
          (off + round_bytes off (n - tot))
          (n - (tot + round_bytes off (n - tot)))
          r
      → LoopLogs st ip off (n - tot) r
  unfolding after
  LoopLogs-round ip ip1 off tot n b st st1 ws r l logged among keep table (loop_stops st2 e) =
      loop_stops st2 e
  LoopLogs-round ip ip1 off tot n b st st1 ws r l logged among keep table
        (loop_logs st2 ip2 end ws2 xs e logged2 among2 short keep2) =
      let m = n - tot in
      let count = touched-round off m (omega (arith, l)) in
      let rest : n - (tot + round_bytes off m) ≡ m - round_bytes off m = omega (arith, l) in
      let short2 = rw rest at short in
      loop_logs st2 ip2 end (ws ++ (b ∷ ws2)) (b ∷ xs) e
        (logged2
          ∙ ap (λ (ys : List ℕ). (ys ++ (b ∷ [])) ++ ws2) logged
          ∙ ap (λ (ys : List ℕ). ys ++ ws2) (append_assoc st.logged ws (b ∷ []))
          ∙ append_assoc st.logged (ws ++ (b ∷ [])) ws2
          ∙ ap (λ (ys : List ℕ). st.logged ++ ys) (append_assoc ws (b ∷ []) ws2))
        (Every-append (OfLoop bmapstart ip2 (b ∷ xs)) ws (b ∷ ws2)
          (Every-map (OfBmap bmapstart ip1 b (off / 512)) (OfLoop bmapstart ip2 (b ∷ xs)) ws
            (λ c x. elim x [
              | inl y ↦ inl y
              | inr (inl y) ↦ inr (inr (inl y))
              | inr (inr y) ↦ elim table [
                | inr low ↦ absurd (omega (arith, y.1, low))
                | inl ne ↦ elim keep2 [
                  | inl z ↦ absurd (ne z)
                  | inr q ↦ inr (inl (y.0 ∙ sym q, λ z. ne (sym y.0 ∙ z)))
                ]
              ]
            ])
            among)
          (
            inr (inr (inl refl)),
            Every-map (OfLoop bmapstart ip2 xs) (OfLoop bmapstart ip2 (b ∷ xs)) ws2
                (λ c x. elim x [
                  | inl y ↦ inl y
                  | inr (inl y) ↦ inr (inl y)
                  | inr (inr y) ↦ inr (inr (inr y))
                ])
                among2,
          ))
        (omega (arith, short2, count))
        (elim keep [
          | inl z ↦ inl z
          | inr q ↦ elim keep2 [ inl z ↦ inl (sym q ∙ z) | inr q2 ↦ inr (q2 ∙ q) ]
        ])

  -- A slot that is there beyond the direct ones has an indirect block.
  has_table :
      (d : Disk) (ip : Inode) (k : ℕ) → k < 140 → slot d ip k ≢ 0 → (ip.addrs 12 ≢ 0) ⊎ (k < 12)
  has_table d ip k h ne = elim (dec_lt k 12) [
    | yes low ↦ inr low
    | no high ↦
        let index : 12 + (k - 12) ≡ k = omega (arith, high) in
        let s = slot-entry d ip (k - 12) (omega (arith, h, high)) in
        inl (λ z. ne (sym (ap (slot d ip) index) ∙ s ∙ ground (arith, z)))
  ]

  write_loop-LoopLogs :
      (fuel : ℕ) (ip : Inode) (off tot n : ℕ) (st : State)
      → Ready size bmapstart iblk st.disk
      → IsValid size bmapstart iblk st.disk ip
      → n - tot ≤ fuel
      → off + (n - tot) ≤ 140 * 512
      → LoopLogs st ip off (n - tot) (write_loop size bmapstart inodestart fuel src ip off tot n st)
  unfolding after
  write_loop-LoopLogs zero ip off tot n st r v f fits =
      LoopLogs-end zero ip off tot n st (omega (arith, f))
  write_loop-LoopLogs (suc fuel) ip off tot n st r v f fits = elim (dec_lt tot n) [
    | no h ↦ LoopLogs-end (suc fuel) ip off tot n st h
    | yes l ↦
        let m = round_bytes off (n - tot) in
        let index : off / 512 < 140 = omega (arith, fits, l) in
        let stopped = write_loop_panic size bmapstart iblk inodestart src fuel ip off tot n in
        elim (bmap-Mapped size bmapstart iblk inodestart st ip (off / 512) r v index) [
          | Mapped.disk_full st1 e full ↦ loop_stops st1 (stopped st st1 l e)
          | mapped st1 ip1 a e r1 v1 keeps has ne ↦
              let b = slot st1.disk ip1 (off / 512) in
              let full : b ≢ 0 = λ z. ne (sym has ∙ z) in
              let e' = rw (sym has) at e in
              let block = copy_into (st1.disk b) (off % 512) m (λ i. src (tot + i)) in
              let st2 = after size bmapstart iblk inodestart src st1 b off tot m in
              elim (bmap-Logs size bmapstart inodestart one_block st ip (off / 512) index) [
                | stops st3 e3 ↦ loop_stops st3 (stopped st st3 l e3)
                | logs st3 ip3 a3 ws e3 logged among keep ↦
                    let same_state : st3 ≡ st1 = cc (e3, e') in
                    let same_inode : ip3 ≡ ip1 = cc (e3, e') in
                    let same_block : a3 ≡ b = cc (e3, e') in
                    let among1 = rw (same_inode, same_block) at among in
                    let keep1 = rw same_inode at keep in
                    let logged1 = rw same_state at logged in
                    rw
                      (write_loop_step size bmapstart iblk inodestart src fuel ip ip1 off tot n b st
                        st1 l e')
                      (LoopLogs-round ip ip1 off tot n b st st1 ws _ l logged1 among1 keep1
                        (has_table st1.disk ip1 (off / 512) index full)
                        (write_loop-LoopLogs fuel ip1 (off + m) (tot + m) n st2
                          (Ready-after size bmapstart iblk v1 (off / 512) index full block r1)
                          (IsValid-after size bmapstart iblk v1 (off / 512) index full block)
                          (omega (arith, f, l)) (omega (arith, fits, l))))
              ]
        ]
  ]

-- What writei gives to log_write finds room in the transaction of the log `lg`.
pub data HasRoom (lg : Log) (st : State) (r : Result (Inode × Option ℕ)) : Type 0 where
  has_room :
      (st' : State) (out : Inode × Option ℕ) (ws : List ℕ) (lg' : Log)
      → r ≡ ok out st'
      → st'.logged ≡ st.logged ++ ws
      → log_writes lg ws ≡ done lg'
      → HasRoom lg st r
  never_returns : (st' : State) → r ≡ panic st' → HasRoom lg st r

-- The blocks of a call: the inode's, the bitmap's, the indirect one, and those of the file.
OfLoop-In :
    (bmapstart first : ℕ) (ip : Inode) (xs : List ℕ) (c : ℕ)
    → OfLoop bmapstart ip xs c
    → In c (first ∷ bmapstart ∷ ip.addrs 12 ∷ xs)
OfLoop-In bmapstart first ip xs c (inl y) = inr (inl y)
OfLoop-In bmapstart first ip xs c (inr (inl y)) = inr (inr (inl y.0))
OfLoop-In bmapstart first ip xs c (inr (inr y)) = inr (inr (inr y))

touched-three : (off m : ℕ) → m ≤ 1536 → touched off m ≤ 4
touched-three off m h = ground (arith, h)

module _ (size bmapstart inodestart inum : ℕ) where
  writei-HasRoom :
      (device : ℕ → Option (ℕ → ℕ → Option ℕ)) (src : ℕ → Byte) (ip : Inode) (off n : ℕ)
      (st : State) (lg : Log)
      → Ready size bmapstart (own size bmapstart inodestart inum) st.disk
      → IsValid size bmapstart (own size bmapstart inodestart inum) st.disk ip
      → ip.kind ≢ dev_kind
      → off ≤ ip.size
      → off + n ≤ 140 * 512
      → n ≤ 1536
      → size ≤ 4096
      → logsize < lg.size
      → 0 < lg.outstanding
      → length lg.block + maxopblocks ≤ logsize
      → HasRoom lg st (writei size bmapstart inodestart device inum src ip off n st)
  unfolding writei iupdate write_block
  writei-HasRoom device src ip off n st lg r v file a b few one_block large running room =
      let kind : (ip.kind == dev_kind) ≡ false = ground (arith, file) in
      let sum : (off + n) % 2 ^ 32 ≡ off + n = omega (arith, b) in
      let within : (ltb ip.size off || ltb (off + n) off) ≡ false = ground (arith, a) in
      let fits : ltb (140 * 512) (off + n) ≡ false = ground (arith, b) in
      let i = own size bmapstart inodestart inum in
      elim (write_loop-LoopLogs size bmapstart i inodestart one_block src n ip off 0 n st r v
        (omega arith) (omega (arith, b))) [
          | loop_stops st1 e ↦ never_returns st1 (rw (kind, sum, within, fits, e) refl)
          | loop_logs st1 ip1 end ws xs e logged among short keep ↦
              let all = i ∷ bmapstart ∷ ip1.addrs 12 ∷ xs in
              let among1 =
                Every-map (OfLoop bmapstart ip1 xs) (λ c. In c all) ws
                  (λ c y. OfLoop-In bmapstart i ip1 xs c y) among in
              let enough = touched-three off (n - 0) (omega (arith, few)) in
              let total : length lg.block + length all < logsize =
                omega (arith, room, short, enough) in
              elim (Bool-cases (ltb 0 n && ltb ip1.size end)) [
                | inr test ↦
                    let (lg', q) = log_writes-done ws all lg large running total among1 in
                    has_room st1 (ip1, some n) ws lg' (rw (kind, sum, within, fits, e, test) refl)
                      logged q
                | inl test ↦
                    let ip2 = record ip1 { size = end } in
                    let block = put_words (st1.disk i) (16 * (inum % ipb)) (dinode_words ip2) in
                    let st2 : State = record {
                      disk = put_block st1.disk i block;
                      logged = st1.logged ++ (i ∷ []);
                    } in
                    let (lg', q) =
                      log_writes-done (ws ++ (i ∷ [])) all lg large running total
                        (Every-append (λ c. In c all) ws (i ∷ []) among1 (inl refl, tt)) in
                    has_room st2 (ip2, some n) (ws ++ (i ∷ [])) lg'
                      (rw (kind, sum, within, fits, e, test) refl)
                      (ap (λ (ys : List ℕ). ys ++ (i ∷ [])) logged
                        ∙ append_assoc st.logged ws (i ∷ []))
                      q
              ]
        ]

  -- writei of at most 1536 bytes, three blocks, to a valid inode that is no device, at an offset that is
  -- not beyond its size, within the largest file, on a disk with one bitmap block, in a transaction
  -- with room for MAXOPBLOCKS blocks in a log of more than LOGSIZE, ends: it panics only if all
  -- blocks of the disk are in use. Otherwise it returns n, and none of its calls of log_write, in
  -- their order, panics. The file has the bytes of the source in the range and its old bytes
  -- elsewhere; its size has grown to the end of the range where that is beyond it, and if so the
  -- inode on the disk has the new size and the addresses; all blocks of the range are there, the
  -- inode stays valid, and no block of another file is changed or taken.
  pub writei-Saved :
      (device : ℕ → Option (ℕ → ℕ → Option ℕ)) (src : ℕ → Byte) (ip : Inode) (off n : ℕ)
      (st : State) (lg : Log)
      → Ready size bmapstart (own size bmapstart inodestart inum) st.disk
      → IsValid size bmapstart (own size bmapstart inodestart inum) st.disk ip
      → ip.kind ≢ dev_kind
      → off ≤ ip.size
      → off + n ≤ 140 * 512
      → n ≤ 1536
      → size ≤ 4096
      → logsize < lg.size
      → 0 < lg.outstanding
      → length lg.block + maxopblocks ≤ logsize
      → Saved size bmapstart inodestart inum st ip off n src
          (writei size bmapstart inodestart device inum src ip off n st)
        × HasRoom lg st (writei size bmapstart inodestart device inum src ip off n st)
  writei-Saved device src ip off n st lg r v file a b few one_block large running room = (
    writei_lem size bmapstart inodestart inum device src ip off n st r v file a b,
    writei-HasRoom device src ip off n st lg r v file a b few one_block large running room,
  )
