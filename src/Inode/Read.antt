-- ===== src/Inode/Read.antt =====
-- readi of fs.c, and bmap where the file has the block.
use cs461_hw.Inode.Write.{round_bytes}
use cs461_hw.Inode.Store.{byte_at}
use native.Mathlib.Nat.{zero-add, add-zero}
use cs461_hw.Prelude.{
  length, get_or, ◌*◌, ◌/◌, ◌%◌, ◌^◌, ◌≤◌, min, ◌||◌, Option, some, List, ◌==◌, if◌then◌else◌, sym,
  ap, ℕ, zero, suc, ◌+◌, ◌-◌, ◌<◌, ◌≡◌, refl, ◌∙◌, ◌≢◌, true, false, ◌++◌, arith, dec_lt, ltb,
  lt→ltb,
}
use cs461_hw.Inode.{
  Disk, dev_kind, read_loop, readi, ok, word_at, Byte, Inode, State, bmap, bmap_direct, bmap_entry,
  bmap_table, bytes,
}
use cs461_hw.Inode.Slots.{block_of, slot, slot-direct, slot-entry}

module _ (size bmapstart inodestart : ℕ) where
  bmap_direct_present :
      (st : State) (ip : Inode) (k : ℕ)
      → ip.addrs k ≢ 0
      → bmap_direct size bmapstart inodestart ip k st ≡ ok (ip, ip.addrs k) st
  unfolding bmap_direct
  bmap_direct_present st ip k ne = ground (arith, ne)

  bmap_entry_present :
      (st : State) (table j : ℕ)
      → word_at (st.disk table) j ≢ 0
      → bmap_entry size bmapstart inodestart table j st ≡ ok (word_at (st.disk table) j) st
  unfolding bmap_entry
  bmap_entry_present st table j ne = ground (arith, ne)

  -- Where the file has a block, bmap gives its address and changes nothing.
  pub bmap_present :
      (st : State) (ip : Inode) (k : ℕ)
      → k < 140
      → slot st.disk ip k ≢ 0
      → bmap size bmapstart inodestart ip k st ≡ ok (ip, slot st.disk ip k) st
  unfolding bmap bmap_table
  bmap_present st ip k h ne = elim (dec_lt k 12) [
    | yes low ↦
        let s = slot-direct st.disk ip k low in
        rw (lt→ltb k 12 low, s) (bmap_direct_present st ip k (λ z. ne (s ∙ z)))
    | no high ↦
        let j = k - 12 in
        let index : 12 + j ≡ k = omega (arith, high) in
        let first : ltb k 12 ≡ false = ground (arith, high) in
        let within : ltb j 128 ≡ true = ground (arith, h, high) in
        let s = rw index at (slot-entry st.disk ip j (omega (arith, h, high))) in
        let table : ip.addrs 12 ≢ 0 = λ z. ne (s ∙ ground (arith, z)) in
        let t = s ∙ ground (arith, table) in
        rw (first, within, bmap_direct_present st ip 12 table)
          (rw (bmap_entry_present st (ip.addrs 12) j (λ z. ne (t ∙ z)), t) refl)
  ]

pub bytes-congr :
    (f g : ℕ → Byte) (i j n : ℕ)
    → ((t : ℕ) → t < n → f (i + t) ≡ g (j + t))
    → bytes f i n ≡ bytes g j n
unfolding bytes
bytes-congr f g i j zero h = refl
bytes-congr f g i j (suc n) h =
    let first : f i ≡ g j = rw (add-zero i, add-zero j) at (h 0 (omega arith)) in
    let shift : (k t : ℕ) → k + 1 + t ≡ k + suc t = λ k t. omega arith in
    let rest =
      bytes-congr f g (i + 1) (j + 1) n
        (λ t l. ap f (shift i t) ∙ h (suc t) (omega (arith, l)) ∙ sym (ap g (shift j t))) in
    rw (first, rest) refl

pub length-bytes : (f : ℕ → Byte) (at n : ℕ) → length (bytes f at n) ≡ n
unfolding bytes
length-bytes f at zero = refl
length-bytes f at (suc n) = rw (length-bytes f (at + 1) n) refl

pub get_or-bytes :
    (f : ℕ → Byte) (at n i : ℕ) → i < n → get_or (bytes f at n) i (λ j. false) ≡ f (at + i)
unfolding bytes
get_or-bytes f at zero i h = absurd (omega (arith, h))
get_or-bytes f at (suc n) zero h = ap f (omega arith)
get_or-bytes f at (suc n) (suc i) h =
    get_or-bytes f (at + 1) n i (omega (arith, h)) ∙ ap f (omega arith)

bytes-append : (f : ℕ → Byte) (i m n : ℕ) → bytes f i m ++ bytes f (i + m) n ≡ bytes f i (m + n)
unfolding bytes
bytes-append f i zero n = ap (λ k. bytes f k n) (add-zero i) ∙ ap (bytes f i) (sym (zero-add n))
bytes-append f i (suc m) n =
    let shift : i + suc m ≡ i + 1 + m = omega arith in
    let count : suc m + n ≡ suc (m + n) = omega arith in
    rw (shift, count, ← bytes-append f (i + 1) m n) refl

-- The bytes of a round, from its block.
bytes_chunk :
    (d : Disk) (ip : Inode) (off m : ℕ)
    → slot d ip (off / 512) ≢ 0
    → m ≤ 512 - off % 512
    → bytes (d (slot d ip (off / 512))) (off % 512) m ≡ bytes (byte_at d ip) off m
unfolding byte_at
bytes_chunk d ip off m full h =
    let present : block_of d ip (off / 512) ≡ d (slot d ip (off / 512)) = ground (arith, full) in
    bytes-congr (d (slot d ip (off / 512))) (byte_at d ip) (off % 512) off m (λ t l.
      let page : (off + t) / 512 ≡ off / 512 = omega (arith, h, l) in
      let place : (off + t) % 512 ≡ off % 512 + t = omega (arith, h, l) in
      rw (page, place) (sym (ap (λ b. b (off % 512 + t)) present)))

module _ (size bmapstart inodestart : ℕ) (st : State) (ip : Inode) where
  -- The loop, where the file has the blocks of the range.
  pub read_loop-bytes :
      (fuel off tot n : ℕ)
      → n - tot ≤ fuel
      → off + (n - tot) ≤ 140 * 512
      → ((o : ℕ) → off ≤ o → o < off + (n - tot) → slot st.disk ip (o / 512) ≢ 0)
      → read_loop size bmapstart inodestart fuel ip off tot n st
        ≡ ok (ip, bytes (byte_at st.disk ip) off (n - tot)) st
  unfolding read_loop bytes
  read_loop-bytes zero off tot n f fits present =
      let nothing : n - tot ≡ 0 = omega (arith, f) in rw nothing (ground (arith, f))
  read_loop-bytes (suc fuel) off tot n f fits present = elim (dec_lt tot n) [
    | no h ↦ let nothing : n - tot ≡ 0 = omega (arith, h) in rw nothing (ground (arith, h))
    | yes l ↦
        let m = round_bytes off (n - tot) in
        let total : m + (n - (tot + m)) ≡ n - tot = omega (arith, l) in
        let full = present off (omega arith) (omega (arith, l)) in
        let rest =
          read_loop-bytes fuel (off + m) (tot + m) n (omega (arith, f, l)) (omega (arith, fits, l))
            (λ o a b. present o (omega (arith, a)) (omega (arith, b, l))) in
        let here = bytes_chunk st.disk ip off m full (omega arith) in
        let all =
          bytes-append (byte_at st.disk ip) off m (n - (tot + m))
          ∙ ap (bytes (byte_at st.disk ip) off) total in
        let mapped =
          bmap_present size bmapstart inodestart st ip (off / 512) (omega (arith, fits, l)) full in
        rw (lt→ltb tot n l, mapped) (rw (rest, here, all) refl)
  ]

  -- readi of a file that has the blocks of the range, at an offset not beyond its size, where the range
  -- does not wrap and the size is not beyond the largest file: it returns the bytes of the file from the
  -- offset on, as many as asked for or as there are, and changes nothing.
  pub readi-bytes :
      (device : ℕ → Option (ℕ → ℕ → Option (List Byte))) (off n : ℕ)
      → ip.kind ≢ dev_kind
      → off ≤ ip.size
      → off + n < 2 ^ 32
      → ip.size ≤ 140 * 512
      → ((o : ℕ) → off ≤ o → o < off + n → o < ip.size → slot st.disk ip (o / 512) ≢ 0)
      → readi size bmapstart inodestart device ip off n st
        ≡ ok (ip, some (bytes (byte_at st.disk ip) off (min n (ip.size - off)))) st
  unfolding readi
  readi-bytes device off n file a b c present =
      let count : (if ltb ip.size (off + n) then ip.size - off else n) ≡ min n (ip.size - off) =
        ground (arith, a) in
      let k = min n (ip.size - off) in
      let sum : (off + n) % 2 ^ 32 ≡ off + n = omega (arith, b) in
      let within : (ltb ip.size off || ltb (off + n) off) ≡ false = ground (arith, a) in
      let kind : (ip.kind == dev_kind) ≡ false = ground (arith, file) in
      let loop =
        read_loop-bytes k off 0 k (omega arith) (omega (arith, a, c))
          (λ o q r. present o q (omega (arith, r)) (omega (arith, r, a))) in
      let start : k - 0 ≡ k = omega arith in rw (kind, sum, within, count, loop, start) refl
