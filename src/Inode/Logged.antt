-- ===== src/Inode/Logged.antt =====
-- The blocks that writei of fs.c gives to log_write.
use mathlib.Core.List.{append-nil, append_assoc}
use cs461_hw.Prelude.{
  ◌-◌, refl, sym, ap, ◌∙◌, ◌⊎◌, inl, inr, true, false, List, [], ◌∷◌, ◌++◌, arith, dec_lt,
  ℕ_discrete, ltb, lt→ltb, ℕ, ◌≤◌, ◌<◌, ◌≡◌,
}
use cs461_hw.Fs.Bitmap.{balloc_cases}
use cs461_hw.Fs.{bblock}
use cs461_hw.Log.Room.{Every}
use cs461_hw.Inode.{
  put_word, put_block, word_at, bind, put_addr, write_block, balloc_block, bmap, bmap_direct,
  bmap_entry, bmap_table, Inode, State, Result, ok, panic,
}

-- A block that bmap logs for index k: a bitmap block, the block itself, or the indirect block.
abbrev pub OfBmap : ℕ → Inode → ℕ → ℕ → ℕ → Type 0
OfBmap bmapstart ip a k c = (c ≡ bmapstart) ⊎ ((c ≡ a) ⊎ ((c ≡ ip.addrs 12) × (12 ≤ k)))

-- An indirect block that is there is kept.
abbrev pub KeepsTable : Inode → Inode → Type 0
KeepsTable ip ip' = (ip.addrs 12 ≡ 0) ⊎ (ip'.addrs 12 ≡ ip.addrs 12)

pub Every-map : (P Q : ℕ → Type 0) (cs : List ℕ) → ((c : ℕ) → P c → Q c) → Every P cs → Every Q cs
Every-map P Q [] f h = tt
Every-map P Q (c ∷ cs) f h = (f c h.0, Every-map P Q cs f h.1)

pub Every-append : (P : ℕ → Type 0) (xs ys : List ℕ) → Every P xs → Every P ys → Every P (xs ++ ys)
Every-append P [] ys hx hy = hy
Every-append P (x ∷ xs) ys hx hy = (hx.0, Every-append P xs ys hx.1 hy)

module _ (size bmapstart inodestart : ℕ) (one_block : size ≤ 4096) where
  data Takes (st : State) (r : Result ℕ) : Type 0 where
    takes :
        (st' : State) (b : ℕ)
        → r ≡ ok b st'
        → st'.logged ≡ st.logged ++ (bmapstart ∷ b ∷ [])
        → Takes st r
    is_full : r ≡ panic st → Takes st r

  -- The bitmap is one block.
  balloc_block-Takes : (st : State) → Takes st (balloc_block size bmapstart inodestart st)
  unfolding balloc_block
  balloc_block-Takes st = elim (balloc_cases size bmapstart st.disk) [
    | inl q ↦ is_full (ground (arith, q))
    | inr (d, b, lt, q) ↦
        let e : bblock bmapstart b ≡ bmapstart = omega (arith, lt, one_block) in
        takes (record { disk = d; logged = st.logged ++ (bblock bmapstart b ∷ b ∷ []) }) b
          (ground (arith, q)) (ap (λ x. st.logged ++ (x ∷ b ∷ [])) e)
  ]

  -- What a part of bmap logs: `P` holds of each block, and `Q` of the result.
  pub data Logs (Q : Inode → ℕ → Type 0) (P : Inode → ℕ → ℕ → Type 0) (st : State)
      (r : Result (Inode × ℕ)) : Type 0 where
    logs :
        (st' : State) (ip' : Inode) (a : ℕ) (ws : List ℕ)
        → r ≡ ok (ip', a) st'
        → st'.logged ≡ st.logged ++ ws
        → Every (P ip' a) ws
        → Q ip' a
        → Logs Q P st r
    stops : (st' : State) → r ≡ panic st' → Logs Q P st r

  direct-Logs :
      (st : State) (ip : Inode) (k : ℕ)
      → k ≤ 12
      → Logs
          (λ ip' a. KeepsTable ip ip' × (ip'.addrs k ≡ a))
          (λ ip' a c. (c ≡ bmapstart) ⊎ (c ≡ a))
          st
          (bmap_direct size bmapstart inodestart ip k st)
  unfolding bmap_direct
  direct-Logs st ip k h = elim (ℕ_discrete (ip.addrs k) 0) [
    | no ne ↦
        logs st ip (ip.addrs k) [] (ground (arith, ne)) (sym (append-nil st.logged)) tt
          (inr refl, refl)
    | yes z ↦ elim (balloc_block-Takes st) [
      | is_full e ↦ stops st (ground (arith, z, e))
      | takes st' b e l ↦
          logs st' (record ip { addrs = put_addr ip.addrs k b }) b (bmapstart ∷ b ∷ [])
            (ground (arith, z, e)) l (inl refl, (inr refl, tt))
            (
              elim (ℕ_discrete k 12) [
                | yes q ↦ inl (ap ip.addrs (sym q) ∙ z)
                | no n ↦ inr (ground (arith, n))
              ],
              ground arith,
            )
    ]
  ]

  -- The entry of the indirect block.
  entry-Logs :
      (st : State) (ip : Inode) (j : ℕ)
      → Logs
          (λ ip' a. ip' ≡ ip)
          (λ ip' a c. (c ≡ bmapstart) ⊎ ((c ≡ a) ⊎ (c ≡ ip.addrs 12)))
          st
          (bind (bmap_entry size bmapstart inodestart (ip.addrs 12) j st) (λ a st'. ok (ip, a) st'))
  unfolding bmap_entry write_block
  entry-Logs st ip j = elim (ℕ_discrete (word_at (st.disk (ip.addrs 12)) j) 0) [
    | no ne ↦
        logs st ip (word_at (st.disk (ip.addrs 12)) j) [] (ground (arith, ne))
          (sym (append-nil st.logged)) tt refl
    | yes z ↦ elim (balloc_block-Takes st) [
      | is_full e ↦ stops st (ground (arith, z, e))
      | takes st' b e l ↦
          let t = ip.addrs 12 in
          logs
            (record {
              disk = put_block st'.disk t (put_word (st'.disk t) j b);
              logged = st'.logged ++ (t ∷ []);
            })
            ip b (bmapstart ∷ b ∷ t ∷ []) (ground (arith, z, e))
            (ap (λ xs. xs ++ (t ∷ [])) l ∙ append_assoc st.logged (bmapstart ∷ b ∷ []) (t ∷ []))
            (inl refl, (inr (inl refl), (inr (inr refl), tt))) refl
    ]
  ]

  pub bmap-Logs :
      (st : State) (ip : Inode) (k : ℕ)
      → k < 140
      → Logs
          (λ ip' a. KeepsTable ip ip')
          (λ ip' a c. OfBmap bmapstart ip' a k c)
          st
          (bmap size bmapstart inodestart ip k st)
  unfolding bmap bmap_table
  bmap-Logs st ip k h = elim (dec_lt k 12) [
    | yes low ↦ rw (lt→ltb k 12 low) (elim (direct-Logs st ip k (omega (arith, low))) [
      | stops st' e ↦ stops st' e
      | logs st1 ip1 a ws e l among (keep, q) ↦
          logs st1 ip1 a ws e l
            (Every-map _ (OfBmap bmapstart ip1 a k) ws
              (λ c x. elim x [ inl y ↦ inl y | inr y ↦ inr (inl y) ]) among)
            keep
    ])
    | no high ↦
        let j = k - 12 in
        let entry : ltb k 12 ≡ false = ground (arith, high) in
        let within : ltb j 128 ≡ true = ground (arith, h, high) in
        elim (direct-Logs st ip 12 (omega arith)) [
          | stops st' e ↦ stops st' (rw (entry, within, e) refl)
          | logs st1 ip1 t ws1 e1 l1 among1 (keep, q) ↦
              let step : bmap size bmapstart inodestart ip k st
                  ≡ bind (bmap_entry size bmapstart inodestart (ip1.addrs 12) j st1)
                      (λ a st'. ok (ip1, a) st') =
                rw (entry, within, e1)
                  (ap
                    (λ x.
                      bind (bmap_entry size bmapstart inodestart x j st1)
                        (λ a st'. ok (ip1, a) st'))
                    (sym q)) in
              elim (entry-Logs st1 ip1 j) [
                | stops st2 e2 ↦ stops st2 (step ∙ e2)
                | logs st2 ip2 a ws2 e2 l2 among2 same ↦
                    let table : ip1.addrs 12 ≡ ip2.addrs 12 =
                      ap (λ (x : Inode). x.addrs 12) (sym same) in
                    logs st2 ip2 a (ws1 ++ ws2) (step ∙ e2)
                      (l2 ∙ ap (λ xs. xs ++ ws2) l1 ∙ append_assoc st.logged ws1 ws2)
                      (Every-append (OfBmap bmapstart ip2 a k) ws1 ws2
                        (Every-map _ (OfBmap bmapstart ip2 a k) ws1
                          (λ c x. elim x [
                            | inl y ↦ inl y
                            | inr y ↦ inr (inr (y ∙ sym q ∙ table, omega (arith, high)))
                          ])
                          among1)
                        (Every-map _ (OfBmap bmapstart ip2 a k) ws2
                          (λ c x. elim x [
                            | inl y ↦ inl y
                            | inr (inl y) ↦ inr (inl y)
                            | inr (inr y) ↦ inr (inr (y ∙ table, omega (arith, high)))
                          ])
                          among2))
                      (elim keep [ inl z ↦ inl z | inr y ↦ inr (sym table ∙ y) ])
              ]
        ]
  ]
