-- ===== src/Bio/Get.antt =====
-- Which buffer bget of bio.c returns.
use cs461_hw.Prelude.{
  sym, ◌∙◌, ℕ_discrete, ap, ◌≢◌, ◌⊎◌, inl, inr, Bool-cases, ℕ, ◌≡◌, refl, true, false, Option, none,
  some, List, [], ◌∷◌, ◌++◌, arith,
}
use cs461_hw.Bio.{
  find_buf, Buf, bget_buf, find_cached, is_for, is_spare, recycle, recycled, retained,
}

abbrev pub NoneFor : ℕ → ℕ → List Buf → Type 0
NoneFor dev blockno [] = Unit {0}
NoneFor dev blockno (b ∷ bs) = (is_for dev blockno b ≡ false) × NoneFor dev blockno bs

abbrev pub NoneSpare : List Buf → Type 0
NoneSpare [] = Unit {0}
NoneSpare (b ∷ bs) = (is_spare b ≡ false) × NoneSpare bs

data Hit (dev blockno : ℕ) (bs : List Buf) (r : Option (ℕ × List Buf)) : Type 0 where
  hit :
      (before : List Buf) (b : Buf) (after : List Buf)
      → bs ≡ before ++ (b ∷ after)
      → is_for dev blockno b ≡ true
      → NoneFor dev blockno before
      → r ≡ some (b.id, before ++ (retained b ∷ after))
      → Hit dev blockno bs r
  miss : NoneFor dev blockno bs → r ≡ none → Hit dev blockno bs r

find_cached-Hit :
    (dev blockno : ℕ) (bs : List Buf) → Hit dev blockno bs (find_cached dev blockno bs)
unfolding find_cached
find_cached-Hit dev blockno [] = miss tt refl
find_cached-Hit dev blockno (b ∷ bs) = elim (Bool-cases (is_for dev blockno b)) [
  | inl e ↦ hit [] b bs refl e tt (rw e refl)
  | inr e ↦ elim (find_cached-Hit dev blockno bs) [
    | hit before c after q f n r ↦
        hit (b ∷ before) c after (ap (λ xs. b ∷ xs) q) f (e, n) (rw (e, r) refl)
    | miss n r ↦ miss (e, n) (rw (e, r) refl)
  ]
]

data Recycle (dev blockno : ℕ) (bs : List Buf) (r : Option (ℕ × List Buf)) : Type 0 where
  take :
      (before : List Buf) (b : Buf) (after : List Buf)
      → bs ≡ before ++ (b ∷ after)
      → is_spare b ≡ true
      → NoneSpare after
      → r ≡ some (b.id, before ++ (recycled dev blockno b ∷ after))
      → Recycle dev blockno bs r
  nothing : NoneSpare bs → r ≡ none → Recycle dev blockno bs r

recycle-Recycle :
    (dev blockno : ℕ) (bs : List Buf) → Recycle dev blockno bs (recycle dev blockno bs)
unfolding recycle
recycle-Recycle dev blockno [] = nothing tt refl
recycle-Recycle dev blockno (b ∷ bs) = elim (recycle-Recycle dev blockno bs) [
  | take before c after q f n r ↦ take (b ∷ before) c after (ap (λ xs. b ∷ xs) q) f n (rw r refl)
  | nothing n r ↦ elim (Bool-cases (is_spare b)) [
    | inl e ↦ take [] b bs refl e n (rw (r, e) refl)
    | inr e ↦ nothing (e, n) (rw (r, e) refl)
  ]
]

found_first :
    (dev blockno : ℕ) (bs : List Buf) {r : ℕ × List Buf}
    → find_cached dev blockno bs ≡ some r
    → bget_buf dev blockno bs ≡ some r
unfolding bget_buf
found_first dev blockno bs e = ground (arith, e)

found_second :
    (dev blockno : ℕ) (bs : List Buf) {r : Option (ℕ × List Buf)}
    → find_cached dev blockno bs ≡ none
    → recycle dev blockno bs ≡ r
    → bget_buf dev blockno bs ≡ r
unfolding bget_buf
found_second dev blockno bs e f = ground (arith, e, f)

-- What a bget of a block gives.
pub data Got (dev blockno : ℕ) (bs : List Buf) : Type 0 where
  cached :
      (before : List Buf) (b : Buf) (after : List Buf)
      → bs ≡ before ++ (b ∷ after)
      → is_for dev blockno b ≡ true
      → NoneFor dev blockno before
      → bget_buf dev blockno bs ≡ some (b.id, before ++ (retained b ∷ after))
      → Got dev blockno bs
  taken :
      (before : List Buf) (b : Buf) (after : List Buf)
      → bs ≡ before ++ (b ∷ after)
      → NoneFor dev blockno bs
      → is_spare b ≡ true
      → NoneSpare after
      → bget_buf dev blockno bs ≡ some (b.id, before ++ (recycled dev blockno b ∷ after))
      → Got dev blockno bs
  exhausted :
      NoneFor dev blockno bs → NoneSpare bs → bget_buf dev blockno bs ≡ none → Got dev blockno bs

-- bget returns the most recently used buffer for the block, with one reference more; if there is
-- none, the least recently used of the buffers that are neither referenced nor dirty, now for the
-- block and not valid; and it panics exactly if there is no such buffer either. No other buffer changes.
pub bget_buf-Got : (dev blockno : ℕ) (bs : List Buf) → Got dev blockno bs
bget_buf-Got dev blockno bs = elim (find_cached-Hit dev blockno bs) [
  | hit before b after q f n r ↦ cached before b after q f n (found_first dev blockno bs r)
  | miss n r ↦ elim (recycle-Recycle dev blockno bs) [
    | take before b after q f s t ↦ taken before b after q n f s (found_second dev blockno bs r t)
    | nothing s t ↦ exhausted n s (found_second dev blockno bs r t)
  ]
]

find_buf-put :
    (i : ℕ) (before : List Buf) (b c d : Buf) (after : List Buf)
    → c.id ≡ b.id
    → find_buf i (before ++ (b ∷ after)) ≡ some d
    → (find_buf i (before ++ (c ∷ after)) ≡ some d)
      ⊎ ((find_buf i (before ++ (c ∷ after)) ≡ some c) × (b ≡ d) × (b.id ≡ i))
find_buf-put i [] b c d after e f = elim (ℕ_discrete b.id i) [
  | yes y ↦ inr (ground (arith, y, e), ground (arith, y, f), y)
  | no n ↦ inl (ground (arith, n, e, f))
]
find_buf-put i (x ∷ before) b c d after e f = elim (ℕ_discrete x.id i) [
  | yes y ↦ inl (ground (arith, y, f))
  | no n ↦ elim (find_buf-put i before b c d after e (ground (arith, n, f))) [
    | inl g ↦ inl (ground (arith, n, g))
    | inr (g, q, y) ↦ inr (ground (arith, n, g), q, y)
  ]
]

some-pair :
    {i j : ℕ} {bs cs : List Buf}
    → Path (Option (ℕ × List Buf)) (some (i, bs)) (some (j, cs))
    → (i ≡ j) × (bs ≡ cs)
some-pair e = (cc, cc)

-- A buffer that somebody has a reference to stays as it is in any bget, whatever the block, but for
-- its count of references, which grows by one if it is the buffer that is returned.
pub bget_keeps_held :
    (dev blockno i j : ℕ) (bs bs' : List Buf) (b : Buf)
    → find_buf i bs ≡ some b
    → b.refcnt ≢ 0
    → bget_buf dev blockno bs ≡ some (j, bs')
    → (find_buf i bs' ≡ some b) ⊎ ((find_buf i bs' ≡ some (retained b)) × (j ≡ i))
bget_keeps_held dev blockno i j bs bs' b f ne g = elim (bget_buf-Got dev blockno bs) [
  | cached before c after q h n r ↦
      let (ji, result) = some-pair (sym g ∙ r) in
      elim (find_buf-put i before c (retained c) b after refl (rw (sym q) f)) [
        | inl same ↦ inl (rw result same)
        | inr (found, cb, ci) ↦ inr (rw (result, sym cb) found, ji ∙ ci)
      ]
  | taken before c after q n h s r ↦
      let (ji, result) = some-pair (sym g ∙ r) in
      elim (find_buf-put i before c (recycled dev blockno c) b after refl (rw (sym q) f)) [
        | inl same ↦ inl (rw result same)
        | inr (found, cb, ci) ↦ absurd (ne (ground (arith, h, cb)))
      ]
  | exhausted n s r ↦ absurd (ground (arith, g, r))
]
