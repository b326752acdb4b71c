-- ===== src/Bio/Recency.antt =====
-- The order in which bio.c takes buffers away.
use cs461_hw.Prelude.{
  ℕ_discrete, inl, inr, ◌||◌, Bool-cases, Option-cases, ℕ, ◌≡◌, refl, Bool, true, false, some, List,
  [], ◌∷◌, arith,
}
use cs461_hw.Bio.{
  unlocked, dropped, drop_ref, put_buf, remove_buf, recycled, Buf, bget_buf, brelse, find_buf,
  is_for, is_spare, find_cached, recycle, retained,
}

-- Whether some buffer could be taken.
abbrev pub any_spare : List Buf → Bool
any_spare [] = false
any_spare (b ∷ bs) = is_spare b || any_spare bs

recycle-any :
    (dev blockno : ℕ) (bs : List Buf)
    → any_spare bs ≡ true
    → (i : ℕ) × (cs : List Buf) × (recycle dev blockno bs ≡ some (i, cs))
unfolding recycle
recycle-any dev blockno [] e = absurd (ground (arith, e))
recycle-any dev blockno (b ∷ bs) e = elim (Option-cases (recycle dev blockno bs)) [
  | inr ((i, cs), f) ↦ (i, b ∷ cs, rw f refl)
  | inl f ↦ elim (Bool-cases (any_spare bs)) [
    | inl more ↦ let (i, cs, g) = recycle-any dev blockno bs more in absurd (ground (arith, f, g))
    | inr nomore ↦ (b.id, recycled dev blockno b ∷ bs, ground (arith, f, e, nomore))
  ]
]

-- A bget for another block passes over the first buffer of the list if it can take a later one.
passes_first :
    (dev blockno : ℕ) (b : Buf) (bs : List Buf)
    → is_for dev blockno b ≡ false
    → any_spare bs ≡ true
    → (i : ℕ) × (cs : List Buf) × (bget_buf dev blockno (b ∷ bs) ≡ some (i, b ∷ cs))
unfolding bget_buf find_cached recycle
passes_first dev blockno b bs f e = elim (Option-cases (find_cached dev blockno bs)) [
  | inr ((i, cs), g) ↦ (i, cs, ground (arith, f, g))
  | inl g ↦ let (i, cs, h) = recycle-any dev blockno bs e in (i, cs, ground (arith, f, g, h))
]

find_buf-put :
    (i : ℕ) (bs : List Buf) (b b' : Buf)
    → find_buf i bs ≡ some b
    → b'.id ≡ i
    → (find_buf i (put_buf b' bs) ≡ some b') × (remove_buf i (put_buf b' bs) ≡ remove_buf i bs)
find_buf-put i [] b b' f e = absurd (ground (arith, f))
find_buf-put i (c ∷ bs) b b' f e = elim (ℕ_discrete c.id i) [
  | yes y ↦ (ground (arith, y, e), ground (arith, y, e))
  | no n ↦
      let (g, h) = find_buf-put i bs b b' (ground (arith, n, f)) e in
      (ground (arith, n, e, g), ground (arith, n, e, h))
]

-- brelse of the last reference to a locked buffer unlocks it and makes it the most recently used
-- one, with its contents: a bget for its block returns it at once, and if some other buffer can be
-- taken, a bget for another block leaves it as it is.
pub brelse-recent :
    (i dev blockno : ℕ) (bs : List Buf) (b : Buf)
    → find_buf i bs ≡ some b
    → b.id ≡ i
    → b.locked ≡ true
    → b.refcnt ≡ 1
    → is_for dev blockno b ≡ false
    → any_spare (remove_buf i bs) ≡ true
    → (brelse i bs ≡ some (dropped (unlocked b) ∷ remove_buf i bs))
      × (bget_buf b.dev b.blockno (dropped (unlocked b) ∷ remove_buf i bs)
          ≡ some (b.id, retained (dropped (unlocked b)) ∷ remove_buf i bs))
      × ((j : ℕ) × (cs : List Buf) × (bget_buf dev blockno (dropped (unlocked b) ∷ remove_buf i bs)
            ≡ some (j, dropped (unlocked b) ∷ cs)))
unfolding brelse drop_ref bget_buf find_cached
brelse-recent i dev blockno bs b f e l one n s =
    let (g, h) = find_buf-put i bs b (unlocked b) f e in
    (
      ground (arith, f, l, one, g, h),
      ground arith,
      passes_first dev blockno (dropped (unlocked b)) (remove_buf i bs) n s,
    )
