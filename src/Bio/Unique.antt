-- ===== src/Bio/Unique.antt =====
-- The buffers of bio.c under all its operations: one for each block.
use cs461_hw.Prelude.{
  inl, inr, Option-cases, ℕ_discrete, if◌then◌else◌, ℕ, zero, suc, ◌≤◌, ◌+◌, ◌≡◌, ◌≢◌, refl, some,
  List, [], ◌∷◌, ◌++◌, arith,
}
use cs461_hw.Bio.{
  dropped, drop_ref, recycled, retained, put_buf, remove_buf, find_buf, Buf, bget_buf, binit,
  is_for,
}
use cs461_hw.Bio.Get.{exhausted, taken, cached, bget_buf-Got, NoneFor}

-- How many buffers are for a block.
abbrev pub count_for : ℕ → ℕ → List Buf → ℕ
count_for dev blockno [] = 0
count_for dev blockno (b ∷ bs) = (if is_for dev blockno b then 1 else 0) + count_for dev blockno bs

-- The histories of a cache of `n` buffers: calls of bget for blocks of a device, and of the part of brelse that holds the lock,
-- and between them anything that a user does with a buffer that leaves its block alone.
pub data Reach (n : ℕ) : List Buf → Type 0 where
  starts : Reach n (binit n)
  gets :
      (dev blockno i : ℕ) {bs bs' : List Buf}
      → Reach n bs
      → dev ≢ 0
      → bget_buf dev blockno bs ≡ some (i, bs')
      → Reach n bs'
  releases : (i : ℕ) {bs : List Buf} → Reach n bs → Reach n (drop_ref i bs)
  uses :
      (before : List Buf) (b b' : Buf) (after : List Buf)
      → Reach n (before ++ (b ∷ after))
      → b'.dev ≡ b.dev
      → b'.blockno ≡ b.blockno
      → Reach n (before ++ (b' ∷ after))

count_for-append :
    (dev blockno : ℕ) (bs cs : List Buf)
    → count_for dev blockno (bs ++ cs) ≡ count_for dev blockno bs + count_for dev blockno cs
count_for-append dev blockno [] cs = omega arith
count_for-append dev blockno (b ∷ bs) cs = omega (arith, count_for-append dev blockno bs cs)

NoneFor-count :
    (dev blockno : ℕ) (bs : List Buf) → NoneFor dev blockno bs → count_for dev blockno bs ≡ 0
NoneFor-count dev blockno [] n = refl
NoneFor-count dev blockno (b ∷ bs) n = ground (arith, n.0, NoneFor-count dev blockno bs n.1)

-- The count with one buffer replaced.
count_for-middle :
    (dev blockno : ℕ) (before : List Buf) (b : Buf) (after : List Buf)
    → count_for dev blockno (before ++ (b ∷ after))
      ≡ (if is_for dev blockno b then 1 else 0) + count_for dev blockno (before ++ after)
count_for-middle dev blockno [] b after = refl
count_for-middle dev blockno (c ∷ before) b after =
    omega (arith, count_for-middle dev blockno before b after)

same_count :
    (dev blockno : ℕ) (before : List Buf) (b b' : Buf) (after : List Buf)
    → b'.dev ≡ b.dev
    → b'.blockno ≡ b.blockno
    → count_for dev blockno (before ++ (b' ∷ after)) ≡ count_for dev blockno (before ++ (b ∷ after))
same_count dev blockno before b b' after d e = ground (
  arith,
  count_for-middle dev blockno before b after,
  count_for-middle dev blockno before b' after,
  d,
  e,
)

binit-count : (dev blockno n : ℕ) → dev ≢ 0 → count_for dev blockno (binit n) ≡ 0
unfolding binit
binit-count dev blockno zero ne = refl
binit-count dev blockno (suc n) ne = ground (arith, binit-count dev blockno n ne)

count_for-remove :
    (dev blockno i : ℕ) (bs : List Buf) (b : Buf)
    → find_buf i bs ≡ some b
    → count_for dev blockno bs
      ≡ (if is_for dev blockno b then 1 else 0) + count_for dev blockno (remove_buf i bs)
count_for-remove dev blockno i [] b e = absurd (ground (arith, e))
count_for-remove dev blockno i (c ∷ bs) b e = elim (ℕ_discrete c.id i) [
  | yes y ↦ ground (arith, y, e)
  | no n ↦ ground (arith, n, e, count_for-remove dev blockno i bs b)
]

find_buf-id : (i : ℕ) (bs : List Buf) (b : Buf) → find_buf i bs ≡ some b → b.id ≡ i
find_buf-id i [] b f = absurd (ground (arith, f))
find_buf-id i (c ∷ bs) b f = elim (ℕ_discrete c.id i) [
  | yes y ↦ ground (arith, y, f)
  | no n ↦ find_buf-id i bs b (ground (arith, n, f))
]

count_for-put :
    (dev blockno i : ℕ) (bs : List Buf) (b b' : Buf)
    → find_buf i bs ≡ some b
    → b'.id ≡ b.id
    → b'.dev ≡ b.dev
    → b'.blockno ≡ b.blockno
    → count_for dev blockno (put_buf b' bs) ≡ count_for dev blockno bs
count_for-put dev blockno i [] b b' f e d k = absurd (ground (arith, f))
count_for-put dev blockno i (c ∷ bs) b b' f e d k = elim (ℕ_discrete c.id i) [
  | yes y ↦ ground (arith, y, e, f, d, k)
  | no n ↦ ground (arith, n, e, find_buf-id i (c ∷ bs) b f, f, count_for-put dev blockno i bs b b')
]

drop_ref-count :
    (dev blockno i : ℕ) (bs : List Buf)
    → count_for dev blockno (drop_ref i bs) ≡ count_for dev blockno bs
unfolding drop_ref
drop_ref-count dev blockno i bs = elim (Option-cases (find_buf i bs)) [
  | inl n ↦ ground (arith, n)
  | inr (b, f) ↦
      let removed = count_for-remove dev blockno i bs b f in
      let put = count_for-put dev blockno i bs b (dropped b) f refl refl refl in
      elim (ℕ_discrete (dropped b).refcnt 0) [
        | yes z ↦ ground (arith, f, z, removed)
        | no nz ↦ ground (arith, f, nz, put)
      ]
]

bget-count :
    (dev blockno dev' blockno' i : ℕ) (bs bs' : List Buf)
    → bget_buf dev' blockno' bs ≡ some (i, bs')
    → count_for dev blockno bs ≤ 1
    → count_for dev blockno bs' ≤ 1
bget-count dev blockno dev' blockno' i bs bs' g u = elim (bget_buf-Got dev' blockno' bs) [
  | cached before b after q f n r ↦
      let kept = same_count dev blockno before b (retained b) after refl refl in
      ground (arith, g, r, q, u, kept)
  | taken before b after q n f s r ↦
      let old = count_for-middle dev blockno before b after in
      let new = count_for-middle dev blockno before (recycled dev' blockno' b) after in
      let none_for = NoneFor-count dev' blockno' bs n in
      let none_for' : (dev ≡ dev') → (blockno ≡ blockno') → count_for dev blockno bs ≡ 0 =
        λ d k. rw (d, k) none_for in
      elim (ℕ_discrete dev dev') [
        | yes d ↦ elim (ℕ_discrete blockno blockno') [
          | yes k ↦ ground (arith, g, r, q, old, new, none_for' d k)
          | no nk ↦ ground (arith, g, r, q, u, old, new, nk)
        ]
        | no nd ↦ ground (arith, g, r, q, u, old, new, nd)
      ]
  | exhausted n s r ↦ absurd (ground (arith, g, r))
]

-- In every history of bget, of the part of brelse under the lock, and of uses of the buffers, a block of a device other than 0 has at
-- most one buffer.
pub Reach-one_buffer :
    (n dev blockno : ℕ) {bs : List Buf} → Reach n bs → dev ≢ 0 → count_for dev blockno bs ≤ 1
Reach-one_buffer n dev blockno starts ne = omega (arith, binit-count dev blockno n ne)
Reach-one_buffer n dev blockno (gets dev' blockno' i {bs = bs} {bs' = bs'} h d g) ne =
    bget-count dev blockno dev' blockno' i bs bs' g (Reach-one_buffer n dev blockno h ne)
Reach-one_buffer n dev blockno (releases i {bs = bs} h) ne =
    omega (arith, drop_ref-count dev blockno i bs, Reach-one_buffer n dev blockno h ne)
Reach-one_buffer n dev blockno (uses before b b' after h d k) ne =
    omega (arith, same_count dev blockno before b b' after d k, Reach-one_buffer n dev blockno h ne)
