-- ===== src/Icache/Search.antt =====
-- The search of iget of fs.c in the cache of inodes.
use cs461_hw.Prelude.{
  ◌+◌, ◌⊎◌, inl, inr, ℕ_discrete, Bool-cases, ℕ, zero, suc, ◌-◌, ◌≤◌, ◌<◌, ◌≡◌, refl, ◌≢◌, true,
  false, Option, none, some, arith,
}
use cs461_hw.Icache.{remember, Cache, ninode, put_entry, is_for, iget_loop, iget}

-- The result of the loop.
data Scanned (left : ℕ) (c : Cache) (dev inum : ℕ) (empty : Option ℕ) (r : Option ℕ × Option ℕ)
    : Type 0 where
  cached :
      (i : ℕ) (e : Option ℕ)
      → r ≡ (some i, e)
      → i < ninode
      → is_for dev inum (c i) ≡ true
      → Scanned left c dev inum empty r
  missing :
      (e : Option ℕ)
      → r ≡ (none, e)
      → ((j : ℕ) → ninode - left ≤ j → j < ninode → is_for dev inum (c j) ≡ false)
      → ((i : ℕ) → e ≡ some i → (empty ≡ some i) ⊎ ((i < ninode) × ((c i).ref ≡ 0)))
      → (e ≡ none → (empty ≡ none) × ((j : ℕ) → ninode - left ≤ j → j < ninode → (c j).ref ≢ 0))
      → Scanned left c dev inum empty r

remembered :
    (empty : Option ℕ) (i ref k : ℕ)
    → remember empty i ref ≡ some k
    → (empty ≡ some k) ⊎ ((k ≡ i) × (ref ≡ 0))
remembered none i ref k e = elim (ℕ_discrete ref 0) [
  | yes z ↦ inr (ground (arith, e, z), z)
  | no n ↦ absurd (ground (arith, e, n))
]
remembered (some x) i ref k e = inl e

not_remembered :
    (empty : Option ℕ) (i ref : ℕ) → remember empty i ref ≡ none → (empty ≡ none) × (ref ≢ 0)
not_remembered none i ref e = (refl, λ z. ground (arith, e, z))
not_remembered (some x) i ref e = absurd (ground (arith, e))

Scanned-next :
    (left : ℕ) (c : Cache) (dev inum : ℕ) (empty : Option ℕ) (r : Option ℕ × Option ℕ)
    → suc left ≤ ninode
    → is_for dev inum (c (ninode - suc left)) ≡ false
    → Scanned left c dev inum (remember empty (ninode - suc left) (c (ninode - suc left)).ref) r
    → Scanned (suc left) c dev inum empty r
Scanned-next left c dev inum empty r h miss (cached i e q lt hit) = cached i e q lt hit
Scanned-next left c dev inum empty r h miss (missing e q none_for slot full) =
    let i = ninode - suc left in
    missing e q
      (λ j a b. elim (ℕ_discrete j i) [
        | yes y ↦ rw y miss
        | no n ↦ none_for j (omega (arith, a, b, n, h)) b
      ])
      (λ k y. elim (slot k y) [
        | inl x ↦ elim (remembered empty i (c i).ref k x) [
          | inl z ↦ inl z
          | inr (z, w) ↦ inr (omega (arith, z, h), rw z w)
        ]
        | inr x ↦ inr x
      ])
      (λ y.
        let (was, rest) = full y in
        let (z, n) = not_remembered empty i (c i).ref was in
        (
          z,
          λ j a b. elim (ℕ_discrete j i) [
            | yes x ↦ rw x n
            | no x ↦ rest j (omega (arith, a, b, x, h)) b
          ],
        ))

iget_loop-Scanned :
    (left : ℕ) (c : Cache) (dev inum : ℕ) (empty : Option ℕ)
    → left ≤ ninode
    → Scanned left c dev inum empty (iget_loop left c dev inum empty)
unfolding iget_loop
iget_loop-Scanned zero c dev inum empty h =
    missing empty refl (λ j a b. absurd (omega (arith, a, b))) (λ i e. inl e)
      (λ e. (e, λ j a b. absurd (omega (arith, a, b))))
iget_loop-Scanned (suc left) c dev inum empty h =
    elim (Bool-cases (is_for dev inum (c (ninode - suc left)))) [
      | inl hit ↦ cached (ninode - suc left) empty (rw hit refl) (omega (arith, h)) hit
      | inr miss ↦ rw miss (
          Scanned-next left c dev inum empty _ h miss (
            iget_loop-Scanned left c dev inum
              (remember empty (ninode - suc left) (c (ninode - suc left)).ref) (omega (arith, h))))
    ]

-- What iget does.
pub data Got (dev inum : ℕ) (c : Cache) : Type 0 where
  shared :
      (i : ℕ)
      → i < ninode
      → is_for dev inum (c i) ≡ true
      → iget dev inum c ≡ some (put_entry c i (record (c i) { ref = (c i).ref + 1 }), i)
      → Got dev inum c
  recycled :
      (i : ℕ)
      → i < ninode
      → (c i).ref ≡ 0
      → ((j : ℕ) → j < ninode → is_for dev inum (c j) ≡ false)
      → iget dev inum c
        ≡ some (put_entry c i (record (c i) { dev = dev; inum = inum; ref = 1; valid = false }), i)
      → Got dev inum c
  no_entry :
      ((j : ℕ) → j < ninode → (c j).ref ≢ 0)
      → ((j : ℕ) → j < ninode → is_for dev inum (c j) ≡ false)
      → iget dev inum c ≡ none
      → Got dev inum c

pub iget-Got : (dev inum : ℕ) (c : Cache) → Got dev inum c
unfolding iget
iget-Got dev inum c = elim (iget_loop-Scanned ninode c dev inum none (omega arith)) [
  | cached i e q h hit ↦ shared i h hit (ground (arith, q))
  | missing none q none_for slot full ↦
      no_entry (λ j h. (full refl).1 j (omega arith) h) (λ j h. none_for j (omega arith) h)
        (ground (arith, q))
  | missing (some i) q none_for slot full ↦ elim (slot i refl) [
    | inl x ↦ absurd (ground (arith, x))
    | inr (h, z) ↦ recycled i h z (λ j l. none_for j (omega arith) l) (ground (arith, q))
  ]
]
