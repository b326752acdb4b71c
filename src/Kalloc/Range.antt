-- ===== src/Kalloc/Range.antt =====
-- What the loop of freerange does to an empty allocator.
use cs461_hw.Prelude.{
  ◌∙◌, ◌^◌, ◌≢◌, le→leb, ap, ◌++◌, ℕ, zero, suc, ◌≡◌, refl, ◌≤◌, ◌<◌, ◌+◌, ◌*◌, ◌%◌, ◌/◌, ◌-◌, Bool,
  true, false, some, List, [], ◌∷◌, length, arith, leb,
}
use cs461_hw.Kalloc.{
  pgroundup, put_word, is_page, phystop, kernbase, pgsize, free_from, freerange, kfree, kinit1,
  Kmem,
}
use cs461_hw.Kalloc.Pages.{Chain-put, put_word_self, occurs, IsValid}

-- The pages of a list lie between two addresses.
abbrev pub Within : ℕ → ℕ → List ℕ → Type 0
Within lo hi [] = Unit {0}
Within lo hi (p ∷ ps) = (lo ≤ p) × ((p + pgsize ≤ hi) × Within lo hi ps)

Within-widen : (lo hi hi' : ℕ) (ps : List ℕ) → hi ≤ hi' → Within lo hi ps → Within lo hi' ps
Within-widen lo hi hi' [] h w = w
Within-widen lo hi hi' (p ∷ ps) h w =
    (w.0, (omega (arith, w.1.0, h), Within-widen lo hi hi' ps h w.1.1))

Within-fresh : (lo p : ℕ) (ps : List ℕ) → Within lo p ps → occurs p ps ≡ false
Within-fresh lo p [] w = refl
Within-fresh lo p (q ∷ ps) w = ground (arith, w.1.0, Within-fresh lo p ps w.1.1)

no_owned : (ps : List ℕ) → ps ++ [] ≡ ps
no_owned [] = refl
no_owned (p ∷ ps) = ap (λ qs. p ∷ qs) (no_owned ps)

-- A number that is_page accepts.
is_page_between :
    (end p vend : ℕ)
    → p % pgsize ≡ 0
    → end ≤ p
    → kernbase ≤ p
    → p + pgsize ≤ vend
    → vend ≤ kernbase + phystop
    → is_page end p ≡ true
is_page_between end p vend a e b u t = ground arith

-- The state after the loop has freed the pages below `p` down to `lo`.
pub record Freed (lo p : ℕ) (k : Kmem) (free : List ℕ) (use_lock : Bool) : Type 0 where
  pub valid : IsValid k free []
  pub within : Within lo p free
  pub lock : k.use_lock ≡ use_lock

next : (p vend : ℕ) → p ≤ vend → vend ≤ kernbase + phystop → (p + pgsize) % 2 ^ 64 ≡ p + pgsize
next p vend h u = omega (arith, h, u)

leb-false : (p vend : ℕ) → vend < p + pgsize → leb (p + pgsize) vend ≡ false
leb-false p vend h = ground (arith, h)

pgroundup-ge : (v : ℕ) → v ≤ kernbase + phystop → v ≤ pgroundup v
pgroundup-ge v h = omega (arith, h)

Free-push :
    (k : Kmem) (free : List ℕ) (p : ℕ)
    → IsValid k free []
    → occurs p free ≡ false
    → p ≢ 0
    → IsValid (record k { word = put_word k.word p k.freelist; freelist = p }) (p ∷ free) []
Free-push k free p v o ne = record {
  chain = (
    refl,
    (
      ne,
      rw (put_word_self k.word p k.freelist)
          (Chain-put k.word k.freelist p k.freelist free o v.chain),
    ),
  );
  distinct = (rw (no_owned free) o, v.distinct);
}

Freed-widen :
    (lo p hi : ℕ) (k : Kmem) (free : List ℕ) (b : Bool)
    → p ≤ hi
    → Freed lo p k free b
    → Freed lo hi k free b
Freed-widen lo p hi k free b h f = record {
  valid = f.valid;
  within = Within-widen lo p hi free h f.within;
  lock = f.lock;
}

Freed-kfree :
    (lo p end : ℕ) (k : Kmem) (free : List ℕ) (b : Bool)
    → Freed lo p k free b
    → lo ≤ p
    → kernbase ≤ p
    → is_page end p ≡ true
    → (k' : Kmem) × (kfree end k p ≡ some k') × Freed lo (p + pgsize) k' (p ∷ free) b
unfolding kfree
Freed-kfree lo p end k free b f l b' i =
    let o = Within-fresh lo p free f.within in
    (
      record k { word = put_word k.word p k.freelist; freelist = p },
      rw i refl,
      record {
        valid = Free-push k free p f.valid o (omega (arith, b'));
        within = (l, (omega arith, Within-widen lo p (p + pgsize) free (omega arith) f.within));
        lock = f.lock;
      },
    )

free_from-kfree :
    (fuel end p vend : ℕ) (k k' : Kmem)
    → kfree end k p ≡ some k'
    → (p + pgsize) % 2 ^ 64 ≡ p + pgsize
    → p + pgsize ≤ vend
    → free_from (suc fuel) end k p vend ≡ free_from fuel end k' (p + pgsize) vend
unfolding free_from
free_from-kfree fuel end p vend k k' q n h =
    rw (n, le→leb (p + pgsize) vend h, q) (ap (λ a. free_from fuel end k' a vend) n)

free_from-Freed :
    (fuel n end lo p vend : ℕ) (k : Kmem) (free : List ℕ) (b : Bool)
    → Freed lo p k free b
    → n ≤ fuel
    → p % pgsize ≡ 0
    → end ≤ p
    → lo ≤ p
    → kernbase ≤ p
    → vend ≤ kernbase + phystop
    → p + n * pgsize ≤ vend
    → vend < p + n * pgsize + pgsize
    → (k' : Kmem) × (free' : List ℕ) × (free_from fuel end k p vend ≡ some k')
      × Freed lo vend k' free' b
      × (length free' ≡ n + length free)
unfolding free_from
free_from-Freed zero zero end lo p vend k free b f nf a e l kb u le lt =
    (k, free, refl, Freed-widen lo p vend k free b (omega (arith, le)) f, omega arith)
free_from-Freed zero (suc n) end lo p vend k free b f nf a e l kb u le lt =
    absurd (omega (arith, nf))
free_from-Freed (suc fuel) zero end lo p vend k free b f nf a e l kb u le lt = (
  k,
  free,
  (rw (next p vend (omega (arith, le)) u, leb-false p vend (omega (arith, lt))) refl),
  Freed-widen lo p vend k free b (omega (arith, le)) f,
  omega arith,
)
free_from-Freed (suc fuel) (suc n) end lo p vend k free b f nf a e l kb u le lt =
    let more : p + pgsize ≤ vend = omega (arith, le) in
    let (k1, q, f1) =
      Freed-kfree lo p end k free b f l kb (is_page_between end p vend a e kb more u) in
    let (k2, free2, r, f2, c) =
      free_from-Freed fuel n end lo (p + pgsize) vend k1 (p ∷ free) b f1 (omega (arith, nf))
        (omega (arith, a)) (omega (arith, e)) (omega (arith, l)) (omega (arith, kb)) u
        (omega (arith, le)) (omega (arith, lt)) in
    (
      k2,
      free2,
      free_from-kfree fuel end p vend k k1 q (next p vend (omega (arith, le)) u) more ∙ r,
      f2,
      omega (arith, c),
    )

-- kinit1 on an empty allocator frees all whole pages between two addresses of mapped memory, each
-- once and nothing else: it does not panic, all of them are free, and the lock stays off.
pub kinit1_frees :
    (end : ℕ) (k : Kmem) (vstart vend : ℕ)
    → k.freelist ≡ 0
    → end ≤ vstart
    → kernbase ≤ vstart
    → vend ≤ kernbase + phystop
    → vstart ≤ vend
    → pgroundup vstart ≤ vend
    → (k' : Kmem) × (free : List ℕ) × (kinit1 end k vstart vend ≡ some k')
      × Freed vstart vend k' free false
      × (length free ≡ (vend - pgroundup vstart) / pgsize)
unfolding kinit1 freerange
kinit1_frees end k vstart vend z e b u v le =
    let n = (vend - pgroundup vstart) / pgsize in
    let up : vstart ≤ pgroundup vstart = pgroundup-ge vstart (omega (arith, v, u)) in
    let start : Freed vstart (pgroundup vstart) (record k { use_lock = false }) [] false = record {
      valid = record { chain = z; distinct = tt };
      within = tt;
      lock = refl;
    } in
    let (k', free, q, f, c) =
      free_from-Freed (vend + 1) n end vstart (pgroundup vstart) vend
        (record k { use_lock = false }) [] false start (omega arith) (omega arith)
        (omega (arith, e, up)) up (omega (arith, b, up)) u (omega (arith, le))
        (omega (arith, le)) in
    (k', free, q, f, omega (arith, c))
