-- ===== src/Kalloc/Pages.antt =====
-- The free pages of kalloc.c, and who owns the others.
use cs461_hw.Prelude.{
  ap, ℕ, ◌≡◌, refl, ◌≢◌, Bool, true, false, ◌||◌, some, List, [], ◌∷◌, ◌++◌, arith, ◌==◌,
}
use cs461_hw.Kalloc.{is_page, kalloc, kfree, put_word, Kmem}

abbrev pub occurs : ℕ → List ℕ → Bool
occurs v [] = false
occurs v (p ∷ ps) = v == p || occurs v ps

abbrev pub Distinct : List ℕ → Type 0
Distinct [] = Unit {0}
Distinct (p ∷ ps) = (occurs p ps ≡ false) × Distinct ps

-- The pages on the list that begins at an address.
abbrev pub Chain : (ℕ → ℕ) → ℕ → List ℕ → Type 0
Chain word h [] = h ≡ 0
Chain word h (p ∷ ps) = (h ≡ p) × ((p ≢ 0) × Chain word (word p) ps)

-- The free pages are those on the list, and no page is on it twice or handed out twice, or both.
pub record IsValid (k : Kmem) (free owned : List ℕ) : Type 0 where
  pub chain : Chain k.word k.freelist free
  pub distinct : Distinct (free ++ owned)

pub Chain-put :
    (word : ℕ → ℕ) (h v w : ℕ) (ps : List ℕ)
    → occurs v ps ≡ false
    → Chain word h ps
    → Chain (put_word word v w) h ps
Chain-put word h v w [] o c = c
Chain-put word h v w (p ∷ ps) o c =
    let kept : put_word word v w p ≡ word p = ground (arith, o) in
    (c.0, (c.1.0, rw kept (Chain-put word (word p) v w ps (ground (arith, o)) c.1.1)))

pub put_word_self : (word : ℕ → ℕ) (a v : ℕ) → put_word word a v a ≡ v
put_word_self word a v = ground arith

occurs-append : (v : ℕ) (ps qs : List ℕ) → occurs v (ps ++ qs) ≡ (occurs v ps || occurs v qs)
occurs-append v [] qs = refl
occurs-append v (p ∷ ps) qs = ground (arith, occurs-append v ps qs)

-- Moving the first free page to the owned pages.
Distinct-shift : (p : ℕ) (ps qs : List ℕ) → Distinct (p ∷ (ps ++ qs)) → Distinct (ps ++ (p ∷ qs))
Distinct-shift p [] qs d = d
Distinct-shift p (x ∷ ps) qs d = (
  ground (
    arith,
    d.0,
    d.1.0,
    occurs-append x ps (p ∷ qs),
    occurs-append x ps qs,
    occurs-append p ps qs,
  ),
  Distinct-shift p ps qs (ground (arith, d.0), d.1.1),
)

-- And back.
Distinct-unshift : (p : ℕ) (ps qs : List ℕ) → Distinct (ps ++ (p ∷ qs)) → Distinct (p ∷ (ps ++ qs))
Distinct-unshift p [] qs d = d
Distinct-unshift p (x ∷ ps) qs d =
    let (o, e) = Distinct-unshift p ps qs d.1 in
    (
      ground (arith, o, d.0, occurs-append x ps (p ∷ qs), occurs-append p ps qs),
      (ground (arith, d.0, occurs-append x ps (p ∷ qs), occurs-append x ps qs), e),
    )

append_assoc : (ps qs rs : List ℕ) → (ps ++ qs) ++ rs ≡ ps ++ (qs ++ rs)
append_assoc [] qs rs = refl
append_assoc (p ∷ ps) qs rs = ap (λ xs. p ∷ xs) (append_assoc ps qs rs)

Distinct-return :
    (p : ℕ) (ps qs rs : List ℕ)
    → Distinct (ps ++ (qs ++ (p ∷ rs)))
    → Distinct (p ∷ (ps ++ (qs ++ rs)))
Distinct-return p ps qs rs d =
    rw (← append_assoc ps qs rs)
      (Distinct-unshift p (ps ++ qs) rs (rw (append_assoc ps qs (p ∷ rs)) d))

-- What a call of kalloc does.
pub data Allocated (k : Kmem) (free owned : List ℕ) : Type 0 where
  exhausted : free ≡ [] → kalloc k ≡ (k, 0) → Allocated k free owned
  page :
      (k' : Kmem) (p : ℕ) (rest : List ℕ)
      → free ≡ p ∷ rest
      → kalloc k ≡ (k', p)
      → p ≢ 0
      → occurs p owned ≡ false
      → IsValid k' rest (p ∷ owned)
      → Allocated k free owned

-- kalloc returns 0 only when no page is free. Otherwise it returns a free page, one that nobody owns,
-- which the caller then owns, and the other free pages stay free.
pub kalloc-Allocated :
    (k : Kmem) (free owned : List ℕ) → IsValid k free owned → Allocated k free owned
unfolding kalloc
kalloc-Allocated k [] owned v = exhausted refl (ground (arith, v.chain))
kalloc-Allocated k (p ∷ rest) owned v =
    page (record k { freelist = k.word k.freelist }) p rest refl (ground (arith, v.chain))
      v.chain.1.0 (ground (arith, v.distinct.0, occurs-append p rest owned))
      (record {
        chain = rw (v.chain.0) v.chain.1.1;
        distinct = Distinct-shift p rest owned v.distinct;
      })

-- kfree of a page that somebody owns takes it back: it is free again and the next to be handed out,
-- and all other pages stay as they are.
pub kfree-IsValid :
    (end : ℕ) (k : Kmem) (free before : List ℕ) (v : ℕ) (after : List ℕ)
    → IsValid k free (before ++ (v ∷ after))
    → is_page end v ≡ true
    → v ≢ 0
    → (k' : Kmem) × (kfree end k v ≡ some k')
      × IsValid k' (v ∷ free) (before ++ after)
      × ((kalloc k').1 ≡ v)
unfolding kfree kalloc
kfree-IsValid end k free before v after i p ne =
    let d = Distinct-return v free before after i.distinct in
    let o : occurs v free ≡ false = ground (arith, d.0, occurs-append v free (before ++ after)) in
    (
      record k { word = put_word k.word v k.freelist; freelist = v },
      rw p refl,
      record {
        chain = (
          refl,
          (
            ne,
            rw (put_word_self k.word v k.freelist)
                (Chain-put k.word k.freelist v k.freelist free o i.chain),
          ),
        );
        distinct = d;
      },
      ground (arith, ne),
    )
