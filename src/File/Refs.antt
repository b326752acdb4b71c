-- ===== src/File/Refs.antt =====
-- The reference counts of file.c against the references that the program holds.
use native.Mathlib.Numerals.{unary_clauses}
use cs461_hw.Prelude.{
  ap, inl, inr, ℕ_discrete, Option-cases, if◌then◌else◌, ℕ, zero, suc, ◌+◌, ◌-◌, ◌<◌, ◌≡◌, ◌≢◌,
  refl, some, List, [], ◌∷◌, arith, set, ◌==◌,
}
use cs461_hw.File.{
  still_open, closing, fd_none, Closing, File, file_at, filealloc, fileclose, filedup,
}

-- How many references to each file are held, after one more and after one less.
abbrev pub more : (ℕ → ℕ) → ℕ → ℕ → ℕ
more held i j = if j == i then held j + 1 else held j

abbrev pub less : (ℕ → ℕ) → ℕ → ℕ → ℕ
less held i j = if j == i then held j - 1 else held j

-- The histories of the table: filealloc, filedup and fileclose by holders of a reference, and what a
-- holder does with the other fields.
pub data Reach (t₀ : List File) : List File → (ℕ → ℕ) → Type 0 where
  starts : Reach t₀ t₀ (λ i. 0)
  allocs :
      (i : ℕ) {t t' : List File} {held : ℕ → ℕ}
      → Reach t₀ t held
      → filealloc t ≡ (t', some i)
      → Reach t₀ t' (more held i)
  dups :
      (i : ℕ) {t t' : List File} {held : ℕ → ℕ}
      → Reach t₀ t held
      → 0 < held i
      → filedup t i ≡ some t'
      → Reach t₀ t' (more held i)
  closes :
      (i : ℕ) (c : Closing) {t t' : List File} {held : ℕ → ℕ}
      → Reach t₀ t held
      → 0 < held i
      → fileclose t i ≡ some (t', c)
      → Reach t₀ t' (less held i)
  uses :
      (i : ℕ) (f : File) {t : List File} {held : ℕ → ℕ}
      → Reach t₀ t held
      → 0 < held i
      → f.ref ≡ (file_at t i).ref
      → Reach t₀ (set t i f) held

abbrev pub Unused : List File → Type 0
Unused [] = Unit {0}
Unused (f ∷ fs) = (f.ref ≡ 0) × Unused fs

Unused-ref : (t : List File) (i : ℕ) → Unused t → (file_at t i).ref ≡ 0
Unused-ref [] i u = refl
Unused-ref (f ∷ fs) zero u = u.0
Unused-ref (f ∷ fs) (suc i) u = Unused-ref fs i u.1

first_ref :
    (f : File) (fs : List File) (j : ℕ)
    → (file_at (record f { ref = 1 } ∷ fs) j).ref ≡ (if j == 0 then 1 else (file_at (f ∷ fs) j).ref)
first_ref f fs zero = refl
first_ref f fs (suc j) = ground arith

later_ref :
    (f : File) (fs fs' : List File) (i j : ℕ)
    → (file_at fs' (j - 1)).ref ≡ (if j - 1 == i then 1 else (file_at fs (j - 1)).ref)
    → (file_at (f ∷ fs') j).ref ≡ (if j == suc i then 1 else (file_at (f ∷ fs) j).ref)
later_ref f fs fs' i zero e = ground arith
later_ref f fs fs' i (suc j) e = ground (arith, simp unary_clauses at e)

first_taken :
    (f : File) (fs t' : List File)
    → filealloc (f ∷ fs) ≡ (t', some 0)
    → f.ref ≡ 0
    → t' ≡ record f { ref = 1 } ∷ fs
unfolding filealloc
first_taken f fs t' e z = ground (arith, e, z)

-- filealloc takes the first entry without references.
filealloc-ref :
    (t t' : List File) (i j : ℕ)
    → filealloc t ≡ (t', some i)
    → ((file_at t i).ref ≡ 0) × ((file_at t' j).ref ≡ (if j == i then 1 else (file_at t j).ref))
unfolding filealloc
filealloc-ref [] t' i j e = absurd (ground (arith, e))
filealloc-ref (f ∷ fs) t' zero j e = elim (ℕ_discrete f.ref 0) [
  | yes z ↦ (z, rw (first_taken f fs t' e z) (first_ref f fs j))
  | no n ↦ elim (Option-cases (filealloc fs).1) [
    | inl q ↦ absurd (ground (arith, e, n, q))
    | inr (k, q) ↦ absurd (ground (arith, e, n, q))
  ]
]
filealloc-ref (f ∷ fs) t' (suc i) j e = elim (ℕ_discrete f.ref 0) [
  | yes z ↦ absurd (ground (arith, e, z))
  | no n ↦ elim (Option-cases (filealloc fs).1) [
    | inl q ↦ absurd (ground (arith, e, n, q))
    | inr (k, q) ↦
        let found : (filealloc fs).1 ≡ some i = ground (arith, e, n, q) in
        let whole : filealloc fs ≡ ((filealloc fs).0, some i) =
          ap (λ x. ((filealloc fs).0, x)) found in
        let table : t' ≡ f ∷ (filealloc fs).0 = ground (arith, e, n, q) in
        (
          (filealloc-ref fs (filealloc fs).0 i i whole).0,
          rw table (
              later_ref f fs (filealloc fs).0 i j
                (filealloc-ref fs (filealloc fs).0 i (j - 1) whole).1),
        )
  ]
]

ref-set :
    (t : List File) (i j : ℕ) (f : File)
    → (file_at t i).ref ≢ 0
    → (file_at (set t i f) j).ref ≡ (if j == i then f.ref else (file_at t j).ref)
ref-set [] i j f ne = absurd (ne refl)
ref-set (g ∷ t) zero zero f ne = refl
ref-set (g ∷ t) zero (suc j) f ne = ground arith
ref-set (g ∷ t) (suc i) zero f ne = ground arith
ref-set (g ∷ t) (suc i) (suc j) f ne = ground (arith, ref-set t i j f ne)

Reach-ref :
    {t₀ t : List File} {held : ℕ → ℕ}
    → Unused t₀
    → Reach t₀ t held
    → (j : ℕ) → (file_at t j).ref ≡ held j
unfolding filedup fileclose
Reach-ref {t₀ = t₀} u starts j = Unused-ref t₀ j u
Reach-ref u (allocs i {t = t} {t' = t'} h e) j =
    ground (arith, filealloc-ref t t' i j e, Reach-ref u h j, Reach-ref u h i)
Reach-ref u (dups i {t = t} h p e) j =
    let held_i = Reach-ref u h i in
    ground (
      arith,
      e,
      ref-set t i j (record (file_at t i) { ref = (file_at t i).ref + 1 }),
      held_i,
      Reach-ref u h j,
    )
Reach-ref u (closes i c {t = t} h p e) j =
    let held_i = Reach-ref u h i in
    ground (
      arith,
      e,
      ref-set t i j (record (file_at t i) { ref = (file_at t i).ref - 1 }),
      ref-set t i j (record (file_at t i) { ref = 0; kind = fd_none }),
      held_i,
      Reach-ref u h j,
    )
Reach-ref u (uses i f {t = t} h p e) j =
    ground (arith, ref-set t i j f, e, Reach-ref u h i, Reach-ref u h j)

closes_last :
    (t : List File) (held : ℕ → ℕ) (i : ℕ)
    → (file_at t i).ref ≡ held i
    → 0 < held i
    → (t' : List File) × (fileclose t i
        ≡ some (t', if held i == 1 then closing (file_at t i) else still_open))
unfolding fileclose
closes_last t held i r p = elim (ℕ_discrete (held i) 1) [
  | yes one ↦ (set t i (record (file_at t i) { ref = 0; kind = fd_none }), ground (arith, one, r))
  | no n ↦ (set t i (record (file_at t i) { ref = (file_at t i).ref - 1 }), ground (arith, n, r, p))
]

-- In every history that begins with an unused table, for a file to which references are held:
-- filedup and fileclose do not panic, fileclose leaves the file open unless the reference is the last
-- one, when it goes on to the call that the file's type asks for, and filealloc does not return it.
pub Reach-counted :
    {t₀ t : List File} {held : ℕ → ℕ} (i : ℕ)
    → Unused t₀
    → Reach t₀ t held
    → 0 < held i
    → ((file_at t i).ref ≡ held i)
      × ((t' : List File) × (filedup t i ≡ some t'))
      × ((t' : List File) × (fileclose t i
            ≡ some (t', if held i == 1 then closing (file_at t i) else still_open)))
      × ((filealloc t).1 ≢ some i)
unfolding filedup fileclose
Reach-counted {t = t} {held = held} i u h p =
    let r = Reach-ref u h i in
    let taken : ((filealloc t).1 ≡ some i) → (file_at t i).ref ≡ 0 =
      λ e. (filealloc-ref t (filealloc t).0 i i (ap (λ x. ((filealloc t).0, x)) e)).0 in
    (
      r,
      (set t i (record (file_at t i) { ref = (file_at t i).ref + 1 }), ground (arith, r, p)),
      closes_last t held i r p,
      λ e. omega (arith, taken e, r, p),
    )
