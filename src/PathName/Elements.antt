-- ===== src/PathName/Elements.antt =====
-- namex of fs.c against a walk along the elements of the path.
use cs461_hw.Prelude.{
  ◌+◌, inl, inr, Bool-cases, Option-cases, zero, suc, ◌≤◌, ◌<◌, sym, ap, ◌∙◌, ◌≢◌, Bool, true,
  length, ℕ, ◌≡◌, refl, false, Option, none, some, List, [], ◌∷◌, arith, ℕ_discrete, ◌==◌,
  if◌then◌else◌, take,
}
use cs461_hw.PathName.{
  slash, dirsiz, drop_slashes, element, skipelem, Tree, is_empty, namex_loop, starts_at, namex,
  namei, nameiparent,
}

-- The pieces of a path between the slashes, and those that are not empty, of 14 bytes at most.
abbrev prepend : ℕ → List (List ℕ) → List (List ℕ)
prepend c [] = (c ∷ []) ∷ []
prepend c (p ∷ ps) = (c ∷ p) ∷ ps

abbrev pieces : List ℕ → List (List ℕ)
pieces [] = [] ∷ []
pieces (c ∷ cs) = if c == slash then [] ∷ pieces cs else prepend c (pieces cs)

abbrev names_of : List (List ℕ) → List (List ℕ)
names_of [] = []
names_of ([] ∷ ps) = names_of ps
names_of ((c ∷ cs) ∷ ps) = take dirsiz (c ∷ cs) ∷ names_of ps

abbrev pub names : List ℕ → List (List ℕ)
names path = names_of (pieces path)

-- The walk from an inode along names, and the walk up to the directory of the last one.
abbrev pub walk : Tree → ℕ → List (List ℕ) → Option ℕ
walk t ip [] = some ip
walk t ip (n ∷ ns) =
    if t.is_dir ip then elim (t.lookup ip n) [ none ↦ none | some j ↦ walk t j ns ] else none

abbrev pub walk_parent : Tree → ℕ → List (List ℕ) → Option (ℕ × List ℕ)
walk_parent t ip [] = none
walk_parent t ip (n ∷ []) = if t.is_dir ip then some (ip, n) else none
walk_parent t ip (n ∷ m ∷ ns) =
    if t.is_dir ip
    then elim (t.lookup ip n) [ none ↦ none | some j ↦ walk_parent t j (m ∷ ns) ]
    else none

abbrev is_none_left : List (List ℕ) → Bool
is_none_left [] = true
is_none_left (n ∷ ns) = false

names-drop_slashes : (path : List ℕ) → names (drop_slashes path) ≡ names path
unfolding drop_slashes
names-drop_slashes [] = refl
names-drop_slashes (c ∷ cs) = elim (ℕ_discrete c slash) [
  | yes y ↦ rw y (names-drop_slashes cs)
  | no n ↦
      let test : (c == slash) ≡ false = ground (arith, n) in
      let whole : drop_slashes (c ∷ cs) ≡ c ∷ cs = rw test refl in ap names whole
]

after : List ℕ → List (List ℕ)
after [] = []
after (c ∷ cs) = pieces cs

pieces-element : (path : List ℕ) → pieces path ≡ (element path).0 ∷ after (element path).1
unfolding element after
pieces-element [] = refl
pieces-element (c ∷ cs) = elim (ℕ_discrete c slash) [
  | yes y ↦ rw y refl
  | no n ↦ let test : (c == slash) ≡ false = ground (arith, n) in rw (test, pieces-element cs) refl
]

names-after : (path : List ℕ) → names_of (after (element path).1) ≡ names (element path).1
unfolding element after
names-after [] = refl
names-after (c ∷ cs) = elim (ℕ_discrete c slash) [
  | yes y ↦ rw y refl
  | no n ↦ let test : (c == slash) ≡ false = ground (arith, n) in rw test (names-after cs)
]

drop_slashes-first : (path : List ℕ) (c : ℕ) (cs : List ℕ) → drop_slashes path ≡ c ∷ cs → c ≢ slash
unfolding drop_slashes
drop_slashes-first [] c cs e = absurd (cc e)
drop_slashes-first (x ∷ xs) c cs e = elim (ℕ_discrete x slash) [
  | yes y ↦ drop_slashes-first xs c cs (rw y at e)
  | no n ↦
      let test : (x == slash) ≡ false = ground (arith, n) in
      let same : x ≡ c = cc (rw test at e) in λ q. n (same ∙ q)
]

length-drop_slashes : (path : List ℕ) → length (drop_slashes path) ≤ length path
unfolding drop_slashes
length-drop_slashes [] = omega arith
length-drop_slashes (c ∷ cs) = elim (ℕ_discrete c slash) [
  | yes y ↦ rw y (omega (arith, length-drop_slashes cs))
  | no n ↦ let test : (c == slash) ≡ false = ground (arith, n) in rw test (omega arith)
]

length-element : (path : List ℕ) → length (element path).1 ≤ length path
unfolding element
length-element [] = omega arith
length-element (c ∷ cs) = elim (ℕ_discrete c slash) [
  | yes y ↦ rw y (omega arith)
  | no n ↦
      let test : (c == slash) ≡ false = ground (arith, n) in
      rw test (omega (arith, length-element cs))
]

names-cons :
    (c : ℕ) (cs : List ℕ)
    → c ≢ slash
    → names (c ∷ cs) ≡ take dirsiz (c ∷ (element cs).0) ∷ names (element cs).1
names-cons c cs n =
    let test : (c == slash) ≡ false = ground (arith, n) in
    rw (test, pieces-element cs) (ap (λ ns. take dirsiz (c ∷ (element cs).0) ∷ ns) (names-after cs))

-- A path without leading slashes has an element, unless it is empty.
names-is_empty :
    (path : List ℕ) → is_empty (drop_slashes path) ≡ is_none_left (names (drop_slashes path))
names-is_empty path = of_dropped (drop_slashes path) refl
  where
    of_dropped : (p : List ℕ) → drop_slashes path ≡ p → is_empty p ≡ is_none_left (names p)
    of_dropped [] e = refl
    of_dropped (c ∷ cs) e = sym (ap is_none_left (names-cons c cs (drop_slashes-first path c cs e)))

-- What skipelem gives: the first of the names, and a path with the others.
data Skipped (path : List ℕ) : Type 0 where
  last : skipelem path ≡ none → names path ≡ [] → Skipped path
  first :
      (rest name : List ℕ)
      → skipelem path ≡ some (rest, name)
      → names path ≡ name ∷ names rest
      → length rest < length path
      → is_empty rest ≡ is_none_left (names rest)
      → Skipped path

skipelem-Skipped : (path : List ℕ) → Skipped path
unfolding skipelem element
skipelem-Skipped path = Skipped-of (drop_slashes path) refl
  where
    Skipped-of : (p : List ℕ) → drop_slashes path ≡ p → Skipped path
    Skipped-of [] e = last (ground (arith, e)) (sym (names-drop_slashes path) ∙ ap names e)
    Skipped-of (c ∷ cs) e =
        let taken = (element cs).0 in
        let rest = (element cs).1 in
        let test : (c == slash) ≡ false = ground (arith, drop_slashes-first path c cs e) in
        first (drop_slashes rest) (take dirsiz (c ∷ taken)) (ground (arith, e, test))
          (sym (names-drop_slashes path)
            ∙ ap names e
            ∙ names-cons c cs (drop_slashes-first path c cs e)
            ∙ ap (λ ns. take dirsiz (c ∷ taken) ∷ ns) (sym (names-drop_slashes rest)))
          (omega (
            arith,
            length-drop_slashes rest,
            length-element cs,
            length-drop_slashes path,
            ap length e,
          ))
          (names-is_empty rest)

module _ (t : Tree) where
  namex_loop-walk :
      (fuel : ℕ) (path name : List ℕ) (ip : ℕ)
      → length path < fuel
      → elim (namex_loop fuel t false path name ip) as (λ x. Option ℕ) [
        | none ↦ none
        | some (j, n) ↦ some j
      ]
        ≡ walk t ip (names path)
  unfolding namex_loop
  namex_loop-walk zero path name ip f = absurd (omega (arith, f))
  namex_loop-walk (suc fuel) path name ip f = elim (skipelem-Skipped path) [
    | last e q ↦ rw (e, q) refl
    | first rest n e q short more ↦ elim (Bool-cases (t.is_dir ip)) [
      | inr no_dir ↦ rw (e, q, no_dir) refl
      | inl dir ↦ elim (Option-cases (t.lookup ip n)) [
        | inl missing ↦ rw (e, q, dir, missing) refl
        | inr (j, there) ↦
            rw (e, q, dir, there) (namex_loop-walk fuel rest n j (omega (arith, f, short)))
      ]
    ]
  ]

  -- The walk up to the parent, where the names are `n` and then `ns`.
  walk_parent-last :
      (ip : ℕ) (n : List ℕ) (ns : List (List ℕ))
      → is_none_left ns ≡ true
      → t.is_dir ip ≡ true
      → walk_parent t ip (n ∷ ns) ≡ some (ip, n)
  walk_parent-last ip n [] e dir = rw dir refl
  walk_parent-last ip n (m ∷ ns) e dir = absurd (ground (arith, e))

  walk_parent-more :
      (ip : ℕ) (n : List ℕ) (ns : List (List ℕ))
      → is_none_left ns ≡ false
      → t.is_dir ip ≡ true
      → walk_parent t ip (n ∷ ns) ≡ elim (t.lookup ip n) as (λ x. Option (ℕ × List ℕ)) [
        | none ↦ none
        | some j ↦ walk_parent t j ns
      ]
  walk_parent-more ip n [] e dir = absurd (ground (arith, e))
  walk_parent-more ip n (m ∷ ns) e dir = rw dir refl

  walk_parent-no_dir :
      (ip : ℕ) (n : List ℕ) (ns : List (List ℕ))
      → t.is_dir ip ≡ false
      → walk_parent t ip (n ∷ ns) ≡ none
  walk_parent-no_dir ip n [] dir = rw dir refl
  walk_parent-no_dir ip n (m ∷ ns) dir = rw dir refl

  namex_loop-walk_parent :
      (fuel : ℕ) (path name : List ℕ) (ip : ℕ)
      → length path < fuel
      → namex_loop fuel t true path name ip ≡ walk_parent t ip (names path)
  unfolding namex_loop
  namex_loop-walk_parent zero path name ip f = absurd (omega (arith, f))
  namex_loop-walk_parent (suc fuel) path name ip f = elim (skipelem-Skipped path) [
    | last e q ↦ rw (e, namex_loop, q) refl
    | first rest n e q short more ↦ elim (Bool-cases (t.is_dir ip)) [
      | inr no_dir ↦
          rw (e, namex_loop, q, no_dir) (sym (walk_parent-no_dir ip n (names rest) no_dir))
      | inl dir ↦ elim (Bool-cases (is_empty rest)) [
        | inl end ↦
            rw (e, namex_loop, q, dir, end)
              (sym (walk_parent-last ip n (names rest) (sym more ∙ end) dir))
        | inr go ↦
            let spec = walk_parent-more ip n (names rest) (sym more ∙ go) dir in
            rw (q, spec)
              (elim (Option-cases (t.lookup ip n)) [
                | inl missing ↦ rw (e, namex_loop, dir, go, missing) refl
                | inr (j, there) ↦
                    rw (e, namex_loop, dir, go, there)
                      (namex_loop-walk_parent fuel rest n j (omega (arith, f, short)))
              ])
      ]
    ]
  ]

  -- namei walks from the root, or from the current directory for a path that does not begin with a
  -- slash, along the names of the path: the pieces between the slashes that are not empty, of which
  -- 14 bytes count. It fails where an inode on the way is no directory or does not have the name.
  -- nameiparent stops at the directory of the last name and gives both, and fails without a name.
  pub namei-walk :
      (path : List ℕ)
      → (namei t path ≡ walk t (starts_at t path) (names path))
        × (nameiparent t path ≡ walk_parent t (starts_at t path) (names path))
  unfolding namei nameiparent namex
  namei-walk path = (
    namex_loop-walk (length path + 1) path [] (starts_at t path) (omega arith),
    namex_loop-walk_parent (length path + 1) path [] (starts_at t path) (omega arith),
  )
