-- ===== src/Vm/Pages.antt =====
-- mappages of vm.c: the addresses that it maps.
use cs461_hw.Vm.Walk.{walked, walk_failed, pte_from-Leads, walkpgdir-Walked}
use cs461_hw.Prelude.{
  ◌<◌, ◌||◌, set, zero, suc, ◌+◌, ◌-◌, ◌*◌, ◌≤◌, refl, sym, ap, ◌∙◌, ◌≢◌, ◌⊎◌, inl, inr, Bool, true,
  false, ◌&&◌, [], ℕ_discrete, ltb, leb, ◌==◌, if◌then◌else◌, Bool-cases, ℕ, ◌/◌, ◌%◌, ◌^◌, ◌≡◌,
  arith,
}
use cs461_hw.Vm.{mappages, is_present, put_entry, panic, entry, ok, Result, map_loop, State, ptx}
use cs461_hw.Vm.Tables.{stored-IsTree, way, IsTree, Places}
use cs461_hw.Vm.Entry.{page_no, pte, pte-set}

-- Whether an address is in one of the `n` pages from the address `a` on.
abbrev pub within : ℕ → ℕ → ℕ → Bool
within a n va = leb (page_no a) (page_no va) && ltb (page_no va) (page_no a + n)

-- A valid tree of tables with a root.
pub record Rooted (st : State) (root : ℕ) : Type 0 where
  pub places : Places
  pub tree : IsTree places st
  pub top : places.level root ≡ 3
  pub empty : places.path root ≡ []

-- What mapping the `n` pages from `a` on does: all are mapped, and no other address is; or a page of
-- memory is missing, and the other addresses keep their entries; or one of the pages was mapped before.
pub data Mapped (st : State) (root a page perm n : ℕ) (r : Result Bool) : Type 0 where
  mapped :
      (st' : State)
      → r ≡ ok true st'
      → Rooted st' root
      → ((va : ℕ)
          → pte st' root va ≡ (
              if within a n va
              then entry (page + (page_no va - page_no a)) perm
              else pte st root va))
      → Mapped st root a page perm n r
  no_memory :
      (st' : State)
      → r ≡ ok false st'
      → Rooted st' root
      → st'.free ≡ []
      → ((va : ℕ) → within a n va ≡ false → pte st' root va ≡ pte st root va)
      → Mapped st root a page perm n r
  remap :
      (st' : State) (va : ℕ)
      → r ≡ panic st'
      → within a n va ≡ true
      → is_present (pte st root va) ≡ true
      → Mapped st root a page perm n r

-- The pages behind the first.
next_page :
    (a n : ℕ)
    → a % 4096 ≡ 0
    → a % 2 ^ 48 + 4096 * suc n ≤ 2 ^ 48
    → (n ≡ 0) ⊎ (page_no (a + 4096) ≡ page_no a + 1)
next_page a zero al fits = inl refl
next_page a (suc n) al fits = inr (omega (arith, al, fits))

range_next :
    (p q x n : ℕ)
    → (n ≡ 0) ⊎ (q ≡ p + 1)
    → (leb p x && ltb x (p + suc n)) ≡ (x == p || (leb q x && ltb x (q + n)))
range_next p q x n (inl z) = ground (arith, z)
range_next p q x n (inr e) = ground (arith, e)

range_apart : (p q x n : ℕ) → (n ≡ 0) ⊎ (q ≡ p + 1) → (leb q x && ltb x (q + n)) ≡ true → x ≢ p
range_apart p q x n (inl z) w = ground (arith, z, w)
range_apart p q x n (inr e) w = ground (arith, e, w)

range_entry :
    (p q x n k : ℕ)
    → (n ≡ 0) ⊎ (q ≡ p + 1)
    → (leb q x && ltb x (q + n)) ≡ true
    → k + 1 + (x - q) ≡ k + (x - p)
range_entry p q x n k (inl z) w = ground (arith, z, w)
range_entry p q x n k (inr e) w = ground (arith, e, w)

or_false : (a b : Bool) → (a || b) ≡ false → (a ≡ false) × (b ≡ false)
or_false true b e = absurd (ground (arith, e))
or_false false b e = (refl, e)

or_right : (a b : Bool) → b ≡ false → (a || b) ≡ a
or_right true b e = refl
or_right false b e = e

or_true : (a b : Bool) → b ≡ true → (a || b) ≡ true
or_true true b e = refl
or_true false b e = e

first_entry :
    (page x p perm old : ℕ)
    → (if x == p then entry page perm else old)
      ≡ (if x == p then entry (page + (x - p)) perm else old)
first_entry page x p perm old = elim (ℕ_discrete x p) [
  | yes e ↦ ap (λ k. if x == p then entry k perm else old) (omega (arith, e))
  | no n ↦ let test : (x == p) ≡ false = ground (arith, n) in rw test refl
]

Mapped-next :
    (st st2 : State) (root a page perm n : ℕ) (r : Result Bool)
    → a % 4096 ≡ 0
    → a % 2 ^ 48 + 4096 * suc n ≤ 2 ^ 48
    → ((va : ℕ)
        → pte st2 root va ≡ (if page_no va == page_no a then entry page perm else pte st root va))
    → is_present (pte st root a) ≡ false
    → Mapped st2 root (a + 4096) (page + 1) perm n r
    → Mapped st root a page perm (suc n) r
Mapped-next st st2 root a page perm n r al fits set free (no_memory st' e v f same) =
    no_memory st' e v f (λ va w.
      let both =
        sym (range_next (page_no a) (page_no (a + 4096)) (page_no va) n (next_page a n al fits))
        ∙ w in
      let miss : (page_no va == page_no a) ≡ false = (or_false _ _ both).0 in
      same va (or_false _ _ both).1
      ∙ set va
      ∙ ap (λ x. if x then entry page perm else pte st root va) miss)
Mapped-next st st2 root a page perm n r al fits set free (remap st' va e w there) =
    let other =
      range_apart (page_no a) (page_no (a + 4096)) (page_no va) n (next_page a n al fits) w in
    let miss : (page_no va == page_no a) ≡ false = ground (arith, other) in
    let old = set va ∙ ap (λ x. if x then entry page perm else pte st root va) miss in
    remap st' va e
      (range_next (page_no a) (page_no (a + 4096)) (page_no va) n (next_page a n al fits)
        ∙ ap (λ x. x || within (a + 4096) n va) miss
        ∙ w)
      (ap is_present (sym old) ∙ there)
Mapped-next st st2 root a page perm n r al fits set free (mapped st' e v same) =
    mapped st' e v (λ va.
      let next = next_page a n al fits in
      let all = range_next (page_no a) (page_no (a + 4096)) (page_no va) n next in
      elim (Bool-cases (within (a + 4096) n va)) [
        | inl hit ↦
            let whole : within a (suc n) va ≡ true = all ∙ or_true _ _ hit in
            same va
            ∙ ap
                (λ x.
                  if x
                  then entry (page + 1 + (page_no va - page_no (a + 4096))) perm
                  else pte st2 root va)
                hit
            ∙ ap (λ k. entry k perm)
                (range_entry (page_no a) (page_no (a + 4096)) (page_no va) n page next hit)
            ∙ sym (
                ap (λ x. if x then entry (page + (page_no va - page_no a)) perm else pte st root va)
                  whole)
        | inr miss ↦
            let whole : within a (suc n) va ≡ (page_no va == page_no a) = all ∙ or_right _ _ miss in
            same va
            ∙ ap
                (λ x.
                  if x
                  then entry (page + 1 + (page_no va - page_no (a + 4096))) perm
                  else pte st2 root va)
                miss
            ∙ set va
            ∙ first_entry page (page_no va) (page_no a) perm (pte st root va)
            ∙ sym (
                ap (λ x. if x then entry (page + (page_no va - page_no a)) perm else pte st root va)
                  whole)
      ])

map_loop-Mapped :
    (n : ℕ) (st : State) (root a page perm : ℕ)
    → Rooted st root
    → a % 4096 ≡ 0
    → a % 2 ^ 48 + 4096 * n ≤ 2 ^ 48
    → Mapped st root a page perm n (map_loop n root a page perm st)
unfolding map_loop
map_loop-Mapped zero st root a page perm v al fits = mapped st refl v (λ va. ground arith)
map_loop-Mapped (suc n) st root a page perm v al fits =
    elim (walkpgdir-Walked v.places st root a v.tree v.top) [
      | walk_failed pl1 st1 e v1 k f ↦
          no_memory st1 (rw (e, map_loop, e) refl)
            (record {
              places = pl1;
              tree = v1;
              top = k.level root 3 (omega arith) v.top;
              empty = k.path root 3 (omega arith) v.top ∙ v.empty;
            })
            f (λ va w. k.entries 3 root va (omega arith) v.top)
      | walked pl1 st1 t e v1 k low on leads ↦
          let top1 = k.level root 3 (omega arith) v.top in
          let empty1 = k.path root 3 (omega arith) v.top ∙ v.empty in
          let same = λ (va : ℕ). k.entries 3 root va (omega arith) v.top in
          let here = pte_from-Leads st1.mem root a t leads in
          elim (Bool-cases (is_present (st1.mem t (ptx a)))) [
            | inl there ↦
                remap st1 a (rw (e, map_loop, e, there) refl) (ground arith)
                  (ap is_present (sym (same a) ∙ here) ∙ there)
            | inr missing ↦
                let st2 : State = record st1 {
                  mem = put_entry st1.mem t (ptx a) (entry page perm);
                } in
                let path = on ∙ ap (way 3 a) v.empty in
                let root2 : Rooted st2 root = record {
                  places = pl1;
                  tree = stored-IsTree pl1 st1 v1 t (ptx a) (entry page perm) low;
                  top = top1;
                  empty = empty1;
                } in
                let set = λ (va : ℕ).
                  pte-set pl1 st1 root a t (entry page perm) v1 top1 empty1 low path leads va
                  ∙ ap (λ x. if page_no va == page_no a then entry page perm else x) (same va) in
                let unmapped = ap is_present (sym (same a) ∙ here) ∙ missing in
                rw (e, map_loop, e, missing)
                  (Mapped-next st st2 root a page perm n _ al fits set unmapped (
                    map_loop-Mapped n st2 root (a + 4096) (page + 1) perm root2 (omega (arith, al))
                      (omega (arith, al, fits))))
          ]
    ]

-- mappages of a range that is not empty, for a page of memory and a tree of tables: it returns 0 and maps
-- each page that has a byte of the range to its page of memory, and no other; or it returns -1 as no
-- page is free for a table, and leaves all other addresses as they are; or it panics as one of the
-- pages was mapped before. The tables stay a tree.
pub mappages-Mapped :
    (st : State) (root va size page perm : ℕ)
    → Rooted st root
    → 0 < size
    → va % 2 ^ 48 + size ≤ 2 ^ 48
    → Mapped st root
        (va / 4096 * 4096)
        page
        perm
        ((va % 4096 + size - 1) / 4096 + 1)
        (mappages root va size page perm st)
unfolding mappages
mappages-Mapped st root va size page perm v some_bytes fits =
    let count : ((va + size - 1) / 4096 * 4096 - va / 4096 * 4096) / 4096 + 1
        ≡ (va % 4096 + size - 1) / 4096 + 1 =
      omega (arith, some_bytes) in
    rw count (
      map_loop-Mapped ((va % 4096 + size - 1) / 4096 + 1) st root (va / 4096 * 4096) page perm v
        (omega arith) (omega (arith, some_bytes, fits)))
