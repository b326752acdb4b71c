-- ===== src/Vm/Tables.antt =====
-- The tree of tables of vm.c, and what a new table and a new entry change.
use cs461_hw.Prelude.{
  sym, ◌⊎◌, ℕ_discrete, inl, inr, ◌&&◌, ◌==◌, Bool-cases, ℕ, zero, suc, ◌≤◌, ◌<◌, ◌≡◌, refl, ap,
  ◌≢◌, true, false, List, [], ◌∷◌, arith, if◌then◌else◌,
}
use cs461_hw.Vm.{State, is_present, page_of, entry, pmx, pdpx, pdx, ptx, put_entry, clear}

-- The index of an address at a level, from 3 for the root down to 0.
abbrev pub index : ℕ → ℕ → ℕ
index zero va = ptx va
index (suc zero) va = pdx va
index (suc (suc zero)) va = pdpx va
index (suc (suc (suc n))) va = pmx va

-- The entry for an address, from a table of a level on, 0 where there is no table.
unfoldable pub pte_from : ℕ → (ℕ → ℕ → ℕ) → ℕ → ℕ → ℕ
pte_from zero mem t va = mem t (ptx va)
pte_from (suc n) mem t va =
    let e = mem t (index (suc n) va) in if is_present e then pte_from n mem (page_of e) va else 0

-- The indices on the way, the last first.
abbrev pub way : ℕ → ℕ → List ℕ → List ℕ
way zero va p = p
way (suc n) va p = way n va (index (suc n) va ∷ p)

-- Where the tables are: the level of a page, which is above 3 if it is none, and the way to it.
pub record Places : Type 0 where
  pub level : ℕ → ℕ
  pub path : ℕ → List ℕ

abbrev pub outside : ℕ
outside = 9

abbrev pub Absent : ℕ → List ℕ → Type 0
Absent f [] = Unit {0}
Absent f (g ∷ gs) = (f ≢ g) × Absent f gs

-- Free pages are no tables, and none is free twice.
abbrev pub FreeOutside : Places → List ℕ → Type 0
FreeOutside pl [] = Unit {0}
FreeOutside pl (f ∷ fs) = (pl.level f ≡ outside) × Absent f fs × FreeOutside pl fs

pub record IsTree (pl : Places) (st : State) : Type 0 where
  pub child_level :
      (t n i : ℕ)
      → n < 3
      → pl.level t ≡ suc n
      → is_present (st.mem t i) ≡ true
      → pl.level (page_of (st.mem t i)) ≡ n
  pub child_path :
      (t n i : ℕ)
      → n < 3
      → pl.level t ≡ suc n
      → is_present (st.mem t i) ≡ true
      → pl.path (page_of (st.mem t i)) ≡ i ∷ pl.path t
  pub free_pages : FreeOutside pl st.free

-- A table without entries.
pte_from-clear :
    (n : ℕ) (mem : ℕ → ℕ → ℕ) (t va : ℕ) → ((j : ℕ) → mem t j ≡ 0) → pte_from n mem t va ≡ 0
unfolding pte_from
pte_from-clear zero mem t va z = z (ptx va)
pte_from-clear (suc n) mem t va z = rw (z (index (suc n) va)) refl

-- A new table, for an entry that was not present.
module _ (pl : Places) (st : State) (v : IsTree pl st) (t n i p : ℕ) (h : n < 3)
    (level : pl.level t ≡ suc n) (absent : is_present (st.mem t i) ≡ false)
    (free : pl.level p ≡ outside) where
  abbrev grown : ℕ → ℕ → ℕ
  grown = put_entry (clear st.mem p) t i (entry p 7)

  apart : p ≢ t
  apart e = omega (arith, ap pl.level e, level, free, h)

  pub pte_from-grown :
      (m u va : ℕ) → m ≤ 3 → pl.level u ≡ m → pte_from m grown u va ≡ pte_from m st.mem u va
  unfolding pte_from
  pte_from-grown zero u va k e =
      let other : u ≢ t = λ q. omega (arith, ap pl.level q, level, e) in
      let old : u ≢ p = λ q. omega (arith, ap pl.level q, free, e) in ground (arith, other, old)
  pte_from-grown (suc m) u va k e =
      let j = index (suc m) va in
      let old : u ≢ p = λ q. omega (arith, ap pl.level q, free, e, k) in
      elim (Bool-cases (u == t && j == i)) [
        | inl hit ↦
            let same_u : u ≡ t = ground (arith, hit) in
            let same_j : j ≡ i = ground (arith, hit) in
            let was : is_present (st.mem u j) ≡ false = rw (same_u, same_j) absent in
            let cell : grown u j ≡ entry p 7 = ground (arith, hit) in
            let present : is_present (entry p 7) ≡ true = ground arith in
            let page : page_of (entry p 7) ≡ p = omega arith in
            let zeros : (l : ℕ) → grown p l ≡ 0 = λ l. ground (arith, apart) in
            rw (cell, was, present, page) (pte_from-clear m grown p va zeros)
        | inr miss ↦
            let cell : grown u j ≡ st.mem u j = ground (arith, miss, old) in
            elim (Bool-cases (is_present (st.mem u j))) [
              | inr missing ↦ rw (cell, missing) refl
              | inl there ↦
                  let below = v.child_level u m j (omega (arith, k)) e there in
                  rw (cell, there)
                    (pte_from-grown m (page_of (st.mem u j)) va (omega (arith, k)) below)
            ]
      ]

  -- Where the tables are then.
  pub grown_places : Places
  grown_places = record {
    level = λ u. if u == p then n else pl.level u;
    path = λ u. if u == p then i ∷ pl.path t else pl.path u;
  }

  grown_child :
      (u m j : ℕ)
      → m < 3
      → grown_places.level u ≡ suc m
      → is_present (grown u j) ≡ true
      → (grown_places.level (page_of (grown u j)) ≡ m)
        × (grown_places.path (page_of (grown u j)) ≡ j ∷ grown_places.path u)
  unfolding grown_places
  grown_child u m j hm lu e = elim (ℕ_discrete u p) [
    | yes up ↦
        let zero_cell : grown u j ≡ 0 = ground (arith, up, apart) in
        absurd (ground (arith, ap is_present zero_cell, e))
    | no np ↦ elim (Bool-cases (u == t && j == i)) [
      | inl hit ↦
          let same_u : u ≡ t = ground (arith, hit) in
          let same_j : j ≡ i = ground (arith, hit) in
          let cell : page_of (grown u j) ≡ p = ground (arith, hit) in
          let lower : n ≡ m = ground (arith, lu, np, same_u, level) in
          let other : (u == p) ≡ false = ground (arith, np) in
          (rw cell (ground (arith, lower)), rw (cell, other, same_u, same_j) (ground arith))
      | inr miss ↦
          let cell : grown u j ≡ st.mem u j = ground (arith, miss, np) in
          let there = rw cell at e in
          let lu' : pl.level u ≡ suc m = ground (arith, lu, np) in
          let below = v.child_level u m j hm lu' there in
          let fresh : page_of (st.mem u j) ≢ p =
            λ q. omega (arith, ap pl.level q, below, free, hm) in
          let first : (page_of (st.mem u j) == p) ≡ false = ground (arith, fresh) in
          let other : (u == p) ≡ false = ground (arith, np) in
          (rw (cell, first) below, rw (cell, first, other) (v.child_path u m j hm lu' there))
    ]
  ]

  grown_free : (ps : List ℕ) → Absent p ps → FreeOutside pl ps → FreeOutside grown_places ps
  unfolding grown_places
  grown_free [] a f = tt
  grown_free (q ∷ ps) a f =
      let ne : q ≢ p = λ e. a.0 (sym e) in (ground (arith, f.0, ne), f.1, grown_free ps a.1 f.2)

  pub grown_level :
      (u : ℕ) → u ≢ p → (grown_places.level u ≡ pl.level u) × (grown_places.path u ≡ pl.path u)
  unfolding grown_places
  grown_level u ne =
      let test : (u == p) ≡ false = ground (arith, ne) in (rw test refl, rw test refl)

  pub grown_new : (grown_places.level p ≡ n) × (grown_places.path p ≡ i ∷ pl.path t)
  unfolding grown_places
  grown_new = let test : (p == p) ≡ true = ground arith in (rw test refl, rw test refl)

  -- An entry that was present stays.
  pub grown_kept :
      (u j m : ℕ) → m ≤ 3 → pl.level u ≡ m → is_present (st.mem u j) ≡ true → grown u j ≡ st.mem u j
  grown_kept u j m k e there =
      let old : u ≢ p = λ q. omega (arith, ap pl.level q, free, e, k) in
      elim (Bool-cases (u == t && j == i)) [
        | inl hit ↦
            let same_u : u ≡ t = ground (arith, hit) in
            let same_j : j ≡ i = ground (arith, hit) in
            absurd (ground (arith, rw (same_u, same_j) at there, absent))
        | inr miss ↦ ground (arith, miss, old)
      ]

  pub grown_cell : grown t i ≡ entry p 7
  grown_cell = ground arith

  pub grown-IsTree :
      (ps : List ℕ)
      → Absent p ps
      → FreeOutside pl ps
      → IsTree grown_places (record { mem = grown; free = ps })
  grown-IsTree ps a f = record {
    child_level = λ u m j hm lu e. (grown_child u m j hm lu e).0;
    child_path = λ u m j hm lu e. (grown_child u m j hm lu e).1;
    free_pages = grown_free ps a f;
  }

-- An entry of a page table that is set.
module _ (pl : Places) (st : State) (v : IsTree pl st) (t i e : ℕ) (level : pl.level t ≡ 0) where
  abbrev stored : ℕ → ℕ → ℕ
  stored = put_entry st.mem t i e

  pub stored-IsTree : IsTree pl (record st { mem = stored })
  stored-IsTree = record {
    child_level = λ u m j hm lu there.
        let ne : u ≢ t = λ q. omega (arith, ap pl.level q, lu, level) in
        let cell : stored u j ≡ st.mem u j = ground (arith, ne) in
        rw cell (v.child_level u m j hm lu (rw cell at there));
    child_path = λ u m j hm lu there.
        let ne : u ≢ t = λ q. omega (arith, ap pl.level q, lu, level) in
        let cell : stored u j ≡ st.mem u j = ground (arith, ne) in
        rw cell (v.child_path u m j hm lu (rw cell at there));
    free_pages = v.free_pages;
  }

  -- It is the entry of the addresses that lead to it, and of no others.
  pub pte_from-stored :
      (m u va : ℕ)
      → m ≤ 3
      → pl.level u ≡ m
      → (way m va (pl.path u) ≢ pl.path t) ⊎ (ptx va ≢ i)
      → pte_from m stored u va ≡ pte_from m st.mem u va
  unfolding pte_from
  pte_from-stored zero u va k lu (inl far) =
      let ne : u ≢ t = λ q. far (ap pl.path q) in ground (arith, ne)
  pte_from-stored zero u va k lu (inr far) = ground (arith, far)
  pte_from-stored (suc m) u va k lu far =
      let j = index (suc m) va in
      let ne : u ≢ t = λ q. omega (arith, ap pl.level q, lu, level) in
      let cell : stored u j ≡ st.mem u j = ground (arith, ne) in
      elim (Bool-cases (is_present (st.mem u j))) [
        | inr missing ↦ rw (cell, missing) refl
        | inl there ↦
            let below = v.child_level u m j (omega (arith, k)) lu there in
            let path = v.child_path u m j (omega (arith, k)) lu there in
            rw (cell, there)
              (pte_from-stored m (page_of (st.mem u j)) va (omega (arith, k)) below (rw path far))
      ]
