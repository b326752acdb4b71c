-- ===== src/Vm/Walk.antt =====
-- walkpgdir of vm.c, with new tables, against the entries that addresses have.
use cs461_hw.Prelude.{
  ap, ◌≢◌, false, arith, ℕ, suc, ◌≤◌, ◌<◌, ◌≡◌, refl, ◌∙◌, inl, inr, true, Option, none, some, List,
  [], ◌∷◌, Bool-cases,
}
use cs461_hw.Vm.{
  pdx, pdpx, pmx, ptx, walkpgdir, State, is_present, page_of, entry, put_entry, clear, step,
}
use cs461_hw.Vm.Tables.{
  way, pte_from, Places, outside, IsTree, pte_from-grown, grown_places, grown-IsTree, grown_level,
  grown_kept, grown_new, grown_cell,
}

-- What new tables keep: where the old ones are, and all entries.
pub record Kept (pl : Places) (st : State) (pl' : Places) (st' : State) : Type 0 where
  pub level : (u m : ℕ) → m ≤ 3 → pl.level u ≡ m → pl'.level u ≡ m
  pub path : (u m : ℕ) → m ≤ 3 → pl.level u ≡ m → pl'.path u ≡ pl.path u
  pub entries :
      (m u va : ℕ) → m ≤ 3 → pl.level u ≡ m → pte_from m st'.mem u va ≡ pte_from m st.mem u va
  pub cells :
      (u j m : ℕ)
      → m ≤ 3
      → pl.level u ≡ m
      → is_present (st.mem u j) ≡ true
      → st'.mem u j ≡ st.mem u j

Kept-refl : (pl : Places) (st : State) → Kept pl st pl st
Kept-refl pl st = record {
  level = λ u m h e. e;
  path = λ u m h e. refl;
  entries = λ m u va h e. refl;
  cells = λ u j m h e there. refl;
}

pub Kept-trans :
    {pl pl' pl'' : Places} {st st' st'' : State}
    → Kept pl st pl' st'
    → Kept pl' st' pl'' st''
    → Kept pl st pl'' st''
Kept-trans a b = record {
  level = λ u m h e. b.level u m h (a.level u m h e);
  path = λ u m h e. b.path u m h (a.level u m h e) ∙ a.path u m h e;
  entries = λ m u va h e. b.entries m u va h (a.level u m h e) ∙ a.entries m u va h e;
  cells = λ u j m h e there.
      let first = a.cells u j m h e there in
      b.cells u j m h (a.level u m h e) (ap is_present first ∙ there) ∙ first;
}

-- What a step from table `t` with level `suc n` does, at an index.
data Stepped (pl : Places) (st : State) (t n i : ℕ) (r : State × Option ℕ) : Type 0 where
  stepped :
      (pl' : Places) (st' : State) (c : ℕ)
      → r ≡ (st', some c)
      → IsTree pl' st'
      → Kept pl st pl' st'
      → pl'.level c ≡ n
      → pl'.path c ≡ i ∷ pl.path t
      → is_present (st'.mem t i) ≡ true
      → page_of (st'.mem t i) ≡ c
      → Stepped pl st t n i r
  no_page : r ≡ (st, none) → st.free ≡ [] → Stepped pl st t n i r

step-Stepped :
    (pl : Places) (st : State) (v : IsTree pl st) (t n i : ℕ)
    → n < 3
    → pl.level t ≡ suc n
    → Stepped pl st t n i (step true t i st)
unfolding step
step-Stepped pl st v t n i h lt = elim (Bool-cases (is_present (st.mem t i))) [
  | inl there ↦
      stepped pl st (page_of (st.mem t i)) (rw there refl) v (Kept-refl pl st)
        (v.child_level t n i h lt there) (v.child_path t n i h lt there) there refl
  | inr missing ↦ rw missing (fresh missing st.free refl)
]
  where
    fresh :
        (missing : is_present (st.mem t i) ≡ false) (ps : List ℕ)
        → st.free ≡ ps
        → Stepped pl st t n i (elim st.free as (λ x. State × Option ℕ) [
          | [] ↦ (st, none)
          | p ∷ ps ↦
              (record { mem = put_entry (clear st.mem p) t i (entry p 7); free = ps }, some p)
        ])
    fresh missing [] e = no_page (simp (e) refl) e
    fresh missing (p ∷ ps) e =
        let f = rw e at v.free_pages in
        let out : pl.level p ≡ outside = f.0 in
        let pl' = grown_places pl st v t n i p h lt missing out in
        let st' : State = record { mem = put_entry (clear st.mem p) t i (entry p 7); free = ps } in
        let old : (u m : ℕ) → m ≤ 3 → pl.level u ≡ m → u ≢ p =
          λ u m k q x. omega (arith, ap pl.level x, q, out, k) in
        let cell = grown_cell pl st v t n i p h lt missing out in
        stepped pl' st' p (simp (e) refl) (grown-IsTree pl st v t n i p h lt missing out ps f.1 f.2)
          (record {
            level = λ u m k q. (grown_level pl st v t n i p h lt missing out u (old u m k q)).0 ∙ q;
            path = λ u m k q. (grown_level pl st v t n i p h lt missing out u (old u m k q)).1;
            entries = λ m u va k q. pte_from-grown pl st v t n i p h lt missing out m u va k q;
            cells = λ u j m k q there. grown_kept pl st v t n i p h lt missing out u j m k q there;
          })
          (grown_new pl st v t n i p h lt missing out).0
          (grown_new pl st v t n i p h lt missing out).1 (ap is_present cell ∙ ground arith)
          (ap page_of cell ∙ omega arith)

-- The tables on the way from a root to page table `t`.
pub record Leads (mem : ℕ → ℕ → ℕ) (root va t : ℕ) : Type 0 where
  pub pdp : ℕ
  pub pd : ℕ
  pub there1 : is_present (mem root (pmx va)) ≡ true
  pub page1 : page_of (mem root (pmx va)) ≡ pdp
  pub there2 : is_present (mem pdp (pdpx va)) ≡ true
  pub page2 : page_of (mem pdp (pdpx va)) ≡ pd
  pub there3 : is_present (mem pd (pdx va)) ≡ true
  pub page3 : page_of (mem pd (pdx va)) ≡ t

pub pte_from-Leads :
    (mem : ℕ → ℕ → ℕ) (root va t : ℕ)
    → Leads mem root va t
    → pte_from 3 mem root va ≡ mem t (ptx va)
unfolding pte_from
pte_from-Leads mem root va t w = rw (w.there1, w.page1, w.there2, w.page2, w.there3, w.page3) refl

-- What walkpgdir with allocation gives from a root.
pub data Walked (pl : Places) (st : State) (root va : ℕ) (r : State × Option ℕ) : Type 0 where
  walked :
      (pl' : Places) (st' : State) (t : ℕ)
      → r ≡ (st', some t)
      → IsTree pl' st'
      → Kept pl st pl' st'
      → pl'.level t ≡ 0
      → pl'.path t ≡ way 3 va (pl.path root)
      → Leads st'.mem root va t
      → Walked pl st root va r
  walk_failed :
      (pl' : Places) (st' : State)
      → r ≡ (st', none)
      → IsTree pl' st'
      → Kept pl st pl' st'
      → st'.free ≡ []
      → Walked pl st root va r

pub walkpgdir-Walked :
    (pl : Places) (st : State) (root va : ℕ)
    → IsTree pl st
    → pl.level root ≡ 3
    → Walked pl st root va (walkpgdir true root va st)
unfolding walkpgdir
walkpgdir-Walked pl st root va v l = elim (step-Stepped pl st v root 2 (pmx va) (omega arith) l) [
  | no_page e f ↦ walk_failed pl st (rw e refl) v (Kept-refl pl st) f
  | stepped pl1 st1 c1 e1 v1 k1 l1 p1 there1 page1 ↦
      elim (step-Stepped pl1 st1 v1 c1 1 (pdpx va) (omega arith) l1) [
        | no_page e f ↦ walk_failed pl1 st1 (rw (e1, e) refl) v1 k1 f
        | stepped pl2 st2 c2 e2 v2 k2 l2 p2 there2 page2 ↦
            elim (step-Stepped pl2 st2 v2 c2 0 (pdx va) (omega arith) l2) [
              | no_page e f ↦ walk_failed pl2 st2 (rw (e1, e2, e) refl) v2 (Kept-trans k1 k2) f
              | stepped pl3 st3 c3 e3 v3 k3 l3 p3 there3 page3 ↦
                  let k23 = Kept-trans k2 k3 in
                  let cell1 =
                    k23.cells root (pmx va) 3 (omega arith) (k1.level root 3 (omega arith) l)
                      there1 in
                  let cell2 =
                    k3.cells c1 (pdpx va) 2 (omega arith) (k2.level c1 2 (omega arith) l1) there2 in
                  walked pl3 st3 c3 (rw (e1, e2, e3) refl) v3 (Kept-trans k1 k23) l3
                    (p3 ∙ ap (λ q. pdx va ∷ q) (p2 ∙ ap (λ q. pdpx va ∷ q) p1))
                    (record {
                      pdp = c1;
                      pd = c2;
                      there1 = ap is_present cell1 ∙ there1;
                      page1 = ap page_of cell1 ∙ page1;
                      there2 = ap is_present cell2 ∙ there2;
                      page2 = ap page_of cell2 ∙ page2;
                      there3 = there3;
                      page3 = page3;
                    })
            ]
      ]
]
