-- ===== src/Vm/Entry.antt =====
-- The entry that mappages of vm.c sets, as the entry of the addresses of a page.
use cs461_hw.Vm.Walk.{pte_from-Leads, Leads}
use cs461_hw.Prelude.{
  suc, sym, ap, ◌∙◌, ◌≢◌, ◌⊎◌, inl, inr, true, false, [], ℕ_discrete, ◌==◌, if◌then◌else◌, get_or,
  ℕ, ◌/◌, ◌%◌, ◌^◌, ◌≡◌, arith,
}
use cs461_hw.Vm.{page_of, is_present, put_entry, State, pmx, pdpx, pdx, ptx}
use cs461_hw.Vm.Tables.{pte_from-stored, way, IsTree, Places, pte_from}

-- The number of the page of an address, among those of 48 bits.
abbrev pub page_no : ℕ → ℕ
page_no va = va % 2 ^ 48 / 4096

-- The entry of an address.
abbrev pub pte : State → ℕ → ℕ → ℕ
pte st root va = pte_from 3 st.mem root va

same_indices :
    (va a : ℕ)
    → page_no va ≡ page_no a
    → (ptx va ≡ ptx a) × (pdx va ≡ pdx a) × (pdpx va ≡ pdpx a) × (pmx va ≡ pmx a)
same_indices va a e = (omega (arith, e), omega (arith, e), omega (arith, e), omega (arith, e))

same_page :
    (va a : ℕ)
    → ptx va ≡ ptx a
    → pdx va ≡ pdx a
    → pdpx va ≡ pdpx a
    → pmx va ≡ pmx a
    → page_no va ≡ page_no a
same_page va a p q r s = omega (arith, p, q, r, s)

-- An entry set in the page table that walkpgdir has found.
module _ (pl : Places) (st : State) (root a t e : ℕ) (v : IsTree pl st) (top : pl.level root ≡ 3)
    (empty : pl.path root ≡ []) (low : pl.level t ≡ 0) (on : pl.path t ≡ way 3 a [])
    (leads : Leads st.mem root a t) where
  abbrev set_mem : ℕ → ℕ → ℕ
  set_mem = put_entry st.mem t (ptx a) e

  cell : (u j m : ℕ) → pl.level u ≡ suc m → set_mem u j ≡ st.mem u j
  cell u j m l = let ne : u ≢ t = λ q. omega (arith, ap pl.level q, l, low) in ground (arith, ne)

  Leads-set : (va : ℕ) → page_no va ≡ page_no a → Leads set_mem root va t
  Leads-set va same =
      let (e0, e1, e2, e3) = same_indices va a same in
      let level2 : pl.level leads.pdp ≡ 2 =
        rw leads.page1 at (v.child_level root 2 (pmx a) (omega arith) top leads.there1) in
      let level1 : pl.level leads.pd ≡ 1 =
        rw leads.page2 at (v.child_level leads.pdp 1 (pdpx a) (omega arith) level2 leads.there2) in
      let cell1 = ap (set_mem root) e3 ∙ cell root (pmx a) 2 top in
      let cell2 = ap (set_mem leads.pdp) e2 ∙ cell leads.pdp (pdpx a) 1 level2 in
      let cell3 = ap (set_mem leads.pd) e1 ∙ cell leads.pd (pdx a) 0 level1 in
      record {
        pdp = leads.pdp;
        pd = leads.pd;
        there1 = ap is_present cell1 ∙ leads.there1;
        page1 = ap page_of cell1 ∙ leads.page1;
        there2 = ap is_present cell2 ∙ leads.there2;
        page2 = ap page_of cell2 ∙ leads.page2;
        there3 = ap is_present cell3 ∙ leads.there3;
        page3 = ap page_of cell3 ∙ leads.page3;
      }

  far : (va : ℕ) → page_no va ≢ page_no a → (way 3 va (pl.path root) ≢ pl.path t) ⊎ (ptx va ≢ ptx a)
  far va ne = elim (ℕ_discrete (ptx va) (ptx a)) [
    | no n ↦ inr n
    | yes p ↦ inl (λ q.
        let ways : way 3 va [] ≡ way 3 a [] = ap (way 3 va) (sym empty) ∙ q ∙ on in
        let f = λ (k : ℕ). ap (λ x. get_or x k 0) ways in ne (same_page va a p (f 0) (f 1) (f 2)))
  ]

  pub pte-set :
      (va : ℕ)
      → pte (record st { mem = set_mem }) root va
        ≡ (if page_no va == page_no a then e else pte st root va)
  pte-set va = elim (ℕ_discrete (page_no va) (page_no a)) [
    | yes same ↦
        let hit : (page_no va == page_no a) ≡ true = ground (arith, same) in
        let at : ptx va ≡ ptx a = (same_indices va a same).0 in
        let self : set_mem t (ptx a) ≡ e = ground arith in
        pte_from-Leads set_mem root va t (Leads-set va same)
        ∙ ap (set_mem t) at
        ∙ self
        ∙ sym (ap (λ x. if x then e else pte st root va) hit)
    | no other ↦
        let miss : (page_no va == page_no a) ≡ false = ground (arith, other) in
        pte_from-stored pl st v t (ptx a) e low 3 root va (omega arith) top (far va other)
        ∙ sym (ap (λ x. if x then e else pte st root va) miss)
  ]
