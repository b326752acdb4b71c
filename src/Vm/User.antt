-- ===== src/Vm/User.antt =====
-- uva2ka and clearpteu of vm.c, which look at an address without new tables.
use cs461_hw.Prelude.{
  Bool, ℕ, ◌≡◌, refl, inl, inr, true, false, ◌&&◌, Option, none, some, if◌then◌else◌, Bool-cases,
}
use cs461_hw.Vm.{State, is_present, is_user, page_of, pmx, pdpx, pdx, ptx, step, walkpgdir, uva2ka}
use cs461_hw.Vm.Tables.{pte_from}
use cs461_hw.Vm.Entry.{pte}

step_present :
    (t i : ℕ) (st : State)
    → is_present (st.mem t i) ≡ true
    → step false t i st ≡ (st, some (page_of (st.mem t i)))
unfolding step
step_present t i st e = rw e refl

step_missing :
    (t i : ℕ) (st : State) → is_present (st.mem t i) ≡ false → step false t i st ≡ (st, none)
unfolding step
step_missing t i st e = rw e refl

-- The entries of the three upper levels on the way to an address are present, so that it has a page
-- table.
abbrev pub has_table : State → ℕ → ℕ → Bool
has_table st root va =
    let pdp = page_of (st.mem root (pmx va)) in
    let pd = page_of (st.mem pdp (pdpx va)) in
    is_present (st.mem root (pmx va))
    && (is_present (st.mem pdp (pdpx va)) && is_present (st.mem pd (pdx va)))

-- What walkpgdir without allocation gives: the page table with the entry, or nothing, and nothing is
-- changed.
data Seen (st : State) (root va : ℕ) (r : State × Option ℕ) : Type 0 where
  seen :
      (t : ℕ)
      → r ≡ (st, some t)
      → has_table st root va ≡ true
      → pte st root va ≡ st.mem t (ptx va)
      → Seen st root va r
  no_table : r ≡ (st, none) → has_table st root va ≡ false → Seen st root va r

walkpgdir-Seen : (st : State) (root va : ℕ) → Seen st root va (walkpgdir false root va st)
unfolding walkpgdir pte_from
walkpgdir-Seen st root va = elim (Bool-cases (is_present (st.mem root (pmx va)))) [
  | inr missing ↦ no_table (rw (step_missing root (pmx va) st missing) refl) (rw missing refl)
  | inl there ↦
      let pdp = page_of (st.mem root (pmx va)) in
      let first = step_present root (pmx va) st there in
      elim (Bool-cases (is_present (st.mem pdp (pdpx va)))) [
        | inr missing ↦
            no_table (rw (first, step_missing pdp (pdpx va) st missing) refl)
              (rw (there, missing) refl)
        | inl there2 ↦
            let pd = page_of (st.mem pdp (pdpx va)) in
            let second = step_present pdp (pdpx va) st there2 in
            elim (Bool-cases (is_present (st.mem pd (pdx va)))) [
              | inr missing ↦
                  no_table (rw (first, second, step_missing pd (pdx va) st missing) refl)
                    (rw (there, there2, missing) refl)
              | inl there3 ↦
                  seen (page_of (st.mem pd (pdx va)))
                    (rw (first, second, step_present pd (pdx va) st there3) refl)
                    (rw (there, there2, there3) refl) (rw (there, there2, there3) refl)
            ]
      ]
]

-- uva2ka of an address that has a page table gives the page of its entry if the entry is present and of
-- the user, and 0 otherwise. The bug: for every address that has no page table it reads through a
-- null pointer.
pub uva2ka-pte :
    (st : State) (root va : ℕ)
    → uva2ka root va st ≡ (
        if has_table st root va
        then some (
            if is_present (pte st root va) && is_user (pte st root va)
            then some (page_of (pte st root va))
            else none)
        else none)
unfolding uva2ka
uva2ka-pte st root va = elim (walkpgdir-Seen st root va) [
  | no_table e z ↦ rw (e, uva2ka, z) refl
  | seen t e h q ↦ elim (Bool-cases (is_present (st.mem t (ptx va)))) [
    | inr missing ↦ rw (e, uva2ka, h, q, missing) refl
    | inl there ↦ elim (Bool-cases (is_user (st.mem t (ptx va)))) [
      | inr kernel ↦ rw (e, uva2ka, h, q, there, kernel) refl
      | inl user ↦ rw (e, uva2ka, h, q, there, user) refl
    ]
  ]
]
