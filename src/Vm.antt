-- ===== src/Vm.antt =====
-- vm.c: page tables of four levels. A page of memory is known by its number, its physical address less
-- the lowest 12 bits, and a table is the page of its 512 entries. kalloc takes the first page of the list
-- of the free ones, as kalloc.c does.
pub mod Tables
pub mod Walk
pub mod Entry
pub mod Pages
pub mod User
mod Tests
use cs461_hw.Prelude.{
  ℕ, zero, suc, ◌+◌, ◌-◌, ◌*◌, ◌/◌, ◌%◌, ◌^◌, Bool, true, false, not, ◌&&◌, Option, none, some,
  List, [], ◌∷◌, ◌==◌, if◌then◌else◌,
}

pub record State : Type 0 where
  pub mem : ℕ → ℕ → ℕ
  pub free : List ℕ

pub data Result {ℓ} (A : Type ℓ) : Type ℓ where
  ok : A → State → Result A
  panic : State → Result A

-- `PTE_P` and `PTE_U` of an entry, and the page of `PTE_ADDR`.
abbrev pub is_present : ℕ → Bool
is_present e = e % 2 == 1

abbrev pub is_user : ℕ → Bool
is_user e = e / 4 % 2 == 1

abbrev pub page_of : ℕ → ℕ
page_of e = e / 4096

-- `pa | perm | PTE_P` for the address of a page and flags, which its callers pass below 4096, so
-- that the bits do not meet.
abbrev pub entry : ℕ → ℕ → ℕ
entry page perm = 4096 * page + perm % 4096 / 2 * 2 + 1

-- `PMX`, `PDPX`, `PDX` and `PTX`
abbrev pub pmx : ℕ → ℕ
pmx va = va / 2 ^ 39 % 512

abbrev pub pdpx : ℕ → ℕ
pdpx va = va / 2 ^ 30 % 512

abbrev pub pdx : ℕ → ℕ
pdx va = va / 2 ^ 21 % 512

abbrev pub ptx : ℕ → ℕ
ptx va = va / 2 ^ 12 % 512

abbrev pub put_entry : (ℕ → ℕ → ℕ) → ℕ → ℕ → ℕ → ℕ → ℕ → ℕ
put_entry mem t i e u j = if u == t && j == i then e else mem u j

-- `memset` of a page with 0.
abbrev pub clear : (ℕ → ℕ → ℕ) → ℕ → ℕ → ℕ → ℕ
clear mem t u j = if u == t then 0 else mem u j

-- The step of `walkpgdir` from a table to the next, the same at three levels; the flags of a new
-- entry are PTE_P, PTE_W and PTE_U.
pub step : Bool → ℕ → ℕ → State → State × Option ℕ
step alloc t i st =
    let e = st.mem t i in
    let fresh : State × Option ℕ = elim st.free [
      | [] ↦ (st, none)
      | p ∷ ps ↦ (record { mem = put_entry (clear st.mem p) t i (entry p 7); free = ps }, some p)
    ] in
    if is_present e then (st, some (page_of e)) else if not alloc then (st, none) else fresh

-- A step after another.
abbrev pub and_then : State × Option ℕ → (ℕ → State → State × Option ℕ) → State × Option ℕ
and_then (st, none) f = (st, none)
and_then (st, some t) f = f t st

-- `walkpgdir`: the page table, in which `ptx va` is the entry.
pub walkpgdir : Bool → ℕ → ℕ → State → State × Option ℕ
walkpgdir alloc pml4 va st =
    and_then (and_then (step alloc pml4 (pmx va) st) (λ pdp. step alloc pdp (pdpx va)))
      (λ pd. step alloc pd (pdx va))

-- `mappages` for the `n` pages from the address `a` on, with those of memory from `page` on: false is -1.
pub map_loop : ℕ → ℕ → ℕ → ℕ → ℕ → State → Result Bool
map_loop zero pml4 a page perm st = ok true st
map_loop (suc n) pml4 a page perm st =
    let found = walkpgdir true pml4 a st in
    elim found.1 [
      | none ↦ ok false found.0
      | some t ↦
          let st' : State = record found.0 {
            mem = put_entry found.0.mem t (ptx a) (entry page perm);
          } in
          let rest = map_loop n pml4 (a + 4096) (page + 1) perm st' in
          if is_present (found.0.mem t (ptx a)) then panic found.0 else rest
    ]

-- `mappages`; the range does not wrap round. The loop ends with the page of the last byte.
pub mappages : ℕ → ℕ → ℕ → ℕ → ℕ → State → Result Bool
mappages pml4 va size page perm st =
    let a = va / 4096 * 4096 in
    let last = (va + size - 1) / 4096 * 4096 in map_loop ((last - a) / 4096 + 1) pml4 a page perm st

-- `uva2ka`: the page, none is 0. Without a page table it would read through a null pointer, which is
-- the first case.
pub uva2ka : ℕ → ℕ → State → Option (Option ℕ)
uva2ka pml4 uva st = elim (walkpgdir false pml4 uva st).1 [
  | none ↦ none
  | some t ↦
      let e = st.mem t (ptx uva) in
      if not (is_present e)
      then some none
      else if not (is_user e)
      then some none
      else some (some (page_of e))
]

-- `clearpteu`
pub clearpteu : ℕ → ℕ → State → Result (Unit {0})
clearpteu pml4 uva st = elim (walkpgdir false pml4 uva st).1 [
  | none ↦ panic st
  | some t ↦
      let e = st.mem t (ptx uva) in
      ok tt (record st { mem = put_entry st.mem t (ptx uva) (e - (if is_user e then 4 else 0)) })
]
