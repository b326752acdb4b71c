-- ===== src/Kalloc.antt =====
-- kalloc.c: physical pages on a list that runs through the free pages themselves. An address is a
-- number below 2 ^ 64, and 0 is the null pointer; of the memory only the first word of each page is
-- kept, where a free page has its `next`. The lock of phase two is not in the model.
pub mod Pages
pub mod Range
mod Tests
use cs461_hw.Prelude.{
  ℕ, zero, suc, ◌+◌, ◌-◌, ◌*◌, ◌/◌, ◌%◌, ◌^◌, Bool, true, false, ◌&&◌, Option, none, some, ltb, leb,
  ◌==◌, if◌then◌else◌,
}

abbrev pub pgsize : ℕ
pgsize = 4096

abbrev pub kernbase : ℕ
kernbase = 0xFFFF_8000_0000_0000

abbrev pub phystop : ℕ
phystop = 0xE00_0000

-- `kmem` and the first words of pages.
pub record Kmem : Type 0 where
  pub word : ℕ → ℕ
  pub freelist : ℕ
  pub use_lock : Bool

-- `V2P(v)`, which wraps round below KERNBASE.
abbrev pub v2p : ℕ → ℕ
v2p v = (v + 2 ^ 64 - kernbase) % 2 ^ 64

-- `PGROUNDUP(v)`
abbrev pub pgroundup : ℕ → ℕ
pgroundup v = (v + (pgsize - 1)) / pgsize * pgsize % 2 ^ 64

-- What `kfree` accepts; `end` is the first address after the kernel.
abbrev pub is_page : ℕ → ℕ → Bool
is_page end v = v % pgsize == 0 && (leb end v && ltb (v2p v) phystop)

abbrev pub put_word : (ℕ → ℕ) → ℕ → ℕ → ℕ → ℕ
put_word word a v b = if b == a then v else word b

-- `kfree`, none for its panic. The junk that it fills the page with is then overwritten in the
-- first word.
pub kfree : ℕ → Kmem → ℕ → Option Kmem
kfree end k v =
    if is_page end v
    then some (record k { word = put_word k.word v k.freelist; freelist = v })
    else none

-- `kalloc`: 0 when no page is free.
pub kalloc : Kmem → Kmem × ℕ
kalloc k =
    if k.freelist == 0 then (k, 0) else (record k { freelist = k.word k.freelist }, k.freelist)

-- The loop of `freerange` from `p` on, with fuel.
pub free_from : ℕ → ℕ → Kmem → ℕ → ℕ → Option Kmem
free_from zero end k p vend = some k
free_from (suc fuel) end k p vend =
    let next = (p + pgsize) % 2 ^ 64 in
    let rest : Option Kmem = elim (kfree end k p) [
      | none ↦ none
      | some k' ↦ free_from fuel end k' next vend
    ] in
    if leb next vend then rest else some k

-- `freerange`: each round passes a page, so that `vend` rounds are more than enough.
pub freerange : ℕ → Kmem → ℕ → ℕ → Option Kmem
freerange end k vstart vend = free_from (vend + 1) end k (pgroundup vstart) vend

pub kinit1 : ℕ → Kmem → ℕ → ℕ → Option Kmem
kinit1 end k vstart vend = freerange end (record k { use_lock = false }) vstart vend

pub kinit2 : ℕ → Kmem → ℕ → ℕ → Option Kmem
kinit2 end k vstart vend = elim (freerange end k vstart vend) [
  | none ↦ none
  | some k' ↦ some (record k' { use_lock = true })
]
