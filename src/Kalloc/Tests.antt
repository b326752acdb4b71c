-- ===== src/Kalloc/Tests.antt =====
-- kalloc.c on a memory of three pages.
use cs461_hw.Prelude.{ℕ, ◌+◌, ◌*◌, true, arith, ◌==◌, if◌then◌else◌, ◌≡◌, refl, some, [], ◌∷◌}
use cs461_hw.Kalloc.{pgsize, Kmem, kalloc, kfree, kernbase}
use cs461_hw.Kalloc.Pages.{Allocated, IsValid, kalloc-Allocated, kfree-IsValid}

abbrev page : ℕ → ℕ
page i = kernbase + i * pgsize

abbrev two_free : Kmem
two_free = record {
  word = λ a. if a == page 2 then page 1 else 0;
  freelist = page 2;
  use_lock = true;
}

two_free-IsValid : IsValid two_free (page 2 ∷ page 1 ∷ []) (page 3 ∷ [])
two_free-IsValid = record {
  chain = (refl, (omega arith, (refl, (omega arith, refl))));
  distinct = (refl, (refl, (refl, tt)));
}

kalloc-Allocated_example : Allocated two_free (page 2 ∷ page 1 ∷ []) (page 3 ∷ [])
kalloc-Allocated_example =
    kalloc-Allocated two_free (page 2 ∷ page 1 ∷ []) (page 3 ∷ []) two_free-IsValid

kfree-IsValid_example :
    (k' : Kmem) × (kfree kernbase two_free (page 3) ≡ some k')
    × IsValid k' (page 3 ∷ page 2 ∷ page 1 ∷ []) []
    × ((kalloc k').1 ≡ page 3)
kfree-IsValid_example =
    kfree-IsValid kernbase two_free (page 2 ∷ page 1 ∷ []) [] (page 3) [] two_free-IsValid refl
      (omega arith)

abbrev empty : Kmem
empty = record { word = λ a. 7; freelist = 0; use_lock = true }
