-- ===== src/Vm/Tests.antt =====
-- A root in page 1 without entries, and four free pages.
use cs461_hw.Prelude.{◌+◌, ltb, ◌≡◌, ◌&&◌, none, some, refl, [], ◌∷◌, arith, ◌==◌, if◌then◌else◌}
use cs461_hw.Vm.{entry, walkpgdir, step, uva2ka, is_present, is_user, page_of, State, mappages}
use cs461_hw.Vm.Tables.{Places}
use cs461_hw.Vm.User.{has_table, uva2ka-pte}
use cs461_hw.Vm.Entry.{pte}
use cs461_hw.Vm.Pages.{Rooted, Mapped, mappages-Mapped}

abbrev test_state : State
test_state = record { mem = λ t i. 0; free = 2 ∷ 3 ∷ 4 ∷ 5 ∷ [] }

abbrev test_places : Places
test_places = record { level = λ u. if u == 1 then 3 else 9; path = λ u. [] }

test_state-Rooted : Rooted test_state 1
test_state-Rooted = record {
  places = test_places;
  tree = record {
    child_level = λ t n i h l e. absurd (ground (arith, e));
    child_path = λ t n i h l e. absurd (ground (arith, e));
    free_pages = (
      refl,
      (omega arith, (omega arith, (omega arith, tt))),
      (refl, (omega arith, (omega arith, tt)), (refl, (omega arith, tt), (refl, tt, tt))),
    );
  };
  top = refl;
  empty = refl;
}

mappages-Mapped_example : Mapped test_state 1 8192 32 6 2 (mappages 1 8200 5000 32 6 test_state)
mappages-Mapped_example =
    mappages-Mapped test_state 1 8200 5000 32 6 test_state-Rooted (omega arith) (omega arith)

-- The entries of address 0 at all four levels: the tables are pages 1 to 4, and page 9 is the user's.
abbrev user_page : State
user_page = record {
  mem = λ t i.
      if i == 0
      then if ltb 0 t && ltb t 4 then entry (t + 1) 7 else if t == 4 then entry 9 7 else 0
      else 0;
  free = [];
}

uva2ka-pte_example : uva2ka 1 8 user_page ≡ (
    if has_table user_page 1 8
    then some (
        if is_present (pte user_page 1 8) && is_user (pte user_page 1 8)
        then some (page_of (pte user_page 1 8))
        else none)
    else none)
uva2ka-pte_example = uva2ka-pte user_page 1 8

finds_page_nine : uva2ka 1 8 user_page ≡ some (some 9)
unfolding uva2ka walkpgdir step
finds_page_nine = refl

faults_without_a_table : uva2ka 1 8192 test_state ≡ none
unfolding uva2ka walkpgdir step
faults_without_a_table = refl
