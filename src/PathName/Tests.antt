-- ===== src/PathName/Tests.antt =====
-- A tree with the root 1, in it the directory "a" with number 2, and in that "b" with number 3.
use cs461_hw.Prelude.{
  ℕ, ◌≡◌, refl, ◌&&◌, none, some, List, [], ◌∷◌, ltb, ◌==◌, if◌then◌else◌, get_or,
}
use cs461_hw.PathName.{element, drop_slashes, Tree, namei, nameiparent, starts_at, skipelem}
use cs461_hw.PathName.Elements.{names, walk, walk_parent, namei-walk}

abbrev test_tree : Tree
test_tree = record {
  root = 1;
  cwd = 2;
  is_dir = λ i. ltb i 3;
  lookup = λ i n.
      if i == 1 && get_or n 0 0 == 97
      then some 2
      else if i == 2 && get_or n 0 0 == 98
      then some 3
      else none;
}

-- "//a///b/"
abbrev test_path : List ℕ
test_path = 47 ∷ 47 ∷ 97 ∷ 47 ∷ 47 ∷ 47 ∷ 98 ∷ 47 ∷ []

test_skipelem : skipelem test_path ≡ some (98 ∷ 47 ∷ [], 97 ∷ [])
unfolding skipelem drop_slashes element
test_skipelem = refl

namei-walk_example :
    (namei test_tree test_path ≡ walk test_tree (starts_at test_tree test_path) (names test_path))
    × (nameiparent test_tree test_path
        ≡ walk_parent test_tree (starts_at test_tree test_path) (names test_path))
namei-walk_example = namei-walk test_tree test_path
