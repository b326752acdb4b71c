-- ===== src/Grep/Tests.antt =====
-- The matcher of grep.c at concrete inputs.
use cs461_hw.Prelude.{ℕ, ◌≡◌, refl, ◌↔◌, true, false, List, [], ◌∷◌}
use cs461_hw.Grep.{is_nil, match_char, matchstar, match, matchhere, match_from}
use cs461_hw.Grep.Match.{match_iff, matchhere_iff, Matches, parse, Selects}

-- "a*b$"
abbrev a_star_b : List ℕ
a_star_b = b'a' ∷ b'*' ∷ b'b' ∷ b'$' ∷ []

-- "caab"
abbrev caab : List ℕ
caab = b'c' ∷ b'a' ∷ b'a' ∷ b'b' ∷ []

finds_caab : match a_star_b caab ≡ true
unfolding match match_from matchhere matchstar match_char is_nil
finds_caab = refl

anchored_misses_caab : match (b'^' ∷ a_star_b) caab ≡ false
unfolding match match_from matchhere matchstar match_char is_nil
anchored_misses_caab = refl

matchhere_iff_example : (matchhere a_star_b caab ≡ true) ↔ Matches (parse a_star_b) caab
matchhere_iff_example = matchhere_iff a_star_b caab

match_iff_example : (match a_star_b caab ≡ true) ↔ Selects a_star_b caab
match_iff_example = match_iff a_star_b caab
