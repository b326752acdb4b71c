-- ===== src/Grep.antt =====
-- grep.c: the regular expression matcher. A C string is the list of its bytes before the NUL.
pub mod Match
mod Tests
use cs461_hw.Prelude.{ℕ, Bool, true, false, ◌&&◌, ◌||◌, List, [], ◌∷◌, ◌==◌, if◌then◌else◌}

pub is_nil : List ℕ → Bool
is_nil [] = true
is_nil (c ∷ cs) = false

-- The last test of `matchhere`: one byte of the text fits, and `more` matches behind it.
pub match_char : (List ℕ → Bool) → ℕ → List ℕ → Bool
match_char more c [] = false
match_char more c (t ∷ ts) = (c == b'.' || c == t) && more ts

-- `matchstar(c, re, text)`, with `here` for the calls of `matchhere(re, …)`.
pub matchstar : (List ℕ → Bool) → ℕ → List ℕ → Bool
matchstar here c [] = here []
matchstar here c (t ∷ ts) = here (t ∷ ts) || ((t == c || c == b'.') && matchstar here c ts)

-- `matchhere`. At `c ∷ []` the byte `re[1]` is the NUL.
pub matchhere : List ℕ → List ℕ → Bool
matchhere [] text = true
matchhere (c ∷ []) text = if c == b'$' then is_nil text else match_char (matchhere []) c text
matchhere (c ∷ d ∷ re) text =
    if d == b'*' then matchstar (matchhere re) c text else match_char (matchhere (d ∷ re)) c text

-- The loop of `match` over the text's suffixes, the empty one included.
pub match_from : List ℕ → List ℕ → Bool
match_from re [] = matchhere re []
match_from re (t ∷ ts) = matchhere re (t ∷ ts) || match_from re ts

-- `match`
pub match : List ℕ → List ℕ → Bool
match [] text = match_from [] text
match (c ∷ re) text = if c == b'^' then matchhere re text else match_from (c ∷ re) text
