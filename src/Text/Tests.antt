-- ===== src/Text/Tests.antt =====
-- string.c at concrete inputs.
use cs461_hw.Prelude.{◌+◌, ltb, if◌then◌else◌, ◌≡◌, refl, some}
use cs461_hw.Text.{memmove, Memory, strlen, strlen_from}
use cs461_hw.Text.Move.{memmove_moves}

-- A string of nine bytes at 0.
abbrev memory : Memory
memory a = if ltb a 9 then a + 1 else 0

memmove_moves_example : memmove memory 2 0 5 4 ≡ 3
memmove_moves_example = memmove_moves memory 2 0 5 4

nine_long : strlen 20 memory 0 ≡ some 9
unfolding strlen strlen_from
nine_long = refl
