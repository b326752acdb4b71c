-- ===== src/Sh/Tests.antt =====
-- sh.c on command lines.
use cs461_hw.Prelude.{◌∷◌, ◌≡◌, ◌≢◌, refl, arith, []}
use cs461_hw.Sh.{
  add_arg, redircmd, execcmd, Text, pipecmd, gettoken, parsebacks, parsecmd, parsed, parseexec,
  parseline, parsepipe, parseredirs, parseargs, peek, skip, token_at, unfinished, word,
}
use cs461_hw.Sh.Total.{parsecmd_ends}

-- a | b > c;
abbrev pipeline : Text
pipeline = 97 ∷ 32 ∷ 124 ∷ 98 ∷ 62 ∷ 32 ∷ 99 ∷ []

pipeline_parses :
    parsecmd 20 pipeline
    ≡ parsed
        (pipecmd (execcmd ((97 ∷ []) ∷ [])) (redircmd (execcmd ((98 ∷ []) ∷ [])) (99 ∷ []) 0x201 1))
        []
unfolding parsecmd parseline parsepipe parseexec parseargs parseredirs parsebacks peek gettoken
    token_at skip word add_arg
pipeline_parses = refl

parsecmd_ends_example : parsecmd 20 pipeline ≢ unfinished
parsecmd_ends_example = parsecmd_ends 20 pipeline (omega arith)
