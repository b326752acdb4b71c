-- ===== src/Sh.antt =====
-- sh.c: the parser of the shell's command lines. `*ps` and `es` are the list of the characters that
-- are left, none of them NUL; a character is its code. A pair of pointers to a word is the word, so
-- that the copying of `nulterminate` is done. A function that panics ends the parse.
pub mod Tokens
pub mod Total
mod Tests
use cs461_hw.Prelude.{
  ℕ, zero, suc, ◌+◌, Bool, true, false, not, ◌&&◌, ◌||◌, List, [], ◌∷◌, ◌++◌, leb, ◌==◌,
  if◌then◌else◌, length,
}

abbrev pub Text : Type 0
Text = List ℕ

abbrev pub maxargs : ℕ
maxargs = 10

-- `struct cmd` and its variants. Of a redirection also the `open` mode and the descriptor.
pub data Cmd : Type 0 where
  execcmd : List Text → Cmd
  redircmd : Cmd → Text → ℕ → ℕ → Cmd
  pipecmd : Cmd → Cmd → Cmd
  listcmd : Cmd → Cmd → Cmd
  backcmd : Cmd → Cmd

-- The calls of `panic` in the parser.
pub data Message : Type 0 where
  missing_file_for_redirection not_a_block missing_parenthesis syntax too_many_args : Message

-- The end of a parse: a result with the text that is left, a panic, or no more fuel.
pub data Parsed {ℓ} (A : Type ℓ) : Type ℓ where
  parsed : A → Text → Parsed A
  panicked : Message → Parsed A
  unfinished : Parsed A

abbrev pub and_then {ℓ} : {A B : Type ℓ} → Parsed A → (A → Text → Parsed B) → Parsed B
and_then (parsed a s) k = k a s
and_then (panicked m) k = panicked m
and_then unfinished k = unfinished

-- `strchr(whitespace, c)`
abbrev pub is_whitespace : ℕ → Bool
is_whitespace c = c == 32 || (c == 9 || (c == 13 || (c == 10 || c == 11)))

-- `strchr(toks, c)`
abbrev pub is_in : Text → ℕ → Bool
is_in [] c = false
is_in (t ∷ ts) c = t == c || is_in ts c

-- `symbols`: < | > & ; ( )
abbrev pub symbols : Text
symbols = 60 ∷ 124 ∷ 62 ∷ 38 ∷ 59 ∷ 40 ∷ 41 ∷ []

pub skip : Text → Text
skip [] = []
skip (c ∷ cs) = if is_whitespace c then skip cs else c ∷ cs

-- The loop over a word: the word and the rest.
pub word : Text → Text × Text
word [] = ([], [])
word (c ∷ cs) =
    let (w, rest) = word cs in
    if not (is_whitespace c) && not (is_in symbols c) then (c ∷ w, rest) else ([], c ∷ cs)

-- What `gettoken` returns, 97 for a word and 43 for >>, what lies between `q` and `eq`, and the rest.
pub record Token : Type 0 where
  pub code : ℕ
  pub text : Text
  pub rest : Text

-- The switch of `gettoken` where the text begins.
pub token_at : Text → Token
token_at [] = record { code = 0; text = []; rest = [] }
token_at (c ∷ cs) =
    let one : Token = record { code = c; text = c ∷ []; rest = skip cs } in
    let two : Token = elim cs [
      | [] ↦ one
      | d ∷ ds ↦ if d == 62 then record { code = 43; text = c ∷ d ∷ []; rest = skip ds } else one
    ] in
    let (w, rest) = word (c ∷ cs) in
    if is_in (124 ∷ 40 ∷ 41 ∷ 59 ∷ 38 ∷ 60 ∷ []) c
    then one
    else if c == 62
    then two
    else record { code = 97; text = w; rest = skip rest }

pub gettoken : Text → Token
gettoken s = token_at (skip s)

-- `peek`: whether one of `toks` is next. It leaves `*ps` behind the white space.
pub peek : Text → Text → Bool
peek s toks = elim (skip s) [ [] ↦ false | c ∷ cs ↦ is_in toks c ]

-- One redirection of `parseredirs`: O_RDONLY, or O_WRONLY|O_CREATE for both > and >>.
abbrev pub redirected : Cmd → ℕ → Text → Cmd
redirected cmd code file = if code == 60 then redircmd cmd file 0 0 else redircmd cmd file 0x201 1

pub parseredirs : ℕ → Cmd → Text → Parsed Cmd
parseredirs zero cmd s = unfinished
parseredirs (suc fuel) cmd s =
    let tok = gettoken s in
    let file = gettoken tok.rest in
    let more = parseredirs fuel (redirected cmd tok.code file.text) file.rest in
    if peek s (60 ∷ 62 ∷ [])
    then if file.code == 97 then more else panicked missing_file_for_redirection
    else parsed cmd (skip s)

-- `cmd->argv[argc] = q` where `ret` is the redirections around `cmd`.
pub add_arg : Cmd → Text → Cmd
add_arg (execcmd argv) q = execcmd (argv ++ (q ∷ []))
add_arg (redircmd c file mode fd) q = redircmd (add_arg c q) file mode fd
add_arg c q = c

-- The loop of `parseexec` for `argc` arguments so far.
pub parseargs : ℕ → Cmd → ℕ → Text → Parsed Cmd
parseargs zero ret argc s = unfinished
parseargs (suc fuel) ret argc s =
    let tok = gettoken s in
    let more =
      and_then (parseredirs fuel (add_arg ret tok.text) tok.rest)
        (λ ret' s'. parseargs fuel ret' (argc + 1) s') in
    if peek s (124 ∷ 41 ∷ 38 ∷ 59 ∷ [])
    then parsed ret (skip s)
    else if tok.code == 0
    then parsed ret tok.rest
    else if not (tok.code == 97)
    then panicked syntax
    else if leb maxargs (argc + 1)
    then panicked too_many_args
    else more

-- `parseblock`, which calls `parseline`.
pub parseblock : (Text → Parsed Cmd) → ℕ → Text → Parsed Cmd
parseblock line fuel s =
    if not (peek s (40 ∷ []))
    then panicked not_a_block
    else and_then (line (gettoken s).rest) (λ cmd s'.
      if not (peek s' (41 ∷ []))
      then panicked missing_parenthesis
      else parseredirs fuel cmd (gettoken s').rest)

pub parseexec : (Text → Parsed Cmd) → ℕ → Text → Parsed Cmd
parseexec line fuel s =
    if peek s (40 ∷ [])
    then parseblock line fuel s
    else and_then (parseredirs fuel (execcmd []) s) (λ ret s'. parseargs fuel ret 0 s')

pub parsepipe : (Text → Parsed Cmd) → ℕ → Text → Parsed Cmd
parsepipe line zero s = unfinished
parsepipe line (suc fuel) s = and_then (parseexec line fuel s) (λ cmd s'.
    let more =
      and_then (parsepipe line fuel (gettoken s').rest)
        (λ right s''. parsed (pipecmd cmd right) s'') in
    if peek s' (124 ∷ []) then more else parsed cmd (skip s'))

-- The loop of `parseline` over &.
pub parsebacks : ℕ → Cmd → Text → Parsed Cmd
parsebacks zero cmd s = unfinished
parsebacks (suc fuel) cmd s =
    let more = parsebacks fuel (backcmd cmd) (gettoken s).rest in
    if peek s (38 ∷ []) then more else parsed cmd (skip s)

pub parseline : ℕ → Text → Parsed Cmd
parseline zero s = unfinished
parseline (suc fuel) s = and_then (parsepipe (parseline fuel) fuel s) (λ cmd s'.
    and_then (parsebacks fuel cmd s') (λ cmd' s''.
      let more =
        and_then (parseline fuel (gettoken s'').rest)
          (λ right s3. parsed (listcmd cmd' right) s3) in
      if peek s'' (59 ∷ []) then more else parsed cmd' (skip s'')))

-- `parsecmd`
pub parsecmd : ℕ → Text → Parsed Cmd
parsecmd fuel s =
    and_then (parseline fuel s)
      (λ cmd s'. elim (skip s') [ [] ↦ parsed cmd [] | c ∷ cs ↦ panicked syntax ])
