-- ===== src/Sh/Total.antt =====
-- That the parser of sh.c comes to an end.
use cs461_hw.Prelude.{
  ◌+◌, not, leb, ◌-◌, ℕ, zero, suc, ◌≤◌, ◌<◌, ◌≡◌, ◌≢◌, inl, inr, refl, Bool, true, false, [], ◌∷◌,
  length, arith, if◌then◌else◌, ◌==◌,
}
use cs461_hw.Sh.{
  add_arg, execcmd, maxargs, parseargs, parsebacks, parseblock, parsecmd, parseexec, parseline,
  parsepipe, and_then, Cmd, gettoken, panicked, parsed, Parsed, parseredirs, peek, Text, unfinished,
}
use cs461_hw.Sh.Tokens.{skip-le, skip-head, gettoken-le, peek-shorter, word-shorter}

-- A parse that has ended with at most n characters left.
abbrev pub HasEnded {ℓ} : {A : Type ℓ} → ℕ → Parsed A → Type 0
HasEnded n (parsed a s) = length s ≤ n
HasEnded n (panicked m) = Unit {0}
HasEnded n unfinished = ⊥

HasEnded-and_then {ℓ} :
    {A B : Type ℓ} (n m : ℕ) (r : Parsed A) (k : A → Text → Parsed B)
    → HasEnded n r
    → ((a : A) (s : Text) → length s ≤ n → HasEnded m (k a s))
    → HasEnded m (and_then r k)
HasEnded-and_then n m (parsed a s) k h f = f a s h
HasEnded-and_then n m (panicked e) k h f = tt
HasEnded-and_then n m unfinished k h f = absurd h

HasEnded-if {ℓ} :
    {A : Type ℓ} (n : ℕ) (b : Bool) (x y : Parsed A)
    → (b ≡ true → HasEnded n x)
    → (b ≡ false → HasEnded n y)
    → HasEnded n (if b then x else y)
HasEnded-if n true x y f g = f refl
HasEnded-if n false x y f g = g refl

HasEnded-mono {ℓ} : {A : Type ℓ} (n m : ℕ) (r : Parsed A) → n ≤ m → HasEnded n r → HasEnded m r
HasEnded-mono n m (parsed a s) h e = omega (arith, h, e)
HasEnded-mono n m (panicked x) h e = tt
HasEnded-mono n m unfinished h e = absurd e

parseredirs-HasEnded :
    (fuel n : ℕ) (cmd : Cmd) (s : Text)
    → length s ≤ n
    → n < fuel
    → HasEnded n (parseredirs fuel cmd s)
unfolding parseredirs
parseredirs-HasEnded zero n cmd s h lt = absurd (omega arith)
parseredirs-HasEnded (suc fuel) n cmd s h lt =
    HasEnded-if n (peek s (60 ∷ 62 ∷ [])) _ _
      (λ p.
        let shorter = peek-shorter s (60 ∷ 62 ∷ []) p in
        let file = gettoken-le (gettoken s).rest in
        HasEnded-if n ((gettoken (gettoken s).rest).code == 97) _ _
          (λ w. HasEnded-mono (length s - 1) n _ (omega (arith, h)) (
            parseredirs-HasEnded fuel (length s - 1) _ _ (omega (arith, shorter, file))
              (omega (arith, shorter, h, lt))))
          (λ w. tt))
      (λ p. omega (arith, skip-le s, h))

parseargs-HasEnded :
    (fuel n : ℕ) (ret : Cmd) (argc : ℕ) (s : Text)
    → length s ≤ n
    → n < fuel
    → HasEnded n (parseargs fuel ret argc s)
unfolding parseargs
parseargs-HasEnded zero n ret argc s h lt = absurd (omega arith)
parseargs-HasEnded (suc fuel) n ret argc s h lt =
    HasEnded-if n (peek s (124 ∷ 41 ∷ 38 ∷ 59 ∷ [])) _ _ (λ p. omega (arith, skip-le s, h))
      (λ p.
        HasEnded-if n ((gettoken s).code == 0) _ _ (λ z. omega (arith, gettoken-le s, h))
          (λ z.
            HasEnded-if n (not ((gettoken s).code == 97)) _ _ (λ w. tt)
              (λ w.
                let shorter = word-shorter s (ground (arith, w)) in
                HasEnded-if n (leb maxargs (argc + 1)) _ _ (λ a. tt)
                  (λ a.
                    HasEnded-and_then (length s - 1) n
                      (parseredirs fuel (add_arg ret (gettoken s).text) (gettoken s).rest) _
                      (parseredirs-HasEnded fuel (length s - 1) _ _ (omega (arith, shorter))
                        (omega (arith, shorter, h, lt)))
                      (λ ret' s' l. HasEnded-mono (length s - 1) n _ (omega (arith, h)) (
                        parseargs-HasEnded fuel (length s - 1) ret' (argc + 1) s' l
                          (omega (arith, shorter, h, lt))))))))

module _ (line : Text → Parsed Cmd) where
  parseblock-HasEnded :
      (fuel n : ℕ) (s : Text)
      → ((s' : Text) → length s' < length s → HasEnded (length s') (line s'))
      → length s ≤ n
      → n < fuel
      → HasEnded n (parseblock line fuel s)
  unfolding parseblock
  parseblock-HasEnded fuel n s f h lt =
      HasEnded-if n (not (peek s (40 ∷ []))) _ _ (λ p. tt)
        (λ p.
          let shorter = peek-shorter s (40 ∷ []) (ground (arith, p)) in
          HasEnded-and_then (length (gettoken s).rest) n (line (gettoken s).rest) _
            (f (gettoken s).rest shorter)
            (λ cmd s' l.
              HasEnded-if n (not (peek s' (41 ∷ []))) _ _ (λ q. tt)
                (λ q.
                  parseredirs-HasEnded fuel n cmd (gettoken s').rest
                    (omega (arith, gettoken-le s', l, shorter, h)) lt)))

  parseexec-HasEnded :
      (fuel n : ℕ) (s : Text)
      → ((s' : Text) → length s' < length s → HasEnded (length s') (line s'))
      → length s ≤ n
      → n < fuel
      → HasEnded n (parseexec line fuel s)
  unfolding parseexec
  parseexec-HasEnded fuel n s f h lt =
      HasEnded-if n (peek s (40 ∷ [])) _ _ (λ p. parseblock-HasEnded fuel n s f h lt)
        (λ p.
          HasEnded-and_then n n (parseredirs fuel (execcmd []) s) _
            (parseredirs-HasEnded fuel n _ s h lt)
            (λ ret s' l. parseargs-HasEnded fuel n ret 0 s' l lt))

  parsepipe-HasEnded :
      (fuel n : ℕ) (s : Text)
      → ((s' : Text) → length s' < n → HasEnded (length s') (line s'))
      → length s ≤ n
      → n + 1 < fuel
      → HasEnded n (parsepipe line fuel s)
  unfolding parsepipe
  parsepipe-HasEnded zero n s f h lt = absurd (omega arith)
  parsepipe-HasEnded (suc fuel) n s f h lt =
      HasEnded-and_then n n (parseexec line fuel s) _
        (parseexec-HasEnded fuel n s (λ s' l. f s' (omega (arith, l, h))) h (omega (arith, lt)))
        (λ cmd s' l.
          HasEnded-if n (peek s' (124 ∷ [])) _ _
            (λ p.
              let shorter = peek-shorter s' (124 ∷ []) p in
              HasEnded-and_then (n - 1) n (parsepipe line fuel (gettoken s').rest) _
                (parsepipe-HasEnded fuel (n - 1) (gettoken s').rest (λ t k. f t (omega (arith, k)))
                  (omega (arith, shorter, l)) (omega (arith, shorter, l, lt)))
                (λ right t k. omega (arith, k)))
            (λ p. omega (arith, skip-le s', l)))

parsebacks-HasEnded :
    (fuel n : ℕ) (cmd : Cmd) (s : Text)
    → length s ≤ n
    → n < fuel
    → HasEnded n (parsebacks fuel cmd s)
unfolding parsebacks
parsebacks-HasEnded zero n cmd s h lt = absurd (omega arith)
parsebacks-HasEnded (suc fuel) n cmd s h lt =
    HasEnded-if n (peek s (38 ∷ [])) _ _
      (λ p.
        let shorter = peek-shorter s (38 ∷ []) p in
        HasEnded-mono (n - 1) n _ (omega arith) (
          parsebacks-HasEnded fuel (n - 1) _ _ (omega (arith, shorter, h))
            (omega (arith, shorter, h, lt))))
      (λ p. omega (arith, skip-le s, h))

parseline-HasEnded :
    (fuel n : ℕ) (s : Text) → length s ≤ n → n + 2 < fuel → HasEnded n (parseline fuel s)
unfolding parseline
parseline-HasEnded zero n s h lt = absurd (omega arith)
parseline-HasEnded (suc fuel) n s h lt =
    HasEnded-and_then n n (parsepipe (parseline fuel) fuel s) _
      (parsepipe-HasEnded (parseline fuel) fuel n s
        (λ s' l. parseline-HasEnded fuel (length s') s' (omega arith) (omega (arith, l, lt))) h
        (omega (arith, lt)))
      (λ cmd s' l.
        HasEnded-and_then n n (parsebacks fuel cmd s') _
          (parsebacks-HasEnded fuel n cmd s' l (omega (arith, lt)))
          (λ cmd' t k.
            HasEnded-if n (peek t (59 ∷ [])) _ _
              (λ p.
                let shorter = peek-shorter t (59 ∷ []) p in
                HasEnded-and_then (n - 1) n (parseline fuel (gettoken t).rest) _
                  (parseline-HasEnded fuel (n - 1) (gettoken t).rest (omega (arith, shorter, k))
                    (omega (arith, shorter, k, lt)))
                  (λ right u j. omega (arith, j)))
              (λ p. omega (arith, skip-le t, k))))

HasEnded-unfinished {ℓ} : {A : Type ℓ} (n : ℕ) (r : Parsed A) → HasEnded n r → r ≢ unfinished
HasEnded-unfinished n (parsed a s) h e = cc
HasEnded-unfinished n (panicked m) h e = cc
HasEnded-unfinished n unfinished h e = h

-- The parser comes to an end on every command line, with a command or a syntax error: recursion and
-- loops to a depth of three more than the length of the line are enough.
pub parsecmd_ends : (fuel : ℕ) (s : Text) → length s + 2 < fuel → parsecmd fuel s ≢ unfinished
unfolding parsecmd
parsecmd_ends fuel s lt = HasEnded-unfinished 0 _ (
    HasEnded-and_then (length s) 0 (parseline fuel s) _
      (parseline-HasEnded fuel (length s) s (omega arith) lt)
      (λ cmd s' l. elim (skip-head s') [
        | inl e ↦ rw e (omega arith)
        | inr (c, cs, e, w) ↦ rw e tt
      ]))
