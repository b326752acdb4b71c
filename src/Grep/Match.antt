-- ===== src/Grep/Match.antt =====
-- The matcher of grep.c decides a relation: which texts an expression matches.
use mathlib.Core.Path.{subst}
use cs461_hw.Prelude.{
  sym, ap, refl, ◌++◌, Bool-cases, false, ◌&&◌, ℕ, ◌≡◌, ◌↔◌, ◌⊎◌, inl, inr, Bool, true, ◌||◌, List,
  [], ◌∷◌, arith, ◌==◌, if◌then◌else◌, ==_iff,
}
use cs461_hw.Grep.{match, is_nil, match_from, matchstar, match_char, matchhere}

-- An expression taken apart: the end of it, the end of the text, one byte, or a repeated byte.
-- A byte `.` stands for any byte.
pub data Regex : Type 0 where
  done : Regex
  end_of_text : Regex
  one : ℕ → Regex → Regex
  star : ℕ → Regex → Regex

-- A byte stands for itself, but `.` stands for any byte.
pub data Fits (c : ℕ) (t : ℕ) : Type 0 where
  same : c ≡ t → Fits c t
  any : c ≡ b'.' → Fits c t

-- The texts that begin with what an expression describes.
pub data Matches : Regex → List ℕ → Type 0 where
  all_matched : {text : List ℕ} → Matches done text
  at_end : Matches end_of_text []
  take_one :
      {c t : ℕ} {r : Regex} {text : List ℕ}
      → Fits c t
      → Matches r text
      → Matches (one c r) (t ∷ text)
  none_more : {c : ℕ} {r : Regex} {text : List ℕ} → Matches r text → Matches (star c r) text
  one_more :
      {c t : ℕ} {r : Regex} {text : List ℕ}
      → Fits c t
      → Matches (star c r) text
      → Matches (star c r) (t ∷ text)

-- How an expression is written: `c*` repeats a byte, whatever byte it is, and `$` is the end of the
-- text where it stands last.
pub parse : List ℕ → Regex
parse [] = done
parse (c ∷ []) = if c == b'$' then end_of_text else one c done
parse (c ∷ d ∷ re) =
    let next = parse (d ∷ re) in if d == b'*' then star c (parse re) else one c next

-- A Boolean function decides what an expression matches.
abbrev Decides : (List ℕ → Bool) → Regex → Type 0
Decides f r = (text : List ℕ) → (f text ≡ true) ↔ Matches r text

or_false : {a b : Bool} → (a || b) ≡ true → (a ≡ true) ⊎ (b ≡ true)
or_false h = ground arith

Fits-of : (c t : ℕ) → (c == b'.' || c == t) ≡ true → Fits c t
Fits-of c t h = elim (or_false {a = c == b'.'} {b = c == t} h) [
  | inl e ↦ any ((==_iff c b'.').0 e)
  | inr e ↦ same ((==_iff c t).0 e)
]

of_Fits : (c t : ℕ) → Fits c t → (c == b'.' || c == t) ≡ true
of_Fits c t (same e) = ground (arith, (==_iff c t).1 e)
of_Fits c t (any e) = ground (arith, (==_iff c b'.').1 e)

match_char-Decides :
    (f : List ℕ → Bool) (c : ℕ) (r : Regex) → Decides f r → Decides (match_char f c) (one c r)
unfolding match_char
match_char-Decides f c r d [] = (λ e. cc, one_needs_text)
  where
    one_needs_text : Matches (one c r) [] → false ≡ true
    one_needs_text m = elim m [ ]
match_char-Decides f c r d (t ∷ ts) =
    (λ e. take_one (Fits-of c t (ground arith)) ((d ts).0 (ground arith)), after)
  where
    after : Matches (one c r) (t ∷ ts) → ((c == b'.' || c == t) && f ts) ≡ true
    after (take_one fits m) = ground (arith, of_Fits c t fits, (d ts).1 m)

matchstar-Decides :
    (f : List ℕ → Bool) (c : ℕ) (r : Regex) → Decides f r → Decides (matchstar f c) (star c r)
unfolding matchstar
matchstar-Decides f c r d [] = (λ e. none_more ((d []).0 e), after)
  where
    after : Matches (star c r) [] → f [] ≡ true
    after (none_more m) = (d []).1 m
matchstar-Decides f c r d (t ∷ ts) =
    (before (matchstar-Decides f c r d ts), after (matchstar-Decides f c r d ts))
  where
    before :
        (matchstar f c ts ≡ true) ↔ Matches (star c r) ts
        → (f (t ∷ ts) || ((t == c || c == b'.') && matchstar f c ts)) ≡ true
        → Matches (star c r) (t ∷ ts)
    before ih e =
        elim (or_false {a = f (t ∷ ts)} {b = (t == c || c == b'.') && matchstar f c ts} e) [
          | inl h ↦ none_more ((d (t ∷ ts)).0 h)
          | inr h ↦ one_more (Fits-of c t (ground arith)) (ih.0 (ground arith))
        ]

    after :
        (matchstar f c ts ≡ true) ↔ Matches (star c r) ts
        → Matches (star c r) (t ∷ ts)
        → (f (t ∷ ts) || ((t == c || c == b'.') && matchstar f c ts)) ≡ true
    after ih (none_more m) = ground (arith, (d (t ∷ ts)).1 m)
    after ih (one_more fits m) = ground (arith, of_Fits c t fits, ih.1 m)

done-Decides : Decides (λ text. true) done
done-Decides text = (λ e. all_matched, λ m. refl)

end-Decides : Decides is_nil end_of_text
unfolding is_nil
end-Decides [] = (λ e. at_end, λ m. refl)
end-Decides (t ∷ ts) = (λ e. cc, after)
  where
    after : Matches end_of_text (t ∷ ts) → false ≡ true
    after m = elim m [ ]

-- matchhere returns 1 exactly for the texts that begin with what the expression describes.
pub matchhere_iff : (re text : List ℕ) → (matchhere re text ≡ true) ↔ Matches (parse re) text
unfolding matchhere parse
matchhere_iff [] text = done-Decides text
matchhere_iff (c ∷ []) text = elim (Bool-cases (c == b'$')) [
  | inl e ↦ rw e (end-Decides text)
  | inr e ↦ rw e (match_char-Decides (matchhere []) c done (matchhere_iff []) text)
]
matchhere_iff (c ∷ d ∷ re) text =
    let rest = matchhere_iff re in
    let next = matchhere_iff (d ∷ re) in
    elim (Bool-cases (d == b'*')) [
      | inl e ↦ rw e (matchstar-Decides (matchhere re) c (parse re) rest text)
      | inr e ↦ rw e (match_char-Decides (matchhere (d ∷ re)) c (parse (d ∷ re)) next text)
    ]

-- An expression occurs in a text: some suffix of the text begins with what it describes.
abbrev pub Occurs : Regex → List ℕ → Type 0
Occurs r text = (before : List ℕ) × (after : List ℕ) × (text ≡ before ++ after) × Matches r after

match_from-Occurs : (re text : List ℕ) → match_from re text ≡ true → Occurs (parse re) text
unfolding match_from
match_from-Occurs re [] e = ([], [], refl, (matchhere_iff re []).0 e)
match_from-Occurs re (t ∷ ts) e =
    let later = match_from-Occurs re ts in
    elim (or_false {a = matchhere re (t ∷ ts)} {b = match_from re ts} e) [
      | inl h ↦ ([], t ∷ ts, refl, (matchhere_iff re (t ∷ ts)).0 h)
      | inr h ↦ let (before, after, split, m) = later h in (t ∷ before, after, ap (◌∷◌ t) split, m)
    ]

Occurs-match_from :
    (re text before after : List ℕ)
    → text ≡ before ++ after
    → Matches (parse re) after
    → match_from re text ≡ true
unfolding match_from
Occurs-match_from re [] [] after e m =
    (matchhere_iff re []).1 (subst (Matches (parse re)) (sym e) m)
Occurs-match_from re [] (b ∷ before) after e m = cc
Occurs-match_from re (t ∷ ts) [] after e m =
    ground (arith, (matchhere_iff re (t ∷ ts)).1 (subst (Matches (parse re)) (sym e) m))
Occurs-match_from re (t ∷ ts) (b ∷ before) after e m =
    ground (arith, Occurs-match_from re ts before after (ground arith) m)

-- What match is to decide: an expression behind `^` matches at the start of the text only, any
-- other wherever it occurs.
abbrev pub Selects : List ℕ → List ℕ → Type 0
Selects [] text = Occurs done text
Selects (c ∷ re) text = if c == b'^' then Matches (parse re) text else Occurs (parse (c ∷ re)) text

-- match returns 1 exactly for the lines that the expression selects: those that begin with what
-- follows a leading `^`, or those in which the expression occurs anywhere, at the end of the line
-- too. It comes to an end for every expression and text.
pub match_iff : (re text : List ℕ) → (match re text ≡ true) ↔ Selects re text
unfolding match parse
match_iff [] text =
    (λ e. match_from-Occurs [] text e, λ o. Occurs-match_from [] text o.0 o.1 o.2 o.3)
match_iff (c ∷ re) text = elim (Bool-cases (c == b'^')) [
  | inl e ↦ rw e (matchhere_iff re text)
  | inr e ↦
      rw e (
        λ h. match_from-Occurs (c ∷ re) text h,
        λ o. Occurs-match_from (c ∷ re) text o.0 o.1 o.2 o.3,
      )
]
