-- ===== src/Spinlock/Exclusion.antt =====
-- The mutual exclusion of the lock of spinlock.c, with the interrupts off.
use cs461_hw.Prelude.{
  ◌-◌, ◌∙◌, ◌&&◌, some, ◌==◌, ◌≢◌, ◌⊎◌, inl, inr, none, ℕ_discrete, Bool-cases, ℕ, ◌<◌, ◌≡◌, refl,
  ap, Bool, true, false, arith,
}
use cs461_hw.Spinlock.{
  Lock, Cpu, holding, is_cpu, pushcli, popcli, acquire_enter, acquire_try, acquire_record,
  release_clear, release_store, Phase, idle, spinning, entered, inside, leaving, left, System,
  Reach, starts, enters, tries, records, clears, stores, leaves, nests, unnests,
}

-- Between the `xchg` that took the lock and the store that frees it.
abbrev pub has_lock : Phase → Bool
has_lock idle = false
has_lock spinning = false
has_lock entered = true
has_lock inside = true
has_lock leaving = true
has_lock left = false

abbrev pub is_idle : Phase → Bool
is_idle idle = true
is_idle spinning = false
is_idle entered = false
is_idle inside = false
is_idle leaving = false
is_idle left = false

abbrev pub is_inside : Phase → Bool
is_inside idle = false
is_inside spinning = false
is_inside entered = false
is_inside inside = true
is_inside leaving = false
is_inside left = false

record IsValid (s : System) : Type 0 where
  locked : (c : ℕ) → has_lock (s.phase c) ≡ true → s.lock.locked ≡ true
  taken : s.lock.locked ≡ true → (c : ℕ) × (has_lock (s.phase c) ≡ true)
  alone : (c d : ℕ) → has_lock (s.phase c) ≡ true → has_lock (s.phase d) ≡ true → c ≡ d
  named : (c : ℕ) → is_cpu s.lock.cpu c ≡ is_inside (s.phase c)
  masked :
      (c : ℕ) → is_idle (s.phase c) ≡ false → (0 < (s.cpus c).ncli) × ((s.cpus c).enabled ≡ false)

inside-has_lock : (p : Phase) → is_inside p ≡ true → has_lock p ≡ true
inside-has_lock idle e = e
inside-has_lock spinning e = e
inside-has_lock entered e = refl
inside-has_lock inside e = refl
inside-has_lock leaving e = refl
inside-has_lock left e = e

has_lock-is_idle : (p : Phase) → has_lock p ≡ true → is_idle p ≡ false
has_lock-is_idle idle e = absurd (ground (arith, e))
has_lock-is_idle spinning e = refl
has_lock-is_idle entered e = refl
has_lock-is_idle inside e = refl
has_lock-is_idle leaving e = refl
has_lock-is_idle left e = refl

-- Nobody else has the lock.
other_outside :
    {s : System}
    → IsValid s
    → (c d : ℕ) → has_lock (s.phase c) ≡ true
    → d ≢ c
    → (has_lock (s.phase d) ≡ false) × (is_inside (s.phase d) ≡ false)
other_outside {s} v c d h ne =
    let outside : has_lock (s.phase d) ≡ false = elim (Bool-cases (has_lock (s.phase d))) [
      | inl l ↦ absurd (ne (v.alone d c l h))
      | inr l ↦ l
    ] in
    (outside, ground (arith, outside, inside-has_lock (s.phase d)))

Reach-IsValid : {s : System} → Reach s → IsValid s
unfolding acquire_enter acquire_try acquire_record release_clear release_store pushcli popcli
Reach-IsValid (starts enabled) = record {
  locked = λ c e. absurd (ground (arith, e));
  taken = λ e. absurd (ground (arith, e));
  alone = λ c d e. absurd (ground (arith, e));
  named = λ c. refl;
  masked = λ c e. absurd (ground (arith, e));
}
Reach-IsValid (enters c {s} {p} r at e) =
    let v = Reach-IsValid r in
    let h = ap has_lock at in
    let i = ap is_inside at in
    record {
      locked = λ d l. v.locked d (ground (arith, l));
      taken = λ l. let (d, k) = v.taken l in (d, ground (arith, k, h));
      alone = λ d f l m. v.alone d f (ground (arith, l)) (ground (arith, m));
      named = λ d. ground (arith, v.named d, i);
      masked = λ d l. ground (arith, v.masked d, e, l);
    }
Reach-IsValid (tries c {s} r at) =
    let v = Reach-IsValid r in
    let h = ap has_lock at in
    elim (Bool-cases s.lock.locked) [
      | inl busy ↦ rw busy (record {
        locked = λ d l. refl;
        taken = λ l. let (d, k) = v.taken busy in (d, ground (arith, k, h));
        alone = λ d f l m. v.alone d f (ground (arith, l)) (ground (arith, m));
        named = λ d. ground (arith, v.named d, ap is_inside at);
        masked = λ d l. ground (arith, v.masked d, v.masked c, ap is_idle at, l);
      })
      | inr free ↦
          let nobody : (d : ℕ) → has_lock (s.phase d) ≡ false =
            λ d. ground (arith, free, v.locked d) in
          rw free (record {
            locked = λ d l. refl;
            taken = λ l. (c, ground arith);
            alone = λ d f l m. ground (arith, l, m, nobody d, nobody f);
            named = λ d. ground (arith, v.named d, ap is_inside at);
            masked = λ d l. ground (arith, v.masked d, v.masked c, ap is_idle at, l);
          })
    ]
Reach-IsValid (records c {s} r at) =
    let v = Reach-IsValid r in
    let h = ap has_lock at in
    record {
      locked = λ d l. v.locked c h;
      taken = λ l. (c, ground arith);
      alone = λ d f l m. v.alone d f (ground (arith, l, h)) (ground (arith, m, h));
      named = λ d. elim (ℕ_discrete d c) [
        | yes q ↦ ground (arith, q)
        | no n ↦ ground (arith, n, (other_outside v c d h n).1)
      ];
      masked = λ d l. ground (arith, v.masked d, v.masked c, ap is_idle at, l);
    }
Reach-IsValid (clears c {s} {lk} r at e) =
    let v = Reach-IsValid r in
    let h = ap has_lock at in
    let lock : lk ≡ record s.lock { cpu = none } = ground (arith, e) in
    rw lock (record {
      locked = λ d l. v.locked c h;
      taken = λ l. (c, ground arith);
      alone = λ d f l m. v.alone d f (ground (arith, l, h)) (ground (arith, m, h));
      named = λ d. elim (ℕ_discrete d c) [
        | yes q ↦ ground (arith, q)
        | no n ↦ ground (arith, n, (other_outside v c d h n).1)
      ];
      masked = λ d l. ground (arith, v.masked d, v.masked c, ap is_idle at, l);
    })
Reach-IsValid (stores c {s} r at) =
    let v = Reach-IsValid r in
    let h = ap has_lock at in
    record {
      locked = λ d l. elim (ℕ_discrete d c) [
        | yes q ↦ absurd (ground (arith, q, l))
        | no n ↦ absurd (ground (arith, n, l, (other_outside v c d h n).0))
      ];
      taken = λ l. absurd (ground (arith, l));
      alone = λ d f l m. v.alone d f (ground (arith, l, h)) (ground (arith, m, h));
      named = λ d. ground (arith, v.named d, ap is_inside at);
      masked = λ d l. ground (arith, v.masked d, v.masked c, ap is_idle at, l);
    }
Reach-IsValid (leaves c {s} {p} r at e) =
    let v = Reach-IsValid r in
    let h = ap has_lock at in
    record {
      locked = λ d l. v.locked d (ground (arith, l));
      taken = λ l. let (d, k) = v.taken l in (d, ground (arith, k, h));
      alone = λ d f l m. v.alone d f (ground (arith, l)) (ground (arith, m));
      named = λ d. ground (arith, v.named d, ap is_inside at);
      masked = λ d l. ground (arith, v.masked d, l);
    }
Reach-IsValid (nests c {s} r) =
    let v = Reach-IsValid r in
    record {
      locked = v.locked;
      taken = v.taken;
      alone = v.alone;
      named = v.named;
      masked = λ d l. ground (arith, v.masked d, l);
    }
Reach-IsValid (unnests c {s} {p} r w e) =
    let v = Reach-IsValid r in
    let w' : (is_idle (s.phase c) ≡ true) ⊎ (1 < (s.cpus c).ncli) = elim w [
      | inl q ↦ inl (ap is_idle q)
      | inr q ↦ inr q
    ] in
    record {
      locked = v.locked;
      taken = v.taken;
      alone = v.alone;
      named = v.named;
      masked = λ d l. ground (arith, v.masked d, l, e, w');
    }

-- In every interleaving of acquire and release by any number of processors, and of pushcli and popcli
-- for other locks: two processors that have the lock are the same, and it has its interrupts off.
pub Reach-exclusive :
    {s : System} (c d : ℕ)
    → Reach s
    → has_lock (s.phase c) ≡ true
    → has_lock (s.phase d) ≡ true
    → (c ≡ d) × ((s.cpus c).enabled ≡ false)
Reach-exclusive {s} c d r h k =
    let v = Reach-IsValid r in
    let busy : is_idle (s.phase c) ≡ false = has_lock-is_idle (s.phase c) h in
    (v.alone c d h k, (v.masked c busy).1)

-- What does not panic, by where a processor is.
abbrev pub NoPanic : System → ℕ → Phase → Type 0
NoPanic s c idle = (p : Cpu) × (acquire_enter c s.lock (s.cpus c) ≡ some p)
NoPanic s c spinning = Unit {0}
NoPanic s c entered = Unit {0}
NoPanic s c inside = (lk : Lock) × (release_clear c s.lock ≡ some lk)
NoPanic s c leaving = Unit {0}
NoPanic s c left = (p : Cpu) × (popcli (s.cpus c) ≡ some p)

-- In every such interleaving, none of these panics: acquire by a processor that is in neither function,
-- release by the one that has acquired the lock, and the popcli at the end of release.
pub Reach-NoPanic : {s : System} (c : ℕ) → Reach s → NoPanic s c (s.phase c)
unfolding acquire_enter release_clear popcli holding
Reach-NoPanic {s} c r = at_phase (s.phase c) refl
  where
    at_phase : (p : Phase) → s.phase c ≡ p → NoPanic s c p
    at_phase idle e =
        let n = (Reach-IsValid r).named c ∙ ap is_inside e in
        (pushcli (s.cpus c), ground (arith, n))
    at_phase spinning e = tt
    at_phase entered e = tt
    at_phase inside e =
        let n = (Reach-IsValid r).named c ∙ ap is_inside e in
        let l = (Reach-IsValid r).locked c (ap has_lock e) in
        (record s.lock { cpu = none }, ground (arith, n, l))
    at_phase leaving e = tt
    at_phase left e =
        let (m, off) = (Reach-IsValid r).masked c (ap is_idle e) in
        let p = s.cpus c in
        (
          record p { ncli = p.ncli - 1; enabled = p.ncli - 1 == 0 && p.intena },
          ground (arith, m, off),
        )
