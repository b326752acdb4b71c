-- ===== src/Coroutine/Facts.antt =====
-- What coroutine.c does to its list of live coroutines, against what coroutine.h promises.
use cs461_hw.Prelude.{
  ℕ_discrete, ℕ, zero, suc, ◌≡◌, refl, ap, ◌∙◌, ◌≢◌, inl, inr, Bool, false, ◌||◌, Option, none,
  some, List, [], ◌∷◌, arith, ◌==◌, Option-cases,
}
use cs461_hw.Coroutine.{
  co_exit, stuck, to_co, to_host, fault, returns, unlink, co_new, co_yield, exit_loop, put_next,
  Coroutines, Transfer,
}

-- The coroutines that a walk of at most `fuel` steps from `head` visits.
abbrev pub visits : ℕ → (ℕ → Option ℕ) → ℕ → List ℕ
visits zero next head = []
visits (suc fuel) next head =
    head ∷ (elim (next head) [ none ↦ [] | some more ↦ visits fuel next more ])

abbrev pub occurs : ℕ → List ℕ → Bool
occurs c [] = false
occurs c (x ∷ xs) = x == c || occurs c xs

visits_same :
    (fuel : ℕ) (next : ℕ → Option ℕ) (co : ℕ) (v : Option ℕ) (head : ℕ)
    → occurs co (visits fuel next head) ≡ false
    → visits fuel (put_next next co v) head ≡ visits fuel next head
visits_same zero next co v head h = refl
visits_same (suc fuel) next co v head h = elim (Option-cases (next head)) [
  | inl e ↦ ground (arith, e, h)
  | inr (more, e) ↦ ground (arith, e, h, visits_same fuel next co v more)
]

-- co_new appends the first coroutine only. When a coroutine is on the list already, a
-- co_new that succeeds leaves the list's head and every walk from it as they were, so that no
-- walk visits the new coroutine, which was on none before.
pub co_new_unlinked :
    (fuel : ℕ) (s s' : Coroutines) (co head : ℕ) (junk : Option ℕ) (stack : ℕ)
    → s.co_list ≡ some head
    → co ≢ 0
    → occurs co (visits fuel s.next head) ≡ false
    → co_new fuel s (some co) junk stack ≡ (s', returns co)
    → (s'.co_list ≡ some head)
      × (visits fuel s'.next head ≡ visits fuel s.next head)
      × (occurs co (visits fuel s'.next head) ≡ false)
unfolding co_new
co_new_unlinked fuel s s' co head junk stack list ne fresh e =
    let result : s' ≡ record s { next = put_next s.next co junk } = ground (arith, list) in
    let same : visits fuel s'.next head ≡ visits fuel s.next head =
      ap (λ (r : Coroutines). visits fuel r.next head) result
      ∙ visits_same fuel s.next co junk head fresh in
    (ap (λ (r : Coroutines). r.co_list) result ∙ list, same, rw same fresh)

-- co_yield outside a coroutine goes through the null pointer, whatever the list holds;
-- inside one it gives control to the next coroutine on the list, or to the host after the last.
pub co_yield_null :
    (s : Coroutines) (co : ℕ)
    → ((co_yield (record s { co_current = none })).1 ≡ fault)
      × ((co_yield (record s { co_current = some co })).1
          ≡ (elim (s.next co) as (λ o. Transfer) [ none ↦ to_host | some more ↦ to_co more ]))
unfolding co_yield
co_yield_null s co = (refl, ground arith)

exit_loop_list :
    (fuel : ℕ) (s s' : Coroutines) (current : ℕ) (prev : Option ℕ) (tmp : ℕ) (t : Transfer)
    → exit_loop fuel s current prev tmp ≡ (s', t)
    → t ≢ returns 0
    → t ≢ stuck
    → s'.co_list ≡ s.next current
unfolding exit_loop unlink
exit_loop_list zero s s' current prev tmp t e a b = absurd (b (ground arith))
exit_loop_list (suc fuel) s s' current prev tmp t e a b =
    let later = λ (more : ℕ) (q : exit_loop fuel s current (some tmp) more ≡ (s', t)).
      exit_loop_list fuel s s' current (some tmp) more t q a b in
    elim (ℕ_discrete tmp current) [
      | yes here ↦ elim (Option-cases (s.next tmp)) [
        | inl n ↦ ground (arith, n, ap s.next here)
        | inr (more, n) ↦ ground (arith, n, ap s.next here)
      ]
      | no there ↦ elim (Option-cases (s.next tmp)) [
        | inl n ↦ absurd (a (ground (arith, n)))
        | inr (more, n) ↦ later more (ground (arith, n))
      ]
    ]

-- When co_exit switches away, the list begins behind the coroutine that exits. All the
-- coroutines ahead of it are off the list, whatever `prev` held, and if it was the last one the
-- list is empty.
pub co_exit_truncates :
    (fuel : ℕ) (s s' : Coroutines) (current : ℕ) (junk : Option ℕ) (t : Transfer)
    → s.co_current ≡ some current
    → co_exit fuel s junk ≡ (s', t)
    → t ≢ returns 0
    → t ≢ stuck
    → s'.co_list ≡ s.next current
unfolding co_exit
co_exit_truncates fuel s s' current junk t c e a b = elim (Option-cases s.co_list) [
  | inl l ↦ absurd (a (ground (arith, c, l)))
  | inr (tmp, l) ↦ exit_loop_list fuel s s' current junk tmp t (ground (arith, c, l)) a b
]
