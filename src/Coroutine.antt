-- ===== src/Coroutine.antt =====
-- coroutine.c: user-level coroutines on a linked list. A `struct coroutine *` is a number, and 0 is
-- none. `swtch` is a transfer of control: a function ends where it switches away, and the transfer
-- says to whom. Contexts and stacks are not in the model.
pub mod Facts
mod Tests
use cs461_hw.Prelude.{
  ℕ, zero, suc, Bool, true, false, Option, none, some, List, [], ◌∷◌, ◌==◌, if◌then◌else◌,
}

-- The `next` fields and the two global pointers.
pub record Coroutines : Type 0 where
  pub next : ℕ → Option ℕ
  pub co_list : Option ℕ
  pub co_current : Option ℕ

-- Where control goes: back to the caller with a value, to the host's context, to a coroutine, or
-- nowhere, after an access through the null pointer; `stuck` stands for a walk without an end.
pub data Transfer : Type 0 where
  returns : ℕ → Transfer
  to_host : Transfer
  to_co : ℕ → Transfer
  fault : Transfer
  stuck : Transfer

abbrev pub put_next : (ℕ → Option ℕ) → ℕ → Option ℕ → ℕ → Option ℕ
put_next next i v j = if j == i then v else next j

-- The loop of `co_new` from `head` on: whether it comes to an end within `fuel` steps.
pub ends_within : ℕ → (ℕ → Option ℕ) → ℕ → Bool
ends_within zero next head = false
ends_within (suc fuel) next head = elim (next head) [
  | none ↦ true
  | some more ↦ ends_within fuel next more
]

-- `co_new`, whose first `malloc` returns `co` with whatever `junk` its `next` field held, and whose
-- second returns `stack`, 0 if it fails. The last line, `head = co1`, changes a local variable only.
pub co_new : ℕ → Coroutines → Option ℕ → Option ℕ → ℕ → Coroutines × Transfer
co_new fuel s none junk stack = (s, returns 0)
co_new fuel s (some co) junk stack =
    let next = put_next s.next co junk in
    if stack == 0 then (s, returns 0) else elim s.co_list [
      | none ↦ (record s { next = next; co_list = some co }, returns co)
      | some head ↦
          (record s { next = next }, if ends_within fuel next head then returns co else stuck)
    ]

-- `co_run`; it returns 1 when a coroutine switches back.
pub co_run : Coroutines → Coroutines × Transfer
co_run s = elim s.co_list [
  | none ↦ (s, returns 0)
  | some co ↦ (record s { co_current = some co }, to_co co)
]

-- `co_run_all`: `run` is what happens from a switch to the coroutines until one switches back to
-- the host. One round for each coroutine that `tmp` visits.
pub run_rounds : (Coroutines → Coroutines) → ℕ → Coroutines → ℕ → Option Coroutines
run_rounds run zero s tmp = none
run_rounds run (suc fuel) s tmp =
    let s' = run (co_run s).0 in
    elim (s'.next tmp) [ none ↦ some s' | some more ↦ run_rounds run fuel s' more ]

pub co_run_all : (Coroutines → Coroutines) → ℕ → Coroutines → Option Coroutines × ℕ
co_run_all run fuel s = elim s.co_list [
  | none ↦ (some s, 0)
  | some tmp ↦ (run_rounds run fuel s tmp, 1)
]

-- `co_yield`
pub co_yield : Coroutines → Coroutines × Transfer
co_yield s = elim s.co_current [
  | none ↦ (s, fault)
  | some tmp ↦ elim (s.next tmp) [
    | none ↦ (record s { co_current = none }, to_host)
    | some more ↦ (record s { co_current = some more }, to_co more)
  ]
]

-- What `co_exit` does when its loop is at the current coroutine `tmp`, `prev` behind it.
pub unlink : Coroutines → Option ℕ → ℕ → Coroutines × Transfer
unlink s prev tmp = elim (s.next tmp) [
  | none ↦ (record s { co_list = none }, to_host)
  | some more ↦ (
    record s {
      next = elim prev [ none ↦ s.next | some before ↦ put_next s.next before (some more) ];
      co_list = some more;
    },
    to_co tmp,
  )
]

-- The loop of `co_exit`; `prev` is not initialised before its first round.
pub exit_loop : ℕ → Coroutines → ℕ → Option ℕ → ℕ → Coroutines × Transfer
exit_loop zero s current prev tmp = (s, stuck)
exit_loop (suc fuel) s current prev tmp =
    let rest : Coroutines × Transfer = elim (s.next tmp) [
      | none ↦ (s, returns 0)
      | some more ↦ exit_loop fuel s current (some tmp) more
    ] in
    if tmp == current then unlink s prev tmp else rest

-- `co_exit`, with whatever `junk` the variable `prev` holds at its start.
pub co_exit : ℕ → Coroutines → Option ℕ → Coroutines × Transfer
co_exit fuel s junk = elim s.co_current [
  | none ↦ (s, returns 0)
  | some current ↦ elim s.co_list [
    | none ↦ (s, returns 0)
    | some tmp ↦ exit_loop fuel s current junk tmp
  ]
]

-- `co_destroy` of a coroutine with its stack: what it frees, in order.
pub co_destroy : Option ℕ → ℕ → List ℕ
co_destroy none stack = []
co_destroy (some co) stack = if stack == 0 then co ∷ [] else stack ∷ co ∷ []
