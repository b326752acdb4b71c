-- ===== src/Aio/Queue.antt =====
-- The queue of asynchronous reads of proc.c as a list of tasks, oldest first.
use mathlib.Core.Path.{subst}
use mathlib.Core.List.{append-nil, append_assoc}
use native.Mathlib.Numerals.{add-one}
use cs461_hw.Prelude.{
  sym, take-append-drop, ◌∙◌, ◌==◌, if◌then◌else◌, ltb→lt, length-append, length-set, length-take,
  length-drop, ℕ, zero, suc, ◌+◌, ◌-◌, ◌≤◌, ◌<◌, ◌≡◌, refl, ap, inl, inr, Option, none, some, List,
  [], ◌∷◌, ◌++◌, arith, ltb, Bool-cases, length, set, take, drop, take-nil,
}
use cs461_hw.Aio.{append_task, capacity, remove_task, Task, Tasks}

abbrev pub contents : Tasks → List Task
contents q = take q.num_tasks q.tasks

pub record IsValid (q : Tasks) : Type 0 where
  pub storage : length q.tasks ≡ capacity
  pub fits : q.num_tasks ≤ capacity

take-set {ℓ} :
    {A : Type ℓ} (xs : List A) (i : ℕ) (v : A)
    → i < length xs
    → take (suc i) (set xs i v) ≡ take i xs ++ (v ∷ [])
take-set [] i v h = elim h [ ]
take-set (x ∷ xs) zero v h = refl
take-set (x ∷ xs) (suc i) v h = ap (◌∷◌ x) (take-set xs i v (omega arith))

take_exact {ℓ} : {A : Type ℓ} (k : ℕ) (xs ys : List A) → length xs ≡ k → take k (xs ++ ys) ≡ xs
take_exact zero [] ys h = refl
take_exact zero (x ∷ xs) ys h = absurd (omega arith)
take_exact (suc k) [] ys h = absurd (omega arith)
take_exact (suc k) (x ∷ xs) ys h = ap (◌∷◌ x) (take_exact k xs ys (omega arith))

drop-take {ℓ} : {A : Type ℓ} (k : ℕ) (xs : List A) → take (k - 1) (drop 1 xs) ≡ drop 1 (take k xs)
drop-take zero [] = refl
drop-take zero (x ∷ xs) = refl
drop-take {A = A} (suc k) [] = take-nil A _
drop-take (suc k) (x ∷ xs) = ap (λ j. take j xs) (omega arith)

-- What appending a task to a valid queue does.
pub data Appended (q : Tasks) (t : Task) (r : Option Tasks) : Type 0 where
  stored :
      (q' : Tasks)
      → r ≡ some q'
      → q.num_tasks < capacity
      → IsValid q'
      → contents q' ≡ contents q ++ (t ∷ [])
      → Appended q t r
  overrun : r ≡ none → q.num_tasks ≡ capacity → Appended q t r

-- Appending to a valid queue puts the task behind the others and keeps the queue valid, unless
-- 64 tasks wait already: then, and only then, the store is past the end of the array.
pub append_task-Appended : (q : Tasks) (t : Task) → IsValid q → Appended q t (append_task q t)
unfolding append_task
append_task-Appended q t v = elim (Bool-cases (ltb q.num_tasks capacity)) [
  | inl e ↦
      let lt : q.num_tasks < capacity = ltb→lt q.num_tasks capacity e in
      stored (record { tasks = set q.tasks q.num_tasks t; num_tasks = q.num_tasks + 1 }) (rw e) lt
        (record { storage = length-set q.tasks q.num_tasks t ∙ v.storage; fits = omega arith })
        (rw add-one (take-set q.tasks q.num_tasks t (omega (arith, v.storage))))
  | inr e ↦ overrun (ground (arith, e)) (ground (arith, e, v.fits))
]

-- Removing a task from a valid queue that is not empty takes out the oldest, keeps the others in
-- their order, and keeps the queue valid.
pub remove_task_lem :
    (q : Tasks)
    → IsValid q
    → 0 < q.num_tasks
    → IsValid (remove_task q) × (contents (remove_task q) ≡ drop 1 (contents q))
unfolding remove_task
remove_task_lem q v h =
    let k = q.num_tasks - 1 in
    let front = take k (drop 1 q.tasks) in
    let front_length : length front ≡ k =
      omega (arith, length-take k (drop 1 q.tasks), length-drop 1 q.tasks, v.storage, v.fits) in
    (
      record {
        storage = omega (
          arith,
          length-append front (drop k q.tasks),
          front_length,
          length-drop k q.tasks,
          v.storage,
          v.fits,
        );
        fits = omega (arith, v.fits);
      },
      take_exact k front (drop k q.tasks) front_length ∙ drop-take q.num_tasks q.tasks,
    )

-- What a valid queue goes through: a task is appended, or the oldest is served.
pub data Event : Type 0 where
  adds : Task → Event
  serves : Event

abbrev pub Outcome : Type 0
Outcome = Option (Tasks × List Task × List Task)

abbrev with_added : Task → Outcome → Outcome
with_added t none = none
with_added t (some (r, is, os)) = some (r, t ∷ is, os)

abbrev with_served : List Task → Outcome → Outcome
with_served ts none = none
with_served ts (some (r, is, os)) = some (r, is, ts ++ os)

-- The queue after a history, the tasks that went in and those that were served; none if a store
-- went past the end of the array. The thread serves only while `num_tasks` is not 0.
unfoldable pub replay : Tasks → List Event → Outcome
replay q [] = some (q, [], [])
replay q (adds t ∷ es) = elim (append_task q t) [
  | none ↦ none
  | some q' ↦ with_added t (replay q' es)
]
replay q (serves ∷ es) =
    let idle = replay q es in
    let busy = with_served (take 1 (contents q)) (replay (remove_task q) es) in
    if q.num_tasks == 0 then idle else busy

abbrev Kept : Tasks → Outcome → Type 0
Kept q none = Unit {0}
Kept q (some (q', is, os)) = contents q ++ is ≡ os ++ contents q'

Kept-added :
    (q q' : Tasks) (t : Task) (r : Outcome)
    → contents q' ≡ contents q ++ (t ∷ [])
    → Kept q' r
    → Kept q (with_added t r)
Kept-added q q' t none c k = tt
Kept-added q q' t (some (q'', is, os)) c k =
    sym (append_assoc (contents q) (t ∷ []) is) ∙ ap (λ ts. ts ++ is) (sym c) ∙ k

Kept-served :
    (q q' : Tasks) (r : Outcome)
    → contents q' ≡ drop 1 (contents q)
    → Kept q' r
    → Kept q (with_served (take 1 (contents q)) r)
Kept-served q q' none c k = tt
Kept-served q q' (some (q'', is, os)) c k =
    ap (λ ts. ts ++ is)
      (sym (take-append-drop 1 (contents q)) ∙ ap (◌++◌ (take 1 (contents q))) (sym c))
    ∙ append_assoc (take 1 (contents q)) (contents q') is
    ∙ ap (◌++◌ (take 1 (contents q))) k
    ∙ sym (append_assoc (take 1 (contents q)) os (contents q''))

replay-Kept : (q : Tasks) (es : List Event) → IsValid q → Kept q (replay q es)
unfolding replay
replay-Kept q [] v = append-nil (contents q)
replay-Kept q (adds t ∷ es) v = elim (append_task-Appended q t v) [
  | stored q' r lt v' c ↦ rw (r, replay) (Kept-added q q' t (replay q' es) c (replay-Kept q' es v'))
  | overrun r full ↦ rw (r, replay) tt
]
replay-Kept q (serves ∷ es) v =
    let idle = replay-Kept q es v in
    let busy = λ (h : 0 < q.num_tasks).
      let (v', c) = remove_task_lem q v h in
      Kept-served q (remove_task q) (replay (remove_task q) es) c
        (replay-Kept (remove_task q) es v') in
    elim (Bool-cases (q.num_tasks == 0)) [ inl e ↦ rw e idle | inr e ↦ rw e (busy (ground arith)) ]

-- In every history of a valid queue that does not overrun the array, tasks are served in the order
-- in which they were appended, each once: those waiting at first and those appended are, in order,
-- those served and those left.
pub served_in_order :
    (q q' : Tasks) (es : List Event) (is os : List Task)
    → IsValid q
    → replay q es ≡ some (q', is, os)
    → contents q ++ is ≡ os ++ contents q'
served_in_order q q' es is os v e = subst (Kept q) e (replay-Kept q es v)
