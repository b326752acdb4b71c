-- ===== src/Proc/Kill.antt =====
-- kill in the process table of proc.c.
use mathlib.Core.Path.{subst}
use cs461_hw.Prelude.{
  sym, ◌∙◌, ℕ_discrete, get_or-set_self, get_or-set_ne, ℕ, zero, suc, ◌<◌, ◌≡◌, refl, ◌≢◌, inl, inr,
  true, false, Option, none, some, List, [], ◌∷◌, arith, ◌==◌, if◌then◌else◌, ==_iff, Bool-cases,
  length, set, get_or,
}
use cs461_hw.Proc.{
  find_unused, allocproc, runnable, unused, is_sleeping, kill, kill_loop, no_proc, proc_at, Proc,
  Table,
}
use cs461_hw.Proc.Pids.{IsValid}

-- What kill does to the process that it finds.
abbrev pub marked : Proc → Proc
marked p = record p { killed = true; state = if is_sleeping p.state then runnable else p.state }

-- The loop marks the first process with the pid.
data Looked (pid : ℕ) (ps : List Proc) (r : Option (List Proc)) : Type 0 where
  hit :
      (i : ℕ)
      → i < length ps
      → (get_or ps i no_proc).pid ≡ pid
      → r ≡ some (set ps i (marked (get_or ps i no_proc)))
      → Looked pid ps r
  miss : ((i : ℕ) → i < length ps → (get_or ps i no_proc).pid ≢ pid) → r ≡ none → Looked pid ps r

miss_cons :
    (pid : ℕ) (p : Proc) (ps : List Proc)
    → (p.pid == pid) ≡ false
    → ((i : ℕ) → i < length ps → (get_or ps i no_proc).pid ≢ pid)
    → (i : ℕ) → i < length (p ∷ ps)
    → (get_or (p ∷ ps) i no_proc).pid ≢ pid
miss_cons pid p ps e h zero lt = ground arith
miss_cons pid p ps e h (suc i) lt = h i (omega arith)

kill_loop-cons :
    (pid : ℕ) (p : Proc) (ps : List Proc)
    → (p.pid == pid) ≡ false
    → Looked pid ps (kill_loop pid ps)
    → Looked pid (p ∷ ps) (kill_loop pid (p ∷ ps))
unfolding kill_loop
kill_loop-cons pid p ps e (hit i lt same r) = hit (suc i) (omega arith) same (ground (arith, e, r))
kill_loop-cons pid p ps e (miss h r) = miss (miss_cons pid p ps e h) (ground (arith, e, r))

kill_loop-Looked : (pid : ℕ) (ps : List Proc) → Looked pid ps (kill_loop pid ps)
unfolding kill_loop
kill_loop-Looked pid [] = miss (λ i h. elim h [ ]) refl
kill_loop-Looked pid (p ∷ ps) =
    let rest = kill_loop-Looked pid ps in
    elim (Bool-cases (p.pid == pid)) [
      | inl e ↦ hit 0 (omega arith) ((==_iff _ _).0 e) (rw e)
      | inr e ↦ kill_loop-cons pid p ps e rest
    ]

kill_hits :
    (t : Table) (pid i j : ℕ)
    → i < length t.procs
    → i ≢ j
    → kill_loop pid t.procs ≡ some (set t.procs i (marked (get_or t.procs i no_proc)))
    → ((kill t pid).1 ≡ true)
      × (proc_at (kill t pid).0 i ≡ marked (proc_at t i))
      × (proc_at (kill t pid).0 j ≡ proc_at t j)
unfolding kill
kill_hits t pid i j h other r =
    rw (r, kill)
      (
        refl,
        get_or-set_self t.procs i (marked (proc_at t i)) no_proc h,
        get_or-set_ne t.procs (marked (proc_at t i)) no_proc other,
      )

-- In a table of distinct pids, kill of a pid other than 0 that entry `i` has succeeds, marks that
-- entry as killed and takes it out of its sleep, and leaves all other entries alone.
pub kill_one :
    (t : Table) (pid i j : ℕ)
    → IsValid t
    → i < length t.procs
    → (proc_at t i).pid ≡ pid
    → pid ≢ 0
    → i ≢ j
    → ((kill t pid).1 ≡ true)
      × (proc_at (kill t pid).0 i ≡ marked (proc_at t i))
      × (proc_at (kill t pid).0 j ≡ proc_at t j)
kill_one t pid i j v h e ne other = elim (kill_loop-Looked pid t.procs) [
  | miss none_has r ↦ absurd (none_has i h e)
  | hit k lt same r ↦ elim (ℕ_discrete k i) [
    | yes q ↦ kill_hits t pid i j h other (
        subst
          (λ j. kill_loop pid t.procs ≡ some (set t.procs j (marked (get_or t.procs j no_proc)))) q
          r)
    | no q ↦ absurd (ne (sym same ∙ v.distinct k i q (same ∙ sym e)))
  ]
]

kill_zero_list :
    (ps : List Proc) (nextpid : ℕ) (initproc : Option ℕ) (kstack : ℕ)
    → 0 < length ps
    → (get_or ps 0 no_proc).pid ≡ 0
    → (get_or ps 0 no_proc).state ≡ unused
    → kstack ≢ 0
    → let (t', found) = kill (record { procs = ps; nextpid = nextpid; initproc = initproc }) 0 in
      let (t'', child) = allocproc t' kstack in
      (found ≡ true) × (child ≡ some 0) × ((proc_at t'' 0).killed ≡ true)
unfolding kill kill_loop allocproc find_unused
kill_zero_list [] nextpid initproc kstack h e s k = elim h [ ]
kill_zero_list (p ∷ ps) nextpid initproc kstack h e s k = ground (arith, e, s)

-- kill of 0 succeeds on a free entry that has not been used yet, or has been reaped: it marks it
-- as killed, allocproc does not clear the mark, and the next process that takes the entry is
-- born killed.
pub kill_zero_marks :
    (t : Table) (kstack : ℕ)
    → 0 < length t.procs
    → (proc_at t 0).pid ≡ 0
    → (proc_at t 0).state ≡ unused
    → kstack ≢ 0
    → let (t', found) = kill t 0 in
      let (t'', child) = allocproc t' kstack in
      (found ≡ true) × (child ≡ some 0) × ((proc_at t'' 0).killed ≡ true)
kill_zero_marks t kstack h e s k = kill_zero_list t.procs t.nextpid t.initproc kstack h e s k
