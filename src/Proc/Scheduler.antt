-- ===== src/Proc/Scheduler.antt =====
-- One round of the scheduler of proc.c on one processor.
use cs461_hw.Prelude.{
  sym, ◌&&◌, length, get_or, ◌∙◌, ℕ, zero, suc, ◌+◌, ◌≤◌, ◌<◌, ◌≡◌, ap, ◌≢◌, Bool, true, false,
  ◌||◌, List, [], ◌∷◌, arith, ℕ_discrete, ◌==◌, get_or-set_ne,
}
use cs461_hw.Proc.Wakeup.{put_proc_at}
use cs461_hw.Proc.{
  switch, ProcState, no_proc, unused, put_proc, running, proc_at, is_runnable, schedule,
  schedule_one, Proc, Table,
}

abbrev is_running : ProcState → Bool
is_running running = true
is_running _ = false

-- Process `j` was switched to, and was RUNNING then.
abbrev pub has_run : ℕ → List (ℕ × Table) → Bool
has_run j [] = false
has_run j ((i, u) ∷ rest) = i == j && is_running (proc_at u j).state || has_run j rest

-- A process that runs, until it switches back, takes no other process out of RUNNABLE.
pub record Fair (run : Table → ℕ → Table) : Type 0 where
  pub keeps :
      (t : Table) (i j : ℕ)
      → i ≢ j
      → is_runnable (proc_at t j).state ≡ true
      → is_runnable (proc_at (run t i) j).state ≡ true

runnable_in_range :
    (ps : List Proc) (j : ℕ) → is_runnable (get_or ps j no_proc).state ≡ true → j < length ps
runnable_in_range [] j e = cc
runnable_in_range (p ∷ ps) zero e = omega arith
runnable_in_range (p ∷ ps) (suc j) e = omega (arith, runnable_in_range ps j e)

module _ (run : Table → ℕ → Table) where
  schedule_one-has_run :
      (t : Table) (ran : List (ℕ × Table)) (i j : ℕ)
      → has_run j ran ≡ true
      → has_run j (schedule_one run (t, ran) i).1 ≡ true
  unfolding schedule_one switch
  schedule_one-has_run t ran i j h = ground (arith, h)

  schedule-has_run :
      (s : Table × List (ℕ × Table)) (i n j : ℕ)
      → has_run j s.1 ≡ true
      → has_run j (schedule run s i n).1 ≡ true
  unfolding schedule
  schedule-has_run s i zero j h = h
  schedule-has_run (t, ran) i (suc n) j h =
      schedule-has_run (schedule_one run (t, ran) i) (suc i) n j (schedule_one-has_run t ran i j h)

  -- A RUNNABLE process is made RUNNING and switched to.
  schedule_one-runs :
      (t : Table) (ran : List (ℕ × Table)) (i : ℕ)
      → is_runnable (proc_at t i).state ≡ true
      → has_run i (schedule_one run (t, ran) i).1 ≡ true
  unfolding schedule_one switch
  schedule_one-runs t ran i h =
      let p = record (proc_at t i) { state = running } in
      let there = put_proc_at t i i p in
      let within = runnable_in_range t.procs i h in
      let set_running : is_running (proc_at (put_proc t i p) i).state ≡ true =
        ground (arith, there, within) in
      ground (arith, h, set_running)

module _ (run : Table → ℕ → Table) (fair : Fair run) where
  schedule_one_keeps :
      (t : Table) (ran : List (ℕ × Table)) (i j : ℕ)
      → i ≢ j
      → is_runnable (proc_at t j).state ≡ true
      → is_runnable (proc_at (schedule_one run (t, ran) i).0 j).state ≡ true
  unfolding schedule_one switch
  schedule_one_keeps t ran i j ne h =
      let p = record (proc_at t i) { state = running } in
      let t' = put_proc t i p in
      let back = run t' i in
      let dead = record (proc_at back i) { kstack = 0; pid = 0; state = unused } in
      let runnable_there : is_runnable (proc_at t' j).state ≡ true =
        rw (get_or-set_ne t.procs p no_proc ne) h in
      ground (
        arith,
        h,
        fair.keeps t' i j ne runnable_there,
        ap (λ (q : Proc). is_runnable q.state) (get_or-set_ne back.procs dead no_proc ne),
      )

  -- A round of the scheduler's loop makes every process RUNNING and switches to it that is RUNNABLE when
  -- the round begins, also one whose turn comes after others have run, if a process that runs takes
  -- no other out of RUNNABLE.
  pub schedule_runs :
      (s : Table × List (ℕ × Table)) (i n j : ℕ)
      → i ≤ j
      → j < i + n
      → is_runnable (proc_at s.0 j).state ≡ true
      → has_run j (schedule run s i n).1 ≡ true
  unfolding schedule
  schedule_runs s i zero j lo hi h = absurd (omega arith)
  schedule_runs (t, ran) i (suc n) j lo hi h = elim (ℕ_discrete i j) [
    | yes q ↦
        let first : is_runnable (proc_at t i).state ≡ true =
          ap (λ (k : ℕ). is_runnable (proc_at t k).state) q ∙ h in
        schedule-has_run run (schedule_one run (t, ran) i) (suc i) n j (
          ap (λ (k : ℕ). has_run k (schedule_one run (t, ran) i).1) (sym q)
          ∙ schedule_one-runs run t ran i first)
    | no ne ↦
        schedule_runs (schedule_one run (t, ran) i) (suc i) n j (omega arith) (omega arith)
          (schedule_one_keeps t ran i j ne h)
  ]
