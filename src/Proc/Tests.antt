-- ===== src/Proc/Tests.antt =====
-- The process table of proc.c at concrete inputs.
use cs461_hw.Proc.ExitWait.{exit-wait}
use cs461_hw.Proc.Children.{exit_reparents}
use cs461_hw.Proc.Wakeup.{sleep-wakeup, wakeups}
use cs461_hw.Prelude.{
  ℕ, zero, suc, ◌+◌, ◌<◌, ◌≡◌, refl, ◌≢◌, true, false, some, [], ◌∷◌, arith, ltb, if◌then◌else◌,
  get_or-set_ne,
}
use cs461_hw.Proc.{
  put_proc, switch, schedule_one, abandon_one, abandon, find_unused, of_addr, of_proc,
  syscall_trapret, wakeup1, allocproc, forkret, is_parent, reaped, running, schedule, sleep,
  sleeping, wait_scan, wakeup, zombie, exit, fork, no_proc, proc_at, runnable, wait, yield_proc,
  Proc, Table,
}
use cs461_hw.Proc.Pids.{fork_fresh, IsValid, Forked}
use cs461_hw.Proc.Wait.{IsZombieChild, wait-Waited, Waited}
use cs461_hw.Proc.Scheduler.{schedule_runs, has_run, Fair}

-- init (pid 1), a shell asleep in wait (pid 2), its child (pid 3), and a free entry.
abbrev init_proc : Proc
init_proc = record no_proc { state = runnable; pid = 1 }

abbrev shell : Proc
shell = record no_proc { state = sleeping; pid = 2; parent = some 0; chan = of_proc 1 }

abbrev child : Proc
child = record no_proc { state = running; pid = 3; parent = some 1 }

abbrev small : Table
small = record { procs = init_proc ∷ shell ∷ child ∷ no_proc ∷ []; nextpid = 4; initproc = some 0 }

abbrev after_exit : Table
after_exit = record small {
  procs =
      init_proc
      ∷ record shell { state = runnable }
      ∷ record child { state = zombie }
      ∷ no_proc
      ∷ [];
}

exits : exit small 2 ≡ some after_exit
unfolding exit wakeup wakeup1 abandon abandon_one
exits = refl

wait_returns_three : (wait after_exit 1).1 ≡ reaped 3
unfolding wait wait_scan
wait_returns_three = refl

small_pids : (i : ℕ) → (proc_at small i).pid < 4
small_pids zero = omega arith
small_pids (suc zero) = omega arith
small_pids (suc (suc zero)) = omega arith
small_pids (suc (suc (suc zero))) = omega arith
small_pids (suc (suc (suc (suc i)))) = omega arith

small_pid : (i : ℕ) → (proc_at small i).pid ≡ (if ltb i 3 then i + 1 else 0)
small_pid zero = refl
small_pid (suc zero) = refl
small_pid (suc (suc zero)) = refl
small_pid (suc (suc (suc zero))) = refl
small_pid (suc (suc (suc (suc i)))) = ground arith

small-IsValid : IsValid small
small-IsValid = record {
  positive = omega arith;
  below = small_pids;
  distinct = λ i j ne same. ground (arith, small_pid i, small_pid j, same, ne);
}

sleep-wakeup_example :
    let t' = wakeups (sleep small 2 (of_addr 80)) (of_proc 1 ∷ []) in
    (proc_at t' 2 ≡ record child { chan = of_addr 80; state = sleeping })
    × (proc_at (wakeup t' (of_addr 80)) 2 ≡ record child { chan = of_addr 80; state = runnable })
    × (proc_at (wakeup (sleep small 2 (of_addr 80)) (of_addr 80)) 1 ≡ shell)
sleep-wakeup_example =
    sleep-wakeup small 2 1 (of_addr 80) (of_proc 1 ∷ []) (omega arith) (refl, tt) (omega arith) refl

exit_reparents_example :
    ((proc_at after_exit 2).parent ≡ some 1) × (is_parent (proc_at after_exit 2).parent 2 ≡ false)
exit_reparents_example = exit_reparents small after_exit 2 2 exits (omega arith)

wait-Waited_example : Waited after_exit 1 (wait after_exit 1)
wait-Waited_example = wait-Waited after_exit 1

exit-wait_example :
    IsZombieChild after_exit 1 2
    × ((proc_at after_exit 1).state ≡ runnable)
    × ((j : ℕ) × IsZombieChild after_exit 1 j
        × ((wait after_exit 1).1 ≡ reaped (proc_at after_exit j).pid))
exit-wait_example = exit-wait small after_exit 2 1 exits refl (omega arith) (omega arith) refl refl

abbrev forked : Table
forked = record small {
  procs =
      init_proc
      ∷ shell
      ∷ child
      ∷ record no_proc {
        sz = 0;
        kstack = 9;
        state = runnable;
        pid = 4;
        parent = some 2;
        frames = forkret ∷ syscall_trapret ∷ [];
        is_process = true;
      }
      ∷ [];
  nextpid = 5;
}

forks : fork small 2 9 true ≡ (forked, some 4)
unfolding fork allocproc find_unused
forks = refl

fork_fresh_example :
    IsValid forked × ((j : ℕ) → (proc_at small j).pid ≢ 4) × ((i : ℕ) × Forked small forked 2 4 i)
fork_fresh_example = fork_fresh small forked 2 9 4 true small-IsValid forks

abbrev empty_table : Table
empty_table = record small { procs = no_proc ∷ no_proc ∷ [] }

-- A process that yields at once.
yield_proc-Fair : Fair yield_proc
unfolding yield_proc
yield_proc-Fair = record {
  keeps = λ t i j ne h.
      rw (get_or-set_ne t.procs (record (proc_at t i) { state = runnable }) no_proc ne) h;
}

schedule_runs_example : has_run 1 (schedule yield_proc (after_exit, []) 0 4).1 ≡ true
schedule_runs_example =
    schedule_runs yield_proc yield_proc-Fair (after_exit, []) 0 4 1 (omega arith) (omega arith) refl

runs_two_of_four :
    (schedule yield_proc (after_exit, []) 0 4).1
    ≡ (1, put_proc after_exit 1 (record shell { state = running }))
      ∷ (0, put_proc after_exit 0 (record init_proc { state = running }))
      ∷ []
unfolding schedule schedule_one switch yield_proc
runs_two_of_four = refl
