-- ===== src/Proc.antt =====
-- proc.c: the process table. A `struct proc *` is an index of the table, and 0 is `none`. The
-- functions that hold `ptable.lock` are steps on the table; one that sleeps is cut there. Page
-- tables, files and directories are kept by other parts and are not in this model, nor is `name`,
-- which only `procdump` reads.
pub mod Wakeup
pub mod Children
pub mod Wait
pub mod ExitWait
pub mod Pids
pub mod Kill
pub mod Scheduler
mod Tests
use cs461_hw.Prelude.{
  zero, not, ◌||◌, length, ℕ, suc, ◌+◌, Bool, true, false, ◌&&◌, Option, none, some, List, [], ◌∷◌,
  ◌==◌, if◌then◌else◌, set, get_or,
}

pub data ProcState : Type 0 where
  unused embryo sleeping runnable running zombie kzombie : ProcState

-- What a sleeping process waits for: a process, the address of some other object, or nothing (0).
pub data Chan : Type 0 where
  no_chan : Chan
  of_proc : ℕ → Chan
  of_addr : ℕ → Chan

-- The routines that a new kernel stack makes a process run, first one first.
pub data Routine : Type 0 where
  forkret syscall_trapret exitkth : Routine
  kroutine : ℕ → Routine

-- `struct proc`. `kstack` is an address, 0 for none; `frames` is what the new stack leads to.
pub record Proc : Type 0 where
  pub sz : ℕ
  pub kstack : ℕ
  pub state : ProcState
  pub pid : ℕ
  pub parent : Option ℕ
  pub frames : List Routine
  pub chan : Chan
  pub killed : Bool
  pub is_process : Bool

-- `ptable`, `nextpid` and `initproc`; `nextpid` is taken not to overflow.
pub record Table : Type 0 where
  pub procs : List Proc
  pub nextpid : ℕ
  pub initproc : Option ℕ

abbrev pub is_unused : ProcState → Bool
is_unused unused = true
is_unused _ = false

abbrev pub is_sleeping : ProcState → Bool
is_sleeping sleeping = true
is_sleeping _ = false

abbrev pub is_zombie : ProcState → Bool
is_zombie zombie = true
is_zombie _ = false

abbrev pub is_kzombie : ProcState → Bool
is_kzombie kzombie = true
is_kzombie _ = false

abbrev pub is_runnable : ProcState → Bool
is_runnable runnable = true
is_runnable _ = false

-- `p->chan == chan`
abbrev pub chan_eq : Chan → Chan → Bool
chan_eq no_chan no_chan = true
chan_eq (of_proc i) (of_proc j) = i == j
chan_eq (of_addr a) (of_addr b) = a == b
chan_eq _ _ = false

-- `p->parent == proc`
abbrev pub is_parent : Option ℕ → ℕ → Bool
is_parent none i = false
is_parent (some j) i = j == i

abbrev pub no_proc : Proc
no_proc = record {
  sz = 0;
  kstack = 0;
  state = unused;
  pid = 0;
  parent = none;
  frames = [];
  chan = no_chan;
  killed = false;
  is_process = false;
}

-- A pointer to a process as the channel that it is.
abbrev pub proc_chan : Option ℕ → Chan
proc_chan none = no_chan
proc_chan (some i) = of_proc i

-- `ptable.proc[i]`
abbrev pub proc_at : Table → ℕ → Proc
proc_at t i = get_or t.procs i no_proc

abbrev pub put_proc : Table → ℕ → Proc → Table
put_proc t i p = record t { procs = set t.procs i p }

-- The loop of `allocproc` and of `startkth`: the first UNUSED entry.
pub find_unused : List Proc → Option ℕ
find_unused [] = none
find_unused (p ∷ ps) =
    if is_unused p.state
    then some 0
    else elim (find_unused ps) [ none ↦ none | some i ↦ some (suc i) ]

-- `allocproc`, whose `kalloc` returns `kstack`.
pub allocproc : Table → ℕ → Table × Option ℕ
allocproc t kstack = elim (find_unused t.procs) [
  | none ↦ (t, none)
  | some i ↦
      let p = record (proc_at t i) {
        state = embryo;
        pid = t.nextpid;
        is_process = true;
        kstack = kstack;
      } in
      let t' = record t { nextpid = t.nextpid + 1 } in
      if kstack == 0
      then (put_proc t' i (record p { state = unused }), none)
      else (put_proc t' i (record p { frames = forkret ∷ syscall_trapret ∷ [] }), some i)
]

-- `fork` by process `cur`; `copied` is whether `copyuvm` succeeds. None is a return of -1.
pub fork : Table → ℕ → ℕ → Bool → Table × Option ℕ
fork t cur kstack copied =
    let (t', found) = allocproc t kstack in
    elim found [
      | none ↦ (t', none)
      | some i ↦
          let np = proc_at t' i in
          let parent = proc_at t' cur in
          if copied
          then (
            put_proc t' i (record np { sz = parent.sz; parent = some cur; state = runnable }),
            some np.pid,
          )
          else (put_proc t' i (record np { kstack = 0; state = unused }), none)
    ]

-- `startkth`: a kernel thread runs forkret, its routine, then exitkth.
pub startkth : Table → ℕ → ℕ → Table × Option ℕ
startkth t kstack routine = elim (find_unused t.procs) [
  | none ↦ (t, none)
  | some i ↦
      let p = record (proc_at t i) {
        state = embryo;
        pid = t.nextpid;
        is_process = true;
        kstack = kstack;
      } in
      let t' = record t { nextpid = t.nextpid + 1 } in
      if kstack == 0 then (put_proc t' i (record p { state = unused }), none) else (
        put_proc t' i (record p {
          frames = forkret ∷ kroutine routine ∷ exitkth ∷ [];
          is_process = false;
          state = runnable;
        }),
        some i,
      )
]

-- `wakeup1`
pub wakeup1 : Chan → List Proc → List Proc
wakeup1 chan [] = []
wakeup1 chan (p ∷ ps) =
    (if is_sleeping p.state && chan_eq p.chan chan then record p { state = runnable } else p)
    ∷ wakeup1 chan ps

-- `wakeup`
pub wakeup : Table → Chan → Table
wakeup t chan = record t { procs = wakeup1 chan t.procs }

-- `sleep` up to its `sched()`, and what it does when it is resumed.
pub sleep : Table → ℕ → Chan → Table
sleep t cur chan = put_proc t cur (record (proc_at t cur) { chan = chan; state = sleeping })

pub resume : Table → ℕ → Table
resume t cur = put_proc t cur (record (proc_at t cur) { chan = no_chan })

-- `yield` and `exitkth` up to their `sched()`.
pub yield_proc : Table → ℕ → Table
yield_proc t cur = put_proc t cur (record (proc_at t cur) { state = runnable })

pub exit_kth : Table → ℕ → Table
exit_kth t cur = put_proc t cur (record (proc_at t cur) { state = kzombie })

-- The loop of `kill`; `none` is a return of -1.
pub kill_loop : ℕ → List Proc → Option (List Proc)
kill_loop pid [] = none
kill_loop pid (p ∷ ps) =
    if p.pid == pid
    then some
        (record p { killed = true; state = if is_sleeping p.state then runnable else p.state } ∷ ps)
    else elim (kill_loop pid ps) [ none ↦ none | some qs ↦ some (p ∷ qs) ]

pub kill : Table → ℕ → Table × Bool
kill t pid = elim (kill_loop pid t.procs) [
  | none ↦ (t, false)
  | some ps ↦ (record t { procs = ps }, true)
]

-- `exit`'s loop over the table at entry `k`.
pub abandon_one : Table → ℕ → ℕ → Table
abandon_one t cur k =
    let p = proc_at t k in
    let t' = put_proc t k (record p { parent = t.initproc }) in
    if is_parent p.parent cur
    then if is_zombie p.state then wakeup t' (proc_chan t.initproc) else t'
    else t

-- The loop for the `n` entries from `k` on.
pub abandon : Table → ℕ → ℕ → ℕ → Table
abandon t cur k zero = t
abandon t cur k (suc n) = abandon (abandon_one t cur k) cur (suc k) n

-- `exit` by `cur` from where it takes the lock to its `sched()`; none is the panic "init exiting".
pub exit : Table → ℕ → Option Table
exit t cur =
    let woken = wakeup t (proc_chan (proc_at t cur).parent) in
    let orphaned = abandon woken cur 0 (length woken.procs) in
    if is_parent t.initproc cur
    then none
    else some (put_proc orphaned cur (record (proc_at orphaned cur) { state = zombie }))

-- The entry of a zombie child that `wait` found; its stack and page table are freed.
abbrev pub reaped_entry : Proc → Proc
reaped_entry p = record p { kstack = 0; pid = 0; parent = none; killed = false; state = unused }

-- The scan of `wait`: the first zombie child's pid, and the table without it.
pub wait_scan : ℕ → List Proc → Option (ℕ × List Proc)
wait_scan cur [] = none
wait_scan cur (p ∷ ps) =
    if is_parent p.parent cur && is_zombie p.state
    then some (p.pid, reaped_entry p ∷ ps)
    else elim (wait_scan cur ps) [ none ↦ none | some (pid, qs) ↦ some (pid, p ∷ qs) ]

-- `havekids` after a scan that found no zombie.
pub have_kids : ℕ → List Proc → Bool
have_kids cur [] = false
have_kids cur (p ∷ ps) = is_parent p.parent cur || have_kids cur ps

-- How one round of `wait` ends.
pub data WaitRun : Type 0 where
  reaped : ℕ → WaitRun
  no_children : WaitRun
  asleep : WaitRun

pub wait : Table → ℕ → Table × WaitRun
wait t cur = elim (wait_scan cur t.procs) [
  | some (pid, ps) ↦ (record t { procs = ps }, reaped pid)
  | none ↦
      if not (have_kids cur t.procs) || (proc_at t cur).killed
      then (t, no_children)
      else (sleep t cur (of_proc cur), asleep)
]

-- A switch to process `i`, `switchuvm` and `swtch`: `run` is what happens until the process switches
-- back. The list keeps each process that has been switched to, with the table at that time.
pub switch : (Table → ℕ → Table) → Table × List (ℕ × Table) → ℕ → Table × List (ℕ × Table)
switch run (t, ran) i = (run t i, (i, t) ∷ ran)

-- One entry of the scheduler's loop.
pub schedule_one : (Table → ℕ → Table) → Table × List (ℕ × Table) → ℕ → Table × List (ℕ × Table)
schedule_one run (t, ran) i =
    let p = proc_at t i in
    let (back, ran') = switch run (put_proc t i (record p { state = running }), ran) i in
    let p' = proc_at back i in
    if is_runnable p.state
    then if is_kzombie p'.state
      then (put_proc back i (record p' { kstack = 0; pid = 0; state = unused }), ran')
      else (back, ran')
    else (t, ran)

-- The scheduler's loop over the `n` entries from `i` on.
pub schedule : (Table → ℕ → Table) → Table × List (ℕ × Table) → ℕ → ℕ → Table × List (ℕ × Table)
schedule run s i zero = s
schedule run s i (suc n) = schedule run (schedule_one run s i) (suc i) n
