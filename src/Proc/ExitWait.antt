-- ===== src/Proc/ExitWait.antt =====
-- exit of a child and wait of its parent, in proc.c.
use cs461_hw.Prelude.{
  ℕ, zero, suc, ◌<◌, ◌≡◌, refl, ap, ◌∙◌, ◌≢◌, true, some, arith, ℕ_discrete, length,
}
use cs461_hw.Proc.{
  zombie, of_proc, put_proc, reaped, wakeup, proc_chan, runnable, sleeping, wait, abandon,
  abandon_one, exit, proc_at, Proc, Table, WaitRun,
}
use cs461_hw.Proc.Wakeup.{put_proc_at, wakeup_at}
use cs461_hw.Proc.Wait.{
  zombie_child-true, IsZombieChild, waits, gave_up, took, wait-Waited, zombie_child,
}
use cs461_hw.Proc.Children.{length-procs-wakeup, exit-some, abandon_one_same, exit_reparents}

-- exit's loop over the children leaves a RUNNABLE process RUNNABLE.
abandon_one-runnable :
    (t : Table) (cur k i : ℕ)
    → (proc_at t i).state ≡ runnable
    → (proc_at (abandon_one t cur k) i).state ≡ runnable
unfolding abandon_one
abandon_one-runnable t cur k i h =
    let p = record (proc_at t k) { parent = t.initproc } in
    let t' = put_proc t k p in
    let c = proc_chan t.initproc in
    let put = ap (λ (q : Proc). q.state) (put_proc_at t k i p) in
    let woken = ap (λ (q : Proc). q.state) (wakeup_at t' c i) in
    elim (ℕ_discrete k i) [
      | yes q ↦ ground (arith, put, woken, ap (λ (j : ℕ). (proc_at t j).state) q)
      | no q ↦ ground (arith, put, woken)
    ]

abandon-runnable :
    (t : Table) (cur k n i : ℕ)
    → (proc_at t i).state ≡ runnable
    → (proc_at (abandon t cur k n) i).state ≡ runnable
unfolding abandon
abandon-runnable t cur k zero i h = h
abandon-runnable t cur k (suc n) i h =
    abandon-runnable (abandon_one t cur k) cur (suc k) n i (abandon_one-runnable t cur k i h)

length-abandon : (t : Table) (cur k n : ℕ) → length (abandon t cur k n).procs ≡ length t.procs
unfolding abandon
length-abandon t cur k zero = refl
length-abandon t cur k (suc n) =
    length-abandon (abandon_one t cur k) cur (suc k) n ∙ (abandon_one_same t cur k).0

-- The dead child is a zombie child of its parent.
exit-zombie_child :
    (t t' : Table) (cur p : ℕ)
    → exit t cur ≡ some t'
    → (proc_at t cur).parent ≡ some p
    → p ≢ cur
    → cur < length t.procs
    → zombie_child p (proc_at t' cur) ≡ true
exit-zombie_child t t' cur p e par ne h =
    let chan = proc_chan (proc_at t cur).parent in
    let woken = wakeup t chan in
    let orphaned = abandon woken cur 0 (length woken.procs) in
    let long = length-abandon woken cur 0 (length woken.procs) in
    ground (
      arith,
      (exit_reparents t t' cur cur e h).0,
      (exit-some t t' cur e).1,
      put_proc_at orphaned cur cur (record (proc_at orphaned cur) { state = zombie }),
      length-procs-wakeup t chan,
      long,
    )

exit-runnable :
    (t t' : Table) (cur p : ℕ)
    → exit t cur ≡ some t'
    → (proc_at t cur).parent ≡ some p
    → p ≢ cur
    → (proc_at t p).state ≡ sleeping
    → (proc_at t p).chan ≡ of_proc p
    → (proc_at t' p).state ≡ runnable
exit-runnable t t' cur p e par ne s c =
    let chan = proc_chan (proc_at t cur).parent in
    let woken = wakeup t chan in
    let orphaned = abandon woken cur 0 (length woken.procs) in
    let up : (proc_at woken p).state ≡ runnable =
      ap (λ (q : Proc). q.state) (wakeup_at t chan p) ∙ rw (par, s, c) (ground arith) in
    ground (
      arith,
      abandon-runnable woken cur 0 (length woken.procs) p up,
      (exit-some t t' cur e).1,
      ap (λ (q : Proc). q.state)
          (put_proc_at orphaned cur p (record (proc_at orphaned cur) { state = zombie })),
    )

wait-reaps :
    (t : Table) (p i : ℕ)
    → IsZombieChild t p i
    → (j : ℕ) × IsZombieChild t p j × ((wait t p).1 ≡ reaped (proc_at t j).pid)
wait-reaps t p i z = elim (wait-Waited t p) [
  | took j zj before r ↦ (j, zj, ap (λ (w : Table × WaitRun). w.1) r)
  | gave_up absent why r ↦ absurd (absent i z)
  | waits j kid absent k r ↦ absurd (absent i z)
]

-- A process that sleeps in wait does not miss the exit of a child: exit leaves the child as its zombie
-- child and makes it RUNNABLE, and its next round of wait returns the pid of one of its zombie
-- children.
pub exit-wait :
    (t t' : Table) (cur p : ℕ)
    → exit t cur ≡ some t'
    → (proc_at t cur).parent ≡ some p
    → p ≢ cur
    → cur < length t.procs
    → (proc_at t p).state ≡ sleeping
    → (proc_at t p).chan ≡ of_proc p
    → IsZombieChild t' p cur
      × ((proc_at t' p).state ≡ runnable)
      × ((j : ℕ) × IsZombieChild t' p j × ((wait t' p).1 ≡ reaped (proc_at t' j).pid))
exit-wait t t' cur p e par ne h s c =
    let z = zombie_child-true t' p cur (exit-zombie_child t t' cur p e par ne h) in
    (z, exit-runnable t t' cur p e par ne s c, wait-reaps t' p cur z)
