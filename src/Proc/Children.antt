-- ===== src/Proc/Children.antt =====
-- exit and wait in the process table of proc.c.
use cs461_hw.Prelude.{
  some, zero, suc, ◌+◌, ◌≤◌, ap, false, ltb, leb, ℕ, ◌<◌, ◌≡◌, refl, ◌&&◌, arith, ◌==◌,
  if◌then◌else◌, length, set, length-set,
}
use cs461_hw.Proc.{
  exit, zombie, abandon, put_proc, is_parent, proc_chan, proc_at, abandon_one, wakeup, Proc, Table,
  Chan,
}
use cs461_hw.Proc.Wakeup.{wakeup_at, put_proc_at, length-wakeup1, woken_by}

-- A wakeup changes states only.
parent-woken_by : (c : Chan) (p : Proc) → (woken_by c p).parent ≡ p.parent
parent-woken_by c p = ground arith

pub length-procs-wakeup : (t : Table) (c : Chan) → length (wakeup t c).procs ≡ length t.procs
unfolding wakeup
length-procs-wakeup t c = length-wakeup1 c t.procs

pub initproc-wakeup : (t : Table) (c : Chan) → (wakeup t c).initproc ≡ t.initproc
unfolding wakeup
initproc-wakeup t c = refl

-- What one entry of exit's loop does to a parent pointer.
pub abandon_one_same :
    (t : Table) (cur k : ℕ)
    → (length (abandon_one t cur k).procs ≡ length t.procs)
      × ((abandon_one t cur k).initproc ≡ t.initproc)
unfolding abandon_one wakeup
abandon_one_same t cur k = ground (
  arith,
  length-set t.procs k (record (proc_at t k) { parent = t.initproc }),
  length-wakeup1 (proc_chan t.initproc)
      (set t.procs k (record (proc_at t k) { parent = t.initproc })),
)

parent-abandon_one :
    (t : Table) (cur k i : ℕ)
    → k < length t.procs
    → (proc_at (abandon_one t cur k) i).parent
      ≡ (if k == i && is_parent (proc_at t k).parent cur then t.initproc else (proc_at t i).parent)
unfolding abandon_one
parent-abandon_one t cur k i h =
    let p = record (proc_at t k) { parent = t.initproc } in
    let t' = put_proc t k p in
    let c = proc_chan t.initproc in
    ground (
      arith,
      ap (λ (q : Proc). q.parent) (put_proc_at t k i p),
      ap (λ (q : Proc). q.parent) (wakeup_at t' c i),
      parent-woken_by c (proc_at t' i),
    )

-- The loop from `k` on hands over the children among the entries that it visits.
parent-abandon :
    (t : Table) (cur k n i : ℕ)
    → is_parent t.initproc cur ≡ false
    → k + n ≤ length t.procs
    → (proc_at (abandon t cur k n) i).parent ≡ (
        if leb k i && ltb i (k + n) && is_parent (proc_at t i).parent cur
        then t.initproc
        else (proc_at t i).parent)
unfolding abandon
parent-abandon t cur k zero i ne h = ground arith
parent-abandon t cur k (suc n) i ne h =
    let t' = abandon_one t cur k in
    let (len, init) = abandon_one_same t cur k in
    ground (
      arith,
      len,
      init,
      parent-abandon t' cur (suc k) n i (rw init ne) (rw len (omega arith)),
      parent-abandon_one t cur k i (omega arith),
    )

pub exit-some :
    (t t' : Table) (cur : ℕ)
    → exit t cur ≡ some t'
    → let woken = wakeup t (proc_chan (proc_at t cur).parent) in
      let orphaned = abandon woken cur 0 (length woken.procs) in
      (is_parent t.initproc cur ≡ false)
      × (t' ≡ put_proc orphaned cur (record (proc_at orphaned cur) { state = zombie }))
unfolding exit
exit-some t t' cur e = ground arith

pub parent-put-zombie :
    (t : Table) (cur i : ℕ)
    → (proc_at (put_proc t cur (record (proc_at t cur) { state = zombie })) i).parent
      ≡ (proc_at t i).parent
parent-put-zombie t cur i = ground (
  arith,
  ap (λ (q : Proc). q.parent) (put_proc_at t cur i (record (proc_at t cur) { state = zombie })),
)

-- After exit every child of the process belongs to init, every other process keeps its parent, and
-- none has the dead process for a parent.
pub exit_reparents :
    (t t' : Table) (cur i : ℕ)
    → exit t cur ≡ some t'
    → i < length t.procs
    → ((proc_at t' i).parent
        ≡ (if is_parent (proc_at t i).parent cur then t.initproc else (proc_at t i).parent))
      × (is_parent (proc_at t' i).parent cur ≡ false)
exit_reparents t t' cur i e h =
    let chan = proc_chan (proc_at t cur).parent in
    let woken = wakeup t chan in
    let orphaned = abandon woken cur 0 (length woken.procs) in
    let (ne, eq) = exit-some t t' cur e in
    let parent : (proc_at t' i).parent
        ≡ (if is_parent (proc_at t i).parent cur then t.initproc else (proc_at t i).parent) =
      ground (
        arith,
        eq,
        parent-put-zombie orphaned cur i,
        parent-abandon woken cur 0 (length woken.procs) i (rw (initproc-wakeup t chan) ne)
            (omega arith),
        length-procs-wakeup t chan,
        initproc-wakeup t chan,
        ap (λ (q : Proc). q.parent) (wakeup_at t chan i),
        parent-woken_by chan (proc_at t i),
      ) in
    (parent, ground (arith, parent, ne))
