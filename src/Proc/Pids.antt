-- ===== src/Proc/Pids.antt =====
-- Process ids in the table of proc.c.
use cs461_hw.Proc.Wakeup.{put_proc_at}
use cs461_hw.Prelude.{
  ◌⊎◌, ℕ_discrete, sym, ap, ◌∙◌, false, length-set, get_or-set_self, get_or-set_ne, Bool, refl, inl,
  inr, Option, none, ◌==◌, if◌then◌else◌, Bool-cases, Option-cases, ℕ, zero, suc, ◌+◌, ◌<◌, ◌≡◌,
  ◌≢◌, true, some, List, [], ◌∷◌, arith, length, get_or,
}
use cs461_hw.Proc.{
  runnable, fork, syscall_trapret, forkret, embryo, allocproc, unused, no_proc, is_unused,
  find_unused, proc_at, put_proc, Proc, Table,
}

-- Every entry's pid, of a free entry too, is below `nextpid`, and no two entries share one but 0.
pub record IsValid (t : Table) : Type 0 where
  pub positive : 0 < t.nextpid
  pub below : (i : ℕ) → (proc_at t i).pid < t.nextpid
  pub distinct : (i j : ℕ) → i ≢ j → (proc_at t i).pid ≡ (proc_at t j).pid → (proc_at t i).pid ≡ 0

find_unused-lt :
    (ps : List Proc) (i : ℕ)
    → find_unused ps ≡ some i
    → (i < length ps) × (is_unused (get_or ps i no_proc).state ≡ true)
unfolding find_unused
find_unused-lt [] i e = cc
find_unused-lt (p ∷ ps) zero e = ground arith
find_unused-lt (p ∷ ps) (suc i) e = ground (arith, find_unused-lt ps i)

renewed_pid :
    (t t' : Table) (i j : ℕ) (p : Proc)
    → i < length t.procs
    → p.pid ≡ t.nextpid
    → t' ≡ put_proc (record t { nextpid = t.nextpid + 1 }) i p
    → (proc_at t' j).pid ≡ (if i == j then t.nextpid else (proc_at t j).pid)
renewed_pid t t' i j p h e q = rw q (rw (put_proc_at t i j p) (ground (arith, e)))

-- An entry rewritten with the next pid.
renew-IsValid :
    (t t' : Table) (i : ℕ) (p : Proc)
    → IsValid t
    → i < length t.procs
    → p.pid ≡ t.nextpid
    → t' ≡ put_proc (record t { nextpid = t.nextpid + 1 }) i p
    → IsValid t'
renew-IsValid t t' i p v h e q =
    let pid = λ (j : ℕ). renewed_pid t t' i j p h e q in
    record {
      positive = rw q (omega arith);
      below = λ j. rw (pid j, q) (ground (arith, v.below j));
      distinct = λ j k ne same.
          ground (arith, pid j, pid k, v.below j, v.below k, v.distinct j k ne, same);
    }

-- What allocproc leaves, when it finds an entry and when it does not.
pub data Allocated (t : Table) (r : Table × Option ℕ) : Type 0 where
  full : r ≡ (t, none) → Allocated t r
  no_stack :
      (i : ℕ) (p : Proc)
      → i < length t.procs
      → p.pid ≡ t.nextpid
      → p.state ≡ unused
      → r ≡ (put_proc (record t { nextpid = t.nextpid + 1 }) i p, none)
      → Allocated t r
  found :
      (i : ℕ) (p : Proc)
      → i < length t.procs
      → is_unused (proc_at t i).state ≡ true
      → p.pid ≡ t.nextpid
      → p.killed ≡ (proc_at t i).killed
      → r ≡ (put_proc (record t { nextpid = t.nextpid + 1 }) i p, some i)
      → Allocated t r

allocproc_found :
    (t : Table) (kstack i : ℕ) → find_unused t.procs ≡ some i → Allocated t (allocproc t kstack)
unfolding allocproc
allocproc_found t kstack i e =
    let (lt, free) = find_unused-lt t.procs i e in
    let p = record (proc_at t i) {
      state = embryo;
      pid = t.nextpid;
      is_process = true;
      kstack = kstack;
    } in
    elim (Bool-cases (kstack == 0)) [
      | inl z ↦ no_stack i (record p { state = unused }) lt refl refl (ground (arith, e, z))
      | inr z ↦
          found i (record p { frames = forkret ∷ syscall_trapret ∷ [] }) lt free refl refl
            (ground (arith, e, z))
    ]

pub allocproc-Allocated : (t : Table) (kstack : ℕ) → Allocated t (allocproc t kstack)
unfolding allocproc
allocproc-Allocated t kstack = elim (Option-cases (find_unused t.procs)) [
  | inl e ↦ full (ground (arith, e))
  | inr (i, e) ↦ allocproc_found t kstack i e
]

-- A successful fork: the entry that the child takes.
pub record Forked (t t' : Table) (cur pid i : ℕ) : Type 0 where
  pub entry : i < length t.procs
  pub free : is_unused (proc_at t i).state ≡ true
  pub has_pid : (proc_at t' i).pid ≡ pid
  pub ready : (proc_at t' i).state ≡ runnable
  pub parent : (proc_at t' i).parent ≡ some cur
  pub killed : (proc_at t' i).killed ≡ (proc_at t i).killed
  pub others : (j : ℕ) → (i ≡ j) ⊎ (proc_at t' j ≡ proc_at t j)

-- A change that keeps all pids.
keep-IsValid :
    (t t' : Table)
    → IsValid t
    → t'.nextpid ≡ t.nextpid
    → ((j : ℕ) → (proc_at t' j).pid ≡ (proc_at t j).pid)
    → IsValid t'
keep-IsValid t t' v n h = record {
  positive = omega (arith, v.positive, n);
  below = λ j. omega (arith, v.below j, h j, n);
  distinct = λ j k ne same. h j ∙ v.distinct j k ne (sym (h j) ∙ same ∙ h k);
}

put_same_pid :
    (t : Table) (i j : ℕ) (q : Proc)
    → q.pid ≡ (proc_at t i).pid
    → (proc_at (put_proc t i q) j).pid ≡ (proc_at t j).pid
put_same_pid t i j q e =
    let put = ap (λ (x : Proc). x.pid) (put_proc_at t i j q) in
    elim (ℕ_discrete i j) [
      | yes same ↦ ground (arith, put, e, ap (λ (k : ℕ). (proc_at t k).pid) same)
      | no differ ↦ ground (arith, put)
    ]

fork_result :
    (t t₁ t' : Table) (cur kstack pid i : ℕ) (copied : Bool)
    → allocproc t kstack ≡ (t₁, some i)
    → fork t cur kstack copied ≡ (t', some pid)
    → (t'
        ≡ put_proc t₁ i (record (proc_at t₁ i) {
          sz = (proc_at t₁ cur).sz;
          parent = some cur;
          state = runnable;
        }))
      × (pid ≡ (proc_at t₁ i).pid)
unfolding fork
fork_result t t₁ t' cur kstack pid i true r f = ground (arith, r, f)
fork_result t t₁ t' cur kstack pid i false r f = absurd (ground (arith, r, f))

fork_found :
    (t t' : Table) (cur kstack pid i : ℕ) (copied : Bool) (p : Proc)
    → IsValid t
    → i < length t.procs
    → is_unused (proc_at t i).state ≡ true
    → p.pid ≡ t.nextpid
    → p.killed ≡ (proc_at t i).killed
    → allocproc t kstack ≡ (put_proc (record t { nextpid = t.nextpid + 1 }) i p, some i)
    → fork t cur kstack copied ≡ (t', some pid)
    → IsValid t' × (pid ≡ t.nextpid) × Forked t t' cur pid i
fork_found t t' cur kstack pid i copied p v h free e k r f =
    let t₁ = put_proc (record t { nextpid = t.nextpid + 1 }) i p in
    let q = record (proc_at t₁ i) {
      sz = (proc_at t₁ cur).sz;
      parent = some cur;
      state = runnable;
    } in
    let (is_t, is_pid) = fork_result t t₁ t' cur kstack pid i copied r f in
    let put : proc_at t₁ i ≡ p = get_or-set_self t.procs i p no_proc h in
    let i_in : i < length t₁.procs = omega (arith, length-set t.procs i p) in
    let at : proc_at t' i ≡ q = rw is_t (get_or-set_self t₁.procs i q no_proc i_in) in
    let same_pid : (j : ℕ) → (proc_at t' j).pid ≡ (proc_at t₁ j).pid =
      λ j. rw is_t (put_same_pid t₁ i j q refl) in
    (
      keep-IsValid t₁ t' (renew-IsValid t t₁ i p v h e refl) (rw is_t) same_pid,
      is_pid ∙ ap (λ (x : Proc). x.pid) put ∙ e,
      record {
        entry = h;
        free = free;
        has_pid = ap (λ (x : Proc). x.pid) at ∙ sym is_pid;
        ready = ap (λ (x : Proc). x.state) at;
        parent = ap (λ (x : Proc). x.parent) at;
        killed = ap (λ (x : Proc). x.killed) at ∙ ap (λ (x : Proc). x.killed) put ∙ k;
        others = λ j. elim (ℕ_discrete i j) [
          | yes here ↦ inl here
          | no ne ↦
              inr
                (rw is_t (get_or-set_ne t₁.procs q no_proc ne ∙ get_or-set_ne t.procs p no_proc ne))
        ];
      },
    )

-- A fork that succeeds returns a pid that no entry of the table had, gives it to an entry that was
-- UNUSED, which is then a RUNNABLE child of the caller, and leaves all other entries alone. The
-- pids stay distinct.
pub fork_fresh :
    (t t' : Table) (cur kstack pid : ℕ) (copied : Bool)
    → IsValid t
    → fork t cur kstack copied ≡ (t', some pid)
    → IsValid t' × ((j : ℕ) → (proc_at t j).pid ≢ pid) × ((i : ℕ) × Forked t t' cur pid i)
unfolding fork
fork_fresh t t' cur kstack pid copied v f = elim (allocproc-Allocated t kstack) [
  | full r ↦ absurd (ground (arith, r))
  | no_stack i p h e s r ↦ absurd (ground (arith, r))
  | found i p h free e k r ↦
      let (v', fresh, forked) = fork_found t t' cur kstack pid i copied p v h free e k r f in
      (v', λ j same. omega (arith, v.below j), (i, forked))
]
