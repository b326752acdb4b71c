-- ===== src/Proc/Wait.antt =====
-- wait of proc.c, and that it meets exit.
use cs461_hw.Prelude.{
  ap, ◌≢◌, ℕ, zero, suc, ◌<◌, ◌≡◌, refl, ◌⊎◌, inl, inr, Bool, true, false, ◌&&◌, Option, none, some,
  List, [], ◌∷◌, arith, Bool-cases, set, get_or,
}
use cs461_hw.Proc.{
  sleeping, ProcState, unused, zombie, asleep, of_proc, sleep, no_children, reaped, have_kids,
  is_zombie, put_proc, reaped_entry, is_parent, no_proc, proc_at, wait, wait_scan, Proc, Table,
  WaitRun,
}

abbrev pub zombie_child : ℕ → Proc → Bool
zombie_child cur p = is_parent p.parent cur && is_zombie p.state

-- What the scan of wait does: it takes the first zombie child, or there is none.
data Scanned (cur : ℕ) (ps : List Proc) (r : Option (ℕ × List Proc)) : Type 0 where
  hit :
      (i : ℕ)
      → zombie_child cur (get_or ps i no_proc) ≡ true
      → ((j : ℕ) → j < i → zombie_child cur (get_or ps j no_proc) ≡ false)
      → r ≡ some ((get_or ps i no_proc).pid, set ps i (reaped_entry (get_or ps i no_proc)))
      → Scanned cur ps r
  miss : ((j : ℕ) → zombie_child cur (get_or ps j no_proc) ≡ false) → r ≡ none → Scanned cur ps r

none_before_suc :
    (cur : ℕ) (p : Proc) (ps : List Proc) (i : ℕ)
    → zombie_child cur p ≡ false
    → ((j : ℕ) → j < i → zombie_child cur (get_or ps j no_proc) ≡ false)
    → (j : ℕ) → j < suc i
    → zombie_child cur (get_or (p ∷ ps) j no_proc) ≡ false
none_before_suc cur p ps i e h zero lt = e
none_before_suc cur p ps i e h (suc j) lt = h j (omega arith)

none_at_all :
    (cur : ℕ) (p : Proc) (ps : List Proc)
    → zombie_child cur p ≡ false
    → ((j : ℕ) → zombie_child cur (get_or ps j no_proc) ≡ false)
    → (j : ℕ) → zombie_child cur (get_or (p ∷ ps) j no_proc) ≡ false
none_at_all cur p ps e h zero = e
none_at_all cur p ps e h (suc j) = h j

wait_scan-cons :
    (cur : ℕ) (p : Proc) (ps : List Proc)
    → zombie_child cur p ≡ false
    → Scanned cur ps (wait_scan cur ps)
    → Scanned cur (p ∷ ps) (wait_scan cur (p ∷ ps))
unfolding wait_scan
wait_scan-cons cur p ps e (hit i z before r) =
    hit (suc i) z (none_before_suc cur p ps i e before) (ground (arith, e, r))
wait_scan-cons cur p ps e (miss none_zombie r) =
    miss (none_at_all cur p ps e none_zombie) (ground (arith, e, r))

wait_scan-first :
    (cur : ℕ) (p : Proc) (ps : List Proc)
    → zombie_child cur p ≡ true
    → Scanned cur (p ∷ ps) (wait_scan cur (p ∷ ps))
unfolding wait_scan
wait_scan-first cur p ps e = hit 0 e (λ j h. absurd (omega arith)) (rw e)

wait_scan-Scanned : (cur : ℕ) (ps : List Proc) → Scanned cur ps (wait_scan cur ps)
unfolding wait_scan
wait_scan-Scanned cur [] = miss (λ j. refl) refl
wait_scan-Scanned cur (p ∷ ps) =
    let rest = wait_scan-Scanned cur ps in
    elim (Bool-cases (zombie_child cur p)) [
      | inl e ↦ wait_scan-first cur p ps e
      | inr e ↦ wait_scan-cons cur p ps e rest
    ]

-- The table's entry j is a child of cur, or a zombie child.
abbrev pub IsChild : Table → ℕ → ℕ → Type 0
IsChild t cur j = (proc_at t j).parent ≡ some cur

abbrev pub IsZombieChild : Table → ℕ → ℕ → Type 0
IsZombieChild t cur j = IsChild t cur j × ((proc_at t j).state ≡ zombie)

is_parent-true : (o : Option ℕ) (i : ℕ) → is_parent o i ≡ true → o ≡ some i
is_parent-true none i e = cc
is_parent-true (some j) i e = let q : j ≡ i = ground (arith, e) in ap (λ k. some k) q

is_parent-false : (o : Option ℕ) (i : ℕ) → is_parent o i ≡ false → o ≢ some i
is_parent-false none i e q = cc
is_parent-false (some j) i e q = ground (arith, e, q)

is_zombie-true : (s : ProcState) → is_zombie s ≡ true → s ≡ zombie
is_zombie-true s e = ground (arith, e)

pub zombie_child-true :
    (t : Table) (cur j : ℕ) → zombie_child cur (proc_at t j) ≡ true → IsZombieChild t cur j
zombie_child-true t cur j e =
    let p = proc_at t j in
    let a : is_parent p.parent cur ≡ true = ground (arith, e) in
    let b : is_zombie p.state ≡ true = ground (arith, e) in
    (is_parent-true p.parent cur a, is_zombie-true p.state b)

zombie_child-false :
    (t : Table) (cur j : ℕ) → zombie_child cur (proc_at t j) ≡ false → ¬ IsZombieChild t cur j
zombie_child-false t cur j e (c, z) =
    let own : zombie_child cur (proc_at t j) ≡ true = rw (c, z) (ground arith) in cc (own, e)

-- havekids tells whether an entry is a child.
have_kids-true :
    (cur : ℕ) (ps : List Proc)
    → have_kids cur ps ≡ true
    → (j : ℕ) × ((get_or ps j no_proc).parent ≡ some cur)
unfolding have_kids
have_kids-true cur [] e = absurd (ground (arith, e))
have_kids-true cur (p ∷ ps) e = elim (Bool-cases (is_parent p.parent cur)) [
  | inl q ↦ (0, is_parent-true p.parent cur q)
  | inr q ↦ let more = have_kids-true cur ps (ground (arith, e, q)) in (suc more.0, more.1)
]

have_kids-false :
    (cur : ℕ) (ps : List Proc)
    → have_kids cur ps ≡ false
    → (j : ℕ) → (get_or ps j no_proc).parent ≢ some cur
unfolding have_kids
have_kids-false cur [] e j = λ q. cc (q)
have_kids-false cur (p ∷ ps) e zero = is_parent-false p.parent cur (ground (arith, e))
have_kids-false cur (p ∷ ps) e (suc j) = have_kids-false cur ps (ground (arith, e)) j

-- How one round of wait ends, with what it has found and what it leaves.
pub data Waited (t : Table) (cur : ℕ) (r : Table × WaitRun) : Type 0 where
  took :
      (i : ℕ)
      → IsZombieChild t cur i
      → ((j : ℕ) → j < i → ¬ IsZombieChild t cur j)
      → r ≡ (
        put_proc t i (record (proc_at t i) {
          kstack = 0;
          pid = 0;
          parent = none;
          killed = false;
          state = unused;
        }),
        reaped (proc_at t i).pid,
      )
      → Waited t cur r
  gave_up :
      ((j : ℕ) → ¬ IsZombieChild t cur j)
      → ((j : ℕ) → ¬ IsChild t cur j) ⊎ ((proc_at t cur).killed ≡ true)
      → r ≡ (t, no_children)
      → Waited t cur r
  waits :
      (j : ℕ)
      → IsChild t cur j
      → ((k : ℕ) → ¬ IsZombieChild t cur k)
      → (proc_at t cur).killed ≡ false
      → r
        ≡ (put_proc t cur (record (proc_at t cur) { chan = of_proc cur; state = sleeping }), asleep)
      → Waited t cur r

wait_misses :
    (t : Table) (cur : ℕ)
    → ((j : ℕ) → zombie_child cur (proc_at t j) ≡ false)
    → wait_scan cur t.procs ≡ none
    → Waited t cur (wait t cur)
unfolding wait sleep
wait_misses t cur none_zombie r =
    let absent = λ (j : ℕ). zombie_child-false t cur j (none_zombie j) in
    elim (Bool-cases (have_kids cur t.procs)) [
      | inr e ↦ gave_up absent (inl (have_kids-false cur t.procs e)) (ground (arith, r))
      | inl e ↦ elim (Bool-cases (proc_at t cur).killed) [
        | inl k ↦ gave_up absent (inr k) (ground (arith, r))
        | inr k ↦
            let kid = have_kids-true cur t.procs e in waits kid.0 kid.1 absent k (ground (arith, r))
      ]
    ]

-- One round of wait, for a process with a zombie child, returns the pid of the first one, and its
-- entry is UNUSED, without a pid, parent or stack, and all others are kept. Where no child is a zombie,
-- it returns -1 and changes nothing if the process has no children or is killed; else the process
-- has a child, and sleeps on itself.
pub wait-Waited : (t : Table) (cur : ℕ) → Waited t cur (wait t cur)
unfolding wait
wait-Waited t cur = elim (wait_scan-Scanned cur t.procs) [
  | hit i z before r ↦
      took i (zombie_child-true t cur i z) (λ j l. zombie_child-false t cur j (before j l))
        (ground (arith, r))
  | miss none_zombie r ↦ wait_misses t cur none_zombie r
]
