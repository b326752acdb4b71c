-- ===== src/Log/Space.antt =====
-- The log's space: a file system call that stays within MAXOPBLOCKS blocks never overflows the log.
use cs461_hw.Prelude.{
  ◌-◌, ◌⊎◌, inl, inr, false, dec_lt, ℕ_discrete, ◌==◌, if◌then◌else◌, Bool-cases, get_or, ◌*◌,
  length-set, ℕ, zero, suc, ◌+◌, ◌≤◌, ◌<◌, ◌≡◌, refl, ap, true, some, List, [], ◌∷◌, arith, length,
  get_elem?, set,
}
use cs461_hw.Log.{
  init_log, Blocks, commits, wakes, done, end_commit, end_op, maxopblocks, begun, log_write, absorb,
  begin_op, logsize, Log,
}

abbrev sum : List ℕ → ℕ
sum [] = 0
sum (k ∷ ks) = k + sum ks

abbrev remove_at : List ℕ → ℕ → List ℕ
remove_at [] i = []
remove_at (k ∷ ks) zero = ks
remove_at (k ∷ ks) (suc i) = k ∷ remove_at ks i

-- No call has more than MAXOPBLOCKS blocks left.
abbrev pub Shares : List ℕ → Type 0
Shares [] = Unit {0}
Shares (k ∷ ks) = (k ≤ maxopblocks) × Shares ks

-- The log with, for each call between its begin_op and its end_op, how many more blocks it may log.
pub record State : Type 0 where
  pub log : Log
  pub left : List ℕ

-- A call begins, logs a block, or ends; the last to end commits, and no call begins meanwhile.
pub data Step (s : State) : State → Type 0 where
  begins :
      {lg : Log}
      → begin_op s.log ≡ begun lg
      → Step s (record { log = lg; left = maxopblocks ∷ s.left })
  logs :
      {lg : Log} (i k b : ℕ)
      → get_elem? s.left i ≡ some (suc k)
      → log_write s.log b ≡ done lg
      → Step s (record { log = lg; left = set s.left i k })
  ends :
      {lg : Log} (i : ℕ)
      → i < length s.left
      → end_op s.log ≡ wakes lg
      → Step s (record { log = lg; left = remove_at s.left i })
  ends_last :
      {lg : Log} (i : ℕ)
      → i < length s.left
      → end_op s.log ≡ commits lg
      → Step s (record { log = lg; left = remove_at s.left i })
  committed : s.log.committing ≡ true → Step s (record { log = end_commit s.log; left = s.left })

pub data Reach (s : State) : State → Type 0 where
  here : Reach s s
  next : {t u : State} → Reach s t → Step t u → Reach s u

pub record IsValid (s : State) : Type 0 where
  pub size : logsize < s.log.size
  pub counted : s.log.outstanding ≡ length s.left
  pub room : length s.log.block + sum s.left ≤ logsize
  pub shares : Shares s.left
  pub quiet : s.log.committing ≡ true → length s.left ≡ 0

length-absorb : (bs : List ℕ) (b : ℕ) → length (absorb bs b) ≤ length bs + 1
unfolding absorb
length-absorb [] b = omega arith
length-absorb (c ∷ cs) b = ground (arith, length-absorb cs b)

sum-set : (ks : List ℕ) (i k : ℕ) → get_elem? ks i ≡ some (suc k) → suc (sum (set ks i k)) ≡ sum ks
sum-set [] i k e = cc
sum-set (j ∷ ks) zero k e = ground arith
sum-set (j ∷ ks) (suc i) k e = omega (arith, sum-set ks i k e)

sum-remove_at : (ks : List ℕ) (i : ℕ) → sum (remove_at ks i) ≤ sum ks
sum-remove_at [] i = omega arith
sum-remove_at (j ∷ ks) zero = omega arith
sum-remove_at (j ∷ ks) (suc i) = omega (arith, sum-remove_at ks i)

length-remove_at : (ks : List ℕ) (i : ℕ) → i < length ks → suc (length (remove_at ks i)) ≡ length ks
length-remove_at [] i h = elim h [ ]
length-remove_at (j ∷ ks) zero h = refl
length-remove_at (j ∷ ks) (suc i) h = ap suc (length-remove_at ks i (omega arith))

sum-le : (ks : List ℕ) → Shares ks → sum ks ≤ length ks * maxopblocks
sum-le [] h = omega arith
sum-le (k ∷ ks) h = omega (arith, sum-le ks h.1)

set-Shares :
    (ks : List ℕ) (i k : ℕ) → get_elem? ks i ≡ some (suc k) → Shares ks → Shares (set ks i k)
set-Shares [] i k e h = tt
set-Shares (j ∷ ks) zero k e h = (ground (arith, h.0), h.1)
set-Shares (j ∷ ks) (suc i) k e h = (h.0, set-Shares ks i k e h.1)

remove_at-Shares : (ks : List ℕ) (i : ℕ) → Shares ks → Shares (remove_at ks i)
remove_at-Shares [] i h = tt
remove_at-Shares (j ∷ ks) zero h = h.1
remove_at-Shares (j ∷ ks) (suc i) h = (h.0, remove_at-Shares ks i h.1)

-- Each step keeps the space that running calls may still take within the log.
Step-IsValid : {s t : State} → Step s t → IsValid s → IsValid t
unfolding begin_op log_write end_op end_commit
Step-IsValid {s} (begins e) v = ground (arith, sum-le s.left v.shares)
Step-IsValid {s} (logs i k b h e) v = ground (
  arith,
  length-absorb s.log.block b,
  sum-set s.left i k h,
  length-set s.left i k,
  set-Shares s.left i k h v.shares,
)
Step-IsValid {s} (ends i h e) v =
    ground (
      arith,
      sum-remove_at s.left i,
      length-remove_at s.left i h,
      remove_at-Shares s.left i v.shares,
    )
Step-IsValid {s} (ends_last i h e) v =
    ground (
      arith,
      sum-remove_at s.left i,
      length-remove_at s.left i h,
      remove_at-Shares s.left i v.shares,
    )
Step-IsValid {s} (committed e) v = ground arith

Reach-IsValid : {s t : State} → IsValid s → Reach s t → IsValid t
Reach-IsValid v here = v
Reach-IsValid v (next r st) = Step-IsValid st (Reach-IsValid v r)

-- The log as initlog leaves it; no call has begun.
abbrev pub initial : ℕ → ℕ → Blocks → State
initial start size view = record { log = (init_log start size view).0; left = [] }

initial-IsValid :
    (start size : ℕ) (view : Blocks) → logsize < size → IsValid (initial start size view)
initial-IsValid start size view h = ground arith

get_or-le_sum : (ks : List ℕ) (i : ℕ) → get_or ks i 0 ≤ sum ks
get_or-le_sum [] i = omega arith
get_or-le_sum (j ∷ ks) zero = omega arith
get_or-le_sum (j ∷ ks) (suc i) = omega (arith, get_or-le_sum ks i)

-- end_op, by a running call, goes on to commit if it is the last one and wakes the waiting callers if
-- not, and leaves the logged blocks.
abbrev pub Ends : State → Type 0
Ends t =
    (end_op t.log ≡ (
      if length t.left == 1
      then commits (record t.log { outstanding = 0; committing = true })
      else wakes (record t.log { outstanding = length t.left - 1 })))

IsValid-Ends : {t : State} → IsValid t → 0 < length t.left → Ends t
unfolding end_op
IsValid-Ends {t} v h =
    let quiet : t.log.committing ≡ false = elim (Bool-cases t.log.committing) [
      | inl e ↦ absurd (omega (arith, v.quiet e, h))
      | inr e ↦ e
    ] in
    ground (arith, quiet, v.counted, h)

-- log_write by a call with blocks left succeeds.
IsValid-logs :
    {t : State} (i b : ℕ)
    → IsValid t
    → 0 < get_or t.left i 0
    → i < length t.left
    → log_write t.log b ≡ done (record t.log { block = absorb t.log.block b })
unfolding log_write
IsValid-logs {t} i b v h l =
    let some_left = get_or-le_sum t.left i in ground (arith, v.room, v.size, v.counted)

-- In a log of more than LOGSIZE blocks, whatever calls have begun, logged blocks within MAXOPBLOCKS,
-- ended and committed, in any order and number, the log holds at most LOGSIZE blocks. For every
-- running call i, also where the log is full, end_op commits if no other call runs and wakes the
-- waiting callers if one does, without a panic; and log_write records the block unless the call has
-- logged MAXOPBLOCKS times.
pub Reach-no_panic :
    (start size i b : ℕ) (view : Blocks) {t : State}
    → logsize < size
    → Reach (initial start size view) t
    → (length t.log.block ≤ logsize)
      × ((length t.left ≤ i)
          ⊎ (Ends t
              × ((get_or t.left i 0 ≡ 0)
                  ⊎ (log_write t.log b ≡ done (record t.log { block = absorb t.log.block b })))))
Reach-no_panic start size i b view {t} h r =
    let v = Reach-IsValid (initial-IsValid start size view h) r in
    (
      omega (arith, v.room),
      elim (dec_lt i (length t.left)) [
        | no out ↦ inl (omega (arith, out))
        | yes l ↦ inr (
          IsValid-Ends v (omega (arith, l)),
          elim (ℕ_discrete (get_or t.left i 0) 0) [
            | yes z ↦ inl z
            | no ne ↦ inr (IsValid-logs i b v (omega (arith, ne)) l)
          ],
        )
      ],
    )
