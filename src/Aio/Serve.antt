-- ===== src/Aio/Serve.antt =====
-- sys_aread's answers, and what serving a task reads.
use native.Mathlib.Numerals.{add-one}
use cs461_hw.Prelude.{
  ◌/◌, min, dec_lt, ℕ_discrete, ◌-◌, refl, false, ltb, if◌then◌else◌, ℕ, zero, suc, ◌+◌, ◌*◌, ◌^◌,
  ◌≤◌, ◌<◌, ◌≡◌, ◌⊎◌, Bool, true, List, [], ◌∷◌, ◌++◌, arith,
}
use cs461_hw.Aio.{
  past_end, capacity, set_status, append_task, copy_tmp, queued, clamp, consume_loop,
  consume_one_task, pgsize, read_file, sys_aread, Task, Tasks, Action,
}
use cs461_hw.Aio.Queue.{overrun, stored, append_task-Appended, IsValid, contents}

-- The largest file: 12 direct and 128 indirect blocks of 512 bytes.
abbrev pub max_size : ℕ
max_size = (12 + 128) * 512

-- What sys_aread does on a valid queue.
pub record Answered (q : Tasks) (size : ℕ) (t : Task) (q' : Tasks) (n : ℕ) : Type 0 where
  pub some_bytes : 0 < n
  pub asked : n ≤ t.nbytes
  pub within : t.offset + n ≤ size
  pub greatest : (n ≡ t.nbytes) ⊎ (t.offset + n ≡ size)
  pub valid : IsValid q'
  pub task : contents q' ≡ contents q ++ (record t { nbytes = n } ∷ [])

clamp_bounds :
    (size offset nbytes : ℕ)
    → size ≤ max_size
    → offset < size
    → 0 < nbytes
    → nbytes < 2 ^ 31
    → let n = clamp size offset nbytes in
      (0 < n) × (n ≤ nbytes) × (offset + n ≤ size) × ((n ≡ nbytes) ⊎ (offset + n ≡ size))
unfolding clamp
clamp_bounds size offset nbytes s o p h = ground arith

-- When sys_aread on a valid queue, for a file within the file system's limit, returns that `n` bytes
-- are to come, `n` is positive, at most the number asked for, and the range from the offset on lies
-- in the file; `n` is the greatest such number; and the queue has one task more, for this range.
pub sys_aread-Answered :
    (q q' : Tasks) (size n : ℕ) (args : Bool) (t : Task)
    → IsValid q
    → size ≤ max_size
    → sys_aread q size args t ≡ queued q' n
    → Answered q size t q' n
unfolding sys_aread
sys_aread-Answered q q' size n args t v s e =
    elim (append_task-Appended q (record t { nbytes = clamp size t.offset t.nbytes }) v) [
      | stored r eq lt w c ↦
          let facts : (n ≡ clamp size t.offset t.nbytes)
              × (q' ≡ r)
              × (t.offset < size)
              × (0 < t.nbytes)
              × (t.nbytes < 2 ^ 31) =
            ground (arith, eq) in
          let (is_n, is_q, off, pos, small) = facts in
          let (a, b, c', d) = clamp_bounds size t.offset t.nbytes s off pos small in
          rw (is_n, is_q)
            (record { some_bytes = a; asked = b; within = c'; greatest = d; valid = w; task = c })
      | overrun eq full ↦ absurd (ground (arith, eq))
    ]

-- The bug: with 64 tasks waiting, a request for a positive number of bytes from an offset inside
-- the file stores its task past the end of the array.
pub sys_aread_past_end :
    (q : Tasks) (size : ℕ) (t : Task)
    → q.num_tasks ≡ capacity
    → 0 < t.nbytes
    → t.nbytes < 2 ^ 31
    → t.offset < size
    → sys_aread q size true t ≡ past_end
unfolding sys_aread append_task
sys_aread_past_end q size t full pos small off = ground arith

-- What a round calls for the task, with the number of bytes that it reads.
abbrev pub round : Task → ℕ → List Action
round t n = read_file t.offset n ∷ copy_tmp t.nbytes ∷ []

abbrev pub repeat : ℕ → List Action → List Action
repeat zero xs = []
repeat (suc n) xs = xs ++ repeat n xs

-- One round for each page that is begun, and no further one where a copy fails.
abbrev pub rounds : ℕ → Bool → ℕ
rounds left copied = if copied then (left + 4095) / 4096 else min 1 left

consume_loop_done :
    (fuel size : ℕ) (copied : Bool) (t : Task) → consume_loop fuel size copied t 0 ≡ []
unfolding consume_loop
consume_loop_done zero size copied t = refl
consume_loop_done (suc fuel) size copied t = refl

-- For a file of more than a page.
consume_loop-repeat :
    (fuel size : ℕ) (t : Task) (left : ℕ)
    → pgsize < size
    → left < fuel
    → consume_loop fuel size true t left ≡ repeat (rounds left true) (round t pgsize)
unfolding consume_loop
consume_loop-repeat zero size t left big enough = absurd (omega arith)
consume_loop-repeat (suc fuel) size t left big enough = elim (ℕ_discrete left 0) [
  | yes z ↦
      let none_left : (left + 4095) / 4096 ≡ 0 = omega (arith, z) in
      rw none_left (ground (arith, z))
  | no ne ↦
      let ih = consume_loop-repeat fuel size t (left - pgsize) big (omega (arith, enough, ne)) in
      let one_more : (left + 4095) / 4096 ≡ suc ((left - pgsize + 4095) / 4096) =
        omega (arith, ne) in
      rw one_more (ground (arith, ih, ne, big))
]

consume_loop-fails :
    (fuel size : ℕ) (t : Task) (left : ℕ)
    → consume_loop (suc fuel) size false t left
      ≡ repeat (rounds left false) (round t (if ltb pgsize size then pgsize else left))
unfolding consume_loop
consume_loop-fails fuel size t left = elim (ℕ_discrete left 0) [
  | yes z ↦ rw z refl
  | no ne ↦ let one_round : min 1 left ≡ 1 = ground (arith, ne) in rw one_round (ground (arith, ne))
]

consume_loop-once :
    (fuel size : ℕ) (t : Task)
    → size ≤ pgsize
    → consume_loop (suc fuel) size true t size ≡ repeat (rounds size true) (round t size)
unfolding consume_loop
consume_loop-once fuel size t small = elim (ℕ_discrete size 0) [
  | yes z ↦ rw z refl
  | no ne ↦
      let one_round : (size + 4095) / 4096 ≡ 1 = omega (arith, small, ne) in
      rw one_round (ground (arith, ne, small, consume_loop_done fuel size true t))
]

-- The bug: serving a task for a file of any size makes a round for each page of the file, or one
-- where copying fails; every round reads the same bytes, the first page from the task's offset or as
-- many as the file has, and copies the whole length that is due out of the buffer of one page; and in
-- the end the whole length is reported as done.
pub consume_first_page :
    (size : ℕ) (copied : Bool) (t : Task)
    → consume_one_task size copied t
      ≡ repeat (rounds size copied) (round t (min size pgsize)) ++ (set_status t.nbytes ∷ [])
unfolding consume_one_task
consume_first_page size false t =
    let n : (if ltb pgsize size then pgsize else size) ≡ min size pgsize = ground arith in
    rw (add-one, consume_loop-fails size size t size, n) refl
consume_first_page size true t = elim (dec_lt pgsize size) [
  | yes big ↦
      let n : min size pgsize ≡ pgsize = ground (arith, big) in
      rw (consume_loop-repeat (size + 1) size t size big (omega arith), n) refl
  | no small ↦
      let n : min size pgsize ≡ size = ground (arith, small) in
      rw (add-one, consume_loop-once size size t (omega (arith, small)), n) refl
]
