-- ===== src/Aio.antt =====
-- proc.c: asynchronous reads, sys_aread and the kernel thread that serves them. A pointer is a
-- number, and `readi` and `copyout` are the actions that they are called for.
pub mod Queue
pub mod Serve
mod Tests
use cs461_hw.Prelude.{
  ℕ, zero, suc, ◌+◌, ◌-◌, ◌%◌, ◌^◌, Bool, not, ◌||◌, Option, none, some, List, [], ◌∷◌, ◌++◌, ltb,
  leb, ◌==◌, if◌then◌else◌, set, take, drop,
}

-- `struct aio_task`
pub record Task : Type 0 where
  pub status : ℕ
  pub pgdir : ℕ
  pub ip : ℕ
  pub buffer : ℕ
  pub offset : ℕ
  pub nbytes : ℕ

-- `aio_tasks` and `num_tasks`
pub record Tasks : Type 0 where
  pub tasks : List Task
  pub num_tasks : ℕ

-- The length of `aio_tasks`.
abbrev pub capacity : ℕ
capacity = 64

abbrev pub pgsize : ℕ
pgsize = 4096

-- `aio_tasks[num_tasks] = task; num_tasks++`, and none for a store past the array's end, which the
-- code makes without a test.
pub append_task : Tasks → Task → Option Tasks
append_task q t =
    if ltb q.num_tasks capacity
    then some (record { tasks = set q.tasks q.num_tasks t; num_tasks = q.num_tasks + 1 })
    else none

-- The `memmove` and `num_tasks--` of `aread_kth`.
pub remove_task : Tasks → Tasks
remove_task q = record {
  tasks = take (q.num_tasks - 1) (drop 1 q.tasks) ++ drop (q.num_tasks - 1) q.tasks;
  num_tasks = q.num_tasks - 1;
}

-- How `sys_aread` ends: -1, 0, a store past the queue's end, or a task and its number of bytes.
pub data Aread : Type 0 where
  minus_one : Aread
  no_io : Aread
  past_end : Aread
  queued : Tasks → ℕ → Aread

-- `int` as a 32-bit pattern: `n <= 0`.
abbrev pub not_positive : ℕ → Bool
not_positive n = n == 0 || leb (2 ^ 31) n

-- "maybe we will only get fewer bytes": the sum is an `int` compared with the unsigned `size`.
pub clamp : ℕ → ℕ → ℕ → ℕ
clamp size offset nbytes = if ltb size ((offset + nbytes) % 2 ^ 32) then size - offset else nbytes

-- `sys_aread` for a file of `size` bytes; `args` is whether argfd and both argptr succeed, and the
-- offset and number of bytes of `t` are the arguments, as 32-bit patterns.
pub sys_aread : Tasks → ℕ → Bool → Task → Aread
sys_aread q size args t =
    if not_positive t.nbytes
    then minus_one
    else if not args
    then minus_one
    else if leb size t.offset
    then no_io
    else elim (append_task q (record t { nbytes = clamp size t.offset t.nbytes })) [
      | none ↦ past_end
      | some q' ↦ queued q' (clamp size t.offset t.nbytes)
    ]

-- What serving a task calls: `readi(ip, tmp, off, n)`, `copyout` of `n` bytes of `tmp` to the
-- buffer, and `copyout` of the number of bytes to the status.
pub data Action : Type 0 where
  read_file : ℕ → ℕ → Action
  copy_tmp : ℕ → Action
  set_status : ℕ → Action

-- The loop of `aread_consume_one_task` with `left` for `sizeofinput`; `copied` is whether `copyout`
-- to the buffer succeeds. Its local `offset` is written and never read.
pub consume_loop : ℕ → ℕ → Bool → Task → ℕ → List Action
consume_loop zero size copied t left = []
consume_loop (suc fuel) size copied t left =
    let step = if ltb pgsize size then pgsize else left in
    let rest = consume_loop fuel size copied t (if ltb pgsize size then left - pgsize else 0) in
    if left == 0
    then []
    else read_file t.offset step ∷ copy_tmp t.nbytes ∷ (if copied then rest else [])

-- `aread_consume_one_task` for a file of `size` bytes. A round takes at least a byte of `left`, so
-- that `size` rounds are enough.
pub consume_one_task : ℕ → Bool → Task → List Action
consume_one_task size copied t =
    consume_loop (size + 1) size copied t size ++ (set_status t.nbytes ∷ [])
