-- ===== src/Pipe.antt =====
-- pipe.c: the pipe's ring of PIPESIZE bytes between two counters of type `uint`, which wrap.
-- `sleep` gives the lock away, so a call of `pipewrite` or `piperead` is cut where it sleeps: one
-- run goes from the start, or from a wakeup, up to the next `sleep` or `return`. The process's
-- `killed` flag is read afresh by each run. The calls of `wakeup` are listed in `woken`.
pub mod Refine
pub mod Read
pub mod Fifo
pub mod Progress
mod Tests
use cs461_hw.Prelude.{
  ℕ, zero, suc, ◌+◌, ◌-◌, ◌*◌, ◌/◌, ◌%◌, ◌^◌, ◌≤◌, ◌<◌, ◌≡◌, refl, sym, ap, ◌∙◌, ◌≢◌, ◌↔◌, ◌⊎◌, inl,
  inr, Bool, true, false, not, ◌&&◌, ◌||◌, Option, none, some, List, [], ◌∷◌, ◌++◌, map, arith,
  dec_lt, ℕ_discrete, ltb, leb, ◌==◌, if◌then◌else◌, ltb→lt, lt→ltb, leb→le, ==_iff, tests,
  Bool-cases, Option-cases, le→leb, leb-false_iff, ltb-false_iff, ==_self, length, get_elem?, set,
  length-append, length-set, get_elem?-set_self, get_elem?-set_ne, get_or, take, drop, replicate,
  take-append-drop, length-take, length-drop, length-replicate, length-map,
}

abbrev pub pipesize : ℕ
pipesize = 512

-- `struct pipe`, without its spin lock: a run holds the lock from its start to its end.
pub record Pipe : Type 0 where
  pub buf : List ℕ
  pub nread : ℕ
  pub nwrite : ℕ
  pub readopen : Bool
  pub writeopen : Bool

-- The channels `&p->nread` and `&p->nwrite`.
pub data Chan : Type 0 where
  chan_nread chan_nwrite : Chan

-- How a run ends: the call returns a number, returns -1, or sleeps on a channel.
pub data Outcome : Type 0 where
  returned : ℕ → Outcome
  failed : Outcome
  asleep : Chan → Outcome

-- `x + k` at type `uint`.
abbrev pub add_uint : ℕ → ℕ → ℕ
add_uint x k = (x + k) % 2 ^ 32

-- `p->nwrite == p->nread + PIPESIZE`
abbrev pub is_full : Pipe → Bool
is_full p = p.nwrite == add_uint p.nread pipesize

-- `p->nread == p->nwrite`
abbrev pub is_empty : Pipe → Bool
is_empty p = p.nread == p.nwrite

-- `p->data[p->nwrite++ % PIPESIZE] = c`
abbrev pub put : Pipe → ℕ → Pipe
put p c = record p { buf = set p.buf (p.nwrite % pipesize) c; nwrite = add_uint p.nwrite 1 }

-- The new pipe of `pipealloc`; the storage is the page that `kalloc` returned.
pub fresh : List ℕ → Pipe
fresh page = record { buf = page; nread = 0; nwrite = 0; readopen = true; writeopen = true }

pub record WriteRun : Type 0 where
  pub outcome : Outcome
  pub pipe : Pipe
  -- `addr[i..n)`: what the call has still to write
  pub rest : List ℕ
  pub woken : List Chan

-- One run of `pipewrite` with `rest` still to write; `n` is the whole count, which it returns.
pub write_run : ℕ → Bool → Pipe → List ℕ → WriteRun
write_run n killed p [] = record {
  outcome = returned n;
  pipe = p;
  rest = [];
  woken = chan_nread ∷ [];
}
write_run n killed p (c ∷ rest) =
    let more = write_run n killed (put p c) rest in
    if is_full p
    then if not p.readopen || killed
      then record { outcome = failed; pipe = p; rest = c ∷ rest; woken = [] }
      else record {
        outcome = asleep chan_nwrite;
        pipe = p;
        rest = c ∷ rest;
        woken = chan_nread ∷ [];
      }
    else more

pub record ReadRun : Type 0 where
  pub outcome : Outcome
  pub pipe : Pipe
  -- what the call has stored in `addr[0..i)`
  pub bytes : List ℕ
  pub woken : List Chan

-- The loop at DOC: piperead-copy, with at most `n` bytes still to copy.
pub copy : Pipe → ℕ → List ℕ × Pipe
copy p zero = ([], p)
copy p (suc n) =
    let rest = copy (record p { nread = add_uint p.nread 1 }) n in
    if is_empty p then ([], p) else (get_or p.buf (p.nread % pipesize) 0 ∷ rest.0, rest.1)

copied : ℕ → List ℕ × Pipe → ReadRun
copied n (bytes, p) = record {
  outcome = returned n;
  pipe = p;
  bytes = bytes;
  woken = chan_nwrite ∷ [];
}

-- One run of `piperead` for `n` bytes.
pub read_run : Bool → Pipe → ℕ → ReadRun
unfolding copied
read_run killed p n =
    if is_empty p && p.writeopen
    then if killed
      then record { outcome = failed; pipe = p; bytes = []; woken = [] }
      else record { outcome = asleep chan_nread; pipe = p; bytes = []; woken = [] }
    else let result = copy p n in copied (length result.0) result

-- `pipeclose`: the pipe, the channel that it wakes, and whether its page is freed.
pub close : Pipe → Bool → Pipe × Chan × Bool
close p writable =
    let q = if writable then record p { writeopen = false } else record p { readopen = false } in
    (q, if writable then chan_nread else chan_nwrite, not q.readopen && not q.writeopen)
