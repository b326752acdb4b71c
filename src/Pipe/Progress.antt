-- ===== src/Pipe/Progress.antt =====
-- Who waits at a pipe, and what ends the wait.
use cs461_hw.Prelude.{
  refl, ◌∙◌, not, leb, if◌then◌else◌, ℕ, ◌-◌, ◌<◌, min, ◌≡◌, ap, ◌≢◌, Bool, true, false, List, [],
  ◌∷◌, arith, length, length-append, take, length-take,
}
use cs461_hw.Pipe.{
  is_empty, close, copied, chan_nwrite, pipesize, chan_nread, returned, asleep, read_run, write_run,
  Chan, Pipe,
}
use cs461_hw.Pipe.Refine.{empty_iff, length-contents, write_run-Wrote, contents, held, IsValid}
use cs461_hw.Pipe.Fifo.{close-IsValid}
use cs461_hw.Pipe.Read.{read_run-HasRead}

if_same {ℓ} : {A : Type ℓ} (b : Bool) (x : A) → (if b then x else x) ≡ x
if_same true x = refl
if_same false x = refl

asleep-ne-returned : (c : Chan) (n : ℕ) → asleep c ≢ returned n
asleep-ne-returned c n e = cc

-- A run of `pipewrite` that goes to sleep leaves the pipe full.
write_asleep :
    (n : ℕ) (killed : Bool) (p : Pipe) (src : List ℕ) (c : Chan)
    → IsValid p
    → (write_run n killed p src).outcome ≡ asleep c
    → (held (write_run n killed p src).pipe ≡ pipesize)
      × ((write_run n killed p src).woken ≡ chan_nread ∷ [])
write_asleep n killed p src c v e =
    let w = write_run-Wrote n killed p src v in
    let q = (write_run n killed p src).pipe in
    ground (
      arith,
      w.outcome,
      w.woken,
      length-contents q,
      ap length w.bytes,
      length-append (contents p) (take (pipesize - held p) src),
      length-take (pipesize - held p) src,
      length-contents p,
    )

-- After a run of `pipewrite` that sleeps the pipe is full and the readers have been woken, and
-- a run of `piperead` for at least one byte by any process does not sleep: it returns at least one
-- byte and wakes the writers.
pub sleeping_writer_served :
    (n : ℕ) (killed : Bool) (p : Pipe) (src : List ℕ) (c : Chan) (killed' : Bool) (m : ℕ)
    → IsValid p
    → (write_run n killed p src).outcome ≡ asleep c
    → 0 < m
    → let q = (write_run n killed p src).pipe in
      let r = read_run killed' q m in
      ((write_run n killed p src).woken ≡ chan_nread ∷ [])
      × (r.outcome ≡ returned (min m pipesize))
      × (r.woken ≡ chan_nwrite ∷ [])
sleeping_writer_served n killed p src c killed' m v e h =
    let (full, woken) = write_asleep n killed p src c v e in
    let w = write_run-Wrote n killed p src v in
    let r = read_run-HasRead killed' (write_run n killed p src).pipe m w.valid in
    (woken, ground (arith, r.outcome, full), ground (arith, r.woken, full))

-- A run of `piperead` that goes to sleep has left the pipe as it was: empty, open for writing.
read_asleep :
    (killed : Bool) (p : Pipe) (m : ℕ) (c : Chan)
    → (read_run killed p m).outcome ≡ asleep c
    → ((read_run killed p m).pipe ≡ p) × (is_empty p ≡ true) × (p.writeopen ≡ true)
unfolding read_run copied
read_asleep killed p m c e = ground arith

-- After a run of `piperead` that sleeps the pipe is empty and open for writing. A run of `pipewrite`
-- then stores the first 512 of its bytes, or all if there are fewer; where the read end is open
-- and its process is not killed, it wakes the readers.
pub sleeping_reader_served :
    (killed : Bool) (p : Pipe) (m n : ℕ) (c : Chan) (src : List ℕ)
    → IsValid p
    → p.readopen ≡ true
    → (read_run killed p m).outcome ≡ asleep c
    → let q = (read_run killed p m).pipe in
      let w = write_run n false q src in
      (contents q ≡ [])
      × (q.writeopen ≡ true)
      × (contents w.pipe ≡ take pipesize src)
      × (w.woken ≡ chan_nread ∷ [])
sleeping_reader_served killed p m n c src v o e =
    let (same, hollow, open_end) = read_asleep killed p m c e in
    let none_held : held p ≡ 0 = ground (arith, empty_iff p v) in
    let no_bytes : contents p ≡ [] = rw none_held in
    let w = write_run-Wrote n false p src v in
    rw same (
      no_bytes,
      open_end,
      w.bytes ∙ rw none_held,
      w.woken ∙ rw (o, if_same (leb (length src) (pipesize - held p)) (chan_nread ∷ [])),
    )

read_no_sleep :
    (killed : Bool) (p : Pipe) (m : ℕ) (c : Chan)
    → IsValid p
    → p.writeopen ≡ false
    → (read_run killed p m).outcome ≢ asleep c
read_no_sleep killed p m c v o e = ground (arith, (read_run-HasRead killed p m v).outcome)

write_no_sleep :
    (n : ℕ) (killed : Bool) (p : Pipe) (src : List ℕ) (c : Chan)
    → IsValid p
    → p.readopen ≡ false
    → (write_run n killed p src).outcome ≢ asleep c
write_no_sleep n killed p src c v o e = ground (arith, (write_run-Wrote n killed p src v).outcome)

-- Closing an end of a valid pipe wakes the processes that wait at the other end, and none of them
-- goes to sleep again: with the write end closed no run of `piperead` sleeps, and with the read end
-- closed no run of `pipewrite` does. The bytes in the pipe stay, and the page is freed exactly
-- when both ends are closed.
pub close_unblocks :
    (p : Pipe) (killed : Bool) (m n : ℕ) (src : List ℕ) (c : Chan)
    → IsValid p
    → let (q, woken, freed) = close p true in
      let (q', woken', freed') = close p false in
      (woken ≡ chan_nread)
      × (woken' ≡ chan_nwrite)
      × ((read_run killed q m).outcome ≢ asleep c)
      × ((write_run n killed q' src).outcome ≢ asleep c)
      × (contents q ≡ contents p)
      × (contents q' ≡ contents p)
      × (freed ≡ not p.readopen)
      × (freed' ≡ not p.writeopen)
unfolding close
close_unblocks p killed m n src c v = (
  refl,
  refl,
  read_no_sleep killed (close p true).0 m c (close-IsValid p true v) refl,
  write_no_sleep n killed (close p false).0 src c (close-IsValid p false v) refl,
  refl,
  refl,
  ground arith,
  ground arith,
)
