-- ===== src/Pipe/Fifo.antt =====
-- pipe.c over whole histories: any interleaving of runs of `pipewrite`, `piperead` and `pipeclose`.
use mathlib.Core.List.{append-nil, append_assoc}
use cs461_hw.Prelude.{
  ℕ, zero, suc, ◌-◌, ◌≡◌, refl, sym, ap, ◌∙◌, Bool, true, false, List, [], ◌∷◌, ◌++◌, arith, length,
  take, drop, length-drop, take-cons, take-nil,
}
use cs461_hw.Pipe.{pipesize, read_run, close, write_run, Pipe}
use cs461_hw.Pipe.Refine.{held, write_run-Wrote, contents, IsValid}
use cs461_hw.Pipe.Read.{read_run-HasRead}

-- One run of a call: of `pipewrite` with the bytes that it has left, of `piperead`, or `pipeclose`.
pub data Event : Type 0 where
  writes : ℕ → Bool → List ℕ → Event
  reads : Bool → ℕ → Event
  closes : Bool → Event

-- The pipe after an event, the bytes that the event put in, and those that it took out.
pub step : Pipe → Event → Pipe × List ℕ × List ℕ
step p (writes n killed src) =
    let r = write_run n killed p src in (r.pipe, take (length src - length r.rest) src, [])
step p (reads killed n) = let r = read_run killed p n in (r.pipe, [], r.bytes)
step p (closes writable) = ((close p writable).0, [], [])

-- The same for a history, the bytes joined in order.
pub replay : Pipe → List Event → Pipe × List ℕ × List ℕ
replay p [] = (p, [], [])
replay p (e ∷ es) =
    let (q, i, o) = step p e in let (r, is, os) = replay q es in (r, i ++ is, o ++ os)

pub close-IsValid : (p : Pipe) (writable : Bool) → IsValid p → IsValid (close p writable).0
unfolding close
close-IsValid p true v = record {
  storage = v.storage;
  nread_in = v.nread_in;
  nwrite_in = v.nwrite_in;
  fits = v.fits;
}
close-IsValid p false v = record {
  storage = v.storage;
  nread_in = v.nread_in;
  nwrite_in = v.nwrite_in;
  fits = v.fits;
}

pub contents-close : (p : Pipe) (writable : Bool) → contents (close p writable).0 ≡ contents p
unfolding close
contents-close p true = refl
contents-close p false = refl

-- What a run takes of its bytes is the part that it does not keep.
take-stored : (k : ℕ) (src : List ℕ) → take (length src - length (drop k src)) src ≡ take k src
take-stored k [] = take-nil ℕ _ ∙ sym (take-nil ℕ k)
take-stored zero (c ∷ src) = rw (sub_self (length src))
  where
    sub_self : (m : ℕ) → suc m - suc m ≡ 0
    sub_self m = omega arith
take-stored (suc k) (c ∷ src) =
    take-cons _ c src (omega (arith, length-drop k src))
    ∙ ap (◌∷◌ c) (ap (λ j. take j src) (omega (arith, length-drop k src)) ∙ take-stored k src)

step-queue :
    (p : Pipe) (e : Event)
    → IsValid p
    → let (q, i, o) = step p e in IsValid q × (contents p ++ i ≡ o ++ contents q)
unfolding step
step-queue p (writes n killed src) v =
    let w = write_run-Wrote n killed p src v in
    (w.valid, rw (w.left, take-stored (pipesize - held p) src) (sym w.bytes))
step-queue p (reads killed n) v =
    let w = read_run-HasRead killed p n v in (w.valid, append-nil (contents p) ∙ w.queue)
step-queue p (closes writable) v =
    (close-IsValid p writable v, append-nil (contents p) ∙ sym (contents-close p writable))

-- Whatever the interleaving of writers, readers and closes on a valid pipe, the pipe stays valid, and
-- the bytes that it held followed by those that went in are, in order, the bytes that came out
-- followed by those that it holds at the end: none is lost, made up, copied twice or reordered, also
-- where the counters wrap round.
pub replay_fifo :
    (p : Pipe) (es : List Event)
    → IsValid p
    → let (q, i, o) = replay p es in IsValid q × (contents p ++ i ≡ o ++ contents q)
unfolding replay
replay_fifo p [] v = (v, append-nil (contents p))
replay_fifo p (e ∷ es) v =
    let (u, h) = step-queue p e v in
    let (w, k) = replay_fifo (step p e).0 es u in
    let (q, i, o) = step p e in
    let (r, is, os) = replay q es in
    (
      w,
      sym (append_assoc (contents p) i is)
          ∙ ap (λ l. l ++ is) h
          ∙ append_assoc o (contents q) is
          ∙ ap (◌++◌ o) k
          ∙ sym (append_assoc o os (contents r)),
    )
