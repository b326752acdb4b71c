-- ===== src/Pipe/Read.antt =====
-- piperead against the queue of bytes that the pipe holds.
use cs461_hw.Prelude.{
  min, sym, length, take-append-drop, length-take, take-nil, ℕ, zero, suc, ◌%◌, ◌≡◌, refl, ap, ◌∙◌,
  inl, inr, Bool, true, false, ◌&&◌, List, [], ◌∷◌, ◌++◌, arith, if◌then◌else◌, Bool-cases, get_or,
  take, drop,
}
use cs461_hw.Pipe.{
  chan_nwrite, copied, returned, chan_nread, asleep, failed, pipesize, ReadRun, add_uint, copy,
  is_empty, read_run, Pipe,
}
use cs461_hw.Pipe.Refine.{length-contents, empty_iff, held, contents, IsValid}

-- What the copying loop does: it takes the oldest bytes out.
record Copied (p : Pipe) (n : ℕ) (r : List ℕ × Pipe) : Type 0 where
  valid : IsValid r.1
  bytes : r.0 ≡ take n (contents p)
  left : contents r.1 ≡ drop n (contents p)
  same : (r.1.nwrite ≡ p.nwrite) × ((r.1.readopen ≡ p.readopen) × (r.1.writeopen ≡ p.writeopen))

-- `p->nread++`
abbrev skip : Pipe → Pipe
skip p = record p { nread = add_uint p.nread 1 }

held-skip : (p : Pipe) → IsValid p → is_empty p ≡ false → held p ≡ suc (held (skip p))
held-skip p v e = ground arith

skip-IsValid : (p : Pipe) → IsValid p → is_empty p ≡ false → IsValid (skip p)
skip-IsValid p v e = ground arith

contents-skip :
    (p : Pipe)
    → IsValid p
    → is_empty p ≡ false
    → contents p ≡ get_or p.buf (p.nread % pipesize) 0 ∷ contents (skip p)
contents-skip p v e = rw (held-skip p v e)

contents-empty : (p : Pipe) → IsValid p → is_empty p ≡ true → contents p ≡ []
contents-empty p v e = let zero_held : held p ≡ 0 = ground (arith, empty_iff p v) in rw zero_held

copy-Copied : (p : Pipe) (n : ℕ) → IsValid p → Copied p n (copy p n)
unfolding copy
copy-Copied p zero v = record { valid = v; bytes = refl; left = refl; same = (refl, (refl, refl)) }
copy-Copied p (suc n) v =
    let ih = λ (e : is_empty p ≡ false). copy-Copied (skip p) n (skip-IsValid p v e) in
    elim (Bool-cases (is_empty p)) [
      | inl e ↦
          let none_held = contents-empty p v e in
          rw e (record {
            valid = v;
            bytes = rw none_held;
            left = rw none_held;
            same = (refl, (refl, refl));
          })
      | inr e ↦
          let more = contents-skip p v e in
          let w = ih e in
          rw e (record {
            valid = w.valid;
            bytes = rw more (ap (◌∷◌ (get_or p.buf (p.nread % pipesize) 0)) w.bytes);
            left = w.left ∙ rw more;
            same = w.same;
          })
    ]

-- What a run of `piperead` for `n` bytes does.
pub record HasRead (killed : Bool) (p : Pipe) (n : ℕ) (r : ReadRun) : Type 0 where
  pub valid : IsValid r.pipe
  pub queue : contents p ≡ r.bytes ++ contents r.pipe
  pub bytes : r.bytes ≡ take n (contents p)
  pub writer : r.pipe.nwrite ≡ p.nwrite
  pub ends : (r.pipe.readopen ≡ p.readopen) × (r.pipe.writeopen ≡ p.writeopen)
  pub outcome : r.outcome ≡ (
      if is_empty p && p.writeopen
      then if killed then failed else asleep chan_nread
      else returned (min n (held p)))
  pub woken : r.woken ≡ (if is_empty p && p.writeopen then [] else chan_nwrite ∷ [])

read_waits :
    (killed : Bool) (p : Pipe) (n : ℕ)
    → IsValid p
    → (is_empty p && p.writeopen) ≡ true
    → HasRead killed p n (
        if killed
        then record { outcome = failed; pipe = p; bytes = []; woken = [] }
        else record { outcome = asleep chan_nread; pipe = p; bytes = []; woken = [] })
read_waits killed p n v e =
    let none_held = contents-empty p v (ground arith) in
    let bytes : [] ≡ take n (contents p) = rw (none_held, take-nil) in ground (arith, e, bytes)

read_copies :
    (killed : Bool) (p : Pipe) (n : ℕ)
    → IsValid p
    → (is_empty p && p.writeopen) ≡ false
    → HasRead killed p n (copied (length (copy p n).0) (copy p n))
unfolding copied
read_copies killed p n v e =
    let w = copy-Copied p n v in
    record {
      valid = w.valid;
      queue = rw (w.bytes, w.left) (sym (take-append-drop n (contents p)));
      bytes = w.bytes;
      writer = w.same.0;
      ends = w.same.1;
      outcome =
          rw (w.bytes, e)
            (ap returned (length-take n (contents p) ∙ ap (min n) (length-contents p)));
      woken = rw e;
    }

-- One run of `piperead` for `n` bytes on a valid pipe keeps it valid, takes the `n` oldest bytes out
-- of the queue, or all if there are fewer, and leaves the write counter and the open flags alone.
-- It returns their number, 0 at the end of the data, and wakes the writers; but on an empty pipe
-- that is open for writing it returns -1 if the process is killed and sleeps on `nread` if not.
pub read_run-HasRead :
    (killed : Bool) (p : Pipe) (n : ℕ) → IsValid p → HasRead killed p n (read_run killed p n)
unfolding read_run
read_run-HasRead killed p n v = elim (Bool-cases (is_empty p && p.writeopen)) [
  | inl e ↦ rw e (read_waits killed p n v e)
  | inr e ↦ rw e (read_copies killed p n v e)
]
