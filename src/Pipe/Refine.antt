-- ===== src/Pipe/Refine.antt =====
-- pipe.c against a queue of bytes: what one run does to the bytes that the pipe holds.
use mathlib.Core.List.{append_assoc, append-nil}
use mathlib.Core.Path.{ap₂}
use cs461_hw.Prelude.{
  ◌∙◌, take-cons, drop-cons, ◌↔◌, inl, inr, not, ◌||◌, leb, if◌then◌else◌, drop-nil, drop, take,
  Bool-cases, take-nil, Bool, true, ℕ, zero, suc, ◌+◌, ◌-◌, ◌%◌, ◌^◌, ◌≤◌, ◌<◌, ◌≡◌, refl, ap,
  false, List, [], ◌∷◌, ◌++◌, arith, length, set, length-set, get_or, get_or-set_self,
  get_or-set_ne,
}
use cs461_hw.Pipe.{
  chan_nread, chan_nwrite, asleep, failed, returned, WriteRun, is_empty, write_run, Pipe, pipesize,
  add_uint, is_full, put,
}

-- How many bytes the pipe holds: `p->nwrite - p->nread` at type `uint`.
abbrev pub held : Pipe → ℕ
held p = (p.nwrite + 2 ^ 32 - p.nread) % 2 ^ 32

pub record IsValid (p : Pipe) : Type 0 where
  pub storage : length p.buf ≡ pipesize
  pub nread_in : p.nread < 2 ^ 32
  pub nwrite_in : p.nwrite < 2 ^ 32
  pub fits : held p ≤ pipesize

-- The `n` bytes from the counter `start` on.
abbrev pub window : List ℕ → ℕ → ℕ → List ℕ
window buf start zero = []
window buf start (suc n) = get_or buf (start % pipesize) 0 ∷ window buf (add_uint start 1) n

-- The queue that the pipe stands for, oldest byte first.
abbrev pub contents : Pipe → List ℕ
contents p = window p.buf p.nread (held p)

length-window : (buf : List ℕ) (start n : ℕ) → length (window buf start n) ≡ n
length-window buf start zero = refl
length-window buf start (suc n) = ap suc (length-window buf (add_uint start 1) n)

pub length-contents : (p : Pipe) → length (contents p) ≡ held p
length-contents p = length-window p.buf p.nread (held p)

-- A write just past a window extends it by that byte.
window-set :
    (buf : List ℕ) (c n start i : ℕ)
    → length buf ≡ pipesize
    → start < 2 ^ 32
    → n < pipesize
    → i ≡ add_uint start n
    → window (set buf (i % pipesize) c) start (suc n) ≡ window buf start n ++ (c ∷ [])
window-set buf c zero start i hs hh hn e =
    let at : i % pipesize ≡ start % pipesize = omega arith in
    rw (at, get_or-set_self buf (start % pipesize) c 0 (omega arith))
window-set buf c (suc n) start i hs hh hn e =
    ap₂ ◌∷◌ (get_or-set_ne buf c 0 (omega arith))
      (window-set buf c n (add_uint start 1) i hs (omega arith) (omega arith) (omega arith))

pub held-put : (p : Pipe) (c : ℕ) → IsValid p → is_full p ≡ false → held (put p c) ≡ suc (held p)
held-put p c v e = ground arith

pub put-IsValid : (p : Pipe) (c : ℕ) → IsValid p → is_full p ≡ false → IsValid (put p c)
put-IsValid p c v e = ground (arith, length-set p.buf (p.nwrite % pipesize) c)

contents-put :
    (p : Pipe) (c : ℕ) → IsValid p → is_full p ≡ false → contents (put p c) ≡ contents p ++ (c ∷ [])
contents-put p c v e = rw (held-put p c v e) (
    window-set p.buf c (held p) p.nread p.nwrite v.storage v.nread_in (ground arith) (ground arith))

-- What a run of `pipewrite` does: it takes as many bytes as there is room for.
pub record Wrote (n : ℕ) (killed : Bool) (p : Pipe) (src : List ℕ) (r : WriteRun) : Type 0 where
  pub valid : IsValid r.pipe
  pub bytes : contents r.pipe ≡ contents p ++ take (pipesize - held p) src
  pub left : r.rest ≡ drop (pipesize - held p) src
  pub reader : r.pipe.nread ≡ p.nread
  pub ends : (r.pipe.readopen ≡ p.readopen) × (r.pipe.writeopen ≡ p.writeopen)
  pub outcome : r.outcome ≡ (
      if leb (length src) (pipesize - held p)
      then returned n
      else if not p.readopen || killed
      then failed
      else asleep chan_nwrite)
  pub woken : r.woken ≡ (
      if leb (length src) (pipesize - held p)
      then chan_nread ∷ []
      else if not p.readopen || killed
      then []
      else chan_nread ∷ [])

pub full_iff : (p : Pipe) → IsValid p → (is_full p ≡ true) ↔ (held p ≡ pipesize)
full_iff p v = ground arith

pub empty_iff : (p : Pipe) → IsValid p → (is_empty p ≡ true) ↔ (held p ≡ 0)
empty_iff p v = ground arith

write_nil :
    (n : ℕ) (killed : Bool) (p : Pipe) → IsValid p → Wrote n killed p [] (write_run n killed p [])
unfolding write_run
write_nil n killed p v = record {
  valid = v;
  bytes = rw (take-nil, append-nil);
  left = rw drop-nil;
  reader = refl;
  ends = (refl, refl);
  outcome = ground arith;
  woken = ground arith;
}

write_stuck :
    (n : ℕ) (killed : Bool) (p : Pipe) (c : ℕ) (src : List ℕ)
    → IsValid p
    → is_full p ≡ true
    → Wrote n killed p (c ∷ src) (write_run n killed p (c ∷ src))
unfolding write_run
write_stuck n killed p c src v e =
    let none_left : pipesize - held p ≡ 0 = ground (arith, full_iff p v) in
    let bytes : contents p ≡ contents p ++ take (pipesize - held p) (c ∷ src) =
      rw (none_left, append-nil) in
    let left : c ∷ src ≡ drop (pipesize - held p) (c ∷ src) = rw none_left in
    elim (Bool-cases (not p.readopen || killed)) [
      | inl closed ↦
          rw (e, closed)
            (record {
              valid = v;
              bytes = bytes;
              left = left;
              reader = refl;
              ends = (refl, refl);
              outcome = ground arith;
              woken = ground arith;
            })
      | inr waits ↦
          rw (e, waits)
            (record {
              valid = v;
              bytes = bytes;
              left = left;
              reader = refl;
              ends = (refl, refl);
              outcome = ground arith;
              woken = ground arith;
            })
    ]

write_more :
    (n : ℕ) (killed : Bool) (p : Pipe) (c : ℕ) (src : List ℕ)
    → IsValid p
    → is_full p ≡ false
    → Wrote n killed (put p c) src (write_run n killed (put p c) src)
    → Wrote n killed p (c ∷ src) (write_run n killed (put p c) src)
write_more n killed p c src v e w =
    let next = held-put p c v e in
    let room : 0 < pipesize - held p = ground (arith, full_iff p v) in
    let fewer : pipesize - held (put p c) ≡ pipesize - held p - 1 = omega arith in
    record {
      valid = w.valid;
      bytes =
          w.bytes
          ∙ rw (fewer, contents-put p c v e, take-cons (pipesize - held p) c src room)
              (append_assoc (contents p) (c ∷ []) (take (pipesize - held p - 1) src));
      left = w.left ∙ rw (fewer, drop-cons (pipesize - held p) c src room);
      reader = w.reader;
      ends = w.ends;
      outcome = w.outcome ∙ ground arith;
      woken = w.woken ∙ ground arith;
    }

-- One run of `pipewrite` on a valid pipe keeps it valid, appends to the bytes that the pipe holds
-- as many bytes of its argument as there is room for, in order, keeps the others for later, and
-- leaves the read counter and the open flags alone. It returns the whole count if all bytes fitted;
-- otherwise it returns -1 if the read end is closed or the process killed, and sleeps on `nwrite`
-- if not. It wakes the readers unless it returns -1.
pub write_run-Wrote :
    (n : ℕ) (killed : Bool) (p : Pipe) (src : List ℕ)
    → IsValid p
    → Wrote n killed p src (write_run n killed p src)
unfolding write_run
write_run-Wrote n killed p [] v = write_nil n killed p v
write_run-Wrote n killed p (c ∷ src) v =
    let ih =
      λ (e : is_full p ≡ false). write_run-Wrote n killed (put p c) src (put-IsValid p c v e) in
    elim (Bool-cases (is_full p)) [
      | inl e ↦ write_stuck n killed p c src v e
      | inr e ↦ rw e (write_more n killed p c src v e (ih e))
    ]
