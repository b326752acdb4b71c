-- ===== src/Proc/Wakeup.antt =====
-- Sleep and wakeup in the process table of proc.c.
use cs461_hw.Prelude.{
  ◌≢◌, get_or-set_self, get_or-set_ne, ◌<◌, ◌∙◌, ℕ, zero, suc, ◌≡◌, refl, ap, true, false, ◌&&◌,
  List, [], ◌∷◌, arith, ltb, ◌==◌, if◌then◌else◌, length, get_or, get_or-set,
}
use cs461_hw.Proc.{
  no_chan, of_addr, of_proc, sleep, no_proc, put_proc, runnable, sleeping, chan_eq, is_sleeping,
  proc_at, wakeup, wakeup1, Proc, Table, Chan,
}

-- What `wakeup1` does to one process.
abbrev pub woken_by : Chan → Proc → Proc
woken_by chan p =
    if is_sleeping p.state && chan_eq p.chan chan then record p { state = runnable } else p

pub get_or-wakeup1 :
    (chan : Chan) (ps : List Proc) (i : ℕ)
    → get_or (wakeup1 chan ps) i no_proc ≡ woken_by chan (get_or ps i no_proc)
unfolding wakeup1
get_or-wakeup1 chan [] i = refl
get_or-wakeup1 chan (p ∷ ps) zero = refl
get_or-wakeup1 chan (p ∷ ps) (suc i) = get_or-wakeup1 chan ps i

pub length-wakeup1 : (chan : Chan) (ps : List Proc) → length (wakeup1 chan ps) ≡ length ps
unfolding wakeup1
length-wakeup1 chan [] = refl
length-wakeup1 chan (p ∷ ps) = ap suc (length-wakeup1 chan ps)

pub wakeup_at :
    (t : Table) (chan : Chan) (i : ℕ) → proc_at (wakeup t chan) i ≡ woken_by chan (proc_at t i)
unfolding wakeup
wakeup_at t chan i = get_or-wakeup1 chan t.procs i

pub put_proc_at :
    (t : Table) (k i : ℕ) (p : Proc)
    → proc_at (put_proc t k p) i ≡ (if k == i && ltb k (length t.procs) then p else proc_at t i)
put_proc_at t k i p = get_or-set t.procs k i p no_proc

pub chan_eq_self : (c : Chan) → chan_eq c c ≡ true
chan_eq_self no_chan = refl
chan_eq_self (of_proc i) = ground arith
chan_eq_self (of_addr a) = ground arith

pub sleep_at :
    (t : Table) (cur : ℕ) (chan : Chan)
    → cur < length t.procs
    → proc_at (sleep t cur chan) cur ≡ record (proc_at t cur) { chan = chan; state = sleeping }
unfolding sleep
sleep_at t cur chan h = get_or-set_self t.procs cur _ no_proc h

sleep_elsewhere :
    (t : Table) (cur j : ℕ) (chan : Chan) → cur ≢ j → proc_at (sleep t cur chan) j ≡ proc_at t j
unfolding sleep
sleep_elsewhere t cur j chan h = get_or-set_ne t.procs _ no_proc h

-- A sequence of wakeups on other channels.
abbrev pub wakeups : Table → List Chan → Table
wakeups t [] = t
wakeups t (c ∷ cs) = wakeups (wakeup t c) cs

abbrev pub NoneIs : Chan → List Chan → Type 0
NoneIs chan [] = Unit {0}
NoneIs chan (c ∷ cs) = (chan_eq chan c ≡ false) × NoneIs chan cs

wakeups_others :
    (t : Table) (i : ℕ) (chan : Chan) (cs : List Chan)
    → NoneIs chan cs
    → ((proc_at t i).state ≡ sleeping) × ((proc_at t i).chan ≡ chan)
    → proc_at (wakeups t cs) i ≡ proc_at t i
wakeups_others t i chan [] h s = refl
wakeups_others t i chan (c ∷ cs) h s =
    let e = wakeup_at t c i in
    let stays : woken_by c (proc_at t i) ≡ proc_at t i = rw (s.1) (ground (arith, h.0)) in
    wakeups_others (wakeup t c) i chan cs h.1
      (ap (λ (p : Proc). p.state) (e ∙ stays) ∙ s.0, ap (λ (p : Proc). p.chan) (e ∙ stays) ∙ s.1)
    ∙ e
    ∙ stays

-- A process that goes to sleep on a channel stays asleep through all wakeups on other channels, and
-- the first wakeup on its own makes it RUNNABLE and changes nothing else of it. A wakeup on the
-- channel leaves alone every other process that does not sleep on it.
pub sleep-wakeup :
    (t : Table) (cur j : ℕ) (chan : Chan) (cs : List Chan)
    → cur < length t.procs
    → NoneIs chan cs
    → cur ≢ j
    → (is_sleeping (proc_at t j).state && chan_eq (proc_at t j).chan chan) ≡ false
    → let t' = wakeups (sleep t cur chan) cs in
      (proc_at t' cur ≡ record (proc_at t cur) { chan = chan; state = sleeping })
      × (proc_at (wakeup t' chan) cur ≡ record (proc_at t cur) { chan = chan; state = runnable })
      × (proc_at (wakeup (sleep t cur chan) chan) j ≡ proc_at t j)
sleep-wakeup t cur j chan cs h n other awake =
    let s = sleep_at t cur chan h in
    let stays =
      wakeups_others (sleep t cur chan) cur chan cs n
        (ap (λ (p : Proc). p.state) s, ap (λ (p : Proc). p.chan) s)
      ∙ s in
    (
      stays,
      wakeup_at (wakeups (sleep t cur chan) cs) chan cur
          ∙ ap (woken_by chan) stays
          ∙ rw (chan_eq_self chan),
      wakeup_at (sleep t cur chan) chan j
          ∙ ap (woken_by chan) (sleep_elsewhere t cur j chan other)
          ∙ rw awake,
    )
