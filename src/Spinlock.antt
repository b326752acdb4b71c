-- ===== src/Spinlock.antt =====
-- spinlock.c: one lock and the processors that take it. The steps of acquire and release are those that
-- other processors may come between; `cpu` is the number of a processor.
pub mod Exclusion
mod Tests
use cs461_hw.Prelude.{
  ℕ, ◌+◌, ◌-◌, ◌<◌, ◌≡◌, ◌⊎◌, Bool, true, false, not, ◌&&◌, Option, none, some, ◌==◌, if◌then◌else◌,
}

-- `struct spinlock`, without its name and the call stack that is kept for debugging.
pub record Lock : Type 0 where
  pub locked : Bool
  pub cpu : Option ℕ

-- What `struct cpu` has for pushcli, and the flag FL_IF.
pub record Cpu : Type 0 where
  pub ncli : ℕ
  pub intena : Bool
  pub enabled : Bool

abbrev pub initlock : Lock
initlock = record { locked = false; cpu = none }

abbrev pub is_cpu : Option ℕ → ℕ → Bool
is_cpu none c = false
is_cpu (some d) c = d == c

-- `holding`
pub holding : Lock → ℕ → Bool
holding lk c = lk.locked && is_cpu lk.cpu c

pub pushcli : Cpu → Cpu
pushcli p = record {
  ncli = p.ncli + 1;
  intena = if p.ncli == 0 then p.enabled else p.intena;
  enabled = false;
}

-- `popcli`; none is its panics.
pub popcli : Cpu → Option Cpu
popcli p =
    if p.enabled
    then none
    else if p.ncli == 0
    then none
    else some (record p { ncli = p.ncli - 1; enabled = p.ncli - 1 == 0 && p.intena })

-- `acquire` up to its loop; none is its panic.
pub acquire_enter : ℕ → Lock → Cpu → Option Cpu
acquire_enter c lk p = if holding lk c then none else some (pushcli p)

-- A round of the loop: the lock after the `xchg`, and whether it was free.
pub acquire_try : Lock → Lock × Bool
acquire_try lk = (record lk { locked = true }, not lk.locked)

-- The rest of `acquire`.
pub acquire_record : ℕ → Lock → Lock
acquire_record c lk = record lk { cpu = some c }

-- `release` up to the barrier; none is its panic.
pub release_clear : ℕ → Lock → Option Lock
release_clear c lk = if holding lk c then some (record lk { cpu = none }) else none

-- Its store; `popcli` follows.
pub release_store : Lock → Lock
release_store lk = record lk { locked = false }

-- Where a processor is in the two functions.
pub data Phase : Type 0 where
  idle spinning entered inside leaving left : Phase

pub record System : Type 0 where
  pub lock : Lock
  pub cpus : ℕ → Cpu
  pub phase : ℕ → Phase

abbrev pub put_cpu : (ℕ → Cpu) → ℕ → Cpu → ℕ → Cpu
put_cpu cpus c p d = if d == c then p else cpus d

abbrev pub put_phase : (ℕ → Phase) → ℕ → Phase → ℕ → Phase
put_phase phase c p d = if d == c then p else phase d

-- The interleavings: the steps of acquire and release, and pushcli and popcli for other locks, where
-- popcli takes back a pushcli of its own.
pub data Reach : System → Type 0 where
  starts :
      (enabled : Bool)
      → Reach (record {
        lock = initlock;
        cpus = λ c. record { ncli = 0; intena = false; enabled = enabled };
        phase = λ c. idle;
      })
  enters :
      (c : ℕ) {s : System} {p : Cpu}
      → Reach s
      → s.phase c ≡ idle
      → acquire_enter c s.lock (s.cpus c) ≡ some p
      → Reach (record s { cpus = put_cpu s.cpus c p; phase = put_phase s.phase c spinning })
  tries :
      (c : ℕ) {s : System}
      → Reach s
      → s.phase c ≡ spinning
      → Reach (record s {
        lock = (acquire_try s.lock).0;
        phase = put_phase s.phase c (if (acquire_try s.lock).1 then entered else spinning);
      })
  records :
      (c : ℕ) {s : System}
      → Reach s
      → s.phase c ≡ entered
      → Reach (record s { lock = acquire_record c s.lock; phase = put_phase s.phase c inside })
  clears :
      (c : ℕ) {s : System} {lk : Lock}
      → Reach s
      → s.phase c ≡ inside
      → release_clear c s.lock ≡ some lk
      → Reach (record s { lock = lk; phase = put_phase s.phase c leaving })
  stores :
      (c : ℕ) {s : System}
      → Reach s
      → s.phase c ≡ leaving
      → Reach (record s { lock = release_store s.lock; phase = put_phase s.phase c left })
  leaves :
      (c : ℕ) {s : System} {p : Cpu}
      → Reach s
      → s.phase c ≡ left
      → popcli (s.cpus c) ≡ some p
      → Reach (record s { cpus = put_cpu s.cpus c p; phase = put_phase s.phase c idle })
  nests :
      (c : ℕ) {s : System}
      → Reach s
      → Reach (record s { cpus = put_cpu s.cpus c (pushcli (s.cpus c)) })
  unnests :
      (c : ℕ) {s : System} {p : Cpu}
      → Reach s
      → (s.phase c ≡ idle) ⊎ (1 < (s.cpus c).ncli)
      → popcli (s.cpus c) ≡ some p
      → Reach (record s { cpus = put_cpu s.cpus c p })
