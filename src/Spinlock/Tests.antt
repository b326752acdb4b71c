-- ===== src/Spinlock/Tests.antt =====
-- Processor 1 has acquired the lock while processor 2 spins.
use cs461_hw.Prelude.{ℕ, ◌≡◌, refl, true, false}
use cs461_hw.Spinlock.{
  System, Reach, starts, enters, tries, records, Cpu, pushcli, acquire_enter, acquire_try,
  acquire_record, initlock, put_cpu, put_phase, idle, spinning, entered, inside, holding,
}
use cs461_hw.Spinlock.Exclusion.{NoPanic, Reach-exclusive, Reach-NoPanic}

abbrev at_rest : Cpu
at_rest = record { ncli = 0; intena = false; enabled = true }

abbrev two_wait : System
two_wait = record {
  lock = initlock;
  cpus = put_cpu (put_cpu (λ c. at_rest) 1 (pushcli at_rest)) 2 (pushcli at_rest);
  phase = put_phase (put_phase (λ c. idle) 1 spinning) 2 spinning;
}

test_two_wait : Reach two_wait
unfolding acquire_enter holding
test_two_wait = enters 2 (enters 1 (starts true) refl refl) refl refl

abbrev one_inside : System
one_inside = record {
  lock = acquire_record 1 (acquire_try initlock).0;
  cpus = two_wait.cpus;
  phase = put_phase (put_phase two_wait.phase 1 entered) 1 inside;
}

test_one_inside : Reach one_inside
unfolding acquire_try
test_one_inside = records 1 (tries 1 test_two_wait refl) refl

abbrev first_cpu : ℕ
first_cpu = 1

Reach-exclusive_example : (first_cpu ≡ first_cpu) × ((one_inside.cpus 1).enabled ≡ false)
Reach-exclusive_example = Reach-exclusive {s = one_inside} 1 1 test_one_inside refl refl

Reach-NoPanic_example : NoPanic one_inside 1 inside
Reach-NoPanic_example = Reach-NoPanic {s = one_inside} 1 test_one_inside
