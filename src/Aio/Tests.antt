-- ===== src/Aio/Tests.antt =====
-- Asynchronous reads at concrete inputs.
use cs461_hw.Prelude.{min, ◌≡◌, refl, true, some, [], ◌∷◌, ◌++◌, arith, replicate, length-replicate}
use cs461_hw.Aio.{
  set_status, copy_tmp, queued, clamp, read_file, remove_task, append_task, consume_loop, pgsize,
  consume_one_task, sys_aread, Task, Tasks,
}
use cs461_hw.Aio.Queue.{serves, adds, served_in_order, contents, replay, IsValid}
use cs461_hw.Aio.Serve.{consume_first_page, repeat, rounds, round, sys_aread-Answered, Answered}

abbrev request : Task
request = record { status = 4; pgdir = 5; ip = 6; buffer = 7; offset = 1000; nbytes = 500 }

abbrev idle : Tasks
idle = record { tasks = replicate 64 request; num_tasks = 0 }

idle-IsValid : IsValid idle
idle-IsValid = record { storage = length-replicate {A = Task} 64 request; fits = omega arith }

abbrev one_waits : Tasks
one_waits = record { tasks = record request { nbytes = 200 } ∷ replicate 63 request; num_tasks = 1 }

aread_clamps : sys_aread idle 1200 true request ≡ queued one_waits 200
unfolding sys_aread append_task clamp
aread_clamps = refl

sys_aread-Answered_example : Answered idle 1200 request one_waits 200
sys_aread-Answered_example =
    sys_aread-Answered idle one_waits 1200 200 true request idle-IsValid (omega arith) aread_clamps

abbrev crowded : Tasks
crowded = record { tasks = replicate 64 request; num_tasks = 64 }

replayed :
    replay idle (adds request ∷ serves ∷ [])
    ≡ some (record idle { num_tasks = 0 }, request ∷ [], request ∷ [])
unfolding replay append_task remove_task
replayed = refl

served_in_order_example : [] ++ (request ∷ []) ≡ (request ∷ []) ++ contents idle
served_in_order_example =
    served_in_order idle idle (adds request ∷ serves ∷ []) (request ∷ []) (request ∷ [])
      idle-IsValid replayed

two_pages_read_one_twice :
    consume_one_task 5000 true request
    ≡ read_file 1000 4096 ∷ copy_tmp 500 ∷ read_file 1000 4096 ∷ copy_tmp 500 ∷ set_status 500 ∷ []
unfolding consume_one_task consume_loop
two_pages_read_one_twice = refl

consume_first_page_example :
    consume_one_task 5000 true request
    ≡ repeat (rounds 5000 true) (round request (min 5000 pgsize)) ++ (set_status 500 ∷ [])
consume_first_page_example = consume_first_page 5000 true request
