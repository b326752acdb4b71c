-- ===== src/Coroutine/Tests.antt =====
-- coroutine.c at concrete inputs.
use cs461_hw.Coroutine.Facts.{co_new_unlinked, occurs, visits}
use cs461_hw.Prelude.{◌≡◌, refl, false, none, some, arith}
use cs461_hw.Coroutine.{
  unlink, ends_within, exit_loop, returns, to_co, co_exit, co_new, put_next, Coroutines,
}

-- One live coroutine, 10.
abbrev single : Coroutines
single = record { next = λ i. none; co_list = some 10; co_current = none }

abbrev added : Coroutines
added = record single { next = put_next single.next 20 none }

adds_nothing : co_new 5 single (some 20) none 300 ≡ (added, returns 20)
unfolding co_new ends_within
adds_nothing = refl

co_new_unlinked_example :
    (added.co_list ≡ some 10)
    × (visits 5 added.next 10 ≡ visits 5 single.next 10)
    × (occurs 20 (visits 5 added.next 10) ≡ false)
co_new_unlinked_example =
    co_new_unlinked 5 single added 20 10 none 300 refl (omega arith) refl adds_nothing

-- Coroutines 10, 20, 30 on the list; 20 is running.
abbrev three : Coroutines
three = record {
  next = put_next (put_next (λ i. none) 10 (some 20)) 20 (some 30);
  co_list = some 10;
  co_current = some 20;
}

abbrev three_after : Coroutines
three_after = record three { next = put_next three.next 10 (some 30); co_list = some 30 }

twenty_exits : co_exit 5 three none ≡ (three_after, to_co 20)
unfolding co_exit exit_loop unlink
twenty_exits = refl
