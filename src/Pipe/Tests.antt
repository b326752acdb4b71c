-- ===== src/Pipe/Tests.antt =====
-- pipe.c at concrete inputs.
use cs461_hw.Prelude.{
  ℕ, ◌-◌, ◌^◌, ◌≡◌, refl, true, false, List, [], ◌∷◌, ◌++◌, arith, replicate, length-replicate,
}
use cs461_hw.Pipe.{chan_nwrite, copied, asleep, chan_nread, copy, fresh, read_run, write_run, Pipe}
use cs461_hw.Pipe.Refine.{Wrote, contents, IsValid, write_run-Wrote}
use cs461_hw.Pipe.Read.{read_run-HasRead, HasRead}
use cs461_hw.Pipe.Fifo.{closes, reads, replay_fifo, writes, Event, replay}

abbrev page : List ℕ
page = replicate 512 0

-- Full, with the counters about to wrap round.
abbrev brimful : Pipe
brimful = record {
  buf = page;
  nread = 2 ^ 32 - 256;
  nwrite = 256;
  readopen = true;
  writeopen = true;
}

brimful-IsValid : IsValid brimful
brimful-IsValid = record {
  storage = length-replicate {A = ℕ} 512 0;
  nread_in = omega arith;
  nwrite_in = omega arith;
  fits = omega arith;
}

abbrev vacant : Pipe
vacant = record brimful { nwrite = 2 ^ 32 - 256 }

vacant-IsValid : IsValid vacant
vacant-IsValid = record {
  storage = length-replicate {A = ℕ} 512 0;
  nread_in = omega arith;
  nwrite_in = omega arith;
  fits = omega arith;
}

fresh_holds_nothing : contents (fresh page) ≡ []
unfolding fresh
fresh_holds_nothing = refl

write_then_read :
    (read_run false (write_run 3 false vacant (7 ∷ 8 ∷ 9 ∷ [])).pipe 2).bytes ≡ 7 ∷ 8 ∷ []
unfolding write_run read_run copy copied
write_then_read = refl

write_run-Wrote_example :
    Wrote 2 false brimful (5 ∷ 6 ∷ []) (write_run 2 false brimful (5 ∷ 6 ∷ []))
write_run-Wrote_example = write_run-Wrote 2 false brimful (5 ∷ 6 ∷ []) brimful-IsValid

read_run-HasRead_example : HasRead false brimful 3 (read_run false brimful 3)
read_run-HasRead_example = read_run-HasRead false brimful 3 brimful-IsValid

abbrev history : List Event
history = writes 2 false (1 ∷ 2 ∷ []) ∷ reads false 1 ∷ closes true ∷ reads false 5 ∷ []

replay_fifo_example :
    let (q, i, o) = replay vacant history in IsValid q × (contents vacant ++ i ≡ o ++ contents q)
replay_fifo_example = replay_fifo vacant history vacant-IsValid

sleeps_when_full : (write_run 1 false brimful (4 ∷ [])).outcome ≡ asleep chan_nwrite
unfolding write_run
sleeps_when_full = refl

sleeps_when_empty : (read_run false vacant 4).outcome ≡ asleep chan_nread
unfolding read_run
sleeps_when_empty = refl
