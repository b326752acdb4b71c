-- ===== src/Bio/Tests.antt =====
-- bio.c with three buffers.
use cs461_hw.Prelude.{ℕ, none, ◌≡◌, refl, some, List, [], ◌∷◌, arith, true, false, ◌≤◌, ◌⊎◌, inl}
use cs461_hw.Bio.{retained, find_buf, Buf, bget_buf, binit, bwrite, find_cached, recycle}
use cs461_hw.Bio.Get.{bget_keeps_held}
use cs461_hw.Bio.Sync.{bwrite-through, IsReady}
use cs461_hw.Bio.Unique.{starts, gets, count_for, Reach-one_buffer}

abbrev buffer : ℕ → ℕ → ℕ → Buf
buffer i blockno refcnt = record {
  id = i;
  valid = false;
  dirty = false;
  dev = 1;
  blockno = blockno;
  locked = true;
  refcnt = refcnt;
  content = 9 ∷ [];
}

abbrev one_held : List Buf
one_held = buffer 2 7 1 ∷ buffer 0 5 0 ∷ buffer 1 6 1 ∷ []

abbrev for_eight : List Buf
for_eight = buffer 2 7 1 ∷ buffer 0 8 1 ∷ buffer 1 6 1 ∷ []

takes : bget_buf 1 8 one_held ≡ some (0, for_eight)
unfolding bget_buf find_cached recycle
takes = refl

bget_keeps_held_example :
    (find_buf 1 for_eight ≡ some (buffer 1 6 1))
    ⊎ ((find_buf 1 for_eight ≡ some (retained (buffer 1 6 1))) × ◌≡◌ {A = ℕ} 0 1)
bget_keeps_held_example =
    bget_keeps_held 1 8 1 0 one_held for_eight (buffer 1 6 1) refl (omega arith) takes

abbrev started : List Buf
started =
    record (buffer 1 0 0) { dev = 0; locked = false; content = [] }
    ∷ record (buffer 0 9 1) { locked = false; content = [] }
    ∷ []

first_get : bget_buf 1 9 (binit 2) ≡ some (0, started)
unfolding bget_buf find_cached recycle binit
first_get = refl

Reach-one_buffer_example : count_for 1 9 started ≤ 1
Reach-one_buffer_example =
    Reach-one_buffer 2 1 9 (gets 1 9 0 starts (omega arith) first_get) (omega arith)

abbrev others : List Buf
others = buffer 0 5 0 ∷ buffer 1 6 1 ∷ []

abbrev disk : ℕ → List ℕ
disk k = k ∷ []

ready : IsReady 20 (buffer 2 7 1)
ready = record { locked = refl; dev = refl; in_range = omega arith; not_lost = inl refl }

writes_through :
    (disk' : ℕ → List ℕ) × (b' : Buf) × (bwrite 20 disk (buffer 2 7 1) ≡ some (disk', b'))
    × (disk' 7 ≡ 9 ∷ [])
    × (disk' 4 ≡ 4 ∷ [])
    × (b'.valid ≡ true)
    × (b'.dirty ≡ false)
    × (b'.content ≡ 9 ∷ [])
    × (bwrite 20 disk (record (buffer 2 7 1) { locked = false }) ≡ none)
writes_through = bwrite-through 20 disk (buffer 2 7 1) 4 ready (omega arith)
