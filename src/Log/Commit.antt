-- ===== src/Log/Commit.antt =====
-- The commit of log.c with a crash at any of its writes, and with crashes of the recoveries.
use cs461_hw.Log.Crash.{installing-Safe, recovered-Safe, reboots, recovered}
use cs461_hw.Prelude.{
  Bool, true, take-nil, zero, ◌-◌, ◌≤◌, inl, inr, leb, if◌then◌else◌, leb→le, Bool-cases, ℕ, suc,
  ◌+◌, ◌<◌, ◌≡◌, refl, ap, ◌∙◌, false, List, [], ◌∷◌, ◌++◌, arith, length, take,
}
use cs461_hw.Log.{
  write_head, Write, commit, apply_writes, head_block, install_trans, read_head, update, write_log,
  Block, Blocks,
}
use cs461_hw.Log.Header.{listed-head_block}
use cs461_hw.Log.Writes.{
  apply_writes-append, write_log-Slots, update_ne, write_log_elsewhere_all, update_self,
  write_log_elsewhere, write_log_view, Home, AllHome, Slots, contains,
}
use cs461_hw.Log.Install.{Slots-agree, install_trans-targets, Logged, targets}

length-write_log :
    (start : ℕ) (view : Blocks) (tail : ℕ) (bs : List ℕ)
    → length (write_log start view tail bs).1 ≡ length bs
unfolding write_log
length-write_log start view tail [] = refl
length-write_log start view tail (b ∷ bs) =
    ap suc (length-write_log start (update view (start + tail + 1) (view b)) (suc tail) bs)

take_left {ℓ} :
    {A : Type ℓ} (k : ℕ) (xs ys : List A) → k ≤ length xs → take k (xs ++ ys) ≡ take k xs
take_left zero xs ys h = refl
take_left (suc k) [] ys h = elim h [ ]
take_left (suc k) (x ∷ xs) ys h = ap (◌∷◌ x) (take_left k xs ys (omega arith))

take_right {ℓ} :
    {A : Type ℓ} (k : ℕ) (xs : List A) (y : A) (ys : List A)
    → length xs < k
    → take k (xs ++ (y ∷ ys)) ≡ xs ++ (y ∷ take (k - length xs - 1) ys)
take_right zero xs y ys h = elim h [ ]
take_right (suc k) [] y ys h = ap (λ j. y ∷ take j ys) (omega arith)
take_right (suc k) (x ∷ xs) y ys h =
    ap (◌∷◌ x) (take_right k xs y ys (omega arith) ∙ ap (λ j. xs ++ (y ∷ take j ys)) (omega arith))

-- What commit relies on: the logged blocks are home blocks and fit, the log on the disk is empty,
-- and the cache differs from the disk on logged blocks only.
pub record CanCommit (start size : ℕ) (d view : Blocks) (bs : List ℕ) : Type 0 where
  pub room : length bs < size
  pub fits : length bs < length (view start)
  pub home : AllHome start size bs
  pub idle : read_head start d ≡ []
  pub clean : (x : ℕ) → Home start size x → contains x bs ≡ false → d x ≡ view x

module _ (start size : ℕ) (d view : Blocks) (bs : List ℕ) (c : CanCommit start size d view bs) where
  -- Before the header is written the disk's home blocks and its empty log are as they were.
  early-Logged :
      (k : ℕ) → Logged start size d (apply_writes d (take k (write_log start view 0 bs).1)) []
  unfolding read_head
  early-Logged k = record {
    header = rw (write_log_elsewhere start view 0 bs d k start (omega arith)) c.idle;
    slots = tt;
    others = λ x hx e. write_log_elsewhere start view 0 bs d k x (omega (arith, c.room));
  }

  abbrev header_words : Block
  header_words = head_block ((write_log start view 0 bs).0 start) bs

  abbrev headed : Blocks → Blocks
  headed e = update (apply_writes e (write_log start view 0 bs).1) start header_words

  logged_start : (write_log start view 0 bs).0 start ≡ view start
  logged_start =
      ap (λ (e : Blocks). e start) (write_log_view start view 0 bs)
      ∙ write_log_elsewhere_all start view 0 bs view start (omega arith)

  headed-Slots : (e : Blocks) → Slots view (headed e) start 0 bs
  headed-Slots e =
      let logged = apply_writes e (write_log start view 0 bs).1 in
      Slots-agree start view logged (headed e) 0 bs
        (λ j h k. update_ne logged start header_words (start + j + 1) (omega arith))
        (write_log-Slots start size view view 0 bs e (omega (arith, c.room)) c.home (λ x hx. refl))

  -- Once the header is written the transaction is in the log.
  headed-Logged : Logged start size view (headed d) bs
  unfolding read_head
  headed-Logged = record {
    header =
        rw (update_self (apply_writes d (write_log start view 0 bs).1) start header_words)
          (listed-head_block ((write_log start view 0 bs).0 start) bs (rw logged_start c.fits));
    slots = headed-Slots d;
    others = λ x hx e.
        update_ne (apply_writes d (write_log start view 0 bs).1) start header_words x
          (omega (arith, c.room))
        ∙ write_log_elsewhere_all start view 0 bs d x (omega (arith, c.room))
        ∙ c.clean x hx e;
  }

  abbrev headed_view : Blocks
  headed_view = update (write_log start view 0 bs).0 start header_words

  installs : (install_trans start headed_view 0 bs).1 ≡ targets view bs
  installs =
      ap (λ e. (install_trans start (update e start header_words) 0 bs).1)
        (write_log_view start view 0 bs)
      ∙ install_trans-targets start size view (headed view) 0 bs (omega (arith, c.room)) c.home
          (headed-Slots view)

  -- What commit writes: the log, the header, the home blocks, and the cleared header.
  abbrev writes_of : Block → List Write
  writes_of w =
      (write_log start view 0 bs).1
      ++ ((start, header_words) ∷ (targets view bs ++ ((start, head_block w []) ∷ [])))

  -- A crash up to the write of the header is early, one after it is late.
  crash_early :
      (w : Block) (k : ℕ)
      → k ≤ length bs
      → take k (writes_of w) ≡ take k (write_log start view 0 bs).1
  crash_early w k h =
      take_left k (write_log start view 0 bs).1 _ (omega (arith, length-write_log start view 0 bs))

  crash_late :
      (w : Block) (k : ℕ)
      → length bs < k
      → apply_writes d (take k (writes_of w))
        ≡ apply_writes
            (headed d)
            (take (k - length bs - 1) (targets view bs ++ ((start, head_block w []) ∷ [])))
  unfolding apply_writes
  crash_late w k h =
      let ws = (write_log start view 0 bs).1 in
      let us = targets view bs ++ ((start, head_block w []) ∷ []) in
      let n = length-write_log start view 0 bs in
      ap (apply_writes d) (take_right k ws (start, header_words) us (omega (arith, n)))
      ∙ apply_writes-append d ws ((start, header_words) ∷ take (k - length ws - 1) us)
      ∙ ap (λ j. apply_writes (headed d) (take (k - j - 1) us)) n

  crash_target :
      (w : Block) (k : ℕ) (ks : List ℕ) (x : ℕ)
      → Home start size x
      → recovered start (reboots start (apply_writes d (take k (writes_of w))) ks) x
        ≡ (if leb k (length bs) then d x else view x)
  crash_target w k ks x hx = elim (Bool-cases (leb k (length bs))) [
    | inl early ↦
        rw (early, crash_early w k (leb→le _ _ early))
          (recovered-Safe start size d _ [] ks x (omega (arith, c.room)) tt (inr (early-Logged k))
            hx)
    | inr late ↦
        rw (late, crash_late w k (ground arith))
          (recovered-Safe start size view _ bs ks x c.room c.home
            (installing-Safe start size view (headed d) bs w (k - length bs - 1) c.room c.home
              headed-Logged)
            hx)
  ]

idle-Logged : (start size : ℕ) (d : Blocks) → read_head start d ≡ [] → Logged start size d d []
idle-Logged start size d e = record { header = e; slots = tt; others = λ x hx f. refl }

if_either {ℓ} : {A : Type ℓ} (c : Bool) (x y : A) → x ≡ y → x ≡ (if c then x else y)
if_either true x y e = refl
if_either false x y e = e

-- commit is all or nothing. However many block writes it makes before the machine stops, and
-- however many recoveries stop half-way after that, the first recovery that comes to its end leaves
-- all home blocks as they were before the commit if the header was not yet written (at most as many
-- writes as there are logged blocks), and all with the contents of the cache if it was. This
-- supposes what the file system keeps: `CanCommit`.
pub commit_atomic :
    (start size : ℕ) (d view : Blocks) (bs : List ℕ) (k : ℕ) (ks : List ℕ) (x : ℕ)
    → CanCommit start size d view bs
    → Home start size x
    → recovered start (reboots start (apply_writes d (take k (commit start view bs).1)) ks) x
      ≡ (if leb k (length bs) then d x else view x)
unfolding commit write_head apply_writes
commit_atomic start size d view [] k ks x c hx = rw (take-nil Write k) (
    recovered-Safe start size d d [] ks x c.room tt (inl (idle-Logged start size d c.idle)) hx
    ∙ if_either (leb k 0) (d x) (view x) (c.clean x hx refl))
commit_atomic start size d view (b ∷ bs) k ks x c hx =
    let w = (install_trans start (headed_view start size d view (b ∷ bs) c) 0 (b ∷ bs)).0 start in
    rw (installs start size d view (b ∷ bs) c)
      (crash_target start size d view (b ∷ bs) c w k ks x hx)
