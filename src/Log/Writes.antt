-- ===== src/Log/Writes.antt =====
-- The writes of write_log and install_trans, and what any first part of them makes of a disk.
use cs461_hw.Prelude.{
  sym, ℕ, zero, suc, ◌+◌, ◌≤◌, ◌<◌, ◌≡◌, refl, ap, ◌∙◌, ◌≢◌, ◌⊎◌, Bool, false, ◌||◌, List, [], ◌∷◌,
  ◌++◌, arith, ◌==◌, length, take, take-nil,
}
use cs461_hw.Log.{apply_writes, install_trans, update, write_log, Block, Blocks, Write}

-- Block numbers outside the log, which begins at `start` and has `size` blocks.
abbrev pub Home : ℕ → ℕ → ℕ → Type 0
Home start size b = (b < start) ⊎ (start + size ≤ b)

abbrev pub AllHome : ℕ → ℕ → List ℕ → Type 0
AllHome start size [] = Unit {0}
AllHome start size (b ∷ bs) = Home start size b × AllHome start size bs

-- The log's blocks from `tail` on hold what the logged blocks are to hold.
abbrev pub Slots : Blocks → Blocks → ℕ → ℕ → List ℕ → Type 0
Slots target d start tail [] = Unit {0}
Slots target d start tail (b ∷ bs) =
    (d (start + tail + 1) ≡ target b) × Slots target d start (suc tail) bs

abbrev pub contains : ℕ → List ℕ → Bool
contains x [] = false
contains x (b ∷ bs) = x == b || contains x bs

pub apply_writes-append :
    (d : Blocks) (ws us : List Write)
    → apply_writes d (ws ++ us) ≡ apply_writes (apply_writes d ws) us
unfolding apply_writes
apply_writes-append d [] us = refl
apply_writes-append d ((b, v) ∷ ws) us = apply_writes-append (update d b v) ws us

-- Both loops change the view by the writes that they make.
pub write_log_view :
    (start : ℕ) (view : Blocks) (tail : ℕ) (bs : List ℕ)
    → (write_log start view tail bs).0 ≡ apply_writes view (write_log start view tail bs).1
unfolding write_log apply_writes
write_log_view start view tail [] = refl
write_log_view start view tail (b ∷ bs) =
    write_log_view start (update view (start + tail + 1) (view b)) (suc tail) bs

pub install_trans_view :
    (start : ℕ) (view : Blocks) (tail : ℕ) (bs : List ℕ)
    → (install_trans start view tail bs).0 ≡ apply_writes view (install_trans start view tail bs).1
unfolding install_trans apply_writes
install_trans_view start view tail [] = refl
install_trans_view start view tail (b ∷ bs) =
    install_trans_view start (update view b (view (start + tail + 1))) (suc tail) bs

pub update_ne : (d : Blocks) (b : ℕ) (v : Block) (x : ℕ) → x ≢ b → update d b v x ≡ d x
update_ne d b v x h = ground arith

-- Any first part of write_log's writes leaves alone what is not a block of the log in use.
pub write_log_elsewhere :
    (start : ℕ) (view : Blocks) (tail : ℕ) (bs : List ℕ) (d : Blocks) (m x : ℕ)
    → (x ≤ start + tail) ⊎ (start + tail + length bs < x)
    → apply_writes d (take m (write_log start view tail bs).1) x ≡ d x
unfolding write_log apply_writes
write_log_elsewhere start view tail bs d zero x h = refl
write_log_elsewhere start view tail [] d (suc m) x h = refl
write_log_elsewhere start view tail (b ∷ bs) d (suc m) x h =
    let to = start + tail + 1 in
    write_log_elsewhere start (update view to (view b)) (suc tail) bs (update d to (view b)) m x
      (omega arith)
    ∙ update_ne d to (view b) x (omega arith)

pub take_all {ℓ} : {A : Type ℓ} (k : ℕ) (xs : List A) → length xs ≤ k → take k xs ≡ xs
take_all k [] h = take-nil _ k
take_all zero (x ∷ xs) h = elim h [ ]
take_all (suc k) (x ∷ xs) h = ap (◌∷◌ x) (take_all k xs (omega arith))

pub update_self : (d : Blocks) (b : ℕ) (v : Block) → update d b v b ≡ v
update_self d b v = ground arith

pub write_log_elsewhere_all :
    (start : ℕ) (view : Blocks) (tail : ℕ) (bs : List ℕ) (d : Blocks) (x : ℕ)
    → (x ≤ start + tail) ⊎ (start + tail + length bs < x)
    → apply_writes d (write_log start view tail bs).1 x ≡ d x
write_log_elsewhere_all start view tail bs d x h =
    let ws = (write_log start view tail bs).1 in
    ap (λ us. apply_writes d us x) (sym (take_all (length ws) ws (omega arith)))
    ∙ write_log_elsewhere start view tail bs d (length ws) x h

-- The first of the writes stays.
write_log_first :
    (start : ℕ) (view : Blocks) (tail b : ℕ) (bs : List ℕ) (d : Blocks)
    → apply_writes d (write_log start view tail (b ∷ bs)).1 (start + tail + 1) ≡ view b
unfolding write_log apply_writes
write_log_first start view tail b bs d =
    let slot = start + tail + 1 in
    write_log_elsewhere_all start (update view slot (view b)) (suc tail) bs (update d slot (view b))
      slot (omega arith)
    ∙ update_self d slot (view b)

-- After all of them the log holds the logged blocks of the view.
pub write_log-Slots :
    (start size : ℕ) (view target : Blocks) (tail : ℕ) (bs : List ℕ) (d : Blocks)
    → tail + length bs < size
    → AllHome start size bs
    → ((x : ℕ) → Home start size x → view x ≡ target x)
    → Slots target (apply_writes d (write_log start view tail bs).1) start tail bs
unfolding write_log apply_writes
write_log-Slots start size view target tail [] d hs home agree = tt
write_log-Slots start size view target tail (b ∷ bs) d hs home agree =
    let slot = start + tail + 1 in
    (
      write_log_first start view tail b bs d ∙ agree b home.0,
      write_log-Slots start size (update view slot (view b)) target (suc tail) bs
          (update d slot (view b)) (omega arith) home.1
          (λ x hx. update_ne view slot (view b) x (omega arith) ∙ agree x hx),
    )
