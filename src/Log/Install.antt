-- ===== src/Log/Install.antt =====
-- install_trans and recover_from_log on a disk whose log holds a committed transaction.
use mathlib.Core.Path.{ap₂}
use cs461_hw.Prelude.{
  sym, ◌++◌, ◌≤◌, inl, inr, Bool, true, false, ◌||◌, ◌==◌, ==_iff, Bool-cases, ℕ, zero, suc, ◌+◌,
  ◌<◌, ◌≡◌, refl, ap, ◌∙◌, List, [], ◌∷◌, arith, if◌then◌else◌, length, take,
}
use cs461_hw.Log.{head_block, read_head, apply_writes, install_trans, update, Block, Blocks, Write}
use cs461_hw.Log.Header.{listed_cleared}
use cs461_hw.Log.Writes.{
  take_all, update_self, apply_writes-append, update_ne, Home, AllHome, Slots, contains,
}

-- The writes of a correct installation: each logged block gets its value.
abbrev pub targets : Blocks → List ℕ → List Write
targets target [] = []
targets target (b ∷ bs) = (b, target b) ∷ targets target bs

-- A write to a home block leaves the log's blocks alone.
Slots-Home :
    (start size : ℕ) (target d : Blocks) (h : ℕ) (v : Block) (tail : ℕ) (bs : List ℕ)
    → Home start size h
    → tail + length bs < size
    → Slots target d start tail bs
    → Slots target (update d h v) start tail bs
Slots-Home start size target d h v tail [] hh hs s = tt
Slots-Home start size target d h v tail (b ∷ bs) hh hs s = (
  update_ne d h v (start + tail + 1) (omega arith) ∙ s.0,
  Slots-Home start size target d h v (suc tail) bs hh (omega arith) s.1,
)

-- The loop copies what the log holds.
pub install_trans-targets :
    (start size : ℕ) (target view : Blocks) (tail : ℕ) (bs : List ℕ)
    → tail + length bs < size
    → AllHome start size bs
    → Slots target view start tail bs
    → (install_trans start view tail bs).1 ≡ targets target bs
unfolding install_trans
install_trans-targets start size target view tail [] hs home s = refl
install_trans-targets start size target view tail (b ∷ bs) hs home s =
    let v = view (start + tail + 1) in
    ap₂ ◌∷◌ (ap (λ (w : Block). (b, w)) s.0) (
      install_trans-targets start size target (update view b v) (suc tail) bs (omega arith) home.1
        (Slots-Home start size target view b v (suc tail) bs home.0 (omega arith) s.1))

-- What any first part of these writes makes of a block.
apply_targets :
    (target d : Blocks) (m : ℕ) (bs : List ℕ) (x : ℕ)
    → apply_writes d (take m (targets target bs)) x
      ≡ (if contains x (take m bs) then target x else d x)
unfolding apply_writes
apply_targets target d zero bs x = refl
apply_targets target d (suc m) [] x = refl
apply_targets target d (suc m) (b ∷ bs) x =
    apply_targets target (update d b (target b)) m bs x ∙ split
  where
    split :
        (if contains x (take m bs) then target x else update d b (target b) x)
        ≡ (if x == b || contains x (take m bs) then target x else d x)
    split = elim (Bool-cases (x == b)) [
      | inl e ↦ ground (arith, ap target ((==_iff x b).0 e))
      | inr e ↦ ground arith
    ]

apply_targets_all :
    (target d : Blocks) (bs : List ℕ) (x : ℕ)
    → apply_writes d (targets target bs) x ≡ (if contains x bs then target x else d x)
apply_targets_all target d bs x =
    let ws = targets target bs in
    let m = length bs + length ws in
    ap (λ us. apply_writes d us x) (sym (take_all m ws (omega arith)))
    ∙ apply_targets target d m bs x
    ∙ ap (λ cs. if contains x cs then target x else d x) (take_all m bs (omega arith))

-- The disk holds a committed transaction, whole or with a first part of it installed: the header
-- lists the blocks, the log holds their values, and all other home blocks have theirs.
pub record Logged (start size : ℕ) (target d : Blocks) (bs : List ℕ) : Type 0 where
  pub header : read_head start d ≡ bs
  pub slots : Slots target d start 0 bs
  pub others : (x : ℕ) → Home start size x → contains x bs ≡ false → d x ≡ target x

if_target {ℓ} : {A : Type ℓ} (c : Bool) (x y : A) → (c ≡ false → y ≡ x) → (if c then x else y) ≡ x
if_target true x y h = refl
if_target false x y h = h refl

pub Slots-agree :
    (start : ℕ) (target d d' : Blocks) (tail : ℕ) (bs : List ℕ)
    → ((j : ℕ) → tail ≤ j → j < tail + length bs → d' (start + j + 1) ≡ d (start + j + 1))
    → Slots target d start tail bs
    → Slots target d' start tail bs
Slots-agree start target d d' tail [] same s = tt
Slots-agree start target d d' tail (b ∷ bs) same s = (
  same tail (omega arith) (omega arith) ∙ s.0,
  Slots-agree start target d d' (suc tail) bs (λ j h k. same j (omega arith) (omega arith)) s.1,
)

-- Installing writes home blocks only.
targets_log :
    (start size : ℕ) (target d : Blocks) (m : ℕ) (bs : List ℕ) (x : ℕ)
    → AllHome start size bs
    → start ≤ x
    → x < start + size
    → apply_writes d (take m (targets target bs)) x ≡ d x
unfolding apply_writes
targets_log start size target d zero bs x home lo hi = refl
targets_log start size target d (suc m) [] x home lo hi = refl
targets_log start size target d (suc m) (b ∷ bs) x home lo hi =
    targets_log start size target (update d b (target b)) m bs x home.1 lo hi
    ∙ update_ne d b (target b) x (omega (arith, home.0))

-- A crash during the installation leaves the transaction in the log.
pub installing-Logged :
    (start size : ℕ) (target d : Blocks) (bs : List ℕ) (m : ℕ)
    → length bs < size
    → AllHome start size bs
    → Logged start size target d bs
    → Logged start size target (apply_writes d (take m (targets target bs))) bs
unfolding read_head
installing-Logged start size target d bs m hs home l = record {
  header =
      rw (targets_log start size target d m bs start home (omega arith) (omega arith)) l.header;
  slots =
      Slots-agree start target d (apply_writes d (take m (targets target bs))) 0 bs
        (λ j h k.
          targets_log start size target d m bs (start + j + 1) home (omega arith) (omega arith))
        l.slots;
  others = λ x hx e.
      apply_targets target d m bs x
      ∙ if_target (contains x (take m bs)) (target x) (d x) (λ _. l.others x hx e);
}

-- After the installation and with the header cleared, every home block has its value.
pub installed-Logged :
    (start size : ℕ) (target d : Blocks) (bs : List ℕ) (w : Block)
    → length bs < size
    → Logged start size target d bs
    → Logged start size target
        (apply_writes d (targets target bs ++ ((start, head_block w []) ∷ [])))
        []
unfolding read_head apply_writes
installed-Logged start size target d bs w hs l =
    let ws = targets target bs in
    let d' = apply_writes d ws in
    rw (apply_writes-append d ws ((start, head_block w []) ∷ [])) (record {
      header = rw (update_self d' start (head_block w [])) (listed_cleared w);
      slots = tt;
      others = λ x hx e.
          update_ne d' start (head_block w []) x (omega arith)
          ∙ apply_targets_all target d bs x
          ∙ if_target (contains x bs) (target x) (d x) (l.others x hx);
    })
