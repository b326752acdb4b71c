-- ===== src/Log/Crash.antt =====
-- Crashes of log.c: the machine may stop after any number of block writes, during commit and during
-- each of the recoveries that follow.
use cs461_hw.Prelude.{
  ℕ, zero, suc, ◌<◌, ◌≡◌, refl, ap, ◌⊎◌, inl, inr, List, [], ◌∷◌, ◌++◌, arith, length, take,
  take-nil,
}
use cs461_hw.Log.{
  install_trans, head_block, write_head, apply_writes, recover_from_log, Block, Blocks,
}
use cs461_hw.Log.Writes.{Home, AllHome}
use cs461_hw.Log.Install.{
  install_trans-targets, installing-Logged, installed-Logged, Logged, targets,
}

-- The disk after a boot whose recovery stops after `k` block writes; the cache starts empty.
pub reboot : ℕ → Blocks → ℕ → Blocks
reboot start d k = apply_writes d (take k (recover_from_log start d).1)

-- The disk after several such boots.
pub reboots : ℕ → Blocks → List ℕ → Blocks
reboots start d [] = d
reboots start d (k ∷ ks) = reboots start (reboot start d k) ks

-- The disk after a boot whose recovery comes to its end.
pub recovered : ℕ → Blocks → Blocks
recovered start d = apply_writes d (recover_from_log start d).1

take_snoc {ℓ} :
    {A : Type ℓ} (k : ℕ) (xs : List A) (y : A)
    → (take k (xs ++ (y ∷ [])) ≡ take k xs) ⊎ (take k (xs ++ (y ∷ [])) ≡ xs ++ (y ∷ []))
take_snoc zero xs y = inl refl
take_snoc (suc k) [] y = inr (ap (◌∷◌ y) (take-nil _ k))
take_snoc (suc k) (x ∷ xs) y = elim (take_snoc k xs y) [
  | inl e ↦ inl (ap (◌∷◌ x) e)
  | inr e ↦ inr (ap (◌∷◌ x) e)
]

module _ (start size : ℕ) (target : Blocks) where
  -- The transaction is in the log, or all its writes are done and the log is empty.
  abbrev pub Safe : Blocks → List ℕ → Type 0
  Safe d bs = Logged start size target d bs ⊎ Logged start size target d []

  -- Any first part of an installation with the header cleared behind it is safe.
  pub installing-Safe :
      (d : Blocks) (bs : List ℕ) (w : Block) (k : ℕ)
      → length bs < size
      → AllHome start size bs
      → Logged start size target d bs
      → Safe (apply_writes d (take k (targets target bs ++ ((start, head_block w []) ∷ [])))) bs
  installing-Safe d bs w k hs home l =
      elim (take_snoc k (targets target bs) (start, head_block w [])) [
        | inl e ↦ rw e (inl (installing-Logged start size target d bs k hs home l))
        | inr e ↦ rw e (inr (installed-Logged start size target d bs w hs l))
      ]

  -- The writes of a recovery.
  recover_writes :
      (d : Blocks) (bs : List ℕ)
      → length bs < size
      → AllHome start size bs
      → Logged start size target d bs
      → (w : Block) × ((recover_from_log start d).1
          ≡ targets target bs ++ ((start, head_block w []) ∷ []))
  unfolding recover_from_log write_head
  recover_writes d bs hs home l =
      let w = (install_trans start d 0 bs).0 start in
      rw l.header (
        w,
        ap (λ ws. ws ++ ((start, head_block w []) ∷ []))
            (install_trans-targets start size target d 0 bs (omega arith) home l.slots),
      )

  reboot-Safe :
      (d : Blocks) (bs : List ℕ) (k : ℕ)
      → length bs < size
      → AllHome start size bs
      → Logged start size target d bs
      → Safe (reboot start d k) bs
  unfolding reboot
  reboot-Safe d bs k hs home l =
      let (w, e) = recover_writes d bs hs home l in rw e (installing-Safe d bs w k hs home l)

  reboot-done :
      (d : Blocks) {bs : List ℕ} (k : ℕ)
      → 0 < size
      → Logged start size target d []
      → Safe (reboot start d k) bs
  reboot-done d k hs l = elim (reboot-Safe d [] k hs tt l) [ inl m ↦ inr m | inr m ↦ inr m ]

  reboots-Safe :
      (d : Blocks) (bs : List ℕ) (ks : List ℕ)
      → length bs < size
      → AllHome start size bs
      → Safe d bs
      → Safe (reboots start d ks) bs
  unfolding reboots
  reboots-Safe d bs [] hs home s = s
  reboots-Safe d bs (k ∷ ks) hs home (inl l) =
      reboots-Safe (reboot start d k) bs ks hs home (reboot-Safe d bs k hs home l)
  reboots-Safe d bs (k ∷ ks) hs home (inr l) =
      reboots-Safe (reboot start d k) bs ks hs home (reboot-done d k (omega arith) l)

  recovered-Logged :
      (d : Blocks) (bs : List ℕ)
      → length bs < size
      → AllHome start size bs
      → Logged start size target d bs
      → Logged start size target (recovered start d) []
  unfolding recovered
  recovered-Logged d bs hs home l =
      let (w, e) = recover_writes d bs hs home l in
      rw e (installed-Logged start size target d bs w hs l)

  -- Recovery after any number of crashed recoveries gives every home block its value.
  pub recovered-Safe :
      (d : Blocks) (bs : List ℕ) (ks : List ℕ) (x : ℕ)
      → length bs < size
      → AllHome start size bs
      → Safe d bs
      → Home start size x
      → recovered start (reboots start d ks) x ≡ target x
  recovered-Safe d bs ks x hs home s hx = elim (reboots-Safe d bs ks hs home s) [
    | inl m ↦ (recovered-Logged _ bs hs home m).others x hx refl
    | inr m ↦ (recovered-Logged _ [] (omega arith) tt m).others x hx refl
  ]
