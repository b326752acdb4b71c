-- ===== src/Bio/Sync.antt =====
-- Buffers of bio.c against the disk of memide.c.
use cs461_hw.Prelude.{
  not, ◌&&◌, Bool-cases, ◌||◌, ◌==◌, if◌then◌else◌, ℕ, ◌<◌, ◌≡◌, refl, ◌≢◌, ◌⊎◌, inl, inr, true,
  false, none, some, List, arith,
}
use cs461_hw.Bio.{bread, Buf, bwrite, iderw}

-- What a reader of the block of a buffer has to find: the buffer's contents if they are valid or
-- still to be written, and the disk's otherwise.
abbrev pub current : (ℕ → List ℕ) → Buf → List ℕ
current disk b = if b.valid || b.dirty then b.content else disk b.blockno

-- A clean, valid buffer has what the disk has.
abbrev pub IsSynced : (ℕ → List ℕ) → Buf → Type 0
IsSynced disk b = ((b.valid && not b.dirty) ≡ false) ⊎ (b.content ≡ disk b.blockno)

-- A locked buffer for a block of the disk, without contents that are neither valid nor clean.
pub record IsReady (disksize : ℕ) (b : Buf) : Type 0 where
  pub locked : b.locked ≡ true
  pub dev : b.dev ≡ 1
  pub in_range : b.blockno < disksize
  pub not_lost : (b.dirty ≡ false) ⊎ (b.valid ≡ true)

-- bread of a locked buffer for a block of disk 1 does not panic: it returns the buffer valid and with
-- the current contents of its block, still in step with the disk, and the disk is as it was.
pub bread-current :
    (disksize : ℕ) (disk : ℕ → List ℕ) (b : Buf)
    → IsReady disksize b
    → IsSynced disk b
    → (b' : Buf) × (bread disksize disk b ≡ some (disk, b'))
      × (b'.valid ≡ true)
      × (b'.content ≡ current disk b)
      × IsSynced disk b'
unfolding bread iderw
bread-current disksize disk b r s = elim (Bool-cases b.valid) [
  | inl v ↦ (b, ground (arith, v), v, ground (arith, v), s)
  | inr v ↦
      let clean : b.dirty ≡ false = ground (arith, r.not_lost, v) in
      (
        record b { content = disk b.blockno; valid = true },
        ground (arith, v, clean, r.locked, r.dev, r.in_range),
        refl,
        ground (arith, v, clean),
        inr refl,
      )
]

-- bwrite of a locked buffer for a block of disk 1 does not panic: the block on the disk is then what
-- the buffer holds, other blocks are as they were, and the buffer is valid and clean. Of a buffer
-- that is not locked it panics.
pub bwrite-through :
    (disksize : ℕ) (disk : ℕ → List ℕ) (b : Buf) (k : ℕ)
    → IsReady disksize b
    → k ≢ b.blockno
    → (disk' : ℕ → List ℕ) × (b' : Buf) × (bwrite disksize disk b ≡ some (disk', b'))
      × (disk' b.blockno ≡ b.content)
      × (disk' k ≡ disk k)
      × (b'.valid ≡ true)
      × (b'.dirty ≡ false)
      × (b'.content ≡ b.content)
      × (bwrite disksize disk (record b { locked = false }) ≡ none)
unfolding bwrite iderw
bwrite-through disksize disk b k r ne = (
  (λ k. if k == b.blockno then b.content else disk k),
  record b { dirty = false; valid = true },
  ground (arith, r.locked, r.dev, r.in_range),
  ground arith,
  ground (arith, ne),
  refl,
  refl,
  refl,
  refl,
)
