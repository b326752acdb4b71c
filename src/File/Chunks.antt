-- ===== src/File/Chunks.antt =====
-- The loop of filewrite in file.c, a chunk at a time.
use cs461_hw.Prelude.{ℕ, suc, ◌+◌, ◌%◌, ◌^◌, ◌<◌, ◌≡◌, Option, some, arith}
use cs461_hw.File.{wrote, chunk, write_loop}

-- A round that writes its whole chunk.
pub write_loop-round {ℓ} :
    {S : Type ℓ} (writei : S → ℕ → ℕ → ℕ → S × Option ℕ) (fuel : ℕ) (s s' : S) (off i k n : ℕ)
    → i < n
    → chunk n i ≡ k
    → off + k < 2 ^ 32
    → writei s i off k ≡ (s', some k)
    → write_loop writei (suc fuel) s off i n ≡ write_loop writei fuel s' (off + k) (i + k) n
unfolding write_loop
write_loop-round writei fuel s s' off i k n lt c fits e =
    let o : (off + k) % 2 ^ 32 ≡ off + k = omega (arith, fits) in ground (arith, c, e, o)

pub write_loop-done {ℓ} :
    {S : Type ℓ} (writei : S → ℕ → ℕ → ℕ → S × Option ℕ) (fuel : ℕ) (s : S) (off n : ℕ)
    → write_loop writei (suc fuel) s off n n ≡ (s, off, wrote n)
unfolding write_loop
write_loop-done writei fuel s off n = ground arith
