-- ===== src/Inode/Words.antt =====
-- Words of a block, put and read back.
use native.Mathlib.Nat.{pow-succ'}
use cs461_hw.Prelude.{
  sym, ap, ◌∙◌, Bool, false, ℕ, zero, suc, ◌+◌, ◌*◌, ◌/◌, ◌%◌, ◌^◌, ◌<◌, ◌≡◌, ◌≢◌, refl, arith,
}
use cs461_hw.Inode.{bit, Block, put_word, value, word_at}

value-congr : (n : ℕ) (f g : ℕ → Bool) → ((t : ℕ) → t < n → f t ≡ g t) → value n f ≡ value n g
unfolding value
value-congr zero f g h = refl
value-congr (suc n) f g h = ground (
  arith,
  h 0 (omega arith),
  value-congr n (λ t. f (suc t)) (λ t. g (suc t)) (λ t l. h (suc t) (omega arith)),
)

halve : (n v : ℕ) → v < 2 ^ suc n → v / 2 < 2 ^ n
halve n v h = let double : 2 ^ suc n ≡ 2 * 2 ^ n = pow-succ' 2 n in omega (arith, double, h)

pub value-bit : (n v : ℕ) → v < 2 ^ n → value n (λ t. bit t v) ≡ v
unfolding value bit
value-bit zero v h = omega arith
value-bit (suc n) v h =
    let half : v / 2 < 2 ^ n = halve n v h in ground (arith, value-bit n (v / 2) half)

same_bit :
    (block : Block) (k v t : ℕ) → t < 32 → put_word block k v (4 * k + t / 8) (t % 8) ≡ bit t v
unfolding put_word
same_bit block k v t h =
    let word : (4 * k + t / 8) / 4 ≡ k = omega arith in
    let place : 8 * ((4 * k + t / 8) % 4) + t % 8 ≡ t = omega arith in
    ground (arith, word, ap (λ i. bit i v) place)

other_bit :
    (block : Block) (k l v t : ℕ)
    → k ≢ l
    → t < 32
    → put_word block k v (4 * l + t / 8) (t % 8) ≡ block (4 * l + t / 8) (t % 8)
unfolding put_word
other_bit block k l v t ne h =
    let word : (4 * l + t / 8) / 4 ≡ l = omega arith in ground (arith, word, ne)

bit_zero : (t : ℕ) → bit t 0 ≡ false
unfolding bit
bit_zero zero = refl
bit_zero (suc t) = bit_zero t

pub word_at-put_word : (block : Block) (k v : ℕ) → v < 2 ^ 32 → word_at (put_word block k v) k ≡ v
unfolding word_at put_word
word_at-put_word block k v h =
    value-congr 32 _ (λ t. bit t v) (λ t l. same_bit block k v t l) ∙ value-bit 32 v h

pub word_at-put_word_ne :
    (block : Block) (k l v : ℕ) → k ≢ l → word_at (put_word block k v) l ≡ word_at block l
unfolding word_at put_word
word_at-put_word_ne block k l v ne = value-congr 32 _ _ (λ t h. other_bit block k l v t ne h)

pub word_at_zero : (block : Block) (k : ℕ) → ((i j : ℕ) → block i j ≡ false) → word_at block k ≡ 0
unfolding word_at
word_at_zero block k z =
    value-congr 32 _ (λ t. bit t 0) (λ t l. z (4 * k + t / 8) (t % 8) ∙ sym (bit_zero t))
    ∙ value-bit 32 0 (omega arith)
