-- ===== src/Log/Header.antt =====
-- The log's header block: what write_head stores is what read_head loads.
use mathlib.Core.Path.{ap₂}
use cs461_hw.Prelude.{
  ℕ, suc, ◌+◌, ◌≤◌, ◌<◌, ◌≡◌, refl, ◌∙◌, List, [], ◌∷◌, arith, length, set, length-set, get_or,
  get_or-set_self, get_or-set_ne,
}
use cs461_hw.Log.{head_block, load_words, store_words, Block}

length-store_words : (w : Block) (at : ℕ) (bs : List ℕ) → length (store_words w at bs) ≡ length w
unfolding store_words
length-store_words w at [] = refl
length-store_words w at (b ∷ bs) = length-store_words (set w at b) (suc at) bs ∙ length-set w at b

-- Words below the first one stored stay.
store_words_below :
    (w : Block) (at : ℕ) (bs : List ℕ) (j : ℕ)
    → j < at
    → get_or (store_words w at bs) j 0 ≡ get_or w j 0
unfolding store_words
store_words_below w at [] j h = refl
store_words_below w at (b ∷ bs) j h =
    store_words_below (set w at b) (suc at) bs j (omega arith)
    ∙ get_or-set_ne w {i = at} {j = j} b 0 (omega arith)

load-store_words :
    (w : Block) (at : ℕ) (bs : List ℕ)
    → at + length bs ≤ length w
    → load_words (store_words w at bs) at (length bs) ≡ bs
unfolding load_words store_words
load-store_words w at [] h = refl
load-store_words w at (b ∷ bs) h =
    ap₂ ◌∷◌
      (store_words_below (set w at b) (suc at) bs at (omega arith)
        ∙ get_or-set_self w at b 0 (omega arith))
      (load-store_words (set w at b) (suc at) bs (omega (arith, length-set w at b)))

-- What read_head makes of a header block.
abbrev pub listed : Block → List ℕ
listed w = load_words w 1 (get_or w 0 0)

-- Reading a header block back gives the list of block numbers that was written to it, if the block
-- has room for them; words that it held before do not matter.
pub listed-head_block :
    (w : Block) (bs : List ℕ) → length bs < length w → listed (head_block w bs) ≡ bs
unfolding head_block
listed-head_block w bs h =
    rw
      (store_words_below (set w 0 (length bs)) 1 bs 0 (omega arith)
        ∙ get_or-set_self w 0 (length bs) 0 (omega arith))
      (load-store_words (set w 0 (length bs)) 1 bs (omega (arith, length-set w 0 (length bs))))

-- A cleared header lists nothing, whatever the block held.
pub listed_cleared : (w : Block) → listed (head_block w []) ≡ []
unfolding head_block store_words load_words
listed_cleared [] = refl
listed_cleared (x ∷ w) = refl
