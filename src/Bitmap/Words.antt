-- ===== src/Bitmap/Words.antt =====
-- The loops over the words of a bitmap payload.
pub mod Laws
use yikv.Prelude.{
  ℕ, zero, suc, ◌+◌, ◌*◌, ◌/◌, ◌%◌, Bool, true, false, not, ◌&&◌, ◌||◌, List, [], ◌∷◌, ◌++◌, ◌==◌,
  if◌then◌else◌,
}
use yikv.Bitmap.{Word, Words, bitmap_words}

-- `memset(words, 0, …)`
abbrev pub zero_words : Words
zero_words i j = false

-- `words[lo >> 6] & (1 << (lo & 63))`
pub test_bit : Words → ℕ → Bool
test_bit w lo = w (lo / 64) (lo % 64)

-- `words[lo >> 6] |= 1 << (lo & 63)`
pub set_bit : Words → ℕ → Words
set_bit w lo i j = (i == lo / 64 && j == lo % 64) || w i j

-- `words[lo >> 6] &= ~(1 << (lo & 63))`
pub clear_bit : Words → ℕ → Words
clear_bit w lo i j = not (i == lo / 64 && j == lo % 64) && w i j

-- The loop of `to_bitmap` and `chunk_to_words` over the array.
pub fill_words : Words → List ℕ → Words
fill_words w [] = w
fill_words w (x ∷ xs) = fill_words (set_bit w x) xs

-- The `ctz` loop over one word: its set bits from `j` on, lowest first.
pub word_values : ℕ → ℕ → ℕ → Word → List ℕ
word_values base j zero w = []
word_values base j (suc k) w =
    let rest = word_values base (suc j) k w in if w j then (base + j) ∷ rest else rest

pub words_values : ℕ → ℕ → Words → List ℕ
words_values i zero w = []
words_values i (suc k) w = word_values (i * 64) 0 64 (w i) ++ words_values (suc i) k w

pub collect : Words → List ℕ
collect w = words_values 0 bitmap_words w

-- `__builtin_popcountll`
pub popcount : ℕ → ℕ → Word → ℕ
popcount j zero w = 0
popcount j (suc k) w = (if w j then 1 else 0) + popcount (suc j) k w

pub popcount_from : ℕ → ℕ → Words → ℕ
popcount_from i zero w = 0
popcount_from i (suc k) w = popcount 0 64 (w i) + popcount_from (suc i) k w

pub popcount_words : Words → ℕ
popcount_words w = popcount_from 0 bitmap_words w
