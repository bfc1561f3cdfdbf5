-- ===== src/Bitmap/Words/Laws.antt =====
-- A bitmap payload as the ascending list of its set bits.
use yikv.Prelude.{
  ℕ, zero, suc, ◌+◌, ◌-◌, ◌*◌, ◌/◌, ◌%◌, ◌≤◌, ◌<◌, ◌≡◌, refl, ◌&&◌, ◌||◌, List, [], ◌∷◌, ◌++◌,
  arith, ltb, leb, length, length-append,
}
use yikv.Sorted.{
  mem, IsAscending, IsBelow, mem-append, mem_above_bound, IsAscending-mono, IsAscending-ext, insert,
  remove, mem-insert, mem-remove, insert-IsAscending, remove-IsAscending,
}
use yikv.Bitmap.{Word, Words}
use yikv.Bitmap.Words.{
  zero_words, test_bit, set_bit, clear_bit, fill_words, word_values, words_values, collect,
  popcount, popcount_from, popcount_words,
}

mem-word_values :
    (z base j k : ℕ) (w : Word)
    → mem z (word_values base j k w) ≡ (leb (base + j) z && ltb z (base + j + k) && w (z - base))
unfolding word_values
mem-word_values z base j zero w = ground arith
mem-word_values z base j (suc k) w = ground (arith, mem-word_values z base (suc j) k w)

word_values-IsAscending :
    (base j k : ℕ) (w : Word) → IsAscending (base + j) (word_values base j k w)
unfolding word_values
word_values-IsAscending base j zero w = tt
word_values-IsAscending base j (suc k) w =
    let rest = word_values-IsAscending base (suc j) k w in
    ground (
      arith,
      IsAscending-mono (base + suc j) (suc (base + j)) (word_values base (suc j) k w) (omega arith)
          rest,
      IsAscending-mono (base + suc j) (base + j) (word_values base (suc j) k w) (omega arith) rest,
    )

word_values-IsBelow :
    (base j k m : ℕ) (w : Word) → base + j + k ≤ m → IsBelow m (word_values base j k w)
unfolding word_values
word_values-IsBelow base j zero m w h = tt
word_values-IsBelow base j (suc k) m w h = ground (arith, word_values-IsBelow base (suc j) k m w)

length-word_values : (base j k : ℕ) (w : Word) → length (word_values base j k w) ≡ popcount j k w
unfolding word_values popcount
length-word_values base j zero w = refl
length-word_values base j (suc k) w = ground (arith, length-word_values base (suc j) k w)

append-IsAscending :
    (n m : ℕ) (xs ys : List ℕ)
    → IsAscending n xs
    → IsBelow m xs
    → n ≤ m
    → IsAscending m ys
    → IsAscending n (xs ++ ys)
append-IsAscending n m [] ys a b h c = IsAscending-mono m n ys h c
append-IsAscending n m (x ∷ xs) ys a b h c =
    (a.0, append-IsAscending (suc x) m xs ys a.1 b.1 (omega arith) c)

IsBelow-append : (m : ℕ) (xs ys : List ℕ) → IsBelow m xs → IsBelow m ys → IsBelow m (xs ++ ys)
IsBelow-append m [] ys a b = b
IsBelow-append m (x ∷ xs) ys a b = (a.0, IsBelow-append m xs ys a.1 b)

word_at :
    (z i : ℕ) (w : Words) → i * 64 ≤ z → z < i * 64 + 64 → w i (z - i * 64) ≡ w (z / 64) (z % 64)
word_at z i w a b =
    let e : i ≡ z / 64 = omega arith in let f : z - i * 64 ≡ z % 64 = omega arith in cc

mem-words_values :
    (z i k : ℕ) (w : Words)
    → mem z (words_values i k w) ≡ (leb (i * 64) z && ltb z ((i + k) * 64) && w (z / 64) (z % 64))
unfolding words_values
mem-words_values z i zero w = ground arith
mem-words_values z i (suc k) w =
    rw
      (
        mem-append z (word_values (i * 64) 0 64 (w i)) (words_values (suc i) k w),
        mem-word_values z (i * 64) 0 64 (w i),
        mem-words_values z (suc i) k w,
      )
      (ground (arith, word_at z i w))

words_values-IsAscending : (i k : ℕ) (w : Words) → IsAscending (i * 64) (words_values i k w)
unfolding words_values
words_values-IsAscending i zero w = tt
words_values-IsAscending i (suc k) w =
    append-IsAscending (i * 64) (suc i * 64) (word_values (i * 64) 0 64 (w i))
      (words_values (suc i) k w)
      (IsAscending-mono (i * 64 + 0) (i * 64) _ (omega arith)
        (word_values-IsAscending (i * 64) 0 64 (w i)))
      (word_values-IsBelow (i * 64) 0 64 (suc i * 64) (w i) (omega arith)) (omega arith)
      (words_values-IsAscending (suc i) k w)

words_values-IsBelow : (i k m : ℕ) (w : Words) → (i + k) * 64 ≤ m → IsBelow m (words_values i k w)
unfolding words_values
words_values-IsBelow i zero m w h = tt
words_values-IsBelow i (suc k) m w h =
    IsBelow-append m (word_values (i * 64) 0 64 (w i)) (words_values (suc i) k w)
      (word_values-IsBelow (i * 64) 0 64 m (w i) (omega arith))
      (words_values-IsBelow (suc i) k m w (omega arith))

length-words_values : (i k : ℕ) (w : Words) → length (words_values i k w) ≡ popcount_from i k w
unfolding words_values popcount_from
length-words_values i zero w = refl
length-words_values i (suc k) w = omega (
  arith,
  length-append (word_values (i * 64) 0 64 (w i)) (words_values (suc i) k w),
  length-word_values (i * 64) 0 64 (w i),
  length-words_values (suc i) k w,
)

pub collect-IsAscending : (w : Words) → IsAscending 0 (collect w)
unfolding collect
collect-IsAscending w = words_values-IsAscending 0 1024 w

pub collect-IsBelow : (w : Words) → IsBelow 65536 (collect w)
unfolding collect
collect-IsBelow w = words_values-IsBelow 0 1024 65536 w (omega arith)

pub length-collect : (w : Words) → length (collect w) ≡ popcount_words w
unfolding collect popcount_words
length-collect w = length-words_values 0 1024 w

pub mem-collect : (z : ℕ) (w : Words) → mem z (collect w) ≡ (ltb z 65536 && w (z / 64) (z % 64))
unfolding collect
mem-collect z w = ground (arith, mem-words_values z 0 1024 w)

pub mem-collect_small : (z : ℕ) (w : Words) → z < 65536 → mem z (collect w) ≡ test_bit w z
unfolding test_bit
mem-collect_small z w h = ground (arith, mem-collect z w)

pub collect-set_bit :
    (w : Words) (lo : ℕ) → lo < 65536 → collect (set_bit w lo) ≡ insert lo (collect w)
unfolding set_bit
collect-set_bit w lo h =
    IsAscending-ext 0 0 (collect (set_bit w lo)) (insert lo (collect w))
      (collect-IsAscending (set_bit w lo))
      (insert-IsAscending 0 lo (collect w) (collect-IsAscending w) (omega arith))
      λ z.
        ground (arith, mem-collect z w, mem-collect z (set_bit w lo), mem-insert z lo (collect w))

pub collect-clear_bit :
    (w : Words) (lo : ℕ) → lo < 65536 → collect (clear_bit w lo) ≡ remove lo (collect w)
unfolding clear_bit
collect-clear_bit w lo h =
    IsAscending-ext 0 0 (collect (clear_bit w lo)) (remove lo (collect w))
      (collect-IsAscending (clear_bit w lo))
      (remove-IsAscending 0 lo (collect w) (collect-IsAscending w))
      λ z. ground (
        arith,
        mem-collect z w,
        mem-collect z (clear_bit w lo),
        mem-remove 0 z lo (collect w) (collect-IsAscending w),
      )

fill_words-bit :
    (w : Words) (xs : List ℕ) (i j : ℕ)
    → j < 64
    → fill_words w xs i j ≡ (w i j || mem (i * 64 + j) xs)
unfolding fill_words set_bit
fill_words-bit w [] i j h = ground arith
fill_words-bit w (x ∷ xs) i j h = ground (arith, fill_words-bit (set_bit w x) xs i j h)

-- Building words from an array and reading them back gives the array.
pub collect-fill_words :
    (xs : List ℕ) → IsAscending 0 xs → IsBelow 65536 xs → collect (fill_words zero_words xs) ≡ xs
collect-fill_words xs a b =
    IsAscending-ext 0 0 (collect (fill_words zero_words xs)) xs
      (collect-IsAscending (fill_words zero_words xs)) a
      λ z. ground (
        arith,
        mem-collect z (fill_words zero_words xs),
        fill_words-bit zero_words xs (z / 64) (z % 64) (omega arith),
        mem_above_bound z 65536 xs b,
      )
