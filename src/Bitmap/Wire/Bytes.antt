-- ===== src/Bitmap/Wire/Bytes.antt =====
-- What the writers of the wire format put down, the readers read.
use yikv.Prelude.{
  ℕ, zero, suc, ◌+◌, ◌*◌, ◌/◌, ◌%◌, ◌^◌, ◌<◌, ◌≡◌, refl, sym, ap, ◌∙◌, inl, inr, Bool, true, ◌&&◌,
  List, [], ◌∷◌, ◌++◌, arith, ltb, ◌==◌, if◌then◌else◌, length, Bool-cases,
}
use native.Mathlib.Nat.{pow-succ', div-div-eq-div-mul}
use yikv.Sorted.{IsAscending, IsBelow, IsAscending-ext}
use yikv.Bitmap.{Word, Words}
use yikv.Bitmap.Words.{collect, popcount_words}
use yikv.Bitmap.Words.Laws.{collect-IsAscending, mem-collect, length-collect}
use yikv.Bitmap.Wire.{
  byte_at, write_u16, write_u32, read_u16, read_u32, write_array, read_array, byte_of, word_bytes,
  write_words, read_words, is_sorted,
}

pub read-write_u16 : (v : ℕ) (rest : List ℕ) → v < 65536 → read_u16 (write_u16 v ++ rest) 0 ≡ v
read-write_u16 v rest h = omega arith

pub read-write_u32 : (v : ℕ) (rest : List ℕ) → v < 2 ^ 32 → read_u32 (write_u32 v ++ rest) 0 ≡ v
read-write_u32 v rest h = omega arith

pub length-write_array : (xs : List ℕ) → length (write_array xs) ≡ length xs * 2
unfolding write_array
length-write_array [] = refl
length-write_array (x ∷ xs) = omega (arith, length-write_array xs)

pub read-write_array :
    (xs rest : List ℕ) → IsBelow 65536 xs → read_array (length xs) (write_array xs ++ rest) ≡ xs
unfolding write_array read_array
read-write_array [] rest h = refl
read-write_array (x ∷ xs) rest h =
    rw (read-write_u16 x (write_array xs ++ rest) h.0)
      (ap (λ r. x ∷ r) (read-write_array xs rest h.1))

pub is_sorted_lem : (n : ℕ) (xs : List ℕ) → IsAscending n xs → is_sorted xs ≡ true
unfolding is_sorted
is_sorted_lem n [] h = refl
is_sorted_lem n (x ∷ []) h = refl
is_sorted_lem n (x ∷ y ∷ ys) h = ground (arith, is_sorted_lem (suc x) (y ∷ ys) h.1)

zero_plus : (d : ℕ) → 0 + d ≡ d
zero_plus d = omega arith

-- A byte has its bits.
byte_of-bit : (i j k : ℕ) (w : Word) → i < k → (byte_of j k w / 2 ^ i % 2 == 1) ≡ w (j + i)
unfolding byte_of
byte_of-bit i j zero w h = absurd (omega arith)
byte_of-bit zero j (suc k) w h = low (w j) (byte_of (suc j) k w) ∙ ap w (plus_zero j)
  where
    low : (b : Bool) (x : ℕ) → (((if b then 1 else 0) + 2 * x) / 1 % 2 == 1) ≡ b
    low b x = ground arith

    plus_zero : (j : ℕ) → j ≡ j + 0
    plus_zero j = omega arith
byte_of-bit (suc i) j (suc k) w h =
    rw
      (
        pow-succ' 2 i,
        sym (div-div-eq-div-mul ((if w j then 1 else 0) + 2 * byte_of (suc j) k w) 2 (2 ^ i)),
        half (w j) (byte_of (suc j) k w),
      )
      (byte_of-bit i (suc j) k w (omega arith) ∙ ap w (plus_suc j i))
  where
    half : (b : Bool) (x : ℕ) → ((if b then 1 else 0) + 2 * x) / 2 ≡ x
    half b x = ground arith

    plus_suc : (j i : ℕ) → suc j + i ≡ j + suc i
    plus_suc j i = omega arith

pub length-write_words : (i k : ℕ) (w : Words) → length (write_words i k w) ≡ k * 8
unfolding write_words
length-write_words i zero w = refl
length-write_words i (suc k) w = omega (arith, length-write_words (suc i) k w)

byte_at-word_bytes :
    (d : ℕ) (w : Word) (rest : List ℕ)
    → d < 8
    → byte_at (word_bytes w ++ rest) d ≡ byte_of (d * 8) 8 w
byte_at-word_bytes zero w rest l = refl
byte_at-word_bytes (suc zero) w rest l = refl
byte_at-word_bytes (suc (suc zero)) w rest l = refl
byte_at-word_bytes (suc (suc (suc zero))) w rest l = refl
byte_at-word_bytes (suc (suc (suc (suc zero)))) w rest l = refl
byte_at-word_bytes (suc (suc (suc (suc (suc zero))))) w rest l = refl
byte_at-word_bytes (suc (suc (suc (suc (suc (suc zero)))))) w rest l = refl
byte_at-word_bytes (suc (suc (suc (suc (suc (suc (suc zero))))))) w rest l = refl
byte_at-word_bytes (suc (suc (suc (suc (suc (suc (suc (suc d)))))))) w rest l = absurd (omega arith)

-- The byte of a word at its place.
byte_at-write_words :
    (i k c d : ℕ) (w : Words) (rest : List ℕ)
    → c < k
    → d < 8
    → byte_at (write_words i k w ++ rest) (c * 8 + d) ≡ byte_of (d * 8) 8 (w (i + c))
unfolding write_words
byte_at-write_words i zero c d w rest h l = absurd (omega arith)
byte_at-write_words i (suc k) zero d w rest h l =
    ap (byte_at (write_words i (suc k) w ++ rest)) (zero_plus d)
    ∙ byte_at-word_bytes d (w i) (write_words (suc i) k w ++ rest) l
    ∙ ap (λ n. byte_of (d * 8) 8 (w n)) (plus_zero i)
  where
    plus_zero : (i : ℕ) → i ≡ i + 0
    plus_zero i = omega arith
byte_at-write_words i (suc k) (suc c) d w rest h l =
    ap (byte_at (write_words i (suc k) w ++ rest)) (next_word c d)
    ∙ (byte_at-write_words (suc i) k c d w rest (omega arith) l
        ∙ ap (λ n. byte_of (d * 8) 8 (w n)) (plus_suc i c))
  where
    next_word :
        (c d : ℕ) → suc c * 8 + d ≡ suc (suc (suc (suc (suc (suc (suc (suc (c * 8 + d))))))))
    next_word c d = omega arith

    plus_suc : (i c : ℕ) → suc i + c ≡ i + suc c
    plus_suc i c = omega arith

-- The words that are read back have the bits that were written.
read_words-bit :
    (i j : ℕ) (w : Words) (rest : List ℕ)
    → i < 1024
    → j < 64
    → read_words (write_words 0 1024 w ++ rest) i j ≡ w i j
unfolding read_words
read_words-bit i j w rest h l =
    rw (byte_at-write_words 0 1024 i (j / 8) w rest h (omega arith), zero_plus i)
      (byte_of-bit (j % 8) (j / 8 * 8) 8 (w i) (omega arith) ∙ ap (w i) (whole j))
  where
    whole : (j : ℕ) → j / 8 * 8 + j % 8 ≡ j
    whole j = omega arith

pub collect-read_words :
    (w : Words) (rest : List ℕ) → collect (read_words (write_words 0 1024 w ++ rest)) ≡ collect w
collect-read_words w rest =
    let r = read_words (write_words 0 1024 w ++ rest) in
    IsAscending-ext 0 0 (collect r) (collect w) (collect-IsAscending r) (collect-IsAscending w)
      λ z. mem-collect z r ∙ (same z ∙ sym (mem-collect z w))
  where
    same :
        (z : ℕ)
        → (ltb z 65536 && read_words (write_words 0 1024 w ++ rest) (z / 64) (z % 64))
          ≡ (ltb z 65536 && w (z / 64) (z % 64))
    same z = elim (Bool-cases (ltb z 65536)) [
      | inr out ↦ rw out refl
      | inl within ↦ rw (read_words-bit (z / 64) (z % 64) w rest (ground arith) (omega arith)) refl
    ]

pub popcount-read_words :
    (w : Words) (rest : List ℕ)
    → popcount_words (read_words (write_words 0 1024 w ++ rest)) ≡ length (collect w)
popcount-read_words w rest =
    sym (length-collect (read_words (write_words 0 1024 w ++ rest)))
    ∙ ap length (collect-read_words w rest)
