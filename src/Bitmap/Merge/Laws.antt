-- ===== src/Bitmap/Merge/Laws.antt =====
-- The loops with two cursors compute union, intersection and difference of ascending arrays.
use yikv.Prelude.{ℕ, suc, ◌+◌, ◌≤◌, ◌≡◌, refl, List, [], ◌∷◌, arith, ◌||◌, ◌&&◌, not, length}
use yikv.Sorted.{mem, IsAscending, IsBelow, mem_below_bound, IsAscending-mono}
use yikv.Bitmap.Merge.{merge_or, merge_and, merge_and_not}

pub mem-merge_or : (z : ℕ) (xs ys : List ℕ) → mem z (merge_or xs ys) ≡ (mem z xs || mem z ys)
unfolding merge_or
mem-merge_or z [] ys = refl
mem-merge_or z (x ∷ xs) [] = ground arith
mem-merge_or z (x ∷ xs) (y ∷ ys) =
    ground (arith, mem-merge_or z xs (y ∷ ys), mem-merge_or z (x ∷ xs) ys, mem-merge_or z xs ys)

pub merge_or-IsAscending :
    (n : ℕ) (xs ys : List ℕ) → IsAscending n xs → IsAscending n ys → IsAscending n (merge_or xs ys)
unfolding merge_or
merge_or-IsAscending n [] ys a b = b
merge_or-IsAscending n (x ∷ xs) [] a b = a
merge_or-IsAscending n (x ∷ xs) (y ∷ ys) a b = ground (
  arith,
  merge_or-IsAscending (suc x) xs (y ∷ ys),
  merge_or-IsAscending (suc y) (x ∷ xs) ys,
  merge_or-IsAscending (suc x) xs ys,
)

pub merge_or-IsBelow :
    (m : ℕ) (xs ys : List ℕ) → IsBelow m xs → IsBelow m ys → IsBelow m (merge_or xs ys)
unfolding merge_or
merge_or-IsBelow m [] ys a b = b
merge_or-IsBelow m (x ∷ xs) [] a b = a
merge_or-IsBelow m (x ∷ xs) (y ∷ ys) a b = ground (
  arith,
  merge_or-IsBelow m xs (y ∷ ys),
  merge_or-IsBelow m (x ∷ xs) ys,
  merge_or-IsBelow m xs ys,
)

-- The result is at least as long as the first array and fits in the block allocated for it.
pub length-merge_or :
    (xs ys : List ℕ)
    → (length xs ≤ length (merge_or xs ys)) × (length (merge_or xs ys) ≤ length xs + length ys)
unfolding merge_or
length-merge_or [] ys = omega arith
length-merge_or (x ∷ xs) [] = omega arith
length-merge_or (x ∷ xs) (y ∷ ys) =
    ground (arith, length-merge_or xs (y ∷ ys), length-merge_or (x ∷ xs) ys, length-merge_or xs ys)

pub mem-merge_and :
    (z n : ℕ) (xs ys : List ℕ)
    → IsAscending n xs
    → IsAscending n ys
    → mem z (merge_and xs ys) ≡ (mem z xs && mem z ys)
unfolding merge_and
mem-merge_and z n [] ys a b = refl
mem-merge_and z n (x ∷ xs) [] a b = ground arith
mem-merge_and z n (x ∷ xs) (y ∷ ys) a b = ground (
  arith,
  mem-merge_and z (suc x) xs (y ∷ ys),
  mem-merge_and z (suc y) (x ∷ xs) ys,
  mem-merge_and z (suc x) xs ys,
  mem_below_bound z (suc x) xs,
  mem_below_bound z (suc y) ys,
)

pub merge_and-IsAscending :
    (n : ℕ) (xs ys : List ℕ) → IsAscending n xs → IsAscending n (merge_and xs ys)
unfolding merge_and
merge_and-IsAscending n [] ys a = tt
merge_and-IsAscending n (x ∷ xs) [] a = tt
merge_and-IsAscending n (x ∷ xs) (y ∷ ys) a = ground (
  arith,
  merge_and-IsAscending n xs (y ∷ ys),
  IsAscending-mono (suc x) n xs,
  merge_and-IsAscending n (x ∷ xs) ys,
  merge_and-IsAscending (suc x) xs ys,
)

pub merge_and-IsBelow : (m : ℕ) (xs ys : List ℕ) → IsBelow m xs → IsBelow m (merge_and xs ys)
unfolding merge_and
merge_and-IsBelow m [] ys a = tt
merge_and-IsBelow m (x ∷ xs) [] a = tt
merge_and-IsBelow m (x ∷ xs) (y ∷ ys) a = ground (
  arith,
  merge_and-IsBelow m xs (y ∷ ys),
  merge_and-IsBelow m (x ∷ xs) ys,
  merge_and-IsBelow m xs ys,
)

-- The result fits in the block of the smaller size.
pub length-merge_and :
    (xs ys : List ℕ)
    → (length (merge_and xs ys) ≤ length xs) × (length (merge_and xs ys) ≤ length ys)
unfolding merge_and
length-merge_and [] ys = omega arith
length-merge_and (x ∷ xs) [] = omega arith
length-merge_and (x ∷ xs) (y ∷ ys) =
    ground
      (arith, length-merge_and xs (y ∷ ys), length-merge_and (x ∷ xs) ys, length-merge_and xs ys)

pub mem-merge_and_not :
    (z n : ℕ) (xs ys : List ℕ)
    → IsAscending n xs
    → IsAscending n ys
    → mem z (merge_and_not xs ys) ≡ (mem z xs && not (mem z ys))
unfolding merge_and_not
mem-merge_and_not z n [] ys a b = refl
mem-merge_and_not z n (x ∷ xs) [] a b = ground arith
mem-merge_and_not z n (x ∷ xs) (y ∷ ys) a b = ground (
  arith,
  mem-merge_and_not z (suc x) xs (y ∷ ys),
  mem-merge_and_not z (suc y) (x ∷ xs) ys,
  mem-merge_and_not z (suc x) xs ys,
  mem_below_bound z (suc x) xs,
  mem_below_bound z (suc y) ys,
)

pub merge_and_not-IsAscending :
    (n : ℕ) (xs ys : List ℕ) → IsAscending n xs → IsAscending n (merge_and_not xs ys)
unfolding merge_and_not
merge_and_not-IsAscending n [] ys a = tt
merge_and_not-IsAscending n (x ∷ xs) [] a = a
merge_and_not-IsAscending n (x ∷ xs) (y ∷ ys) a = ground (
  arith,
  merge_and_not-IsAscending (suc x) xs (y ∷ ys),
  IsAscending-mono (suc x) n xs,
  merge_and_not-IsAscending n (x ∷ xs) ys,
  merge_and_not-IsAscending n xs ys,
)

pub merge_and_not-IsBelow :
    (m : ℕ) (xs ys : List ℕ) → IsBelow m xs → IsBelow m (merge_and_not xs ys)
unfolding merge_and_not
merge_and_not-IsBelow m [] ys a = tt
merge_and_not-IsBelow m (x ∷ xs) [] a = a
merge_and_not-IsBelow m (x ∷ xs) (y ∷ ys) a = ground (
  arith,
  merge_and_not-IsBelow m xs (y ∷ ys),
  merge_and_not-IsBelow m (x ∷ xs) ys,
  merge_and_not-IsBelow m xs ys,
)

pub length-merge_and_not : (xs ys : List ℕ) → length (merge_and_not xs ys) ≤ length xs
unfolding merge_and_not
length-merge_and_not [] ys = omega arith
length-merge_and_not (x ∷ xs) [] = omega arith
length-merge_and_not (x ∷ xs) (y ∷ ys) = ground (
  arith,
  length-merge_and_not xs (y ∷ ys),
  length-merge_and_not (x ∷ xs) ys,
  length-merge_and_not xs ys,
)
