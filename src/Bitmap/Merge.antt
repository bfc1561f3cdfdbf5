-- ===== src/Bitmap/Merge.antt =====
-- The loops of bitmap.cc with two cursors over two sorted arrays.
pub mod Laws
use yikv.Prelude.{List, [], ◌∷◌, ◌++◌, ℕ, ltb, ◌==◌, if◌then◌else◌}

-- `OrWith`, both chunks arrays: the loop and the two copies of what is left.
unfoldable pub merge_or : List ℕ → List ℕ → List ℕ
merge_or [] ys = ys
merge_or (x ∷ xs) [] = x ∷ xs
merge_or (x ∷ xs) (y ∷ ys) =
    let left = merge_or xs (y ∷ ys) in
    let right = merge_or (x ∷ xs) ys in
    let both = merge_or xs ys in
    if ltb x y then x ∷ left else if ltb y x then y ∷ right else x ∷ both

-- `AndWith`, both chunks arrays.
pub merge_and : List ℕ → List ℕ → List ℕ
merge_and [] ys = []
merge_and (x ∷ xs) [] = []
merge_and (x ∷ xs) (y ∷ ys) =
    let left = merge_and xs (y ∷ ys) in
    let right = merge_and (x ∷ xs) ys in
    let both = merge_and xs ys in if x == y then x ∷ both else if ltb x y then left else right

-- `and_not_with`, both chunks arrays.
pub merge_and_not : List ℕ → List ℕ → List ℕ
merge_and_not [] ys = []
merge_and_not (x ∷ xs) [] = x ∷ xs
merge_and_not (x ∷ xs) (y ∷ ys) =
    let left = merge_and_not xs (y ∷ ys) in
    let right = merge_and_not (x ∷ xs) ys in
    let both = merge_and_not xs ys in if ltb x y then x ∷ left else if ltb y x then right else both
