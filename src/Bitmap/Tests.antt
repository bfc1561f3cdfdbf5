-- ===== src/Bitmap/Tests.antt =====
-- A bitmap with two chunks, and each theorem about bitmaps on it.
use yikv.Prelude.{ℕ, ◌^◌, ◌≤◌, ◌≡◌, false, not, ◌&&◌, ◌||◌, xor, arith}
use yikv.Bitmap.{Bitmap}
use yikv.Bitmap.Each.{has, for_each, IsValid}
use yikv.Bitmap.Each.Laws.{Visits, for_each-Visits, for_each-extensional, cardinality-bounds}
use yikv.Bitmap.Point.{empty, add, remove, contains}
use yikv.Bitmap.Point.Laws.{contains-has, Added, add-Added, Removed, remove-Removed}
use yikv.Bitmap.Algebra.{
  or_with, and_with, xor_with, and_not_with, assign, or_of, and_of, xor_of, and_not_of,
}
use yikv.Bitmap.Algebra.Laws.{
  empty-IsValid, Merged, or_with-Merged, and_with-Merged, xor_with-Merged, and_not_with-Merged,
  assign-Merged, set_operations-Merged,
}

abbrev one : Bitmap
one = add empty 5

abbrev two : Bitmap
two = add one 70000

one-IsValid : IsValid one
one-IsValid = Added.valid (add-Added empty 5 (omega arith) empty-IsValid)

two-IsValid : IsValid two
two-IsValid = Added.valid (add-Added one 70000 (omega arith) one-IsValid)

contains-has_example : contains two 70000 ≡ has two 70000
contains-has_example = contains-has two 70000 two-IsValid

add-Added_example : Added one 70000 (add one 70000)
add-Added_example = add-Added one 70000 (omega arith) one-IsValid

remove-Removed_example : Removed two 5 (remove two 5)
remove-Removed_example = remove-Removed two 5 two-IsValid

or_with-Merged_example : Merged ◌||◌ one two (or_with false one two)
or_with-Merged_example = or_with-Merged false one two (λ e. cc) one-IsValid two-IsValid

and_with-Merged_example : Merged ◌&&◌ two one (and_with false two one)
and_with-Merged_example = and_with-Merged false two one (λ e. cc) two-IsValid one-IsValid

xor_with-Merged_example : Merged xor two one (xor_with false two one)
xor_with-Merged_example = xor_with-Merged false two one (λ e. cc) two-IsValid one-IsValid

and_not_with-Merged_example : Merged (λ x y. x && not y) two one (and_not_with false two one)
and_not_with-Merged_example = and_not_with-Merged false two one (λ e. cc) two-IsValid one-IsValid

assign_other_object : Merged (λ x y. y) one two (assign false one two)
assign_other_object = assign-Merged false one two (λ e. cc) one-IsValid two-IsValid

set_operations-Merged_example :
    Merged ◌||◌ two one (or_of two one)
    × Merged ◌&&◌ two one (and_of two one)
    × Merged (λ x y. x && not y) two one (and_not_of two one)
    × Merged xor two one (xor_of two one)
set_operations-Merged_example = set_operations-Merged two one two-IsValid one-IsValid

for_each-Visits_example : Visits two (for_each two)
for_each-Visits_example = for_each-Visits two two-IsValid

-- The same two values, added in the other order.
abbrev swapped : Bitmap
swapped = add (add empty 70000) 5

swapped-Added : Added (add empty 70000) 5 swapped
swapped-Added =
    add-Added (add empty 70000) 5 (omega arith)
      (Added.valid (add-Added empty 70000 (omega arith) empty-IsValid))

two-swapped : (v : ℕ) → has two v ≡ has swapped v
two-swapped v = ground (
  arith,
  Added.members (add-Added one 70000 (omega arith) one-IsValid) v,
  Added.members (add-Added empty 5 (omega arith) empty-IsValid) v,
  Added.members swapped-Added v,
  Added.members (add-Added empty 70000 (omega arith) empty-IsValid) v,
)

for_each-extensional_example :
    (for_each two ≡ for_each swapped) × (two.cardinality ≡ swapped.cardinality)
for_each-extensional_example =
    for_each-extensional two swapped two-IsValid swapped-Added.valid two-swapped

cardinality_of_two : two.cardinality ≤ 2 ^ 32
cardinality_of_two = cardinality-bounds two two-IsValid
