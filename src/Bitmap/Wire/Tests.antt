-- ===== src/Bitmap/Wire/Tests.antt =====
-- A bitmap with the value 5 in the wire format, and a chunk whose element count is 2 ^ 31.
use yikv.Prelude.{ℕ, ◌+◌, drop, ◌^◌, ◌≡◌, refl, List, [], ◌∷◌, ◌++◌, arith}
use yikv.Bitmap.{Bitmap}
use yikv.Bitmap.Each.{has, IsValid}
use yikv.Bitmap.Point.{empty, add}
use yikv.Bitmap.Point.Laws.{Added, add-Added}
use yikv.Bitmap.Algebra.Laws.{empty-IsValid}
use yikv.Bitmap.Bulk.{bulk_add}
use yikv.Bitmap.Wire.{
  serialize, deserialize, deserialize_chunks, parsed, refused, overread, array_not_sorted,
  trailing_bytes, read_chunk, check_chunk, read_array_chunk, read_array, is_sorted, read_u32,
}
use yikv.Bitmap.Wire.Laws.{deserialize-serialize, deserialize-trailing}
use yikv.Bitmap.Wire.Accepted.{IsBytes, deserialize-IsValid}
use yikv.Bitmap.Wire.Overread.{HasWrap, deserialize-overread}

abbrev one : Bitmap
one = add empty 5

one-IsValid : IsValid one
one-IsValid = Added.valid (add-Added empty 5 (omega arith) empty-IsValid)

deserialize-serialize_example :
    (r : Bitmap) × (deserialize (serialize one) ≡ parsed r)
    × IsValid r
    × ((w : ℕ) → has r w ≡ has one w)
deserialize-serialize_example = deserialize-serialize one one-IsValid

deserialize-trailing_example : deserialize (serialize one ++ (7 ∷ [])) ≡ refused trailing_bytes
deserialize-trailing_example = deserialize-trailing one 7 [] one-IsValid

-- The magic, the version, one chunk with the key 0 and the values 5 and 9.
abbrev five_nine : List ℕ
five_nine =
    82 ∷ 66 ∷ 77 ∷ 49 ∷ 1 ∷ 0 ∷ 0 ∷ 0 ∷ 1 ∷ 0 ∷ 0 ∷ 0 ∷ 0 ∷ 0 ∷ 0 ∷ 0 ∷ 2 ∷ 0 ∷ 0 ∷ 0 ∷ 4 ∷ 0 ∷ 0
    ∷ 0 ∷ 5 ∷ 0 ∷ 9 ∷ 0 ∷ []

five_nine-IsBytes : IsBytes five_nine
five_nine-IsBytes = ground arith

deserialize-five_nine : deserialize five_nine ≡ parsed (bulk_add empty (5 ∷ 9 ∷ []))
unfolding deserialize deserialize_chunks read_chunk check_chunk read_array_chunk read_array
    is_sorted
deserialize-five_nine = refl

deserialize-IsValid_example : IsValid (bulk_add empty (5 ∷ 9 ∷ []))
deserialize-IsValid_example =
    deserialize-IsValid five_nine (bulk_add empty (5 ∷ 9 ∷ [])) five_nine-IsBytes
      deserialize-five_nine

-- The elements 9 and 5.
abbrev out_of_place : List ℕ
out_of_place = 9 ∷ 0 ∷ 5 ∷ 0 ∷ []

read_array_chunk-out_of_place :
    read_array_chunk (2 ^ 31 + 2) 4 out_of_place ≡ refused array_not_sorted
unfolding read_array_chunk read_array is_sorted
read_array_chunk-out_of_place = refl

-- One chunk whose header gives 2 ^ 31 elements and no payload, and nothing behind it.
abbrev large_card : List ℕ
large_card =
    82 ∷ 66 ∷ 77 ∷ 49 ∷ 1 ∷ 0 ∷ 0 ∷ 0 ∷ 1 ∷ 0 ∷ 0 ∷ 0 ∷ 0 ∷ 0 ∷ 0 ∷ 0 ∷ 0 ∷ 0 ∷ 0 ∷ 128 ∷ 0 ∷ 0 ∷ 0
    ∷ 0 ∷ []

deserialize-large_card : deserialize large_card ≡ overread
unfolding deserialize deserialize_chunks read_chunk check_chunk read_array_chunk read_array
    is_sorted
deserialize-large_card = refl

deserialize-overread_example : HasWrap (read_u32 large_card 8) (drop 12 large_card)
deserialize-overread_example = deserialize-overread large_card deserialize-large_card
