-- ===== src/Document/Tests.antt =====
-- A document of two fields, and the slots of arrays that grow.
use yikv.Prelude.{ℕ, ◌^◌, ◌<◌, ◌≡◌, refl, List, [], ◌∷◌, ◌++◌, some, arith, get_elem?}
use yikv.Document.{Document, new_document, no_slot, Slot, put_string, put_32, get_32, replace_slot}
use yikv.Document.Laws.{StringPut, put_string-StringPut}
use yikv.Document.Arrays.{array_view, array_get, array_put, array_append_batch}
use yikv.Document.Arrays.Laws.{Holds, array_put-Holds, append_batch-view}
use yikv.Document.Strings.{array_view_string, array_get_string, array_append_strings}
use yikv.Document.Strings.Laws.{
  HoldsStrings, nothing, append_strings-view, array_append_strings-HoldsStrings,
}

abbrev two_fields : Document
two_fields = new_document 2 7

put_string-StringPut_example :
    StringPut 1
      (97 ∷ 98 ∷ [])
      (put_string 1 (99 ∷ []) two_fields)
      (put_string 1 (97 ∷ 98 ∷ []) (put_string 1 (99 ∷ []) two_fields))
unfolding put_string replace_slot
put_string-StringPut_example =
    put_string-StringPut 1 (97 ∷ 98 ∷ []) (put_string 1 (99 ∷ []) two_fields) (omega arith)

get_32-put_32 : get_32 0 (put_32 0 4294967295 two_fields) ≡ 4294967295
unfolding get_32 put_32 replace_slot
get_32-put_32 = refl

abbrev three : Slot
three = (array_put (1 ∷ 2 ∷ 3 ∷ []) no_slot).0

-- The capacity for three elements is three, so the batch moves them.
append_batch-view_example :
    Holds (array_append_batch (4 ∷ 5 ∷ []) three).0 (1 ∷ 2 ∷ 3 ∷ 4 ∷ 5 ∷ [])
    × (array_view (array_append_batch (4 ∷ 5 ∷ []) three).0 ≡ 1 ∷ 2 ∷ 3 ∷ 4 ∷ 5 ∷ [])
    × ((i : ℕ)
        → i < 5
        → array_get i (array_append_batch (4 ∷ 5 ∷ []) three).0
          ≡ get_elem? (1 ∷ 2 ∷ 3 ∷ 4 ∷ 5 ∷ []) i)
append_batch-view_example =
    append_batch-view (4 ∷ 5 ∷ []) three (1 ∷ 2 ∷ 3 ∷ []) (array_put-Holds (1 ∷ 2 ∷ 3 ∷ []) no_slot)
      (omega arith)

abbrev hello : List (List ℕ)
hello = (104 ∷ 105 ∷ []) ∷ [] ∷ []

abbrev more : List (List ℕ)
more = (120 ∷ []) ∷ []

abbrev greeting : Slot
greeting = (array_append_strings hello no_slot).0

small : (n : ℕ) → n < 10 → n < 2 ^ 32
small n h = omega arith

greeting-HoldsStrings : HoldsStrings greeting hello
greeting-HoldsStrings =
    array_append_strings-HoldsStrings hello no_slot [] (nothing refl refl refl)
      (record { few = omega arith; short = omega arith })

append_strings-view_example :
    HoldsStrings (array_append_strings more greeting).0 (hello ++ more)
    × (array_view_string (array_append_strings more greeting).0 ≡ hello ++ more)
    × ((i : ℕ) (p : List ℕ)
        → get_elem? (hello ++ more) i ≡ some p
        → array_get_string i (array_append_strings more greeting).0 ≡ p)
append_strings-view_example =
    append_strings-view more greeting hello greeting-HoldsStrings
      (record { few = omega arith; short = omega arith })
