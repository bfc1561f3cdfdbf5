-- ===== src/Bitmap/Bulk/Tests.antt =====
-- Runs of `BulkAdd` inside one array chunk.
use yikv.Prelude.{◌≡◌, refl, none, [], ◌∷◌, arith}
use yikv.Bitmap.Point.{empty}
use yikv.Bitmap.Bulk.{append_new, dedup, dedup_after, merge_bulk, bulk_add}
use yikv.Bitmap.Bulk.Laws.{AddedAll, bulk_add-AddedAll}
use yikv.Bitmap.Algebra.Laws.{empty-IsValid}

-- Strictly ascending values merge into an array.
merge_bulk_ascending : merge_bulk none (5 ∷ 10 ∷ []) (5 ∷ 7 ∷ []) ≡ 5 ∷ 7 ∷ 10 ∷ []
unfolding merge_bulk append_new dedup dedup_after
merge_bulk_ascending = refl

-- A value that is repeated in the input and equal to one of the array is stored twice.
merge_bulk_repeated : merge_bulk none (5 ∷ 10 ∷ []) (5 ∷ 5 ∷ []) ≡ 5 ∷ 5 ∷ 10 ∷ []
unfolding merge_bulk append_new dedup dedup_after
merge_bulk_repeated = refl

bulk_add-AddedAll_example :
    AddedAll empty (5 ∷ 70000 ∷ 70001 ∷ []) (bulk_add empty (5 ∷ 70000 ∷ 70001 ∷ []))
bulk_add-AddedAll_example =
    bulk_add-AddedAll empty (5 ∷ 70000 ∷ 70001 ∷ []) empty-IsValid
      (omega arith, (omega arith, (omega arith, tt)))
      (omega arith, (omega arith, (omega arith, tt)))
