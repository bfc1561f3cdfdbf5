-- ===== src/Index/Query.antt =====
-- libs/yikv/index/inverted_index.cc: `QueryAnd` and `QueryOr`.
pub mod Laws
use yikv.Prelude.{ℕ, Bool, true, false, List, [], ◌∷◌, Option, none, some, leb, ◌==◌, if◌then◌else◌}
use yikv.Bitmap.{Bitmap}
use yikv.Bitmap.Point.{empty}
use yikv.Bitmap.Algebra.{and_with, or_with}
use yikv.Index.Text.{Text}
use yikv.Index.Store.{MapOf}
use yikv.Index.Posting.{query}

-- `std::sort` by cardinality.
abbrev pub insert_by_cardinality : Bitmap → List Bitmap → List Bitmap
insert_by_cardinality b [] = b ∷ []
insert_by_cardinality b (c ∷ rest) =
    if leb b.cardinality c.cardinality then b ∷ c ∷ rest else c ∷ insert_by_cardinality b rest

abbrev pub sort_by_cardinality : List Bitmap → List Bitmap
sort_by_cardinality [] = []
sort_by_cardinality (b ∷ rest) = insert_by_cardinality b (sort_by_cardinality rest)

-- The loop of `AndWith`s, left as soon as the result is empty.
pub and_all : Bitmap → List Bitmap → Bitmap
and_all result [] = result
and_all result (b ∷ rest) =
    let r = and_with false result b in
    let last = and_all r rest in if r.cardinality == 0 then r else last

-- The result starts as a copy of the smallest bitmap.
pub and_bitmaps : List Bitmap → Bitmap
unfolding and_all
and_bitmaps [] = empty
and_bitmaps (b ∷ rest) = and_all (or_with false empty b) rest

module _ (postings : MapOf Bitmap) (field_id : ℕ) (table : postings.Table) where
  -- The bitmaps of all terms; `none` when a term has no posting or an empty one.
  pub collect_terms : List Text → Option (List Bitmap)
  collect_terms [] = some []
  collect_terms (term ∷ rest) =
      let later = collect_terms rest in
      elim (query postings field_id term table) [
        | none ↦ none
        | some bm ↦
            if bm.cardinality == 0
            then none
            else elim later [ none ↦ none | some bms ↦ some (bm ∷ bms) ]
      ]

  pub query_and : List Text → Bitmap
  unfolding collect_terms
  query_and [] = empty
  query_and (term ∷ rest) = elim (collect_terms (term ∷ rest)) [
    | none ↦ empty
    | some bms ↦ and_bitmaps (sort_by_cardinality bms)
  ]

  pub or_terms : Bitmap → List Text → Bitmap
  or_terms result [] = result
  or_terms result (term ∷ rest) =
      or_terms
        (elim (query postings field_id term table) [
          | none ↦ result
          | some bm ↦ or_with false result bm
        ])
        rest

  pub query_or : List Text → Bitmap
  unfolding or_terms
  query_or terms = or_terms empty terms
