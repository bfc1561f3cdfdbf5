-- ===== src/Index/Tests.antt =====
-- An index over functions as maps, with one document.
use yikv.Prelude.{
  ℕ, zero, suc, ◌≡◌, refl, Bool, true, false, [], ◌∷◌, Option, none, some, arith, if◌then◌else◌,
}
use yikv.Bitmap.{Bitmap}
use yikv.Bitmap.Each.{has, IsValid}
use yikv.Index.Text.{
  Text, text_eq, tokenize, tokenize_from, normalize, posting_key, posting_key-normalize,
}
use yikv.Index.Store.{MapOf, string, Doc, Schema}
use yikv.Index.Posting.{Inverted, put, delete}
use yikv.Index.Posting.Laws.{AllValid}
use yikv.Index.Posting.Consistency.{IsIndexed, put-IsIndexed, delete-IsIndexed}
use yikv.Index.Query.{query_and, query_or}
use yikv.Index.Query.Laws.{under_all, under_some, query_and-has, query_or-has}

abbrev functions : (V : Type 0) → MapOf V
functions V = record {
  Table = Text → Option V;
  get = λ k t. t k;
  put = λ k v t. λ j. if text_eq j k then some v else t j;
  erase = λ k t. λ j. if text_eq j k then none else t j;
  get-put = λ k l v t. refl;
  get-erase = λ k l t. refl;
}

abbrev schema : Schema
schema = record {
  fields =
      record { field_id = 0; type = string; is_index = false }
      ∷ record { field_id = 1; type = string; is_index = true }
      ∷ [];
  pk_field = some (record { field_id = 0; type = string; is_index = false });
}

abbrev zero_int : ℕ → Bool × ℕ
zero_int field_id = (false, 0)

-- The text `Ab c` under the key `k`.
abbrev doc : Doc
doc = record {
  doc_id = 1;
  get_int32 = zero_int;
  get_int64 = zero_int;
  get_string = λ field_id. elim field_id [ zero ↦ 107 ∷ [] | suc n ↦ 65 ∷ 98 ∷ 32 ∷ 99 ∷ [] ];
}

tokens : tokenize (65 ∷ 98 ∷ 32 ∷ 99 ∷ []) ≡ (97 ∷ 98 ∷ []) ∷ (99 ∷ []) ∷ []
unfolding tokenize tokenize_from
tokens = refl

abbrev nothing : Inverted (functions Doc) (functions Bitmap) schema
nothing = (λ key. none, λ key. none)

nothing-IsIndexed : IsIndexed (functions Doc) (functions Bitmap) schema nothing
nothing-IsIndexed = record {
  valid = λ key. tt;
  small = λ pk d e. cc;
  unique = λ pk qk d e f g same. cc;
  sound = λ key i e. cc;
  complete = λ key pk d e k. cc;
}

abbrev stored : Inverted (functions Doc) (functions Bitmap) schema
stored = put (functions Doc) (functions Bitmap) schema doc nothing

put-IsIndexed_example : IsIndexed (functions Doc) (functions Bitmap) schema stored
put-IsIndexed_example =
    put-IsIndexed (functions Doc) (functions Bitmap) schema nothing doc nothing-IsIndexed
      (omega arith) λ pk d e. cc

stored-IsIndexed : IsIndexed (functions Doc) (functions Bitmap) schema stored
stored-IsIndexed =
    put-IsIndexed (functions Doc) (functions Bitmap) schema nothing doc nothing-IsIndexed
      (omega arith) λ pk d e. cc

delete-IsIndexed_example :
    IsIndexed
      (functions Doc)
      (functions Bitmap)
      schema
      (delete (functions Doc) (functions Bitmap) schema (107 ∷ []) stored)
delete-IsIndexed_example =
    delete-IsIndexed (functions Doc) (functions Bitmap) schema stored (107 ∷ []) stored-IsIndexed

stored-AllValid : AllValid (functions Bitmap) stored.1
stored-AllValid = stored-IsIndexed.valid

query_and-has_example :
    let r = query_and (functions Bitmap) 1 stored.1 ((97 ∷ 98 ∷ []) ∷ (99 ∷ []) ∷ []) in
    IsValid r
    × ((id : ℕ)
        → has r id
          ≡ under_all
              (functions Bitmap)
              1
              stored.1
              stored-AllValid
              ((97 ∷ 98 ∷ []) ∷ (99 ∷ []) ∷ [])
              id)
query_and-has_example =
    query_and-has (functions Bitmap) 1 stored.1 stored-AllValid (97 ∷ 98 ∷ []) ((99 ∷ []) ∷ [])

query_or-has_example :
    let r = query_or (functions Bitmap) 1 stored.1 ((97 ∷ 98 ∷ []) ∷ (99 ∷ []) ∷ []) in
    IsValid r
    × ((id : ℕ)
        → has r id
          ≡ under_some
              (functions Bitmap)
              1
              stored.1
              stored-AllValid
              ((97 ∷ 98 ∷ []) ∷ (99 ∷ []) ∷ [])
              id)
query_or-has_example =
    query_or-has (functions Bitmap) 1 stored.1 stored-AllValid ((97 ∷ 98 ∷ []) ∷ (99 ∷ []) ∷ [])

posting_key_of_capital : posting_key 1 (normalize (65 ∷ 98 ∷ [])) ≡ posting_key 1 (65 ∷ 98 ∷ [])
posting_key_of_capital = posting_key-normalize 1 (65 ∷ 98 ∷ [])
