-- ===== src/Index/Posting.antt =====
-- libs/yikv/index/inverted_index.cc: the posting lists, `Put`, `Delete` and `Query`. A posting is
-- the bitmap at the root offset that the map keeps under the key; a change of it in place is a change
-- of the value under the key.
pub mod Laws
pub mod Consistency
use yikv.Prelude.{ℕ, Bool, true, false, List, [], ◌∷◌, Option, none, some, ◌==◌, if◌then◌else◌}
use yikv.Bitmap.{Bitmap}
use yikv.Bitmap.Point.{empty, add, remove}
use yikv.Index.Text.{Text, tokenize, posting_key, signed_decimal}
use yikv.Index.Store
use yikv.Index.Store.{MapOf, DataType, int32, int64, string, Field, Doc, Schema, extract_pk}

-- The terms of one field, in the order of the loops of `IndexDoc` and `DeindexDoc`.
abbrev pub terms_of : Field → Doc → List Text
terms_of field doc =
    if field.is_index
    then elim field.type [
      | string ↦ tokenize (doc.get_string field.field_id)
      | int32 ↦ signed_decimal (doc.get_int32 field.field_id) ∷ []
      | int64 ↦ signed_decimal (doc.get_int64 field.field_id) ∷ []
      | _ ↦ []
    ]
    else []

module _ (postings : MapOf Bitmap) where
  -- The branches on the posting that the lookup found.
  abbrev pub add_under : Text → ℕ → Option Bitmap → postings.Table → postings.Table
  add_under pkey doc_id (some bm) table = postings.put pkey (add bm doc_id) table
  add_under pkey doc_id none table = postings.put pkey (add empty doc_id) table

  pub add_to_posting : ℕ → Text → ℕ → postings.Table → postings.Table
  add_to_posting field_id term doc_id table =
      let pkey = posting_key field_id term in add_under pkey doc_id (postings.get pkey table) table

  -- A posting that came out empty is erased.
  abbrev pub remove_under : Text → ℕ → Option Bitmap → postings.Table → postings.Table
  remove_under pkey doc_id none table = table
  remove_under pkey doc_id (some bm) table =
      let left = remove bm doc_id in
      if left.cardinality == 0 then postings.erase pkey table else postings.put pkey left table

  pub remove_from_posting : ℕ → Text → ℕ → postings.Table → postings.Table
  remove_from_posting field_id term doc_id table =
      let pkey = posting_key field_id term in
      remove_under pkey doc_id (postings.get pkey table) table

  pub add_terms : ℕ → List Text → ℕ → postings.Table → postings.Table
  unfolding add_to_posting
  add_terms field_id [] doc_id table = table
  add_terms field_id (term ∷ rest) doc_id table =
      add_terms field_id rest doc_id (add_to_posting field_id term doc_id table)

  pub remove_terms : ℕ → List Text → ℕ → postings.Table → postings.Table
  unfolding remove_from_posting
  remove_terms field_id [] doc_id table = table
  remove_terms field_id (term ∷ rest) doc_id table =
      remove_terms field_id rest doc_id (remove_from_posting field_id term doc_id table)

  -- `IndexDoc` and `DeindexDoc`: the loops over the fields.
  pub index_doc : List Field → Doc → postings.Table → postings.Table
  unfolding add_terms
  index_doc [] doc table = table
  index_doc (field ∷ rest) doc table =
      index_doc rest doc (add_terms field.field_id (terms_of field doc) doc.doc_id table)

  pub deindex_doc : List Field → Doc → postings.Table → postings.Table
  unfolding remove_terms
  deindex_doc [] doc table = table
  deindex_doc (field ∷ rest) doc table =
      deindex_doc rest doc (remove_terms field.field_id (terms_of field doc) doc.doc_id table)

  unfoldable pub query : ℕ → Text → postings.Table → Option Bitmap
  query field_id term table = postings.get (posting_key field_id term) table

module _ (docs : MapOf Doc) (postings : MapOf Bitmap) (schema : Schema) where
  -- `InvertedIndex`: the documents and the postings.
  abbrev pub Inverted : Type 0
  Inverted = docs.Table × postings.Table

  -- The postings without the old document, if there is one.
  pub drop_old : Option Doc → postings.Table → postings.Table
  unfolding deindex_doc
  drop_old none lists = lists
  drop_old (some old) lists = deindex_doc postings schema.fields old lists

  pub put : Doc → Inverted → Inverted
  unfolding index_doc drop_old
  put doc (table, lists) =
      let kept = drop_old (Store.get docs schema (extract_pk schema doc) table) lists in
      (Store.upsert docs schema doc table, index_doc postings schema.fields doc kept)

  pub delete : Text → Inverted → Inverted
  unfolding drop_old
  delete pk (table, lists) =
      let kept = drop_old (Store.get docs schema pk table) lists in
      (Store.delete docs schema pk table, kept)
