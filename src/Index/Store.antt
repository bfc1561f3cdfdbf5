-- ===== src/Index/Store.antt =====
-- libs/yikv/index/kv_index.cc: the documents by primary key. `ConcurrentHashMap` is an interface:
-- its operations, with what they do to a lookup. A slot offset stands for the document in the slot.
-- What the code asks of the allocator after a batch, and the retirement of a replaced slot, free
-- memory and change no document.
pub mod Concurrent
use yikv.Prelude.{ℕ, ◌+◌, ◌%◌, ◌^◌, ◌≡◌, Bool, List, [], ◌∷◌, Option, none, some, if◌then◌else◌}
use yikv.Index.Text.{Text, text_eq, signed_decimal}

-- `container::ConcurrentHashMap<std::string, V>`
pub record MapOf (V : Type 0) : Type 1 where
  pub Table : Type 0
  pub get : Text → Table → Option V
  pub put : Text → V → Table → Table
  pub erase : Text → Table → Table
  pub get-put :
      (k l : Text) (v : V) (t : Table)
      → get k (put l v t) ≡ (if text_eq k l then some v else get k t)
  pub get-erase :
      (k l : Text) (t : Table) → get k (erase l t) ≡ (if text_eq k l then none else get k t)

pub data DataType : Type 0 where
  bool : DataType
  int32 : DataType
  int64 : DataType
  float32 : DataType
  float64 : DataType
  string : DataType
  bytes : DataType

-- `schema::FieldDef`, as far as the index reads it.
pub record Field : Type 0 where
  pub field_id : ℕ
  pub type : DataType
  pub is_index : Bool

-- A document as its accessors show it.
pub record Doc : Type 0 where
  pub doc_id : ℕ
  pub get_int32 : ℕ → Bool × ℕ
  pub get_int64 : ℕ → Bool × ℕ
  pub get_string : ℕ → Text

-- `Schema`, with the field that `FindField` returns for the primary key.
pub record Schema : Type 0 where
  pub fields : List Field
  pub pk_field : Option Field

abbrev pub pk_of : Field → Doc → Text
pk_of pk doc = elim pk.type [
  | int32 ↦ signed_decimal (doc.get_int32 pk.field_id)
  | int64 ↦ signed_decimal (doc.get_int64 pk.field_id)
  | string ↦ doc.get_string pk.field_id
  | _ ↦ []
]

unfoldable pub extract_pk : Schema → Doc → Text
extract_pk schema doc = elim schema.pk_field [ none ↦ [] | some pk ↦ pk_of pk doc ]

-- The counter of `IndexHeader` is a `uint32_t`: the id, and the counter after it.
pub next_doc_id : ℕ → ℕ × ℕ
next_doc_id counter = (counter, (counter + 1) % 2 ^ 32)

module _ (docs : MapOf Doc) (schema : Schema) where
  -- `KVIndex::Put`. `Upsert` also retires the slot of the old document, which frees memory; the
  -- map changes in the same way.
  unfoldable pub put : Doc → docs.Table → docs.Table
  put doc table = docs.put (extract_pk schema doc) doc table

  unfoldable pub upsert : Doc → docs.Table → docs.Table
  unfolding put
  upsert doc table = put doc table

  pub batch_put : List Doc → docs.Table → docs.Table
  batch_put [] table = table
  batch_put (doc ∷ rest) table = batch_put rest (put doc table)

  pub batch_upsert : List Doc → docs.Table → docs.Table
  batch_upsert [] table = table
  batch_upsert (doc ∷ rest) table = batch_upsert rest (upsert doc table)

  unfoldable pub get : Text → docs.Table → Option Doc
  get pk table = docs.get pk table

  -- The documents that were found; a key without one is passed over.
  pub batch_get : List Text → docs.Table → List Doc
  batch_get [] table = []
  batch_get (pk ∷ rest) table =
      let found = batch_get rest table in
      elim (get pk table) [ none ↦ found | some doc ↦ doc ∷ found ]

  unfoldable pub delete : Text → docs.Table → docs.Table
  delete pk table = docs.erase pk table
