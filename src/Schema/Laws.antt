-- ===== src/Schema/Laws.antt =====
-- The names of the enums read back, and the lookups in a schema that compiles.
use yikv.Prelude.{
  ℕ, zero, suc, ◌≡◌, refl, subst, true, false, List, [], ◌∷◌, none, some, arith, ◌==◌, get_elem?,
}
use yikv.Index.Text.{Text, text_eq, text_eq_refl}
use yikv.Index.Store.{DataType, bool, int32, int64, float32, float64, string, bytes}
use yikv.Schema.{
  IndexType, no_index, kv, inverted, vector, TableFormat, json, fixed_row_binary, sparse_row_binary,
  FieldDef, Schema, data_type_name, parse_data_type, index_type_name, parse_index_type,
  table_format_name, parse_table_format, find_field, find_field_by_id,
}
use yikv.Schema.Compile.{CompiledSchema, ok, compile}
use yikv.Schema.Compile.Laws.{AllDifferent, compile-IsWellFormed}

pub parse-data_type_name : (t : DataType) → parse_data_type (data_type_name t) ≡ some t
unfolding parse_data_type
parse-data_type_name bool = refl
parse-data_type_name int32 = refl
parse-data_type_name int64 = refl
parse-data_type_name float32 = refl
parse-data_type_name float64 = refl
parse-data_type_name string = refl
parse-data_type_name bytes = refl

pub parse-index_type_name : (t : IndexType) → parse_index_type (index_type_name t) ≡ some t
unfolding parse_index_type
parse-index_type_name no_index = refl
parse-index_type_name kv = refl
parse-index_type_name inverted = refl
parse-index_type_name vector = refl

pub parse-table_format_name : (f : TableFormat) → parse_table_format (table_format_name f) ≡ some f
unfolding parse_table_format
parse-table_format_name json = refl
parse-table_format_name fixed_row_binary = refl
parse-table_format_name sparse_row_binary = refl

tail_different : (f : FieldDef) (fs : List FieldDef) → AllDifferent (f ∷ fs) → AllDifferent fs
tail_different f fs d i j g h l k m = d (suc i) (suc j) g h (omega arith) k m

find_field-absent :
    (name : Text) (fs : List FieldDef)
    → ((i : ℕ) (f : FieldDef) → get_elem? fs i ≡ some f → text_eq f.name name ≡ false)
    → find_field name fs ≡ none
unfolding find_field
find_field-absent name [] h = refl
find_field-absent name (f ∷ fs) h =
    rw (find_field-absent name fs (λ i g k. h (suc i) g k), h 0 f refl) refl

find_field_by_id-absent :
    (id : ℕ) (fs : List FieldDef)
    → ((i : ℕ) (f : FieldDef) → get_elem? fs i ≡ some f → (f.field_id == id) ≡ false)
    → find_field_by_id id fs ≡ none
unfolding find_field_by_id
find_field_by_id-absent id [] h = refl
find_field_by_id-absent id (f ∷ fs) h =
    rw (find_field_by_id-absent id fs (λ i g k. h (suc i) g k), h 0 f refl) refl

find_fields-different :
    (fs : List FieldDef) (i : ℕ) (f : FieldDef)
    → AllDifferent fs
    → get_elem? fs i ≡ some f
    → (find_field f.name fs ≡ some f) × (find_field_by_id f.field_id fs ≡ some f)
unfolding find_field find_field_by_id
find_fields-different [] i f d k = cc
find_fields-different (x ∷ fs) zero f d k =
    let same : x ≡ f = cc in
    let no_name = find_field-absent x.name fs (λ i g m. (d 0 (suc i) x g (omega arith) refl m).0) in
    let no_id =
      find_field_by_id-absent x.field_id fs (λ i g m. (d 0 (suc i) x g (omega arith) refl m).1) in
    subst
      (λ z. (find_field z.name (x ∷ fs) ≡ some z) × (find_field_by_id z.field_id (x ∷ fs) ≡ some z))
      same (rw (no_name, text_eq_refl x.name) refl, rw (no_id, equal x.field_id) refl)
  where
    equal : (n : ℕ) → (n == n) ≡ true
    equal n = ground arith
find_fields-different (x ∷ fs) (suc i) f d k =
    let r = find_fields-different fs i f (tail_different x fs d) k in (rw r.0 refl, rw r.1 refl)

-- X
pub find_field-compile :
    (schema : Schema) (c : CompiledSchema) (i : ℕ) (f : FieldDef)
    → compile schema ≡ ok c
    → get_elem? schema.fields i ≡ some f
    → (find_field f.name schema.fields ≡ some f)
      × (find_field_by_id f.field_id schema.fields ≡ some f)
find_field-compile schema c i f e k =
    find_fields-different schema.fields i f (compile-IsWellFormed schema c e).different k
