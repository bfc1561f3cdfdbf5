-- ===== src/Schema/Json/Load.antt =====
-- schema.cc: `LoadJson` and `ToJson`. The printer takes the text that comes behind. What a failed
-- load leaves in the object is not modelled.
pub mod Members
pub mod Laws
pub mod Round
pub mod Ends
mod Tests
use yikv.Prelude.{
  ℕ, zero, suc, ◌+◌, ◌-◌, ◌%◌, ◌^◌, Bool, true, false, not, ◌&&◌, ◌||◌, List, [], ◌∷◌, ◌++◌, Option,
  none, some, ltb, ◌==◌, if◌then◌else◌, length,
}
use yikv.Index.Text.{Text, text_eq, decimal, signed_decimal}
use yikv.Index.Store.{int32}
use yikv.Schema.{
  FieldDef, Schema, no_index, sparse_row_binary, data_type_name, parse_data_type, index_type_name,
  parse_index_type, table_format_name, parse_table_format,
}
use yikv.Schema.Json.{
  JsonError, pk_required, unknown_table_format, unknown_data_type, unknown_index_type, out_of_fuel,
  Scan, done, fault, and_then, starts, behind, skip_ws, comma, expect, parse_string, parse_bool,
  parse_int64, skip_value,
}
use yikv.Schema.Json.Keys.{
  table_name_key, schema_version_key, version_key, table_format_key, pk_key, fields_key, name_key,
  data_type_key, type_key, is_array_key, repeated_key, nullable_key, is_pk_key, is_index_key,
  field_id_key, field_offset_key, fixed_off_key, index_type_key,
}

-- `static_cast` of an `int64_t` to `bits` bits.
abbrev pub cast : ℕ → Bool × ℕ → ℕ
cast bits (negative, n) = if negative then (2 ^ bits - n % 2 ^ bits) % 2 ^ bits else n % 2 ^ bits

abbrev pub new_field : FieldDef
new_field = record {
  name = [];
  type = int32;
  is_array = false;
  nullable = true;
  is_pk = false;
  is_index = false;
  field_id = 0;
  fixed_off = 0;
  index_type = no_index;
}

abbrev pub parsed_or : {A : Type 0} → JsonError → Option A → Text → Scan A
parsed_or e none rest = fault e
parsed_or e (some a) rest = done a rest

-- One member of a field: the field, and the primary key that `is_pk` may name.
pub load_member : Text → FieldDef → Text → Text → Scan (FieldDef × Text)
load_member key f pk text =
    if text_eq key name_key
    then and_then (parse_string text) (λ v. done (record f { name = v }, pk))
    else if text_eq key data_type_key || text_eq key type_key
    then and_then (parse_string text) (λ v t.
      and_then (parsed_or (unknown_data_type v) (parse_data_type v) t)
        (λ x. done (record f { type = x }, pk)))
    else if text_eq key is_array_key || text_eq key repeated_key
    then and_then (parse_bool text) (λ v. done (record f { is_array = v }, pk))
    else if text_eq key nullable_key
    then and_then (parse_bool text) (λ v. done (record f { nullable = v }, pk))
    else if text_eq key is_pk_key
    then and_then (parse_bool text) (λ v. done (record f { is_pk = v }, if v then f.name else pk))
    else if text_eq key is_index_key
    then and_then (parse_bool text) (λ v. done (record f { is_index = v }, pk))
    else if text_eq key field_id_key
    then and_then (parse_int64 text) (λ v. done (record f { field_id = cast 16 v }, pk))
    else if text_eq key field_offset_key || text_eq key fixed_off_key
    then and_then (parse_int64 text) (λ v. done (record f { fixed_off = cast 32 v }, pk))
    else if text_eq key index_type_key
    then and_then (parse_string text) (λ v t.
      and_then (parsed_or (unknown_index_type v) (parse_index_type v) t)
        (λ x. done (record f { index_type = x }, pk)))
    else and_then (skip_value text) (λ u. done (f, pk))

-- The key of a member and the colon behind it.
pub load_key : Bool → Text → Scan Text
load_key first text =
    and_then (comma first text)
      (λ u t. and_then (parse_string t) (λ key t₁. and_then (expect 58 t₁) (λ v. done key)))

pub load_members : ℕ → Bool → FieldDef → Text → Text → Scan (FieldDef × Text)
load_members zero first f pk text = fault out_of_fuel
load_members (suc n) first f pk text =
    let t = skip_ws text in
    if starts 125 t
    then done (f, pk) (behind t)
    else and_then (load_key first t)
        (λ key t₁. and_then (load_member key f pk t₁) (λ r t₂. load_members n false r.0 r.1 t₂))

-- What the loads change: the fields so far, `max_field_id_` and the primary key.
pub record Loaded : Type 0 where
  pub fields : List FieldDef
  pub max_field_id : ℕ
  pub pk : Text

abbrev pub is_empty : {A : Type 0} → List A → Bool
is_empty [] = true
is_empty (x ∷ xs) = false

-- A field without an id gets the next one, unless it is the first.
pub push_field : FieldDef → Text → Loaded → Loaded
push_field f pk s =
    let id =
      if f.field_id == 0 && not (is_empty s.fields)
      then (s.max_field_id + 1) % 2 ^ 16
      else f.field_id in
    record {
      fields = s.fields ++ (record f { field_id = id } ∷ []);
      max_field_id = if ltb s.max_field_id id then id else s.max_field_id;
      pk = pk;
    }

pub load_fields : ℕ → Bool → Loaded → Text → Scan Loaded
load_fields zero first s text = fault out_of_fuel
load_fields (suc n) first s text =
    let t = skip_ws text in
    if starts 93 t
    then done s (behind t)
    else and_then (comma first t) (λ u t₁. and_then (expect 123 t₁) (λ v t₂.
      and_then (load_members (suc (length t₂)) true new_field s.pk t₂)
        (λ r t₃. load_fields n false (push_field r.0 r.1 s) t₃)))

-- The members of the schema, with the fields in `loaded`.
pub record Draft : Type 0 where
  pub draft : Schema
  pub max_id : ℕ

abbrev pub loaded_of : Draft → Loaded
loaded_of d = record { fields = d.draft.fields; max_field_id = d.max_id; pk = d.draft.pk }

abbrev pub with_loaded : Draft → Loaded → Draft
with_loaded d s = record {
  draft = record (d.draft) { fields = s.fields; pk = s.pk };
  max_id = s.max_field_id;
}

pub load_entry : Text → Draft → Text → Scan Draft
load_entry key d text =
    if text_eq key table_name_key
    then and_then (parse_string text)
        (λ v. done (record d { draft = record (d.draft) { table_name = v } }))
    else if text_eq key schema_version_key || text_eq key version_key
    then and_then (parse_int64 text)
        (λ v. done (record d { draft = record (d.draft) { version = v } }))
    else if text_eq key table_format_key
    then and_then (parse_string text) (λ v t.
      and_then (parsed_or (unknown_table_format v) (parse_table_format v) t)
        (λ x. done (record d { draft = record (d.draft) { format = x } })))
    else if text_eq key pk_key
    then and_then (parse_string text) (λ v. done (record d { draft = record (d.draft) { pk = v } }))
    else if text_eq key fields_key
    then and_then (expect 91 text) (λ u t.
      and_then (load_fields (suc (length t)) true (loaded_of d) t) (λ s. done (with_loaded d s)))
    else and_then (skip_value text) (λ u. done d)

pub load_entries : ℕ → Bool → Draft → Text → Scan Draft
load_entries zero first d text = fault out_of_fuel
load_entries (suc n) first d text =
    let t = skip_ws text in
    if starts 125 t
    then done d (behind t)
    else and_then (load_key first t)
        (λ key t₁. and_then (load_entry key d t₁) (λ r t₂. load_entries n false r t₂))

abbrev pub cleared : ℕ → Draft
cleared max_id = record {
  draft = record {
    table_name = [];
    version = (false, 0);
    format = sparse_row_binary;
    pk = [];
    fields = [];
  };
  max_id = max_id;
}

-- The greatest id, as `RebuildMaps` finds it from 0.
abbrev pub greatest_id : ℕ → List FieldDef → ℕ
greatest_id m [] = m
greatest_id m (f ∷ fs) = greatest_id (if ltb m f.field_id then f.field_id else m) fs

abbrev pub checked : Draft → Text → Scan Draft
checked d rest =
    let rebuilt = record d { max_id = greatest_id 0 d.draft.fields } in
    if is_empty d.draft.pk then fault pk_required else done rebuilt rest

-- `LoadJson` on an object whose `max_field_id_` is the first argument: it is not cleared. Text
-- behind the closing brace is passed over.
pub load_json : ℕ → Text → Scan Draft
load_json max_id text =
    and_then (expect 123 text)
      (λ u t. and_then (load_entries (suc (length t)) true (cleared max_id) t) checked)

abbrev pub print_string : Text → Text → Text
print_string v rest = 34 ∷ (v ++ (34 ∷ rest))

abbrev pub print_key : Bool → Text → Text → Text
print_key true key rest = print_string key (58 ∷ rest)
print_key false key rest = 44 ∷ print_string key (58 ∷ rest)

abbrev pub print_bool : Bool → Text → Text
print_bool true rest = 116 ∷ 114 ∷ 117 ∷ 101 ∷ rest
print_bool false rest = 102 ∷ 97 ∷ 108 ∷ 115 ∷ 101 ∷ rest

pub print_field : FieldDef → Text → Text
print_field f rest =
    123
    ∷ print_key true name_key (
        print_string f.name (
          print_key false data_type_key (
            print_string (data_type_name f.type) (
              print_key false is_array_key (
                print_bool f.is_array (
                  print_key false nullable_key (
                    print_bool f.nullable (
                      print_key false is_pk_key (
                        print_bool f.is_pk (
                          print_key false is_index_key (
                            print_bool f.is_index (
                              print_key false field_id_key (
                                decimal f.field_id
                                ++ print_key false fixed_off_key (
                                    decimal f.fixed_off
                                    ++ print_key false index_type_key (
                                        print_string (index_type_name f.index_type)
                                          (125 ∷ rest))))))))))))))))

pub print_fields : Bool → List FieldDef → Text → Text
print_fields first [] rest = rest
print_fields true (f ∷ fs) rest = print_field f (print_fields false fs rest)
print_fields false (f ∷ fs) rest = 44 ∷ print_field f (print_fields false fs rest)

pub to_json : Schema → Text
to_json s =
    123
    ∷ print_key true table_name_key (
        print_string s.table_name (
          print_key false schema_version_key (
            signed_decimal s.version
            ++ print_key false table_format_key (
                print_string (table_format_name s.format) (
                  print_key false pk_key (
                    print_string s.pk (
                      print_key false fields_key
                        (91 ∷ print_fields true s.fields (93 ∷ 125 ∷ [])))))))))
