-- ===== src/Schema.antt =====
-- libs/yikv/schema/schema.h and schema.cc: the schema of a table, the names of its enums, and the
-- lookups by name and by id. A string is the list of its bytes.
pub mod Compile
pub mod Json
pub mod Laws
use yikv.Prelude.{
  ℕ, zero, suc, ◌+◌, Bool, true, false, not, ◌&&◌, ◌||◌, List, [], ◌∷◌, ◌++◌, Option, none, some,
  ltb, ◌==◌, if◌then◌else◌,
}
use yikv.Index.Text.{Text, text_eq}
use yikv.Index.Store.{DataType, bool, int32, int64, float32, float64, string, bytes}

pub data IndexType : Type 0 where
  no_index : IndexType
  kv : IndexType
  inverted : IndexType
  vector : IndexType

pub data TableFormat : Type 0 where
  json : TableFormat
  fixed_row_binary : TableFormat
  sparse_row_binary : TableFormat

pub record FieldDef : Type 0 where
  pub name : Text
  pub type : DataType
  pub is_array : Bool
  pub nullable : Bool
  pub is_pk : Bool
  pub is_index : Bool
  pub field_id : ℕ
  pub fixed_off : ℕ
  pub index_type : IndexType

pub record Schema : Type 0 where
  pub table_name : Text
  pub version : Bool × ℕ
  pub format : TableFormat
  pub pk : Text
  pub fields : List FieldDef

-- The names, as bytes.
abbrev pub data_type_name : DataType → Text
data_type_name bool = 98 ∷ 111 ∷ 111 ∷ 108 ∷ []
data_type_name int32 = 105 ∷ 110 ∷ 116 ∷ 51 ∷ 50 ∷ []
data_type_name int64 = 105 ∷ 110 ∷ 116 ∷ 54 ∷ 52 ∷ []
data_type_name float32 = 102 ∷ 108 ∷ 111 ∷ 97 ∷ 116 ∷ 51 ∷ 50 ∷ []
data_type_name float64 = 102 ∷ 108 ∷ 111 ∷ 97 ∷ 116 ∷ 54 ∷ 52 ∷ []
data_type_name string = 115 ∷ 116 ∷ 114 ∷ 105 ∷ 110 ∷ 103 ∷ []
data_type_name bytes = 98 ∷ 121 ∷ 116 ∷ 101 ∷ 115 ∷ []

-- `float` and `double`
abbrev float_name : Text
float_name = 102 ∷ 108 ∷ 111 ∷ 97 ∷ 116 ∷ []

abbrev double_name : Text
double_name = 100 ∷ 111 ∷ 117 ∷ 98 ∷ 108 ∷ 101 ∷ []

pub parse_data_type : Text → Option DataType
parse_data_type name =
    if text_eq name (data_type_name bool)
    then some bool
    else if text_eq name (data_type_name int32)
    then some int32
    else if text_eq name (data_type_name int64)
    then some int64
    else if text_eq name float_name || text_eq name (data_type_name float32)
    then some float32
    else if text_eq name double_name || text_eq name (data_type_name float64)
    then some float64
    else if text_eq name (data_type_name string)
    then some string
    else if text_eq name (data_type_name bytes)
    then some bytes
    else none

abbrev pub index_type_name : IndexType → Text
index_type_name no_index = 110 ∷ 111 ∷ 110 ∷ 101 ∷ []
index_type_name kv = 107 ∷ 118 ∷ []
index_type_name inverted = 105 ∷ 110 ∷ 118 ∷ 101 ∷ 114 ∷ 116 ∷ 101 ∷ 100 ∷ []
index_type_name vector = 118 ∷ 101 ∷ 99 ∷ 116 ∷ 111 ∷ 114 ∷ []

pub parse_index_type : Text → Option IndexType
parse_index_type name =
    if text_eq name (index_type_name no_index)
    then some no_index
    else if text_eq name (index_type_name kv)
    then some kv
    else if text_eq name (index_type_name inverted)
    then some inverted
    else if text_eq name (index_type_name vector)
    then some vector
    else none

abbrev pub table_format_name : TableFormat → Text
table_format_name json = 106 ∷ 115 ∷ 111 ∷ 110 ∷ []
table_format_name fixed_row_binary =
    102 ∷ 105 ∷ 120 ∷ 101 ∷ 100 ∷ 95 ∷ 114 ∷ 111 ∷ 119 ∷ 95 ∷ 98 ∷ 105 ∷ 110 ∷ 97 ∷ 114 ∷ 121 ∷ []
table_format_name sparse_row_binary =
    115 ∷ 112 ∷ 97 ∷ 114 ∷ 115 ∷ 101 ∷ 95 ∷ 114 ∷ 111 ∷ 119 ∷ 95 ∷ 98 ∷ 105 ∷ 110 ∷ 97 ∷ 114 ∷ 121
    ∷ []

-- `spare_row_binary`
abbrev spare_name : Text
spare_name =
    115 ∷ 112 ∷ 97 ∷ 114 ∷ 101 ∷ 95 ∷ 114 ∷ 111 ∷ 119 ∷ 95 ∷ 98 ∷ 105 ∷ 110 ∷ 97 ∷ 114 ∷ 121 ∷ []

pub parse_table_format : Text → Option TableFormat
parse_table_format name =
    if text_eq name (table_format_name json)
    then some json
    else if text_eq name (table_format_name fixed_row_binary)
    then some fixed_row_binary
    else if text_eq name (table_format_name sparse_row_binary) || text_eq name spare_name
    then some sparse_row_binary
    else none

abbrev pub is_fixed_type : DataType → Bool
is_fixed_type bool = true
is_fixed_type int32 = true
is_fixed_type int64 = true
is_fixed_type float32 = true
is_fixed_type float64 = true
is_fixed_type string = false
is_fixed_type bytes = false

abbrev pub fixed_type_size : DataType → ℕ
fixed_type_size bool = 1
fixed_type_size int32 = 4
fixed_type_size int64 = 8
fixed_type_size float32 = 4
fixed_type_size float64 = 8
fixed_type_size string = 0
fixed_type_size bytes = 0

-- The maps of `RebuildMaps`: a later field takes the place of an earlier one under the same key.
pub find_field : Text → List FieldDef → Option FieldDef
find_field name [] = none
find_field name (f ∷ fs) =
    let later = find_field name fs in
    elim later [ some g ↦ some g | none ↦ if text_eq f.name name then some f else none ]

pub find_field_by_id : ℕ → List FieldDef → Option FieldDef
find_field_by_id id [] = none
find_field_by_id id (f ∷ fs) =
    let later = find_field_by_id id fs in
    elim later [ some g ↦ some g | none ↦ if f.field_id == id then some f else none ]
