-- ===== src/Schema/Json/Keys.antt =====
-- schema.cc: the keys of a schema in JSON, as bytes.
use yikv.Prelude.{[], ◌∷◌}
use yikv.Index.Text.{Text}

abbrev pub table_name_key : Text
table_name_key = 116 ∷ 97 ∷ 98 ∷ 108 ∷ 101 ∷ 95 ∷ 110 ∷ 97 ∷ 109 ∷ 101 ∷ []

abbrev pub schema_version_key : Text
schema_version_key =
    115 ∷ 99 ∷ 104 ∷ 101 ∷ 109 ∷ 97 ∷ 95 ∷ 118 ∷ 101 ∷ 114 ∷ 115 ∷ 105 ∷ 111 ∷ 110 ∷ []

abbrev pub version_key : Text
version_key = 118 ∷ 101 ∷ 114 ∷ 115 ∷ 105 ∷ 111 ∷ 110 ∷ []

abbrev pub table_format_key : Text
table_format_key = 116 ∷ 97 ∷ 98 ∷ 108 ∷ 101 ∷ 95 ∷ 102 ∷ 111 ∷ 114 ∷ 109 ∷ 97 ∷ 116 ∷ []

abbrev pub pk_key : Text
pk_key = 112 ∷ 107 ∷ []

abbrev pub fields_key : Text
fields_key = 102 ∷ 105 ∷ 101 ∷ 108 ∷ 100 ∷ 115 ∷ []

abbrev pub name_key : Text
name_key = 110 ∷ 97 ∷ 109 ∷ 101 ∷ []

abbrev pub data_type_key : Text
data_type_key = 100 ∷ 97 ∷ 116 ∷ 97 ∷ 95 ∷ 116 ∷ 121 ∷ 112 ∷ 101 ∷ []

abbrev pub type_key : Text
type_key = 116 ∷ 121 ∷ 112 ∷ 101 ∷ []

abbrev pub is_array_key : Text
is_array_key = 105 ∷ 115 ∷ 95 ∷ 97 ∷ 114 ∷ 114 ∷ 97 ∷ 121 ∷ []

abbrev pub repeated_key : Text
repeated_key = 114 ∷ 101 ∷ 112 ∷ 101 ∷ 97 ∷ 116 ∷ 101 ∷ 100 ∷ []

abbrev pub nullable_key : Text
nullable_key = 110 ∷ 117 ∷ 108 ∷ 108 ∷ 97 ∷ 98 ∷ 108 ∷ 101 ∷ []

abbrev pub is_pk_key : Text
is_pk_key = 105 ∷ 115 ∷ 95 ∷ 112 ∷ 107 ∷ []

abbrev pub is_index_key : Text
is_index_key = 105 ∷ 115 ∷ 95 ∷ 105 ∷ 110 ∷ 100 ∷ 101 ∷ 120 ∷ []

abbrev pub field_id_key : Text
field_id_key = 102 ∷ 105 ∷ 101 ∷ 108 ∷ 100 ∷ 95 ∷ 105 ∷ 100 ∷ []

abbrev pub field_offset_key : Text
field_offset_key = 102 ∷ 105 ∷ 101 ∷ 108 ∷ 100 ∷ 95 ∷ 111 ∷ 102 ∷ 102 ∷ 115 ∷ 101 ∷ 116 ∷ []

abbrev pub fixed_off_key : Text
fixed_off_key = 102 ∷ 105 ∷ 120 ∷ 101 ∷ 100 ∷ 95 ∷ 111 ∷ 102 ∷ 102 ∷ []

abbrev pub index_type_key : Text
index_type_key = 105 ∷ 110 ∷ 100 ∷ 101 ∷ 120 ∷ 95 ∷ 116 ∷ 121 ∷ 112 ∷ 101 ∷ []
