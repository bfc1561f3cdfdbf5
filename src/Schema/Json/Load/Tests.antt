-- ===== src/Schema/Json/Load/Tests.antt =====
-- A schema with two fields, printed and loaded again.
use yikv.Prelude.{◌≡◌, refl, true, false, [], ◌∷◌, arith}
use yikv.Index.Store.{int64, string}
use yikv.Schema.{FieldDef, Schema, sparse_row_binary, no_index, inverted}
use yikv.Schema.Json.{done}
use yikv.Schema.Json.Load.{greatest_id, load_json, to_json}
use yikv.Schema.Json.Reads.{Reads}
use yikv.Schema.Json.Load.Ends.{load_json-Reads}
use yikv.Schema.Json.Load.Members.{IsPrintable}
use yikv.Schema.Json.Load.Round.{IsPrintableSchema, load_json-to_json}

abbrev id_field : FieldDef
id_field = record {
  name = 105 ∷ 100 ∷ [];
  type = int64;
  is_array = false;
  nullable = false;
  is_pk = true;
  is_index = false;
  field_id = 1;
  fixed_off = 0;
  index_type = no_index;
}

abbrev tag_field : FieldDef
tag_field = record {
  name = 116 ∷ 97 ∷ 103 ∷ [];
  type = string;
  is_array = true;
  nullable = true;
  is_pk = false;
  is_index = true;
  field_id = 70;
  fixed_off = 8;
  index_type = inverted;
}

abbrev items : Schema
items = record {
  table_name = 105 ∷ 116 ∷ [];
  version = (true, 12);
  format = sparse_row_binary;
  pk = 105 ∷ 100 ∷ [];
  fields = id_field ∷ tag_field ∷ [];
}

id_field-IsPrintable : IsPrintable items.pk id_field
id_field-IsPrintable = record {
  name_plain = refl;
  key_named = refl;
  id_small = omega arith;
  off_small = omega arith;
}

tag_field-IsPrintable : IsPrintable items.pk tag_field
tag_field-IsPrintable = record {
  name_plain = refl;
  key_named = refl;
  id_small = omega arith;
  off_small = omega arith;
}

items-IsPrintableSchema : IsPrintableSchema items
items-IsPrintableSchema = record {
  table_plain = refl;
  pk_plain = refl;
  pk_given = refl;
  canonical = λ h. omega arith;
  version_small = omega arith;
  printable = (id_field-IsPrintable, omega arith, (tag_field-IsPrintable, omega arith, tt));
}

load_json-to_json_example :
    load_json 9 (to_json items)
    ≡ done (record { draft = items; max_id = greatest_id 0 items.fields }) []
load_json-to_json_example = load_json-to_json 9 items items-IsPrintableSchema

-- A text that ends in the middle.
load_json-Reads_example : Reads 5 (load_json 0 (123 ∷ 34 ∷ 112 ∷ 107 ∷ 34 ∷ []))
load_json-Reads_example = load_json-Reads 0 (123 ∷ 34 ∷ 112 ∷ 107 ∷ 34 ∷ [])
