-- ===== src/Schema/Compile/Tests.antt =====
-- A schema of a key, a number and an array, and one with an id twice.
use yikv.Prelude.{ℕ, ◌≡◌, refl, true, false, [], ◌∷◌, some}
use yikv.Index.Text.{Text}
use yikv.Index.Store.{DataType, int64, float32}
use yikv.Schema.{FieldDef, Schema, no_index, sparse_row_binary, find_field, find_field_by_id}
use yikv.Schema.Compile.{
  CompiledSchema, ok, failed, duplicate_id, pk_not_found, pk_index, lay_out, with_layout,
  compiled_schema, compile,
}
use yikv.Schema.Compile.Laws.{IsWellFormed, IsCompiled, compile-IsCompiled, compile-IsWellFormed}
use yikv.Schema.Laws.{find_field-compile}

abbrev field : Text → DataType → ℕ → FieldDef
field name type id = record {
  name = name;
  type = type;
  is_array = false;
  nullable = true;
  is_pk = false;
  is_index = false;
  field_id = id;
  fixed_off = 0;
  index_type = no_index;
}

abbrev users : Schema
users = record {
  table_name = 117 ∷ [];
  version = (false, 1);
  format = sparse_row_binary;
  pk = 97 ∷ [];
  fields =
      field (97 ∷ []) int64 1
      ∷ field (98 ∷ []) float32 2
      ∷ record (field (99 ∷ []) float32 3) { is_array = true }
      ∷ [];
}

abbrev users_compiled : CompiledSchema
users_compiled = elim (compile users) [
  | ok c ↦ c
  | failed e ↦ compiled_schema 0 (record { laid = []; fixed_slot = 0; var_slot = 0 })
]

compile-users : compile users ≡ ok users_compiled
unfolding compile pk_index lay_out with_layout
compile-users = refl

users-IsWellFormed : IsWellFormed users
users-IsWellFormed = compile-IsWellFormed users users_compiled compile-users

compile-IsWellFormed_example : IsWellFormed users
compile-IsWellFormed_example = compile-IsWellFormed users users_compiled compile-users

compile-IsCompiled_example : (c : CompiledSchema) × (compile users ≡ ok c) × IsCompiled users c
compile-IsCompiled_example = compile-IsCompiled users users-IsWellFormed

find_field_of_compiled :
    (find_field (98 ∷ []) users.fields ≡ some (field (98 ∷ []) float32 2))
    × (find_field_by_id 2 users.fields ≡ some (field (98 ∷ []) float32 2))
find_field_of_compiled =
    find_field-compile users users_compiled 1 (field (98 ∷ []) float32 2) compile-users refl

twice :
    compile (record users { fields = field (97 ∷ []) int64 1 ∷ field (98 ∷ []) int64 1 ∷ [] })
    ≡ failed (duplicate_id 1)
unfolding compile pk_index lay_out with_layout
twice = refl

keyless : compile (record users { pk = 120 ∷ [] }) ≡ failed (pk_not_found (120 ∷ []))
unfolding compile pk_index
keyless = refl
