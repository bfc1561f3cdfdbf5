-- ===== src/Schema/Compile.antt =====
-- schema.cc: `Schema::Compile`. The ids of the fields are 16-bit numbers and no two may be the same,
-- so there are 65536 layouts at most, and no slot or offset overflows.
pub mod Placement
pub mod Laws
mod Tests
use yikv.Prelude.{
  ℕ, zero, suc, ◌+◌, ◌*◌, ◌/◌, ◌%◌, Bool, true, false, not, ◌&&◌, ◌||◌, List, [], ◌∷◌, Option, none,
  some, ◌==◌, if◌then◌else◌,
}
use yikv.Sorted.{mem}
use yikv.Index.Text.{Text, text_eq, elem}
use yikv.Index.Store.{DataType}
use yikv.Schema.{FieldDef, Schema, is_fixed_type, fixed_type_size}

pub record FieldLayout : Type 0 where
  pub field_id : ℕ
  pub type : DataType
  pub is_array : Bool
  pub is_fixed_scalar : Bool
  pub file_fixed_off : ℕ
  pub file_var_idx : ℕ
  pub mem_chunk_idx : ℕ
  pub mem_chunk_off : ℕ
  pub mem_var_idx : ℕ
  pub elem_size : ℕ

pub record CompiledSchema : Type 0 where
  pub n_fixed : ℕ
  pub n_var : ℕ
  pub pk_field_id : ℕ
  pub fixed_payload_bytes : ℕ
  pub mem_n_fixed_chunks : ℕ
  pub mem_n_var_slots : ℕ
  pub layouts : List FieldLayout

-- The errors, with what they name.
pub data CompileError : Type 0 where
  pk_not_found : Text → CompileError
  duplicate_name : Text → CompileError
  duplicate_id : ℕ → CompileError

pub data Result (A : Type 0) : Type 0 where
  ok : A → Result A
  failed : CompileError → Result A

-- The first field under the name of the primary key.
pub pk_index : Text → List FieldDef → Option ℕ
pk_index pk [] = none
pk_index pk (f ∷ fs) =
    let later = pk_index pk fs in
    if text_eq f.name pk then some 0 else elim later [ none ↦ none | some i ↦ some (suc i) ]

abbrev pub is_fixed_scalar : FieldDef → Bool
is_fixed_scalar f = not f.is_array && is_fixed_type f.type

-- The layout of a field, with the next slots of both kinds.
abbrev pub field_layout : FieldDef → ℕ → ℕ → FieldLayout
field_layout f fixed_slot var_slot =
    let fixed = is_fixed_scalar f in
    record {
      field_id = f.field_id;
      type = f.type;
      is_array = f.is_array;
      is_fixed_scalar = fixed;
      file_fixed_off = if fixed then fixed_slot * 8 else 0;
      file_var_idx = if fixed then 0 else var_slot;
      mem_chunk_idx = if fixed then fixed_slot / 8 else 0;
      mem_chunk_off = if fixed then fixed_slot % 8 * 8 else 0;
      mem_var_idx = if fixed then 0 else var_slot;
      elem_size = if f.is_array && is_fixed_type f.type then fixed_type_size f.type else 0;
    }

-- What the loop leaves: the layouts, and the next slots of both kinds.
pub record Slots : Type 0 where
  pub laid : List FieldLayout
  pub fixed_slot : ℕ
  pub var_slot : ℕ

pub with_layout : FieldLayout → Result Slots → Result Slots
with_layout l (ok s) = ok (record s { laid = l ∷ s.laid })
with_layout l (failed e) = failed e

pub lay_out : List Text → List ℕ → ℕ → ℕ → List FieldDef → Result Slots
unfolding with_layout
lay_out seen_names seen_ids fixed_slot var_slot [] =
    ok (record { laid = []; fixed_slot = fixed_slot; var_slot = var_slot })
lay_out seen_names seen_ids fixed_slot var_slot (f ∷ fs) =
    let fixed = is_fixed_scalar f in
    let rest =
      lay_out (f.name ∷ seen_names) (f.field_id ∷ seen_ids)
        (if fixed then fixed_slot + 1 else fixed_slot) (if fixed then var_slot else var_slot + 1)
        fs in
    if elem f.name seen_names
    then failed (duplicate_name f.name)
    else if mem f.field_id seen_ids
    then failed (duplicate_id f.field_id)
    else with_layout (field_layout f fixed_slot var_slot) rest

pub compiled_schema : ℕ → Slots → CompiledSchema
compiled_schema pk_field_id s = record {
  n_fixed = s.fixed_slot;
  n_var = s.var_slot;
  pk_field_id = pk_field_id;
  fixed_payload_bytes = s.fixed_slot * 8;
  mem_n_fixed_chunks = if s.fixed_slot == 0 then 0 else (s.fixed_slot + 7) / 8;
  mem_n_var_slots = s.var_slot;
  layouts = s.laid;
}

pub compile : Schema → Result CompiledSchema
unfolding pk_index lay_out compiled_schema
compile schema = elim (pk_index schema.pk schema.fields) [
  | none ↦ failed (pk_not_found schema.pk)
  | some i ↦ elim (lay_out [] [] 0 0 schema.fields) [
    | failed e ↦ failed e
    | ok s ↦ ok (compiled_schema i s)
  ]
]
