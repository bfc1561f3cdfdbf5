-- ===== src/Schema/Json/Load/Ends.antt =====
-- `LoadJson` ends on every text: no loop of it runs out of its fuel.
use yikv.Prelude.{
  ℕ, zero, suc, ◌<◌, ◌≡◌, refl, inl, inr, Bool, true, false, ◌||◌, Option, none, some, arith,
  length, Bool-cases,
}
use yikv.Index.Text.{Text, text_eq}
use yikv.Schema.{FieldDef, parse_data_type, parse_index_type, parse_table_format}
use yikv.Schema.Json.{
  JsonError, unknown_table_format, unknown_data_type, unknown_index_type, Scan, done, and_then,
  starts, skip_ws, comma, expect, parse_string, parse_bool, parse_int64, skip_value,
}
use yikv.Schema.Json.Reads.{
  is_fuel, Reads, Reads-≤, and_then-Reads, if-Reads, skip_ws-length, behind-length, comma-Reads,
  expect-Reads, parse_string-Reads, parse_bool-Reads, parse_int64-Reads,
}
use yikv.Schema.Json.Skip.{skip_value-Reads}
use yikv.Schema.Json.Load.{
  new_field, parsed_or, is_empty, load_member, load_key, load_members, Loaded, push_field,
  load_fields, Draft, loaded_of, load_entry, load_entries, cleared, checked, load_json,
}
use yikv.Schema.Json.Keys.{
  table_name_key, schema_version_key, version_key, table_format_key, pk_key, fields_key, name_key,
  data_type_key, type_key, is_array_key, repeated_key, nullable_key, is_pk_key, is_index_key,
  field_id_key, field_offset_key, fixed_off_key, index_type_key,
}

parsed_or-Reads :
    {A : Type 0} (n : ℕ) (e : JsonError) (r : Option A) (t : Text)
    → is_fuel e ≡ false
    → length t < n
    → Reads n (parsed_or e r t)
parsed_or-Reads n e none t h l = h
parsed_or-Reads n e (some a) t h l = l

-- A value that is put away.
kept-Reads :
    {A B : Type 0} (n : ℕ) (s : Scan A) (f : A → B)
    → Reads n s
    → Reads n (and_then s (λ a. done (f a)))
kept-Reads n s f h = and_then-Reads n n s (λ a. done (f a)) h (λ a t l. l)

load_member-Reads :
    (key : Text) (f : FieldDef) (pk t : Text) → Reads (length t) (load_member key f pk t)
unfolding load_member
load_member-Reads key f pk t =
    let string = parse_string-Reads t in
    let flag = parse_bool-Reads t in
    let number = parse_int64-Reads t in
    if-Reads _ (text_eq key name_key) _ _ (kept-Reads _ (parse_string t) _ string) (
      if-Reads _ (text_eq key data_type_key || text_eq key type_key) _ _
        (and_then-Reads _ _ (parse_string t) _ string (λ v u l.
          kept-Reads _ (parsed_or (unknown_data_type v) (parse_data_type v) u) _
            (parsed_or-Reads _ _ (parse_data_type v) u refl l)))
        (if-Reads _ (text_eq key is_array_key || text_eq key repeated_key) _ _
          (kept-Reads _ (parse_bool t) _ flag)
          (if-Reads _ (text_eq key nullable_key) _ _ (kept-Reads _ (parse_bool t) _ flag) (
            if-Reads _ (text_eq key is_pk_key) _ _ (kept-Reads _ (parse_bool t) _ flag) (
              if-Reads _ (text_eq key is_index_key) _ _ (kept-Reads _ (parse_bool t) _ flag) (
                if-Reads _ (text_eq key field_id_key) _ _ (kept-Reads _ (parse_int64 t) _ number) (
                  if-Reads _ (text_eq key field_offset_key || text_eq key fixed_off_key) _ _
                    (kept-Reads _ (parse_int64 t) _ number)
                    (if-Reads _ (text_eq key index_type_key) _ _
                      (and_then-Reads _ _ (parse_string t) _ string (λ v u l.
                        kept-Reads _ (parsed_or (unknown_index_type v) (parse_index_type v) u) _
                          (parsed_or-Reads _ _ (parse_index_type v) u refl l)))
                      (kept-Reads _ (skip_value t) _ (skip_value-Reads t))))))))))

load_key-Reads : (first : Bool) (t : Text) → Reads (length t) (load_key first t)
unfolding load_key
load_key-Reads first t = and_then-Reads _ _ (comma first t) _ (comma-Reads first t) (λ u t₁ l₁.
    and_then-Reads _ _ (parse_string t₁) _ (parse_string-Reads t₁) (λ key t₂ l₂.
      and_then-Reads _ _ (expect 58 t₂) _ (expect-Reads 58 t₂) (λ v t₃ l₃. omega arith)))

load_members-Reads :
    (n : ℕ) (first : Bool) (f : FieldDef) (pk t : Text)
    → length t < n
    → Reads (length t) (load_members n first f pk t)
unfolding load_members
load_members-Reads zero first f pk t h = absurd (omega arith)
load_members-Reads (suc n) first f pk t h =
    let l = skip_ws-length t in
    elim (Bool-cases (starts 125 (skip_ws t))) [
      | inl e ↦ let b = behind-length 125 (skip_ws t) e in rw e (omega arith)
      | inr e ↦ rw e (
          and_then-Reads _ _ (load_key first (skip_ws t)) _ (load_key-Reads first (skip_ws t))
            (λ key t₁ l₁.
              and_then-Reads _ _ (load_member key f pk t₁) _ (load_member-Reads key f pk t₁)
                (λ r t₂ l₂.
                  Reads-≤ _ _ (load_members n false r.0 r.1 t₂) (omega arith)
                    (load_members-Reads n false r.0 r.1 t₂ (omega arith)))))
    ]

load_fields-Reads :
    (n : ℕ) (first : Bool) (s : Loaded) (t : Text)
    → length t < n
    → Reads (length t) (load_fields n first s t)
unfolding load_fields
load_fields-Reads zero first s t h = absurd (omega arith)
load_fields-Reads (suc n) first s t h =
    let l = skip_ws-length t in
    elim (Bool-cases (starts 93 (skip_ws t))) [
      | inl e ↦ let b = behind-length 93 (skip_ws t) e in rw e (omega arith)
      | inr e ↦ rw e (
          and_then-Reads _ _ (comma first (skip_ws t)) _ (comma-Reads first (skip_ws t)) (λ u t₁ l₁.
            and_then-Reads _ _ (expect 123 t₁) _ (expect-Reads 123 t₁) (λ v t₂ l₂.
              and_then-Reads _ _ (load_members (suc (length t₂)) true new_field s.pk t₂) _
                (load_members-Reads _ true new_field s.pk t₂ (omega arith))
                (λ r t₃ l₃.
                  Reads-≤ _ _ (load_fields n false (push_field r.0 r.1 s) t₃) (omega arith)
                    (load_fields-Reads n false (push_field r.0 r.1 s) t₃ (omega arith))))))
    ]

load_entry-Reads : (key : Text) (d : Draft) (t : Text) → Reads (length t) (load_entry key d t)
unfolding load_entry
load_entry-Reads key d t =
    let string = parse_string-Reads t in
    if-Reads _ (text_eq key table_name_key) _ _ (kept-Reads _ (parse_string t) _ string) (
      if-Reads _ (text_eq key schema_version_key || text_eq key version_key) _ _
        (kept-Reads _ (parse_int64 t) _ (parse_int64-Reads t))
        (if-Reads _ (text_eq key table_format_key) _ _
          (and_then-Reads _ _ (parse_string t) _ string (λ v u l.
            kept-Reads _ (parsed_or (unknown_table_format v) (parse_table_format v) u) _
              (parsed_or-Reads _ _ (parse_table_format v) u refl l)))
          (if-Reads _ (text_eq key pk_key) _ _ (kept-Reads _ (parse_string t) _ string) (
            if-Reads _ (text_eq key fields_key) _ _
              (and_then-Reads _ _ (expect 91 t) _ (expect-Reads 91 t) (λ v u l.
                kept-Reads _ (load_fields (suc (length u)) true (loaded_of d) u) _ (
                  Reads-≤ _ _ (load_fields (suc (length u)) true (loaded_of d) u) (omega arith)
                    (load_fields-Reads _ true (loaded_of d) u (omega arith)))))
              (kept-Reads _ (skip_value t) _ (skip_value-Reads t))))))

load_entries-Reads :
    (n : ℕ) (first : Bool) (d : Draft) (t : Text)
    → length t < n
    → Reads (length t) (load_entries n first d t)
unfolding load_entries
load_entries-Reads zero first d t h = absurd (omega arith)
load_entries-Reads (suc n) first d t h =
    let l = skip_ws-length t in
    elim (Bool-cases (starts 125 (skip_ws t))) [
      | inl e ↦ let b = behind-length 125 (skip_ws t) e in rw e (omega arith)
      | inr e ↦ rw e (
          and_then-Reads _ _ (load_key first (skip_ws t)) _ (load_key-Reads first (skip_ws t))
            (λ key t₁ l₁.
              and_then-Reads _ _ (load_entry key d t₁) _ (load_entry-Reads key d t₁) (λ r t₂ l₂.
                Reads-≤ _ _ (load_entries n false r t₂) (omega arith)
                  (load_entries-Reads n false r t₂ (omega arith)))))
    ]

-- On any text, LoadJson ends: it returns a schema and has read some of the text, or it returns
-- an error of the text, and none of its loops, nor that of the skipped values, runs out of its
-- fuel.
pub load_json-Reads : (max_id : ℕ) (text : Text) → Reads (length text) (load_json max_id text)
unfolding load_json
load_json-Reads max_id text =
    and_then-Reads _ _ (expect 123 text) _ (expect-Reads 123 text) (λ u t l.
      and_then-Reads _ _ (load_entries (suc (length t)) true (cleared max_id) t) checked
        (load_entries-Reads _ true (cleared max_id) t (omega arith))
        (λ d rest h. if-Reads _ (is_empty d.draft.pk) _ _ refl (omega arith)))
