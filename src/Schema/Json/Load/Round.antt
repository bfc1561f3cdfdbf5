-- ===== src/Schema/Json/Load/Round.antt =====
-- The round trip of `ToJson` and `LoadJson`.
use yikv.Prelude.{
  ℕ, suc, ◌^◌, ◌≤◌, ◌<◌, ◌≡◌, refl, ap, ◌∙◌, Bool, true, false, List, [], ◌∷◌, ◌++◌, arith, length,
}
use yikv.Index.Text.{Text, signed_decimal}
use yikv.Schema.{
  FieldDef, Schema, TableFormat, json, fixed_row_binary, sparse_row_binary, table_format_name,
  parse_table_format,
}
use yikv.Schema.Laws.{parse-table_format_name}
use yikv.Schema.Json.{done, and_then, unknown_table_format, skip_from, skip_ws, expect, parse_int64}
use yikv.Schema.Json.Laws.{is_plain, parse_string-plain, parse_int64-decimal, parse_int64-minus}
use yikv.Schema.Json.Load.{
  parsed_or, is_empty, Draft, loaded_of, with_loaded, load_entry, load_entries, cleared,
  greatest_id, checked, load_json, print_string, print_key, print_field, print_fields, to_json,
}
use yikv.Schema.Json.Keys.{table_name_key, schema_version_key, table_format_key, pk_key, fields_key}
use yikv.Schema.Json.Load.Members.{length-members_text, load_key-print}
use yikv.Schema.Json.Load.Laws.{ArePrintable, load_fields-print}

length-print_fields :
    (first : Bool) (fs : List FieldDef) (rest : Text)
    → length fs ≤ length (print_fields first fs rest)
unfolding print_fields print_field
length-print_fields first [] rest = omega arith
length-print_fields true (f ∷ fs) rest =
    let later = length-print_fields false fs rest in
    let here = length-members_text f (print_fields false fs rest) in omega arith
length-print_fields false (f ∷ fs) rest =
    let later = length-print_fields false fs rest in
    let here = length-members_text f (print_fields false fs rest) in omega arith

load_entries-print :
    (n : ℕ) (first : Bool) (key text rest : Text) (d d' : Draft)
    → is_plain key ≡ true
    → load_entry key d text ≡ done d' rest
    → load_entries (suc n) first d (print_key first key text) ≡ load_entries n false d' rest
unfolding load_entries skip_ws skip_from
load_entries-print n true key text rest d d' h e = rw (load_key-print true key text h, e) refl
load_entries-print n false key text rest d d' h e = rw (load_key-print false key text h, e) refl

load_entries-end : (n : ℕ) (d : Draft) → load_entries (suc n) false d (125 ∷ []) ≡ done d []
unfolding load_entries skip_ws skip_from
load_entries-end n d = refl

table_format_name-plain : (x : TableFormat) → is_plain (table_format_name x) ≡ true
table_format_name-plain json = refl
table_format_name-plain fixed_row_binary = refl
table_format_name-plain sparse_row_binary = refl

-- A sign is printed only before a number that is not 0.
abbrev pub IsCanonical : Bool × ℕ → Type 0
IsCanonical (negative, n) = negative ≡ true → 0 < n

parse_int64-signed :
    (v : Bool × ℕ) (rest : Text)
    → IsCanonical v
    → parse_int64 (signed_decimal v ++ (44 ∷ rest)) ≡ done v (44 ∷ rest)
parse_int64-signed (true, n) rest h = parse_int64-minus n 44 rest refl (h refl)
parse_int64-signed (false, n) rest h = parse_int64-decimal n 44 rest refl

-- The values of the entries.
module _ (d : Draft) (rest : Text) where
  load-table_name :
      (v : Text)
      → is_plain v ≡ true
      → load_entry table_name_key d (print_string v rest)
        ≡ done (record d { draft = record (d.draft) { table_name = v } }) rest
  unfolding load_entry
  load-table_name v h =
      ap (λ p. and_then p (λ x. done (record d { draft = record (d.draft) { table_name = x } })))
        (parse_string-plain v rest h)

  load-version :
      (v : Bool × ℕ)
      → IsCanonical v
      → load_entry schema_version_key d (signed_decimal v ++ (44 ∷ rest))
        ≡ done (record d { draft = record (d.draft) { version = v } }) (44 ∷ rest)
  unfolding load_entry
  load-version v h =
      ap (λ p. and_then p (λ x. done (record d { draft = record (d.draft) { version = x } })))
        (parse_int64-signed v rest h)

  load-format :
      (x : TableFormat)
      → load_entry table_format_key d (print_string (table_format_name x) rest)
        ≡ done (record d { draft = record (d.draft) { format = x } }) rest
  unfolding load_entry
  load-format x =
      ap
        (λ p. and_then p (λ v t.
          and_then (parsed_or (unknown_table_format v) (parse_table_format v) t)
            (λ y. done (record d { draft = record (d.draft) { format = y } }))))
        (parse_string-plain (table_format_name x) rest (table_format_name-plain x))
      ∙ rw (parse-table_format_name x) refl

  load-pk :
      (v : Text)
      → is_plain v ≡ true
      → load_entry pk_key d (print_string v rest)
        ≡ done (record d { draft = record (d.draft) { pk = v } }) rest
  unfolding load_entry
  load-pk v h =
      ap (λ p. and_then p (λ x. done (record d { draft = record (d.draft) { pk = x } })))
        (parse_string-plain v rest h)

  load-fields :
      (fs : List FieldDef)
      → ArePrintable d.draft.pk fs
      → (m : ℕ) × (load_entry fields_key d (91 ∷ print_fields true fs (93 ∷ rest))
          ≡ done
              (record { draft = record (d.draft) { fields = d.draft.fields ++ fs }; max_id = m })
              rest)
  unfolding load_entry expect skip_ws skip_from
  load-fields fs p =
      let t = print_fields true fs (93 ∷ rest) in
      let short = length-print_fields true fs (93 ∷ rest) in
      let (m, e) = load_fields-print (suc (length t)) true fs (loaded_of d) rest (omega arith) p in
      (m, ap (λ x. and_then x (λ s. done (with_loaded d s))) e)

-- The schemas that can be printed: names without a quote or a backslash, a primary key, a version
-- whose magnitude the scanner reads without overflow, fields with ids of 16 bits and offsets of 32.
pub record IsPrintableSchema (s : Schema) : Type 0 where
  pub table_plain : is_plain s.table_name ≡ true
  pub pk_plain : is_plain s.pk ≡ true
  pub pk_given : is_empty s.pk ≡ false
  pub canonical : IsCanonical s.version
  pub version_small : s.version.1 < 2 ^ 63
  pub printable : ArePrintable s.pk s.fields

-- If the names of a schema hold no quote and no backslash, a primary key is named, no other
-- field is marked as the key, the version is canonical and within 63 bits, and every field has
-- an id of 16 bits other than 0 and an offset of 32 bits, then LoadJson of what ToJson prints
-- succeeds, returns that schema, reads the text to its end, and leaves the greatest field id as
-- max_field_id_, whatever that was before.
pub load_json-to_json :
    (max_id : ℕ) (s : Schema)
    → IsPrintableSchema s
    → load_json max_id (to_json s) ≡ done (record { draft = s; max_id = greatest_id 0 s.fields }) []
unfolding load_json to_json expect skip_ws skip_from
load_json-to_json max_id s p =
    let d₀ = cleared max_id in
    let d₁ = record d₀ { draft = record (d₀.draft) { table_name = s.table_name } } in
    let d₂ = record d₁ { draft = record (d₁.draft) { version = s.version } } in
    let d₃ = record d₂ { draft = record (d₂.draft) { format = s.format } } in
    let d₄ = record d₃ { draft = record (d₃.draft) { pk = s.pk } } in
    let (m, e) = load-fields d₄ (125 ∷ []) s.fields p.printable in
    let d₅ : Draft = record { draft = s; max_id = m } in
    let read =
      load_entries-print _ true table_name_key _ _ d₀ d₁ refl
        (load-table_name d₀ _ s.table_name p.table_plain)
      ∙ (load_entries-print _ false schema_version_key _ _ d₁ d₂ refl
            (load-version d₁ _ s.version p.canonical)
          ∙ (load_entries-print _ false table_format_key _ _ d₂ d₃ refl (load-format d₂ _ s.format)
              ∙ (load_entries-print _ false pk_key _ _ d₃ d₄ refl (load-pk d₃ _ s.pk p.pk_plain)
                  ∙ (load_entries-print _ false fields_key _ _ d₄ d₅ refl e
                      ∙ load_entries-end _ d₅)))) in
    ap (λ x. and_then x checked) read ∙ rw (p.pk_given) refl
