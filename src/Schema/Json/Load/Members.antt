-- ===== src/Schema/Json/Load/Members.antt =====
-- The members of a field, as they are printed and read back.
use yikv.Prelude.{
  ℕ, suc, ◌+◌, ◌%◌, ◌^◌, ◌≤◌, ◌<◌, ◌≡◌, refl, ap, ◌∙◌, Bool, true, false, ◌∷◌, ◌++◌, arith,
  if◌then◌else◌, length, length-append,
}
use yikv.Index.Text.{Text, decimal}
use yikv.Index.Store.{DataType, bool, int32, int64, float32, float64, string, bytes}
use yikv.Schema.{
  FieldDef, IndexType, no_index, kv, inverted, vector, data_type_name, parse_data_type,
  index_type_name, parse_index_type,
}
use yikv.Schema.Laws.{parse-data_type_name, parse-index_type_name}
use yikv.Schema.Json.{
  behind, done, and_then, unknown_data_type, unknown_index_type, skip_from, skip_ws, expect,
  parse_bool,
}
use yikv.Schema.Json.Laws.{is_plain, parse_string-plain, parse_int64-decimal}
use yikv.Schema.Json.Load.{
  cast, new_field, parsed_or, load_member, load_key, load_members, print_string, print_key,
  print_bool, print_field,
}
use yikv.Schema.Json.Keys.{
  name_key, data_type_key, is_array_key, nullable_key, is_pk_key, is_index_key, field_id_key,
  fixed_off_key, index_type_key,
}

parse_bool-print : (b : Bool) (rest : Text) → parse_bool (print_bool b rest) ≡ done b rest
unfolding parse_bool skip_ws skip_from
parse_bool-print true rest = refl
parse_bool-print false rest = refl

pub load_key-print :
    (first : Bool) (key rest : Text)
    → is_plain key ≡ true
    → load_key first (print_key first key rest) ≡ done key rest
unfolding load_key expect skip_ws skip_from
load_key-print true key rest h = rw (parse_string-plain key (58 ∷ rest) h) refl
load_key-print false key rest h = rw (parse_string-plain key (58 ∷ rest) h) refl

load_members-print :
    (n : ℕ) (first : Bool) (key text rest pk pk' : Text) (f f' : FieldDef)
    → is_plain key ≡ true
    → load_member key f pk text ≡ done (f', pk') rest
    → load_members (suc n) first f pk (print_key first key text) ≡ load_members n false f' pk' rest
unfolding load_members skip_ws skip_from
load_members-print n true key text rest pk pk' f f' h e =
    rw (load_key-print true key text h, e) refl
load_members-print n false key text rest pk pk' f f' h e =
    rw (load_key-print false key text h, e) refl

data_type_name-plain : (t : DataType) → is_plain (data_type_name t) ≡ true
data_type_name-plain bool = refl
data_type_name-plain int32 = refl
data_type_name-plain int64 = refl
data_type_name-plain float32 = refl
data_type_name-plain float64 = refl
data_type_name-plain string = refl
data_type_name-plain bytes = refl

index_type_name-plain : (t : IndexType) → is_plain (index_type_name t) ≡ true
index_type_name-plain no_index = refl
index_type_name-plain kv = refl
index_type_name-plain inverted = refl
index_type_name-plain vector = refl

-- The values of the members.
module _ (f : FieldDef) (pk rest : Text) where
  load-name :
      (v : Text)
      → is_plain v ≡ true
      → load_member name_key f pk (print_string v rest) ≡ done (record f { name = v }, pk) rest
  unfolding load_member
  load-name v h =
      ap (λ p. and_then p (λ x. done (record f { name = x }, pk))) (parse_string-plain v rest h)

  load-type :
      (t : DataType)
      → load_member data_type_key f pk (print_string (data_type_name t) rest)
        ≡ done (record f { type = t }, pk) rest
  unfolding load_member
  load-type t =
      ap
        (λ p. and_then p (λ x t₁.
          and_then (parsed_or (unknown_data_type x) (parse_data_type x) t₁)
            (λ y. done (record f { type = y }, pk))))
        (parse_string-plain (data_type_name t) rest (data_type_name-plain t))
      ∙ rw (parse-data_type_name t) refl

  load-is_array :
      (b : Bool)
      → load_member is_array_key f pk (print_bool b rest)
        ≡ done (record f { is_array = b }, pk) rest
  unfolding load_member
  load-is_array b =
      ap (λ p. and_then p (λ x. done (record f { is_array = x }, pk))) (parse_bool-print b rest)

  load-nullable :
      (b : Bool)
      → load_member nullable_key f pk (print_bool b rest)
        ≡ done (record f { nullable = b }, pk) rest
  unfolding load_member
  load-nullable b =
      ap (λ p. and_then p (λ x. done (record f { nullable = x }, pk))) (parse_bool-print b rest)

  load-is_pk :
      (b : Bool)
      → load_member is_pk_key f pk (print_bool b rest)
        ≡ done (record f { is_pk = b }, if b then f.name else pk) rest
  unfolding load_member
  load-is_pk b =
      ap (λ p. and_then p (λ x. done (record f { is_pk = x }, if x then f.name else pk)))
        (parse_bool-print b rest)

  load-is_index :
      (b : Bool)
      → load_member is_index_key f pk (print_bool b rest)
        ≡ done (record f { is_index = b }, pk) rest
  unfolding load_member
  load-is_index b =
      ap (λ p. and_then p (λ x. done (record f { is_index = x }, pk))) (parse_bool-print b rest)

  load-field_id :
      (n : ℕ)
      → n < 2 ^ 16
      → load_member field_id_key f pk (decimal n ++ (44 ∷ rest))
        ≡ done (record f { field_id = n }, pk) (44 ∷ rest)
  unfolding load_member
  load-field_id n h =
      let small : n % 2 ^ 16 ≡ n = omega arith in
      ap (λ p. and_then p (λ x. done (record f { field_id = cast 16 x }, pk)))
        (parse_int64-decimal n 44 rest refl)
      ∙ ap (λ m. done (record f { field_id = m }, pk) (44 ∷ rest)) small

  load-fixed_off :
      (n : ℕ)
      → n < 2 ^ 32
      → load_member fixed_off_key f pk (decimal n ++ (44 ∷ rest))
        ≡ done (record f { fixed_off = n }, pk) (44 ∷ rest)
  unfolding load_member
  load-fixed_off n h =
      let small : n % 2 ^ 32 ≡ n = omega arith in
      ap (λ p. and_then p (λ x. done (record f { fixed_off = cast 32 x }, pk)))
        (parse_int64-decimal n 44 rest refl)
      ∙ ap (λ m. done (record f { fixed_off = m }, pk) (44 ∷ rest)) small

  load-index_type :
      (t : IndexType)
      → load_member index_type_key f pk (print_string (index_type_name t) rest)
        ≡ done (record f { index_type = t }, pk) rest
  unfolding load_member
  load-index_type t =
      ap
        (λ p. and_then p (λ x t₁.
          and_then (parsed_or (unknown_index_type x) (parse_index_type x) t₁)
            (λ y. done (record f { index_type = y }, pk))))
        (parse_string-plain (index_type_name t) rest (index_type_name-plain t))
      ∙ rw (parse-index_type_name t) refl

-- What the printer and the reader agree on: strings without a quote or a backslash, and numbers of
-- the widths of their fields.
pub record IsPrintable (pk : Text) (f : FieldDef) : Type 0 where
  pub name_plain : is_plain f.name ≡ true
  pub key_named : (if f.is_pk then f.name else pk) ≡ pk
  pub id_small : f.field_id < 2 ^ 16
  pub off_small : f.fixed_off < 2 ^ 32

load_members-end :
    (k : ℕ) (f : FieldDef) (pk rest : Text)
    → load_members (suc k) false f pk (125 ∷ rest) ≡ done (f, pk) rest
unfolding load_members skip_ws skip_from
load_members-end k f pk rest = refl

-- The members between the braces.
abbrev pub members_text : FieldDef → Text → Text
members_text f rest = behind (print_field f rest)

pub load_members-field :
    (k : ℕ) (f : FieldDef) (pk rest : Text)
    → IsPrintable pk f
    → load_members
        (suc (suc (suc (suc (suc (suc (suc (suc (suc (suc k))))))))))
        true
        new_field
        pk
        (members_text f rest)
      ≡ done (f, pk) rest
unfolding print_field
load_members-field k f pk rest p =
    let n₁ = record new_field { name = f.name } in
    let n₂ = record n₁ { type = f.type } in
    let n₃ = record n₂ { is_array = f.is_array } in
    let n₄ = record n₃ { nullable = f.nullable } in
    let n₅ = record n₄ { is_pk = f.is_pk } in
    let n₆ = record n₅ { is_index = f.is_index } in
    let n₇ = record n₆ { field_id = f.field_id } in
    let n₈ = record n₇ { fixed_off = f.fixed_off } in
    let pk' = if f.is_pk then f.name else pk in
    load_members-print _ true name_key _ _ pk pk new_field n₁ refl
      (load-name new_field pk _ f.name p.name_plain)
    ∙ (load_members-print _ false data_type_key _ _ pk pk n₁ n₂ refl (load-type n₁ pk _ f.type)
        ∙ (load_members-print _ false is_array_key _ _ pk pk n₂ n₃ refl
              (load-is_array n₂ pk _ f.is_array)
            ∙ (load_members-print _ false nullable_key _ _ pk pk n₃ n₄ refl
                  (load-nullable n₃ pk _ f.nullable)
                ∙ (load_members-print _ false is_pk_key _ _ pk pk' n₄ n₅ refl
                      (load-is_pk n₄ pk _ f.is_pk)
                    ∙ (load_members-print _ false is_index_key _ _ pk' pk' n₅ n₆ refl
                          (load-is_index n₅ pk' _ f.is_index)
                        ∙ (load_members-print _ false field_id_key _ _ pk' pk' n₆ n₇ refl
                              (load-field_id n₆ pk' _ f.field_id p.id_small)
                            ∙ (load_members-print _ false fixed_off_key _ _ pk' pk' n₇ n₈ refl
                                  (load-fixed_off n₇ pk' _ f.fixed_off p.off_small)
                                ∙ (load_members-print _ false index_type_key _ _ pk' pk' n₈ f refl
                                      (load-index_type n₈ pk' _ f.index_type)
                                    ∙ (load_members-end k f pk' rest
                                        ∙ ap (λ x. done (f, x) rest) p.key_named)))))))))

length-print_bool : (b : Bool) (rest : Text) → 4 + length rest ≤ length (print_bool b rest)
length-print_bool true rest = omega arith
length-print_bool false rest = omega arith

-- The text of a field is longer than what comes behind it, and than its members are many.
pub length-members_text :
    (f : FieldDef) (rest : Text) → 9 + length rest ≤ length (members_text f rest)
unfolding print_field
length-members_text f rest =
    let t₁ = print_string (index_type_name f.index_type) (125 ∷ rest) in
    let t₂ = decimal f.fixed_off ++ print_key false index_type_key t₁ in
    let t₃ = decimal f.field_id ++ print_key false fixed_off_key t₂ in
    let t₄ = print_bool f.is_index (print_key false field_id_key t₃) in
    let t₅ = print_bool f.is_pk (print_key false is_index_key t₄) in
    let t₆ = print_bool f.nullable (print_key false is_pk_key t₅) in
    let t₇ = print_bool f.is_array (print_key false nullable_key t₆) in
    let t₈ = print_string (data_type_name f.type) (print_key false is_array_key t₇) in
    let l₁ = length-append (index_type_name f.index_type) (34 ∷ 125 ∷ rest) in
    let l₂ = length-append (decimal f.fixed_off) (print_key false index_type_key t₁) in
    let l₃ = length-append (decimal f.field_id) (print_key false fixed_off_key t₂) in
    let l₄ = length-print_bool f.is_index (print_key false field_id_key t₃) in
    let l₅ = length-print_bool f.is_pk (print_key false is_index_key t₄) in
    let l₆ = length-print_bool f.nullable (print_key false is_pk_key t₅) in
    let l₇ = length-print_bool f.is_array (print_key false nullable_key t₆) in
    let l₈ = length-append (data_type_name f.type) (34 ∷ print_key false is_array_key t₇) in
    let l₉ = length-append f.name (34 ∷ print_key false data_type_key t₈) in omega arith
