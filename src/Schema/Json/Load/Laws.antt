-- ===== src/Schema/Json/Load/Laws.antt =====
-- How `LoadJson` reads the fields that `ToJson` printed.
use yikv.Prelude.{
  ℕ, zero, suc, ◌-◌, ◌≤◌, ◌<◌, ◌≡◌, refl, ap, ◌∙◌, Bool, true, false, List, [], ◌∷◌, ◌++◌, arith,
  ltb, ◌==◌, if◌then◌else◌, length, append-nil, append_assoc,
}
use yikv.Index.Text.{Text}
use yikv.Schema.{FieldDef}
use yikv.Schema.Json.{done, skip_from, skip_ws, expect}
use yikv.Schema.Json.Load.{
  new_field, load_members, Loaded, push_field, load_fields, print_field, print_fields,
}
use yikv.Schema.Json.Load.Members.{
  IsPrintable, members_text, load_members-field, length-members_text,
}

-- Every field can be printed and has an id.
abbrev pub ArePrintable : Text → List FieldDef → Type 0
ArePrintable pk [] = Unit {0}
ArePrintable pk (f ∷ fs) = IsPrintable pk f × (0 < f.field_id) × ArePrintable pk fs

pub push_field-id :
    (f : FieldDef) (pk : Text) (s : Loaded)
    → 0 < f.field_id
    → push_field f pk s ≡ record {
      fields = s.fields ++ (f ∷ []);
      max_field_id = if ltb s.max_field_id f.field_id then f.field_id else s.max_field_id;
      pk = pk;
    }
unfolding push_field
push_field-id f pk s h = let given : (f.field_id == 0) ≡ false = ground (arith, h) in rw given refl

-- The members of a field are read on the fuel of the length of the text.
load_members-length :
    (f : FieldDef) (pk rest : Text)
    → IsPrintable pk f
    → load_members (suc (length (members_text f rest))) true new_field pk (members_text f rest)
      ≡ done (f, pk) rest
load_members-length f pk rest p =
    ap (λ n. load_members (suc n) true new_field pk (members_text f rest))
      (nine (length (members_text f rest)) (omega (arith, length-members_text f rest)))
    ∙ load_members-field (length (members_text f rest) - 9) f pk rest p
  where
    nine : (n : ℕ) → 9 ≤ n → n ≡ suc (suc (suc (suc (suc (suc (suc (suc (suc (n - 9)))))))))
    nine n h = omega arith

load_fields-round :
    (n : ℕ) (first : Bool) (f : FieldDef) (fs : List FieldDef) (s : Loaded) (rest : Text)
    → IsPrintable s.pk f
    → load_fields (suc n) first s (print_fields first (f ∷ fs) rest)
      ≡ load_fields n false (push_field f s.pk s) (print_fields false fs rest)
unfolding load_fields print_fields print_field expect skip_ws skip_from
load_fields-round n true f fs s rest p =
    rw (load_members-length f s.pk (print_fields false fs rest) p) refl
load_fields-round n false f fs s rest p =
    rw (load_members-length f s.pk (print_fields false fs rest) p) refl

pub load_fields-print :
    (n : ℕ) (first : Bool) (fs : List FieldDef) (s : Loaded) (rest : Text)
    → length fs < n
    → ArePrintable s.pk fs
    → (m : ℕ) × (load_fields n first s (print_fields first fs (93 ∷ rest))
        ≡ done (record { fields = s.fields ++ fs; max_field_id = m; pk = s.pk }) rest)
unfolding load_fields print_fields skip_ws skip_from
load_fields-print zero first fs s rest h p = absurd (omega arith)
load_fields-print (suc n) first [] s rest h p = (s.max_field_id, rw (append-nil s.fields) refl)
load_fields-print (suc n) first (f ∷ fs) s rest h p =
    let next = push_field-id f s.pk s p.1 in
    let m' = if ltb s.max_field_id f.field_id then f.field_id else s.max_field_id in
    let s' : Loaded = record { fields = s.fields ++ (f ∷ []); max_field_id = m'; pk = s.pk } in
    let (m, e) = load_fields-print n false fs s' rest (omega arith) p.2 in
    (
      m,
      load_fields-round n first f fs s (93 ∷ rest) p.0
          ∙ (ap (λ x. load_fields n false x (print_fields false fs (93 ∷ rest))) next
              ∙ (e
                  ∙ ap (λ x. done (record { fields = x; max_field_id = m; pk = s.pk }) rest)
                      (append_assoc s.fields (f ∷ []) fs))),
    )
