-- ===== src/Schema/Compile/Laws.antt =====
-- When `Compile` succeeds, and what it returns.
use yikv.Prelude.{
  ℕ, zero, suc, ◌+◌, ◌*◌, ◌≤◌, ◌<◌, ◌≡◌, ◌≢◌, refl, sym, ap, subst, ◌∙◌, inl, inr, true, false,
  List, [], ◌∷◌, Option, none, some, arith, ◌==◌, if◌then◌else◌, length, get_elem?, Bool-cases,
  Option-cases,
}
use yikv.Sorted.{mem}
use yikv.Index.Text.{Text, text_eq, text_eq-≡, text_eq_refl, elem}
use yikv.Schema.{FieldDef, Schema}
use yikv.Schema.Compile.{
  FieldLayout, CompiledSchema, CompileError, Result, ok, failed, pk_index, is_fixed_scalar,
  field_layout, Slots, with_layout, lay_out, compiled_schema, compile,
}
use yikv.Schema.Compile.Placement.{Within, Apart, lay_out-Step, lay_out-Laid}

-- No two fields share a name or an id.
abbrev pub AllDifferent : List FieldDef → Type 0
AllDifferent fs =
    (i j : ℕ) (f g : FieldDef)
    → i < j
    → get_elem? fs i ≡ some f
    → get_elem? fs j ≡ some g
    → (text_eq g.name f.name ≡ false) × ((g.field_id == f.field_id) ≡ false)

-- No field has one of the names or ids.
abbrev IsNew : List Text → List ℕ → List FieldDef → Type 0
IsNew names ids fs =
    (i : ℕ) (f : FieldDef)
    → get_elem? fs i ≡ some f
    → (elem f.name names ≡ false) × (mem f.field_id ids ≡ false)

lay_out-IsNew :
    (names : List Text) (ids : List ℕ) (a b : ℕ) (fs : List FieldDef) (s : Slots)
    → lay_out names ids a b fs ≡ ok s
    → IsNew names ids fs
lay_out-IsNew names ids a b [] s e i f g = cc
lay_out-IsNew names ids a b (f ∷ fs) s e zero g k =
    let st = lay_out-Step names ids a b f fs s e in
    let same : f ≡ g = cc in
    subst (λ z. (elem z.name names ≡ false) × (mem z.field_id ids ≡ false)) same
      (st.new_name, st.new_id)
lay_out-IsNew names ids a b (f ∷ fs) s e (suc i) g k =
    let st = lay_out-Step names ids a b f fs s e in
    let r = lay_out-IsNew (f.name ∷ names) (f.field_id ∷ ids) _ _ fs st.next st.rest i g k in
    (ground (arith, r.0), ground (arith, r.1))

lay_out-AllDifferent :
    (names : List Text) (ids : List ℕ) (a b : ℕ) (fs : List FieldDef) (s : Slots)
    → lay_out names ids a b fs ≡ ok s
    → AllDifferent fs
lay_out-AllDifferent names ids a b [] s e i j f g h k l = cc
lay_out-AllDifferent names ids a b (x ∷ fs) s e i zero f g h k l = absurd (omega arith)
lay_out-AllDifferent names ids a b (x ∷ fs) s e zero (suc j) f g h k l =
    let st = lay_out-Step names ids a b x fs s e in
    let r = lay_out-IsNew (x.name ∷ names) (x.field_id ∷ ids) _ _ fs st.next st.rest j g l in
    let same : x ≡ f = cc in
    subst (λ z. (text_eq g.name z.name ≡ false) × ((g.field_id == z.field_id) ≡ false)) same
      (ground (arith, r.0), ground (arith, r.1))
lay_out-AllDifferent names ids a b (x ∷ fs) s e (suc i) (suc j) f g h k l =
    let st = lay_out-Step names ids a b x fs s e in
    lay_out-AllDifferent (x.name ∷ names) (x.field_id ∷ ids) _ _ fs st.next st.rest i j f g
      (omega arith) k l

lay_out-ok :
    (names : List Text) (ids : List ℕ) (a b : ℕ) (fs : List FieldDef)
    → AllDifferent fs
    → IsNew names ids fs
    → (s : Slots) × (lay_out names ids a b fs ≡ ok s)
unfolding lay_out with_layout
lay_out-ok names ids a b [] d n = (_, refl)
lay_out-ok names ids a b (f ∷ fs) d n =
    let fixed = is_fixed_scalar f in
    let (s, e) =
      lay_out-ok (f.name ∷ names) (f.field_id ∷ ids) (if fixed then a + 1 else a)
        (if fixed then b else b + 1) fs (λ i j g h l k m. d (suc i) (suc j) g h (omega arith) k m)
        λ i g k.
          let apart = d 0 (suc i) f g (omega arith) refl k in
          let fresh = n (suc i) g k in
          (ground (arith, apart.0, fresh.0), ground (arith, apart.1, fresh.1)) in
    let new = n 0 f refl in
    (record s { laid = field_layout f a b ∷ s.laid }, rw (new.0, new.1, e) refl)

pk_index-some :
    (pk : Text) (fs : List FieldDef) (i : ℕ)
    → pk_index pk fs ≡ some i
    → (f : FieldDef) × (get_elem? fs i ≡ some f) × (f.name ≡ pk)
unfolding pk_index
pk_index-some pk [] i e = cc
pk_index-some pk (f ∷ fs) i e = elim (Bool-cases (text_eq f.name pk)) [
  | inl here ↦
      let first : some 0 ≡ some i = rw here at e in
      let at_front : 0 ≡ i = cc in
      subst (λ k. (g : FieldDef) × (get_elem? (f ∷ fs) k ≡ some g) × (g.name ≡ pk)) at_front
        (f, refl, text_eq-≡ f.name pk here)
  | inr later ↦ elim (Option-cases (pk_index pk fs)) [
    | inl absent ↦
        let nowhere : (the_none : Option ℕ) × (the_none ≡ none) × (the_none ≡ some i) =
          (none, refl, rw (later, absent) at e) in
        cc
    | inr (k, found) ↦
        let next : some (suc k) ≡ some i = rw (later, found) at e in
        let behind : suc k ≡ i = cc in
        let (g, at_k, named) = pk_index-some pk fs k found in
        subst (λ n. (g : FieldDef) × (get_elem? (f ∷ fs) n ≡ some g) × (g.name ≡ pk)) behind
          (g, at_k, named)
  ]
]

pk_index-finds :
    (pk : Text) (fs : List FieldDef) (i : ℕ) (f : FieldDef)
    → get_elem? fs i ≡ some f
    → f.name ≡ pk
    → (k : ℕ) × (pk_index pk fs ≡ some k)
unfolding pk_index
pk_index-finds pk [] i f g n = cc
pk_index-finds pk (x ∷ fs) zero f g n =
    let same : x ≡ f = cc in
    let here : text_eq x.name pk ≡ true =
      subst (λ z. text_eq z pk ≡ true) (sym (ap (λ z. z.name) same ∙ n)) (text_eq_refl pk) in
    (0, rw here refl)
pk_index-finds pk (x ∷ fs) (suc i) f g n = elim (Bool-cases (text_eq x.name pk)) [
  | inl here ↦ (0, rw here refl)
  | inr later ↦ let (k, found) = pk_index-finds pk fs i f g n in (suc k, rw (later, found) refl)
]

-- The fields have names and ids of their own, and one of them is the primary key.
pub record IsWellFormed (schema : Schema) : Type 0 where
  pub different : AllDifferent schema.fields
  pub pk_place : ℕ
  pub pk_field : FieldDef
  pub pk_there : get_elem? schema.fields pk_place ≡ some pk_field
  pub pk_named : pk_field.name ≡ schema.pk

-- Every field has a layout, the layouts share no slot, and the totals hold them.
pub record IsCompiled (schema : Schema) (c : CompiledSchema) : Type 0 where
  pub per_field : length c.layouts ≡ length schema.fields
  pub counted : c.n_fixed + c.n_var ≡ length schema.fields
  pub pk_found :
      (f : FieldDef) × (get_elem? schema.fields c.pk_field_id ≡ some f) × (f.name ≡ schema.pk)
  pub within :
      (i : ℕ) (l : FieldLayout) → get_elem? c.layouts i ≡ some l → Within 0 0 c.n_fixed c.n_var l
  pub apart :
      (i j : ℕ) (l m : FieldLayout)
      → i < j
      → get_elem? c.layouts i ≡ some l
      → get_elem? c.layouts j ≡ some m
      → Apart l m
  pub payload : c.fixed_payload_bytes ≡ c.n_fixed * 8
  pub chunks : c.fixed_payload_bytes ≤ c.mem_n_fixed_chunks * 64
  pub var_slots : c.mem_n_var_slots ≡ c.n_var

compiled_schema-IsCompiled :
    (schema : Schema) (i : ℕ) (s : Slots)
    → pk_index schema.pk schema.fields ≡ some i
    → lay_out [] [] 0 0 schema.fields ≡ ok s
    → IsCompiled schema (compiled_schema i s)
unfolding compiled_schema
compiled_schema-IsCompiled schema i s p e =
    let r = lay_out-Laid [] [] 0 0 schema.fields s e in
    record {
      per_field = r.per_field;
      counted = omega (arith, r.counted);
      pk_found = pk_index-some schema.pk schema.fields i p;
      within = r.within;
      apart = r.apart;
      payload = refl;
      chunks = ground arith;
      var_slots = refl;
    }

-- If no two fields share a name or an id and one field is named as the primary key, Compile
-- succeeds: every field has a layout, no two layouts share a fixed slot or a variable slot, all
-- lie within the totals, and the index of the key is that of a field with its name.
pub compile-IsCompiled :
    (schema : Schema)
    → IsWellFormed schema
    → (c : CompiledSchema) × (compile schema ≡ ok c) × IsCompiled schema c
unfolding compile
compile-IsCompiled schema w =
    let (i, p) =
      pk_index-finds schema.pk schema.fields w.pk_place w.pk_field w.pk_there w.pk_named in
    let (s, e) = lay_out-ok [] [] 0 0 schema.fields w.different (λ k f g. (refl, refl)) in
    (compiled_schema i s, rw (compile, p, e) refl, compiled_schema-IsCompiled schema i s p e)

-- Compile succeeds only if no two fields share a name or an id and one field is named as the
-- primary key.
pub compile-IsWellFormed :
    (schema : Schema) (c : CompiledSchema) → compile schema ≡ ok c → IsWellFormed schema
unfolding compile
compile-IsWellFormed schema c e = elim (Option-cases (pk_index schema.pk schema.fields)) [
  | inl absent ↦ absurd (failed-ok (rw (compile, absent) at e))
  | inr (i, p) ↦ by_slots i p (lay_out [] [] 0 0 schema.fields) refl (rw (compile, p) at e)
]
  where
    failed-ok : {x : CompileError} → failed x ≢ ok c
    failed-ok e = cc

    by_slots :
        (i : ℕ)
        → pk_index schema.pk schema.fields ≡ some i
        → (r : Result Slots) → lay_out [] [] 0 0 schema.fields ≡ r
        → (elim r [ failed x ↦ failed x | ok s ↦ ok (compiled_schema i s) ]) ≡ ok c
        → IsWellFormed schema
    by_slots i p (failed x) l e = absurd (failed-ok e)
    by_slots i p (ok s) l e =
        let (f, there, named) = pk_index-some schema.pk schema.fields i p in
        record {
          different = lay_out-AllDifferent [] [] 0 0 schema.fields s l;
          pk_place = i;
          pk_field = f;
          pk_there = there;
          pk_named = named;
        }
