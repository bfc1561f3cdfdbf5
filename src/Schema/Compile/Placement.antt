-- ===== src/Schema/Compile/Placement.antt =====
-- Where the loop of `Compile` puts the fields.
use yikv.Prelude.{
  ℕ, zero, suc, ◌+◌, ◌*◌, ◌≤◌, ◌<◌, ◌≡◌, ◌≢◌, refl, subst, inl, inr, true, false, List, [], ◌∷◌,
  some, arith, if◌then◌else◌, length, get_elem?, Bool-cases,
}
use yikv.Sorted.{mem}
use yikv.Index.Text.{Text, elem}
use yikv.Schema.{FieldDef}
use yikv.Schema.Compile.{
  FieldLayout, CompileError, Result, ok, failed, is_fixed_scalar, field_layout, Slots, with_layout,
  lay_out,
}

-- A layout between the slots that were next before and those that are next after.
pub record Within (fixed_slot var_slot n_fixed n_var : ℕ) (l : FieldLayout) : Type 0 where
  pub fixed_from : l.is_fixed_scalar ≡ true → fixed_slot * 8 ≤ l.file_fixed_off
  pub fixed_to : l.is_fixed_scalar ≡ true → l.file_fixed_off + 8 ≤ n_fixed * 8
  pub chunk :
      l.is_fixed_scalar ≡ true
      → (l.mem_chunk_idx * 64 + l.mem_chunk_off ≡ l.file_fixed_off) × (l.mem_chunk_off + 8 ≤ 64)
  pub var_from : l.is_fixed_scalar ≡ false → var_slot ≤ l.file_var_idx
  pub var_to : l.is_fixed_scalar ≡ false → l.file_var_idx < n_var
  pub var_same : l.mem_var_idx ≡ l.file_var_idx

-- Two layouts share no slot.
pub record Apart (l m : FieldLayout) : Type 0 where
  pub fixed :
      l.is_fixed_scalar ≡ true → m.is_fixed_scalar ≡ true → l.file_fixed_off + 8 ≤ m.file_fixed_off
  pub var : l.is_fixed_scalar ≡ false → m.is_fixed_scalar ≡ false → l.file_var_idx < m.file_var_idx

-- What the loop leaves for the fields.
pub record Laid (fixed_slot var_slot : ℕ) (fs : List FieldDef) (s : Slots) : Type 0 where
  pub counted : s.fixed_slot + s.var_slot ≡ fixed_slot + var_slot + length fs
  pub more_fixed : fixed_slot ≤ s.fixed_slot
  pub more_var : var_slot ≤ s.var_slot
  pub per_field : length s.laid ≡ length fs
  pub within :
      (i : ℕ) (l : FieldLayout)
      → get_elem? s.laid i ≡ some l
      → Within fixed_slot var_slot s.fixed_slot s.var_slot l
  pub apart :
      (i j : ℕ) (l m : FieldLayout)
      → i < j
      → get_elem? s.laid i ≡ some l
      → get_elem? s.laid j ≡ some m
      → Apart l m

-- The loop goes on past a field exactly if its name and its id are new.
pub record Step (names : List Text) (ids : List ℕ) (fixed_slot var_slot : ℕ) (f : FieldDef)
    (fs : List FieldDef) (s : Slots) : Type 0 where
  pub new_name : elem f.name names ≡ false
  pub new_id : mem f.field_id ids ≡ false
  pub next : Slots
  pub rest :
      lay_out
        (f.name ∷ names)
        (f.field_id ∷ ids)
        (if is_fixed_scalar f then fixed_slot + 1 else fixed_slot)
        (if is_fixed_scalar f then var_slot else var_slot + 1)
        fs
      ≡ ok next
  pub made : s ≡ record next { laid = field_layout f fixed_slot var_slot ∷ next.laid }

with_layout-ok :
    (l : FieldLayout) (r : Result Slots) (s : Slots)
    → with_layout l r ≡ ok s
    → (next : Slots) × (r ≡ ok next) × (s ≡ record next { laid = l ∷ next.laid })
unfolding with_layout
with_layout-ok l (ok next) s e = (next, refl, cc)
with_layout-ok l (failed x) s e = cc

pub lay_out-Step :
    (names : List Text) (ids : List ℕ) (fixed_slot var_slot : ℕ) (f : FieldDef) (fs : List FieldDef)
    (s : Slots)
    → lay_out names ids fixed_slot var_slot (f ∷ fs) ≡ ok s
    → Step names ids fixed_slot var_slot f fs s
unfolding lay_out
lay_out-Step names ids fixed_slot var_slot f fs s e = elim (Bool-cases (elem f.name names)) [
  | inl seen ↦ absurd (failed-ok (rw seen at e))
  | inr new ↦ elim (Bool-cases (mem f.field_id ids)) [
    | inl seen ↦ absurd (failed-ok (rw (new, seen) at e))
    | inr new_id ↦
        let (next, r, m) =
          with_layout-ok (field_layout f fixed_slot var_slot) _ s (rw (new, new_id) at e) in
        record { new_name = new; new_id = new_id; next = next; rest = r; made = m }
  ]
]
  where
    failed-ok : {x : CompileError} → failed x ≢ ok s
    failed-ok e = cc

field_layout-Within :
    (f : FieldDef) (fixed_slot var_slot n_fixed n_var : ℕ)
    → (if is_fixed_scalar f then fixed_slot + 1 else fixed_slot) ≤ n_fixed
    → (if is_fixed_scalar f then var_slot else var_slot + 1) ≤ n_var
    → Within fixed_slot var_slot n_fixed n_var (field_layout f fixed_slot var_slot)
field_layout-Within f fixed_slot var_slot n_fixed n_var a b = record {
  fixed_from = λ e. ground arith;
  fixed_to = λ e. ground arith;
  chunk = λ e. (ground arith, ground arith);
  var_from = λ e. ground arith;
  var_to = λ e. ground arith;
  var_same = refl;
}

Within-widen :
    (a b c d n m : ℕ) (l : FieldLayout) → a ≤ c → b ≤ d → Within c d n m l → Within a b n m l
Within-widen a b c d n m l h k w = record {
  fixed_from = λ e. omega (arith, w.fixed_from e);
  fixed_to = w.fixed_to;
  chunk = w.chunk;
  var_from = λ e. omega (arith, w.var_from e);
  var_to = w.var_to;
  var_same = w.var_same;
}

field_layout-Apart :
    (f : FieldDef) (fixed_slot var_slot n_fixed n_var : ℕ) (m : FieldLayout)
    → Within
        (if is_fixed_scalar f then fixed_slot + 1 else fixed_slot)
        (if is_fixed_scalar f then var_slot else var_slot + 1)
        n_fixed
        n_var
        m
    → Apart (field_layout f fixed_slot var_slot) m
field_layout-Apart f fixed_slot var_slot n_fixed n_var m w = record {
  fixed = λ e g. ground (arith, w.fixed_from g);
  var = λ e g. ground (arith, w.var_from g);
}

pub lay_out-Laid :
    (names : List Text) (ids : List ℕ) (fixed_slot var_slot : ℕ) (fs : List FieldDef) (s : Slots)
    → lay_out names ids fixed_slot var_slot fs ≡ ok s
    → Laid fixed_slot var_slot fs s
unfolding lay_out
lay_out-Laid names ids fixed_slot var_slot [] s e =
    let same : s ≡ record { laid = []; fixed_slot = fixed_slot; var_slot = var_slot } = cc in
    rw same (record {
      counted = omega arith;
      more_fixed = omega arith;
      more_var = omega arith;
      per_field = refl;
      within = λ i l g. cc;
      apart = λ i j l m h g k. cc;
    })
lay_out-Laid names ids fixed_slot var_slot (f ∷ fs) s e =
    let st = lay_out-Step names ids fixed_slot var_slot f fs s e in
    let fixed' = if is_fixed_scalar f then fixed_slot + 1 else fixed_slot in
    let var' = if is_fixed_scalar f then var_slot else var_slot + 1 in
    let r = lay_out-Laid (f.name ∷ names) (f.field_id ∷ ids) fixed' var' fs st.next st.rest in
    let n = st.next in
    let first = field_layout f fixed_slot var_slot in
    rw st.made (record {
      counted = ground (arith, r.counted);
      more_fixed = ground (arith, r.more_fixed);
      more_var = ground (arith, r.more_var);
      per_field = omega (arith, r.per_field);
      within = λ i l g.
          inside first n.laid
            (field_layout-Within f fixed_slot var_slot n.fixed_slot n.var_slot r.more_fixed
              r.more_var)
            (λ j m k.
              Within-widen fixed_slot var_slot fixed' var' n.fixed_slot n.var_slot m (ground arith)
                (ground arith) (r.within j m k))
            i l g;
      apart = λ i j l m h g k.
          separate first n.laid
            (λ j m k.
              field_layout-Apart f fixed_slot var_slot n.fixed_slot n.var_slot m (r.within j m k))
            r.apart i j l m h g k;
    })
  where
    inside :
        {P : FieldLayout → Type 0} (x : FieldLayout) (xs : List FieldLayout)
        → P x
        → ((j : ℕ) (m : FieldLayout) → get_elem? xs j ≡ some m → P m)
        → (i : ℕ) (l : FieldLayout) → get_elem? (x ∷ xs) i ≡ some l
        → P l
    inside {P} x xs p q zero l g = let same : x ≡ l = cc in subst P same p
    inside x xs p q (suc i) l g = q i l g

    separate :
        (x : FieldLayout) (xs : List FieldLayout)
        → ((j : ℕ) (m : FieldLayout) → get_elem? xs j ≡ some m → Apart x m)
        → ((i j : ℕ) (l m : FieldLayout)
            → i < j
            → get_elem? xs i ≡ some l
            → get_elem? xs j ≡ some m
            → Apart l m)
        → (i j : ℕ) (l m : FieldLayout) → i < j
        → get_elem? (x ∷ xs) i ≡ some l
        → get_elem? (x ∷ xs) j ≡ some m
        → Apart l m
    separate x xs p q i zero l m h g k = absurd (omega arith)
    separate x xs p q zero (suc j) l m h g k =
        let same : x ≡ l = cc in subst (λ z. Apart z m) same (p j m k)
    separate x xs p q (suc i) (suc j) l m h g k = q i j l m (omega arith) g k
