-- ===== src/Index/Query/Laws.antt =====
-- The results of `QueryAnd` and `QueryOr`, document by document.
use yikv.Prelude.{
  ℕ, ◌^◌, ◌≡◌, refl, sym, ap, subst, ◌∙◌, inl, inr, Bool, true, false, ◌&&◌, ◌||◌, List, [], ◌∷◌,
  Option, none, some, arith, leb, ◌==◌, if◌then◌else◌, Bool-cases,
}
use yikv.Bitmap.{Bitmap}
use yikv.Sorted.{mem_above_bound}
use yikv.Bitmap.Each.{has, IsValid, for_each}
use yikv.Bitmap.Each.Laws.{for_each-Visits}
use yikv.Bitmap.Point.{empty}
use yikv.Bitmap.Algebra.{and_with, or_with}
use yikv.Bitmap.Algebra.Laws.{empty-IsValid, and_with-Merged, or_with-Merged}
use yikv.Index.Text.{Text, posting_key}
use yikv.Index.Store.{MapOf}
use yikv.Index.Posting.{query}
use yikv.Index.Posting.Laws.{
  lists, AllValid, IsValidEntry, in_bitmap, cardinality-zero, has_nothing,
}
use yikv.Index.Query.{
  insert_by_cardinality, sort_by_cardinality, and_all, and_bitmaps, collect_terms, query_and,
  or_terms, query_or,
}

-- No bitmap holds a number past the width of its values.
beyond : (o : Option Bitmap) → IsValidEntry o → in_bitmap o (2 ^ 32) ≡ false
beyond none v = refl
beyond (some b) v =
    let x = for_each-Visits b v in
    sym (x.members (2 ^ 32)) ∙ mem_above_bound (2 ^ 32) (2 ^ 32) (for_each b) x.below (omega arith)

abbrev all_have : List Bitmap → ℕ → Bool
all_have [] v = true
all_have (b ∷ bs) v = has b v && all_have bs v

abbrev AreValid : List Bitmap → Type 0
AreValid [] = Unit {0}
AreValid (b ∷ bs) = IsValid b × AreValid bs

insert-AreValid :
    (b : Bitmap) (bs : List Bitmap)
    → IsValid b
    → AreValid bs
    → AreValid (insert_by_cardinality b bs)
insert-AreValid b [] v w = (v, w)
insert-AreValid b (c ∷ bs) v w = elim (Bool-cases (leb b.cardinality c.cardinality)) [
  | inl e ↦ rw e (v, w)
  | inr e ↦ rw e (w.0, insert-AreValid b bs v w.1)
]

all_have-insert :
    (b : Bitmap) (bs : List Bitmap) (v : ℕ)
    → all_have (insert_by_cardinality b bs) v ≡ (has b v && all_have bs v)
all_have-insert b [] v = refl
all_have-insert b (c ∷ bs) v = elim (Bool-cases (leb b.cardinality c.cardinality)) [
  | inl e ↦ rw e refl
  | inr e ↦ rw e (ground (arith, all_have-insert b bs v))
]

sort-AreValid : (bs : List Bitmap) → AreValid bs → AreValid (sort_by_cardinality bs)
sort-AreValid [] w = tt
sort-AreValid (b ∷ bs) w = insert-AreValid b (sort_by_cardinality bs) w.0 (sort-AreValid bs w.1)

all_have-sort : (bs : List Bitmap) (v : ℕ) → all_have (sort_by_cardinality bs) v ≡ all_have bs v
all_have-sort [] v = refl
all_have-sort (b ∷ bs) v =
    all_have-insert b (sort_by_cardinality bs) v ∙ ap (λ r. has b v && r) (all_have-sort bs v)

and_all-has :
    (r : Bitmap) (bs : List Bitmap)
    → IsValid r
    → AreValid bs
    → IsValid (and_all r bs) × ((v : ℕ) → has (and_all r bs) v ≡ (has r v && all_have bs v))
unfolding and_all
and_all-has r [] v w = (v, λ z. ground arith)
and_all-has r (b ∷ bs) v w =
    let m = and_with-Merged false r b (λ e. cc) v w.0 in
    let rest = and_all-has (and_with false r b) bs m.valid w.1 in
    elim (Bool-cases ((and_with false r b).cardinality == 0)) [
      | inl gone ↦ rw gone (
        m.valid,
        λ z.
            ground
              (arith, m.members z, cardinality-zero (and_with false r b) z m.valid (ground arith)),
      )
      | inr more ↦ rw more (rest.0, λ z. ground (arith, rest.1 z, m.members z))
    ]

and_bitmaps-has :
    (b : Bitmap) (bs : List Bitmap)
    → AreValid (b ∷ bs)
    → IsValid (and_bitmaps (b ∷ bs))
      × ((v : ℕ) → has (and_bitmaps (b ∷ bs)) v ≡ all_have (b ∷ bs) v)
unfolding and_bitmaps
and_bitmaps-has b bs w =
    let c = or_with-Merged false empty b (λ e. cc) empty-IsValid w.0 in
    let r = and_all-has (or_with false empty b) bs c.valid w.1 in
    (r.0, λ z. ground (arith, r.1 z, c.members z, has_nothing z))

module _ (postings : MapOf Bitmap) (field_id : ℕ) (table : postings.Table)
    (v : AllValid postings table) where
  -- Whether a document is under every term, and under some term.
  abbrev pub under_all : List Text → ℕ → Bool
  under_all [] id = true
  under_all (t ∷ ts) id = lists postings (posting_key field_id t) id table && under_all ts id

  abbrev pub under_some : List Text → ℕ → Bool
  under_some [] id = false
  under_some (t ∷ ts) id = lists postings (posting_key field_id t) id table || under_some ts id

  -- What the bitmaps of the terms say together.
  abbrev Collected : List Text → Option (List Bitmap) → Type 0
  Collected ts none = (id : ℕ) → under_all ts id ≡ false
  Collected ts (some bs) = AreValid bs × ((id : ℕ) → all_have bs id ≡ under_all ts id)

  collect_terms-Collected :
      (ts : List Text) → Collected ts (collect_terms postings field_id table ts)
  unfolding collect_terms query
  collect_terms-Collected [] = (tt, λ id. refl)
  collect_terms-Collected (t ∷ ts) =
      with_first (postings.get (posting_key field_id t) table) refl
        (collect_terms postings field_id table ts) (collect_terms-Collected ts)
    where
      with_first :
          (o : Option Bitmap)
          → postings.get (posting_key field_id t) table ≡ o
          → (later : Option (List Bitmap)) → Collected ts later
          → Collected (t ∷ ts) (elim o as (λ _. Option (List Bitmap)) [
            | none ↦ none
            | some bm ↦
                if bm.cardinality == 0 then none else elim later as (λ _. Option (List Bitmap)) [
                  | none ↦ none
                  | some bms ↦ some (bm ∷ bms)
                ]
          ])
      with_first none f later c = λ id. rw f refl
      with_first (some bm) f later c = elim (Bool-cases (bm.cardinality == 0)) [
        | inl gone ↦
            let w : IsValid bm = subst IsValidEntry f (v (posting_key field_id t)) in
            rw gone (λ id. rw f (rw (cardinality-zero bm id w (ground arith)) refl))
        | inr more ↦
            let w : IsValid bm = subst IsValidEntry f (v (posting_key field_id t)) in
            rw more (with_rest w later c)
      ]
        where
          with_rest :
              IsValid bm
              → (later : Option (List Bitmap)) → Collected ts later
              → Collected (t ∷ ts) (elim later as (λ _. Option (List Bitmap)) [
                | none ↦ none
                | some bms ↦ some (bm ∷ bms)
              ])
          with_rest w none c = λ id. ground (arith, c id)
          with_rest w (some bms) c = ((w, c.0), λ id. rw f (ap (λ r. has bm id && r) (c.1 id)))

  -- If all postings are valid, QueryAnd of at least one term returns a valid bitmap that holds
  -- exactly the documents that the postings of all terms hold.
  pub query_and-has :
      (t : Text) (ts : List Text)
      → IsValid (query_and postings field_id table (t ∷ ts))
        × ((id : ℕ) → has (query_and postings field_id table (t ∷ ts)) id ≡ under_all (t ∷ ts) id)
  unfolding query_and
  query_and-has t ts =
      finish (collect_terms postings field_id table (t ∷ ts)) (collect_terms-Collected (t ∷ ts))
    where
      sorted :
          (bs : List Bitmap)
          → AreValid bs
          → ((id : ℕ) → all_have bs id ≡ under_all (t ∷ ts) id)
          → IsValid (and_bitmaps bs) × ((id : ℕ) → has (and_bitmaps bs) id ≡ under_all (t ∷ ts) id)
      sorted [] w c =
          let first =
            beyond (postings.get (posting_key field_id t) table) (v (posting_key field_id t)) in
          absurd (ground (arith, c (2 ^ 32), first))
      sorted (b ∷ bs) w c = let r = and_bitmaps-has b bs w in (r.0, λ id. r.1 id ∙ c id)

      finish :
          (o : Option (List Bitmap))
          → Collected (t ∷ ts) o
          → let r : Bitmap = elim o as (λ _. Bitmap) [
            | none ↦ empty
            | some bms ↦ and_bitmaps (sort_by_cardinality bms)
          ] in
            IsValid r × ((id : ℕ) → has r id ≡ under_all (t ∷ ts) id)
      finish none c = (empty-IsValid, λ id. has_nothing id ∙ sym (c id))
      finish (some bms) c =
          sorted (sort_by_cardinality bms) (sort-AreValid bms c.0)
            (λ id. all_have-sort bms id ∙ c.1 id)

  or_terms-has :
      (r : Bitmap) (ts : List Text)
      → IsValid r
      → IsValid (or_terms postings field_id table r ts)
        × ((id : ℕ)
            → has (or_terms postings field_id table r ts) id ≡ (has r id || under_some ts id))
  unfolding or_terms query
  or_terms-has r [] w = (w, λ id. ground arith)
  or_terms-has r (t ∷ ts) w =
      with_first (λ q b. or_terms-has q ts b) (postings.get (posting_key field_id t) table) refl
    where
      with_first :
          ((q : Bitmap)
            → IsValid q
            → IsValid (or_terms postings field_id table q ts)
              × ((id : ℕ)
                  → has (or_terms postings field_id table q ts) id
                    ≡ (has q id || under_some ts id)))
          → (o : Option Bitmap) → postings.get (posting_key field_id t) table ≡ o
          → let q : Bitmap = elim o as (λ _. Bitmap) [ none ↦ r | some bm ↦ or_with false r bm ] in
            IsValid (or_terms postings field_id table q ts)
            × ((id : ℕ)
                → has (or_terms postings field_id table q ts) id
                  ≡ (has r id || under_some (t ∷ ts) id))
      with_first next none f =
          let n = next r w in
          let nothing : (id : ℕ) → lists postings (posting_key field_id t) id table ≡ false =
            λ id. rw f refl in
          (n.0, λ id. ground (arith, n.1 id, nothing id))
      with_first next (some bm) f =
          let b : IsValid bm = subst IsValidEntry f (v (posting_key field_id t)) in
          let m = or_with-Merged false r bm (λ e. cc) w b in
          let n = next (or_with false r bm) m.valid in
          let there : (id : ℕ) → lists postings (posting_key field_id t) id table ≡ has bm id =
            λ id. rw f refl in
          (n.0, λ id. ground (arith, n.1 id, m.members id, there id))

  -- If all postings are valid, QueryOr returns a valid bitmap that holds exactly the documents
  -- that the posting of some term holds.
  pub query_or-has :
      (ts : List Text)
      → IsValid (query_or postings field_id table ts)
        × ((id : ℕ) → has (query_or postings field_id table ts) id ≡ under_some ts id)
  unfolding query_or
  query_or-has ts =
      let r = or_terms-has empty ts empty-IsValid in
      (r.0, λ id. ground (arith, r.1 id, has_nothing id))
