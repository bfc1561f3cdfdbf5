-- ===== src/Index/Posting/Laws.antt =====
-- The postings after `Put` and `Delete`, key by key and document by document.
use yikv.Prelude.{
  ℕ, ◌/◌, ◌%◌, ◌^◌, ◌<◌, ◌≡◌, refl, sym, ap, subst, ◌∙◌, inl, inr, Bool, true, false, not, ◌&&◌,
  ◌||◌, List, [], ◌∷◌, Option, none, some, arith, ◌==◌, if◌then◌else◌, Bool-cases,
}
use yikv.Bitmap.{Bitmap, Chunk}
use yikv.Sorted.{mem}
use yikv.Bitmap.Each.{has, IsValid, IsFull, total, view}
use yikv.Bitmap.Point.{empty, add, remove}
use yikv.Bitmap.Point.Laws.{add-Added, remove-Removed}
use yikv.Bitmap.Algebra.Laws.{empty-IsValid}
use yikv.Index.Text.{Text, text_eq, text_eq-≡, posting_key}
use yikv.Index.Store.{MapOf, Field, Doc}
use yikv.Index.Posting.{
  terms_of, add_under, remove_under, add_to_posting, remove_from_posting, add_terms, remove_terms,
  index_doc, deindex_doc,
}

-- An empty count means an empty set.
pub cardinality-zero : (b : Bitmap) (v : ℕ) → IsValid b → b.cardinality ≡ 0 → has b v ≡ false
cardinality-zero b v w e = none_left b.chunks w.full (sym w.counted ∙ e)
  where
    none_left :
        (cs : List Chunk) → IsFull cs → total cs ≡ 0 → mem (v % 65536) (view cs (v / 65536)) ≡ false
    none_left [] f z = refl
    none_left (c ∷ cs) f z = absurd (omega arith)

pub has_nothing : (v : ℕ) → has empty v ≡ false
unfolding empty
has_nothing v = refl

abbrev pub in_bitmap : Option Bitmap → ℕ → Bool
in_bitmap o id = elim o [ none ↦ false | some b ↦ has b id ]

abbrev pub IsValidEntry : Option Bitmap → Type 0
IsValidEntry none = Unit {0}
IsValidEntry (some b) = IsValid b

-- The keys of some terms, and of a document.
abbrev pub keyed : Text → ℕ → List Text → Bool
keyed key field_id [] = false
keyed key field_id (t ∷ ts) = text_eq key (posting_key field_id t) || keyed key field_id ts

abbrev pub has_key : Text → List Field → Doc → Bool
has_key key [] doc = false
has_key key (field ∷ rest) doc =
    keyed key field.field_id (terms_of field doc) || has_key key rest doc

module _ (postings : MapOf Bitmap) where
  -- Whether the posting under a key holds a document.
  abbrev pub lists : Text → ℕ → postings.Table → Bool
  lists key id table = in_bitmap (postings.get key table) id

  abbrev pub AllValid : postings.Table → Type 0
  AllValid table = (key : Text) → IsValidEntry (postings.get key table)

  module _ (pkey : Text) (table : postings.Table) (v : AllValid table) where
    put_lem :
        (b : Bitmap)
        → IsValid b
        → AllValid (postings.put pkey b table)
          × ((key : Text) (i : ℕ)
              → lists key i (postings.put pkey b table)
                ≡ (if text_eq key pkey then has b i else lists key i table))
    put_lem b w = (
      λ key. rw (postings.get-put key pkey b table) (valid key (text_eq key pkey)),
      λ key i. rw (postings.get-put key pkey b table) (same key i (text_eq key pkey)),
    )
      where
        valid :
            (key : Text) (c : Bool) → IsValidEntry (if c then some b else postings.get key table)
        valid key true = w
        valid key false = v key

        same :
            (key : Text) (i : ℕ) (c : Bool)
            → in_bitmap (if c then some b else postings.get key table) i
              ≡ (if c then has b i else lists key i table)
        same key i true = refl
        same key i false = refl

    erase_lem :
        AllValid (postings.erase pkey table)
        × ((key : Text) (i : ℕ)
            → lists key i (postings.erase pkey table)
              ≡ (if text_eq key pkey then false else lists key i table))
    erase_lem = (
      λ key. rw (postings.get-erase key pkey table) (valid key (text_eq key pkey)),
      λ key i. rw (postings.get-erase key pkey table) (same key i (text_eq key pkey)),
    )
      where
        valid : (key : Text) (c : Bool) → IsValidEntry (if c then none else postings.get key table)
        valid key true = tt
        valid key false = v key

        same :
            (key : Text) (i : ℕ) (c : Bool)
            → in_bitmap (if c then none else postings.get key table) i
              ≡ (if c then false else lists key i table)
        same key i true = refl
        same key i false = refl

    at_key : (key : Text) (i : ℕ) → text_eq key pkey ≡ true → lists key i table ≡ lists pkey i table
    at_key key i e = ap (λ k. lists k i table) (text_eq-≡ key pkey e)

    -- What holds of the posting that is there.
    add_under-lists :
        (id : ℕ) (o : Option Bitmap)
        → id < 2 ^ 32
        → postings.get pkey table ≡ o
        → let r = add_under postings pkey id o table in
          AllValid r
          × ((key : Text) (i : ℕ)
              → lists key i r ≡ (text_eq key pkey && i == id || lists key i table))
    add_under-lists id none small f =
        let a = add-Added empty id small empty-IsValid in
        let p = put_lem (add empty id) a.valid in
        let nothing : (i : ℕ) → lists pkey i table ≡ false = λ i. rw f refl in
        (
          p.0,
          λ key i. ground (arith, p.1 key i, a.members i, nothing i, at_key key i, has_nothing i),
        )
    add_under-lists id (some bm) small f =
        let w : IsValid bm = subst IsValidEntry f (v pkey) in
        let a = add-Added bm id small w in
        let p = put_lem (add bm id) a.valid in
        let there : (i : ℕ) → lists pkey i table ≡ has bm i = λ i. rw f refl in
        (p.0, λ key i. ground (arith, p.1 key i, a.members i, there i, at_key key i))

    remove_under-lists :
        (id : ℕ) (o : Option Bitmap)
        → postings.get pkey table ≡ o
        → let r = remove_under postings pkey id o table in
          AllValid r
          × ((key : Text) (i : ℕ)
              → lists key i r ≡ (not (text_eq key pkey && i == id) && lists key i table))
    remove_under-lists id none f =
        let nothing : (i : ℕ) → lists pkey i table ≡ false = λ i. rw f refl in
        (v, λ key i. ground (arith, nothing i, at_key key i))
    remove_under-lists id (some bm) f =
        let w : IsValid bm = subst IsValidEntry f (v pkey) in
        let a = remove-Removed bm id w in
        let there : (i : ℕ) → lists pkey i table ≡ has bm i = λ i. rw f refl in
        elim (Bool-cases ((remove bm id).cardinality == 0)) [
          | inl gone ↦
              let p = erase_lem in
              rw gone (
                p.0,
                λ key i. ground (
                  arith,
                  p.1 key i,
                  a.members i,
                  there i,
                  at_key key i,
                  cardinality-zero (remove bm id) i a.valid (ground arith),
                ),
              )
          | inr some_left ↦
              let p = put_lem (remove bm id) a.valid in
              rw some_left
                (p.0, λ key i. ground (arith, p.1 key i, a.members i, there i, at_key key i))
        ]

  add_terms-lists :
      (field_id : ℕ) (terms : List Text) (id : ℕ) (table : postings.Table)
      → id < 2 ^ 32
      → AllValid table
      → let r = add_terms postings field_id terms id table in
        AllValid r
        × ((key : Text) (i : ℕ)
            → lists key i r ≡ (keyed key field_id terms && i == id || lists key i table))
  unfolding add_terms add_to_posting
  add_terms-lists field_id [] id table small v = (v, λ key i. refl)
  add_terms-lists field_id (t ∷ ts) id table small v =
      let pkey = posting_key field_id t in
      let a = add_under-lists pkey table v id (postings.get pkey table) small refl in
      let r =
        add_terms-lists field_id ts id (add_to_posting postings field_id t id table) small a.0 in
      (r.0, λ key i. ground (arith, r.1 key i, a.1 key i))

  remove_terms-lists :
      (field_id : ℕ) (terms : List Text) (id : ℕ) (table : postings.Table)
      → AllValid table
      → let r = remove_terms postings field_id terms id table in
        AllValid r
        × ((key : Text) (i : ℕ)
            → lists key i r ≡ (not (keyed key field_id terms && i == id) && lists key i table))
  unfolding remove_terms remove_from_posting
  remove_terms-lists field_id [] id table v = (v, λ key i. refl)
  remove_terms-lists field_id (t ∷ ts) id table v =
      let pkey = posting_key field_id t in
      let a = remove_under-lists pkey table v id (postings.get pkey table) refl in
      let r =
        remove_terms-lists field_id ts id (remove_from_posting postings field_id t id table) a.0 in
      (r.0, λ key i. ground (arith, r.1 key i, a.1 key i))

  pub index_doc-lists :
      (fields : List Field) (doc : Doc) (table : postings.Table)
      → doc.doc_id < 2 ^ 32
      → AllValid table
      → let r = index_doc postings fields doc table in
        AllValid r
        × ((key : Text) (i : ℕ)
            → lists key i r ≡ (has_key key fields doc && i == doc.doc_id || lists key i table))
  unfolding index_doc
  index_doc-lists [] doc table small v = (v, λ key i. refl)
  index_doc-lists (f ∷ fs) doc table small v =
      let a = add_terms-lists f.field_id (terms_of f doc) doc.doc_id table small v in
      let r =
        index_doc-lists fs doc (add_terms postings f.field_id (terms_of f doc) doc.doc_id table)
          small a.0 in
      (r.0, λ key i. ground (arith, r.1 key i, a.1 key i))

  pub deindex_doc-lists :
      (fields : List Field) (doc : Doc) (table : postings.Table)
      → AllValid table
      → let r = deindex_doc postings fields doc table in
        AllValid r
        × ((key : Text) (i : ℕ)
            → lists key i r
              ≡ (not (has_key key fields doc && i == doc.doc_id) && lists key i table))
  unfolding deindex_doc
  deindex_doc-lists [] doc table v = (v, λ key i. refl)
  deindex_doc-lists (f ∷ fs) doc table v =
      let a = remove_terms-lists f.field_id (terms_of f doc) doc.doc_id table v in
      let r =
        deindex_doc-lists fs doc
          (remove_terms postings f.field_id (terms_of f doc) doc.doc_id table) a.0 in
      (r.0, λ key i. ground (arith, r.1 key i, a.1 key i))
