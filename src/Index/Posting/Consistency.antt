-- ===== src/Index/Posting/Consistency.antt =====
-- The postings agree with the documents.
use yikv.Prelude.{
  ℕ, ◌^◌, ◌<◌, ◌≡◌, ◌≢◌, refl, sym, ap, ◌∙◌, inl, inr, ◌⊎◌, true, false, ◌&&◌, Option, none, some,
  arith, ◌==◌, Bool-cases,
}
use yikv.Bitmap.{Bitmap}
use yikv.Index.Text.{Text, text_eq, text_eq-≡, text_eq_refl}
use yikv.Index.Store
use yikv.Index.Store.{MapOf, Field, Doc, Schema, extract_pk}
use yikv.Index.Posting.{Inverted, drop_old, put, delete}
use yikv.Index.Posting.Laws.{has_key, lists, AllValid, index_doc-lists, deindex_doc-lists}

module _ (docs : MapOf Doc) (postings : MapOf Bitmap) (schema : Schema) where
  -- A posting holds the ids of the documents that have its key, and no other.
  pub record IsIndexed (ix : Inverted docs postings schema) : Type 0 where
    pub valid : AllValid postings ix.1
    pub small : (pk : Text) (d : Doc) → docs.get pk ix.0 ≡ some d → d.doc_id < 2 ^ 32
    pub unique :
        (pk qk : Text) (d e : Doc)
        → docs.get pk ix.0 ≡ some d
        → docs.get qk ix.0 ≡ some e
        → d.doc_id ≡ e.doc_id
        → pk ≡ qk
    pub sound :
        (key : Text) (i : ℕ)
        → lists postings key i ix.1 ≡ true
        → (pk : Text) × (d : Doc) × (docs.get pk ix.0 ≡ some d)
          × (d.doc_id ≡ i)
          × (has_key key schema.fields d ≡ true)
    pub complete :
        (key pk : Text) (d : Doc)
        → docs.get pk ix.0 ≡ some d
        → has_key key schema.fields d ≡ true
        → lists postings key d.doc_id ix.1 ≡ true

  -- Without the document under a primary key.
  record IsDropped (table : docs.Table) (pk : Text) (r : postings.Table) : Type 0 where
    valid : AllValid postings r
    sound :
        (key : Text) (i : ℕ)
        → lists postings key i r ≡ true
        → (qk : Text) × (d : Doc) × (docs.get qk table ≡ some d)
          × (d.doc_id ≡ i)
          × (has_key key schema.fields d ≡ true)
          × (text_eq qk pk ≡ false)
    complete :
        (key qk : Text) (d : Doc)
        → docs.get qk table ≡ some d
        → text_eq qk pk ≡ false
        → has_key key schema.fields d ≡ true
        → lists postings key d.doc_id r ≡ true

  drop_old-IsDropped :
      (ix : Inverted docs postings schema) (pk : Text) (o : Option Doc)
      → IsIndexed ix
      → docs.get pk ix.0 ≡ o
      → IsDropped ix.0 pk (drop_old docs postings schema o ix.1)
  unfolding drop_old
  drop_old-IsDropped ix pk none v f = record {
    valid = v.valid;
    sound = λ key i h. let (qk, d, g, e, k) = v.sound key i h in (qk, d, g, e, k, other qk d g);
    complete = λ key qk d g n k. v.complete key qk d g k;
  }
    where
      other : (qk : Text) (d : Doc) → docs.get qk ix.0 ≡ some d → text_eq qk pk ≡ false
      other qk d g = elim (Bool-cases (text_eq qk pk)) [
        | inr n ↦ n
        | inl same ↦
            absurd
              (none-some (sym f ∙ (ap (λ k. docs.get k ix.0) (sym (text_eq-≡ qk pk same)) ∙ g)))
      ]
        where
          nothing : Option Doc
          nothing = none

          none-some : nothing ≢ some d
          none-some e = cc
  drop_old-IsDropped ix pk (some old) v f =
      let r = deindex_doc-lists postings schema.fields old ix.1 v.valid in
      record {
        valid = r.0;
        sound = λ key i h.
            let (qk, d, g, e, k) = v.sound key i (ground (arith, r.1 key i)) in
            (
              qk,
              d,
              g,
              e,
              k,
              elim (Bool-cases (text_eq qk pk)) [
                | inr n ↦ n
                | inl same ↦
                    let here : some d ≡ some old =
                      sym g ∙ (ap (λ k. docs.get k ix.0) (text_eq-≡ qk pk same) ∙ f) in
                    let d-old : d ≡ old = cc in
                    let kept : has_key key schema.fields old ≡ true = rw d-old at k in
                    let id : old.doc_id ≡ i = rw d-old at e in absurd (ground (arith, r.1 key i))
              ],
            );
        complete = λ key qk d g n k.
            let c = v.complete key qk d g k in
            let other : d.doc_id ≢ old.doc_id = λ e.
              let same = v.unique qk pk d old g f e in
              let yes_same : text_eq qk pk ≡ true = rw same (text_eq_refl pk) in cc in
            ground (arith, r.1 key d.doc_id);
      }

  -- The table after a `put`, key by key.
  put_found :
      (table : docs.Table) (pk qk : Text) (doc d : Doc)
      → docs.get qk (docs.put pk doc table) ≡ some d
      → ((qk ≡ pk) × (d ≡ doc)) ⊎ ((text_eq qk pk ≡ false) × (docs.get qk table ≡ some d))
  put_found table pk qk doc d g = elim (Bool-cases (text_eq qk pk)) [
    | inl same ↦
        let here : some doc ≡ some d = sym (docs.get-put qk pk doc table ∙ rw same refl) ∙ g in
        inl (text_eq-≡ qk pk same, cc)
    | inr other ↦ inr (other, sym (docs.get-put qk pk doc table ∙ rw other refl) ∙ g)
  ]

  put_other :
      (table : docs.Table) (pk qk : Text) (doc d : Doc)
      → text_eq qk pk ≡ false
      → docs.get qk table ≡ some d
      → docs.get qk (docs.put pk doc table) ≡ some d
  put_other table pk qk doc d other g = docs.get-put qk pk doc table ∙ (rw other g)

  put_here :
      (table : docs.Table) (pk : Text) (doc : Doc) → docs.get pk (docs.put pk doc table) ≡ some doc
  put_here table pk doc = docs.get-put pk pk doc table ∙ (rw (text_eq_refl pk) refl)

  -- If the postings agree with the documents, the new document has a 32-bit id and no stored
  -- document has that id, then they agree again after Put: every posting is a valid bitmap, ids
  -- stay unique, and a posting holds exactly the ids of the stored documents that have its key.
  pub put-IsIndexed :
      (ix : Inverted docs postings schema) (doc : Doc)
      → IsIndexed ix
      → doc.doc_id < 2 ^ 32
      → ((pk : Text) (d : Doc) → docs.get pk ix.0 ≡ some d → d.doc_id ≢ doc.doc_id)
      → IsIndexed (put docs postings schema doc ix)
  unfolding put Store.upsert Store.put Store.get
  put-IsIndexed ix doc v small fresh =
      let pk = extract_pk schema doc in
      let table = ix.0 in
      let d = drop_old-IsDropped ix pk (docs.get pk table) v refl in
      let dropped = drop_old docs postings schema (docs.get pk table) ix.1 in
      let r = index_doc-lists postings schema.fields doc dropped small d.valid in
      record {
        valid = r.0;
        small = λ qk e g. elim (put_found table pk qk doc e g) [
          | inl (a, b) ↦ rw b small
          | inr (a, b) ↦ v.small qk e b
        ];
        unique = λ qk rk e e' g h same. elim (put_found table pk qk doc e g) [
          | inl (a, b) ↦ elim (put_found table pk rk doc e' h) [
            | inl (a', b') ↦ a ∙ sym a'
            | inr (a', b') ↦ absurd (fresh rk e' b' (sym same ∙ ap (λ z. z.doc_id) b))
          ]
          | inr (a, b) ↦ elim (put_found table pk rk doc e' h) [
            | inl (a', b') ↦ absurd (fresh qk e b (same ∙ ap (λ z. z.doc_id) b'))
            | inr (a', b') ↦ v.unique qk rk e e' b b' same
          ]
        ];
        sound = λ key i h. elim (Bool-cases (has_key key schema.fields doc && i == doc.doc_id)) [
          | inl new ↦ (pk, doc, put_here table pk doc, ground arith, ground arith)
          | inr old ↦
              let (qk, e, g, same, k, other) = d.sound key i (ground (arith, r.1 key i)) in
              (qk, e, put_other table pk qk doc e other g, same, k)
        ];
        complete = λ key qk e g k. elim (put_found table pk qk doc e g) [
          | inl (a, b) ↦
              let k' : has_key key schema.fields doc ≡ true = rw b at k in
              rw b (ground (arith, r.1 key doc.doc_id))
          | inr (a, b) ↦ let c = d.complete key qk e b a k in ground (arith, r.1 key e.doc_id)
        ];
      }

  -- If the postings agree with the documents, they agree again after Delete of any primary key,
  -- whether or not a document is stored under it.
  pub delete-IsIndexed :
      (ix : Inverted docs postings schema) (pk : Text)
      → IsIndexed ix
      → IsIndexed (delete docs postings schema pk ix)
  unfolding delete Store.delete Store.get
  delete-IsIndexed ix pk v =
      let table = ix.0 in
      let d = drop_old-IsDropped ix pk (docs.get pk table) v refl in
      record {
        valid = d.valid;
        small = λ qk e g. v.small qk e (delete_found table pk qk e g).1;
        unique = λ qk rk e e' g h same.
            v.unique qk rk e e' (delete_found table pk qk e g).1 (delete_found table pk rk e' h).1
              same;
        sound = λ key i h.
            let (qk, e, g, same, k, other) = d.sound key i h in
            (qk, e, docs.get-erase qk pk table ∙ rw other g, same, k);
        complete =
            λ key qk e g k. let f = delete_found table pk qk e g in d.complete key qk e f.1 f.0 k;
      }
    where
      delete_found :
          (table : docs.Table) (pk qk : Text) (e : Doc)
          → docs.get qk (docs.erase pk table) ≡ some e
          → (text_eq qk pk ≡ false) × (docs.get qk table ≡ some e)
      delete_found table pk qk e g = elim (Bool-cases (text_eq qk pk)) [
        | inl same ↦ absurd (none-some (sym (docs.get-erase qk pk table ∙ rw same refl) ∙ g))
        | inr other ↦ (other, sym (docs.get-erase qk pk table ∙ rw other refl) ∙ g)
      ]
        where
          nothing : Option Doc
          nothing = none

          none-some : nothing ≢ some e
          none-some p = cc
