-- ===== src/Bitmap/Bulk/Chunks.antt =====
-- `BulkAdd` inside one chunk, for a run of strictly ascending values.
use yikv.Prelude.{
  ℕ, suc, ◌+◌, ◌*◌, ◌/◌, ◌≤◌, ◌<◌, ◌≡◌, refl, sym, ap, subst, ◌∙◌, inl, inr, true, false, ◌||◌,
  List, [], ◌∷◌, Option, none, some, arith, ltb, max, ◌==◌, if◌then◌else◌, length, Bool-cases,
}
use yikv.Sorted
use yikv.Sorted.{mem, IsAscending, IsBelow, length-eq-zero, length-subset}
use yikv.Bitmap.{Chunk, array, bitmap, Words}
use yikv.Bitmap.Words.{test_bit, set_bit, collect}
use yikv.Bitmap.Words.Laws.{
  collect-IsAscending, collect-IsBelow, mem-collect_small, collect-set_bit,
}
use yikv.Bitmap.Each.{values, IsChunk, Fits, Payload-cases}
use yikv.Bitmap.Convert.{grow_array}
use yikv.Bitmap.Convert.Laws.{to_bitmap-IsChunk}
use yikv.Bitmap.Merge.{merge_or}
use yikv.Bitmap.Merge.Laws.{mem-merge_or, merge_or-IsAscending, merge_or-IsBelow, length-merge_or}
use yikv.Bitmap.Bulk.{bulk_bits, dedup_after, dedup, append_new, merge_bulk, bulk_chunk, settle}

bulk_bits_lem :
    (w : Words) (los : List ℕ)
    → IsBelow 65536 los
    → ((z : ℕ) → mem z (collect (bulk_bits w los).0) ≡ (mem z (collect w) || mem z los))
      × (length (collect (bulk_bits w los).0) ≡ length (collect w) + (bulk_bits w los).1)
unfolding bulk_bits
bulk_bits_lem w [] low = (λ z. ground arith, omega arith)
bulk_bits_lem w (lo ∷ los) low = elim (Bool-cases (test_bit w lo)) [
  | inl old ↦
      let r = bulk_bits_lem w los low.1 in
      rw old (
        λ z.
            ground
              (arith, r.0 z, mem-collect_small lo w, λ (e : z ≡ lo). ap (λ x. mem x (collect w)) e),
        omega (arith, r.1),
      )
  | inr new ↦
      let r = bulk_bits_lem (set_bit w lo) los low.1 in
      let s = collect-set_bit w lo low.0 in
      rw new (
        λ z. ground (arith, r.0 z, s, Sorted.mem-insert z lo (collect w)),
        ground (
          arith,
          r.1,
          s,
          mem-collect_small lo w,
          Sorted.length-insert 0 lo (collect w) (collect-IsAscending w),
        ),
      )
]

dedup_after_lem :
    (prev n : ℕ) (los : List ℕ) → prev < n → IsAscending n los → dedup_after prev los ≡ los
unfolding dedup_after
dedup_after_lem prev n [] h v = refl
dedup_after_lem prev n (lo ∷ los) h v =
    ground (arith, dedup_after_lem lo (suc lo) los (omega arith) v.1)

dedup_lem : (n : ℕ) (los : List ℕ) → IsAscending n los → dedup los ≡ los
unfolding dedup
dedup_lem n [] v = refl
dedup_lem n (lo ∷ los) v = ap (λ r. lo ∷ r) (dedup_after_lem lo (suc lo) los (omega arith) v.1)

abbrev Follows : Option ℕ → ℕ → Type 0
Follows none n = Unit {0}
Follows (some last) n = last < n

append_new_lem :
    (last : Option ℕ) (n : ℕ) (los : List ℕ)
    → Follows last n
    → IsAscending n los
    → append_new last los ≡ los
unfolding append_new
append_new_lem none n los h v = dedup_lem n los v
append_new_lem (some last) n los h v = dedup_after_lem last n los h v

merge_bulk-merge_or :
    (last : Option ℕ) (n : ℕ) (xs ys : List ℕ)
    → Follows last n
    → IsAscending n xs
    → IsAscending n ys
    → merge_bulk last xs ys ≡ merge_or xs ys
unfolding merge_bulk merge_or
merge_bulk-merge_or last n [] ys h a b = append_new_lem last n ys h b
merge_bulk-merge_or last n (x ∷ xs) [] h a b = refl
merge_bulk-merge_or last n (x ∷ xs) (y ∷ ys) h a b = ground (
  arith,
  λ (l : x < y). merge_bulk-merge_or (some x) (suc x) xs (y ∷ ys) (omega arith) a.1 (l, b.1),
  λ (l : y < x). merge_bulk-merge_or (some y) (suc y) (x ∷ xs) ys (omega arith) (l, a.1) b.1,
  λ (e : x ≡ y).
      merge_bulk-merge_or (some x) (suc x) xs ys (omega arith) a.1
        (subst (λ k. IsAscending (suc k) ys) (sym e) b.1),
)

-- What one run makes of an entry: `n` more values.
pub record Grown (e : Chunk) (los : List ℕ) (r : Chunk) (n : ℕ) : Type 0 where
  pub valid : IsChunk r
  pub key : r.hi ≡ e.hi
  pub members : (z : ℕ) → mem z (values r.payload) ≡ (mem z (values e.payload) || mem z los)
  pub counted : r.cardinality ≡ e.cardinality + n

abbrev pub Grows : Chunk → List ℕ → Type 0
Grows e los = Grown e los (settle (bulk_chunk e los).0) (bulk_chunk e los).1

settle_lem :
    (e : Chunk) (xs : List ℕ)
    → e.payload ≡ array xs
    → e.hi < 65536
    → IsAscending 0 xs
    → IsBelow 65536 xs
    → e.cardinality ≡ length xs
    → e.cardinality * 2 ≤ e.payload_len
    → IsChunk (settle e)
      × ((settle e).hi ≡ e.hi)
      × (values (settle e).payload ≡ xs)
      × ((settle e).cardinality ≡ e.cardinality)
unfolding settle
settle_lem e xs p small asc low count fits = ground (arith, to_bitmap-IsChunk e xs p)

module _ (e : Chunk) (los : List ℕ) (v : IsChunk e) (asc : IsAscending 0 los)
    (low : IsBelow 65536 los) where
  bulk_chunk-Grown_bits : (w : Words) → e.payload ≡ bitmap w → Grows e los
  unfolding bulk_chunk settle
  bulk_chunk-Grown_bits w p =
      let r = bulk_bits_lem w los low in
      let fit : (8192 ≤ e.payload_len) × (2048 ≤ e.cardinality) =
        subst (λ q. Fits q e.cardinality e.payload_len) p v.fits in
      let count : e.cardinality ≡ length (collect w) =
        subst (λ q. e.cardinality ≡ length (values q)) p v.counted in
      rw p (record {
        valid = record {
          hi_small = v.hi_small;
          ascending = collect-IsAscending (bulk_bits w los).0;
          below = collect-IsBelow (bulk_bits w los).0;
          counted = omega (arith, r.1, count);
          fits = (fit.0, omega (arith, fit.1));
        };
        key = refl;
        members = λ z. ground (arith, r.0 z, ap values p);
        counted = refl;
      })

  module _ (a : List ℕ) (p : e.payload ≡ array a) where
    a-IsAscending : IsAscending 0 a
    a-IsAscending = subst (λ q. IsAscending 0 (values q)) p v.ascending

    a_counted : e.cardinality ≡ length a
    a_counted = subst (λ q. e.cardinality ≡ length (values q)) p v.counted

    bulk_chunk-Grown_fill : (e.cardinality == 0) ≡ true → Grows e los
    unfolding bulk_chunk grow_array
    bulk_chunk-Grown_fill none_there =
        let nothing : a ≡ [] = length-eq-zero a (ground (arith, a_counted)) in
        let same = dedup_lem 0 los asc in
        let e₁ : Chunk =
          if ltb (e.payload_len / 2) (length los) then grow_array e (max (length los) 16) else e in
        let room : (length los * 2 ≤ e₁.payload_len) × (e₁.hi ≡ e.hi) = ground arith in
        let s =
          settle_lem (record e₁ { payload = array los; cardinality = length los }) los refl
            (rw room.1 v.hi_small) asc low refl room.0 in
        rw (p, bulk_chunk, none_there, same)
          (record {
            valid = s.0;
            key = s.1 ∙ room.1;
            members = λ z. ground (arith, s.2, nothing);
            counted = ground (arith, s.3);
          })

    bulk_chunk-Grown_merge : (e.cardinality == 0) ≡ false → Grows e los
    unfolding bulk_chunk
    bulk_chunk-Grown_merge some_there =
        let same = merge_bulk-merge_or none 0 a los tt a-IsAscending asc in
        let out = merge_or a los in
        let room = length-merge_or a los in
        let low' : IsBelow 65536 a = subst (λ q. IsBelow 65536 (values q)) p v.below in
        let s =
          settle_lem
            (record e {
              payload = array out;
              payload_len = (e.cardinality + length los) * 2;
              cardinality = length out;
            })
            out refl v.hi_small (merge_or-IsAscending 0 a los a-IsAscending asc)
            (merge_or-IsBelow 65536 a los low' low) refl (omega (arith, room, a_counted)) in
        let more : length a ≤ length out =
          length-subset 0 0 a out a-IsAscending (merge_or-IsAscending 0 a los a-IsAscending asc)
            (λ z. ground (arith, mem-merge_or z a los)) in
        rw (p, bulk_chunk, some_there, same)
          (record {
            valid = s.0;
            key = s.1;
            members = λ z. ground (arith, s.2, mem-merge_or z a los);
            counted = omega (arith, s.3, more, a_counted);
          })

  pub bulk_chunk-Grown : Grows e los
  bulk_chunk-Grown = elim (Payload-cases e.payload) [
    | inr (w, p) ↦ bulk_chunk-Grown_bits w p
    | inl (a, p) ↦ elim (Bool-cases (e.cardinality == 0)) [
      | inl none_there ↦ bulk_chunk-Grown_fill a p none_there
      | inr some_there ↦ bulk_chunk-Grown_merge a p some_there
    ]
  ]
