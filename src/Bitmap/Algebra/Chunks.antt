-- ===== src/Bitmap/Algebra/Chunks.antt =====
-- The set operations on two chunks under one key.
use yikv.Prelude.{
  ℕ, ◌+◌, ◌*◌, ◌/◌, ◌%◌, ◌≤◌, ◌≡◌, refl, sym, subst, ap, Bool, true, false, not, ◌&&◌, ◌||◌, xor,
  List, arith, ltb, length, min,
}
use yikv.Sorted.{mem, IsAscending, IsBelow, length-subset}
use yikv.Bitmap.{Chunk, Payload, array, bitmap, Words}
use yikv.Bitmap.Words.Laws.{mem-collect}
use yikv.Bitmap.Each.{values, IsChunk, Fits}
use yikv.Bitmap.Convert.{chunk_to_words}
use yikv.Bitmap.Convert.Laws.{build_from_words-IsChunk, to_bitmap-IsChunk, mem-chunk_to_words}
use yikv.Bitmap.Merge.{merge_or, merge_and, merge_and_not}
use yikv.Bitmap.Merge.Laws.{
  mem-merge_or, merge_or-IsAscending, merge_or-IsBelow, length-merge_or, mem-merge_and,
  merge_and-IsAscending, merge_and-IsBelow, length-merge_and, mem-merge_and_not,
  merge_and_not-IsAscending, merge_and_not-IsBelow, length-merge_and_not,
}
use yikv.Bitmap.Algebra.{
  with_array, with_words, or_payloads, or_chunk, and_payloads, and_chunk, xor_chunk,
  and_not_payloads, and_not_chunk,
}

-- The result of an operation that acts on membership by `f`.
pub record Combined (f : Bool → Bool → Bool) (te oe r : Chunk) : Type 0 where
  pub valid : IsChunk r
  pub key : r.hi ≡ te.hi
  pub members :
      (z : ℕ) → mem z (values r.payload) ≡ f (mem z (values te.payload)) (mem z (values oe.payload))

module _ (f : Bool → Bool → Bool) (none_gives_none : f false false ≡ false) (te oe : Chunk)
    (tv : IsChunk te) (ov : IsChunk oe) where
  gated : (c a b : Bool) → (c && f a b) ≡ f (c && a) (c && b)
  gated true a b = refl
  gated false a b = sym none_gives_none

  with_words-Combined :
      Combined f te oe
        (with_words te λ i j. f (chunk_to_words te.payload i j) (chunk_to_words oe.payload i j))
  with_words-Combined =
      let w : Words = λ i j. f (chunk_to_words te.payload i j) (chunk_to_words oe.payload i j) in
      let b = build_from_words-IsChunk te w tv.hi_small in
      record {
        valid = b.0;
        key = b.1;
        members = λ z.
            rw
              (
                b.2,
                mem-collect z w,
                mem-chunk_to_words te.payload z tv.ascending tv.below,
                mem-chunk_to_words oe.payload z ov.ascending ov.below,
              )
              (gated (ltb z 65536) (chunk_to_words te.payload (z / 64) (z % 64))
                (chunk_to_words oe.payload (z / 64) (z % 64)));
      }

  with_words_at-Combined :
      (p q : Payload)
      → te.payload ≡ p
      → oe.payload ≡ q
      → Combined f te oe (with_words te λ i j. f (chunk_to_words p i j) (chunk_to_words q i j))
  with_words_at-Combined p q e d =
      subst
        (λ r.
          Combined f te oe (with_words te λ i j. f (chunk_to_words r i j) (chunk_to_words q i j)))
        e
        (subst
          (λ r.
            Combined f te oe
              (with_words te λ i j. f (chunk_to_words te.payload i j) (chunk_to_words r i j)))
          d with_words-Combined)

-- What the loops over two arrays need of the chunks.
module _ (te oe : Chunk) (tv : IsChunk te) (ov : IsChunk oe) (ta oa : List ℕ)
    (p : te.payload ≡ array ta) (q : oe.payload ≡ array oa) where
  ta-IsAscending : IsAscending 0 ta
  ta-IsAscending = subst (λ r. IsAscending 0 (values r)) p tv.ascending

  oa-IsAscending : IsAscending 0 oa
  oa-IsAscending = subst (λ r. IsAscending 0 (values r)) q ov.ascending

  ta-IsBelow : IsBelow 65536 ta
  ta-IsBelow = subst (λ r. IsBelow 65536 (values r)) p tv.below

  oa-IsBelow : IsBelow 65536 oa
  oa-IsBelow = subst (λ r. IsBelow 65536 (values r)) q ov.below

  ta_counted : te.cardinality ≡ length ta
  ta_counted = subst (λ r. te.cardinality ≡ length (values r)) p tv.counted

  oa_counted : oe.cardinality ≡ length oa
  oa_counted = subst (λ r. oe.cardinality ≡ length (values r)) q ov.counted

  ta_small : te.cardinality ≤ 4096
  ta_small =
      let fit : (te.cardinality * 2 ≤ te.payload_len) × (te.cardinality ≤ 4096) =
        subst (λ r. Fits r te.cardinality te.payload_len) p tv.fits in
      fit.1

  or_arrays-Combined : Combined ◌||◌ te oe (or_payloads te oe (array ta) (array oa))
  unfolding or_payloads
  or_arrays-Combined =
      let out = merge_or ta oa in
      let asc = merge_or-IsAscending 0 ta oa ta-IsAscending oa-IsAscending in
      let low = merge_or-IsBelow 65536 ta oa ta-IsBelow oa-IsBelow in
      let e = with_array te out (te.cardinality + oe.cardinality) in
      let fits : length out ≤ te.cardinality + oe.cardinality =
        omega (arith, length-merge_or ta oa, ta_counted, oa_counted) in
      let small = tv.hi_small in
      let wide = to_bitmap-IsChunk e out refl in
      record {
        valid = ground (arith, wide);
        key = ground (arith, wide);
        members = λ z. ground (arith, wide, mem-merge_or z ta oa, ap values p, ap values q);
      }

  and_arrays-Combined : Combined ◌&&◌ te oe (and_payloads te oe (array ta) (array oa))
  unfolding and_payloads
  and_arrays-Combined =
      let out = merge_and ta oa in
      let asc = merge_and-IsAscending 0 ta oa ta-IsAscending in
      let low = merge_and-IsBelow 65536 ta oa ta-IsBelow in
      let fits : length out ≤ min te.cardinality oe.cardinality =
        omega (arith, length-merge_and ta oa, ta_counted, oa_counted) in
      record {
        valid = ground (arith, tv.hi_small, ta_small);
        key = refl;
        members = λ z. rw (p, q) (mem-merge_and z 0 ta oa ta-IsAscending oa-IsAscending);
      }

  and_not_arrays-Combined :
      Combined (λ a b. a && not b) te oe (and_not_payloads te oe (array ta) (array oa))
  unfolding and_not_payloads
  and_not_arrays-Combined =
      let out = merge_and_not ta oa in
      let asc = merge_and_not-IsAscending 0 ta oa ta-IsAscending in
      let low = merge_and_not-IsBelow 65536 ta oa ta-IsBelow in
      let fits : length out ≤ te.cardinality =
        omega (arith, length-merge_and_not ta oa, ta_counted) in
      record {
        valid = ground (arith, tv.hi_small, ta_small);
        key = refl;
        members = λ z. rw (p, q) (mem-merge_and_not z 0 ta oa ta-IsAscending oa-IsAscending);
      }

module _ (te oe : Chunk) (tv : IsChunk te) (ov : IsChunk oe) where
  or_payloads-Combined :
      (p q : Payload)
      → te.payload ≡ p
      → oe.payload ≡ q
      → Combined ◌||◌ te oe (or_payloads te oe p q)
  unfolding or_payloads
  or_payloads-Combined (array ta) (array oa) p q = or_arrays-Combined te oe tv ov ta oa p q
  or_payloads-Combined (array ta) (bitmap ow) p q =
      with_words_at-Combined ◌||◌ refl te oe tv ov (array ta) (bitmap ow) p q
  or_payloads-Combined (bitmap tw) o p q =
      with_words_at-Combined ◌||◌ refl te oe tv ov (bitmap tw) o p q

  and_payloads-Combined :
      (p q : Payload)
      → te.payload ≡ p
      → oe.payload ≡ q
      → Combined ◌&&◌ te oe (and_payloads te oe p q)
  unfolding and_payloads
  and_payloads-Combined (array ta) (array oa) p q = and_arrays-Combined te oe tv ov ta oa p q
  and_payloads-Combined (array ta) (bitmap ow) p q =
      with_words_at-Combined ◌&&◌ refl te oe tv ov (array ta) (bitmap ow) p q
  and_payloads-Combined (bitmap tw) o p q =
      with_words_at-Combined ◌&&◌ refl te oe tv ov (bitmap tw) o p q

  and_not_payloads-Combined :
      (p q : Payload)
      → te.payload ≡ p
      → oe.payload ≡ q
      → Combined (λ a b. a && not b) te oe (and_not_payloads te oe p q)
  unfolding and_not_payloads
  and_not_payloads-Combined (array ta) (array oa) p q =
      and_not_arrays-Combined te oe tv ov ta oa p q
  and_not_payloads-Combined (array ta) (bitmap ow) p q =
      with_words_at-Combined (λ a b. a && not b) refl te oe tv ov (array ta) (bitmap ow) p q
  and_not_payloads-Combined (bitmap tw) o p q =
      with_words_at-Combined (λ a b. a && not b) refl te oe tv ov (bitmap tw) o p q

  pub or_chunk-Combined : Combined ◌||◌ te oe (or_chunk te oe)
  unfolding or_chunk
  or_chunk-Combined = or_payloads-Combined te.payload oe.payload refl refl

  pub and_chunk-Combined : Combined ◌&&◌ te oe (and_chunk te oe)
  unfolding and_chunk
  and_chunk-Combined = and_payloads-Combined te.payload oe.payload refl refl

  pub and_not_chunk-Combined : Combined (λ a b. a && not b) te oe (and_not_chunk te oe)
  unfolding and_not_chunk
  and_not_chunk-Combined = and_not_payloads-Combined te.payload oe.payload refl refl

  pub xor_chunk-Combined : Combined xor te oe (xor_chunk te oe)
  unfolding xor_chunk xor
  xor_chunk-Combined = with_words-Combined xor refl te oe tv ov

-- How the sizes compare.
pub larger :
    (f : Bool → Bool → Bool) (te oe r : Chunk)
    → ((a b : Bool) → (a && not (f a b)) ≡ false)
    → IsChunk te
    → Combined f te oe r
    → te.cardinality ≤ r.cardinality
larger f te oe r above v c = omega (
  arith,
  v.counted,
  c.valid.counted,
  length-subset 0 0 (values te.payload) (values r.payload) v.ascending c.valid.ascending
      λ z. rw (c.members z) (above (mem z (values te.payload)) (mem z (values oe.payload))),
)

pub smaller :
    (f : Bool → Bool → Bool) (te oe r : Chunk)
    → ((a b : Bool) → (f a b && not a) ≡ false)
    → IsChunk te
    → Combined f te oe r
    → r.cardinality ≤ te.cardinality
smaller f te oe r under v c = omega (
  arith,
  v.counted,
  c.valid.counted,
  length-subset 0 0 (values r.payload) (values te.payload) c.valid.ascending v.ascending
      λ z. rw (c.members z) (under (mem z (values te.payload)) (mem z (values oe.payload))),
)
