-- ===== src/Bitmap/Algebra/Rounds.antt =====
-- One round of `AndWith`, `and_not_with` and of the first pass of `XorWith`.
use yikv.Prelude.{
  ℕ, ◌+◌, ◌≡◌, refl, inl, inr, Bool, not, ◌&&◌, xor, List, arith, ◌==◌, Option-cases, Bool-cases,
}
use yikv.Sorted.{mem, length-eq-zero}
use yikv.Bitmap.{Chunk}
use yikv.Bitmap.Each.{values, view, IsChunk, IsIndex}
use yikv.Bitmap.Index.Search.{entry, view-entry, find_chunk-entry}
use yikv.Bitmap.Index.Entries.{entry-IsChunk}
use yikv.Bitmap.Algebra.{
  keep, and_chunk, and_round, xor_chunk, xor_round, and_not_chunk, and_not_round,
}
use yikv.Bitmap.Algebra.Chunks.{
  and_chunk-Combined, xor_chunk-Combined, and_not_chunk-Combined, smaller,
}
use yikv.Bitmap.Algebra.Walk.{Kept, Acts}

-- An entry rewritten by `f` and then kept, with a total that follows it.
keep-Kept :
    (f : Bool → Bool → Bool) (ys : List ℕ) (card card' : ℕ) (te e : Chunk)
    → IsChunk e
    → e.hi ≡ te.hi
    → ((z : ℕ) → mem z (values e.payload) ≡ f (mem z (values te.payload)) (mem z ys))
    → card' + te.cardinality ≡ card + e.cardinality
    → Kept f ys card te card' (keep e)
keep-Kept f ys card card' te e v same members count = elim (Bool-cases (e.cardinality == 0)) [
  | inl gone ↦
      rw gone
        (ground arith, λ z. ground (arith, members z, length-eq-zero (values e.payload), v.counted))
  | inr more ↦ rw more (count, v, same, ground arith, members)
]

module _ (others : List Chunk) (valid : IsIndex 0 others) where
  pub and_round-Acts : Acts ◌&&◌ others (and_round others)
  unfolding and_round
  and_round-Acts card te v full le =
      let find = find_chunk-entry others 0 te.hi valid in
      elim (Option-cases (entry others te.hi)) [
        | inl f ↦
            rw (find, and_round, f) (ground arith, λ z. ground (arith, view-entry others te.hi))
        | inr (oe, f) ↦
            let at = entry-IsChunk others 0 te.hi oe valid f in
            let c = and_chunk-Combined te oe v at.0 in
            let less = smaller ◌&&◌ te oe (and_chunk te oe) (λ a b. ground arith) v c in
            rw (find, and_round, f)
              (keep-Kept ◌&&◌ (view others te.hi) card _ te (and_chunk te oe) c.valid c.key
                (λ z. ground (arith, c.members z, view-entry others te.hi)) (omega arith))
      ]

  pub and_not_round-Acts : Acts (λ a b. a && not b) others (and_not_round others)
  unfolding and_not_round
  and_not_round-Acts card te v full le =
      let find = find_chunk-entry others 0 te.hi valid in
      elim (Option-cases (entry others te.hi)) [
        | inl f ↦
            rw (find, and_not_round, f)
              (refl, v, refl, full, λ z. ground (arith, view-entry others te.hi))
        | inr (oe, f) ↦
            let at = entry-IsChunk others 0 te.hi oe valid f in
            let c = and_not_chunk-Combined te oe v at.0 in
            let less =
              smaller (λ a b. a && not b) te oe (and_not_chunk te oe) (λ a b. ground arith) v c in
            rw (find, and_not_round, f)
              (keep-Kept (λ a b. a && not b) (view others te.hi) card _ te (and_not_chunk te oe)
                c.valid c.key (λ z. ground (arith, c.members z, view-entry others te.hi))
                (omega arith))
      ]

  pub xor_round-Acts : Acts xor others (xor_round others)
  unfolding xor_round xor
  xor_round-Acts card te v full le =
      let find = find_chunk-entry others 0 te.hi valid in
      elim (Option-cases (entry others te.hi)) [
        | inl f ↦
            rw (find, xor_round, f)
              (refl, v, refl, full, λ z. ground (arith, view-entry others te.hi))
        | inr (oe, f) ↦
            let at = entry-IsChunk others 0 te.hi oe valid f in
            let c = xor_chunk-Combined te oe v at.0 in
            rw (find, xor_round, f)
              (keep-Kept xor (view others te.hi) card _ te (xor_chunk te oe) c.valid c.key
                (λ z. ground (arith, c.members z, view-entry others te.hi)) (omega arith))
      ]
