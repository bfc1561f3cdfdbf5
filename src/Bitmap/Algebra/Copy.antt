-- ===== src/Bitmap/Algebra/Copy.antt =====
-- A chunk copied under a key that holds nothing yet.
use yikv.Prelude.{
  ℕ, suc, ◌*◌, ◌≤◌, ◌<◌, ◌≡◌, refl, sym, subst, ap, ◌∙◌, inl, inr, true, false, not, ◌&&◌, ◌||◌,
  List, [], ◌∷◌, arith, ◌==◌, length, Bool-cases,
}
use yikv.Sorted.{mem, length-eq-zero}
use yikv.Bitmap.{Bitmap, Chunk, Payload, array, bitmap}
use yikv.Bitmap.Each.{values, view, IsChunk, IsIndex, IsFull, IsFullBut, IsSound, IsValid, Fits}
use yikv.Bitmap.Convert.{payload_bytes}
use yikv.Bitmap.Index.{get_or_create}
use yikv.Bitmap.Index.Entries.{IsFull-but, view_below}
use yikv.Bitmap.Index.Laws.{Replaces, Joins, Located, get_or_create-Located}
use yikv.Bitmap.Algebra.{
  copy_chunk, copy_at, copy_append_chunk, or_chunk, or_at, or_step, or_loop, in_snapshot,
  xor_copies,
}
use yikv.Bitmap.Algebra.Chunks.{Combined, or_chunk-Combined, larger}

copy_chunk-IsChunk : (te src : Chunk) → te.hi ≡ src.hi → IsChunk src → IsChunk (copy_chunk te src)
unfolding copy_chunk payload_bytes
copy_chunk-IsChunk te src same v = record {
  hi_small = rw same v.hi_small;
  ascending = v.ascending;
  below = v.below;
  counted = v.counted;
  fits = fit src.payload refl;
}
  where
    fit : (p : Payload) → src.payload ≡ p → Fits src.payload src.cardinality (payload_bytes src)
    fit (array a) e =
        let f : (src.cardinality * 2 ≤ src.payload_len) × (src.cardinality ≤ 4096) =
          subst (λ q. Fits q src.cardinality src.payload_len) e v.fits in
        rw e (omega arith, f.1)
    fit (bitmap w) e =
        let f : (8192 ≤ src.payload_len) × (2048 ≤ src.cardinality) =
          subst (λ q. Fits q src.cardinality src.payload_len) e v.fits in
        rw e (omega arith, f.1)

module _ (b : Bitmap) (src : Chunk) (te : Chunk) (vs : IsChunk src) (filled : 0 < src.cardinality)
    (t : Located b src.hi (get_or_create src.hi b).0 (get_or_create src.hi b).1 te)
    (but : IsFullBut src.hi b.chunks) where
  copy_append_chunk-Replaces_at :
      te.cardinality ≡ 0 → Replaces b src.hi (values src.payload) (copy_append_chunk b src)
  unfolding copy_append_chunk copy_chunk
  copy_append_chunk-Replaces_at empty =
      rw (t.found, copy_at)
        (t.stores (copy_chunk te src) _ t.key (copy_chunk-IsChunk te src t.key vs) filled but
          (omega (arith, t.cardinality)))

  -- What a fresh entry or one that holds nothing becomes.
  or_at-Replaces :
      (te.cardinality == 0) ≡ false
      → let r = or_step b src in
        (e : Chunk) × Combined ◌||◌ te src e × Replaces b src.hi (values e.payload) r
  unfolding or_step
  or_at-Replaces some_there =
      let c = or_chunk-Combined te src t.valid vs in
      let more = larger ◌||◌ te src (or_chunk te src) (λ a b. ground arith) t.valid c in
      (
        or_chunk te src,
        c,
        rw (t.found, or_at, some_there)
            (t.stores (or_chunk te src) _ (c.key ∙ t.key) c.valid (ground arith) but
              (omega (arith, t.cardinality, more))),
      )

pub copy_append_chunk-Replaces :
    (b : Bitmap) (src : Chunk)
    → IsSound b
    → IsFullBut src.hi b.chunks
    → view b.chunks src.hi ≡ []
    → IsChunk src
    → 0 < src.cardinality
    → Replaces b src.hi (values src.payload) (copy_append_chunk b src)
copy_append_chunk-Replaces b src v but free vs filled =
    let (te, t) = get_or_create-Located b src.hi vs.hi_small v in
    copy_append_chunk-Replaces_at b src te vs filled t but
      (t.valid.counted ∙ ap length (t.holds ∙ free))

module _ (b : Bitmap) (src : Chunk) (v : IsValid b) (vs : IsChunk src)
    (filled : 0 < src.cardinality) (te : Chunk)
    (t : Located b src.hi (get_or_create src.hi b).0 (get_or_create src.hi b).1 te) where
  or_step-Joins_fresh :
      (te.cardinality == 0) ≡ true → Joins b src.hi (values src.payload) (or_step b src)
  unfolding or_step
  or_step-Joins_fresh none_there =
      let nothing : values te.payload ≡ [] =
        length-eq-zero (values te.payload) (ground (arith, t.valid.counted)) in
      let free : view b.chunks src.hi ≡ [] = sym t.holds ∙ nothing in
      let s =
        copy_append_chunk-Replaces (get_or_create src.hi b).0 src t.sound
          (t.full_but (IsFull-but src.hi b.chunks v.full)) (t.same_view src.hi ∙ free) vs filled in
      rw (t.found, or_at, none_there)
        (s.0, λ h z. ground (arith, s.1 h, t.same_view h, λ (e : h ≡ src.hi). ap (view b.chunks) e))

  or_step-Joins_at : Joins b src.hi (values src.payload) (or_step b src)
  or_step-Joins_at = elim (Bool-cases (te.cardinality == 0)) [
    | inl none_there ↦ or_step-Joins_fresh none_there
    | inr some_there ↦
        let (e, c, s) =
          or_at-Replaces b src te vs filled t (IsFull-but src.hi b.chunks v.full) some_there in
        (
          s.0,
          λ h z.
              ground (arith, s.1 h, c.members z, t.holds, λ (e : h ≡ src.hi). ap (view b.chunks) e),
        )
  ]

or_step-Joins :
    (b : Bitmap) (src : Chunk)
    → IsValid b
    → IsChunk src
    → 0 < src.cardinality
    → Joins b src.hi (values src.payload) (or_step b src)
or_step-Joins b src v vs filled =
    let (te, t) = get_or_create-Located b src.hi vs.hi_small v.sound in
    or_step-Joins_at b src v vs filled te t

pub or_loop-lem :
    (b : Bitmap) (others : List Chunk) (n : ℕ)
    → IsValid b
    → IsIndex n others
    → IsFull others
    → IsValid (or_loop b others)
      × ((h z : ℕ)
          → mem z (view (or_loop b others).chunks h)
            ≡ (mem z (view b.chunks h) || mem z (view others h)))
unfolding or_loop
or_loop-lem b [] n v w f = (v, λ h z. ground arith)
or_loop-lem b (oe ∷ rest) n v w f =
    let s = or_step-Joins b oe v w.1 f.0 in
    let r = or_loop-lem (or_step b oe) rest (suc oe.hi) s.0 w.2 f.1 in
    (r.0, λ h z. ground (arith, r.1 h z, s.1 h z, view_below rest (suc oe.hi) h w.2))

pub xor_copies_lem :
    (snapshot : List Chunk) (b : Bitmap) (others : List Chunk) (n : ℕ)
    → IsValid b
    → IsIndex n others
    → IsFull others
    → ((h : ℕ) → n ≤ h → in_snapshot snapshot h ≡ false → view b.chunks h ≡ [])
    → IsValid (xor_copies snapshot b others)
      × ((h z : ℕ)
          → mem z (view (xor_copies snapshot b others).chunks h)
            ≡ (mem z (view b.chunks h) || not (in_snapshot snapshot h) && mem z (view others h)))
unfolding xor_copies
xor_copies_lem snapshot b [] n v w f free = (v, λ h z. ground arith)
xor_copies_lem snapshot b (oe ∷ rest) n v w f free =
    elim (Bool-cases (in_snapshot snapshot oe.hi)) [
      | inl old ↦
          let r =
            xor_copies_lem snapshot b rest (suc oe.hi) v w.2 f.1 (λ h le. free h (omega arith)) in
          rw old
            (r.0, λ h z. ground (arith, r.1 h z, λ (e : h ≡ oe.hi). ap (in_snapshot snapshot) e))
      | inr new ↦
          let s =
            copy_append_chunk-Replaces b oe v.sound (IsFull-but oe.hi b.chunks v.full)
              (free oe.hi w.0 new) w.1 f.0 in
          let r =
            xor_copies_lem snapshot (copy_append_chunk b oe) rest (suc oe.hi) s.0 w.2 f.1
              (λ h le out. ground (arith, s.1 h, free h)) in
          rw new (
            r.0,
            λ h z. ground (
              arith,
              r.1 h z,
              s.1 h,
              free oe.hi,
              view_below rest (suc oe.hi) h w.2,
              λ (e : h ≡ oe.hi). ap (in_snapshot snapshot) e,
              λ (e : h ≡ oe.hi). ap (view b.chunks) e,
            ),
          )
    ]
