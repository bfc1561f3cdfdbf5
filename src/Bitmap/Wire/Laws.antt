-- ===== src/Bitmap/Wire/Laws.antt =====
-- The round trip of `Serialize` and `Deserialize`, and data with more behind it.
use yikv.Prelude.{
  append_assoc, append-nil, ℕ, zero, suc, ◌+◌, ◌*◌, ◌/◌, ◌%◌, ◌^◌, ◌≤◌, ◌≡◌, refl, sym, ap, ◌∙◌,
  Bool, true, false, ◌||◌, List, [], ◌∷◌, ◌++◌, Option, none, some, arith, ltb, leb, length, drop,
}
use yikv.Sorted.{mem, IsAscending-mono}
use yikv.Bitmap.{Chunk, Bitmap}
use yikv.Bitmap.Point.{empty}
use yikv.Bitmap.Bulk.{bulk_add}
use yikv.Bitmap.Bulk.Laws.{bulk_add-AddedAll}
use yikv.Bitmap.Each.{values, view, has, IsIndex, IsValid}
use yikv.Bitmap.Each.Laws.{mem-keyed, keyed-IsAscending, keyed-IsBelow, IsBelow-mono}
use yikv.Bitmap.Algebra.Laws.{empty-IsValid}
use yikv.Bitmap.Index.Entries.{view_below}
use yikv.Bitmap.Wire.{
  read_u16, read_u32, serialize_chunk, serialize_chunks, serialize, parsed, refused, trailing_bytes,
  out_of_order, read_chunk, keyed_values, deserialize_chunks, deserialize,
}
use yikv.Bitmap.Wire.Chunks.{serialize_chunk-Header}

length-IsIndex : (n : ℕ) (es : List Chunk) → n ≤ 65536 → IsIndex n es → length es + n ≤ 65536
length-IsIndex n [] h v = omega arith
length-IsIndex n (e ∷ es) h v =
    omega (arith, v.0, length-IsIndex (suc e.hi) es (omega (arith, v.1.hi_small)) v.2)

deserialize_chunks-suc :
    (n : ℕ) (prev : Option ℕ) (bytes rest : List ℕ) (hi : ℕ) (los : List ℕ) (b : Bitmap)
    → read_u16 bytes 0 ≡ hi
    → drop (read_u32 bytes 8) (drop 12 bytes) ≡ rest
    → read_chunk prev bytes ≡ parsed los
    → deserialize_chunks (suc n) prev bytes b
      ≡ deserialize_chunks n (some hi) rest (bulk_add b (keyed_values hi los))
unfolding deserialize_chunks
deserialize_chunks-suc n prev bytes rest hi los b h d c =
    let read : deserialize_chunks (suc n) prev bytes b
        ≡ deserialize_chunks n (some (read_u16 bytes 0)) (drop (read_u32 bytes 8) (drop 12 bytes))
            (bulk_add b (keyed_values (read_u16 bytes 0) los)) =
      rw (deserialize_chunks, c) refl in
    read ∙ rw (h, d) refl

-- What the loop makes of serialized chunks.
record Restored (es : List Chunk) (b r : Bitmap) : Type 0 where
  valid : IsValid r
  members : (w : ℕ) → has r w ≡ (mem (w % 65536) (view es (w / 65536)) || has b w)

deserialize_chunks-Restored :
    (n : ℕ) (es : List Chunk) (prev : Option ℕ) (tail : List ℕ) (b : Bitmap)
    → IsIndex n es
    → ((hi : ℕ) → n ≤ hi → out_of_order prev hi ≡ false)
    → IsValid b
    → (r : Bitmap) × (last : Option ℕ) × (deserialize_chunks
          (length es)
          prev
          (serialize_chunks es ++ tail)
          b
        ≡ deserialize_chunks zero last tail r)
      × Restored es b r
unfolding serialize_chunks
deserialize_chunks-Restored n [] prev tail b v o w =
    (b, prev, refl, record { valid = w; members = λ z. refl })
deserialize_chunks-Restored n (e ∷ es) prev tail b v o w =
    let c = v.1 in
    let rest = serialize_chunks es ++ tail in
    let h = serialize_chunk-Header e rest c in
    let vs = keyed_values e.hi (values e.payload) in
    let a =
      bulk_add-AddedAll b vs w
        (IsAscending-mono (e.hi * 65536 + 0) 0 vs (omega arith)
          (keyed-IsAscending e.hi 0 (values e.payload) c.ascending))
        (IsBelow-mono (e.hi * 65536 + 65536) (2 ^ 32) vs (omega (arith, c.hi_small))
          (keyed-IsBelow e.hi 65536 (values e.payload) c.below)) in
    let (r, last, p, q) =
      deserialize_chunks-Restored (suc e.hi) es (some e.hi) tail (bulk_add b vs) v.2
        (λ hi l. after e.hi hi l) a.valid in
    (
      r,
      last,
      ap (λ bytes. deserialize_chunks (suc (length es)) prev bytes b)
            (append_assoc (serialize_chunk e) (serialize_chunks es) tail)
          ∙ (deserialize_chunks-suc (length es) prev (serialize_chunk e ++ rest) rest e.hi
                (values e.payload) b h.key h.behind (h.chunk prev (o e.hi v.0))
              ∙ p),
      record {
        valid = q.valid;
        members = λ z. ground (
          arith,
          q.members z,
          a.members z,
          mem-keyed z e.hi (values e.payload) c.below,
          view_below es (suc e.hi) (z / 65536) v.2,
        );
      },
    )
  where
    after : (a b : ℕ) → suc a ≤ b → leb b a ≡ false
    after a b h = ground arith

-- The data that `Serialize` writes, with anything behind it.
deserialize-tail :
    (b : Bitmap) (tail : List ℕ)
    → IsValid b
    → (r : Bitmap) × (last : Option ℕ) × (deserialize (serialize b ++ tail)
        ≡ deserialize_chunks zero last tail r)
      × Restored b.chunks empty r
unfolding deserialize serialize
deserialize-tail b tail v =
    let few = length-IsIndex 0 b.chunks (omega arith) v.index in
    let bytes = serialize_chunks b.chunks ++ tail in
    let count : read_u32 (serialize b ++ tail) 8 ≡ length b.chunks = omega (arith, few) in
    let (r, last, p, q) =
      deserialize_chunks-Restored 0 b.chunks none tail empty v.index (λ hi l. refl) empty-IsValid in
    (r, last, rw (long (length bytes), count) p, q)
  where
    long :
        (n : ℕ)
        → ltb (suc (suc (suc (suc (suc (suc (suc (suc (suc (suc (suc (suc n)))))))))))) 12 ≡ false
    long n = ground arith

-- Deserialize of what Serialize writes for a valid bitmap succeeds: it returns a valid bitmap
-- with the same members.
pub deserialize-serialize :
    (b : Bitmap)
    → IsValid b
    → (r : Bitmap) × (deserialize (serialize b) ≡ parsed r)
      × IsValid r
      × ((w : ℕ) → has r w ≡ has b w)
unfolding deserialize_chunks empty
deserialize-serialize b v =
    let (r, last, p, q) = deserialize-tail b [] v in
    (
      r,
      ap deserialize (sym (append-nil (serialize b))) ∙ p,
      q.valid,
      λ w. q.members w ∙ or_false (has b w),
    )
  where
    or_false : (a : Bool) → (a || false) ≡ a
    or_false true = refl
    or_false false = refl

-- Deserialize refuses what Serialize writes for a valid bitmap when any bytes stand behind it,
-- with the error for trailing bytes.
pub deserialize-trailing :
    (b : Bitmap) (x : ℕ) (xs : List ℕ)
    → IsValid b
    → deserialize (serialize b ++ (x ∷ xs)) ≡ refused trailing_bytes
unfolding deserialize_chunks
deserialize-trailing b x xs v = let (r, last, p, q) = deserialize-tail b (x ∷ xs) v in p
