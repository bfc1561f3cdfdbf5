-- ===== src/Bitmap/Bulk.antt =====
-- bitmap.cc: `BulkAdd`.
pub mod Chunks
pub mod Laws
mod Tests
use yikv.Prelude.{
  ℕ, zero, suc, ◌+◌, ◌-◌, ◌*◌, ◌/◌, ◌%◌, Bool, true, false, not, List, [], ◌∷◌, ◌++◌, Option, none,
  some, max, ltb, leb, ◌==◌, if◌then◌else◌, length, get_elem?, set,
}
use yikv.Bitmap.{
  Bitmap, Chunk, Payload, array, bitmap, Words, array_init_cap, array_to_bitmap_threshold,
}
use yikv.Bitmap.Words.{test_bit, set_bit}
use yikv.Bitmap.Convert.{grow_array, to_bitmap}
use yikv.Bitmap.Index.{get_or_create}

-- The run of a bitmap chunk: the words and how many bits were new.
pub bulk_bits : Words → List ℕ → Words × ℕ
bulk_bits w [] = (w, 0)
bulk_bits w (lo ∷ los) =
    let (w', n) = bulk_bits (if test_bit w lo then w else set_bit w lo) los in
    (w', (if test_bit w lo then 0 else 1) + n)

-- The fill of an empty array: a value equal to the one just stored is skipped.
pub dedup_after : ℕ → List ℕ → List ℕ
dedup_after prev [] = []
dedup_after prev (lo ∷ los) = if lo == prev then dedup_after prev los else lo ∷ dedup_after lo los

pub dedup : List ℕ → List ℕ
unfolding dedup_after
dedup [] = []
dedup (lo ∷ los) = lo ∷ dedup_after lo los

-- The last loop of the merge: `merged[out - 1]` is compared, if there is one.
pub append_new : Option ℕ → List ℕ → List ℕ
unfolding dedup_after
append_new none los = dedup los
append_new (some last) los = dedup_after last los

-- The merge of the old array with the new run; the first argument is `merged[out - 1]`.
pub merge_bulk : Option ℕ → List ℕ → List ℕ → List ℕ
merge_bulk last [] ys = append_new last ys
merge_bulk last (x ∷ xs) [] = x ∷ xs
merge_bulk last (x ∷ xs) (y ∷ ys) =
    let left = merge_bulk (some x) xs (y ∷ ys) in
    let right = merge_bulk (some y) (x ∷ xs) ys in
    let both = merge_bulk (some x) xs ys in
    if ltb x y then x ∷ left else if ltb y x then y ∷ right else x ∷ both

-- One run of equal `hi` against its entry, with the growth of the total.
pub bulk_chunk : Chunk → List ℕ → Chunk × ℕ
unfolding grow_array bulk_bits dedup merge_bulk
bulk_chunk e los = elim e.payload [
  | bitmap w ↦
      let (w', n) = bulk_bits w los in
      (record e { payload = bitmap w'; cardinality = e.cardinality + n }, n)
  | array a ↦
      let n = length los in
      let filled = dedup los in
      let e₁ = if ltb (e.payload_len / 2) n then grow_array e (max n array_init_cap) else e in
      let merged = merge_bulk none a los in
      if e.cardinality == 0
      then (record e₁ { payload = array filled; cardinality = length filled }, length filled)
      else (
        record e {
          payload = array merged;
          payload_len = (e.cardinality + n) * 2;
          cardinality = length merged;
        },
        length merged - e.cardinality,
      )
]

-- The test at the end of a round.
pub settle : Chunk → Chunk
settle e = elim e.payload [
  | bitmap w ↦ e
  | array a ↦ if leb array_to_bitmap_threshold e.cardinality then to_bitmap e else e
]

pub bulk_at : Bitmap → ℕ → List ℕ → Bitmap
bulk_at b pos los = elim (get_elem? b.chunks pos) [
  | none ↦ b
  | some e ↦
      let (e', n) = bulk_chunk e los in
      record b { chunks = set b.chunks pos (settle e'); cardinality = b.cardinality + n }
]

-- One round of the outer `while`.
pub bulk_run : Bitmap → ℕ → List ℕ → Bitmap
unfolding bulk_at
bulk_run b hi los = let (b₁, pos) = get_or_create hi b in bulk_at b₁ pos los

-- The inner `while`: the values that share the `hi`, and what is left.
pub split_run : ℕ → List ℕ → List ℕ × List ℕ
split_run hi [] = ([], [])
split_run hi (v ∷ vs) =
    let (run, rest) = split_run hi vs in
    if v / 65536 == hi then (v % 65536 ∷ run, rest) else ([], v ∷ vs)

-- Each round consumes a value, so the count is fuel enough.
pub bulk_loop : ℕ → Bitmap → List ℕ → Bitmap
bulk_loop zero b vs = b
bulk_loop (suc fuel) b [] = b
bulk_loop (suc fuel) b (v ∷ vs) =
    let (run, rest) = split_run (v / 65536) (v ∷ vs) in
    bulk_loop fuel (bulk_run b (v / 65536) run) rest

pub bulk_add : Bitmap → List ℕ → Bitmap
unfolding bulk_loop
bulk_add b values = bulk_loop (length values) b values
