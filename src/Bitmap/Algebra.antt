-- ===== src/Bitmap/Algebra.antt =====
-- bitmap.cc: the set operations in place and their copies. Where a bitmap is
-- combined with itself the code leaves early; that test is the argument `same`.
pub mod Chunks
pub mod Walk
pub mod Rounds
pub mod Copy
pub mod Laws
use yikv.Prelude.{
  ℕ, zero, suc, ◌+◌, ◌-◌, ◌*◌, Bool, true, false, not, ◌&&◌, ◌||◌, xor, List, [], ◌∷◌, Option, none,
  some, min, ltb, leb, ◌==◌, if◌then◌else◌, length, get_elem?, set, map,
}
use yikv.Bitmap.{Bitmap, Chunk, Payload, array, bitmap, Words, array_to_bitmap_threshold}
use yikv.Bitmap.Words.{popcount_words}
use yikv.Bitmap.Convert.{to_bitmap, chunk_to_words, build_from_words, payload_bytes}
use yikv.Bitmap.Merge.{merge_or, merge_and, merge_and_not}
use yikv.Bitmap.Index.{find_chunk, get_or_create}
use yikv.Bitmap.Point.{empty}

abbrev pub or_words : Words → Words → Words
or_words v w i j = v i j || w i j

abbrev pub and_words : Words → Words → Words
and_words v w i j = v i j && w i j

abbrev pub xor_words : Words → Words → Words
xor_words v w i j = xor (v i j) (w i j)

abbrev pub and_not_words : Words → Words → Words
and_not_words v w i j = v i j && not (w i j)

-- The entry of `copy_append_chunk` takes the payload and the cardinality of the source.
pub copy_chunk : Chunk → Chunk → Chunk
copy_chunk te src = record te {
  payload = src.payload;
  payload_len = payload_bytes src;
  cardinality = src.cardinality;
}

pub copy_at : Bitmap → ℕ → Chunk → Bitmap
copy_at b pos src = elim (get_elem? b.chunks pos) [
  | none ↦ b
  | some te ↦ record b {
    chunks = set b.chunks pos (copy_chunk te src);
    cardinality = b.cardinality + src.cardinality;
  }
]

pub copy_append_chunk : Bitmap → Chunk → Bitmap
unfolding copy_at
copy_append_chunk b src = let (b₁, pos) = get_or_create src.hi b in copy_at b₁ pos src

-- The result of an array operation: a fresh block of `cap` slots.
abbrev pub with_array : Chunk → List ℕ → ℕ → Chunk
with_array te out cap = record te {
  payload = array out;
  payload_len = cap * 2;
  cardinality = length out;
}

-- The result of a word operation.
abbrev pub with_words : Chunk → Words → Chunk
with_words te w = build_from_words te w (popcount_words w)

-- `OrWith` on two chunks: two arrays are merged, all else goes by words.
pub or_payloads : Chunk → Chunk → Payload → Payload → Chunk
or_payloads te oe (array ta) (array oa) =
    let e = with_array te (merge_or ta oa) (te.cardinality + oe.cardinality) in
    if leb array_to_bitmap_threshold e.cardinality then to_bitmap e else e
or_payloads te oe p q = with_words te (or_words (chunk_to_words p) (chunk_to_words q))

pub or_chunk : Chunk → Chunk → Chunk
unfolding or_payloads
or_chunk te oe = or_payloads te oe te.payload oe.payload

-- The union at the position of the entry. A fresh entry is looked up and filled once more.
pub or_at : Bitmap → ℕ → Chunk → Bitmap
or_at b pos oe = elim (get_elem? b.chunks pos) [
  | none ↦ b
  | some te ↦
      let e = or_chunk te oe in
      let copied = copy_append_chunk b oe in
      if te.cardinality == 0 then copied else record b {
        chunks = set b.chunks pos e;
        cardinality = b.cardinality + (e.cardinality - te.cardinality);
      }
]

pub or_step : Bitmap → Chunk → Bitmap
unfolding or_at
or_step b oe = let (b₁, pos) = get_or_create oe.hi b in or_at b₁ pos oe

pub or_loop : Bitmap → List Chunk → Bitmap
or_loop b [] = b
or_loop b (oe ∷ rest) = or_loop (or_step b oe) rest

pub or_with : Bool → Bitmap → Bitmap → Bitmap
unfolding or_loop
or_with same b o = if same then b else or_loop b o.chunks

-- One round of a loop that rewrites or erases the entries in place: the new total and the entry,
-- if it stays.
abbrev pub Round : Type 0
Round = ℕ → Chunk → ℕ × Option Chunk

-- `while (ci < chunk_count)`: `erase_chunk(ci)` and no step, or `++ci`.
pub walk : Round → ℕ → List Chunk → ℕ × List Chunk
walk round card [] = (card, [])
walk round card (te ∷ rest) =
    let (card', kept) = round card te in
    let (last, chunks) = walk round card' rest in
    (last, elim kept [ none ↦ chunks | some e ↦ e ∷ chunks ])

abbrev pub run_walk : Round → Bitmap → Bitmap
run_walk round b =
    let (card, chunks) = walk round b.cardinality b.chunks in
    record b { cardinality = card; chunks = chunks }

-- An entry that came out empty is erased.
abbrev pub keep : Chunk → Option Chunk
keep e = if e.cardinality == 0 then none else some e

-- `AndWith` on two chunks.
pub and_payloads : Chunk → Chunk → Payload → Payload → Chunk
and_payloads te oe (array ta) (array oa) =
    with_array te (merge_and ta oa) (min te.cardinality oe.cardinality)
and_payloads te oe p q = with_words te (and_words (chunk_to_words p) (chunk_to_words q))

pub and_chunk : Chunk → Chunk → Chunk
unfolding and_payloads
and_chunk te oe = and_payloads te oe te.payload oe.payload

pub and_round : List Chunk → Round
and_round others card te = elim (find_chunk others te.hi) [
  | none ↦ (card - te.cardinality, none)
  | some oe ↦ let e = and_chunk te oe in (card - (te.cardinality - e.cardinality), keep e)
]

pub and_with : Bool → Bitmap → Bitmap → Bitmap
and_with same b o = if same then b else run_walk (and_round o.chunks) b

pub xor_chunk : Chunk → Chunk → Chunk
xor_chunk te oe = with_words te (xor_words (chunk_to_words te.payload) (chunk_to_words oe.payload))

pub xor_round : List Chunk → Round
xor_round others card te = elim (find_chunk others te.hi) [
  | none ↦ (card, some te)
  | some oe ↦ let e = xor_chunk te oe in (card + e.cardinality - te.cardinality, keep e)
]

-- `std::binary_search` in the snapshot of the keys.
pub in_snapshot : List Chunk → ℕ → Bool
in_snapshot [] hi = false
in_snapshot (e ∷ rest) hi = e.hi == hi || in_snapshot rest hi

-- The second pass copies the chunks whose key the bitmap did not have.
pub xor_copies : List Chunk → Bitmap → List Chunk → Bitmap
xor_copies snapshot b [] = b
xor_copies snapshot b (oe ∷ rest) =
    xor_copies snapshot (if in_snapshot snapshot oe.hi then b else copy_append_chunk b oe) rest

pub clear : Bitmap → Bitmap
clear b = record b { cardinality = 0; chunks = []; chunk_capacity = 0 }

pub xor_with : Bool → Bitmap → Bitmap → Bitmap
unfolding clear xor_copies
xor_with same b o =
    if same then clear b else xor_copies b.chunks (run_walk (xor_round o.chunks) b) o.chunks

-- `and_not_with` on two chunks.
pub and_not_payloads : Chunk → Chunk → Payload → Payload → Chunk
and_not_payloads te oe (array ta) (array oa) = with_array te (merge_and_not ta oa) te.cardinality
and_not_payloads te oe p q = with_words te (and_not_words (chunk_to_words p) (chunk_to_words q))

pub and_not_chunk : Chunk → Chunk → Chunk
unfolding and_not_payloads
and_not_chunk te oe = and_not_payloads te oe te.payload oe.payload

pub and_not_round : List Chunk → Round
and_not_round others card te = elim (find_chunk others te.hi) [
  | none ↦ (card, some te)
  | some oe ↦ let e = and_not_chunk te oe in (card - (te.cardinality - e.cardinality), keep e)
]

pub and_not_with : Bool → Bitmap → Bitmap → Bitmap
unfolding clear
and_not_with same b o = if same then clear b else run_walk (and_not_round o.chunks) b

-- The operations that return a new bitmap; `r` is fresh and never the operand itself.
pub or_of : Bitmap → Bitmap → Bitmap
or_of b o = or_with false (or_with false empty b) o

pub and_of : Bitmap → Bitmap → Bitmap
and_of b o = and_with false (or_with false empty b) o

pub and_not_of : Bitmap → Bitmap → Bitmap
and_not_of b o = and_not_with false (or_with false empty b) o

pub xor_of : Bitmap → Bitmap → Bitmap
xor_of b o = xor_with false (or_with false empty b) o

-- `operator=` frees what the target holds before it copies.
pub assign : Bool → Bitmap → Bitmap → Bitmap
unfolding clear
assign same b o = if same then b else or_with false (clear b) o
