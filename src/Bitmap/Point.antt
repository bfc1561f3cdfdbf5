-- ===== src/Bitmap/Point.antt =====
-- bitmap.cc: the constructor and the point operations. `PublishFence` orders memory for readers and
-- changes no state of the writer.
pub mod Chunks
pub mod Laws
use yikv.Prelude.{
  ℕ, zero, suc, ◌+◌, ◌-◌, ◌*◌, ◌/◌, ◌%◌, Bool, true, false, ◌&&◌, List, [], ◌∷◌, Option, none, some,
  max, ltb, leb, ◌==◌, if◌then◌else◌, length, get_elem?, set, insert_at, remove_at,
}
use yikv.Bitmap.{
  Bitmap, Chunk, Payload, Words, array, bitmap, array_init_cap, array_to_bitmap_threshold,
  bitmap_to_array_threshold,
}
use yikv.Bitmap.Words.{test_bit, set_bit, clear_bit}
use yikv.Bitmap.Convert.{grow_array, to_bitmap, to_array}
use yikv.Bitmap.Index.{chunk_pos, hi_equals, find_chunk, get_or_create, erase_chunk}

unfoldable pub empty : Bitmap
empty = record { cardinality = 0; chunks = []; chunk_capacity = 0 }

-- The binary search in an array; `i` stands for a slot that is read within bounds.
pub array_search : ℕ → List ℕ → ℕ → ℕ → ℕ → Bool
array_search zero a lo l r = false
array_search (suc fuel) a lo l r =
    let mid = (l + r) / 2 in
    let x : ℕ = elim (get_elem? a mid) [ none ↦ 0 | some x ↦ x ] in
    let up = array_search fuel a lo (mid + 1) r in
    let down = array_search fuel a lo l mid in
    if ltb l r then (if x == lo then true else if ltb x lo then up else down) else false

pub chunk_contains : Chunk → ℕ → Bool
chunk_contains e lo = elim e.payload [
  | bitmap w ↦ test_bit w lo
  | array a ↦ array_search (suc e.cardinality) a lo 0 e.cardinality
]

pub contains : Bitmap → ℕ → Bool
contains b value = elim (find_chunk b.chunks (value / 65536)) [
  | none ↦ false
  | some e ↦ chunk_contains e (value % 65536)
]

-- `std::lower_bound`
pub lower_bound : List ℕ → ℕ → ℕ
lower_bound [] lo = 0
lower_bound (x ∷ xs) lo = if ltb x lo then suc (lower_bound xs lo) else 0

abbrev pub slot_equals : List ℕ → ℕ → ℕ → Bool
slot_equals a i lo = elim (get_elem? a i) [ none ↦ false | some x ↦ x == lo ]

-- The store of `Add` into an array, which grows when it is full.
pub insert_in_array : Chunk → List ℕ → ℕ → Chunk
unfolding grow_array
insert_in_array e a lo =
    let n = e.cardinality in
    let cur_cap = e.payload_len / 2 in
    let e₁ = if leb cur_cap n then grow_array e (max (cur_cap * 2) array_init_cap) else e in
    record e₁ { payload = array (insert_at (lower_bound a lo) lo a); cardinality = n + 1 }

-- A large array turns into a bitmap.
pub store_in_array : Chunk → List ℕ → ℕ → Chunk
unfolding insert_in_array
store_in_array e a lo =
    let e₂ = insert_in_array e a lo in
    if leb array_to_bitmap_threshold e₂.cardinality then to_bitmap e₂ else e₂

-- What `Add` does to the entry of the value; `none` where it returns early.
pub add_to_chunk : Chunk → ℕ → Option Chunk
unfolding store_in_array
add_to_chunk e lo = elim e.payload [
  | bitmap w ↦
      if test_bit w lo
      then none
      else some (record e { payload = bitmap (set_bit w lo); cardinality = e.cardinality + 1 })
  | array a ↦
      if ltb (lower_bound a lo) e.cardinality && slot_equals a (lower_bound a lo) lo
      then none
      else some (store_in_array e a lo)
]

-- `Add` at the position of its entry.
pub add_at : Bitmap → ℕ → ℕ → Bitmap
add_at b pos lo = elim (get_elem? b.chunks pos) [
  | none ↦ b
  | some e ↦ elim (add_to_chunk e lo) [
    | none ↦ b
    | some e' ↦ record b { chunks = set b.chunks pos e'; cardinality = b.cardinality + 1 }
  ]
]

pub add : Bitmap → ℕ → Bitmap
unfolding add_at
add b value = let (b₁, pos) = get_or_create (value / 65536) b in add_at b₁ pos (value % 65536)

-- The store of `Remove` into a bitmap, which turns into an array when it is small.
pub drop_from_bits : Chunk → Words → ℕ → Chunk
drop_from_bits e w lo =
    let e₁ : Chunk = record e {
      payload = bitmap (clear_bit w lo);
      cardinality = e.cardinality - 1;
    } in
    if ltb (e.cardinality - 1) bitmap_to_array_threshold then to_array e₁ else e₁

-- What `Remove` does to the entry of the value; `none` where it returns early.
pub remove_from_chunk : Chunk → ℕ → Option Chunk
unfolding drop_from_bits
remove_from_chunk e lo = elim e.payload [
  | bitmap w ↦ if test_bit w lo then some (drop_from_bits e w lo) else none
  | array a ↦
      let epos = lower_bound a lo in
      if ltb epos e.cardinality && slot_equals a epos lo
      then some (record e { payload = array (remove_at epos a); cardinality = e.cardinality - 1 })
      else none
]

-- `Remove` at the position of its entry, which goes when it is empty.
pub remove_at_pos : Bitmap → ℕ → ℕ → Bitmap
remove_at_pos b pos lo = elim (get_elem? b.chunks pos) [
  | none ↦ b
  | some e ↦ elim (remove_from_chunk e lo) [
    | none ↦ b
    | some e' ↦
        let kept = set b.chunks pos e' in
        record b {
          chunks = if e'.cardinality == 0 then erase_chunk pos kept else kept;
          cardinality = b.cardinality - 1;
        }
  ]
]

pub remove : Bitmap → ℕ → Bitmap
unfolding remove_at_pos
remove b value =
    let pos = chunk_pos b.chunks (value / 65536) in
    if length b.chunks == 0
    then b
    else if ltb pos (length b.chunks) && hi_equals b.chunks pos (value / 65536)
    then remove_at_pos b pos (value % 65536)
    else b
