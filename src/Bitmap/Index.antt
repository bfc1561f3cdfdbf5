-- ===== src/Bitmap/Index.antt =====
-- bitmap.cc: the chunk index. A pointer to an entry is its position.
pub mod Search
pub mod Entries
pub mod Laws
use yikv.Prelude.{
  ℕ, zero, suc, ◌+◌, ◌-◌, ◌*◌, ◌/◌, Bool, true, false, ◌&&◌, List, [], ◌∷◌, Option, none, some, max,
  ltb, leb, ◌==◌, if◌then◌else◌, length, get_elem?, insert_at, remove_at,
}
use yikv.Bitmap.{Bitmap, Chunk, Payload, array, index_init_cap, array_init_cap}

-- `entries[i].hi < hi` and `entries[i].hi == hi`; the code reads no entry past the count.
abbrev pub hi_below : List Chunk → ℕ → ℕ → Bool
hi_below entries i hi = elim (get_elem? entries i) [ none ↦ false | some e ↦ ltb e.hi hi ]

abbrev pub hi_equals : List Chunk → ℕ → ℕ → Bool
hi_equals entries i hi = elim (get_elem? entries i) [ none ↦ false | some e ↦ e.hi == hi ]

-- The binary search; every round halves `rh - lo`, so the count of entries is fuel enough.
pub chunk_pos_loop : ℕ → List Chunk → ℕ → ℕ → ℕ → ℕ
chunk_pos_loop zero entries hi lo rh = lo
chunk_pos_loop (suc fuel) entries hi lo rh =
    let mid = (lo + rh) / 2 in
    let up = chunk_pos_loop fuel entries hi (mid + 1) rh in
    let down = chunk_pos_loop fuel entries hi lo mid in
    if ltb lo rh then (if hi_below entries mid hi then up else down) else lo

pub chunk_pos : List Chunk → ℕ → ℕ
chunk_pos entries hi = chunk_pos_loop (suc (length entries)) entries hi 0 (length entries)

pub find_chunk : List Chunk → ℕ → Option Chunk
find_chunk entries hi =
    let pos = chunk_pos entries hi in
    if length entries == 0
    then none
    else if ltb pos (length entries) && hi_equals entries pos hi
    then get_elem? entries pos
    else none

pub ensure_index_cap : ℕ → Bitmap → Bitmap
ensure_index_cap needed b =
    if leb needed b.chunk_capacity
    then b
    else record b { chunk_capacity = max (max (b.chunk_capacity * 2) needed) index_init_cap }

abbrev pub fresh_chunk : ℕ → Chunk
fresh_chunk hi = record {
  hi = hi;
  cardinality = 0;
  payload = array [];
  payload_len = array_init_cap * 2;
}

pub get_or_create : ℕ → Bitmap → Bitmap × ℕ
unfolding ensure_index_cap
get_or_create hi b₀ =
    let b = ensure_index_cap (length b₀.chunks + 1) b₀ in
    let pos = chunk_pos b.chunks hi in
    if ltb pos (length b.chunks) && hi_equals b.chunks pos hi
    then (b, pos)
    else (record b { chunks = insert_at pos (fresh_chunk hi) b.chunks }, pos)

pub erase_chunk : ℕ → List Chunk → List Chunk
erase_chunk pos entries = remove_at pos entries
