-- ===== src/Bitmap/Convert.antt =====
-- bitmap.cc: mode conversion and the helpers of the set operations on one chunk. A fresh block
-- replaces the old payload, whose block goes to the allocator's delayed list.
pub mod Laws
use yikv.Prelude.{ℕ, ◌*◌, ◌<◌, Bool, true, false, ◌||◌, List, [], ◌∷◌, ltb, if◌then◌else◌}
use yikv.Bitmap.{Payload, array, bitmap, Chunk, Words, bitmap_bytes, array_to_bitmap_threshold}
use yikv.Bitmap.Words.{zero_words, fill_words, collect}

-- `type == 0`
abbrev pub is_array : Payload → Bool
is_array (array a) = true
is_array (bitmap w) = false

unfoldable pub grow_array : Chunk → ℕ → Chunk
grow_array e new_cap_elements = record e { payload_len = new_cap_elements * 2 }

pub to_bitmap : Chunk → Chunk
to_bitmap e = elim e.payload [
  | bitmap w ↦ e
  | array a ↦ record e { payload = bitmap (fill_words zero_words a); payload_len = bitmap_bytes }
]

pub to_array : Chunk → Chunk
to_array e = elim e.payload [
  | array a ↦ e
  | bitmap w ↦ record e { payload = array (collect w); payload_len = e.cardinality * 2 }
]

pub chunk_to_words : Payload → Words
chunk_to_words (bitmap w) = w
chunk_to_words (array a) = fill_words zero_words a

pub build_from_words : Chunk → Words → ℕ → Chunk
build_from_words e w card =
    if ltb array_to_bitmap_threshold card
    then record e {
      payload = bitmap w;
      cardinality = card;
      payload_len =
          if is_array e.payload || ltb e.payload_len bitmap_bytes
          then bitmap_bytes
          else e.payload_len;
    }
    else record e {
      payload = array (collect w);
      cardinality = card;
      payload_len = if ltb e.payload_len (card * 2) then card * 2 else e.payload_len;
    }

-- The bytes of the payload that count: what `copy_append_chunk` and `Serialize` copy.
unfoldable pub payload_bytes : Chunk → ℕ
payload_bytes e = elim e.payload [ bitmap w ↦ bitmap_bytes | array a ↦ e.cardinality * 2 ]
