-- ===== src/Bitmap.antt =====
-- libs/yikv/container/bitmap.h: the persistent structures of the roaring bitmap and its constants.
-- A chunk owns its payload: the arena block at `payload_off` is the value `payload`, with `type`
-- as its constructor, and `payload_len` keeps the capacity in bytes. The entries at `chunks_off`
-- are the list `chunks`, whose length is `chunk_count`.
pub mod Words
pub mod Merge
pub mod Each
pub mod Index
pub mod Convert
pub mod Point
pub mod Bulk
pub mod Algebra
pub mod Wire
mod Tests
use yikv.Prelude.{ℕ, ◌^◌, Bool, List}

-- A `uint64_t` by its bits, lowest first, and an array of them.
abbrev pub Word : Type 0
Word = ℕ → Bool

abbrev pub Words : Type 0
Words = ℕ → Word

-- `array` holds the live elements, the first `cardinality` slots of the block.
pub data Payload : Type 0 where
  array : List ℕ → Payload
  bitmap : Words → Payload

-- `BmChunkEntry`
pub record Chunk : Type 0 where
  pub hi : ℕ
  pub cardinality : ℕ
  pub payload : Payload
  pub payload_len : ℕ

-- `BmRoot`
pub record Bitmap : Type 0 where
  pub cardinality : ℕ
  pub chunks : List Chunk
  pub chunk_capacity : ℕ

abbrev pub bitmap_words : ℕ
bitmap_words = 1024

abbrev pub bitmap_bytes : ℕ
bitmap_bytes = 8192

abbrev pub array_to_bitmap_threshold : ℕ
array_to_bitmap_threshold = 4096

abbrev pub bitmap_to_array_threshold : ℕ
bitmap_to_array_threshold = 2048

abbrev pub index_init_cap : ℕ
index_init_cap = 8

abbrev pub array_init_cap : ℕ
array_init_cap = 16
