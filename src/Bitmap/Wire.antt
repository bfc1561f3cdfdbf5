-- ===== src/Bitmap/Wire.antt =====
-- bitmap.cc: `Serialize` and `Deserialize`. The data is the list of its bytes, and the position in
-- it is what is left of the list. The stores are little-endian, as `memcpy` makes them on the
-- machines that the arena format is for. The null checks of the pointers are not modelled.
pub mod Bytes
pub mod Chunks
pub mod Laws
pub mod Accepted
pub mod Overread
mod Tests
use yikv.Prelude.{
  ℕ, zero, suc, ◌+◌, ◌*◌, ◌/◌, ◌%◌, ◌^◌, Bool, true, false, not, ◌&&◌, List, [], ◌∷◌, ◌++◌, map,
  Option, none, some, min, ltb, leb, ◌==◌, if◌then◌else◌, length, get_elem?, drop,
}
use yikv.Bitmap.{Word, Words, Payload, array, bitmap, Chunk, Bitmap, bitmap_words, bitmap_bytes}
use yikv.Bitmap.Words.{collect, popcount_words}
use yikv.Bitmap.Convert.{payload_bytes}
use yikv.Bitmap.Point.{empty}
use yikv.Bitmap.Bulk.{bulk_add}

-- `kWireMagic`, 0x314d4252, and `kWireVersion`
abbrev pub wire_magic : ℕ
wire_magic = 827146834

abbrev pub wire_version : ℕ
wire_version = 1

abbrev pub write_u16 : ℕ → List ℕ
write_u16 v = v % 256 ∷ v / 256 % 256 ∷ []

abbrev pub write_u32 : ℕ → List ℕ
write_u32 v = v % 256 ∷ v / 256 % 256 ∷ v / 65536 % 256 ∷ v / 16777216 % 256 ∷ []

abbrev pub byte_at : List ℕ → ℕ → ℕ
byte_at xs i = elim (get_elem? xs i) [ none ↦ 0 | some b ↦ b ]

abbrev pub read_u16 : List ℕ → ℕ → ℕ
read_u16 xs i = byte_at xs i + 256 * byte_at xs (i + 1)

abbrev pub read_u32 : List ℕ → ℕ → ℕ
read_u32 xs i = read_u16 xs i + 65536 * read_u16 xs (i + 2)

-- The elements of an array payload, as bytes and back.
pub write_array : List ℕ → List ℕ
write_array [] = []
write_array (x ∷ xs) = write_u16 x ++ write_array xs

pub read_array : ℕ → List ℕ → List ℕ
read_array zero xs = []
read_array (suc n) xs = read_u16 xs 0 ∷ read_array n (drop 2 xs)

-- The byte of `k` bits of a word from bit `j` on, and the words of a bitmap payload.
pub byte_of : ℕ → ℕ → Word → ℕ
byte_of j zero w = 0
byte_of j (suc k) w = (if w j then 1 else 0) + 2 * byte_of (suc j) k w

abbrev pub word_bytes : Word → List ℕ
word_bytes w =
    byte_of 0 8 w
    ∷ byte_of 8 8 w
    ∷ byte_of 16 8 w
    ∷ byte_of 24 8 w
    ∷ byte_of 32 8 w
    ∷ byte_of 40 8 w
    ∷ byte_of 48 8 w
    ∷ byte_of 56 8 w
    ∷ []

pub write_words : ℕ → ℕ → Words → List ℕ
write_words i zero w = []
write_words i (suc k) w = word_bytes (w i) ++ write_words (suc i) k w

pub read_words : List ℕ → Words
read_words xs i j = byte_at xs (i * 8 + j / 8) / 2 ^ (j % 8) % 2 == 1

abbrev pub chunk_type : Payload → ℕ
chunk_type (array a) = 0
chunk_type (bitmap w) = 1

abbrev pub write_payload : Payload → List ℕ
write_payload (array a) = write_array a
write_payload (bitmap w) = write_words 0 bitmap_words w

-- One round of the loop of `Serialize`.
abbrev pub serialize_chunk : Chunk → List ℕ
serialize_chunk e =
    write_u16 e.hi
    ++ (chunk_type e.payload ∷ 0 ∷ [])
    ++ write_u32 e.cardinality
    ++ write_u32 (payload_bytes e)
    ++ write_payload e.payload

pub serialize_chunks : List Chunk → List ℕ
serialize_chunks [] = []
serialize_chunks (e ∷ es) = serialize_chunk e ++ serialize_chunks es

pub serialize : Bitmap → List ℕ
serialize b =
    write_u32 wire_magic
    ++ write_u16 wire_version
    ++ write_u16 0
    ++ write_u32 (length b.chunks)
    ++ serialize_chunks b.chunks

-- The exceptions, by their texts.
pub data WireError : Type 0 where
  payload_too_small : WireError
  bad_magic : WireError
  unsupported_version : WireError
  truncated_chunk_header : WireError
  unsorted_chunks : WireError
  invalid_chunk_type : WireError
  truncated_chunk_payload : WireError
  array_payload_size_mismatch : WireError
  array_not_sorted : WireError
  bitmap_payload_size_mismatch : WireError
  cardinality_mismatch : WireError
  trailing_bytes : WireError

-- `overread` is a read behind the end of the data: `within` stands around the code that reads so
-- many bytes from a position on.
pub data Parse (A : Type 0) : Type 0 where
  parsed : A → Parse A
  refused : WireError → Parse A
  overread : Parse A

abbrev pub within : {A : Type 0} → ℕ → List ℕ → Parse A → Parse A
within n bytes p = if ltb (length bytes) n then overread else p

-- `src[j] <= src[j - 1]` for no `j`.
pub is_sorted : List ℕ → Bool
is_sorted [] = true
is_sorted (x ∷ []) = true
is_sorted (x ∷ y ∷ ys) = let later = is_sorted (y ∷ ys) in if leb y x then false else later

-- `pay_bytes != card * 2u` compares 32-bit numbers. The loop over `j` stops at the first elements
-- out of order, so it reads behind the end only if all elements before are in order.
pub read_array_chunk : ℕ → ℕ → List ℕ → Parse (List ℕ)
read_array_chunk card pay bytes =
    let los = read_array card bytes in
    if not (pay == card * 2 % 2 ^ 32)
    then refused array_payload_size_mismatch
    else if not (is_sorted (read_array (min card (length bytes / 2)) bytes))
    then refused array_not_sorted
    else within (card * 2) bytes (parsed los)

pub read_bitmap_chunk : ℕ → ℕ → List ℕ → Parse (List ℕ)
read_bitmap_chunk card pay bytes =
    let w = read_words bytes in
    if not (pay == bitmap_bytes)
    then refused bitmap_payload_size_mismatch
    else within bitmap_bytes bytes
        (if popcount_words w == card then parsed (collect w) else refused cardinality_mismatch)

abbrev pub out_of_order : Option ℕ → ℕ → Bool
out_of_order none hi = false
out_of_order (some prev) hi = leb hi prev

pub check_chunk : Option ℕ → ℕ → ℕ → ℕ → ℕ → List ℕ → Parse (List ℕ)
check_chunk prev hi type card pay bytes =
    if out_of_order prev hi
    then refused unsorted_chunks
    else if ltb 1 type
    then refused invalid_chunk_type
    else if ltb (length bytes) pay
    then refused truncated_chunk_payload
    else if type == 0
    then read_array_chunk card pay bytes
    else read_bitmap_chunk card pay bytes

-- The chunk at the front of the data: its low halves.
pub read_chunk : Option ℕ → List ℕ → Parse (List ℕ)
read_chunk prev bytes =
    if ltb (length bytes) 12
    then refused truncated_chunk_header
    else within 12 bytes (
        check_chunk prev (read_u16 bytes 0) (byte_at bytes 2) (read_u32 bytes 4) (read_u32 bytes 8)
          (drop 12 bytes))

abbrev pub keyed_values : ℕ → List ℕ → List ℕ
keyed_values hi los = map (λ lo. hi * 65536 + lo) los

-- The loop over the chunks, and the check for trailing bytes behind it.
pub deserialize_chunks : ℕ → Option ℕ → List ℕ → Bitmap → Parse Bitmap
deserialize_chunks zero prev [] b = parsed b
deserialize_chunks zero prev (x ∷ bytes) b = refused trailing_bytes
deserialize_chunks (suc n) prev bytes b =
    let hi = read_u16 bytes 0 in
    elim (read_chunk prev bytes) [
      | refused e ↦ refused e
      | overread ↦ overread
      | parsed los ↦
          deserialize_chunks n (some hi) (drop (read_u32 bytes 8) (drop 12 bytes))
            (bulk_add b (keyed_values hi los))
    ]

pub deserialize : List ℕ → Parse Bitmap
deserialize bytes =
    let chunks = deserialize_chunks (read_u32 bytes 8) none (drop 12 bytes) empty in
    if ltb (length bytes) 12
    then refused payload_too_small
    else within 12 bytes (
        if not (read_u32 bytes 0 == wire_magic)
        then refused bad_magic
        else if not (read_u16 bytes 4 == wire_version)
        then refused unsupported_version
        else chunks)
