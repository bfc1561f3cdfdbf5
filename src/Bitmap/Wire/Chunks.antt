-- ===== src/Bitmap/Wire/Chunks.antt =====
-- The chunk of the wire format: the header and the payload of a valid chunk are read back.
use yikv.Prelude.{
  drop-append, ℕ, suc, ◌*◌, ◌/◌, ◌%◌, min, ◌^◌, ◌≤◌, ◌<◌, ◌≡◌, refl, sym, ◌∙◌, true, false, List,
  [], ◌∷◌, ◌++◌, Option, arith, ltb, ◌==◌, length, drop, length-append,
}
use yikv.Sorted.{IsAscending, IsBelow, length-below}
use yikv.Bitmap.{Payload, array, bitmap, Chunk}
use yikv.Bitmap.Words.{collect}
use yikv.Bitmap.Convert.{payload_bytes}
use yikv.Bitmap.Each.{values, Fits, IsChunk}
use yikv.Bitmap.Wire.{
  read_u16, read_u32, write_u16, write_u32, chunk_type, write_payload, write_array, write_words,
  serialize_chunk, parsed, read_array, read_array_chunk, read_bitmap_chunk, check_chunk,
  out_of_order, read_chunk,
}
use yikv.Bitmap.Wire.Bytes.{
  length-write_array, read-write_array, is_sorted_lem, length-write_words, collect-read_words,
  popcount-read_words,
}

-- The bytes of a header that `Serialize` writes.
abbrev header : ℕ → ℕ → ℕ → ℕ → List ℕ
header hi type card pay = write_u16 hi ++ (type ∷ 0 ∷ []) ++ write_u32 card ++ write_u32 pay

read_chunk-header :
    (prev : Option ℕ) (hi type card pay : ℕ) (xs : List ℕ)
    → hi < 65536
    → card < 2 ^ 32
    → pay < 2 ^ 32
    → read_chunk prev (header hi type card pay ++ xs) ≡ check_chunk prev hi type card pay xs
unfolding read_chunk
read_chunk-header prev hi type card pay xs h c p =
    let hi' : read_u16 (header hi type card pay ++ xs) 0 ≡ hi = omega arith in
    let card' : read_u32 (header hi type card pay ++ xs) 4 ≡ card = omega arith in
    let pay' : read_u32 (header hi type card pay ++ xs) 8 ≡ pay = omega arith in
    rw (enough (length xs), hi', card', pay') refl
  where
    enough :
        (n : ℕ)
        → ltb (suc (suc (suc (suc (suc (suc (suc (suc (suc (suc (suc (suc n)))))))))))) 12 ≡ false
    enough n = ground arith

-- The size in bytes of a payload.
abbrev bytes_of : Payload → ℕ → ℕ
bytes_of (array a) card = card * 2
bytes_of (bitmap w) card = 8192

payload_bytes_lem : (e : Chunk) → payload_bytes e ≡ bytes_of e.payload e.cardinality
unfolding payload_bytes
payload_bytes_lem e = by_payload e.payload
  where
    by_payload :
        (p : Payload)
        → (elim p [ bitmap w ↦ 8192 | array a ↦ e.cardinality * 2 ]) ≡ bytes_of p e.cardinality
    by_payload (array a) = refl
    by_payload (bitmap w) = refl

length-write_payload :
    (p : Payload) (card : ℕ) → card ≡ length (values p) → length (write_payload p) ≡ bytes_of p card
length-write_payload (array a) card c = omega (arith, length-write_array a)
length-write_payload (bitmap w) card c = omega (arith, length-write_words 0 1024 w)

check_chunk-payload :
    (prev : Option ℕ) (hi card len : ℕ) (p : Payload) (rest : List ℕ)
    → out_of_order prev hi ≡ false
    → card ≡ length (values p)
    → Fits p card len
    → IsAscending 0 (values p)
    → IsBelow 65536 (values p)
    → check_chunk prev hi (chunk_type p) card (bytes_of p card) (write_payload p ++ rest)
      ≡ parsed (values p)
unfolding check_chunk read_array_chunk read_bitmap_chunk
check_chunk-payload prev hi card len (array a) rest o c f asc low =
    let long = length-append (write_array a) rest in
    let size = length-write_array a in
    let read : read_array card (write_array a ++ rest) ≡ a = rw c (read-write_array a rest low) in
    let fits : ltb (length (write_array a ++ rest)) (card * 2) ≡ false =
      ground (arith, long, size) in
    let all : min card (length (write_array a ++ rest) / 2) ≡ card = ground (arith, long, size) in
    rw (o, fits, equal card f.1, all, read, is_sorted_lem 0 a asc) refl
  where
    equal : (n : ℕ) → n ≤ 4096 → (n * 2 == n * 2 % 2 ^ 32) ≡ true
    equal n h = ground arith
check_chunk-payload prev hi card len (bitmap w) rest o c f asc low =
    let long = length-append (write_words 0 1024 w) rest in
    let size = length-write_words 0 1024 w in
    let fits : ltb (length (write_words 0 1024 w ++ rest)) 8192 ≡ false =
      ground (arith, long, size) in
    let counted : (length (collect w) == card) ≡ true = ground (arith, c) in
    rw (o, fits, popcount-read_words w rest, counted, collect-read_words w rest) refl

-- What the loop reads of a serialized chunk.
pub record Header (e : Chunk) (rest : List ℕ) : Type 0 where
  pub key : read_u16 (serialize_chunk e ++ rest) 0 ≡ e.hi
  pub behind :
      drop (read_u32 (serialize_chunk e ++ rest) 8) (drop 12 (serialize_chunk e ++ rest)) ≡ rest
  pub chunk :
      (prev : Option ℕ)
      → out_of_order prev e.hi ≡ false
      → read_chunk prev (serialize_chunk e ++ rest) ≡ parsed (values e.payload)

bytes_of_small : (p : Payload) (card len : ℕ) → Fits p card len → bytes_of p card < 2 ^ 32
bytes_of_small (array a) card len f = omega (arith, f.1)
bytes_of_small (bitmap w) card len f = omega arith

pub serialize_chunk-Header : (e : Chunk) (rest : List ℕ) → IsChunk e → Header e rest
serialize_chunk-Header e rest v =
    let p = e.payload in
    let card = e.cardinality in
    let pay = bytes_of p card in
    let size = payload_bytes_lem e in
    let few : card < 2 ^ 32 =
      omega (arith, v.counted, length-below 0 65536 (values p) v.ascending v.below (omega arith)) in
    let short = bytes_of_small p card e.payload_len v.fits in
    let hi' : read_u16 (serialize_chunk e ++ rest) 0 ≡ e.hi = omega (arith, v.hi_small) in
    let pay' : read_u32 (serialize_chunk e ++ rest) 8 ≡ payload_bytes e =
      omega (arith, short, size) in
    let end : length (write_payload p) ≡ payload_bytes e =
      length-write_payload p card v.counted ∙ sym size in
    record {
      key = hi';
      behind = rw (pay', sym end) (drop-append (write_payload p) rest);
      chunk = λ prev o. rw size (
          read_chunk-header prev e.hi (chunk_type p) card pay (write_payload p ++ rest) v.hi_small
            few short
          ∙ check_chunk-payload prev e.hi card e.payload_len p rest o v.counted v.fits v.ascending
              v.below);
    }
