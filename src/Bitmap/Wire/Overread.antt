-- ===== src/Bitmap/Wire/Overread.antt =====
-- When `Deserialize` reads behind the end of its data.
use yikv.Prelude.{
  ℕ, zero, suc, ◌/◌, ◌^◌, ◌≤◌, ◌<◌, ◌≡◌, ◌≢◌, refl, inl, inr, Bool, true, false, not, min, List, [],
  ◌∷◌, Option, none, some, arith, ltb, ◌==◌, if◌then◌else◌, length, drop, Bool-cases,
}
use yikv.Bitmap.{Bitmap}
use yikv.Bitmap.Point.{empty}
use yikv.Bitmap.Words.{popcount_words}
use yikv.Bitmap.Bulk.{bulk_add}
use yikv.Bitmap.Wire.{
  read_u16, read_u32, byte_at, Parse, parsed, refused, overread, payload_too_small, bad_magic,
  unsupported_version, wire_magic, wire_version, is_sorted, read_array, read_words,
  read_array_chunk, read_bitmap_chunk, check_chunk, out_of_order, read_chunk, keyed_values,
  deserialize_chunks, deserialize,
}

-- The array chunks whose doubled count wraps around.
abbrev pub Wraps : ℕ → ℕ → Type 0
Wraps type card = (type ≡ 0) × (2 ^ 31 ≤ card)

read_array_chunk-overread :
    (card pay : ℕ) (bytes : List ℕ)
    → pay ≤ length bytes
    → read_array_chunk card pay bytes ≡ overread
    → 2 ^ 31 ≤ card
unfolding read_array_chunk
read_array_chunk-overread card pay bytes h e =
    elim (Bool-cases (is_sorted (read_array (min card (length bytes / 2)) bytes))) [
      | inl up ↦ ground (arith, rw up at e)
      | inr mixed ↦ absurd (ground (arith, rw mixed at e))
    ]

read_bitmap_chunk-overread :
    (card pay : ℕ) (bytes : List ℕ)
    → pay ≤ length bytes
    → read_bitmap_chunk card pay bytes ≢ overread
unfolding read_bitmap_chunk
read_bitmap_chunk-overread card pay bytes h e =
    elim (Bool-cases (popcount_words (read_words bytes) == card)) [
      | inl right ↦ ground (arith, rw right at e)
      | inr wrong ↦ ground (arith, rw wrong at e)
    ]

check_chunk-overread :
    (prev : Option ℕ) (hi type card pay : ℕ) (bytes : List ℕ)
    → check_chunk prev hi type card pay bytes ≡ overread
    → Wraps type card
unfolding check_chunk
check_chunk-overread prev hi type card pay bytes e = elim (Bool-cases (out_of_order prev hi)) [
  | inl back ↦ absurd (ground (arith, rw back at e))
  | inr forth ↦ ground (
    arith,
    rw forth at e,
    read_array_chunk-overread card pay bytes,
    read_bitmap_chunk-overread card pay bytes,
  )
]

read_chunk-overread :
    (prev : Option ℕ) (bytes : List ℕ)
    → read_chunk prev bytes ≡ overread
    → (12 ≤ length bytes) × Wraps (byte_at bytes 2) (read_u32 bytes 4)
unfolding read_chunk
read_chunk-overread prev bytes e = elim (Bool-cases (ltb (length bytes) 12)) [
  | inl short ↦ absurd (ground (arith, rw short at e))
  | inr long ↦ (
    ground (arith, long),
    check_chunk-overread prev (read_u16 bytes 0) (byte_at bytes 2) (read_u32 bytes 4)
        (read_u32 bytes 8) (drop 12 bytes) (rw long at e),
  )
]

-- The data from chunk `i` on, by the sizes in the headers before.
abbrev pub chunk_at : ℕ → List ℕ → List ℕ
chunk_at zero bytes = bytes
chunk_at (suc i) bytes = chunk_at i (drop (read_u32 bytes 8) (drop 12 bytes))

-- One of the first `n` chunks has a whole header and wraps.
abbrev pub HasWrap : ℕ → List ℕ → Type 0
HasWrap n bytes =
    (i : ℕ) × (i < n)
    × (12 ≤ length (chunk_at i bytes))
    × Wraps (byte_at (chunk_at i bytes) 2) (read_u32 (chunk_at i bytes) 4)

deserialize_chunks-overread :
    (n : ℕ) (prev : Option ℕ) (bytes : List ℕ) (b : Bitmap)
    → deserialize_chunks n prev bytes b ≡ overread
    → HasWrap n bytes
unfolding deserialize_chunks
deserialize_chunks-overread zero prev [] b e = cc
deserialize_chunks-overread zero prev (x ∷ bytes) b e = cc
deserialize_chunks-overread (suc n) prev bytes b e =
    by_chunk (read_chunk prev bytes) (read_chunk-overread prev bytes)
      (λ d.
        deserialize_chunks-overread n (some (read_u16 bytes 0))
          (drop (read_u32 bytes 8) (drop 12 bytes)) d)
      e
  where
    by_chunk :
        (c : Parse (List ℕ))
        → (c ≡ overread → (12 ≤ length bytes) × Wraps (byte_at bytes 2) (read_u32 bytes 4))
        → ((d : Bitmap)
            → deserialize_chunks n
                (some (read_u16 bytes 0))
                (drop (read_u32 bytes 8) (drop 12 bytes))
                d
              ≡ overread
            → HasWrap n (drop (read_u32 bytes 8) (drop 12 bytes)))
        → (elim c as (λ _. Parse Bitmap) [
          | refused e ↦ refused e
          | overread ↦ overread
          | parsed los ↦
              deserialize_chunks n
                (some (read_u16 bytes 0))
                (drop (read_u32 bytes 8) (drop 12 bytes))
                (bulk_add b (keyed_values (read_u16 bytes 0) los))
        ])
          ≡ overread
        → HasWrap (suc n) bytes
    by_chunk (refused x) here later e = cc
    by_chunk overread here later e = let h = here refl in (0, omega arith, h.0, h.1)
    by_chunk (parsed los) here later e =
        let (i, l, h, w) = later (bulk_add b (keyed_values (read_u16 bytes 0) los)) e in
        (suc i, omega arith, h, w)

-- Deserialize reads behind the end of its data, be it for a header, an array element or a word
-- of a bitmap, only if one of the chunks that the data announce has its whole header there, is
-- an array chunk and gives 2 ^ 31 elements or more, where the doubled count wraps around.
pub deserialize-overread :
    (bytes : List ℕ) → deserialize bytes ≡ overread → HasWrap (read_u32 bytes 8) (drop 12 bytes)
unfolding deserialize
deserialize-overread bytes e =
    deserialize_chunks-overread (read_u32 bytes 8) none (drop 12 bytes) empty (
      guards (ltb (length bytes) 12) (not (read_u32 bytes 0 == wire_magic))
        (not (read_u16 bytes 4 == wire_version)) _ e
        (λ short. absurd (ground (arith, rw short at e))))
  where
    guards :
        (a b c : Bool) (p : Parse Bitmap)
        → (if a
            then refused payload_too_small
            else if a
            then overread
            else if b
            then refused bad_magic
            else if c
            then refused unsupported_version
            else p)
          ≡ overread
        → (a ≡ true → p ≡ overread)
        → p ≡ overread
    guards true b c p e f = f refl
    guards false true c p e f = cc
    guards false false true p e f = cc
    guards false false false p e f = e
