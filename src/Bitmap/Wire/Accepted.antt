-- ===== src/Bitmap/Wire/Accepted.antt =====
-- What `Deserialize` accepts, of any bytes.
use yikv.Prelude.{
  ℕ, zero, suc, ◌+◌, ◌*◌, ◌/◌, min, ◌%◌, ◌^◌, ◌≤◌, ◌<◌, ◌≡◌, subst, inl, inr, Bool, true, false,
  not, List, [], ◌∷◌, Option, none, some, arith, ltb, leb, ◌==◌, if◌then◌else◌, length, drop,
  Bool-cases,
}
use yikv.Sorted.{IsAscending, IsBelow, IsAscending-mono}
use yikv.Bitmap.{Bitmap}
use yikv.Bitmap.Words.{popcount_words}
use yikv.Bitmap.Words.Laws.{collect-IsAscending, collect-IsBelow}
use yikv.Bitmap.Point.{empty}
use yikv.Bitmap.Bulk.{bulk_add}
use yikv.Bitmap.Bulk.Laws.{bulk_add-AddedAll}
use yikv.Bitmap.Each.{IsValid}
use yikv.Bitmap.Each.Laws.{keyed-IsAscending, keyed-IsBelow, IsBelow-mono}
use yikv.Bitmap.Algebra.Laws.{empty-IsValid}
use yikv.Bitmap.Wire.{
  read_u16, read_u32, byte_at, Parse, parsed, refused, overread, payload_too_small, bad_magic,
  unsupported_version, wire_magic, wire_version, is_sorted, read_array, read_words,
  read_array_chunk, read_bitmap_chunk, check_chunk, out_of_order, read_chunk, keyed_values,
  deserialize_chunks, deserialize,
}

-- Every element is a byte.
abbrev pub IsBytes : List ℕ → Type 0
IsBytes xs = IsBelow 256 xs

drop-IsBytes : (n : ℕ) (xs : List ℕ) → IsBytes xs → IsBytes (drop n xs)
drop-IsBytes zero xs h = h
drop-IsBytes (suc n) [] h = tt
drop-IsBytes (suc n) (x ∷ xs) h = drop-IsBytes n xs h.1

byte_at-bounds : (xs : List ℕ) (i : ℕ) → IsBytes xs → byte_at xs i < 256
byte_at-bounds [] i h = omega arith
byte_at-bounds (x ∷ xs) zero h = h.0
byte_at-bounds (x ∷ xs) (suc i) h = byte_at-bounds xs i h.1

read_u16-bounds : (xs : List ℕ) (i : ℕ) → IsBytes xs → read_u16 xs i < 65536
read_u16-bounds xs i h = omega (arith, byte_at-bounds xs i h, byte_at-bounds xs (i + 1) h)

read_array-IsBelow : (n : ℕ) (xs : List ℕ) → IsBytes xs → IsBelow 65536 (read_array n xs)
unfolding read_array
read_array-IsBelow zero xs h = tt
read_array-IsBelow (suc n) xs h =
    (read_u16-bounds xs 0 h, read_array-IsBelow n (drop 2 xs) (drop-IsBytes 2 xs h))

is_sorted-IsAscending :
    (n : ℕ) (x : ℕ) (xs : List ℕ) → n ≤ x → is_sorted (x ∷ xs) ≡ true → IsAscending n (x ∷ xs)
unfolding is_sorted
is_sorted-IsAscending n x [] h e = (h, tt)
is_sorted-IsAscending n x (y ∷ ys) h e = elim (Bool-cases (leb y x)) [
  | inl low ↦ absurd (ground (arith, low, e))
  | inr up ↦ (h, is_sorted-IsAscending (suc x) y ys (ground (arith, up)) (rw up at e))
]

sorted : (xs : List ℕ) → is_sorted xs ≡ true → IsAscending 0 xs
sorted [] e = tt
sorted (x ∷ xs) e = is_sorted-IsAscending 0 x xs (omega arith) e

-- The low halves of a chunk that was read.
record Low (los : List ℕ) : Type 0 where
  ascending : IsAscending 0 los
  below : IsBelow 65536 los

-- A result that carries no more than the low halves of a chunk.
abbrev LowResult : Parse (List ℕ) → Type 0
LowResult (parsed los) = Low los
LowResult (refused e) = Unit {0}
LowResult overread = Unit {0}

read_array_chunk-Low :
    (card pay : ℕ) (bytes : List ℕ) → IsBytes bytes → LowResult (read_array_chunk card pay bytes)
unfolding read_array_chunk
read_array_chunk-Low card pay bytes h = elim (Bool-cases (pay == card * 2 % 2 ^ 32)) [
  | inr differs ↦ rw differs tt
  | inl same ↦ elim (Bool-cases (is_sorted (read_array (min card (length bytes / 2)) bytes))) [
    | inr mixed ↦ rw (same, mixed) tt
    | inl up ↦ elim (Bool-cases (ltb (length bytes) (card * 2))) [
      | inl short ↦ rw (same, up, short) tt
      | inr long ↦
          let all : min card (length bytes / 2) ≡ card = ground (arith, long) in
          rw (same, up, long)
            (record {
              ascending = sorted (read_array card bytes) (rw all at up);
              below = read_array-IsBelow card bytes h;
            })
    ]
  ]
]

read_bitmap_chunk-Low :
    (card pay : ℕ) (bytes : List ℕ) → LowResult (read_bitmap_chunk card pay bytes)
unfolding read_bitmap_chunk
read_bitmap_chunk-Low card pay bytes =
    let w = read_words bytes in
    elim (Bool-cases (pay == 8192)) [
      | inr differs ↦ rw differs tt
      | inl same ↦ elim (Bool-cases (ltb (length bytes) 8192)) [
        | inl short ↦ rw (same, short) tt
        | inr long ↦ elim (Bool-cases (popcount_words w == card)) [
          | inr wrong ↦ rw (same, long, wrong) tt
          | inl right ↦
              rw (same, long, right)
                (record { ascending = collect-IsAscending w; below = collect-IsBelow w })
        ]
      ]
    ]

check_chunk-Low :
    (prev : Option ℕ) (hi type card pay : ℕ) (bytes : List ℕ)
    → IsBytes bytes
    → LowResult (check_chunk prev hi type card pay bytes)
unfolding check_chunk
check_chunk-Low prev hi type card pay bytes h = elim (Bool-cases (out_of_order prev hi)) [
  | inl back ↦ rw back tt
  | inr forth ↦ elim (Bool-cases (ltb 1 type)) [
    | inl other ↦ rw (forth, other) tt
    | inr known ↦ elim (Bool-cases (ltb (length bytes) pay)) [
      | inl short ↦ rw (forth, known, short) tt
      | inr long ↦ elim (Bool-cases (type == 0)) [
        | inl array ↦ rw (forth, known, long, array) (read_array_chunk-Low card pay bytes h)
        | inr bits ↦ rw (forth, known, long, bits) (read_bitmap_chunk-Low card pay bytes)
      ]
    ]
  ]
]

read_chunk-Low :
    (prev : Option ℕ) (bytes : List ℕ) → IsBytes bytes → LowResult (read_chunk prev bytes)
unfolding read_chunk
read_chunk-Low prev bytes h = elim (Bool-cases (ltb (length bytes) 12)) [
  | inl short ↦ rw short tt
  | inr long ↦ rw long (
      check_chunk-Low prev (read_u16 bytes 0) (byte_at bytes 2) (read_u32 bytes 4)
        (read_u32 bytes 8) (drop 12 bytes) (drop-IsBytes 12 bytes h))
]

-- A result that is a valid bitmap, if there is one.
abbrev pub ValidResult : Parse Bitmap → Type 0
ValidResult (parsed b) = IsValid b
ValidResult (refused e) = Unit {0}
ValidResult overread = Unit {0}

deserialize_chunks-ValidResult :
    (n : ℕ) (prev : Option ℕ) (bytes : List ℕ) (b : Bitmap)
    → IsBytes bytes
    → IsValid b
    → ValidResult (deserialize_chunks n prev bytes b)
unfolding deserialize_chunks
deserialize_chunks-ValidResult zero prev [] b h v = v
deserialize_chunks-ValidResult zero prev (x ∷ bytes) b h v = tt
deserialize_chunks-ValidResult (suc n) prev bytes b h v =
    by_chunk (read_chunk prev bytes) (read_chunk-Low prev bytes h) (λ c.
      deserialize_chunks-ValidResult n (some (read_u16 bytes 0))
        (drop (read_u32 bytes 8) (drop 12 bytes)) c
        (drop-IsBytes (read_u32 bytes 8) (drop 12 bytes) (drop-IsBytes 12 bytes h)))
  where
    by_chunk :
        (c : Parse (List ℕ))
        → LowResult c
        → ((d : Bitmap)
            → IsValid d
            → ValidResult (
                deserialize_chunks n
                  (some (read_u16 bytes 0))
                  (drop (read_u32 bytes 8) (drop 12 bytes))
                  d))
        → ValidResult (elim c [
          | refused e ↦ refused e
          | overread ↦ overread
          | parsed los ↦
              deserialize_chunks n
                (some (read_u16 bytes 0))
                (drop (read_u32 bytes 8) (drop 12 bytes))
                (bulk_add b (keyed_values (read_u16 bytes 0) los))
        ])
    by_chunk (refused e) l next = tt
    by_chunk overread l next = tt
    by_chunk (parsed los) l next =
        let hi = read_u16 bytes 0 in
        let vs = keyed_values hi los in
        next (bulk_add b vs)
          (bulk_add-AddedAll b vs v
            (IsAscending-mono (hi * 65536 + 0) 0 vs (omega arith)
              (keyed-IsAscending hi 0 los l.ascending))
            (IsBelow-mono (hi * 65536 + 65536) (2 ^ 32) vs
              (omega (arith, read_u16-bounds bytes 0 h))
              (keyed-IsBelow hi 65536 los l.below))).valid

ValidResult-if :
    (c : Bool) (x y : Parse Bitmap)
    → ValidResult x
    → ValidResult y
    → ValidResult (if c then x else y)
ValidResult-if true x y a b = a
ValidResult-if false x y a b = b

deserialize-ValidResult : (bytes : List ℕ) → IsBytes bytes → ValidResult (deserialize bytes)
unfolding deserialize
deserialize-ValidResult bytes h =
    ValidResult-if (ltb (length bytes) 12) (refused payload_too_small) _ tt (
      ValidResult-if (ltb (length bytes) 12) overread _ tt (
        ValidResult-if (not (read_u32 bytes 0 == wire_magic)) (refused bad_magic) _ tt (
          ValidResult-if (not (read_u16 bytes 4 == wire_version)) (refused unsupported_version) _ tt
            (deserialize_chunks-ValidResult (read_u32 bytes 8) none (drop 12 bytes) empty
              (drop-IsBytes 12 bytes h) empty-IsValid))))

-- Whatever bytes Deserialize accepts, the bitmap that it returns is valid.
pub deserialize-IsValid :
    (bytes : List ℕ) (r : Bitmap) → IsBytes bytes → deserialize bytes ≡ parsed r → IsValid r
deserialize-IsValid bytes r h e = subst ValidResult e (deserialize-ValidResult bytes h)
