-- ===== src/Bitmap/Each.antt =====
-- bitmap.h: `ForEach`, and the set of values that a bitmap stands for. The invariant of the
-- structure is stated here, since every operation keeps it.
pub mod Laws
use yikv.Prelude.{
  ℕ, suc, ◌+◌, ◌*◌, ◌/◌, ◌%◌, ◌≤◌, ◌<◌, ◌≡◌, refl, ◌⊎◌, inl, inr, Bool, List, [], ◌∷◌, ◌++◌, map,
  ◌==◌, ◌||◌, true, ltb, if◌then◌else◌, length,
}
use yikv.Sorted.{mem, IsAscending, IsBelow}
use yikv.Bitmap.{
  Bitmap, Chunk, Words, Payload, array, bitmap, bitmap_bytes, array_to_bitmap_threshold,
  bitmap_to_array_threshold,
}
use yikv.Bitmap.Words.{collect}

pub Payload-cases : (p : Payload) → ((a : List ℕ) × (p ≡ array a)) ⊎ ((w : Words) × (p ≡ bitmap w))
Payload-cases (array a) = inl (a, refl)
Payload-cases (bitmap w) = inr (w, refl)

-- The low halves that one entry holds, in the order of the loop.
abbrev pub values : Payload → List ℕ
values (array a) = a
values (bitmap w) = collect w

pub for_each_in : List Chunk → List ℕ
for_each_in [] = []
for_each_in (e ∷ rest) = map (λ lo. e.hi * 65536 + lo) (values e.payload) ++ for_each_in rest

pub for_each : Bitmap → List ℕ
unfolding for_each_in
for_each b = for_each_in b.chunks

-- The low halves under a key.
abbrev pub view : List Chunk → ℕ → List ℕ
view [] hi = []
view (e ∷ rest) hi = if e.hi == hi then values e.payload else view rest hi

-- The set of values: the specification of the component.
abbrev pub has : Bitmap → ℕ → Bool
has b v = mem (v % 65536) (view b.chunks (v / 65536))

abbrev pub total : List Chunk → ℕ
total [] = 0
total (e ∷ rest) = e.cardinality + total rest

-- The block is large enough and the mode is the one that the thresholds ask for.
abbrev pub Fits : Payload → ℕ → ℕ → Type 0
Fits (array a) card len = (card * 2 ≤ len) × (card ≤ array_to_bitmap_threshold)
Fits (bitmap w) card len = (bitmap_bytes ≤ len) × (bitmap_to_array_threshold ≤ card)

pub record IsChunk (e : Chunk) : Type 0 where
  pub hi_small : e.hi < 65536
  pub ascending : IsAscending 0 (values e.payload)
  pub below : IsBelow 65536 (values e.payload)
  pub counted : e.cardinality ≡ length (values e.payload)
  pub fits : Fits e.payload e.cardinality e.payload_len

-- Keys ascend.
abbrev pub IsIndex : ℕ → List Chunk → Type 0
IsIndex n [] = Unit {0}
IsIndex n (e ∷ rest) = (n ≤ e.hi) × IsChunk e × IsIndex (suc e.hi) rest

-- No entry is empty; none is but the one under a key, which an operation is about to fill.
abbrev pub IsFull : List Chunk → Type 0
IsFull [] = Unit {0}
IsFull (e ∷ rest) = (0 < e.cardinality) × IsFull rest

abbrev pub IsFullBut : ℕ → List Chunk → Type 0
IsFullBut hi [] = Unit {0}
IsFullBut hi (e ∷ rest) = ((e.hi == hi || ltb 0 e.cardinality) ≡ true) × IsFullBut hi rest

-- The invariant within an operation, and the one that every operation keeps.
pub record IsSound (b : Bitmap) : Type 0 where
  pub index : IsIndex 0 b.chunks
  pub counted : b.cardinality ≡ total b.chunks
  pub roomy : length b.chunks ≤ b.chunk_capacity

pub record IsValid (b : Bitmap) : Type 0 where
  pub sound : IsSound b
  pub open sound use *
  pub full : IsFull b.chunks
