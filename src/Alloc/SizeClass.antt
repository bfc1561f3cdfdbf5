-- ===== src/Alloc/SizeClass.antt =====
-- libs/yikv/alloc/ft_allocator.cc: `BuildSizeClasses`, `find_class_tiny` and `find_class`.
pub mod Laws
mod Tests
use yikv.Prelude.{
  ℕ, zero, suc, ◌+◌, ◌-◌, ◌/◌, ◌%◌, ◌^◌, Bool, true, false, List, [], ◌∷◌, ◌++◌, Option, none, some,
  ltb, leb, if◌then◌else◌, length,
}

abbrev pub header_size : ℕ
header_size = 8

abbrev pub min_block_size : ℕ
min_block_size = 24

abbrev pub tiny_step : ℕ
tiny_step = 8

abbrev pub max_tiny_total : ℕ
max_tiny_total = 320

-- The loop over the tiny sizes; the step is positive, so the largest size is fuel enough.
abbrev pub tiny_classes : ℕ → ℕ → List ℕ
tiny_classes zero s = []
tiny_classes (suc fuel) s =
    if leb s max_tiny_total then s ∷ tiny_classes fuel (s + tiny_step) else []

-- `push_back` of each middle size that is above the last one.
abbrev pub push_larger : ℕ → List ℕ → List ℕ
push_larger back [] = []
push_larger back (s ∷ rest) = if ltb back s then s ∷ push_larger s rest else push_larger back rest

pub build_size_classes : ℕ → List ℕ
build_size_classes page_size =
    tiny_classes 38 min_block_size
    ++ push_larger max_tiny_total (384 ∷ 512 ∷ 768 ∷ 1024 ∷ 1536 ∷ 2048 ∷ 3072 ∷ page_size ∷ [])

-- `none` is -1.
pub find_class_tiny : ℕ → Option ℕ
find_class_tiny total_needed =
    if ltb max_tiny_total total_needed
    then none
    else if leb total_needed min_block_size
    then some 0
    else some ((total_needed - min_block_size + tiny_step - 1) / tiny_step)

-- The linear scan from the class `i` on.
abbrev pub scan_classes : List ℕ → ℕ → ℕ → Option ℕ
scan_classes [] i total = none
scan_classes (s ∷ rest) i total = if leb total s then some i else scan_classes rest (suc i) total

abbrev pub skip : ℕ → List ℕ → List ℕ
skip zero xs = xs
skip (suc n) [] = []
skip (suc n) (x ∷ xs) = skip n xs

-- The size and the header are added as a `uint64_t`.
pub find_class : List ℕ → ℕ → Option ℕ
unfolding find_class_tiny
find_class classes user_size =
    let total = (user_size + header_size) % 2 ^ 64 in
    let tiny_count = (max_tiny_total - min_block_size) / tiny_step + 1 in
    elim (find_class_tiny total) [
      | some tiny_id ↦ some tiny_id
      | none ↦ scan_classes (skip tiny_count classes) tiny_count total
    ]
