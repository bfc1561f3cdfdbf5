-- ===== src/Alloc/Freelist.antt =====
-- libs/yikv/alloc/ft_allocator.cc: the blocks of one size class for one thread: the freelist, the
-- delayed list and the slot of the thread-local cache. A linked list through the payloads is the
-- list of its offsets; `slot.offsets` is listed from the top. The class mutex makes each operation
-- one step. The statistics counters and the change of the cache's owner are not part of it.
pub mod Held
pub mod Laws
mod Tests
use yikv.Prelude.{
  ℕ, zero, suc, ◌+◌, ◌-◌, ◌*◌, ◌/◌, Bool, true, false, List, [], ◌∷◌, ◌++◌, Option, none, some, ltb,
  leb, ◌==◌, if◌then◌else◌, length,
}

-- `BlockHeader::flags`
pub data Flag : Type 0 where
  free : Flag
  allocated : Flag
  delayed : Flag

pub record Class : Type 0 where
  pub block_size : ℕ
  pub slab_bytes : ℕ
  pub free_list : List ℕ
  pub delayed_list : List (ℕ × ℕ)
  pub cached : List ℕ
  pub flags : ℕ → Flag

abbrev pub tlc_capacity : ℕ
tlc_capacity = 32

abbrev pub set_flag : ℕ → Flag → Class → Class
set_flag off f c = record c { flags = λ o. if o == off then f else c.flags o }

abbrev pub push_free : ℕ → Class → Class
push_free off c = let c₁ = set_flag off free c in record c₁ { free_list = off ∷ c.free_list }

-- The loop of `fill_class` over a new slab: `n` blocks are left, the next one at `off`.
pub fill_blocks : ℕ → ℕ → Class → Class
fill_blocks zero off c = c
fill_blocks (suc n) off c = fill_blocks n (off + c.block_size) (push_free off c)

-- `slab` is what `alloc_pages` returned.
pub fill_class : Option ℕ → Class → Option Class
unfolding fill_blocks
fill_class none c = none
fill_class (some slab) c =
    let count = c.slab_bytes / c.block_size in
    if count == 0 then none else some (fill_blocks count slab c)

-- The refill moves up to `n` blocks from the freelist to the cache.
abbrev pub refill : ℕ → List ℕ → List ℕ → List ℕ × List ℕ
refill zero fs cached = (fs, cached)
refill (suc n) [] cached = ([], cached)
refill (suc n) (off ∷ fs) cached = refill n fs (off ∷ cached)

abbrev pub refill_class : Class → Class
refill_class c =
    let (fs, cached) = refill (tlc_capacity / 2) c.free_list c.cached in
    record c { free_list = fs; cached = cached }

-- The block on top of the cache is handed out; `none` is `std::bad_alloc`.
abbrev pub pop_cached : Class → Option (ℕ × Class)
pop_cached c = elim c.cached [
  | [] ↦ none
  | off ∷ rest ↦ let c₁ = set_flag off allocated c in some (off, record c₁ { cached = rest })
]

abbrev pub refill_and_pop : Option Class → Option (ℕ × Class)
refill_and_pop none = none
refill_and_pop (some c) = pop_cached (refill_class c)

-- `if (!klass.free_head) fill_class(class_id)`
pub ensure_free : Option ℕ → Class → Option Class
ensure_free slab c = elim c.free_list [ [] ↦ fill_class slab c | off ∷ rest ↦ some c ]

pub malloc_small : Option ℕ → Class → Option (ℕ × Class)
malloc_small slab c = elim c.cached [
  | [] ↦ refill_and_pop (ensure_free slab c)
  | off ∷ rest ↦ pop_cached c
]

-- `n` blocks go from the top of the cache to the freelist.
abbrev pub flush : ℕ → Class → Class
flush zero c = c
flush (suc n) c = elim c.cached [
  | [] ↦ c
  | off ∷ rest ↦ flush n (push_free off (record c { cached = rest }))
]

pub flush_tlc_class : Class → Class
flush_tlc_class c = flush (length c.cached) c

abbrev pub push_cached : ℕ → Class → Class
push_cached off c = let c₁ = set_flag off free c in record c₁ { cached = off ∷ c.cached }

pub free_small_immediate : ℕ → Class → Class
free_small_immediate off c =
    if ltb (length c.cached) tlc_capacity
    then push_cached off c
    else push_cached off (flush (tlc_capacity / 2) c)

pub free_small_delayed : ℕ → ℕ → Class → Class
free_small_delayed ts off c =
    let c₁ = set_flag off delayed c in
    record c₁ { delayed_list = c.delayed_list ++ ((off, ts) ∷ []) }

-- `FtAllocator::Free` on a small block; `none` is the double free that it reports. The mode is the
-- time of a delayed free, or none.
pub free_block : Option ℕ → ℕ → Class → Option Class
unfolding free_small_immediate free_small_delayed
free_block mode off c = elim (c.flags off) [
  | free ↦ none
  | delayed ↦ none
  | allocated ↦ elim mode [
    | none ↦ some (free_small_immediate off c)
    | some ts ↦ some (free_small_delayed ts off c)
  ]
]

-- The sweep of one class: blocks leave the delayed list while their time is up. The number of
-- blocks reclaimed comes with the class.
abbrev pub sweep : ℕ → List (ℕ × ℕ) → Class → ℕ × Class
sweep cutoff [] c = (0, record c { delayed_list = [] })
sweep cutoff ((off, ts) ∷ rest) c =
    let (n, swept) = sweep cutoff rest (push_free off c) in
    if ltb cutoff ts then (0, record c { delayed_list = (off, ts) ∷ rest }) else (suc n, swept)

pub reclaim_with_cutoff : ℕ → Class → ℕ × Class
reclaim_with_cutoff cutoff c = sweep cutoff c.delayed_list c
