-- ===== src/Alloc/Large.antt =====
-- libs/yikv/alloc/ft_allocator.cc: the large blocks, over the page allocator. The two headers in
-- front of a payload, `LargeExt` and `BlockHeader`, are the record at the offset of the page run.
-- The mutex of the delayed list makes each operation one step.
pub mod Laws
mod Tests
use yikv.Prelude.{
  ℕ, suc, ◌+◌, ◌-◌, ◌*◌, ◌/◌, ◌%◌, ◌^◌, Bool, true, false, List, [], ◌∷◌, ◌++◌, Option, none, some,
  ltb, ◌==◌, if◌then◌else◌,
}
use yikv.Alloc.Pages.{Pages, alloc_pages, free_pages}
use yikv.Alloc.Freelist.{Flag, free, allocated, delayed}

pub record LargeBlock : Type 0 where
  pub page_count : ℕ
  pub flags : Flag

-- `delayed_large` is the list from the head, of the offsets and the times.
pub record Large : Type 0 where
  pub pages : Pages
  pub blocks : ℕ → Option LargeBlock
  pub delayed_large : List (ℕ × ℕ)

-- `kLargeHdrSize`
abbrev pub large_hdr_size : ℕ
large_hdr_size = 16

-- The sums are those of `uint64_t`.
abbrev pub align_up : ℕ → ℕ → ℕ
align_up v a = (v + a - 1) % 2 ^ 64 / a * a

abbrev pub put_block : ℕ → LargeBlock → Large → Large
put_block off b s = record s { blocks = λ o. if o == off then some b else s.blocks o }

abbrev pub pages_for : Large → ℕ → ℕ
pages_for s size = align_up ((large_hdr_size + size) % 2 ^ 64) s.pages.page_size / s.pages.page_size

-- The headers and the payload in the run that `alloc_pages` returned. `page_count` is a `uint32_t`.
abbrev pub placed : ℕ → Large → Option (ℕ × Pages) → Option (ℕ × Large)
placed count s none = none
placed count s (some (off, pages)) =
    let block : LargeBlock = record { page_count = count % 2 ^ 32; flags = allocated } in
    some (off + large_hdr_size, put_block off block (record s { pages = pages }))

-- `none` is `std::bad_alloc`.
pub malloc_large : (ℕ → Bool) → ℕ → Large → Option (ℕ × Large)
malloc_large wide size s =
    let count = pages_for s size in placed count s (alloc_pages wide s.pages count)

-- The flags are cleared, then the pages go back; `none` is an exception of `free_pages`.
abbrev pub with_pages : Large → Option Pages → Option Large
with_pages s none = none
with_pages s (some pages) = some (record s { pages = pages })

abbrev pub release : ℕ → ℕ → Large → Option Large
release off count s =
    with_pages (put_block off (record { page_count = count; flags = free }) s)
      (free_pages s.pages off count)

abbrev pub delay : ℕ → ℕ → ℕ → Large → Large
delay ts off count s =
    let waiting = put_block off (record { page_count = count; flags = delayed }) s in
    record waiting { delayed_large = s.delayed_large ++ ((off, ts) ∷ []) }

-- What `Free` does with the header of a large block. The mode is the time of a delayed free, or
-- none.
abbrev pub free_as : Option ℕ → ℕ → LargeBlock → Large → Option Large
free_as mode off b s = elim b.flags [
  | free ↦ none
  | delayed ↦ none
  | allocated ↦ elim mode [
    | none ↦ release off b.page_count s
    | some ts ↦ some (delay ts off b.page_count s)
  ]
]

-- `FtAllocator::Free` on a large block; `none` is the error, also for a bad header.
abbrev pub free_found : Option ℕ → ℕ → Option LargeBlock → Large → Option Large
free_found mode off none s = none
free_found mode off (some b) s = free_as mode off b s

pub free_large : Option ℕ → ℕ → Large → Option Large
free_large mode ptr s = let off = ptr - large_hdr_size in free_found mode off (s.blocks off) s

abbrev pub count_of : Option LargeBlock → ℕ
count_of none = 0
count_of (some b) = b.page_count

-- The part of `reclaim_with_cutoff` for the large blocks.
pub reclaim_from : ℕ → List (ℕ × ℕ) → Large → Option (ℕ × Large)
reclaim_from cutoff [] s = some (0, record s { delayed_large = [] })
reclaim_from cutoff ((off, ts) ∷ rest) s =
    if ltb cutoff ts
    then some (0, record s { delayed_large = (off, ts) ∷ rest })
    else elim (release off (count_of (s.blocks off)) s) [
      | none ↦ none
      | some t ↦ elim (reclaim_from cutoff rest t) [ none ↦ none | some (n, u) ↦ some (suc n, u) ]
    ]

pub reclaim_large : ℕ → Large → Option (ℕ × Large)
reclaim_large cutoff s = reclaim_from cutoff s.delayed_large s
