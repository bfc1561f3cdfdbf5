-- ===== src/Alloc/Pages.antt =====
-- libs/yikv/alloc/ft_allocator.cc: the page bitmap, `alloc_pages` and `free_pages`. Bit `j` of word
-- `w` is page `w * 64 + j`, so the bitmap is a function of the page; a mask over a word is the run
-- of pages under it. `EnsureMapped` maps memory and changes none of this state.
pub mod Search
pub mod Marks
pub mod Count
pub mod Laws
mod Tests
use yikv.Prelude.{
  ℕ, zero, suc, ◌+◌, ◌-◌, ◌*◌, ◌/◌, ◌%◌, Bool, true, false, not, ◌&&◌, ◌||◌, Option, none, some,
  min, ltb, leb, ◌==◌, if◌then◌else◌,
}

-- The fields of `AllocatorMetadata` that the page allocator keeps.
pub record Pages : Type 0 where
  pub used : ℕ → Bool
  pub page_size : ℕ
  pub data_offset : ℕ
  pub bitmap_words : ℕ
  pub page_count : ℕ
  pub free_page_count : ℕ
  pub next_page_cursor : ℕ

abbrev pub all_free : (ℕ → Bool) → ℕ → ℕ → Bool
all_free used page zero = true
all_free used page (suc count) = not (used page) && all_free used (suc page) count

abbrev pub all_used : (ℕ → Bool) → ℕ → ℕ → Bool
all_used used page zero = true
all_used used page (suc count) = used page && all_used used (suc page) count

abbrev pub mark : (ℕ → Bool) → ℕ → ℕ → ℕ → Bool
mark used page count q = used q || leb page q && ltb q (page + count)

-- What every path does with the run that it found and the bitmap that it marked.
abbrev pub take_with : (ℕ → Bool) → Pages → ℕ → ℕ → ℕ × Pages
take_with marked s page count = (
  s.data_offset + page * s.page_size,
  record s {
    used = marked;
    free_page_count = s.free_page_count - count;
    next_page_cursor = (page + count) % s.page_count;
  },
)

-- The fast path marks the run under its mask.
pub take_run : Pages → ℕ → ℕ → ℕ × Pages
take_run s page count = take_with (mark s.used page count) s page count

-- The scans mark page by page.
pub mark_pages : ℕ → (ℕ → Bool) → ℕ → ℕ → Bool
mark_pages zero used page = used
mark_pages (suc n) used page = mark_pages n (λ q. if q == page then true else used q) (suc page)

pub take_pages : Pages → ℕ → ℕ → ℕ × Pages
unfolding mark_pages
take_pages s page count = take_with (mark_pages count s.used page) s page count

-- The general path marks word by word: `while (remaining > 0)`. Within the arena each round marks
-- a page, so the number of pages is fuel enough.
pub mark_words : ℕ → ℕ → (ℕ → Bool) → ℕ → ℕ → ℕ → ℕ → Bool
mark_words zero page_count used r_w r_pos remaining = used
mark_words (suc fuel) page_count used r_w r_pos remaining =
    let in_word = min remaining (64 - r_pos) in
    let last_word = ltb page_count ((r_w + 1) * 64) in
    let n = if last_word then min in_word (page_count - r_w * 64 - r_pos) else in_word in
    let marked = mark used (r_w * 64 + r_pos) n in
    if ltb 0 remaining then mark_words fuel page_count marked (suc r_w) 0 (remaining - n) else used

pub take_words : Pages → ℕ → ℕ → ℕ × Pages
unfolding mark_words
take_words s page count =
    take_with (mark_words count s.page_count s.used (page / 64) (page % 64) count) s page count

-- The inner loop of the fast path: the shifts in one word.
pub fast_shift : ℕ → Pages → ℕ → ℕ → ℕ → Option ℕ
fast_shift zero s count w shift = none
fast_shift (suc fuel) s count w shift =
    let page = w * 64 + shift in
    let rest = fast_shift fuel s count w (suc shift) in
    if not (leb (shift + count) 64)
    then none
    else if leb s.page_count page || ltb s.page_count (page + count)
    then none
    else if all_free s.used page count
    then some page
    else rest

abbrev pub or_else : {A : Type 0} → Option A → Option A → Option A
or_else a b = elim a [ some x ↦ some x | none ↦ b ]

-- The fast path: `n` words are left to try, the next one is `start_w + ws`. A word has 65 shifts
-- at most.
pub fast_path : ℕ → Pages → ℕ → ℕ → ℕ → Option ℕ
unfolding fast_shift
fast_path zero s count start_w ws = none
fast_path (suc n) s count start_w ws =
    let w = (start_w + ws) % s.bitmap_words in
    let rest = fast_path n s count start_w (suc ws) in
    if all_used s.used (w * 64) 64 then rest else or_else (fast_shift 65 s count w 0) rest

-- The scan page by page; it stops where a run would pass the end.
pub page_scan : ℕ → Pages → ℕ → ℕ → ℕ → Option ℕ
page_scan zero s count start_p t = none
page_scan (suc n) s count start_p t =
    let p = (start_p + t) % s.page_count in
    let rest = page_scan n s count start_p (suc t) in
    if ltb s.page_count (p + count) then none else if all_free s.used p count then some p else rest

-- The lowest set bit at or after `j`, with `n` bits left: `__builtin_ctzll`.
abbrev pub first_bit : ℕ → (ℕ → Bool) → ℕ → Option ℕ
first_bit zero free j = none
first_bit (suc n) free j = if free j then some j else first_bit n free (suc j)

-- The set bits in a row from `j` on.
abbrev pub ones : ℕ → (ℕ → Bool) → ℕ → ℕ
ones zero free j = 0
ones (suc n) free j = if free j then suc (ones n free (suc j)) else 0

-- The free bits of the word at which a round starts.
abbrev pub start_free : Pages → ℕ → Bool → ℕ → ℕ → Bool
start_free s w_idx first_round start_off j =
    not (s.used (w_idx * 64 + j))
    && not (first_round && ltb j start_off)
    && ltb (w_idx * 64 + j) s.page_count

-- The run that a search found, taken.
abbrev pub taken_by : (Pages → ℕ → ℕ → ℕ × Pages) → Pages → ℕ → Option ℕ → Option (ℕ × Pages)
taken_by take s count none = none
taken_by take s count (some page) = some (take s page count)

-- The general path. `wide` is the mask that the code computes as `(1ULL << 64) - 1`: the language
-- leaves the shift by 64 undefined, so its bits are a parameter.
module _ (wide : ℕ → Bool) where
  pub next_free : Pages → ℕ → ℕ → Bool
  next_free s cw j =
      let valid = s.page_count - cw * 64 in
      not (s.used (cw * 64 + j))
      && (if ltb s.page_count ((cw + 1) * 64) then ltb j valid else wide j)

  -- `while (run_len < count)`
  pub count_run : ℕ → Pages → ℕ → ℕ → (ℕ → Bool) → ℕ → ℕ → ℕ
  count_run zero s count cw free pos run_len = run_len
  count_run (suc n) s count cw free pos run_len =
      let last_word = ltb s.page_count ((cw + 1) * 64) in
      let row = ones (64 - pos) free pos in
      let in_word = if last_word then min row (s.page_count - cw * 64 - pos) else row in
      let total = run_len + in_word in
      let next = next_free s (suc cw) in
      let rest = count_run n s count (suc cw) next 0 total in
      if leb count run_len then run_len else elim (first_bit (64 - pos) free pos) [
        | none ↦ run_len
        | some j ↦
            if leb count total
            then total
            else if leb s.bitmap_words (suc cw) || leb s.page_count (suc cw * 64)
            then total
            else elim (first_bit 64 next 0) [ none ↦ total | some k ↦ rest ]
      ]

  pub general_word : Pages → ℕ → ℕ → Bool → ℕ → Option ℕ
  unfolding next_free count_run
  general_word s count w_idx first_round start_off =
      let free = start_free s w_idx first_round start_off in
      if leb s.page_count (w_idx * 64) then none else elim (first_bit 64 free 0) [
        | none ↦ none
        | some first ↦
            if leb count (count_run s.bitmap_words s count w_idx free first 0)
            then some (w_idx * 64 + first)
            else none
      ]

  pub general_path : ℕ → Pages → ℕ → ℕ → ℕ → Option ℕ
  unfolding general_word
  general_path zero s count start_bit wi = none
  general_path (suc n) s count start_bit wi =
      let w_idx = (start_bit / 64 + wi) % s.bitmap_words in
      let rest = general_path n s count start_bit (suc wi) in
      if all_used s.used (w_idx * 64) 64
      then rest
      else or_else (general_word s count w_idx (wi == 0) (start_bit % 64)) rest

  -- The first path, by the length of the run, and what it makes of the state.
  pub first_path : Pages → ℕ → Option (ℕ × Pages)
  unfolding fast_path page_scan take_run take_pages
  first_path s count =
      let cur = s.next_page_cursor in
      let fast = fast_path s.bitmap_words s count (cur / 64 % s.bitmap_words) 0 in
      let scan = page_scan s.page_count s count (cur % s.page_count) 0 in
      if leb count 64
      then taken_by take_run s count fast
      else if leb count 128
      then taken_by take_pages s count scan
      else none

  -- The paths in their order; `none` is `std::bad_alloc`.
  pub alloc_pages : Pages → ℕ → Option (ℕ × Pages)
  unfolding first_path general_path page_scan take_words take_pages
  alloc_pages s count =
      let start = s.next_page_cursor % s.page_count in
      let general = general_path s.bitmap_words s count start 0 in
      let scan = page_scan s.page_count s count start 0 in
      if count == 0 || ltb s.free_page_count count
      then none
      else or_else (first_path s count)
          (or_else (taken_by take_words s count general) (taken_by take_pages s count scan))

-- The loop of `free_pages`; `none` is the double free that it reports.
pub clear_run : ℕ → (ℕ → Bool) → ℕ → Option (ℕ → Bool)
clear_run zero used page = some used
clear_run (suc count) used page =
    let rest = clear_run count (λ q. if q == page then false else used q) (suc page) in
    if used page then rest else none

-- `none` is one of the three `std::runtime_error`s.
pub free_pages : Pages → ℕ → ℕ → Option Pages
unfolding clear_run
free_pages s offset count =
    let start = (offset - s.data_offset) / s.page_size in
    if ltb offset s.data_offset || not ((offset - s.data_offset) % s.page_size == 0)
    then none
    else if ltb s.page_count (start + count)
    then none
    else elim (clear_run count s.used start) [
      | none ↦ none
      | some used ↦ some (record s { used = used; free_page_count = s.free_page_count + count })
    ]
