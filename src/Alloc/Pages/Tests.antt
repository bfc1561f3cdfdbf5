-- ===== src/Alloc/Pages/Tests.antt =====
-- An arena of two words, and two states on which the searches miss their aim.
use yikv.Prelude.{
  ℕ, ◌+◌, ◌*◌, ◌≡◌, refl, Bool, true, false, not, ◌||◌, some, none, arith, ltb, leb, ◌==◌,
  if◌then◌else◌,
}
use yikv.Alloc.Pages.{
  Pages, all_free, take_run, fast_shift, fast_path, page_scan, next_free, count_run, general_word,
  general_path, take_words, first_path, alloc_pages, clear_run, free_pages,
}
use yikv.Alloc.Pages.Search.{IsRun, HasRun}
use yikv.Alloc.Pages.Laws.{
  Allocated, alloc_pages-Allocated, alloc_pages-finds, free_pages-take_run, free_pages_twice,
}

abbrev arena : (ℕ → Bool) → ℕ → ℕ → ℕ → Pages
arena used pages free cursor = record {
  used = used;
  page_size = 4096;
  data_offset = 8192;
  bitmap_words = 2;
  page_count = pages;
  free_page_count = free;
  next_page_cursor = cursor;
}

-- The mask of the undefined shift as x86 computes it: no bit.
abbrev no_bit : ℕ → Bool
no_bit j = false

-- The first three pages are used.
abbrev started : Pages
started = arena (λ q. ltb q 3) 100 97 3

alloc_pages-started : alloc_pages no_bit started 4 ≡ some (take_run started 3 4)
unfolding alloc_pages first_path fast_path fast_shift
alloc_pages-started = refl

started-HasRun : HasRun started 4 0 3
started-HasRun = record {
  some_pages = omega arith;
  in_word = omega arith;
  word = omega arith;
  in_arena = omega arith;
  free = refl;
}

alloc_pages-Allocated_example :
    Allocated no_bit started 4 (take_run started 3 4).0 (take_run started 3 4).1
alloc_pages-Allocated_example =
    alloc_pages-Allocated no_bit started 4 (take_run started 3 4).0 (take_run started 3 4).1
      alloc_pages-started

alloc_pages-finds_example :
    (page : ℕ) × IsRun started 4 page
    × (alloc_pages no_bit started 4 ≡ some (take_run started page 4))
alloc_pages-finds_example = alloc_pages-finds no_bit started 4 0 3 started-HasRun (omega arith)

free_pages-take_run_example :
    let (off, taken) = take_run started 3 4 in
    (r : Pages) × (free_pages taken off 4 ≡ some r)
    × ((q : ℕ) → r.used q ≡ started.used q)
    × (r.free_page_count ≡ started.free_page_count)
free_pages-take_run_example =
    free_pages-take_run no_bit started 4 3 (omega arith) (omega arith, refl) (omega arith)

-- The second page is given back.
abbrev shorter : Pages
shorter = record started {
  used = λ q. if q == 2 then false else if q == 1 then false else started.used q;
  free_page_count = 97 + 2;
}

free_pages_shorter : free_pages started (8192 + 1 * 4096) 2 ≡ some shorter
unfolding free_pages clear_run
free_pages_shorter = refl

free_pages_twice_example : free_pages shorter (8192 + 1 * 4096) 2 ≡ none
free_pages_twice_example =
    free_pages_twice started shorter 1 2 (omega arith) (omega arith) (omega arith) refl
      free_pages_shorter

-- Pages 60, 61, 64, 65 and 66 are free, 62 and 63 are in use: no five in a row are free, and the
-- run that the general path counts across the word border covers the two used pages.
abbrev broken : Pages
broken = arena (λ q. not (q == 60 || q == 61 || q == 64 || q == 65 || q == 66)) 100 5 0

alloc_pages-broken : alloc_pages no_bit broken 5 ≡ some (take_words broken 60 5)
unfolding alloc_pages first_path fast_path fast_shift general_path general_word count_run next_free
alloc_pages-broken = refl

broken_in_use : (broken.used 62 ≡ true) × (all_free broken.used 60 5 ≡ false)
broken_in_use = (refl, refl)

-- The scans stop at the first run that would pass the end: with the cursor at 190 of 192
-- pages and 70 free pages at the front, 66 pages are not found.
abbrev late : Pages
late = record (arena (λ q. leb 70 q) 192 70 190) { bitmap_words = 3 }

alloc_pages-late : alloc_pages no_bit late 66 ≡ none
unfolding alloc_pages first_path fast_path fast_shift page_scan general_path general_word count_run
    next_free
alloc_pages-late = refl
