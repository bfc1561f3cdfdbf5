-- ===== src/Alloc/Large/Tests.antt =====
-- An arena of 64 pages of 4096 bytes with two pages in use.
use yikv.Prelude.{ℕ, ◌≡◌, refl, Bool, false, [], none, some, arith, ltb}
use yikv.Alloc.Pages.{Pages}
use yikv.Alloc.Pages.Search.{HasRun}
use yikv.Alloc.Large.{Large, malloc_large, free_large}
use yikv.Alloc.Large.Laws.{Lifetime, malloc_large-Lifetime}

abbrev no_mask : ℕ → Bool
no_mask j = false

abbrev arena : Pages
arena = record {
  used = λ q. ltb q 2;
  page_size = 4096;
  data_offset = 8192;
  bitmap_words = 1;
  page_count = 64;
  free_page_count = 62;
  next_page_cursor = 2;
}

abbrev start : Large
start = record { pages = arena; blocks = λ off. none; delayed_large = [] }

run : HasRun arena 3 0 2
run = record {
  some_pages = omega arith;
  in_word = omega arith;
  word = omega arith;
  in_arena = omega arith;
  free = refl;
}

-- 10000 bytes and the headers take three pages.
malloc_large-Lifetime_example :
    (ptr : ℕ) × (r : Large) × (malloc_large no_mask 10000 start ≡ some (ptr, r))
    × Lifetime 10000 start ptr r
malloc_large-Lifetime_example =
    malloc_large-Lifetime no_mask 10000 0 2 start (omega arith) (omega arith) refl run (omega arith)

free_large-nothing : free_large none 8208 start ≡ none
unfolding free_large
free_large-nothing = refl
