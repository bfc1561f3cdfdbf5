-- ===== src/Alloc/Pages/Laws.antt =====
-- What `alloc_pages` and `free_pages` do to the page bitmap.
use yikv.Prelude.{
  ℕ, zero, suc, ◌+◌, ◌-◌, ◌*◌, ◌/◌, ◌%◌, ◌≤◌, ◌<◌, ◌≡◌, ◌≢◌, ◌⊎◌, refl, sym, ap, ◌∙◌, inl, inr,
  Bool, true, false, not, ◌&&◌, ◌||◌, Option, none, some, arith, ltb, leb, ◌==◌, if◌then◌else◌,
  Bool-cases,
}
use native.Mathlib.Nat.{mul-div_cancel, mul-mod_left}
use yikv.Alloc.Pages.{
  Pages, all_free, all_used, mark, take_with, take_run, mark_pages, take_pages, mark_words,
  take_words, taken_by, page_scan, general_path, first_path, alloc_pages, clear_run, free_pages,
}
use yikv.Alloc.Pages.Search.{
  IsRun, HasRun, fast_path-IsRun, page_scan-IsRun, general_path-bound, fast_path-finds,
  or_else-cases, first_free,
}
use yikv.Alloc.Pages.Marks.{mark_pages_lem, mark_words_lem}
use yikv.Alloc.Pages.Count.{free_in, free_in-≤, all_free-free_in, Counted, general_path-Counted}

-- What a successful call makes of the state. Only the general path may take a run with used pages
-- in it: it counts free pages over the borders of words.
pub record Allocated (wide : ℕ → Bool) (s : Pages) (count off : ℕ) (r : Pages) : Type 0 where
  pub page : ℕ
  pub offset : off ≡ s.data_offset + page * s.page_size
  pub in_arena : page + count ≤ s.page_count
  pub some_pages : 0 < count
  pub was_free :
      (all_free s.used page count ≡ true)
      ⊎ (general_path wide s.bitmap_words s count (s.next_page_cursor % s.page_count) 0 ≡ some page)
  pub open_page : s.used page ≡ false
  pub enough : count ≤ free_in s.used page (s.page_count - page)
  pub marked : (q : ℕ) → r.used q ≡ (s.used q || leb page q && ltb q (page + count))
  pub counted : r.free_page_count + count ≡ s.free_page_count
  pub cursor : r.next_page_cursor ≡ (page + count) % s.page_count
  pub geometry :
      (r.page_size ≡ s.page_size) × (r.data_offset ≡ s.data_offset) × (r.page_count ≡ s.page_count)

-- The first page of a run of free pages, and their number.
IsRun-Counted : (s : Pages) (count p : ℕ) → 0 < count → IsRun s count p → Counted s count p
IsRun-Counted s count p some_pages run = record {
  open_page = first_free s.used p count some_pages run.1;
  enough = omega (
    arith,
    all_free-free_in s.used p count run.1,
    free_in-≤ s.used p count (s.page_count - p) (p + count) (omega arith) (omega (arith, run.0)),
  );
}

module _ (wide : ℕ → Bool) (s : Pages) (count : ℕ) (some_pages : 0 < count)
    (left : count ≤ s.free_page_count) where
  -- What a search found, as the reason why its run may be taken.
  abbrev Found : ℕ → Type 0
  Found p =
      (p + count ≤ s.page_count)
      × Counted s count p
      × ((all_free s.used p count ≡ true)
          ⊎ (general_path wide s.bitmap_words s count (s.next_page_cursor % s.page_count) 0
              ≡ some p))

  IsRun-Found : (p : ℕ) → IsRun s count p → Found p
  IsRun-Found p run = (run.0, IsRun-Counted s count p some_pages run, inl run.1)

  take_with-Allocated :
      (used : ℕ → Bool) (p off : ℕ) (r : Pages)
      → ((q : ℕ) → used q ≡ mark s.used p count q)
      → Found p
      → take_with used s p count ≡ (off, r)
      → Allocated wide s count off r
  take_with-Allocated used p off r m f e = record {
    page = p;
    offset = sym (ap (λ t. t.0) e);
    in_arena = f.0;
    some_pages = some_pages;
    was_free = f.2;
    open_page = f.1.open_page;
    enough = f.1.enough;
    marked = λ q. sym (ap (λ t. t.1.used q) e) ∙ m q;
    counted = omega (arith, ap (λ t. t.1.free_page_count) e);
    cursor = sym (ap (λ t. t.1.next_page_cursor) e);
    geometry = (
      sym (ap (λ t. t.1.page_size) e),
      sym (ap (λ t. t.1.data_offset) e),
      sym (ap (λ t. t.1.page_count) e),
    );
  }

  -- The three ways to mark the run that was found.
  abbrev Takes : (Pages → ℕ → ℕ → ℕ × Pages) → Type 0
  Takes take =
      (p off : ℕ) (r : Pages) → Found p → take s p count ≡ (off, r) → Allocated wide s count off r

  take_run-Takes : Takes take_run
  unfolding take_run
  take_run-Takes p off r f e = take_with-Allocated (mark s.used p count) p off r (λ q. refl) f e

  take_pages-Takes : Takes take_pages
  unfolding take_pages
  take_pages-Takes p off r f e =
      take_with-Allocated (mark_pages count s.used p) p off r (mark_pages_lem count s.used p) f e

  take_words-Takes : Takes take_words
  unfolding take_words
  take_words-Takes p off r f e =
      let split : p / 64 * 64 + p % 64 ≡ p = omega arith in
      take_with-Allocated (mark_words count s.page_count s.used (p / 64) (p % 64) count) p off r
        (λ q.
          mark_words_lem count s.page_count s.used (p / 64) (p % 64) count q (omega arith)
            (omega arith) (omega (arith, f.0))
          ∙ ap (λ x. mark s.used x count q) split)
        f e

  taken_by-Allocated :
      (take : Pages → ℕ → ℕ → ℕ × Pages) (o : Option ℕ) (off : ℕ) (r : Pages)
      → Takes take
      → ((p : ℕ) → o ≡ some p → Found p)
      → taken_by take s count o ≡ some (off, r)
      → Allocated wide s count off r
  taken_by-Allocated take none off r t f e = cc
  taken_by-Allocated take (some p) off r t f e = t p off r (f p refl) cc

  scan-Allocated :
      (off : ℕ) (r : Pages)
      → taken_by take_pages s count
          (page_scan s.page_count s count (s.next_page_cursor % s.page_count) 0)
        ≡ some (off, r)
      → Allocated wide s count off r
  scan-Allocated off r = taken_by-Allocated take_pages _ off r take_pages-Takes (λ p e.
      IsRun-Found p
        (page_scan-IsRun s.page_count s count (s.next_page_cursor % s.page_count) 0 p e))

  first_path-Allocated :
      (off : ℕ) (r : Pages) → first_path wide s count ≡ some (off, r) → Allocated wide s count off r
  unfolding first_path
  first_path-Allocated off r e = elim (Bool-cases (leb count 64)) [
    | inl short ↦
        taken_by-Allocated take_run _ off r take_run-Takes
          (λ p f. IsRun-Found p (
            fast_path-IsRun s.bitmap_words s count (s.next_page_cursor / 64 % s.bitmap_words) 0 p
              f))
          (rw short at e)
    | inr long ↦ elim (Bool-cases (leb count 128)) [
      | inl middle ↦ scan-Allocated off r (rw (long, middle) at e)
      | inr longer ↦ absurd (nothing (rw (long, longer) at e))
    ]
  ]
    where
      empty_handed : Option (ℕ × Pages)
      empty_handed = none

      nothing : empty_handed ≢ some (off, r)
      nothing d = cc

  general-Allocated :
      (off : ℕ) (r : Pages)
      → taken_by take_words s count
          (general_path wide s.bitmap_words s count (s.next_page_cursor % s.page_count) 0)
        ≡ some (off, r)
      → Allocated wide s count off r
  general-Allocated off r =
      let start = s.next_page_cursor % s.page_count in
      taken_by-Allocated take_words _ off r take_words-Takes (λ p e. (
        general_path-bound wide s.bitmap_words s count start 0 p e,
        general_path-Counted wide s.bitmap_words s count start 0 p e,
        inr e,
      ))

module _ (wide : ℕ → Bool) where
  -- When alloc_pages returns an offset, it is that of a page run of the asked length within the
  -- arena: all its pages were free, or the general path found it; its first page was free in
  -- any case, and the arena has as many free pages from there on as the run is long. The
  -- marking of each path, in one word, by page or by word, leaves the bits of the run set and
  -- all others as they were; the free count falls by the length, the cursor is behind the run,
  -- and page size, data offset and page count stay.
  pub alloc_pages-Allocated :
      (s : Pages) (count off : ℕ) (r : Pages)
      → alloc_pages wide s count ≡ some (off, r)
      → Allocated wide s count off r
  unfolding alloc_pages
  alloc_pages-Allocated s count off r e =
      elim (Bool-cases (count == 0 || ltb s.free_page_count count)) [
        | inl refused ↦ absurd (cc)
        | inr enough ↦
            let pages : 0 < count = ground arith in
            let left : count ≤ s.free_page_count = ground arith in
            elim (or_else-cases _ _ (off, r) (rw enough at e)) [
              | inl first ↦ first_path-Allocated wide s count pages left off r first
              | inr later ↦ elim (or_else-cases _ _ (off, r) later) [
                | inl general ↦ general-Allocated wide s count pages left off r general
                | inr scan ↦ scan-Allocated wide s count pages left off r scan
              ]
            ]
      ]

all_used-ext :
    (used used' : ℕ → Bool) (count page : ℕ)
    → ((q : ℕ) → page ≤ q → used q ≡ used' q)
    → all_used used page count ≡ all_used used' page count
all_used-ext used used' zero page h = refl
all_used-ext used used' (suc count) page h =
    rw (h page (omega arith), all_used-ext used used' count (suc page) (λ q l. h q (omega arith)))
      refl

-- The loop of `free_pages` succeeds on a run of used pages and clears just these.
abbrev Cleared : (ℕ → Bool) → ℕ → ℕ → (ℕ → Bool) → Type 0
Cleared used page count r = (q : ℕ) → r q ≡ (used q && not (leb page q && ltb q (page + count)))

clear_run-Cleared :
    (count : ℕ) (used : ℕ → Bool) (page : ℕ)
    → all_used used page count ≡ true
    → (r : ℕ → Bool) × (clear_run count used page ≡ some r) × Cleared used page count r
unfolding clear_run
clear_run-Cleared zero used page e = (used, refl, λ q. ground arith)
clear_run-Cleared (suc count) used page e =
    let less : ℕ → Bool = λ q. if q == page then false else used q in
    let taken : used page ≡ true = ground arith in
    let rest : all_used used (suc page) count ≡ true = ground arith in
    let same = all_used-ext less used count (suc page) (λ q l. ground arith) in
    let (r, run, c) = clear_run-Cleared count less (suc page) (same ∙ rest) in
    (r, rw taken run, λ q. ground (arith, c q))

clear_run-none :
    (count : ℕ) (used : ℕ → Bool) (page : ℕ)
    → all_used used page count ≡ false
    → clear_run count used page ≡ none
unfolding clear_run
clear_run-none zero used page e = cc
clear_run-none (suc count) used page e = elim (Bool-cases (used page)) [
  | inr free ↦ rw free refl
  | inl taken ↦
      let less : ℕ → Bool = λ q. if q == page then false else used q in
      let rest : all_used used (suc page) count ≡ false = rw taken at e in
      let same = all_used-ext less used count (suc page) (λ q l. ground arith) in
      rw taken (clear_run-none count less (suc page) (same ∙ rest))
]

-- `free_pages` at the offset of a page: which calls succeed, and what they do.
pub record Freed (s : Pages) (page count : ℕ) (r : Pages) : Type 0 where
  pub cleared : (q : ℕ) → r.used q ≡ (s.used q && not (leb page q && ltb q (page + count)))
  pub counted : r.free_page_count ≡ s.free_page_count + count
  pub geometry :
      (r.page_size ≡ s.page_size) × (r.data_offset ≡ s.data_offset) × (r.page_count ≡ s.page_count)

module _ (s : Pages) (page count : ℕ) (sized : 0 < s.page_size) where
  start_page : (s.data_offset + page * s.page_size - s.data_offset) / s.page_size ≡ page
  start_page = ap (λ n. n / s.page_size) (ground arith) ∙ mul-div_cancel page sized

  aligned : (s.data_offset + page * s.page_size - s.data_offset) % s.page_size ≡ 0
  aligned = ap (λ n. n % s.page_size) (ground arith) ∙ mul-mod_left page s.page_size

  pub free_pages-Freed :
      page + count ≤ s.page_count
      → all_used s.used page count ≡ true
      → (r : Pages) × (free_pages s (s.data_offset + page * s.page_size) count ≡ some r)
        × Freed s page count r
  unfolding free_pages
  free_pages-Freed inside taken =
      let (u, run, c) = clear_run-Cleared count s.used page taken in
      let in_data : ltb (s.data_offset + page * s.page_size) s.data_offset ≡ false = ground arith in
      let in_range : ltb s.page_count (page + count) ≡ false = ground arith in
      (
        record s { used = u; free_page_count = s.free_page_count + count },
        rw (in_data, aligned, start_page, in_range, run) refl,
        record { cleared = c; counted = refl; geometry = (refl, refl, refl) },
      )

  pub free_pages-none :
      all_used s.used page count ≡ false
      → free_pages s (s.data_offset + page * s.page_size) count ≡ none
  unfolding free_pages
  free_pages-none free =
      let in_data : ltb (s.data_offset + page * s.page_size) s.data_offset ≡ false = ground arith in
      let run = clear_run-none count s.used page free in
      elim (Bool-cases (ltb s.page_count (page + count))) [
        | inl out ↦ rw (in_data, aligned, start_page, out) refl
        | inr in_range ↦ rw (in_data, aligned, start_page, in_range, run) refl
      ]

-- Reading a run of the bitmap.
all_free-used :
    (used : ℕ → Bool) (count page q : ℕ)
    → all_free used page count ≡ true
    → page ≤ q
    → q < page + count
    → used q ≡ false
all_free-used used zero page q e a b = absurd (omega arith)
all_free-used used (suc count) page q e a b = elim (Bool-cases (page == q)) [
  | inl here ↦
      let same : page ≡ q = ground arith in
      let free : used page ≡ false = ground arith in ap used (sym same) ∙ free
  | inr later ↦ all_free-used used count (suc page) q (ground arith) (ground arith) (omega arith)
]

used-all_used :
    (used : ℕ → Bool) (count page : ℕ)
    → ((q : ℕ) → page ≤ q → q < page + count → used q ≡ true)
    → all_used used page count ≡ true
used-all_used used zero page h = refl
used-all_used used (suc count) page h =
    rw (h page (omega arith) (omega arith))
      (used-all_used used count (suc page) (λ q a b. h q (omega arith) (omega arith)))

used-not_all_used :
    (used : ℕ → Bool) (count page : ℕ)
    → 0 < count
    → used page ≡ false
    → all_used used page count ≡ false
used-not_all_used used zero page h e = absurd (omega arith)
used-not_all_used used (suc count) page h e = rw e refl

module _ (wide : ℕ → Bool) (s : Pages) (count : ℕ) where
  -- When some 64-page word has a run of free pages of the asked length within the arena, and
  -- the free count allows it, alloc_pages succeeds, and the pages that it takes were all free.
  pub alloc_pages-finds :
      (w shift : ℕ)
      → HasRun s count w shift
      → count ≤ s.free_page_count
      → (page : ℕ) × IsRun s count page × (alloc_pages wide s count ≡ some (take_run s page count))
  unfolding alloc_pages first_path
  alloc_pages-finds w shift h enough =
      let (p, f) = fast_path-finds s count (s.next_page_cursor / 64) w shift h in
      let short : leb count 64 ≡ true = ground (arith, h.in_word) in
      let go : (count == 0 || ltb s.free_page_count count) ≡ false = ground (arith, h.some_pages) in
      (
        p,
        fast_path-IsRun s.bitmap_words s count (s.next_page_cursor / 64 % s.bitmap_words) 0 p f,
        rw (go, short, f) refl,
      )

  -- With a positive page size, freeing a run that was taken from free pages succeeds and gives
  -- back the bitmap and the free count from before.
  pub free_pages-take_run :
      (page : ℕ)
      → 0 < s.page_size
      → IsRun s count page
      → count ≤ s.free_page_count
      → let (off, taken) = take_run s page count in
        (r : Pages) × (free_pages taken off count ≡ some r)
        × ((q : ℕ) → r.used q ≡ s.used q)
        × (r.free_page_count ≡ s.free_page_count)
  unfolding take_run
  free_pages-take_run page sized run enough =
      let taken = (take_run s page count).1 in
      let all = used-all_used taken.used count page (λ q a b. ground arith) in
      let (r, e, f) = free_pages-Freed taken page count sized run.0 all in
      (
        r,
        e,
        λ q. ground (arith, f.cleared q, all_free-used s.used count page q run.1),
        omega (arith, f.counted),
      )

-- With a positive page size, after free_pages of a positive number of used pages within the
-- arena succeeded, a second free_pages of the same run is refused.
pub free_pages_twice :
    (s r : Pages) (page count : ℕ)
    → 0 < s.page_size
    → 0 < count
    → page + count ≤ s.page_count
    → all_used s.used page count ≡ true
    → free_pages s (s.data_offset + page * s.page_size) count ≡ some r
    → free_pages r (s.data_offset + page * s.page_size) count ≡ none
free_pages_twice s r page count sized some_pages inside taken e =
    let (r', e', f) = free_pages-Freed s page count sized inside taken in
    let same : r ≡ r' = cc in
    let free : all_used r'.used page count ≡ false =
      used-not_all_used r'.used count page some_pages (ground (arith, f.cleared page)) in
    let twice = free_pages-none r' page count (rw f.geometry.0 sized) free in
    rw same (rw (f.geometry.0, f.geometry.1) at twice)
