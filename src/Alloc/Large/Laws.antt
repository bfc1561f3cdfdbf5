-- ===== src/Alloc/Large/Laws.antt =====
-- The life of a large block: it fits, and each way of freeing it gives its pages back once.
use yikv.Prelude.{
  ℕ, ◌+◌, ◌-◌, ◌*◌, ◌/◌, ◌%◌, ◌^◌, ◌≤◌, ◌<◌, ◌≡◌, refl, sym, ap, subst, ◌∙◌, Bool, true, false, [],
  ◌∷◌, ◌++◌, Option, none, some, arith, ltb, ◌==◌,
}
use native.Mathlib.Nat.{mul-div_cancel, div-add-mod', mod-lt, mul-le-mul_right, add-mul}
use yikv.Alloc.Pages.{Pages, take_run, free_pages}
use yikv.Alloc.Pages.Search.{HasRun}
use yikv.Alloc.Pages.Laws.{alloc_pages-Allocated, alloc_pages-finds, free_pages-take_run}
use yikv.Alloc.Freelist.{free, allocated, delayed}
use yikv.Alloc.Large.{
  LargeBlock, Large, put_block, pages_for, malloc_large, release, delay, free_as, free_large,
  free_found, with_pages, placed, count_of, reclaim_from, reclaim_large,
}

-- The pages are as before the allocation.
pub record Restored (s t : Large) : Type 0 where
  pub used : (q : ℕ) → t.pages.used q ≡ s.pages.used q
  pub free_count : t.pages.free_page_count ≡ s.pages.free_page_count

-- What may happen to a block that `malloc_large` returned.
pub record Lifetime (size : ℕ) (s : Large) (ptr : ℕ) (r : Large) : Type 0 where
  pub above : s.pages.data_offset + 16 ≤ ptr
  pub below : ptr + size ≤ s.pages.data_offset + s.pages.page_count * s.pages.page_size
  pub immediate :
      (t : Large) × (free_large none ptr r ≡ some t)
      × Restored s t
      × ((mode : Option ℕ) → free_large mode ptr t ≡ none)
  pub later :
      (ts : ℕ)
      → (t : Large) × (free_large (some ts) ptr r ≡ some t)
        × (t.pages ≡ r.pages)
        × ((mode : Option ℕ) → free_large mode ptr t ≡ none)
        × ((cutoff : ℕ) → cutoff < ts → reclaim_large cutoff t ≡ some (0, t))
        × ((cutoff : ℕ)
            → ts ≤ cutoff
            → (u : Large) × (reclaim_large cutoff t ≡ some (1, u)) × Restored s u)

same : (n : ℕ) → (n == n) ≡ true
same n = ground arith

back : (n : ℕ) → n + 16 - 16 ≡ n
back n = omega arith

free_large-at :
    (mode : Option ℕ) (off : ℕ) (b : LargeBlock) (s : Large)
    → s.blocks off ≡ some b
    → free_large mode (off + 16) s ≡ free_as mode off b s
unfolding free_large
free_large-at mode off b s e =
    ap (λ o. free_found mode o (s.blocks o) s) (back off) ∙ ap (λ x. free_found mode off x s) e

-- The block under an offset where one was just put.
put_block-at : (off : ℕ) (b : LargeBlock) (s : Large) → (put_block off b s).blocks off ≡ some b
put_block-at off b s = rw (same off) refl

release-some :
    (off count : ℕ) (s : Large) (p : Pages)
    → free_pages s.pages off count ≡ some p
    → release off count s
      ≡ some (record (put_block off (record { page_count = count; flags = free }) s) { pages = p })
release-some off count s p e =
    ap (with_pages (put_block off (record { page_count = count; flags = free }) s)) e

-- A block that was taken from `s` at `off`, with its pages.
record Taken (size off count : ℕ) (s r : Large) : Type 0 where
  recorded : r.blocks off ≡ some (record { page_count = count; flags = allocated })
  idle : r.delayed_large ≡ []
  given_back : Pages
  gives_back : free_pages r.pages off count ≡ some given_back
  used : (q : ℕ) → given_back.used q ≡ s.pages.used q
  free_count : given_back.free_page_count ≡ s.pages.free_page_count

-- The block after its pages went back.
abbrev released : ℕ → ℕ → Pages → Large → Large
released off count p s = record (put_block off (record { page_count = count; flags = free }) s) {
  pages = p;
}

reclaim_from-one :
    (cutoff off ts count : ℕ) (t : Large) (p : Pages)
    → ts ≤ cutoff
    → count_of (t.blocks off) ≡ count
    → free_pages t.pages off count ≡ some p
    → reclaim_from cutoff ((off, ts) ∷ []) t
      ≡ some (1, record (released off count p t) { delayed_large = [] })
unfolding reclaim_from
reclaim_from-one cutoff off ts count t p h c e =
    let e' = subst (λ n. free_pages t.pages off n ≡ some p) (sym c) e in
    subst
      (λ n.
        reclaim_from cutoff ((off, ts) ∷ []) t
        ≡ some (1, record (released off n p t) { delayed_large = [] }))
      c (rw (after cutoff ts h, e') refl)
  where
    after : (a b : ℕ) → b ≤ a → ltb a b ≡ false
    after a b h = ground arith

module _ (size off count : ℕ) (s r : Large) (k : Taken size off count s r) where
  Taken-immediate :
      (t : Large) × (free_large none (off + 16) r ≡ some t)
      × Restored s t
      × ((mode : Option ℕ) → free_large mode (off + 16) t ≡ none)
  Taken-immediate =
      let b : LargeBlock = record { page_count = count; flags = allocated } in
      let f : LargeBlock = record { page_count = count; flags = free } in
      let t = released off count k.given_back r in
      (
        t,
        free_large-at none off b r k.recorded ∙ release-some off count r k.given_back k.gives_back,
        record { used = k.used; free_count = k.free_count },
        λ mode. free_large-at mode off f t (put_block-at off f r),
      )

  Taken-later :
      (ts : ℕ)
      → (t : Large) × (free_large (some ts) (off + 16) r ≡ some t)
        × (t.pages ≡ r.pages)
        × ((mode : Option ℕ) → free_large mode (off + 16) t ≡ none)
        × ((cutoff : ℕ) → cutoff < ts → reclaim_large cutoff t ≡ some (0, t))
        × ((cutoff : ℕ)
            → ts ≤ cutoff
            → (u : Large) × (reclaim_large cutoff t ≡ some (1, u)) × Restored s u)
  unfolding reclaim_large reclaim_from
  Taken-later ts =
      let b : LargeBlock = record { page_count = count; flags = allocated } in
      let d : LargeBlock = record { page_count = count; flags = delayed } in
      let t = delay ts off count r in
      (
        t,
        free_large-at (some ts) off b r k.recorded,
        refl,
        λ mode. free_large-at mode off d t (put_block-at off d r),
        λ cutoff h. rw (k.idle, before cutoff ts h) refl,
        λ cutoff h. (
          record (released off count k.given_back t) { delayed_large = [] },
          swept cutoff ts h,
          record { used = k.used; free_count = k.free_count },
        ),
      )
    where
      swept :
          (cutoff ts : ℕ)
          → ts ≤ cutoff
          → reclaim_large cutoff (delay ts off count r)
            ≡ some (
              1,
              record (released off count k.given_back (delay ts off count r)) {
                delayed_large = [];
              },
            )
      swept cutoff ts h =
          let d : LargeBlock = record { page_count = count; flags = delayed } in
          let t = delay ts off count r in
          ap (λ l. reclaim_from cutoff (l ++ ((off, ts) ∷ [])) t) k.idle
          ∙ reclaim_from-one cutoff off ts count t k.given_back h
              (ap count_of (put_block-at off d r)) k.gives_back

      before : (a b : ℕ) → a < b → ltb a b ≡ true
      before a b h = ground arith

-- Whole pages hold the two headers and the payload.
pages_for-bounds :
    (v a : ℕ) → 0 < a → v + a ≤ 2 ^ 64 → v ≤ (v % 2 ^ 64 + a - 1) % 2 ^ 64 / a * a / a * a
pages_for-bounds v a h fits =
    let no_wrap : (v % 2 ^ 64 + a - 1) % 2 ^ 64 ≡ v + a - 1 = omega arith in
    let whole = mul-div_cancel ((v + a - 1) / a) h in
    let split = div-add-mod' (v + a - 1) a in
    let left = mod-lt (v + a - 1) h in rw (no_wrap, whole) (omega arith)

-- When some 64-page word has a run of free pages for the size and its headers, the free count
-- allows it, the page size is positive, the size with its headers rounds up to whole pages
-- within 64 bits and no large block waits, malloc_large succeeds with a payload within the
-- arena. An immediate Free gives back the bitmap and the free count from before; a delayed Free
-- keeps the pages, the sweep leaves the block until its time is up, and then gives back the
-- same; after either, every further Free of the block is refused.
pub malloc_large-Lifetime :
    (wide : ℕ → Bool) (size w shift : ℕ) (s : Large)
    → 0 < s.pages.page_size
    → 16 + size + s.pages.page_size ≤ 2 ^ 64
    → s.delayed_large ≡ []
    → HasRun s.pages (pages_for s size) w shift
    → pages_for s size ≤ s.pages.free_page_count
    → (ptr : ℕ) × (r : Large) × (malloc_large wide size s ≡ some (ptr, r)) × Lifetime size s ptr r
unfolding malloc_large
malloc_large-Lifetime wide size w shift s sized fits idle run enough =
    let count = pages_for s size in
    let (page, is_run, found) = alloc_pages-finds wide s.pages count w shift run enough in
    let off = (take_run s.pages page count).0 in
    let taken = (take_run s.pages page count).1 in
    let a = alloc_pages-Allocated wide s.pages count off taken found in
    let (p, freed, used, counted) =
      free_pages-take_run wide s.pages count page sized is_run enough in
    let few : count % 2 ^ 32 ≡ count = omega (arith, run.in_word) in
    let r : Large =
      put_block off (record { page_count = count; flags = allocated })
        (record s { pages = taken }) in
    let k : Taken size off count s r = record {
      recorded = rw (same off) refl;
      idle = idle;
      given_back = p;
      gives_back = freed;
      used = used;
      free_count = counted;
    } in
    let room = pages_for-bounds (16 + size) s.pages.page_size sized fits in
    let inside = mul-le-mul_right s.pages.page_size a.in_arena in
    let split = add-mul a.page count s.pages.page_size in
    (
      off + 16,
      r,
      ap (placed count s) found
          ∙ ap
              (λ n. some (
                off + 16,
                put_block off (record { page_count = n; flags = allocated })
                    (record s { pages = taken }),
              ))
              few,
      record {
        above = omega (arith, a.offset);
        below = omega (arith, a.offset);
        immediate = Taken-immediate size off count s r k;
        later = Taken-later size off count s r k;
      },
    )
