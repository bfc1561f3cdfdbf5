-- ===== src/Alloc/Pages/Search.antt =====
-- What the searches of `alloc_pages` return: pages within the arena, and for the fast path and the
-- page scan a run of free pages.
use yikv.Prelude.{
  ℕ, zero, suc, ◌+◌, ◌-◌, ◌*◌, ◌/◌, ◌%◌, ◌≤◌, ◌<◌, ◌≡◌, refl, sym, ap, ◌≢◌, ◌∙◌, inl, inr, ◌⊎◌,
  Bool, true, false, not, ◌&&◌, ◌||◌, Option, none, some, min, arith, ltb, leb, ltb→lt, ◌==◌,
  if◌then◌else◌, Bool-cases,
}
use native.Mathlib.Nat.{mod-lt, mod-eq_of_lt, add-mod_right}
use yikv.Alloc.Pages.{
  Pages, all_free, all_used, fast_shift, or_else, fast_path, page_scan, first_bit, ones, next_free,
  count_run, start_free, general_word, general_path,
}

-- A run of free pages within the arena.
abbrev pub IsRun : Pages → ℕ → ℕ → Type 0
IsRun s count p = (p + count ≤ s.page_count) × (all_free s.used p count ≡ true)

fast_shift-IsRun :
    (fuel : ℕ) (s : Pages) (count w shift p : ℕ)
    → fast_shift fuel s count w shift ≡ some p
    → IsRun s count p
unfolding fast_shift
fast_shift-IsRun zero s count w shift p e = cc
fast_shift-IsRun (suc fuel) s count w shift p e =
    ground (arith, fast_shift-IsRun fuel s count w (suc shift) p)

pub or_else-cases :
    {A : Type 0} (a b : Option A) (p : A) → or_else a b ≡ some p → (a ≡ some p) ⊎ (b ≡ some p)
or_else-cases none b p e = inr e
or_else-cases (some x) b p e = inl e

pub fast_path-IsRun :
    (n : ℕ) (s : Pages) (count start_w ws p : ℕ)
    → fast_path n s count start_w ws ≡ some p
    → IsRun s count p
unfolding fast_path
fast_path-IsRun zero s count start_w ws p e = cc
fast_path-IsRun (suc n) s count start_w ws p e =
    let w = (start_w + ws) % s.bitmap_words in
    elim (Bool-cases (all_used s.used (w * 64) 64)) [
      | inl full ↦ fast_path-IsRun n s count start_w (suc ws) p (rw full at e)
      | inr some_left ↦
          elim (or_else-cases (fast_shift 65 s count w 0) (fast_path n s count start_w (suc ws)) p
            (rw some_left at e)) [
              | inl here ↦ fast_shift-IsRun 65 s count w 0 p here
              | inr there ↦ fast_path-IsRun n s count start_w (suc ws) p there
            ]
    ]

pub page_scan-IsRun :
    (n : ℕ) (s : Pages) (count start_p t p : ℕ)
    → page_scan n s count start_p t ≡ some p
    → IsRun s count p
unfolding page_scan
page_scan-IsRun zero s count start_p t p e = cc
page_scan-IsRun (suc n) s count start_p t p e =
    ground (arith, page_scan-IsRun n s count start_p (suc t) p)

-- A word with a run of free pages.
pub record HasRun (s : Pages) (count w shift : ℕ) : Type 0 where
  pub some_pages : 0 < count
  pub in_word : shift + count ≤ 64
  pub word : w < s.bitmap_words
  pub in_arena : w * 64 + shift + count ≤ s.page_count
  pub free : all_free s.used (w * 64 + shift) count ≡ true

fast_shift-finds :
    (fuel : ℕ) (s : Pages) (count w shift i : ℕ)
    → HasRun s count w shift
    → i ≤ shift
    → shift < i + fuel
    → (p : ℕ) × (fast_shift fuel s count w i ≡ some p)
unfolding fast_shift
fast_shift-finds zero s count w shift i h a b = absurd (omega arith)
fast_shift-finds (suc fuel) s count w shift i h a b =
    elim (Bool-cases (all_free s.used (w * 64 + i) count)) [
      | inl here ↦ (w * 64 + i, ground (arith, h.some_pages, h.in_word, h.in_arena))
      | inr later ↦
          let next : i ≢ shift = λ e.
            true-false
              (sym h.free ∙ ap (λ k. all_free s.used (w * 64 + k) count) (sym e) ∙ later) in
          let (p, e) =
            fast_shift-finds fuel s count w shift (suc i) h (omega arith) (omega arith) in
          (p, ground (arith, h.some_pages, h.in_word, h.in_arena, e))
    ]
  where
    true-false : true ≢ false
    true-false e = cc

some_left :
    (n : ℕ) (used : ℕ → Bool) (q p : ℕ)
    → q ≤ p
    → p < q + n
    → used p ≡ false
    → all_used used q n ≡ false
some_left zero used q p a b e = absurd (omega arith)
some_left (suc n) used q p a b e = elim (Bool-cases (used q)) [
  | inr free ↦ rw free refl
  | inl taken ↦
      let next : q ≢ p = λ same. cc in
      rw taken (some_left n used (suc q) p (omega arith) (omega arith) e)
]

pub first_free :
    (used : ℕ → Bool) (p count : ℕ) → 0 < count → all_free used p count ≡ true → used p ≡ false
first_free used p zero h e = absurd (omega arith)
first_free used p (suc count) h e = ground arith

fast_path-finds_from :
    (n : ℕ) (s : Pages) (count start_w ws k w shift : ℕ)
    → HasRun s count w shift
    → ws ≤ k
    → k < ws + n
    → (start_w + k) % s.bitmap_words ≡ w
    → (p : ℕ) × (fast_path n s count start_w ws ≡ some p)
unfolding fast_path
fast_path-finds_from zero s count start_w ws k w shift h a b e = absurd (omega arith)
fast_path-finds_from (suc n) s count start_w ws k w shift h a b e = elim (Bool-cases (ws == k)) [
  | inl here ↦
      let same : (start_w + ws) % s.bitmap_words ≡ w =
        ap (λ i. (start_w + i) % s.bitmap_words) (ground arith) ∙ e in
      let open_word =
        some_left 64 s.used (w * 64) (w * 64 + shift) (omega arith)
          (omega (arith, h.in_word, h.some_pages))
          (first_free s.used (w * 64 + shift) count h.some_pages h.free) in
      let (p, f) =
        fast_shift-finds 65 s count w shift 0 h (omega arith) (omega (arith, h.in_word)) in
      rw (same, open_word, f) (p, refl)
  | inr later ↦
      let (p, f) =
        fast_path-finds_from n s count start_w (suc ws) k w shift h (ground arith) (omega arith)
          e in
      let word = (start_w + ws) % s.bitmap_words in
      found_anyway (all_used s.used (word * 64) 64) (fast_shift 65 s count word 0) p f
]
  where
    found_anyway :
        (full : Bool) (o : Option ℕ) (p : ℕ) {rest : Option ℕ}
        → rest ≡ some p
        → (q : ℕ) × ((if full then rest else or_else o rest) ≡ some q)
    found_anyway true o p f = (p, f)
    found_anyway false none p f = (p, f)
    found_anyway false (some q) p f = (q, refl)

-- The fast path looks at every word, so it finds a run that lies within one.
pub fast_path-finds :
    (s : Pages) (count start w shift : ℕ)
    → HasRun s count w shift
    → (p : ℕ) × (fast_path s.bitmap_words s count (start % s.bitmap_words) 0 ≡ some p)
fast_path-finds s count start w shift h =
    let words = s.bitmap_words in
    let start_w = start % words in
    let low : start_w < words = mod-lt start (omega (arith, h.word)) in
    elim (Bool-cases (leb start_w w)) [
      | inl after ↦
          fast_path-finds_from words s count start_w 0 (w - start_w) w shift h (omega arith)
            (omega (arith, h.word)) (ap (λ i. i % words) (ground arith) ∙ mod-eq_of_lt h.word)
      | inr before ↦
          fast_path-finds_from words s count start_w 0 (w + words - start_w) w shift h (omega arith)
            (ground (arith, h.word))
            (ap (λ i. i % words) (ground arith) ∙ (add-mod_right w words ∙ mod-eq_of_lt h.word))
    ]

-- The general path stays within the arena.
pub ones-le : (n : ℕ) (free : ℕ → Bool) (j : ℕ) → ones n free j ≤ n
ones-le zero free j = omega arith
ones-le (suc n) free j = ground (arith, ones-le n free (suc j))

pub first_bit_lem :
    (n : ℕ) (free : ℕ → Bool) (j k : ℕ)
    → first_bit n free j ≡ some k
    → (free k ≡ true) × (j ≤ k) × (k < j + n)
first_bit_lem zero free j k e = cc
first_bit_lem (suc n) free j k e = ground (arith, first_bit_lem n free (suc j) k)

-- The branches of the counting loop: `x` is what was counted before, `y` after this word, `z` later.
pub count_run_branches :
    (a b c : Bool) (o q : Option ℕ) (start x y z bound : ℕ)
    → start + x ≤ bound
    → start + y ≤ bound
    → (c ≡ false → start + z ≤ bound)
    → start
        + (if a then x else elim o as (λ _. ℕ) [
          | none ↦ x
          | some j ↦ if b then y else if c then y else elim q as (λ _. ℕ) [ none ↦ y | some k ↦ z ]
        ])
      ≤ bound
count_run_branches true b c o q start x y z bound f g h = f
count_run_branches false b c none q start x y z bound f g h = f
count_run_branches false true c (some j) q start x y z bound f g h = g
count_run_branches false false true (some j) q start x y z bound f g h = g
count_run_branches false false false (some j) none start x y z bound f g h = g
count_run_branches false false false (some j) (some k) start x y z bound f g h = h refl

pub last_of : (a b c : Bool) → (a && b && c) ≡ true → c ≡ true
last_of true true c e = e
last_of true false c e = cc
last_of false b c e = cc

pub general_word_branches :
    (a : Bool) (o : Option ℕ) (count : ℕ) (run : ℕ → ℕ) (base p bound : ℕ)
    → ((k : ℕ) → o ≡ some k → base + k + run k ≤ bound)
    → (if a then none else elim o as (λ _. Option ℕ) [
      | none ↦ none
      | some first ↦ if leb count (run first) then some (base + first) else none
    ])
      ≡ some p
    → p + count ≤ bound
general_word_branches true o count run base p bound h e = cc
general_word_branches false none count run base p bound h e = cc
general_word_branches false (some k) count run base p bound h e = ground (arith, h k refl)

module _ (wide : ℕ → Bool) where
  count_run-bound :
      (n : ℕ) (s : Pages) (count cw : ℕ) (free : ℕ → Bool) (pos run_len run_start : ℕ)
      → pos < 64
      → cw * 64 + pos < s.page_count
      → run_start + run_len ≤ cw * 64 + pos
      → run_start + count_run wide n s count cw free pos run_len ≤ s.page_count
  unfolding count_run
  count_run-bound zero s count cw free pos run_len run_start a b c = omega arith
  count_run-bound (suc n) s count cw free pos run_len run_start a b c =
      let row = ones (64 - pos) free pos in
      let le = ones-le (64 - pos) free pos in
      let in_word =
        if ltb s.page_count ((cw + 1) * 64) then min row (s.page_count - cw * 64 - pos) else row in
      let step : (run_start + (run_len + in_word) ≤ suc cw * 64)
          × (run_start + (run_len + in_word) ≤ s.page_count) =
        ground arith in
      let next =
        count_run-bound n s count (suc cw) (next_free wide s (suc cw)) 0 (run_len + in_word)
          run_start (omega arith) in
      count_run_branches (leb count run_len) (leb count (run_len + in_word))
        (leb s.bitmap_words (suc cw) || leb s.page_count (suc cw * 64))
        (first_bit (64 - pos) free pos) (first_bit 64 (next_free wide s (suc cw)) 0) run_start
        run_len (run_len + in_word)
        (count_run wide n s count (suc cw) (next_free wide s (suc cw)) 0 (run_len + in_word))
        s.page_count (omega arith) step.1 (λ inside. next (ground arith) (omega (arith, step.0)))

  general_word-bound :
      (s : Pages) (count w_idx : ℕ) (first_round : Bool) (start_off p : ℕ)
      → general_word wide s count w_idx first_round start_off ≡ some p
      → p + count ≤ s.page_count
  unfolding general_word
  general_word-bound s count w_idx first_round start_off p e =
      let free = start_free s w_idx first_round start_off in
      general_word_branches (leb s.page_count (w_idx * 64)) (first_bit 64 free 0) count
        (λ k. count_run wide s.bitmap_words s count w_idx free k 0) (w_idx * 64) p s.page_count
        (λ k f.
          let b = first_bit_lem 64 free 0 k f in
          count_run-bound s.bitmap_words s count w_idx free k 0 (w_idx * 64 + k)
            (omega (arith, b.2))
            (ltb→lt (w_idx * 64 + k) s.page_count (
              last_of (not (s.used (w_idx * 64 + k))) (not (first_round && ltb k start_off))
                (ltb (w_idx * 64 + k) s.page_count) b.0))
            (omega arith))
        e

  pub general_path-bound :
      (n : ℕ) (s : Pages) (count start_bit wi p : ℕ)
      → general_path wide n s count start_bit wi ≡ some p
      → p + count ≤ s.page_count
  unfolding general_path
  general_path-bound zero s count start_bit wi p e = cc
  general_path-bound (suc n) s count start_bit wi p e =
      let w = (start_bit / 64 + wi) % s.bitmap_words in
      let here = general_word wide s count w (wi == 0) (start_bit % 64) in
      let rest = general_path wide n s count start_bit (suc wi) in
      elim (Bool-cases (all_used s.used (w * 64) 64)) [
        | inl full ↦ general_path-bound n s count start_bit (suc wi) p (rw full at e)
        | inr some_left ↦ elim (or_else-cases here rest p (rw some_left at e)) [
          | inl f ↦ general_word-bound s count w (wi == 0) (start_bit % 64) p f
          | inr f ↦ general_path-bound n s count start_bit (suc wi) p f
        ]
      ]
