-- ===== src/Alloc/Pages/Count.antt =====
-- The runs of `alloc_pages` start at a free page, and the general path counts free pages only.
use yikv.Prelude.{
  ℕ, zero, suc, ◌+◌, ◌-◌, ◌*◌, ◌/◌, ◌%◌, ◌≤◌, ◌<◌, ◌≡◌, refl, ap, inl, inr, Bool, true, false, not,
  ◌&&◌, ◌||◌, Option, none, some, min, arith, ltb, leb, ltb→lt, ◌==◌, if◌then◌else◌, Bool-cases,
}
use yikv.Alloc.Pages.{
  Pages, all_free, all_used, first_bit, ones, next_free, count_run, start_free, general_word,
  general_path,
}
use yikv.Alloc.Pages.Search.{first_bit_lem, ones-le, count_run_branches, or_else-cases, last_of}

-- The free pages among the `n` from a page on.
abbrev pub free_in : (ℕ → Bool) → ℕ → ℕ → ℕ
free_in used page zero = 0
free_in used page (suc n) = (if used page then 0 else 1) + free_in used (suc page) n

free_in-+ :
    (used : ℕ → Bool) (page m n : ℕ)
    → free_in used page (m + n) ≡ free_in used page m + free_in used (page + m) n
free_in-+ used page zero n =
    let none_first : free_in used page (0 + n) ≡ free_in used page n =
      ap (λ k. free_in used page k) (omega arith) in
    let same : free_in used page n ≡ free_in used (page + 0) n =
      ap (λ p. free_in used p n) (omega arith) in
    omega (arith, none_first, same)
free_in-+ used page (suc m) n =
    let same : free_in used (suc page + m) n ≡ free_in used (page + suc m) n =
      ap (λ p. free_in used p n) (omega arith) in
    let longer : suc m + n ≡ suc (m + n) = omega arith in
    let first = ap (λ k. free_in used page k) longer in
    omega (arith, first, free_in-+ used (suc page) m n, same)

-- A part of the pages, further on.
pub free_in-≤ :
    (used : ℕ → Bool) (page m n later : ℕ)
    → page + m ≤ later
    → later ≤ page + n
    → free_in used page m + free_in used later (page + n - later) ≤ free_in used page n
free_in-≤ used page m n later a b =
    let gap = later - (page + m) in
    let rest = page + n - later in
    let all : free_in used page n ≡ free_in used page (m + (gap + rest)) =
      ap (λ k. free_in used page k) (omega arith) in
    let end : free_in used (page + m + gap) rest ≡ free_in used later rest =
      ap (λ p. free_in used p rest) (omega arith) in
    omega (arith, all, end, free_in-+ used page m (gap + rest), free_in-+ used (page + m) gap rest)

pub all_free-free_in :
    (used : ℕ → Bool) (page n : ℕ) → all_free used page n ≡ true → free_in used page n ≡ n
all_free-free_in used page zero e = refl
all_free-free_in used page (suc n) e = elim (Bool-cases (used page)) [
  | inl taken ↦ absurd (ground (arith, taken, e))
  | inr open_page ↦
      let rest = all_free-free_in used (suc page) n (ground (arith, open_page, e)) in
      rw open_page (omega (arith, rest))
]

-- The set bits in a row are free pages.
ones-free_in :
    (n : ℕ) (used free : ℕ → Bool) (base j k : ℕ)
    → ((i : ℕ) → free i ≡ true → used (base + i) ≡ false)
    → k ≤ ones n free j
    → free_in used (base + j) k ≡ k
ones-free_in n used free base j zero h l = refl
ones-free_in zero used free base j (suc k) h l = absurd (omega arith)
ones-free_in (suc n) used free base j (suc k) h l = elim (Bool-cases (free j)) [
  | inr unset ↦ absurd (ground (arith, rw unset at l))
  | inl set_bit ↦
      let open_page = h j set_bit in
      let rest = ones-free_in n used free base (suc j) k h (omega (arith, rw set_bit at l)) in
      let next : free_in used (suc (base + j)) k ≡ free_in used (base + suc j) k =
        ap (λ p. free_in used p k) (omega arith) in
      rw open_page (omega (arith, rest, next))
]

-- A run that starts at a free page, with as many free pages from there on as it is long.
pub record Counted (s : Pages) (count p : ℕ) : Type 0 where
  pub open_page : s.used p ≡ false
  pub enough : count ≤ free_in s.used p (s.page_count - p)

drop_zero : (x bound : ℕ) → 0 + x ≤ bound → x ≤ bound
drop_zero x bound h = omega arith

module _ (wide : ℕ → Bool) where
  unused : (s : Pages) (cw i : ℕ) → next_free wide s cw i ≡ true → s.used (cw * 64 + i) ≡ false
  unfolding next_free
  unused s cw i e = ground arith

  count_run-free_in :
      (n : ℕ) (s : Pages) (count cw : ℕ) (free : ℕ → Bool) (pos run_len : ℕ)
      → pos < 64
      → cw * 64 + pos < s.page_count
      → ((i : ℕ) → free i ≡ true → s.used (cw * 64 + i) ≡ false)
      → count_run wide n s count cw free pos run_len
        ≤ run_len + free_in s.used (cw * 64 + pos) (s.page_count - (cw * 64 + pos))
  unfolding count_run
  count_run-free_in zero s count cw free pos run_len a b h = omega arith
  count_run-free_in (suc n) s count cw free pos run_len a b h =
      let here = cw * 64 + pos in
      let left = s.page_count - here in
      let row = ones (64 - pos) free pos in
      let le = ones-le (64 - pos) free pos in
      let in_word =
        if ltb s.page_count ((cw + 1) * 64) then min row (s.page_count - cw * 64 - pos) else row in
      let size : (in_word ≤ row) × (in_word ≤ left) × (in_word ≤ 64 - pos) = ground arith in
      let counted = ones-free_in (64 - pos) s.used free (cw * 64) pos in_word h size.0 in
      let last =
        free_in-≤ s.used here in_word left (here + left) (omega (arith, size.1)) (omega arith) in
      let bound = run_len + free_in s.used here left in
      let rest =
        count_run wide n s count (suc cw) (next_free wide s (suc cw)) 0 (run_len + in_word) in
      drop_zero _ bound (
        count_run_branches (leb count run_len) (leb count (run_len + in_word))
          (leb s.bitmap_words (suc cw) || leb s.page_count (suc cw * 64))
          (first_bit (64 - pos) free pos) (first_bit 64 (next_free wide s (suc cw)) 0) 0 run_len
          (run_len + in_word) rest bound (omega arith) (omega (arith, counted, last))
          (λ inside.
            let later : suc cw * 64 + 0 < s.page_count = ground (arith, inside) in
            let more =
              count_run-free_in n s count (suc cw) (next_free wide s (suc cw)) 0 (run_len + in_word)
                (omega arith) later (unused s (suc cw)) in
            let part =
              free_in-≤ s.used here in_word left (suc cw * 64 + 0) (omega (arith, size.2))
                (omega (arith, later)) in
            let same : free_in s.used (suc cw * 64 + 0) (here + left - (suc cw * 64 + 0))
                ≡ free_in s.used (suc cw * 64 + 0) (s.page_count - (suc cw * 64 + 0)) =
              ap (λ k. free_in s.used (suc cw * 64 + 0) k) (omega arith) in
            omega (arith, more, part, same, counted)))

  general_word-Counted :
      (s : Pages) (count w_idx : ℕ) (first_round : Bool) (start_off p : ℕ)
      → general_word wide s count w_idx first_round start_off ≡ some p
      → Counted s count p
  unfolding general_word
  general_word-Counted s count w_idx first_round start_off p e =
      branches (leb s.page_count (w_idx * 64)) (first_bit 64 free 0)
        (λ k. count_run wide s.bitmap_words s count w_idx free k 0)
        (λ k f.
          let b = first_bit_lem 64 free 0 k f in
          (
            bit_free k b.0,
            count_run-free_in s.bitmap_words s count w_idx free k 0 (omega (arith, b.2))
                (ltb→lt (w_idx * 64 + k) s.page_count (
                  last_of (not (s.used (w_idx * 64 + k))) (not (first_round && ltb k start_off))
                    (ltb (w_idx * 64 + k) s.page_count) b.0))
                bit_free,
          ))
        e
    where
      free : ℕ → Bool
      free = start_free s w_idx first_round start_off

      bit_free : (i : ℕ) → free i ≡ true → s.used (w_idx * 64 + i) ≡ false
      bit_free i e = ground arith

      branches :
          (a : Bool) (o : Option ℕ) (run : ℕ → ℕ)
          → ((k : ℕ)
              → o ≡ some k
              → (s.used (w_idx * 64 + k) ≡ false)
                × (run k ≤ 0 + free_in s.used (w_idx * 64 + k) (s.page_count - (w_idx * 64 + k))))
          → (if a then none else elim o as (λ _. Option ℕ) [
            | none ↦ none
            | some first ↦ if leb count (run first) then some (w_idx * 64 + first) else none
          ])
            ≡ some p
          → Counted s count p
      branches true o run h e = cc
      branches false none run h e = cc
      branches false (some k) run h e = elim (Bool-cases (leb count (run k))) [
        | inr short ↦ absurd (ground (arith, rw short at e))
        | inl long ↦
            let same : w_idx * 64 + k ≡ p = ground (arith, rw long at e) in
            let r = h k refl in
            rw (← same) (record { open_page = r.0; enough = ground (arith, long, r.1) })
      ]

  pub general_path-Counted :
      (n : ℕ) (s : Pages) (count start_bit wi p : ℕ)
      → general_path wide n s count start_bit wi ≡ some p
      → Counted s count p
  unfolding general_path
  general_path-Counted zero s count start_bit wi p e = cc
  general_path-Counted (suc n) s count start_bit wi p e =
      let w = (start_bit / 64 + wi) % s.bitmap_words in
      let here = general_word wide s count w (wi == 0) (start_bit % 64) in
      let rest = general_path wide n s count start_bit (suc wi) in
      elim (Bool-cases (all_used s.used (w * 64) 64)) [
        | inl full ↦ general_path-Counted n s count start_bit (suc wi) p (rw full at e)
        | inr some_left ↦ elim (or_else-cases here rest p (rw some_left at e)) [
          | inl f ↦ general_word-Counted s count w (wi == 0) (start_bit % 64) p f
          | inr f ↦ general_path-Counted n s count start_bit (suc wi) p f
        ]
      ]
