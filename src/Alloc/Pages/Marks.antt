-- ===== src/Alloc/Pages/Marks.antt =====
-- The two marking loops of `alloc_pages` mark the pages of the run and no other.
use yikv.Prelude.{
  ℕ, zero, suc, ◌+◌, ◌-◌, ◌*◌, ◌≤◌, ◌<◌, ◌≡◌, ◌∙◌, inl, inr, Bool, true, min, arith, ltb, ◌==◌,
  if◌then◌else◌, Bool-cases,
}
use yikv.Alloc.Pages.{mark, mark_pages, mark_words}

pub mark_pages_lem :
    (n : ℕ) (used : ℕ → Bool) (page q : ℕ) → mark_pages n used page q ≡ mark used page n q
unfolding mark_pages
mark_pages_lem zero used page q = ground arith
mark_pages_lem (suc n) used page q =
    mark_pages_lem n (λ p. if p == page then true else used p) (suc page) q ∙ ground arith

pub mark_words_lem :
    (fuel page_count : ℕ) (used : ℕ → Bool) (r_w r_pos remaining q : ℕ)
    → r_pos < 64
    → remaining ≤ fuel
    → remaining ≤ page_count - (r_w * 64 + r_pos)
    → mark_words fuel page_count used r_w r_pos remaining q
      ≡ mark used (r_w * 64 + r_pos) remaining q
unfolding mark_words
mark_words_lem zero page_count used r_w r_pos remaining q a b c = ground arith
mark_words_lem (suc fuel) page_count used r_w r_pos remaining q a b c =
    elim (Bool-cases (ltb 0 remaining)) [
      | inr finished ↦ rw finished (ground arith)
      | inl more ↦
          let in_word = min remaining (64 - r_pos) in
          let n =
            if ltb page_count ((r_w + 1) * 64)
            then min in_word (page_count - r_w * 64 - r_pos)
            else in_word in
          let whole : n ≡ in_word = ground arith in
          rw (more, whole)
            (mark_words_lem fuel page_count (mark used (r_w * 64 + r_pos) in_word) (suc r_w) 0
                (remaining - in_word) q (omega arith) (ground (arith, more)) (ground (arith, more))
              ∙ ground arith)
    ]
