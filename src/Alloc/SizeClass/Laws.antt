-- ===== src/Alloc/SizeClass/Laws.antt =====
-- The constant-time lookup of a size class against a search of the whole table.
use yikv.Prelude.{
  ℕ, zero, suc, ◌+◌, ◌-◌, ◌*◌, ◌/◌, ◌%◌, ◌^◌, ◌≤◌, ◌<◌, ◌≡◌, refl, sym, ◌∙◌, List, [], ◌∷◌, ◌++◌,
  Option, none, some, arith, ltb, leb, inl, inr, Bool-cases, get_elem?,
}
use yikv.Alloc.SizeClass.{
  tiny_classes, push_larger, build_size_classes, find_class_tiny, scan_classes, find_class,
}

-- Over the tiny classes the search is the formula.
scan-tiny :
    (fuel i total : ℕ) (rest : List ℕ)
    → fuel + i ≡ 38
    → total ≤ 320
    → i * 8 + 16 < total
    → scan_classes (tiny_classes fuel (24 + i * 8) ++ rest) i total
      ≡ some ((total - 24 + 8 - 1) / 8)
scan-tiny zero i total rest f a b = absurd (omega arith)
scan-tiny (suc fuel) i total rest f a b = ground (arith, scan-tiny fuel (suc i) total rest)

scan-past_tiny :
    (fuel i total : ℕ) (rest : List ℕ)
    → fuel + i ≡ 38
    → 320 < total
    → scan_classes (tiny_classes fuel (24 + i * 8) ++ rest) i total ≡ scan_classes rest 38 total
scan-past_tiny zero i total rest f a = ground arith
scan-past_tiny (suc fuel) i total rest f a = ground (arith, scan-past_tiny fuel (suc i) total rest)

find_class_tiny-scan :
    (total : ℕ) (rest : List ℕ)
    → total ≤ 320
    → find_class_tiny total ≡ scan_classes (tiny_classes 38 24 ++ rest) 0 total
unfolding find_class_tiny
find_class_tiny-scan total rest small = elim (Bool-cases (leb total 24)) [
  | inl least ↦ ground arith
  | inr more ↦ let s = scan-tiny 38 0 total rest refl small (ground arith) in ground (arith, s)
]

find_class_tiny-none : (total : ℕ) → 320 < total → find_class_tiny total ≡ none
unfolding find_class_tiny
find_class_tiny-none total big = ground arith

find_class_tiny-some : (total : ℕ) → total ≤ 320 → (c : ℕ) × (find_class_tiny total ≡ some c)
unfolding find_class_tiny
find_class_tiny-some total small = elim (Bool-cases (leb total 24)) [
  | inl least ↦ (0, ground arith)
  | inr more ↦ ((total - 24 + 8 - 1) / 8, ground arith)
]

pub find_class-scan :
    (page_size user_size : ℕ)
    → find_class (build_size_classes page_size) user_size
      ≡ scan_classes (build_size_classes page_size) 0 ((user_size + 8) % 2 ^ 64)
unfolding find_class build_size_classes
find_class-scan page_size user_size =
    let rest = push_larger 320 (384 ∷ 512 ∷ 768 ∷ 1024 ∷ 1536 ∷ 2048 ∷ 3072 ∷ page_size ∷ []) in
    let total = (user_size + 8) % 2 ^ 64 in
    elim (Bool-cases (ltb 320 total)) [
      | inl big ↦
          rw (find_class_tiny-none total (ground arith), find_class)
            (sym (scan-past_tiny 38 0 total rest refl (ground arith)))
      | inr small ↦
          let (c, run) = find_class_tiny-some total (ground arith) in
          rw (run, find_class) (sym run ∙ find_class_tiny-scan total rest (ground arith))
    ]

-- The first class, if there is one, whose blocks hold `total` bytes.
abbrev pub IsFirstFit : List ℕ → ℕ → ℕ → Option ℕ → Type 0
IsFirstFit classes i total none = (j s : ℕ) → get_elem? classes j ≡ some s → s < total
IsFirstFit classes i total (some c) =
    (i ≤ c)
    × ((s : ℕ) × (get_elem? classes (c - i) ≡ some s) × (total ≤ s))
    × ((j s : ℕ) → i + j < c → get_elem? classes j ≡ some s → s < total)

later :
    (i total x : ℕ) (xs : List ℕ) (r : Option ℕ)
    → x < total
    → IsFirstFit xs (suc i) total r
    → IsFirstFit (x ∷ xs) i total r
later i total x xs none h f = cases
  where
    cases : (j s : ℕ) → get_elem? (x ∷ xs) j ≡ some s → s < total
    cases zero s e = ground arith
    cases (suc j) s e = f j s e
later i total x xs (some c) h f = (omega (arith, f.0), there, cases)
  where
    there : (s : ℕ) × (get_elem? (x ∷ xs) (c - i) ≡ some s) × (total ≤ s)
    there = let e : c - i ≡ suc (c - suc i) = omega (arith, f.0) in (f.1.0, rw e f.1.1, f.1.2)

    cases : (j s : ℕ) → i + j < c → get_elem? (x ∷ xs) j ≡ some s → s < total
    cases zero s l e = ground arith
    cases (suc j) s l e = f.2 j s (omega arith) e

scan_classes-IsFirstFit :
    (classes : List ℕ) (i total : ℕ) → IsFirstFit classes i total (scan_classes classes i total)
scan_classes-IsFirstFit [] i total = λ j s e. cc
scan_classes-IsFirstFit (x ∷ xs) i total = elim (Bool-cases (leb total x)) [
  | inl fits ↦
      rw fits (omega arith, (x, ground arith, ground arith), λ j s l e. absurd (omega arith))
  | inr small ↦ rw small (
      later i total x xs (scan_classes xs (suc i) total) (ground arith)
        (scan_classes-IsFirstFit xs (suc i) total))
]

-- For every page size and every user size that with the header stays within 64 bits, find_class
-- returns the first class of the table that BuildSizeClasses makes whose blocks hold the size
-- and the header, and -1 exactly if no class does.
pub find_class-IsFirstFit :
    (page_size user_size : ℕ)
    → user_size + 8 < 2 ^ 64
    → let classes = build_size_classes page_size in
      IsFirstFit classes 0 (user_size + 8) (find_class classes user_size)
find_class-IsFirstFit page_size user_size small =
    let total : (user_size + 8) % 2 ^ 64 ≡ user_size + 8 = omega arith in
    rw (find_class-scan page_size user_size, total)
      (scan_classes-IsFirstFit (build_size_classes page_size) 0 (user_size + 8))
