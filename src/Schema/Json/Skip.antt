-- ===== src/Schema/Json/Skip.antt =====
-- `skip_value` reads a part of the text, and its fuel is enough.
use yikv.Prelude.{
  ℕ, zero, suc, ◌+◌, ◌≤◌, ◌<◌, refl, inl, inr, true, false, ◌||◌, [], ◌∷◌, arith, ◌==◌,
  if◌then◌else◌, length, Bool-cases,
}
use yikv.Index.Text.{Text}
use yikv.Schema.Json.{
  unexpected_end, unexpected_token, Scan, done, fault, and_then, starts, skip_ws, comma, expect,
  parse_string, parse_bool, is_digit, parse_int64, Place, at_value, in_object, in_array, skip,
  skip_value,
}
use yikv.Schema.Json.Reads.{
  Reads, Reads-≤, and_then-Reads, if-Reads, skip_ws-length, behind-length, comma-Reads,
  expect-Reads, parse_string-Reads, parse_bool-Reads, parse_int64-Reads,
}

-- The fuel that a place needs for a text of the length.
abbrev need : Place → ℕ → ℕ
need at_value l = suc (l + l)
need (in_object first) l = suc (suc (l + l))
need (in_array first) l = suc (suc (l + l))

-- One character, and then a scan of less.
drop_value-Reads :
    {A : Type 0} (n : ℕ) (s : Scan A) → Reads n s → Reads n (and_then s (λ a t. done tt t))
drop_value-Reads n s h = and_then-Reads n n s (λ a t. done tt t) h (λ a t l. l)

skip-Reads :
    (n : ℕ) (place : Place) (t : Text)
    → need place (length t) ≤ n
    → Reads (length t) (skip n place t)
unfolding skip
skip-Reads zero at_value t h = absurd (omega arith)
skip-Reads zero (in_object first) t h = absurd (omega arith)
skip-Reads zero (in_array first) t h = absurd (omega arith)
skip-Reads (suc n) at_value t h =
    value (skip_ws t) (skip_ws-length t)
      (λ rest l. skip-Reads n (in_object true) rest (omega arith))
      (λ rest l. skip-Reads n (in_array true) rest (omega arith))
  where
    value :
        (u : Text)
        → length u ≤ length t
        → ((rest : Text)
            → length rest < length t
            → Reads (length rest) (skip n (in_object true) rest))
        → ((rest : Text)
            → length rest < length t
            → Reads (length rest) (skip n (in_array true) rest))
        → Reads (length t) (elim u [
          | [] ↦ fault unexpected_end
          | c ∷ rest ↦
              if c == 34
              then and_then (parse_string (c ∷ rest)) (λ s after. done tt after)
              else if c == 116 || c == 102
              then and_then (parse_bool (c ∷ rest)) (λ b after. done tt after)
              else if c == 123
              then skip n (in_object true) rest
              else if c == 91
              then skip n (in_array true) rest
              else if c == 45 || is_digit c
              then and_then (parse_int64 (c ∷ rest)) (λ i after. done tt after)
              else fault unexpected_token
        ])
    value [] l object array = refl
    value (c ∷ rest) l object array =
        let string = drop_value-Reads _ (parse_string (c ∷ rest)) (parse_string-Reads (c ∷ rest)) in
        let bool = drop_value-Reads _ (parse_bool (c ∷ rest)) (parse_bool-Reads (c ∷ rest)) in
        let number = drop_value-Reads _ (parse_int64 (c ∷ rest)) (parse_int64-Reads (c ∷ rest)) in
        Reads-≤ (suc (length rest)) _ _ l (
          if-Reads _ (c == 34) _ _ string (
            if-Reads _ (c == 116 || c == 102) _ _ bool (
              if-Reads _ (c == 123) _ _
                (Reads-≤ _ _ (skip n (in_object true) rest) (omega arith) (object rest l))
                (if-Reads _ (c == 91) _ _
                  (Reads-≤ _ _ (skip n (in_array true) rest) (omega arith) (array rest l))
                  (if-Reads _ (c == 45 || is_digit c) _ _ number refl)))))
skip-Reads (suc n) (in_object first) t h =
    let l = skip_ws-length t in
    elim (Bool-cases (starts 125 (skip_ws t))) [
      | inl e ↦ let b = behind-length 125 (skip_ws t) e in rw e (omega arith)
      | inr e ↦ rw e (
          and_then-Reads _ _ (comma first (skip_ws t)) _ (comma-Reads first (skip_ws t)) (λ u t₁ l₁.
            and_then-Reads _ _ (parse_string t₁) _ (parse_string-Reads t₁) (λ k t₂ l₂.
              and_then-Reads _ _ (expect 58 t₂) _ (expect-Reads 58 t₂) (λ v t₃ l₃.
                and_then-Reads _ _ (skip n at_value t₃) _ (skip-Reads n at_value t₃ (omega arith))
                  (λ w t₄ l₄.
                    Reads-≤ _ _ (skip n (in_object false) t₄) (omega arith)
                      (skip-Reads n (in_object false) t₄ (omega arith)))))))
    ]
skip-Reads (suc n) (in_array first) t h =
    let l = skip_ws-length t in
    elim (Bool-cases (starts 93 (skip_ws t))) [
      | inl e ↦ let b = behind-length 93 (skip_ws t) e in rw e (omega arith)
      | inr e ↦ rw e (
          and_then-Reads _ _ (comma first (skip_ws t)) _ (comma-Reads first (skip_ws t)) (λ u t₁ l₁.
            and_then-Reads _ _ (skip n at_value t₁) _ (skip-Reads n at_value t₁ (omega arith))
              (λ w t₂ l₂.
                Reads-≤ _ _ (skip n (in_array false) t₂) (omega arith)
                  (skip-Reads n (in_array false) t₂ (omega arith)))))
    ]

pub skip_value-Reads : (t : Text) → Reads (length t) (skip_value t)
unfolding skip_value
skip_value-Reads t = skip-Reads (suc (suc (length t + length t))) at_value t (omega arith)
