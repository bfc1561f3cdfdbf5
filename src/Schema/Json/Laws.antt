-- ===== src/Schema/Json/Laws.antt =====
-- What the scanner reads of a string, a number and a Boolean as they are printed.
use yikv.Prelude.{
  ℕ, zero, suc, ◌+◌, ◌-◌, ◌*◌, ◌/◌, ◌%◌, ◌<◌, ◌≡◌, refl, sym, ap, ◌∙◌, inl, inr, Bool, true, false,
  not, ◌&&◌, [], ◌∷◌, ◌++◌, arith, ltb, ◌==◌, Bool-cases, append_assoc,
}
use yikv.Index.Text.{Text, digits, decimal}
use yikv.Schema.Json.{
  done, skip_from, skip_ws, is_blank, string_body, parse_string, is_digit, parse_digits,
  parse_magnitude, parse_int64, with_char,
}

-- No quote and no backslash.
abbrev pub is_plain : Text → Bool
is_plain [] = true
is_plain (c ∷ cs) = not (c == 34) && not (c == 92) && is_plain cs

string_body-plain :
    (v rest : Text) → is_plain v ≡ true → string_body (v ++ (34 ∷ rest)) ≡ done v rest
unfolding string_body
string_body-plain [] [] h = refl
string_body-plain [] (c ∷ rest) h = refl
string_body-plain (c ∷ []) rest h =
    let quote : (c == 34) ≡ false = ground (arith, h) in
    let slash : (c == 92) ≡ false = ground (arith, h) in
    rw (quote, slash) (ap (with_char c) (string_body-plain [] rest refl))
string_body-plain (c ∷ d ∷ v) rest h =
    let quote : (c == 34) ≡ false = ground (arith, h) in
    let slash : (c == 92) ≡ false = ground (arith, h) in
    let later : is_plain (d ∷ v) ≡ true = ground (arith, h) in
    rw (quote, slash) (ap (with_char c) (string_body-plain (d ∷ v) rest later))

pub parse_string-plain :
    (v rest : Text) → is_plain v ≡ true → parse_string (34 ∷ (v ++ (34 ∷ rest))) ≡ done v rest
unfolding parse_string skip_ws skip_from
parse_string-plain v rest h = string_body-plain v rest h

-- A number with a character behind it that is no digit.
parse_digits-digits :
    (fuel n c : ℕ) (rest : Text)
    → n < fuel
    → parse_digits 0 (digits fuel n ++ (c ∷ rest)) ≡ parse_digits n (c ∷ rest)
unfolding parse_digits
parse_digits-digits zero n c rest h = absurd (omega arith)
parse_digits-digits (suc fuel) n c rest h = elim (Bool-cases (ltb n 10)) [
  | inl small ↦
      let is : is_digit (48 + n) ≡ true = ground (arith, small) in
      let value : 0 * 10 + (48 + n - 48) ≡ n = omega arith in rw (small, is, value) refl
  | inr large ↦
      let is : is_digit (48 + n % 10) ≡ true = ground arith in
      let value : n / 10 * 10 + (48 + n % 10 - 48) ≡ n = omega arith in
      rw (large, append_assoc (digits fuel (n / 10)) ((48 + n % 10) ∷ []) (c ∷ rest))
        (parse_digits-digits fuel (n / 10) (48 + n % 10) (c ∷ rest) (ground (arith, large))
          ∙ rw (is, value) refl)
]

-- The first digit.
record Front (xs : Text) : Type 0 where
  first : ℕ
  others : Text
  split : xs ≡ first ∷ others
  digit : is_digit first ≡ true

digits-Front : (fuel n : ℕ) → n < fuel → Front (digits fuel n)
digits-Front zero n h = absurd (omega arith)
digits-Front (suc fuel) n h = elim (Bool-cases (ltb n 10)) [
  | inl small ↦ record {
    first = 48 + n;
    others = [];
    split = rw small refl;
    digit = ground (arith, small);
  }
  | inr large ↦
      let r = digits-Front fuel (n / 10) (ground (arith, large)) in
      record {
        first = r.first;
        others = r.others ++ ((48 + n % 10) ∷ []);
        split = rw (large, r.split) refl;
        digit = r.digit;
      }
]

parse_int64-front :
    (d n : ℕ) (ds after : Text)
    → is_digit d ≡ true
    → parse_digits 0 (d ∷ ds) ≡ (n, after)
    → parse_int64 (d ∷ ds) ≡ done (false, n) after
unfolding parse_int64 skip_ws skip_from
parse_int64-front d n ds after h e =
    let blank : is_blank d ≡ false = ground (arith, h) in
    let slash : (d == 47) ≡ false = ground (arith, h) in
    let minus : (d == 45) ≡ false = ground (arith, h) in rw (blank, slash, minus, e, h) refl

parse_magnitude-front :
    (d n : ℕ) (ds after : Text)
    → is_digit d ≡ true
    → parse_digits 0 (d ∷ ds) ≡ (n, after)
    → (n == 0) ≡ false
    → parse_magnitude true (d ∷ ds) ≡ done (true, n) after
parse_magnitude-front d n ds after h e z = rw (parse_magnitude, e, h, z) refl

-- A number that a character behind it ends.
pub parse_int64-decimal :
    (n c : ℕ) (rest : Text)
    → is_digit c ≡ false
    → parse_int64 (decimal n ++ (c ∷ rest)) ≡ done (false, n) (c ∷ rest)
unfolding parse_digits
parse_int64-decimal n c rest h =
    let f = digits-Front (suc n) n (omega arith) in
    let read : parse_digits 0 (f.first ∷ (f.others ++ (c ∷ rest))) ≡ (n, c ∷ rest) =
      ap (λ x. parse_digits 0 (x ++ (c ∷ rest))) (sym f.split)
      ∙ (parse_digits-digits (suc n) n c rest (omega arith) ∙ rw h refl) in
    ap (λ x. parse_int64 (x ++ (c ∷ rest))) f.split
    ∙ parse_int64-front f.first n (f.others ++ (c ∷ rest)) (c ∷ rest) f.digit read

-- The same behind a minus sign.
pub parse_int64-minus :
    (n c : ℕ) (rest : Text)
    → is_digit c ≡ false
    → 0 < n
    → parse_int64 (45 ∷ (decimal n ++ (c ∷ rest))) ≡ done (true, n) (c ∷ rest)
unfolding parse_digits parse_int64 skip_ws skip_from
parse_int64-minus n c rest h p =
    let f = digits-Front (suc n) n (omega arith) in
    let read : parse_digits 0 (f.first ∷ (f.others ++ (c ∷ rest))) ≡ (n, c ∷ rest) =
      ap (λ x. parse_digits 0 (x ++ (c ∷ rest))) (sym f.split)
      ∙ (parse_digits-digits (suc n) n c rest (omega arith) ∙ rw h refl) in
    let some_value : (n == 0) ≡ false = ground (arith, p) in
    ap (λ x. parse_magnitude true (x ++ (c ∷ rest))) f.split
    ∙ parse_magnitude-front f.first n (f.others ++ (c ∷ rest)) (c ∷ rest) f.digit read some_value
