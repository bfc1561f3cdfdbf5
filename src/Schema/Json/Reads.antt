-- ===== src/Schema/Json/Reads.antt =====
-- Every reader of the scanner reads a part of the text.
use yikv.Prelude.{
  ℕ, suc, ◌+◌, ◌-◌, ◌*◌, ◌≤◌, ◌<◌, ◌≡◌, refl, sym, ◌∙◌, inl, inr, Bool, true, false, ◌&&◌, [], ◌∷◌,
  some, arith, ◌==◌, if◌then◌else◌, length, Bool-cases, Option-cases,
}
use yikv.Index.Text.{Text}
use yikv.Schema.Json.{
  JsonError, expected, expected_string, unterminated_string, expected_bool, expected_integer,
  expected_digit, unexpected_end, unexpected_token, unknown_table_format, unknown_data_type,
  unknown_index_type, pk_required, out_of_fuel, Scan, done, fault, and_then, is_blank, starts,
  behind, skip_from, skip_ws, comma, expect_at, expect, unescape, with_char, string_body,
  parse_string_at, parse_string, strip_word, true_word, false_word, parse_bool_at, parse_bool,
  is_digit, parse_digits, parse_magnitude, parse_int64_at, parse_int64,
}

abbrev pub is_fuel : JsonError → Bool
is_fuel out_of_fuel = true
is_fuel (expected c) = false
is_fuel expected_string = false
is_fuel unterminated_string = false
is_fuel expected_bool = false
is_fuel expected_integer = false
is_fuel expected_digit = false
is_fuel unexpected_end = false
is_fuel unexpected_token = false
is_fuel (unknown_table_format t) = false
is_fuel (unknown_data_type t) = false
is_fuel (unknown_index_type t) = false
is_fuel pk_required = false

-- The scan has read so much that less than `n` characters are left, or has met a fault of the text.
abbrev pub Reads : {A : Type 0} → ℕ → Scan A → Type 0
Reads n (done a rest) = length rest < n
Reads n (fault e) = is_fuel e ≡ false

pub Reads-≤ : {A : Type 0} (n m : ℕ) (s : Scan A) → n ≤ m → Reads n s → Reads m s
Reads-≤ n m (done a rest) h r = omega arith
Reads-≤ n m (fault e) h r = r

pub and_then-Reads :
    {A B : Type 0} (n k : ℕ) (s : Scan A) (next : A → Text → Scan B)
    → Reads n s
    → ((a : A) (rest : Text) → length rest < n → Reads k (next a rest))
    → Reads k (and_then s next)
and_then-Reads n k (done a rest) next r h = h a rest r
and_then-Reads n k (fault e) next r h = r

pub if-Reads :
    {A : Type 0} (n : ℕ) (b : Bool) (x y : Scan A)
    → Reads n x
    → Reads n y
    → Reads n (if b then x else y)
if-Reads n true x y h k = h
if-Reads n false x y h k = k

skip_from-length : (in_comment : Bool) (t : Text) → length (skip_from in_comment t) ≤ length t
unfolding skip_from
skip_from-length in_comment [] = omega arith
skip_from-length true (c ∷ rest) =
    let outside = skip_from-length false rest in
    let inside = skip_from-length true rest in
    elim (Bool-cases (c == 10)) [ inl e ↦ rw e (omega arith) | inr e ↦ rw e (omega arith) ]
skip_from-length false (c ∷ rest) =
    let outside = skip_from-length false rest in
    let inside = skip_from-length true rest in
    elim (Bool-cases (is_blank c)) [
      | inl e ↦ rw e (omega arith)
      | inr e ↦ elim (Bool-cases (c == 47 && starts 47 rest)) [
        | inl f ↦ rw (e, f) (omega arith)
        | inr f ↦ rw (e, f) (omega arith)
      ]
    ]

pub skip_ws-length : (t : Text) → length (skip_ws t) ≤ length t
unfolding skip_ws
skip_ws-length t = skip_from-length false t

pub behind-length : (c : ℕ) (t : Text) → starts c t ≡ true → length (behind t) < length t
behind-length c [] e = cc
behind-length c (d ∷ rest) e = omega arith

expect_at-Reads : (c : ℕ) (t : Text) → Reads (length t) (expect_at c t)
expect_at-Reads c t = elim (Bool-cases (starts c t)) [
  | inl e ↦ rw e (behind-length c t e)
  | inr e ↦ rw e refl
]

pub expect-Reads : (c : ℕ) (t : Text) → Reads (length t) (expect c t)
unfolding expect
expect-Reads c t =
    Reads-≤ _ _ (expect_at c (skip_ws t)) (skip_ws-length t) (expect_at-Reads c (skip_ws t))

pub comma-Reads : (first : Bool) (t : Text) → Reads (suc (length t)) (comma first t)
comma-Reads true t = omega arith
comma-Reads false t = Reads-≤ _ _ (expect_at 44 t) (omega arith) (expect_at-Reads 44 t)

with_char-Reads : (n c : ℕ) (s : Scan Text) → Reads n s → Reads n (with_char c s)
with_char-Reads n c (done s rest) h = h
with_char-Reads n c (fault e) h = h

string_body-Reads : (t : Text) → Reads (length t) (string_body t)
unfolding string_body
string_body-Reads [] = refl
string_body-Reads (c ∷ []) =
    if-Reads 1 (c == 34) (done [] []) (fault unterminated_string) (omega arith) refl
string_body-Reads (c ∷ d ∷ rest) =
    let escaped = with_char-Reads _ (unescape d) (string_body rest) (
      Reads-≤ _ (length (c ∷ d ∷ rest)) (string_body rest) (omega arith)
        (string_body-Reads rest)) in
    let plain = with_char-Reads _ c (string_body (d ∷ rest)) (
      Reads-≤ _ (length (c ∷ d ∷ rest)) (string_body (d ∷ rest)) (omega arith)
        (string_body-Reads (d ∷ rest))) in
    if-Reads _ (c == 34) _ _ (omega arith) (if-Reads _ (c == 92) _ _ escaped plain)

parse_string_at-Reads : (t : Text) → Reads (length t) (parse_string_at t)
parse_string_at-Reads [] = refl
parse_string_at-Reads (c ∷ rest) =
    if-Reads _ (c == 34) (string_body rest) (fault expected_string)
      (Reads-≤ _ _ (string_body rest) (omega arith) (string_body-Reads rest)) refl

pub parse_string-Reads : (t : Text) → Reads (length t) (parse_string t)
unfolding parse_string
parse_string-Reads t =
    Reads-≤ _ _ (parse_string_at (skip_ws t)) (skip_ws-length t) (parse_string_at-Reads (skip_ws t))

strip_word-length :
    (w t rest : Text) → strip_word w t ≡ some rest → length rest + length w ≤ length t
strip_word-length [] t rest e = ground (arith, e)
strip_word-length (c ∷ w) [] rest e = cc
strip_word-length (c ∷ w) (d ∷ t) rest e = elim (Bool-cases (d == c)) [
  | inl same ↦ let l = strip_word-length w t rest (sym (rw same refl) ∙ e) in omega arith
  | inr other ↦ ground (arith, e, other)
]

parse_bool_at-Reads : (t : Text) → Reads (length t) (parse_bool_at t)
parse_bool_at-Reads t = elim (Option-cases (strip_word true_word t)) [
  | inr (rest, e) ↦ let l = strip_word-length true_word t rest e in rw e (omega arith)
  | inl e ↦ elim (Option-cases (strip_word false_word t)) [
    | inr (rest, f) ↦ let l = strip_word-length false_word t rest f in rw (e, f) (omega arith)
    | inl f ↦ rw (e, f) refl
  ]
]

pub parse_bool-Reads : (t : Text) → Reads (length t) (parse_bool t)
unfolding parse_bool
parse_bool-Reads t =
    Reads-≤ _ _ (parse_bool_at (skip_ws t)) (skip_ws-length t) (parse_bool_at-Reads (skip_ws t))

parse_digits-length : (n : ℕ) (t : Text) → length ((parse_digits n t).1) ≤ length t
unfolding parse_digits
parse_digits-length n [] = omega arith
parse_digits-length n (c ∷ rest) =
    let later = parse_digits-length (n * 10 + (c - 48)) rest in
    elim (Bool-cases (is_digit c)) [ inl e ↦ rw e (omega arith) | inr e ↦ rw e (omega arith) ]

parse_magnitude-Reads : (b : Bool) (t : Text) → Reads (length t) (parse_magnitude b t)
unfolding parse_digits
parse_magnitude-Reads b [] = refl
parse_magnitude-Reads b (c ∷ rest) = elim (Bool-cases (is_digit c)) [
  | inl e ↦ let l = parse_digits-length (0 * 10 + (c - 48)) rest in rw e (omega arith)
  | inr e ↦ rw e refl
]

parse_int64_at-Reads : (t : Text) → Reads (length t) (parse_int64_at t)
parse_int64_at-Reads [] = refl
parse_int64_at-Reads (c ∷ rest) =
    if-Reads _ (c == 45) (parse_magnitude true rest) (parse_magnitude false (c ∷ rest))
      (Reads-≤ _ _ (parse_magnitude true rest) (omega arith) (parse_magnitude-Reads true rest))
      (parse_magnitude-Reads false (c ∷ rest))

pub parse_int64-Reads : (t : Text) → Reads (length t) (parse_int64 t)
unfolding parse_int64
parse_int64-Reads t =
    Reads-≤ _ _ (parse_int64_at (skip_ws t)) (skip_ws-length t) (parse_int64_at-Reads (skip_ws t))
