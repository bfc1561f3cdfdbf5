-- ===== src/Schema/Json.antt =====
-- schema.cc: the scanner `JsonScanner`, over what is left of the text. An integer is its sign and
-- its magnitude; where the code overflows `int64_t`, the magnitude is that of the digits.
pub mod Laws
pub mod Reads
pub mod Skip
pub mod Keys
pub mod Load
use yikv.Prelude.{
  ℕ, zero, suc, ◌+◌, ◌-◌, ◌*◌, Bool, true, false, not, ◌&&◌, ◌||◌, List, [], ◌∷◌, Option, none,
  some, ◌==◌, if◌then◌else◌, length,
}
use yikv.Index.Text.{Text, between}

-- The errors: those of the scanner, and those of `LoadJson`.
pub data JsonError : Type 0 where
  expected : ℕ → JsonError
  expected_string : JsonError
  unterminated_string : JsonError
  expected_bool : JsonError
  expected_integer : JsonError
  expected_digit : JsonError
  unexpected_end : JsonError
  unexpected_token : JsonError
  unknown_table_format : Text → JsonError
  unknown_data_type : Text → JsonError
  unknown_index_type : Text → JsonError
  pk_required : JsonError
  out_of_fuel : JsonError

-- A value and the text behind it.
pub data Scan (A : Type 0) : Type 0 where
  done : A → Text → Scan A
  fault : JsonError → Scan A

abbrev pub and_then : {A B : Type 0} → Scan A → (A → Text → Scan B) → Scan B
and_then (done a rest) next = next a rest
and_then (fault e) next = fault e

abbrev pub is_blank : ℕ → Bool
is_blank c = c == 32 || c == 9 || c == 10 || c == 13

abbrev pub starts : ℕ → Text → Bool
starts c [] = false
starts c (d ∷ rest) = d == c

abbrev pub behind : Text → Text
behind [] = []
behind (c ∷ rest) = rest

-- `skip_ws`, outside of a comment and in one: two slashes start it, a newline ends it.
pub skip_from : Bool → Text → Text
skip_from in_comment [] = []
skip_from true (c ∷ rest) =
    let outside = skip_from false rest in
    let inside = skip_from true rest in if c == 10 then outside else inside
skip_from false (c ∷ rest) =
    let outside = skip_from false rest in
    let inside = skip_from true rest in
    if is_blank c then outside else if c == 47 && starts 47 rest then inside else c ∷ rest

pub skip_ws : Text → Text
unfolding skip_from
skip_ws text = skip_from false text

abbrev pub expect_at : ℕ → Text → Scan (Unit {0})
expect_at c text = if starts c text then done tt (behind text) else fault (expected c)

pub expect : ℕ → Text → Scan (Unit {0})
unfolding skip_ws
expect c text = expect_at c (skip_ws text)

abbrev pub unescape : ℕ → ℕ
unescape c = if c == 110 then 10 else if c == 116 then 9 else if c == 114 then 13 else c

abbrev pub with_char : ℕ → Scan Text → Scan Text
with_char c (done s rest) = done (c ∷ s) rest
with_char c (fault e) = fault e

-- The characters up to the closing quote.
pub string_body : Text → Scan Text
string_body [] = fault unterminated_string
string_body (c ∷ []) = if c == 34 then done [] [] else fault unterminated_string
string_body (c ∷ d ∷ rest) =
    let escaped = with_char (unescape d) (string_body rest) in
    let plain = with_char c (string_body (d ∷ rest)) in
    if c == 34 then done [] (d ∷ rest) else if c == 92 then escaped else plain

abbrev pub parse_string_at : Text → Scan Text
parse_string_at text = if starts 34 text then string_body (behind text) else fault expected_string

pub parse_string : Text → Scan Text
unfolding skip_ws string_body
parse_string text = parse_string_at (skip_ws text)

-- The text behind a word, if it starts with the word.
abbrev pub strip_word : Text → Text → Option Text
strip_word [] text = some text
strip_word (w ∷ ws) [] = none
strip_word (w ∷ ws) (c ∷ rest) = if c == w then strip_word ws rest else none

abbrev pub true_word : Text
true_word = 116 ∷ 114 ∷ 117 ∷ 101 ∷ []

abbrev pub false_word : Text
false_word = 102 ∷ 97 ∷ 108 ∷ 115 ∷ 101 ∷ []

abbrev pub parse_bool_at : Text → Scan Bool
parse_bool_at text = elim (strip_word true_word text) [
  | some rest ↦ done true rest
  | none ↦ elim (strip_word false_word text) [
    | some rest ↦ done false rest
    | none ↦ fault expected_bool
  ]
]

pub parse_bool : Text → Scan Bool
unfolding skip_ws
parse_bool text = parse_bool_at (skip_ws text)

abbrev pub is_digit : ℕ → Bool
is_digit c = between 48 57 c

pub parse_digits : ℕ → Text → ℕ × Text
parse_digits acc [] = (acc, [])
parse_digits acc (c ∷ rest) =
    let later = parse_digits (acc * 10 + (c - 48)) rest in
    if is_digit c then later else (acc, c ∷ rest)

-- Behind the sign. The negative of zero is zero.
abbrev pub parse_magnitude : Bool → Text → Scan (Bool × ℕ)
parse_magnitude negative [] = fault expected_digit
parse_magnitude negative (c ∷ rest) =
    let (n, after) = parse_digits 0 (c ∷ rest) in
    if is_digit c then done (negative && not (n == 0), n) after else fault expected_digit

abbrev pub parse_int64_at : Text → Scan (Bool × ℕ)
parse_int64_at [] = fault expected_integer
parse_int64_at (c ∷ rest) =
    if c == 45 then parse_magnitude true rest else parse_magnitude false (c ∷ rest)

pub parse_int64 : Text → Scan (Bool × ℕ)
unfolding skip_ws
parse_int64 text = parse_int64_at (skip_ws text)

-- Where `skip_value` is: at a value, or in an object or an array, before its first element or not.
pub data Place : Type 0 where
  at_value : Place
  in_object : Bool → Place
  in_array : Bool → Place

abbrev pub comma : Bool → Text → Scan (Unit {0})
comma first text = if first then done tt text else expect_at 44 text

-- `skip_value`; every call takes a character off the text, or is at a value right behind one.
pub skip : ℕ → Place → Text → Scan (Unit {0})
unfolding parse_string parse_bool parse_int64 expect
skip zero place text = fault out_of_fuel
skip (suc n) at_value text = elim (skip_ws text) [
  | [] ↦ fault unexpected_end
  | c ∷ rest ↦
      if c == 34
      then and_then (parse_string (c ∷ rest)) (λ s after. done tt after)
      else if c == 116 || c == 102
      then and_then (parse_bool (c ∷ rest)) (λ b after. done tt after)
      else if c == 123
      then skip n (in_object true) rest
      else if c == 91
      then skip n (in_array true) rest
      else if c == 45 || is_digit c
      then and_then (parse_int64 (c ∷ rest)) (λ i after. done tt after)
      else fault unexpected_token
]
skip (suc n) (in_object first) text =
    let t = skip_ws text in
    if starts 125 t
    then done tt (behind t)
    else and_then (comma first t) (λ u t₁. and_then (parse_string t₁) (λ k t₂.
      and_then (expect 58 t₂)
        (λ v t₃. and_then (skip n at_value t₃) (λ w t₄. skip n (in_object false) t₄))))
skip (suc n) (in_array first) text =
    let t = skip_ws text in
    if starts 93 t
    then done tt (behind t)
    else and_then (comma first t)
        (λ u t₁. and_then (skip n at_value t₁) (λ w t₂. skip n (in_array false) t₂))

-- Each character is passed by two calls at most.
pub skip_value : Text → Scan (Unit {0})
unfolding skip
skip_value text = skip (suc (suc (length text + length text))) at_value text
