-- ===== src/Index/Text.antt =====
-- libs/yikv/index/inverted_index.cc: the text helpers. A string is the list of its bytes.
use yikv.Prelude.{
  ℕ, zero, suc, ◌+◌, ◌/◌, ◌%◌, ◌≡◌, refl, ap, Bool, true, false, ◌&&◌, ◌||◌, List, [], ◌∷◌, ◌++◌,
  map, arith, ltb, leb, ◌==◌, if◌then◌else◌,
}

abbrev pub Text : Type 0
Text = List ℕ

-- `std::isalnum` and `std::tolower` of the C locale.
abbrev pub between : ℕ → ℕ → ℕ → Bool
between lo hi c = leb lo c && leb c hi

abbrev pub is_alnum : ℕ → Bool
is_alnum c = between 48 57 c || between 65 90 c || between 97 122 c

abbrev pub to_lower : ℕ → ℕ
to_lower c = if between 65 90 c then c + 32 else c

unfoldable pub normalize : Text → Text
normalize s = map to_lower s

-- The scan keeps the token it is in, last byte first; at its end the token is pushed.
abbrev pub push_token : Text → List Text → List Text
push_token [] tokens = tokens
push_token (c ∷ cs) tokens = map to_lower (c ∷ cs) ∷ tokens

unfoldable pub tokenize_from : Text → Text → List Text
tokenize_from token [] = push_token token []
tokenize_from token (c ∷ rest) =
    let inside = tokenize_from (token ++ (c ∷ [])) rest in
    let outside = tokenize_from [] rest in if is_alnum c then inside else push_token token outside

unfoldable pub tokenize : Text → List Text
unfolding tokenize_from
tokenize text = tokenize_from [] text

-- `std::to_string`: a number has fewer digits than its value has units.
abbrev pub digits : ℕ → ℕ → Text
digits zero n = []
digits (suc fuel) n =
    let front = digits fuel (n / 10) in
    if ltb n 10 then (48 + n) ∷ [] else front ++ ((48 + n % 10) ∷ [])

abbrev pub decimal : ℕ → Text
decimal n = digits (suc n) n

-- A signed integer: its sign and its magnitude.
abbrev pub signed_decimal : Bool × ℕ → Text
signed_decimal (negative, n) = if negative then 45 ∷ decimal n else decimal n

-- `std::to_string(field_id) + "#" + Normalize(term)`
unfoldable pub posting_key : ℕ → Text → Text
unfolding normalize
posting_key field_id term = decimal field_id ++ (35 ∷ normalize term)

abbrev pub text_eq : Text → Text → Bool
text_eq [] [] = true
text_eq [] (y ∷ ys) = false
text_eq (x ∷ xs) [] = false
text_eq (x ∷ xs) (y ∷ ys) = x == y && text_eq xs ys

pub text_eq-≡ : (s t : Text) → text_eq s t ≡ true → s ≡ t
text_eq-≡ [] [] e = refl
text_eq-≡ [] (y ∷ ys) e = cc
text_eq-≡ (x ∷ xs) [] e = cc
text_eq-≡ (x ∷ xs) (y ∷ ys) e = ground (arith, text_eq-≡ xs ys)

pub text_eq_refl : (s : Text) → text_eq s s ≡ true
text_eq_refl [] = refl
text_eq_refl (x ∷ xs) = ground (arith, text_eq_refl xs)

abbrev pub elem : Text → List Text → Bool
elem k [] = false
elem k (x ∷ xs) = text_eq k x || elem k xs

-- A term and its normalized form have the same posting key in every field.
pub posting_key-normalize :
    (field_id : ℕ) (term : Text) → posting_key field_id (normalize term) ≡ posting_key field_id term
unfolding posting_key normalize
posting_key-normalize field_id term = ap (λ t. decimal field_id ++ (35 ∷ t)) (twice term)
  where
    twice : (s : Text) → map to_lower (map to_lower s) ≡ map to_lower s
    twice [] = refl
    twice (c ∷ cs) = ground (arith, twice cs)
