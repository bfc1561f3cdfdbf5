-- ===== src/Bitmap/Each/Laws.antt =====
-- What `ForEach` visits, and the bounds of the counts.
use yikv.Prelude.{
  ◌^◌, ℕ, suc, ◌+◌, ◌*◌, ◌/◌, ◌%◌, ◌≤◌, ◌≡◌, refl, sym, ap, ◌∙◌, ◌&&◌, List, [], ◌∷◌, ◌++◌, map,
  arith, ◌==◌, length, length-append,
}
use yikv.Sorted.{
  mem, IsAscending, IsBelow, IsAscending-mono, mem-append, mem_below_bound, IsAscending-ext,
  length-below,
}
use yikv.Bitmap.{Bitmap, Chunk}
use yikv.Bitmap.Each.{values, for_each_in, for_each, view, has, total, IsIndex, IsValid}

-- The values of one chunk, with its key in front.
abbrev pub keyed : ℕ → List ℕ → List ℕ
keyed hi xs = map (λ lo. hi * 65536 + lo) xs

pub mem-keyed :
    (v hi : ℕ) (xs : List ℕ)
    → IsBelow 65536 xs
    → mem v (keyed hi xs) ≡ (v / 65536 == hi && mem (v % 65536) xs)
mem-keyed v hi [] low = ground arith
mem-keyed v hi (x ∷ xs) low = ground (arith, mem-keyed v hi xs low.1)

pub keyed-IsAscending :
    (hi n : ℕ) (xs : List ℕ) → IsAscending n xs → IsAscending (hi * 65536 + n) (keyed hi xs)
keyed-IsAscending hi n [] v = tt
keyed-IsAscending hi n (x ∷ xs) v = (
  omega arith,
  IsAscending-mono (hi * 65536 + suc x) (suc (hi * 65536 + x)) (keyed hi xs) (omega arith)
      (keyed-IsAscending hi (suc x) xs v.1),
)

pub keyed-IsBelow : (hi m : ℕ) (xs : List ℕ) → IsBelow m xs → IsBelow (hi * 65536 + m) (keyed hi xs)
keyed-IsBelow hi m [] v = tt
keyed-IsBelow hi m (x ∷ xs) v = (omega arith, keyed-IsBelow hi m xs v.1)

length-keyed : (hi : ℕ) (xs : List ℕ) → length (keyed hi xs) ≡ length xs
length-keyed hi [] = refl
length-keyed hi (x ∷ xs) = omega (arith, length-keyed hi xs)

append-IsAscending :
    (n m : ℕ) (xs ys : List ℕ)
    → n ≤ m
    → IsAscending n xs
    → IsBelow m xs
    → IsAscending m ys
    → IsAscending n (xs ++ ys)
append-IsAscending n m [] ys h a b c = IsAscending-mono m n ys h c
append-IsAscending n m (x ∷ xs) ys h a b c =
    (a.0, append-IsAscending (suc x) m xs ys (omega arith) a.1 b.1 c)

append-IsBelow : (m : ℕ) (xs ys : List ℕ) → IsBelow m xs → IsBelow m ys → IsBelow m (xs ++ ys)
append-IsBelow m [] ys a b = b
append-IsBelow m (x ∷ xs) ys a b = (a.0, append-IsBelow m xs ys a.1 b)

pub IsBelow-mono : (n m : ℕ) (xs : List ℕ) → n ≤ m → IsBelow n xs → IsBelow m xs
IsBelow-mono n m [] h a = tt
IsBelow-mono n m (x ∷ xs) h a = (omega arith, IsBelow-mono n m xs h a.1)

record Listed (n : ℕ) (cs : List Chunk) : Type 0 where
  members : (v : ℕ) → mem v (for_each_in cs) ≡ mem (v % 65536) (view cs (v / 65536))
  ascending : IsAscending (n * 65536) (for_each_in cs)
  below : IsBelow (65536 * 65536) (for_each_in cs)
  counted : length (for_each_in cs) ≡ total cs

for_each_in-Listed : (cs : List Chunk) (n : ℕ) → IsIndex n cs → Listed n cs
unfolding for_each_in
for_each_in-Listed [] n v = record {
  members = λ v. refl;
  ascending = tt;
  below = tt;
  counted = refl;
}
for_each_in-Listed (e ∷ rest) n v =
    let r = for_each_in-Listed rest (suc e.hi) v.2 in
    let c = v.1 in
    let here = keyed e.hi (values e.payload) in
    let key = c.hi_small in
    let asc = keyed-IsAscending e.hi 0 (values e.payload) c.ascending in
    let low = keyed-IsBelow e.hi 65536 (values e.payload) c.below in
    record {
      members = λ w. ground (
        arith,
        mem-append w here (for_each_in rest),
        mem-keyed w e.hi (values e.payload) c.below,
        r.members w,
        mem_below_bound w (suc e.hi * 65536) (for_each_in rest) r.ascending,
      );
      ascending =
          IsAscending-mono (e.hi * 65536 + 0) (n * 65536) (here ++ for_each_in rest) (omega arith) (
            append-IsAscending (e.hi * 65536 + 0) (e.hi * 65536 + 65536) here (for_each_in rest)
              (omega arith) asc low
              (IsAscending-mono (suc e.hi * 65536) (e.hi * 65536 + 65536) (for_each_in rest)
                (omega arith) r.ascending));
      below =
          append-IsBelow (65536 * 65536) here (for_each_in rest)
            (IsBelow-mono (e.hi * 65536 + 65536) (65536 * 65536) here (omega arith) low) r.below;
      counted =
          length-append here (for_each_in rest)
          ∙ omega (arith, length-keyed e.hi (values e.payload), c.counted, r.counted);
    }

-- `ForEach` visits the members of the set, each once, in ascending order, and as many as the
-- bitmap counts.
pub record Visits (b : Bitmap) (xs : List ℕ) : Type 0 where
  pub members : (v : ℕ) → mem v xs ≡ has b v
  pub ascending : IsAscending 0 xs
  pub below : IsBelow (2 ^ 32) xs
  pub counted : length xs ≡ b.cardinality

-- On a valid bitmap, ForEach visits exactly the members, in strictly ascending order, each a
-- 32-bit value, and as many as Cardinality says.
pub for_each-Visits : (b : Bitmap) → IsValid b → Visits b (for_each b)
unfolding for_each
for_each-Visits b v =
    let r = for_each_in-Listed b.chunks 0 v.index in
    record {
      members = r.members;
      ascending = r.ascending;
      below = r.below;
      counted = r.counted ∙ sym v.counted;
    }

-- Two valid bitmaps with the same members give the same ForEach sequence and the same
-- cardinality, whatever chunk types and capacities they have.
pub for_each-extensional :
    (b c : Bitmap)
    → IsValid b
    → IsValid c
    → ((v : ℕ) → has b v ≡ has c v)
    → (for_each b ≡ for_each c) × (b.cardinality ≡ c.cardinality)
for_each-extensional b c v w same =
    let x = for_each-Visits b v in
    let y = for_each-Visits c w in
    let e =
      IsAscending-ext 0 0 (for_each b) (for_each c) x.ascending y.ascending
        (λ z. x.members z ∙ same z ∙ sym (y.members z)) in
    (e, omega (arith, x.counted, y.counted, ap length e))

-- The cardinality of a valid bitmap is at most 2 ^ 32.
pub cardinality-bounds : (b : Bitmap) → IsValid b → b.cardinality ≤ 2 ^ 32
cardinality-bounds b v =
    let x = for_each-Visits b v in
    omega (arith, x.counted, length-below 0 (2 ^ 32) (for_each b) x.ascending x.below (omega arith))
