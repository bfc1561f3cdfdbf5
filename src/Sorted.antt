-- ===== src/Sorted.antt =====
-- Strictly ascending lists of numbers: what a chunk of the bitmap stands for. The lemmas that the
-- proofs about chunks share.
use yikv.Prelude.{
  ℕ, suc, ◌+◌, ◌≤◌, ◌<◌, ◌≡◌, refl, Bool, true, false, ◌||◌, ◌&&◌, not, List, [], ◌∷◌, ◌++◌, arith,
  ltb, ◌==◌, if◌then◌else◌, length,
}

abbrev pub mem : ℕ → List ℕ → Bool
mem z [] = false
mem z (x ∷ xs) = z == x || mem z xs

-- Each element is above the one before it, and the first at least the bound.
abbrev pub IsAscending : ℕ → List ℕ → Type 0
IsAscending n [] = Unit {0}
IsAscending n (x ∷ xs) = (n ≤ x) × IsAscending (suc x) xs

abbrev pub IsBelow : ℕ → List ℕ → Type 0
IsBelow m [] = Unit {0}
IsBelow m (x ∷ xs) = (x < m) × IsBelow m xs

pub IsAscending-mono : (n m : ℕ) (xs : List ℕ) → m ≤ n → IsAscending n xs → IsAscending m xs
IsAscending-mono n m [] h a = tt
IsAscending-mono n m (x ∷ xs) h a = (omega arith, a.1)

pub mem_below_bound : (z n : ℕ) (xs : List ℕ) → IsAscending n xs → z < n → mem z xs ≡ false
mem_below_bound z n [] a h = refl
mem_below_bound z n (x ∷ xs) a h = ground (arith, mem_below_bound z (suc x) xs)

pub mem_above_bound : (z m : ℕ) (xs : List ℕ) → IsBelow m xs → m ≤ z → mem z xs ≡ false
mem_above_bound z m [] a h = refl
mem_above_bound z m (x ∷ xs) a h = ground (arith, mem_above_bound z m xs)

pub mem-append : (z : ℕ) (xs ys : List ℕ) → mem z (xs ++ ys) ≡ (mem z xs || mem z ys)
mem-append z [] ys = refl
mem-append z (x ∷ xs) ys = ground (arith, mem-append z xs ys)

-- A strictly ascending list is determined by its elements.
pub IsAscending-ext :
    (n m : ℕ) (xs ys : List ℕ)
    → IsAscending n xs
    → IsAscending m ys
    → ((z : ℕ) → mem z xs ≡ mem z ys)
    → xs ≡ ys
IsAscending-ext n m [] [] a b h = refl
IsAscending-ext n m [] (y ∷ ys) a b h = ground (arith, h y)
IsAscending-ext n m (x ∷ xs) [] a b h = ground (arith, h x)
IsAscending-ext n m (x ∷ xs) (y ∷ ys) a b h =
    let e : x ≡ y =
      ground (arith, h x, h y, mem_below_bound x (suc y) ys, mem_below_bound y (suc x) xs) in
    let rest : xs ≡ ys =
      IsAscending-ext (suc x) (suc y) xs ys a.1 b.1
        λ z. ground (arith, h z, mem_below_bound x (suc y) ys, mem_below_bound y (suc x) xs) in
    ground (arith, e, rest)

pub length-below :
    (n m : ℕ) (xs : List ℕ) → IsAscending n xs → IsBelow m xs → n ≤ m → length xs + n ≤ m
length-below n m [] a b h = omega arith
length-below n m (x ∷ xs) a b h = omega (arith, length-below (suc x) m xs a.1 b.1 (omega arith))

-- The reference set operations.
abbrev pub insert : ℕ → List ℕ → List ℕ
insert z [] = z ∷ []
insert z (x ∷ xs) = if ltb z x then z ∷ x ∷ xs else if z == x then x ∷ xs else x ∷ insert z xs

abbrev pub remove : ℕ → List ℕ → List ℕ
remove z [] = []
remove z (x ∷ xs) = if z == x then xs else x ∷ remove z xs

pub mem-insert : (w z : ℕ) (xs : List ℕ) → mem w (insert z xs) ≡ (w == z || mem w xs)
mem-insert w z [] = refl
mem-insert w z (x ∷ xs) = ground (arith, mem-insert w z xs)

pub insert-IsAscending :
    (n z : ℕ) (xs : List ℕ) → IsAscending n xs → n ≤ z → IsAscending n (insert z xs)
insert-IsAscending n z [] a h = (h, tt)
insert-IsAscending n z (x ∷ xs) a h = ground (arith, insert-IsAscending (suc x) z xs)

pub insert-IsBelow : (m z : ℕ) (xs : List ℕ) → IsBelow m xs → z < m → IsBelow m (insert z xs)
insert-IsBelow m z [] a h = (h, tt)
insert-IsBelow m z (x ∷ xs) a h = ground (arith, insert-IsBelow m z xs)

pub length-insert :
    (n z : ℕ) (xs : List ℕ)
    → IsAscending n xs
    → length (insert z xs) ≡ (if mem z xs then length xs else suc (length xs))
length-insert n z [] a = refl
length-insert n z (x ∷ xs) a =
    ground (arith, length-insert (suc x) z xs, mem_below_bound z (suc x) xs)

pub mem-remove :
    (n w z : ℕ) (xs : List ℕ) → IsAscending n xs → mem w (remove z xs) ≡ (not (w == z) && mem w xs)
mem-remove n w z [] a = ground arith
mem-remove n w z (x ∷ xs) a =
    ground (arith, mem-remove (suc x) w z xs, mem_below_bound w (suc x) xs)

pub remove-IsAscending : (n z : ℕ) (xs : List ℕ) → IsAscending n xs → IsAscending n (remove z xs)
remove-IsAscending n z [] a = tt
remove-IsAscending n z (x ∷ xs) a =
    ground (arith, remove-IsAscending (suc x) z xs, IsAscending-mono (suc x) n xs)

pub remove-IsBelow : (m z : ℕ) (xs : List ℕ) → IsBelow m xs → IsBelow m (remove z xs)
remove-IsBelow m z [] a = tt
remove-IsBelow m z (x ∷ xs) a = ground (arith, remove-IsBelow m z xs)

pub length-remove : (z : ℕ) (xs : List ℕ) → mem z xs ≡ true → suc (length (remove z xs)) ≡ length xs
length-remove z [] h = cc
length-remove z (x ∷ xs) h = ground (arith, length-remove z xs)

pub mem-length : (z : ℕ) (xs : List ℕ) → mem z xs ≡ true → 0 < length xs
mem-length z [] h = absurd (ground arith)
mem-length z (x ∷ xs) h = omega arith

pub length-eq-zero : (xs : List ℕ) → length xs ≡ 0 → xs ≡ []
length-eq-zero [] h = refl
length-eq-zero (x ∷ xs) h = absurd (omega arith)

pub no_members : (xs : List ℕ) → ((z : ℕ) → mem z xs ≡ false) → xs ≡ []
no_members [] h = refl
no_members (x ∷ xs) h = absurd (ground (arith, h x))

-- An ascending list whose elements all occur in another is no longer than that.
pub length-subset :
    (n m : ℕ) (xs ys : List ℕ)
    → IsAscending n xs
    → IsAscending m ys
    → ((z : ℕ) → (mem z xs && not (mem z ys)) ≡ false)
    → length xs ≤ length ys
length-subset n m [] ys a b h = omega arith
length-subset n m (x ∷ xs) [] a b h = ground (arith, h x)
length-subset n m (x ∷ xs) (y ∷ ys) a b h = ground (
  arith,
  h x,
  mem_below_bound x (suc y) ys b.1,
  λ (e : x ≡ y).
      length-subset (suc x) (suc y) xs ys a.1 b.1
        (λ z. ground (arith, h z, mem_below_bound z (suc x) xs a.1)),
  λ (l : y < x).
      length-subset n (suc y) (x ∷ xs) ys a b.1
        (λ z. ground (arith, h z, mem_below_bound z (suc x) xs a.1)),
)
