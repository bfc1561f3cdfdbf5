-- ===== src/Bitmap/Index/Entries.antt =====
-- What an insertion, a store and an erasure at the place of a key do to the entries.
use yikv.Prelude.{
  ℕ, zero, suc, ◌+◌, ◌≤◌, ◌<◌, ◌≡◌, refl, List, [], ◌∷◌, none, some, arith, ◌==◌, if◌then◌else◌,
  length, get_elem?, set, insert_at, remove_at,
}
use yikv.Bitmap.{Chunk}
use yikv.Bitmap.Each.{values, view, total, IsChunk, IsIndex, IsFull, IsFullBut}
use yikv.Bitmap.Index.Search.{place, entry, entry_below}

module _ (hi : ℕ) (e : Chunk) (same : e.hi ≡ hi) (ok : IsChunk e) where
  pub set-IsIndex :
      (cs : List Chunk) (n : ℕ) (old : Chunk)
      → IsIndex n cs
      → entry cs hi ≡ some old
      → IsIndex n (set cs (place cs hi) e)
  set-IsIndex [] n old v f = cc
  set-IsIndex (c ∷ rest) n old v f =
      ground (arith, set-IsIndex rest (suc c.hi) old v.2, entry_below rest (suc c.hi) hi v.2)

  pub total-set :
      (cs : List Chunk) (n : ℕ) (old : Chunk)
      → IsIndex n cs
      → entry cs hi ≡ some old
      → total (set cs (place cs hi) e) + old.cardinality ≡ total cs + e.cardinality
  total-set [] n old v f = cc
  total-set (c ∷ rest) n old v f =
      ground (arith, total-set rest (suc c.hi) old v.2, entry_below rest (suc c.hi) hi v.2)

  pub view-set :
      (cs : List Chunk) (n h : ℕ) (old : Chunk)
      → IsIndex n cs
      → entry cs hi ≡ some old
      → view (set cs (place cs hi) e) h ≡ (if h == hi then values e.payload else view cs h)
  view-set [] n h old v f = cc
  view-set (c ∷ rest) n h old v f =
      ground (arith, view-set rest (suc c.hi) h old v.2, entry_below rest (suc c.hi) hi v.2)

  pub insert_at-IsIndex :
      (cs : List Chunk) (n : ℕ)
      → n ≤ hi
      → IsIndex n cs
      → entry cs hi ≡ none
      → IsIndex n (insert_at (place cs hi) e cs)
  insert_at-IsIndex [] n h v f = ground arith
  insert_at-IsIndex (c ∷ rest) n h v f = ground (arith, insert_at-IsIndex rest (suc c.hi))

  pub total-insert_at :
      (cs : List Chunk) → total (insert_at (place cs hi) e cs) ≡ total cs + e.cardinality
  total-insert_at [] = omega arith
  total-insert_at (c ∷ rest) = ground (arith, total-insert_at rest)

  pub view-insert_at :
      (cs : List Chunk) (h : ℕ)
      → entry cs hi ≡ none
      → view (insert_at (place cs hi) e cs) h ≡ (if h == hi then values e.payload else view cs h)
  view-insert_at [] h f = ground arith
  view-insert_at (c ∷ rest) h f = ground (arith, view-insert_at rest h)

module _ {ℓ} {A : Type ℓ} where
  pub length-set : (xs : List A) (i : ℕ) (v : A) → length (set xs i v) ≡ length xs
  length-set [] i v = refl
  length-set (x ∷ xs) zero v = refl
  length-set (x ∷ xs) (suc i) v = omega (arith, length-set xs i v)

  pub length-insert_at : (i : ℕ) (v : A) (xs : List A) → length (insert_at i v xs) ≡ suc (length xs)
  length-insert_at zero v xs = refl
  length-insert_at (suc i) v [] = refl
  length-insert_at (suc i) v (x ∷ xs) = omega (arith, length-insert_at i v xs)

  pub set-insert_at :
      (i : ℕ) (v w : A) (xs : List A)
      → i ≤ length xs
      → set (insert_at i v xs) i w ≡ insert_at i w xs
  set-insert_at zero v w xs h = refl
  set-insert_at (suc i) v w [] h = absurd (omega arith)
  set-insert_at (suc i) v w (x ∷ xs) h = ground (arith, set-insert_at i v w xs)

  pub get_elem?-insert_at :
      (i : ℕ) (v : A) (xs : List A) → i ≤ length xs → get_elem? (insert_at i v xs) i ≡ some v
  get_elem?-insert_at zero v xs h = refl
  get_elem?-insert_at (suc i) v [] h = absurd (omega arith)
  get_elem?-insert_at (suc i) v (x ∷ xs) h = get_elem?-insert_at i v xs (omega arith)

  pub remove_at-set : (i : ℕ) (w : A) (xs : List A) → remove_at i (set xs i w) ≡ remove_at i xs
  remove_at-set i w [] = refl
  remove_at-set zero w (x ∷ xs) = refl
  remove_at-set (suc i) w (x ∷ xs) = ground (arith, remove_at-set i w xs)

  pub length-remove_at : (i : ℕ) (xs : List A) → length (remove_at i xs) ≤ length xs
  length-remove_at i [] = omega arith
  length-remove_at zero (x ∷ xs) = omega arith
  length-remove_at (suc i) (x ∷ xs) = omega (arith, length-remove_at i xs)

pub IsIndex-mono : (n m : ℕ) (cs : List Chunk) → m ≤ n → IsIndex n cs → IsIndex m cs
IsIndex-mono n m [] h v = tt
IsIndex-mono n m (e ∷ rest) h v = (omega arith, v.1, v.2)

pub view_below : (cs : List Chunk) (n hi : ℕ) → IsIndex n cs → hi < n → view cs hi ≡ []
view_below [] n hi v h = refl
view_below (e ∷ rest) n hi v h = ground (arith, view_below rest (suc e.hi) hi v.2)

-- Erasing the entry under a key, after any store at its place.
module _ (hi : ℕ) where
  pub remove_at-IsIndex :
      (cs : List Chunk) (n : ℕ) (old : Chunk)
      → IsIndex n cs
      → entry cs hi ≡ some old
      → IsIndex n (remove_at (place cs hi) cs)
  remove_at-IsIndex [] n old v f = cc
  remove_at-IsIndex (c ∷ rest) n old v f = ground (
    arith,
    remove_at-IsIndex rest (suc c.hi) old v.2,
    entry_below rest (suc c.hi) hi v.2,
    IsIndex-mono (suc c.hi) n rest,
  )

  pub total-remove_at :
      (cs : List Chunk) (n : ℕ) (old : Chunk)
      → IsIndex n cs
      → entry cs hi ≡ some old
      → total (remove_at (place cs hi) cs) + old.cardinality ≡ total cs
  total-remove_at [] n old v f = cc
  total-remove_at (c ∷ rest) n old v f =
      ground (arith, total-remove_at rest (suc c.hi) old v.2, entry_below rest (suc c.hi) hi v.2)

  pub view-remove_at :
      (cs : List Chunk) (n h : ℕ) (old : Chunk)
      → IsIndex n cs
      → entry cs hi ≡ some old
      → view (remove_at (place cs hi) cs) h ≡ (if h == hi then [] else view cs h)
  view-remove_at [] n h old v f = cc
  view-remove_at (c ∷ rest) n h old v f = ground (
    arith,
    view-remove_at rest (suc c.hi) h old v.2,
    entry_below rest (suc c.hi) hi v.2,
    view_below rest (suc c.hi) h v.2,
  )

pub entry-IsChunk :
    (cs : List Chunk) (n hi : ℕ) (e : Chunk)
    → IsIndex n cs
    → entry cs hi ≡ some e
    → IsChunk e × (e.hi ≡ hi) × (e.cardinality ≤ total cs)
entry-IsChunk [] n hi e v f = cc
entry-IsChunk (c ∷ rest) n hi e v f = ground (arith, entry-IsChunk rest (suc c.hi) hi e v.2)

-- Which entries may be empty.
pub IsFull-but : (hi : ℕ) (cs : List Chunk) → IsFull cs → IsFullBut hi cs
IsFull-but hi [] f = tt
IsFull-but hi (c ∷ rest) f = (ground arith, IsFull-but hi rest f.1)

pub entry-nonempty :
    (cs : List Chunk) (hi : ℕ) (e : Chunk) → IsFull cs → entry cs hi ≡ some e → 0 < e.cardinality
entry-nonempty [] hi e f h = cc
entry-nonempty (c ∷ rest) hi e f h = ground (arith, entry-nonempty rest hi e f.1)

pub above-IsFull :
    (cs : List Chunk) (n hi : ℕ) → IsIndex n cs → hi < n → IsFullBut hi cs → IsFull cs
above-IsFull [] n hi v h f = tt
above-IsFull (c ∷ rest) n hi v h f =
    (ground arith, above-IsFull rest (suc c.hi) hi v.2 (omega arith) f.1)

pub set-IsFull :
    (cs : List Chunk) (n hi : ℕ) (old e : Chunk)
    → IsIndex n cs
    → entry cs hi ≡ some old
    → 0 < e.cardinality
    → IsFullBut hi cs
    → IsFull (set cs (place cs hi) e)
set-IsFull [] n hi old e v g h f = cc
set-IsFull (c ∷ rest) n hi old e v g h f = ground (
  arith,
  set-IsFull rest (suc c.hi) hi old e v.2,
  above-IsFull rest (suc c.hi) hi v.2,
  entry_below rest (suc c.hi) hi v.2,
)

pub insert_at-IsFull :
    (cs : List Chunk) (n hi : ℕ) (e : Chunk)
    → IsIndex n cs
    → entry cs hi ≡ none
    → 0 < e.cardinality
    → IsFullBut hi cs
    → IsFull (insert_at (place cs hi) e cs)
insert_at-IsFull [] n hi e v g h f = (h, tt)
insert_at-IsFull (c ∷ rest) n hi e v g h f =
    ground (arith, insert_at-IsFull rest (suc c.hi) hi e v.2, above-IsFull rest (suc c.hi) hi v.2)

pub insert_at-IsFullBut :
    (cs : List Chunk) (hi : ℕ) (e : Chunk)
    → e.hi ≡ hi
    → IsFullBut hi cs
    → IsFullBut hi (insert_at (place cs hi) e cs)
insert_at-IsFullBut [] hi e same f = ground arith
insert_at-IsFullBut (c ∷ rest) hi e same f = ground (arith, insert_at-IsFullBut rest hi e same)

pub remove_at-IsFull : (i : ℕ) (cs : List Chunk) → IsFull cs → IsFull (remove_at i cs)
remove_at-IsFull i [] f = tt
remove_at-IsFull zero (c ∷ rest) f = f.1
remove_at-IsFull (suc i) (c ∷ rest) f = (f.0, remove_at-IsFull i rest f.1)
