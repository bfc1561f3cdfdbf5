-- ===== src/Bitmap/Index/Search.antt =====
-- The binary search over the index finds the place of a key.
use yikv.Prelude.{
  ℕ, zero, suc, ◌+◌, ◌-◌, ◌/◌, ◌≤◌, ◌<◌, ◌≡◌, refl, Bool, true, false, ◌&&◌, List, [], ◌∷◌, Option,
  none, some, arith, ltb, ◌==◌, if◌then◌else◌, length, get_elem?,
}
use yikv.Bitmap.{Chunk}
use yikv.Bitmap.Each.{values, view, IsIndex}
use yikv.Bitmap.Index.{hi_below, hi_equals, chunk_pos_loop, chunk_pos, find_chunk}

-- How many keys are smaller.
abbrev pub place : List Chunk → ℕ → ℕ
place [] hi = 0
place (e ∷ rest) hi = if ltb e.hi hi then suc (place rest hi) else 0

pub place-le-length : (cs : List Chunk) (hi : ℕ) → place cs hi ≤ length cs
place-le-length [] hi = omega arith
place-le-length (e ∷ rest) hi = ground (arith, place-le-length rest hi)

place_below : (cs : List Chunk) (n hi : ℕ) → IsIndex n cs → hi ≤ n → place cs hi ≡ 0
place_below [] n hi v h = refl
place_below (e ∷ rest) n hi v h = ground arith

hi_below-place :
    (cs : List Chunk) (n i hi : ℕ)
    → IsIndex n cs
    → i < length cs
    → hi_below cs i hi ≡ ltb i (place cs hi)
hi_below-place [] n i hi v h = absurd (omega arith)
hi_below-place (e ∷ rest) n zero hi v h = ground arith
hi_below-place (e ∷ rest) n (suc i) hi v h =
    ground (arith, hi_below-place rest (suc e.hi) i hi v.2, place_below rest (suc e.hi) hi v.2)

chunk_pos_loop_lem :
    (fuel : ℕ) (cs : List Chunk) (n hi lo rh : ℕ)
    → IsIndex n cs
    → rh - lo < fuel
    → lo ≤ place cs hi
    → place cs hi ≤ rh
    → rh ≤ length cs
    → chunk_pos_loop fuel cs hi lo rh ≡ place cs hi
unfolding chunk_pos_loop
chunk_pos_loop_lem zero cs n hi lo rh v f a b c = absurd (omega arith)
chunk_pos_loop_lem (suc fuel) cs n hi lo rh v f a b c = ground (
  arith,
  hi_below-place cs n ((lo + rh) / 2) hi v,
  chunk_pos_loop_lem fuel cs n hi ((lo + rh) / 2 + 1) rh v,
  chunk_pos_loop_lem fuel cs n hi lo ((lo + rh) / 2) v,
)

pub chunk_pos_lem : (cs : List Chunk) (n hi : ℕ) → IsIndex n cs → chunk_pos cs hi ≡ place cs hi
unfolding chunk_pos
chunk_pos_lem cs n hi v =
    chunk_pos_loop_lem (suc (length cs)) cs n hi 0 (length cs) v (omega arith) (omega arith)
      (place-le-length cs hi) (omega arith)

-- What a lookup by key finds.
abbrev pub entry : List Chunk → ℕ → Option Chunk
entry [] hi = none
entry (e ∷ rest) hi = if e.hi == hi then some e else entry rest hi

pub entry_below : (cs : List Chunk) (n hi : ℕ) → IsIndex n cs → hi < n → entry cs hi ≡ none
entry_below [] n hi v h = refl
entry_below (e ∷ rest) n hi v h = ground (arith, entry_below rest (suc e.hi) hi v.2)

pub view-entry :
    (cs : List Chunk) (hi : ℕ)
    → view cs hi ≡ (elim (entry cs hi) as (λ _. List ℕ) [ none ↦ [] | some e ↦ values e.payload ])
view-entry [] hi = refl
view-entry (e ∷ rest) hi = ground (arith, view-entry rest hi)

-- The guard of the code at the place of a key.
pub entry-place :
    (cs : List Chunk) (n hi : ℕ)
    → IsIndex n cs
    → entry cs hi ≡ (
        if ltb (place cs hi) (length cs) && hi_equals cs (place cs hi) hi
        then get_elem? cs (place cs hi)
        else none)
entry-place [] n hi v = refl
entry-place (e ∷ rest) n hi v =
    ground (arith, entry-place rest (suc e.hi) hi v.2, entry_below rest (suc e.hi) hi v.2)

abbrev pub guard : List Chunk → ℕ → Bool
guard cs hi = ltb (place cs hi) (length cs) && hi_equals cs (place cs hi) hi

pub guard-none :
    (cs : List Chunk) (n hi : ℕ) → IsIndex n cs → entry cs hi ≡ none → guard cs hi ≡ false
guard-none cs n hi v f = ground (arith, entry-place cs n hi v)

pub guard-some :
    (cs : List Chunk) (n hi : ℕ) (e : Chunk)
    → IsIndex n cs
    → entry cs hi ≡ some e
    → guard cs hi ≡ true
guard-some cs n hi e v f = ground (arith, entry-place cs n hi v)

-- `find_chunk` is the lookup by key.
pub find_chunk-entry : (cs : List Chunk) (n hi : ℕ) → IsIndex n cs → find_chunk cs hi ≡ entry cs hi
unfolding find_chunk
find_chunk-entry cs n hi v = ground (arith, chunk_pos_lem cs n hi v, entry-place cs n hi v)
