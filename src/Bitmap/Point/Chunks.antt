-- ===== src/Bitmap/Point/Chunks.antt =====
-- `Add`, `Remove` and `Contains` inside one chunk.
use yikv.Prelude.{
  ℕ, zero, suc, ◌+◌, ◌-◌, ◌*◌, ◌/◌, ◌≤◌, ◌<◌, ◌≡◌, refl, ap, subst, inl, inr, true, false, ◌&&◌,
  List, [], ◌∷◌, none, some, arith, ltb, leb, ◌==◌, length, get_elem?, insert_at, remove_at,
  Bool-cases,
}
use yikv.Sorted
use yikv.Sorted.{mem, IsAscending, IsBelow, mem_below_bound}
use yikv.Bitmap.{Chunk, array, bitmap, Words}
use yikv.Bitmap.Words.{set_bit, clear_bit, collect}
use yikv.Bitmap.Words.Laws.{
  collect-IsAscending, collect-IsBelow, mem-collect_small, collect-set_bit, collect-clear_bit,
}
use yikv.Bitmap.Each.{values, Payload-cases, IsChunk, Fits}
use yikv.Bitmap.Convert.{grow_array}
use yikv.Bitmap.Convert.Laws.{to_bitmap-IsChunk, to_array-IsChunk}
use yikv.Bitmap.Point.{
  array_search, chunk_contains, lower_bound, slot_equals, insert_in_array, store_in_array,
  add_to_chunk, drop_from_bits, remove_from_chunk,
}

abbrev slot : List ℕ → ℕ → ℕ
slot a i = elim (get_elem? a i) [ none ↦ 0 | some x ↦ x ]

lower_bound_below : (a : List ℕ) (n lo : ℕ) → IsAscending n a → lo ≤ n → lower_bound a lo ≡ 0
unfolding lower_bound
lower_bound_below [] n lo v h = refl
lower_bound_below (x ∷ xs) n lo v h = ground arith

lower_bound-slot :
    (a : List ℕ) (n i lo : ℕ)
    → IsAscending n a
    → i < length a
    → (ltb (slot a i) lo ≡ ltb i (lower_bound a lo))
      × ((slot a i == lo) ≡ (i == lower_bound a lo && mem lo a))
unfolding lower_bound
lower_bound-slot [] n i lo v h = absurd (omega arith)
lower_bound-slot (x ∷ xs) n zero lo v h = ground (arith, mem_below_bound lo (suc x) xs v.1)
lower_bound-slot (x ∷ xs) n (suc i) lo v h = ground (
  arith,
  lower_bound-slot xs (suc x) i lo v.1,
  lower_bound_below xs (suc x) lo v.1,
  mem_below_bound lo (suc x) xs v.1,
)

mem-lower_bound : (a : List ℕ) (lo : ℕ) → mem lo a ≡ true → lower_bound a lo < length a
unfolding lower_bound
mem-lower_bound [] lo h = absurd (ground arith)
mem-lower_bound (x ∷ xs) lo h = ground (arith, mem-lower_bound xs lo)

array_search_lem :
    (fuel : ℕ) (a : List ℕ) (n lo l r : ℕ)
    → IsAscending n a
    → r - l < fuel
    → r ≤ length a
    → l ≤ lower_bound a lo
    → (mem lo a && leb r (lower_bound a lo)) ≡ false
    → array_search fuel a lo l r ≡ mem lo a
unfolding array_search
array_search_lem zero a n lo l r v f h p q = absurd (omega arith)
array_search_lem (suc fuel) a n lo l r v f h p q =
    let mid = (l + r) / 2 in
    ground (
      arith,
      lower_bound-slot a n mid lo v,
      array_search_lem fuel a n lo (mid + 1) r v,
      array_search_lem fuel a n lo l mid v,
    )

insert_at-lower_bound :
    (a : List ℕ) (n lo : ℕ)
    → IsAscending n a
    → mem lo a ≡ false
    → insert_at (lower_bound a lo) lo a ≡ Sorted.insert lo a
unfolding lower_bound
insert_at-lower_bound [] n lo v h = refl
insert_at-lower_bound (x ∷ xs) n lo v h = ground (arith, insert_at-lower_bound xs (suc x) lo v.1)

remove_at-lower_bound :
    (a : List ℕ) (n lo : ℕ)
    → IsAscending n a
    → mem lo a ≡ true
    → remove_at (lower_bound a lo) a ≡ Sorted.remove lo a
unfolding lower_bound
remove_at-lower_bound [] n lo v h = cc
remove_at-lower_bound (x ∷ xs) n lo v h =
    ground (arith, remove_at-lower_bound xs (suc x) lo v.1, mem_below_bound lo (suc x) xs v.1)

-- The early return of the array branches.
hit-mem :
    (a : List ℕ) (n lo : ℕ)
    → IsAscending n a
    → (ltb (lower_bound a lo) (length a) && slot_equals a (lower_bound a lo) lo) ≡ mem lo a
unfolding lower_bound
hit-mem [] n lo v = refl
hit-mem (x ∷ xs) n lo v =
    ground (arith, hit-mem xs (suc x) lo v.1, mem_below_bound lo (suc x) xs v.1)

-- The search in a chunk decides membership.
pub chunk_contains-mem :
    (e : Chunk) (lo : ℕ) → lo < 65536 → IsChunk e → chunk_contains e lo ≡ mem lo (values e.payload)
unfolding chunk_contains
chunk_contains-mem e lo h v = elim (Payload-cases e.payload) [
  | inr (w, p) ↦ ground (arith, mem-collect_small lo w)
  | inl (a, p) ↦
      let asc : IsAscending 0 a = subst (λ q. IsAscending 0 (values q)) p v.ascending in
      ground
        (arith, array_search_lem (suc (length a)) a 0 lo 0 (length a) asc, mem-lower_bound a lo)
]

-- What `Add` makes of the entry.
abbrev pub Adds : Chunk → ℕ → Chunk → Type 0
Adds e lo e' =
    IsChunk e'
    × (e'.hi ≡ e.hi)
    × (e'.cardinality ≡ e.cardinality + 1)
    × (values e'.payload ≡ Sorted.insert lo (values e.payload))

pub add_to_chunk-old :
    (e : Chunk) (lo : ℕ)
    → lo < 65536
    → IsChunk e
    → mem lo (values e.payload) ≡ true
    → add_to_chunk e lo ≡ none
unfolding add_to_chunk
add_to_chunk-old e lo h v m = elim (Payload-cases e.payload) [
  | inr (w, p) ↦ ground (arith, mem-collect_small lo w)
  | inl (a, p) ↦
      let asc : IsAscending 0 a = subst (λ q. IsAscending 0 (values q)) p v.ascending in
      ground (arith, hit-mem a 0 lo asc)
]

insert_in_array-fields :
    (e : Chunk) (a : List ℕ) (lo : ℕ)
    → IsAscending 0 a
    → mem lo a ≡ false
    → let r = insert_in_array e a lo in
      (r.payload ≡ array (Sorted.insert lo a))
      × (r.hi ≡ e.hi)
      × (r.cardinality ≡ e.cardinality + 1)
      × (e.cardinality * 2 ≤ e.payload_len → r.cardinality * 2 ≤ r.payload_len)
unfolding insert_in_array grow_array
insert_in_array-fields e a lo asc m = ground (arith, insert_at-lower_bound a 0 lo asc)

store_in_array-Adds :
    (e : Chunk) (a : List ℕ) (lo : ℕ)
    → e.payload ≡ array a
    → lo < 65536
    → IsChunk e
    → mem lo a ≡ false
    → Adds e lo (store_in_array e a lo)
unfolding store_in_array
store_in_array-Adds e a lo p h v m =
    let asc : IsAscending 0 a = subst (λ q. IsAscending 0 (values q)) p v.ascending in
    let low : IsBelow 65536 a = subst (λ q. IsBelow 65536 (values q)) p v.below in
    let asc' = Sorted.insert-IsAscending 0 lo a asc (omega arith) in
    let low' = Sorted.insert-IsBelow 65536 lo a low h in
    let fit : (e.cardinality * 2 ≤ e.payload_len) × (e.cardinality ≤ 4096) =
      subst (λ q. Fits q e.cardinality e.payload_len) p v.fits in
    let fields = insert_in_array-fields e a lo asc m in
    let count : e.cardinality + 1 ≡ length (Sorted.insert lo a) =
      ground (arith, ap values p, Sorted.length-insert 0 lo a asc) in
    ground (arith, fields, to_bitmap-IsChunk (insert_in_array e a lo) (Sorted.insert lo a))

pub add_to_chunk-new :
    (e : Chunk) (lo : ℕ)
    → lo < 65536
    → IsChunk e
    → mem lo (values e.payload) ≡ false
    → (e' : Chunk) × (add_to_chunk e lo ≡ some e') × Adds e lo e'
unfolding add_to_chunk
add_to_chunk-new e lo h v m = elim (Payload-cases e.payload) [
  | inr (w, p) ↦ (
    record e { payload = bitmap (set_bit w lo); cardinality = e.cardinality + 1 },
    ground (arith, mem-collect_small lo w),
    ground (
      arith,
      collect-IsAscending (set_bit w lo),
      collect-IsBelow (set_bit w lo),
      collect-set_bit w lo,
      Sorted.length-insert 0 lo (collect w) (collect-IsAscending w),
    ),
  )
  | inl (a, p) ↦
      let asc : IsAscending 0 a = subst (λ q. IsAscending 0 (values q)) p v.ascending in
      (
        store_in_array e a lo,
        ground (arith, hit-mem a 0 lo asc),
        store_in_array-Adds e a lo p h v (rw p at m),
      )
]

-- What `Remove` makes of the entry.
abbrev pub Removes : Chunk → ℕ → Chunk → Type 0
Removes e lo e' =
    IsChunk e'
    × (e'.hi ≡ e.hi)
    × (e'.cardinality + 1 ≡ e.cardinality)
    × (values e'.payload ≡ Sorted.remove lo (values e.payload))

pub remove_from_chunk-old :
    (e : Chunk) (lo : ℕ)
    → lo < 65536
    → IsChunk e
    → mem lo (values e.payload) ≡ false
    → remove_from_chunk e lo ≡ none
unfolding remove_from_chunk
remove_from_chunk-old e lo h v m = elim (Payload-cases e.payload) [
  | inr (w, p) ↦ ground (arith, mem-collect_small lo w)
  | inl (a, p) ↦
      let asc : IsAscending 0 a = subst (λ q. IsAscending 0 (values q)) p v.ascending in
      ground (arith, hit-mem a 0 lo asc)
]

drop_from_bits-Removes :
    (e : Chunk) (w : Words) (lo : ℕ)
    → e.payload ≡ bitmap w
    → lo < 65536
    → IsChunk e
    → mem lo (collect w) ≡ true
    → Removes e lo (drop_from_bits e w lo)
unfolding drop_from_bits
drop_from_bits-Removes e w lo p h v m =
    let w' = clear_bit w lo in
    let e₁ : Chunk = record e { payload = bitmap w'; cardinality = e.cardinality - 1 } in
    let same = collect-clear_bit w lo h in
    let asc = collect-IsAscending w' in
    let low = collect-IsBelow w' in
    let count : suc (length (collect w')) ≡ e.cardinality =
      ground (arith, same, ap values p, Sorted.length-remove lo (collect w)) in
    let fit : (8192 ≤ e.payload_len) × (2048 ≤ e.cardinality) =
      subst (λ q. Fits q e.cardinality e.payload_len) p v.fits in
    elim (Bool-cases (ltb (e.cardinality - 1) 2048)) [
      | inl small ↦ rw small (ground (arith, to_array-IsChunk e₁ w' refl))
      | inr big ↦ rw big (ground arith)
    ]

pub remove_from_chunk-new :
    (e : Chunk) (lo : ℕ)
    → lo < 65536
    → IsChunk e
    → mem lo (values e.payload) ≡ true
    → (e' : Chunk) × (remove_from_chunk e lo ≡ some e') × Removes e lo e'
unfolding remove_from_chunk
remove_from_chunk-new e lo h v m = elim (Payload-cases e.payload) [
  | inr (w, p) ↦ (
    drop_from_bits e w lo,
    ground (arith, mem-collect_small lo w),
    drop_from_bits-Removes e w lo p h v (rw p at m),
  )
  | inl (a, p) ↦
      let asc : IsAscending 0 a = subst (λ q. IsAscending 0 (values q)) p v.ascending in
      let low : IsBelow 65536 a = subst (λ q. IsBelow 65536 (values q)) p v.below in
      (
        record e {
          payload = array (remove_at (lower_bound a lo) a);
          cardinality = e.cardinality - 1;
        },
        ground (arith, hit-mem a 0 lo asc),
        ground (
          arith,
          remove_at-lower_bound a 0 lo asc,
          Sorted.remove-IsAscending 0 lo a asc,
          Sorted.remove-IsBelow 65536 lo a low,
          Sorted.length-remove lo a,
        ),
      )
]
