-- ===== src/Document/Strings/Laws.antt =====
-- The operations on a string array against those on the list of its strings.
use yikv.Prelude.{
  ℕ, zero, suc, ◌%◌, ◌^◌, ◌<◌, ◌≡◌, ◌≢◌, refl, inl, inr, false, List, [], ◌∷◌, ◌++◌, some, arith,
  leb, ◌==◌, length, get_elem?, Bool-cases, append-nil,
}
use yikv.Document.{no_block, strings, StringBlock, Slot, zeros}
use yikv.Document.Arrays.{array_size}
use yikv.Document.Arrays.Laws.{length-zeros}
use yikv.Document.Strings.{
  grow_cap32, total_bytes, array_put_string, array_view_string, array_get_string, fits,
  array_append_strings,
}
use yikv.Document.Strings.Blocks.{
  BlockHolds, IsSmall, grow_cap32-bounds, views-joined, string_at-joined, written-BlockHolds,
  append_in_place-BlockHolds, append_in_copy-BlockHolds,
}

-- A slot holds no string, or a block that holds the strings.
pub data HoldsStrings (s : Slot) (ps : List (List ℕ)) : Type 0 where
  nothing : s.a ≡ 0 → s.b ≡ no_block → ps ≡ [] → HoldsStrings s ps
  in_block :
      (t : StringBlock) → s.a ≡ length ps → s.b ≡ strings t → BlockHolds t ps → HoldsStrings s ps

pub array_put_string-HoldsStrings :
    (ps : List (List ℕ)) (s : Slot) → IsSmall ps → HoldsStrings (array_put_string ps s).0 ps
unfolding array_put_string
array_put_string-HoldsStrings [] s m = nothing refl refl refl
array_put_string-HoldsStrings (p ∷ ps) s m =
    let qs = p ∷ ps in
    let total : total_bytes qs % 2 ^ 32 ≡ total_bytes qs = omega (arith, m.short) in
    let room = grow_cap32-bounds (length qs) m.few in
    let room_bytes = grow_cap32-bounds (total_bytes qs) m.short in
    rw (some_part (length ps)) (
      in_block _ refl refl (
        written-BlockHolds _ [] qs (zeros (grow_cap32 (length qs)))
          (zeros (grow_cap32 (total_bytes qs % 2 ^ 32))) (zeros (grow_cap32 (length qs)))
          (zeros (grow_cap32 (total_bytes qs % 2 ^ 32))) refl refl refl total refl refl
          (omega (arith, length-zeros (grow_cap32 (length qs))))
          (omega (arith, length-zeros (grow_cap32 (total_bytes qs % 2 ^ 32)))) room.0
          (rw total room_bytes.0)))
  where
    some_part : (n : ℕ) → (suc n == 0) ≡ false
    some_part n = ground arith

pub array_append_strings-HoldsStrings :
    (qs : List (List ℕ)) (s : Slot) (ps : List (List ℕ))
    → HoldsStrings s ps
    → IsSmall (ps ++ qs)
    → HoldsStrings (array_append_strings qs s).0 (ps ++ qs)
unfolding array_append_strings
array_append_strings-HoldsStrings [] s ps h m = rw (append-nil ps) h
array_append_strings-HoldsStrings (q ∷ qs) s ps (nothing a b e) m =
    rw (some_part (length qs), b, e) (array_put_string-HoldsStrings (q ∷ qs) s (rw e at m))
  where
    some_part : (n : ℕ) → (suc n == 0) ≡ false
    some_part n = ground arith
array_append_strings-HoldsStrings (q ∷ qs) s ps (in_block t a b h) m =
    elim (Bool-cases (fits (q ∷ qs) t)) [
      | inl room ↦
          let placed = append_in_place-BlockHolds t ps (q ∷ qs) h m room in
          rw (some_part (length qs), b, room) (in_block _ placed.count refl placed)
      | inr full ↦
          let copy = append_in_copy-BlockHolds t ps (q ∷ qs) h m in
          rw (some_part (length qs), b, full) (in_block _ copy.count refl copy)
    ]
  where
    some_part : (n : ℕ) → (suc n == 0) ≡ false
    some_part n = ground arith

pub array_view_string-HoldsStrings :
    (s : Slot) (ps : List (List ℕ)) → HoldsStrings s ps → IsSmall ps → array_view_string s ≡ ps
unfolding array_view_string
array_view_string-HoldsStrings s ps (nothing a b e) m = rw (b, e) refl
array_view_string-HoldsStrings s [] (in_block t a b h) m = rw (b, a) refl
array_view_string-HoldsStrings s (p ∷ ps) (in_block t a b h) m =
    let size : (array_size s == 0) ≡ false = ground (arith, a, m.few) in
    rw (b, size, h.count, h.lens, h.bytes_payload)
      (views-joined (p ∷ ps) h.slack h.slack_bytes m.short)

pub array_get_string-HoldsStrings :
    (i : ℕ) (s : Slot) (ps : List (List ℕ)) (p : List ℕ)
    → HoldsStrings s ps
    → IsSmall ps
    → get_elem? ps i ≡ some p
    → array_get_string i s ≡ p
unfolding array_get_string
array_get_string-HoldsStrings i s ps p (nothing a b e) m g = absurd (no_element i (rw e at g))
  where
    no_element : (i : ℕ) → get_elem? [] i ≢ some p
    no_element i e = cc
array_get_string-HoldsStrings i s ps p (in_block t a b h) m g =
    let there = get_elem-bounds i ps p g in
    let size : leb (array_size s) i ≡ false = ground (arith, a, m.few, there) in
    let count : leb t.count i ≡ false = ground (arith, h.count, there) in
    rw (b, size, count, h.lens, h.bytes_payload)
      (string_at-joined i ps p h.slack h.slack_bytes m.short g)
  where
    get_elem-bounds :
        (i : ℕ) (ps : List (List ℕ)) (p : List ℕ) → get_elem? ps i ≡ some p → i < length ps
    get_elem-bounds i [] p g = cc
    get_elem-bounds zero (q ∷ ps) p g = omega arith
    get_elem-bounds (suc i) (q ∷ ps) p g = omega (arith, get_elem-bounds i ps p g)

-- If a slot holds a list of strings, and the list with the new strings has a 32-bit count and
-- total size, then after array_append_strings, in place or in a larger block, the slot holds
-- that list, array_view_string returns it, and array_get_string returns each of its elements.
pub append_strings-view :
    (qs : List (List ℕ)) (s : Slot) (ps : List (List ℕ))
    → HoldsStrings s ps
    → IsSmall (ps ++ qs)
    → HoldsStrings (array_append_strings qs s).0 (ps ++ qs)
      × (array_view_string (array_append_strings qs s).0 ≡ ps ++ qs)
      × ((i : ℕ) (p : List ℕ)
          → get_elem? (ps ++ qs) i ≡ some p
          → array_get_string i (array_append_strings qs s).0 ≡ p)
append_strings-view qs s ps h m =
    let r = (array_append_strings qs s).0 in
    let held = array_append_strings-HoldsStrings qs s ps h m in
    (
      held,
      array_view_string-HoldsStrings r (ps ++ qs) held m,
      λ i p g. array_get_string-HoldsStrings i r (ps ++ qs) p held m g,
    )
