-- ===== src/Document/Arrays/Laws.antt =====
-- The operations on an array against those on the list of its elements.
use yikv.Prelude.{
  ℕ, zero, suc, ◌+◌, ◌^◌, ◌≤◌, ◌<◌, ◌≡◌, refl, sym, ap, subst, ◌∙◌, inl, inr, true, false, List, [],
  ◌∷◌, ◌++◌, arith, ltb, leb, ◌==◌, length, get_elem?, set, take, drop, Bool-cases, length-append,
  append-nil, append_assoc, take-append, drop-append, length-drop, drop-drop, get_elem-append,
  set-append,
}
use yikv.Document.{Block, no_block, chars, elements, strings, Slot, zeros}
use yikv.Document.Arrays.{
  array_size, array_capacity, array_data, array_view, array_get, write_at, put_capacity, array_put,
  append_capacity, array_append, is_null, batch_capacity, array_append_batch,
}

pub length-zeros : (n : ℕ) → length (zeros n) ≡ n
length-zeros zero = refl
length-zeros (suc n) = omega (arith, length-zeros n)

-- A write behind the live elements.
pub write_at-append :
    (xs new slack : List ℕ)
    → write_at (length xs) new (xs ++ slack) ≡ xs ++ (new ++ drop (length new) slack)
write_at-append xs new slack =
    rw
      (
        take-append xs slack,
        sym (drop-drop (length xs) (length new) (xs ++ slack)),
        drop-append xs slack,
      )
      refl

-- The slot holds the elements of the list, with room behind them.
pub record Holds (s : Slot) (xs : List ℕ) : Type 0 where
  pub slack : List ℕ
  pub size : s.a ≡ length xs
  pub stored : array_data s ≡ xs ++ slack
  pub capacity : array_capacity s ≡ length xs + length slack

put_capacity-bounds : (n : ℕ) → n ≤ put_capacity n
unfolding put_capacity
put_capacity-bounds n = ground arith

append_capacity-bounds : (n : ℕ) → n < append_capacity n
unfolding append_capacity
append_capacity-bounds n = ground arith

batch_capacity-bounds : (n : ℕ) → n ≤ batch_capacity n
unfolding batch_capacity
batch_capacity-bounds n = ground arith

pub array_put-Holds : (xs : List ℕ) (s : Slot) → Holds (array_put xs s).0 xs
unfolding array_put
array_put-Holds xs s = record {
  slack = drop (length xs) (zeros (put_capacity (length xs)));
  size = refl;
  stored = write_at-append [] xs (zeros (put_capacity (length xs)));
  capacity = omega (
    arith,
    put_capacity-bounds (length xs),
    length-drop (length xs) (zeros (put_capacity (length xs))),
    length-zeros (put_capacity (length xs)),
  );
}

-- A larger block with the elements copied.
copied_lem :
    (s : Slot) (xs : List ℕ) (cap : ℕ)
    → Holds s xs
    → write_at 0 (take s.a (array_data s)) (zeros cap) ≡ xs ++ drop (length xs) (zeros cap)
copied_lem s xs cap h =
    rw (h.stored, h.size, take-append xs h.slack) (write_at-append [] xs (zeros cap))

-- A store right behind the live elements.
set-slack :
    (xs slack : List ℕ) (v : ℕ)
    → 0 < length slack
    → set (xs ++ slack) (length xs) v ≡ (xs ++ (v ∷ [])) ++ drop 1 slack
set-slack xs [] v h = absurd (omega arith)
set-slack xs (y ∷ ys) v h = set-append xs ys y v ∙ sym (append_assoc xs (v ∷ []) ys)

pub array_append-Holds :
    (v : ℕ) (s : Slot) (xs : List ℕ) → Holds s xs → Holds (array_append v s).0 (xs ++ (v ∷ []))
unfolding array_append
array_append-Holds v s xs h =
    let long = length-append xs (v ∷ []) in
    let cap = append_capacity s.a in
    elim (Bool-cases (ltb s.a (array_capacity s))) [
      | inl room ↦
          let free : 0 < length h.slack = ground (arith, room, h.size, h.capacity) in
          rw room (record {
            slack = drop 1 h.slack;
            size = omega (arith, long, h.size);
            stored = rw (h.stored, h.size) (set-slack xs h.slack v free);
            capacity = omega (arith, long, h.capacity, length-drop 1 h.slack, free);
          })
      | inr full ↦
          let grown = append_capacity-bounds s.a in
          let behind = length-drop (length xs) (zeros cap) in
          let all = length-zeros cap in
          let free : 0 < length (drop (length xs) (zeros cap)) = omega (arith, h.size) in
          rw full (record {
            slack = drop 1 (drop (length xs) (zeros cap));
            size = omega (arith, long, h.size);
            stored =
                ap (λ c. set c s.a v) (copied_lem s xs cap h)
                ∙ (ap (λ n. set (xs ++ drop (length xs) (zeros cap)) n v) h.size
                    ∙ set-slack xs (drop (length xs) (zeros cap)) v free);
            capacity = omega (arith, long, h.size, length-drop 1 (drop (length xs) (zeros cap)));
          })
    ]

-- A write of several elements right behind the live ones.
write_at-slack :
    (xs new slack : List ℕ)
    → write_at (length xs) new (xs ++ slack) ≡ (xs ++ new) ++ drop (length new) slack
write_at-slack xs new slack =
    write_at-append xs new slack ∙ sym (append_assoc xs new (drop (length new) slack))

-- The block as it is, when the batch fits.
in_place-Holds :
    (new : List ℕ) (s : Slot) (xs : List ℕ) (h : Holds s xs)
    → leb (s.a + length new) (array_capacity s) ≡ true
    → Holds
        (record {
          a = s.a + length new;
          b = elements (array_capacity s) (write_at s.a new (array_data s));
        })
        (xs ++ new)
in_place-Holds new s xs h room = record {
  slack = drop (length new) h.slack;
  size = omega (arith, length-append xs new, h.size);
  stored = rw (h.stored, h.size) (write_at-slack xs new h.slack);
  capacity =
      let fit : length new ≤ length h.slack = ground (arith, room, h.size, h.capacity) in
      omega (arith, length-append xs new, h.capacity, length-drop (length new) h.slack, fit);
}

in_copy-Holds :
    (new : List ℕ) (s : Slot) (xs : List ℕ)
    → Holds s xs
    → Holds
        (record {
          a = s.a + length new;
          b = elements (batch_capacity (s.a + length new)) (
              write_at s.a new
                (write_at 0 (take s.a (array_data s)) (zeros (batch_capacity (s.a + length new)))));
        })
        (xs ++ new)
in_copy-Holds new s xs h =
    let cap = batch_capacity (s.a + length new) in
    let slack = drop (length xs) (zeros cap) in
    record {
      slack = drop (length new) slack;
      size = omega (arith, length-append xs new, h.size);
      stored =
          ap (λ c. write_at s.a new c) (copied_lem s xs cap h)
          ∙ (ap (λ n. write_at n new (xs ++ slack)) h.size ∙ write_at-slack xs new slack);
      capacity = omega (
        arith,
        length-append xs new,
        h.size,
        batch_capacity-bounds (s.a + length new),
        length-drop (length new) slack,
        length-drop (length xs) (zeros cap),
        length-zeros cap,
      );
    }

pub array_append_batch-Holds :
    (new : List ℕ) (s : Slot) (xs : List ℕ)
    → Holds s xs
    → Holds (array_append_batch new s).0 (xs ++ new)
unfolding array_append_batch
array_append_batch-Holds [] s xs h = rw (append-nil xs) h
array_append_batch-Holds (y ∷ ys) s xs h = elim (Bool-cases (is_null s.b)) [
  | inl null ↦
      rw (some_new (length ys), null)
        (subst (λ zs. Holds (array_put (y ∷ ys) s).0 (zs ++ (y ∷ ys)))
          (sym (nothing xs h.slack (sym h.stored ∙ null-data s.b null)))
          (array_put-Holds (y ∷ ys) s))
  | inr block ↦ elim (Bool-cases (leb (s.a + length (y ∷ ys)) (array_capacity s))) [
    | inl room ↦ rw (some_new (length ys), block, room) (in_place-Holds (y ∷ ys) s xs h room)
    | inr full ↦ rw (some_new (length ys), block, full) (in_copy-Holds (y ∷ ys) s xs h)
  ]
]
  where
    some_new : (n : ℕ) → (suc n == 0) ≡ false
    some_new n = ground arith

    null-data : (b : Block) → is_null b ≡ true → array_data (record { a = s.a; b = b }) ≡ []
    null-data no_block e = refl
    null-data (chars zs) e = refl
    null-data (elements cap zs) e = cc
    null-data (strings t) e = refl

    nothing : (xs zs : List ℕ) → xs ++ zs ≡ [] → xs ≡ []
    nothing [] zs e = refl
    nothing (x ∷ xs) zs e = cc

-- What the readers see.
pub array_view-Holds :
    (s : Slot) (xs : List ℕ) → Holds s xs → length xs < 2 ^ 32 → array_view s ≡ xs
unfolding array_view
array_view-Holds s xs h l =
    let size : array_size s ≡ length xs = omega (arith, h.size) in
    rw (size, h.stored) (take-append xs h.slack)

pub array_get-Holds :
    (i : ℕ) (s : Slot) (xs : List ℕ) → Holds s xs → i < length xs → array_get i s ≡ get_elem? xs i
unfolding array_get
array_get-Holds i s xs h l = rw h.stored (get_elem-append xs h.slack i l)

-- If a slot holds a list of elements, and the list with the new elements has a 32-bit count,
-- then after the batch append, in place, in a larger block or into an empty slot, the slot
-- holds that list, the view returns it, and array_get returns each of its elements.
pub append_batch-view :
    (new : List ℕ) (s : Slot) (xs : List ℕ)
    → Holds s xs
    → length (xs ++ new) < 2 ^ 32
    → Holds (array_append_batch new s).0 (xs ++ new)
      × (array_view (array_append_batch new s).0 ≡ xs ++ new)
      × ((i : ℕ)
          → i < length (xs ++ new)
          → array_get i (array_append_batch new s).0 ≡ get_elem? (xs ++ new) i)
append_batch-view new s xs h small =
    let r = (array_append_batch new s).0 in
    let held = array_append_batch-Holds new s xs h in
    (held, array_view-Holds r (xs ++ new) held small, λ i l. array_get-Holds i r (xs ++ new) held l)
