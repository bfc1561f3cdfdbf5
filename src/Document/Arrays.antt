-- ===== src/Document/Arrays.antt =====
-- doc.cc: the arrays of fixed-size elements, over the slot of the field. Each operation returns the
-- slot and the blocks that it frees.
pub mod Laws
use yikv.Prelude.{
  ℕ, zero, suc, ◌+◌, ◌-◌, ◌*◌, ◌/◌, ◌%◌, ◌^◌, Bool, true, false, List, [], ◌∷◌, ◌++◌, Option, none,
  some, ltb, leb, ◌==◌, if◌then◌else◌, length, get_elem?, set, take, drop,
}
use yikv.Document.{Block, no_block, chars, elements, strings, Slot, zeros, blocks_of}

abbrev pub array_size : Slot → ℕ
array_size s = s.a % 2 ^ 32

abbrev pub array_capacity : Slot → ℕ
array_capacity s = elim s.b [ no_block ↦ 0 | chars xs ↦ 0 | elements cap xs ↦ cap | strings t ↦ 0 ]

abbrev pub array_data : Slot → List ℕ
array_data s = elim s.b [ no_block ↦ [] | chars xs ↦ [] | elements cap xs ↦ xs | strings t ↦ [] ]

pub array_view : Slot → List ℕ
array_view s = take (array_size s) (array_data s)

pub array_get : ℕ → Slot → Option ℕ
array_get i s = get_elem? (array_data s) i

-- `memcpy` into the elements from `i` on.
abbrev pub write_at : ℕ → List ℕ → List ℕ → List ℕ
write_at i new xs = take i xs ++ (new ++ drop (i + length new) xs)

pub put_capacity : ℕ → ℕ
put_capacity count =
    let slack = count * 12 / 10 in
    let cap = if ltb slack count then count else slack in if cap == 0 then 1 else cap

pub array_put : List ℕ → Slot → Slot × List Block
unfolding put_capacity
array_put new s =
    let count = length new in
    let cap = put_capacity count in
    (record { a = count; b = elements cap (write_at 0 new (zeros cap)) }, blocks_of s.b)

pub append_capacity : ℕ → ℕ
append_capacity count =
    let slack = (count + 1) * 12 / 10 in if leb slack count then count + 1 else slack

pub array_append : ℕ → Slot → Slot × List Block
unfolding append_capacity
array_append val s =
    let count = s.a in
    let cap = array_capacity s in
    let new_cap = append_capacity count in
    let copied = write_at 0 (take count (array_data s)) (zeros new_cap) in
    if ltb count cap
    then (record { a = count + 1; b = elements cap (set (array_data s) count val) }, [])
    else (record { a = count + 1; b = elements new_cap (set copied count val) }, blocks_of s.b)

abbrev pub is_null : Block → Bool
is_null no_block = true
is_null (chars xs) = false
is_null (elements cap xs) = false
is_null (strings t) = false

pub batch_capacity : ℕ → ℕ
batch_capacity need = let slack = need + need / 5 in if ltb slack need then need else slack

pub array_append_batch : List ℕ → Slot → Slot × List Block
unfolding array_put batch_capacity
array_append_batch new s =
    let count = length new in
    let need = s.a + count in
    let cap = array_capacity s in
    let new_cap = batch_capacity need in
    let copied = write_at 0 (take s.a (array_data s)) (zeros new_cap) in
    if count == 0
    then (s, [])
    else if is_null s.b
    then array_put new s
    else if leb need cap
    then (record { a = need; b = elements cap (write_at s.a new (array_data s)) }, [])
    else (record { a = need; b = elements new_cap (write_at s.a new copied) }, blocks_of s.b)
