-- ===== src/Document/Strings.antt =====
-- doc.cc: the string arrays, over the slot of the field. Each operation returns the slot and the
-- blocks that it frees.
pub mod Blocks
pub mod Laws
use yikv.Prelude.{
  ℕ, zero, suc, ◌+◌, ◌-◌, ◌*◌, ◌/◌, ◌%◌, ◌^◌, Bool, true, false, ◌&&◌, List, [], ◌∷◌, ◌++◌, map,
  Option, none, some, ltb, leb, ◌==◌, if◌then◌else◌, length, get_elem?, take, drop,
}
use yikv.Document.{
  Block, no_block, chars, elements, strings, StringBlock, Slot, zeros, no_slot, blocks_of,
}
use yikv.Document.Arrays.{array_size, write_at, is_null}

-- `GrowCap32`
pub grow_cap32 : ℕ → ℕ
grow_cap32 need =
    let slack = need + need / 5 in
    let grown = if ltb slack need then need else slack in
    let some_room = if grown == 0 then 1 else grown in
    if ltb 4294967295 some_room then 4294967295 else some_room

abbrev pub total_bytes : List (List ℕ) → ℕ
total_bytes [] = 0
total_bytes (p ∷ ps) = length p + total_bytes ps

-- The lengths and the bytes of the parts, as the loop writes them.
abbrev pub lengths : List (List ℕ) → List ℕ
lengths [] = []
lengths (p ∷ ps) = length p % 2 ^ 32 ∷ lengths ps

abbrev pub joined : List (List ℕ) → List ℕ
joined [] = []
joined (p ∷ ps) = p ++ joined ps

pub array_put_string : List (List ℕ) → Slot → Slot × List Block
unfolding grow_cap32
array_put_string parts s =
    let count = length parts in
    let total = total_bytes parts % 2 ^ 32 in
    let cap_count = grow_cap32 count in
    let cap_bytes = grow_cap32 total in
    let block : StringBlock = record {
      cap_count = cap_count;
      cap_bytes = cap_bytes;
      count = count;
      bytes_used = total;
      lens = write_at 0 (lengths parts) (zeros cap_count);
      bytes_payload = write_at 0 (joined parts) (zeros cap_bytes);
    } in
    if count == 0
    then (no_slot, blocks_of s.b)
    else (record { a = count; b = strings block }, blocks_of s.b)

-- The views over the strings, in order.
pub views : ℕ → List ℕ → List ℕ → List (List ℕ)
views zero lens payload = []
views (suc n) [] payload = []
views (suc n) (l ∷ lens) payload = take l payload ∷ views n lens (drop l payload)

pub array_view_string : Slot → List (List ℕ)
unfolding views
array_view_string s = elim s.b [
  | no_block ↦ []
  | chars xs ↦ []
  | elements cap xs ↦ []
  | strings t ↦ if array_size s == 0 then [] else views t.count t.lens t.bytes_payload
]

-- The loop over the lengths before the string, and the string.
pub string_at : ℕ → List ℕ → List ℕ → List ℕ
string_at i [] payload = []
string_at zero (l ∷ lens) payload = take l payload
string_at (suc i) (l ∷ lens) payload = string_at i lens (drop l payload)

pub array_get_string : ℕ → Slot → List ℕ
unfolding string_at
array_get_string i s = elim s.b [
  | no_block ↦ []
  | chars xs ↦ []
  | elements cap xs ↦ []
  | strings t ↦
      if leb (array_size s) i
      then []
      else if leb t.count i
      then []
      else string_at i t.lens t.bytes_payload
]

-- The append to a block: in place, or in a larger block.
pub append_in_place : List (List ℕ) → StringBlock → StringBlock
append_in_place parts t = record t {
  count = (t.count + length parts) % 2 ^ 32;
  bytes_used = (t.bytes_used + total_bytes parts) % 2 ^ 32;
  lens = write_at t.count (lengths parts) t.lens;
  bytes_payload = write_at t.bytes_used (joined parts) t.bytes_payload;
}

pub append_in_copy : List (List ℕ) → StringBlock → StringBlock
append_in_copy parts t =
    let need_count = (t.count + length parts) % 2 ^ 32 in
    let need_bytes = (t.bytes_used + total_bytes parts) % 2 ^ 32 in
    let cap_count = if ltb t.cap_count need_count then grow_cap32 need_count else t.cap_count in
    let cap_bytes = if ltb t.cap_bytes need_bytes then grow_cap32 need_bytes else t.cap_bytes in
    let lens = write_at 0 (take t.count t.lens) (zeros cap_count) in
    let payload = write_at 0 (take t.bytes_used t.bytes_payload) (zeros cap_bytes) in
    record {
      cap_count = cap_count;
      cap_bytes = cap_bytes;
      count = need_count;
      bytes_used = need_bytes;
      lens = write_at t.count (lengths parts) lens;
      bytes_payload = write_at t.bytes_used (joined parts) payload;
    }

abbrev pub fits : List (List ℕ) → StringBlock → Bool
fits parts t =
    leb (t.count + length parts) t.cap_count && leb (t.bytes_used + total_bytes parts) t.cap_bytes

pub array_append_strings : List (List ℕ) → Slot → Slot × List Block
unfolding array_put_string append_in_place append_in_copy
array_append_strings parts s =
    let count = length parts in
    if count == 0 then (s, []) else elim s.b [
      | no_block ↦ array_put_string parts s
      | chars xs ↦ (s, [])
      | elements cap xs ↦ (s, [])
      | strings t ↦
          let placed = append_in_place parts t in
          let copy = append_in_copy parts t in
          if fits parts t
          then (record { a = placed.count; b = strings placed }, [])
          else (record { a = copy.count; b = strings copy }, strings t ∷ [])
    ]
