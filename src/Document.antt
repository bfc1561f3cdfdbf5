-- ===== src/Document.antt =====
-- libs/yikv/index/doc.cc: documents, their slots, the scalars and the strings. A slot owns its
-- block: the arena block at the offset `b` is the value `b`, and `no_block` is the offset 0. The
-- blocks that were given to `Free` are listed. A number stands for its bit pattern, which the
-- `memcpy` between the signed, the floating and the unsigned types keeps.
pub mod Arrays
pub mod Strings
pub mod Laws
mod Tests
use yikv.Prelude.{
  ℕ, zero, suc, ◌+◌, ◌%◌, ◌^◌, List, [], ◌∷◌, ◌++◌, Option, none, some, length, get_elem?, set,
  take,
}

-- The blocks of the three layouts. Those of an array start with their capacity, which is the number
-- of elements in the block.
pub record StringBlock : Type 0 where
  pub cap_count : ℕ
  pub cap_bytes : ℕ
  pub count : ℕ
  pub bytes_used : ℕ
  pub lens : List ℕ
  pub bytes_payload : List ℕ

pub data Block : Type 0 where
  no_block : Block
  chars : List ℕ → Block
  elements : ℕ → List ℕ → Block
  strings : StringBlock → Block

pub record Slot : Type 0 where
  pub a : ℕ
  pub b : Block

pub record Document : Type 0 where
  pub doc_id : ℕ
  pub slots : List Slot
  pub freed : List Block

abbrev pub zeros : ℕ → List ℕ
zeros zero = []
zeros (suc n) = 0 ∷ zeros n

abbrev pub no_slot : Slot
no_slot = record { a = 0; b = no_block }

abbrev no_slots : ℕ → List Slot
no_slots zero = []
no_slots (suc n) = no_slot ∷ no_slots n

-- `Doc::Doc`: the block is cleared.
abbrev pub new_document : ℕ → ℕ → Document
new_document n_slots doc_id = record { doc_id = doc_id; slots = no_slots n_slots; freed = [] }

-- `slot(fid)`, for a field of the document.
abbrev pub slot_or : Option Slot → Slot
slot_or none = no_slot
slot_or (some s) = s

abbrev pub slot : Document → ℕ → Slot
slot d fid = slot_or (get_elem? d.slots fid)

-- What `Free` is called with, where the offset is not 0.
abbrev pub blocks_of : Block → List Block
blocks_of no_block = []
blocks_of (chars xs) = chars xs ∷ []
blocks_of (elements cap xs) = elements cap xs ∷ []
blocks_of (strings s) = strings s ∷ []

-- A slot is replaced, and its block freed.
pub replace_slot : ℕ → Slot → List Block → Document → Document
replace_slot fid s freed d = record d { slots = set d.slots fid s; freed = d.freed ++ freed }

-- An operation on the slot of a field.
pub on_slot : ℕ → (Slot → Slot × List Block) → Document → Document
unfolding replace_slot
on_slot fid operation d = let (s, freed) = operation (slot d fid) in replace_slot fid s freed d

-- The setters and getters of 4 and of 8 bytes.
pub put_32 : ℕ → ℕ → Document → Document
unfolding replace_slot
put_32 fid v d = replace_slot fid (record { a = v % 2 ^ 32; b = no_block }) [] d

pub get_32 : ℕ → Document → ℕ
get_32 fid d = (slot d fid).a % 2 ^ 32

pub put_64 : ℕ → ℕ → Document → Document
unfolding replace_slot
put_64 fid v d = replace_slot fid (record { a = v % 2 ^ 64; b = no_block }) [] d

pub get_64 : ℕ → Document → ℕ
get_64 fid d = (slot d fid).a

abbrev pub chars_of : Block → List ℕ
chars_of no_block = []
chars_of (chars xs) = xs
chars_of (elements cap xs) = []
chars_of (strings s) = []

pub get_string : ℕ → Document → List ℕ
get_string fid d = take (slot d fid).a (chars_of (slot d fid).b)

pub put_string : ℕ → List ℕ → Document → Document
unfolding replace_slot
put_string fid v d =
    replace_slot fid (record { a = length v; b = chars v }) (blocks_of (slot d fid).b) d

-- `Retire`: the blocks that it frees, the root block apart.
pub retire_slots : List Slot → List Block
retire_slots [] = []
retire_slots (s ∷ ss) = blocks_of s.b ++ retire_slots ss

pub retire : Document → Document
unfolding retire_slots
retire d = record d { freed = d.freed ++ retire_slots d.slots }
