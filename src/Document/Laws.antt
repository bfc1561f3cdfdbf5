-- ===== src/Document/Laws.antt =====
-- The fields of a document against each other, and the blocks that are neither owned nor freed.
use yikv.Prelude.{
  ℕ, zero, suc, ◌+◌, ◌<◌, ◌≡◌, ◌≢◌, refl, sym, ap, ◌∙◌, List, [], ◌∷◌, ◌++◌, some, arith, length,
  get_elem?, set, take, length-append, append-nil, take-append,
}
use yikv.Document.{
  Block, chars, Slot, Document, slot_or, slot, blocks_of, replace_slot, chars_of, get_string,
  put_string, retire_slots,
}

get_elem-set :
    (ss : List Slot) (i : ℕ) (s : Slot) → i < length ss → get_elem? (set ss i s) i ≡ some s
get_elem-set [] i s h = absurd (omega arith)
get_elem-set (x ∷ ss) zero s h = refl
get_elem-set (x ∷ ss) (suc i) s h = get_elem-set ss i s (omega arith)

get_elem-set_other :
    (ss : List Slot) (i j : ℕ) (s : Slot) → j ≢ i → get_elem? (set ss i s) j ≡ get_elem? ss j
get_elem-set_other [] i j s d = refl
get_elem-set_other (x ∷ ss) zero zero s d = absurd (d refl)
get_elem-set_other (x ∷ ss) zero (suc j) s d = refl
get_elem-set_other (x ∷ ss) (suc i) zero s d = refl
get_elem-set_other (x ∷ ss) (suc i) (suc j) s d = get_elem-set_other ss i j s (λ e. d (ap suc e))

pub slot-replace :
    (d : Document) (fid : ℕ) (s : Slot) (freed : List Block)
    → fid < length d.slots
    → slot (replace_slot fid s freed d) fid ≡ s
unfolding replace_slot
slot-replace d fid s freed h = ap slot_or (get_elem-set d.slots fid s h)

pub slot-replace_other :
    (d : Document) (fid j : ℕ) (s : Slot) (freed : List Block)
    → j ≢ fid
    → slot (replace_slot fid s freed d) j ≡ slot d j
unfolding replace_slot
slot-replace_other d fid j s freed h = ap slot_or (get_elem-set_other d.slots fid j s h)

-- The blocks that the document accounts for: those of its slots and those it freed.
abbrev pub accounted : Document → ℕ
accounted d = length (retire_slots d.slots) + length d.freed

retire_slots-set :
    (ss : List Slot) (i : ℕ) (s : Slot)
    → i < length ss
    → length (retire_slots (set ss i s)) + length (blocks_of (slot_or (get_elem? ss i)).b)
      ≡ length (retire_slots ss) + length (blocks_of s.b)
unfolding retire_slots
retire_slots-set [] i s h = absurd (omega arith)
retire_slots-set (x ∷ ss) zero s h = omega (
  arith,
  length-append (blocks_of s.b) (retire_slots ss),
  length-append (blocks_of x.b) (retire_slots ss),
)
retire_slots-set (x ∷ ss) (suc i) s h = omega (
  arith,
  length-append (blocks_of x.b) (retire_slots (set ss i s)),
  length-append (blocks_of x.b) (retire_slots ss),
  retire_slots-set ss i s (omega arith),
)

pub accounted-replace :
    (d : Document) (fid : ℕ) (s : Slot) (freed : List Block)
    → fid < length d.slots
    → accounted (replace_slot fid s freed d) + length (blocks_of (slot d fid).b)
      ≡ accounted d + length (blocks_of s.b) + length freed
unfolding replace_slot
accounted-replace d fid s freed h =
    omega (arith, retire_slots-set d.slots fid s h, length-append d.freed freed)

-- What `put_string` does to a document.
pub record StringPut (fid : ℕ) (v : List ℕ) (d r : Document) : Type 0 where
  pub read : get_string fid r ≡ v
  pub others : (j : ℕ) → j ≢ fid → slot r j ≡ slot d j
  pub freed : r.freed ≡ d.freed ++ blocks_of (slot d fid).b
  pub kept : accounted r ≡ accounted d + 1

-- For a field of the document, put_string makes get_string return the text, changes no other
-- slot, frees exactly the block that the slot had, and the document accounts for one block more
-- than before.
pub put_string-StringPut :
    (fid : ℕ) (v : List ℕ) (d : Document)
    → fid < length d.slots
    → StringPut fid v d (put_string fid v d)
unfolding put_string get_string replace_slot
put_string-StringPut fid v d h =
    let s : Slot = record { a = length v; b = chars v } in
    let old = blocks_of (slot d fid).b in
    record {
      read =
          ap (λ t. take t.a (chars_of t.b)) (slot-replace d fid s old h)
          ∙ (ap (take (length v)) (sym (append-nil v)) ∙ take-append v []);
      others = λ j e. slot-replace_other d fid j s old e;
      freed = refl;
      kept = omega (arith, accounted-replace d fid s old h);
    }
