-- ===== src/Bitmap/Point/Laws.antt =====
-- The point operations against the set of values.
use yikv.Prelude.{
  ℕ, ◌+◌, ◌-◌, ◌/◌, ◌%◌, ◌^◌, ◌≤◌, ◌<◌, ◌≡◌, sym, ◌∙◌, inl, inr, true, false, not, ◌&&◌, ◌||◌, List,
  [], ◌∷◌, some, arith, ◌==◌, if◌then◌else◌, length, Bool-cases, Option-cases, ap, get_elem?,
}
use yikv.Sorted
use yikv.Sorted.{mem, mem-length, length-eq-zero}
use yikv.Bitmap.{Bitmap, Chunk}
use yikv.Bitmap.Each.{values, view, has, total, IsChunk, IsValid}
use yikv.Bitmap.Index.{get_or_create}
use yikv.Bitmap.Index.Search.{
  place, entry, chunk_pos_lem, view-entry, find_chunk-entry, guard-none, guard-some, entry-place,
}
use yikv.Bitmap.Index.Entries.{entry-IsChunk, entry-nonempty, IsFull-but}
use yikv.Bitmap.Index.Laws.{Located, get_or_create-Located, store_lem, erase_lem}
use yikv.Bitmap.Point.{contains, add_at, add, remove_from_chunk, remove_at_pos, remove}
use yikv.Bitmap.Point.Chunks.{
  chunk_contains-mem, add_to_chunk-old, add_to_chunk-new, Removes, remove_from_chunk-old,
  remove_from_chunk-new,
}

-- On a valid bitmap, the two binary searches and the bit test of Contains decide membership in
-- the set that the bitmap stands for.
pub contains-has : (b : Bitmap) (value : ℕ) → IsValid b → contains b value ≡ has b value
unfolding contains
contains-has b value v =
    let hi = value / 65536 in
    let lo = value % 65536 in
    let find = find_chunk-entry b.chunks 0 hi v.index in
    elim (Option-cases (entry b.chunks hi)) [
      | inl f ↦ rw (find, contains, f) (ground (arith, view-entry b.chunks hi))
      | inr (e, f) ↦
          rw (find, contains, f)
            (ground (
              arith,
              view-entry b.chunks hi,
              chunk_contains-mem e lo (omega arith) (entry-IsChunk b.chunks 0 hi e v.index f).0,
            ))
    ]

-- One list changed in a family of lists of low halves, under the key of a value.
module _ (f g : ℕ → List ℕ) (value w : ℕ) (xs : List ℕ) where
  under_key : w / 65536 ≡ value / 65536 → f (w / 65536) ≡ f (value / 65536)
  under_key e = ap f e

  members_insert :
      ((h : ℕ) → g h ≡ (if h == value / 65536 then xs else f h))
      → xs ≡ Sorted.insert (value % 65536) (f (value / 65536))
      → mem (w % 65536) (g (w / 65536)) ≡ (w == value || mem (w % 65536) (f (w / 65536)))
  members_insert s e = ground (
    arith,
    s (w / 65536),
    Sorted.mem-insert (w % 65536) (value % 65536) (f (value / 65536)),
    under_key,
  )

  members_remove :
      ((h : ℕ) → g h ≡ (if h == value / 65536 then xs else f h))
      → Sorted.IsAscending 0 (f (value / 65536))
      → xs ≡ Sorted.remove (value % 65536) (f (value / 65536))
      → mem (w % 65536) (g (w / 65536)) ≡ (not (w == value) && mem (w % 65536) (f (w / 65536)))
  members_remove s v e = ground (
    arith,
    s (w / 65536),
    Sorted.mem-remove 0 (w % 65536) (value % 65536) (f (value / 65536)) v,
    under_key,
  )

-- Adding a value adds it to the set and nothing else, counts it if it is new, and keeps the
-- invariant.
pub record Added (b : Bitmap) (value : ℕ) (r : Bitmap) : Type 0 where
  pub valid : IsValid r
  pub members : (w : ℕ) → has r w ≡ (w == value || has b w)
  pub counted : r.cardinality ≡ (if has b value then b.cardinality else b.cardinality + 1)

module _ (b : Bitmap) (value : ℕ) (te : Chunk) (v : IsValid b)
    (t : Located b
      (value / 65536)
      (get_or_create (value / 65536) b).0
      (get_or_create (value / 65536) b).1
      te) where
  -- A value that is there: the early return, with at most a larger index.
  add-Added_old : mem (value % 65536) (values te.payload) ≡ true → Added b value (add b value)
  unfolding add
  add-Added_old old =
      let filled : 0 < te.cardinality =
        omega (arith, t.valid.counted, mem-length (value % 65536) (values te.payload) old) in
      let same = t.kept filled in
      let there : has b value ≡ true = rw t.holds at old in
      rw (t.found, add_at, add_to_chunk-old te (value % 65536) (omega arith) t.valid old)
        (record {
          valid = record { sound = t.sound; full = rw same v.full };
          members = λ w. rw same (add_member w there);
          counted = rw there t.cardinality;
        })
    where
      add_member : (w : ℕ) → has b value ≡ true → has b w ≡ (w == value || has b w)
      add_member w there = ground (arith, λ (e : w ≡ value). ap (has b) e)

  add-Added_new : mem (value % 65536) (values te.payload) ≡ false → Added b value (add b value)
  unfolding add
  add-Added_new new =
      let (e', run, a) = add_to_chunk-new te (value % 65536) (omega arith) t.valid new in
      let s =
        t.stores e' ((get_or_create (value / 65536) b).0.cardinality + 1) (a.1 ∙ t.key) a.0
          (omega arith) (IsFull-but (value / 65536) b.chunks v.full)
          (omega (arith, t.cardinality, a.2)) in
      let absent : has b value ≡ false = rw t.holds at new in
      rw (t.found, add_at, run)
        (record {
          valid = s.0;
          members = λ w.
              members_insert (view b.chunks) _ value w (values e'.payload) s.1 (rw t.holds at a.3);
          counted = rw absent (omega (arith, t.cardinality));
        })

-- On a valid bitmap, Add of a 32-bit value gives a valid bitmap with that value as its one new
-- member, and counts it exactly if it was not a member.
pub add-Added : (b : Bitmap) (value : ℕ) → value < 2 ^ 32 → IsValid b → Added b value (add b value)
add-Added b value small v =
    let (te, t) = get_or_create-Located b (value / 65536) (omega arith) v.sound in
    elim (Bool-cases (mem (value % 65536) (values te.payload))) [
      | inl old ↦ add-Added_old b value te v t old
      | inr new ↦ add-Added_new b value te v t new
    ]

-- Removing a value removes it from the set and nothing else, counts it if it was there, and keeps
-- the invariant.
pub record Removed (b : Bitmap) (value : ℕ) (r : Bitmap) : Type 0 where
  pub valid : IsValid r
  pub members : (w : ℕ) → has r w ≡ (not (w == value) && has b w)
  pub counted : r.cardinality ≡ (if has b value then b.cardinality - 1 else b.cardinality)

unchanged : (b : Bitmap) (value : ℕ) → IsValid b → has b value ≡ false → Removed b value b
unchanged b value v absent = record { valid = v; members = λ w. drop_absent w; counted = rw absent }
  where
    drop_absent : (w : ℕ) → has b w ≡ (not (w == value) && has b w)
    drop_absent w = ground (arith, λ (e : w ≡ value). ap (has b) e)

module _ (b : Bitmap) (value : ℕ) (v : IsValid b) (te : Chunk)
    (f : entry b.chunks (value / 65536) ≡ some te) where
  at_te :
      (view b.chunks (value / 65536) ≡ values te.payload)
      × IsChunk te
      × (te.hi ≡ value / 65536)
      × (0 < te.cardinality)
      × (te.cardinality ≤ total b.chunks)
  at_te =
      let c = entry-IsChunk b.chunks 0 (value / 65536) te v.index f in
      (
        ground (arith, view-entry b.chunks (value / 65536)),
        c.0,
        c.1,
        entry-nonempty b.chunks (value / 65536) te v.full f,
        c.2,
      )

  nonempty : (length b.chunks == 0) ≡ false
  nonempty = filled b.chunks f
    where
      filled : (cs : List Chunk) → entry cs (value / 65536) ≡ some te → (length cs == 0) ≡ false
      filled [] g = cc
      filled (c ∷ cs) g = ground arith

  reached : get_elem? b.chunks (place b.chunks (value / 65536)) ≡ some te
  reached = ground (
    arith,
    entry-place b.chunks 0 (value / 65536) v.index,
    guard-some b.chunks 0 (value / 65536) te v.index f,
  )

  -- The value leaves its entry, which stays or goes.
  remove_at_pos-Removed :
      (e' : Chunk)
      → remove_from_chunk te (value % 65536) ≡ some e'
      → Removes te (value % 65536) e'
      → mem (value % 65536) (values te.payload) ≡ true
      → Removed b value (remove_at_pos b (place b.chunks (value / 65536)) (value % 65536))
  unfolding remove_at_pos
  remove_at_pos-Removed e' run a old =
      let there : has b value ≡ true = rw (← at_te.0) at old in
      let count : b.cardinality - 1 + te.cardinality ≡ b.cardinality + e'.cardinality =
        omega (arith, a.2, at_te.4, v.counted, at_te.3) in
      elim (Bool-cases (e'.cardinality == 0)) [
        | inl gone ↦
            let zero_left : e'.cardinality ≡ 0 = ground arith in
            let s = erase_lem b (value / 65536) te v f e' (b.cardinality - 1) (omega arith) in
            rw (reached, remove_at_pos, run, gone)
              (record {
                valid = s.0;
                members = λ w.
                    members_remove (view b.chunks) _ value w [] s.1 (rw at_te.0 at_te.1.ascending) (
                      sym (length-eq-zero (values e'.payload) (sym a.0.counted ∙ zero_left))
                      ∙ rw at_te.0 a.3);
                counted = rw there;
              })
        | inr more ↦
            let s =
              store_lem b (value / 65536) te v f e' (b.cardinality - 1) (a.1 ∙ at_te.2) a.0
                (ground arith) count in
            rw (reached, remove_at_pos, run, more)
              (record {
                valid = s.0;
                members = λ w.
                    members_remove (view b.chunks) _ value w (values e'.payload) s.1
                      (rw at_te.0 at_te.1.ascending) (rw at_te.0 a.3);
                counted = rw there;
              })
      ]

  remove-Removed_there : Removed b value (remove b value)
  unfolding remove
  remove-Removed_there =
      let lo = value % 65536 in
      let search = chunk_pos_lem b.chunks 0 (value / 65536) v.index in
      rw (search, nonempty, guard-some b.chunks 0 (value / 65536) te v.index f)
        (elim (Bool-cases (mem lo (values te.payload))) [
          | inl old ↦
              let (e', run, a) = remove_from_chunk-new te lo (omega arith) at_te.1 old in
              remove_at_pos-Removed e' run a old
          | inr new ↦
              rw (reached, remove_at_pos, remove_from_chunk-old te lo (omega arith) at_te.1 new)
                (unchanged b value v (rw (← at_te.0) at new))
        ])

-- On a valid bitmap, Remove of a value gives a valid bitmap without that value and with all
-- other members, and takes one off the count exactly if it was a member.
pub remove-Removed : (b : Bitmap) (value : ℕ) → IsValid b → Removed b value (remove b value)
unfolding remove
remove-Removed b value v = elim (Option-cases (entry b.chunks (value / 65536))) [
  | inr (te, f) ↦ remove-Removed_there b value v te f
  | inl f ↦
      let absent : has b value ≡ false = ground (arith, view-entry b.chunks (value / 65536)) in
      let same = unchanged b value v absent in
      let search = chunk_pos_lem b.chunks 0 (value / 65536) v.index in
      elim (Bool-cases (length b.chunks == 0)) [
        | inl none_left ↦ rw (search, none_left) same
        | inr some_left ↦
            rw (search, some_left, guard-none b.chunks 0 (value / 65536) v.index f) same
      ]
]
