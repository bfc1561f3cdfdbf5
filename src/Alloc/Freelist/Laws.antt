-- ===== src/Alloc/Freelist/Laws.antt =====
-- No block is in two places: it is handed out, or on one of the lists, once.
use yikv.Prelude.{
  ℕ, ◌+◌, ◌/◌, ◌<◌, ◌≡◌, refl, sym, ap, subst, ◌∙◌, inl, inr, true, false, ◌||◌, List, [], ◌∷◌,
  Option, none, some, arith, ltb, ◌==◌, if◌then◌else◌, length, Bool-cases,
}
use yikv.Alloc.Freelist.{
  Flag, free, allocated, delayed, Class, push_free, fill_class, refill_class, pop_cached,
  refill_and_pop, ensure_free, malloc_small, free_small_immediate, free_small_delayed, free_block,
  sweep, reclaim_with_cutoff,
}
use yikv.Alloc.Freelist.Held.{
  copies, copies_delayed, is_allocated, IsValid, IsFresh, push_free-held, fill_blocks-IsValid,
  List-cases, HandedOut, pop_cached-HandedOut, free_small_immediate-IsValid,
  free_small_delayed-IsValid, refill_class-IsValid,
}

-- The refilled class owns what the old one did.
abbrev Refilled : Class → Option Class → Type 0
Refilled c none = Unit {0}
Refilled c (some d) = IsValid d × ((z : ℕ) → is_allocated (d.flags z) ≡ is_allocated (c.flags z))

module _ (c : Class) (slab : ℕ) (b : 0 < c.block_size) (v : IsValid c)
    (f : IsFresh (c.slab_bytes / c.block_size) slab c) where
  fill_class-Refilled : Refilled c (fill_class (some slab) c)
  unfolding fill_class
  fill_class-Refilled = elim (Bool-cases (c.slab_bytes / c.block_size == 0)) [
    | inl no_block ↦ rw no_block tt
    | inr blocks ↦ rw blocks (fill_blocks-IsValid (c.slab_bytes / c.block_size) slab c b v f)
  ]

  ensure_free-Refilled : Refilled c (ensure_free (some slab) c)
  unfolding ensure_free
  ensure_free-Refilled = elim (List-cases c.free_list) [
    | inl k ↦ subst (λ o. Refilled c o) (sym (at_empty c.free_list k)) fill_class-Refilled
    | inr (x, rest, k) ↦
        subst (λ o. Refilled c o) (sym (at_cons c.free_list x rest k)) (v, λ z. refl)
  ]
    where
      at_empty :
          (xs : List ℕ)
          → xs ≡ []
          → (elim xs as (λ _. Option Class) [ [] ↦ fill_class (some slab) c | off ∷ rest ↦ some c ])
            ≡ fill_class (some slab) c
      at_empty [] k = refl
      at_empty (x ∷ xs) k = cc

      at_cons :
          (xs : List ℕ) (x : ℕ) (ys : List ℕ)
          → xs ≡ x ∷ ys
          → (elim xs as (λ _. Option Class) [ [] ↦ fill_class (some slab) c | off ∷ rest ↦ some c ])
            ≡ some c
      at_cons [] x ys k = cc
      at_cons (z ∷ xs) x ys k = refl

  refill_and_pop-HandedOut :
      (o : Option Class) (off : ℕ) (r : Class)
      → Refilled c o
      → refill_and_pop o ≡ some (off, r)
      → HandedOut c off r
  refill_and_pop-HandedOut none off r w p = cc
  refill_and_pop-HandedOut (some d) off r w p =
      let q = refill_class-IsValid d w.0 in
      let t = pop_cached-HandedOut (refill_class d) r off q.0 p in
      record {
        valid = t.valid;
        was_idle = sym (w.1 off) ∙ t.was_idle;
        owned = λ z. t.owned z ∙ ap (λ o. z == off || o) (w.1 z);
      }

  by_cache :
      (xs : List ℕ) (off : ℕ) (r : Class)
      → (elim xs as (λ _. Option (ℕ × Class)) [
        | [] ↦ refill_and_pop (ensure_free (some slab) c)
        | x ∷ rest ↦ pop_cached c
      ])
        ≡ some (off, r)
      → HandedOut c off r
  by_cache [] off r p =
      refill_and_pop-HandedOut (ensure_free (some slab) c) off r ensure_free-Refilled p
  by_cache (x ∷ xs) off r p = pop_cached-HandedOut c r off v p

  -- If no block of the class is in two places and the slab that a refill would use is new, a
  -- block that malloc_small returns was not handed out before, is so afterwards, changes the
  -- ownership of no other block, and no block is in two places.
  pub malloc_small-HandedOut :
      (off : ℕ) (r : Class) → malloc_small (some slab) c ≡ some (off, r) → HandedOut c off r
  unfolding malloc_small
  malloc_small-HandedOut off r e = by_cache c.cached off r e

-- What `Free` does, and that a second one is refused.
pub record Returned (c : Class) (off : ℕ) (r : Class) : Type 0 where
  pub valid : IsValid r
  pub was_allocated : is_allocated (c.flags off) ≡ true
  pub idle : is_allocated (r.flags off) ≡ false
  pub twice : (mode : Option ℕ) → free_block mode off r ≡ none

free_block-none :
    (mode : Option ℕ) (off : ℕ) (c : Class)
    → is_allocated (c.flags off) ≡ false
    → free_block mode off c ≡ none
unfolding free_block
free_block-none mode off c h = by_flag (c.flags off) h
  where
    by_flag :
        (f : Flag)
        → is_allocated f ≡ false
        → (elim f as (λ _. Option Class) [
          | free ↦ none
          | delayed ↦ none
          | allocated ↦ elim mode as (λ _. Option Class) [
            | none ↦ some (free_small_immediate off c)
            | some ts ↦ some (free_small_delayed ts off c)
          ]
        ])
          ≡ none
    by_flag free h = refl
    by_flag delayed h = refl
    by_flag allocated h = cc

idle_after :
    (mode : Option ℕ) (off : ℕ) (c : Class)
    → (is_allocated ((free_small_immediate off c).flags off) ≡ false)
      × ((ts : ℕ) → is_allocated ((free_small_delayed ts off c).flags off) ≡ false)
unfolding free_small_immediate free_small_delayed
idle_after mode off c = (ground arith, λ ts. ground arith)

-- If no block of the class is in two places, a Free that succeeds was of a block that is handed
-- out, no block is in two places afterwards, and a second Free of the block in either mode is
-- refused.
pub free_block-Returned :
    (mode : Option ℕ) (off : ℕ) (c r : Class)
    → IsValid c
    → free_block mode off c ≡ some r
    → Returned c off r
unfolding free_block
free_block-Returned mode off c r v e = by_flag (c.flags off) refl mode e
  where
    returned :
        (d : Class)
        → d ≡ r
        → IsValid d
        → is_allocated (c.flags off) ≡ true
        → is_allocated (d.flags off) ≡ false
        → Returned c off r
    returned d same w a h =
        subst (Returned c off) same (record {
          valid = w;
          was_allocated = a;
          idle = h;
          twice = λ m. free_block-none m off d h;
        })

    by_flag :
        (f : Flag)
        → c.flags off ≡ f
        → (m : Option ℕ)
        → (elim f as (λ _. Option Class) [
          | free ↦ none
          | delayed ↦ none
          | allocated ↦ elim m as (λ _. Option Class) [
            | none ↦ some (free_small_immediate off c)
            | some ts ↦ some (free_small_delayed ts off c)
          ]
        ])
          ≡ some r
        → Returned c off r
    by_flag free h m d = cc
    by_flag delayed h m d = cc
    by_flag allocated h none d =
        let a : is_allocated (c.flags off) ≡ true = ap is_allocated h in
        returned (free_small_immediate off c) (cc) (free_small_immediate-IsValid off c v a) a
          (idle_after mode off c).0
    by_flag allocated h (some ts) d =
        let a : is_allocated (c.flags off) ≡ true = ap is_allocated h in
        returned (free_small_delayed ts off c) (cc) (free_small_delayed-IsValid ts off c v a) a
          ((idle_after mode off c).1 ts)

-- The sweep takes blocks in the order of the list, up to the first whose time is not up.
abbrev pub expired : ℕ → List (ℕ × ℕ) → List (ℕ × ℕ)
expired cutoff [] = []
expired cutoff ((off, ts) ∷ rest) = if ltb cutoff ts then [] else (off, ts) ∷ expired cutoff rest

abbrev pub waiting : ℕ → List (ℕ × ℕ) → List (ℕ × ℕ)
waiting cutoff [] = []
waiting cutoff ((off, ts) ∷ rest) = if ltb cutoff ts then (off, ts) ∷ rest else waiting cutoff rest

-- What the sweep of one class does.
pub record Swept (cutoff : ℕ) (xs : List (ℕ × ℕ)) (c : Class) (n : ℕ) (r : Class) : Type 0 where
  pub valid : IsValid r
  pub waits : r.delayed_list ≡ waiting cutoff xs
  pub freed :
      (z : ℕ) → copies z r.free_list ≡ copies z c.free_list + copies_delayed z (expired cutoff xs)
  pub owned : (z : ℕ) → is_allocated (r.flags z) ≡ is_allocated (c.flags z)
  pub counted : n ≡ length (expired cutoff xs)

sweep-Swept :
    (cutoff : ℕ) (xs : List (ℕ × ℕ)) (c : Class)
    → IsValid (record c { delayed_list = xs })
    → Swept cutoff xs c (sweep cutoff xs c).0 (sweep cutoff xs c).1
sweep-Swept cutoff [] c v = record {
  valid = v;
  waits = refl;
  freed = λ z. omega arith;
  owned = λ z. refl;
  counted = refl;
}
sweep-Swept cutoff ((off, ts) ∷ rest) c v = elim (Bool-cases (ltb cutoff ts)) [
  | inl waits ↦ rw waits (record {
    valid = v;
    waits = rw waits refl;
    freed = λ z. rw waits (omega arith);
    owned = λ z. refl;
    counted = rw waits refl;
  })
  | inr up ↦
      let here = v off in
      let idle : is_allocated (c.flags off) ≡ false = ground arith in
      let s =
        sweep-Swept cutoff rest (push_free off c) (λ z.
          ground (arith, push_free-held z off (record c { delayed_list = rest }) idle, v z)) in
      rw up (record {
        valid = s.valid;
        waits = rw up s.waits;
        freed = λ z. rw up (omega (arith, s.freed z));
        owned = λ z.
            s.owned z ∙ ground (arith, idle, λ (e : z ≡ off). ap (λ o. is_allocated (c.flags o)) e);
        counted = rw up (omega (arith, s.counted));
      })
]

-- If no block of the class is in two places, the sweep keeps that, moves to the freelist
-- exactly the blocks at the front of the delayed list whose time is at most the cutoff, leaves
-- the others waiting, changes no ownership, and returns how many it moved.
pub reclaim_with_cutoff-Swept :
    (cutoff : ℕ) (c : Class)
    → IsValid c
    → Swept cutoff c.delayed_list c
        (reclaim_with_cutoff cutoff c).0
        (reclaim_with_cutoff cutoff c).1
unfolding reclaim_with_cutoff
reclaim_with_cutoff-Swept cutoff c v = sweep-Swept cutoff c.delayed_list c v
