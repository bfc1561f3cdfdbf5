-- ===== src/Bitmap/Algebra/Walk.antt =====
-- The loops that rewrite or erase the entries in place, and what each round must do.
use yikv.Prelude.{
  ℕ, suc, ◌+◌, ◌≤◌, ◌<◌, ◌≡◌, refl, inl, inr, Bool, false, ◌&&◌, List, [], ◌∷◌, Option, none, some,
  arith, length, Option-cases,
}
use yikv.Sorted.{mem}
use yikv.Bitmap.{Chunk}
use yikv.Bitmap.Each.{values, view, total, IsChunk, IsIndex, IsFull}
use yikv.Bitmap.Index.Entries.{IsIndex-mono, view_below}
use yikv.Bitmap.Algebra.{Round, walk, in_snapshot}

-- What becomes of an entry that meets the values `ys` under its key.
abbrev pub Kept : (Bool → Bool → Bool) → List ℕ → ℕ → Chunk → ℕ → Option Chunk → Type 0
Kept f ys card te card' none =
    (card' + te.cardinality ≡ card) × ((z : ℕ) → f (mem z (values te.payload)) (mem z ys) ≡ false)
Kept f ys card te card' (some e) =
    (card' + te.cardinality ≡ card + e.cardinality)
    × IsChunk e
    × (e.hi ≡ te.hi)
    × (0 < e.cardinality)
    × ((z : ℕ) → mem z (values e.payload) ≡ f (mem z (values te.payload)) (mem z ys))

abbrev pub Acts : (Bool → Bool → Bool) → List Chunk → Round → Type 0
Acts f others round =
    (card : ℕ) (te : Chunk)
    → IsChunk te
    → 0 < te.cardinality
    → te.cardinality ≤ card
    → Kept f (view others te.hi) card te (round card te).0 (round card te).1

pub record Walked (f : Bool → Bool → Bool) (others : List Chunk) (n : ℕ) (cs : List Chunk)
    (card last : ℕ) (out : List Chunk) : Type 0 where
  pub index : IsIndex n out
  pub full : IsFull out
  pub counted : last + total cs ≡ card + total out
  pub shorter : length out ≤ length cs
  pub members :
      (h z : ℕ)
      → mem z (view out h) ≡ (in_snapshot cs h && f (mem z (view cs h)) (mem z (view others h)))

pub in_snapshot_below :
    (cs : List Chunk) (n h : ℕ) → IsIndex n cs → h < n → in_snapshot cs h ≡ false
unfolding in_snapshot
in_snapshot_below [] n h v l = refl
in_snapshot_below (c ∷ cs) n h v l = ground (arith, in_snapshot_below cs (suc c.hi) h v.2)

module _ (f : Bool → Bool → Bool) (others : List Chunk) (n card : ℕ) (te : Chunk) (cs : List Chunk)
    (low : n ≤ te.hi) (rest_index : IsIndex (suc te.hi) cs) (card' last : ℕ) (out : List Chunk)
    (w : Walked f others (suc te.hi) cs card' last out) where
  gone : Kept f (view others te.hi) card te card' none → Walked f others n (te ∷ cs) card last out
  unfolding in_snapshot
  gone k = record {
    index = IsIndex-mono (suc te.hi) n out (omega arith) w.index;
    full = w.full;
    counted = omega (arith, w.counted, k.0);
    shorter = omega (arith, w.shorter);
    members = λ h z. ground (arith, w.members h z, k.1 z, view_below out (suc te.hi) h w.index);
  }

  stays :
      (e : Chunk)
      → Kept f (view others te.hi) card te card' (some e)
      → Walked f others n (te ∷ cs) card last (e ∷ out)
  unfolding in_snapshot
  stays e k = record {
    index = ground (arith, k.2, k.1, w.index);
    full = (k.3, w.full);
    counted = omega (arith, w.counted, k.0);
    shorter = omega (arith, w.shorter);
    members = λ h z. ground (arith, w.members h z, k.4 z, k.2);
  }

pub walk-Walked :
    (f : Bool → Bool → Bool) (others : List Chunk) (round : Round)
    → Acts f others round
    → (cs : List Chunk) (n card : ℕ) → IsIndex n cs
    → IsFull cs
    → total cs ≤ card
    → Walked f others n cs card (walk round card cs).0 (walk round card cs).1
unfolding walk in_snapshot
walk-Walked f others round acts [] n card v full le = record {
  index = tt;
  full = tt;
  counted = omega arith;
  shorter = omega arith;
  members = λ h z. refl;
}
walk-Walked f others round acts (te ∷ cs) n card v full le =
    let (card', kept) = round card te in
    let k = acts card te v.1 full.0 (omega arith) in
    let next = walk-Walked f others round acts cs (suc te.hi) card' v.2 full.1 in
    elim (Option-cases kept) [
      | inl g ↦
          let k' : Kept f (view others te.hi) card te card' none = rw g at k in
          rw g (gone f others n card te cs v.0 v.2 card' _ _ (next (omega (arith, k'.0))) k')
      | inr (e, g) ↦
          let k' : Kept f (view others te.hi) card te card' (some e) = rw g at k in
          rw g (stays f others n card te cs v.0 v.2 card' _ _ (next (omega (arith, k'.0))) e k')
    ]
