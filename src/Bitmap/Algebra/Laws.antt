-- ===== src/Bitmap/Algebra/Laws.antt =====
-- The set operations against Boolean operations on membership.
use yikv.Prelude.{
  ℕ, ◌/◌, ◌%◌, ◌≡◌, refl, ap, inl, inr, Bool, true, false, not, ◌&&◌, ◌||◌, xor, List, [], ◌∷◌,
  arith, Bool-cases,
}
use yikv.Sorted.{mem, no_members}
use yikv.Bitmap.{Bitmap, Chunk}
use yikv.Bitmap.Each.{view, has, IsValid}
use yikv.Bitmap.Point.{empty}
use yikv.Bitmap.Algebra.{
  Round, run_walk, in_snapshot, clear, or_with, and_round, and_with, xor_round, xor_with,
  and_not_round, and_not_with, or_of, and_of, and_not_of, xor_of, assign,
}
use yikv.Bitmap.Algebra.Walk.{Acts, walk-Walked}
use yikv.Bitmap.Algebra.Rounds.{and_round-Acts, and_not_round-Acts, xor_round-Acts}
use yikv.Bitmap.Algebra.Copy.{or_loop-lem, xor_copies_lem}

-- `r` is a bitmap in order whose membership is `f` of those of `b` and `o`.
pub record Merged (f : Bool → Bool → Bool) (b o r : Bitmap) : Type 0 where
  pub valid : IsValid r
  pub members : (v : ℕ) → has r v ≡ f (has b v) (has o v)

pub empty-IsValid : IsValid empty
unfolding empty
empty-IsValid = record {
  sound = record { index = tt; counted = refl; roomy = omega arith };
  full = tt;
}

clear-IsValid : (b : Bitmap) → IsValid (clear b)
unfolding clear
clear-IsValid b = record {
  sound = record { index = tt; counted = refl; roomy = omega arith };
  full = tt;
}

run_walk-IsValid :
    (f : Bool → Bool → Bool) (others : List Chunk) (round : Round) (b : Bitmap)
    → Acts f others round
    → IsValid b
    → IsValid (run_walk round b)
      × ((h z : ℕ)
          → mem z (view (run_walk round b).chunks h)
            ≡ (in_snapshot b.chunks h && f (mem z (view b.chunks h)) (mem z (view others h))))
run_walk-IsValid f others round b acts v =
    let w =
      walk-Walked f others round acts b.chunks 0 b.cardinality v.index v.full
        (omega (arith, v.counted)) in
    (
      record {
        sound = record {
          index = w.index;
          counted = omega (arith, w.counted, v.counted);
          roomy = omega (arith, w.shorter, v.roomy);
        };
        full = w.full;
      },
      w.members,
    )

-- A key that is not in the snapshot holds nothing.
view_outside : (cs : List Chunk) (h : ℕ) → in_snapshot cs h ≡ false → view cs h ≡ []
unfolding in_snapshot
view_outside [] h e = refl
view_outside (c ∷ cs) h e = ground (arith, view_outside cs h)

module _ (same : Bool) (b o : Bitmap) (alias : same ≡ true → b ≡ o) (v : IsValid b)
    (w : IsValid o) where
  itself : same ≡ true → (value : ℕ) → has b value ≡ has o value
  itself e value = ap (λ r. has r value) (alias e)

  -- On two valid bitmaps, OrWith gives a valid bitmap whose members are the union of theirs;
  -- where the two are one object, the early return gives the same.
  pub or_with-Merged : Merged ◌||◌ b o (or_with same b o)
  unfolding or_with
  or_with-Merged = elim (Bool-cases same) [
    | inl e ↦ rw e (record { valid = v; members = λ z. ground (arith, itself e z) })
    | inr e ↦
        let r = or_loop-lem b o.chunks 0 v w.index w.full in
        rw e (record { valid = r.0; members = λ z. r.1 (z / 65536) (z % 65536) })
  ]

  -- On two valid bitmaps, AndWith gives a valid bitmap whose members are the intersection of
  -- theirs; where the two are one object, the early return gives the same.
  pub and_with-Merged : Merged ◌&&◌ b o (and_with same b o)
  unfolding and_with
  and_with-Merged = elim (Bool-cases same) [
    | inl e ↦ rw e (record { valid = v; members = λ z. ground (arith, itself e z) })
    | inr e ↦
        let r =
          run_walk-IsValid ◌&&◌ o.chunks (and_round o.chunks) b (and_round-Acts o.chunks w.index)
            v in
        rw e (record {
          valid = r.0;
          members =
              λ z. ground (arith, r.1 (z / 65536) (z % 65536), view_outside b.chunks (z / 65536));
        })
  ]

  -- On two valid bitmaps, and_not_with gives a valid bitmap whose members are the difference of
  -- theirs; where the two are one object, the early return gives the same.
  pub and_not_with-Merged : Merged (λ x y. x && not y) b o (and_not_with same b o)
  unfolding and_not_with clear
  and_not_with-Merged = elim (Bool-cases same) [
    | inl e ↦ rw e (record { valid = clear-IsValid b; members = λ z. ground (arith, itself e z) })
    | inr e ↦
        let r =
          run_walk-IsValid (λ x y. x && not y) o.chunks (and_not_round o.chunks) b
            (and_not_round-Acts o.chunks w.index) v in
        rw e (record {
          valid = r.0;
          members =
              λ z. ground (arith, r.1 (z / 65536) (z % 65536), view_outside b.chunks (z / 65536));
        })
  ]

  -- On two valid bitmaps, xor_with gives a valid bitmap whose members are the symmetric
  -- difference of theirs; where the two are one object, the early return gives the same.
  pub xor_with-Merged : Merged xor b o (xor_with same b o)
  unfolding xor_with xor clear
  xor_with-Merged = elim (Bool-cases same) [
    | inl e ↦ rw e (record { valid = clear-IsValid b; members = λ z. ground (arith, itself e z) })
    | inr e ↦
        let r =
          run_walk-IsValid xor o.chunks (xor_round o.chunks) b (xor_round-Acts o.chunks w.index)
            v in
        let c =
          xor_copies_lem b.chunks (run_walk (xor_round o.chunks) b) o.chunks 0 r.0 w.index w.full
            (λ h le out.
              no_members (view (run_walk (xor_round o.chunks) b).chunks h)
                (λ z. ground (arith, r.1 h z))) in
        rw e (record {
          valid = c.0;
          members = λ z. ground (
            arith,
            c.1 (z / 65536) (z % 65536),
            r.1 (z / 65536) (z % 65536),
            view_outside b.chunks (z / 65536),
          );
        })
  ]

  -- On two valid bitmaps, copy assignment gives a valid bitmap with the members of the right
  -- one, also when both are one object.
  pub assign-Merged : Merged (λ x y. y) b o (assign same b o)
  unfolding assign clear or_with
  assign-Merged = elim (Bool-cases same) [
    | inl e ↦ rw e (record { valid = v; members = itself e })
    | inr e ↦
        let r = or_loop-lem (clear b) o.chunks 0 (clear-IsValid b) w.index w.full in
        rw e (record { valid = r.0; members = λ z. r.1 (z / 65536) (z % 65536) })
  ]

module _ (b o : Bitmap) (v : IsValid b) (w : IsValid o) where
  copy-Merged : Merged (λ x y. y) empty b (or_with false empty b)
  unfolding empty
  copy-Merged =
      let r = or_with-Merged false empty b (λ e. cc) empty-IsValid v in
      record { valid = r.valid; members = r.members }

  or_of-Merged : Merged ◌||◌ b o (or_of b o)
  unfolding or_of
  or_of-Merged =
      let c = copy-Merged in
      let r = or_with-Merged false (or_with false empty b) o (λ e. cc) c.valid w in
      record { valid = r.valid; members = λ z. ground (arith, r.members z, c.members z) }

  and_of-Merged : Merged ◌&&◌ b o (and_of b o)
  unfolding and_of
  and_of-Merged =
      let c = copy-Merged in
      let r = and_with-Merged false (or_with false empty b) o (λ e. cc) c.valid w in
      record { valid = r.valid; members = λ z. ground (arith, r.members z, c.members z) }

  and_not_of-Merged : Merged (λ x y. x && not y) b o (and_not_of b o)
  unfolding and_not_of
  and_not_of-Merged =
      let c = copy-Merged in
      let r = and_not_with-Merged false (or_with false empty b) o (λ e. cc) c.valid w in
      record { valid = r.valid; members = λ z. ground (arith, r.members z, c.members z) }

  xor_of-Merged : Merged xor b o (xor_of b o)
  unfolding xor_of
  xor_of-Merged =
      let c = copy-Merged in
      let r = xor_with-Merged false (or_with false empty b) o (λ e. cc) c.valid w in
      record { valid = r.valid; members = λ z. ground (arith, r.members z, c.members z) }

  -- On two valid bitmaps, Or, And, AndNot and Xor return valid bitmaps whose members are the
  -- union, the intersection, the difference and the symmetric difference of theirs.
  pub set_operations-Merged :
      Merged ◌||◌ b o (or_of b o)
      × Merged ◌&&◌ b o (and_of b o)
      × Merged (λ x y. x && not y) b o (and_not_of b o)
      × Merged xor b o (xor_of b o)
  set_operations-Merged = (or_of-Merged, and_of-Merged, and_not_of-Merged, xor_of-Merged)
