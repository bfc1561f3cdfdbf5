-- ===== src/Bitmap/Bulk/Laws.antt =====
-- `BulkAdd` of strictly ascending values against a sequence of insertions into the set.
use yikv.Prelude.{
  ℕ, zero, suc, ◌+◌, ◌-◌, ◌*◌, ◌/◌, ◌%◌, ◌^◌, ◌≤◌, ◌<◌, ◌≡◌, refl, ap, ◌∙◌, inl, inr, true, ◌&&◌,
  ◌||◌, List, [], ◌∷◌, arith, ◌==◌, length, Bool-cases,
}
use yikv.Sorted.{mem, IsAscending, IsBelow, IsAscending-mono, mem-length}
use yikv.Bitmap.{Bitmap}
use yikv.Bitmap.Each.{values, view, has, IsValid}
use yikv.Bitmap.Index.Entries.{IsFull-but}
use yikv.Bitmap.Index.Laws.{get_or_create-Located, Joins}
use yikv.Bitmap.Bulk.{bulk_chunk, settle, bulk_at, bulk_run, split_run, bulk_loop, bulk_add}
use yikv.Bitmap.Bulk.Chunks.{bulk_chunk-Grown}

bulk_run-Joins :
    (b : Bitmap) (hi lo : ℕ) (los : List ℕ)
    → hi < 65536
    → IsValid b
    → IsAscending 0 (lo ∷ los)
    → IsBelow 65536 (lo ∷ los)
    → Joins b hi (lo ∷ los) (bulk_run b hi (lo ∷ los))
unfolding bulk_run
bulk_run-Joins b hi lo los small v asc low =
    let (te, t) = get_or_create-Located b hi small v.sound in
    let g = bulk_chunk-Grown te (lo ∷ los) t.valid asc low in
    let r = settle (bulk_chunk te (lo ∷ los)).0 in
    let there : mem lo (values r.payload) ≡ true = ground (arith, g.members lo) in
    let filled : 0 < r.cardinality =
      omega (arith, g.valid.counted, mem-length lo (values r.payload) there) in
    let s =
      t.stores r _ (g.key ∙ t.key) g.valid filled (IsFull-but hi b.chunks v.full)
        (omega (arith, t.cardinality, g.counted)) in
    rw (t.found, bulk_at)
      (
        s.0,
        λ h z. ground (arith, s.1 h, g.members z, t.holds, λ (e : h ≡ hi). ap (view b.chunks) e),
      )

-- The run of one key, and what is left.
record Split (hi n : ℕ) (vs run rest : List ℕ) : Type 0 where
  run_ascending : IsAscending (n - hi * 65536) run
  run_below : IsBelow 65536 run
  rest_ascending : IsAscending (suc hi * 65536) rest
  rest_below : IsBelow (2 ^ 32) rest
  members : (w : ℕ) → mem w vs ≡ (w / 65536 == hi && mem (w % 65536) run || mem w rest)
  shorter : length run + length rest ≡ length vs

split_run-Split :
    (hi n : ℕ) (vs : List ℕ)
    → hi * 65536 ≤ n
    → IsAscending n vs
    → IsBelow (2 ^ 32) vs
    → Split hi n vs (split_run hi vs).0 (split_run hi vs).1
unfolding split_run
split_run-Split hi n [] h asc low = record {
  run_ascending = tt;
  run_below = tt;
  rest_ascending = tt;
  rest_below = tt;
  members = λ w. ground arith;
  shorter = refl;
}
split_run-Split hi n (v ∷ vs) h asc low = elim (Bool-cases (v / 65536 == hi)) [
  | inl here ↦
      let r = split_run-Split hi (suc v) vs (omega arith) asc.1 low.1 in
      let key : v / 65536 ≡ hi = ground arith in
      rw here (record {
        run_ascending = (
          omega arith,
          IsAscending-mono (suc v - hi * 65536) (suc (v % 65536)) (split_run hi vs).0 (omega arith)
              r.run_ascending,
        );
        run_below = (omega arith, r.run_below);
        rest_ascending = r.rest_ascending;
        rest_below = r.rest_below;
        members = λ w. ground (arith, r.members w);
        shorter = omega (arith, r.shorter);
      })
  | inr other ↦
      let key : suc hi * 65536 ≤ v = ground arith in
      rw other (record {
        run_ascending = tt;
        run_below = tt;
        rest_ascending = (key, asc.1);
        rest_below = low;
        members = λ w. ground arith;
        shorter = omega arith;
      })
]

-- `BulkAdd` adds the given values and nothing else, and keeps the invariant.
pub record AddedAll (b : Bitmap) (vs : List ℕ) (r : Bitmap) : Type 0 where
  pub valid : IsValid r
  pub members : (w : ℕ) → has r w ≡ (mem w vs || has b w)

bulk_loop-AddedAll :
    (fuel : ℕ) (b : Bitmap) (n : ℕ) (vs : List ℕ)
    → length vs ≤ fuel
    → IsValid b
    → IsAscending n vs
    → IsBelow (2 ^ 32) vs
    → AddedAll b vs (bulk_loop fuel b vs)
unfolding bulk_loop split_run
bulk_loop-AddedAll zero b n [] le v asc low = record { valid = v; members = λ w. refl }
bulk_loop-AddedAll zero b n (x ∷ vs) le v asc low = absurd (omega arith)
bulk_loop-AddedAll (suc fuel) b n [] le v asc low = record { valid = v; members = λ w. refl }
bulk_loop-AddedAll (suc fuel) b n (x ∷ vs) le v asc low =
    let hi = x / 65536 in
    let s = split_run-Split hi x (x ∷ vs) (omega arith) (omega arith, asc.1) low in
    let rest = (split_run hi vs).1 in
    let run = (split_run hi vs).0 in
    let here : (x / 65536 == hi) ≡ true = ground arith in
    let s' : Split hi x (x ∷ vs) (x % 65536 ∷ run) rest = rw here at s in
    let j =
      bulk_run-Joins b hi (x % 65536) run (omega (arith, low.0)) v (omega arith, s'.run_ascending.1)
        s'.run_below in
    let r =
      bulk_loop-AddedAll fuel (bulk_run b hi (x % 65536 ∷ run)) (suc hi * 65536) rest
        (omega (arith, s'.shorter)) j.0 s'.rest_ascending s'.rest_below in
    rw here (record {
      valid = r.valid;
      members = λ w. ground (arith, r.members w, j.1 (w / 65536) (w % 65536), s'.members w);
    })

-- On a valid bitmap, BulkAdd of strictly ascending 32-bit values gives a valid bitmap that
-- holds the old members and these values, and no other.
pub bulk_add-AddedAll :
    (b : Bitmap) (vs : List ℕ)
    → IsValid b
    → IsAscending 0 vs
    → IsBelow (2 ^ 32) vs
    → AddedAll b vs (bulk_add b vs)
unfolding bulk_add
bulk_add-AddedAll b vs v asc low = bulk_loop-AddedAll (length vs) b 0 vs (omega arith) v asc low
