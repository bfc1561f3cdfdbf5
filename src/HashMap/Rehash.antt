-- ===== src/HashMap/Rehash.antt =====
-- libs/yikv/container/concurrent_hashmap.h: `needs_rehash`, `rehash_locked`, `trigger_rehash` and
-- the retry loop of `put`. The rehash holds every stripe, so it is one step. The bucket count is
-- `1u << bucket_bits`; the language leaves the shift undefined from 32 bits on.
pub mod Pick
pub mod Laws
pub mod Loop
mod Tests
use yikv.Prelude.{
  ℕ, zero, suc, ◌+◌, ◌*◌, ◌/◌, ◌%◌, ◌^◌, Bool, ◌&&◌, List, [], ◌∷◌, ◌++◌, Option, none, some, ltb,
  leb, ◌==◌, if◌then◌else◌, length,
}
use yikv.HashMap.{Entry, flatten, Table, block_cap, put}

-- `hm_detail::kLoadFactor`
abbrev pub load_factor : ℕ
load_factor = 2

module _ {K V : Type 0} where
  -- The stripe counts add up to `entry_count`.
  abbrev pub needs_rehash : Table K V → Bool
  needs_rehash t = leb (2 ^ t.bucket_bits * load_factor) t.entry_count

  -- The entries of the buckets from `b` on, in the order of `flat`.
  pub collect_entries : ℕ → ℕ → (ℕ → List (List (Entry K V))) → List (Entry K V)
  collect_entries b zero heads = []
  collect_entries b (suc n) heads = flatten (heads b) ++ collect_entries (suc b) n heads

  -- The walk to the first block with room, or a new block behind the last.
  pub insert_chain : Entry K V → List (List (Entry K V)) → List (List (Entry K V))
  insert_chain e [] = (e ∷ []) ∷ []
  insert_chain e (b ∷ bs) =
      let later = insert_chain e bs in
      if ltb (length b) block_cap then (b ++ (e ∷ [])) ∷ bs else b ∷ later

  pub reinsert_all :
      ℕ → List (Entry K V) → (ℕ → List (List (Entry K V))) → ℕ → List (List (Entry K V))
  reinsert_all bits [] heads = heads
  reinsert_all bits (e ∷ es) heads =
      let bidx = e.hash % 2 ^ bits in
      reinsert_all bits es (λ i. if i == bidx then insert_chain e (heads i) else heads i)

  -- The table that `rehash_locked` makes, with `1u << new_bits` buckets.
  pub rehashed : Table K V → Table K V
  rehashed t =
      let flat = collect_entries 0 (2 ^ t.bucket_bits) t.heads in
      record {
        bucket_bits = t.bucket_bits + 1;
        heads = reinsert_all (t.bucket_bits + 1) flat (λ i. []);
        entry_count = t.entry_count;
      }

  -- `rehash_locked`; `none` is the shift that is undefined.
  pub rehash_locked : Table K V → Option (Table K V)
  unfolding rehashed
  rehash_locked t = if ltb 31 (t.bucket_bits + 1) then none else some (rehashed t)

-- What a thread that puts sees: the table, `table_seq_`, and its own `tl_put_count`.
pub record Shared (K V : Type 0) : Type 0 where
  pub table : Table K V
  pub table_seq : ℕ
  pub tl_put_count : ℕ

-- How a round of the loop of `put` ends.
pub data Round (K V : Type 0) : Type 0 where
  returns : Shared K V → Round K V
  continues : Shared K V → Round K V
  throws : Shared K V → Round K V
  undefined : Round K V

abbrev pub is_odd : ℕ → Bool
is_odd seq = seq % 2 == 1

module _ {K V : Type 0} where
  -- The rehash with the guard on `new_bits`, whose exception leaves the sequence odd.
  abbrev pub guarded_rehash : Shared K V → Round K V
  guarded_rehash s =
      if ltb 62 (s.table.bucket_bits + 1) then throws s else elim (rehash_locked s.table) [
        | none ↦ undefined
        | some grown ↦ continues (record s { table = grown; table_seq = s.table_seq + 1 })
      ]

  -- The sequence is odd while the table is unstable.
  pub trigger_rehash : Shared K V → Round K V
  unfolding rehash_locked
  trigger_rehash s =
      if needs_rehash s.table
      then guarded_rehash (record s { table_seq = s.table_seq + 1 })
      else continues s

module _ {K V : Type 0} (eq : K → K → Bool) (hash : K → ℕ) where
  pub put_round : K → V → Shared K V → Round K V
  put_round k v s =
      let count = (s.tl_put_count + 1) % 2 ^ 32 in
      let s₁ = record s { tl_put_count = count } in
      if is_odd s.table_seq
      then continues s
      else if count % 64 == 0 && needs_rehash s.table
      then trigger_rehash s₁
      else returns (record s₁ { table = put eq hash k v s.table })

  -- The loop of `put`; out of fuel it is still going round.
  pub put_loop : ℕ → K → V → Shared K V → Round K V
  put_loop zero k v s = continues s
  put_loop (suc fuel) k v s = elim (put_round k v s) [
    | returns r ↦ returns r
    | continues r ↦ put_loop fuel k v r
    | throws r ↦ throws r
    | undefined ↦ undefined
  ]
