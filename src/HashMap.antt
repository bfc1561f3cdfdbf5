-- ===== src/HashMap.antt =====
-- libs/yikv/container/concurrent_hashmap.h: `get`, `put` and `erase` on the bucket chains. Each
-- holds the mutex of its stripe from the test of the table sequence on, so it is one step; the
-- rehash that `put` may run first is in Rehash. `put` and `erase` are modelled behind the guard that
-- throws while reads without a lock are enabled.
pub mod Chains
pub mod Laws
pub mod Rehash
mod Tests
use yikv.Prelude.{
  ℕ, suc, ◌+◌, ◌-◌, ◌%◌, ◌^◌, Bool, true, false, ◌&&◌, List, [], ◌∷◌, ◌++◌, Option, none, some, ltb,
  ◌==◌, if◌then◌else◌, length,
}

-- `HmBlobEntry`: the blobs at the offsets are the key and the value.
pub record Entry (K V : Type 0) : Type 0 where
  pub hash : ℕ
  pub key : K
  pub val : V

-- The head table: each bucket is a chain of blocks, each block its live entries. `entry_count` is
-- the count of the preamble, which the stripe counts add up to.
pub record Table (K V : Type 0) : Type 0 where
  pub bucket_bits : ℕ
  pub heads : ℕ → List (List (Entry K V))
  pub entry_count : ℕ

-- The entries of a chain, in the order of the walk.
abbrev pub flatten : {K V : Type 0} → List (List (Entry K V)) → List (Entry K V)
flatten [] = []
flatten (b ∷ bs) = b ++ flatten bs

-- `hm_detail::kBlockCap`
abbrev pub block_cap : ℕ
block_cap = 4

module _ {K V : Type 0} (eq : K → K → Bool) (hash : K → ℕ) where
  abbrev pub entry_matches : Entry K V → K → ℕ → Bool
  entry_matches e k h = e.hash == h && eq e.key k

  abbrev pub make_entry : ℕ → K → V → Entry K V
  make_entry h k v = record { hash = h; key = k; val = v }

  abbrev pub bucket : Table K V → ℕ → ℕ
  bucket t h = h % 2 ^ t.bucket_bits

  -- The scan of one block, and of a chain.
  abbrev pub find_block : K → ℕ → List (Entry K V) → Option V
  find_block k h [] = none
  find_block k h (e ∷ es) = if entry_matches e k h then some e.val else find_block k h es

  pub find_chain : K → ℕ → List (List (Entry K V)) → Option V
  find_chain k h [] = none
  find_chain k h (b ∷ bs) =
      let later = find_chain k h bs in elim (find_block k h b) [ some v ↦ some v | none ↦ later ]

  pub get : K → Table K V → Option V
  unfolding find_chain
  get k t = let h = hash k in find_chain k h (t.heads (bucket t h))

  abbrev pub is_some : Option V → Bool
  is_some none = false
  is_some (some v) = true

  -- The update in place of the first entry that matches.
  abbrev pub update_block : K → ℕ → V → List (Entry K V) → List (Entry K V)
  update_block k h v [] = []
  update_block k h v (e ∷ es) =
      if entry_matches e k h then make_entry h k v ∷ es else e ∷ update_block k h v es

  pub update_chain : K → ℕ → V → List (List (Entry K V)) → List (List (Entry K V))
  update_chain k h v [] = []
  update_chain k h v (b ∷ bs) =
      let later = update_chain k h v bs in
      if is_some (find_block k h b) then update_block k h v b ∷ bs else b ∷ later

  -- A new entry goes to the last block, or to a new block behind it.
  pub append_chain : Entry K V → List (List (Entry K V)) → List (List (Entry K V))
  append_chain e [] = (e ∷ []) ∷ []
  append_chain e (b ∷ bs) =
      let later = append_chain e bs in
      elim bs [
        | [] ↦ if ltb (length b) block_cap then (b ++ (e ∷ [])) ∷ [] else b ∷ (e ∷ []) ∷ []
        | c ∷ cs ↦ b ∷ later
      ]

  pub put : K → V → Table K V → Table K V
  unfolding update_chain append_chain find_chain
  put k v t =
      let h = hash k in
      let chain = t.heads (bucket t h) in
      let there = is_some (find_chain k h chain) in
      let chain' =
        if there then update_chain k h v chain else append_chain (make_entry h k v) chain in
      record t {
        heads = λ i. if i == bucket t h then chain' else t.heads i;
        entry_count = if there then t.entry_count else t.entry_count + 1;
      }

  -- The entries behind the erased one are shifted down.
  abbrev pub erase_block : K → ℕ → List (Entry K V) → List (Entry K V)
  erase_block k h [] = []
  erase_block k h (e ∷ es) = if entry_matches e k h then es else e ∷ erase_block k h es

  -- A block that would become empty is unlinked.
  pub erase_chain : K → ℕ → List (List (Entry K V)) → List (List (Entry K V))
  erase_chain k h [] = []
  erase_chain k h (b ∷ bs) =
      let later = erase_chain k h bs in
      if is_some (find_block k h b)
      then (if ltb 1 (length b) then erase_block k h b ∷ bs else bs)
      else b ∷ later

  pub erase : K → Table K V → Bool × Table K V
  unfolding erase_chain find_chain
  erase k t =
      let h = hash k in
      let chain = t.heads (bucket t h) in
      if is_some (find_chain k h chain)
      then (
        true,
        record t {
          heads = λ i. if i == bucket t h then erase_chain k h chain else t.heads i;
          entry_count = t.entry_count - 1;
        },
      )
      else (false, t)
