-- ===== src/HashMap/Rehash/Loop.antt =====
-- `put` with the rehash that it may run first: the loop ends, and does what one `put` does.
use yikv.Prelude.{
  ℕ, suc, ◌+◌, ◌%◌, ◌^◌, ◌<◌, ◌≡◌, refl, ◌∙◌, inl, inr, Bool, true, false, ◌&&◌, List, [], ◌∷◌,
  ◌++◌, arith, ltb, ◌==◌, Bool-cases,
}
use yikv.HashMap.{
  Entry, Table, flatten, bucket, make_entry, find_chain, entry_matches, is_some, update_block, put,
}
use yikv.HashMap.Chains.{flatten-update, flatten-append}
use yikv.HashMap.Laws.{IsValid, Put, put-Put}
use yikv.HashMap.Rehash.{
  needs_rehash, rehash_locked, rehashed, Shared, returns, continues, is_odd, trigger_rehash,
  put_round, put_loop,
}
use yikv.HashMap.Rehash.Pick.{IsAt}
use yikv.HashMap.Rehash.Laws.{IsPlaced, Rehashed, rehashed-Rehashed}

module _ {K V : Type 0} (eq : K → K → Bool) (hash : K → ℕ)
    (eq_sound : (a b : K) → eq a b ≡ true → a ≡ b) (eq_refl : (a : K) → eq a a ≡ true) where
  update-IsAt :
      (bits i : ℕ) (k : K) (v : V) (xs : List (Entry K V))
      → hash k % 2 ^ bits ≡ i
      → IsAt bits i xs
      → IsAt bits i (update_block eq hash k (hash k) v xs)
  update-IsAt bits i k v [] h at = tt
  update-IsAt bits i k v (x ∷ xs) h at = elim (Bool-cases (entry_matches eq hash x k (hash k))) [
    | inl here ↦ rw here (h, at.1)
    | inr later ↦ rw later (at.0, update-IsAt bits i k v xs h at.1)
  ]

  append-IsAt :
      (bits i : ℕ) (e : Entry K V) (xs : List (Entry K V))
      → e.hash % 2 ^ bits ≡ i
      → IsAt bits i xs
      → IsAt bits i (xs ++ (e ∷ []))
  append-IsAt bits i e [] h at = (h, tt)
  append-IsAt bits i e (x ∷ xs) h at = (at.0, append-IsAt bits i e xs h at.1)

  pub put-IsPlaced :
      (k : K) (v : V) (t : Table K V)
      → IsPlaced eq hash eq_sound eq_refl t
      → IsPlaced eq hash eq_sound eq_refl (put eq hash k v t)
  unfolding put
  put-IsPlaced k v t at i = elim (Bool-cases (i == bucket eq hash t (hash k))) [
    | inr other ↦ rw other (at i)
    | inl here ↦
        let b = bucket eq hash t (hash k) in
        let same : b ≡ i = ground (arith, here) in
        let chain = t.heads b in
        rw here (elim (Bool-cases (is_some eq hash (find_chain eq hash k (hash k) chain))) [
          | inl there ↦
              rw (there, flatten-update eq hash eq_sound eq_refl k v chain)
                (update-IsAt t.bucket_bits i k v (flatten chain) same (rw same (at i)))
          | inr absent ↦
              let e = make_entry eq hash (hash k) k v in
              rw (absent, flatten-append eq hash eq_sound eq_refl e chain)
                (append-IsAt t.bucket_bits i e (flatten chain) same (rw same (at i)))
        ])
  ]

  -- What `put` returns with: the table is stable again, and one `put` was done on what the
  -- lookups showed before.
  pub record Stored (k : K) (v : V) (s r : Shared K V) : Type 0 where
    pub stable : is_odd r.table_seq ≡ false
    pub placed : IsPlaced eq hash eq_sound eq_refl r.table
    pub stored : Put eq hash eq_sound eq_refl k v s.table r.table

  -- A `put` behind a rehash is one on the table before.
  Put-rehash :
      (k : K) (v : V) (t u r : Table K V)
      → Rehashed eq hash eq_sound eq_refl t u
      → Put eq hash eq_sound eq_refl k v u r
      → Put eq hash eq_sound eq_refl k v t r
  Put-rehash k v t u r h p = record {
    valid = p.valid;
    found = p.found;
    others = λ j d. p.others j d ∙ h.same j;
    counted = p.counted ∙ rw (h.same k, h.counted) refl;
  }

  pub put_round-Stored :
      (k : K) (v : V) (s : Shared K V)
      → is_odd s.table_seq ≡ false
      → IsValid eq hash eq_sound eq_refl s.table
      → IsPlaced eq hash eq_sound eq_refl s.table
      → ((s.tl_put_count + 1) % 2 ^ 32 % 64 == 0 && needs_rehash s.table) ≡ false
      → (r : Shared K V) × (put_round eq hash k v s ≡ returns r) × Stored k v s r
  unfolding put_round
  put_round-Stored k v s even valid at once = (
    record s { tl_put_count = (s.tl_put_count + 1) % 2 ^ 32; table = put eq hash k v s.table },
    rw (even, once) refl,
    record {
      stable = even;
      placed = put-IsPlaced k v s.table at;
      stored = put-Put eq hash eq_sound eq_refl k v s.table valid;
    },
  )

  -- A round that finds the table full rehashes it and goes round again.
  put_round-continues :
      (k : K) (v : V) (s : Shared K V)
      → is_odd s.table_seq ≡ false
      → s.table.bucket_bits < 31
      → ((s.tl_put_count + 1) % 2 ^ 32 % 64 == 0 && needs_rehash s.table) ≡ true
      → put_round eq hash k v s
        ≡ continues (record s {
          tl_put_count = (s.tl_put_count + 1) % 2 ^ 32;
          table = rehashed s.table;
          table_seq = s.table_seq + 1 + 1;
        })
  unfolding put_round trigger_rehash rehash_locked
  put_round-continues k v s even small full =
      rw
        (
          even,
          full,
          second ((s.tl_put_count + 1) % 2 ^ 32 % 64 == 0) (needs_rehash s.table) full,
          below s.table.bucket_bits small,
          defined s.table.bucket_bits small,
        )
        refl
    where
      second : (a b : Bool) → (a && b) ≡ true → b ≡ true
      second a b e = ground arith

      below : (b : ℕ) → b < 31 → ltb 62 (b + 1) ≡ false
      below b h = ground arith

      defined : (b : ℕ) → b < 31 → ltb 31 (b + 1) ≡ false
      defined b h = ground arith

  -- If the table is stable, has fewer than 31 bucket bits, and every entry is in the bucket of
  -- its hash with no key twice, then put returns within two rounds of its loop, on any fuel of
  -- two or more: whether or not a round rehashed the table, get of the key then returns the
  -- value, get of any other key is as before, and the table is stable and in the same shape.
  pub put_loop-Stored :
      (fuel : ℕ) (k : K) (v : V) (s : Shared K V)
      → is_odd s.table_seq ≡ false
      → s.table.bucket_bits < 31
      → IsValid eq hash eq_sound eq_refl s.table
      → IsPlaced eq hash eq_sound eq_refl s.table
      → (r : Shared K V) × (put_loop eq hash (suc (suc fuel)) k v s ≡ returns r) × Stored k v s r
  unfolding put_loop
  put_loop-Stored fuel k v s even small valid at =
      let count = (s.tl_put_count + 1) % 2 ^ 32 in
      elim (Bool-cases (count % 64 == 0 && needs_rehash s.table)) [
        | inr once ↦
            let (r, e, st) = put_round-Stored k v s even valid at once in
            (r, rw (put_loop, e) refl, st)
        | inl full ↦
            let u = record s {
              tl_put_count = count;
              table = rehashed s.table;
              table_seq = s.table_seq + 1 + 1;
            } in
            let h = rehashed-Rehashed eq hash eq_sound eq_refl s.table valid at in
            let grown = put_round-continues k v s even small full in
            let (r, e, st) =
              put_round-Stored k v u (even_again s.table_seq even) h.valid h.placed
                (first_of_64 s.tl_put_count (needs_rehash s.table) (needs_rehash u.table) full) in
            (
              r,
              rw (put_loop, grown) (rw (put_loop, e) refl),
              record {
                stable = st.stable;
                placed = st.placed;
                stored = Put-rehash k v s.table u.table r.table h st.stored;
              },
            )
      ]
    where
      even_again : (n : ℕ) → is_odd n ≡ false → is_odd (n + 1 + 1) ≡ false
      even_again n e = ground arith

      first_of_64 :
          (n : ℕ) (a b : Bool)
          → ((n + 1) % 2 ^ 32 % 64 == 0 && a) ≡ true
          → (((n + 1) % 2 ^ 32 + 1) % 2 ^ 32 % 64 == 0 && b) ≡ false
      first_of_64 n a b e = ground arith
