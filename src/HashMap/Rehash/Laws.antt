-- ===== src/HashMap/Rehash/Laws.antt =====
-- A rehash against the lookups before it.
use yikv.Prelude.{
  append-nil, append_assoc, ℕ, zero, suc, ◌+◌, ◌%◌, ◌^◌, ◌<◌, ◌≡◌, ◌≢◌, refl, sym, ap, ◌∙◌, inl,
  inr, Bool, true, false, ◌&&◌, List, [], ◌∷◌, ◌++◌, none, some, arith, ltb, leb, ◌==◌,
  if◌then◌else◌, length, Bool-cases,
}
use yikv.HashMap.{Entry, Table, flatten, find_block, entry_matches, get}
use yikv.HashMap.Chains.{find_chain-flatten, IsDistinct}
use yikv.HashMap.Laws.{IsValid}
use yikv.HashMap.Rehash.{collect_entries, insert_chain, reinsert_all, rehashed, rehash_locked}
use yikv.HashMap.Rehash.Pick.{mod_halves, pick, IsAt, pick-IsAt, pick-collect}

module _ {K V : Type 0} where
  -- All blocks but the last are full.
  abbrev pub IsPacked : List (List (Entry K V)) → Type 0
  IsPacked [] = Unit {0}
  IsPacked (b ∷ []) = Unit {0}
  IsPacked (b ∷ c ∷ cs) = (ltb (length b) 4 ≡ false) × IsPacked (c ∷ cs)

  insert-IsPacked :
      (e : Entry K V) (bs : List (List (Entry K V))) → IsPacked bs → IsPacked (insert_chain e bs)
  unfolding insert_chain
  insert-IsPacked e [] p = tt
  insert-IsPacked e (b ∷ []) p = elim (Bool-cases (ltb (length b) 4)) [
    | inl room ↦ rw room tt
    | inr full ↦ rw full (full, tt)
  ]
  insert-IsPacked e (b ∷ c ∷ cs) p =
      let rest = insert-IsPacked e (c ∷ cs) p.1 in
      elim (Bool-cases (ltb (length c) 4)) [
        | inl room ↦ rw (p.0, room) (p.0, rw room at rest)
        | inr full ↦ rw (p.0, full) (p.0, rw full at rest)
      ]

  flatten-insert :
      (e : Entry K V) (bs : List (List (Entry K V)))
      → IsPacked bs
      → flatten (insert_chain e bs) ≡ flatten bs ++ (e ∷ [])
  unfolding insert_chain
  flatten-insert e [] p = refl
  flatten-insert e (b ∷ []) p = elim (Bool-cases (ltb (length b) 4)) [
    | inl room ↦ rw room (append-nil (b ++ (e ∷ [])) ∙ ap (λ r. r ++ (e ∷ [])) (sym (append-nil b)))
    | inr full ↦ rw full (ap (λ r. r ++ (e ∷ [])) (sym (append-nil b)))
  ]
  flatten-insert e (b ∷ c ∷ cs) p = rw p.0 (
      ap (λ r. b ++ r) (flatten-insert e (c ∷ cs) p.1)
      ∙ sym (append_assoc b (flatten (c ∷ cs)) (e ∷ [])))

  append-snoc : (xs ys : List (Entry K V)) (y : Entry K V) → (xs ++ (y ∷ [])) ++ ys ≡ xs ++ (y ∷ ys)
  append-snoc [] ys y = refl
  append-snoc (x ∷ xs) ys y = ap (λ r. x ∷ r) (append-snoc xs ys y)

  -- Each bucket grows by the entries that belong there, in their order.
  reinsert_all-pick :
      (bits i : ℕ) (es : List (Entry K V)) (heads : ℕ → List (List (Entry K V)))
      → IsPacked (heads i)
      → flatten (reinsert_all bits es heads i) ≡ flatten (heads i) ++ pick bits i es
  unfolding reinsert_all
  reinsert_all-pick bits i [] heads p = sym (append-nil (flatten (heads i)))
  reinsert_all-pick bits i (e ∷ es) heads p =
      let next : ℕ → List (List (Entry K V)) =
        λ j. if j == e.hash % 2 ^ bits then insert_chain e (heads j) else heads j in
      let rest = reinsert_all-pick bits i es next in
      elim (Bool-cases (i == e.hash % 2 ^ bits)) [
        | inl here ↦ rw (flip i (e.hash % 2 ^ bits) ∙ here) (
            rest (rw here (insert-IsPacked e (heads i) p))
            ∙ rw here (
                ap (λ r. r ++ pick bits i es) (flatten-insert e (heads i) p)
                ∙ append-snoc (flatten (heads i)) (pick bits i es) e))
        | inr other ↦ rw (flip i (e.hash % 2 ^ bits) ∙ other) (rest (rw other p) ∙ rw other refl)
      ]
    where
      flip : (a b : ℕ) → (b == a) ≡ (a == b)
      flip a b = ground arith

  pub heads-rehash :
      (t : Table K V) (i : ℕ)
      → ((j : ℕ) → IsAt t.bucket_bits j (flatten (t.heads j)))
      → flatten ((rehashed t).heads i)
        ≡ pick (t.bucket_bits + 1) i (flatten (t.heads (i % 2 ^ t.bucket_bits)))
  unfolding rehashed
  heads-rehash t i at =
      reinsert_all-pick (t.bucket_bits + 1) i (collect_entries 0 (2 ^ t.bucket_bits) t.heads)
        (λ j. []) tt
      ∙ (pick-collect t.bucket_bits i 0 (2 ^ t.bucket_bits) t.heads at
          ∙ rw (within i t.bucket_bits) refl)
    where
      within : (i b : ℕ) → (leb 0 (i % 2 ^ b) && ltb (i % 2 ^ b) (0 + 2 ^ b)) ≡ true
      within i b = ground (arith, positive b)
        where
          positive : (b : ℕ) → 0 < 2 ^ b
          positive zero = omega arith
          positive (suc b) = omega (arith, positive b)

  module _ (eq : K → K → Bool) (hash : K → ℕ) where
    -- A lookup by a hash reads one bucket only.
    pub find-pick :
        (bits h : ℕ) (k : K) (xs : List (Entry K V))
        → find_block eq hash k h (pick bits (h % 2 ^ bits) xs) ≡ find_block eq hash k h xs
    find-pick bits h k [] = refl
    find-pick bits h k (x ∷ xs) = elim (Bool-cases (x.hash % 2 ^ bits == h % 2 ^ bits)) [
      | inl here ↦
          rw here (
            ap (λ r. if entry_matches eq hash x k h then some x.val else r) (find-pick bits h k xs))
      | inr other ↦ rw (other, apart (x.hash) h (eq x.key k) bits other) (find-pick bits h k xs)
    ]
      where
        apart :
            (a b : ℕ) (c : Bool) (bits : ℕ)
            → (a % 2 ^ bits == b % 2 ^ bits) ≡ false
            → (a == b && c) ≡ false
        apart a b c bits d = elim (Bool-cases (a == b)) [
          | inr n ↦ rw n refl
          | inl e ↦
              let same : a ≡ b = ground (arith, e) in
              let equal : (a % 2 ^ bits) ≡ (b % 2 ^ bits) = ap (λ z. z % 2 ^ bits) same in
              absurd (ground (arith, d, equal))
        ]

    pub pick-absent :
        (bits i h : ℕ) (k : K) (xs : List (Entry K V))
        → find_block eq hash k h xs ≡ none
        → find_block eq hash k h (pick bits i xs) ≡ none
    pick-absent bits i h k [] f = refl
    pick-absent bits i h k (x ∷ xs) f = elim (Bool-cases (entry_matches eq hash x k h)) [
      | inl here ↦ absurd (some-none (rw here at f))
      | inr later ↦
          let rest = pick-absent bits i h k xs (rw later at f) in
          elim (Bool-cases (x.hash % 2 ^ bits == i)) [
            | inl at_i ↦ rw (at_i) (rw later rest)
            | inr other ↦ rw other rest
          ]
    ]
      where
        some-none : some x.val ≢ none
        some-none e = cc

    module _ (eq_sound : (a b : K) → eq a b ≡ true → a ≡ b)
        (eq_refl : (a : K) → eq a a ≡ true) where
      pick-IsDistinct :
          (bits i : ℕ) (xs : List (Entry K V))
          → IsDistinct eq hash eq_sound eq_refl xs
          → IsDistinct eq hash eq_sound eq_refl (pick bits i xs)
      pick-IsDistinct bits i [] d = tt
      pick-IsDistinct bits i (x ∷ xs) d = elim (Bool-cases (x.hash % 2 ^ bits == i)) [
        | inl here ↦
            rw here
              (pick-absent bits i (hash x.key) x.key xs d.0, d.1, pick-IsDistinct bits i xs d.2)
        | inr other ↦ rw other (pick-IsDistinct bits i xs d.2)
      ]

      -- Every entry is in the bucket of its hash.
      abbrev pub IsPlaced : Table K V → Type 0
      IsPlaced t = (i : ℕ) → IsAt t.bucket_bits i (flatten (t.heads i))

      -- What a rehash leaves as it was.
      pub record Rehashed (t r : Table K V) : Type 0 where
        pub valid : IsValid eq hash eq_sound eq_refl r
        pub placed : IsPlaced r
        pub same : (k : K) → get eq hash k r ≡ get eq hash k t
        pub counted : r.entry_count ≡ t.entry_count
        pub doubled : r.bucket_bits ≡ t.bucket_bits + 1

      pub rehashed-Rehashed :
          (t : Table K V)
          → IsValid eq hash eq_sound eq_refl t
          → IsPlaced t
          → Rehashed t (rehashed t)
      unfolding rehashed get
      rehashed-Rehashed t v at = record {
        valid = λ i. rw (heads-rehash t i at) (
            pick-IsDistinct (t.bucket_bits + 1) i (flatten (t.heads (i % 2 ^ t.bucket_bits)))
              (v (i % 2 ^ t.bucket_bits)));
        placed = λ i.
            rw (heads-rehash t i at)
              (pick-IsAt (t.bucket_bits + 1) i (flatten (t.heads (i % 2 ^ t.bucket_bits))));
        same = λ k.
            let h = hash k in
            let i = h % 2 ^ (t.bucket_bits + 1) in
            find_chain-flatten eq hash eq_sound eq_refl k h ((rehashed t).heads i)
            ∙ (rw (heads-rehash t i at, mod_halves h t.bucket_bits)
                  (find-pick (t.bucket_bits + 1) h k (flatten (t.heads (h % 2 ^ t.bucket_bits))))
                ∙ sym (
                    find_chain-flatten eq hash eq_sound eq_refl k h
                      (t.heads (h % 2 ^ t.bucket_bits))));
        counted = refl;
        doubled = refl;
      }

      -- If the table has fewer than 31 bucket bits, every entry is in the bucket of its hash
      -- and no bucket holds a key twice, the rehash has a defined bucket count, keeps both for
      -- twice as many buckets, changes get of no key, and keeps the entry count.
      pub rehash_locked-Rehashed :
          (t : Table K V)
          → t.bucket_bits < 31
          → IsValid eq hash eq_sound eq_refl t
          → IsPlaced t
          → (r : Table K V) × (rehash_locked t ≡ some r) × Rehashed t r
      unfolding rehash_locked
      rehash_locked-Rehashed t small v at =
          let defined : ltb 31 (t.bucket_bits + 1) ≡ false = ground (arith, small) in
          (rehashed t, rw defined refl, rehashed-Rehashed t v at)
