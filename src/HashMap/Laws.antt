-- ===== src/HashMap/Laws.antt =====
-- The operations of the table against those of a finite map.
use yikv.Prelude.{
  ℕ, ◌+◌, ◌-◌, ◌≡◌, refl, sym, ap, ◌∙◌, inl, inr, Bool, true, false, List, Option, none, some,
  arith, ◌==◌, if◌then◌else◌, Bool-cases,
}
use yikv.HashMap.{Entry, flatten, Table, bucket, find_chain, get, is_some, put, erase_chain, erase}
use yikv.HashMap.Chains.{
  find_chain-flatten, IsDistinct, flatten-erase, find-erase, find-erased, IsDistinct-IsHashed,
  erase-IsDistinct, new_chain, new_chain_lem,
}

module _ {K V : Type 0} (eq : K → K → Bool) (hash : K → ℕ)
    (eq_sound : (a b : K) → eq a b ≡ true → a ≡ b) (eq_refl : (a : K) → eq a a ≡ true) where
  -- Every bucket holds each key once at most.
  abbrev pub IsValid : Table K V → Type 0
  IsValid t = (i : ℕ) → IsDistinct eq hash eq_sound eq_refl (flatten (t.heads i))

  -- What a `put` does to every lookup.
  pub record Put (k : K) (v : V) (t r : Table K V) : Type 0 where
    pub valid : IsValid r
    pub found : get eq hash k r ≡ some v
    pub others : (j : K) → eq j k ≡ false → get eq hash j r ≡ get eq hash j t
    pub counted :
        r.entry_count
        ≡ (if is_some eq hash (get eq hash k t) then t.entry_count else t.entry_count + 1)

  -- If eq decides equality of keys and every bucket holds each key once at most with its hash,
  -- then put without a rehash keeps that, makes get of the key return the value, changes get of
  -- no other key, and counts the key exactly if it is new.
  pub put-Put : (k : K) (v : V) (t : Table K V) → IsValid t → Put k v t (put eq hash k v t)
  unfolding put get new_chain
  put-Put k v t w =
      let i = bucket eq hash t (hash k) in
      let c = new_chain_lem eq hash eq_sound eq_refl k v (t.heads i) (w i) in
      record {
        valid = λ b. distinct b c.0;
        found = rw (same_bucket i) c.1;
        others = λ j d. other j d (bucket eq hash t (hash j)) (c.2 j d);
        counted = refl;
      }
    where
      same_bucket : (n : ℕ) → (n == n) ≡ true
      same_bucket n = ground arith

      distinct :
          (b : ℕ)
          → IsDistinct eq hash eq_sound eq_refl (
              flatten
                (new_chain eq hash eq_sound eq_refl k v (t.heads (bucket eq hash t (hash k)))))
          → IsDistinct eq hash eq_sound eq_refl (flatten ((put eq hash k v t).heads b))
      distinct b n = elim (Bool-cases (b == bucket eq hash t (hash k))) [
        | inl e ↦ rw e n
        | inr e ↦ rw e (w b)
      ]

      other :
          (j : K)
          → eq j k ≡ false
          → (b : ℕ)
          → find_chain eq hash j
              (hash j)
              (new_chain eq hash eq_sound eq_refl k v (t.heads (bucket eq hash t (hash k))))
            ≡ find_chain eq hash j (hash j) (t.heads (bucket eq hash t (hash k)))
          → find_chain eq hash j (hash j) ((put eq hash k v t).heads b)
            ≡ find_chain eq hash j (hash j) (t.heads b)
      other j d b n = elim (Bool-cases (b == bucket eq hash t (hash k))) [
        | inr e ↦ rw e refl
        | inl e ↦
            let same : b ≡ bucket eq hash t (hash k) = ground arith in
            rw e (n ∙ ap (λ z. find_chain eq hash j (hash j) (t.heads z)) (sym same))
      ]

  -- What an `erase` does to every lookup.
  pub record Erased (k : K) (t : Table K V) (done : Bool) (r : Table K V) : Type 0 where
    pub valid : IsValid r
    pub found : get eq hash k r ≡ none
    pub others : (j : K) → eq j k ≡ false → get eq hash j r ≡ get eq hash j t
    pub reported : done ≡ is_some eq hash (get eq hash k t)

  module _ (k : K) (t : Table K V) (w : IsValid t) where
    erased_chain : List (List (Entry K V))
    erased_chain = erase_chain eq hash k (hash k) (t.heads (bucket eq hash t (hash k)))

    erased_table : Table K V
    erased_table = record t {
      heads = λ i.
          if i == bucket eq hash t (hash k)
          then erase_chain eq hash k (hash k) (t.heads (bucket eq hash t (hash k)))
          else t.heads i;
      entry_count = t.entry_count - 1;
    }

    erased_table-Erased : is_some eq hash (get eq hash k t) ≡ true → Erased k t true erased_table
    unfolding get erased_table
    erased_table-Erased there =
        let b = bucket eq hash t (hash k) in
        let fl = flatten-erase eq hash eq_sound eq_refl k (t.heads b) in
        record {
          valid = λ i. distinct i;
          found = rw (same_bucket b) (
              find_chain-flatten eq hash eq_sound eq_refl k (hash k)
                (erase_chain eq hash k (hash k) (t.heads b))
              ∙ rw fl (find-erased eq hash eq_sound eq_refl k (flatten (t.heads b)) (w b)));
          others = λ j d. other j d (bucket eq hash t (hash j));
          reported = sym there;
        }
      where
        same_bucket : (n : ℕ) → (n == n) ≡ true
        same_bucket n = ground arith

        distinct : (i : ℕ) → IsDistinct eq hash eq_sound eq_refl (flatten (erased_table.heads i))
        distinct i = elim (Bool-cases (i == bucket eq hash t (hash k))) [
          | inl e ↦ rw e (
              rw (flatten-erase eq hash eq_sound eq_refl k (t.heads (bucket eq hash t (hash k)))) (
                erase-IsDistinct eq hash eq_sound eq_refl k
                  (flatten (t.heads (bucket eq hash t (hash k)))) (w (bucket eq hash t (hash k)))))
          | inr e ↦ rw e (w i)
        ]

        other :
            (j : K)
            → eq j k ≡ false
            → (i : ℕ)
            → find_chain eq hash j (hash j) (erased_table.heads i)
              ≡ find_chain eq hash j (hash j) (t.heads i)
        other j d i = elim (Bool-cases (i == bucket eq hash t (hash k))) [
          | inr e ↦ rw e refl
          | inl e ↦
              let b = bucket eq hash t (hash k) in
              let same : i ≡ b = ground arith in
              let fl = flatten-erase eq hash eq_sound eq_refl k (t.heads b) in
              rw e (
                find_chain-flatten eq hash eq_sound eq_refl j (hash j)
                  (erase_chain eq hash k (hash k) (t.heads b))
                ∙ (rw fl (
                      find-erase eq hash eq_sound eq_refl j k (flatten (t.heads b))
                        (IsDistinct-IsHashed eq hash eq_sound eq_refl (flatten (t.heads b)) (w b))
                        d)
                    ∙ (sym (find_chain-flatten eq hash eq_sound eq_refl j (hash j) (t.heads b))
                        ∙ ap (λ z. find_chain eq hash j (hash j) (t.heads z)) (sym same))))
        ]

    -- If eq decides equality of keys and every bucket holds each key once at most with its
    -- hash, then erase keeps that, makes get of the key find nothing, changes get of no other
    -- key, and returns whether the key was there.
    pub erase-Erased : Erased k t (erase eq hash k t).0 (erase eq hash k t).1
    unfolding erase get erased_table
    erase-Erased = elim (Bool-cases (is_some eq hash (get eq hash k t))) [
      | inl there ↦ rw there (erased_table-Erased there)
      | inr absent ↦ rw absent (record {
        valid = w;
        found = nothing (get eq hash k t) absent;
        others = λ j d. refl;
        reported = sym absent;
      })
    ]
      where
        nothing : (o : Option V) → is_some eq hash o ≡ false → o ≡ none
        nothing none e = refl
        nothing (some v) e = cc
