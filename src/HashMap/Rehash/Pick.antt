-- ===== src/HashMap/Rehash/Pick.antt =====
-- The entries that one bucket of a table has, picked by their hash, against the buckets before and
-- after a rehash.
use yikv.Prelude.{
  append-nil, ℕ, zero, suc, ◌+◌, ◌*◌, ◌%◌, ◌^◌, ◌≡◌, ◌≢◌, refl, sym, ap, ◌∙◌, inl, inr, true, false,
  ◌&&◌, List, [], ◌∷◌, ◌++◌, arith, ltb, leb, ◌==◌, if◌then◌else◌, Bool-cases,
}
use native.Mathlib.Nat.{dvd-mul_left, mod-mod_of_dvd, pow-succ'}
use yikv.HashMap.{Entry, flatten}
use yikv.HashMap.Rehash.{collect_entries}

-- The bucket of a hash in the larger table determines that in the smaller.
pub mod_halves : (h b : ℕ) → h % 2 ^ (b + 1) % 2 ^ b ≡ h % 2 ^ b
mod_halves h b = rw (double b) (mod-mod_of_dvd (2 ^ b) h (dvd-mul_left (2 ^ b) 2))
  where
    double : (b : ℕ) → 2 ^ (b + 1) ≡ 2 * 2 ^ b
    double b = ap (λ z. 2 ^ z) (next b) ∙ pow-succ' 2 b
      where
        next : (b : ℕ) → b + 1 ≡ suc b
        next b = omega arith

module _ {K V : Type 0} where
  -- The entries of bucket `i` among `2 ^ bits`.
  abbrev pub pick : ℕ → ℕ → List (Entry K V) → List (Entry K V)
  pick bits i [] = []
  pick bits i (e ∷ es) = if e.hash % 2 ^ bits == i then e ∷ pick bits i es else pick bits i es

  -- All entries of a bucket belong there.
  abbrev pub IsAt : ℕ → ℕ → List (Entry K V) → Type 0
  IsAt bits i [] = Unit {0}
  IsAt bits i (e ∷ es) = (e.hash % 2 ^ bits ≡ i) × IsAt bits i es

  pub pick-append :
      (bits i : ℕ) (xs ys : List (Entry K V))
      → pick bits i (xs ++ ys) ≡ pick bits i xs ++ pick bits i ys
  pick-append bits i [] ys = refl
  pick-append bits i (x ∷ xs) ys = elim (Bool-cases (x.hash % 2 ^ bits == i)) [
    | inl here ↦ rw here (ap (λ r. x ∷ r) (pick-append bits i xs ys))
    | inr other ↦ rw other (pick-append bits i xs ys)
  ]

  pub pick-IsAt : (bits i : ℕ) (xs : List (Entry K V)) → IsAt bits i (pick bits i xs)
  pick-IsAt bits i [] = tt
  pick-IsAt bits i (x ∷ xs) = elim (Bool-cases (x.hash % 2 ^ bits == i)) [
    | inl here ↦ rw here (ground (arith, here), pick-IsAt bits i xs)
    | inr other ↦ rw other (pick-IsAt bits i xs)
  ]

  -- Nothing of another old bucket lands in a new one.
  pub pick-elsewhere :
      (bits i b : ℕ) (xs : List (Entry K V))
      → b ≢ i % 2 ^ bits
      → IsAt bits b xs
      → pick (bits + 1) i xs ≡ []
  pick-elsewhere bits i b [] d at = refl
  pick-elsewhere bits i b (x ∷ xs) d at = elim (Bool-cases (x.hash % 2 ^ (bits + 1) == i)) [
    | inr other ↦ rw other (pick-elsewhere bits i b xs d at.1)
    | inl here ↦
        let same : x.hash % 2 ^ (bits + 1) ≡ i = ground (arith, here) in
        absurd (d (sym at.0 ∙ (sym (mod_halves x.hash bits) ∙ ap (λ z. z % 2 ^ bits) same)))
  ]

  -- What a new bucket gets of all entries is what it gets of one old bucket.
  pub pick-collect :
      (bits i b n : ℕ) (heads : ℕ → List (List (Entry K V)))
      → ((j : ℕ) → IsAt bits j (flatten (heads j)))
      → pick (bits + 1) i (collect_entries b n heads) ≡ (
          if leb b (i % 2 ^ bits) && ltb (i % 2 ^ bits) (b + n)
          then pick (bits + 1) i (flatten (heads (i % 2 ^ bits)))
          else [])
  unfolding collect_entries
  pick-collect bits i b zero heads at = rw (none_left b (i % 2 ^ bits)) refl
    where
      none_left : (b m : ℕ) → (leb b m && ltb m (b + 0)) ≡ false
      none_left b m = ground arith
  pick-collect bits i b (suc n) heads at =
      pick-append (bits + 1) i (flatten (heads b)) (collect_entries (suc b) n heads)
      ∙ rw (pick-collect bits i (suc b) n heads at) (elim (Bool-cases (b == i % 2 ^ bits)) [
        | inl here ↦
            let same : b ≡ i % 2 ^ bits = ground (arith, here) in
            rw (past b (i % 2 ^ bits) n same, within b (i % 2 ^ bits) n same, same)
              (append-nil (pick (bits + 1) i (flatten (heads (i % 2 ^ bits)))))
        | inr other ↦
            let differs : b ≢ i % 2 ^ bits = ground (arith, other) in
            rw
              (
                pick-elsewhere bits i b (flatten (heads b)) differs (at b),
                shift b (i % 2 ^ bits) n differs,
              )
              refl
      ])
    where
      past : (b m n : ℕ) → b ≡ m → (leb (suc b) m && ltb m (suc b + n)) ≡ false
      past b m n e = ground arith

      within : (b m n : ℕ) → b ≡ m → (leb b m && ltb m (b + suc n)) ≡ true
      within b m n e = ground arith

      shift :
          (b m n : ℕ)
          → b ≢ m
          → (leb (suc b) m && ltb m (suc b + n)) ≡ (leb b m && ltb m (b + suc n))
      shift b m n d = ground arith
