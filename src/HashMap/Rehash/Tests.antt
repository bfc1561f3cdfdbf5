-- ===== src/HashMap/Rehash/Tests.antt =====
-- A table of two buckets that is full when a thread does its 64th `put`.
use yikv.Prelude.{some, true, zero, suc, ◌*◌, ℕ, ◌≡◌, refl, Bool, List, [], ◌∷◌, arith, ◌==◌}
use yikv.HashMap.{Entry, Table}
use yikv.HashMap.Rehash.{
  Shared, returns, put_loop, rehash_locked, rehashed, collect_entries, reinsert_all, insert_chain,
}
use yikv.HashMap.Rehash.Laws.{IsPlaced, Rehashed, rehash_locked-Rehashed}
use yikv.HashMap.Rehash.Loop.{Stored, put_loop-Stored}
use yikv.HashMap.Laws.{IsValid}

abbrev same : ℕ → ℕ → Bool
same a b = a == b

abbrev itself : ℕ → ℕ
itself a = a

same_sound : (a b : ℕ) → same a b ≡ true → a ≡ b
same_sound a b e = ground arith

same_refl : (a : ℕ) → same a a ≡ true
same_refl a = ground arith

abbrev entry : ℕ → Entry ℕ ℕ
entry n = record { hash = n; key = n; val = n * 10 }

abbrev two_heads : ℕ → List (List (Entry ℕ ℕ))
two_heads zero = (entry 2 ∷ entry 4 ∷ []) ∷ []
two_heads (suc zero) = (entry 1 ∷ entry 3 ∷ []) ∷ []
two_heads (suc (suc i)) = []

abbrev full : Table ℕ ℕ
full = record { bucket_bits = 1; heads = two_heads; entry_count = 4 }

full-IsValid : IsValid same itself same_sound same_refl full
full-IsValid zero = (refl, refl, (refl, refl, tt))
full-IsValid (suc zero) = (refl, refl, (refl, refl, tt))
full-IsValid (suc (suc i)) = tt

full-IsPlaced : IsPlaced same itself same_sound same_refl full
full-IsPlaced zero = (refl, (refl, tt))
full-IsPlaced (suc zero) = (refl, (refl, tt))
full-IsPlaced (suc (suc i)) = tt

rehash_locked-Rehashed_example :
    (r : Table ℕ ℕ) × (rehash_locked full ≡ some r)
    × Rehashed same itself same_sound same_refl full r
rehash_locked-Rehashed_example =
    rehash_locked-Rehashed same itself same_sound same_refl full (omega arith) full-IsValid
      full-IsPlaced

abbrev shared : Shared ℕ ℕ
shared = record { table = full; table_seq = 0; tl_put_count = 63 }

put_loop-Stored_example :
    (r : Shared ℕ ℕ) × (put_loop same itself 2 5 50 shared ≡ returns r)
    × Stored same itself same_sound same_refl 5 50 shared r
put_loop-Stored_example =
    put_loop-Stored same itself same_sound same_refl 0 5 50 shared refl (omega arith) full-IsValid
      full-IsPlaced

-- After the rehash there are four buckets, and the new key is in the second.
second_bucket : (rehashed full).heads 3 ≡ (entry 3 ∷ []) ∷ []
unfolding rehashed collect_entries reinsert_all insert_chain
second_bucket = refl
