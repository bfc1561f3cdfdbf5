-- ===== src/HashMap/Tests.antt =====
-- A table of two buckets over numbers, which hash to themselves.
use yikv.Prelude.{ℕ, ◌≡◌, refl, Bool, true, [], some, arith, ◌==◌}
use yikv.HashMap.{Table, get, find_chain, put, update_chain, append_chain, erase}
use yikv.HashMap.Laws.{IsValid, Put, put-Put, Erased, erase-Erased}

abbrev same : ℕ → ℕ → Bool
same a b = a == b

abbrev itself : ℕ → ℕ
itself a = a

abbrev nothing : Table ℕ ℕ
nothing = record { bucket_bits = 1; heads = λ i. []; entry_count = 0 }

same_sound : (a b : ℕ) → same a b ≡ true → a ≡ b
same_sound a b e = ground arith

same_refl : (a : ℕ) → same a a ≡ true
same_refl a = ground arith

nothing-IsValid : IsValid same itself same_sound same_refl nothing
nothing-IsValid i = tt

abbrev one : Table ℕ ℕ
one = put same itself 3 30 nothing

one-Put : Put same itself same_sound same_refl 3 30 nothing one
one-Put = put-Put same itself same_sound same_refl 3 30 nothing nothing-IsValid

put-Put_example : Put same itself same_sound same_refl 5 50 one (put same itself 5 50 one)
put-Put_example = put-Put same itself same_sound same_refl 5 50 one one-Put.valid

erase-Erased_example :
    Erased same itself same_sound same_refl 3 one
      (erase same itself 3 one).0
      (erase same itself 3 one).1
erase-Erased_example = erase-Erased same itself same_sound same_refl 3 one one-Put.valid

get_one : get same itself 3 one ≡ some 30
unfolding get find_chain put update_chain append_chain
get_one = refl
