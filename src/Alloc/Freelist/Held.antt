-- ===== src/Alloc/Freelist/Held.antt =====
-- The invariant of a class, and what its loops keep of it.
use yikv.Prelude.{
  ℕ, zero, suc, ◌+◌, ◌*◌, ◌≤◌, ◌<◌, ◌≡◌, refl, sym, ap, ◌≢◌, ◌∙◌, inl, inr, ◌⊎◌, Bool, true, false,
  ◌||◌, List, [], ◌∷◌, ◌++◌, Option, none, some, arith, ltb, ◌==◌, if◌then◌else◌, length,
  Bool-cases,
}
use yikv.Alloc.Freelist.{
  Flag, free, allocated, delayed, Class, set_flag, push_free, fill_blocks, refill, refill_class,
  pop_cached, flush, push_cached, free_small_immediate, free_small_delayed,
}

abbrev pub copies : ℕ → List ℕ → ℕ
copies z [] = 0
copies z (x ∷ xs) = (if z == x then 1 else 0) + copies z xs

abbrev pub copies_delayed : ℕ → List (ℕ × ℕ) → ℕ
copies_delayed z [] = 0
copies_delayed z ((x, ts) ∷ xs) = (if z == x then 1 else 0) + copies_delayed z xs

abbrev pub is_allocated : Flag → Bool
is_allocated allocated = true
is_allocated free = false
is_allocated delayed = false

-- In how many places a block is.
abbrev pub listed : ℕ → Class → ℕ
listed z c = copies z c.cached + copies z c.free_list + copies_delayed z c.delayed_list

abbrev pub held : ℕ → Class → ℕ
held z c = listed z c + (if is_allocated (c.flags z) then 1 else 0)

abbrev pub IsValid : Class → Type 0
IsValid c = (z : ℕ) → held z c ≤ 1

-- The blocks of a new slab are nowhere yet.
abbrev pub IsFresh : ℕ → ℕ → Class → Type 0
IsFresh n off c = (i : ℕ) → i < n → held (off + i * c.block_size) c ≡ 0

pub copies_delayed-snoc :
    (z off ts : ℕ) (xs : List (ℕ × ℕ))
    → copies_delayed z (xs ++ ((off, ts) ∷ [])) ≡ copies_delayed z xs + (if z == off then 1 else 0)
copies_delayed-snoc z off ts [] = omega arith
copies_delayed-snoc z off ts ((x, t) ∷ xs) = omega (arith, copies_delayed-snoc z off ts xs)

pub push_free-held :
    (z off : ℕ) (c : Class)
    → is_allocated (c.flags off) ≡ false
    → held z (push_free off c) ≡ held z c + (if z == off then 1 else 0)
push_free-held z off c h = ground (arith, λ (e : z ≡ off). ap (λ o. is_allocated (c.flags o)) e)

pub fill_blocks-IsValid :
    (n off : ℕ) (c : Class)
    → 0 < c.block_size
    → IsValid c
    → IsFresh n off c
    → IsValid (fill_blocks n off c)
      × ((z : ℕ) → is_allocated ((fill_blocks n off c).flags z) ≡ is_allocated (c.flags z))
unfolding fill_blocks
fill_blocks-IsValid zero off c b v f = (v, λ z. refl)
fill_blocks-IsValid (suc n) off c b v f =
    let nowhere : held off c ≡ 0 = ap (λ o. held o c) (omega arith) ∙ f 0 (omega arith) in
    let idle : is_allocated (c.flags off) ≡ false = ground arith in
    let c₁ = push_free off c in
    let r =
      fill_blocks-IsValid n (off + c.block_size) c₁ b
        (λ z.
          ground (
            arith,
            push_free-held z off c idle,
            v z,
            nowhere,
            λ (e : z ≡ off). ap (λ o. held o c) e,
          ))
        (λ i l.
          let next : off + suc i * c.block_size ≡ off + c.block_size + i * c.block_size =
            ground arith in
          let zero_held : held (off + c.block_size + i * c.block_size) c ≡ 0 =
            ap (λ o. held o c) (sym next) ∙ f (suc i) (omega arith) in
          ground (arith, push_free-held (off + c.block_size + i * c.block_size) off c idle)) in
    (r.0, λ z. r.1 z ∙ ground (arith, λ (e : z ≡ off). ap (λ o. is_allocated (c.flags o)) e))

pub refill-held :
    (z n : ℕ) (fs cached : List ℕ)
    → copies z (refill n fs cached).0 + copies z (refill n fs cached).1
      ≡ copies z fs + copies z cached
refill-held z zero fs cached = refl
refill-held z (suc n) [] cached = refl
refill-held z (suc n) (off ∷ fs) cached = omega (arith, refill-held z n fs (off ∷ cached))

module _ (c : Class) (off : ℕ) (rest : List ℕ) (e : c.cached ≡ off ∷ rest) (v : IsValid c) where
  pub listed_off : (1 ≤ listed off c) × (is_allocated (c.flags off) ≡ false)
  listed_off =
      let one : 1 ≤ copies off c.cached = rw e (ground arith) in
      (omega (arith, one), ground (arith, v off))

  move-held : (z : ℕ) → held z (push_free off (record c { cached = rest })) ≡ held z c
  move-held z =
      rw e (ground (arith, push_free-held z off (record c { cached = rest }) listed_off.1))

pub List-cases : (xs : List ℕ) → (xs ≡ []) ⊎ ((x : ℕ) × (ys : List ℕ) × (xs ≡ x ∷ ys))
List-cases [] = inl refl
List-cases (x ∷ ys) = inr (x, ys, refl)

pub flush-IsValid :
    (n : ℕ) (c : Class)
    → IsValid c
    → IsValid (flush n c)
      × ((z : ℕ) → is_allocated ((flush n c).flags z) ≡ is_allocated (c.flags z))
flush-IsValid zero c v = (v, λ z. refl)
flush-IsValid (suc n) c v = elim (List-cases c.cached) [
  | inl e ↦ rw (e, flush) (v, λ z. refl)
  | inr (off, rest, e) ↦
      let r =
        flush-IsValid n (push_free off (record c { cached = rest }))
          (λ z. ground (arith, move-held c off rest e v z, v z)) in
      rw (e, flush)
        (
          r.0,
          λ z.
              r.1 z
              ∙ ground (
                arith,
                (listed_off c off rest e v).1,
                λ (e : z ≡ off). ap (λ o. is_allocated (c.flags o)) e,
              ),
        )
]

-- What a successful allocation does.
pub record HandedOut (c : Class) (off : ℕ) (r : Class) : Type 0 where
  pub valid : IsValid r
  pub was_idle : is_allocated (c.flags off) ≡ false
  pub owned : (z : ℕ) → is_allocated (r.flags z) ≡ (z == off || is_allocated (c.flags z))

pub pop_cached-HandedOut :
    (c r : Class) (off : ℕ) → IsValid c → pop_cached c ≡ some (off, r) → HandedOut c off r
pop_cached-HandedOut c r off v e = elim (List-cases c.cached) [
  | inl f ↦ absurd (none-some (rw (f, pop_cached) at e))
  | inr (x, rest, f) ↦
      let c₁ = set_flag x allocated c in
      let top : Option (ℕ × Class) = some (x, record c₁ { cached = rest }) in
      let popped : top ≡ some (off, r) = rw (f, pop_cached) at e in
      let same : x ≡ off = cc in
      let state : record c₁ { cached = rest } ≡ r = cc in
      let l = listed_off c x rest f v in
      let kept : (z : ℕ) → held z (record c₁ { cached = rest }) ≤ 1 =
        λ z. ground (arith, v z, f, l, λ (d : z ≡ x). ap (λ o. is_allocated (c.flags o)) d) in
      rw (← state, ← same)
        (record { valid = λ z. kept z; was_idle = l.1; owned = λ z. ground arith })
]
  where
    nothing : Option (ℕ × Class)
    nothing = none

    none-some : nothing ≢ some (off, r)
    none-some d = cc

pub free_small_immediate-IsValid :
    (off : ℕ) (c : Class)
    → IsValid c
    → is_allocated (c.flags off) ≡ true
    → IsValid (free_small_immediate off c)
unfolding free_small_immediate
free_small_immediate-IsValid off c v a = elim (Bool-cases (ltb (length c.cached) 32)) [
  | inl room ↦ rw room (push c v a)
  | inr full ↦ let r = flush-IsValid 16 c v in rw full (push (flush 16 c) r.0 (r.1 off ∙ a))
]
  where
    push : (d : Class) → IsValid d → is_allocated (d.flags off) ≡ true → IsValid (push_cached off d)
    push d w b z = ground (arith, w z, λ (e : z ≡ off). ap (λ o. is_allocated (d.flags o)) e)

pub free_small_delayed-IsValid :
    (ts off : ℕ) (c : Class)
    → IsValid c
    → is_allocated (c.flags off) ≡ true
    → IsValid (free_small_delayed ts off c)
unfolding free_small_delayed
free_small_delayed-IsValid ts off c v a z = ground (
  arith,
  v z,
  copies_delayed-snoc z off ts c.delayed_list,
  λ (e : z ≡ off). ap (λ o. is_allocated (c.flags o)) e,
)

pub refill_class-IsValid :
    (c : Class)
    → IsValid c
    → IsValid (refill_class c)
      × ((z : ℕ) → is_allocated ((refill_class c).flags z) ≡ is_allocated (c.flags z))
refill_class-IsValid c v =
    (λ z. omega (arith, v z, refill-held z 16 c.free_list c.cached), λ z. refl)
