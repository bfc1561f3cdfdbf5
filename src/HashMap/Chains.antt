-- ===== src/HashMap/Chains.antt =====
-- The walks over a bucket chain against those over the list of its entries.
use yikv.Prelude.{
  append-nil, append_assoc, ℕ, ◌≡◌, refl, sym, ap, subst, ◌≢◌, ◌∙◌, inl, inr, Bool, true, false,
  List, [], ◌∷◌, ◌++◌, Option, none, some, arith, ltb, if◌then◌else◌, length, Bool-cases,
  Option-cases,
}
use yikv.HashMap.{
  Entry, flatten, entry_matches, make_entry, find_block, find_chain, is_some, update_block,
  update_chain, append_chain, erase_block, erase_chain,
}

module _ {K V : Type 0} (eq : K → K → Bool) (hash : K → ℕ)
    (eq_sound : (a b : K) → eq a b ≡ true → a ≡ b) (eq_refl : (a : K) → eq a a ≡ true) where
  pub or_later : Option V → Option V → Option V
  or_later o later = elim o [ some v ↦ some v | none ↦ later ]

  pub find-append :
      (k : K) (h : ℕ) (xs ys : List (Entry K V))
      → find_block eq hash k h (xs ++ ys)
        ≡ or_later (find_block eq hash k h xs) (find_block eq hash k h ys)
  unfolding or_later
  find-append k h [] ys = refl
  find-append k h (x ∷ xs) ys = elim (Bool-cases (entry_matches eq hash x k h)) [
    | inl here ↦ rw here refl
    | inr later ↦ rw later (find-append k h xs ys)
  ]

  pub find_chain-flatten :
      (k : K) (h : ℕ) (bs : List (List (Entry K V)))
      → find_chain eq hash k h bs ≡ find_block eq hash k h (flatten bs)
  unfolding find_chain or_later
  find_chain-flatten k h [] = refl
  find_chain-flatten k h (b ∷ bs) =
      ap (λ r. or_later (find_block eq hash k h b) r) (find_chain-flatten k h bs)
      ∙ sym (find-append k h b (flatten bs))

  abbrev pub erase_first : K → ℕ → List (Entry K V) → List (Entry K V)
  erase_first k h [] = []
  erase_first k h (e ∷ es) = if entry_matches eq hash e k h then es else e ∷ erase_first k h es

  -- No key is in a list twice.
  abbrev pub IsDistinct : List (Entry K V) → Type 0
  IsDistinct [] = Unit {0}
  IsDistinct (e ∷ es) =
      (find_block eq hash e.key (hash e.key) es ≡ none) × (e.hash ≡ hash e.key) × IsDistinct es

  -- Two keys that the table tells apart.
  pub matches-same :
      (e : Entry K V) (k : K)
      → e.hash ≡ hash e.key
      → entry_matches eq hash e k (hash k) ≡ eq e.key k
  matches-same e k h = elim (Bool-cases (eq e.key k)) [
    | inl s ↦
        let same : hash e.key ≡ hash k = ap hash (eq_sound e.key k s) in ground (arith, h, same)
    | inr d ↦ ground (arith, d)
  ]

  -- The flat effect of the three walks over a chain.
  pub flatten-update :
      (k : K) (v : V) (bs : List (List (Entry K V)))
      → flatten (update_chain eq hash k (hash k) v bs)
        ≡ update_block eq hash k (hash k) v (flatten bs)
  unfolding update_chain
  flatten-update k v [] = refl
  flatten-update k v (b ∷ bs) = elim (Option-cases (find_block eq hash k (hash k) b)) [
    | inr (w, f) ↦ rw f (sym (update-front b w f))
    | inl f ↦ rw f (ap (λ r. b ++ r) (flatten-update k v bs) ∙ sym (update-back b f))
  ]
    where
      update-front :
          (b : List (Entry K V)) (w : V)
          → find_block eq hash k (hash k) b ≡ some w
          → update_block eq hash k (hash k) v (b ++ flatten bs)
            ≡ update_block eq hash k (hash k) v b ++ flatten bs
      update-front [] w f = cc
      update-front (x ∷ xs) w f = elim (Bool-cases (entry_matches eq hash x k (hash k))) [
        | inl here ↦ rw here refl
        | inr later ↦ rw later (ap (λ r. x ∷ r) (update-front xs w (rw later at f)))
      ]

      update-back :
          (b : List (Entry K V))
          → find_block eq hash k (hash k) b ≡ none
          → update_block eq hash k (hash k) v (b ++ flatten bs)
            ≡ b ++ update_block eq hash k (hash k) v (flatten bs)
      update-back [] f = refl
      update-back (x ∷ xs) f = elim (Bool-cases (entry_matches eq hash x k (hash k))) [
        | inl here ↦ absurd (some-none (rw here at f))
        | inr later ↦ rw later (ap (λ r. x ∷ r) (update-back xs (rw later at f)))
      ]
        where
          some-none : some x.val ≢ none
          some-none e = cc

  pub flatten-append :
      (e : Entry K V) (bs : List (List (Entry K V)))
      → flatten (append_chain eq hash e bs) ≡ flatten bs ++ (e ∷ [])
  unfolding append_chain
  flatten-append e [] = refl
  flatten-append e (b ∷ []) = elim (Bool-cases (ltb (length b) 4)) [
    | inl room ↦ rw room (append-nil (b ++ (e ∷ [])) ∙ ap (λ r. r ++ (e ∷ [])) (sym (append-nil b)))
    | inr full ↦ rw full (ap (λ r. r ++ (e ∷ [])) (sym (append-nil b)))
  ]
  flatten-append e (b ∷ c ∷ cs) =
      ap (λ r. b ++ r) (flatten-append e (c ∷ cs))
      ∙ sym (append_assoc b (flatten (c ∷ cs)) (e ∷ []))

  pub flatten-erase :
      (k : K) (bs : List (List (Entry K V)))
      → flatten (erase_chain eq hash k (hash k) bs) ≡ erase_first k (hash k) (flatten bs)
  unfolding erase_chain
  flatten-erase k [] = refl
  flatten-erase k (b ∷ bs) = elim (Option-cases (find_block eq hash k (hash k) b)) [
    | inl f ↦ rw f (ap (λ r. b ++ r) (flatten-erase k bs) ∙ sym (erase-back b f))
    | inr (w, f) ↦ elim (Bool-cases (ltb 1 (length b))) [
      | inl more ↦ rw (f, more) (sym (erase-front b w f))
      | inr single ↦ rw (f, single) (sym (erase-single b w f single))
    ]
  ]
    where
      erase-front :
          (b : List (Entry K V)) (w : V)
          → find_block eq hash k (hash k) b ≡ some w
          → erase_first k (hash k) (b ++ flatten bs)
            ≡ erase_block eq hash k (hash k) b ++ flatten bs
      erase-front [] w f = cc
      erase-front (x ∷ xs) w f = elim (Bool-cases (entry_matches eq hash x k (hash k))) [
        | inl here ↦ rw here refl
        | inr later ↦ rw later (ap (λ r. x ∷ r) (erase-front xs w (rw later at f)))
      ]

      erase-single :
          (b : List (Entry K V)) (w : V)
          → find_block eq hash k (hash k) b ≡ some w
          → ltb 1 (length b) ≡ false
          → erase_first k (hash k) (b ++ flatten bs) ≡ flatten bs
      erase-single [] w f s = cc
      erase-single (x ∷ y ∷ ys) w f s = absurd (ground arith)
      erase-single (x ∷ []) w f s = elim (Bool-cases (entry_matches eq hash x k (hash k))) [
        | inl here ↦ rw here refl
        | inr later ↦ absurd (none-some (rw later at f))
      ]
        where
          nothing : Option V
          nothing = none

          none-some : nothing ≢ some w
          none-some e = cc

      erase-back :
          (b : List (Entry K V))
          → find_block eq hash k (hash k) b ≡ none
          → erase_first k (hash k) (b ++ flatten bs) ≡ b ++ erase_first k (hash k) (flatten bs)
      erase-back [] f = refl
      erase-back (x ∷ xs) f = elim (Bool-cases (entry_matches eq hash x k (hash k))) [
        | inl here ↦ absurd (some-none (rw here at f))
        | inr later ↦ rw later (ap (λ r. x ∷ r) (erase-back xs (rw later at f)))
      ]
        where
          some-none : some x.val ≢ none
          some-none e = cc

  -- What a lookup by another key sees, and by the same.
  abbrev pub IsHashed : List (Entry K V) → Type 0
  IsHashed [] = Unit {0}
  IsHashed (e ∷ es) = (e.hash ≡ hash e.key) × IsHashed es

  pub apart :
      (e : Entry K V) (j k : K)
      → e.hash ≡ hash e.key
      → eq j k ≡ false
      → entry_matches eq hash e k (hash k) ≡ true
      → entry_matches eq hash e j (hash j) ≡ false
  apart e j k h d m = elim (Bool-cases (eq e.key j)) [
    | inr n ↦ matches-same e j h ∙ n
    | inl s ↦
        let at_k : e.key ≡ k = eq_sound e.key k (sym (matches-same e k h) ∙ m) in
        let at_j : e.key ≡ j = eq_sound e.key j s in
        let same : eq j k ≡ true =
          subst (λ z. eq z k ≡ true) at_j (subst (λ z. eq e.key z ≡ true) at_k (eq_refl e.key)) in
        cc
  ]

  pub find-update :
      (j k : K) (v : V) (xs : List (Entry K V))
      → IsHashed xs
      → eq j k ≡ false
      → find_block eq hash j (hash j) (update_block eq hash k (hash k) v xs)
        ≡ find_block eq hash j (hash j) xs
  find-update j k v [] h d = refl
  find-update j k v (x ∷ xs) h d = elim (Bool-cases (entry_matches eq hash x k (hash k))) [
    | inl here ↦
        let new = make_entry eq hash (hash k) k v in
        rw
          (
            here,
            apart x j k h.0 d here,
            apart new j k refl d ((matches-same new k refl) ∙ eq_refl k),
          )
          refl
    | inr later ↦ rw later (
        ap (λ r. if entry_matches eq hash x j (hash j) then some x.val else r)
          (find-update j k v xs h.1 d))
  ]

  pub find-updated :
      (k : K) (v w : V) (xs : List (Entry K V))
      → find_block eq hash k (hash k) xs ≡ some w
      → find_block eq hash k (hash k) (update_block eq hash k (hash k) v xs) ≡ some v
  find-updated k v w [] f = absurd (none-some f)
    where
      nothing : Option V
      nothing = none

      none-some : nothing ≢ some w
      none-some e = cc
  find-updated k v w (x ∷ xs) f = elim (Bool-cases (entry_matches eq hash x k (hash k))) [
    | inl here ↦
        let new = make_entry eq hash (hash k) k v in
        rw (here, matches-same new k refl ∙ eq_refl k) refl
    | inr later ↦ rw (later) (rw later (find-updated k v w xs (rw later at f)))
  ]

  pub find-erase :
      (j k : K) (xs : List (Entry K V))
      → IsHashed xs
      → eq j k ≡ false
      → find_block eq hash j (hash j) (erase_first k (hash k) xs) ≡ find_block eq hash j (hash j) xs
  find-erase j k [] h d = refl
  find-erase j k (x ∷ xs) h d = elim (Bool-cases (entry_matches eq hash x k (hash k))) [
    | inl here ↦ rw (here, apart x j k h.0 d here) refl
    | inr later ↦ rw later (
        ap (λ r. if entry_matches eq hash x j (hash j) then some x.val else r)
          (find-erase j k xs h.1 d))
  ]

  pub find-erased :
      (k : K) (xs : List (Entry K V))
      → IsDistinct xs
      → find_block eq hash k (hash k) (erase_first k (hash k) xs) ≡ none
  find-erased k [] h = refl
  find-erased k (x ∷ xs) h = elim (Bool-cases (entry_matches eq hash x k (hash k))) [
    | inl here ↦
        let same : x.key ≡ k = eq_sound x.key k (sym (matches-same x k h.1) ∙ here) in
        rw here (subst (λ z. find_block eq hash z (hash z) xs ≡ none) same h.0)
    | inr later ↦ rw later (rw later (find-erased k xs h.2))
  ]

  pub IsDistinct-IsHashed : (xs : List (Entry K V)) → IsDistinct xs → IsHashed xs
  IsDistinct-IsHashed [] h = tt
  IsDistinct-IsHashed (x ∷ xs) h = (h.1, IsDistinct-IsHashed xs h.2)

  -- An entry that does not match a key has another.
  pub other_key :
      (x : Entry K V) (k : K)
      → x.hash ≡ hash x.key
      → entry_matches eq hash x k (hash k) ≡ false
      → eq x.key k ≡ false
  other_key x k h m = sym (matches-same x k h) ∙ m

  pub update-IsDistinct :
      (k : K) (v : V) (xs : List (Entry K V))
      → IsDistinct xs
      → IsDistinct (update_block eq hash k (hash k) v xs)
  update-IsDistinct k v [] h = tt
  update-IsDistinct k v (x ∷ xs) h = elim (Bool-cases (entry_matches eq hash x k (hash k))) [
    | inl here ↦
        let same : x.key ≡ k = eq_sound x.key k (sym (matches-same x k h.1) ∙ here) in
        rw here (subst (λ z. find_block eq hash z (hash z) xs ≡ none) same h.0, refl, h.2)
    | inr later ↦ rw later (
      find-update x.key k v xs (IsDistinct-IsHashed xs h.2) (other_key x k h.1 later) ∙ h.0,
      h.1,
      update-IsDistinct k v xs h.2,
    )
  ]

  pub erase-IsDistinct :
      (k : K) (xs : List (Entry K V)) → IsDistinct xs → IsDistinct (erase_first k (hash k) xs)
  erase-IsDistinct k [] h = tt
  erase-IsDistinct k (x ∷ xs) h = elim (Bool-cases (entry_matches eq hash x k (hash k))) [
    | inl here ↦ rw here h.2
    | inr later ↦ rw later (
      find-erase x.key k xs (IsDistinct-IsHashed xs h.2) (other_key x k h.1 later) ∙ h.0,
      h.1,
      erase-IsDistinct k xs h.2,
    )
  ]

  pub append-IsDistinct :
      (k : K) (v : V) (xs : List (Entry K V))
      → IsDistinct xs
      → find_block eq hash k (hash k) xs ≡ none
      → IsDistinct (xs ++ (make_entry eq hash (hash k) k v ∷ []))
  unfolding or_later
  append-IsDistinct k v [] h f = (refl, refl, tt)
  append-IsDistinct k v (x ∷ xs) h f = elim (Bool-cases (entry_matches eq hash x k (hash k))) [
    | inl here ↦ absurd (some-none (rw here at f))
    | inr later ↦
        let new = make_entry eq hash (hash k) k v in
        let differs : eq k x.key ≡ false = flip (other_key x k h.1 later) in
        let unmatched = matches-same new x.key refl ∙ differs in
        (
          find-append x.key (hash x.key) xs (new ∷ []) ∙ rw (h.0, or_later, unmatched) refl,
          h.1,
          append-IsDistinct k v xs h.2 (rw later at f),
        )
  ]
    where
      some-none : some x.val ≢ none
      some-none e = cc

      flip : eq x.key k ≡ false → eq k x.key ≡ false
      flip d = elim (Bool-cases (eq k x.key)) [
        | inr n ↦ n
        | inl s ↦
            let same = eq_sound k x.key s in
            let met : eq x.key k ≡ true = subst (λ z. eq z k ≡ true) same (eq_refl k) in cc
      ]

  -- What `put` and `erase` do to the chain of a bucket.
  unfoldable pub new_chain : K → V → List (List (Entry K V)) → List (List (Entry K V))
  new_chain k v chain =
      if is_some eq hash (find_chain eq hash k (hash k) chain)
      then update_chain eq hash k (hash k) v chain
      else append_chain eq hash (make_entry eq hash (hash k) k v) chain

  pub new_chain_lem :
      (k : K) (v : V) (chain : List (List (Entry K V)))
      → IsDistinct (flatten chain)
      → IsDistinct (flatten (new_chain k v chain))
        × (find_chain eq hash k (hash k) (new_chain k v chain) ≡ some v)
        × ((j : K)
            → eq j k ≡ false
            → find_chain eq hash j (hash j) (new_chain k v chain)
              ≡ find_chain eq hash j (hash j) chain)
  unfolding new_chain or_later
  new_chain_lem k v chain h =
      let new = make_entry eq hash (hash k) k v in
      let flat = find_chain-flatten k (hash k) chain in
      elim (Option-cases (find_chain eq hash k (hash k) chain)) [
        | inr (w, f) ↦
            let fl = flatten-update k v chain in
            rw f (
              rw fl (update-IsDistinct k v (flatten chain) h),
              find_chain-flatten k (hash k) (update_chain eq hash k (hash k) v chain)
                  ∙ rw fl (find-updated k v w (flatten chain) (sym flat ∙ f)),
              λ j d.
                  find_chain-flatten j (hash j) (update_chain eq hash k (hash k) v chain)
                  ∙ (rw fl (
                        find-update j k v (flatten chain) (IsDistinct-IsHashed (flatten chain) h) d)
                      ∙ sym (find_chain-flatten j (hash j) chain)),
            )
        | inl f ↦
            let fl = flatten-append new chain in
            let absent = sym flat ∙ f in
            rw f (
              rw fl (append-IsDistinct k v (flatten chain) h absent),
              find_chain-flatten k (hash k) (append_chain eq hash new chain)
                  ∙ rw fl (
                      find-append k (hash k) (flatten chain) (new ∷ [])
                      ∙ rw (absent, or_later, matches-same new k refl ∙ eq_refl k) refl),
              λ j d.
                  find_chain-flatten j (hash j) (append_chain eq hash new chain)
                  ∙ (rw fl (
                        find-append j (hash j) (flatten chain) (new ∷ [])
                        ∙ (rw (matches-same new j refl ∙ flipped k j d)
                            (or_none (find_block eq hash j (hash j) (flatten chain)))))
                      ∙ sym (find_chain-flatten j (hash j) chain)),
            )
      ]
    where
      or_none : (o : Option V) → or_later o none ≡ o
      or_none none = refl
      or_none (some w) = refl

      flipped : (k j : K) → eq j k ≡ false → eq k j ≡ false
      flipped k j d = elim (Bool-cases (eq k j)) [
        | inr n ↦ n
        | inl s ↦
            let same = eq_sound k j s in
            let met : eq j k ≡ true = subst (λ z. eq z k ≡ true) same (eq_refl k) in cc
      ]
