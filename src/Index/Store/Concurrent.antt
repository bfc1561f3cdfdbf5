-- ===== src/Index/Store/Concurrent.antt =====
-- The map of the indexes as the concurrent hash map: `put` past its rehash check, which changes no
-- lookup, and `erase`.
use yikv.Prelude.{ℕ, ◌≡◌, inl, inr, Option, none, some, if◌then◌else◌, Bool-cases}
use yikv.HashMap
use yikv.HashMap.Laws.{IsValid, put-Put, erase-Erased}
use yikv.Index.Text.{Text, text_eq, text_eq-≡, text_eq_refl}
use yikv.Index.Store.{MapOf}

module _ (hash : Text → ℕ) (V : Type 0) where
  -- A table together with the invariant that the operations keep.
  abbrev pub ValidTable : Type 0
  ValidTable = (t : HashMap.Table Text V) × IsValid text_eq hash text_eq-≡ text_eq_refl t

  abbrev pub get_valid : Text → ValidTable → Option V
  get_valid k t = HashMap.get text_eq hash k t.0

  abbrev pub put_valid : Text → V → ValidTable → ValidTable
  put_valid k v (t, w) =
      (HashMap.put text_eq hash k v t, (put-Put text_eq hash text_eq-≡ text_eq_refl k v t w).valid)

  abbrev pub erase_valid : Text → ValidTable → ValidTable
  erase_valid k (t, w) = (
    (HashMap.erase text_eq hash k t).1,
    (erase-Erased text_eq hash text_eq-≡ text_eq_refl k t w).valid,
  )

  pub get-put_valid :
      (k l : Text) (v : V) (t : ValidTable)
      → get_valid k (put_valid l v t) ≡ (if text_eq k l then some v else get_valid k t)
  get-put_valid k l v (t, w) =
      let p = put-Put text_eq hash text_eq-≡ text_eq_refl l v t w in
      elim (Bool-cases (text_eq k l)) [
        | inl e ↦ rw (e, text_eq-≡ k l e) p.found
        | inr d ↦ rw d (p.others k d)
      ]

  pub get-erase_valid :
      (k l : Text) (t : ValidTable)
      → get_valid k (erase_valid l t) ≡ (if text_eq k l then none else get_valid k t)
  get-erase_valid k l (t, w) =
      let p = erase-Erased text_eq hash text_eq-≡ text_eq_refl l t w in
      elim (Bool-cases (text_eq k l)) [
        | inl e ↦ rw (e, text_eq-≡ k l e) p.found
        | inr d ↦ rw d (p.others k d)
      ]

  abbrev pub concurrent_map : MapOf V
  concurrent_map = record {
    Table = ValidTable;
    get = get_valid;
    put = put_valid;
    erase = erase_valid;
    get-put = get-put_valid;
    get-erase = get-erase_valid;
  }
