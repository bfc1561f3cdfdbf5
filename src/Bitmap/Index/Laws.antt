-- ===== src/Bitmap/Index/Laws.antt =====
-- `get_or_create`, and a store and an erasure at the entry that it returns.
use yikv.Prelude.{
  ℕ, ◌+◌, ◌≤◌, ◌<◌, ◌≡◌, refl, ap, inl, inr, ◌&&◌, ◌||◌, List, [], none, some, arith, ◌==◌,
  if◌then◌else◌, length, get_elem?, set, insert_at, Option-cases,
}
use yikv.Sorted.{mem}
use yikv.Bitmap.{Bitmap, Chunk}
use yikv.Bitmap.Each.{values, view, total, IsChunk, IsFullBut, IsSound, IsValid}
use yikv.Bitmap.Index.{ensure_index_cap, get_or_create, fresh_chunk, erase_chunk}
use yikv.Bitmap.Index.Search.{
  place, entry, place-le-length, chunk_pos_lem, view-entry, entry-place, guard-none, guard-some,
}
use yikv.Bitmap.Index.Entries.{
  set-IsIndex, total-set, view-set, insert_at-IsIndex, total-insert_at, view-insert_at, length-set,
  length-insert_at, set-insert_at, get_elem?-insert_at, remove_at-set, length-remove_at,
  remove_at-IsIndex, total-remove_at, view-remove_at, entry-IsChunk, IsFull-but, set-IsFull,
  insert_at-IsFull, insert_at-IsFullBut, remove_at-IsFull,
}

-- The values under one key replaced.
abbrev pub Replaces : (b : Bitmap) (hi : ℕ) (xs : List ℕ) (r : Bitmap) → Type 0
Replaces b hi xs r =
    IsValid r × ((h : ℕ) → view r.chunks h ≡ (if h == hi then xs else view b.chunks h))

-- Values joined to those under one key.
abbrev pub Joins : (b : Bitmap) (hi : ℕ) (xs : List ℕ) (r : Bitmap) → Type 0
Joins b hi xs r =
    IsValid r
    × ((h z : ℕ) → mem z (view r.chunks h) ≡ (mem z (view b.chunks h) || h == hi && mem z xs))

-- The result of `get_or_create`: the entry under the key, and what a store at it does.
pub record Located (b : Bitmap) (hi : ℕ) (b₁ : Bitmap) (pos : ℕ) (te : Chunk) : Type 0 where
  pub found : get_elem? b₁.chunks pos ≡ some te
  pub valid : IsChunk te
  pub key : te.hi ≡ hi
  pub holds : values te.payload ≡ view b.chunks hi
  pub cardinality : b₁.cardinality ≡ b.cardinality
  pub sound : IsSound b₁
  pub same_view : (h : ℕ) → view b₁.chunks h ≡ view b.chunks h
  pub full_but : IsFullBut hi b.chunks → IsFullBut hi b₁.chunks
  pub kept : 0 < te.cardinality → b₁.chunks ≡ b.chunks
  pub bounded : te.cardinality ≤ total b.chunks
  pub stores :
      (e : Chunk) (card : ℕ)
      → e.hi ≡ hi
      → IsChunk e
      → 0 < e.cardinality
      → IsFullBut hi b.chunks
      → card + te.cardinality ≡ b.cardinality + e.cardinality
      → let b₂ : Bitmap = record b₁ { chunks = set b₁.chunks pos e; cardinality = card } in
        IsValid b₂
        × ((h : ℕ) → view b₂.chunks h ≡ (if h == hi then values e.payload else view b.chunks h))

ensure_index_cap-chunks :
    (needed : ℕ) (b : Bitmap)
    → ((ensure_index_cap needed b).chunks ≡ b.chunks)
      × ((ensure_index_cap needed b).cardinality ≡ b.cardinality)
      × (needed ≤ (ensure_index_cap needed b).chunk_capacity)
unfolding ensure_index_cap
ensure_index_cap-chunks needed b = ground arith

fresh_chunk-IsChunk : (hi : ℕ) → hi < 65536 → IsChunk (fresh_chunk hi)
fresh_chunk-IsChunk hi h = ground arith

module _ (b : Bitmap) (hi : ℕ) (small : hi < 65536) (v : IsSound b) where
  grown : Bitmap
  grown = ensure_index_cap (length b.chunks + 1) b

  -- The entry is there.
  old-Located :
      (te : Chunk) → entry b.chunks hi ≡ some te → Located b hi grown (place b.chunks hi) te
  unfolding grown
  old-Located te f =
      let cap = ensure_index_cap-chunks (length b.chunks + 1) b in
      let old = entry-IsChunk b.chunks 0 hi te v.index f in
      record {
        found = rw cap.0 (ground (arith, entry-place b.chunks 0 hi v.index));
        valid = old.0;
        key = old.1;
        holds = ground (arith, view-entry b.chunks hi);
        cardinality = cap.1;
        sound = record {
          index = rw cap.0 v.index;
          counted = rw (cap.0, cap.1) v.counted;
          roomy = rw cap.0 (omega (arith, cap.2));
        };
        same_view = λ h. rw cap.0;
        full_but = λ f. rw cap.0 f;
        kept = λ _. cap.0;
        bounded = old.2;
        stores = λ e card same ok full but count. (
          record {
            sound = record {
              index = rw cap.0 (set-IsIndex hi e same ok b.chunks 0 te v.index f);
              counted =
                  rw cap.0
                    (omega (arith, total-set hi e same ok b.chunks 0 te v.index f, v.counted));
              roomy = rw cap.0 (rw length-set (omega (arith, cap.2)));
            };
            full = rw cap.0 (set-IsFull b.chunks 0 hi te e v.index f full but);
          },
          λ h. rw cap.0 (view-set hi e same ok b.chunks 0 h te v.index f),
        );
      }

  -- The entry is new.
  fresh-Located :
      entry b.chunks hi ≡ none
      → Located b hi
          (record grown { chunks = insert_at (place b.chunks hi) (fresh_chunk hi) b.chunks })
          (place b.chunks hi)
          (fresh_chunk hi)
  unfolding grown
  fresh-Located f =
      let cap = ensure_index_cap-chunks (length b.chunks + 1) b in
      let p = place b.chunks hi in
      let inside = place-le-length b.chunks hi in
      record {
        found = get_elem?-insert_at p (fresh_chunk hi) b.chunks inside;
        valid = fresh_chunk-IsChunk hi small;
        key = refl;
        holds = ground (arith, view-entry b.chunks hi);
        cardinality = cap.1;
        sound = record {
          index =
              insert_at-IsIndex hi (fresh_chunk hi) refl (fresh_chunk-IsChunk hi small) b.chunks 0
                (omega arith) v.index f;
          counted = omega (
            arith,
            total-insert_at hi (fresh_chunk hi) refl (fresh_chunk-IsChunk hi small) b.chunks,
            cap.1,
            v.counted,
          );
          roomy = rw length-insert_at (omega (arith, cap.2));
        };
        same_view = λ h. ground (
          arith,
          view-insert_at hi (fresh_chunk hi) refl (fresh_chunk-IsChunk hi small) b.chunks h f,
          view-entry b.chunks hi,
          λ (same : h ≡ hi). ap (view b.chunks) same,
        );
        full_but = insert_at-IsFullBut b.chunks hi (fresh_chunk hi) refl;
        kept = λ h. absurd (omega arith);
        bounded = omega arith;
        stores = λ e card same ok full but count. (
          record {
            sound = record {
              index =
                  rw (set-insert_at p (fresh_chunk hi) e b.chunks inside)
                    (insert_at-IsIndex hi e same ok b.chunks 0 (omega arith) v.index f);
              counted =
                  rw (set-insert_at p (fresh_chunk hi) e b.chunks inside)
                    (omega (arith, total-insert_at hi e same ok b.chunks, v.counted));
              roomy =
                  rw (set-insert_at p (fresh_chunk hi) e b.chunks inside)
                    (rw length-insert_at (omega (arith, cap.2)));
            };
            full =
                rw (set-insert_at p (fresh_chunk hi) e b.chunks inside)
                  (insert_at-IsFull b.chunks 0 hi e v.index f full but);
          },
          λ h.
              rw (set-insert_at p (fresh_chunk hi) e b.chunks inside)
                (view-insert_at hi e same ok b.chunks h f),
        );
      }

  pub get_or_create-Located : let r = get_or_create hi b in (te : Chunk) × Located b hi r.0 r.1 te
  unfolding get_or_create grown
  get_or_create-Located =
      let cap = ensure_index_cap-chunks (length b.chunks + 1) b in
      let search = chunk_pos_lem b.chunks 0 hi v.index in
      elim (Option-cases (entry b.chunks hi)) [
        | inl f ↦
            rw (cap.0, search, guard-none b.chunks 0 hi v.index f) (fresh_chunk hi, fresh-Located f)
        | inr (te, f) ↦
            rw (cap.0, search, guard-some b.chunks 0 hi te v.index f) (te, old-Located te f)
      ]

-- A store and an erasure at an entry that is there.
module _ (b : Bitmap) (hi : ℕ) (te : Chunk) (v : IsValid b) (f : entry b.chunks hi ≡ some te)
    (e : Chunk) (card : ℕ) where
  pub store_lem :
      e.hi ≡ hi
      → IsChunk e
      → 0 < e.cardinality
      → card + te.cardinality ≡ b.cardinality + e.cardinality
      → let b₂ : Bitmap = record b {
        chunks = set b.chunks (place b.chunks hi) e;
        cardinality = card;
      } in
        IsValid b₂
        × ((h : ℕ) → view b₂.chunks h ≡ (if h == hi then values e.payload else view b.chunks h))
  store_lem same ok full count = (
    record {
      sound = record {
        index = set-IsIndex hi e same ok b.chunks 0 te v.index f;
        counted = omega (arith, total-set hi e same ok b.chunks 0 te v.index f, v.counted);
        roomy = rw length-set v.roomy;
      };
      full = set-IsFull b.chunks 0 hi te e v.index f full (IsFull-but hi b.chunks v.full);
    },
    λ h. view-set hi e same ok b.chunks 0 h te v.index f,
  )

  pub erase_lem :
      card + te.cardinality ≡ b.cardinality
      → let b₂ : Bitmap = record b {
        chunks = erase_chunk (place b.chunks hi) (set b.chunks (place b.chunks hi) e);
        cardinality = card;
      } in
        IsValid b₂ × ((h : ℕ) → view b₂.chunks h ≡ (if h == hi then [] else view b.chunks h))
  unfolding erase_chunk
  erase_lem count =
      let p = place b.chunks hi in
      let same = remove_at-set p e b.chunks in
      (
        record {
          sound = record {
            index = rw same (remove_at-IsIndex hi b.chunks 0 te v.index f);
            counted =
                rw same (omega (arith, total-remove_at hi b.chunks 0 te v.index f, v.counted));
            roomy = rw same (omega (arith, length-remove_at p b.chunks, v.roomy));
          };
          full = rw same (remove_at-IsFull p b.chunks v.full);
        },
        λ h. rw same (view-remove_at hi b.chunks 0 h te v.index f),
      )
