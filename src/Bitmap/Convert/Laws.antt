-- ===== src/Bitmap/Convert/Laws.antt =====
-- Mode conversion keeps what a chunk holds and makes it fit its mode.
use yikv.Prelude.{ℕ, ◌≤◌, ◌<◌, ◌≡◌, refl, ◌&&◌, ◌/◌, ◌%◌, List, arith, ltb, length}
use yikv.Sorted.{mem, IsAscending, IsBelow}
use yikv.Bitmap.{Chunk, Payload, array, bitmap, Words}
use yikv.Bitmap.Words.{zero_words, fill_words, collect, popcount_words}
use yikv.Bitmap.Words.Laws.{
  collect-IsAscending, collect-IsBelow, length-collect, collect-fill_words, mem-collect,
}
use yikv.Bitmap.Each.{values, IsChunk}
use yikv.Bitmap.Convert.{to_bitmap, to_array, chunk_to_words, build_from_words}

-- A chunk rebuilt from words holds their set bits, whatever it was before.
pub build_from_words-IsChunk :
    (e : Chunk) (w : Words)
    → e.hi < 65536
    → let r = build_from_words e w (popcount_words w) in
      IsChunk r
      × (r.hi ≡ e.hi)
      × (values r.payload ≡ collect w)
      × (r.cardinality ≡ popcount_words w)
unfolding build_from_words
build_from_words-IsChunk e w h =
    ground (arith, collect-IsAscending w, collect-IsBelow w, length-collect w)

pub to_bitmap-IsChunk :
    (e : Chunk) (a : List ℕ)
    → e.payload ≡ array a
    → e.hi < 65536
    → IsAscending 0 a
    → IsBelow 65536 a
    → e.cardinality ≡ length a
    → 2048 ≤ e.cardinality
    → IsChunk (to_bitmap e)
      × ((to_bitmap e).hi ≡ e.hi)
      × (values (to_bitmap e).payload ≡ a)
      × ((to_bitmap e).cardinality ≡ e.cardinality)
unfolding to_bitmap
to_bitmap-IsChunk e a p h asc low c big = ground (
  arith,
  collect-IsAscending (fill_words zero_words a),
  collect-IsBelow (fill_words zero_words a),
  collect-fill_words a asc low,
)

pub to_array-IsChunk :
    (e : Chunk) (w : Words)
    → e.payload ≡ bitmap w
    → e.hi < 65536
    → e.cardinality ≡ length (collect w)
    → e.cardinality ≤ 4096
    → IsChunk (to_array e)
      × ((to_array e).hi ≡ e.hi)
      × (values (to_array e).payload ≡ collect w)
      × ((to_array e).cardinality ≡ e.cardinality)
unfolding to_array
to_array-IsChunk e w p h c small = ground (arith, collect-IsAscending w, collect-IsBelow w)

pub collect-chunk_to_words :
    (p : Payload)
    → IsAscending 0 (values p)
    → IsBelow 65536 (values p)
    → collect (chunk_to_words p) ≡ values p
unfolding chunk_to_words
collect-chunk_to_words (array a) asc low = collect-fill_words a asc low
collect-chunk_to_words (bitmap w) asc low = refl

-- A bit of the words of a chunk is membership in the chunk.
pub mem-chunk_to_words :
    (p : Payload) (z : ℕ)
    → IsAscending 0 (values p)
    → IsBelow 65536 (values p)
    → mem z (values p) ≡ (ltb z 65536 && chunk_to_words p (z / 64) (z % 64))
mem-chunk_to_words p z asc low =
    rw (← collect-chunk_to_words p asc low) (mem-collect z (chunk_to_words p))
