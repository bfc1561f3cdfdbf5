-- ===== src/Alloc/Freelist/Tests.antt =====
-- A class of blocks of 24 bytes with slabs of 96 bytes, on its first uses.
use yikv.Prelude.{◌≡◌, refl, [], ◌∷◌, some, arith}
use yikv.Alloc.Freelist.{
  free, allocated, Class, set_flag, malloc_small, free_small_delayed, free_block,
  reclaim_with_cutoff,
}
use yikv.Alloc.Freelist.Laws.{
  malloc_small-HandedOut, Returned, free_block-Returned, Swept, reclaim_with_cutoff-Swept,
}
use yikv.Alloc.Freelist.Held.{IsValid, IsFresh, HandedOut}

abbrev fresh : Class
fresh = record {
  block_size = 24;
  slab_bytes = 96;
  free_list = [];
  delayed_list = [];
  cached = [];
  flags = λ off. free;
}

fresh-IsValid : IsValid fresh
fresh-IsValid z = omega arith

abbrev ready : Class
ready = record fresh { cached = 4096 ∷ [] }

ready-IsValid : IsValid ready
ready-IsValid z = ground arith

ready-IsFresh : IsFresh 4 8192 ready
ready-IsFresh i h = ground arith

abbrev taken : Class
taken = record (set_flag 4096 allocated ready) { cached = [] }

malloc_small-ready : malloc_small (some 8192) ready ≡ some (4096, taken)
unfolding malloc_small
malloc_small-ready = refl

malloc_small-HandedOut_example : HandedOut ready 4096 taken
malloc_small-HandedOut_example =
    malloc_small-HandedOut ready 8192 (omega arith) ready-IsValid ready-IsFresh 4096 taken
      malloc_small-ready

taken-IsValid : IsValid taken
taken-IsValid z = ground arith

free_block-taken : free_block (some 7) 4096 taken ≡ some (free_small_delayed 7 4096 taken)
unfolding free_block
free_block-taken = refl

free_block-Returned_example : Returned taken 4096 (free_small_delayed 7 4096 taken)
free_block-Returned_example =
    free_block-Returned (some 7) 4096 taken (free_small_delayed 7 4096 taken) taken-IsValid
      free_block-taken

waiting-IsValid : IsValid (free_small_delayed 7 4096 taken)
waiting-IsValid = Returned.valid (
    free_block-Returned (some 7) 4096 taken (free_small_delayed 7 4096 taken) taken-IsValid
      free_block-taken)

reclaim_with_cutoff-Swept_example :
    let c = free_small_delayed 7 4096 taken in
    Swept 8 c.delayed_list c (reclaim_with_cutoff 8 c).0 (reclaim_with_cutoff 8 c).1
reclaim_with_cutoff-Swept_example =
    reclaim_with_cutoff-Swept 8 (free_small_delayed 7 4096 taken) waiting-IsValid
