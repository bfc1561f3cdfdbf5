-- ===== src/Lib.antt =====
-- yikv: the containers, the arena allocator and the text index of the key-value engine.
--
-- The engine keeps its data in an arena of pages that a file backs. The allocator hands out pages
-- and small blocks of it; the roaring bitmap and the hash map keep their structures in such
-- blocks and refer to them by offset; the key-value index maps primary keys to documents through
-- a hash map, and the inverted index keeps, through another, one bitmap of document ids for each
-- field and term, which its queries combine.
--
-- The files and what they are about:
--   Prelude, Sorted: shared names, tests, lists, and strictly ascending lists.
--   Bitmap: libs/yikv/container/bitmap.h and bitmap.cc. A chunk owns its payload, so offsets are
--     values. Words: bits of a chunk; Index: chunk_pos, find_chunk, get_or_create, erase_chunk;
--     Convert: to_bitmap, to_array, build_from_words; Point: Add, Remove, Contains; Bulk: BulkAdd;
--     Merge and Algebra: OrWith, AndWith, xor_with, and_not_with, their copies and the assignment;
--     Wire: Serialize, Deserialize; Each: ForEach, the set that a bitmap stands for, and the
--     invariant IsValid.
--   Alloc: libs/yikv/alloc/ft_allocator.cc. SizeClass: BuildSizeClasses, find_class; Pages:
--     alloc_pages, free_pages; Freelist: malloc_small, the frees and the sweep of one class;
--     Large: malloc_large, the frees and the sweep of the large blocks.
--   HashMap: libs/yikv/container/concurrent_hashmap.h, get, put and erase on the bucket chains;
--     Rehash: rehash_locked, trigger_rehash and the loop of put.
--   Document: libs/yikv/index/doc.h and doc.cc. A slot owns its block. Arrays: the arrays of
--     fixed-size elements; Strings: the string arrays.
--   Schema: libs/yikv/schema/schema.h and schema.cc, the name tables and the lookups; Compile:
--     Schema::Compile; Json: JsonScanner; Json/Load: LoadJson and ToJson.
--   Index: libs/yikv/index/kv_index.cc (Store) and inverted_index.cc (Text, Posting, Query). The
--     hash map is the interface MapOf: get, put, erase and what these do to a lookup, which
--     Store/Concurrent fills with the table of HashMap.
--
-- Bounds and fuel: values of a bitmap are below 2 ^ 32 and low halves below 2 ^ 16; counters stay
-- far below the width of their types, so they carry no wrap-around, but for the id counter of
-- IndexHeader. The binary searches run on fuel of one more than the number of entries, which they
-- halve; BulkAdd on the number of values, of which each round takes one; the loops over words and
-- pages on their numbers; the loop of put on any fuel, of which it needs two; the loops of LoadJson
-- on one more than the length of the text, of which each round reads a part, and skip_value on two
-- more than twice the length. The marking loop of the general path of alloc_pages runs on the
-- number of pages of the run. A bucket count is a power of two below 2 ^ 32; rehash_locked has no
-- result where the language leaves its shift undefined. The shift by 64 in the general path is
-- undefined as well: the mask that it gives is a parameter. find_class and malloc_large wrap around
-- at 64 bits.
--
-- Not modelled: the bytes of the arena, the mapping of the file and its growth, the members of a
-- schema after a failed LoadJson, the server and the workers, and vendored code. Locks make each
-- operation of the allocator and of the table one step; the reads without a lock, and the guards of
-- put and erase against them, are not modelled.
pub mod Alloc
pub mod Bitmap
pub mod Document
pub mod HashMap
pub mod Index
pub mod Prelude
pub mod Schema
pub mod Sorted
