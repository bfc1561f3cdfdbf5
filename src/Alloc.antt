-- ===== src/Alloc.antt =====
-- libs/yikv/alloc: the arena allocator.
pub mod SizeClass
pub mod Pages
pub mod Freelist
pub mod Large
