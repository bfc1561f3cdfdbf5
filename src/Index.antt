-- ===== src/Index.antt =====
-- libs/yikv/index: documents by primary key, and posting lists over them.
pub mod Text
pub mod Store
pub mod Posting
pub mod Query
mod Tests
