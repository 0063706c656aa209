-- ===== src/Storage/Btree.antt =====
-- src/storage/btree.rs: the B+ tree over the pages.
pub mod Node
pub mod Store
pub mod Tree
pub mod Cached
pub mod Pages
pub mod Open
pub mod Tests
pub mod RootTests
pub mod PageTests
