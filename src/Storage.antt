-- ===== src/Storage.antt =====
-- src/storage: the pager, the write-ahead log, the memory tier and the B+ tree.
pub mod Codec
pub mod Pager
pub mod Btree
pub mod MemoryTier
pub mod Wal
pub mod Hardware
