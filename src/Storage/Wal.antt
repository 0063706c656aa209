-- ===== src/Storage/Wal.antt =====
-- src/storage/wal.rs: the entries of the log, the queue, the double buffer, the writer thread and
-- the recovery of the entries when the log is opened.
pub mod Frame
pub mod Recover
pub mod Queue
pub mod Writer
pub mod RoundTrip
pub mod Flush
pub mod Durability
pub mod Loss
pub mod Enqueue
mod Tests
