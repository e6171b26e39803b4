-- ===== src/Wal.antt =====
-- crates/turbomemory_storage/src/wal.rs: the write-ahead log as a file of bytes.
pub mod Codec
pub mod File
pub mod Iter
pub mod Frames
pub mod Torn
pub mod Reading
pub mod Recovery
