-- ===== src/Sstable.antt =====
-- Sorted string tables: crates/flushdb-engine/src/sstable.
pub mod Varint
pub mod Types
pub mod Cursor
pub mod BlockBuilder
pub mod BlockReader
pub mod Footer
pub mod Hash
pub mod Bloom
pub mod Index
pub mod Dedup
pub mod Reader
pub mod Writer
