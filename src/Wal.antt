-- ===== src/Wal.antt =====
-- The write-ahead log of crates/flushdb-wal. `crc32fast::hash` is a parameter, `crc`.
pub mod Entry
pub mod RoundTrip
pub mod Segment
pub mod Header
pub mod Recovery
