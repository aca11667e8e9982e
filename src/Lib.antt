-- ===== src/Lib.antt =====
-- A verification library for FlushDB, a key-value store over object storage with a log-structured
-- merge tree. An item has a composite key: a record id, a zero byte and an item key. A write gets a
-- sequence number, is appended to the write-ahead log and then inserted into the active memtable, a
-- skip list beside an index of its range tombstones; a full memtable is frozen and later flushed.
-- After a crash the segments of the log are read back.
--
-- Error: FlushError and FlushResult (crates/flushdb-types/src/error.rs).
-- Key: CompositeKey (crates/flushdb-types/src/composite_key.rs); a key is its bytes. The children
--   treat the round trip, the order and the interval of a record.
-- Token: IdempotencyToken (crates/flushdb-types/src/idempotency_token.rs), 24 bytes.
-- OrderedKey: the version key (crates/flushdb-types/src/ordered_key.rs).
-- Entry: entry types, values and MemtableEntry (crates/flushdb-types/src/entry_type.rs,
--   entry_value.rs and memtable_entry.rs).
-- Arena: the allocator (crates/flushdb-engine/src/arena.rs), with the lengths of its blocks.
-- Search: the binary search of Rust's standard library over a vector, and what it answers.
-- RangeTombstone: RangeTombstoneIndex (crates/flushdb-engine/src/range_tombstone.rs).
-- SkipList, SkipList.Read: SkipList and its iterator (crates/flushdb-engine/src/skiplist.rs). The
--   state is the vector of nodes with the head, the height and the count; `insert` takes the random
--   numbers that its call draws.
-- Memtable: DedupSet and Memtable (crates/flushdb-engine/src/memtable.rs).
-- MemtableList: MemtableList (crates/flushdb-engine/src/memtable_list.rs).
-- Wal: log entries, segment headers and the segment reader (crates/flushdb-wal/src/entry.rs,
--   segment_header.rs and segment_reader.rs).
-- Dirty: DirtySegmentTracker (crates/flushdb-wal/src/dirty_tracker.rs), without the creation times.
-- Merge: MergeIterator over vectors (crates/flushdb-engine/src/merge_iterator.rs).
-- Sstable: the tables on storage (crates/flushdb-engine/src/sstable/). Varint, Types, Hash and Cursor
--   hold varints, constants and compression, MurmurHash3, and the reading of fields; BlockBuilder,
--   BlockReader, Bloom, Index, Dedup and Footer are the parts of a file; Writer composes a file and
--   Reader opens one and looks keys up.
-- Manifest: the levels, their tables and updates (crates/flushdb-engine/src/manifest/types.rs).
-- Compaction: the scheduler (crates/flushdb-engine/src/compaction/scheduler.rs).
-- ReadPath, Base64: point reads over memtables and levels, and page tokens with their text
--   (crates/flushdb-engine/src/read_path.rs).
-- Base: numbers, lists, bytes and fixed-width integers. Tests: runs at concrete inputs.
--
-- An operation that fails returns `err`, with the state of before; one that succeeds returns the
-- new state beside its result. Loops that follow links or positions run on fuel: a walk along the
-- skip list on the number of nodes, the walk over tombstones and the binary search on the length of
-- the vector, the reading of a segment on the length of the file, the skipping of a key in a merge
-- on the number of entries, a varint on its ten groups of bits, the entries of a block on the
-- length of the block; each step uses up one of these. The counter of sequence numbers wraps at 2 ^
-- 64; lengths and sizes in memory are unbounded.
--
-- Parameters stand for code outside the repository: Codec for the checksum of crc32fast and the
-- compression of snap and zstd, GetRange for the reading of a range of a stored file, a function on
-- numbers for the product of the bits per key with ln 2 in floating point.
--
-- Not modelled: clocks, file and network input and output, threads and locks, the text of a
-- manifest and its manager, the handles of tables, range reads, the engine, flush, the execution of a
-- compaction, recovery, the caches and the server.
pub mod Base
pub mod Error
pub mod Key
pub mod Token
pub mod OrderedKey
pub mod Entry
pub mod Arena
pub mod Search
pub mod RangeTombstone
pub mod SkipList
pub mod Memtable
pub mod MemtableList
pub mod Wal
pub mod Dirty
pub mod Merge
pub mod Sstable
pub mod Manifest
pub mod Compaction
pub mod Base64
pub mod ReadPath
pub mod Tests
