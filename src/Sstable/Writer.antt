-- ===== src/Sstable/Writer.antt =====
-- Writing a table: crates/flushdb-engine/src/sstable/writer.rs. The storage backend is a parameter:
-- `put` under the table's path.
pub mod Metadata
use flushdb.Base.{
  ℕ, ◌+◌, ◌%◌, ◌^◌, Option, none, some, List, [], ◌∷◌, ◌++◌, length, drop, replicate, ◌==◌,
  if◌then◌else◌,
}
use flushdb.Base.Bytes.{Bytes}
use flushdb.Error.{FlushResult, ok, err, invalid_argument, ◌>>=◌}
use flushdb.Key.{CompositeKey}
use flushdb.Token.{IdempotencyToken, none_token}
use flushdb.Entry.{EntryType, EntryValue, inline, blob_ref, MemtableEntry}
use flushdb.Sstable.Types.{Codec, CompressionType, SstConfig, header_size, format_version}
use flushdb.Sstable.BlockBuilder
use flushdb.Sstable.BlockBuilder.{BlockBuilder, unwrap}
use flushdb.Sstable.BlockReader.{BlockEntry}
use flushdb.Sstable.Bloom
use flushdb.Sstable.Bloom.{BloomFilterBuilder}
use flushdb.Sstable.Dedup
use flushdb.Sstable.Dedup.{DedupBlockBuilder}
use flushdb.Sstable.Index
use flushdb.Sstable.Index.{IndexBlock}
use flushdb.Sstable.Footer
use flushdb.Sstable.Footer.{SstFooter}

pub record SstInfo : Type 0 where
  pub path : Bytes
  pub entry_count : ℕ
  pub file_size : ℕ
  pub min_key : CompositeKey
  pub max_key : CompositeKey
  pub bloom_filter_offset : ℕ
  pub bloom_filter_size : ℕ
  pub index_block_offset : ℕ
  pub index_block_size : ℕ
  pub dedup_block_size : ℕ
  pub compression : CompressionType

pub record WriteState : Type 0 where
  pub output : Bytes
  pub block_builder : BlockBuilder
  pub bloom_builder : BloomFilterBuilder
  pub dedup_builder : DedupBlockBuilder
  pub index_builder : IndexBlock
  pub entry_count : ℕ
  pub min_key : Option CompositeKey
  pub max_key : Option CompositeKey

-- `WriteState::new`
unfoldable pub new : SstConfig → WriteState
new config = record {
  output = replicate header_size 0;
  block_builder = BlockBuilder.new config.block_size_target;
  bloom_builder = Bloom.new config.bloom_bits_per_key;
  dedup_builder = [];
  index_builder = [];
  entry_count = 0;
  min_key = none;
  max_key = none;
}

abbrev or_first : Option CompositeKey → CompositeKey → Option CompositeKey
or_first none key = some key
or_first (some first) key = some first

unfoldable pub track_key : CompositeKey → WriteState → WriteState
track_key key s = record {
  output = s.output;
  block_builder = s.block_builder;
  bloom_builder = s.bloom_builder;
  dedup_builder = s.dedup_builder;
  index_builder = s.index_builder;
  entry_count = (s.entry_count + 1) % 2 ^ 64;
  min_key = or_first s.min_key key;
  max_key = some key;
}

unfoldable pub flush_block : Codec → SstConfig → WriteState → FlushResult WriteState
flush_block c config s = do
  finished ← BlockBuilder.finish c s.block_builder config.compression
  ok (record {
    output = s.output ++ finished.bytes;
    block_builder = BlockBuilder.new config.block_size_target;
    bloom_builder = Bloom.add_all s.bloom_builder finished.record_ids;
    dedup_builder = Dedup.add_all s.dedup_builder finished.idempotency_tokens;
    index_builder =
        Index.add s.index_builder finished.first_key (length s.output)
          (length finished.bytes % 2 ^ 32) finished.uncompressed_size;
    entry_count = s.entry_count;
    min_key = s.min_key;
    max_key = s.max_key;
  })

-- One round of the loops over the entries.
unfoldable pub write_one :
    Codec
    → SstConfig
    → CompositeKey
    → Bytes
    → Bytes
    → EntryType
    → ℕ
    → IdempotencyToken
    → WriteState
    → FlushResult WriteState
unfolding track_key flush_block
write_one c config key value metadata entry_type sequence_number token s =
    let added = track_key key (record {
      output = s.output;
      block_builder =
          BlockBuilder.add_entry s.block_builder key value metadata entry_type sequence_number
            token;
      bloom_builder = s.bloom_builder;
      dedup_builder = s.dedup_builder;
      index_builder = s.index_builder;
      entry_count = s.entry_count;
      min_key = s.min_key;
      max_key = s.max_key;
    }) in
    if BlockBuilder.is_full added.block_builder then flush_block c config added else ok added

-- The loop of `write`.
unfoldable pub write_all :
    Codec → SstConfig → List MemtableEntry → WriteState → FlushResult WriteState
unfolding write_one
write_all c config [] s = ok s
write_all c config (e ∷ es) s = do
  s' ←
      write_one c config e.composite_key e.value e.metadata e.entry_type e.sequence_number
        e.idempotency_key s
  write_all c config es s'

-- A reference to a blob is written as no bytes.
unfoldable pub value_bytes : EntryValue → Bytes
value_bytes (inline b) = b
value_bytes (blob_ref blob_id offset size) = []

-- The loop of `write_entries`.
unfoldable pub write_all_entries :
    Codec → SstConfig → List BlockEntry → WriteState → FlushResult WriteState
unfolding write_one value_bytes
write_all_entries c config [] s = ok s
write_all_entries c config (e ∷ es) s = do
  s' ←
      write_one c config e.composite_key (value_bytes e.value) e.metadata e.entry_type
        e.sequence_number none_token s
  write_all_entries c config es s'

-- The last block.
unfoldable pub flush_rest : Codec → SstConfig → WriteState → FlushResult WriteState
unfolding flush_block
flush_rest c config s =
    if BlockBuilder.is_empty s.block_builder then ok s else flush_block c config s

-- The sections behind the blocks.
unfoldable pub dedup_section : WriteState → Bytes
dedup_section s = Dedup.serialize (Dedup.build s.dedup_builder)

unfoldable pub filter_section : (ℕ → ℕ) → WriteState → Bytes
filter_section times_ln2 s = Bloom.serialize (Bloom.build times_ln2 s.bloom_builder)

unfoldable pub index_section : WriteState → Bytes
index_section s = Index.serialize s.index_builder

unfoldable pub footer_of : (ℕ → ℕ) → SstConfig → WriteState → SstFooter
unfolding dedup_section filter_section index_section
footer_of times_ln2 config s =
    let bloom_filter_offset = length s.output + length (dedup_section s) in
    record {
      bloom_filter_offset = bloom_filter_offset;
      bloom_filter_size = length (filter_section times_ln2 s) % 2 ^ 32;
      index_block_offset = bloom_filter_offset + length (filter_section times_ln2 s);
      index_block_size = length (index_section s) % 2 ^ 32;
      entry_count = s.entry_count;
      min_key = Footer.truncate_key (unwrap s.min_key);
      max_key = Footer.truncate_key (unwrap s.max_key);
      compression_type = config.compression;
      format_version = format_version;
      dedup_block_size = length (dedup_section s) % 2 ^ 32;
    }

-- The file: the header is written over the bytes that were kept free for it.
unfoldable pub file_of : Codec → (ℕ → ℕ) → SstConfig → WriteState → Bytes
unfolding footer_of
file_of c times_ln2 config s =
    Footer.encode_header (record { compression = config.compression; entry_count = s.entry_count })
    ++ (drop header_size s.output
        ++ (dedup_section s
            ++ (filter_section times_ln2 s
                ++ (index_section s ++ Footer.encode c.crc32 (footer_of times_ln2 config s)))))

unfoldable pub finish :
    Codec
    → (ℕ → ℕ)
    → (Bytes → FlushResult (Unit {0}))
    → Bytes
    → SstConfig
    → WriteState
    → FlushResult SstInfo
unfolding flush_rest file_of
finish c times_ln2 put path config s =
    if s.entry_count == 0 then err (invalid_argument "cannot write empty SSTable") else do
      s' ← flush_rest c config s
      let footer = footer_of times_ln2 config s'
      let file = file_of c times_ln2 config s'
      done ← put file
      ok (record {
        path = path;
        entry_count = s'.entry_count;
        file_size = length file;
        min_key = unwrap s'.min_key;
        max_key = unwrap s'.max_key;
        bloom_filter_offset = footer.bloom_filter_offset;
        bloom_filter_size = footer.bloom_filter_size;
        index_block_offset = footer.index_block_offset;
        index_block_size = footer.index_block_size;
        dedup_block_size = footer.dedup_block_size;
        compression = config.compression;
      })

-- `SSTableWriter::write`
unfoldable pub write :
    Codec
    → (ℕ → ℕ)
    → (Bytes → FlushResult (Unit {0}))
    → Bytes
    → SstConfig
    → List MemtableEntry
    → FlushResult SstInfo
unfolding new write_all finish
write c times_ln2 put path config entries = do
  s ← write_all c config entries (new config)
  finish c times_ln2 put path config s

unfoldable pub write_entries :
    Codec
    → (ℕ → ℕ)
    → (Bytes → FlushResult (Unit {0}))
    → Bytes
    → SstConfig
    → List BlockEntry
    → FlushResult SstInfo
unfolding new write_all_entries finish
write_entries c times_ln2 put path config entries = do
  s ← write_all_entries c config entries (new config)
  finish c times_ln2 put path config s
