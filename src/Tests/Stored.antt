-- ===== src/Tests/Stored.antt =====
-- A small table at which the other tests run, and packages that do nothing.
use flushdb.Base.{◌<◌, ◌^◌, refl, arith, some, [], ◌∷◌, ◌++◌, replicate}
use flushdb.Base.Bytes.{Bytes}
use flushdb.Base.{sym}
use flushdb.Key.{has_separator}
use flushdb.Error.{ok}
use flushdb.Entry.{put, inline}
use flushdb.Token.{none_token}
use flushdb.Sstable.Types.{Codec, IsCodec, SstConfig, uncompressed}
use flushdb.Sstable.Bloom
use flushdb.Sstable.Bloom.{BloomFilter}
use flushdb.Sstable.BlockBuilder
use flushdb.Sstable.BlockReader.{BlockEntry}
use flushdb.Sstable.BlockReader.Entry.{Added, Fits}
use flushdb.Sstable.Footer.{SstFooter, truncate_key}
use flushdb.Sstable.Index.{IndexEntry}
use flushdb.Sstable.Reader.{SstableReader, GetRange}
use flushdb.Sstable.Reader.Blocks.{StoredBlock}
use flushdb.Sstable.Writer.{WriteState}
use flushdb.Tests.Data.{user, name, user_name, user_other, token, byte_count}
use flushdb.Base.{◌/◌}

abbrev pub plain : Codec
plain = record {
  crc32 = byte_count;
  snappy_compress = λ b. some b;
  snappy_decompress = λ b. some b;
  zstd_compress = λ b. some b;
  zstd_decompress = λ b. some b;
}

byte_count_small : (b : Bytes) → byte_count b < 2 ^ 32
byte_count_small [] = omega arith
byte_count_small (x ∷ xs) = omega arith

pub plain-IsCodec : IsCodec plain
plain-IsCodec = record {
  crc32_fits = byte_count_small;
  snappy_inverse = λ b packed h. sym h;
  zstd_inverse = λ b packed h. sym h;
}

abbrev pub named : Added
named = record {
  record_id = user;
  item_key = name;
  value = 7 ∷ [];
  metadata = [];
  entry_type = put;
  sequence_number = 1;
  idempotency_token = token;
}

abbrev pub other : Added
other = record {
  record_id = user;
  item_key = 111 ∷ [];
  value = [];
  metadata = 5 ∷ [];
  entry_type = put;
  sequence_number = 300;
  idempotency_token = none_token;
}

pub named-Fits : Fits named
unfolding has_separator
named-Fits = record {
  not_empty = omega arith;
  no_separator = refl;
  record_id_fits = omega arith;
  item_key_fits = omega arith;
  value_fits = omega arith;
  metadata_fits = omega arith;
  sequence_fits = omega arith;
}

pub other-Fits : Fits other
unfolding has_separator
other-Fits = record {
  not_empty = omega arith;
  no_separator = refl;
  record_id_fits = omega arith;
  item_key_fits = omega arith;
  value_fits = omega arith;
  metadata_fits = omega arith;
  sequence_fits = omega arith;
}

abbrev pub stored_entry : BlockEntry
stored_entry = record {
  composite_key = user_name;
  value = inline (7 ∷ []);
  metadata = [];
  entry_type = put;
  sequence_number = 1;
}

-- The block of the one entry, and its checksum.
abbrev pub raw_block : Bytes
raw_block = 1 ∷ 117 ∷ 1 ∷ 110 ∷ 0 ∷ 1 ∷ 7 ∷ 0 ∷ 0 ∷ 1 ∷ 10 ∷ 0 ∷ 0 ∷ 0 ∷ []

abbrev pub index_entry : IndexEntry
index_entry = record {
  first_key = user_name;
  block_offset = 16;
  block_size = 14;
  uncompressed_size = 14;
}

abbrev pub other_index_entry : IndexEntry
other_index_entry = record {
  first_key = user_other;
  block_offset = 30;
  block_size = 14;
  uncompressed_size = 14;
}

abbrev pub stored_block : StoredBlock
stored_block = record { entry = index_entry; entries = stored_entry ∷ [] }

abbrev pub one_filter : BloomFilter
one_filter = Bloom.build (λ n. n / 10) (Bloom.add_all (Bloom.new 10) (user ∷ []))

abbrev pub one_footer : SstFooter
one_footer = record {
  bloom_filter_offset = 34;
  bloom_filter_size = 29;
  index_block_offset = 63;
  index_block_size = 24;
  entry_count = 1;
  min_key = truncate_key user_name;
  max_key = truncate_key user_name;
  compression_type = uncompressed;
  format_version = 1;
  dedup_block_size = 4;
}

abbrev pub one_reader : SstableReader
one_reader = record {
  file_size = 167;
  footer = one_footer;
  filter = some one_filter;
  index = some (index_entry ∷ []);
  dedup = some [];
}

abbrev pub serve_block : GetRange
serve_block offset len = ok raw_block

abbrev pub plain_config : SstConfig
plain_config = record {
  block_size_target = 4096;
  compression = uncompressed;
  bloom_bits_per_key = 10;
}

abbrev pub written : WriteState
written = record {
  output = replicate 16 0 ++ raw_block;
  block_builder = BlockBuilder.new 4096;
  bloom_builder = Bloom.add_all (Bloom.new 10) (user ∷ []);
  dedup_builder = [];
  index_builder = index_entry ∷ [];
  entry_count = 1;
  min_key = some user_name;
  max_key = some user_name;
}
