-- ===== src/Sstable/Footer.antt =====
-- The footer and the header of a table: crates/flushdb-engine/src/sstable/footer.rs.
pub mod RoundTrip
pub mod Bounds
use flushdb.Base.{
  ℕ, ◌-◌, ◌%◌, ◌^◌, Bool, ◌&&◌, not, [], ◌∷◌, ◌++◌, length, take, replicate, slice, get_or, ltb,
  ◌==◌, if◌then◌else◌,
}
use flushdb.Base.Bytes.{Bytes, compare_bytes}
use flushdb.Base.{is_le, is_ge}
use flushdb.Base.Endian.{to_le, from_le}
use flushdb.Error.{FlushResult, ok, err, corrupted_data, crc_mismatch, ◌>>=◌}
use flushdb.Key.{CompositeKey}
use flushdb.Sstable.Types.{
  CompressionType, as_u8, from_u8, sstable_magic, format_version, footer_size, header_size,
  min_max_key_truncation_len,
}
use flushdb.Base.{◌+◌}

pub record SstFooter : Type 0 where
  pub bloom_filter_offset : ℕ
  pub bloom_filter_size : ℕ
  pub index_block_offset : ℕ
  pub index_block_size : ℕ
  pub entry_count : ℕ
  pub min_key : Bytes
  pub max_key : Bytes
  pub compression_type : CompressionType
  pub format_version : ℕ
  pub dedup_block_size : ℕ

-- The 68 bytes that the checksum covers.
unfoldable pub checked_part : SstFooter → Bytes
checked_part f =
    to_le 8 f.bloom_filter_offset
    ++ (to_le 4 f.bloom_filter_size
        ++ (to_le 8 f.index_block_offset
            ++ (to_le 4 f.index_block_size
                ++ (to_le 8 f.entry_count
                    ++ (f.min_key
                        ++ (f.max_key
                            ++ ((as_u8 f.compression_type ∷ 0 ∷ [])
                                ++ to_le 2 f.format_version)))))))

unfoldable pub encode : (Bytes → ℕ) → SstFooter → Bytes
unfolding checked_part
encode crc f =
    checked_part f
    ++ (to_le 4 (crc (checked_part f)) ++ (to_le 4 sstable_magic ++ to_le 4 f.dedup_block_size))

unfoldable pub decode : (Bytes → ℕ) → Bytes → FlushResult SstFooter
decode crc bytes =
    let magic = from_le (slice 72 76 bytes) in
    let stored_crc = from_le (slice 68 72 bytes) in
    let computed_crc = crc (slice 0 68 bytes) in
    if not (length bytes == footer_size)
    then err (corrupted_data "footer must be exactly 80 bytes")
    else if not (magic == sstable_magic)
    then err (corrupted_data "invalid SSTable magic")
    else if not (stored_crc == computed_crc)
    then err (crc_mismatch stored_crc computed_crc)
    else do
      compression_type ← from_u8 (get_or bytes 64 0)
      ok (record {
        bloom_filter_offset = from_le (slice 0 8 bytes);
        bloom_filter_size = from_le (slice 8 12 bytes);
        index_block_offset = from_le (slice 12 20 bytes);
        index_block_size = from_le (slice 20 24 bytes);
        entry_count = from_le (slice 24 32 bytes);
        min_key = slice 32 48 bytes;
        max_key = slice 48 64 bytes;
        compression_type = compression_type;
        format_version = from_le (slice 66 68 bytes);
        dedup_block_size = from_le (slice 76 80 bytes);
      })

-- A block larger than its offset makes the source's subtraction panic or wrap; the model wraps.
unfoldable pub dedup_block_offset : SstFooter → ℕ
dedup_block_offset f = (f.bloom_filter_offset + (2 ^ 64 - f.dedup_block_size)) % 2 ^ 64

unfoldable pub truncate_key : CompositeKey → Bytes
truncate_key key =
    let copy_len =
      if ltb (length key) min_max_key_truncation_len
      then length key
      else min_max_key_truncation_len in
    take copy_len key ++ replicate (min_max_key_truncation_len - copy_len) 0

unfoldable pub may_contain_key : SstFooter → CompositeKey → Bool
unfolding truncate_key
may_contain_key f key =
    is_ge (compare_bytes (truncate_key key) f.min_key)
    && is_le (compare_bytes (truncate_key key) f.max_key)

pub record SstHeader : Type 0 where
  pub compression : CompressionType
  pub entry_count : ℕ

unfoldable pub encode_header : SstHeader → Bytes
encode_header h =
    to_le 4 sstable_magic
    ++ (to_le 2 1 ++ ((as_u8 h.compression ∷ 0 ∷ []) ++ to_le 8 h.entry_count))

unfoldable pub decode_header : Bytes → FlushResult SstHeader
decode_header bytes =
    if not (length bytes == header_size)
    then err (corrupted_data "header must be exactly 16 bytes")
    else if not (from_le (slice 0 4 bytes) == sstable_magic)
    then err (corrupted_data "invalid SSTable header magic")
    else do
      compression ← from_u8 (get_or bytes 6 0)
      ok (record { compression = compression; entry_count = from_le (slice 8 16 bytes) })
