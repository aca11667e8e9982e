-- ===== src/Sstable/BlockReader.antt =====
-- Reading a block of a table: crates/flushdb-engine/src/sstable/block_reader.rs.
pub mod Entry
pub mod RoundTrip
use flushdb.Base.{
  ℕ, zero, suc, ◌+◌, ◌-◌, Option, none, some, List, [], ◌∷◌, ◌++◌, not, length, drop, take, slice,
  leb, ltb, ◌==◌, if◌then◌else◌,
}
use flushdb.Base.Bytes.{Bytes}
use flushdb.Base.Endian.{from_le}
use flushdb.Error.{FlushResult, ok, err, corrupted_data, crc_mismatch, ◌>>=◌}
use flushdb.Key
use flushdb.Key.{CompositeKey, separator}
use flushdb.Entry.{EntryType, EntryValue, inline, blob_ref, from_u8}
use flushdb.Sstable.Types.{CompressionType, Codec, decompress}
use flushdb.Sstable.Cursor.{read_len, take_bytes, read_field, read_byte}
use flushdb.Sstable.BlockBuilder.{inline_tag}

-- `EntryValue::BLOB_REF_TAG`
abbrev pub blob_ref_tag : ℕ
blob_ref_tag = 0x01

pub record BlockEntry : Type 0 where
  pub composite_key : CompositeKey
  pub value : EntryValue
  pub metadata : Bytes
  pub entry_type : EntryType
  pub sequence_number : ℕ

pub record BlockEntryIterator : Type 0 where
  pub bytes : Bytes
  pub offset : ℕ
  pub last_record_id : Option Bytes

-- `BlockEntryIterator::new`
unfoldable pub open_block : Codec → Bytes → CompressionType → FlushResult BlockEntryIterator
open_block c raw_block compression = do
  decompressed ← decompress c compression raw_block
  let payload_len = length decompressed - 4
  let stored_crc = from_le (drop payload_len decompressed)
  let computed_crc = c.crc32 (take payload_len decompressed)
  if ltb (length decompressed) 4
      then err (corrupted_data "block too short for CRC")
      else if not (stored_crc == computed_crc)
      then err (crc_mismatch stored_crc computed_crc)
      else ok (record { bytes = take payload_len decompressed; offset = 0; last_record_id = none })

-- The record id, and the position behind it.
unfoldable pub read_record_id : Option Bytes → Bytes → FlushResult (Bytes × ℕ)
read_record_id last buf = do
  r ← read_len buf 0
  if r.0 == 0
      then (elim last [
        | none ↦ err (corrupted_data "first entry in block has record_id_len=0")
        | some rid ↦ ok (rid, r.1)
      ])
      else take_bytes "record_id truncated" buf (r.1) (r.0)

unfoldable pub decode_value : ℕ → Bytes → FlushResult EntryValue
decode_value tag value_data =
    let blob_id_len = from_le (slice 0 2 value_data) in
    let offset_start = 2 + blob_id_len in
    if tag == inline_tag
    then ok (inline value_data)
    else if not (tag == blob_ref_tag)
    then err (corrupted_data "unknown entry value tag")
    else if ltb (length value_data) 2
    then err (corrupted_data "blob_ref data too short")
    else if ltb (length value_data) (2 + blob_id_len + 8 + 4)
    then err (corrupted_data "blob_ref fields truncated")
    else ok (
        blob_ref (slice 2 offset_start value_data)
          (from_le (slice offset_start (offset_start + 8) value_data))
          (from_le (slice (offset_start + 8) (offset_start + 12) value_data)))

-- On an error the source has the record id of the failed entry already stored; the offset stays, so
-- that each further call fails as this one did.
unfoldable pub decode_next : BlockEntryIterator → FlushResult (BlockEntry × BlockEntryIterator)
unfolding read_record_id decode_value
decode_next it = do
  let buf = drop it.offset it.bytes
  rid ← read_record_id it.last_record_id buf
  item_key ← read_field "item_key truncated" buf (rid.1)
  composite_key ← Key.from_bytes (rid.0 ++ (separator ∷ item_key.0))
  tag ← read_byte "value tag missing" buf (item_key.1)
  value_data ← read_field "value data truncated" buf (tag.1)
  value ← decode_value (tag.0) (value_data.0)
  metadata ← read_field "metadata truncated" buf (value_data.1)
  discriminant ← read_byte "entry_type missing" buf (metadata.1)
  entry_type ← from_u8 (discriminant.0)
  sequence_number ← read_len buf (discriminant.1)
  ok (
    record {
      composite_key = composite_key;
      value = value;
      metadata = metadata.0;
      entry_type = entry_type;
      sequence_number = sequence_number.0;
    },
    record {
      bytes = it.bytes;
      offset = it.offset + sequence_number.1;
      last_record_id = some (rid.0);
    },
  )

-- `collect`: up to the end or the first error. An entry takes a byte at least, so that a fuel of the
-- length of the bytes is enough.
unfoldable pub collect : ℕ → BlockEntryIterator → FlushResult (List BlockEntry)
unfolding decode_next
collect zero it = ok []
collect (suc fuel) it =
    if leb (length it.bytes) it.offset
    then ok []
    else do r ← decode_next it; later ← collect fuel (r.1); ok (r.0 ∷ later)

unfoldable pub decode_block : Codec → Bytes → CompressionType → FlushResult (List BlockEntry)
decode_block c raw_block compression = do
  it ← open_block c raw_block compression
  collect (length it.bytes) it
