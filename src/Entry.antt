-- ===== src/Entry.antt =====
-- The entry types of crates/flushdb-types: entry_type.rs, entry_value.rs and memtable_entry.rs.
pub mod Laws
use flushdb.Base.{ℕ, Bool, true, false, Option, none, some, [], length, ◌==◌, if◌then◌else◌}
use flushdb.Base.Bytes.{Bytes}
use flushdb.Error.{FlushResult, ok, err, corrupted_data}
use flushdb.Key
use flushdb.Key.{CompositeKey}
use flushdb.Token.{IdempotencyToken}

pub data EntryType : Type 0 where
  put delete range_delete : EntryType

unfoldable pub from_u8 : ℕ → FlushResult EntryType
from_u8 value =
    if value == 0
    then ok put
    else if value == 1
    then ok delete
    else if value == 2
    then ok range_delete
    else err (corrupted_data "unknown EntryType discriminant")

unfoldable pub as_u8 : EntryType → ℕ
as_u8 put = 0
as_u8 delete = 1
as_u8 range_delete = 2

-- `entry_type == EntryType::RangeDelete`
unfoldable pub is_range_delete : EntryType → Bool
is_range_delete range_delete = true
is_range_delete _ = false

-- `matches!(entry_type, EntryType::Delete | EntryType::RangeDelete)`
unfoldable pub is_delete : EntryType → Bool
is_delete put = false
is_delete _ = true

pub data EntryValue : Type 0 where
  inline : Bytes → EntryValue
  blob_ref : Bytes → ℕ → ℕ → EntryValue

unfoldable pub inline_value : EntryValue → Option Bytes
inline_value (inline v) = some v
inline_value (blob_ref blob_id offset size) = none

unfoldable pub inline_size : EntryValue → ℕ
inline_size (inline v) = length v
inline_size (blob_ref blob_id offset size) = 0

pub record MemtableEntry : Type 0 where
  pub composite_key : CompositeKey
  pub value : Bytes
  pub metadata : Bytes
  pub idempotency_key : IdempotencyToken
  pub sequence_number : ℕ
  pub entry_type : EntryType

unfoldable pub new : CompositeKey → Bytes → Bytes → IdempotencyToken → EntryType → MemtableEntry
new composite_key value metadata idempotency_key entry_type = record {
  composite_key = composite_key;
  value = value;
  metadata = metadata;
  idempotency_key = idempotency_key;
  sequence_number = 0;
  entry_type = entry_type;
}

unfoldable pub with_sequence :
    CompositeKey → Bytes → Bytes → IdempotencyToken → ℕ → EntryType → MemtableEntry
with_sequence composite_key value metadata idempotency_key sequence_number entry_type = record {
  composite_key = composite_key;
  value = value;
  metadata = metadata;
  idempotency_key = idempotency_key;
  sequence_number = sequence_number;
  entry_type = entry_type;
}

unfoldable pub record_id : MemtableEntry → Bytes
record_id e = Key.record_id e.composite_key

unfoldable pub item_key : MemtableEntry → Bytes
item_key e = Key.item_key e.composite_key

unfoldable pub is_tombstone : MemtableEntry → Bool
unfolding is_delete
is_tombstone e = is_delete e.entry_type
