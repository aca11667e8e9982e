-- ===== src/Tests/Data.antt =====
-- The records, keys, entries and tables at which the other tests run.
use flushdb.Base.{ℕ, [], ◌∷◌, ◌%◌, ◌+◌}
use flushdb.Base.Bytes.{Bytes}
use flushdb.Key.{CompositeKey}
use flushdb.Token.{IdempotencyToken, none_token}
use flushdb.Entry.{MemtableEntry, put, range_delete}
use flushdb.RangeTombstone.{RangeTombstone}
use flushdb.Memtable
use flushdb.Memtable.{Memtable, MemtableConfig}
use flushdb.MemtableList.{MemtableList}
use flushdb.Wal.Entry.{WalEntry}
use flushdb.Wal.Segment.{SegmentHeader}

abbrev pub user : Bytes
user = 117 ∷ []

abbrev pub users : Bytes
users = 117 ∷ 115 ∷ []

abbrev pub name : Bytes
name = 110 ∷ []

abbrev pub user_name : CompositeKey
user_name = 117 ∷ 0 ∷ 110 ∷ []

abbrev pub user_other : CompositeKey
user_other = 117 ∷ 0 ∷ 111 ∷ []

abbrev pub user_tombstone : CompositeKey
user_tombstone = 117 ∷ 0 ∷ 255 ∷ 110 ∷ []

abbrev pub token : IdempotencyToken
token =
    0 ∷ 0 ∷ 0 ∷ 0 ∷ 0 ∷ 0 ∷ 0 ∷ 9 ∷ 1 ∷ 2 ∷ 3 ∷ 4 ∷ 5 ∷ 6 ∷ 7 ∷ 8 ∷ 9 ∷ 10 ∷ 11 ∷ 12 ∷ 13 ∷ 14 ∷ 15
    ∷ 16 ∷ []

abbrev pub put_name : MemtableEntry
put_name = record {
  composite_key = user_name;
  value = 7 ∷ [];
  metadata = [];
  idempotency_key = token;
  sequence_number = 0;
  entry_type = put;
}

-- Deletes the item keys from `n` up to `p`.
abbrev pub delete_range : MemtableEntry
delete_range = record {
  composite_key = user_tombstone;
  value = 112 ∷ [];
  metadata = [];
  idempotency_key = none_token;
  sequence_number = 0;
  entry_type = range_delete;
}

abbrev pub config : MemtableConfig
config = record { size_threshold = 100; max_frozen_count = 2; memtable_memory_limit = 1000 }

abbrev pub empty_table : Memtable
empty_table = Memtable.new config 1

abbrev pub with_name : Memtable
with_name =
    Memtable.insert_inner (1 ∷ []) (record put_name { sequence_number = 1 })
      (record empty_table { next_sequence_number = 2 })

abbrev pub with_delete : Memtable
with_delete =
    Memtable.insert_inner (0 ∷ 2 ∷ []) (record delete_range { sequence_number = 2 })
      (record with_name { next_sequence_number = 3 })

abbrev pub tombstone : RangeTombstone
tombstone = record { record_id = user; start_key = name; end_key = 112 ∷ []; sequence_number = 2 }

abbrev pub later_tombstone : RangeTombstone
later_tombstone = record { record_id = users; start_key = []; end_key = []; sequence_number = 5 }

abbrev pub one_table : MemtableList
one_table = record { active = with_name; frozen = []; frozen_generation_ids = []; config = config }

abbrev pub logged : WalEntry
logged = record {
  sequence_number = 1;
  entry_type = put;
  namespace = 100 ∷ [];
  record_id = user;
  item_key = name;
  item_value = 7 ∷ [];
  item_metadata = [];
  idempotency_token = token;
}

abbrev pub segment_header : SegmentHeader
segment_header = record { segment_number = 3; starting_sequence_number = 1; created_at_ms = 1000 }

-- A checksum for the tests: the number of bytes.
abbrev pub byte_count : Bytes → ℕ
byte_count [] = 0
byte_count (b ∷ bs) = (byte_count bs + 1) % 4294967296
