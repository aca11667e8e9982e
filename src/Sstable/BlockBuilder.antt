-- ===== src/Sstable/BlockBuilder.antt =====
-- Building a block of a table: crates/flushdb-engine/src/sstable/block_builder.rs.
use flushdb.Base.{
  ℕ, ◌+◌, ◌^◌, ◌%◌, Bool, false, ◌&&◌, Option, none, some, List, [], ◌∷◌, ◌++◌, length, any, leb,
  ltb, ◌==◌, if◌then◌else◌,
}
use flushdb.Base.Bytes.{Bytes, bytes_eq}
use flushdb.Base.Endian.{to_le}
use flushdb.Error.{FlushResult, ok, err, invalid_argument, ◌>>=◌}
use flushdb.Key
use flushdb.Key.{CompositeKey}
use flushdb.Token
use flushdb.Token.{IdempotencyToken}
use flushdb.Entry.{EntryType, as_u8}
use flushdb.Sstable.Types.{CompressionType, Codec, compress}
use flushdb.Sstable.Varint.{encode_varint}
use flushdb.Sstable.Cursor.{put_field}

-- `EntryValue::INLINE_TAG`
abbrev pub inline_tag : ℕ
inline_tag = 0x00

pub record FinishedBlock : Type 0 where
  pub bytes : Bytes
  pub first_key : CompositeKey
  pub last_key : CompositeKey
  pub entry_count : ℕ
  pub uncompressed_size : ℕ
  pub record_ids : List Bytes
  pub idempotency_tokens : List IdempotencyToken

pub record BlockBuilder : Type 0 where
  pub buffer : Bytes
  pub entry_count : ℕ
  pub block_size_target : ℕ
  pub first_key : Option CompositeKey
  pub last_key : Option CompositeKey
  pub record_ids_seen : List Bytes
  pub idempotency_tokens : List IdempotencyToken
  pub last_record_id : Option Bytes

unfoldable pub new : ℕ → BlockBuilder
new block_size_target = record {
  buffer = [];
  entry_count = 0;
  block_size_target = block_size_target;
  first_key = none;
  last_key = none;
  record_ids_seen = [];
  idempotency_tokens = [];
  last_record_id = none;
}

-- `HashSet::insert`
unfoldable pub insert_id : Bytes → List Bytes → List Bytes
insert_id x xs = if any (bytes_eq x) xs then xs else x ∷ xs

-- `is_some_and(|last| last == record_id)`
abbrev pub is_last : Option Bytes → Bytes → Bool
is_last none record_id = false
is_last (some last) record_id = bytes_eq last record_id

-- Whether the record id is that of the entry before.
unfoldable pub repeats : BlockBuilder → Bytes → Bool
repeats b record_id = ltb 0 b.entry_count && is_last b.last_record_id record_id

-- What the call appends to the buffer.
unfoldable pub encode_entry : Bool → Bytes → Bytes → Bytes → Bytes → EntryType → ℕ → Bytes
encode_entry dedup record_id item_key value metadata entry_type sequence_number =
    (if dedup then encode_varint 0 else put_field record_id)
    ++ (put_field item_key
        ++ ((inline_tag ∷ [])
            ++ (put_field value
                ++ (put_field metadata
                    ++ ((as_u8 entry_type ∷ []) ++ encode_varint sequence_number)))))

abbrev or_first : Option CompositeKey → CompositeKey → Option CompositeKey
or_first none key = some key
or_first (some first) key = some first

unfoldable pub add_entry :
    BlockBuilder → CompositeKey → Bytes → Bytes → EntryType → ℕ → IdempotencyToken → BlockBuilder
unfolding repeats encode_entry insert_id
add_entry b key value metadata entry_type sequence_number idempotency_token =
    let record_id = Key.record_id key in
    let bytes =
      encode_entry (repeats b record_id) record_id (Key.item_key key) value metadata entry_type
        sequence_number in
    record {
      buffer = b.buffer ++ bytes;
      entry_count = (b.entry_count + 1) % 2 ^ 32;
      block_size_target = b.block_size_target;
      first_key = or_first b.first_key key;
      last_key = some key;
      record_ids_seen = insert_id record_id b.record_ids_seen;
      idempotency_tokens =
          if Token.is_none idempotency_token
          then b.idempotency_tokens
          else b.idempotency_tokens ++ (idempotency_token ∷ []);
      last_record_id = some record_id;
    }

unfoldable pub is_full : BlockBuilder → Bool
is_full b = leb b.block_size_target (length b.buffer)

unfoldable pub is_empty : BlockBuilder → Bool
is_empty b = b.entry_count == 0

-- The buffer with its checksum.
abbrev pub seal : Codec → Bytes → Bytes
seal c buffer = buffer ++ to_le 4 (c.crc32 buffer)

-- `unwrap`, on a key that is there: `finish` has seen that there is an entry.
abbrev pub unwrap : Option CompositeKey → CompositeKey
unwrap none = []
unwrap (some key) = key

unfoldable pub finish : Codec → BlockBuilder → CompressionType → FlushResult FinishedBlock
finish c b compression =
    let sealed = seal c b.buffer in
    if b.entry_count == 0 then err (invalid_argument "cannot finish empty block") else do
      compressed ← compress c compression sealed
      ok (record {
        bytes = compressed;
        first_key = unwrap b.first_key;
        last_key = unwrap b.last_key;
        entry_count = b.entry_count;
        uncompressed_size = length sealed % 2 ^ 32;
        record_ids = b.record_ids_seen;
        idempotency_tokens = b.idempotency_tokens;
      })

unfoldable pub estimated_size : BlockBuilder → ℕ
estimated_size b = length b.buffer

-- The builder as it was made, with its target.
unfoldable pub reset : BlockBuilder → BlockBuilder
reset b = record {
  buffer = [];
  entry_count = 0;
  block_size_target = b.block_size_target;
  first_key = none;
  last_key = none;
  record_ids_seen = [];
  idempotency_tokens = [];
  last_record_id = none;
}
