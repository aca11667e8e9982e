-- ===== src/Wal/Entry.antt =====
-- The entries of the write-ahead log: crates/flushdb-wal/src/entry.rs.
use flushdb.Base.{ℕ, ◌+◌, [], ◌∷◌, ◌++◌, length, get_or, slice, ltb, ◌==◌, if◌then◌else◌}
use flushdb.Base.Bytes.{Bytes}
use flushdb.Base.Endian.{to_le, from_le}
use flushdb.Error.{FlushResult, ok, err, corrupted_data, crc_mismatch, ◌>>=◌}
use flushdb.Key
use flushdb.Key.{CompositeKey}
use flushdb.Token
use flushdb.Token.{IdempotencyToken}
use flushdb.Entry
use flushdb.Entry.{EntryType, MemtableEntry}

pub record WalEntry : Type 0 where
  pub sequence_number : ℕ
  pub entry_type : EntryType
  pub namespace : Bytes
  pub record_id : Bytes
  pub item_key : Bytes
  pub item_value : Bytes
  pub item_metadata : Bytes
  pub idempotency_token : IdempotencyToken

abbrev pub fixed_body_overhead : ℕ
fixed_body_overhead = 8 + 1 + 2 + 2 + 2 + 4 + 2 + 24

unfoldable pub body_size : WalEntry → ℕ
body_size e =
    fixed_body_overhead
    + length e.namespace
    + length e.record_id
    + length e.item_key
    + length e.item_value
    + length e.item_metadata

unfoldable pub total_size : WalEntry → ℕ
unfolding body_size
total_size e = 4 + body_size e + 4

-- A length field of `n` bytes, which keeps the low bytes of the length, and the field's bytes.
unfoldable pub put_var : ℕ → Bytes → Bytes
put_var n field = to_le n (length field) ++ field

-- What `encode_into` writes between `body_start` and the checksum.
unfoldable pub encode_body : WalEntry → Bytes
unfolding put_var Entry.as_u8
encode_body e =
    to_le 8 e.sequence_number
    ++ ((Entry.as_u8 e.entry_type ∷ [])
        ++ (put_var 2 e.namespace
            ++ (put_var 2 e.record_id
                ++ (put_var 2 e.item_key
                    ++ (put_var 4 e.item_value
                        ++ (put_var 2 e.item_metadata ++ e.idempotency_token))))))

-- The buffer after the call.
unfoldable pub encode_into : (Bytes → ℕ) → WalEntry → Bytes → Bytes
unfolding body_size encode_body
encode_into crc e buf =
    buf ++ (to_le 4 (body_size e) ++ (encode_body e ++ to_le 4 (crc (encode_body e))))

unfoldable pub encode : (Bytes → ℕ) → WalEntry → Bytes
unfolding encode_into
encode crc e = encode_into crc e []

unfoldable pub read_entry_length : Bytes → FlushResult ℕ
read_entry_length bytes =
    if ltb (length bytes) 4
    then err (corrupted_data "WAL entry too short for length prefix")
    else ok (from_le (slice 0 4 bytes))

unfoldable pub validate_crc : (Bytes → ℕ) → Bytes → ℕ → FlushResult (Unit {0})
validate_crc crc body expected_crc =
    if crc body == expected_crc then ok tt else err (crc_mismatch expected_crc (crc body))

-- `read_var_u16` and `read_var_u32`, which differ in the width of the length.
unfoldable pub read_var : ℕ → Bytes → ℕ → FlushResult (Bytes × ℕ)
read_var n body pos =
    let start = pos + n in
    let end = start + from_le (slice pos (pos + n) body) in
    if ltb (length body) (pos + n)
    then err (corrupted_data "WAL entry field length exceeds body")
    else if ltb (length body) end
    then err (corrupted_data "WAL entry field length exceeds body")
    else ok (slice start end body, end)

-- `map_err` to a corruption with the message.
unfoldable pub as_corrupted {ℓ} : {A : Type ℓ} → FlushResult A → FlushResult A
as_corrupted (ok a) = ok a
as_corrupted (err e) = err (corrupted_data "WAL entry field is invalid")

unfoldable pub read_token : Bytes → ℕ → FlushResult IdempotencyToken
unfolding as_corrupted Token.from_bytes
read_token body pos =
    if ltb (length body) (pos + 24)
    then err (corrupted_data "WAL entry field length exceeds body")
    else as_corrupted (Token.from_bytes (slice pos (pos + 24) body))

unfoldable pub decode_body : Bytes → FlushResult WalEntry
unfolding as_corrupted Entry.from_u8 read_var read_token
decode_body body =
    if ltb (length body) fixed_body_overhead
    then err (corrupted_data "WAL entry body too short")
    else do
      entry_type ← as_corrupted (Entry.from_u8 (get_or body 8 0))
      namespace ← read_var 2 body 9
      record_id ← read_var 2 body (namespace.1)
      item_key ← read_var 2 body (record_id.1)
      item_value ← read_var 4 body (item_key.1)
      item_metadata ← read_var 2 body (item_value.1)
      idempotency_token ← read_token body (item_metadata.1)
      ok (record {
        sequence_number = from_le (slice 0 8 body);
        entry_type = entry_type;
        namespace = namespace.0;
        record_id = record_id.0;
        item_key = item_key.0;
        item_value = item_value.0;
        item_metadata = item_metadata.0;
        idempotency_token = idempotency_token;
      })

unfoldable pub from_memtable_entry : MemtableEntry → Bytes → WalEntry
unfolding Entry.record_id Entry.item_key
from_memtable_entry entry namespace = record {
  sequence_number = entry.sequence_number;
  entry_type = entry.entry_type;
  namespace = namespace;
  record_id = Entry.record_id entry;
  item_key = Entry.item_key entry;
  item_value = entry.value;
  item_metadata = entry.metadata;
  idempotency_token = entry.idempotency_key;
}

unfoldable pub to_memtable_entry : WalEntry → FlushResult MemtableEntry
unfolding Key.new Entry.with_sequence
to_memtable_entry e = do
  composite_key ← Key.new e.record_id e.item_key
  ok (
      Entry.with_sequence composite_key e.item_value e.item_metadata e.idempotency_token
        e.sequence_number e.entry_type)
