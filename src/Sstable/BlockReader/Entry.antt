-- ===== src/Sstable/BlockReader/Entry.antt =====
-- One entry of a block reads back.
use flushdb.Base.{
  ℕ, ◌+◌, ◌^◌, ◌<◌, ◌≤◌, ◌≡◌, refl, sym, ◌∙◌, ap, Bool, true, false, Option, some, List, [], ◌∷◌,
  ◌++◌, arith, length, drop, ◌==◌, if◌then◌else◌,
}
use flushdb.Base.Bytes.{Bytes}
use mathlib.Core.List.{append_assoc}
use flushdb.Sstable.Cursor.{put_field-At}
use flushdb.Error.{ok, ◌>>=◌}
use flushdb.Key.{encode, has_separator}
use flushdb.Key.RoundTrip.{from_bytes-encode}
use flushdb.Entry.{EntryType, inline, as_u8}
use flushdb.Entry.Laws.{from_u8-as_u8}
use flushdb.Token.{IdempotencyToken}
use flushdb.Sstable.Varint.{encode_varint}
use flushdb.Sstable.Cursor.{
  At, put_field, read_field, take_bytes, read_len-At, read_field-At, read_byte-At,
}
use flushdb.Sstable.BlockBuilder.{BlockBuilder, add_entry, encode_entry, inline_tag}
use flushdb.Sstable.BlockReader.{BlockEntry, BlockEntryIterator, read_record_id, decode_next}
use flushdb.Base.{length-append}

-- The arguments of a call of `add_entry`.
pub record Added : Type 0 where
  pub record_id : Bytes
  pub item_key : Bytes
  pub value : Bytes
  pub metadata : Bytes
  pub entry_type : EntryType
  pub sequence_number : ℕ
  pub idempotency_token : IdempotencyToken

abbrev pub add : BlockBuilder → Added → BlockBuilder
add b e =
    add_entry b (encode e.record_id e.item_key) e.value e.metadata e.entry_type e.sequence_number
      e.idempotency_token

abbrev pub add_all : BlockBuilder → List Added → BlockBuilder
add_all b [] = b
add_all b (e ∷ es) = add_all (add b e) es

abbrev pub entry_of : Added → BlockEntry
entry_of e = record {
  composite_key = encode e.record_id e.item_key;
  value = inline e.value;
  metadata = e.metadata;
  entry_type = e.entry_type;
  sequence_number = e.sequence_number;
}

-- A record id that is not empty and holds no zero byte, and lengths and a number of 64 bits.
pub record Fits (e : Added) : Type 0 where
  pub not_empty : 1 ≤ length e.record_id
  pub no_separator : has_separator e.record_id ≡ false
  pub record_id_fits : length e.record_id < 2 ^ 64
  pub item_key_fits : length e.item_key < 2 ^ 64
  pub value_fits : length e.value < 2 ^ 64
  pub metadata_fits : length e.metadata < 2 ^ 64
  pub sequence_fits : e.sequence_number < 2 ^ 64

abbrev pub entry_bytes : Bool → Added → Bytes
entry_bytes dedup e =
    encode_entry dedup e.record_id e.item_key e.value e.metadata e.entry_type e.sequence_number

-- The full record id, or nothing where it is the last one.
abbrev id_bytes : Bool → Bytes → Bytes
id_bytes dedup rid = if dedup then encode_varint 0 else put_field rid

read_full-At :
    (last : Option Bytes) (buf rid rest : Bytes)
    → At buf 0 (put_field rid ++ rest)
    → 1 ≤ length rid
    → length rid < 2 ^ 64
    → (read_record_id last buf ≡ ok (rid, 0 + length (put_field rid)))
      × At buf (0 + length (put_field rid)) rest
unfolding read_record_id read_field
read_full-At last buf rid rest a some_bytes fits =
    let (e, b) = read_field-At "record_id truncated" buf 0 rid rest a fits in
    let (f, _) =
      read_len-At buf 0 (length rid) (rid ++ rest) (put_field-At buf 0 rid rest a) fits in
    let nonzero : length rid == 0 ≡ false = ground arith in
    let g = ap (λ m. m >>= λ r. take_bytes "record_id truncated" buf (r.1) (r.0)) (sym f) ∙ e in
    (rw (f, ◌>>=◌, nonzero) g, b)

read_repeated-At :
    (buf rid rest : Bytes)
    → At buf 0 (encode_varint 0 ++ rest)
    → (read_record_id (some rid) buf ≡ ok (rid, 0 + length (encode_varint 0)))
      × At buf (0 + length (encode_varint 0)) rest
unfolding read_record_id
read_repeated-At buf rid rest a =
    let (e, b) = read_len-At buf 0 0 rest a (omega arith) in (rw (e, ◌>>=◌) refl, b)

-- Either the full record id, or nothing where it is the last one.
read_id-At :
    (dedup : Bool) (last : Option Bytes) (buf : Bytes) (e : Added) (rest : Bytes)
    → Fits e
    → (dedup ≡ true → last ≡ some e.record_id)
    → At buf 0 (id_bytes dedup e.record_id ++ rest)
    → (read_record_id last buf ≡ ok (e.record_id, 0 + length (id_bytes dedup e.record_id)))
      × At buf (0 + length (id_bytes dedup e.record_id)) rest
read_id-At true last buf e rest f known a =
    rw (known refl) (read_repeated-At buf e.record_id rest a)
read_id-At false last buf e rest f known a =
    read_full-At last buf e.record_id rest a f.not_empty f.record_id_fits

-- The parts of an entry's bytes in front of what follows them.
abbrev parts : Bool → Added → Bytes → Bytes
parts dedup e rest =
    id_bytes dedup e.record_id
    ++ (put_field e.item_key
        ++ ((inline_tag ∷ [])
            ++ (put_field e.value
                ++ (put_field e.metadata
                    ++ ((as_u8 e.entry_type ∷ []) ++ (encode_varint e.sequence_number ++ rest))))))

entry_bytes-append :
    (dedup : Bool) (e : Added) (rest : Bytes) → entry_bytes dedup e ++ rest ≡ parts dedup e rest
unfolding encode_entry
entry_bytes-append dedup e rest = simp append_assoc refl

pub length-entry_bytes :
    (dedup : Bool) (e : Added)
    → length (entry_bytes dedup e)
      ≡ 0
        + length (id_bytes dedup e.record_id)
        + length (put_field e.item_key)
        + 1
        + length (put_field e.value)
        + length (put_field e.metadata)
        + 1
        + length (encode_varint e.sequence_number)
unfolding encode_entry
length-entry_bytes dedup e = simp length-append (omega arith)

pub decode_next-At :
    (dedup : Bool) (it : BlockEntryIterator) (e : Added) (rest : Bytes)
    → Fits e
    → (dedup ≡ true → it.last_record_id ≡ some e.record_id)
    → At it.bytes it.offset (entry_bytes dedup e ++ rest)
    → decode_next it
      ≡ ok (
        entry_of e,
        record {
          bytes = it.bytes;
          offset = it.offset + length (entry_bytes dedup e);
          last_record_id = some e.record_id;
        },
      )
unfolding decode_next encode_entry encode
decode_next-At dedup it e rest f known a =
    let buf = drop it.offset it.bytes in
    let start : At buf 0 (parts dedup e rest) =
      (a.0 ∙ entry_bytes-append dedup e rest, omega arith) in
    let (e1, a1) = read_id-At dedup it.last_record_id buf e _ f known start in
    let (e2, a2) = read_field-At "item_key truncated" buf _ e.item_key _ a1 f.item_key_fits in
    let (e3, a3) = read_byte-At "value tag missing" buf _ inline_tag _ a2 in
    let (e4, a4) = read_field-At "value data truncated" buf _ e.value _ a3 f.value_fits in
    let (e5, a5) = read_field-At "metadata truncated" buf _ e.metadata _ a4 f.metadata_fits in
    let (e6, a6) = read_byte-At "entry_type missing" buf _ (as_u8 e.entry_type) _ a5 in
    let (e7, a7) = read_len-At buf _ e.sequence_number rest a6 f.sequence_fits in
    let size : 0
          + length (id_bytes dedup e.record_id)
          + length (put_field e.item_key)
          + 1
          + length (put_field e.value)
          + length (put_field e.metadata)
          + 1
          + length (encode_varint e.sequence_number)
        ≡ length (entry_bytes dedup e) =
      sym (length-entry_bytes dedup e) in
    rw
      (
        e1,
        ◌>>=◌,
        e2,
        from_bytes-encode e.record_id e.item_key,
        e3,
        e4,
        e5,
        e6,
        from_u8-as_u8 e.entry_type,
        e7,
        size,
      )
      refl
