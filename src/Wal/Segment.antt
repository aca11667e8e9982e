-- ===== src/Wal/Segment.antt =====
-- Segment files: crates/flushdb-wal/src/segment_header.rs and segment_reader.rs. The reader has the
-- bytes of the file, which `open` reads from the disk, and a position.
use flushdb.Base.{ℕ, zero, suc, ◌+◌, Bool, not, ◌||◌, List, [], ◌∷◌, ◌++◌, Option, none, some}
use flushdb.Base.{length, drop, slice, get_or, any, ltb, leb, ◌==◌, if◌then◌else◌}
use flushdb.Base.Bytes.{Bytes, bytes_eq}
use flushdb.Base.Endian.{to_le, from_le}
use flushdb.Error.{FlushResult, ok, err, corrupted_data, ◌>>=◌}
use flushdb.Wal.Entry.{WalEntry, read_entry_length, validate_crc, decode_body}

abbrev pub segment_header_size : ℕ
segment_header_size = 32

-- `WAL_MAGIC`, "FWAL"
abbrev pub wal_magic : Bytes
wal_magic = 70 ∷ 87 ∷ 65 ∷ 76 ∷ []

abbrev pub wal_version : ℕ
wal_version = 1

pub record SegmentHeader : Type 0 where
  pub segment_number : ℕ
  pub starting_sequence_number : ℕ
  pub created_at_ms : ℕ

unfoldable pub encode_header : SegmentHeader → Bytes
encode_header h =
    wal_magic
    ++ ((wal_version ∷ 0 ∷ 0 ∷ 0 ∷ [])
        ++ (to_le 8 h.segment_number
            ++ (to_le 8 h.starting_sequence_number ++ to_le 8 h.created_at_ms)))

unfoldable pub decode_header : Bytes → FlushResult SegmentHeader
decode_header bytes =
    if ltb (length bytes) segment_header_size
    then err (corrupted_data "segment header too short")
    else if not (bytes_eq (slice 0 4 bytes) wal_magic)
    then err (corrupted_data "invalid WAL segment magic")
    else if not (get_or bytes 4 0 == wal_version)
    then err (corrupted_data "unsupported WAL segment version")
    else ok (record {
      segment_number = from_le (slice 8 16 bytes);
      starting_sequence_number = from_le (slice 16 24 bytes);
      created_at_ms = from_le (slice 24 32 bytes);
    })

pub record SegmentReader : Type 0 where
  pub bytes : Bytes
  pub header : SegmentHeader
  pub position : ℕ

-- `open`, from the bytes that the file holds.
unfoldable pub open_bytes : Bytes → FlushResult SegmentReader
open_bytes bytes =
    if ltb (length bytes) segment_header_size
    then err (corrupted_data "segment file too short for header")
    else do
      header ← decode_header bytes
      ok (record { bytes = bytes; header = header; position = segment_header_size })

unfoldable pub is_tail_corruption : Bytes → ℕ → Bool
is_tail_corruption bytes from =
    let remaining = drop from bytes in
    leb (length bytes) from || (ltb (length remaining) 8 || not (any (λ b. not (b == 0)) remaining))

-- From the body on: the checksum decides.
unfoldable pub read_checked :
    (Bytes → ℕ) → SegmentReader → Bytes → ℕ → ℕ → FlushResult (Option WalEntry × SegmentReader)
unfolding validate_crc decode_body is_tail_corruption
read_checked crc r body expected_crc needed = elim (validate_crc crc body expected_crc) [
  | ok u ↦ do entry ← decode_body body; ok (some entry, record r { position = r.position + needed })
  | err crc_err ↦
      if is_tail_corruption r.bytes (r.position + needed) then ok (none, r) else err crc_err
]

unfoldable pub next_entry :
    (Bytes → ℕ) → SegmentReader → FlushResult (Option WalEntry × SegmentReader)
unfolding read_entry_length read_checked
next_entry crc r =
    let remaining = drop r.position r.bytes in
    if ltb (length remaining) 4 then ok (none, r) else do
      entry_length ← read_entry_length remaining
      let needed = 4 + entry_length + 4
      if entry_length == 0
          then ok (none, r)
          else if ltb (length remaining) needed
          then ok (none, r)
          else read_checked crc r (slice 4 (4 + entry_length) remaining)
              (from_le (slice (4 + entry_length) (4 + entry_length + 4) remaining)) needed

-- What the iterator over the entries yields. An entry takes up bytes of the file, so that a fuel of
-- their number is enough.
unfoldable pub entries : (Bytes → ℕ) → ℕ → SegmentReader → List (FlushResult WalEntry)
unfolding next_entry
entries crc zero r = []
entries crc (suc fuel) r = elim (next_entry crc r) [
  | err e ↦ err e ∷ []
  | ok (o, r') ↦ elim o [ none ↦ [] | some entry ↦ ok entry ∷ entries crc fuel r' ]
]
