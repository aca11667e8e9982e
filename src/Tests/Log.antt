-- ===== src/Tests/Log.antt =====
-- Tests of the write-ahead log.
use flushdb.Base.{◌≡◌, refl, [], ◌∷◌, ◌++◌, map, length, take, arith}
use flushdb.Error.{ok, ◌>>=◌}
use flushdb.Key
use flushdb.Wal.Entry.{
  encode, encode_body, decode_body, from_memtable_entry, to_memtable_entry, body_size, total_size,
}
use flushdb.Wal.RoundTrip.{IsWalEntry, decode_body-encode_body, replay_entry}
use flushdb.Wal.Segment.{encode_header, open_bytes, entries}
use flushdb.Wal.Header.{IsHeader}
use flushdb.Wal.Recovery.{IsCrc, IsWritable, torn, written, reader_at, segment_recovered}
use flushdb.Dirty
use flushdb.Dirty.Laws.{write-pins}
use flushdb.Base.{false}
use flushdb.Tests.Data.{user, name, put_name, logged, segment_header, byte_count}

logged_fits : IsWalEntry logged
logged_fits = record {
  sequence_fits = omega arith;
  namespace_fits = omega arith;
  record_id_fits = omega arith;
  item_key_fits = omega arith;
  item_value_fits = omega arith;
  item_metadata_fits = omega arith;
  token_fits = refl;
}

decode_body-encode_body_example : decode_body (encode_body logged) ≡ ok logged
decode_body-encode_body_example = decode_body-encode_body logged logged_fits

replay_entry_example :
    (decode_body (encode_body (from_memtable_entry put_name (100 ∷ []))) >>= to_memtable_entry)
    ≡ ok put_name
unfolding Key.new Key.validate_record_id Key.has_separator Key.validate_item_key Key.encode
replay_entry_example =
    replay_entry put_name (100 ∷ []) user name refl (omega arith) (omega arith) (omega arith)
      (omega arith) refl

segment_header-IsHeader : IsHeader segment_header
segment_header-IsHeader = record {
  segment_fits = omega arith;
  sequence_fits = omega arith;
  time_fits = omega arith;
}

byte_count-IsCrc : IsCrc byte_count
byte_count-IsCrc [] = omega arith
byte_count-IsCrc (b ∷ bs) = omega arith

logged-IsWritable : IsWritable logged
unfolding body_size
logged-IsWritable = (logged_fits, omega arith)

-- Two entries in full and the first ten bytes of a third.
segment_recovered_example :
    let bytes = written byte_count (logged ∷ logged ∷ []) ++ take 10 (encode byte_count logged) in
    let file = encode_header segment_header ++ bytes in
    (open_bytes file ≡ ok (reader_at segment_header (encode_header segment_header) bytes))
    × (entries byte_count
          (length file)
          (reader_at segment_header (encode_header segment_header) bytes)
        ≡ map ok (logged ∷ logged ∷ []))
unfolding total_size
segment_recovered_example =
    segment_recovered byte_count byte_count-IsCrc segment_header (logged ∷ logged ∷ [])
      segment_header-IsHeader (logged-IsWritable, (logged-IsWritable, tt))
      (torn logged 10 logged-IsWritable (omega arith))

write-pins_example :
    Dirty.is_segment_clean 7
      (Dirty.mark_generation_flushed 1 (Dirty.record_write 7 2 40 ((7, (1, 30) ∷ []) ∷ []))).1
    ≡ false
write-pins_example = write-pins 7 2 1 40 ((7, (1, 30) ∷ []) ∷ []) (λ e. absurd (omega arith))
