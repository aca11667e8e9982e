-- ===== src/Wal/Header.antt =====
-- The header of a segment file reads back (crates/flushdb-wal/src/segment_header.rs).
use flushdb.Base.{
  ◌^◌, ◌<◌, ◌≡◌, refl, sym, ◌∙◌, ap, [], ◌∷◌, ◌++◌, length, slice, ltb, arith, length-append, true,
  false,
}
use flushdb.Base.Bytes.{Bytes, bytes_eq, bytes_eq_iff}
use flushdb.Base.Endian.{to_le, from_le, from_le-to_le, length-to_le}
use flushdb.Error.{ok}
use mathlib.Core.List.{append_assoc}
use flushdb.Wal.RoundTrip.{slice_at}
use flushdb.Wal.Segment.{SegmentHeader, encode_header, decode_header, wal_magic}

pub record IsHeader (h : SegmentHeader) : Type 0 where
  pub segment_fits : h.segment_number < 2 ^ 64
  pub sequence_fits : h.starting_sequence_number < 2 ^ 64
  pub time_fits : h.created_at_ms < 2 ^ 64

module _ (h : SegmentHeader) where
  abbrev n1 : Bytes
  n1 = to_le 8 h.segment_number

  abbrev n2 : Bytes
  n2 = to_le 8 h.starting_sequence_number

  abbrev n3 : Bytes
  n3 = to_le 8 h.created_at_ms

  abbrev front : Bytes
  front = 70 ∷ 87 ∷ 65 ∷ 76 ∷ 1 ∷ 0 ∷ 0 ∷ 0 ∷ []

  pub length-encode_header : length (encode_header h) ≡ 32
  unfolding encode_header
  length-encode_header =
      let a = length-append n1 (n2 ++ n3) in
      let b = length-append n2 n3 in
      let p = length-to_le 8 h.segment_number in
      let q = length-to_le 8 h.starting_sequence_number in
      let r = length-to_le 8 h.created_at_ms in omega arith

  shape : (rest : Bytes) → encode_header h ++ rest ≡ front ++ (n1 ++ (n2 ++ (n3 ++ rest)))
  unfolding encode_header
  shape rest =
      ap (λ (t : Bytes). front ++ t)
        (append_assoc n1 (n2 ++ n3) rest ∙ ap (λ (t : Bytes). n1 ++ t) (append_assoc n2 n3 rest))

  -- Whatever follows it, the header of a segment whose fields fit 64 bits decodes to the header
  -- that was encoded.
  pub decode_header-encode_header :
      (rest : Bytes) → IsHeader h → decode_header (encode_header h ++ rest) ≡ ok h
  unfolding decode_header
  decode_header-encode_header rest f =
      let p = length-to_le 8 h.segment_number in
      let q = length-to_le 8 h.starting_sequence_number in
      let r = length-to_le 8 h.created_at_ms in
      let all = front ++ (n1 ++ (n2 ++ (n3 ++ rest))) in
      let second : all ≡ (front ++ n1) ++ (n2 ++ (n3 ++ rest)) =
        sym (append_assoc front n1 (n2 ++ (n3 ++ rest))) in
      let third : all ≡ ((front ++ n1) ++ n2) ++ (n3 ++ rest) =
        second ∙ sym (append_assoc (front ++ n1) n2 (n3 ++ rest)) in
      let l1 = length-append front n1 in
      let l2 = length-append (front ++ n1) n2 in
      let a : from_le (slice 8 16 all) ≡ h.segment_number =
        ap from_le (slice_at front n1 (n2 ++ (n3 ++ rest)) 8 16 (omega arith) (omega arith))
        ∙ from_le-to_le 8 h.segment_number (omega (arith, f.segment_fits)) in
      let b : from_le (slice 16 24 all) ≡ h.starting_sequence_number =
        rw second
          (ap from_le (slice_at (front ++ n1) n2 (n3 ++ rest) 16 24 (omega arith) (omega arith)))
        ∙ from_le-to_le 8 h.starting_sequence_number (omega (arith, f.sequence_fits)) in
      let c : from_le (slice 24 32 all) ≡ h.created_at_ms =
        rw third
          (ap from_le (slice_at ((front ++ n1) ++ n2) n3 rest 24 32 (omega arith) (omega arith)))
        ∙ from_le-to_le 8 h.created_at_ms (omega (arith, f.time_fits)) in
      let size : ltb (length (encode_header h ++ rest)) 32 ≡ false =
        ground (arith, length-append (encode_header h) rest, length-encode_header) in
      let magic : bytes_eq (slice 0 4 all) wal_magic ≡ true =
        unfold slice bytes_eq in (bytes_eq_iff _ _).1 refl in
      rw (size, shape rest, magic, a, b, c) refl
