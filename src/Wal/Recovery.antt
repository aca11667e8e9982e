-- ===== src/Wal/Recovery.antt =====
-- Reading a segment back (crates/flushdb-wal/src/segment_reader.rs): whatever was written in full is
-- recovered, and a tail that was not ends the reading without an error.
use flushdb.Base.{
  ℕ, zero, suc, ◌+◌, ◌-◌, ◌^◌, ◌<◌, ◌≤◌, ◌≡◌, refl, sym, ap, ◌∙◌, List, [], ◌∷◌, ◌++◌, map, none,
  some, All, length, take, slice, replicate, ltb, ◌==◌, arith, length-append, drop-append_length,
  length-take, true, false, Bool-cases, inl, inr, slice_head,
}
use flushdb.Base.{◌≢◌, ltb→lt}
use flushdb.Base.Bytes.{Bytes}
use flushdb.Base.Endian.{to_le, from_le, from_le-to_le, length-to_le}
use flushdb.Error.{ok}
use mathlib.Core.List.{append_assoc}
use flushdb.Wal.Entry.{
  WalEntry, encode, encode_into, encode_body, body_size, total_size, read_entry_length,
  validate_crc,
}
use flushdb.Wal.RoundTrip.{IsWalEntry, slice_at, length-encode_body, decode_body-encode_body}
use flushdb.Wal.Header.{IsHeader, length-encode_header, decode_header-encode_header}
use flushdb.Wal.Segment.{
  open_bytes, encode_header, SegmentReader, read_checked, next_entry, entries, SegmentHeader,
}

-- The checksum is a 32-bit number.
abbrev pub IsCrc : (Bytes → ℕ) → Type 0
IsCrc crc = (body : Bytes) → crc body < 2 ^ 32

-- The entry fits the widths of its fields, and its body the width of its length.
abbrev pub IsWritable : WalEntry → Type 0
IsWritable e = IsWalEntry e × (body_size e < 2 ^ 32)

abbrev pub written : (Bytes → ℕ) → List WalEntry → Bytes
written crc [] = []
written crc (e ∷ es) = encode crc e ++ written crc es

abbrev pub reader_at : SegmentHeader → Bytes → Bytes → SegmentReader
reader_at h front rest = record { bytes = front ++ rest; header = h; position = length front }

module _ (crc : Bytes → ℕ) (is_crc : IsCrc crc) (e : WalEntry) (v : IsWritable e) where
  abbrev size_bytes : Bytes
  size_bytes = to_le 4 (body_size e)

  abbrev crc_bytes : Bytes
  crc_bytes = to_le 4 (crc (encode_body e))

  encode_shape :
      (rest : Bytes) → encode crc e ++ rest ≡ size_bytes ++ (encode_body e ++ (crc_bytes ++ rest))
  unfolding encode encode_into
  encode_shape rest =
      append_assoc size_bytes _ rest
      ∙ ap (λ (t : Bytes). size_bytes ++ t) (append_assoc (encode_body e) crc_bytes rest)

  pub length-encode : length (encode crc e) ≡ total_size e
  unfolding encode encode_into total_size
  length-encode =
      length-append size_bytes _
      ∙ rw
          (
            length-to_le 4 (body_size e),
            length-append (encode_body e) crc_bytes,
            length-encode_body e v.0,
            length-to_le 4 (crc (encode_body e)),
          )
          (omega arith)

  entry_length_at : (rest : Bytes) → from_le (slice 0 4 (encode crc e ++ rest)) ≡ body_size e
  entry_length_at rest =
      let l = length-to_le 4 (body_size e) in
      rw (encode_shape rest, slice_head size_bytes (encode_body e ++ (crc_bytes ++ rest)) 4 l)
        (from_le-to_le 4 (body_size e) (omega (arith, v.1)))

  body_at : (rest : Bytes) → slice 4 (4 + body_size e) (encode crc e ++ rest) ≡ encode_body e
  body_at rest = rw (encode_shape rest) (
      slice_at size_bytes (encode_body e) (crc_bytes ++ rest) 4 (4 + body_size e)
        (sym (length-to_le 4 (body_size e)))
        (omega (arith, length-to_le 4 (body_size e), length-encode_body e v.0)))

  crc_at :
      (rest : Bytes)
      → from_le (slice (4 + body_size e) (4 + body_size e + 4) (encode crc e ++ rest))
        ≡ crc (encode_body e)
  crc_at rest =
      let shape : encode crc e ++ rest ≡ (size_bytes ++ encode_body e) ++ (crc_bytes ++ rest) =
        encode_shape rest ∙ sym (append_assoc size_bytes (encode_body e) (crc_bytes ++ rest)) in
      let n = length-append size_bytes (encode_body e) in
      let l = length-to_le 4 (body_size e) in
      let b = length-encode_body e v.0 in
      let c = length-to_le 4 (crc (encode_body e)) in
      rw
        (
          shape,
          slice_at (size_bytes ++ encode_body e) crc_bytes rest (4 + body_size e)
              (4 + body_size e + 4) (omega arith) (omega arith),
        )
        (from_le-to_le 4 (crc (encode_body e)) (omega (arith, is_crc (encode_body e))))

  validated : validate_crc crc (encode_body e) (crc (encode_body e)) ≡ ok tt
  unfolding validate_crc
  validated = ground arith

  read_checked_written :
      (r : SegmentReader) (needed : ℕ)
      → read_checked crc r (encode_body e) (crc (encode_body e)) needed
        ≡ ok (some e, record r { position = r.position + needed })
  unfolding read_checked
  read_checked_written r needed = rw (read_checked, validated, decode_body-encode_body e v.0) refl

  pub next_written :
      (h : SegmentHeader) (front rest : Bytes)
      → next_entry crc (reader_at h front (encode crc e ++ rest))
        ≡ ok (
          some e,
          record (reader_at h front (encode crc e ++ rest)) {
            position = length front + (4 + body_size e + 4);
          },
        )
  unfolding next_entry read_entry_length
  next_written h front rest =
      let d = drop-append_length front (encode crc e ++ rest) (length front) refl in
      let n : length (encode crc e ++ rest) ≡ 4 + body_size e + 4 + length rest =
        length-append (encode crc e) rest ∙ rw length-encode (unfold total_size in refl) in
      let some_size : 45 ≤ body_size e = unfold body_size in omega arith in
      let a : ltb (length (encode crc e ++ rest)) 4 ≡ false = ground (arith, n) in
      let b : (body_size e == 0) ≡ false = ground (arith, some_size) in
      let c : ltb (length (encode crc e ++ rest)) (4 + body_size e + 4) ≡ false =
        ground (arith, n) in
      rw (d, a, entry_length_at rest, b, c, body_at rest, crc_at rest)
        (read_checked_written (reader_at h front (encode crc e ++ rest)) (4 + body_size e + 4))

take-append_add :
    (xs ys : Bytes) (k n : ℕ) → k ≡ length xs + n → take k (xs ++ ys) ≡ xs ++ take n ys
take-append_add [] ys k n p = let w : k ≡ n = omega arith in rw w refl
take-append_add (x ∷ xs) ys zero n p = absurd (omega arith)
take-append_add (x ∷ xs) ys (suc k) n p =
    ap (λ (t : Bytes). x ∷ t) (take-append_add xs ys k n (omega arith))

-- The rest of a file at which the reading ends: zero bytes, or an entry cut off before its end.
pub data IsTail (crc : Bytes → ℕ) : Bytes → Type 0 where
  zeros : (k : ℕ) → IsTail crc (replicate k 0)
  torn :
      (e : WalEntry) (n : ℕ) → IsWritable e → n < total_size e → IsTail crc (take n (encode crc e))

module _ (crc : Bytes → ℕ) (is_crc : IsCrc crc) (h : SegmentHeader) where
  short_ends :
      (front tail : Bytes)
      → length tail < 4
      → next_entry crc (reader_at h front tail) ≡ ok (none, reader_at h front tail)
  unfolding next_entry
  short_ends front tail p =
      let d = drop-append_length front tail (length front) refl in rw d (ground arith)

  long_ends :
      (front tail : Bytes) (n : ℕ)
      → from_le (slice 0 4 tail) ≡ n
      → 4 ≤ length tail
      → (n ≢ 0 → length tail < 4 + n + 4)
      → next_entry crc (reader_at h front tail) ≡ ok (none, reader_at h front tail)
  unfolding next_entry read_entry_length
  long_ends front tail n r p q =
      let d = drop-append_length front tail (length front) refl in
      let s : ltb (length tail) 4 ≡ false = ground arith in
      rw (d, s, r)
        (elim (Bool-cases (n == 0)) [
          | inl z ↦ rw z refl
          | inr z ↦
              let w : ltb (length tail) (4 + n + 4) ≡ true = ground (arith, q (ground arith)) in
              rw (z, w) refl
        ])

  tail_ends :
      {tail : Bytes} (front : Bytes)
      → IsTail crc tail
      → next_entry crc (reader_at h front tail) ≡ ok (none, reader_at h front tail)
  tail_ends front (zeros zero) = short_ends front [] (omega arith)
  tail_ends front (zeros (suc zero)) = short_ends front _ (omega arith)
  tail_ends front (zeros (suc (suc zero))) = short_ends front _ (omega arith)
  tail_ends front (zeros (suc (suc (suc zero)))) = short_ends front _ (omega arith)
  tail_ends front (zeros (suc (suc (suc (suc k))))) =
      long_ends front _ 0 (unfold from_le slice in refl) (omega arith) (λ p. absurd (p refl))
  tail_ends front (torn e n v p) = elim (Bool-cases (ltb n 4)) [
    | inl s ↦ short_ends front _ (
        omega (
          arith,
          length-take n (encode crc e) (omega (arith, length-encode crc is_crc e v)),
          ltb→lt n 4 s,
        ))
    | inr s ↦
        let l = to_le 4 (body_size e) in
        let rest = encode_body e ++ to_le 4 (crc (encode_body e)) in
        let shape : encode crc e ≡ l ++ rest = unfold encode encode_into in refl in
        let w = length-to_le 4 (body_size e) in
        let cut : take n (encode crc e) ≡ l ++ take (n - 4) rest =
          rw shape (take-append_add l rest n (n - 4) (ground (arith, w))) in
        let size = length-take n (encode crc e) (omega (arith, length-encode crc is_crc e v)) in
        let value : from_le (slice 0 4 (take n (encode crc e))) ≡ body_size e =
          rw (cut, slice_head l (take (n - 4) rest) 4 w)
            (from_le-to_le 4 (body_size e) (omega (arith, v.1))) in
        long_ends front (take n (encode crc e)) (body_size e) value (ground (arith, size)) (λ q.
          let t : total_size e ≡ 4 + body_size e + 4 = unfold total_size in refl in
          omega (arith, size, p, t))
  ]

  -- The entries in front of a tail are all recovered, in the order in which they were written, and
  -- the tail ends the reading without an error.
  pub entries-written :
      (es : List WalEntry) {tail : Bytes} (front : Bytes) (fuel : ℕ)
      → All IsWritable es
      → IsTail crc tail
      → length es < fuel
      → entries crc fuel (reader_at h front (written crc es ++ tail)) ≡ map ok es
  unfolding entries
  entries-written [] front zero v t p = absurd (omega arith)
  entries-written [] front (suc fuel) v t p = rw (entries, tail_ends front t) refl
  entries-written (e ∷ es) front zero v t p = absurd (omega arith)
  entries-written (e ∷ es) {tail} front (suc fuel) v t p =
      let rest = written crc es ++ tail in
      let a : (encode crc e ++ written crc es) ++ tail ≡ encode crc e ++ rest =
        append_assoc (encode crc e) (written crc es) tail in
      let again = entries-written es (front ++ encode crc e) fuel v.1 t (omega arith) in
      let size : length (front ++ encode crc e) ≡ length front + (4 + body_size e + 4) =
        length-append front (encode crc e)
        ∙ rw (length-encode crc is_crc e v.0) (unfold total_size in refl) in
      let moved : record (reader_at h front (encode crc e ++ rest)) {
        position = length front + (4 + body_size e + 4);
      }
          ≡ reader_at h (front ++ encode crc e) rest =
        rw (append_assoc front (encode crc e) rest, size) refl in
      rw (a, entries, next_written crc is_crc e v.0 h front rest, moved, again) refl

  length-written : (es : List WalEntry) → All IsWritable es → length es ≤ length (written crc es)
  length-written [] v = omega arith
  length-written (e ∷ es) v =
      let a = length-append (encode crc e) (written crc es) in
      let b = length-encode crc is_crc e v.0 in
      let c : 8 ≤ total_size e = unfold total_size in omega arith in
      omega (arith, length-written es v.1)

  -- Of a segment file that holds a header, entries written in full, whose fields fit their widths,
  -- and a tail, which is zero bytes or an entry cut off before its end, the reader opens the header
  -- and yields exactly the entries in order, without an error.
  pub segment_recovered :
      (es : List WalEntry) {tail : Bytes}
      → IsHeader h
      → All IsWritable es
      → IsTail crc tail
      → let file = encode_header h ++ (written crc es ++ tail) in
        (open_bytes file ≡ ok (reader_at h (encode_header h) (written crc es ++ tail)))
        × (entries crc (length file) (reader_at h (encode_header h) (written crc es ++ tail))
            ≡ map ok es)
  unfolding open_bytes
  segment_recovered es {tail} f v t =
      let file = encode_header h ++ (written crc es ++ tail) in
      let a = length-append (encode_header h) (written crc es ++ tail) in
      let b = length-append (written crc es) tail in
      let c = length-written es v in
      let d = length-encode_header h in
      let long : ltb (length file) 32 ≡ false = ground (arith, a, d) in
      (
        rw (long, decode_header-encode_header h (written crc es ++ tail) f, d) refl,
        entries-written es (encode_header h) (length file) v t (omega arith),
      )
