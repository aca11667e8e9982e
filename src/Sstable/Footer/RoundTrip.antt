-- ===== src/Sstable/Footer/RoundTrip.antt =====
-- The footer and the header of a table read back.
use flushdb.Base.{
  ℕ, ◌^◌, ◌<◌, ◌≡◌, refl, sym, ◌∙◌, [], ◌∷◌, ◌++◌, arith, length, ==-eq-true, length-append,
}
use flushdb.Base.Bytes.{Bytes}
use flushdb.Base.Endian.{to_le, length-to_le}
use flushdb.Error.{ok, ◌>>=◌}
use mathlib.Core.List.{append_assoc, append-nil}
use flushdb.Sstable.Types.{as_u8, from_u8-as_u8, sstable_magic}
use flushdb.Sstable.Cursor.{At, At-skip, slice-At, number-At, get_or-At}
use flushdb.Sstable.Footer.{
  SstFooter, SstHeader, checked_part, encode, decode, encode_header, decode_header,
}

-- Fields of the widths that the struct declares.
pub record IsFooter (f : SstFooter) : Type 0 where
  pub bloom_offset_fits : f.bloom_filter_offset < 256 ^ 8
  pub bloom_size_fits : f.bloom_filter_size < 256 ^ 4
  pub index_offset_fits : f.index_block_offset < 256 ^ 8
  pub index_size_fits : f.index_block_size < 256 ^ 4
  pub count_fits : f.entry_count < 256 ^ 8
  pub min_key_size : length f.min_key ≡ 16
  pub max_key_size : length f.max_key ≡ 16
  pub version_fits : f.format_version < 256 ^ 2
  pub dedup_size_fits : f.dedup_block_size < 256 ^ 4

module _ (f : SstFooter) (v : IsFooter f) where
  abbrev checked_then : Bytes → Bytes
  checked_then rest =
      to_le 8 f.bloom_filter_offset
      ++ (to_le 4 f.bloom_filter_size
          ++ (to_le 8 f.index_block_offset
              ++ (to_le 4 f.index_block_size
                  ++ (to_le 8 f.entry_count
                      ++ (f.min_key
                          ++ (f.max_key
                              ++ ((as_u8 f.compression_type ∷ [])
                                  ++ ((0 ∷ []) ++ (to_le 2 f.format_version ++ rest)))))))))

  checked_part-append : (rest : Bytes) → checked_part f ++ rest ≡ checked_then rest
  unfolding checked_part
  checked_part-append rest = simp append_assoc refl

  length-checked_part : length (checked_part f) ≡ 68
  unfolding checked_part
  length-checked_part =
      simp (length-append, length-to_le) (omega (arith, v.min_key_size, v.max_key_size))

  abbrev tail_of : (Bytes → ℕ) → Bytes
  tail_of crc =
      to_le 4 (crc (checked_part f)) ++ (to_le 4 sstable_magic ++ to_le 4 f.dedup_block_size)

  pub length-encode : (crc : Bytes → ℕ) → length (encode crc f) ≡ 80
  unfolding encode
  length-encode crc = simp (length-append, length-to_le) (omega (arith, length-checked_part))

  -- For a checksum of 32 bits the 80 bytes of a footer whose fields have their widths decode to it.
  pub decode-encode :
      (crc : Bytes → ℕ) → crc (checked_part f) < 2 ^ 32 → decode crc (encode crc f) ≡ ok f
  unfolding decode encode
  decode-encode crc fits =
      let buf = encode crc f in
      let start : At buf 0 (checked_then (tail_of crc)) =
        (checked_part-append (tail_of crc), omega arith) in
      let whole : At buf 0 (checked_part f ++ tail_of crc) = (refl, omega arith) in
      let (p, a) =
        slice-At buf 0 68 (checked_part f) (tail_of crc) whole
          (omega (arith, length-checked_part)) in
      let (q, b) = number-At buf 68 72 4 (crc (checked_part f)) _ a (omega arith) fits in
      let (r, c) = number-At buf 72 76 4 sstable_magic _ b (omega arith) (omega arith) in
      let c' : At buf 76 (to_le 4 f.dedup_block_size ++ []) = (c.0 ∙ sym (append-nil _), c.1) in
      let (s, _) = number-At buf 76 80 4 f.dedup_block_size [] c' (omega arith) v.dedup_size_fits in
      let (e1, a1) =
        number-At buf 0 8 8 f.bloom_filter_offset _ start (omega arith) v.bloom_offset_fits in
      let (e2, a2) =
        number-At buf 8 12 4 f.bloom_filter_size _ a1 (omega arith) v.bloom_size_fits in
      let (e3, a3) =
        number-At buf 12 20 8 f.index_block_offset _ a2 (omega arith) v.index_offset_fits in
      let (e4, a4) =
        number-At buf 20 24 4 f.index_block_size _ a3 (omega arith) v.index_size_fits in
      let (e5, a5) = number-At buf 24 32 8 f.entry_count _ a4 (omega arith) v.count_fits in
      let (e6, a6) = slice-At buf 32 48 f.min_key _ a5 (omega (arith, v.min_key_size)) in
      let (e7, a7) = slice-At buf 48 64 f.max_key _ a6 (omega (arith, v.max_key_size)) in
      let (e8, a8) = get_or-At buf 64 (as_u8 f.compression_type) _ a7 in
      let a9 = At-skip buf 65 (0 ∷ []) _ a8 in
      let (e10, _) = number-At buf 66 68 2 f.format_version _ a9 (omega arith) v.version_fits in
      let size = ==-eq-true (length buf) 80 (length-encode crc) in
      let same = ==-eq-true (crc (checked_part f)) (crc (checked_part f)) refl in
      rw
        (
          size,
          r,
          p,
          q,
          same,
          e8,
          from_u8-as_u8 f.compression_type,
          ◌>>=◌,
          e1,
          e2,
          e3,
          e4,
          e5,
          e6,
          e7,
          e10,
          s,
        )
        refl

pub length-encode_header : (h : SstHeader) → length (encode_header h) ≡ 16
unfolding encode_header
length-encode_header h = simp (length-append, length-to_le) (omega arith)

-- The 16 bytes of a header whose count has 64 bits decode to it.
pub decode_header-encode_header :
    (h : SstHeader) → h.entry_count < 2 ^ 64 → decode_header (encode_header h) ≡ ok h
unfolding decode_header encode_header
decode_header-encode_header h fits =
    let buf = encode_header h in
    let start : At buf 0 (
        to_le 4 sstable_magic
        ++ (to_le 2 1
            ++ ((as_u8 h.compression ∷ []) ++ ((0 ∷ []) ++ (to_le 8 h.entry_count ++ []))))) =
      (simp append-nil refl, omega arith) in
    let (e1, a1) = number-At buf 0 4 4 sstable_magic _ start (omega arith) (omega arith) in
    let (e2, a2) = number-At buf 4 6 2 1 _ a1 (omega arith) (omega arith) in
    let (e3, a3) = get_or-At buf 6 (as_u8 h.compression) _ a2 in
    let a4 = At-skip buf 7 (0 ∷ []) _ a3 in
    let (e5, a5) = number-At buf 8 16 8 h.entry_count [] a4 (omega arith) fits in
    let size = ==-eq-true (length buf) 16 (length-encode_header h) in
    rw (size, e1, e3, from_u8-as_u8 h.compression, ◌>>=◌, e5) refl
