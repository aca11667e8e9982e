-- ===== src/Sstable/Index/RoundTrip.antt =====
-- The index of a table reads back.
use flushdb.Base.{
  ℕ, ◌+◌, ◌%◌, ◌^◌, ◌<◌, ◌≡◌, refl, ◌∙◌, false, [], ◌∷◌, ◌++◌, arith, All, length, ltb, leb,
}
use flushdb.Base.Bytes.{Bytes}
use flushdb.Base.Endian.{to_le}
use flushdb.Error.{ok, ◌>>=◌}
use flushdb.Key.{from_bytes}
use mathlib.Core.List.{append_assoc}
use flushdb.Sstable.Varint.{encode_varint}
use flushdb.Sstable.Cursor.{At, put_field, put_field-At, read_len-At, slice-At, number-At}
use flushdb.Sstable.Index.{
  IndexEntry, IndexBlock, put_entry, put_entries, serialize, read_entry, read_entries, deserialize,
}

-- A key with a separator, and fields of their widths.
pub record IsIndexEntry (e : IndexEntry) : Type 0 where
  pub key : from_bytes e.first_key ≡ ok e.first_key
  pub key_fits : length e.first_key < 2 ^ 64
  pub offset_fits : e.block_offset < 256 ^ 8
  pub size_fits : e.block_size < 256 ^ 4
  pub uncompressed_fits : e.uncompressed_size < 256 ^ 4

put_entry-append :
    (e : IndexEntry) (rest : Bytes)
    → put_entry e ++ rest
      ≡ put_field e.first_key
        ++ (to_le 8 e.block_offset
            ++ (to_le 4 e.block_size ++ (to_le 4 e.uncompressed_size ++ rest)))
unfolding put_entry
put_entry-append e rest = simp append_assoc refl

read_entry-At :
    (bytes : Bytes) (pos : ℕ) (e : IndexEntry) (rest : Bytes)
    → IsIndexEntry e
    → At bytes pos (put_entry e ++ rest)
    → (n : ℕ) × (read_entry bytes pos ≡ ok (e, n)) × At bytes n rest
unfolding read_entry
read_entry-At bytes pos e rest v a =
    let start : At bytes pos _ = (a.0 ∙ put_entry-append e rest, a.1) in
    let key_start = put_field-At bytes pos e.first_key _ start in
    let (e1, a1) = read_len-At bytes pos (length e.first_key) _ key_start v.key_fits in
    let p = pos + length (encode_varint (length e.first_key)) in
    let q = p + length e.first_key in
    let (e2, a2) = slice-At bytes p q e.first_key _ a1 refl in
    let (e3, a3) = number-At bytes q (q + 8) 8 e.block_offset _ a2 refl v.offset_fits in
    let (e4, a4) = number-At bytes (q + 8) (q + 12) 4 e.block_size _ a3 (omega arith) v.size_fits in
    let (e5, a5) =
      number-At bytes (q + 12) (q + 16) 4 e.uncompressed_size rest a4 (omega arith)
        v.uncompressed_fits in
    let more : leb (length bytes) pos ≡ false = ground (arith, a5.1) in
    let long : ltb (length bytes) (q + 16) ≡ false = ground (arith, a5.1) in
    (q + 16, rw (more, e1, ◌>>=◌, long, e2, v.key, e3, e4, e5) refl, a5)

read_entries-At :
    (es : IndexBlock) (bytes : Bytes) (pos : ℕ)
    → All IsIndexEntry es
    → At bytes pos (put_entries es)
    → read_entries (length es) bytes pos ≡ ok es
unfolding read_entries put_entries
read_entries-At [] bytes pos v a = refl
read_entries-At (e ∷ es) bytes pos v a =
    let (n, first, b) = read_entry-At bytes pos e (put_entries es) v.0 a in
    rw (first, ◌>>=◌, read_entries-At es bytes n v.1 b) refl

serialize_few :
    (es : IndexBlock) → length es < 2 ^ 32 → serialize es ≡ to_le 4 (length es) ++ put_entries es
unfolding serialize
serialize_few es few = let w : length es % 2 ^ 32 ≡ length es = omega arith in rw w refl

-- An index of fewer than 2 ^ 32 blocks, with composite keys and fields that fit, reads back.
pub deserialize-serialize :
    (es : IndexBlock)
    → All IsIndexEntry es
    → length es < 2 ^ 32
    → deserialize (serialize es) ≡ ok es
unfolding deserialize
deserialize-serialize es v few =
    let buf = to_le 4 (length es) ++ put_entries es in
    let start : At buf 0 (to_le 4 (length es) ++ put_entries es) = (refl, omega arith) in
    let (e1, a1) = number-At buf 0 4 4 (length es) (put_entries es) start (omega arith) few in
    let long : ltb (length buf) 4 ≡ false = ground (arith, a1.1) in
    rw (serialize_few es few, long, e1) (read_entries-At es buf 4 v a1)
