-- ===== src/Sstable/Varint.antt =====
-- Variable-length integers: crates/flushdb-engine/src/sstable/varint.rs. On numbers of 64 bits
-- `v & 0x7F` is `v % 128`, `v >>= 7` is `v / 128`, and the bits that `|=` joins are disjoint, so that
-- it adds.
pub mod RoundTrip
use flushdb.Base.{
  ℕ, zero, suc, ◌+◌, ◌-◌, ◌*◌, ◌/◌, ◌%◌, ◌^◌, List, [], ◌∷◌, ◌++◌, is_empty, leb, ltb, ◌==◌,
  if◌then◌else◌,
}
use flushdb.Base.Bytes.{Bytes}
use flushdb.Error.{FlushResult, ok, err, corrupted_data}

-- The loop; a number of 64 bits has at most ten groups of seven bits.
unfoldable pub encode_loop : ℕ → ℕ → Bytes
encode_loop zero v = []
encode_loop (suc fuel) v =
    let rest = encode_loop fuel (v / 128) in
    if v / 128 == 0 then v % 128 ∷ [] else (v % 128 + 128) ∷ rest

-- What the call appends to the buffer.
unfoldable pub encode_varint : ℕ → Bytes
encode_varint value = encode_loop 10 value

-- From the byte at index `i` on.
unfoldable pub decode_loop : Bytes → ℕ → ℕ → ℕ → FlushResult (ℕ × ℕ)
decode_loop [] i shift value = err (corrupted_data "varint is truncated")
decode_loop (byte ∷ bytes) i shift value =
    let value' = value + byte % 128 * 2 ^ shift % 2 ^ 64 in
    let later = decode_loop bytes (i + 1) (shift + 7) value' in
    if leb 10 i
    then err (corrupted_data "varint exceeds 10 bytes")
    else if ltb byte 128
    then ok (value', i + 1)
    else later

unfoldable pub decode_varint : Bytes → FlushResult (ℕ × ℕ)
decode_varint buf =
    if is_empty buf then err (corrupted_data "varint buffer is empty") else decode_loop buf 0 0 0

-- The number of bits, `64 - leading_zeros`.
unfoldable pub bit_length : ℕ → ℕ → ℕ
bit_length zero v = 0
bit_length (suc fuel) v = let rest = bit_length fuel (v / 2) in if v == 0 then 0 else 1 + rest

unfoldable pub varint_len : ℕ → ℕ
unfolding bit_length
varint_len value = if value == 0 then 1 else (bit_length 64 value + 6) / 7
