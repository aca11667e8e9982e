-- ===== src/ReadPath/PageToken.antt =====
-- The token that names the next page of a range read.
use flushdb.Base.{
  ℕ, ◌+◌, ◌%◌, ◌^◌, ◌<◌, ◌≡◌, refl, true, false, ◌&&◌, Option, none, some, [], ◌∷◌, ◌++◌, arith,
  length, slice, get_or, leb, ltb, ◌==◌, if◌then◌else◌,
}
use flushdb.Base.Bytes.{Bytes}
use flushdb.Base.Endian.{to_le, from_le}
use flushdb.Error.{FlushResult, ok, err, invalid_argument, ◌>>=◌}
use flushdb.Base64.{base64_encode, base64_decode}
use flushdb.Base64.RoundTrip.{base64_decode-base64_encode}
use flushdb.Base.{All, All-append}
use flushdb.Base.Bytes.{IsByte}
use flushdb.Base.Endian.{to_le-IsByte}
use flushdb.Key
use flushdb.Key.{CompositeKey}
use flushdb.Sstable.Cursor.{At, slice-At, number-At, get_or-At}
use mathlib.Core.List.{append-nil}

pub record PageToken : Type 0 where
  pub last_composite_key : CompositeKey
  pub last_sequence_number : ℕ
  pub avg_item_size_bytes : Option ℕ

unfoldable pub put_average : Option ℕ → Bytes
put_average none = 0 ∷ []
put_average (some avg) = 1 ∷ to_le 4 avg

unfoldable pub encode : PageToken → Bytes
unfolding put_average
encode t =
    to_le 4 (length t.last_composite_key % 2 ^ 32)
    ++ (t.last_composite_key
        ++ (to_le 8 t.last_sequence_number ++ put_average t.avg_item_size_bytes))

-- The average behind the position, if it is marked and complete.
unfoldable pub read_average : Bytes → ℕ → Option ℕ
read_average bytes avg_pos =
    if ltb avg_pos (length bytes) && (get_or bytes avg_pos 0 == 1)
    then if leb (avg_pos + 5) (length bytes)
      then some (from_le (slice (avg_pos + 1) (avg_pos + 5) bytes))
      else none
    else none

unfoldable pub decode : Bytes → FlushResult PageToken
unfolding read_average
decode bytes =
    let key_len = from_le (slice 0 4 bytes) in
    let key_end = 4 + key_len in
    if ltb (length bytes) 12
    then err (invalid_argument "page token too short")
    else if ltb (length bytes) (key_end + 8)
    then err (invalid_argument "page token truncated")
    else do
      key ← Key.from_bytes (slice 4 key_end bytes)
      ok (record {
        last_composite_key = key;
        last_sequence_number = from_le (slice key_end (key_end + 8) bytes);
        avg_item_size_bytes = read_average bytes (key_end + 8);
      })

unfoldable pub to_base64 : PageToken → Bytes
unfolding encode
to_base64 t = base64_encode (encode t)

unfoldable pub from_base64 : Bytes → FlushResult PageToken
unfolding decode
from_base64 text = do bytes ← base64_decode text; decode bytes

-- A key of bytes with a separator, and fields of their widths.
pub record IsToken (t : PageToken) : Type 0 where
  pub key : Key.from_bytes t.last_composite_key ≡ ok t.last_composite_key
  pub key_bytes : All IsByte t.last_composite_key
  pub key_fits : length t.last_composite_key < 2 ^ 32
  pub sequence_fits : t.last_sequence_number < 2 ^ 64
  pub average_fits : (avg : ℕ) → t.avg_item_size_bytes ≡ some avg → avg < 2 ^ 32

read_average-At :
    (o : Option ℕ) (bytes : Bytes) (pos : ℕ)
    → ((avg : ℕ) → o ≡ some avg → avg < 2 ^ 32)
    → At bytes pos (put_average o ++ [])
    → read_average bytes pos ≡ o
unfolding read_average put_average
read_average-At none bytes pos fits a =
    let (e, b) = get_or-At bytes pos 0 [] a in
    let inside : ltb pos (length bytes) ≡ true = ground (arith, b.1) in rw (inside, e) refl
read_average-At (some avg) bytes pos fits a =
    let (e, b) = get_or-At bytes pos 1 _ a in
    let (f, c) = number-At bytes (pos + 1) (pos + 5) 4 avg [] b (omega arith) (fits avg refl) in
    let inside : ltb pos (length bytes) ≡ true = ground (arith, b.1) in
    let whole : leb (pos + 5) (length bytes) ≡ true = ground (arith, c.1) in
    rw (inside, e, whole, f) refl

encode_fits :
    (t : PageToken)
    → IsToken t
    → encode t
      ≡ to_le 4 (length t.last_composite_key)
        ++ (t.last_composite_key
            ++ (to_le 8 t.last_sequence_number ++ (put_average t.avg_item_size_bytes ++ [])))
unfolding encode
encode_fits t v =
    let w : length t.last_composite_key % 2 ^ 32 ≡ length t.last_composite_key =
      omega (arith, v.key_fits) in
    rw w (simp append-nil refl)

decode-encode : (t : PageToken) → IsToken t → decode (encode t) ≡ ok t
unfolding decode
decode-encode t v =
    let buf = encode t in
    let k = t.last_composite_key in
    let start : At buf 0 (
        to_le 4 (length k)
        ++ (k ++ (to_le 8 t.last_sequence_number ++ (put_average t.avg_item_size_bytes ++ [])))) =
      (encode_fits t v, omega arith) in
    let (e1, a1) = number-At buf 0 4 4 (length k) _ start (omega arith) v.key_fits in
    let (e2, a2) = slice-At buf 4 (4 + length k) k _ a1 refl in
    let (e3, a3) =
      number-At buf (4 + length k) (4 + length k + 8) 8 t.last_sequence_number _ a2 refl
        v.sequence_fits in
    let e4 = read_average-At t.avg_item_size_bytes buf (4 + length k + 8) v.average_fits a3 in
    let long : ltb (length buf) 12 ≡ false = ground (arith, a3.1) in
    let whole : ltb (length buf) (4 + length k + 8) ≡ false = ground (arith, a3.1) in
    rw (long, e1, whole, e2, v.key, ◌>>=◌, e3, e4) refl

put_average-IsByte : (o : Option ℕ) → All IsByte (put_average o)
unfolding put_average
put_average-IsByte none = (omega arith, tt)
put_average-IsByte (some avg) = (omega arith, to_le-IsByte 4 avg)

encode-IsByte : (t : PageToken) → IsToken t → All IsByte (encode t)
unfolding encode
encode-IsByte t v = All-append IsByte _ _ (to_le-IsByte 4 (length t.last_composite_key % 2 ^ 32)) (
    All-append IsByte _ _ v.key_bytes (
      All-append IsByte _ _ (to_le-IsByte 8 t.last_sequence_number)
        (put_average-IsByte t.avg_item_size_bytes)))

-- A page token with a valid key of bytes and fields that fit their widths reads back from its
-- base64 text.
pub from_base64-to_base64 : (t : PageToken) → IsToken t → from_base64 (to_base64 t) ≡ ok t
unfolding from_base64 to_base64
from_base64-to_base64 t v =
    rw (base64_decode-base64_encode (encode t) (encode-IsByte t v), ◌>>=◌) (decode-encode t v)
