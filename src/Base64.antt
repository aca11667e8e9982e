-- ===== src/Base64.antt =====
-- The base64 of page tokens and of the manifest's keys: crates/flushdb-engine/src/read_path.rs and
-- crates/flushdb-engine/src/manifest/types.rs, which have the same code but for the error. A string
-- is its bytes; the bits that `|` joins are disjoint, so that it adds.
pub mod RoundTrip
use flushdb.Base.{
  ℕ, zero, suc, ◌+◌, ◌-◌, ◌*◌, ◌/◌, ◌%◌, ◌^◌, Bool, true, false, not, ◌&&◌, List, [], ◌∷◌, ◌++◌,
  length, leb, ltb, ◌==◌, if◌then◌else◌,
}
use flushdb.Base.Bytes.{Bytes}
use flushdb.Error.{FlushResult, ok, err, invalid_argument, ◌>>=◌}

-- `CHARS[v]`
unfoldable pub char_of : ℕ → ℕ
char_of v =
    if ltb v 26
    then 65 + v
    else if ltb v 52
    then 97 + (v - 26)
    else if ltb v 62
    then 48 + (v - 52)
    else if v == 62
    then 43
    else 47

-- The character `=`.
abbrev pub padding : ℕ
padding = 61

-- The characters of one chunk of up to three bytes.
unfoldable pub encode_chunk : ℕ → ℕ → ℕ → Bytes
unfolding char_of
encode_chunk b0 b1 b2 =
    let triple = b0 * 2 ^ 16 + b1 * 2 ^ 8 + b2 in
    char_of (triple / 2 ^ 18 % 64)
    ∷ char_of (triple / 2 ^ 12 % 64)
    ∷ char_of (triple / 2 ^ 6 % 64)
    ∷ char_of (triple % 64)
    ∷ []

abbrev first_two : ℕ → ℕ → Bytes
first_two b0 b1 =
    let triple = b0 * 2 ^ 16 + b1 * 2 ^ 8 in
    char_of (triple / 2 ^ 18 % 64) ∷ char_of (triple / 2 ^ 12 % 64) ∷ []

unfoldable pub base64_encode : Bytes → Bytes
unfolding char_of encode_chunk
base64_encode [] = []
base64_encode (b0 ∷ []) = first_two b0 0 ++ (padding ∷ padding ∷ [])
base64_encode (b0 ∷ b1 ∷ []) =
    first_two b0 b1 ++ (char_of ((b0 * 2 ^ 16 + b1 * 2 ^ 8) / 2 ^ 6 % 64) ∷ padding ∷ [])
base64_encode (b0 ∷ b1 ∷ b2 ∷ bytes) = encode_chunk b0 b1 b2 ++ base64_encode bytes

unfoldable pub char_to_val : ℕ → FlushResult ℕ
char_to_val c =
    if leb 65 c && leb c 90
    then ok (c - 65)
    else if leb 97 c && leb c 122
    then ok (c - 97 + 26)
    else if leb 48 c && leb c 57
    then ok (c - 48 + 52)
    else if c == 43
    then ok 62
    else if c == 47
    then ok 63
    else if c == padding
    then ok 0
    else err (invalid_argument "invalid base64 char")

-- The bytes of one chunk of four characters.
unfoldable pub decode_chunk : ℕ → ℕ → ℕ → ℕ → FlushResult Bytes
unfolding char_to_val
decode_chunk c0 c1 c2 c3 = do
  v0 ← char_to_val c0
  v1 ← char_to_val c1
  v2 ← char_to_val c2
  v3 ← char_to_val c3
  let triple = v0 * 2 ^ 18 + v1 * 2 ^ 12 + v2 * 2 ^ 6 + v3
  ok (
      (triple / 2 ^ 16 % 256 ∷ [])
      ++ ((if c2 == padding then [] else triple / 2 ^ 8 % 256 ∷ [])
          ++ (if c3 == padding then [] else triple % 256 ∷ [])))

-- A length that is no multiple of 4 leaves the last clauses.
unfoldable pub decode_chunks : Bytes → FlushResult Bytes
unfolding decode_chunk
decode_chunks [] = ok []
decode_chunks (c0 ∷ c1 ∷ c2 ∷ c3 ∷ chars) = do
  chunk ← decode_chunk c0 c1 c2 c3
  later ← decode_chunks chars
  ok (chunk ++ later)
decode_chunks _ = err (invalid_argument "invalid base64 length")

unfoldable pub base64_decode : Bytes → FlushResult Bytes
unfolding decode_chunks
base64_decode chars =
    if not (length chars % 4 == 0)
    then err (invalid_argument "invalid base64 length")
    else decode_chunks chars
