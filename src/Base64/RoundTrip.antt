-- ===== src/Base64/RoundTrip.antt =====
-- Base64 reads back.
use flushdb.Base.{
  ℕ, ◌+◌, ◌*◌, ◌/◌, ◌%◌, ◌^◌, ◌<◌, ◌≡◌, refl, false, [], ◌∷◌, arith, All, length, ◌==◌, ==-eq-true,
}
use flushdb.Base.Bytes.{Bytes, IsByte}
use flushdb.Error.{ok, ◌>>=◌}
use flushdb.Base64.{
  char_of, padding, base64_encode, char_to_val, decode_chunk, decode_chunks, base64_decode,
}

char_to_val-char_of : (v : ℕ) → v < 64 → char_to_val (char_of v) ≡ ok v
unfolding char_to_val char_of
char_to_val-char_of v h = ground arith

char_of-padding : (v : ℕ) → v < 64 → char_of v == padding ≡ false
unfolding char_of
char_of-padding v h = ground arith

module _ (b0 b1 b2 : ℕ) (h0 : b0 < 256) (h1 : b1 < 256) (h2 : b2 < 256) where
  abbrev triple : ℕ
  triple = b0 * 2 ^ 16 + b1 * 2 ^ 8 + b2

  join :
      triple / 2 ^ 18 % 64 * 2 ^ 18
        + triple / 2 ^ 12 % 64 * 2 ^ 12
        + triple / 2 ^ 6 % 64 * 2 ^ 6
        + triple % 64
      ≡ triple
  join = omega arith

  decode_chunk-three :
      decode_chunk
        (char_of (triple / 2 ^ 18 % 64))
        (char_of (triple / 2 ^ 12 % 64))
        (char_of (triple / 2 ^ 6 % 64))
        (char_of (triple % 64))
      ≡ ok (b0 ∷ b1 ∷ b2 ∷ [])
  unfolding decode_chunk
  decode_chunk-three =
      let x0 : triple / 2 ^ 16 % 256 ≡ b0 = omega arith in
      let x1 : triple / 2 ^ 8 % 256 ≡ b1 = omega arith in
      let x2 : triple % 256 ≡ b2 = omega arith in
      rw
        (
          char_to_val-char_of (triple / 2 ^ 18 % 64) (omega arith),
          ◌>>=◌,
          char_to_val-char_of (triple / 2 ^ 12 % 64) (omega arith),
          char_to_val-char_of (triple / 2 ^ 6 % 64) (omega arith),
          char_to_val-char_of (triple % 64) (omega arith),
          join,
          char_of-padding (triple / 2 ^ 6 % 64) (omega arith),
          char_of-padding (triple % 64) (omega arith),
          x0,
          x1,
          x2,
        )
        refl

module _ (b0 b1 : ℕ) (h0 : b0 < 256) (h1 : b1 < 256) where
  abbrev upper : ℕ
  upper = b0 * 2 ^ 16 + b1 * 2 ^ 8

  join_two :
      upper / 2 ^ 18 % 64 * 2 ^ 18 + upper / 2 ^ 12 % 64 * 2 ^ 12 + upper / 2 ^ 6 % 64 * 2 ^ 6 + 0
      ≡ upper
  join_two = omega arith

  decode_chunk-two :
      decode_chunk
        (char_of (upper / 2 ^ 18 % 64))
        (char_of (upper / 2 ^ 12 % 64))
        (char_of (upper / 2 ^ 6 % 64))
        padding
      ≡ ok (b0 ∷ b1 ∷ [])
  unfolding decode_chunk
  decode_chunk-two =
      let x0 : upper / 2 ^ 16 % 256 ≡ b0 = omega arith in
      let x1 : upper / 2 ^ 8 % 256 ≡ b1 = omega arith in
      rw
        (
          char_to_val-char_of (upper / 2 ^ 18 % 64) (omega arith),
          ◌>>=◌,
          char_to_val-char_of (upper / 2 ^ 12 % 64) (omega arith),
          char_to_val-char_of (upper / 2 ^ 6 % 64) (omega arith),
          join_two,
          char_of-padding (upper / 2 ^ 6 % 64) (omega arith),
          x0,
          x1,
        )
        refl

module _ (b0 : ℕ) (h0 : b0 < 256) where
  abbrev top : ℕ
  top = b0 * 2 ^ 16 + 0 * 2 ^ 8

  join_one : top / 2 ^ 18 % 64 * 2 ^ 18 + top / 2 ^ 12 % 64 * 2 ^ 12 + 0 * 2 ^ 6 + 0 ≡ top
  join_one = omega arith

  decode_chunk-one :
      decode_chunk (char_of (top / 2 ^ 18 % 64)) (char_of (top / 2 ^ 12 % 64)) padding padding
      ≡ ok (b0 ∷ [])
  unfolding decode_chunk
  decode_chunk-one =
      let x0 : top / 2 ^ 16 % 256 ≡ b0 = omega arith in
      rw
        (
          char_to_val-char_of (top / 2 ^ 18 % 64) (omega arith),
          ◌>>=◌,
          char_to_val-char_of (top / 2 ^ 12 % 64) (omega arith),
          join_one,
          x0,
        )
        refl

length-base64_encode : (bytes : Bytes) → length (base64_encode bytes) % 4 ≡ 0
unfolding base64_encode
length-base64_encode [] = refl
length-base64_encode (b0 ∷ []) = refl
length-base64_encode (b0 ∷ b1 ∷ []) = refl
length-base64_encode (b0 ∷ b1 ∷ b2 ∷ bytes) = omega (arith, length-base64_encode bytes)

decode_chunks-base64_encode :
    (bytes : Bytes) → All IsByte bytes → decode_chunks (base64_encode bytes) ≡ ok bytes
unfolding decode_chunks base64_encode
decode_chunks-base64_encode [] h = refl
decode_chunks-base64_encode (b0 ∷ []) h = rw (decode_chunk-one b0 h.0, ◌>>=◌) refl
decode_chunks-base64_encode (b0 ∷ b1 ∷ []) h = rw (decode_chunk-two b0 b1 h.0 h.1.0, ◌>>=◌) refl
decode_chunks-base64_encode (b0 ∷ b1 ∷ b2 ∷ bytes) h =
    rw
      (
        decode_chunk-three b0 b1 b2 h.0 h.1.0 h.1.1.0,
        ◌>>=◌,
        decode_chunks-base64_encode bytes h.1.1.1,
      )
      refl

-- Bytes that are encoded decode to themselves.
pub base64_decode-base64_encode :
    (bytes : Bytes) → All IsByte bytes → base64_decode (base64_encode bytes) ≡ ok bytes
unfolding base64_decode
base64_decode-base64_encode bytes h =
    let aligned = ==-eq-true (length (base64_encode bytes) % 4) 0 (length-base64_encode bytes) in
    rw aligned (decode_chunks-base64_encode bytes h)
