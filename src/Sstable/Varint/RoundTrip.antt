-- ===== src/Sstable/Varint/RoundTrip.antt =====
-- A number that is written as a varint is read back, whatever follows it.
use flushdb.Base.{
  ℕ, zero, suc, ◌+◌, ◌*◌, ◌/◌, ◌%◌, ◌^◌, ◌<◌, ◌≤◌, ◌≡◌, refl, sym, ◌∙◌, ap, ◌++◌, arith, length,
  leb, ltb, ◌==◌, true, false, Bool-cases, inl, inr, is_empty,
}
use flushdb.Base.Bytes.{Bytes}
use flushdb.Error.{FlushResult, ok}
use flushdb.Sstable.Varint.{encode_loop, encode_varint, decode_loop, decode_varint}

abbrev read : ℕ → ℕ → FlushResult (ℕ × ℕ)
read value used = ok (value, used)

ok_pair : {a b c d : ℕ} → a ≡ c → b ≡ d → read a b ≡ read c d
ok_pair h k = cc

mul_split : (r q p : ℕ) → (r + 128 * q) * p ≡ r * p + q * (p * 128)
mul_split r q p = grind arith

group_split : (v p : ℕ) → v * p ≡ v % 128 * p + v / 128 * (p * 128)
group_split v p =
    let e : v ≡ v % 128 + 128 * (v / 128) = omega arith in
    ap (λ x. x * p) e ∙ mul_split (v % 128) (v / 128) p

pow_shift : (s : ℕ) → 2 ^ (s + 7) ≡ 2 ^ s * 128
pow_shift s = simp (native.Mathlib.Numerals.unary_clauses) (omega arith)

decode_loop-encode_loop :
    (fuel v i shift value p : ℕ) (rest : Bytes)
    → p ≡ 2 ^ shift
    → v < 128 ^ fuel
    → i + fuel ≤ 10
    → 1 ≤ fuel
    → v * p < 2 ^ 64
    → decode_loop (encode_loop fuel v ++ rest) i shift value
      ≡ ok (value + v * p, i + length (encode_loop fuel v))
unfolding encode_loop decode_loop
decode_loop-encode_loop zero v i shift value p rest e h k l m = absurd (omega arith)
decode_loop-encode_loop (suc fuel) v i shift value p rest e h k l m =
    let early : leb 10 i ≡ false = ground arith in
    elim (Bool-cases (v / 128 == 0)) [
      | inl z ↦
          let small : v % 128 ≡ v = ground arith in
          let g = group_split v p in
          let w : v * p % 2 ^ 64 ≡ v * p = ground arith in
          let low : ltb v 128 ≡ true = ground arith in
          rw (encode_loop, z, decode_loop, early, small, sym e, small, w, low) refl
      | inr n ↦
          let g = group_split v p in
          let high : ltb (v % 128 + 128) 128 ≡ false = ground arith in
          let m7 : (v % 128 + 128) % 128 ≡ v % 128 = omega arith in
          let w : v % 128 * p % 2 ^ 64 ≡ v % 128 * p = ground arith in
          let next : p * 128 ≡ 2 ^ (shift + 7) =
            sym (pow_shift shift ∙ ap (λ x. x * 128) (sym e)) in
          let later =
            decode_loop-encode_loop fuel (v / 128) (i + 1) (shift + 7) (value + v % 128 * p)
              (p * 128) rest next (ground arith) (omega arith) (ground arith) (omega arith) in
          rw (encode_loop, n, decode_loop, early, high, m7, sym e, w, later)
            (ok_pair (omega arith) (omega arith))
    ]

decode_nonempty : (buf : Bytes) → is_empty buf ≡ false → decode_varint buf ≡ decode_loop buf 0 0 0
unfolding decode_varint
decode_nonempty buf h = rw h refl

encode_loop_starts :
    (fuel v : ℕ) (rest : Bytes) → 1 ≤ fuel → is_empty (encode_loop fuel v ++ rest) ≡ false
unfolding encode_loop
encode_loop_starts zero v rest h = absurd (omega arith)
encode_loop_starts (suc fuel) v rest h = ground arith

decode_groups :
    (fuel v : ℕ) (rest : Bytes)
    → 1 ≤ fuel
    → fuel ≤ 10
    → v < 128 ^ fuel
    → v < 2 ^ 64
    → decode_varint (encode_loop fuel v ++ rest) ≡ ok (v, length (encode_loop fuel v))
decode_groups fuel v rest few many small wide =
    decode_nonempty _ (encode_loop_starts fuel v rest few)
    ∙ decode_loop-encode_loop fuel v 0 0 0 1 rest refl small (omega arith) few (omega arith)
    ∙ ok_pair (omega arith) (omega arith)

-- A number below 2 ^ 64 reads back, whatever follows its bytes, and exactly its bytes are used.
pub decode_varint-encode_varint :
    (v : ℕ) (rest : Bytes)
    → v < 2 ^ 64
    → decode_varint (encode_varint v ++ rest) ≡ ok (v, length (encode_varint v))
unfolding encode_varint
decode_varint-encode_varint v rest h =
    decode_groups 10 v rest (omega arith) (omega arith) (omega arith) h

length-encode_loop : (fuel v : ℕ) → length (encode_loop fuel v) ≤ fuel
unfolding encode_loop
length-encode_loop zero v = omega arith
length-encode_loop (suc fuel) v = ground (arith, length-encode_loop fuel (v / 128))

length-encode_loop_pos : (fuel v : ℕ) → 1 ≤ length (encode_loop (suc fuel) v)
unfolding encode_loop
length-encode_loop_pos fuel v = ground arith

pub length-encode_varint :
    (v : ℕ) → (1 ≤ length (encode_varint v)) × (length (encode_varint v) ≤ 10)
unfolding encode_varint
length-encode_varint v = (length-encode_loop_pos 9 v, length-encode_loop 10 v)
