-- ===== src/Token/Laws.antt =====
-- The laws of idempotency tokens (crates/flushdb-types/src/idempotency_token.rs).
use flushdb.Base.{
  ℕ, zero, suc, ◌+◌, ◌^◌, ◌<◌, ◌≤◌, ◌≡◌, refl, sym, ap, ◌∙◌, true, false, [], ◌∷◌, ◌++◌, arith,
}
use flushdb.Base.{
  length, length-append, take, drop, take-append_length, drop-append_length, ◌==◌, ==_iff, All, ◌⊎◌,
  ◌↔◌, inl, inr, Bool-cases, length-take,
}
use flushdb.Base.Bytes.{Bytes, IsByte}
use flushdb.Base.Endian.{
  to_be, to_le, from_le, length-to_be, from_be-to_be, from_le-to_le, length-to_le, to_le-IsByte,
}
use flushdb.Error.{ok}
use flushdb.Token.{
  IdempotencyToken, from_bytes, from_parts, generation_time, token_bytes, is_none, xor_bytes,
  derive_for_index, is_within_drift, idempotency_token_size,
}
use Prim.Native.Nat.{bit_xor}
use flushdb.Base.{replicate, holds_to, holds_to_at}
use flushdb.Base.{length-drop}
use flushdb.Base.{All-drop}
use flushdb.Base.{take-append-drop}

-- A token built from a 64-bit time and a 16-byte UUID gives them back, and `from_bytes` takes it.
pub from_parts_parts :
    (time : ℕ) (uuid : Bytes)
    → time < 2 ^ 64
    → length uuid ≡ 16
    → (generation_time (from_parts time uuid) ≡ time)
      × (token_bytes (from_parts time uuid) ≡ uuid)
      × (from_bytes (from_parts time uuid) ≡ ok (from_parts time uuid))
unfolding generation_time token_bytes from_parts from_bytes
from_parts_parts time uuid h l = (
  rw (take-append_length (to_be 8 time) uuid 8 (sym (length-to_be 8 time)))
      (from_be-to_be 8 time (omega arith)),
  drop-append_length (to_be 8 time) uuid 8 (sym (length-to_be 8 time)),
  ground (arith, length-append (to_be 8 time) uuid, length-to_be 8 time),
)

xor_table : holds_to (λ a. holds_to (λ b. bit_xor a (bit_xor a b) == b) 256) 256 ≡ true
unfolding holds_to
xor_table = refl

xor_twice : (a b : ℕ) → a < 256 → b < 256 → bit_xor a (bit_xor a b) ≡ b
xor_twice a b ha hb = (==_iff _ b).0 (holds_to_at _ 256 b hb (holds_to_at _ 256 a ha xor_table))

xor_injective : (a b c : ℕ) → a < 256 → b < 256 → c < 256 → bit_xor a b ≡ bit_xor a c → b ≡ c
xor_injective a b c ha hb hc e = sym (xor_twice a b ha hb) ∙ ap (bit_xor a) e ∙ xor_twice a c ha hc

xor_bytes_injective :
    (t us vs : Bytes)
    → All IsByte t
    → All IsByte us
    → All IsByte vs
    → length us ≡ length vs
    → length us ≤ length t
    → xor_bytes t us ≡ xor_bytes t vs
    → us ≡ vs
unfolding xor_bytes
xor_bytes_injective t [] [] ht hu hv l k e = refl
xor_bytes_injective t [] (v ∷ vs) ht hu hv l k e = absurd (omega arith)
xor_bytes_injective t (u ∷ us) [] ht hu hv l k e = absurd (omega arith)
xor_bytes_injective [] (u ∷ us) (v ∷ vs) ht hu hv l k e = absurd (omega arith)
xor_bytes_injective (b ∷ t) (u ∷ us) (v ∷ vs) ht hu hv l k e = ground (
  arith,
  xor_injective b u v ht.0 hu.0 hv.0,
  xor_bytes_injective t us vs ht.1 hu.1 hv.1 (omega arith) (omega arith),
)

xor_zero_table : holds_to (λ a. bit_xor a 0 == a) 256 ≡ true
unfolding holds_to
xor_zero_table = refl

xor_zero : (a : ℕ) → a < 256 → bit_xor a 0 ≡ a
xor_zero a ha = (==_iff _ a).0 (holds_to_at _ 256 a ha xor_zero_table)

xor_bytes_zeros : (t : Bytes) (n : ℕ) → All IsByte t → xor_bytes t (replicate n 0) ≡ t
unfolding xor_bytes
xor_bytes_zeros [] n h = refl
xor_bytes_zeros (b ∷ t) zero h = refl
xor_bytes_zeros (b ∷ t) (suc n) h = ground (arith, xor_zero b h.0, xor_bytes_zeros t n h.1)

length-xor_bytes : (t idx : Bytes) → length (xor_bytes t idx) ≡ length t
unfolding xor_bytes
length-xor_bytes [] idx = refl
length-xor_bytes (b ∷ t) [] = refl
length-xor_bytes (b ∷ t) (i ∷ idx) = ap suc (length-xor_bytes t idx)

-- What the array type `[u8; 24]` and the test for the none sentinel say of a token.
pub record IsReal (t : IdempotencyToken) : Type 0 where
  pub sized : length t ≡ idempotency_token_size
  pub bytes : All IsByte t
  pub not_none : is_none t ≡ false

-- On a real token the derivation is one formula, also at index 0.
derive_formula :
    (t : IdempotencyToken) (i : ℕ)
    → IsReal t
    → derive_for_index t i ≡ take 8 t ++ xor_bytes (drop 8 t) (to_le 4 i)
unfolding derive_for_index
derive_formula t i v = elim (Bool-cases (i == 0)) [
  | inl z ↦
      let e : i ≡ 0 = (==_iff i 0).0 z in
      rw (v.not_none, e)
        (unfold to_le in
          rw (xor_bytes_zeros (drop 8 t) 4 (All-drop IsByte 8 t v.bytes))
            (sym (take-append-drop 8 t)))
  | inr n ↦ rw (v.not_none, n)
]

-- A token derived from a real token is of the same size and keeps the generation time.
pub derive_keeps_time :
    (t : IdempotencyToken) (i : ℕ)
    → IsReal t
    → (length (derive_for_index t i) ≡ idempotency_token_size)
      × (generation_time (derive_for_index t i) ≡ generation_time t)
unfolding generation_time
derive_keeps_time t i v =
    let front : length (take 8 t) ≡ 8 = length-take 8 t (omega (arith, v.sized)) in
    rw (derive_formula t i v) (
      omega (
        arith,
        length-append (take 8 t) (xor_bytes (drop 8 t) (to_le 4 i)),
        length-xor_bytes (drop 8 t) (to_le 4 i),
        length-drop 8 t,
        front,
        v.sized,
      ),
      rw (take-append_length (take 8 t) (xor_bytes (drop 8 t) (to_le 4 i)) 8 (sym front)),
    )

append_cancel : (p a b : Bytes) → p ++ a ≡ p ++ b → a ≡ b
append_cancel [] a b e = e
append_cancel (x ∷ p) a b e = append_cancel p a b (cc)

-- For a real token, indices below 2 ^ 32 that derive one token are equal.
pub derive_injective :
    (t : IdempotencyToken) (i j : ℕ)
    → IsReal t
    → i < 2 ^ 32
    → j < 2 ^ 32
    → derive_for_index t i ≡ derive_for_index t j
    → i ≡ j
derive_injective t i j v hi hj e =
    let same =
      append_cancel (take 8 t) _ _ (sym (derive_formula t i v) ∙ e ∙ derive_formula t j v) in
    let idx =
      xor_bytes_injective (drop 8 t) (to_le 4 i) (to_le 4 j) (All-drop IsByte 8 t v.bytes)
        (to_le-IsByte 4 i) (to_le-IsByte 4 j) (length-to_le 4 i ∙ sym (length-to_le 4 j))
        (omega (arith, length-to_le 4 i, length-drop 8 t, v.sized)) same in
    sym (from_le-to_le 4 i (omega arith)) ∙ ap from_le idx ∙ from_le-to_le 4 j (omega arith)

-- The drift test passes exactly the none sentinel and the tokens whose generation time differs from
-- the clock by at most the bound, in either direction.
pub is_within_drift_iff :
    (t : IdempotencyToken) (now max : ℕ)
    → (is_within_drift t now max ≡ true)
      ↔ ((is_none t ≡ true) ⊎ ((generation_time t ≤ now + max) × (now ≤ generation_time t + max)))
unfolding is_within_drift
is_within_drift_iff t now max = ground arith
