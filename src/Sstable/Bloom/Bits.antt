-- ===== src/Sstable/Bloom/Bits.antt =====
-- The bits of a Bloom filter: a bit that was set stays set.
use flushdb.Base.{
  ℕ, zero, suc, ◌*◌, ◌/◌, ◌%◌, ◌^◌, ◌<◌, ◌≤◌, ◌≡◌, refl, Bool, true, false, not, ◌||◌, ◌&&◌, [],
  ◌∷◌, arith, All, length, set, get_or, ◌==◌, holds_to, holds_to_at, ltb,
}
use flushdb.Base.Bytes.{Bytes, IsByte}
use flushdb.Sstable.Bloom.{set_bit, bit_is_set}
use flushdb.Base.{ap, Bool-cases, inl, inr}
use mathlib.Core.Path.{subst}
use Prim.Native.Nat.{bit_or, bit_and}
use flushdb.Base.{Bool-cases}
use flushdb.Base.{inr}
use flushdb.Base.{inl}

-- The digit of a byte at a place below 8.
abbrev digit : ℕ → ℕ → Bool
digit b m = not (bit_and b (2 ^ m) == 0)

-- For every byte and two places: the result is a byte, the place is set, and none is cleared.
abbrev or_test : ℕ → ℕ → ℕ → Bool
or_test b k m =
    ltb (bit_or b (2 ^ k)) 256
    && (digit (bit_or b (2 ^ k)) k && (not (digit b m) || digit (bit_or b (2 ^ k)) m))

or_table : holds_to (λ b. holds_to (λ k. holds_to (λ m. or_test b k m) 8) 8) 256 ≡ true
unfolding holds_to
or_table = refl

or_at : (b k m : ℕ) → b < 256 → k < 8 → m < 8 → or_test b k m ≡ true
or_at b k m hb hk hm =
    holds_to_at (λ m. or_test b k m) 8 m hm
      (holds_to_at (λ k. holds_to (λ m. or_test b k m) 8) 8 k hk
        (holds_to_at (λ b. holds_to (λ k. holds_to (λ m. or_test b k m) 8) 8) 256 b hb or_table))

or_keeps :
    (b k m : ℕ) → b < 256 → k < 8 → m < 8 → digit b m ≡ true → digit (bit_or b (2 ^ k)) m ≡ true
or_keeps b k m hb hk hm h = let t = or_at b k m hb hk hm in ground (arith, t, h)

or_sets : (b k : ℕ) → b < 256 → k < 8 → digit (bit_or b (2 ^ k)) k ≡ true
or_sets b k hb hk = let t = or_at b k k hb hk hk in ground (arith, t)

or-IsByte : (b k : ℕ) → b < 256 → k < 8 → bit_or b (2 ^ k) < 256
or-IsByte b k hb hk = let t = or_at b k 0 hb hk (omega arith) in ground (arith, t)

get_or-IsByte : (bits : Bytes) (i : ℕ) → All IsByte bits → get_or bits i 0 < 256
get_or-IsByte [] i h = omega arith
get_or-IsByte (b ∷ bs) zero h = h.0
get_or-IsByte (b ∷ bs) (suc i) h = get_or-IsByte bs i h.1

get_or-set_same : (bits : Bytes) (i v : ℕ) → i < length bits → get_or (set bits i v) i 0 ≡ v
get_or-set_same [] i v h = absurd (omega arith)
get_or-set_same (b ∷ bs) zero v h = refl
get_or-set_same (b ∷ bs) (suc i) v h = get_or-set_same bs i v (omega arith)

get_or-set_other :
    (bits : Bytes) (i j v : ℕ) → i == j ≡ false → get_or (set bits i v) j 0 ≡ get_or bits j 0
get_or-set_other [] i j v h = refl
get_or-set_other (b ∷ bs) zero zero v h = absurd (ground arith)
get_or-set_other (b ∷ bs) zero (suc j) v h = refl
get_or-set_other (b ∷ bs) (suc i) zero v h = refl
get_or-set_other (b ∷ bs) (suc i) (suc j) v h = get_or-set_other bs i j v (ground arith)

set-IsByte : (bits : Bytes) (i v : ℕ) → All IsByte bits → v < 256 → All IsByte (set bits i v)
set-IsByte [] i v h k = tt
set-IsByte (b ∷ bs) zero v h k = (k, h.1)
set-IsByte (b ∷ bs) (suc i) v h k = (h.0, set-IsByte bs i v h.1 k)

set_beyond : (bits : Bytes) (i v : ℕ) → length bits ≤ i → set bits i v ≡ bits
set_beyond [] i v h = refl
set_beyond (b ∷ bs) zero v h = absurd (omega arith)
set_beyond (b ∷ bs) (suc i) v h = ap (λ (t : Bytes). b ∷ t) (set_beyond bs i v (omega arith))

length-set : (bits : Bytes) (i v : ℕ) → length (set bits i v) ≡ length bits
length-set [] i v = refl
length-set (b ∷ bs) zero v = refl
length-set (b ∷ bs) (suc i) v = omega (arith, length-set bs i v)

-- Bytes, and enough of them for the bits.
pub record IsBits (num_bits : ℕ) (bits : Bytes) : Type 0 where
  pub bytes : All IsByte bits
  pub enough : num_bits ≤ 8 * length bits

pub set_bit-IsBits :
    (num_bits : ℕ) (bits : Bytes) (i : ℕ) → IsBits num_bits bits → IsBits num_bits (set_bit bits i)
unfolding set_bit
set_bit-IsBits num_bits bits i v = record {
  bytes =
      set-IsByte bits _ _ v.bytes
        (or-IsByte _ _ (get_or-IsByte bits (i / 8) v.bytes) (omega arith));
  enough =
      omega
        (arith, v.enough, length-set bits (i / 8) (bit_or (get_or bits (i / 8) 0) (2 ^ (i % 8))));
}

pub bit_is_set-set_bit_same :
    (num_bits : ℕ) (bits : Bytes) (i : ℕ)
    → IsBits num_bits bits
    → i < num_bits
    → bit_is_set (set_bit bits i) i ≡ true
unfolding set_bit bit_is_set
bit_is_set-set_bit_same num_bits bits i v h =
    rw
      (get_or-set_same bits (i / 8) (bit_or (get_or bits (i / 8) 0) (2 ^ (i % 8)))
        (omega (arith, v.enough)))
      (or_sets _ _ (get_or-IsByte bits (i / 8) v.bytes) (omega arith))

pub bit_is_set-set_bit :
    (num_bits : ℕ) (bits : Bytes) (i j : ℕ)
    → IsBits num_bits bits
    → bit_is_set bits j ≡ true
    → bit_is_set (set_bit bits i) j ≡ true
unfolding set_bit bit_is_set
bit_is_set-set_bit num_bits bits i j v h = elim (Bool-cases (i / 8 == j / 8)) [
  | inr other ↦ rw (get_or-set_other bits (i / 8) (j / 8) _ other) h
  | inl same ↦
      let e : j / 8 ≡ i / 8 = ground arith in
      let kept : digit (get_or bits (i / 8) 0) (j % 8) ≡ true =
        subst (λ q. digit (get_or bits q 0) (j % 8) ≡ true) e h in
      elim (Bool-cases (ltb (i / 8) (length bits))) [
        | inl inside ↦
            rw
              (
                e,
                get_or-set_same bits (i / 8) (bit_or (get_or bits (i / 8) 0) (2 ^ (i % 8)))
                    (ground arith),
              )
              (or_keeps _ _ _ (get_or-IsByte bits (i / 8) v.bytes) (omega arith) (omega arith) kept)
        | inr outside ↦
            rw
              (set_beyond bits (i / 8) (bit_or (get_or bits (i / 8) 0) (2 ^ (i % 8)))
                (ground arith))
              h
      ]
]
