-- ===== src/Sstable/Bloom/Laws.antt =====
-- A Bloom filter has no false negatives, and it reads back.
use flushdb.Base.{
  ℕ, zero, suc, ◌+◌, ◌*◌, ◌/◌, ◌%◌, ◌^◌, ◌<◌, ◌≤◌, ◌≡◌, refl, sym, ◌∙◌, true, false, List, [], ◌∷◌,
  ◌++◌, arith, All, length, any, replicate, ltb, ◌==◌, Bool-cases, inl, inr,
}
use flushdb.Base.Bytes.{Bytes, IsByte, bytes_eq, bytes_eq_iff}
use flushdb.Error.{ok}
use flushdb.Sstable.Hash.{u64, murmurhash3_x64_128}
use flushdb.Sstable.Bloom.{
  BloomFilter, BloomFilterBuilder, bit_index, bit_is_set, set_bits, set_keys, bit_count, build,
  all_set, maybe_contains, serialize, deserialize, serialize_inner, add, add_all, new,
}
use flushdb.Sstable.Bloom.Bits.{IsBits, set_bit-IsBits, bit_is_set-set_bit_same, bit_is_set-set_bit}
use mathlib.Core.Path.{subst}
use native.Mathlib.Nat.{mod-lt, mul-le-mul_right}
use flushdb.Sstable.Cursor.{At, number-At}
use flushdb.Base.Endian.{to_le}

bit_index_small : (h : ℕ × ℕ) (num_bits k : ℕ) → 1 ≤ num_bits → bit_index h num_bits k < num_bits
unfolding bit_index
bit_index_small h num_bits k pos = mod-lt ((h.0 + k * h.1 % u64) % u64) pos

module _ (num_bits : ℕ) (some_bits : 1 ≤ num_bits) where
  set_bits-IsBits :
      (h : ℕ × ℕ) (n k : ℕ) (bits : Bytes)
      → IsBits num_bits bits
      → IsBits num_bits (set_bits h num_bits n k bits)
  unfolding set_bits
  set_bits-IsBits h zero k bits v = v
  set_bits-IsBits h (suc n) k bits v =
      set_bits-IsBits h n (k + 1) _ (set_bit-IsBits num_bits bits _ v)

  set_bits-keeps :
      (h : ℕ × ℕ) (n k : ℕ) (bits : Bytes) (j : ℕ)
      → IsBits num_bits bits
      → bit_is_set bits j ≡ true
      → bit_is_set (set_bits h num_bits n k bits) j ≡ true
  unfolding set_bits
  set_bits-keeps h zero k bits j v e = e
  set_bits-keeps h (suc n) k bits j v e =
      set_bits-keeps h n (k + 1) _ j (set_bit-IsBits num_bits bits _ v)
        (bit_is_set-set_bit num_bits bits _ j v e)

  -- What stays set, stays a member.
  all_set_mono :
      (h : ℕ × ℕ) (n k : ℕ) (a b : Bytes)
      → ((j : ℕ) → bit_is_set a j ≡ true → bit_is_set b j ≡ true)
      → all_set h num_bits n k a ≡ true
      → all_set h num_bits n k b ≡ true
  unfolding all_set
  all_set_mono h zero k a b f e = refl
  all_set_mono h (suc n) k a b f e = elim (Bool-cases (bit_is_set a (bit_index h num_bits k))) [
    | inl t ↦ rw (f _ t) (all_set_mono h n (k + 1) a b f (ground (arith, t, e)))
    | inr t ↦ absurd (ground (arith, t, e))
  ]

  all_set-set_bits :
      (h : ℕ × ℕ) (n k : ℕ) (bits : Bytes)
      → IsBits num_bits bits
      → all_set h num_bits n k (set_bits h num_bits n k bits) ≡ true
  unfolding all_set set_bits
  all_set-set_bits h zero k bits v = refl
  all_set-set_bits h (suc n) k bits v =
      let first =
        bit_is_set-set_bit_same num_bits bits _ v (bit_index_small h num_bits k some_bits) in
      let w = set_bit-IsBits num_bits bits (bit_index h num_bits k) v in
      rw (set_bits-keeps h n (k + 1) _ _ w first) (all_set-set_bits h n (k + 1) _ w)

  set_keys-keeps :
      (rids : List Bytes) (n : ℕ) (bits : Bytes) (j : ℕ)
      → IsBits num_bits bits
      → bit_is_set bits j ≡ true
      → bit_is_set (set_keys rids num_bits n bits) j ≡ true
  unfolding set_keys
  set_keys-keeps [] n bits j v e = e
  set_keys-keeps (rid ∷ rids) n bits j v e =
      let h = murmurhash3_x64_128 rid 0 in
      set_keys-keeps rids n _ j (set_bits-IsBits h n 0 bits v) (set_bits-keeps h n 0 bits j v e)

  all_set-set_keys :
      (rids : List Bytes) (n : ℕ) (bits rid : Bytes)
      → IsBits num_bits bits
      → any (bytes_eq rid) rids ≡ true
      → all_set (murmurhash3_x64_128 rid 0) num_bits n 0 (set_keys rids num_bits n bits) ≡ true
  unfolding set_keys
  all_set-set_keys [] n bits rid v m = absurd (ground arith)
  all_set-set_keys (r ∷ rids) n bits rid v m =
      let h = murmurhash3_x64_128 r 0 in
      let w = set_bits-IsBits h n 0 bits v in
      elim (Bool-cases (bytes_eq rid r)) [
        | inl here ↦
            let e = (bytes_eq_iff rid r).0 here in
            rw e (
              all_set_mono h n 0 _ _ (λ j t. set_keys-keeps rids n _ j w t)
                (all_set-set_bits h n 0 bits v))
        | inr other ↦ all_set-set_keys rids n _ rid w (ground (arith, other, m))
      ]

replicate-IsByte : (n : ℕ) → All IsByte (replicate n 0)
replicate-IsByte zero = tt
replicate-IsByte (suc n) = (omega arith, replicate-IsByte n)

length-replicate : (n : ℕ) → length {A = ℕ} (replicate n 0) ≡ n
length-replicate zero = refl
length-replicate (suc n) = omega (arith, length-replicate n)

bit_count_bounds :
    (n bits_per_key : ℕ)
    → n * bits_per_key + 8 ≤ u64
    → (64 ≤ bit_count n bits_per_key)
      × (bit_count n bits_per_key ≡ 8 * (bit_count n bits_per_key / 8))
unfolding bit_count
bit_count_bounds n bits_per_key h =
    let w : n * bits_per_key % u64 ≡ n * bits_per_key = omega arith in
    rw w (elim (Bool-cases (ltb (n * bits_per_key) 64)) [
      | inl few ↦ rw few (omega arith, omega arith)
      | inr many ↦ rw many (ground (arith, many), omega arith)
    ])

zeros-IsBits :
    (n bits_per_key : ℕ)
    → n * bits_per_key + 8 ≤ u64
    → IsBits (bit_count n bits_per_key) (replicate (bit_count n bits_per_key / 8) 0)
zeros-IsBits n bits_per_key h = record {
  bytes = replicate-IsByte (bit_count n bits_per_key / 8);
  enough =
      omega
        (arith, length-replicate (bit_count n bits_per_key / 8), bit_count_bounds n bits_per_key h);
}

member_nonempty :
    (rids : List Bytes) (rid : Bytes) → any (bytes_eq rid) rids ≡ true → length rids == 0 ≡ false
member_nonempty [] rid m = absurd (ground arith)
member_nonempty (r ∷ rids) rid m = ground arith

maybe_contains-build :
    (times_ln2 : ℕ → ℕ) (b : BloomFilterBuilder) (rid : Bytes)
    → length b.record_ids * b.bits_per_key + 8 ≤ u64
    → any (bytes_eq rid) b.record_ids ≡ true
    → maybe_contains (build times_ln2 b) rid ≡ true
unfolding maybe_contains build
maybe_contains-build times_ln2 b rid fits m =
    let n = length b.record_ids in
    let some_key = member_nonempty b.record_ids rid m in
    let bounds = bit_count_bounds n b.bits_per_key fits in
    rw (some_key, some_key)
      (all_set-set_keys (bit_count n b.bits_per_key) (omega (arith, bounds)) b.record_ids _ _ rid
        (zeros-IsBits n b.bits_per_key fits) m)

any-add :
    (b : BloomFilterBuilder) (r rid : Bytes)
    → any (bytes_eq rid) b.record_ids ≡ true
    → any (bytes_eq rid) (add b r).record_ids ≡ true
unfolding add
any-add b r rid m = elim (Bool-cases (any (bytes_eq r) b.record_ids)) [
  | inl known ↦ rw known m
  | inr new_one ↦ rw new_one (ground (arith, m))
]

any-add_same :
    (b : BloomFilterBuilder) (rid : Bytes) → any (bytes_eq rid) (add b rid).record_ids ≡ true
unfolding add
any-add_same b rid = elim (Bool-cases (any (bytes_eq rid) b.record_ids)) [
  | inl known ↦ rw (known, known) refl
  | inr new_one ↦ rw new_one (ground (arith, (bytes_eq_iff rid rid).1 refl))
]

any-add_all_known :
    (b : BloomFilterBuilder) (rids : List Bytes) (rid : Bytes)
    → any (bytes_eq rid) b.record_ids ≡ true
    → any (bytes_eq rid) (add_all b rids).record_ids ≡ true
unfolding add_all
any-add_all_known b [] rid m = m
any-add_all_known b (r ∷ rids) rid m = any-add_all_known (add b r) rids rid (any-add b r rid m)

any-add_all :
    (b : BloomFilterBuilder) (rids : List Bytes) (rid : Bytes)
    → any (bytes_eq rid) rids ≡ true
    → any (bytes_eq rid) (add_all b rids).record_ids ≡ true
unfolding add_all
any-add_all b [] rid m = absurd (ground arith)
any-add_all b (r ∷ rids) rid m = elim (Bool-cases (bytes_eq rid r)) [
  | inl here ↦
      let e = (bytes_eq_iff rid r).0 here in
      any-add_all_known (add b r) rids rid (rw e (any-add_same b r))
  | inr other ↦ any-add_all (add b r) rids rid (ground (arith, other, m))
]

length-add :
    (b : BloomFilterBuilder) (r : Bytes)
    → (length (add b r).record_ids ≤ length b.record_ids + 1)
      × ((add b r).bits_per_key ≡ b.bits_per_key)
unfolding add
length-add b r = ground arith

length-add_all :
    (b : BloomFilterBuilder) (rids : List Bytes)
    → (length (add_all b rids).record_ids ≤ length b.record_ids + length rids)
      × ((add_all b rids).bits_per_key ≡ b.bits_per_key)
unfolding add_all
length-add_all b [] = (omega arith, refl)
length-add_all b (r ∷ rids) =
    let (short, same) = length-add_all (add b r) rids in
    let (one, kept) = length-add b r in (omega (arith, short, one), same ∙ kept)

-- Whatever the number of hash functions, the filter that was built from record ids, whose number
-- times the bits per key stays 8 below 2 ^ 64, answers true for each of them.
pub maybe_contains-add_all :
    (times_ln2 : ℕ → ℕ) (bits_per_key : ℕ) (rids : List Bytes) (rid : Bytes)
    → length rids * bits_per_key + 8 ≤ 2 ^ 64
    → any (bytes_eq rid) rids ≡ true
    → maybe_contains (build times_ln2 (add_all (new bits_per_key) rids)) rid ≡ true
unfolding new
maybe_contains-add_all times_ln2 bits_per_key rids rid fits m =
    let (short, same) = length-add_all (new bits_per_key) rids in
    maybe_contains-build times_ln2 _ rid
      (subst (λ k. length (add_all (new bits_per_key) rids).record_ids * k + 8 ≤ u64) (sym same)
        (omega (arith, mul-le-mul_right bits_per_key short, fits)))
      (any-add_all (new bits_per_key) rids rid m)

-- Fields of their widths, and enough bytes for the bits.
pub record IsFilter (f : BloomFilter) : Type 0 where
  pub bits_fit : f.num_bits < 256 ^ 8
  pub functions_fit : f.num_hash_functions < 256 ^ 4
  pub keys_fit : f.num_keys < 256 ^ 8
  pub enough : f.num_bits ≤ 8 * length f.bits

-- A filter whose fields fit reads back.
pub deserialize-serialize : (f : BloomFilter) → IsFilter f → deserialize (serialize f) ≡ ok f
unfolding serialize deserialize
deserialize-serialize f v =
    let buf = serialize_inner f in
    let start : At buf 0
        (to_le 8 f.num_bits ++ (to_le 4 f.num_hash_functions ++ (to_le 8 f.num_keys ++ f.bits))) =
      (refl, omega arith) in
    let (e1, a1) = number-At buf 0 8 8 f.num_bits _ start (omega arith) v.bits_fit in
    let (e2, a2) = number-At buf 8 12 4 f.num_hash_functions _ a1 (omega arith) v.functions_fit in
    let (e3, a3) = number-At buf 12 20 8 f.num_keys f.bits a2 (omega arith) v.keys_fit in
    let long : ltb (length buf) 20 ≡ false = ground (arith, a3.1) in
    let enough : ltb (length f.bits * 8) f.num_bits ≡ false = ground (arith, v.enough) in
    rw (long, a3.0, e1, enough, e2, e3) refl
