-- ===== src/Sstable/Bloom.antt =====
-- The Bloom filter over the record ids of a table: crates/flushdb-engine/src/sstable/bloom_filter.rs.
-- The number of hash functions is computed in floating point: `num_bits / n` times the logarithm of
-- 2, cut to a whole number, is a parameter of `build`.
pub mod Bits
pub mod Laws
use flushdb.Base.{
  ℕ, zero, suc, ◌+◌, ◌*◌, ◌/◌, ◌%◌, ◌^◌, Bool, true, false, not, List, [], ◌∷◌, ◌++◌, length, any,
  set, get_or, replicate, drop, slice, ltb, ◌==◌, if◌then◌else◌,
}
use flushdb.Base.Bytes.{Bytes, bytes_eq}
use flushdb.Base.Endian.{to_le, from_le}
use flushdb.Error.{FlushResult, ok, err, corrupted_data, ◌>>=◌}
use flushdb.Sstable.Hash.{u64, murmurhash3_x64_128}
use Prim.Native.Nat.{bit_or, bit_and}

pub record BloomFilterBuilder : Type 0 where
  pub record_ids : List Bytes
  pub bits_per_key : ℕ

pub record BloomFilter : Type 0 where
  pub bits : Bytes
  pub num_bits : ℕ
  pub num_hash_functions : ℕ
  pub num_keys : ℕ

unfoldable pub new : ℕ → BloomFilterBuilder
new bits_per_key = record { record_ids = []; bits_per_key = bits_per_key }

-- `HashSet::insert`
unfoldable pub add : BloomFilterBuilder → Bytes → BloomFilterBuilder
add b record_id = record {
  record_ids =
      if any (bytes_eq record_id) b.record_ids then b.record_ids else record_id ∷ b.record_ids;
  bits_per_key = b.bits_per_key;
}

unfoldable pub add_all : BloomFilterBuilder → List Bytes → BloomFilterBuilder
add_all b [] = b
add_all b (rid ∷ rids) = add_all (add b rid) rids

-- The position that the `k`th function gives the hash.
unfoldable pub bit_index : ℕ × ℕ → ℕ → ℕ → ℕ
bit_index h num_bits k = (h.0 + k * h.1 % u64) % u64 % num_bits

-- `bits[byte_idx] |= 1 << bit_idx`
unfoldable pub set_bit : Bytes → ℕ → Bytes
set_bit bits index = set bits (index / 8) (bit_or (get_or bits (index / 8) 0) (2 ^ (index % 8)))

-- `bits[byte_idx] & (1 << bit_idx) != 0`
unfoldable pub bit_is_set : Bytes → ℕ → Bool
bit_is_set bits index = not (bit_and (get_or bits (index / 8) 0) (2 ^ (index % 8)) == 0)

-- `for k in 0..num_hash_functions` of `build`, from `k` on.
unfoldable pub set_bits : ℕ × ℕ → ℕ → ℕ → ℕ → Bytes → Bytes
unfolding bit_index set_bit
set_bits h num_bits zero k bits = bits
set_bits h num_bits (suc n) k bits =
    set_bits h num_bits n (k + 1) (set_bit bits (bit_index h num_bits k))

-- `for rid in &self.record_ids`
unfoldable pub set_keys : List Bytes → ℕ → ℕ → Bytes → Bytes
unfolding set_bits
set_keys [] num_bits functions bits = bits
set_keys (rid ∷ rids) num_bits functions bits =
    set_keys rids num_bits functions
      (set_bits (murmurhash3_x64_128 rid 0) num_bits functions 0 bits)

abbrev pub max : ℕ → ℕ → ℕ
max a b = if ltb a b then b else a

-- The number of bits for `n` keys: at least 64, and rounded up to a multiple of 8.
unfoldable pub bit_count : ℕ → ℕ → ℕ
bit_count n bits_per_key = (max (n * bits_per_key % u64) 64 + 7) % u64 / 8 * 8

unfoldable pub build : (ℕ → ℕ) → BloomFilterBuilder → BloomFilter
unfolding set_keys bit_count
build times_ln2 b =
    let n = length b.record_ids in
    let num_bits = bit_count n b.bits_per_key in
    let num_hash_functions = max (times_ln2 (num_bits / n)) 1 in
    if n == 0
    then record { bits = replicate 8 0; num_bits = 64; num_hash_functions = 1; num_keys = 0 }
    else record {
      bits = set_keys b.record_ids num_bits num_hash_functions (replicate (num_bits / 8) 0);
      num_bits = num_bits;
      num_hash_functions = num_hash_functions;
      num_keys = n;
    }

-- `for k in 0..self.num_hash_functions` of `maybe_contains`, from `k` on.
unfoldable pub all_set : ℕ × ℕ → ℕ → ℕ → ℕ → Bytes → Bool
unfolding bit_index bit_is_set
all_set h num_bits zero k bits = true
all_set h num_bits (suc n) k bits =
    let later = all_set h num_bits n (k + 1) bits in
    if bit_is_set bits (bit_index h num_bits k) then later else false

unfoldable pub maybe_contains : BloomFilter → Bytes → Bool
unfolding all_set
maybe_contains f record_id =
    if f.num_keys == 0
    then false
    else all_set (murmurhash3_x64_128 record_id 0) f.num_bits f.num_hash_functions 0 f.bits

-- `BloomFilter::serialize`
unfoldable pub serialize_inner : BloomFilter → Bytes
serialize_inner f =
    to_le 8 f.num_bits ++ (to_le 4 f.num_hash_functions ++ (to_le 8 f.num_keys ++ f.bits))

-- `BloomFilter::deserialize`
unfoldable pub deserialize_inner : Bytes → FlushResult BloomFilter
deserialize_inner bytes =
    let num_bits = from_le (slice 0 8 bytes) in
    let bits = drop 20 bytes in
    if ltb (length bytes) 20
    then err (corrupted_data "bloom filter data too short for header")
    else if ltb (length bits * 8) num_bits
    then err (corrupted_data "bloom filter bit array too short")
    else ok (record {
      bits = bits;
      num_bits = num_bits;
      num_hash_functions = from_le (slice 8 12 bytes);
      num_keys = from_le (slice 12 20 bytes);
    })

-- `FilterBlock` has one constructor, whose tag is 0.
unfoldable pub serialize : BloomFilter → Bytes
unfolding serialize_inner
serialize f = 0 ∷ serialize_inner f

unfoldable pub deserialize : Bytes → FlushResult BloomFilter
unfolding deserialize_inner
deserialize [] = err (corrupted_data "filter block is empty")
deserialize (tag ∷ bytes) =
    if tag == 0 then deserialize_inner bytes else err (corrupted_data "unknown filter block type")

unfoldable pub size_bytes : BloomFilter → ℕ
size_bytes f = length f.bits
