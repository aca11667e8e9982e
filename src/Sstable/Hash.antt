-- ===== src/Sstable/Hash.antt =====
-- MurmurHash3, the 128-bit variant for 64-bit machines: crates/flushdb-engine/src/sstable/hash.rs.
-- On numbers of 64 bits `wrapping_add` and `wrapping_mul` are the operations modulo 2 ^ 64, and a
-- shift to the right by `n` is the division by 2 ^ n.
use flushdb.Base.{
  ℕ, zero, suc, ◌+◌, ◌-◌, ◌*◌, ◌/◌, ◌%◌, ◌^◌, take, drop, slice, length, ltb, if◌then◌else◌,
}
use flushdb.Base.Bytes.{Bytes}
use flushdb.Base.Endian.{from_le}
use Prim.Native.Nat.{bit_xor}
use flushdb.Base.{◌==◌}

abbrev pub u64 : ℕ
u64 = 18446744073709551616

abbrev wrapping_add : ℕ → ℕ → ℕ
wrapping_add a b = (a + b) % u64

abbrev wrapping_mul : ℕ → ℕ → ℕ
wrapping_mul a b = a * b % u64

abbrev rotate_left : ℕ → ℕ → ℕ
rotate_left x n = x * 2 ^ n % u64 + x / 2 ^ (64 - n)

abbrev c1 : ℕ
c1 = 0x87c37b91114253d5

abbrev c2 : ℕ
c2 = 0x4cf5ad432745937f

unfoldable pub mix_k1 : ℕ → ℕ
mix_k1 k1 = wrapping_mul (rotate_left (wrapping_mul k1 c1) 31) c2

unfoldable pub mix_k2 : ℕ → ℕ
mix_k2 k2 = wrapping_mul (rotate_left (wrapping_mul k2 c2) 33) c1

-- One block of 16 bytes.
unfoldable pub mix_block : Bytes → ℕ → ℕ → ℕ × ℕ
unfolding mix_k1 mix_k2
mix_block block h1 h2 =
    let k1 = from_le (slice 0 8 block) in
    let k2 = from_le (slice 8 16 block) in
    let h1' = wrapping_add (rotate_left (bit_xor h1 (mix_k1 k1)) 27) h2 in
    let h1'' = wrapping_add (wrapping_mul h1' 5) 0x52dce729 in
    let h2' = wrapping_add (rotate_left (bit_xor h2 (mix_k2 k2)) 31) h1'' in
    (h1'', wrapping_add (wrapping_mul h2' 5) 0x38495ab5)

-- `for i in 0..nblocks`
unfoldable pub mix_blocks : ℕ → Bytes → ℕ → ℕ → ℕ × ℕ
unfolding mix_block
mix_blocks zero bytes h1 h2 = (h1, h2)
mix_blocks (suc n) bytes h1 h2 =
    let h = mix_block (take 16 bytes) h1 h2 in mix_blocks n (drop 16 bytes) (h.0) (h.1)

-- The arms of the `match` on the length of the tail. In each of them the bytes of the tail, each
-- shifted to its place, are joined by `^=`: up to eight into `k1`, and those behind them into `k2`,
-- which is mixed where there are any.
unfoldable pub mix_tail : Bytes → ℕ → ℕ → ℕ × ℕ
unfolding mix_k1 mix_k2
mix_tail tail h1 h2 = (
  if length tail == 0 then h1 else bit_xor h1 (mix_k1 (from_le (take 8 tail))),
  if ltb 8 (length tail) then bit_xor h2 (mix_k2 (from_le (drop 8 tail))) else h2,
)

unfoldable pub fmix64 : ℕ → ℕ
fmix64 k =
    let a = bit_xor k (k / 2 ^ 33) in
    let b = wrapping_mul a 0xff51afd7ed558ccd in
    let c = bit_xor b (b / 2 ^ 33) in
    let d = wrapping_mul c 0xc4ceb9fe1a85ec53 in bit_xor d (d / 2 ^ 33)

-- The steps behind the tail, for the length of the input.
unfoldable pub finalize : ℕ → ℕ → ℕ → ℕ × ℕ
unfolding fmix64
finalize len h1 h2 =
    let a1 = bit_xor h1 len in
    let a2 = bit_xor h2 len in
    let b1 = wrapping_add a1 a2 in
    let b2 = wrapping_add a2 b1 in
    let d1 = wrapping_add (fmix64 b1) (fmix64 b2) in (d1, wrapping_add (fmix64 b2) d1)

unfoldable pub murmurhash3_x64_128 : Bytes → ℕ → ℕ × ℕ
unfolding mix_blocks mix_tail finalize
murmurhash3_x64_128 bytes seed =
    let nblocks = length bytes / 16 in
    let h = mix_blocks nblocks bytes seed seed in
    let t = mix_tail (drop (nblocks * 16) bytes) (h.0) (h.1) in finalize (length bytes) (t.0) (t.1)
