-- ===== src/Sstable/Types.antt =====
-- Constants, compression types and the configuration of crates/flushdb-engine/src/sstable/types.rs,
-- and the interface of the compression and checksum packages.
use flushdb.Base.{ℕ, ◌<◌, ◌^◌, ◌≡◌, refl, arith, Option, none, some, ◌==◌, if◌then◌else◌, String}
use flushdb.Base.Bytes.{Bytes}
use flushdb.Error.{FlushResult, ok, err, corrupted_data, io}

abbrev pub sstable_magic : ℕ
sstable_magic = 0x464C4442

abbrev pub format_version : ℕ
format_version = 1

abbrev pub default_block_size : ℕ
default_block_size = 4096

abbrev pub footer_size : ℕ
footer_size = 80

abbrev pub header_size : ℕ
header_size = 16

abbrev pub min_max_key_truncation_len : ℕ
min_max_key_truncation_len = 16

abbrev pub default_bloom_bits_per_key : ℕ
default_bloom_bits_per_key = 10

-- `None`, `Snappy` and `Zstd`
pub data CompressionType : Type 0 where
  uncompressed snappy zstd : CompressionType

unfoldable pub from_u8 : ℕ → FlushResult CompressionType
from_u8 value =
    if value == 0
    then ok uncompressed
    else if value == 1
    then ok snappy
    else if value == 2
    then ok zstd
    else err (corrupted_data "unknown compression type")

unfoldable pub as_u8 : CompressionType → ℕ
as_u8 uncompressed = 0
as_u8 snappy = 1
as_u8 zstd = 2

pub from_u8-as_u8 : (c : CompressionType) → from_u8 (as_u8 c) ≡ ok c
unfolding from_u8 as_u8
from_u8-as_u8 uncompressed = refl
from_u8-as_u8 snappy = refl
from_u8-as_u8 zstd = refl

pub as_u8_small : (c : CompressionType) → as_u8 c < 256
unfolding as_u8
as_u8_small uncompressed = omega arith
as_u8_small snappy = omega arith
as_u8_small zstd = omega arith

pub record SstConfig : Type 0 where
  pub block_size_target : ℕ
  pub compression : CompressionType
  pub bloom_bits_per_key : ℕ

-- `SstConfig::default`
unfoldable pub default_config : SstConfig
default_config = record {
  block_size_target = default_block_size;
  compression = snappy;
  bloom_bits_per_key = default_bloom_bits_per_key;
}

-- The packages `crc32fast`, `snap` and `zstd`, as far as the tables call them; `none` is a failure.
pub record Codec : Type 0 where
  pub crc32 : Bytes → ℕ
  pub snappy_compress : Bytes → Option Bytes
  pub snappy_decompress : Bytes → Option Bytes
  pub zstd_compress : Bytes → Option Bytes
  pub zstd_decompress : Bytes → Option Bytes

-- What they document: a checksum has 32 bits, and what was compressed decompresses to itself.
pub record IsCodec (c : Codec) : Type 0 where
  pub crc32_fits : (b : Bytes) → c.crc32 b < 2 ^ 32
  pub snappy_inverse :
      (b packed : Bytes) → c.snappy_compress b ≡ some packed → c.snappy_decompress packed ≡ some b
  pub zstd_inverse :
      (b packed : Bytes) → c.zstd_compress b ≡ some packed → c.zstd_decompress packed ≡ some b

abbrev or_fail {ℓ} : {A : Type ℓ} → (String → FlushResult A) → String → Option A → FlushResult A
or_fail fail message none = fail message
or_fail fail message (some a) = ok a

unfoldable pub compress : Codec → CompressionType → Bytes → FlushResult Bytes
compress c uncompressed bytes = ok bytes
compress c snappy bytes = or_fail (λ m. err (io m)) "compression failed" (c.snappy_compress bytes)
compress c zstd bytes = or_fail (λ m. err (io m)) "compression failed" (c.zstd_compress bytes)

unfoldable pub decompress : Codec → CompressionType → Bytes → FlushResult Bytes
decompress c uncompressed bytes = ok bytes
decompress c snappy bytes =
    or_fail (λ m. err (corrupted_data m)) "decompression failed" (c.snappy_decompress bytes)
decompress c zstd bytes =
    or_fail (λ m. err (corrupted_data m)) "decompression failed" (c.zstd_decompress bytes)

or_fail_ok :
    (message : String) (r : Option Bytes) {b : Bytes}
    → or_fail (λ m. err (io m)) message r ≡ ok b
    → r ≡ some b
or_fail_ok message none h = cc
or_fail_ok message (some x) h = cc

pub decompress-compress :
    {c : Codec} (laws : IsCodec c) (kind : CompressionType) (bytes : Bytes) {packed : Bytes}
    → compress c kind bytes ≡ ok packed
    → decompress c kind packed ≡ ok bytes
unfolding compress decompress
decompress-compress laws uncompressed bytes h = cc
decompress-compress {c} laws snappy bytes {packed} h =
    rw (laws.snappy_inverse bytes packed (or_fail_ok _ (c.snappy_compress bytes) h)) refl
decompress-compress {c} laws zstd bytes {packed} h =
    rw (laws.zstd_inverse bytes packed (or_fail_ok _ (c.zstd_compress bytes) h)) refl
