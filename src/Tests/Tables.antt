-- ===== src/Tests/Tables.antt =====
-- Runs of the code of the tables.
use flushdb.Base.{ℕ, ◌≡◌, refl, [], ◌∷◌, slice}
use flushdb.Base.Bytes.{Bytes}
use flushdb.Base.Endian.{from_le}
use flushdb.Sstable.Hash.{murmurhash3_x64_128}
use flushdb.Base.{arith, ◌+◌, ◌<◌, ◌++◌, ◌/◌, ◌↔◌, length, true, false, some}
use flushdb.Error.{ok, ◌>>=◌}
use flushdb.Search.{holds_at}
use flushdb.Sstable.Types.{uncompressed, compress}
use flushdb.Sstable.Varint.{decode_varint, encode_varint}
use flushdb.Sstable.Varint.RoundTrip.{decode_varint-encode_varint}
use flushdb.Sstable.BlockBuilder
use flushdb.Sstable.BlockBuilder.{finish}
use flushdb.Sstable.BlockReader.{decode_block}
use flushdb.Sstable.BlockReader.Entry.{add_all, entry_of}
use flushdb.Sstable.BlockReader.RoundTrip.{decode_block-finish}
use flushdb.Sstable.Reader.{get, find_key, read_block}
use flushdb.Sstable.Reader.Blocks.{all_entries}
use flushdb.Sstable.Reader.Lookup.{IsTable, get-find}
use flushdb.Sstable.Footer
use flushdb.Sstable.Footer.{truncate_key}
use flushdb.Sstable.Footer.RoundTrip.{length-encode, length-encode_header}
use flushdb.Sstable.Footer.Bounds.{length-truncate_key}
use flushdb.Base.{length-append}
use flushdb.Sstable.Index
use flushdb.Sstable.Footer.RoundTrip.{IsFooter, decode-encode}
use flushdb.Sstable.Footer.Bounds.{may_contain_between}
use flushdb.Sstable.Bloom
use flushdb.Sstable.Bloom.{maybe_contains}
use flushdb.Sstable.Bloom.Laws.{maybe_contains-add_all}
use flushdb.Sstable.Index.{find_block_index, starts_by}
use flushdb.Sstable.Index.Find.{find_block_index_iff}
use flushdb.Sstable.Dedup
use flushdb.Sstable.Dedup.{contains}
use flushdb.Sstable.Dedup.Laws.{contains-build}
use flushdb.Sstable.Writer.{file_of, footer_of, dedup_section, filter_section, index_section}
use flushdb.Base.Endian.{to_le, length-to_le}
use flushdb.Sstable.Footer.{checked_part, SstHeader}
use flushdb.Sstable.Reader.{open_table, load_metadata}
use flushdb.Sstable.Writer.Metadata.{Serves, IsFinal, load_metadata-file}
use flushdb.Tests.Data.{user, users, user_name, user_other, token, byte_count}
use flushdb.Tests.Stored.{
  plain, plain-IsCodec, named, other, named-Fits, other-Fits, one_reader, one_filter, one_footer,
  stored_block, serve_block, index_entry, other_index_entry, plain_config, written,
}
use flushdb.Base.Bytes.{compare_bytes}
use flushdb.Base.Bytes.{bytes_eq}
use flushdb.Base.{is_le}
use flushdb.Base.{any}
use flushdb.Key.{record_id, from_bytes}
use flushdb.Base.{◌^◌}
use flushdb.Sstable.Reader.{load_metadata}
use flushdb.Base.{none}

-- Published values of the hash, for "hello" and for a text of 43 bytes.
hello_hash : (murmurhash3_x64_128 (104 ∷ 101 ∷ 108 ∷ 108 ∷ 111 ∷ []) 0).0 ≡ 0xcbd8a7b341bd9b02
unfolding murmurhash3_x64_128 slice from_le
hello_hash = refl

abbrev fox : Bytes
fox =
    84 ∷ 104 ∷ 101 ∷ 32 ∷ 113 ∷ 117 ∷ 105 ∷ 99 ∷ 107 ∷ 32 ∷ 98 ∷ 114 ∷ 111 ∷ 119 ∷ 110 ∷ 32 ∷ 102
    ∷ 111 ∷ 120 ∷ 32 ∷ 106 ∷ 117 ∷ 109 ∷ 112 ∷ 115 ∷ 32 ∷ 111 ∷ 118 ∷ 101 ∷ 114 ∷ 32 ∷ 116 ∷ 104
    ∷ 101 ∷ 32 ∷ 108 ∷ 97 ∷ 122 ∷ 121 ∷ 32 ∷ 100 ∷ 111 ∷ 103 ∷ []

fox_hash :
    ((murmurhash3_x64_128 fox 0).0 ≡ 0xe34bbc7bbc071b6c)
    × ((murmurhash3_x64_128 fox 0).1 ≡ 0x7a433ca9c49a9347)
unfolding murmurhash3_x64_128 slice from_le
fox_hash = (refl, refl)

decode_varint-encode_varint_example :
    decode_varint (encode_varint 300 ++ (9 ∷ [])) ≡ ok (300, length (encode_varint 300))
decode_varint-encode_varint_example = decode_varint-encode_varint 300 (9 ∷ []) (omega arith)

decode_block-finish_example :
    (finish plain (add_all (BlockBuilder.new 100) (named ∷ other ∷ [])) uncompressed >>= λ block.
    decode_block plain block.bytes uncompressed)
    ≡ ok (entry_of named ∷ entry_of other ∷ [])
unfolding compress
decode_block-finish_example =
    decode_block-finish plain-IsCodec uncompressed 100 named (other ∷ [])
      (named-Fits, (other-Fits, tt)) (omega arith) refl

user_name_from : is_le (compare_bytes user_name user_name) ≡ true
unfolding compare_bytes
user_name_from = refl

block_stored : read_block plain serve_block one_reader index_entry ≡ ok stored_block.entries
unfolding read_block decode_block flushdb.Sstable.BlockReader.open_block
    flushdb.Sstable.Types.decompress from_le flushdb.Sstable.BlockReader.collect
    flushdb.Sstable.Cursor.read_len decode_varint flushdb.Sstable.Varint.decode_loop
    flushdb.Sstable.Cursor.take_bytes flushdb.Sstable.Cursor.read_field flushdb.Key.from_bytes
    flushdb.Key.has_separator slice flushdb.Sstable.Cursor.read_byte flushdb.Entry.from_u8
block_stored = refl

record_id_user_name : record_id user_name ≡ user
unfolding record_id
record_id_user_name = refl

user_listed : any (bytes_eq user) (user ∷ []) ≡ true
unfolding bytes_eq compare_bytes
user_listed = refl

user_filtered : maybe_contains one_filter (record_id user_name) ≡ true
user_filtered =
    let found : maybe_contains one_filter user ≡ true =
      maybe_contains-add_all (λ n. n / 10) 10 (user ∷ []) user (omega arith) user_listed in
    rw record_id_user_name found

user_name_bounded : Footer.may_contain_key one_footer user_name ≡ true
unfolding Footer.may_contain_key truncate_key compare_bytes
user_name_bounded = refl

one_reader-IsTable : IsTable plain serve_block one_reader one_filter (stored_block ∷ [])
one_reader-IsTable = record {
  has_filter = refl;
  has_index = refl;
  ordered = ((tt, tt), ((user_name_from, tt), tt));
  stored = (block_stored, tt);
  filtered = (user_filtered, tt);
  bounded = (user_name_bounded, tt);
}

get-find_example :
    get plain serve_block one_reader user_name
    ≡ ok (find_key user_name (all_entries (stored_block ∷ [])))
get-find_example = get-find one_reader-IsTable user_name

serve_file :
    Serves
      (λ offset len.
        ok (slice offset (offset + len) (file_of plain (λ n. n / 10) plain_config written)))
      (file_of plain (λ n. n / 10) plain_config written)
serve_file offset len h = refl

written_filter : (one_filter.num_bits ≡ 64) × (one_filter.num_hash_functions ≡ 6)
unfolding Bloom.build Bloom.add_all Bloom.add Bloom.new
written_filter = (refl, refl)

written_bits : (length one_filter.bits ≡ 8) × (one_filter.num_keys ≡ 1)
unfolding Bloom.build Bloom.add_all Bloom.add Bloom.new murmurhash3_x64_128 from_le
written_bits = (refl, refl)

no_hashes : Dedup.build written.dedup_builder ≡ []
unfolding Dedup.build
no_hashes = refl

dedup_length : length (dedup_section written) ≡ 4
unfolding dedup_section Dedup.serialize Dedup.build to_le
dedup_length = refl

filter_length : length (filter_section (λ n. n / 10) written) ≡ 29
unfolding filter_section Bloom.serialize
filter_length = simp (length-append, length-to_le) (omega (arith, written_bits.0))

index_length : length (index_section written) ≡ 24
unfolding encode_varint flushdb.Sstable.Varint.encode_loop index_section Index.serialize to_le
    flushdb.Sstable.Cursor.put_field
index_length = refl

written-IsFooter : IsFooter (footer_of (λ n. n / 10) plain_config written)
unfolding footer_of
written-IsFooter = record {
  bloom_offset_fits = omega (arith, dedup_length);
  bloom_size_fits = omega arith;
  index_offset_fits = omega (arith, dedup_length, filter_length);
  index_size_fits = omega arith;
  count_fits = omega arith;
  min_key_size = length-truncate_key user_name;
  max_key_size = length-truncate_key user_name;
  version_fits = omega arith;
  dedup_size_fits = omega arith;
}

file_small : length (file_of plain (λ n. n / 10) plain_config written) < 2 ^ 32
unfolding file_of
file_small =
    let header : SstHeader = record { compression = uncompressed; entry_count = 1 } in
    let footer = footer_of (λ n. n / 10) plain_config written in
    let footer_length = length-encode footer written-IsFooter plain.crc32 in
    simp length-append (
      omega (
        arith,
        length-encode_header header,
        dedup_length,
        filter_length,
        index_length,
        footer_length,
      ))

index_key : from_bytes user_name ≡ ok user_name
unfolding from_bytes flushdb.Key.has_separator
index_key = refl

written-IsFinal : IsFinal plain (λ n. n / 10) plain_config written
written-IsFinal = record {
  room = omega arith;
  count_fits = omega arith;
  filter_fits = record {
    bits_fit = omega (arith, written_filter.0);
    functions_fit = omega (arith, written_filter.1);
    keys_fit = omega (arith, written_bits.1);
    enough = omega (arith, written_filter.0, written_bits.0);
  };
  index_fits = (
    record {
      key = index_key;
      key_fits = omega arith;
      offset_fits = omega arith;
      size_fits = omega arith;
      uncompressed_fits = omega arith;
    },
    tt,
  );
  few_blocks = omega arith;
  hashes_fit = rw no_hashes tt;
  few_hashes = rw no_hashes omega arith;
  small = file_small;
}

abbrev written_file : Bytes
written_file = file_of plain (λ n. n / 10) plain_config written

load_metadata-file_example :
    (open_table plain
        (λ offset len. ok (slice offset (offset + len) written_file))
        (length written_file)
      >>= load_metadata (λ offset len. ok (slice offset (offset + len) written_file)))
    ≡ ok (record {
      file_size = length written_file;
      footer = footer_of (λ n. n / 10) plain_config written;
      filter = some one_filter;
      index = some (index_entry ∷ []);
      dedup = some (Dedup.build []);
    })
load_metadata-file_example =
    load_metadata-file plain-IsCodec (λ n. n / 10) plain_config written written-IsFinal
      (λ offset len. ok (slice offset (offset + len) written_file)) serve_file

maybe_contains-add_all_example :
    maybe_contains
      (Bloom.build (λ n. n / 10) (Bloom.add_all (Bloom.new 10) (users ∷ user ∷ [])))
      user
    ≡ true
unfolding flushdb.Base.Bytes.bytes_eq flushdb.Base.Bytes.compare_bytes
maybe_contains-add_all_example =
    maybe_contains-add_all (λ n. n / 10) 10 (users ∷ user ∷ []) user (omega arith) refl

may_contain_between_example : Footer.may_contain_key one_footer user_name ≡ true
unfolding flushdb.Key.cmp flushdb.Base.Bytes.compare_bytes
may_contain_between_example =
    may_contain_between one_footer user_name user_name user_name refl refl refl refl

one_footer-IsFooter : IsFooter one_footer
unfolding truncate_key
one_footer-IsFooter = record {
  bloom_offset_fits = omega arith;
  bloom_size_fits = omega arith;
  index_offset_fits = omega arith;
  index_size_fits = omega arith;
  count_fits = omega arith;
  min_key_size = refl;
  max_key_size = refl;
  version_fits = omega arith;
  dedup_size_fits = omega arith;
}

decode-encode_example :
    Footer.decode byte_count (Footer.encode byte_count one_footer) ≡ ok one_footer
unfolding Footer.checked_part flushdb.Base.Endian.to_le
decode-encode_example = decode-encode one_footer one_footer-IsFooter byte_count (omega arith)

find_block_index_iff_example :
    (find_block_index (index_entry ∷ other_index_entry ∷ []) user_other ≡ some 1) ↔ (
      (holds_at (starts_by user_other) (index_entry ∷ other_index_entry ∷ []) 1 ≡ true)
      × ((j : ℕ)
          → 1 < j
          → holds_at (starts_by user_other) (index_entry ∷ other_index_entry ∷ []) j ≡ false))
unfolding flushdb.Base.Bytes.compare_bytes
find_block_index_iff_example =
    find_block_index_iff (index_entry ∷ other_index_entry ∷ []) user_other 1 ((refl, tt), (tt, tt))

contains-build_example : contains (Dedup.build (Dedup.add_all [] (token ∷ []))) token ≡ true
unfolding flushdb.Base.Bytes.bytes_eq flushdb.Base.Bytes.compare_bytes flushdb.Token.is_none
contains-build_example = contains-build (token ∷ []) token refl refl
