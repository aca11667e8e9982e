-- ===== src/Sstable/Reader.antt =====
-- Lookups in a table: crates/flushdb-engine/src/sstable/reader.rs. The storage backend is a
-- parameter: `get_range` of the table's path, from an offset and a length.
pub mod Blocks
pub mod Lookup
use flushdb.Base.{
  ℕ, zero, suc, ◌+◌, ◌-◌, ◌^◌, ◌%◌, Bool, true, false, not, ◌&&◌, Option, none, some, List, [], ◌∷◌,
  ◌++◌, length, get_elem?, leb, ltb, ◌==◌, if◌then◌else◌, is_lt, is_le,
}
use flushdb.Base.Bytes.{Bytes, bytes_eq, compare_bytes}
use flushdb.Error.{FlushResult, ok, err, invalid_argument, ◌>>=◌}
use flushdb.Key
use flushdb.Key.{CompositeKey}
use flushdb.Token.{IdempotencyToken}
use flushdb.Sstable.Types.{Codec, footer_size}
use flushdb.Sstable.Footer.{SstFooter}
use flushdb.Sstable.Footer
use flushdb.Sstable.Bloom
use flushdb.Sstable.Bloom.{BloomFilter}
use flushdb.Sstable.Index
use flushdb.Sstable.Index.{IndexEntry, IndexBlock}
use flushdb.Sstable.Dedup
use flushdb.Sstable.Dedup.{DedupBlock}
use flushdb.Sstable.BlockReader.{BlockEntry, decode_block}

abbrev pub GetRange : Type 0
GetRange = ℕ → ℕ → FlushResult Bytes

pub record SstableReader : Type 0 where
  pub file_size : ℕ
  pub footer : SstFooter
  pub filter : Option BloomFilter
  pub index : Option IndexBlock
  pub dedup : Option DedupBlock

-- A file shorter than a footer makes the source's subtraction panic or wrap; the model wraps.
unfoldable pub open_table : Codec → GetRange → ℕ → FlushResult SstableReader
open_table c get_range file_size = do
  footer_bytes ← get_range ((file_size + (2 ^ 64 - footer_size)) % 2 ^ 64) footer_size
  footer ← Footer.decode c.crc32 footer_bytes
  ok (record { file_size = file_size; footer = footer; filter = none; index = none; dedup = none })

-- On an error the source keeps what it had loaded before it.
unfoldable pub load_metadata : GetRange → SstableReader → FlushResult SstableReader
load_metadata get_range r = do
  filter_bytes ← get_range r.footer.bloom_filter_offset r.footer.bloom_filter_size
  filter ← Bloom.deserialize filter_bytes
  index_bytes ← get_range r.footer.index_block_offset r.footer.index_block_size
  index ← Index.deserialize index_bytes
  dedup_bytes ← get_range (Footer.dedup_block_offset r.footer) r.footer.dedup_block_size
  dedup ← Dedup.deserialize dedup_bytes
  ok (record {
    file_size = r.file_size;
    footer = r.footer;
    filter = some filter;
    index = some index;
    dedup = some dedup;
  })

-- `ok_or_else`
unfoldable pub loaded {ℓ} : {A : Type ℓ} → Option A → FlushResult A
loaded none = err (invalid_argument "SSTable metadata not loaded — call load_metadata() first")
loaded (some a) = ok a

unfoldable pub require_metadata : SstableReader → FlushResult (BloomFilter × IndexBlock)
unfolding loaded
require_metadata r = do filter ← loaded r.filter; index ← loaded r.index; ok (filter, index)

-- `find(|e| e.composite_key == *key)`
unfoldable pub find_key : CompositeKey → List BlockEntry → Option BlockEntry
find_key key [] = none
find_key key (e ∷ es) =
    let later = find_key key es in if bytes_eq e.composite_key key then some e else later

-- The entries of the block that an index entry describes.
unfoldable pub read_block :
    Codec → GetRange → SstableReader → IndexEntry → FlushResult (List BlockEntry)
read_block c get_range r e = do
  raw ← get_range e.block_offset e.block_size
  decode_block c raw r.footer.compression_type

-- The steps of `get` behind the search of the index.
unfoldable pub get_from_block :
    Codec
    → GetRange
    → SstableReader
    → CompositeKey
    → Option IndexEntry
    → FlushResult (Option BlockEntry)
unfolding find_key read_block
get_from_block c get_range r key none = ok none
get_from_block c get_range r key (some block_entry) = do
  entries ← read_block c get_range r block_entry
  ok (find_key key entries)

unfoldable pub get :
    Codec → GetRange → SstableReader → CompositeKey → FlushResult (Option BlockEntry)
unfolding require_metadata get_from_block
get c get_range r key = do
  metadata ← require_metadata r
  if not (Footer.may_contain_key r.footer key)
      then ok none
      else if not (Bloom.maybe_contains (metadata.0) (Key.record_id key))
      then ok none
      else get_from_block c get_range r key (Index.find_block (metadata.1) key)

unfoldable pub get_block : Codec → GetRange → SstableReader → ℕ → FlushResult (List BlockEntry)
unfolding loaded read_block
get_block c get_range r block_index = do
  index ← loaded r.index
  elim (get_elem? index block_index) [
    | none ↦ err (invalid_argument "block index out of range")
    | some e ↦ read_block c get_range r e
  ]

-- `end.is_some_and(|end_key| key >= end_key)`
abbrev at_end : Option CompositeKey → CompositeKey → Bool
at_end none key = false
at_end (some end) key = is_le (compare_bytes end key)

abbrev starts_past : Option CompositeKey → Option IndexEntry → Bool
starts_past end none = false
starts_past end (some next) = at_end end next.first_key

-- `unwrap_or(0)`
abbrev or_zero : Option ℕ → ℕ
or_zero none = 0
or_zero (some i) = i

-- The loop over the entries of a block: those that are kept, and whether the end was reached.
unfoldable pub scan_block :
    CompositeKey → Option CompositeKey → List BlockEntry → List BlockEntry × Bool
scan_block start end [] = ([], false)
scan_block start end (e ∷ es) =
    let later = scan_block start end es in
    if is_lt (compare_bytes e.composite_key start)
    then later
    else if at_end end e.composite_key
    then ([], true)
    else (e ∷ later.0, later.1)

-- `for block_idx in start_idx..index.block_count()`, with the number of blocks left.
unfoldable pub scan_blocks :
    Codec
    → GetRange
    → SstableReader
    → IndexBlock
    → CompositeKey
    → Option CompositeKey
    → ℕ
    → ℕ
    → ℕ
    → FlushResult (List BlockEntry)
unfolding get_block scan_block
scan_blocks c get_range r index start end start_idx zero block_idx = ok []
scan_blocks c get_range r index start end start_idx (suc left) block_idx =
    let past_end = starts_past end (get_elem? index block_idx) in
    if ltb start_idx block_idx && past_end then ok [] else do
      entries ← get_block c get_range r block_idx
      let part = scan_block start end entries
      if part.1 then ok (part.0) else do
        later ← scan_blocks c get_range r index start end start_idx left (block_idx + 1)
        ok (part.0 ++ later)

unfoldable pub scan :
    Codec
    → GetRange
    → SstableReader
    → CompositeKey
    → Option CompositeKey
    → FlushResult (List BlockEntry)
unfolding require_metadata scan_blocks
scan c get_range r start end = do
  metadata ← require_metadata r
  let index = metadata.1
  let start_idx = or_zero (Index.find_block_index index start)
  scan_blocks c get_range r index start end start_idx (length index - start_idx) start_idx

unfoldable pub contains_record : SstableReader → Bytes → FlushResult Bool
unfolding loaded
contains_record r record_id = do
  filter ← loaded r.filter
  ok (Bloom.maybe_contains filter record_id)

unfoldable pub check_dedup : SstableReader → IdempotencyToken → FlushResult Bool
unfolding loaded
check_dedup r token = do dedup ← loaded r.dedup; ok (Dedup.contains dedup token)
