-- ===== src/Sstable/Index.antt =====
-- The index of the blocks of a table: crates/flushdb-engine/src/sstable/index_block.rs.
pub mod Find
pub mod RoundTrip
use flushdb.Base.{
  ℕ, zero, suc, ◌+◌, ◌-◌, ◌%◌, ◌^◌, Bool, true, false, Option, none, some, List, [], ◌∷◌, ◌++◌,
  length, get_elem?, slice, leb, ltb, ◌==◌, if◌then◌else◌, is_le, is_lt,
}
use flushdb.Base.Bytes.{Bytes, compare_bytes}
use flushdb.Base.Endian.{to_le, from_le}
use flushdb.Error.{FlushResult, ok, err, corrupted_data, ◌>>=◌}
use flushdb.Key
use flushdb.Key.{CompositeKey}
use flushdb.Search.{partition_point}
use flushdb.Sstable.Cursor.{read_len, put_field}

pub record IndexEntry : Type 0 where
  pub first_key : CompositeKey
  pub block_offset : ℕ
  pub block_size : ℕ
  pub uncompressed_size : ℕ

-- The builder and the block are the vector of entries.
abbrev pub IndexBlock : Type 0
IndexBlock = List IndexEntry

-- `IndexBlockBuilder::add`
unfoldable pub add : IndexBlock → CompositeKey → ℕ → ℕ → ℕ → IndexBlock
add entries first_key block_offset block_size uncompressed_size =
    entries
    ++ (record {
      first_key = first_key;
      block_offset = block_offset;
      block_size = block_size;
      uncompressed_size = uncompressed_size;
    }
        ∷ [])

-- `e.first_key <= key`
abbrev pub starts_by : CompositeKey → IndexEntry → Bool
starts_by key e = is_le (compare_bytes e.first_key key)

unfoldable pub find_block_index : IndexBlock → CompositeKey → Option ℕ
find_block_index entries key =
    let point = partition_point (starts_by key) entries in
    if point == 0 then none else some (point - 1)

-- `&self.entries[idx]`, which is there for a number that `find_block_index` returns.
abbrev pub entry_at : IndexBlock → Option ℕ → Option IndexEntry
entry_at entries none = none
entry_at entries (some idx) = get_elem? entries idx

unfoldable pub find_block : IndexBlock → CompositeKey → Option IndexEntry
find_block entries key = entry_at entries (find_block_index entries key)

abbrev last_of : IndexEntry → List IndexEntry → IndexEntry
last_of e [] = e
last_of e (e' ∷ es) = last_of e' es

-- The first keys of the first and of the last block.
unfoldable pub key_range : IndexBlock → Option (CompositeKey × CompositeKey)
key_range [] = none
key_range (e ∷ es) = some (e.first_key, (last_of e es).first_key)

unfoldable pub overlaps : IndexBlock → CompositeKey → CompositeKey → Bool
unfolding key_range
overlaps entries start end = elim (key_range entries) [
  | none ↦ false
  | some range ↦
      if is_lt (compare_bytes (range.1) start)
      then false
      else if is_lt (compare_bytes end (range.0))
      then false
      else true
]

unfoldable pub put_entry : IndexEntry → Bytes
put_entry e =
    put_field e.first_key
    ++ (to_le 8 e.block_offset ++ (to_le 4 e.block_size ++ to_le 4 e.uncompressed_size))

-- `for entry in &self.entries`
unfoldable pub put_entries : IndexBlock → Bytes
unfolding put_entry
put_entries [] = []
put_entries (e ∷ es) = put_entry e ++ put_entries es

unfoldable pub serialize : IndexBlock → Bytes
unfolding put_entries
serialize entries = to_le 4 (length entries % 2 ^ 32) ++ put_entries entries

-- One round of the loop; as in the blocks, a length for which the source's sum passes 2 ^ 64 is
-- reported as truncated.
unfoldable pub read_entry : Bytes → ℕ → FlushResult (IndexEntry × ℕ)
unfolding read_len
read_entry bytes pos =
    if leb (length bytes) pos then err (corrupted_data "index block entry truncated") else do
      r ← read_len bytes pos
      let kl = r.0
      let start = r.1
      let stop = start + kl
      if ltb (length bytes) (start + kl + 16)
          then err (corrupted_data "index block entry truncated")
          else do
            first_key ← Key.from_bytes (slice start stop bytes)
            ok (
              record {
                first_key = first_key;
                block_offset = from_le (slice stop (stop + 8) bytes);
                block_size = from_le (slice (stop + 8) (stop + 12) bytes);
                uncompressed_size = from_le (slice (stop + 12) (stop + 16) bytes);
              },
              stop + 16,
            )

-- `for _ in 0..count`
unfoldable pub read_entries : ℕ → Bytes → ℕ → FlushResult IndexBlock
unfolding read_entry
read_entries zero bytes pos = ok []
read_entries (suc count) bytes pos = do
  r ← read_entry bytes pos
  later ← read_entries count bytes (r.1)
  ok (r.0 ∷ later)

unfoldable pub deserialize : Bytes → FlushResult IndexBlock
unfolding read_entries
deserialize bytes =
    if ltb (length bytes) 4
    then err (corrupted_data "index block too short")
    else read_entries (from_le (slice 0 4 bytes)) bytes 4
