-- ===== src/ReadPath.antt =====
-- Reads over the memtables and the tables: crates/flushdb-engine/src/read_path.rs. The tables of a
-- level are an interface: which of them may hold a key, and what each answers.
pub mod PageToken
pub mod Point
use flushdb.Base.{ℕ, Bool, true, false, Option, none, some, List, [], ◌∷◌, ◌++◌, leb, if◌then◌else◌}
use flushdb.Base.Bytes.{Bytes}
use flushdb.Error.{FlushResult, ok, err, ◌>>=◌}
use flushdb.Key
use flushdb.Key.{CompositeKey}
use flushdb.Entry.{MemtableEntry, EntryValue, inline, blob_ref}
use flushdb.Merge.{MergeEntry, from_memtable_entry, is_tombstone}
use flushdb.MemtableList
use flushdb.MemtableList.{MemtableList}
use flushdb.Sstable.BlockReader.{BlockEntry}

-- `SstableHandle::get`
abbrev pub Handle : Type 0
Handle = CompositeKey → FlushResult (Option BlockEntry)

-- `LevelState::find_candidates_for_key`
pub record LevelState : Type 0 where
  pub find_candidates_for_key : CompositeKey → List Handle

-- `MergeEntry::from_block_entry`: a reference to a blob counts as no bytes.
unfoldable pub from_block_entry : BlockEntry → MergeEntry
from_block_entry e = record {
  composite_key = e.composite_key;
  value = elim e.value [ inline v ↦ v | blob_ref blob_id offset size ↦ [] ];
  metadata = e.metadata;
  entry_type = e.entry_type;
  sequence_number = e.sequence_number;
}

-- `match &best`: an entry replaces one with a lower number.
unfoldable pub better : Option MergeEntry → MergeEntry → MergeEntry
better none e = e
better (some b) e = if leb e.sequence_number b.sequence_number then b else e

-- `if let Some(block_entry)`
unfoldable pub take_answer : Option MergeEntry → Option BlockEntry → Option MergeEntry
unfolding better from_block_entry
take_answer best none = best
take_answer best (some e) = some (better best (from_block_entry e))

-- `for handle in candidates`
unfoldable pub ask_handles :
    CompositeKey → List Handle → Option MergeEntry → FlushResult (Option MergeEntry)
unfolding take_answer
ask_handles key [] best = ok best
ask_handles key (h ∷ hs) best = do answer ← h key; ask_handles key hs (take_answer best answer)

-- `for level_state in levels`
unfoldable pub ask_levels :
    CompositeKey → List LevelState → Option MergeEntry → FlushResult (Option MergeEntry)
unfolding ask_handles
ask_levels key [] best = ok best
ask_levels key (l ∷ ls) best = do
  best' ← ask_handles key (l.find_candidates_for_key key) best
  ask_levels key ls best'

-- What is left of an entry after the tests for tombstones.
unfoldable pub visible : MemtableList → CompositeKey → MergeEntry → Option MergeEntry
unfolding is_tombstone
visible l key e =
    if is_tombstone e
    then none
    else if MemtableList.range_tombstone_covers (Key.record_id key) (Key.item_key key)
        e.sequence_number l
    then none
    else some e

abbrev pub visible_best : MemtableList → CompositeKey → Option MergeEntry → Option MergeEntry
visible_best l key none = none
visible_best l key (some e) = visible l key e

-- The steps behind the lookup in the memtables.
unfoldable pub read_behind :
    CompositeKey
    → MemtableList
    → List LevelState
    → Option MemtableEntry
    → FlushResult (Option MergeEntry)
unfolding ask_levels visible
read_behind key l levels (some entry) = ok (visible l key (from_memtable_entry entry))
read_behind key l levels none = do best ← ask_levels key levels none; ok (visible_best l key best)

unfoldable pub point_read :
    CompositeKey → MemtableList → List LevelState → FlushResult (Option MergeEntry)
unfolding read_behind
point_read key l levels = read_behind key l levels (MemtableList.get key l)

unfoldable pub multi_get :
    Bytes → List Bytes → MemtableList → List LevelState → FlushResult (List (Option MergeEntry))
unfolding point_read
multi_get record_id [] l levels = ok []
multi_get record_id (key_bytes ∷ keys) l levels = do
  key ← Key.new record_id key_bytes
  entry ← point_read key l levels
  later ← multi_get record_id keys l levels
  ok (entry ∷ later)
