-- ===== src/Memtable.antt =====
-- One memtable of crates/flushdb-engine/src/memtable.rs: the skip list, the index of its range
-- tombstones, the set of its idempotency tokens and the sequence counter. The creation time, which
-- only the freezing by age reads, is left out. What `insert` returns with `Ok` is paired with the
-- memtable after the call; after `Err` the memtable is as it was.
pub mod Invariant
pub mod Visible
use flushdb.Base.{
  ℕ, ◌+◌, ◌*◌, ◌%◌, Bool, true, false, not, List, [], ◌∷◌, Option, none, some, length,
}
use flushdb.Base.{any, keep, drop, is_empty, leb, if◌then◌else◌}
use flushdb.Base.Bytes.{Bytes, bytes_eq}
use flushdb.Error.{FlushResult, ok, err, resource_exhausted, duplicate_token}
use flushdb.Key
use flushdb.Key.{CompositeKey}
use flushdb.Token
use flushdb.Token.{IdempotencyToken}
use flushdb.Entry
use flushdb.Entry.{MemtableEntry, is_range_delete, is_delete}
use flushdb.RangeTombstone
use flushdb.RangeTombstone.{RangeTombstone, RangeTombstoneIndex}
use flushdb.SkipList
use flushdb.SkipList.{SkipList}
use flushdb.SkipList.Read

-- 2 ^ 64
abbrev pub u64_limit : ℕ
u64_limit = 18446744073709551616

pub record MemtableConfig : Type 0 where
  pub size_threshold : ℕ
  pub max_frozen_count : ℕ
  pub memtable_memory_limit : ℕ

-- `MemtableConfig::default`
abbrev pub default_config : MemtableConfig
default_config = record {
  size_threshold = 67108864;
  max_frozen_count = 3;
  memtable_memory_limit = (3 + 1) * 67108864;
}

-- The hash set of tokens, as a list.
abbrev pub DedupSet : Type 0
DedupSet = List IdempotencyToken

unfoldable pub dedup_contains : IdempotencyToken → DedupSet → Bool
unfolding Token.is_none
dedup_contains token tokens = if Token.is_none token then false else any (bytes_eq token) tokens

unfoldable pub dedup_insert : IdempotencyToken → DedupSet → DedupSet
unfolding Token.is_none
dedup_insert token tokens = if Token.is_none token then tokens else token ∷ tokens

pub record Memtable : Type 0 where
  pub skiplist : SkipList
  pub range_tombstones : RangeTombstoneIndex
  pub dedup_set : DedupSet
  pub next_sequence_number : ℕ
  pub config : MemtableConfig
  pub frozen : Bool

unfoldable pub new : MemtableConfig → ℕ → Memtable
unfolding RangeTombstone.new
new config starting_sequence = record {
  skiplist = SkipList.new;
  range_tombstones = RangeTombstone.new;
  dedup_set = [];
  next_sequence_number = starting_sequence;
  config = config;
  frozen = false;
}

unfoldable pub filter_scan_results : List MemtableEntry → List MemtableEntry
unfolding is_delete
filter_scan_results = keep (λ e. not (is_delete e.entry_type))

unfoldable pub node_to_entry : MemtableEntry → MemtableEntry
unfolding Entry.with_sequence
node_to_entry node =
    Entry.with_sequence node.composite_key node.value node.metadata node.idempotency_key
      node.sequence_number node.entry_type

-- The tombstone of a range delete: its start is the item key behind the prefix byte.
unfoldable pub tombstone_of : MemtableEntry → RangeTombstone
unfolding Entry.record_id Key.item_key
tombstone_of entry =
    let item_key = Key.item_key entry.composite_key in
    record {
      record_id = Entry.record_id entry;
      start_key = if is_empty item_key then [] else drop 1 item_key;
      end_key = entry.value;
      sequence_number = entry.sequence_number;
    }

unfoldable pub insert_inner : List ℕ → MemtableEntry → Memtable → Memtable
unfolding is_range_delete RangeTombstone.add tombstone_of dedup_insert SkipList.insert
insert_inner draws entry m = record m {
  range_tombstones =
      if is_range_delete entry.entry_type
      then RangeTombstone.add (tombstone_of entry) m.range_tombstones
      else m.range_tombstones;
  dedup_set = dedup_insert entry.idempotency_key m.dedup_set;
  skiplist = SkipList.insert draws entry m.skiplist;
}

unfoldable pub insert_prechecked : List ℕ → MemtableEntry → Memtable → FlushResult (ℕ × Memtable)
unfolding insert_inner
insert_prechecked draws entry m =
    let seq = m.next_sequence_number in
    if m.frozen
    then err (resource_exhausted "memtable" "memtable is frozen")
    else ok (
      seq,
      insert_inner draws (record entry { sequence_number = seq })
          (record m { next_sequence_number = (seq + 1) % u64_limit }),
    )

unfoldable pub insert : List ℕ → MemtableEntry → Memtable → FlushResult (ℕ × Memtable)
unfolding dedup_contains insert_prechecked
insert draws entry m =
    if m.frozen
    then err (resource_exhausted "memtable" "memtable is frozen")
    else if dedup_contains entry.idempotency_key m.dedup_set
    then err (duplicate_token entry.idempotency_key)
    else insert_prechecked draws entry m

unfoldable pub insert_with_assigned_sequence :
    List ℕ → MemtableEntry → Memtable → FlushResult (ℕ × Memtable)
unfolding insert_inner
insert_with_assigned_sequence draws entry m =
    let seq = entry.sequence_number in
    if m.frozen
    then err (resource_exhausted "memtable" "memtable is frozen")
    else ok (
      seq,
      insert_inner draws entry (record m {
        next_sequence_number =
            if leb m.next_sequence_number seq
            then (seq + 1) % u64_limit
            else m.next_sequence_number;
      }),
    )

unfoldable pub covered : Memtable → MemtableEntry → Bool
unfolding RangeTombstone.covers Key.record_id Key.item_key
covered m node =
    RangeTombstone.covers (Key.record_id node.composite_key) (Key.item_key node.composite_key)
      node.sequence_number m.range_tombstones

unfoldable pub get : CompositeKey → Memtable → Option MemtableEntry
unfolding SkipList.Read.get covered node_to_entry
get key m = elim (SkipList.Read.get key m.skiplist) [
  | none ↦ none
  | some node ↦ if covered m node then none else some (node_to_entry node)
]

-- `last_key.as_ref() == Some(&node.key)`
unfoldable pub is_last_key : Option CompositeKey → CompositeKey → Bool
is_last_key none key = false
is_last_key (some last) key = bytes_eq last key

-- The loop of `dedup_and_check_range_tombstones`.
unfoldable pub dedup_and_check :
    Memtable → Option CompositeKey → List MemtableEntry → List MemtableEntry
unfolding is_last_key covered node_to_entry
dedup_and_check m last_key [] = []
dedup_and_check m last_key (node ∷ nodes) =
    let same = dedup_and_check m last_key nodes in
    let rest = dedup_and_check m (some node.composite_key) nodes in
    if is_last_key last_key node.composite_key
    then same
    else if covered m node
    then rest
    else node_to_entry node ∷ rest

unfoldable pub dedup_and_check_range_tombstones : Memtable → List MemtableEntry → List MemtableEntry
unfolding dedup_and_check
dedup_and_check_range_tombstones m nodes = dedup_and_check m none nodes

unfoldable pub scan_with_tombstones : CompositeKey → CompositeKey → Memtable → List MemtableEntry
unfolding dedup_and_check_range_tombstones SkipList.Read.range
scan_with_tombstones start end m =
    dedup_and_check_range_tombstones m (SkipList.Read.range start end m.skiplist)

unfoldable pub scan_record_with_tombstones : Bytes → Memtable → List MemtableEntry
unfolding dedup_and_check_range_tombstones SkipList.Read.scan_record
scan_record_with_tombstones record_id m =
    dedup_and_check_range_tombstones m (SkipList.Read.scan_record record_id m.skiplist)

unfoldable pub scan : CompositeKey → CompositeKey → Memtable → List MemtableEntry
unfolding filter_scan_results scan_with_tombstones
scan start end m = filter_scan_results (scan_with_tombstones start end m)

unfoldable pub scan_record : Bytes → Memtable → List MemtableEntry
unfolding filter_scan_results scan_record_with_tombstones
scan_record record_id m = filter_scan_results (scan_record_with_tombstones record_id m)

unfoldable pub should_freeze_by_size : Memtable → Bool
unfolding SkipList.Read.approximate_memory_usage
should_freeze_by_size m =
    leb m.config.size_threshold (SkipList.Read.approximate_memory_usage m.skiplist)

unfoldable pub freeze : Memtable → Memtable
freeze m = record m { frozen = true }

unfoldable pub check_dedup : IdempotencyToken → Memtable → Bool
unfolding dedup_contains
check_dedup token m = dedup_contains token m.dedup_set
