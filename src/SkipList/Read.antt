-- ===== src/SkipList/Read.antt =====
-- Reading the skip list of crates/flushdb-engine/src/skiplist.rs: `get`, the seek and the iterator.
pub mod Laws
pub mod Scan
use flushdb.Base.{
  ℕ, zero, suc, Bool, true, false, List, [], ◌∷◌, Option, none, some, length, not, if◌then◌else◌,
  is_lt,
}
use flushdb.Base.Bytes.{Bytes, bytes_eq}
use flushdb.Error.{ok, err}
use flushdb.Key
use flushdb.Key.{CompositeKey}
use flushdb.Entry.{MemtableEntry}
use flushdb.SkipList.{SkipNode, SkipList, next_of, entry_at, descend}

-- `self.nodes[i].key < *key`
unfoldable pub key_below : CompositeKey → MemtableEntry → Bool
key_below key e = is_lt (Key.cmp e.composite_key key)

unfoldable pub seek_to : CompositeKey → SkipList → Option ℕ
unfolding descend key_below next_of
seek_to key s = next_of s.nodes (descend (key_below key) s.nodes s.height s.head) 0

unfoldable pub get : CompositeKey → SkipList → Option MemtableEntry
unfolding seek_to entry_at
get key s = elim (seek_to key s) [
  | none ↦ none
  | some next_idx ↦ elim (entry_at s.nodes next_idx) [
    | none ↦ none
    | some e ↦ if bytes_eq e.composite_key key then some e else none
  ]
]

unfoldable pub contains_key : CompositeKey → SkipList → Bool
unfolding get
contains_key key s = elim (get key s) [ none ↦ false | some e ↦ true ]

pub data StopCondition : Type 0 where
  never : StopCondition
  before_key : CompositeKey → StopCondition
  record_boundary : Bytes → StopCondition

-- The test by which `next` ends the iteration.
unfoldable pub stops : StopCondition → MemtableEntry → Bool
stops never e = false
stops (before_key end) e = not (is_lt (Key.cmp e.composite_key end))
stops (record_boundary record_id) e = not (bytes_eq (Key.record_id e.composite_key) record_id)

-- What the iterator yields from `current` on, in at most as many steps as the fuel.
unfoldable pub iterate : List SkipNode → StopCondition → ℕ → Option ℕ → List MemtableEntry
unfolding entry_at stops next_of
iterate nodes stop fuel none = []
iterate nodes stop zero (some idx) = []
iterate nodes stop (suc fuel) (some idx) = elim (entry_at nodes idx) [
  | none ↦ []
  | some e ↦ elim (stops stop e) [
    | true ↦ []
    | false ↦ e ∷ iterate nodes stop fuel (next_of nodes idx 0)
  ]
]

-- A list visits each node at most once, so that the number of nodes is enough.
unfoldable pub iterator : SkipList → StopCondition → Option ℕ → List MemtableEntry
unfolding iterate
iterator s stop current = iterate s.nodes stop (length s.nodes) current

unfoldable pub iter : SkipList → List MemtableEntry
unfolding iterator next_of
iter s = iterator s never (next_of s.nodes s.head 0)

unfoldable pub range : CompositeKey → CompositeKey → SkipList → List MemtableEntry
unfolding iterator seek_to
range start end s = iterator s (before_key end) (seek_to start s)

unfoldable pub range_from : CompositeKey → SkipList → List MemtableEntry
unfolding iterator seek_to
range_from start s = iterator s never (seek_to start s)

unfoldable pub scan_record : Bytes → SkipList → List MemtableEntry
unfolding iterator seek_to
scan_record record_id s = elim (Key.min_key_for_record record_id) [
  | err e ↦ []
  | ok min_key ↦ iterator s (record_boundary record_id) (seek_to min_key s)
]

unfoldable pub approximate_memory_usage : SkipList → ℕ
approximate_memory_usage s = s.arena.total_allocated
