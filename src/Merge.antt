-- ===== src/Merge.antt =====
-- The merge iterator of crates/flushdb-engine/src/merge_iterator.rs over its sources of vectors. The
-- binary heap of the standard library is the list of its items; `pop` takes out a greatest one.
pub mod Order
use flushdb.Base.{
  ℕ, zero, suc, ◌+◌, Bool, true, false, List, [], ◌∷◌, Option, none, some, length, get_elem?, set,
  is_empty, ltb, if◌then◌else◌, then_cmp, compare, Ordering, is_lt,
}
use flushdb.Base.Bytes.{Bytes, bytes_eq}
use flushdb.Key
use flushdb.Key.{CompositeKey}
use flushdb.Entry.{EntryType, MemtableEntry, is_delete}

pub record MergeEntry : Type 0 where
  pub composite_key : CompositeKey
  pub value : Bytes
  pub metadata : Bytes
  pub entry_type : EntryType
  pub sequence_number : ℕ

unfoldable pub from_memtable_entry : MemtableEntry → MergeEntry
from_memtable_entry entry = record {
  composite_key = entry.composite_key;
  value = entry.value;
  metadata = entry.metadata;
  entry_type = entry.entry_type;
  sequence_number = entry.sequence_number;
}

unfoldable pub is_tombstone : MergeEntry → Bool
unfolding is_delete
is_tombstone e = is_delete e.entry_type

pub record VecSource : Type 0 where
  pub entries : List MergeEntry
  pub pos : ℕ
  pub source_id : ℕ

unfoldable pub new_source : List MergeEntry → ℕ → VecSource
new_source entries source_id = record { entries = entries; pos = 0; source_id = source_id }

unfoldable pub peek : VecSource → Option MergeEntry
peek s = get_elem? s.entries s.pos

unfoldable pub advance : VecSource → VecSource
advance s = if ltb s.pos (length s.entries) then record s { pos = s.pos + 1 } else s

pub record HeapItem : Type 0 where
  pub key : CompositeKey
  pub seq : ℕ
  pub source_idx : ℕ
  pub source_id : ℕ

-- `Ord for HeapItem`: the key and the source id are compared the other way round.
unfoldable pub cmp_items : HeapItem → HeapItem → Ordering
unfolding Key.cmp
cmp_items a b =
    then_cmp (Key.cmp b.key a.key)
      (then_cmp (compare a.seq b.seq) (compare b.source_id a.source_id))

-- The greatest item and the others.
unfoldable pub pop_greatest : List HeapItem → Option (HeapItem × List HeapItem)
unfolding cmp_items
pop_greatest [] = none
pop_greatest (x ∷ xs) = elim (pop_greatest xs) [
  | none ↦ some (x, [])
  | some (top, rest) ↦
      if is_lt (cmp_items x top) then some (top, x ∷ rest) else some (x, top ∷ rest)
]

unfoldable pub item_of : MergeEntry → ℕ → ℕ → HeapItem
item_of entry source_idx source_id = record {
  key = entry.composite_key;
  seq = entry.sequence_number;
  source_idx = source_idx;
  source_id = source_id;
}

pub record MergeIterator : Type 0 where
  pub heap : List HeapItem
  pub sources : List VecSource

-- The loop of `new` over the sources with their indices.
unfoldable pub first_items : ℕ → List VecSource → List HeapItem
unfolding peek item_of
first_items idx [] = []
first_items idx (s ∷ sources) =
    let later = first_items (idx + 1) sources in
    elim (peek s) [ none ↦ later | some entry ↦ item_of entry idx s.source_id ∷ later ]

unfoldable pub new : List VecSource → MergeIterator
unfolding first_items
new sources = record { heap = first_items 0 sources; sources = sources }

-- `none` too where the source panics, on an item of an exhausted source.
unfoldable pub next_entry : MergeIterator → Option (MergeEntry × MergeIterator)
unfolding pop_greatest peek advance item_of
next_entry it = elim (pop_greatest it.heap) [
  | none ↦ none
  | some (item, rest) ↦ elim (get_elem? it.sources item.source_idx) [
    | none ↦ none
    | some source ↦ elim (peek source) [
      | none ↦ none
      | some entry ↦
          let moved = advance source in
          some (
            entry,
            record {
              heap = elim (peek moved) [
                | none ↦ rest
                | some next ↦ item_of next item.source_idx item.source_id ∷ rest
              ];
              sources = set it.sources item.source_idx moved;
            },
          )
    ]
  ]
]

unfoldable pub is_exhausted : MergeIterator → Bool
is_exhausted it = is_empty it.heap

-- How many entries the sources hold, behind their positions or not.
unfoldable pub entry_count : List VecSource → ℕ
entry_count [] = 0
entry_count (s ∷ sources) = length s.entries + entry_count sources

-- The `while let` loop: as long as the greatest item has the key, its entry is taken and dropped.
unfoldable pub skip_key : ℕ → CompositeKey → MergeIterator → MergeIterator
unfolding pop_greatest next_entry
skip_key zero key it = it
skip_key (suc fuel) key it = elim (pop_greatest it.heap) [
  | none ↦ it
  | some (top, rest) ↦ elim (bytes_eq top.key key) [
    | false ↦ it
    | true ↦ elim (next_entry it) [ none ↦ it | some (entry, later) ↦ skip_key fuel key later ]
  ]
]

-- Each round takes an entry out of a source, so that a fuel of their number is enough.
unfoldable pub next_deduped : MergeIterator → Option (MergeEntry × MergeIterator)
unfolding next_entry skip_key entry_count
next_deduped it = elim (next_entry it) [
  | none ↦ none
  | some (entry, later) ↦
      some (entry, skip_key (entry_count later.sources) entry.composite_key later)
]
