-- ===== src/MemtableList.antt =====
-- The active memtable and the frozen ones of crates/flushdb-engine/src/memtable_list.rs, the most
-- recently frozen one first. The standard library's stable `sort_by` and its `dedup_by` are
-- written out on lists.
pub mod Freeze
use flushdb.Base.{
  ℕ, zero, suc, ◌+◌, Bool, true, false, not, List, [], ◌∷◌, ◌++◌, Option, none, some, length,
}
use flushdb.Base.{keep, leb, any, if◌then◌else◌, ◌||◌, is_lt, Ordering}
use flushdb.Base.Bytes.{Bytes, bytes_eq}
use flushdb.Error.{FlushResult, ok, err, resource_exhausted, duplicate_token}
use flushdb.Key.{CompositeKey}
use flushdb.Token
use flushdb.Token.{IdempotencyToken}
use flushdb.Entry.{MemtableEntry, is_delete}
use flushdb.RangeTombstone
use flushdb.RangeTombstone.{RangeTombstone}
use flushdb.SkipList.{compare_entries}
use flushdb.SkipList.Read
use flushdb.Memtable
use flushdb.Memtable.{Memtable, MemtableConfig}

pub record MemtableList : Type 0 where
  pub active : Memtable
  pub frozen : List Memtable
  pub frozen_generation_ids : List ℕ
  pub config : MemtableConfig

unfoldable pub new : MemtableConfig → ℕ → MemtableList
unfolding Memtable.new
new config starting_sequence = record {
  active = Memtable.new config starting_sequence;
  frozen = [];
  frozen_generation_ids = [];
  config = config;
}

-- The loop over the frozen memtables, in `check_dedup` and in `insert`.
unfoldable pub frozen_has : IdempotencyToken → List Memtable → Bool
unfolding Memtable.check_dedup
frozen_has token = any (Memtable.check_dedup token)

unfoldable pub check_dedup : IdempotencyToken → MemtableList → FlushResult (Unit {0})
unfolding Token.is_none Memtable.check_dedup frozen_has
check_dedup token l =
    if Token.is_none token
    then ok tt
    else if Memtable.check_dedup token l.active
    then err (duplicate_token token)
    else if frozen_has token l.frozen
    then err (duplicate_token token)
    else ok tt

-- The call on the active memtable, with the list around it.
unfoldable pub with_active :
    MemtableList → FlushResult (ℕ × Memtable) → FlushResult (ℕ × MemtableList)
with_active l (err e) = err e
with_active l (ok (seq, active)) = ok (seq, record l { active = active })

unfoldable pub insert : List ℕ → MemtableEntry → MemtableList → FlushResult (ℕ × MemtableList)
unfolding Token.is_none Memtable.check_dedup frozen_has Memtable.insert with_active
insert draws entry l =
    let token = entry.idempotency_key in
    if Token.is_none token
    then with_active l (Memtable.insert draws entry l.active)
    else if Memtable.check_dedup token l.active
    then err (duplicate_token token)
    else if frozen_has token l.frozen
    then err (duplicate_token token)
    else with_active l (Memtable.insert draws entry l.active)

unfoldable pub insert_prechecked :
    List ℕ → MemtableEntry → MemtableList → FlushResult (ℕ × MemtableList)
unfolding Memtable.insert_with_assigned_sequence with_active
insert_prechecked draws entry l =
    with_active l (Memtable.insert_with_assigned_sequence draws entry l.active)

-- The loop of `get`: the first memtable that returns an entry decides.
unfoldable pub get_first : CompositeKey → List Memtable → Option MemtableEntry
unfolding Memtable.get
get_first key [] = none
get_first key (m ∷ ms) = elim (Memtable.get key m) [ some e ↦ some e | none ↦ get_first key ms ]

unfoldable pub get : CompositeKey → MemtableList → Option MemtableEntry
unfolding get_first
get key l = get_first key (l.active ∷ l.frozen)

-- The loops that extend a vector by what each memtable yields.
unfoldable pub collect {ℓ} : {A : Type ℓ} → (Memtable → List A) → List Memtable → List A
collect f [] = []
collect f (m ∷ ms) = f m ++ collect f ms

-- `a` is less than `b` by key, and under one key has the higher number.
unfoldable pub sorts_before : MemtableEntry → MemtableEntry → Bool
unfolding compare_entries
sorts_before a b =
    is_lt (compare_entries a.composite_key a.sequence_number b.composite_key b.sequence_number)

-- An element goes in front of the first one that it does not come behind, so that equal ones keep
-- their order.
unfoldable pub sort_in : MemtableEntry → List MemtableEntry → List MemtableEntry
unfolding sorts_before
sort_in e [] = e ∷ []
sort_in e (x ∷ xs) = let rest = sort_in e xs in if sorts_before x e then x ∷ rest else e ∷ x ∷ xs

unfoldable pub sort : List MemtableEntry → List MemtableEntry
unfolding sort_in
sort [] = []
sort (e ∷ es) = sort_in e (sort es)

-- `dedup_by` with equal keys: the first of a run stays.
unfoldable pub dedup_behind : CompositeKey → List MemtableEntry → List MemtableEntry
dedup_behind key [] = []
dedup_behind key (e ∷ es) =
    let same = dedup_behind key es in
    let rest = dedup_behind e.composite_key es in
    if bytes_eq e.composite_key key then same else e ∷ rest

unfoldable pub dedup : List MemtableEntry → List MemtableEntry
unfolding dedup_behind
dedup [] = []
dedup (e ∷ es) = e ∷ dedup_behind e.composite_key es

unfoldable pub merge_and_filter : List MemtableEntry → List MemtableEntry
unfolding sort dedup is_delete
merge_and_filter entries = keep (λ e. not (is_delete e.entry_type)) (dedup (sort entries))

unfoldable pub scan : CompositeKey → CompositeKey → MemtableList → List MemtableEntry
unfolding merge_and_filter collect Memtable.scan_with_tombstones
scan start end l =
    merge_and_filter (collect (Memtable.scan_with_tombstones start end) (l.active ∷ l.frozen))

unfoldable pub scan_record : Bytes → MemtableList → List MemtableEntry
unfolding merge_and_filter collect Memtable.scan_record_with_tombstones
scan_record record_id l =
    merge_and_filter
      (collect (Memtable.scan_record_with_tombstones record_id) (l.active ∷ l.frozen))

unfoldable pub scan_all_with_tombstones :
    CompositeKey → CompositeKey → MemtableList → List MemtableEntry
unfolding sort dedup collect Memtable.scan_with_tombstones
scan_all_with_tombstones start end l =
    dedup (sort (collect (Memtable.scan_with_tombstones start end) (l.active ∷ l.frozen)))

unfoldable pub freeze_active_with_generation : ℕ → MemtableList → FlushResult MemtableList
unfolding Memtable.freeze Memtable.new
freeze_active_with_generation generation_id l =
    if leb l.config.max_frozen_count (length l.frozen)
    then err (resource_exhausted "memtable" "too many frozen memtables")
    else ok (record l {
      active = Memtable.new l.config l.active.next_sequence_number;
      frozen = Memtable.freeze l.active ∷ l.frozen;
      frozen_generation_ids = generation_id ∷ l.frozen_generation_ids;
    })

unfoldable pub freeze_active : MemtableList → FlushResult MemtableList
unfolding freeze_active_with_generation
freeze_active l = freeze_active_with_generation 0 l

-- `Vec::pop`: the last element and those before it.
unfoldable pub pop {ℓ} : {A : Type ℓ} → List A → Option (A × List A)
pop [] = none
pop (x ∷ xs) = elim (pop xs) [ none ↦ some (x, []) | some (last, rest) ↦ some (last, x ∷ rest) ]

-- Without a generation for the memtable the source panics; the model returns `none`.
unfoldable pub pop_oldest_frozen_with_generation :
    MemtableList → Option (ℕ × (Memtable × MemtableList))
unfolding pop
pop_oldest_frozen_with_generation l = elim (pop l.frozen) [
  | none ↦ none
  | some (oldest, frozen) ↦ elim (pop l.frozen_generation_ids) [
    | none ↦ none
    | some (generation, ids) ↦
        some (generation, (oldest, record l { frozen = frozen; frozen_generation_ids = ids }))
  ]
]

unfoldable pub is_backpressured : MemtableList → Bool
is_backpressured l = leb l.config.max_frozen_count (length l.frozen)

unfoldable pub usage : List Memtable → ℕ
unfolding Read.approximate_memory_usage
usage [] = 0
usage (m ∷ ms) = Read.approximate_memory_usage m.skiplist + usage ms

unfoldable pub total_memory_usage : MemtableList → ℕ
unfolding usage
total_memory_usage l = usage (l.active ∷ l.frozen)

unfoldable pub is_memory_backpressured : MemtableList → Bool
unfolding total_memory_usage
is_memory_backpressured l = leb l.config.memtable_memory_limit (total_memory_usage l)

unfoldable pub range_tombstone_covers : Bytes → Bytes → ℕ → MemtableList → Bool
unfolding RangeTombstone.covers
range_tombstone_covers record_id item_key entry_sequence l =
    any (λ m. RangeTombstone.covers record_id item_key entry_sequence m.range_tombstones)
      (l.active ∷ l.frozen)

unfoldable pub all_range_tombstones : MemtableList → List RangeTombstone
unfolding collect
all_range_tombstones l = collect (λ m. m.range_tombstones) (l.active ∷ l.frozen)
