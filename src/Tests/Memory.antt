-- ===== src/Tests/Memory.antt =====
-- Tests of the skip list, the range tombstones and the memtables.
use flushdb.Base.{
  ap, get_or, ℕ, ◌+◌, ◌<◌, ◌≤◌, ◌≡◌, ◌≢◌, ◌↔◌, refl, Bool, true, false, List, [], ◌∷◌, Option, none,
  some, All, any, keep, ◌||◌, arith,
}
use flushdb.Base.Bytes.{Bytes, bytes_eq}
use flushdb.Error.{ok}
use flushdb.Key
use flushdb.Key.{CompositeKey}
use flushdb.Token.{IdempotencyToken}
use flushdb.Entry.{MemtableEntry}
use flushdb.SkipList
use flushdb.SkipList.Refine.{IsSkipList, new-IsSkipList}
use flushdb.SkipList.Ordered.{put_in, find_key, IsNewest}
use flushdb.SkipList.Read.{get, iter, range}
use flushdb.SkipList.Read.Laws.{iter-insert, get-iter}
use flushdb.SkipList.Read.Scan.{within, range-iter}
use flushdb.RangeTombstone
use flushdb.RangeTombstone.{RangeTombstoneIndex}
use flushdb.RangeTombstone.Order.{SortedIndex, follows}
use flushdb.RangeTombstone.Laws.{covers_one, covers-any, covers-add}
use flushdb.Memtable
use flushdb.Memtable.Invariant.{IsMemtable, contents, new-IsMemtable, insert-IsMemtable}
use flushdb.Memtable.Visible.{seen, get-seen, get-insert, get-insert_range}
use flushdb.MemtableList
use flushdb.MemtableList.Freeze.{frozen_list, freeze_keeps, pop-freeze, pop-freeze_first}
use flushdb.Merge
use flushdb.Merge.Order.{IsMerge, next_entry-first}
use flushdb.Base.{is_lt}
use flushdb.Tests.Data.{
  user, name, user_name, user_other, user_tombstone, put_name, delete_range, empty_table, with_name,
  with_delete, tombstone, later_tombstone, one_table, config,
}

iter-insert_example :
    IsSkipList (SkipList.insert (0 ∷ 3 ∷ []) put_name SkipList.new)
    × (iter (SkipList.insert (0 ∷ 3 ∷ []) put_name SkipList.new)
        ≡ put_in put_name (iter SkipList.new))
iter-insert_example = iter-insert (0 ∷ 3 ∷ []) put_name SkipList.new new-IsSkipList

one_entry : IsSkipList (SkipList.insert (0 ∷ 3 ∷ []) put_name SkipList.new)
one_entry = (iter-insert (0 ∷ 3 ∷ []) put_name SkipList.new new-IsSkipList).0

get-iter_example :
    let s = SkipList.insert (0 ∷ 3 ∷ []) put_name SkipList.new in
    (get user_name s ≡ find_key user_name (iter s))
    × ((e : MemtableEntry) → get user_name s ≡ some e → IsNewest user_name (iter s) e)
    × (get user_name s ≡ none → All (λ x. x.composite_key ≢ user_name) (iter s))
get-iter_example = get-iter user_name (SkipList.insert (0 ∷ 3 ∷ []) put_name SkipList.new) one_entry

range-iter_example :
    let s = SkipList.insert (0 ∷ 3 ∷ []) put_name SkipList.new in
    range user_name user_other s ≡ keep (within user_name user_other) (iter s)
range-iter_example =
    range-iter user_name user_other (SkipList.insert (0 ∷ 3 ∷ []) put_name SkipList.new) one_entry

two_sorted : SortedIndex (tombstone ∷ later_tombstone ∷ [])
unfolding follows flushdb.Base.Bytes.compare_bytes
two_sorted = ((refl, tt), (tt, tt))

covers-any_example :
    RangeTombstone.covers user name 1 (tombstone ∷ later_tombstone ∷ [])
    ≡ any (covers_one user name 1) (tombstone ∷ later_tombstone ∷ [])
covers-any_example = covers-any user name 1 (tombstone ∷ later_tombstone ∷ []) two_sorted

covers-add_example :
    RangeTombstone.covers user name 1
      (RangeTombstone.add later_tombstone (tombstone ∷ later_tombstone ∷ []))
    ≡ covers_one user name 1 later_tombstone
      || RangeTombstone.covers user name 1 (tombstone ∷ later_tombstone ∷ [])
covers-add_example =
    covers-add user name 1 later_tombstone (tombstone ∷ later_tombstone ∷ []) two_sorted

name_inserted : Memtable.insert (1 ∷ []) put_name empty_table ≡ ok (1, with_name)
unfolding Memtable.insert Memtable.new bytes_eq flushdb.Base.Bytes.compare_bytes
name_inserted = refl

insert-IsMemtable_example :
    IsMemtable with_name
    × (1 ≡ empty_table.next_sequence_number)
    × (with_name.next_sequence_number ≡ 1 + 1)
    × (contents with_name ≡ put_in (record put_name { sequence_number = 1 }) (contents empty_table))
unfolding Memtable.new
insert-IsMemtable_example =
    insert-IsMemtable (1 ∷ []) put_name empty_table (new-IsMemtable config 1) (omega arith)
      name_inserted

with_name_valid : IsMemtable with_name
unfolding Memtable.new
with_name_valid =
    (insert-IsMemtable (1 ∷ []) put_name empty_table (new-IsMemtable config 1) (omega arith)
      name_inserted).0

get-seen_example : Memtable.get user_name with_name ≡ seen user_name (contents with_name)
get-seen_example = get-seen user_name with_name with_name_valid

get-insert_example :
    Memtable.get user_name with_name ≡ some (record put_name { sequence_number = 1 })
unfolding Memtable.new
get-insert_example =
    get-insert (1 ∷ []) put_name empty_table (new-IsMemtable config 1) (omega arith) name_inserted

names_differ : user_name ≢ user_other
names_differ e =
    let h : ◌≡◌ {A = ℕ} 110 111 = ap (λ (l : Bytes). get_or l 2 0) e in absurd (omega arith)

tombstone_differs : user_tombstone ≢ user_name
tombstone_differs e =
    let h : ◌≡◌ {A = ℕ} 255 110 = ap (λ (l : Bytes). get_or l 2 0) e in absurd (omega arith)

range_deleted : Memtable.insert (0 ∷ 2 ∷ []) delete_range with_name ≡ ok (2, with_delete)
unfolding Memtable.insert Memtable.new bytes_eq flushdb.Base.Bytes.compare_bytes
range_deleted = refl

get-insert_range_example : Memtable.get user_name with_delete ≡ none
unfolding Key.range_tombstone_key Key.new Key.validate_record_id Key.has_separator
    Key.validate_item_key flushdb.Entry.is_range_delete flushdb.Base.Bytes.compare_bytes Key.encode
get-insert_range_example =
    get-insert_range (0 ∷ 2 ∷ []) delete_range with_name with_name_valid
      (unfold Memtable.insert_inner in omega arith) range_deleted user name name refl refl refl refl
      refl tombstone_differs

frozen_once : MemtableList.freeze_active_with_generation 4 one_table ≡ ok (frozen_list 4 one_table)
unfolding MemtableList.freeze_active_with_generation frozen_list
frozen_once = refl

frozen_twice :
    MemtableList.freeze_active_with_generation 6 (frozen_list 4 one_table)
    ≡ ok (frozen_list 6 (frozen_list 4 one_table))
unfolding MemtableList.freeze_active_with_generation frozen_list
frozen_twice = refl

freeze_keeps_example :
    let l = one_table in
    let l' = frozen_list 4 one_table in
    ((key : CompositeKey) → MemtableList.get key l' ≡ MemtableList.get key l)
    × ((t : IdempotencyToken) → MemtableList.check_dedup t l' ≡ MemtableList.check_dedup t l)
    × ((r k : Bytes) (seq : ℕ)
        → MemtableList.range_tombstone_covers r k seq l'
          ≡ MemtableList.range_tombstone_covers r k seq l)
    × (MemtableList.all_range_tombstones l' ≡ MemtableList.all_range_tombstones l)
    × (l'.active.next_sequence_number ≡ l.active.next_sequence_number)
freeze_keeps_example = freeze_keeps 4 one_table frozen_once

emptied : MemtableList.MemtableList
emptied = record (frozen_list 4 one_table) { frozen = []; frozen_generation_ids = [] }

first_popped :
    MemtableList.pop_oldest_frozen_with_generation (frozen_list 4 one_table)
    ≡ some (4, (Memtable.freeze with_name, emptied))
unfolding emptied
first_popped = pop-freeze_first 4 one_table refl refl frozen_once

pop-freeze_example :
    MemtableList.pop_oldest_frozen_with_generation (frozen_list 6 (frozen_list 4 one_table))
    ≡ some (4, (Memtable.freeze with_name, frozen_list 6 emptied))
pop-freeze_example = pop-freeze 6 (frozen_list 4 one_table) frozen_twice first_popped

-- Two sources with one key; the second has the newer entry.
abbrev merged : Merge.MergeIterator
merged = Merge.new (
    Merge.new_source (Merge.from_memtable_entry put_name ∷ []) 0
    ∷ Merge.new_source (Merge.from_memtable_entry (record put_name { sequence_number = 9 }) ∷ []) 1
    ∷ [])

merged-IsMerge : IsMerge merged
unfolding IsMerge Merge.new Merge.new_source Merge.from_memtable_entry
merged-IsMerge = ((_, _, refl, refl, refl, refl), ((_, _, refl, refl, refl, refl), tt))

next_entry-first_example :
    (Merge.next_entry merged ≡ none → merged.heap ≡ [])
    × ((e : Merge.MergeEntry) (later : Merge.MergeIterator)
        → Merge.next_entry merged ≡ some (e, later)
        → All
            (λ item.
              is_lt (SkipList.compare_entries item.key item.seq e.composite_key e.sequence_number)
              ≡ false)
            merged.heap)
next_entry-first_example = next_entry-first merged merged-IsMerge
