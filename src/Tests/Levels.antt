-- ===== src/Tests/Levels.antt =====
-- Runs of the code of the manifest, the choice of compactions and the reads over levels.
use flushdb.Base.{ℕ, ◌+◌, ◌<◌, ◌≤◌, ◌≡◌, refl, arith, none, some, List, [], ◌∷◌, All}
use flushdb.Base.Bytes.{Bytes, compare_bytes, bytes_eq}
use flushdb.Error.{ok}
use flushdb.Key
use flushdb.Manifest.{
  Level, l0, l1, l2, l3, is_overlapping, SstableMeta, Manifest, new_empty, sstables_at_level,
  contains_key, find, set_level, add_all, find_sstable_for_key, ManifestUpdate, compaction, apply,
  total_sstable_count,
}
use flushdb.Manifest.Find.{Disjoint, find_sstable_for_key-find}
use flushdb.Manifest.Apply.{IsSorted, apply-IsSorted}
use flushdb.Manifest.Count.{apply-total}
use flushdb.Compaction.{
  CompactionConfig, CompactionTask, write_stall_status, stopped, check_triggers,
}
use flushdb.Compaction.Choice.{IsL0Task, stopped-IsL0Task}
use flushdb.MemtableList
use flushdb.MemtableList.{MemtableList}
use flushdb.ReadPath.{LevelState, from_block_entry, point_read}
use flushdb.ReadPath.Point.{LevelCovered, point_read-newest}
use flushdb.ReadPath.PageToken.{PageToken, to_base64, from_base64, IsToken, from_base64-to_base64}
use flushdb.Tests.Data.{users, user_name, user_other, config}
use flushdb.Tests.Stored.{stored_entry}
use flushdb.Base.Bytes.{bytes_eq}
use flushdb.Base.{◌^◌}

-- A table of the keys between two.
abbrev table : Bytes → Bytes → SstableMeta
table min_key max_key = record {
  id = min_key;
  size_bytes = 100;
  entry_count = 2;
  min_key = min_key;
  max_key = max_key;
  bloom_filter_offset = 0;
  bloom_filter_size = 0;
  index_offset = 0;
  index_size = 0;
  created_at_ms = 5;
  sequence_range = (1, 2);
  record_id_count = 1;
  run_id = none;
  fragment_index = none;
  dedup_block_size = 4;
}

abbrev user_table : SstableMeta
user_table = table user_name user_other

abbrev users_table : SstableMeta
users_table = table users users

-- Two tables at level 1.
abbrev two_tables : Manifest
two_tables = record (new_empty [] 5) {
  levels = λ level. elim level [ l0 ↦ [] | l1 ↦ user_table ∷ users_table ∷ [] | l2 ↦ [] | l3 ↦ [] ];
}

two_tables-Disjoint : Disjoint (user_table ∷ users_table ∷ [])
unfolding compare_bytes
two_tables-Disjoint = (((refl, tt), (tt, tt)), (refl, (refl, tt)))

find_sstable_for_key-find_example :
    find_sstable_for_key two_tables l1 user_name
    ≡ find (contains_key user_name) (user_table ∷ users_table ∷ [])
unfolding sstables_at_level
find_sstable_for_key-find_example =
    find_sstable_for_key-find two_tables l1 user_name (λ _. two_tables-Disjoint)

-- Moves the second table to level 2.
abbrev move_down : ManifestUpdate
move_down = record {
  trigger = compaction;
  add_sstables = (l2, users_table) ∷ [];
  remove_sstables = (l1, users) ∷ [];
  new_last_flushed_sequence = some 4;
  writer_epoch = 0;
  compactor_epoch = 1;
}

-- The manifest behind the move.
abbrev moved : Manifest
moved = record (new_empty [] 9) {
  manifest_id = 1;
  compactor_epoch = 1;
  last_flushed_sequence = 4;
  levels = add_all ((l2, users_table) ∷ []) (set_level l1 (user_table ∷ []) two_tables.levels);
}

two_tables-IsSorted : IsSorted two_tables.levels
unfolding compare_bytes
two_tables-IsSorted l0 lower = tt
two_tables-IsSorted l1 lower = ((refl, tt), (tt, tt))
two_tables-IsSorted l2 lower = tt
two_tables-IsSorted l3 lower = tt

apply-moved : apply move_down 9 two_tables ≡ ok moved
unfolding apply new_empty compare_bytes bytes_eq
apply-moved = refl

apply-IsSorted_example : IsSorted moved.levels
apply-IsSorted_example = apply-IsSorted move_down 9 two_tables apply-moved two_tables-IsSorted

apply-total_example :
    (total_sstable_count moved + 1 ≡ total_sstable_count two_tables + 1)
    × (two_tables.last_flushed_sequence ≤ moved.last_flushed_sequence)
    × (moved.previous_manifest_id ≡ two_tables.manifest_id)
    × (moved.manifest_id ≡ 1)
unfolding new_empty
apply-total_example = apply-total move_down 9 two_tables apply-moved

-- Five tables at level 0, at which writes stop.
abbrev many_tables : Manifest
many_tables = record (new_empty [] 5) {
  levels = λ level. elim level [
    | l0 ↦ user_table ∷ users_table ∷ user_table ∷ users_table ∷ user_table ∷ []
    | l1 ↦ []
    | l2 ↦ []
    | l3 ↦ []
  ];
}

abbrev small_config : CompactionConfig
small_config = record {
  l0_compaction_trigger = 2;
  l0_slowdown_trigger = 3;
  l0_stop_trigger = 4;
  l1_max_bytes = 100;
  l2_max_bytes = 100;
  l3_max_bytes = 100;
}

many_tables_stop : write_stall_status small_config many_tables ≡ stopped 5
unfolding write_stall_status flushdb.Manifest.l0_count
many_tables_stop = refl

stopped-IsL0Task_example :
    (task : CompactionTask) × (later : List CompactionTask) × (check_triggers small_config
        many_tables
      ≡ task ∷ later)
    × IsL0Task many_tables task
stopped-IsL0Task_example =
    stopped-IsL0Task small_config many_tables 5 (omega arith) many_tables_stop

abbrev no_memtables : MemtableList
no_memtables = MemtableList.new config 1

-- A level with a table that holds the key, and a level with an older one.
abbrev two_levels : List LevelState
two_levels =
    record { find_candidates_for_key = λ _. (λ _. ok (some stored_entry)) ∷ [] }
    ∷ record {
      find_candidates_for_key =
          λ _. (λ _. ok (some (record stored_entry { sequence_number = 0 }))) ∷ [];
    }
    ∷ []

get-no_memtables : MemtableList.get user_name no_memtables ≡ none
unfolding MemtableList.get MemtableList.new
get-no_memtables = refl

two_levels_read :
    point_read user_name no_memtables two_levels ≡ ok (some (from_block_entry stored_entry))
unfolding point_read MemtableList.get MemtableList.new MemtableList.range_tombstone_covers
two_levels_read = refl

point_read-newest_example :
    All (LevelCovered user_name (some (from_block_entry stored_entry))) two_levels
point_read-newest_example =
    point_read-newest user_name no_memtables two_levels (from_block_entry stored_entry)
      get-no_memtables two_levels_read

abbrev page_token : PageToken
page_token = record {
  last_composite_key = user_name;
  last_sequence_number = 7;
  avg_item_size_bytes = some 100;
}

page_token_key : Key.from_bytes user_name ≡ ok user_name
unfolding Key.from_bytes Key.has_separator
page_token_key = refl

average_fits : (avg : ℕ) → some 100 ≡ some avg → avg < 2 ^ 32
average_fits avg h = let same : 100 ≡ avg = cc h in omega (arith, same)

page_token-IsToken : IsToken page_token
page_token-IsToken = record {
  key = page_token_key;
  key_bytes = (omega arith, (omega arith, (omega arith, tt)));
  key_fits = omega arith;
  sequence_fits = omega arith;
  average_fits = average_fits;
}

from_base64-to_base64_example : from_base64 (to_base64 page_token) ≡ ok page_token
from_base64-to_base64_example = from_base64-to_base64 page_token page_token-IsToken
