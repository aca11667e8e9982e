-- ===== src/Compaction.antt =====
-- The choice of compactions and the stall of writes:
-- crates/flushdb-engine/src/compaction/scheduler.rs.
pub mod Range
pub mod Choice
use flushdb.Base.{
  ℕ, ◌+◌, ◌-◌, ◌*◌, Option, none, some, List, [], ◌∷◌, ◌++◌, length, leb, ltb, if◌then◌else◌, is_lt,
}
use flushdb.Base.Bytes.{Bytes, compare_bytes}
use flushdb.Manifest.{
  Level, l0, l1, l2, l3, next_level, SstableMeta, Manifest, l0_count, sstables_at_level,
  level_size_bytes, find_overlapping,
}

-- The fields that the scheduler reads.
pub record CompactionConfig : Type 0 where
  pub l0_compaction_trigger : ℕ
  pub l0_slowdown_trigger : ℕ
  pub l0_stop_trigger : ℕ
  pub l1_max_bytes : ℕ
  pub l2_max_bytes : ℕ
  pub l3_max_bytes : ℕ

-- `CompactionConfig::default`
unfoldable pub default_config : CompactionConfig
default_config = record {
  l0_compaction_trigger = 4;
  l0_slowdown_trigger = 8;
  l0_stop_trigger = 12;
  l1_max_bytes = 256 * 1024 * 1024;
  l2_max_bytes = 2560 * 1024 * 1024;
  l3_max_bytes = 25600 * 1024 * 1024;
}

pub data CompactionType : Type 0 where
  l0_to_l1 level_to_level tombstone_gc : CompactionType

pub record CompactionTask : Type 0 where
  pub task_type : CompactionType
  pub source_level : Level
  pub target_level : Level
  pub input_sstables : List SstableMeta
  pub target_sstables : List SstableMeta

pub data WriteStallStatus : Type 0 where
  normal : WriteStallStatus
  slowdown : ℕ → ℕ → WriteStallStatus
  stopped : ℕ → WriteStallStatus

-- The loop of `combined_key_range` over the tables behind the first.
unfoldable pub widen : List SstableMeta → Bytes → Bytes → Bytes × Bytes
widen [] min_key max_key = (min_key, max_key)
widen (sst ∷ ssts) min_key max_key =
    widen ssts (if is_lt (compare_bytes sst.min_key min_key) then sst.min_key else min_key)
      (if is_lt (compare_bytes max_key sst.max_key) then sst.max_key else max_key)

unfoldable pub combined_key_range : List SstableMeta → Option (Bytes × Bytes)
unfolding widen
combined_key_range [] = none
combined_key_range (sst ∷ ssts) = some (widen ssts sst.min_key sst.max_key)

unfoldable pub l0_task : Manifest → Option (Bytes × Bytes) → Option CompactionTask
l0_task m none = none
l0_task m (some range) = some (record {
  task_type = l0_to_l1;
  source_level = l0;
  target_level = l1;
  input_sstables = sstables_at_level m l0;
  target_sstables = find_overlapping m l1 (range.0) (range.1);
})

unfoldable pub check_l0_trigger : CompactionConfig → Manifest → Option CompactionTask
unfolding l0_task combined_key_range
check_l0_trigger config m =
    if leb (l0_count m) config.l0_compaction_trigger
    then none
    else l0_task m (combined_key_range (sstables_at_level m l0))

-- `min_by_key` on the time of creation: the first of the least.
unfoldable pub oldest : SstableMeta → List SstableMeta → SstableMeta
oldest best [] = best
oldest best (m ∷ ms) = oldest (if ltb m.created_at_ms best.created_at_ms then m else best) ms

-- The largest size of a level that has a trigger by size.
unfoldable pub max_bytes : CompactionConfig → Level → Option ℕ
max_bytes config l0 = none
max_bytes config l1 = some config.l1_max_bytes
max_bytes config l2 = some config.l2_max_bytes
max_bytes config l3 = none

unfoldable pub level_task :
    Manifest → Level → Option Level → List SstableMeta → Option CompactionTask
unfolding oldest
level_task m level none ssts = none
level_task m level (some target_level) [] = none
level_task m level (some target_level) (sst ∷ ssts) =
    let input = oldest sst ssts in
    some (record {
      task_type = level_to_level;
      source_level = level;
      target_level = target_level;
      input_sstables = input ∷ [];
      target_sstables = find_overlapping m target_level input.min_key input.max_key;
    })

unfoldable pub check_level_trigger : CompactionConfig → Manifest → Level → Option CompactionTask
unfolding max_bytes level_task
check_level_trigger config m level = elim (max_bytes config level) [
  | none ↦ none
  | some bytes ↦
      if leb (level_size_bytes m level) bytes
      then none
      else level_task m level (next_level level) (sstables_at_level m level)
]

-- `if let Some(task) = … { tasks.push(task) }`
abbrev pub push_task : List CompactionTask → Option CompactionTask → List CompactionTask
push_task tasks none = tasks
push_task tasks (some task) = tasks ++ (task ∷ [])

unfoldable pub check_triggers : CompactionConfig → Manifest → List CompactionTask
unfolding check_l0_trigger check_level_trigger
check_triggers config m =
    push_task
      (push_task (push_task [] (check_l0_trigger config m)) (check_level_trigger config m l1))
      (check_level_trigger config m l2)

unfoldable pub write_stall_status : CompactionConfig → Manifest → WriteStallStatus
write_stall_status config m =
    if leb config.l0_stop_trigger (l0_count m)
    then stopped (l0_count m)
    else if ltb config.l0_slowdown_trigger (l0_count m)
    then slowdown (l0_count m) (l0_count m - config.l0_slowdown_trigger)
    else normal
