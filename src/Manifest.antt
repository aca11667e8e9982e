-- ===== src/Manifest.antt =====
-- The manifest: which tables each level has. crates/flushdb-engine/src/manifest/types.rs. The clock
-- is an argument; the JSON text of a manifest is left to `serde_json`.
pub mod Find
pub mod Apply
pub mod Count
use flushdb.Base.{
  ℕ, zero, suc, ◌+◌, ◌*◌, ◌%◌, ◌^◌, Bool, true, false, not, ◌&&◌, ◌||◌, Option, none, some, List,
  [], ◌∷◌, ◌++◌, length, keep, get_elem?, ltb, ◌==◌, if◌then◌else◌, is_lt, is_le, is_ge,
}
use flushdb.Base.Bytes.{Bytes, bytes_eq, compare_bytes}
use flushdb.Error.{FlushResult, ok, err, invalid_argument, ◌>>=◌}
use flushdb.Key.{CompositeKey}
use flushdb.Search.{partition_point}

pub data Level : Type 0 where
  l0 l1 l2 l3 : Level

abbrev pub same_level : Level → Level → Bool
same_level l0 l0 = true
same_level l1 l1 = true
same_level l2 l2 = true
same_level l3 l3 = true
same_level _ _ = false

-- `Level::next`
unfoldable pub next_level : Level → Option Level
next_level l0 = some l1
next_level l1 = some l2
next_level l2 = some l3
next_level l3 = none

unfoldable pub is_bottom : Level → Bool
is_bottom l3 = true
is_bottom _ = false

unfoldable pub max_size_bytes : Level → ℕ
max_size_bytes l0 = 0
max_size_bytes l1 = 256 * 1024 * 1024
max_size_bytes l2 = 2560 * 1024 * 1024
max_size_bytes l3 = 25600 * 1024 * 1024

unfoldable pub is_overlapping : Level → Bool
is_overlapping l0 = true
is_overlapping _ = false

-- Strings are their bytes.
pub record SstableMeta : Type 0 where
  pub id : Bytes
  pub size_bytes : ℕ
  pub entry_count : ℕ
  pub min_key : Bytes
  pub max_key : Bytes
  pub bloom_filter_offset : ℕ
  pub bloom_filter_size : ℕ
  pub index_offset : ℕ
  pub index_size : ℕ
  pub created_at_ms : ℕ
  pub sequence_range : ℕ × ℕ
  pub record_id_count : ℕ
  pub run_id : Option Bytes
  pub fragment_index : Option ℕ
  pub dedup_block_size : ℕ

unfoldable pub contains_key : CompositeKey → SstableMeta → Bool
contains_key key m = is_ge (compare_bytes key m.min_key) && is_le (compare_bytes key m.max_key)

unfoldable pub overlaps_range : Bytes → Bytes → SstableMeta → Bool
overlaps_range start end m =
    not (is_lt (compare_bytes m.max_key start) || is_lt (compare_bytes end m.min_key))

-- `self.overlaps(other)`
unfoldable pub overlaps : SstableMeta → SstableMeta → Bool
unfolding overlaps_range
overlaps other self = overlaps_range other.min_key other.max_key self

pub record BlobFileMeta : Type 0 where
  pub id : Bytes
  pub size_bytes : ℕ
  pub live_bytes : ℕ
  pub entry_count : ℕ
  pub referenced_by_ssts : List Bytes

-- A level that the map lacks counts as empty, as every reader of the map takes it.
abbrev pub Levels : Type 0
Levels = Level → List SstableMeta

pub record Manifest : Type 0 where
  pub format_version : ℕ
  pub manifest_id : ℕ
  pub writer_epoch : ℕ
  pub compactor_epoch : ℕ
  pub namespace : Bytes
  pub created_at_ms : ℕ
  pub last_flushed_sequence : ℕ
  pub levels : Levels
  pub blob_files : List BlobFileMeta
  pub tombstone_compaction_watermarks : Level → Option ℕ
  pub previous_manifest_id : ℕ
  pub is_snapshot : Bool

unfoldable pub new_empty : Bytes → ℕ → Manifest
new_empty namespace now = record {
  format_version = 1;
  manifest_id = 0;
  writer_epoch = 0;
  compactor_epoch = 0;
  namespace = namespace;
  created_at_ms = now;
  last_flushed_sequence = 0;
  levels = λ _. [];
  blob_files = [];
  tombstone_compaction_watermarks = λ _. none;
  previous_manifest_id = 0;
  is_snapshot = false;
}

unfoldable pub sstables_at_level : Manifest → Level → List SstableMeta
sstables_at_level m level = m.levels level

unfoldable pub l0_count : Manifest → ℕ
unfolding sstables_at_level
l0_count m = length (sstables_at_level m l0)

abbrev pub total_size : List SstableMeta → ℕ
total_size [] = 0
total_size (m ∷ ms) = m.size_bytes + total_size ms

unfoldable pub level_size_bytes : Manifest → Level → ℕ
unfolding sstables_at_level
level_size_bytes m level = total_size (sstables_at_level m level) % 2 ^ 64

unfoldable pub total_sstable_count : Manifest → ℕ
total_sstable_count m =
    length (m.levels l0) + length (m.levels l1) + length (m.levels l2) + length (m.levels l3)

unfoldable pub find_overlapping : Manifest → Level → Bytes → Bytes → List SstableMeta
unfolding sstables_at_level
find_overlapping m level start end = keep (overlaps_range start end) (sstables_at_level m level)

-- `Iterator::find`
abbrev pub find : (SstableMeta → Bool) → List SstableMeta → Option SstableMeta
find test [] = none
find test (m ∷ ms) = elim (test m) [ true ↦ some m | false ↦ find test ms ]

-- `m.max_key < kb`
abbrev pub ends_before : CompositeKey → SstableMeta → Bool
ends_before key m = is_lt (compare_bytes m.max_key key)

abbrev pub if_contains : CompositeKey → Option SstableMeta → Option SstableMeta
if_contains key none = none
if_contains key (some m) = if contains_key key m then some m else none

-- An empty level has no candidate on either way.
unfoldable pub find_sstable_for_key : Manifest → Level → CompositeKey → Option SstableMeta
unfolding sstables_at_level
find_sstable_for_key m level key =
    let ssts = sstables_at_level m level in
    if is_overlapping level
    then find (contains_key key) ssts
    else if_contains key (get_elem? ssts (partition_point (ends_before key) ssts))

pub data ManifestUpdateTrigger : Type 0 where
  flush compaction gc : ManifestUpdateTrigger

pub record ManifestUpdate : Type 0 where
  pub trigger : ManifestUpdateTrigger
  pub add_sstables : List (Level × SstableMeta)
  pub remove_sstables : List (Level × Bytes)
  pub new_last_flushed_sequence : Option ℕ
  pub writer_epoch : ℕ
  pub compactor_epoch : ℕ

abbrev pub set_level : Level → List SstableMeta → Levels → Levels
set_level level ssts levels = λ other. if same_level level other then ssts else levels other

abbrev pub cons_option : SstableMeta → Option (List SstableMeta) → Option (List SstableMeta)
cons_option m none = none
cons_option m (some ms) = some (m ∷ ms)

-- `position` and `remove`: without the first table of the id, if there is one.
unfoldable pub remove_id : Bytes → List SstableMeta → Option (List SstableMeta)
remove_id id [] = none
remove_id id (m ∷ ms) =
    let later = remove_id id ms in if bytes_eq m.id id then some ms else cons_option m later

abbrev pub found_or : Option (List SstableMeta) → FlushResult (List SstableMeta)
found_or none = err (invalid_argument "cannot remove SSTable: not found")
found_or (some ssts) = ok ssts

-- `for (level, id) in &self.remove_sstables`
unfoldable pub remove_all : List (Level × Bytes) → Levels → FlushResult Levels
unfolding remove_id
remove_all [] levels = ok levels
remove_all ((level, id) ∷ later) levels = do
  ssts ← found_or (remove_id id (levels level))
  remove_all later (set_level level ssts levels)

-- `sort_by` on the least keys, which is stable.
unfoldable pub insert_sorted : SstableMeta → List SstableMeta → List SstableMeta
insert_sorted x [] = x ∷ []
insert_sorted x (y ∷ ys) =
    let later = insert_sorted x ys in
    if is_le (compare_bytes x.min_key y.min_key) then x ∷ y ∷ ys else y ∷ later

unfoldable pub sort_by_min_key : List SstableMeta → List SstableMeta
unfolding insert_sorted
sort_by_min_key [] = []
sort_by_min_key (x ∷ xs) = insert_sorted x (sort_by_min_key xs)

unfoldable pub add_one : Level → SstableMeta → List SstableMeta → List SstableMeta
unfolding sort_by_min_key
add_one level meta ssts =
    let pushed = ssts ++ (meta ∷ []) in
    if not (is_overlapping level) then sort_by_min_key pushed else pushed

-- `for (level, meta) in &self.add_sstables`
unfoldable pub add_all : List (Level × SstableMeta) → Levels → Levels
unfolding add_one
add_all [] levels = levels
add_all ((level, meta) ∷ later) levels =
    add_all later (set_level level (add_one level meta (levels level)) levels)

unfoldable pub next_sequence : Option ℕ → ℕ → FlushResult ℕ
next_sequence none current = ok current
next_sequence (some seq) current =
    if ltb seq current
    then err (invalid_argument "cannot decrease last_flushed_sequence")
    else ok seq

-- `ManifestUpdate::apply`, with the time of the call.
unfoldable pub apply : ManifestUpdate → ℕ → Manifest → FlushResult Manifest
unfolding remove_all add_all next_sequence
apply u now current = do
  removed ← remove_all u.remove_sstables current.levels
  seq ← next_sequence u.new_last_flushed_sequence current.last_flushed_sequence
  ok (record {
    format_version = current.format_version;
    manifest_id = (current.manifest_id + 1) % 2 ^ 64;
    writer_epoch = u.writer_epoch;
    compactor_epoch = u.compactor_epoch;
    namespace = current.namespace;
    created_at_ms = now;
    last_flushed_sequence = seq;
    levels = add_all u.add_sstables removed;
    blob_files = current.blob_files;
    tombstone_compaction_watermarks = current.tombstone_compaction_watermarks;
    previous_manifest_id = current.manifest_id;
    is_snapshot = current.is_snapshot;
  })
