-- ===== src/Compaction/Choice.antt =====
-- A stall of writes is met by a compaction of level 0, whose inputs and targets are complete.
use flushdb.Base.{
  ℕ, ◌+◌, ◌<◌, ◌≤◌, ◌≡◌, refl, ap, false, Option, none, some, List, [], ◌∷◌, arith, All, length,
  keep, leb, ltb, Bool-cases, inl, inr,
}
use flushdb.Base.Bytes.{Bytes}
use flushdb.Manifest.{
  l0, l1, l2, SstableMeta, Manifest, l0_count, sstables_at_level, find_overlapping, overlaps_range,
  overlaps,
}
use flushdb.Compaction.{
  CompactionConfig, CompactionTask, WriteStallStatus, normal, slowdown, stopped, combined_key_range,
  l0_task, check_l0_trigger, check_level_trigger, check_triggers, write_stall_status, push_task,
  l0_to_l1,
}
use flushdb.Compaction.Range.{
  Spans, Covers, combined-Covers, combined-Spans, keep-keep, overlaps_wider,
}

-- A nonempty level 0 has a range, and so a task.
range_of :
    (ssts : List SstableMeta)
    → 1 ≤ length ssts
    → (range : Bytes × Bytes) × (combined_key_range ssts ≡ some range)
unfolding combined_key_range
range_of [] h = absurd (omega arith)
range_of (m ∷ ms) h = (_, refl)

targets_of :
    (m : Manifest) (range : Bytes × Bytes) (inputs : List SstableMeta)
    → All (Covers range) inputs
    → All
        (λ i.
          keep (overlaps i) (find_overlapping m l1 (range.0) (range.1))
          ≡ keep (overlaps i) (sstables_at_level m l1))
        inputs
unfolding find_overlapping
targets_of m range [] a = tt
targets_of m range (i ∷ is) a = (
  keep-keep (overlaps i) (overlaps_range (range.0) (range.1)) (sstables_at_level m l1)
      (λ t h. overlaps_wider range i t a.0 h),
  targets_of m range is a.1,
)

-- The tasks that a compaction of level 0 may be: from level 0 to level 1, with all tables of level 0
-- as inputs, and as targets the tables of level 1 in the range of keys from the least key of an input
-- to the greatest key of one, among them every one that overlaps an input.
pub record IsL0Task (m : Manifest) (task : CompactionTask) : Type 0 where
  pub type_is : task.task_type ≡ l0_to_l1
  pub source_is : task.source_level ≡ l0
  pub target_is : task.target_level ≡ l1
  pub inputs_are : task.input_sstables ≡ sstables_at_level m l0
  pub range : Bytes × Bytes
  pub range_spans : Spans range (sstables_at_level m l0)
  pub targets_are : task.target_sstables ≡ find_overlapping m l1 (range.0) (range.1)
  pub no_target_left :
      All
        (λ i. keep (overlaps i) task.target_sstables ≡ keep (overlaps i) (sstables_at_level m l1))
        (sstables_at_level m l0)

l0_task-IsL0Task :
    (m : Manifest) (range : Bytes × Bytes)
    → combined_key_range (sstables_at_level m l0) ≡ some range
    → (task : CompactionTask) × (l0_task m (combined_key_range (sstables_at_level m l0))
        ≡ some task)
      × IsL0Task m task
unfolding l0_task
l0_task-IsL0Task m range e = (
  _,
  ap (l0_task m) e,
  record {
    type_is = refl;
    source_is = refl;
    target_is = refl;
    inputs_are = refl;
    range = range;
    range_spans = combined-Spans (sstables_at_level m l0) range e;
    targets_are = refl;
    no_target_left = targets_of m range _ (combined-Covers (sstables_at_level m l0) range e);
  },
)

first_of :
    (task : CompactionTask) (second third : Option CompactionTask)
    → (later : List CompactionTask) × (push_task (push_task (push_task [] (some task)) second) third
        ≡ task ∷ later)
first_of task none none = ([], refl)
first_of task none (some b) = (b ∷ [], refl)
first_of task (some a) none = (a ∷ [], refl)
first_of task (some a) (some b) = (a ∷ b ∷ [], refl)

check_l0-IsL0Task :
    (config : CompactionConfig) (m : Manifest)
    → config.l0_compaction_trigger < l0_count m
    → (task : CompactionTask) × (check_l0_trigger config m ≡ some task) × IsL0Task m task
unfolding check_l0_trigger l0_count
check_l0-IsL0Task config m h =
    let (range, e) = range_of (sstables_at_level m l0) (omega (arith, h)) in
    let (task, f, ok_task) = l0_task-IsL0Task m range e in
    let many : leb (length (sstables_at_level m l0)) config.l0_compaction_trigger ≡ false =
      ground arith in
    (task, rw many f, ok_task)

-- Where level 0 has more tables than its trigger, the first task is from level 0 to level 1, of all
-- tables of level 0, together with every table of level 1 that overlaps one of them.
pub check_triggers-IsL0Task :
    (config : CompactionConfig) (m : Manifest)
    → config.l0_compaction_trigger < l0_count m
    → (task : CompactionTask) × (later : List CompactionTask) × (check_triggers config m
        ≡ task ∷ later)
      × IsL0Task m task
unfolding check_triggers
check_triggers-IsL0Task config m h =
    let (task, e, ok_task) = check_l0-IsL0Task config m h in
    let (later, f) =
      first_of task (check_level_trigger config m l1) (check_level_trigger config m l2) in
    (task, later, rw e f, ok_task)

stopped_many :
    (config : CompactionConfig) (m : Manifest) (n : ℕ)
    → write_stall_status config m ≡ stopped n
    → config.l0_stop_trigger ≤ l0_count m
unfolding write_stall_status
stopped_many config m n h = elim (Bool-cases (leb config.l0_stop_trigger (l0_count m))) [
  | inl t ↦ ground arith
  | inr f ↦ elim (Bool-cases (ltb config.l0_slowdown_trigger (l0_count m))) [
    | inl t ↦ absurd (ground (arith, f, t, h))
    | inr g ↦ absurd (ground (arith, f, g, h))
  ]
]

-- If the trigger of a compaction of level 0 is below the limit at which writes stop, then whenever
-- writes are stopped the first task that is chosen has level 0 as its source and level 1 as its
-- target, all tables of level 0 as its inputs, and as its targets the tables of level 1 in a range
-- of keys, from the least key of an input to the greatest key of one, among them every one that
-- overlaps an input.
pub stopped-IsL0Task :
    (config : CompactionConfig) (m : Manifest) (n : ℕ)
    → config.l0_compaction_trigger < config.l0_stop_trigger
    → write_stall_status config m ≡ stopped n
    → (task : CompactionTask) × (later : List CompactionTask) × (check_triggers config m
        ≡ task ∷ later)
      × IsL0Task m task
stopped-IsL0Task config m n below h =
    check_triggers-IsL0Task config m (omega (arith, below, stopped_many config m n h))

-- What a status says of the number of tables.
abbrev pub Means : CompactionConfig → ℕ → WriteStallStatus → Type 0
Means config count normal = (count ≤ config.l0_slowdown_trigger) × (count < config.l0_stop_trigger)
Means config count (slowdown n delay) =
    (n ≡ count)
    × (config.l0_slowdown_trigger + delay ≡ count)
    × (1 ≤ delay)
    × (count < config.l0_stop_trigger)
Means config count (stopped n) = (n ≡ count) × (config.l0_stop_trigger ≤ count)

-- Writes are stopped from the one limit on; below it they are delayed by the excess over the other
-- limit, and not at all where there is none.
pub write_stall_status-Means :
    (config : CompactionConfig) (m : Manifest)
    → Means config (l0_count m) (write_stall_status config m)
unfolding write_stall_status
write_stall_status-Means config m = elim (Bool-cases (leb config.l0_stop_trigger (l0_count m))) [
  | inl t ↦ rw t (refl, ground arith)
  | inr f ↦ elim (Bool-cases (ltb config.l0_slowdown_trigger (l0_count m))) [
    | inl t ↦ rw (f, t) (refl, ground arith, ground arith, ground arith)
    | inr g ↦ rw (f, g) (ground arith, ground arith)
  ]
]
