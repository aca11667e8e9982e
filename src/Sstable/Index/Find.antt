-- ===== src/Sstable/Index/Find.antt =====
-- The block that an index names for a key.
use flushdb.Base.{
  ℕ, ◌+◌, ◌-◌, ◌<◌, ◌≤◌, ◌≡◌, ◌↔◌, true, false, Option, none, some, arith, Bool, ltb, ◌==◌,
  if◌then◌else◌, is_le, Bool-cases, inl, inr,
}
use flushdb.Base.Bytes.{le_trans_bytes, compare_bytes}
use flushdb.Key.{CompositeKey}
use flushdb.Search.{partition_point, holds_at}
use flushdb.Search.Partition.{
  Pairwise, Pairwise-IsPartitioned, IsPartitioned, partition_point-Parts,
}
use flushdb.Sstable.Index.{IndexEntry, IndexBlock, starts_by, find_block_index}

-- `first_key <= first_key`
abbrev pub StartsBefore : IndexEntry → IndexEntry → Type 0
StartsBefore a b = is_le (compare_bytes a.first_key b.first_key) ≡ true

starts_by-IsPartitioned :
    (entries : IndexBlock) (key : CompositeKey)
    → Pairwise StartsBefore entries
    → IsPartitioned (starts_by key) entries
starts_by-IsPartitioned entries key sorted =
    Pairwise-IsPartitioned (starts_by key)
      (λ x y r h. le_trans_bytes x.first_key y.first_key key r h) entries sorted

abbrev name_of : ℕ → Option ℕ
name_of point = if point == 0 then none else some (point - 1)

named : (point i : ℕ) → name_of point ≡ some i → i + 1 ≡ point
named point i h = ground arith

names : (point i : ℕ) → i + 1 ≡ point → name_of point ≡ some i
names point i h = ground arith

passes_inside :
    (test : ℕ → Bool) (point i : ℕ)
    → ((j : ℕ) → point ≤ j → test j ≡ false)
    → test i ≡ true
    → i < point
passes_inside test point i behind h = elim (Bool-cases (ltb i point)) [
  | inl inside ↦ ground arith
  | inr outside ↦ let b = behind i (ground arith) in absurd (ground (arith, b, h))
]

passes_outside :
    (test : ℕ → Bool) (point i : ℕ)
    → ((j : ℕ) → j < point → test j ≡ true)
    → test i ≡ false
    → point ≤ i
passes_outside test point i before h = elim (Bool-cases (ltb i point)) [
  | inl inside ↦ let b = before i (ground arith) in absurd (ground (arith, b, h))
  | inr outside ↦ ground arith
]

-- In an index whose blocks stand in the order of their first keys, the block that is named for a
-- key is the last one that starts at or before the key.
pub find_block_index_iff :
    (entries : IndexBlock) (key : CompositeKey) (i : ℕ)
    → Pairwise StartsBefore entries
    → (find_block_index entries key ≡ some i) ↔ (
        (holds_at (starts_by key) entries i ≡ true)
        × ((j : ℕ) → i < j → holds_at (starts_by key) entries j ≡ false))
unfolding find_block_index
find_block_index_iff entries key i sorted =
    let (_, before, behind) =
      partition_point-Parts (starts_by key) entries (starts_by-IsPartitioned entries key sorted) in
    let point = partition_point (starts_by key) entries in
    (
      λ h.
          let e : (i + 1 ≡ point) = named point i h in
          (before i (omega (arith, e)), λ j k. behind j (omega (arith, e, k))),
      λ h.
          let inside = passes_inside (holds_at (starts_by key) entries) point i behind h.0 in
          let last =
            passes_outside (holds_at (starts_by key) entries) point (i + 1) before
              (h.1 (i + 1) (omega arith)) in
          names point i (omega (arith, inside, last)),
    )

unnamed : (point : ℕ) → name_of point ≡ none → point ≡ 0
unnamed point h = ground arith

-- None is named only where no block starts at or before the key.
pub find_block_index_absent :
    (entries : IndexBlock) (key : CompositeKey)
    → Pairwise StartsBefore entries
    → find_block_index entries key ≡ none
    → (j : ℕ) → holds_at (starts_by key) entries j ≡ false
unfolding find_block_index
find_block_index_absent entries key sorted h j =
    let (_, before, behind) =
      partition_point-Parts (starts_by key) entries (starts_by-IsPartitioned entries key sorted) in
    let z = unnamed (partition_point (starts_by key) entries) h in behind j (omega (arith, z))
