-- ===== src/RangeTombstone.antt =====
-- The index of range tombstones of crates/flushdb-engine/src/range_tombstone.rs.
pub mod Split
pub mod Order
pub mod Laws
use flushdb.Base.{ℕ, zero, suc, ◌+◌, ◌-◌, Bool, true, false, List, [], ◌∷◌, Option, none, some}
use flushdb.Base.{length, is_empty, get_elem?, slice, insert_at, ltb, if◌then◌else◌, ◌&&◌, ◌||◌}
use flushdb.Base.{Ordering, then_cmp, is_lt, is_le}
use flushdb.Base.Bytes.{Bytes, compare_bytes, bytes_eq}
use flushdb.Search.{SearchResult, found, missing, binary_search_by, position, is_gt}

pub record RangeTombstone : Type 0 where
  pub record_id : Bytes
  pub start_key : Bytes
  pub end_key : Bytes
  pub sequence_number : ℕ

unfoldable pub compare_tombstones : RangeTombstone → RangeTombstone → Ordering
compare_tombstones a b =
    then_cmp (compare_bytes a.record_id b.record_id) (compare_bytes a.start_key b.start_key)

-- The struct is its vector.
abbrev pub RangeTombstoneIndex : Type 0
RangeTombstoneIndex = List RangeTombstone

unfoldable pub new : RangeTombstoneIndex
new = []

unfoldable pub add : RangeTombstone → RangeTombstoneIndex → RangeTombstoneIndex
unfolding compare_tombstones binary_search_by position
add tombstone tombstones =
    insert_at
      (position (binary_search_by (λ existing. compare_tombstones existing tombstone) tombstones))
      tombstone tombstones

-- `self.tombstones[i].record_id == record_id`, false out of range
unfoldable pub has_record : Bytes → RangeTombstoneIndex → ℕ → Bool
has_record record_id tombstones i = elim (get_elem? tombstones i) [
  | none ↦ false
  | some ts ↦ bytes_eq ts.record_id record_id
]

-- The two `while` loops; a walk forward leaves the vector in at most as many steps as it has.
unfoldable pub walk_backward : Bytes → RangeTombstoneIndex → ℕ → ℕ
unfolding has_record
walk_backward record_id tombstones zero = zero
walk_backward record_id tombstones (suc i) =
    let rest = walk_backward record_id tombstones i in
    if has_record record_id tombstones i then rest else suc i

unfoldable pub walk_forward : Bytes → RangeTombstoneIndex → ℕ → ℕ → ℕ
unfolding has_record
walk_forward record_id tombstones zero i = i
walk_forward record_id tombstones (suc fuel) i =
    let rest = walk_forward record_id tombstones fuel (i + 1) in
    if ltb i (length tombstones) && has_record record_id tombstones i then rest else i

unfoldable pub tombstones_for_record : Bytes → RangeTombstoneIndex → List RangeTombstone
unfolding binary_search_by walk_backward walk_forward slice
tombstones_for_record record_id tombstones =
    elim (binary_search_by (λ ts. compare_bytes ts.record_id record_id) tombstones) [
      | missing i ↦ []
      | found anchor ↦
          slice (walk_backward record_id tombstones anchor)
            (walk_forward record_id tombstones (length tombstones) (anchor + 1)) tombstones
    ]

-- `ts.end_key.is_empty() || item_key < ts.end_key`
unfoldable pub in_range : RangeTombstone → Bytes → Bool
in_range ts item_key = is_empty ts.end_key || is_lt (compare_bytes item_key ts.end_key)

-- The `for` loop of `covers`, with its early return and its break.
unfoldable pub covers_among : Bytes → ℕ → List RangeTombstone → Bool
unfolding in_range
covers_among item_key entry_sequence [] = false
covers_among item_key entry_sequence (ts ∷ rest) =
    let later = covers_among item_key entry_sequence rest in
    if is_le (compare_bytes ts.start_key item_key)
      && (in_range ts item_key && ltb entry_sequence ts.sequence_number)
    then true
    else if is_gt (compare_bytes ts.start_key item_key)
    then false
    else later

unfoldable pub covers : Bytes → Bytes → ℕ → RangeTombstoneIndex → Bool
unfolding covers_among tombstones_for_record
covers record_id item_key entry_sequence tombstones =
    covers_among item_key entry_sequence (tombstones_for_record record_id tombstones)
