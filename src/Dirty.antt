-- ===== src/Dirty.antt =====
-- The tracker of dirty log segments: crates/flushdb-wal/src/dirty_tracker.rs. A hash map is an
-- association list with one pair for each key. The creation times, which the tests by age read, are
-- left out.
pub mod Laws
use flushdb.Base.{
  ℕ, Bool, true, false, not, ◌&&◌, List, [], ◌∷◌, Option, none, some, keep, any, is_empty, ltb, leb,
  ◌==◌, if◌then◌else◌,
}

-- `HashMap::get`, `HashMap::insert` and `HashMap::remove`
unfoldable pub lookup {ℓ} : {A : Type ℓ} → ℕ → List (ℕ × A) → Option A
lookup k [] = none
lookup k ((key, a) ∷ rest) = let later = lookup k rest in if key == k then some a else later

unfoldable pub store {ℓ} : {A : Type ℓ} → ℕ → A → List (ℕ × A) → List (ℕ × A)
store k v [] = (k, v) ∷ []
store k v ((key, a) ∷ rest) =
    let later = store k v rest in if key == k then (k, v) ∷ rest else (key, a) ∷ later

unfoldable pub discard {ℓ} : {A : Type ℓ} → ℕ → List (ℕ × A) → List (ℕ × A)
discard k = keep (λ p. not (p.0 == k))

abbrev pub GenMap : Type 0
GenMap = List (ℕ × ℕ)

-- The field `dirty_maps`.
abbrev pub DirtySegmentTracker : Type 0
DirtySegmentTracker = List (ℕ × GenMap)

unfoldable pub new : DirtySegmentTracker
new = []

unfoldable pub map_of : ℕ → DirtySegmentTracker → GenMap
unfolding lookup
map_of segment t = elim (lookup segment t) [ none ↦ [] | some m ↦ m ]

unfoldable pub highest : ℕ → GenMap → ℕ
unfolding lookup
highest generation m = elim (lookup generation m) [ none ↦ 0 | some n ↦ n ]

unfoldable pub record_write : ℕ → ℕ → ℕ → DirtySegmentTracker → DirtySegmentTracker
unfolding map_of highest store
record_write segment_number generation_id sequence_number t =
    let gen_map = map_of segment_number t in
    let current = highest generation_id gen_map in
    store segment_number
      (store generation_id (if ltb current sequence_number then sequence_number else current)
        gen_map)
      t

-- `sort` on numbers.
unfoldable pub sort_in : ℕ → List ℕ → List ℕ
sort_in n [] = n ∷ []
sort_in n (x ∷ xs) = let rest = sort_in n xs in if leb n x then n ∷ x ∷ xs else x ∷ rest

unfoldable pub sort : List ℕ → List ℕ
unfolding sort_in
sort [] = []
sort (n ∷ ns) = sort_in n (sort ns)

-- The segments whose test holds.
unfoldable pub segments_where : (GenMap → Bool) → DirtySegmentTracker → List ℕ
segments_where test [] = []
segments_where test ((segment, m) ∷ rest) =
    let later = segments_where test rest in if test m then segment ∷ later else later

-- `was_present && gen_map.is_empty()`
unfoldable pub becomes_clean : ℕ → GenMap → Bool
unfolding discard
becomes_clean generation_id m =
    any (λ p. p.0 == generation_id) m && is_empty (discard generation_id m)

unfoldable pub without : ℕ → DirtySegmentTracker → DirtySegmentTracker
unfolding discard
without generation_id [] = []
without generation_id ((segment, m) ∷ rest) =
    (segment, discard generation_id m) ∷ without generation_id rest

unfoldable pub mark_generation_flushed : ℕ → DirtySegmentTracker → List ℕ × DirtySegmentTracker
unfolding sort segments_where becomes_clean without
mark_generation_flushed generation_id t =
    (sort (segments_where (becomes_clean generation_id) t), without generation_id t)

unfoldable pub is_segment_clean : ℕ → DirtySegmentTracker → Bool
unfolding lookup
is_segment_clean segment_number t = elim (lookup segment_number t) [
  | none ↦ true
  | some gen_map ↦ is_empty gen_map
]

unfoldable pub deletable_segments : DirtySegmentTracker → List ℕ
unfolding sort segments_where
deletable_segments t = sort (segments_where is_empty t)

unfoldable pub all_dirty_segments : DirtySegmentTracker → List ℕ
unfolding sort segments_where
all_dirty_segments t = sort (segments_where (λ m. not (is_empty m)) t)

unfoldable pub keys_of : GenMap → List ℕ
keys_of [] = []
keys_of ((generation, n) ∷ rest) = generation ∷ keys_of rest

unfoldable pub dirty_generation_ids : ℕ → DirtySegmentTracker → List ℕ
unfolding lookup sort keys_of
dirty_generation_ids segment_number t = elim (lookup segment_number t) [
  | none ↦ []
  | some gen_map ↦ sort (keys_of gen_map)
]

unfoldable pub remove_segment : ℕ → DirtySegmentTracker → DirtySegmentTracker
unfolding discard
remove_segment segment_number t = discard segment_number t

unfoldable pub needs_size_flush : ℕ → ℕ → Bool
needs_size_flush total_wal_size threshold = ltb threshold total_wal_size
