-- ===== src/Dirty/Laws.antt =====
-- A segment with entries that are not flushed is not clean (crates/flushdb-wal/src/dirty_tracker.rs).
use flushdb.Base.{
  ℕ, ◌≡◌, ◌≢◌, refl, ◌∙◌, false, List, [], ◌∷◌, some, is_empty, arith, if◌then◌else◌, ltb,
}
use flushdb.Dirty.{
  GenMap, DirtySegmentTracker, lookup, store, discard, map_of, highest, record_write, without,
  mark_generation_flushed, is_segment_clean,
}

module _ {ℓ} {A : Type ℓ} where
  lookup-store_same : (k : ℕ) (v : A) (m : List (ℕ × A)) → lookup k (store k v m) ≡ some v
  unfolding lookup store
  lookup-store_same k v [] = ground arith
  lookup-store_same k v (p ∷ m) = ground (arith, lookup-store_same k v m)

  lookup-discard : (g k : ℕ) (m : List (ℕ × A)) → k ≢ g → lookup k (discard g m) ≡ lookup k m
  unfolding lookup discard
  lookup-discard g k [] d = refl
  lookup-discard g k (p ∷ m) d = ground (arith, lookup-discard g k m d)

lookup-without :
    (g s : ℕ) (t : DirtySegmentTracker) (m : GenMap)
    → lookup s t ≡ some m
    → lookup s (without g t) ≡ some (discard g m)
unfolding lookup without
lookup-without g s [] m h = cc
lookup-without g s ((segment, gens) ∷ t) m h = ground (arith, lookup-without g s t m)

not_empty : (k : ℕ) (m : GenMap) {n : ℕ} → lookup k m ≡ some n → is_empty m ≡ false
unfolding lookup
not_empty k [] h = cc
not_empty k (p ∷ m) h = refl

-- After a write of a generation to a segment, flushing a different generation does not make the
-- segment clean.
pub write-pins :
    (segment generation other seq : ℕ) (t : DirtySegmentTracker)
    → generation ≢ other
    → is_segment_clean segment
        (mark_generation_flushed other (record_write segment generation seq t)).1
      ≡ false
unfolding is_segment_clean mark_generation_flushed record_write
write-pins segment generation other seq t d =
    let m = map_of segment t in
    let n = if ltb (highest generation m) seq then seq else highest generation m in
    let at = lookup-store_same segment (store generation n m) t in
    let after = lookup-without other segment (store segment (store generation n m) t) _ at in
    let kept =
      lookup-discard other generation (store generation n m) d ∙ lookup-store_same generation n m in
    rw (is_segment_clean, after) (not_empty generation (discard other (store generation n m)) kept)
