-- ===== src/SkipList/Read/Scan.antt =====
-- Range scans of the skip list (`range` of crates/flushdb-engine/src/skiplist.rs).
use flushdb.Base.{
  ℕ, ◌≡◌, refl, sym, ◌∙◌, Bool, false, not, ◌&&◌, List, [], ◌∷◌, arith, All, inl, inr, Bool-cases,
  length, keep, is_lt,
}
use flushdb.Key
use flushdb.Key.{CompositeKey}
use flushdb.Entry.{MemtableEntry}
use flushdb.SkipList.{SkipList}
use flushdb.SkipList.Chain.{Chain, entries, Skip, here, over, Falls}
use flushdb.SkipList.Search.{length-Skip}
use flushdb.SkipList.Ordered.{Sorted-Falls_key}
use flushdb.SkipList.Refine.{IsSkipList}
use flushdb.SkipList.Read.{key_below, before_key, stops, iterator, iter, range}
use flushdb.SkipList.Read.Laws.{
  take_while, iterate-take_while, sought, behind, none_below, seek_to-first, Skip-Sorted,
  iter-entries,
}

-- The key lies in the interval from `start` up to, not including, `end`.
abbrev pub within : CompositeKey → CompositeKey → MemtableEntry → Bool
within start end e = not (key_below start e) && key_below end e

keep-Skip :
    (start end : CompositeKey) {i u : ℕ} {chain after : Chain}
    → Skip (key_below start) i chain u after
    → keep (within start end) (entries chain) ≡ keep (within start end) (entries after)
keep-Skip start end here = refl
keep-Skip start end (over b p) = ground (arith, b, keep-Skip start end p)

keep_none :
    (start end : CompositeKey) (es : List MemtableEntry)
    → All (λ x. key_below end x ≡ false) es
    → keep (within start end) es ≡ []
keep_none start end [] a = refl
keep_none start end (e ∷ es) a = ground (arith, a.0, keep_none start end es a.1)

take_while-keep :
    (start end : CompositeKey) (es : List MemtableEntry)
    → Falls (key_below end) es
    → All (λ x. key_below start x ≡ false) es
    → take_while (λ e. not (stops (before_key end) e)) es ≡ keep (within start end) es
unfolding stops key_below
take_while-keep start end [] f a = refl
take_while-keep start end (e ∷ es) f a = elim (Bool-cases (is_lt (Key.cmp e.composite_key end))) [
  | inl h ↦ ground (arith, h, a.0, take_while-keep start end es f.1 a.1)
  | inr h ↦ ground (arith, h, keep_none start end es (f.0 h))
]

-- In a well-formed skip list a range scan yields, in order, exactly the entries whose key lies in
-- the half-open interval.
pub range-iter :
    (start end : CompositeKey) (s : SkipList)
    → IsSkipList s
    → range start end s ≡ keep (within start end) (iter s)
unfolding range iterator
range-iter start end s v =
    rw (iter-entries s v, seek_to-first s v start)
      (iterate-take_while s.nodes (before_key end) (length s.nodes) _ _
          (omega (arith, length-Skip (sought s v start).skipped, v.counted, v.node_count))
          (behind s v start)
        ∙ take_while-keep start end _
            (Sorted-Falls_key end _ (Skip-Sorted (sought s v start).skipped v.sorted))
            (none_below s v start)
        ∙ sym (keep-Skip start end (sought s v start).skipped))
