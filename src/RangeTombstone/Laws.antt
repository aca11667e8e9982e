-- ===== src/RangeTombstone/Laws.antt =====
-- What the index of range tombstones promises: it stays sorted, it returns the tombstones of a
-- record, and `covers` finds a covering one wherever it stands.
use flushdb.Base.{
  Option-cases, Ordering, All-imp, ℕ, zero, suc, ◌+◌, ◌-◌, ◌≡◌, ◌<◌, ◌≤◌, refl, sym, ◌∙◌, ap, Bool,
  true, false, [], ◌∷◌, arith, All, is_le, is_eq, keep, any, length, get_elem?, slice, take, drop,
  insert_at, ◌&&◌, ◌||◌, ltb, leb, inl, inr, Bool-cases, Ordering-cases,
}
use flushdb.Base.Bytes.{Bytes, compare_bytes, bytes_eq}
use Prim.Native.Nat.Ordering.{gt}
use flushdb.Search.{SearchResult, found, missing, cmp_at, position}
use flushdb.Search.Laws.{Answers}
use flushdb.RangeTombstone.{
  RangeTombstone, RangeTombstoneIndex, compare_tombstones, add, has_record, walk_backward,
  walk_forward, tombstones_for_record, in_range, covers_among, covers,
}
use flushdb.RangeTombstone.Split.{
  Split, cut_found, not_gt, not_lt, position_between, answer_between, search-Answers,
}
use flushdb.RangeTombstone.Order.{
  follows, SortedIndex, eq_sym, equal_equal, equal_greater, gt_trans, SortedIndex-Mono,
  SortedIndex-Mono_record, insert_at-SortedIndex,
}
use flushdb.Base.{Option-cases}
use Prim.Native.Nat.{Ordering}

-- Adding a tombstone keeps a sorted index sorted.
pub add-SortedIndex :
    (t : RangeTombstone) (ts : RangeTombstoneIndex) → SortedIndex ts → SortedIndex (add t ts)
unfolding add
add-SortedIndex t ts s =
    let (a, s') = cut_found (λ u. compare_tombstones u t) ts (SortedIndex-Mono t ts s) in
    let (b, sp) = s' in
    let (l, r) = position_between (λ u. compare_tombstones u t) ts a b sp in
    insert_at-SortedIndex t ts _ s (λ j h. not_gt _ ts a b sp j (omega arith))
      (λ j h. not_lt _ ts a b sp j (omega arith))

module _ (r : Bytes) (ts : RangeTombstoneIndex) where
  abbrev record_cmp : RangeTombstone → Ordering
  record_cmp u = compare_bytes u.record_id r

  has_record-cmp : (j : ℕ) → has_record r ts j ≡ is_eq (cmp_at record_cmp ts j)
  unfolding has_record cmp_at bytes_eq
  has_record-cmp j = elim (Option-cases (get_elem? ts j)) [
    | inl e ↦ rw (has_record, cmp_at, e) refl
    | inr (u, e) ↦ rw (has_record, cmp_at, e) refl
  ]

  module _ (a b : ℕ) (s : Split record_cmp ts a b) where
    walk_backward_lem : (i : ℕ) → a ≤ i → i ≤ b → walk_backward r ts i ≡ a
    unfolding walk_backward
    walk_backward_lem zero h k = omega arith
    walk_backward_lem (suc i) h k = elim (Bool-cases (leb a i)) [
      | inl l ↦
          let e : has_record r ts i ≡ true =
            rw (has_record-cmp i, s.among i (ground arith) (omega arith)) refl in
          rw e (walk_backward_lem i (ground arith) (omega arith))
      | inr l ↦
          let e : has_record r ts i ≡ false =
            rw (has_record-cmp i, s.before i (ground arith)) refl in
          rw e (ground arith)
    ]

    walk_forward_lem : (fuel i : ℕ) → a ≤ i → i ≤ b → b ≤ i + fuel → walk_forward r ts fuel i ≡ b
    unfolding walk_forward
    walk_forward_lem zero i h k l = omega arith
    walk_forward_lem (suc fuel) i h k l = elim (Bool-cases (ltb i b)) [
      | inl m ↦
          let e : has_record r ts i ≡ true =
            rw (has_record-cmp i, s.among i h (ground arith)) refl in
          let p : ltb i (length ts) ≡ true = ground (arith, s.inside) in
          rw (p, e) (walk_forward_lem fuel (i + 1) (omega arith) (ground arith) (omega arith))
      | inr m ↦
          let e : has_record r ts i ≡ false =
            rw (has_record-cmp i, s.behind i (ground arith)) refl in
          ground (arith, e)
    ]

    found_lem :
        (res : SearchResult)
        → Answers (cmp_at record_cmp ts) (length ts) res
        → (elim res [
          | missing i ↦ []
          | found anchor ↦
              slice (walk_backward r ts anchor) (walk_forward r ts (length ts) (anchor + 1)) ts
        ])
          ≡ keep (λ u. bytes_eq u.record_id r) ts
    unfolding bytes_eq slice position
    found_lem (found i) h =
        let (l, u) = answer_between _ ts a b s (found i) h in
        let k : i < b = elim (Bool-cases (ltb i b)) [
          | inl k ↦ ground arith
          | inr k ↦ cc (h.1, s.behind i (ground arith))
        ] in
        rw
          (
            walk_backward_lem i l u,
            walk_forward_lem (length ts) (i + 1) (omega arith) (omega arith)
                (omega (arith, s.inside)),
          )
          s.kept
    found_lem (missing i) h =
        let e : b - a ≡ 0 = elim (Bool-cases (ltb a b)) [
          | inl k ↦
              let q = s.among a (omega arith) (ground arith) in
              elim (Bool-cases (ltb a i)) [
                | inl m ↦ cc (q, h.1 a (ground arith))
                | inr m ↦ cc (q, h.2 a (ground arith) (ground (arith, s.inside)))
              ]
          | inr k ↦ ground arith
        ] in
        let z : take (b - a) (drop a ts) ≡ [] = rw (e, take) refl in sym z ∙ s.kept

-- On a sorted index the lookup by binary search returns the tombstones of the record, in their
-- order.
pub tombstones_for_record_lem :
    (r : Bytes) (ts : RangeTombstoneIndex)
    → SortedIndex ts
    → tombstones_for_record r ts ≡ keep (λ u. bytes_eq u.record_id r) ts
unfolding tombstones_for_record
tombstones_for_record_lem r ts s =
    let (a, s') =
      cut_found (λ u. compare_bytes u.record_id r) ts (SortedIndex-Mono_record r ts s) in
    let (b, sp) = s' in found_lem r ts a b sp _ (search-Answers _ ts a b sp)

-- A tombstone covers the entry: it is of the record, the item key lies in its range, and it is newer.
unfoldable pub covers_one : Bytes → Bytes → ℕ → RangeTombstone → Bool
covers_one r k seq t =
    bytes_eq t.record_id r
    && (is_le (compare_bytes t.start_key k) && (in_range t k && ltb seq t.sequence_number))

any_none :
    (p : RangeTombstone → Bool) (ts : RangeTombstoneIndex)
    → All (λ u. p u ≡ false) ts
    → any p ts ≡ false
any_none p [] h = refl
any_none p (t ∷ ts) h = rw (any, h.0) (any_none p ts h.1)

start_behind :
    (r k : Bytes) (seq : ℕ) (t u : RangeTombstone)
    → follows t u ≡ true
    → bytes_eq t.record_id r ≡ true
    → compare_bytes t.start_key k ≡ gt
    → covers_one r k seq u ≡ false
unfolding follows covers_one compare_tombstones bytes_eq
start_behind r k seq t u h e g = ground (
  arith,
  eq_sym t.record_id r,
  equal_equal u.record_id r t.record_id,
  gt_trans u.start_key t.start_key k,
  equal_greater u.start_key t.start_key k,
)

covers_among-any :
    (r k : Bytes) (seq : ℕ) (ts : RangeTombstoneIndex)
    → SortedIndex ts
    → covers_among k seq (keep (λ u. bytes_eq u.record_id r) ts) ≡ any (covers_one r k seq) ts
unfolding covers_among covers_one
covers_among-any r k seq [] s = refl
covers_among-any r k seq (t ∷ ts) s = elim (Bool-cases (bytes_eq t.record_id r)) [
  | inr n ↦ rw (keep, any, n) (covers_among-any r k seq ts s.1)
  | inl e ↦ elim (Ordering-cases (compare_bytes t.start_key k)) [
    | inr (inr g) ↦
        let none_behind =
          any_none _ ts (All-imp _ _ (λ u h. start_behind r k seq t u h e g) ts s.0) in
        rw (keep, any, e, g, none_behind) refl
    | inr (inl q) ↦
        let later = covers_among-any r k seq ts s.1 in rw (keep, any, e, q) (ground (arith, later))
    | inl l ↦
        let later = covers_among-any r k seq ts s.1 in rw (keep, any, e, l) (ground (arith, later))
  ]
]

-- On a sorted index an entry is covered exactly when some tombstone of the index covers it.
pub covers-any :
    (r k : Bytes) (seq : ℕ) (ts : RangeTombstoneIndex)
    → SortedIndex ts
    → covers r k seq ts ≡ any (covers_one r k seq) ts
unfolding covers
covers-any r k seq ts s =
    ap (covers_among k seq) (tombstones_for_record_lem r ts s) ∙ covers_among-any r k seq ts s

any-insert_at :
    (p : RangeTombstone → Bool) (t : RangeTombstone) (i : ℕ) (ts : RangeTombstoneIndex)
    → any p (insert_at i t ts) ≡ p t || any p ts
any-insert_at p t zero ts = refl
any-insert_at p t (suc i) [] = refl
any-insert_at p t (suc i) (u ∷ ts) = ground (arith, any-insert_at p t i ts)

-- After an addition to a sorted index exactly the entries are covered that the new tombstone covers
-- or that were covered before.
pub covers-add :
    (r k : Bytes) (seq : ℕ) (t : RangeTombstone) (ts : RangeTombstoneIndex)
    → SortedIndex ts
    → covers r k seq (add t ts) ≡ covers_one r k seq t || covers r k seq ts
unfolding add
covers-add r k seq t ts s =
    covers-any r k seq (add t ts) (add-SortedIndex t ts s)
    ∙ (any-add ∙ ap (λ b. covers_one r k seq t || b) (sym (covers-any r k seq ts s)))
  where
    any-add :
        any (covers_one r k seq) (add t ts) ≡ covers_one r k seq t || any (covers_one r k seq) ts
    any-add = any-insert_at (covers_one r k seq) t _ ts
