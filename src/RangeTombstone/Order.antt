-- ===== src/RangeTombstone/Order.antt =====
-- The order in which the index keeps its tombstones: by record, then by start key, with equal ones
-- in any order.
use flushdb.Base.{ℕ, ◌≡◌, ◌≢◌, refl, Bool, true, [], ◌∷◌, arith, All, not, is_lt, All-imp}
use flushdb.Base.Bytes.{
  Bytes, compare_bytes, compare_bytes_refl, eq_of_compare_bytes, lt_of_gt_bytes, gt_of_lt_bytes,
  lt_trans_bytes,
}
use Prim.Native.Nat.Ordering.{lt, eq, gt}
use flushdb.RangeTombstone.{RangeTombstone, RangeTombstoneIndex, compare_tombstones}
use flushdb.Base.{Ordering-cases, inl, inr}
use flushdb.Search.{cmp_at}
use flushdb.Base.{zero, suc, insert_at, ◌<◌, ◌≤◌, All-append, All-take, All-drop, take, drop}
use flushdb.RangeTombstone.Split.{Mono}

-- The second one may stand behind the first.
unfoldable pub follows : RangeTombstone → RangeTombstone → Bool
unfolding compare_tombstones
follows a b = not (is_lt (compare_tombstones b a))

abbrev pub SortedIndex : RangeTombstoneIndex → Type 0
SortedIndex [] = Unit
SortedIndex (t ∷ ts) = All (λ u. follows t u ≡ true) ts × SortedIndex ts

-- Bytes compare as a total order; the steps that the proofs below chain.
module _ (a b c : Bytes) where
  pub equal_less : compare_bytes a b ≡ eq → compare_bytes b c ≡ lt → compare_bytes a c ≡ lt
  equal_less h k = rw (eq_of_compare_bytes a b h) k

  pub less_equal : compare_bytes a b ≡ lt → compare_bytes b c ≡ eq → compare_bytes a c ≡ lt
  less_equal h k = rw (← eq_of_compare_bytes b c k) h

  pub equal_equal : compare_bytes a b ≡ eq → compare_bytes b c ≡ eq → compare_bytes a c ≡ eq
  equal_equal h k = rw (eq_of_compare_bytes a b h) k

  pub gt_trans : compare_bytes a b ≡ gt → compare_bytes b c ≡ gt → compare_bytes a c ≡ gt
  gt_trans h k =
      gt_of_lt_bytes c a (lt_trans_bytes c b a (lt_of_gt_bytes b c k) (lt_of_gt_bytes a b h))

  pub equal_greater : compare_bytes a b ≡ eq → compare_bytes b c ≡ gt → compare_bytes a c ≡ gt
  equal_greater h k = rw (eq_of_compare_bytes a b h) k

  pub greater_equal : compare_bytes a b ≡ gt → compare_bytes b c ≡ eq → compare_bytes a c ≡ gt
  greater_equal h k = rw (← eq_of_compare_bytes b c k) h

pub eq_sym : (a b : Bytes) → compare_bytes a b ≡ eq → compare_bytes b a ≡ eq
eq_sym a b h = rw (eq_of_compare_bytes a b h) (compare_bytes_refl b)

-- What a comparison with t says of a tombstone in front of v, and behind u.
follows-lt :
    (t u v : RangeTombstone)
    → follows u v ≡ true
    → compare_tombstones v t ≡ lt
    → compare_tombstones u t ≡ lt
unfolding follows compare_tombstones
follows-lt t u v h k = ground (
  arith,
  lt_of_gt_bytes v.record_id u.record_id,
  eq_sym v.record_id u.record_id,
  lt_of_gt_bytes v.start_key u.start_key,
  eq_sym v.start_key u.start_key,
  lt_trans_bytes u.record_id v.record_id t.record_id,
  equal_less u.record_id v.record_id t.record_id,
  less_equal u.record_id v.record_id t.record_id,
  equal_equal u.record_id v.record_id t.record_id,
  lt_trans_bytes u.start_key v.start_key t.start_key,
  equal_less u.start_key v.start_key t.start_key,
)

pub follows-ge :
    (t u v : RangeTombstone)
    → follows u v ≡ true
    → compare_tombstones u t ≢ lt
    → compare_tombstones v t ≢ lt
follows-ge t u v h k e = k (follows-lt t u v h e)

pub follows-gt :
    (t u v : RangeTombstone)
    → follows u v ≡ true
    → compare_tombstones u t ≡ gt
    → compare_tombstones v t ≡ gt
unfolding follows compare_tombstones
follows-gt t u v h k = ground (
  arith,
  equal_greater v.record_id u.record_id t.record_id,
  greater_equal v.record_id u.record_id t.record_id,
  gt_trans v.record_id u.record_id t.record_id,
  equal_equal v.record_id u.record_id t.record_id,
  equal_greater v.start_key u.start_key t.start_key,
  gt_trans v.start_key u.start_key t.start_key,
)

pub follows-record_gt :
    (r : Bytes) (u v : RangeTombstone)
    → follows u v ≡ true
    → compare_bytes u.record_id r ≡ gt
    → compare_bytes v.record_id r ≡ gt
unfolding follows compare_tombstones
follows-record_gt r u v h k =
    ground (arith, equal_greater v.record_id u.record_id r, gt_trans v.record_id u.record_id r)

pub follows-record_eq :
    (r : Bytes) (u v : RangeTombstone)
    → follows u v ≡ true
    → compare_bytes u.record_id r ≡ eq
    → compare_bytes v.record_id r ≢ lt
unfolding follows compare_tombstones
follows-record_eq r u v h k e =
    ground (arith, eq_sym u.record_id r, less_equal v.record_id r u.record_id)

pub SortedIndex-Mono :
    (t : RangeTombstone) (ts : RangeTombstoneIndex)
    → SortedIndex ts
    → Mono (λ u. compare_tombstones u t) ts
SortedIndex-Mono t [] s = tt
SortedIndex-Mono t (u ∷ us) s = (
  λ e. All-imp _ _ (λ v h. follows-ge t u v h (λ l. cc)) us s.0,
  (λ e. All-imp _ _ (λ v h. follows-gt t u v h e) us s.0, SortedIndex-Mono t us s.1),
)

pub SortedIndex-Mono_record :
    (r : Bytes) (ts : RangeTombstoneIndex)
    → SortedIndex ts
    → Mono (λ u. compare_bytes u.record_id r) ts
SortedIndex-Mono_record r [] s = tt
SortedIndex-Mono_record r (u ∷ us) s = (
  λ e. All-imp _ _ (λ v h. follows-record_eq r u v h e) us s.0,
  (λ e. All-imp _ _ (λ v h. follows-record_gt r u v h e) us s.0, SortedIndex-Mono_record r us s.1),
)

not_lt-follows : (t u : RangeTombstone) → compare_tombstones u t ≢ lt → follows t u ≡ true
unfolding follows
not_lt-follows t u h = elim (Ordering-cases (compare_tombstones u t)) [
  | inl e ↦ absurd (h e)
  | inr (inl e) ↦ rw e refl
  | inr (inr e) ↦ rw e refl
]

compare_tombstones_flip :
    (t u : RangeTombstone) → compare_tombstones t u ≡ lt → compare_tombstones u t ≡ gt
unfolding compare_tombstones
compare_tombstones_flip t u h = ground (
  arith,
  gt_of_lt_bytes t.record_id u.record_id,
  eq_sym t.record_id u.record_id,
  gt_of_lt_bytes t.start_key u.start_key,
)

not_gt-follows : (t u : RangeTombstone) → compare_tombstones u t ≢ gt → follows u t ≡ true
unfolding follows
not_gt-follows t u h = elim (Ordering-cases (compare_tombstones t u)) [
  | inl e ↦ absurd (h (compare_tombstones_flip t u e))
  | inr (inl e) ↦ rw e refl
  | inr (inr e) ↦ rw e refl
]

-- An insertion behind what is not greater and in front of what is not less keeps the order.
pub insert_at-SortedIndex :
    (t : RangeTombstone) (ts : RangeTombstoneIndex) (i : ℕ)
    → SortedIndex ts
    → ((j : ℕ) → j < i → cmp_at (λ u. compare_tombstones u t) ts j ≢ gt)
    → ((j : ℕ) → i ≤ j → cmp_at (λ u. compare_tombstones u t) ts j ≢ lt)
    → SortedIndex (insert_at i t ts)
unfolding cmp_at
insert_at-SortedIndex t ts zero s h k = (all_follow ts k, s)
  where
    all_follow :
        (us : RangeTombstoneIndex)
        → ((j : ℕ) → 0 ≤ j → cmp_at (λ u. compare_tombstones u t) us j ≢ lt)
        → All (λ u. follows t u ≡ true) us
    all_follow [] k = tt
    all_follow (u ∷ us) k =
        (not_lt-follows t u (k 0 (omega arith)), all_follow us (λ j l. k (suc j) (omega arith)))
insert_at-SortedIndex t [] (suc i) s h k = (tt, tt)
insert_at-SortedIndex t (u ∷ us) (suc i) s h k = (
  All-insert_at i us s.0 (not_gt-follows t u (h 0 (omega arith))),
  insert_at-SortedIndex t us i s.1 (λ j l. h (suc j) (omega arith))
      (λ j l. k (suc j) (omega arith)),
)
  where
    All-insert_at :
        (i : ℕ) (us : RangeTombstoneIndex)
        → All (λ v. follows u v ≡ true) us
        → follows u t ≡ true
        → All (λ v. follows u v ≡ true) (insert_at i t us)
    All-insert_at i us a e =
        All-append _ (take i us) (t ∷ drop i us) (All-take _ i us a) (e, All-drop _ i us a)
