-- ===== src/Search/Partition.antt =====
-- `partition_point` where the vector is partitioned: first the elements that pass the test.
use flushdb.Base.{
  ℕ, zero, suc, ◌<◌, ◌≤◌, ◌≡◌, refl, arith, Bool, true, false, List, [], ◌∷◌, length, if◌then◌else◌,
  Bool-cases, inl, inr,
}
use Prim.Native.Nat.Ordering.{lt, eq, gt}
use flushdb.Search.{
  SearchResult, found, missing, binary_search_by, cmp_at, position, partition_point, holds_at,
}
use flushdb.Search.Laws.{IsMonotone, Answers, binary_search-Answers}
use Prim.Native.Nat.{Ordering}
use flushdb.Base.{◌≢◌}
use flushdb.Base.{ltb}
use flushdb.Base.{All}

module _ {ℓ} {A : Type ℓ} (pred : A → Bool) where
  cmp_at-holds_at :
      (xs : List A) (i : ℕ)
      → cmp_at (λ x. if pred x then lt else gt) xs i ≡ (if holds_at pred xs i then lt else gt)
  unfolding cmp_at
  cmp_at-holds_at [] i = refl
  cmp_at-holds_at (x ∷ xs) zero = refl
  cmp_at-holds_at (x ∷ xs) (suc i) = cmp_at-holds_at xs i

  holds_at-behind : (xs : List A) (i : ℕ) → length xs ≤ i → holds_at pred xs i ≡ false
  holds_at-behind [] i h = refl
  holds_at-behind (x ∷ xs) zero h = absurd (omega arith)
  holds_at-behind (x ∷ xs) (suc i) h = holds_at-behind xs i (omega arith)

module _ {ℓ} {A : Type ℓ} (pred : A → Bool) (xs : List A) where
  abbrev pub IsPartitioned : Type 0
  IsPartitioned = (i j : ℕ) → i ≤ j → holds_at pred xs j ≡ true → holds_at pred xs i ≡ true

  abbrev side : ℕ → Ordering
  side = cmp_at (λ x. if pred x then lt else gt) xs

  side_of : (i : ℕ) → side i ≡ (if holds_at pred xs i then lt else gt)
  side_of i = cmp_at-holds_at pred xs i

  side-lt : (i : ℕ) → side i ≡ lt → holds_at pred xs i ≡ true
  side-lt i h = let s = side_of i in ground (arith, s, h)

  side-gt : (i : ℕ) → side i ≡ gt → holds_at pred xs i ≡ false
  side-gt i h = let s = side_of i in ground (arith, s, h)

  side-eq : (i : ℕ) → side i ≢ eq
  side-eq i h = let s = side_of i in ground (arith, s, h)

  module _ (p : IsPartitioned) where
    side-IsMonotone : IsMonotone side
    side-IsMonotone = record {
      up = λ i j le h.
          let s = side_of j in let k = side-gt i h in let q = p i j le in ground (arith, s, k, q);
      down = λ i j le h. let s = side_of i in rw (s, p i j le (side-lt j h)) refl;
    }

    abbrev Parts : ℕ → Type 0
    Parts point =
        (point ≤ length xs)
        × ((j : ℕ) → j < point → holds_at pred xs j ≡ true)
        × ((j : ℕ) → point ≤ j → holds_at pred xs j ≡ false)

    behind : (j : ℕ) → length xs ≤ j → holds_at pred xs j ≡ false
    behind j h = holds_at-behind pred xs j h

    point-Parts : (r : SearchResult) → Answers side (length xs) r → Parts (position r)
    unfolding position
    point-Parts (found i) a = absurd (side-eq i a.1)
    point-Parts (missing i) a = (
      a.0,
      λ j h. side-lt j (a.1 j h),
      λ j h. elim (Bool-cases (ltb j (length xs))) [
        | inl inside ↦ side-gt j (a.2 j h (ground arith))
        | inr outside ↦ behind j (ground arith)
      ],
    )

    -- The elements in front of the point pass the test, and those from it on do not.
    pub partition_point-Parts : Parts (partition_point pred xs)
    unfolding partition_point binary_search_by
    partition_point-Parts = point-Parts _ (binary_search-Answers side side-IsMonotone (length xs))

module _ {ℓ} {A : Type ℓ} (R : A → A → Type 0) where
  -- Each element is related to all behind it.
  abbrev pub Pairwise : List A → Type 0
  Pairwise [] = Unit {0}
  Pairwise (x ∷ xs) = All (R x) xs × Pairwise xs

module _ {ℓ} {A : Type ℓ} {R : A → A → Type 0} (pred : A → Bool)
    (closed : (x y : A) → R x y → pred y ≡ true → pred x ≡ true) where
  passes : (x : A) (xs : List A) (j : ℕ) → All (R x) xs → holds_at pred xs j ≡ true → pred x ≡ true
  passes x [] j r h = cc
  passes x (y ∷ ys) zero r h = closed x y r.0 h
  passes x (y ∷ ys) (suc j) r h = passes x ys j r.1 h

  pub Pairwise-IsPartitioned : (xs : List A) → Pairwise R xs → IsPartitioned pred xs
  Pairwise-IsPartitioned [] p i j le h = cc
  Pairwise-IsPartitioned (x ∷ xs) p zero zero le h = h
  Pairwise-IsPartitioned (x ∷ xs) p zero (suc j) le h = passes x xs j p.0 h
  Pairwise-IsPartitioned (x ∷ xs) p (suc i) zero le h = absurd (omega arith)
  Pairwise-IsPartitioned (x ∷ xs) p (suc i) (suc j) le h =
      Pairwise-IsPartitioned xs p.1 i j (omega arith) h
