-- ===== src/Search/Member.antt =====
-- A binary search for an element of a sorted vector finds one.
use flushdb.Base.{
  ℕ, zero, suc, ◌≤◌, ◌<◌, ◌≡◌, refl, arith, Bool, true, false, List, [], ◌∷◌, All, any, length,
  is_eq, Ordering, Bool-cases, inl, inr, ltb,
}
use Prim.Native.Nat.Ordering.{lt, eq, gt}
use flushdb.Search.{SearchResult, found, missing, cmp_at, binary_search_by}
use flushdb.Search.Laws.{IsMonotone, Answers, binary_search-Answers}
use flushdb.Search.Partition.{Pairwise}

-- `Result::is_ok`
abbrev pub is_found : SearchResult → Bool
is_found (found i) = true
is_found (missing i) = false

module _ {ℓ} {A : Type ℓ} {R : A → A → Type 0} (f : A → Ordering)
    (up : (x y : A) → R x y → f x ≡ gt → f y ≡ gt)
    (down : (x y : A) → R x y → f y ≡ lt → f x ≡ lt) where
  gt_behind : (x : A) (xs : List A) (j : ℕ) → All (R x) xs → f x ≡ gt → cmp_at f xs j ≡ gt
  unfolding cmp_at
  gt_behind x [] j r h = refl
  gt_behind x (y ∷ ys) zero r h = up x y r.0 h
  gt_behind x (y ∷ ys) (suc j) r h = gt_behind x ys j r.1 h

  lt_before : (x : A) (xs : List A) (j : ℕ) → All (R x) xs → cmp_at f xs j ≡ lt → f x ≡ lt
  unfolding cmp_at
  lt_before x [] j r h = cc
  lt_before x (y ∷ ys) zero r h = down x y r.0 h
  lt_before x (y ∷ ys) (suc j) r h = lt_before x ys j r.1 h

  up_at :
      (xs : List A) → Pairwise R xs → (i j : ℕ) → i ≤ j → cmp_at f xs i ≡ gt → cmp_at f xs j ≡ gt
  unfolding cmp_at
  up_at [] p i j le h = refl
  up_at (x ∷ xs) p zero zero le h = h
  up_at (x ∷ xs) p zero (suc j) le h = gt_behind x xs j p.0 h
  up_at (x ∷ xs) p (suc i) zero le h = absurd (omega arith)
  up_at (x ∷ xs) p (suc i) (suc j) le h = up_at xs p.1 i j (omega arith) h

  down_at :
      (xs : List A) → Pairwise R xs → (i j : ℕ) → i ≤ j → cmp_at f xs j ≡ lt → cmp_at f xs i ≡ lt
  unfolding cmp_at
  down_at [] p i j le h = h
  down_at (x ∷ xs) p zero zero le h = h
  down_at (x ∷ xs) p zero (suc j) le h = lt_before x xs j p.0 h
  down_at (x ∷ xs) p (suc i) zero le h = absurd (omega arith)
  down_at (x ∷ xs) p (suc i) (suc j) le h = down_at xs p.1 i j (omega arith) h

  pub Pairwise-IsMonotone : (xs : List A) → Pairwise R xs → IsMonotone (cmp_at f xs)
  Pairwise-IsMonotone xs p = record { up = up_at xs p; down = down_at xs p }

  equal_at :
      (xs : List A)
      → any (λ x. is_eq (f x)) xs ≡ true
      → (i : ℕ) × (i < length xs) × (cmp_at f xs i ≡ eq)
  unfolding cmp_at
  equal_at [] h = cc
  equal_at (x ∷ xs) h = elim (Bool-cases (is_eq (f x))) [
    | inl e ↦ (0, omega arith, ground (arith, e))
    | inr n ↦
        let (i, below, e) = equal_at xs (ground (arith, n, h)) in (suc i, omega (arith, below), e)
  ]

  found_of :
      (xs : List A) (r : SearchResult)
      → Answers (cmp_at f xs) (length xs) r
      → any (λ x. is_eq (f x)) xs ≡ true
      → is_found r ≡ true
  found_of xs (found i) a h = refl
  found_of xs (missing i) a h =
      let (j, below, e) = equal_at xs h in
      elim (Bool-cases (ltb j i)) [
        | inl before ↦ let l = a.1 j (ground arith) in cc
        | inr behind ↦ let g = a.2 j (ground arith) below in cc
      ]

  pub search-member :
      (xs : List A)
      → Pairwise R xs
      → any (λ x. is_eq (f x)) xs ≡ true
      → is_found (binary_search_by f xs) ≡ true
  unfolding binary_search_by
  search-member xs p h =
      found_of xs _ (binary_search-Answers (cmp_at f xs) (Pairwise-IsMonotone xs p) (length xs)) h
