-- ===== src/RangeTombstone/Split.antt =====
-- A list along which a comparison is monotone, cut where the equal elements begin and where they end.
use flushdb.Base.{
  ℕ, zero, suc, ◌-◌, ◌<◌, ◌≤◌, ◌≡◌, ◌≢◌, refl, sym, ap, arith, List, [], ◌∷◌, All, length, slice,
  take, drop, keep, is_eq, Ordering, Ordering-cases, inl, inr,
}
use Prim.Native.Nat.Ordering.{lt, eq, gt}
use native.Mathlib.Nat.{eq-zero-or-pos}
use flushdb.Search.{SearchResult, found, missing, binary_search_by, cmp_at, position}
use flushdb.Search.Laws.{IsMonotone, Answers, binary_search-Answers}
use flushdb.Base.{Bool-cases}
use flushdb.Base.{ltb}
use flushdb.Base.{leb}

module _ {ℓ} {A : Type ℓ} (f : A → Ordering) where
  abbrev pub Mono : List A → Type ℓ
  Mono [] = Unit
  Mono (x ∷ xs) =
      (f x ≡ eq → All (λ y. f y ≢ lt) xs) × ((f x ≡ gt → All (λ y. f y ≡ gt) xs) × Mono xs)

  pub record Split (xs : List A) (a b : ℕ) : Type ℓ where
    pub ordered : a ≤ b
    pub inside : b ≤ length xs
    pub before : (j : ℕ) → j < a → cmp_at f xs j ≡ lt
    pub among : (j : ℕ) → a ≤ j → j < b → cmp_at f xs j ≡ eq
    pub behind : (j : ℕ) → b ≤ j → cmp_at f xs j ≡ gt
    pub kept : slice a b xs ≡ keep (λ x. is_eq (f x)) xs

  greater_behind : (xs : List A) → All (λ y. f y ≡ gt) xs → (j : ℕ) → cmp_at f xs j ≡ gt
  unfolding cmp_at
  greater_behind [] h j = refl
  greater_behind (x ∷ xs) h zero = h.0
  greater_behind (x ∷ xs) h (suc j) = greater_behind xs h.1 j

  keep_none : (xs : List A) → All (λ y. f y ≡ gt) xs → keep (λ x. is_eq (f x)) xs ≡ []
  keep_none [] h = refl
  keep_none (x ∷ xs) h = rw (h.0, keep) (keep_none xs h.1)

  first_ge : (xs : List A) → All (λ y. f y ≢ lt) xs → cmp_at f xs 0 ≢ lt
  unfolding cmp_at
  first_ge [] h = λ e. cc
  first_ge (x ∷ xs) h = h.0

  module _ (x : A) (xs : List A) (a b : ℕ) (s : Split xs a b) where
    cut_less : f x ≡ lt → Split (x ∷ xs) (suc a) (suc b)
    unfolding cmp_at slice
    cut_less e = record {
      ordered = omega (arith, s.ordered);
      inside = omega (arith, s.inside);
      before = before;
      among = among;
      behind = behind;
      kept = let w : suc b - suc a ≡ b - a = omega arith in rw (e, keep, w) s.kept;
    }
      where
        before : (j : ℕ) → j < suc a → cmp_at f (x ∷ xs) j ≡ lt
        before zero h = e
        before (suc j) h = s.before j (omega arith)

        among : (j : ℕ) → suc a ≤ j → j < suc b → cmp_at f (x ∷ xs) j ≡ eq
        among zero h k = absurd (omega arith)
        among (suc j) h k = s.among j (omega arith) (omega arith)

        behind : (j : ℕ) → suc b ≤ j → cmp_at f (x ∷ xs) j ≡ gt
        behind zero h = absurd (omega arith)
        behind (suc j) h = s.behind j (omega arith)

    kept_at :
        a ≡ 0
        → slice a b xs ≡ keep (λ y. is_eq (f y)) xs
        → take (b - a) xs ≡ keep (λ y. is_eq (f y)) xs
    unfolding slice
    kept_at z h = let w : drop a xs ≡ xs = rw z refl in rw w at h

    cut_equal : f x ≡ eq → a ≡ 0 → Split (x ∷ xs) 0 (suc b)
    unfolding cmp_at slice
    cut_equal e z = record {
      ordered = omega arith;
      inside = omega (arith, s.inside);
      before = λ j k. absurd (omega arith);
      among = among;
      behind = behind;
      kept =
          let w : suc b - 0 ≡ suc (b - a) = omega arith in
          rw (e, keep, w) (ap (λ (t : List A). x ∷ t) (kept_at z s.kept));
    }
      where
        among : (j : ℕ) → 0 ≤ j → j < suc b → cmp_at f (x ∷ xs) j ≡ eq
        among zero h k = e
        among (suc j) h k = s.among j (omega arith) (omega arith)

        behind : (j : ℕ) → suc b ≤ j → cmp_at f (x ∷ xs) j ≡ gt
        behind zero h = absurd (omega arith)
        behind (suc j) h = s.behind j (omega arith)

  cut_greater : (x : A) (xs : List A) → f x ≡ gt → All (λ y. f y ≡ gt) xs → Split (x ∷ xs) 0 0
  unfolding slice
  cut_greater x xs e h = record {
    ordered = omega arith;
    inside = omega arith;
    before = λ j k. absurd (omega arith);
    among = λ j k l. absurd (omega arith);
    behind = λ j k. greater_behind (x ∷ xs) (e, h) j;
    kept = rw (e, keep) (sym (keep_none xs h));
  }

  pub cut_found : (xs : List A) → Mono xs → (a : ℕ) × ((b : ℕ) × Split xs a b)
  unfolding cmp_at slice
  cut_found [] m =
      let none_there : Split [] 0 0 = record {
        ordered = omega arith;
        inside = omega arith;
        before = λ j h. absurd (omega arith);
        among = λ j h k. absurd (omega arith);
        behind = λ j h. refl;
        kept = refl;
      } in
      (0, (0, none_there))
  cut_found (x ∷ xs) m =
      let (a, s') = cut_found xs m.1.1 in
      let (b, s) = s' in
      elim (Ordering-cases (f x)) [
        | inl l ↦ (suc a, (suc b, cut_less x xs a b s l))
        | inr (inl e) ↦
            let z : a ≡ 0 = elim (eq-zero-or-pos a) [
              | inl z ↦ z
              | inr p ↦ absurd (first_ge xs (m.0 e) (s.before 0 p))
            ] in
            (0, (suc b, cut_equal x xs a b s e z))
        | inr (inr g) ↦ (0, (0, cut_greater x xs g (m.1.0 g)))
      ]

  module _ (xs : List A) (a b : ℕ) (s : Split xs a b) where
    pub not_gt : (i : ℕ) → i < b → cmp_at f xs i ≢ gt
    not_gt i h e = elim (Bool-cases (ltb i a)) [
      | inl k ↦ cc (s.before i (ground arith))
      | inr k ↦ cc (s.among i (ground arith) h)
    ]

    pub not_lt : (i : ℕ) → a ≤ i → cmp_at f xs i ≢ lt
    not_lt i h e = elim (Bool-cases (ltb i b)) [
      | inl k ↦ cc (s.among i h (ground arith))
      | inr k ↦ cc (s.behind i (ground arith))
    ]

    pub Split-IsMonotone : IsMonotone (cmp_at f xs)
    Split-IsMonotone = record {
      up = λ i j h e. s.behind j (elim (Bool-cases (ltb i b)) [
        | inl k ↦ absurd (not_gt i (ground arith) e)
        | inr k ↦ ground arith
      ]);
      down = λ i j h e. s.before i (elim (Bool-cases (leb a j)) [
        | inl k ↦ absurd (not_lt j (ground arith) e)
        | inr k ↦ ground arith
      ]);
    }

    pub answer_between :
        (r : SearchResult)
        → Answers (cmp_at f xs) (length xs) r
        → (a ≤ position r) × (position r ≤ b)
    unfolding position
    answer_between (found i) h = elim (Bool-cases (ltb i b)) [
      | inl k ↦ elim (Bool-cases (ltb i a)) [
        | inl l ↦ cc (s.before i (ground arith), h.1)
        | inr l ↦ (ground arith, ground arith)
      ]
      | inr k ↦ cc (s.behind i (ground arith), h.1)
    ]
    answer_between (missing i) h = elim (Bool-cases (ltb i a)) [
      | inl l ↦
          cc (s.before i (ground arith), h.2 i (omega arith) (ground (arith, s.ordered, s.inside)))
      | inr l ↦ elim (Bool-cases (ltb b i)) [
        | inl k ↦ cc (s.behind b (omega arith), h.1 b (ground arith))
        | inr k ↦ (ground arith, ground arith)
      ]
    ]

    pub search-Answers : Answers (cmp_at f xs) (length xs) (binary_search_by f xs)
    unfolding binary_search_by
    search-Answers = binary_search-Answers (cmp_at f xs) Split-IsMonotone (length xs)

    -- The position at which a binary search finds or misses the element.
    pub position_between :
        (a ≤ position (binary_search_by f xs)) × (position (binary_search_by f xs) ≤ b)
    position_between = answer_between (binary_search_by f xs) search-Answers
