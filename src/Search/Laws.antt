-- ===== src/Search/Laws.antt =====
-- What the binary search answers where the comparison is monotone along the vector.
use flushdb.Base.{
  ℕ, zero, suc, ◌+◌, ◌-◌, ◌/◌, ◌<◌, ◌≤◌, ◌≡◌, ◌≢◌, refl, arith, ltb, ◌==◌, Ordering, Bool-cases,
  Ordering-cases, inl, inr,
}
use mathlib.Core.Path.{subst}
use Prim.Native.Nat.Ordering.{lt, eq, gt}
use flushdb.Search.{SearchResult, found, missing, is_gt, narrow, conclude, binary_search}

-- First the elements that are less, then the equal ones, then the greater ones.
pub record IsMonotone (f : ℕ → Ordering) : Type 0 where
  pub up : (i j : ℕ) → i ≤ j → f i ≡ gt → f j ≡ gt
  pub down : (i j : ℕ) → i ≤ j → f j ≡ lt → f i ≡ lt

abbrev pub Answers : (ℕ → Ordering) → ℕ → SearchResult → Type 0
Answers f size (found i) = (i < size) × (f i ≡ eq)
Answers f size (missing i) =
    (i ≤ size) × ((j : ℕ) → j < i → f j ≡ lt) × ((j : ℕ) → i ≤ j → j < size → f j ≡ gt)

module _ (f : ℕ → Ordering) (m : IsMonotone f) (size : ℕ) where
  -- The range of the loop: nothing greater in front of it, only greater ones behind it.
  record Range (n base : ℕ) : Type 0 where
    nonempty : 1 ≤ n
    inside : base + n ≤ size
    left : (base ≢ 0) → f base ≢ gt
    right : (j : ℕ) → base + n ≤ j → j < size → f j ≡ gt

  narrow-Range : (fuel n base : ℕ) → n ≤ fuel → Range n base → Range 1 (narrow f fuel n base)
  unfolding narrow
  narrow-Range zero n base h r = absurd (omega (arith, r.nonempty))
  narrow-Range (suc fuel) n base h r = elim (Bool-cases (ltb 1 n)) [
    | inr small ↦
        let one : n ≡ 1 = ground (arith, r.nonempty) in rw small (subst (λ k. Range k base) one r)
    | inl big ↦ rw big (elim (Bool-cases (is_gt (f (base + n / 2)))) [
      | inl g ↦ rw g (
          narrow-Range fuel (n - n / 2) base (ground arith) (record {
            nonempty = ground arith;
            inside = ground (arith, r.inside);
            left = r.left;
            right = λ j a b. m.up (base + n / 2) j (omega arith) (ground arith);
          }))
      | inr g ↦ rw g (
          narrow-Range fuel (n - n / 2) (base + n / 2) (ground arith) (record {
            nonempty = ground arith;
            inside = ground (arith, r.inside);
            left = λ _. ground arith;
            right = λ j a b. r.right j (ground arith) b;
          }))
    ])
  ]

  conclude-Answers : (base : ℕ) → Range 1 base → Answers f size (conclude (f base) base)
  unfolding conclude
  conclude-Answers base r = elim (Ordering-cases (f base)) [
    | inl l ↦
        rw l (omega (arith, r.inside), λ j h. m.down j base (omega arith) l, λ j a b. r.right j a b)
    | inr (inl e) ↦ rw e (omega (arith, r.inside), e)
    | inr (inr g) ↦
        let z : base ≡ 0 = elim (Bool-cases (base == 0)) [
          | inl t ↦ ground arith
          | inr t ↦ absurd (r.left (ground arith) g)
        ] in
        rw g (
          omega (arith, r.inside),
          λ j h. absurd (omega arith),
          λ j a b. m.up base j (omega arith) g,
        )
  ]

  pub binary_search-Answers : Answers f size (binary_search f size)
  unfolding binary_search
  binary_search-Answers = elim (Bool-cases (size == 0)) [
    | inl z ↦ rw z (omega arith, λ j h. elim h [ ], λ j a b. absurd (ground arith))
    | inr n ↦ rw n (
        conclude-Answers _ (
          narrow-Range size size 0 (omega arith) (record {
            nonempty = ground arith;
            inside = omega arith;
            left = λ h. absurd (h refl);
            right = λ j a b. absurd (omega arith);
          })))
  ]
