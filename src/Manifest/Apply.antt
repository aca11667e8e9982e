-- ===== src/Manifest/Apply.antt =====
-- What an update makes of a manifest.
use flushdb.Base.{
  ℕ, ◌+◌, ◌≡◌, refl, ap, true, false, Option, none, some, List, [], ◌∷◌, ◌++◌, arith, All, All-imp,
  length, is_le, Bool-cases, Option-cases, inl, inr,
}
use flushdb.Base.Bytes.{Bytes, bytes_eq, compare_bytes, le_trans_bytes, le_total}
use flushdb.Error.{ok_inj, ok, >>=-eq-ok}
use mathlib.Core.Path.{subst}
use flushdb.Search.Partition.{Pairwise}
use flushdb.Manifest.{
  Level, l0, l1, l2, l3, same_level, is_overlapping, SstableMeta, Levels, Manifest, ManifestUpdate,
  set_level, remove_id, found_or, remove_all, insert_sorted, sort_by_min_key, add_one, add_all,
  next_sequence, apply,
}
use flushdb.Base.{◌⊎◌}
use flushdb.Base.{◌≢◌}

-- `min_key <= min_key`
abbrev pub Starts : SstableMeta → SstableMeta → Type 0
Starts a b = is_le (compare_bytes a.min_key b.min_key) ≡ true

-- Below level 0 the tables stand in the order of their least keys.
abbrev pub IsSorted : Levels → Type 0
IsSorted levels = (level : Level) → is_overlapping level ≡ false → Pairwise Starts (levels level)

insert-All :
    (P : SstableMeta → Type 0) (x : SstableMeta) (xs : List SstableMeta)
    → P x
    → All P xs
    → All P (insert_sorted x xs)
unfolding insert_sorted
insert-All P x [] p h = (p, tt)
insert-All P x (y ∷ ys) p h = elim (Bool-cases (is_le (compare_bytes x.min_key y.min_key))) [
  | inl le ↦ rw le (p, h)
  | inr later ↦ rw later (h.0, insert-All P x ys p h.1)
]

insert-Pairwise :
    (x : SstableMeta) (xs : List SstableMeta)
    → Pairwise Starts xs
    → Pairwise Starts (insert_sorted x xs)
unfolding insert_sorted
insert-Pairwise x [] p = (tt, tt)
insert-Pairwise x (y ∷ ys) p = elim (Bool-cases (is_le (compare_bytes x.min_key y.min_key))) [
  | inl le ↦ rw le (
    (
      le,
      All-imp (Starts y) (Starts x) (λ z k. le_trans_bytes x.min_key y.min_key z.min_key le k) ys
          p.0,
    ),
    p,
  )
  | inr later ↦ rw later (
    insert-All (Starts y) x ys (le_total x.min_key y.min_key later) p.0,
    insert-Pairwise x ys p.1,
  )
]

sort-Pairwise : (xs : List SstableMeta) → Pairwise Starts (sort_by_min_key xs)
unfolding sort_by_min_key
sort-Pairwise [] = tt
sort-Pairwise (x ∷ xs) = insert-Pairwise x (sort_by_min_key xs) (sort-Pairwise xs)

add_one-Pairwise :
    (level : Level) (meta : SstableMeta) (xs : List SstableMeta)
    → is_overlapping level ≡ false
    → Pairwise Starts (add_one level meta xs)
unfolding add_one
add_one-Pairwise level meta xs lower = rw lower (sort-Pairwise (xs ++ (meta ∷ [])))

same_level_eq : (a b : Level) → same_level a b ≡ true → a ≡ b
same_level_eq l0 l0 h = refl
same_level_eq l1 l1 h = refl
same_level_eq l2 l2 h = refl
same_level_eq l3 l3 h = refl
same_level_eq a b h = cc

set_level-IsSorted :
    (level : Level) (ssts : List SstableMeta) (levels : Levels)
    → (is_overlapping level ≡ false → Pairwise Starts ssts)
    → IsSorted levels
    → IsSorted (set_level level ssts levels)
set_level-IsSorted level ssts levels p s other lower = elim (Bool-cases (same_level level other)) [
  | inl same ↦ rw same (p (rw (same_level_eq level other same) lower))
  | inr differs ↦ rw differs (s other lower)
]

add_all-IsSorted :
    (adds : List (Level × SstableMeta)) (levels : Levels)
    → IsSorted levels
    → IsSorted (add_all adds levels)
unfolding add_all
add_all-IsSorted [] levels s = s
add_all-IsSorted ((level, meta) ∷ later) levels s =
    add_all-IsSorted later _
      (set_level-IsSorted level _ levels (add_one-Pairwise level meta (levels level)) s)

some_inj : (a b : List SstableMeta) → some a ≡ some b → a ≡ b
some_inj a b h = cc h

-- The first table of the id is taken out: the first one of the vector, or one behind it.
remove_cases :
    (id : Bytes) (x : SstableMeta) (xs ys : List SstableMeta)
    → remove_id id (x ∷ xs) ≡ some ys
    → (xs ≡ ys) ⊎ ((zs : List SstableMeta) × (remove_id id xs ≡ some zs) × (x ∷ zs ≡ ys))
unfolding remove_id
remove_cases id x xs ys e = elim (Bool-cases (bytes_eq x.id id)) [
  | inl here ↦ inl (some_inj xs ys (ground (arith, here, e)))
  | inr other ↦ elim (Option-cases (remove_id id xs)) [
    | inl n ↦ absurd (ground (arith, n, other, e))
    | inr (zs, z) ↦ inr (zs, z, some_inj (x ∷ zs) ys (ground (arith, z, other, e)))
  ]
]

remove_nil : (id : Bytes) (ys : List SstableMeta) → remove_id id [] ≢ some ys
unfolding remove_id
remove_nil id ys e = cc

remove_id-All :
    (P : SstableMeta → Type 0) (id : Bytes) (xs ys : List SstableMeta)
    → remove_id id xs ≡ some ys
    → All P xs
    → All P ys
remove_id-All P id [] ys e h = absurd (remove_nil id ys e)
remove_id-All P id (x ∷ xs) ys e h = elim (remove_cases id x xs ys e) [
  | inl same ↦ subst (All P) same h.1
  | inr (zs, z, same) ↦ subst (All P) same (h.0, remove_id-All P id xs zs z h.1)
]

remove_id-Pairwise :
    (id : Bytes) (xs ys : List SstableMeta)
    → remove_id id xs ≡ some ys
    → Pairwise Starts xs
    → Pairwise Starts ys
remove_id-Pairwise id [] ys e p = absurd (remove_nil id ys e)
remove_id-Pairwise id (x ∷ xs) ys e p = elim (remove_cases id x xs ys e) [
  | inl same ↦ subst (Pairwise Starts) same p.1
  | inr (zs, z, same) ↦
      subst (Pairwise Starts) same
        (remove_id-All (Starts x) id xs zs z p.0, remove_id-Pairwise id xs zs z p.1)
]

pub length-remove_id :
    (id : Bytes) (xs ys : List SstableMeta) → remove_id id xs ≡ some ys → length ys + 1 ≡ length xs
length-remove_id id [] ys e = absurd (remove_nil id ys e)
length-remove_id id (x ∷ xs) ys e = elim (remove_cases id x xs ys e) [
  | inl same ↦ omega (arith, ap length same)
  | inr (zs, z, same) ↦ omega (arith, ap length same, length-remove_id id xs zs z)
]

found_or_ok :
    (o : Option (List SstableMeta)) {ssts : List SstableMeta} → found_or o ≡ ok ssts → o ≡ some ssts
found_or_ok none h = cc
found_or_ok (some x) h = cc

pub remove_all_step :
    (level : Level) (id : Bytes) (later : List (Level × Bytes)) (levels result : Levels)
    → remove_all ((level, id) ∷ later) levels ≡ ok result
    → (ssts : List SstableMeta) × (remove_id id (levels level) ≡ some ssts)
      × (remove_all later (set_level level ssts levels) ≡ ok result)
unfolding remove_all
remove_all_step level id later levels result e =
    let (ssts, z, e') = >>=-eq-ok (found_or (remove_id id (levels level))) _ e in
    (ssts, found_or_ok (remove_id id (levels level)) z, e')

pub remove_all_nil : (levels result : Levels) → remove_all [] levels ≡ ok result → levels ≡ result
unfolding remove_all
remove_all_nil levels result e = ok_inj e

remove_all-IsSorted :
    (removes : List (Level × Bytes)) (levels result : Levels)
    → remove_all removes levels ≡ ok result
    → IsSorted levels
    → IsSorted result
remove_all-IsSorted [] levels result e s = subst IsSorted (remove_all_nil levels result e) s
remove_all-IsSorted ((level, id) ∷ later) levels result e s =
    let (ssts, z, e') = remove_all_step level id later levels result e in
    remove_all-IsSorted later _ result e' (
      set_level-IsSorted level ssts levels
        (λ lower. remove_id-Pairwise id (levels level) ssts z (s level lower)) s)

-- A successful update of a manifest keeps the tables of every level below level 0 in the order of
-- their least keys.
pub apply-IsSorted :
    (u : ManifestUpdate) (now : ℕ) (current : Manifest) {result : Manifest}
    → apply u now current ≡ ok result
    → IsSorted current.levels
    → IsSorted result.levels
unfolding apply
apply-IsSorted u now current {result} e s =
    let (removed, r, e') = >>=-eq-ok (remove_all u.remove_sstables current.levels) _ e in
    let (seq, q, e'') =
      >>=-eq-ok (next_sequence u.new_last_flushed_sequence current.last_flushed_sequence) _ e' in
    subst (λ (m : Manifest). IsSorted m.levels) (ok_inj e'')
      (add_all-IsSorted u.add_sstables removed
        (remove_all-IsSorted u.remove_sstables current.levels removed r s))
