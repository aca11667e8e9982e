-- ===== src/Manifest/Find.antt =====
-- The search of a level for the table that holds a key.
use flushdb.Base.{
  ℕ, zero, suc, ◌<◌, ◌≡◌, refl, sym, true, false, none, some, List, [], ◌∷◌, arith, All, get_elem?,
  is_lt, is_le, Bool-cases, inl, inr,
}
use flushdb.Base.Bytes.{compare_bytes}
use flushdb.Key.{CompositeKey}
use flushdb.Search.{holds_at}
use flushdb.Search.Partition.{
  Pairwise, IsPartitioned, Pairwise-IsPartitioned, partition_point-Parts,
}
use flushdb.Manifest.{
  Level, SstableMeta, Manifest, contains_key, find, ends_before, if_contains, find_sstable_for_key,
  sstables_at_level, is_overlapping,
}
use flushdb.Base.Bytes.{lt_not_le}
use flushdb.Base.Bytes.{lt_trans_test}
use flushdb.Base.Bytes.{lt_of_not_lt}
use flushdb.Base.Bytes.{lt_of_lt_le}

-- One table ends before the other begins.
abbrev pub Before : SstableMeta → SstableMeta → Type 0
Before a b = is_lt (compare_bytes a.max_key b.min_key) ≡ true

abbrev pub IsRange : SstableMeta → Type 0
IsRange m = is_le (compare_bytes m.min_key m.max_key) ≡ true

-- Tables in the order of their keys that share none, as below level 0.
abbrev pub Disjoint : List SstableMeta → Type 0
Disjoint ssts = Pairwise Before ssts × All IsRange ssts

-- A table that ends before the key does not hold it.
ended_lem :
    (key : CompositeKey) (m : SstableMeta) → ends_before key m ≡ true → contains_key key m ≡ false
unfolding contains_key
ended_lem key m h = ground (arith, lt_not_le m.max_key key h)

not_contains :
    (key : CompositeKey) (m : SstableMeta)
    → is_lt (compare_bytes key m.min_key) ≡ true
    → contains_key key m ≡ false
unfolding contains_key
not_contains key m h = ground (arith, h)

-- Behind a table that does not end before the key, the tables begin behind the key.
find_behind :
    (key : CompositeKey) (m : SstableMeta) (ms : List SstableMeta)
    → ends_before key m ≡ false
    → All (Before m) ms
    → find (contains_key key) ms ≡ none
find_behind key m [] h a = refl
find_behind key m (x ∷ xs) h a =
    rw (find, not_contains key x (lt_of_not_lt key m.max_key x.min_key h a.0))
      (find_behind key m xs h a.1)

find_here :
    (key : CompositeKey) (m : SstableMeta) (ms : List SstableMeta)
    → find (contains_key key) ms ≡ none
    → find (contains_key key) (m ∷ ms) ≡ if_contains key (some m)
find_here key m ms h = elim (Bool-cases (contains_key key m)) [
  | inl t ↦ rw (find, if_contains, t) refl
  | inr f ↦ rw (find, if_contains, f) h
]

find_skip :
    (key : CompositeKey) (ssts : List SstableMeta) (point : ℕ)
    → Pairwise Before ssts
    → ((j : ℕ) → j < point → holds_at (ends_before key) ssts j ≡ true)
    → holds_at (ends_before key) ssts point ≡ false
    → find (contains_key key) ssts ≡ if_contains key (get_elem? ssts point)
find_skip key [] point p before at = refl
find_skip key (m ∷ ms) zero p before at = find_here key m ms (find_behind key m ms at p.0)
find_skip key (m ∷ ms) (suc point) p before at =
    let e = ended_lem key m (before 0 (omega arith)) in
    rw (find, e) (find_skip key ms point p.1 (λ j h. before (suc j) (omega (arith, h))) at)

abbrev Sooner : SstableMeta → SstableMeta → Type 0
Sooner a b = is_lt (compare_bytes a.max_key b.max_key) ≡ true

one-Sooner :
    (m : SstableMeta) (ms : List SstableMeta)
    → All (Before m) ms
    → All IsRange ms
    → All (Sooner m) ms
one-Sooner m [] a v = tt
one-Sooner m (x ∷ xs) a v =
    (lt_of_lt_le m.max_key x.min_key x.max_key a.0 v.0, one-Sooner m xs a.1 v.1)

all-Sooner : (ms : List SstableMeta) → Pairwise Before ms → All IsRange ms → Pairwise Sooner ms
all-Sooner [] p v = tt
all-Sooner (m ∷ ms) p v = (one-Sooner m ms p.0 v.1, all-Sooner ms p.1 v.1)

ends_before-IsPartitioned :
    (key : CompositeKey) (ssts : List SstableMeta)
    → Pairwise Before ssts
    → All IsRange ssts
    → IsPartitioned (ends_before key) ssts
ends_before-IsPartitioned key ssts p v =
    Pairwise-IsPartitioned {R = Sooner} (ends_before key)
      (λ x y r h. lt_trans_test x.max_key y.max_key key r h) ssts (all-Sooner ssts p v)

-- Where the tables of a level below level 0 stand in the order of their keys and share none, and at
-- level 0 always, the table that is found for a key is the first of the level whose range contains
-- the key.
pub find_sstable_for_key-find :
    (m : Manifest) (level : Level) (key : CompositeKey)
    → (is_overlapping level ≡ false → Disjoint (sstables_at_level m level))
    → find_sstable_for_key m level key ≡ find (contains_key key) (sstables_at_level m level)
unfolding find_sstable_for_key
find_sstable_for_key-find m level key disjoint = elim (Bool-cases (is_overlapping level)) [
  | inl zero_level ↦ rw zero_level refl
  | inr lower ↦
      let ssts = sstables_at_level m level in
      let (p, v) = disjoint lower in
      let (_, before, behind) =
        partition_point-Parts (ends_before key) ssts (ends_before-IsPartitioned key ssts p v) in
      rw lower (sym (find_skip key ssts _ p before (behind _ (omega arith))))
]
