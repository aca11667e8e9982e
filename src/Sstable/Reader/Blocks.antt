-- ===== src/Sstable/Reader/Blocks.antt =====
-- Blocks in order: where a key is found among the entries of all of them.
use flushdb.Base.{
  ℕ, zero, suc, ◌<◌, ◌≡◌, refl, ◌∙◌, ap, true, false, none, some, List, [], ◌∷◌, ◌++◌, arith, All,
  get_elem?, is_le, is_lt, Bool-cases, inl, inr,
}
use flushdb.Base.Bytes.{bytes_eq, bytes_eq_iff, compare_bytes}
use mathlib.Core.Path.{subst}
use flushdb.Base.Bytes.{lt_not_le}
use flushdb.Key.{CompositeKey}
use flushdb.Search.{holds_at}
use flushdb.Search.Partition.{Pairwise}
use flushdb.Sstable.Index.{IndexEntry, IndexBlock, starts_by}
use flushdb.Sstable.Index.Find.{StartsBefore}
use flushdb.Sstable.BlockReader.{BlockEntry}
use flushdb.Sstable.Reader.{find_key}

-- A block with its entry in the index. Its entries do not come before the key that the index has.
pub record StoredBlock : Type 0 where
  pub entry : IndexEntry
  pub entries : List BlockEntry

abbrev pub all_entries : List StoredBlock → List BlockEntry
all_entries [] = []
all_entries (b ∷ bs) = b.entries ++ all_entries bs

abbrev pub index_of : List StoredBlock → IndexBlock
index_of [] = []
index_of (b ∷ bs) = b.entry ∷ index_of bs

abbrev pub StartsAt : CompositeKey → BlockEntry → Type 0
StartsAt first e = is_le (compare_bytes first e.composite_key) ≡ true

abbrev pub EndsBefore : CompositeKey → BlockEntry → Type 0
EndsBefore limit e = is_lt (compare_bytes e.composite_key limit) ≡ true

-- All entries of a block come before the first key of a later one: no key stands in two blocks.
abbrev pub Before : StoredBlock → StoredBlock → Type 0
Before a b = All (EndsBefore b.entry.first_key) a.entries × StartsBefore a.entry b.entry

abbrev pub Ordered : List StoredBlock → Type 0
Ordered bs = Pairwise Before bs × All (λ b. All (StartsAt b.entry.first_key) b.entries) bs

find_key-append_left :
    (key : CompositeKey) (xs ys : List BlockEntry)
    → find_key key ys ≡ none
    → find_key key (xs ++ ys) ≡ find_key key xs
unfolding find_key
find_key-append_left key [] ys h = h
find_key-append_left key (x ∷ xs) ys h = rw (find_key-append_left key xs ys h) refl

find_key-append_right :
    (key : CompositeKey) (xs ys : List BlockEntry)
    → find_key key xs ≡ none
    → find_key key (xs ++ ys) ≡ find_key key ys
unfolding find_key
find_key-append_right key [] ys h = refl
find_key-append_right key (x ∷ xs) ys h = elim (Bool-cases (bytes_eq x.composite_key key)) [
  | inl e ↦ absurd (ground (arith, e, h))
  | inr n ↦ rw n (find_key-append_right key xs ys (ground (arith, n, h)))
]

-- Entries before a key that is not behind the one looked for.
find_before :
    (key first : CompositeKey) (xs : List BlockEntry)
    → is_le (compare_bytes first key) ≡ true
    → All (EndsBefore first) xs
    → find_key key xs ≡ none
unfolding find_key
find_before key first [] h a = refl
find_before key first (x ∷ xs) h a = elim (Bool-cases (bytes_eq x.composite_key key)) [
  | inl e ↦
      let l =
        subst (λ k. is_lt (compare_bytes k first) ≡ true) ((bytes_eq_iff x.composite_key key).0 e)
          a.0 in
      cc (lt_not_le key first l, h)
  | inr n ↦ rw n (find_before key first xs h a.1)
]

-- Entries from a key on that is behind the one looked for.
find_behind :
    (key first : CompositeKey) (xs : List BlockEntry)
    → is_le (compare_bytes first key) ≡ false
    → All (StartsAt first) xs
    → find_key key xs ≡ none
unfolding find_key
find_behind key first [] h a = refl
find_behind key first (x ∷ xs) h a = elim (Bool-cases (bytes_eq x.composite_key key)) [
  | inl e ↦ cc (
    subst (λ k. is_le (compare_bytes first k) ≡ true) ((bytes_eq_iff x.composite_key key).0 e) a.0,
    h,
  )
  | inr n ↦ rw n (find_behind key first xs h a.1)
]

pub find_all_behind :
    (key : CompositeKey) (bs : List StoredBlock)
    → All (λ b. All (StartsAt b.entry.first_key) b.entries) bs
    → ((j : ℕ) → holds_at (starts_by key) (index_of bs) j ≡ false)
    → find_key key (all_entries bs) ≡ none
find_all_behind key [] a h = unfold find_key in refl
find_all_behind key (b ∷ bs) a h =
    find_key-append_right key b.entries (all_entries bs)
      (find_behind key b.entry.first_key b.entries (h 0) a.0)
    ∙ find_all_behind key bs a.1 (λ j. h (suc j))

some_inj : {a b : StoredBlock} → some a ≡ some b → a ≡ b
some_inj h = cc h

at-Before :
    (c : StoredBlock) (bs : List StoredBlock) (i : ℕ) (b : StoredBlock)
    → All (Before c) bs
    → get_elem? bs i ≡ some b
    → Before c b
at-Before c [] i b a e = cc
at-Before c (d ∷ bs) zero b a e = subst (Before c) (some_inj e) a.0
at-Before c (d ∷ bs) (suc i) b a e = at-Before c bs i b a.1 e

-- The last block that starts at or before the key has all entries with the key.
pub find_in_block :
    (key : CompositeKey) (bs : List StoredBlock) (i : ℕ) (b : StoredBlock)
    → Ordered bs
    → get_elem? bs i ≡ some b
    → is_le (compare_bytes b.entry.first_key key) ≡ true
    → ((j : ℕ) → i < j → holds_at (starts_by key) (index_of bs) j ≡ false)
    → find_key key (all_entries bs) ≡ find_key key b.entries
find_in_block key [] i b o e s h = cc
find_in_block key (c ∷ bs) zero b o e s h =
    find_key-append_left key c.entries (all_entries bs)
      (find_all_behind key bs o.1.1 (λ j. h (suc j) (omega arith)))
    ∙ ap (λ x. find_key key x.entries) (some_inj e)
find_in_block key (c ∷ bs) (suc i) b o e s h =
    find_key-append_right key c.entries (all_entries bs)
      (find_before key b.entry.first_key c.entries s (at-Before c bs i b o.0.0 e).0)
    ∙ find_in_block key bs i b (o.0.1, o.1.1) e s (λ j k. h (suc j) (omega (arith, k)))
