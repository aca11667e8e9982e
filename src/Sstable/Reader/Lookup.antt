-- ===== src/Sstable/Reader/Lookup.antt =====
-- A lookup in a table finds what a search of all its entries finds.
use flushdb.Base.{
  ℕ, zero, suc, ◌≡◌, refl, Bool, true, false, none, some, List, [], ◌∷◌, All, get_elem?, is_le,
  Bool-cases, Option-cases, inl, inr,
}
use flushdb.Base.Bytes.{bytes_eq, bytes_eq_iff, compare_bytes}
use flushdb.Error.{ok, ◌>>=◌}
use mathlib.Core.Path.{subst}
use flushdb.Sstable.Reader.{get_from_block, require_metadata, loaded}
use flushdb.Key
use flushdb.Key.{CompositeKey}
use flushdb.Search.{holds_at}
use flushdb.Search.Partition.{Pairwise}
use flushdb.Sstable.Types.{Codec}
use flushdb.Sstable.Footer.{may_contain_key}
use flushdb.Sstable.Bloom.{BloomFilter, maybe_contains}
use flushdb.Sstable.Index.{starts_by, find_block_index, find_block}
use flushdb.Sstable.Index.Find.{StartsBefore, find_block_index_iff, find_block_index_absent}
use flushdb.Sstable.BlockReader.{BlockEntry}
use flushdb.Sstable.Reader.{GetRange, SstableReader, find_key, get, read_block}
use flushdb.Sstable.Reader.Blocks.{
  StoredBlock, all_entries, index_of, Ordered, Before, find_all_behind, find_in_block,
}

-- A reader whose metadata is loaded, over a file that stores the blocks: the index describes them in
-- their order, no key stands in two of them, and the filter and the footer admit every entry.
pub record IsTable (c : Codec) (get_range : GetRange) (r : SstableReader) (filter : BloomFilter)
    (blocks : List StoredBlock) : Type 0 where
  pub has_filter : r.filter ≡ some filter
  pub has_index : r.index ≡ some (index_of blocks)
  pub ordered : Ordered blocks
  pub stored : All (λ b. read_block c get_range r b.entry ≡ ok b.entries) blocks
  pub filtered :
      All (λ e. maybe_contains filter (Key.record_id e.composite_key) ≡ true) (all_entries blocks)
  pub bounded : All (λ e. may_contain_key r.footer e.composite_key ≡ true) (all_entries blocks)

-- A test that every entry passes, and the key does not: no entry has the key.
find_key-absent :
    (test : CompositeKey → Bool) (key : CompositeKey) (es : List BlockEntry)
    → All (λ e. test e.composite_key ≡ true) es
    → test key ≡ false
    → find_key key es ≡ none
unfolding find_key
find_key-absent test key [] a h = refl
find_key-absent test key (e ∷ es) a h = elim (Bool-cases (bytes_eq e.composite_key key)) [
  | inl same ↦ cc (subst (λ k. test k ≡ true) ((bytes_eq_iff e.composite_key key).0 same) a.0, h)
  | inr other ↦ rw other (find_key-absent test key es a.1 h)
]

starts_all :
    (b : StoredBlock) (bs : List StoredBlock)
    → All (Before b) bs
    → All (StartsBefore b.entry) (index_of bs)
starts_all b [] a = tt
starts_all b (x ∷ bs) a = (a.0.1, starts_all b bs a.1)

index_sorted : (bs : List StoredBlock) → Pairwise Before bs → Pairwise StartsBefore (index_of bs)
index_sorted [] p = tt
index_sorted (b ∷ bs) p = (starts_all b bs p.0, index_sorted bs p.1)

All-get :
    (P : StoredBlock → Type 0) (bs : List StoredBlock) (i : ℕ) {b : StoredBlock}
    → All P bs
    → get_elem? bs i ≡ some b
    → P b
All-get P [] i a e = cc
All-get P (x ∷ bs) zero a e = subst P (cc e) a.0
All-get P (x ∷ bs) (suc i) a e = All-get P bs i a.1 e

block_at :
    (key : CompositeKey) (bs : List StoredBlock) (i : ℕ)
    → holds_at (starts_by key) (index_of bs) i ≡ true
    → (b : StoredBlock) × (get_elem? bs i ≡ some b)
      × (get_elem? (index_of bs) i ≡ some b.entry)
      × (is_le (compare_bytes b.entry.first_key key) ≡ true)
block_at key [] i h = cc
block_at key (b ∷ bs) zero h = (b, refl, refl, h)
block_at key (b ∷ bs) (suc i) h = block_at key bs i h

module _ {c : Codec} {get_range : GetRange} {r : SstableReader} {filter : BloomFilter}
    {blocks : List StoredBlock} (t : IsTable c get_range r filter blocks) where
  get_from_block-find :
      (key : CompositeKey)
      → get_from_block c get_range r key (find_block (index_of blocks) key)
        ≡ ok (find_key key (all_entries blocks))
  unfolding get_from_block find_block
  get_from_block-find key =
      let sorted = index_sorted blocks t.ordered.0 in
      elim (Option-cases (find_block_index (index_of blocks) key)) [
        | inl n ↦
            rw
              (
                n,
                find_all_behind key blocks t.ordered.1
                    (find_block_index_absent (index_of blocks) key sorted n),
              )
              refl
        | inr (i, e) ↦
            let (holds, after) = (find_block_index_iff (index_of blocks) key i sorted).0 e in
            let (b, at, in_index, starts) = block_at key blocks i holds in
            rw
              (
                e,
                in_index,
                All-get _ blocks i t.stored at,
                ◌>>=◌,
                find_in_block key blocks i b t.ordered at starts after,
              )
              refl
      ]

  -- In a table whose filter and index are loaded, whose index entries lead to its stored blocks,
  -- whose blocks stand in the order of their first keys with no key in two of them, and whose
  -- filter and footer admit the keys of its entries, a lookup succeeds and returns the first entry
  -- of the key among all entries, or nothing if there is none.
  pub get-find :
      (key : CompositeKey) → get c get_range r key ≡ ok (find_key key (all_entries blocks))
  unfolding get require_metadata loaded
  get-find key = elim (Bool-cases (may_contain_key r.footer key)) [
    | inr outside ↦
        rw
          (
            t.has_filter,
            ◌>>=◌,
            t.has_index,
            outside,
            find_key-absent (may_contain_key r.footer) key (all_entries blocks) t.bounded outside,
          )
          refl
    | inl inside ↦ elim (Bool-cases (maybe_contains filter (Key.record_id key))) [
      | inr absent ↦
          rw
            (
              t.has_filter,
              ◌>>=◌,
              t.has_index,
              inside,
              absent,
              find_key-absent (λ k. maybe_contains filter (Key.record_id k)) key
                  (all_entries blocks) t.filtered absent,
            )
            refl
      | inl present ↦
          rw (t.has_filter, ◌>>=◌, t.has_index, inside, present) (get_from_block-find key)
    ]
  ]
