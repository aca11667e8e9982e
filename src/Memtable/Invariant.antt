-- ===== src/Memtable/Invariant.antt =====
-- What holds of every memtable, and that the insertions keep it.
use flushdb.Base.{
  All-imp, ℕ, ◌+◌, ◌%◌, ◌<◌, ◌≡◌, refl, sym, ◌∙◌, ap, Bool, ◌&&◌, ◌||◌, List, [], ◌∷◌, arith, All,
  any, inl, inr, Bool-cases,
}
use flushdb.Base.Bytes.{Bytes}
use flushdb.Error.{ok}
use flushdb.Entry.{MemtableEntry, is_range_delete}
use flushdb.RangeTombstone
use flushdb.RangeTombstone.{RangeTombstone}
use flushdb.RangeTombstone.Order.{SortedIndex}
use flushdb.RangeTombstone.Laws.{covers_one, add-SortedIndex, covers-add}
use flushdb.SkipList
use flushdb.SkipList.{SkipList, precedes, same_slot}
use flushdb.SkipList.Ordered.{put_in}
use flushdb.SkipList.Refine.{IsSkipList, new-IsSkipList}
use flushdb.SkipList.Inserted.{insert-IsSkipList}
use flushdb.SkipList.Read
use flushdb.SkipList.Read.Laws.{iter-insert}
use flushdb.Memtable.{
  Memtable, MemtableConfig, tombstone_of, insert_inner, insert_prechecked, insert, new, u64_limit,
}
use flushdb.Memtable.{dedup_contains}
use flushdb.Error.{ok_inj}

-- The entries of a memtable, sorted by key and from the newest to the oldest.
abbrev pub contents : Memtable → List MemtableEntry
contents m = SkipList.Read.iter m.skiplist

-- The entry is a range delete that hides what is stored at the key under an older number.
unfoldable pub hides : Bytes → Bytes → ℕ → MemtableEntry → Bool
unfolding is_range_delete covers_one tombstone_of
hides record_id item_key seq x =
    is_range_delete x.entry_type && covers_one record_id item_key seq (tombstone_of x)

pub record IsMemtable (m : Memtable) : Type 0 where
  pub list : IsSkipList m.skiplist
  pub index : SortedIndex m.range_tombstones
  -- The index holds the tombstones of the range deletes among the entries.
  pub indexed :
      (r k : Bytes) (seq : ℕ)
      → RangeTombstone.covers r k seq m.range_tombstones ≡ any (hides r k seq) (contents m)
  pub fresh : All (λ x. x.sequence_number < m.next_sequence_number) (contents m)

-- A new memtable is well formed.
pub new-IsMemtable : (config : MemtableConfig) (seq : ℕ) → IsMemtable (new config seq)
unfolding new RangeTombstone.covers SkipList.Read.iter
new-IsMemtable config seq = record {
  list = new-IsSkipList;
  index = tt;
  indexed = λ r k n. refl;
  fresh = tt;
}

pub any-put_in :
    (p : MemtableEntry → Bool) (entry : MemtableEntry) (es : List MemtableEntry)
    → All (λ x. x.sequence_number < entry.sequence_number) es
    → any p (put_in entry es) ≡ p entry || any p es
unfolding put_in same_slot
any-put_in p entry [] h = refl
any-put_in p entry (e ∷ es) h = ground (arith, any-put_in p entry es h.1)

put_in-All :
    (P : MemtableEntry → Type 0) (entry : MemtableEntry) (es : List MemtableEntry)
    → P entry
    → All P es
    → All P (put_in entry es)
unfolding put_in
put_in-All P entry [] p a = (p, tt)
put_in-All P entry (e ∷ es) p a = ground (arith, put_in-All P entry es p a.1)

module _ (draws : List ℕ) (e : MemtableEntry) (m : Memtable) (v : IsMemtable m) (next : ℕ)
    (newer : All (λ x. x.sequence_number < e.sequence_number) (contents m))
    (below : e.sequence_number < next) where
  abbrev after : Memtable
  after = insert_inner draws e (record m { next_sequence_number = next })

  pub insert_inner-contents : contents after ≡ put_in e (contents m)
  unfolding insert_inner
  insert_inner-contents = (iter-insert draws e m.skiplist v.list).1

  indexed_after :
      (r k : Bytes) (seq : ℕ)
      → RangeTombstone.covers r k seq after.range_tombstones ≡ any (hides r k seq) (contents after)
  unfolding insert_inner hides
  indexed_after r k seq =
      let split = any-put_in (hides r k seq) e (contents m) newer in
      let was = v.indexed r k seq in
      let added = covers-add r k seq (tombstone_of e) m.range_tombstones v.index in
      rw insert_inner-contents (ground (arith, split, was, added))

  insert_inner-next : after.next_sequence_number ≡ next
  unfolding insert_inner
  insert_inner-next = refl

  pub insert_inner-IsMemtable : IsMemtable after
  unfolding insert_inner
  insert_inner-IsMemtable = record {
    list = (insert-IsSkipList draws e m.skiplist v.list).0;
    index = elim (Bool-cases (is_range_delete e.entry_type)) [
      | inl d ↦ rw d (add-SortedIndex (tombstone_of e) m.range_tombstones v.index)
      | inr d ↦ rw d v.index
    ];
    indexed = indexed_after;
    fresh =
        rw insert_inner-contents
          (put_in-All _ e (contents m) below (All-imp _ _ (λ x h. omega arith) (contents m) newer));
  }

insert_accepted :
    (draws : List ℕ) (e : MemtableEntry) (m : Memtable) {seq : ℕ} {m' : Memtable}
    → insert draws e m ≡ ok (seq, m')
    → (seq ≡ m.next_sequence_number)
      × (m'
          ≡ insert_inner draws
              (record e { sequence_number = m.next_sequence_number })
              (record m { next_sequence_number = (m.next_sequence_number + 1) % u64_limit }))
unfolding insert insert_prechecked
insert_accepted draws e m h = elim (Bool-cases m.frozen) [
  | inl f ↦ absurd (ground (arith, h))
  | inr f ↦ elim (Bool-cases (dedup_contains e.idempotency_key m.dedup_set)) [
    | inl d ↦ absurd (ground (arith, h))
    | inr d ↦
        let p = ok_inj (sym (rw (f, d) refl) ∙ h) in (sym (ap (λ q. q.0) p), sym (ap (λ q. q.1) p))
  ]
]

-- A successful insertion into a well-formed memtable, below the limit of the counter, gives the
-- entry the counter's number and leaves a well-formed memtable whose entries are those before with
-- the new one in its place, and whose counter is one higher.
pub insert-IsMemtable :
    (draws : List ℕ) (e : MemtableEntry) (m : Memtable) {seq : ℕ} {m' : Memtable}
    → IsMemtable m
    → m.next_sequence_number + 1 < u64_limit
    → insert draws e m ≡ ok (seq, m')
    → IsMemtable m'
      × (seq ≡ m.next_sequence_number)
      × (m'.next_sequence_number ≡ seq + 1)
      × (contents m' ≡ put_in (record e { sequence_number = seq }) (contents m))
insert-IsMemtable draws e m v small h =
    let (s, e') = insert_accepted draws e m h in
    let n = m.next_sequence_number in
    let w : (n + 1) % u64_limit ≡ n + 1 = omega arith in
    (rw (e', s, w)
      (
        insert_inner-IsMemtable draws (record e { sequence_number = n }) m v (n + 1) v.fresh
            (omega arith),
        refl,
        insert_inner-next draws (record e { sequence_number = n }) m v (n + 1) v.fresh
            (omega arith),
        insert_inner-contents draws (record e { sequence_number = n }) m v (n + 1) v.fresh
            (omega arith),
      ))
