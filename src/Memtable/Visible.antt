-- ===== src/Memtable/Visible.antt =====
-- What a lookup in a memtable sees (crates/flushdb-engine/src/memtable.rs, `get`).
use flushdb.Base.{
  ℕ, ◌+◌, ◌<◌, ◌≤◌, ◌≡◌, ◌≢◌, refl, sym, ◌∙◌, ap, true, false, ◌||◌, List, [], ◌∷◌, Option, none,
  some, arith, All, any, inl, inr, Bool-cases, Option-cases, if◌then◌else◌, is_empty, is_lt, is_le,
}
use flushdb.Base.Bytes.{Bytes, bytes_eq, bytes_eq_iff, compare_bytes, compare_bytes_refl}
use flushdb.Error.{ok}
use flushdb.Key
use flushdb.Key.{CompositeKey, range_tombstone_key}
use flushdb.Key.{range_tombstone_prefix}
use flushdb.Key.RoundTrip.{new_parts, record_id-encode, item_key-encode}
use flushdb.Key.Range.{range_tombstone_key_valid}
use flushdb.Entry.{MemtableEntry, is_range_delete}
use flushdb.RangeTombstone
use flushdb.RangeTombstone.{RangeTombstone}
use flushdb.RangeTombstone.Laws.{covers_one}
use flushdb.SkipList
use flushdb.SkipList.{SkipList, precedes, same_slot}
use flushdb.SkipList.Ordered.{put_in, find_key}
use flushdb.SkipList.Read
use flushdb.SkipList.Read.Laws.{get-iter}
use flushdb.Memtable.{Memtable, tombstone_of, insert, get, covered, node_to_entry, u64_limit}
use flushdb.Memtable.Invariant.{contents, hides, IsMemtable, insert-IsMemtable, any-put_in}

-- The newest entry of the key, unless a range delete hides it.
unfoldable pub seen : CompositeKey → List MemtableEntry → Option MemtableEntry
unfolding hides find_key
seen key es = elim (find_key key es) [
  | none ↦ none
  | some e ↦
      if any (hides (Key.record_id key) (Key.item_key key) e.sequence_number) es
      then none
      else some e
]

find_key-key :
    (key : CompositeKey) (es : List MemtableEntry) (e : MemtableEntry)
    → find_key key es ≡ some e
    → e.composite_key ≡ key
unfolding find_key
find_key-key key [] e h = cc
find_key-key key (x ∷ es) e h = elim (Bool-cases (bytes_eq x.composite_key key)) [
  | inl k ↦
      let same : x ≡ e = ground (arith, h) in rw (← same) ((bytes_eq_iff x.composite_key key).0 k)
  | inr k ↦ find_key-key key es e (ground (arith, h))
]

-- In a well-formed memtable a lookup returns the newest entry of the key, put or delete, unless a
-- range delete among the entries with a higher sequence number covers the key.
pub get-seen :
    (key : CompositeKey) (m : Memtable) → IsMemtable m → get key m ≡ seen key (contents m)
unfolding get seen covered node_to_entry
get-seen key m v = elim (Option-cases (SkipList.Read.get key m.skiplist)) [
  | inl o ↦
      let f : find_key key (contents m) ≡ none = sym (get-iter key m.skiplist v.list).0 ∙ o in
      rw (get, o, seen, f) refl
  | inr (e, o) ↦
      let f : find_key key (contents m) ≡ some e = sym (get-iter key m.skiplist v.list).0 ∙ o in
      let at_key = find_key-key key (contents m) e f in
      let c : covered m e
          ≡ any (hides (Key.record_id key) (Key.item_key key) e.sequence_number) (contents m) =
        rw at_key (v.indexed (Key.record_id key) (Key.item_key key) e.sequence_number) in
      rw (get, o, seen, f) (ground (arith, c))
]

hides_newer :
    (r k : Bytes) (seq : ℕ) (x : MemtableEntry) → x.sequence_number ≤ seq → hides r k seq x ≡ false
unfolding hides covers_one tombstone_of
hides_newer r k seq x h = ground arith

find_key-put_in :
    (key : CompositeKey) (e : MemtableEntry) (es : List MemtableEntry)
    → All (λ x. x.sequence_number < e.sequence_number) es
    → find_key key (put_in e es)
      ≡ (if bytes_eq e.composite_key key then some e else find_key key es)
unfolding find_key put_in precedes same_slot Key.cmp
find_key-put_in key e [] h = refl
find_key-put_in key e (x ∷ es) h = ground (
  arith,
  bytes_eq_iff x.composite_key key,
  bytes_eq_iff e.composite_key key,
  compare_bytes_refl key,
  find_key-put_in key e es h.1,
)

find_key-All :
    (P : MemtableEntry → Type 0) (key : CompositeKey) (es : List MemtableEntry) (e : MemtableEntry)
    → All P es
    → find_key key es ≡ some e
    → P e
unfolding find_key
find_key-All P key [] e a h = cc
find_key-All P key (x ∷ es) e a h = elim (Bool-cases (bytes_eq x.composite_key key)) [
  | inl k ↦ let same : x ≡ e = ground (arith, h) in rw (← same) a.0
  | inr k ↦ find_key-All P key es e a.1 (ground (arith, h))
]

hides_none :
    (r k : Bytes) (seq : ℕ) (es : List MemtableEntry)
    → All (λ x. x.sequence_number < seq) es
    → any (hides r k seq) es ≡ false
hides_none r k seq [] h = refl
hides_none r k seq (x ∷ es) h =
    rw (any, hides_newer r k seq x (omega (arith, h.0))) (hides_none r k seq es h.1)

module _ (draws : List ℕ) (e : MemtableEntry) (m : Memtable) {seq : ℕ} {m' : Memtable}
    (v : IsMemtable m) (small : m.next_sequence_number + 1 < u64_limit)
    (inserted : insert draws e m ≡ ok (seq, m')) where
  abbrev stored : MemtableEntry
  stored = record e { sequence_number = seq }

  after_insert : (key : CompositeKey) → get key m' ≡ seen key (put_in stored (contents m))
  after_insert key =
      let (w, s, n, c) = insert-IsMemtable draws e m v small inserted in
      get-seen key m' w ∙ ap (seen key) c

  older : All (λ x. x.sequence_number < seq) (contents m)
  older = let (w, s, n, c) = insert-IsMemtable draws e m v small inserted in rw s v.fresh

  -- After a successful insertion into a well-formed memtable, below the limit of the counter, a
  -- lookup of the key returns the entry with the sequence number it was given.
  pub get-insert : get e.composite_key m' ≡ some stored
  unfolding seen
  get-insert =
      after_insert e.composite_key
      ∙ let r = Key.record_id e.composite_key in
        let k = Key.item_key e.composite_key in
        let here = (bytes_eq_iff e.composite_key e.composite_key).1 refl in
        let found = find_key-put_in e.composite_key stored (contents m) older in
        let split = any-put_in (hides r k seq) stored (contents m) older in
        let a = hides_newer r k seq stored (omega arith) in
        let b = hides_none r k seq (contents m) older in ground (arith, found, here, split, a, b)

  -- A successful insertion of an entry that is no range delete into a well-formed memtable, below
  -- the limit of the counter, does not change what a lookup of another key returns.
  pub get-insert_other :
      (key : CompositeKey)
      → e.composite_key ≢ key
      → is_range_delete e.entry_type ≡ false
      → get key m' ≡ get key m
  unfolding seen hides
  get-insert_other key other put = after_insert key ∙ same ∙ sym (get-seen key m v)
    where
      differs : bytes_eq e.composite_key key ≡ false
      differs = elim (Bool-cases (bytes_eq e.composite_key key)) [
        | inl t ↦ absurd (other ((bytes_eq_iff e.composite_key key).0 t))
        | inr t ↦ t
      ]

      found : find_key key (put_in stored (contents m)) ≡ find_key key (contents m)
      found = find_key-put_in key stored (contents m) older ∙ rw differs refl

      same : seen key (put_in stored (contents m)) ≡ seen key (contents m)
      same = elim (Option-cases (find_key key (contents m))) [
        | inl o ↦ rw (seen, found, o) refl
        | inr (x, o) ↦
            let split =
              any-put_in (hides (Key.record_id key) (Key.item_key key) x.sequence_number) stored
                (contents m) older in
            rw (seen, found, o) (ground (arith, split, put))
      ]

  -- After a range delete is inserted into a well-formed memtable, below the limit of the counter, a
  -- lookup of a key of the record inside the range finds nothing, but for the key under which the
  -- range delete itself is stored.
  pub get-insert_range :
      (r start item : Bytes) {key : CompositeKey}
      → range_tombstone_key r start ≡ ok e.composite_key
      → Key.new r item ≡ ok key
      → is_range_delete e.entry_type ≡ true
      → is_le (compare_bytes start item) ≡ true
      → (is_empty e.value || is_lt (compare_bytes item e.value)) ≡ true
      → e.composite_key ≢ key
      → get key m' ≡ none
  unfolding seen hides tombstone_of covers_one RangeTombstone.in_range
  get-insert_range r start item {key} tk k del low high other = after_insert key ∙ gone
    where
      differs : bytes_eq e.composite_key key ≡ false
      differs = elim (Bool-cases (bytes_eq e.composite_key key)) [
        | inl t ↦ absurd (other ((bytes_eq_iff e.composite_key key).0 t))
        | inr t ↦ t
      ]

      found : find_key key (put_in stored (contents m)) ≡ find_key key (contents m)
      found = find_key-put_in key stored (contents m) older ∙ rw differs refl

      hidden : (n : ℕ) → n < seq → hides (Key.record_id key) (Key.item_key key) n stored ≡ true
      hidden n h =
          let (vr, ek) = range_tombstone_key_valid r start tk in
          let (ri, ii, _, _) = new_parts r item k in
          let re : Key.record_id e.composite_key ≡ r =
            rw ek (record_id-encode r _ vr.no_separator) in
          let ie : Key.item_key e.composite_key ≡ range_tombstone_prefix ∷ start =
            rw ek (item_key-encode r _ vr.no_separator) in
          let q = (bytes_eq_iff r r).1 refl in ground (arith, ri, ii, re, ie, q, del, low, high, h)

      gone : seen key (put_in stored (contents m)) ≡ none
      gone = elim (Option-cases (find_key key (contents m))) [
        | inl o ↦ rw (seen, found, o) refl
        | inr (x, o) ↦
            let split =
              any-put_in (hides (Key.record_id key) (Key.item_key key) x.sequence_number) stored
                (contents m) older in
            let hid =
              hidden x.sequence_number
                (find_key-All (λ y. y.sequence_number < seq) key (contents m) x older o) in
            rw (seen, found, o) (ground (arith, split, hid))
      ]
