-- ===== src/SkipList/Read/Laws.antt =====
-- Reads of a well-formed skip list (crates/flushdb-engine/src/skiplist.rs) as functions of its
-- sorted entries.
use flushdb.Base.{
  ℕ, zero, suc, ◌≤◌, ◌≡◌, refl, sym, ◌∙◌, ap, Bool, true, false, not, List, [], ◌∷◌, none, some,
  arith, All, inl, inr, Bool-cases, length, if◌then◌else◌,
}
use flushdb.Base.Bytes.{compare_bytes_refl, bytes_eq, bytes_eq_iff}
use mathlib.Core.Path.{subst}
use flushdb.SkipList.{precedes}
use flushdb.Base.{◌≢◌, All-imp, ◌-◌}
use flushdb.Base.Bytes.{eq_of_compare_bytes}
use flushdb.Key
use flushdb.Key.{CompositeKey}
use flushdb.Entry.{MemtableEntry}
use flushdb.SkipList.{SkipNode, SkipList, descend, insert}
use flushdb.SkipList.Chain.{
  Chain, entries, first_index, Linked, Skip, here, over, Skip-Linked, Linked-next_zero,
}
use flushdb.SkipList.Search.{Stopped, Stopped_rest, descend-Stopped}
use flushdb.SkipList.Ordered.{
  Sorted, put_in, Sorted-Falls_key, find_key, find_key-IsNewest, IsNewest,
}
use flushdb.SkipList.Refine.{IsSkipList}
use flushdb.SkipList.Inserted.{insert-IsSkipList}
use flushdb.SkipList.Read.{
  key_below, seek_to, get, StopCondition, never, stops, iterate, iterator, iter,
}

-- The front part of a list up to the first entry that fails the test.
abbrev pub take_while : (MemtableEntry → Bool) → List MemtableEntry → List MemtableEntry
take_while p [] = []
take_while p (e ∷ es) = let rest = take_while p es in if p e then e ∷ rest else []

pub iterate-take_while :
    (nodes : List SkipNode) (stop : StopCondition) (fuel i : ℕ) (rest : Chain)
    → length rest ≤ fuel
    → Linked nodes i rest
    → iterate nodes stop fuel (first_index rest)
      ≡ take_while (λ e. not (stops stop e)) (entries rest)
unfolding iterate
iterate-take_while nodes stop zero i [] h g = refl
iterate-take_while nodes stop (suc fuel) i [] h g = refl
iterate-take_while nodes stop zero i ((j, e) ∷ rest) h g = absurd (omega arith)
iterate-take_while nodes stop (suc fuel) i ((j, e) ∷ rest) h g = ground (
  arith,
  g.3,
  Linked-next_zero nodes j rest (g.4),
  iterate-take_while nodes stop fuel j rest (omega arith) (g.4),
)

find_key-Skip :
    (key : CompositeKey) {i u : ℕ} {chain after : Chain}
    → Skip (key_below key) i chain u after
    → find_key key (entries chain) ≡ find_key key (entries after)
unfolding find_key key_below Key.cmp
find_key-Skip key here = refl
find_key-Skip key (over {e = e} b p) =
    ground (arith, find_key-Skip key p, bytes_eq_iff e.composite_key key, compare_bytes_refl key)

find_key-none :
    (key : CompositeKey) (es : List MemtableEntry)
    → All (λ x. bytes_eq x.composite_key key ≡ false) es
    → find_key key es ≡ none
unfolding find_key
find_key-none key [] a = refl
find_key-none key (e ∷ es) a = ground (arith, a.0, find_key-none key es a.1)

find_key_absent :
    (key : CompositeKey) (es : List MemtableEntry)
    → find_key key es ≡ none
    → All (λ x. x.composite_key ≢ key) es
unfolding find_key
find_key_absent key [] h = tt
find_key_absent key (e ∷ es) h = (
  λ p. cc (h, (bytes_eq_iff e.composite_key key).1 p),
  find_key_absent key es (ground (arith, h)),
)

later_key :
    (key : CompositeKey) (e x : MemtableEntry)
    → precedes x e ≡ true
    → key_below key e ≡ false
    → bytes_eq e.composite_key key ≡ false
    → bytes_eq x.composite_key key ≡ false
unfolding precedes key_below Key.cmp
later_key key e x q h k = ground (
  arith,
  bytes_eq_iff x.composite_key key,
  bytes_eq_iff e.composite_key key,
  eq_of_compare_bytes e.composite_key x.composite_key,
)

pub Skip-Sorted :
    {before : MemtableEntry → Bool} {i u : ℕ} {chain after : Chain}
    → Skip before i chain u after
    → Sorted (entries chain)
    → Sorted (entries after)
Skip-Sorted here o = o
Skip-Sorted (over b p) o = Skip-Sorted p o.1

take_while_all : (es : List MemtableEntry) → take_while (λ e. true) es ≡ es
take_while_all [] = refl
take_while_all (e ∷ es) = ap (λ (t : List MemtableEntry). e ∷ t) (take_while_all es)

-- Among entries that are not below the key, the key can only be that of the first.
find_key_front :
    (key : CompositeKey) (e : MemtableEntry) (es : List MemtableEntry)
    → Sorted (e ∷ es)
    → key_below key e ≡ false
    → find_key key (e ∷ es) ≡ (if bytes_eq e.composite_key key then some e else none)
unfolding find_key
find_key_front key e es s h = elim (Bool-cases (bytes_eq e.composite_key key)) [
  | inl k ↦ rw k
  | inr k ↦ rw k (find_key-none key es (All-imp _ _ (λ x q. later_key key e x q h k) es s.0))
]

module _ (s : SkipList) (v : IsSkipList s) (key : CompositeKey) where
  pub sought :
      Stopped
        (key_below key)
        s.nodes
        0
        s.head
        v.chain
        (descend (key_below key) s.nodes s.height s.head)
  sought =
      let low : suc (s.height - 1) ≡ s.height = omega (arith, v.height_low) in
      subst
        (λ n.
          Stopped (key_below key) s.nodes 0 s.head v.chain
            (descend (key_below key) s.nodes n s.head))
        low
        (descend-Stopped (key_below key) s.nodes (s.height - 1) s.head v.chain
          (omega (arith, v.counted, v.node_count)) v.linked (Sorted-Falls_key key _ v.sorted))

  pub behind : Linked s.nodes (descend (key_below key) s.nodes s.height s.head) sought.after
  behind = Skip-Linked s.nodes sought.skipped v.linked

  pub none_below : All (λ x. key_below key x ≡ false) (entries sought.after)
  none_below =
      Stopped_rest (key_below key) s.nodes s.head v.chain _ v.linked
        (Sorted-Falls_key key _ v.sorted) sought

  pub seek_to-first : seek_to key s ≡ first_index sought.after
  unfolding seek_to
  seek_to-first = Linked-next_zero s.nodes _ sought.after behind

  front_found :
      (i : ℕ) (after : Chain)
      → Linked s.nodes i after
      → Sorted (entries after)
      → All (λ x. key_below key x ≡ false) (entries after)
      → seek_to key s ≡ first_index after
      → get key s ≡ find_key key (entries after)
  unfolding get
  front_found i [] g o a h = rw (h, get) (unfold find_key in refl)
  front_found i ((j, e) ∷ rest) g o a h =
      ground (arith, h, g.3, find_key_front key e (entries rest) o a.0)

  -- `get` returns the first entry of the key in the sorted list of entries.
  pub get-find_key : get key s ≡ find_key key (entries v.chain)
  get-find_key =
      front_found _ sought.after behind (Skip-Sorted sought.skipped v.sorted) none_below
        seek_to-first
      ∙ sym (find_key-Skip key sought.skipped)

-- The iteration from the head yields the entries of the list, in order.
pub iter-entries : (s : SkipList) (v : IsSkipList s) → iter s ≡ entries v.chain
unfolding iter iterator stops
iter-entries s v = rw (Linked-next_zero s.nodes s.head v.chain v.linked) (
    iterate-take_while s.nodes never (length s.nodes) s.head v.chain
      (omega (arith, v.counted, v.node_count)) v.linked
    ∙ take_while_all (entries v.chain))

-- Inserting into a well-formed skip list, whatever heights are drawn, keeps it well formed, and an
-- iteration then yields the sorted insertion of the entry into what it yielded before.
pub iter-insert :
    (draws : List ℕ) (entry : MemtableEntry) (s : SkipList)
    → IsSkipList s
    → IsSkipList (insert draws entry s) × (iter (insert draws entry s) ≡ put_in entry (iter s))
iter-insert draws entry s v =
    let (w, e) = insert-IsSkipList draws entry s v in
    (w, iter-entries _ w ∙ e ∙ ap (put_in entry) (sym (iter-entries s v)))

-- In a well-formed skip list a lookup returns the first entry of the key that an iteration yields,
-- and that is the one with the highest sequence number among all entries of the key; it returns
-- nothing only if no entry has the key.
pub get-iter :
    (key : CompositeKey) (s : SkipList)
    → IsSkipList s
    → (get key s ≡ find_key key (iter s))
      × ((e : MemtableEntry) → get key s ≡ some e → IsNewest key (iter s) e)
      × (get key s ≡ none → All (λ x. x.composite_key ≢ key) (iter s))
get-iter key s v = rw (iter-entries s v) (
  get-find_key s v key,
  λ e h. find_key-IsNewest key _ e v.sorted (sym (get-find_key s v key) ∙ h),
  λ h. find_key_absent key _ (sym (get-find_key s v key) ∙ h),
)
