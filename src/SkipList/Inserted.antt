-- ===== src/SkipList/Inserted.antt =====
-- `insert` of the skip list (crates/flushdb-engine/src/skiplist.rs) as an operation on the sorted
-- list of entries, on both of its branches.
use flushdb.Base.{
  ℕ, ◌≤◌, ◌≡◌, refl, sym, ◌∙◌, true, false, List, [], ◌∷◌, none, some, arith, All, inl, inr,
  Bool-cases, Option-cases, length, ◌==◌, if◌then◌else◌, get_elem?, get_or, ltb,
}
use mathlib.Core.Path.{subst}
use flushdb.Entry.{MemtableEntry}
use flushdb.SkipList.{
  SkipNode, SkipList, next_of, entry_at, max_height, random_height, find_update, precedes,
  same_slot, add_node, overwrite, modify, holds_slot, place, insert,
}
use flushdb.SkipList.Chain.{
  Chain, entries, first_index, In, Linked, Skip, here, over, Skip-Linked, Linked-next_zero,
  Linked-fresh, In-Skip,
}
use flushdb.SkipList.Search.{Stopped}
use flushdb.SkipList.Link.{IsWide, length-modify, get_elem?-modify, All-modify}
use flushdb.SkipList.Update.{random_height_bounds}
use flushdb.SkipList.Ordered.{put_in, put_in-Sorted, same_slot_fields}
use flushdb.SkipList.Refine.{IsSkipList, NotHeld, add_node-IsSkipList, spot, update}
use flushdb.SkipList.Refine.{spot_rest}

last-NotHeld :
    (entry : MemtableEntry) (after : Chain) → first_index after ≡ none → NotHeld entry after
last-NotHeld entry [] h = tt
last-NotHeld entry ((j, e) ∷ r) h = cc

apart-NotHeld :
    (nodes : List SkipNode) (entry : MemtableEntry) (u j : ℕ) (after : Chain)
    → Linked nodes u after
    → first_index after ≡ some j
    → holds_slot nodes entry j ≡ false
    → NotHeld entry after
unfolding holds_slot
apart-NotHeld nodes entry u j [] g h k = tt
apart-NotHeld nodes entry u j ((i, e) ∷ r) g h k = ground (arith, g.3)

-- The assignments to a node whose slot the entry has leave it holding the entry.
overwrite_entry :
    (entry : MemtableEntry) (n : SkipNode)
    → same_slot entry n.entry ≡ true
    → (overwrite entry n).entry ≡ entry
unfolding overwrite
overwrite_entry entry n h = ground (arith, same_slot_fields entry n.entry h)

abbrev set_entry : ℕ → MemtableEntry → Chain → Chain
set_entry j entry [] = []
set_entry j entry ((i, e) ∷ rest) = (i, if j == i then entry else e) ∷ set_entry j entry rest

In-set_entry :
    (j : ℕ) (entry : MemtableEntry) (rest : Chain) (t : ℕ)
    → In t rest
    → In t (set_entry j entry rest)
In-set_entry j entry [] t m = m
In-set_entry j entry (x ∷ rest) t (inl p) = inl p
In-set_entry j entry (x ∷ rest) t (inr m) = inr (In-set_entry j entry rest t m)

set_entry-In :
    (j : ℕ) (entry : MemtableEntry) (rest : Chain) (t : ℕ)
    → In t (set_entry j entry rest)
    → In t rest
set_entry-In j entry [] t m = m
set_entry-In j entry (x ∷ rest) t (inl p) = inl p
set_entry-In j entry (x ∷ rest) t (inr m) = inr (set_entry-In j entry rest t m)

set_entry_absent :
    (j : ℕ) (entry : MemtableEntry) (rest : Chain) → (In j rest → ⊥) → set_entry j entry rest ≡ rest
set_entry_absent j entry [] h = refl
set_entry_absent j entry ((i, e) ∷ rest) h = elim (Bool-cases (j == i)) [
  | inl e ↦ absurd (h (inl (ground arith)))
  | inr e ↦ rw (e, set_entry_absent j entry rest (λ m. h (inr m)))
]

holds_slot_entry :
    (nodes : List SkipNode) (entry : MemtableEntry) (j : ℕ)
    → holds_slot nodes entry j ≡ true
    → (e : MemtableEntry) × (entry_at nodes j ≡ some e) × (same_slot entry e ≡ true)
unfolding holds_slot
holds_slot_entry nodes entry j h = elim (Option-cases (entry_at nodes j)) [
  | inl o ↦ absurd (ground arith)
  | inr (e, o) ↦ (e, o, ground arith)
]

module _ (u : List ℕ) (h : ℕ) (entry : MemtableEntry) (s : SkipList) where
  place_end :
      next_of s.nodes (get_or u 0 s.head) 0 ≡ none → place u h entry s ≡ add_node u h entry s
  unfolding place
  place_end o = ground arith

  place_free :
      (j : ℕ)
      → next_of s.nodes (get_or u 0 s.head) 0 ≡ some j
      → holds_slot s.nodes entry j ≡ false
      → place u h entry s ≡ add_node u h entry s
  unfolding place
  place_free j o k = ground arith

  place_held :
      (j : ℕ)
      → next_of s.nodes (get_or u 0 s.head) 0 ≡ some j
      → holds_slot s.nodes entry j ≡ true
      → place u h entry s ≡ record s { nodes = modify j (overwrite entry) s.nodes }
  unfolding place
  place_held j o k = ground arith

after_shape :
    (after : Chain) (j : ℕ)
    → first_index after ≡ some j
    → (e : MemtableEntry) × (r : Chain) × (after ≡ (j, e) ∷ r)
after_shape [] j h = absurd (cc)
after_shape ((i, e) ∷ r) j h = (e, r, cc)

length-set_entry :
    (j : ℕ) (entry : MemtableEntry) (rest : Chain) → length (set_entry j entry rest) ≡ length rest
length-set_entry j entry [] = refl
length-set_entry j entry (x ∷ rest) = omega (arith, length-set_entry j entry rest)

overwrite-IsWide :
    (entry : MemtableEntry) (j : ℕ) (nodes : List SkipNode)
    → IsWide nodes
    → IsWide (modify j (overwrite entry) nodes)
unfolding overwrite
overwrite-IsWide entry j nodes w =
    All-modify (λ n. length n.next ≡ max_height) j (overwrite entry) nodes (λ n h. h) w

module _ (nodes : List SkipNode) (entry : MemtableEntry) (j : ℕ) where
  entries-set_entry :
      {i u : ℕ} {e : MemtableEntry} {chain r : Chain}
      → Skip (precedes entry) i chain u ((j, e) ∷ r)
      → Linked nodes i chain
      → precedes entry e ≡ false
      → same_slot entry e ≡ true
      → entries (set_entry j entry chain) ≡ put_in entry (entries chain)
  unfolding put_in
  entries-set_entry {r = r} here g p q =
      let same : set_entry j entry r ≡ r =
        set_entry_absent j entry r (λ m. Linked-fresh nodes j r j (g.4) m refl) in
      rw same (ground arith)
  entries-set_entry (over {j = k} {rest = rest} b s) g p q = ground (
    arith,
    entries-set_entry s (g.4) p q,
    Linked-fresh nodes k rest j (g.4),
    In-Skip j s (inl refl),
  )

  module _ (held : holds_slot nodes entry j ≡ true) where
    next_of-overwrite :
        (i l : ℕ) → next_of (modify j (overwrite entry) nodes) i l ≡ next_of nodes i l
    unfolding next_of overwrite
    next_of-overwrite i l = ground (arith, get_elem?-modify j (overwrite entry) nodes i)

    entry_at-overwrite :
        (i : ℕ) (e : MemtableEntry)
        → entry_at nodes i ≡ some e
        → entry_at (modify j (overwrite entry) nodes) i ≡ some (if j == i then entry else e)
    unfolding entry_at holds_slot
    entry_at-overwrite i e h = elim (Option-cases (get_elem? nodes i)) [
      | inl o ↦ cc
      | inr (n, o) ↦
          let (e0, at_j, slot) = holds_slot_entry nodes entry j held in
          ground (
            arith,
            get_elem?-modify j (overwrite entry) nodes i,
            o,
            at_j,
            slot,
            overwrite_entry entry n,
          )
    ]

    Linked-overwrite :
        (i : ℕ) (rest : Chain)
        → Linked nodes i rest
        → Linked (modify j (overwrite entry) nodes) i (set_entry j entry rest)
    Linked-overwrite i [] g = λ l. next_of-overwrite i l ∙ g l
    Linked-overwrite i ((k, e) ∷ rest) g = (
      next_of-overwrite i 0 ∙ g.0,
      λ l t h. In-set_entry j entry ((k, e) ∷ rest) t (g.1 l t (sym (next_of-overwrite i l) ∙ h)),
      λ t m. g.2 t (set_entry-In j entry ((k, e) ∷ rest) t m),
      entry_at-overwrite k e (g.3),
      Linked-overwrite k rest (g.4),
    )

module _ (s : SkipList) (v : IsSkipList s) (entry : MemtableEntry) (h list_height : ℕ)
    (h_low : 1 ≤ h) (h_le : h ≤ list_height) (list_high : list_height ≤ max_height) where
  abbrev stop : ℕ
  stop = get_or (update s v entry h list_height h_low h_le list_high) 0 s.head

  abbrev here_stopped : Stopped (precedes entry) s.nodes 0 s.head v.chain stop
  here_stopped = spot s v entry h list_height h_low h_le list_high

  abbrev taller : SkipList
  taller = record s { height = list_height }

  overwritten :
      (j : ℕ)
      → next_of s.nodes stop 0 ≡ some j
      → holds_slot s.nodes entry j ≡ true
      → (w : IsSkipList (record taller { nodes = modify j (overwrite entry) s.nodes })) × (entries
            w.chain
          ≡ put_in entry (entries v.chain))
  overwritten j at_next held =
      let after = here_stopped.after in
      let g = Skip-Linked s.nodes here_stopped.skipped v.linked in
      let (e, r, shape) =
        after_shape after j (sym (Linked-next_zero s.nodes stop after g) ∙ at_next) in
      let g' = subst (λ (c : Chain). Linked s.nodes stop c) shape g in
      let rest' =
        subst (λ (c : Chain). All (λ x. precedes entry x ≡ false) (entries c)) shape
          (spot_rest s v entry h list_height h_low h_le list_high) in
      let (e0, at_j, slot) = holds_slot_entry s.nodes entry j held in
      let same_e : e0 ≡ e = cc (g'.3) in
      let replaced : entries (set_entry j entry v.chain) ≡ put_in entry (entries v.chain) =
        entries-set_entry s.nodes entry j
          (subst (λ (c : Chain). Skip (precedes entry) s.head v.chain stop c) shape
            here_stopped.skipped)
          v.linked (rest'.0) (subst (λ x. same_slot entry x ≡ true) same_e slot) in
      (
        record {
          chain = set_entry j entry v.chain;
          linked = Linked-overwrite s.nodes entry j held s.head v.chain v.linked;
          sorted = rw replaced (put_in-Sorted entry _ v.sorted);
          wide = overwrite-IsWide entry j s.nodes v.wide;
          head_in = omega (arith, v.head_in, length-modify j (overwrite entry) s.nodes);
          counted = length-set_entry j entry v.chain ∙ v.counted;
          node_count = length-modify j (overwrite entry) s.nodes ∙ v.node_count;
          height_low = omega (arith, h_low, h_le);
          height_high = list_high;
        },
        replaced,
      )

  place-IsSkipList :
      (w : IsSkipList
        (place (find_update (precedes entry) s.nodes list_height s.head) h entry taller))
      × (entries w.chain ≡ put_in entry (entries v.chain))
  place-IsSkipList = elim (Option-cases (next_of s.nodes stop 0)) [
    | inl o ↦ rw (place_end _ h entry taller o) (
        add_node-IsSkipList s v entry h list_height h_low h_le list_high
          (last-NotHeld entry here_stopped.after (sym (Linked-next_zero s.nodes stop _ g) ∙ o)))
    | inr (j, o) ↦ elim (Bool-cases (holds_slot s.nodes entry j)) [
      | inl k ↦ rw (place_held _ h entry taller j o k) (overwritten j o k)
      | inr k ↦ rw (place_free _ h entry taller j o k) (
          add_node-IsSkipList s v entry h list_height h_low h_le list_high (
            apart-NotHeld s.nodes entry stop j here_stopped.after g
              (sym (Linked-next_zero s.nodes stop _ g) ∙ o) k))
    ]
  ]
    where
      g : Linked s.nodes stop here_stopped.after
      g = Skip-Linked s.nodes here_stopped.skipped v.linked

-- Whatever heights are drawn, inserting into a well-formed list gives a well-formed list, and on
-- the entries it is the sorted insertion: the entry goes in front of the first one that it comes
-- before, and takes the place of one with its key and sequence number.
pub insert-IsSkipList :
    (draws : List ℕ) (entry : MemtableEntry) (s : SkipList) (v : IsSkipList s)
    → (w : IsSkipList (insert draws entry s)) × (entries w.chain ≡ put_in entry (entries v.chain))
unfolding insert
insert-IsSkipList draws entry s v =
    let (low, high) = random_height_bounds draws in
    place-IsSkipList s v entry (random_height draws)
      (if ltb s.height (random_height draws) then random_height draws else s.height) low
      (ground arith) (ground (arith, v.height_high))
