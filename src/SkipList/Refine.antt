-- ===== src/SkipList/Refine.antt =====
-- The skip list of crates/flushdb-engine/src/skiplist.rs implements a sorted list of entries.
use flushdb.Base.{
  ℕ, ◌+◌, ◌-◌, ◌<◌, ◌≤◌, ◌≡◌, refl, ◌∙◌, Bool, false, List, [], ◌∷◌, ◌++◌, Option, none, some,
  arith, All, inl, inr, Option-cases, length, ◌==◌, if◌then◌else◌, take, get_or, replicate,
  length-append, All-append,
}
use flushdb.Entry.{MemtableEntry}
use flushdb.SkipList.{
  SkipNode, SkipList, next_of, entry_at, max_height, new_node, find_update, precedes, same_slot,
  add_node, link_levels, new,
}
use flushdb.SkipList.Chain.{Chain, entries, Linked, Skip, Skip-Linked, Linked-next_member}
use flushdb.SkipList.Search.{Stopped, Stopped_rest}
use flushdb.SkipList.Link.{
  IsWide, update_at, InFront, entry_at-link_levels, link_levels-IsWide, length-link_levels,
  next_of-link_levels,
}
use flushdb.SkipList.Insert.{insert_chain, Skip-Lead, insert-Linked}
use flushdb.SkipList.Update.{
  path_down-Stopped, update_at-take, next_of-append_new, entry_at-append_new, entry_at_range,
  entry_at_end,
}
use flushdb.SkipList.Ordered.{Sorted, put_in, put_in-Sorted, Sorted-Falls}
use flushdb.SkipList.{sentinel}
use flushdb.SkipList.Update.{
  get_or-replicate, update_at-take_zero, update_at-get, All-of_get, length-take_le,
  length-path_down,
}
use flushdb.SkipList.Chain.{here, over, In-Skip}

-- The list is well formed: `chain` is what level 0 visits from the head on, in strictly ascending
-- order, every pointer leads onwards in it, and the counters agree.
pub record IsSkipList (s : SkipList) : Type 0 where
  pub chain : Chain
  pub linked : Linked s.nodes s.head chain
  pub sorted : Sorted (entries chain)
  pub wide : IsWide s.nodes
  pub head_in : s.head < length s.nodes
  pub counted : length chain ≡ s.len
  pub node_count : length s.nodes ≡ s.len + 1
  pub height_low : 1 ≤ s.height
  pub height_high : s.height ≤ max_height

next_of-sentinel : (l : ℕ) → next_of (sentinel ∷ []) 0 l ≡ none
unfolding next_of
next_of-sentinel l = get_or-replicate max_height l

-- A new list is well formed and holds nothing.
pub new-IsSkipList : IsSkipList new
new-IsSkipList = record {
  chain = [];
  linked = next_of-sentinel;
  sorted = tt;
  wide = (refl, tt);
  head_in = omega arith;
  counted = refl;
  node_count = refl;
  height_low = omega arith;
  height_high = omega arith;
}

abbrev pub NotHeld : MemtableEntry → Chain → Type 0
NotHeld entry [] = Unit
NotHeld entry ((j, e) ∷ rest) = same_slot entry e ≡ false

-- `insert_chain` in terms of the entries alone.
entries-insert_chain :
    (new_idx : ℕ) (entry : MemtableEntry) {i u : ℕ} {chain after : Chain}
    → Skip (precedes entry) i chain u after
    → All (λ x. precedes entry x ≡ false) (entries after)
    → NotHeld entry after
    → entries (insert_chain (precedes entry) new_idx entry chain) ≡ put_in entry (entries chain)
unfolding put_in
entries-insert_chain new_idx entry {chain = []} here a h = refl
entries-insert_chain new_idx entry {chain = (j, e) ∷ r} here a h = ground (arith, a.0)
entries-insert_chain new_idx entry (over b p) a h =
    ground (arith, entries-insert_chain new_idx entry p a h)

length-insert_chain :
    (before : MemtableEntry → Bool) (new_idx : ℕ) (entry : MemtableEntry) (chain : Chain)
    → length (insert_chain before new_idx entry chain) ≡ length chain + 1
length-insert_chain before new_idx entry [] = refl
length-insert_chain before new_idx entry ((j, e) ∷ rest) =
    ground (arith, length-insert_chain before new_idx entry rest)

Skip-In :
    (before : MemtableEntry → Bool) (nodes : List SkipNode) (i : ℕ) (chain : Chain) (u : ℕ)
    (after : Chain)
    → Skip before i chain u after
    → Linked nodes i chain
    → i < length nodes
    → u < length nodes
Skip-In before nodes i chain u after here g h = h
Skip-In before nodes i ((j, e) ∷ rest) u after (over b p) g h =
    Skip-In before nodes j rest u after p (g.4) (entry_at_range nodes j e (g.3))

new_node_wide : (entry : MemtableEntry) (h : ℕ) → length (new_node entry h).next ≡ max_height
unfolding new_node
new_node_wide entry h = refl

module _ (s : SkipList) (v : IsSkipList s) (entry : MemtableEntry) (h list_height : ℕ)
    (h_low : 1 ≤ h) (h_le : h ≤ list_height) (list_high : list_height ≤ max_height) where
  abbrev pub update : List ℕ
  update = find_update (precedes entry) s.nodes list_height s.head

  abbrev pub prev_at : ℕ → Option ℕ
  prev_at l = update_at 0 (take h update) l

  abbrev pub new_idx : ℕ
  new_idx = length s.nodes

  abbrev pub grown : List SkipNode
  grown = s.nodes ++ (new_node entry h ∷ [])

  abbrev pub linked_nodes : List SkipNode
  linked_nodes = link_levels new_idx 0 (take h update) grown

  pub prev-Stopped :
      (l p : ℕ) → prev_at l ≡ some p → Stopped (precedes entry) s.nodes l s.head v.chain p
  unfolding find_update
  prev-Stopped l p q =
      let (_, lt, at_l) = update_at-take 0 h update l p q in
      let sub : l - 0 ≡ l = omega arith in
      path_down-Stopped (precedes entry) s.nodes list_height s.head _ v.chain l p
        (omega (arith, v.counted, v.node_count)) v.linked (Sorted-Falls entry _ v.sorted)
        (omega arith) (rw sub at at_l)

  prev_in : (l p : ℕ) → prev_at l ≡ some p → p < length s.nodes
  prev_in l p q =
      Skip-In (precedes entry) s.nodes s.head v.chain p _ (prev-Stopped l p q).skipped v.linked
        v.head_in

  pub prev_zero : prev_at 0 ≡ some (get_or update 0 s.head)
  unfolding find_update
  prev_zero = update_at-take_zero h update s.head h_low (
      omega (
        arith,
        length-path_down (precedes entry) s.nodes list_height s.head
            (replicate (max_height - list_height) s.head),
      ))

  in_front : InFront new_idx grown (take h update)
  in_front = All-of_get _ (take h update) λ l p q.
      let lt = prev_in l p (update_at-get (take h update) l p q) in
      (omega (arith, lt, length-append s.nodes (new_node entry h ∷ [])), λ e. omega (arith, lt, e))

  links :
      (i l : ℕ)
      → next_of linked_nodes i l ≡ (elim (prev_at l) [
        | none ↦ if new_idx == i then none else next_of s.nodes i l
        | some p ↦
            if new_idx == i
            then next_of s.nodes p l
            else if p == i
            then some new_idx
            else next_of s.nodes i l
      ])
  links i l =
      next_of-link_levels new_idx (take h update) 0 grown i l
        (All-append _ s.nodes _ v.wide (new_node_wide entry h, tt))
        (omega (arith, length-append s.nodes (new_node entry h ∷ []))) in_front
        (omega (arith, length-take_le h update))
      ∙ elim (Option-cases (prev_at l)) [
        | inl o ↦ ground (arith, next_of-append_new entry h s.nodes i l)
        | inr (p, o) ↦ ground (
          arith,
          prev_in l p o,
          next_of-append_new entry h s.nodes i l,
          next_of-append_new entry h s.nodes p l,
        )
      ]

  new_entry_at :
      (j : ℕ) → entry_at linked_nodes j ≡ (if new_idx == j then some entry else entry_at s.nodes j)
  new_entry_at j =
      entry_at-link_levels new_idx (take h update) 0 grown j ∙ entry_at-append_new entry h s.nodes j

  added_chain : Linked linked_nodes s.head (insert_chain (precedes entry) new_idx entry v.chain)
  added_chain =
      insert-Linked (precedes entry) s.nodes linked_nodes new_idx entry prev_at links
        (λ j e q. ground (arith, new_entry_at j, entry_at_range s.nodes j e q))
        (ground (arith, new_entry_at new_idx)) (entry_at_end s.nodes) _ prev_zero
        (λ l p o. (prev-Stopped l p o).blocked) s.head v.chain (λ e. omega (arith, v.head_in, e))
        v.linked (Skip-Lead (prev-Stopped 0 _ prev_zero).skipped)
        (λ l p o m. Skip-Lead (prev-Stopped l p o).skipped)
        (λ l p t o q.
          let st = prev-Stopped l p o in
          In-Skip t st.skipped
            (Linked-next_member s.nodes p st.after l t (Skip-Linked s.nodes st.skipped v.linked) q))

  -- The node on level 0 behind which the entry belongs.
  abbrev pub spot : Stopped (precedes entry) s.nodes 0 s.head v.chain (get_or update 0 s.head)
  spot = prev-Stopped 0 _ prev_zero

  pub spot_rest : All (λ x. precedes entry x ≡ false) (entries spot.after)
  spot_rest =
      Stopped_rest (precedes entry) s.nodes s.head v.chain _ v.linked
        (Sorted-Falls entry _ v.sorted) spot

  added_entries :
      NotHeld entry spot.after
      → entries (insert_chain (precedes entry) new_idx entry v.chain)
        ≡ put_in entry (entries v.chain)
  added_entries free = entries-insert_chain new_idx entry spot.skipped spot_rest free

  pub add_node-IsSkipList :
      NotHeld entry spot.after
      → (w : IsSkipList (add_node update h entry (record s { height = list_height }))) × (entries
            w.chain
          ≡ put_in entry (entries v.chain))
  unfolding add_node
  add_node-IsSkipList free = (
    record {
      chain = insert_chain (precedes entry) new_idx entry v.chain;
      linked = added_chain;
      sorted = rw (added_entries free) (put_in-Sorted entry _ v.sorted);
      wide =
          link_levels-IsWide new_idx (take h update) 0 grown
            (All-append _ s.nodes _ v.wide (new_node_wide entry h, tt));
      head_in = omega (
        arith,
        v.head_in,
        length-link_levels new_idx (take h update) 0 grown,
        length-append s.nodes (new_node entry h ∷ []),
      );
      counted =
          omega (arith, length-insert_chain (precedes entry) new_idx entry v.chain, v.counted);
      node_count = omega (
        arith,
        v.node_count,
        length-link_levels new_idx (take h update) 0 grown,
        length-append s.nodes (new_node entry h ∷ []),
      );
      height_low = omega (arith, h_low, h_le);
      height_high = list_high;
    },
    added_entries free,
  )
