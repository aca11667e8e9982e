-- ===== src/SkipList.antt =====
-- The skip list of crates/flushdb-engine/src/skiplist.rs. The nodes stand in a vector and point at
-- one another by index. The random heights come from a generator that is not modelled: `insert`
-- takes the numbers below 4 that the generator yields during the call.
pub mod Chain
pub mod Search
pub mod Ordered
pub mod Update
pub mod Refine
pub mod Inserted
pub mod Link
pub mod Insert
pub mod Read
use flushdb.Base.{
  ℕ, zero, suc, ◌+◌, Bool, true, false, ◌&&◌, List, [], ◌∷◌, ◌++◌, Option, none, some, length,
  get_elem?, get_or, replicate, take, ltb, ◌==◌, if◌then◌else◌, then_cmp, is_lt, is_eq, compare,
  Ordering, not,
}
use flushdb.Base.Bytes.{Bytes, bytes_eq}
use flushdb.Error.{FlushResult, ok, err}
use flushdb.Key
use flushdb.Key.{CompositeKey}
use flushdb.Token.{none_token}
use flushdb.Entry.{MemtableEntry, put}
use flushdb.Arena
use flushdb.Arena.{Arena}
use flushdb.Base.{◌-◌}
use flushdb.Base.{set}

abbrev pub max_height : ℕ
max_height = 12

-- `size_of::<SkipNode>()` where a pointer has 64 bits.
abbrev skip_node_size : ℕ
skip_node_size = 336

-- The six fields that a node takes over from its entry are the field `entry`.
pub record SkipNode : Type 0 where
  pub entry : MemtableEntry
  pub height : ℕ
  pub next : List (Option ℕ)

-- `SkipNode::new`
unfoldable pub new_node : MemtableEntry → ℕ → SkipNode
new_node entry height = record { entry = entry; height = height; next = replicate max_height none }

-- The key of the sentinel is that of the record `__sentinel__`.
abbrev pub sentinel_key : CompositeKey
sentinel_key = 95 ∷ 95 ∷ 115 ∷ 101 ∷ 110 ∷ 116 ∷ 105 ∷ 110 ∷ 101 ∷ 108 ∷ 95 ∷ 95 ∷ 0 ∷ []

abbrev pub sentinel : SkipNode
sentinel = record {
  entry = record {
    composite_key = sentinel_key;
    value = [];
    metadata = [];
    idempotency_key = none_token;
    sequence_number = 0;
    entry_type = put;
  };
  height = max_height;
  next = replicate max_height none;
}

unfoldable pub compare_entries : CompositeKey → ℕ → CompositeKey → ℕ → Ordering
compare_entries a_key a_seq b_key b_seq = then_cmp (Key.cmp a_key b_key) (compare b_seq a_seq)

-- `while height < MAX_HEIGHT && rng.random_range(0..4) == 0`; when the list of draws ends the loop
-- stops too.
unfoldable pub grow_height : ℕ → List ℕ → ℕ
grow_height height [] = height
grow_height height (draw ∷ draws) =
    let taller = grow_height (height + 1) draws in
    if ltb height max_height && draw == 0 then taller else height

unfoldable pub random_height : List ℕ → ℕ
unfolding grow_height
random_height draws = grow_height 1 draws

unfoldable pub approximate_entry_size : MemtableEntry → ℕ
approximate_entry_size e =
    skip_node_size + length e.composite_key + length e.value + length e.metadata

pub record SkipList : Type 0 where
  pub nodes : List SkipNode
  pub head : ℕ
  pub height : ℕ
  pub len : ℕ
  pub arena : Arena

abbrev pub with_arena : Arena → SkipList
with_arena arena = record { nodes = sentinel ∷ []; head = 0; height = 1; len = 0; arena = arena }

abbrev pub new : SkipList
new = with_arena Arena.new

-- `self.nodes[i].next[level]`, and `None` where the source would panic on an index.
unfoldable pub next_of : List SkipNode → ℕ → ℕ → Option ℕ
next_of nodes i level = elim (get_elem? nodes i) [ none ↦ none | some n ↦ get_or n.next level none ]

unfoldable pub entry_at : List SkipNode → ℕ → Option MemtableEntry
entry_at nodes i = elim (get_elem? nodes i) [ none ↦ none | some n ↦ some n.entry ]

-- The `while let` loop on one level: on to the next node as long as its entry comes before.
unfoldable pub walk : (MemtableEntry → Bool) → List SkipNode → ℕ → ℕ → ℕ → ℕ
walk before nodes level zero current = current
walk before nodes level (suc fuel) current = elim (next_of nodes current level) [
  | none ↦ current
  | some next_idx ↦ elim (entry_at nodes next_idx) [
    | none ↦ current
    | some e ↦ elim (before e) [ true ↦ walk before nodes level fuel next_idx | false ↦ current ]
  ]
]

-- The loop over the levels below `level`, from the top: the node where the last walk ends.
unfoldable pub descend : (MemtableEntry → Bool) → List SkipNode → ℕ → ℕ → ℕ
unfolding walk
descend before nodes zero current = current
descend before nodes (suc level) current =
    descend before nodes level (walk before nodes level (length nodes) current)

-- The same loop as `insert` makes it: the nodes where the walks end, by level from 0.
unfoldable pub path_down : (MemtableEntry → Bool) → List SkipNode → ℕ → ℕ → List ℕ → List ℕ
unfolding walk
path_down before nodes zero current update = update
path_down before nodes (suc level) current update =
    let stop = walk before nodes level (length nodes) current in
    path_down before nodes level stop (stop ∷ update)

-- The array `update`: where the walks end, and the head on the levels above those of the list.
unfoldable pub find_update : (MemtableEntry → Bool) → List SkipNode → ℕ → ℕ → List ℕ
unfolding path_down
find_update before nodes height head =
    path_down before nodes height head (replicate (max_height - height) head)

-- `nodes[i]` changed in place.
unfoldable pub modify : ℕ → (SkipNode → SkipNode) → List SkipNode → List SkipNode
modify i f [] = []
modify zero f (n ∷ nodes) = f n ∷ nodes
modify (suc i) f (n ∷ nodes) = n ∷ modify i f nodes

-- `nodes[i].next[level] = target`
unfoldable pub set_next : ℕ → ℕ → Option ℕ → List SkipNode → List SkipNode
unfolding modify
set_next i level target = modify i (λ n. record n { next = set n.next level target })

-- The loop that links the new node in behind the nodes of `update`, level by level.
unfoldable pub link_levels : ℕ → ℕ → List ℕ → List SkipNode → List SkipNode
unfolding set_next next_of
link_levels new_idx level [] nodes = nodes
link_levels new_idx level (prev ∷ update) nodes =
    link_levels new_idx (level + 1) update
      (set_next prev level (some new_idx) (set_next new_idx level (next_of nodes prev level) nodes))

-- `compare_entries(node, entry) == Less`
unfoldable pub precedes : MemtableEntry → MemtableEntry → Bool
unfolding compare_entries
precedes entry e =
    is_lt
      (compare_entries e.composite_key e.sequence_number entry.composite_key entry.sequence_number)

-- The node holds the key and the sequence number of the entry.
unfoldable pub same_slot : MemtableEntry → MemtableEntry → Bool
same_slot entry e =
    bytes_eq e.composite_key entry.composite_key && e.sequence_number == entry.sequence_number

-- The four assignments to a node that is already there; the key and the number stay.
unfoldable pub overwrite : MemtableEntry → SkipNode → SkipNode
overwrite entry n = record n {
  entry = record (n.entry) {
    value = entry.value;
    metadata = entry.metadata;
    entry_type = entry.entry_type;
    idempotency_key = entry.idempotency_key;
  };
}

unfoldable pub add_node : List ℕ → ℕ → MemtableEntry → SkipList → SkipList
unfolding new_node link_levels approximate_entry_size
add_node update height entry s =
    let new_idx = length s.nodes in
    record s {
      nodes = link_levels new_idx 0 (take height update) (s.nodes ++ (new_node entry height ∷ []));
      len = s.len + 1;
      arena = (Arena.allocate s.arena (approximate_entry_size entry)).0;
    }

-- `self.nodes[i]` is the slot of the entry already.
unfoldable pub holds_slot : List SkipNode → MemtableEntry → ℕ → Bool
unfolding entry_at same_slot
holds_slot nodes entry i = elim (entry_at nodes i) [ none ↦ false | some e ↦ same_slot entry e ]

unfoldable pub place : List ℕ → ℕ → MemtableEntry → SkipList → SkipList
unfolding holds_slot add_node next_of modify overwrite
place update height entry s = elim (next_of s.nodes (get_or update 0 s.head) 0) [
  | none ↦ add_node update height entry s
  | some next_idx ↦
      if holds_slot s.nodes entry next_idx
      then record s { nodes = modify next_idx (overwrite entry) s.nodes }
      else add_node update height entry s
]

unfoldable pub insert : List ℕ → MemtableEntry → SkipList → SkipList
unfolding random_height find_update precedes place
insert draws entry s =
    let height = random_height draws in
    let list_height = if ltb s.height height then height else s.height in
    let update = find_update (precedes entry) s.nodes list_height s.head in
    place update height entry (record s { height = list_height })
