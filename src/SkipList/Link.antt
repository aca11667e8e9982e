-- ===== src/SkipList/Link.antt =====
-- What linking a node in does to the pointers and to the entries of the skip list
-- (crates/flushdb-engine/src/skiplist.rs, the last loop of `insert`).
use flushdb.Base.{
  ℕ, zero, suc, ◌+◌, ◌<◌, ◌≤◌, ◌≡◌, ◌≢◌, refl, ◌∙◌, ◌&&◌, List, [], ◌∷◌, Option, none, some, arith,
  All, inl, inr, Bool-cases, Option-cases, length, get_elem?, get_or, set, ◌==◌, if◌then◌else◌,
}
use mathlib.Core.Path.{subst}
use flushdb.SkipList.{SkipNode, next_of, entry_at, modify, set_next, link_levels, max_height}
use flushdb.Base.{All-imp}

abbrev pub IsWide : List SkipNode → Type 0
IsWide nodes = All (λ n. length n.next ≡ max_height) nodes

module _ {ℓ} {A : Type ℓ} where
  get_or-set :
      (xs : List A) (i j : ℕ) (v d : A)
      → i < length xs
      → get_or (set xs i v) j d ≡ (if i == j then v else get_or xs j d)
  get_or-set [] i j v d h = absurd (omega arith)
  get_or-set (x ∷ xs) zero zero v d h = refl
  get_or-set (x ∷ xs) zero (suc j) v d h = ground arith
  get_or-set (x ∷ xs) (suc i) zero v d h = ground arith
  get_or-set (x ∷ xs) (suc i) (suc j) v d h = ground (arith, get_or-set xs i j v d)

  length-set : (xs : List A) (i : ℕ) (v : A) → length (set xs i v) ≡ length xs
  length-set [] i v = refl
  length-set (x ∷ xs) zero v = refl
  length-set (x ∷ xs) (suc i) v = omega (arith, length-set xs i v)

pub length-modify :
    (i : ℕ) (f : SkipNode → SkipNode) (nodes : List SkipNode)
    → length (modify i f nodes) ≡ length nodes
unfolding modify
length-modify i f [] = refl
length-modify zero f (n ∷ nodes) = refl
length-modify (suc i) f (n ∷ nodes) = omega (arith, length-modify i f nodes)

pub get_elem?-modify :
    (i : ℕ) (f : SkipNode → SkipNode) (nodes : List SkipNode) (j : ℕ)
    → get_elem? (modify i f nodes) j
      ≡ elim (get_elem? nodes j) [ none ↦ none | some n ↦ some (if i == j then f n else n) ]
unfolding modify
get_elem?-modify i f [] j = refl
get_elem?-modify zero f (n ∷ nodes) zero = refl
get_elem?-modify zero f (n ∷ nodes) (suc j) = ground arith
get_elem?-modify (suc i) f (n ∷ nodes) zero = ground arith
get_elem?-modify (suc i) f (n ∷ nodes) (suc j) = ground (arith, get_elem?-modify i f nodes j)

pub All-modify :
    (P : SkipNode → Type 0) (i : ℕ) (f : SkipNode → SkipNode) (nodes : List SkipNode)
    → ((n : SkipNode) → P n → P (f n))
    → All P nodes
    → All P (modify i f nodes)
unfolding modify
All-modify P i f [] keep a = tt
All-modify P zero f (n ∷ nodes) keep a = (keep n a.0, a.1)
All-modify P (suc i) f (n ∷ nodes) keep a = (a.0, All-modify P i f nodes keep a.1)

All-get_elem? :
    (P : SkipNode → Type 0) (nodes : List SkipNode) (i : ℕ) (n : SkipNode)
    → All P nodes
    → get_elem? nodes i ≡ some n
    → P n
All-get_elem? P [] i n a h = cc
All-get_elem? P (m ∷ nodes) zero n a h = let same : m ≡ n = cc in subst P same a.0
All-get_elem? P (m ∷ nodes) (suc i) n a h = All-get_elem? P nodes i n a.1 h

get_elem?-lt :
    (nodes : List SkipNode) (i : ℕ)
    → i < length nodes
    → (n : SkipNode) × (get_elem? nodes i ≡ some n)
get_elem?-lt [] i h = absurd (omega arith)
get_elem?-lt (m ∷ nodes) zero h = (m, refl)
get_elem?-lt (m ∷ nodes) (suc i) h = get_elem?-lt nodes i (omega arith)

module _ (i level : ℕ) (target : Option ℕ) (nodes : List SkipNode) where
  abbrev pointing : SkipNode → SkipNode
  pointing n = record n { next = set n.next level target }

  set_next-IsWide : IsWide nodes → IsWide (set_next i level target nodes)
  unfolding set_next
  set_next-IsWide w =
      All-modify (λ n. length n.next ≡ max_height) i pointing nodes
        (λ n h. length-set n.next level target ∙ h) w

  length-set_next : length (set_next i level target nodes) ≡ length nodes
  unfolding set_next
  length-set_next = length-modify i pointing nodes

  entry_at-set_next : (j : ℕ) → entry_at (set_next i level target nodes) j ≡ entry_at nodes j
  unfolding entry_at set_next
  entry_at-set_next j = ground (arith, get_elem?-modify i pointing nodes j)

  next_of-set_next :
      (j m : ℕ)
      → IsWide nodes
      → i < length nodes
      → level < max_height
      → next_of (set_next i level target nodes) j m
        ≡ (if (i == j) && (level == m) then target else next_of nodes j m)
  unfolding next_of set_next
  next_of-set_next j m w hi hl =
      let (n, hn) = get_elem?-lt nodes i hi in
      let wide = All-get_elem? (λ n. length n.next ≡ max_height) nodes i n w hn in
      ground (
        arith,
        get_elem?-modify i pointing nodes j,
        hn,
        get_or-set n.next level m target none (omega (arith, wide)),
      )

-- The node of `update` on a level, when the list begins with the level `k`.
abbrev pub update_at : ℕ → List ℕ → ℕ → Option ℕ
update_at k [] l = none
update_at k (p ∷ update) l = if k == l then some p else update_at (k + 1) update l

update_at_below : (k : ℕ) (update : List ℕ) (l : ℕ) → l < k → update_at k update l ≡ none
update_at_below k [] l h = refl
update_at_below k (p ∷ update) l h = ground (arith, update_at_below (k + 1) update l)

module _ (new_idx : ℕ) where
  -- The pointer of `i` on level `l` after the links are made: the new node takes over the pointer
  -- of the node in front of it, and that node points at the new one.
  abbrev pub linked_next : List SkipNode → ℕ → List ℕ → ℕ → ℕ → Option ℕ
  linked_next nodes k update i l = elim (update_at k update l) [
    | none ↦ next_of nodes i l
    | some p ↦
        if new_idx == i
        then next_of nodes p l
        else if p == i
        then some new_idx
        else next_of nodes i l
  ]

  abbrev pub InFront : List SkipNode → List ℕ → Type 0
  InFront nodes update = All (λ p. (p < length nodes) × (p ≢ new_idx)) update

  pub entry_at-link_levels :
      (update : List ℕ) (k : ℕ) (nodes : List SkipNode) (j : ℕ)
      → entry_at (link_levels new_idx k update nodes) j ≡ entry_at nodes j
  unfolding link_levels
  entry_at-link_levels [] k nodes j = refl
  entry_at-link_levels (p ∷ update) k nodes j =
      entry_at-link_levels update (k + 1) _ j
      ∙ entry_at-set_next p k (some new_idx) _ j
      ∙ entry_at-set_next new_idx k (next_of nodes p k) nodes j

  pub link_levels-IsWide :
      (update : List ℕ) (k : ℕ) (nodes : List SkipNode)
      → IsWide nodes
      → IsWide (link_levels new_idx k update nodes)
  unfolding link_levels
  link_levels-IsWide [] k nodes w = w
  link_levels-IsWide (p ∷ update) k nodes w =
      link_levels-IsWide update (k + 1) _
        (set_next-IsWide p k _ _ (set_next-IsWide new_idx k _ nodes w))

  pub length-link_levels :
      (update : List ℕ) (k : ℕ) (nodes : List SkipNode)
      → length (link_levels new_idx k update nodes) ≡ length nodes
  unfolding link_levels
  length-link_levels [] k nodes = refl
  length-link_levels (p ∷ update) k nodes =
      length-link_levels update (k + 1) _
      ∙ length-set_next p k (some new_idx) _
      ∙ length-set_next new_idx k (next_of nodes p k) nodes

  module _ (nodes : List SkipNode) (p k : ℕ) where
    abbrev link_one : List SkipNode
    link_one = set_next p k (some new_idx) (set_next new_idx k (next_of nodes p k) nodes)

    next_of-link_one :
        (j m : ℕ)
        → IsWide nodes
        → new_idx < length nodes
        → p < length nodes
        → k < max_height
        → next_of link_one j m ≡ (
            if (p == j) && (k == m)
            then some new_idx
            else if (new_idx == j) && (k == m)
            then next_of nodes p k
            else next_of nodes j m)
    next_of-link_one j m w hn hp hk =
        next_of-set_next p k (some new_idx) _ j m (set_next-IsWide new_idx k _ nodes w)
          (omega (arith, length-set_next new_idx k (next_of nodes p k) nodes)) hk
        ∙ rw (next_of-set_next new_idx k (next_of nodes p k) nodes j m w hn hk)

  relink :
      (nodes : List SkipNode) (p : ℕ) (update : List ℕ) (k i l : ℕ)
      → IsWide nodes
      → new_idx < length nodes
      → p < length nodes
      → p ≢ new_idx
      → k < max_height
      → linked_next (link_one nodes p k) (k + 1) update i l ≡ linked_next nodes k (p ∷ update) i l
  relink nodes p update k i l w hn hp np hk = elim (Bool-cases (k == l)) [
    | inl e ↦
        ground (arith, update_at_below (k + 1) update l, next_of-link_one nodes p k i l w hn hp hk)
    | inr e ↦ elim (Option-cases (update_at (k + 1) update l)) [
      | inl o ↦ ground (arith, next_of-link_one nodes p k i l w hn hp hk)
      | inr (q, o) ↦ ground (
        arith,
        next_of-link_one nodes p k i l w hn hp hk,
        next_of-link_one nodes p k q l w hn hp hk,
      )
    ]
  ]

  pub next_of-link_levels :
      (update : List ℕ) (k : ℕ) (nodes : List SkipNode) (i l : ℕ)
      → IsWide nodes
      → new_idx < length nodes
      → InFront nodes update
      → k + length update ≤ max_height
      → next_of (link_levels new_idx k update nodes) i l ≡ linked_next nodes k update i l
  unfolding link_levels
  next_of-link_levels [] k nodes i l w hn hu hk = refl
  next_of-link_levels (p ∷ update) k nodes i l w hn hu hk =
      let same : length (link_one nodes p k) ≡ length nodes =
        length-set_next p k (some new_idx) _
        ∙ length-set_next new_idx k (next_of nodes p k) nodes in
      next_of-link_levels update (k + 1) (link_one nodes p k) i l
        (set_next-IsWide p k _ _ (set_next-IsWide new_idx k _ nodes w)) (omega (arith, same))
        (All-imp _ _ (λ q h. (omega (arith, same, h.0), h.1)) update hu.1) (omega arith)
      ∙ relink nodes p update k i l w hn hu.0.0 hu.0.1 (omega arith)
