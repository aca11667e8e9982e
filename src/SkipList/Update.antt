-- ===== src/SkipList/Update.antt =====
-- The array `update` of `insert`, and the vector of nodes with the new one at its end
-- (crates/flushdb-engine/src/skiplist.rs).
use flushdb.Base.{
  ℕ, zero, suc, ◌+◌, ◌-◌, ◌<◌, ◌≤◌, ◌≡◌, refl, ◌∙◌, Bool, List, [], ◌∷◌, ◌++◌, Option, none, some,
  arith, All, inl, inr, Bool-cases, length, ◌==◌, if◌then◌else◌, get_elem?, get_or, take, replicate,
}
use flushdb.Entry.{MemtableEntry}
use flushdb.SkipList.{
  SkipNode, next_of, entry_at, path_down, max_height, new_node, grow_height, random_height, walk,
}
use flushdb.SkipList.Chain.{Chain, entries, Linked, Falls, Skip-trans, Skip-Falls, Skip-Linked}
use flushdb.SkipList.Search.{Stopped, walk-Stopped, length-Skip}
use flushdb.SkipList.Link.{update_at}

grow_height_bounds :
    (height : ℕ) (draws : List ℕ)
    → height ≤ max_height
    → (height ≤ grow_height height draws) × (grow_height height draws ≤ max_height)
unfolding grow_height
grow_height_bounds height [] h = (omega arith, h)
grow_height_bounds height (draw ∷ draws) h = ground (arith, grow_height_bounds (height + 1) draws)

-- A height is between 1 and 12, whatever the generator yields.
pub random_height_bounds :
    (draws : List ℕ) → (1 ≤ random_height draws) × (random_height draws ≤ max_height)
unfolding random_height
random_height_bounds draws = grow_height_bounds 1 draws (omega arith)

module _ (before : MemtableEntry → Bool) (nodes : List SkipNode) where
  get_elem?-path_down :
      (level i : ℕ) (acc : List ℕ) (m : ℕ)
      → get_elem? (path_down before nodes level i acc) (level + m) ≡ get_elem? acc m
  unfolding path_down
  get_elem?-path_down zero i acc m = let e : zero + m ≡ m = omega arith in rw e
  get_elem?-path_down (suc level) i acc m =
      let e : suc level + m ≡ level + suc m = omega arith in
      rw e (get_elem?-path_down level _ (_ ∷ acc) (suc m))

  pub length-path_down :
      (level i : ℕ) (acc : List ℕ)
      → length (path_down before nodes level i acc) ≡ level + length acc
  unfolding path_down
  length-path_down zero i acc = omega arith
  length-path_down (suc level) i acc = length-path_down level _ (_ ∷ acc) ∙ omega arith

  -- On each level of the list `update` holds the node where the walk of that level stops.
  pub path_down-Stopped :
      (level i : ℕ) (acc : List ℕ) (rest : Chain) (l p : ℕ)
      → length rest ≤ length nodes
      → Linked nodes i rest
      → Falls before (entries rest)
      → l < level
      → get_elem? (path_down before nodes level i acc) l ≡ some p
      → Stopped before nodes l i rest p
  unfolding path_down
  path_down-Stopped zero i acc rest l p h g f lt q = elim lt [ ]
  path_down-Stopped (suc level) i acc rest l p h g f lt q =
      let stop = walk before nodes level (length nodes) i in
      let s = walk-Stopped before nodes level (length nodes) i rest h g f in
      elim (Bool-cases (l == level)) [
        | inl e ↦
            let top = get_elem?-path_down level stop (stop ∷ acc) 0 in
            let at_top : l ≡ level + 0 = ground arith in
            let same : p ≡ stop = ground (arith, top, at_top) in
            let here_level : l ≡ level = ground arith in rw (same, here_level) s
        | inr e ↦
            let r =
              path_down-Stopped level stop (stop ∷ acc) (s.after) l p
                (omega (arith, length-Skip s.skipped)) (Skip-Linked nodes s.skipped g)
                (Skip-Falls s.skipped f) (ground arith) q in
            record {
              after = r.after;
              skipped = Skip-trans s.skipped r.skipped;
              blocked = r.blocked;
            }
      ]

pub update_at-take :
    (k n : ℕ) (update : List ℕ) (l p : ℕ)
    → update_at k (take n update) l ≡ some p
    → (k ≤ l) × (l < k + n) × (get_elem? update (l - k) ≡ some p)
update_at-take k zero update l p h = cc
update_at-take k (suc n) [] l p h = cc
update_at-take k (suc n) (q ∷ update) l p h = elim (Bool-cases (k == l)) [
  | inl e ↦ let z : l - k ≡ 0 = ground arith in (ground arith, ground arith, rw z (ground arith))
  | inr e ↦
      let (a, b, c) = update_at-take (k + 1) n update l p (ground arith) in
      let s : l - k ≡ suc (l - (k + 1)) = omega arith in (omega arith, omega arith, rw s c)
]

pub get_or-replicate : (n l : ℕ) → get_or (replicate {A = Option ℕ} n none) l none ≡ none
get_or-replicate zero l = refl
get_or-replicate (suc n) zero = refl
get_or-replicate (suc n) (suc l) = get_or-replicate n l

module _ (entry : MemtableEntry) (height : ℕ) where
  pub next_of-append_new :
      (nodes : List SkipNode) (i l : ℕ)
      → next_of (nodes ++ (new_node entry height ∷ [])) i l
        ≡ (if length nodes == i then none else next_of nodes i l)
  unfolding next_of new_node
  next_of-append_new [] zero l = get_or-replicate max_height l
  next_of-append_new [] (suc i) l = ground arith
  next_of-append_new (n ∷ nodes) zero l = ground arith
  next_of-append_new (n ∷ nodes) (suc i) l = ground (arith, next_of-append_new nodes i l)

  pub entry_at-append_new :
      (nodes : List SkipNode) (i : ℕ)
      → entry_at (nodes ++ (new_node entry height ∷ [])) i
        ≡ (if length nodes == i then some entry else entry_at nodes i)
  unfolding entry_at new_node
  entry_at-append_new [] zero = refl
  entry_at-append_new [] (suc i) = ground arith
  entry_at-append_new (n ∷ nodes) zero = ground arith
  entry_at-append_new (n ∷ nodes) (suc i) = ground (arith, entry_at-append_new nodes i)

pub entry_at_range :
    (nodes : List SkipNode) (i : ℕ) (e : MemtableEntry)
    → entry_at nodes i ≡ some e
    → i < length nodes
unfolding entry_at
entry_at_range [] i e h = cc
entry_at_range (n ∷ nodes) zero e h = omega arith
entry_at_range (n ∷ nodes) (suc i) e h = omega (arith, entry_at_range nodes i e h)

pub entry_at_end : (nodes : List SkipNode) → entry_at nodes (length nodes) ≡ none
unfolding entry_at
entry_at_end [] = refl
entry_at_end (n ∷ nodes) = entry_at_end nodes

pub update_at-take_zero :
    (n : ℕ) (update : List ℕ) (d : ℕ)
    → 1 ≤ n
    → 1 ≤ length update
    → update_at 0 (take n update) 0 ≡ some (get_or update 0 d)
update_at-take_zero zero update d h k = absurd (omega arith)
update_at-take_zero (suc n) [] d h k = absurd (omega arith)
update_at-take_zero (suc n) (p ∷ update) d h k = refl

update_at-add :
    (k : ℕ) (update : List ℕ) (l p : ℕ)
    → get_elem? update l ≡ some p
    → update_at k update (k + l) ≡ some p
update_at-add k [] l p h = cc
update_at-add k (q ∷ update) zero p h = ground arith
update_at-add k (q ∷ update) (suc l) p h =
    let e : k + suc l ≡ (k + 1) + l = omega arith in
    rw e (ground (arith, update_at-add (k + 1) update l p h))

pub update_at-get :
    (update : List ℕ) (l p : ℕ) → get_elem? update l ≡ some p → update_at 0 update l ≡ some p
update_at-get update l p h =
    let e : zero + l ≡ l = omega arith in rw e at (update_at-add 0 update l p h)

pub All-of_get {ℓ} :
    (P : ℕ → Type ℓ) (xs : List ℕ) → ((l p : ℕ) → get_elem? xs l ≡ some p → P p) → All P xs
All-of_get P [] f = tt
All-of_get P (x ∷ xs) f = (f 0 x refl, All-of_get P xs (λ l p h. f (suc l) p h))

pub length-take_le : (n : ℕ) (xs : List ℕ) → length (take n xs) ≤ n
length-take_le zero xs = omega arith
length-take_le (suc n) [] = omega arith
length-take_le (suc n) (x ∷ xs) = omega (arith, length-take_le n xs)
