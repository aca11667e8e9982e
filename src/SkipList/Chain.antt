-- ===== src/SkipList/Chain.antt =====
-- The linked structure of the skip list (crates/flushdb-engine/src/skiplist.rs): the chain of
-- level 0, and what the pointers of every level have to do with it.
use flushdb.Base.{
  ℕ, ◌≡◌, ◌≢◌, Bool, true, false, List, [], ◌∷◌, Option, none, some, All, ◌⊎◌, inl, inr,
}
use mathlib.Core.Path.{subst}
use flushdb.Entry.{MemtableEntry}
use flushdb.SkipList.{SkipNode, next_of, entry_at}

-- The nodes behind a node on level 0, each with its entry.
abbrev pub Chain : Type 0
Chain = List (ℕ × MemtableEntry)

abbrev pub entries : Chain → List MemtableEntry
entries [] = []
entries ((j, e) ∷ rest) = e ∷ entries rest

abbrev pub first_index : Chain → Option ℕ
first_index [] = none
first_index ((j, e) ∷ rest) = some j

abbrev pub In : ℕ → Chain → Type 0
In t [] = ⊥
In t ((j, e) ∷ rest) = (t ≡ j) ⊎ In t rest

-- From `i` on, level 0 visits `rest` in order, every pointer leads into the part behind its node,
-- and no node comes twice.
abbrev pub Linked : List SkipNode → ℕ → Chain → Type 0
Linked nodes i [] = (l : ℕ) → next_of nodes i l ≡ none
Linked nodes i ((j, e) ∷ rest) =
    (next_of nodes i 0 ≡ some j)
    × ((l t : ℕ) → next_of nodes i l ≡ some t → In t ((j, e) ∷ rest))
    × ((t : ℕ) → In t ((j, e) ∷ rest) → i ≢ t)
    × (entry_at nodes j ≡ some e)
    × Linked nodes j rest

-- `u`, with `after` behind it, is reached from `i` over entries that pass the test.
pub data Skip (before : MemtableEntry → Bool) : ℕ → Chain → ℕ → Chain → Type 0 where
  here : {i : ℕ} {rest : Chain} → Skip before i rest i rest
  over :
      {i j u : ℕ} {e : MemtableEntry} {rest after : Chain}
      → before e ≡ true
      → Skip before j rest u after
      → Skip before i ((j, e) ∷ rest) u after

-- The test fails for every entry behind one for which it fails.
abbrev pub Falls : (MemtableEntry → Bool) → List MemtableEntry → Type 0
Falls before [] = Unit
Falls before (e ∷ es) = (before e ≡ false → All (λ x. before x ≡ false) es) × Falls before es

module _ {before : MemtableEntry → Bool} where
  pub Skip-trans :
      {i j k : ℕ} {r s t : Chain} → Skip before i r j s → Skip before j s k t → Skip before i r k t
  Skip-trans here q = q
  Skip-trans (over h p) q = over h (Skip-trans p q)

  pub Skip-Falls :
      {i u : ℕ} {r s : Chain}
      → Skip before i r u s
      → Falls before (entries r)
      → Falls before (entries s)
  Skip-Falls here f = f
  Skip-Falls (over h p) f = Skip-Falls p f.1

  pub In-Skip : {i u : ℕ} {r s : Chain} (t : ℕ) → Skip before i r u s → In t s → In t r
  In-Skip t here m = m
  In-Skip t (over h p) m = inr (In-Skip t p m)

  pub Skip-Linked :
      (nodes : List SkipNode) {i u : ℕ} {r s : Chain}
      → Skip before i r u s
      → Linked nodes i r
      → Linked nodes u s
  Skip-Linked nodes here g = g
  Skip-Linked nodes (over h p) g = Skip-Linked nodes p (g.4)

module _ (nodes : List SkipNode) where
  pub Linked-next_zero :
      (i : ℕ) (rest : Chain) → Linked nodes i rest → next_of nodes i 0 ≡ first_index rest
  Linked-next_zero i [] g = g 0
  Linked-next_zero i ((j, e) ∷ rest) g = g.0

  pub Linked-next_member :
      (i : ℕ) (rest : Chain) (l t : ℕ)
      → Linked nodes i rest
      → next_of nodes i l ≡ some t
      → In t rest
  Linked-next_member i [] l t g h = cc (g l)
  Linked-next_member i ((j, e) ∷ rest) l t g h = g.1 l t h

  pub Linked-fresh : (i : ℕ) (rest : Chain) (t : ℕ) → Linked nodes i rest → In t rest → i ≢ t
  Linked-fresh i [] t g m = absurd m
  Linked-fresh i ((j, e) ∷ rest) t g m = g.2 t m

  pub Linked-entry :
      (i : ℕ) (rest : Chain) (t : ℕ)
      → Linked nodes i rest
      → In t rest
      → (e : MemtableEntry) × (entry_at nodes t ≡ some e)
  Linked-entry i [] t g m = absurd m
  Linked-entry i ((j, e) ∷ rest) t g (inl p) = (e, rw p (g.3))
  Linked-entry i ((j, e) ∷ rest) t g (inr m) = Linked-entry j rest t (g.4) m

  pub All-In :
      (P : MemtableEntry → Type 0) (i : ℕ) (rest : Chain) (t : ℕ) (e : MemtableEntry)
      → Linked nodes i rest
      → All P (entries rest)
      → In t rest
      → entry_at nodes t ≡ some e
      → P e
  All-In P i [] t e g a m h = absurd m
  All-In P i ((j, x) ∷ rest) t e g a (inl p) h = let same : x ≡ e = cc (g.3) in subst P same (a.0)
  All-In P i ((j, x) ∷ rest) t e g a (inr m) h = All-In P j rest t e (g.4) (a.1) m h
