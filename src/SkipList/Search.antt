-- ===== src/SkipList/Search.antt =====
-- The walks over the levels of the skip list (crates/flushdb-engine/src/skiplist.rs) end in front
-- of the first entry that fails the test.
use flushdb.Base.{
  ℕ, zero, suc, ◌<◌, ◌≤◌, ◌≡◌, refl, ◌∙◌, Bool, true, false, List, [], ◌∷◌, none, some, arith, All,
  inl, inr, Bool-cases, Option-cases, length,
}
use flushdb.Entry.{MemtableEntry}
use flushdb.SkipList.{SkipNode, next_of, entry_at, walk, descend}
use flushdb.SkipList.Chain.{
  Chain, entries, In, Linked, Skip, here, over, Falls, Skip-trans, Skip-Falls, Skip-Linked,
  Linked-next_member, Linked-entry, All-In,
}

pub length-Skip :
    {before : MemtableEntry → Bool} {i u : ℕ} {r after : Chain}
    → Skip before i r u after
    → length after ≤ length r
length-Skip here = omega arith
length-Skip (over h p) = omega (arith, length-Skip p)

module _ (before : MemtableEntry → Bool) (nodes : List SkipNode) where
  -- The pointer of `u` on a level ends the walk there.
  abbrev pub Blocked : ℕ → ℕ → Type 0
  Blocked u level =
      (t : ℕ) (e : MemtableEntry)
      → next_of nodes u level ≡ some t
      → entry_at nodes t ≡ some e
      → before e ≡ false

  jump :
      (i : ℕ) (rest : Chain) (t : ℕ) (e : MemtableEntry)
      → Linked nodes i rest
      → Falls before (entries rest)
      → In t rest
      → entry_at nodes t ≡ some e
      → before e ≡ true
      → (after : Chain) × Skip before i rest t after × (length after < length rest)
  jump i [] t e g f m he hb = absurd m
  jump i ((j, x) ∷ rest) t e g f (inl p) he hb =
      let same : before x ≡ true = cc (g.3) in (rest, rw p (over same here), omega arith)
  jump i ((j, x) ∷ rest) t e g f (inr m) he hb = elim (Bool-cases (before x)) [
    | inl hx ↦
        let (after, sk, shorter) = jump j rest t e (g.4) (f.1) m he hb in
        (after, over hx sk, omega arith)
    | inr hx ↦ absurd (cc (All-In nodes (λ y. before y ≡ false) j rest t e (g.4) (f.0 hx) m he))
  ]

  walk_end : (level fuel i : ℕ) → next_of nodes i level ≡ none → walk before nodes level fuel i ≡ i
  unfolding walk
  walk_end level zero i h = refl
  walk_end level (suc fuel) i h = ground arith

  walk_stop :
      (level fuel i t : ℕ) (e : MemtableEntry)
      → next_of nodes i level ≡ some t
      → entry_at nodes t ≡ some e
      → before e ≡ false
      → walk before nodes level fuel i ≡ i
  unfolding walk
  walk_stop level zero i t e h k b = refl
  walk_stop level (suc fuel) i t e h k b = ground arith

  walk_on :
      (level fuel i t : ℕ) (e : MemtableEntry)
      → next_of nodes i level ≡ some t
      → entry_at nodes t ≡ some e
      → before e ≡ true
      → walk before nodes level (suc fuel) i ≡ walk before nodes level fuel t
  unfolding walk
  walk_on level fuel i t e h k b = ground arith

  -- One walk: it skips entries that pass, and ends where the level leads no further.
  pub record Stopped (level i : ℕ) (rest : Chain) (u : ℕ) : Type 0 where
    pub after : Chain
    pub skipped : Skip before i rest u after
    pub blocked : Blocked u level

  stay : (level i : ℕ) (rest : Chain) (u : ℕ) → u ≡ i → Blocked i level → Stopped level i rest u
  stay level i rest u e b = rw e (record { after = rest; skipped = here; blocked = b })

  pub walk-Stopped :
      (level fuel i : ℕ) (rest : Chain)
      → length rest ≤ fuel
      → Linked nodes i rest
      → Falls before (entries rest)
      → Stopped level i rest (walk before nodes level fuel i)
  walk-Stopped level zero i [] h g f =
      stay level i [] _ (walk_end level zero i (g level)) (λ t e p. cc (g level))
  walk-Stopped level zero i ((j, e) ∷ rest) h g f = absurd (omega arith)
  walk-Stopped level (suc fuel) i rest h g f = elim (Option-cases (next_of nodes i level)) [
    | inl p ↦ stay level i rest _ (walk_end level (suc fuel) i p) (λ t e q. cc)
    | inr (t, p) ↦
        let m = Linked-next_member nodes i rest level t g p in
        let (e, he) = Linked-entry nodes i rest t g m in
        elim (Bool-cases (before e)) [
          | inl b ↦
              let (after, sk, shorter) = jump i rest t e g f m he b in
              let r =
                walk-Stopped level fuel t after (omega arith) (Skip-Linked nodes sk g)
                  (Skip-Falls sk f) in
              rw (walk_on level fuel i t e p he b)
                (record { after = r.after; skipped = Skip-trans sk r.skipped; blocked = r.blocked })
          | inr b ↦
              stay level i rest _ (walk_stop level (suc fuel) i t e p he b)
                (λ t' e' q k. let same : before e' ≡ before e = cc in same ∙ b)
        ]
  ]

  -- The descent ends with the entries that pass skipped, and none of the rest passes.
  pub descend-Stopped :
      (level i : ℕ) (rest : Chain)
      → length rest ≤ length nodes
      → Linked nodes i rest
      → Falls before (entries rest)
      → Stopped 0 i rest (descend before nodes (suc level) i)
  unfolding descend
  descend-Stopped zero i rest h g f = walk-Stopped 0 (length nodes) i rest h g f
  descend-Stopped (suc level) i rest h g f =
      let r = walk-Stopped (suc level) (length nodes) i rest h g f in
      let r' =
        descend-Stopped level (walk before nodes (suc level) (length nodes) i) r.after
          (omega (arith, length-Skip r.skipped)) (Skip-Linked nodes r.skipped g)
          (Skip-Falls r.skipped f) in
      record { after = r'.after; skipped = Skip-trans r.skipped r'.skipped; blocked = r'.blocked }

  -- Stopped on level 0, the rest of the chain begins with an entry that fails, so all of it fails.
  pub Stopped_rest :
      (i : ℕ) (rest : Chain) (u : ℕ)
      → Linked nodes i rest
      → Falls before (entries rest)
      → (s : Stopped 0 i rest u) → All (λ x. before x ≡ false) (entries (s.after))
  Stopped_rest i rest u g f s =
      go (s.after) (Skip-Linked nodes s.skipped g) (Skip-Falls s.skipped f) s.blocked
    where
      go :
          (after : Chain)
          → Linked nodes u after
          → Falls before (entries after)
          → Blocked u 0
          → All (λ x. before x ≡ false) (entries after)
      go [] g' f' b = tt
      go ((j, e) ∷ r) g' f' b = let hb = b j e (g'.0) (g'.3) in (hb, f'.0 hb)
