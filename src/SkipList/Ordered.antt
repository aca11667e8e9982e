-- ===== src/SkipList/Ordered.antt =====
-- The order in which the skip list keeps its entries (crates/flushdb-engine/src/skiplist.rs): by
-- key, and under one key the highest sequence number first.
use flushdb.Base.{
  ◌≡◌, sym, ◌∙◌, true, false, List, [], ◌∷◌, Option, none, some, arith, All, ◌≤◌, inl, inr,
  Bool-cases, if◌then◌else◌, All-imp,
}
use flushdb.Base.Bytes.{
  bytes_eq, compare_bytes_refl, eq_of_compare_bytes, lt_of_gt_bytes, lt_trans_bytes, bytes_eq_iff,
}
use mathlib.Core.Path.{subst}
use flushdb.Key
use flushdb.Key.{CompositeKey}
use flushdb.Entry.{MemtableEntry}
use flushdb.SkipList.{precedes, same_slot}
use flushdb.SkipList.Read.{key_below}
use flushdb.SkipList.Chain.{Falls}

-- Strictly ascending: each entry comes before all that follow.
abbrev pub Sorted : List MemtableEntry → Type 0
Sorted [] = Unit
Sorted (e ∷ es) = All (λ x. precedes x e ≡ true) es × Sorted es

-- `insert` on the list of entries.
unfoldable pub put_in : MemtableEntry → List MemtableEntry → List MemtableEntry
unfolding precedes same_slot
put_in entry [] = entry ∷ []
put_in entry (e ∷ es) =
    let tail = put_in entry es in
    if precedes entry e then e ∷ tail else if same_slot entry e then entry ∷ es else entry ∷ e ∷ es

pub precedes_trans :
    (a b c : MemtableEntry) → precedes b a ≡ true → precedes c b ≡ true → precedes c a ≡ true
unfolding precedes Key.cmp
precedes_trans a b c h k = ground (
  arith,
  lt_trans_bytes a.composite_key b.composite_key c.composite_key,
  eq_of_compare_bytes a.composite_key b.composite_key,
  eq_of_compare_bytes b.composite_key c.composite_key,
)

-- Of two entries one comes before the other, or they have the same slot.
pub precedes_total :
    (a b : MemtableEntry) → precedes a b ≡ false → same_slot a b ≡ false → precedes b a ≡ true
unfolding precedes same_slot Key.cmp
precedes_total a b h k = ground (
  arith,
  lt_of_gt_bytes b.composite_key a.composite_key,
  eq_of_compare_bytes b.composite_key a.composite_key,
  compare_bytes_refl a.composite_key,
  bytes_eq_iff b.composite_key a.composite_key,
)

pub precedes_irrefl : (a : MemtableEntry) → precedes a a ≡ false
unfolding precedes Key.cmp
precedes_irrefl a = ground (arith, compare_bytes_refl a.composite_key)

pub Sorted-Falls :
    (entry : MemtableEntry) (es : List MemtableEntry) → Sorted es → Falls (precedes entry) es
Sorted-Falls entry [] s = tt
Sorted-Falls entry (e ∷ es) s = (
  λ h.
      All-imp _ _
        (λ x k. elim (Bool-cases (precedes entry x)) [
          | inl b ↦ cc (precedes_trans e x entry k b)
          | inr b ↦ b
        ])
        es s.0,
  Sorted-Falls entry es s.1,
)

key_below_trans :
    (key : CompositeKey) (a b : MemtableEntry)
    → precedes b a ≡ true
    → key_below key b ≡ true
    → key_below key a ≡ true
unfolding precedes key_below Key.cmp
key_below_trans key a b h k = ground (
  arith,
  lt_trans_bytes a.composite_key b.composite_key key,
  eq_of_compare_bytes a.composite_key b.composite_key,
)

pub Sorted-Falls_key :
    (key : CompositeKey) (es : List MemtableEntry) → Sorted es → Falls (key_below key) es
Sorted-Falls_key key [] s = tt
Sorted-Falls_key key (e ∷ es) s = (
  λ h.
      All-imp _ _
        (λ x k. elim (Bool-cases (key_below key x)) [
          | inl b ↦ cc (key_below_trans key e x k b)
          | inr b ↦ b
        ])
        es s.0,
  Sorted-Falls_key key es s.1,
)

pub same_slot_fields :
    (a b : MemtableEntry)
    → same_slot a b ≡ true
    → (b.composite_key ≡ a.composite_key) × (b.sequence_number ≡ a.sequence_number)
unfolding same_slot
same_slot_fields a b h =
    (ground (arith, bytes_eq_iff b.composite_key a.composite_key), ground arith)

same_slot_after :
    (entry e x : MemtableEntry)
    → same_slot entry e ≡ true
    → precedes x e ≡ true
    → precedes x entry ≡ true
unfolding precedes
same_slot_after entry e x k q = let (a, b) = same_slot_fields entry e k in rw (← a, ← b) q

put_in-All :
    (P : MemtableEntry → Type 0) (entry : MemtableEntry) (es : List MemtableEntry)
    → P entry
    → All P es
    → All P (put_in entry es)
unfolding put_in
put_in-All P entry [] p a = (p, tt)
put_in-All P entry (e ∷ es) p a = ground (arith, put_in-All P entry es p a.1)

-- The list stays strictly ascending.
pub put_in-Sorted :
    (entry : MemtableEntry) (es : List MemtableEntry) → Sorted es → Sorted (put_in entry es)
unfolding put_in
put_in-Sorted entry [] s = (tt, tt)
put_in-Sorted entry (e ∷ es) s = elim (Bool-cases (precedes entry e)) [
  | inl h ↦ rw h (put_in-All (λ x. precedes x e ≡ true) entry es h s.0, put_in-Sorted entry es s.1)
  | inr h ↦ elim (Bool-cases (same_slot entry e)) [
    | inl k ↦ rw (h, k) (All-imp _ _ (λ x q. same_slot_after entry e x k q) es s.0, s.1)
    | inr k ↦
        let first = precedes_total entry e h k in
        rw (h, k) ((first, All-imp _ _ (λ x q. precedes_trans entry e x first q) es s.0), s)
  ]
]

-- The first entry of a key; in a sorted list that is the one with the highest sequence number.
unfoldable pub find_key : CompositeKey → List MemtableEntry → Option MemtableEntry
find_key key [] = none
find_key key (e ∷ es) =
    let later = find_key key es in if bytes_eq e.composite_key key then some e else later

pub IsNewest : CompositeKey → List MemtableEntry → MemtableEntry → Type 0
IsNewest key es e =
    (e.composite_key ≡ key)
    × All (λ x. x.composite_key ≡ key → x.sequence_number ≤ e.sequence_number) es

precedes_seq :
    (a b : MemtableEntry)
    → precedes b a ≡ true
    → b.composite_key ≡ a.composite_key
    → b.sequence_number ≤ a.sequence_number
unfolding precedes Key.cmp
precedes_seq a b h e = ground (arith, compare_bytes_refl a.composite_key)

-- In a sorted list the entry that is found for a key is the newest one of that key.
pub find_key-IsNewest :
    (key : CompositeKey) (es : List MemtableEntry) (e : MemtableEntry)
    → Sorted es
    → find_key key es ≡ some e
    → IsNewest key es e
unfolding IsNewest find_key
find_key-IsNewest key [] e s h = cc
find_key-IsNewest key (x ∷ es) e s h = elim (Bool-cases (bytes_eq x.composite_key key)) [
  | inl k ↦
      let same : x ≡ e = ground arith in
      let at_key = (bytes_eq_iff x.composite_key key).0 k in
      subst (λ y. IsNewest key (x ∷ es) y) same
        (
          at_key,
          (λ p. omega arith, All-imp _ _ (λ y q p. precedes_seq x y q (p ∙ sym at_key)) es s.0),
        )
  | inr k ↦
      let (a, b) = find_key-IsNewest key es e s.1 (ground arith) in
      (a, (λ p. cc ((bytes_eq_iff x.composite_key key).1 p), b))
]
