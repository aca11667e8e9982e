-- ===== src/Merge/Order.antt =====
-- Which entry a step of the merge returns (crates/flushdb-engine/src/merge_iterator.rs).
use flushdb.Base.{
  ◌≡◌, refl, Bool, true, false, List, [], ◌∷◌, none, some, arith, All, All-imp, get_elem?, is_lt,
  inl, inr, Bool-cases, Option-cases,
}
use flushdb.Base.Bytes.{compare_bytes_refl, lt_of_gt_bytes, gt_of_lt_bytes, lt_trans_bytes}
use flushdb.Key
use flushdb.RangeTombstone.Order.{
  equal_less, less_equal, equal_equal, greater_equal, equal_greater, gt_trans, eq_sym,
}
use mathlib.Core.Path.{subst}
use flushdb.SkipList.{compare_entries}
use flushdb.Merge.{
  HeapItem, cmp_items, pop_greatest, MergeEntry, MergeIterator, VecSource, peek, next_entry,
}
use flushdb.Base.{not}

-- The first item is not less than the second.
unfoldable pub not_below : HeapItem → HeapItem → Bool
unfolding cmp_items
not_below a b = not (is_lt (cmp_items a b))

not_below_trans :
    (a b c : HeapItem) → not_below a b ≡ true → not_below b c ≡ true → not_below a c ≡ true
unfolding not_below Key.cmp
not_below_trans a b c h k = ground (
  arith,
  lt_trans_bytes c.key b.key a.key,
  lt_of_gt_bytes b.key a.key,
  lt_of_gt_bytes c.key b.key,
  gt_of_lt_bytes c.key a.key,
  eq_sym b.key a.key,
  eq_sym c.key b.key,
  equal_less c.key b.key a.key,
  less_equal c.key b.key a.key,
  equal_equal c.key b.key a.key,
  gt_trans c.key b.key a.key,
  equal_greater c.key b.key a.key,
  greater_equal c.key b.key a.key,
)

not_below_total : (a b : HeapItem) → not_below b a ≡ false → not_below a b ≡ true
unfolding not_below Key.cmp
not_below_total a b h = ground (
  arith,
  lt_of_gt_bytes a.key b.key,
  gt_of_lt_bytes a.key b.key,
  eq_sym a.key b.key,
  eq_sym b.key a.key,
  gt_of_lt_bytes b.key a.key,
)

not_below_refl : (a : HeapItem) → not_below a a ≡ true
unfolding not_below Key.cmp
not_below_refl a = ground (arith, compare_bytes_refl a.key)

pop_greatest-none : (xs : List HeapItem) → pop_greatest xs ≡ none → xs ≡ []
unfolding pop_greatest
pop_greatest-none [] h = refl
pop_greatest-none (x ∷ xs) h = elim (Option-cases (pop_greatest xs)) [
  | inl o ↦ absurd (ground (arith, h, o))
  | inr (p, o) ↦ elim (Bool-cases (is_lt (cmp_items x p.0))) [
    | inl l ↦ absurd (ground (arith, h, o, l))
    | inr l ↦ absurd (ground (arith, h, o, l))
  ]
]

-- The item that is taken out is not less than any, and has what all items have.
pop_greatest-greatest :
    (xs : List HeapItem) (top : HeapItem) (rest : List HeapItem)
    → pop_greatest xs ≡ some (top, rest)
    → All (λ x. not_below top x ≡ true) xs
unfolding pop_greatest
pop_greatest-greatest [] top rest h = tt
pop_greatest-greatest (x ∷ xs) top rest h = elim (Option-cases (pop_greatest xs)) [
  | inl o ↦
      let t : x ≡ top = ground (arith, h, o) in
      subst (λ y. All (λ z. not_below y z ≡ true) (x ∷ xs)) t
        (rw (pop_greatest-none xs o) (not_below_refl x, tt))
  | inr (p, o) ↦ elim (Bool-cases (is_lt (cmp_items x p.0))) [
    | inl l ↦
        let t : p.0 ≡ top = ground (arith, h, o, l) in
        let m : not_below x p.0 ≡ false = unfold not_below in ground (arith, l) in
        subst (λ y. All (λ z. not_below y z ≡ true) (x ∷ xs)) t
          (not_below_total p.0 x m, pop_greatest-greatest xs p.0 p.1 o)
    | inr l ↦
        let t : x ≡ top = ground (arith, h, o, l) in
        let m : not_below x p.0 ≡ true = unfold not_below in ground (arith, l) in
        subst (λ y. All (λ z. not_below y z ≡ true) (x ∷ xs)) t
          (
            not_below_refl x,
            All-imp _ _ (λ y q. not_below_trans x p.0 y m q) xs
                (pop_greatest-greatest xs p.0 p.1 o),
          )
  ]
]

pop_greatest-All :
    (P : HeapItem → Type 0) (xs : List HeapItem) (top : HeapItem) (rest : List HeapItem)
    → All P xs
    → pop_greatest xs ≡ some (top, rest)
    → P top
unfolding pop_greatest
pop_greatest-All P [] top rest a h = absurd (ground (arith, h))
pop_greatest-All P (x ∷ xs) top rest a h = elim (Option-cases (pop_greatest xs)) [
  | inl o ↦ let t : x ≡ top = ground (arith, h, o) in rw (← t) a.0
  | inr (p, o) ↦ elim (Bool-cases (is_lt (cmp_items x p.0))) [
    | inl l ↦
        let t : p.0 ≡ top = ground (arith, h, o, l) in
        rw (← t) (pop_greatest-All P xs p.0 p.1 a.1 o)
    | inr l ↦ let t : x ≡ top = ground (arith, h, o, l) in rw (← t) a.0
  ]
]

not_below-entries :
    (a b : HeapItem)
    → not_below a b ≡ true
    → is_lt (compare_entries b.key b.seq a.key a.seq) ≡ false
unfolding not_below compare_entries Key.cmp
not_below-entries a b h = ground arith

-- Every item of the heap stands for the entry that its source yields next.
unfoldable pub IsMerge : MergeIterator → Type 0
IsMerge it =
    All
      (λ item.
        (source : VecSource) × (e : MergeEntry) × (get_elem? it.sources item.source_idx
          ≡ some source)
        × (peek source ≡ some e)
        × (item.key ≡ e.composite_key)
        × (item.seq ≡ e.sequence_number))
      it.heap

-- Where every item of the heap stands for the entry that its source yields next, a step returns an
-- entry unless the heap is empty, and among the entries that the items stand for none has a less
-- key, or the same key and a higher number, than the one returned.
pub next_entry-first :
    (it : MergeIterator)
    → IsMerge it
    → (next_entry it ≡ none → it.heap ≡ [])
      × ((e : MergeEntry) (later : MergeIterator)
          → next_entry it ≡ some (e, later)
          → All
              (λ item.
                is_lt (compare_entries item.key item.seq e.composite_key e.sequence_number) ≡ false)
              it.heap)
unfolding IsMerge next_entry
next_entry-first it v = elim (Option-cases (pop_greatest it.heap)) [
  | inl o ↦ (λ h. pop_greatest-none it.heap o, λ e later h. absurd (ground (arith, h, o)))
  | inr (p, o) ↦
      let (source, entry, at, peeked, key, seq) = pop_greatest-All _ it.heap p.0 p.1 v o in
      (
        λ h. absurd (ground (arith, h, o, at, peeked)),
        λ e later h.
            let t : entry ≡ e = ground (arith, h, o, at, peeked) in
            All-imp _ _ (λ item q. rw (← t, ← key, ← seq) (not_below-entries p.0 item q)) it.heap
              (pop_greatest-greatest it.heap p.0 p.1 o),
      )
]
