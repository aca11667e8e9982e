-- ===== src/MemtableList/Freeze.antt =====
-- Freezing the active memtable (crates/flushdb-engine/src/memtable_list.rs): nothing that a reader
-- sees changes, and memtables leave in the order in which they were frozen.
use flushdb.Base.{
  ℕ, ◌≡◌, ◌↔◌, refl, sym, ◌∙◌, false, [], ◌∷◌, none, some, arith, inl, inr, Bool-cases, length, leb,
}
use flushdb.Base.Bytes.{Bytes}
use flushdb.Error.{ok, ok_inj}
use flushdb.Key.{CompositeKey}
use flushdb.Token.{IdempotencyToken}
use flushdb.RangeTombstone
use flushdb.SkipList.Read
use flushdb.Memtable
use flushdb.Memtable.{Memtable}
use flushdb.Memtable.Invariant.{new-IsMemtable}
use flushdb.SkipList.Ordered.{find_key}
use flushdb.Memtable.Visible.{get-seen, seen}
use flushdb.MemtableList.{
  MemtableList, get, get_first, check_dedup, frozen_has, range_tombstone_covers,
  all_range_tombstones, freeze_active_with_generation, pop, pop_oldest_frozen_with_generation,
  is_backpressured,
}

-- The list after a freeze that is accepted.
unfoldable pub frozen_list : ℕ → MemtableList → MemtableList
unfolding Memtable.new Memtable.freeze
frozen_list generation_id l = record l {
  active = Memtable.new l.config l.active.next_sequence_number;
  frozen = Memtable.freeze l.active ∷ l.frozen;
  frozen_generation_ids = generation_id ∷ l.frozen_generation_ids;
}

freeze_accepted :
    (g : ℕ) (l : MemtableList) {l' : MemtableList}
    → freeze_active_with_generation g l ≡ ok l'
    → l' ≡ frozen_list g l
unfolding freeze_active_with_generation frozen_list
freeze_accepted g l h = elim (Bool-cases (leb l.config.max_frozen_count (length l.frozen))) [
  | inl e ↦ absurd (ground (arith, h))
  | inr e ↦ sym (ok_inj (sym (rw e refl) ∙ h))
]

get-new :
    (key : CompositeKey) (l : MemtableList)
    → Memtable.get key (Memtable.new l.config l.active.next_sequence_number) ≡ none
unfolding seen find_key Read.iter Memtable.new
get-new key l = get-seen key _ (new-IsMemtable l.config l.active.next_sequence_number)

get-freeze :
    (key : CompositeKey) (m : Memtable) → Memtable.get key (Memtable.freeze m) ≡ Memtable.get key m
unfolding Memtable.get Memtable.freeze Memtable.covered
get-freeze key m = refl

check_dedup-freeze :
    (token : IdempotencyToken) (m : Memtable)
    → Memtable.check_dedup token (Memtable.freeze m) ≡ Memtable.check_dedup token m
unfolding Memtable.check_dedup Memtable.freeze
check_dedup-freeze token m = refl

check_dedup-new :
    (token : IdempotencyToken) (l : MemtableList)
    → Memtable.check_dedup token (Memtable.new l.config l.active.next_sequence_number) ≡ false
unfolding Memtable.check_dedup Memtable.new Memtable.dedup_contains
check_dedup-new token l = ground arith

module _ (g : ℕ) (l : MemtableList) where
  get-frozen_list : (key : CompositeKey) → get key (frozen_list g l) ≡ get key l
  unfolding get get_first frozen_list
  get-frozen_list key = ground (arith, get-new key l, get-freeze key l.active)

  check_dedup-frozen_list :
      (token : IdempotencyToken) → check_dedup token (frozen_list g l) ≡ check_dedup token l
  unfolding check_dedup frozen_has frozen_list
  check_dedup-frozen_list token =
      ground (arith, check_dedup-new token l, check_dedup-freeze token l.active)

  covers-frozen_list :
      (r k : Bytes) (seq : ℕ)
      → range_tombstone_covers r k seq (frozen_list g l) ≡ range_tombstone_covers r k seq l
  unfolding range_tombstone_covers frozen_list Memtable.new Memtable.freeze RangeTombstone.covers
  covers-frozen_list r k seq = refl

  tombstones-frozen_list : all_range_tombstones (frozen_list g l) ≡ all_range_tombstones l
  unfolding all_range_tombstones frozen_list Memtable.new Memtable.freeze
  tombstones-frozen_list = refl

  next-frozen_list : (frozen_list g l).active.next_sequence_number ≡ l.active.next_sequence_number
  unfolding frozen_list Memtable.new
  next-frozen_list = refl

-- An accepted freeze of the active memtable changes no lookup, no duplicate check, no cover by a
-- range tombstone and no list of range tombstones, and the sequence numbers go on where they were.
pub freeze_keeps :
    (g : ℕ) (l : MemtableList) {l' : MemtableList}
    → freeze_active_with_generation g l ≡ ok l'
    → ((key : CompositeKey) → get key l' ≡ get key l)
      × ((token : IdempotencyToken) → check_dedup token l' ≡ check_dedup token l)
      × ((r k : Bytes) (seq : ℕ)
          → range_tombstone_covers r k seq l' ≡ range_tombstone_covers r k seq l)
      × (all_range_tombstones l' ≡ all_range_tombstones l)
      × (l'.active.next_sequence_number ≡ l.active.next_sequence_number)
freeze_keeps g l h = rw (freeze_accepted g l h) (
  get-frozen_list g l,
  check_dedup-frozen_list g l,
  covers-frozen_list g l,
  tombstones-frozen_list g l,
  next-frozen_list g l,
)

-- Freezing succeeds exactly when the list is not under back-pressure.
pub freeze_refused :
    (g : ℕ) (l : MemtableList)
    → (is_backpressured l ≡ false)
      ↔ ((l' : MemtableList) × (freeze_active_with_generation g l ≡ ok l'))
unfolding is_backpressured freeze_active_with_generation
freeze_refused g l = elim (Bool-cases (leb l.config.max_frozen_count (length l.frozen))) [
  | inl e ↦ (λ h. absurd (ground (arith, h)), λ h. let (l', a) = h in absurd (ground (arith, e, a)))
  | inr e ↦ (λ h. (frozen_list g l, (unfold frozen_list in rw e refl)), λ h. e)
]

-- Where a frozen memtable can be popped, an accepted freeze in between changes neither which
-- memtable comes next nor its generation.
pub pop-freeze :
    (g : ℕ) (l : MemtableList) {l' rest : MemtableList} {generation : ℕ} {oldest : Memtable}
    → freeze_active_with_generation g l ≡ ok l'
    → pop_oldest_frozen_with_generation l ≡ some (generation, (oldest, rest))
    → pop_oldest_frozen_with_generation l' ≡ some (generation, (oldest, frozen_list g rest))
unfolding pop_oldest_frozen_with_generation frozen_list
pop-freeze g l {rest = rest} h p = rw (freeze_accepted g l h) (ground (arith, p))

-- From a list with no frozen memtable, the one that an accepted freeze freezes is popped under its
-- generation, and popping it leaves no frozen one.
pub pop-freeze_first :
    (g : ℕ) (l : MemtableList) {l' : MemtableList}
    → l.frozen ≡ []
    → l.frozen_generation_ids ≡ []
    → freeze_active_with_generation g l ≡ ok l'
    → pop_oldest_frozen_with_generation l'
      ≡ some (g, (Memtable.freeze l.active, record l' { frozen = []; frozen_generation_ids = [] }))
unfolding pop_oldest_frozen_with_generation frozen_list pop
pop-freeze_first g l n ns h = rw (freeze_accepted g l h) (ground (arith, n, ns))
