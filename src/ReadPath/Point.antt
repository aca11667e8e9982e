-- ===== src/ReadPath/Point.antt =====
-- A read of a key from the tables is not stale.
use flushdb.Base.{
  ℕ, ◌≤◌, ◌≡◌, refl, sym, ap, ◌∙◌, arith, Option, none, some, List, [], ◌∷◌, All, All-imp, leb,
  Bool-cases, inl, inr,
}
use flushdb.Error.{ok, ok_inj, >>=-eq-ok}
use mathlib.Core.Path.{subst}
use flushdb.Key
use flushdb.Merge.{is_tombstone}
use flushdb.Key.{CompositeKey}
use flushdb.Merge.{MergeEntry}
use flushdb.MemtableList
use flushdb.MemtableList.{MemtableList}
use flushdb.Sstable.BlockReader.{BlockEntry}
use flushdb.ReadPath.{
  Handle, LevelState, from_block_entry, better, take_answer, ask_handles, ask_levels, visible,
  visible_best, point_read,
}
use flushdb.ReadPath.{read_behind}

-- An entry with at least the number.
abbrev AtLeast : ℕ → Option MergeEntry → Type 0
AtLeast seq result = (b : MergeEntry) × (result ≡ some b) × (seq ≤ b.sequence_number)

better_keeps :
    (best : Option MergeEntry) (e : MergeEntry) (seq : ℕ)
    → AtLeast seq best
    → AtLeast seq (some (better best e))
unfolding better
better_keeps none e seq (b, h, k) = cc
better_keeps (some c) e seq (b, h, k) =
    let same : c ≡ b = cc h in
    let bound : seq ≤ c.sequence_number = subst (λ m. seq ≤ m.sequence_number) (sym same) k in
    elim (Bool-cases (leb e.sequence_number c.sequence_number)) [
      | inl t ↦ rw t (c, refl, bound)
      | inr f ↦ rw f (e, refl, ground (arith, f, bound))
    ]

better_new :
    (best : Option MergeEntry) (e : MergeEntry) → AtLeast e.sequence_number (some (better best e))
unfolding better
better_new none e = (e, refl, omega arith)
better_new (some c) e = elim (Bool-cases (leb e.sequence_number c.sequence_number)) [
  | inl t ↦ rw t (c, refl, ground arith)
  | inr f ↦ rw f (e, refl, omega arith)
]

take_keeps :
    (best : Option MergeEntry) (answer : Option BlockEntry) (seq : ℕ)
    → AtLeast seq best
    → AtLeast seq (take_answer best answer)
unfolding take_answer
take_keeps best none seq a = a
take_keeps best (some e) seq a = better_keeps best (from_block_entry e) seq a

answer_inj : (x e : BlockEntry) → some x ≡ some e → x ≡ e
answer_inj x e h = cc h

take_new :
    (best : Option MergeEntry) (answer : Option BlockEntry) (e : BlockEntry)
    → answer ≡ some e
    → AtLeast e.sequence_number (take_answer best answer)
unfolding take_answer from_block_entry
take_new best none e h = cc
take_new best (some x) e h =
    subst (λ y. AtLeast y.sequence_number (some (better best (from_block_entry x))))
      (answer_inj x e h) (better_new best (from_block_entry x))

-- What the table answers is no newer than the result.
abbrev pub Covered : CompositeKey → Option MergeEntry → Handle → Type 0
Covered key result h = (e : BlockEntry) → h key ≡ ok (some e) → AtLeast e.sequence_number result

handles_keep :
    (key : CompositeKey) (hs : List Handle) (best : Option MergeEntry) {result : Option MergeEntry}
    (seq : ℕ)
    → ask_handles key hs best ≡ ok result
    → AtLeast seq best
    → AtLeast seq result
unfolding ask_handles
handles_keep key [] best seq e a = subst (AtLeast seq) (ok_inj e) a
handles_keep key (h ∷ hs) best seq e a =
    let (answer, q, e') = >>=-eq-ok (h key) _ e in
    handles_keep key hs (take_answer best answer) seq e' (take_keeps best answer seq a)

handles_cover :
    (key : CompositeKey) (hs : List Handle) (best : Option MergeEntry) {result : Option MergeEntry}
    → ask_handles key hs best ≡ ok result
    → All (Covered key result) hs
unfolding ask_handles
handles_cover key [] best e = tt
handles_cover key (h ∷ hs) best e =
    let (answer, q, e') = >>=-eq-ok (h key) _ e in
    (
      λ x k.
          handles_keep key hs (take_answer best answer) x.sequence_number e'
            (take_new best answer x (ok_inj (sym q ∙ k))),
      handles_cover key hs (take_answer best answer) e',
    )

levels_keep :
    (key : CompositeKey) (ls : List LevelState) (best : Option MergeEntry)
    {result : Option MergeEntry} (seq : ℕ)
    → ask_levels key ls best ≡ ok result
    → AtLeast seq best
    → AtLeast seq result
unfolding ask_levels
levels_keep key [] best seq e a = subst (AtLeast seq) (ok_inj e) a
levels_keep key (l ∷ ls) best seq e a =
    let (best', q, e') = >>=-eq-ok (ask_handles key (l.find_candidates_for_key key) best) _ e in
    levels_keep key ls best' seq e' (handles_keep key (l.find_candidates_for_key key) best seq q a)

abbrev pub LevelCovered : CompositeKey → Option MergeEntry → LevelState → Type 0
LevelCovered key result l = All (Covered key result) (l.find_candidates_for_key key)

levels_cover :
    (key : CompositeKey) (ls : List LevelState) (best : Option MergeEntry)
    {result : Option MergeEntry}
    → ask_levels key ls best ≡ ok result
    → All (LevelCovered key result) ls
unfolding ask_levels
levels_cover key [] best e = tt
levels_cover key (l ∷ ls) best e =
    let (best', q, e') = >>=-eq-ok (ask_handles key (l.find_candidates_for_key key) best) _ e in
    (
      All-imp (Covered key best') _
          (λ h c x k. levels_keep key ls best' x.sequence_number e' (c x k)) _
          (handles_cover key (l.find_candidates_for_key key) best q),
      levels_cover key ls best' e',
    )

visible_best-some :
    (l : MemtableList) (key : CompositeKey) (best : Option MergeEntry) {found : MergeEntry}
    → visible_best l key best ≡ some found
    → best ≡ some found
unfolding visible
visible_best-some l key none h = cc
visible_best-some l key (some e) h = elim (Bool-cases (is_tombstone e)) [
  | inl t ↦ absurd (ground (arith, t, h))
  | inr f ↦
      elim (Bool-cases (
        MemtableList.range_tombstone_covers (Key.record_id key) (Key.item_key key) e.sequence_number
          l)) [ inl t ↦ absurd (ground (arith, f, t, h)) | inr g ↦ ground (arith, f, g, h) ]
]

point_read_absent :
    (key : CompositeKey) (l : MemtableList) (levels : List LevelState)
    → MemtableList.get key l ≡ none
    → point_read key l levels ≡ read_behind key l levels none
unfolding point_read
point_read_absent key l levels absent = ap (read_behind key l levels) absent

behind_none :
    (key : CompositeKey) (l : MemtableList) (levels : List LevelState) (shown : Option MergeEntry)
    → read_behind key l levels none ≡ ok shown
    → (best : Option MergeEntry) × (ask_levels key levels none ≡ ok best)
      × (visible_best l key best ≡ shown)
unfolding read_behind
behind_none key l levels shown e =
    let (best, q, e') = >>=-eq-ok (ask_levels key levels none) _ e in (best, q, ok_inj e')

-- Where the memtables return no entry of the key and the read returns one, no candidate table of
-- any level answers with a higher sequence number.
pub point_read-newest :
    (key : CompositeKey) (l : MemtableList) (levels : List LevelState) (found : MergeEntry)
    → MemtableList.get key l ≡ none
    → point_read key l levels ≡ ok (some found)
    → All (LevelCovered key (some found)) levels
point_read-newest key l levels found absent e =
    let (best, q, e') =
      behind_none key l levels (some found) (sym (point_read_absent key l levels absent) ∙ e) in
    let shown = visible_best-some l key best e' in
    levels_cover key levels none (q ∙ ap (λ b. ok b) shown)
