-- ===== src/Compaction/Range.antt =====
-- The range of keys that `combined_key_range` computes, and the tables that overlap it.
use flushdb.Base.{
  ◌≡◌, refl, ap, Bool, true, false, not, ◌||◌, some, List, [], ◌∷◌, arith, All, All-imp, keep,
  if◌then◌else◌, is_lt, is_le, Bool-cases, inl, inr,
}
use flushdb.Base.Bytes.{
  Bytes, compare_bytes, le_trans_bytes, compare_bytes_refl, not_lt_le, le_not_lt,
}
use mathlib.Core.Path.{subst}
use mathlib.Core.List.{Mem, mem-cons_self, mem-cons_of_mem}
use flushdb.Manifest.{SstableMeta, overlaps_range, overlaps}
use flushdb.Compaction.{widen, combined_key_range}

-- `a <= b` on keys.
abbrev pub Le : Bytes → Bytes → Type 0
Le a b = is_le (compare_bytes a b) ≡ true

le_refl : (a : Bytes) → Le a a
le_refl a = rw (compare_bytes_refl a) refl

-- The range covers the one of the table.
abbrev pub Covers : Bytes × Bytes → SstableMeta → Type 0
Covers range m = Le (range.0) m.min_key × Le m.max_key (range.1)

lower_le :
    (a b : Bytes)
    → Le (if is_lt (compare_bytes a b) then a else b) a
      × Le (if is_lt (compare_bytes a b) then a else b) b
lower_le a b = elim (Bool-cases (is_lt (compare_bytes a b))) [
  | inl t ↦ rw t (le_refl a, ground (arith, t))
  | inr f ↦ rw f (not_lt_le a b f, le_refl b)
]

upper_le :
    (a b : Bytes)
    → Le a (if is_lt (compare_bytes a b) then b else a)
      × Le b (if is_lt (compare_bytes a b) then b else a)
upper_le a b = elim (Bool-cases (is_lt (compare_bytes a b))) [
  | inl t ↦ rw t (ground (arith, t), le_refl b)
  | inr f ↦ rw f (le_refl a, not_lt_le a b f)
]

widen-wider :
    (ssts : List SstableMeta) (lo hi : Bytes)
    → (Le ((widen ssts lo hi).0) lo × Le hi ((widen ssts lo hi).1))
      × All (Covers (widen ssts lo hi)) ssts
unfolding widen
widen-wider [] lo hi = ((le_refl lo, le_refl hi), tt)
widen-wider (m ∷ ms) lo hi =
    let lo' = if is_lt (compare_bytes m.min_key lo) then m.min_key else lo in
    let hi' = if is_lt (compare_bytes hi m.max_key) then m.max_key else hi in
    let ((l, h), rest) = widen-wider ms lo' hi' in
    let (a, b) = lower_le m.min_key lo in
    let (c, d) = upper_le hi m.max_key in
    (
      (le_trans_bytes _ lo' lo l b, le_trans_bytes hi hi' _ c h),
      ((le_trans_bytes _ lo' m.min_key l a, le_trans_bytes m.max_key hi' _ d h), rest),
    )

-- The ends of the range are the least key of one of the tables and the greatest key of one.
abbrev pub Spans : Bytes × Bytes → List SstableMeta → Type 0
Spans range ssts =
    ((i : SstableMeta) × Mem i ssts × (i.min_key ≡ range.0))
    × ((i : SstableMeta) × Mem i ssts × (i.max_key ≡ range.1))

lower-Spans :
    (all : List SstableMeta) (m : SstableMeta) (lo hi : Bytes)
    → Mem m all
    → Spans (lo, hi) all
    → Spans
        (
          if is_lt (compare_bytes m.min_key lo) then m.min_key else lo,
          if is_lt (compare_bytes hi m.max_key) then m.max_key else hi,
        )
        all
lower-Spans all m lo hi k (a, b) = (
  elim (Bool-cases (is_lt (compare_bytes m.min_key lo))) [
    | inl t ↦ rw t (m, k, refl)
    | inr f ↦ rw f a
  ],
  elim (Bool-cases (is_lt (compare_bytes hi m.max_key))) [
    | inl t ↦ rw t (m, k, refl)
    | inr f ↦ rw f b
  ],
)

widen-Spans :
    (all ssts : List SstableMeta) (lo hi : Bytes)
    → All (λ i. Mem i all) ssts
    → Spans (lo, hi) all
    → Spans (widen ssts lo hi) all
unfolding widen
widen-Spans all [] lo hi k e = e
widen-Spans all (m ∷ ms) lo hi k e = widen-Spans all ms _ _ k.1 (lower-Spans all m lo hi k.0 e)

own_members : (ssts : List SstableMeta) → All (λ i. Mem i ssts) ssts
own_members [] = tt
own_members (m ∷ ms) = (mem-cons_self, All-imp _ _ (λ i h. mem-cons_of_mem m h) ms (own_members ms))

range_inj : (a b : Bytes × Bytes) → some a ≡ some b → a ≡ b
range_inj a b h = cc h

pub combined-Covers :
    (ssts : List SstableMeta) (range : Bytes × Bytes)
    → combined_key_range ssts ≡ some range
    → All (Covers range) ssts
unfolding combined_key_range
combined-Covers [] range e = cc
combined-Covers (m ∷ ms) range e =
    let (w, rest) = widen-wider ms m.min_key m.max_key in
    subst (λ r. All (Covers r) (m ∷ ms)) (range_inj _ range e) (w, rest)

pub combined-Spans :
    (ssts : List SstableMeta) (range : Bytes × Bytes)
    → combined_key_range ssts ≡ some range
    → Spans range ssts
unfolding combined_key_range
combined-Spans [] range e = cc
combined-Spans (m ∷ ms) range e =
    let start : Spans (m.min_key, m.max_key) (m ∷ ms) =
      ((m, mem-cons_self, refl), (m, mem-cons_self, refl)) in
    let inside = widen-Spans (m ∷ ms) ms m.min_key m.max_key (own_members (m ∷ ms)).1 start in
    subst (λ r. Spans r (m ∷ ms)) (range_inj _ range e) inside

pub keep-keep :
    (p q : SstableMeta → Bool) (xs : List SstableMeta)
    → ((m : SstableMeta) → p m ≡ true → q m ≡ true)
    → keep p (keep q xs) ≡ keep p xs
keep-keep p q [] h = refl
keep-keep p q (x ∷ xs) h = elim (Bool-cases (q x)) [
  | inl kept ↦ elim (Bool-cases (p x)) [
    | inl t ↦ rw (keep, kept, t) (ap (λ (ms : List SstableMeta). x ∷ ms) (keep-keep p q xs h))
    | inr f ↦ rw (keep, kept, f) (keep-keep p q xs h)
  ]
  | inr lost ↦
      let f : p x ≡ false = elim (Bool-cases (p x)) [ inl t ↦ cc (h x t, lost) | inr f ↦ f ] in
      rw (keep, lost, f) (keep-keep p q xs h)
]

apart : (a b : Bool) → not (a || b) ≡ true → (a ≡ false) × (b ≡ false)
apart true b h = cc
apart false true h = cc
apart false false h = (refl, refl)

pub overlaps_wider :
    (range : Bytes × Bytes) (i t : SstableMeta)
    → Covers range i
    → overlaps i t ≡ true
    → overlaps_range (range.0) (range.1) t ≡ true
unfolding overlaps overlaps_range
overlaps_wider range i t (lo, hi) h =
    let (a, b) = apart _ _ h in
    let left = le_trans_bytes (range.0) i.min_key t.max_key lo (not_lt_le t.max_key i.min_key a) in
    let right = le_trans_bytes t.min_key i.max_key (range.1) (not_lt_le i.max_key t.min_key b) hi in
    rw (le_not_lt (range.0) t.max_key left, le_not_lt t.min_key (range.1) right) refl
