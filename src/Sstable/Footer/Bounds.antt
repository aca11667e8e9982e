-- ===== src/Sstable/Footer/Bounds.antt =====
-- The truncated keys of a footer bound the keys of its table.
use flushdb.Base.{
  ℕ, zero, suc, ◌-◌, ◌≤◌, ◌≡◌, refl, ◌∙◌, true, [], ◌∷◌, ◌++◌, arith, length, take, replicate, ltb,
  is_le, is_ge,
}
use flushdb.Base.Bytes.{compare_bytes_refl, Bytes, compare_bytes}
use flushdb.Base.{ap, Bool-cases, inl, inr}
use flushdb.Key.{CompositeKey, cmp}
use flushdb.Sstable.Footer.{SstFooter, truncate_key, may_contain_key}
use flushdb.Base.{Ordering-cases}
use flushdb.Base.Bytes.{gt_of_lt_bytes}
use flushdb.Base.Bytes.{eq_of_compare_bytes}
use flushdb.Base.Bytes.{compare_bytes_refl}

-- The first `n` bytes, with zeros where there are fewer.
pad : ℕ → Bytes → Bytes
pad zero key = []
pad (suc n) [] = 0 ∷ pad n []
pad (suc n) (b ∷ bs) = b ∷ pad n bs

pad_nil : (n : ℕ) → replicate n 0 ≡ pad n []
unfolding pad
pad_nil zero = refl
pad_nil (suc n) = rw (pad_nil n) refl

pad_short :
    (n : ℕ) (key : Bytes)
    → length key ≤ n
    → take (length key) key ++ replicate (n - length key) 0 ≡ pad n key
unfolding pad
pad_short n [] h = let w : n - 0 ≡ n = omega arith in rw w (pad_nil n)
pad_short zero (b ∷ bs) h = absurd (omega arith)
pad_short (suc n) (b ∷ bs) h =
    let w : suc n - suc (length bs) ≡ n - length bs = omega arith in
    rw w (ap (λ (t : Bytes). b ∷ t) (pad_short n bs (omega arith)))

pad_long : (n : ℕ) (key : Bytes) → n ≤ length key → take n key ++ [] ≡ pad n key
unfolding pad
pad_long zero key h = refl
pad_long (suc n) [] h = absurd (omega arith)
pad_long (suc n) (b ∷ bs) h = ap (λ (t : Bytes). b ∷ t) (pad_long n bs (omega arith))

truncate_pad : (key : CompositeKey) → truncate_key key ≡ pad 16 key
unfolding truncate_key
truncate_pad key = elim (Bool-cases (ltb (length key) 16)) [
  | inl short ↦ rw short (pad_short 16 key (ground arith))
  | inr long ↦ rw long (pad_long 16 key (ground arith))
]

nil_le : (b : Bytes) → is_le (compare_bytes [] b) ≡ true
unfolding compare_bytes
nil_le [] = refl
nil_le (y ∷ ys) = refl

-- Padding and cutting keep the order, if not strictly.
pad_mono :
    (n : ℕ) (a b : Bytes)
    → is_le (compare_bytes a b) ≡ true
    → is_le (compare_bytes (pad n a) (pad n b)) ≡ true
unfolding pad compare_bytes
pad_mono zero a b h = refl
pad_mono (suc n) [] [] h = ground (arith, pad_mono n [] [] refl)
pad_mono (suc n) [] (y ∷ ys) h = ground (arith, pad_mono n [] ys (nil_le ys))
pad_mono (suc n) (x ∷ xs) [] h = absurd (ground arith)
pad_mono (suc n) (x ∷ xs) (y ∷ ys) h = ground (arith, pad_mono n xs ys)

truncate_mono :
    (a b : CompositeKey)
    → is_le (cmp a b) ≡ true
    → is_le (compare_bytes (truncate_key a) (truncate_key b)) ≡ true
unfolding cmp
truncate_mono a b h = rw (truncate_pad a, truncate_pad b) (pad_mono 16 a b h)

ge_of_le : (a b : Bytes) → is_le (compare_bytes a b) ≡ true → is_ge (compare_bytes b a) ≡ true
ge_of_le a b h = elim (Ordering-cases (compare_bytes a b)) [
  | inl l ↦ rw (gt_of_lt_bytes a b l) refl
  | inr (inl e) ↦ rw (eq_of_compare_bytes a b e, compare_bytes_refl b) refl
  | inr (inr g) ↦ absurd (ground (arith, g))
]

-- A key between the least and the greatest key of a table passes the test of the footer that holds
-- their truncations.
pub may_contain_between :
    (f : SstFooter) (first last key : CompositeKey)
    → f.min_key ≡ truncate_key first
    → f.max_key ≡ truncate_key last
    → is_le (cmp first key) ≡ true
    → is_le (cmp key last) ≡ true
    → may_contain_key f key ≡ true
unfolding may_contain_key
may_contain_between f first last key m n h k =
    rw (m, n, ge_of_le _ _ (truncate_mono first key h), truncate_mono key last k) refl

length-pad : (n : ℕ) (key : Bytes) → length (pad n key) ≡ n
unfolding pad
length-pad zero key = refl
length-pad (suc n) [] = omega (arith, length-pad n [])
length-pad (suc n) (b ∷ bs) = omega (arith, length-pad n bs)

pub length-truncate_key : (key : CompositeKey) → length (truncate_key key) ≡ 16
length-truncate_key key = ap length (truncate_pad key) ∙ length-pad 16 key
