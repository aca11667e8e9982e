-- ===== src/Base/Bytes.antt =====
-- Byte strings (`Bytes`, `&[u8]`, `Vec<u8>`) and their order, which is that of `[u8]`: the first
-- differing byte decides, and a proper prefix is less.
use flushdb.Base.Tests.{then_cmp, is_eq, is_le, is_lt}
use flushdb.Base.Lists.{length}
use Prim.Native.Nat.{ℕ, ◌<◌, compare, Ordering}
use Prim.Native.Nat.Ordering.{lt, eq, gt}
use mathlib.Core.Path.{◌≡◌, refl}
use mathlib.Core.Logic.{◌↔◌, ◌≢◌}
use mathlib.Core.Bool.{Bool, true}
use mathlib.Core.List.{List, [], ◌∷◌, ◌++◌}
use native.Mathlib.Omega.{arith}
use mathlib.Core.Bool.{false}

abbrev pub Bytes : Type 0
Bytes = List ℕ

abbrev pub IsByte : ℕ → Type 0
IsByte b = b < 256

unfoldable pub compare_bytes : Bytes → Bytes → Ordering
compare_bytes [] [] = eq
compare_bytes [] (b ∷ bs) = lt
compare_bytes (a ∷ as') [] = gt
compare_bytes (a ∷ as') (b ∷ bs) = then_cmp (compare a b) (compare_bytes as' bs)

pub compare_bytes_refl : (a : Bytes) → compare_bytes a a ≡ eq
unfolding compare_bytes
compare_bytes_refl [] = refl
compare_bytes_refl (x ∷ xs) = ground (arith, compare_bytes_refl xs)

pub eq_of_compare_bytes : (a b : Bytes) → compare_bytes a b ≡ eq → a ≡ b
unfolding compare_bytes
eq_of_compare_bytes [] [] h = refl
eq_of_compare_bytes [] (y ∷ ys) h = ground arith
eq_of_compare_bytes (x ∷ xs) [] h = ground arith
eq_of_compare_bytes (x ∷ xs) (y ∷ ys) h = ground (arith, eq_of_compare_bytes xs ys)

pub gt_of_lt_bytes : (a b : Bytes) → compare_bytes a b ≡ lt → compare_bytes b a ≡ gt
unfolding compare_bytes
gt_of_lt_bytes [] [] h = ground arith
gt_of_lt_bytes [] (y ∷ ys) h = refl
gt_of_lt_bytes (x ∷ xs) [] h = ground arith
gt_of_lt_bytes (x ∷ xs) (y ∷ ys) h = ground (arith, gt_of_lt_bytes xs ys)

pub lt_of_gt_bytes : (a b : Bytes) → compare_bytes a b ≡ gt → compare_bytes b a ≡ lt
unfolding compare_bytes
lt_of_gt_bytes [] [] h = ground arith
lt_of_gt_bytes [] (y ∷ ys) h = ground arith
lt_of_gt_bytes (x ∷ xs) [] h = refl
lt_of_gt_bytes (x ∷ xs) (y ∷ ys) h = ground (arith, lt_of_gt_bytes xs ys)

pub lt_trans_bytes :
    (a b c : Bytes) → compare_bytes a b ≡ lt → compare_bytes b c ≡ lt → compare_bytes a c ≡ lt
unfolding compare_bytes
lt_trans_bytes [] [] c h k = ground arith
lt_trans_bytes [] (y ∷ ys) [] h k = ground arith
lt_trans_bytes [] (y ∷ ys) (z ∷ zs) h k = refl
lt_trans_bytes (x ∷ xs) [] c h k = ground arith
lt_trans_bytes (x ∷ xs) (y ∷ ys) [] h k = ground arith
lt_trans_bytes (x ∷ xs) (y ∷ ys) (z ∷ zs) h k = ground (arith, lt_trans_bytes xs ys zs)

-- A common prefix does not matter.
pub compare_bytes-append : (p a b : Bytes) → compare_bytes (p ++ a) (p ++ b) ≡ compare_bytes a b
unfolding compare_bytes
compare_bytes-append [] a b = refl
compare_bytes-append (x ∷ xs) a b = ground (arith, compare_bytes-append xs a b)

unfoldable pub bytes_eq : Bytes → Bytes → Bool
bytes_eq a b = is_eq (compare_bytes a b)

pub bytes_eq_iff : (a b : Bytes) → (bytes_eq a b ≡ true) ↔ (a ≡ b)
unfolding bytes_eq
bytes_eq_iff a b =
    (λ h. eq_of_compare_bytes a b (ground arith), λ e. ground (arith, e, compare_bytes_refl a))

-- Blocks of one length are compared block by block.
pub compare_bytes-append_blocks :
    (xs ys us vs : Bytes)
    → length xs ≡ length ys
    → compare_bytes (xs ++ us) (ys ++ vs) ≡ then_cmp (compare_bytes xs ys) (compare_bytes us vs)
unfolding compare_bytes
compare_bytes-append_blocks [] [] us vs h = ground arith
compare_bytes-append_blocks [] (y ∷ ys) us vs h = absurd (omega arith)
compare_bytes-append_blocks (x ∷ xs) [] us vs h = absurd (omega arith)
compare_bytes-append_blocks (x ∷ xs) (y ∷ ys) us vs h =
    ground (arith, compare_bytes-append_blocks xs ys us vs (omega arith))

pub le_trans_bytes :
    (a b c : Bytes)
    → is_le (compare_bytes a b) ≡ true
    → is_le (compare_bytes b c) ≡ true
    → is_le (compare_bytes a c) ≡ true
unfolding compare_bytes
le_trans_bytes [] b [] h k = refl
le_trans_bytes [] b (z ∷ zs) h k = refl
le_trans_bytes (x ∷ xs) [] c h k = absurd (ground arith)
le_trans_bytes (x ∷ xs) (y ∷ ys) [] h k = absurd (ground arith)
le_trans_bytes (x ∷ xs) (y ∷ ys) (z ∷ zs) h k = ground (arith, le_trans_bytes xs ys zs)

pub lt_not_le : (a b : Bytes) → is_lt (compare_bytes a b) ≡ true → is_le (compare_bytes b a) ≡ false
unfolding compare_bytes
lt_not_le [] [] h = cc
lt_not_le [] (y ∷ ys) h = refl
lt_not_le (x ∷ xs) [] h = cc
lt_not_le (x ∷ xs) (y ∷ ys) h = ground (arith, lt_not_le xs ys)

not_lt_nil : (b : Bytes) → is_lt (compare_bytes b []) ≢ true
unfolding compare_bytes
not_lt_nil [] h = cc
not_lt_nil (x ∷ xs) h = cc

-- A string not behind `b`, which is before `c`, is before `c`.
pub lt_of_not_lt :
    (a b c : Bytes)
    → is_lt (compare_bytes b a) ≡ false
    → is_lt (compare_bytes b c) ≡ true
    → is_lt (compare_bytes a c) ≡ true
unfolding compare_bytes
lt_of_not_lt a b [] h k = absurd (not_lt_nil b k)
lt_of_not_lt [] b (z ∷ zs) h k = refl
lt_of_not_lt (x ∷ xs) [] (z ∷ zs) h k = cc
lt_of_not_lt (x ∷ xs) (y ∷ ys) (z ∷ zs) h k = ground (arith, lt_of_not_lt xs ys zs)

pub lt_trans_test :
    (a b c : Bytes)
    → is_lt (compare_bytes a b) ≡ true
    → is_lt (compare_bytes b c) ≡ true
    → is_lt (compare_bytes a c) ≡ true
lt_trans_test a b c h k = rw (lt_trans_bytes a b c (ground (arith, h)) (ground (arith, k))) refl

pub lt_of_lt_le :
    (a b c : Bytes)
    → is_lt (compare_bytes a b) ≡ true
    → is_le (compare_bytes b c) ≡ true
    → is_lt (compare_bytes a c) ≡ true
unfolding compare_bytes
lt_of_lt_le a [] c h k = absurd (not_lt_nil a h)
lt_of_lt_le [] (y ∷ ys) [] h k = cc
lt_of_lt_le [] (y ∷ ys) (z ∷ zs) h k = refl
lt_of_lt_le (x ∷ xs) (y ∷ ys) [] h k = cc
lt_of_lt_le (x ∷ xs) (y ∷ ys) (z ∷ zs) h k = ground (arith, lt_of_lt_le xs ys zs)

pub le_total : (a b : Bytes) → is_le (compare_bytes a b) ≡ false → is_le (compare_bytes b a) ≡ true
unfolding compare_bytes
le_total [] [] h = cc
le_total [] (y ∷ ys) h = cc
le_total (x ∷ xs) [] h = refl
le_total (x ∷ xs) (y ∷ ys) h = ground (arith, le_total xs ys)

pub not_lt_le : (a b : Bytes) → is_lt (compare_bytes a b) ≡ false → is_le (compare_bytes b a) ≡ true
unfolding compare_bytes
not_lt_le [] [] h = refl
not_lt_le [] (y ∷ ys) h = cc
not_lt_le (x ∷ xs) [] h = refl
not_lt_le (x ∷ xs) (y ∷ ys) h = ground (arith, not_lt_le xs ys)

pub le_not_lt : (a b : Bytes) → is_le (compare_bytes a b) ≡ true → is_lt (compare_bytes b a) ≡ false
unfolding compare_bytes
le_not_lt [] [] h = refl
le_not_lt [] (y ∷ ys) h = refl
le_not_lt (x ∷ xs) [] h = cc
le_not_lt (x ∷ xs) (y ∷ ys) h = ground (arith, le_not_lt xs ys)
