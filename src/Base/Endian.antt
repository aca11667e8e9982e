-- ===== src/Base/Endian.antt =====
-- Fixed-width integers as bytes: `to_le_bytes`, `from_le_bytes`, `to_be_bytes`, `from_be_bytes`.
use flushdb.Base.Tests.{then_cmp}
use flushdb.Base.Lists.{All, length, length-append, All-append}
use flushdb.Base.Bytes.{Bytes, IsByte, compare_bytes, compare_bytes-append_blocks}
use Prim.Native.Nat.{ℕ, zero, suc, ◌+◌, ◌*◌, ◌/◌, ◌%◌, ◌^◌, ◌<◌, compare}
use mathlib.Core.Path.{◌≡◌, refl, sym, ◌∙◌}
use mathlib.Core.List.{[], ◌∷◌, ◌++◌, foldl, foldl-append}
use native.Mathlib.Omega.{arith}

-- The `n` bytes of `v`, lowest first.
unfoldable pub to_le : ℕ → ℕ → Bytes
to_le zero v = []
to_le (suc n) v = v % 256 ∷ to_le n (v / 256)

unfoldable pub from_le : Bytes → ℕ
from_le [] = 0
from_le (b ∷ bs) = b + 256 * from_le bs

pub length-to_le : (n v : ℕ) → length (to_le n v) ≡ n
unfolding to_le
length-to_le zero v = refl
length-to_le (suc n) v = omega (arith, length-to_le n (v / 256))

pub to_le-IsByte : (n v : ℕ) → All IsByte (to_le n v)
unfolding to_le
to_le-IsByte zero v = tt
to_le-IsByte (suc n) v = (omega arith, to_le-IsByte n (v / 256))

pub from_le-to_le : (n v : ℕ) → v < 256 ^ n → from_le (to_le n v) ≡ v
unfolding to_le from_le
from_le-to_le zero v h = omega arith
from_le-to_le (suc n) v h = omega (arith, from_le-to_le n (v / 256) (grind arith))

-- The `n` bytes of `v`, highest first.
unfoldable pub to_be : ℕ → ℕ → Bytes
to_be zero v = []
to_be (suc n) v = to_be n (v / 256) ++ (v % 256 ∷ [])

abbrev push_byte : ℕ → ℕ → ℕ
push_byte acc b = acc * 256 + b

unfoldable pub from_be : Bytes → ℕ
from_be = foldl push_byte 0

pub length-to_be : (n v : ℕ) → length (to_be n v) ≡ n
unfolding to_be
length-to_be zero v = refl
length-to_be (suc n) v = rw length-append (omega (arith, length-to_be n (v / 256)))

pub to_be-IsByte : (n v : ℕ) → All IsByte (to_be n v)
unfolding to_be
to_be-IsByte zero v = tt
to_be-IsByte (suc n) v = All-append IsByte _ _ (to_be-IsByte n (v / 256)) (omega arith, tt)

from_be-append : (bs : Bytes) (b : ℕ) → from_be (bs ++ (b ∷ [])) ≡ from_be bs * 256 + b
unfolding from_be
from_be-append bs b = rw foldl-append

pub from_be-to_be : (n v : ℕ) → v < 256 ^ n → from_be (to_be n v) ≡ v
unfolding to_be
from_be-to_be zero v h = unfold from_be in omega arith
from_be-to_be (suc n) v h =
    from_be-append (to_be n (v / 256)) (v % 256)
    ∙ omega (arith, from_be-to_be n (v / 256) (grind arith))

compare_bytes_one : (a b : ℕ) → compare_bytes (a ∷ []) (b ∷ []) ≡ compare a b
unfolding compare_bytes
compare_bytes_one a b = ground arith

compare_digits :
    (v w : ℕ) → then_cmp (compare (v / 256) (w / 256)) (compare (v % 256) (w % 256)) ≡ compare v w
compare_digits v w = ground arith

-- Byte order is numeric order.
pub compare_bytes-to_be :
    (n v w : ℕ) → v < 256 ^ n → w < 256 ^ n → compare_bytes (to_be n v) (to_be n w) ≡ compare v w
unfolding to_be
compare_bytes-to_be zero v w h k = unfold compare_bytes in ground arith
compare_bytes-to_be (suc n) v w h k =
    compare_bytes-append_blocks _ _ (v % 256 ∷ []) (w % 256 ∷ [])
      (length-to_be n (v / 256) ∙ sym (length-to_be n (w / 256)))
    ∙ rw (compare_bytes-to_be n (v / 256) (w / 256) (grind arith) (grind arith), compare_bytes_one)
        (compare_digits v w)
