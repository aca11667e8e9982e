-- ===== src/Search.antt =====
-- `slice::binary_search_by` of Rust's standard library, with which the crates search sorted
-- vectors, and `partition_point`. The algorithm is that of the library: it halves the range down to
-- one element and compares that.
pub mod Laws
pub mod Partition
pub mod Member
use flushdb.Base.{
  ℕ, zero, suc, ◌+◌, ◌-◌, ◌/◌, Bool, true, false, List, none, some, length, get_elem?, ltb, ◌==◌,
  if◌then◌else◌, Ordering,
}
use Prim.Native.Nat.Ordering.{lt, eq, gt}

-- `Result<usize, usize>`
pub data SearchResult : Type 0 where
  found : ℕ → SearchResult
  missing : ℕ → SearchResult

abbrev pub is_gt : Ordering → Bool
is_gt gt = true
is_gt _ = false

-- `while size > 1`; each round takes one off the size at least, so that a fuel of `size` is enough.
unfoldable pub narrow : (ℕ → Ordering) → ℕ → ℕ → ℕ → ℕ
narrow f zero size base = base
narrow f (suc fuel) size base =
    let half = size / 2 in
    let mid = base + half in
    let rest = narrow f fuel (size - half) (if is_gt (f mid) then base else mid) in
    if ltb 1 size then rest else base

unfoldable pub conclude : Ordering → ℕ → SearchResult
conclude eq base = found base
conclude lt base = missing (base + 1)
conclude gt base = missing base

unfoldable pub binary_search : (ℕ → Ordering) → ℕ → SearchResult
unfolding narrow conclude
binary_search f size =
    let base = narrow f size size 0 in if size == 0 then missing 0 else conclude (f base) base

-- The comparison at an index; behind the end it is not made.
unfoldable pub cmp_at {ℓ} : {A : Type ℓ} → (A → Ordering) → List A → ℕ → Ordering
cmp_at f xs i = elim (get_elem? xs i) [ none ↦ gt | some x ↦ f x ]

unfoldable pub binary_search_by {ℓ} : {A : Type ℓ} → (A → Ordering) → List A → SearchResult
unfolding binary_search cmp_at
binary_search_by f xs = binary_search (cmp_at f xs) (length xs)

-- `unwrap_or_else(|i| i)`
unfoldable pub position : SearchResult → ℕ
position (found i) = i
position (missing i) = i

-- `slice::partition_point`, as the library defines it.
unfoldable pub partition_point {ℓ} : {A : Type ℓ} → (A → Bool) → List A → ℕ
partition_point pred xs = position (binary_search_by (λ x. if pred x then lt else gt) xs)

-- The test at an index, false behind the end.
abbrev pub holds_at {ℓ} : {A : Type ℓ} → (A → Bool) → List A → ℕ → Bool
holds_at pred xs i = elim (get_elem? xs i) [ none ↦ false | some x ↦ pred x ]
