-- ===== src/Sstable/Dedup/Laws.antt =====
-- The block of token hashes knows the tokens that it was built from, and it reads back.
use flushdb.Base.{
  ℕ, ◌+◌, ◌*◌, ◌/◌, ◌%◌, ◌^◌, ◌<◌, ◌≡◌, refl, sym, ap, Bool, true, false, List, [], ◌∷◌, ◌++◌,
  arith, All, All-imp, length, any, ltb, ==-eq-true, is_le, is_eq, Bool-cases, inl, inr,
  Ordering-cases, length-append,
}
use Prim.Native.Nat.Ordering.{lt, gt}
use flushdb.Base.Bytes.{Bytes, bytes_eq, bytes_eq_iff, compare_bytes, le_trans_bytes}
use flushdb.Base.Endian.{to_le}
use flushdb.Error.{ok}
use flushdb.Token
use flushdb.Token.{IdempotencyToken}
use mathlib.Core.Path.{subst}
use flushdb.Base.Bytes.{le_total}
use flushdb.Search.Partition.{Pairwise}
use flushdb.Search.Member.{search-member}
use flushdb.Sstable.Cursor.{At, number-At, slice-At}
use flushdb.Sstable.Dedup.{
  DedupBlock, hash_token, add, add_all, insert_sorted, sort, build, contains, put_hashes, serialize,
  read_hashes, deserialize,
}
use flushdb.Base.Bytes.{lt_of_gt_bytes}
use flushdb.Base.Bytes.{eq_of_compare_bytes}
use flushdb.Base.Bytes.{compare_bytes_refl}
use flushdb.Base.Bytes.{lt_trans_bytes}
use flushdb.Base.Bytes.{gt_of_lt_bytes}

abbrev LeBytes : Bytes → Bytes → Type 0
LeBytes a b = is_le (compare_bytes a b) ≡ true

lt_of_le_lt : (a b c : Bytes) → LeBytes a b → compare_bytes b c ≡ lt → compare_bytes a c ≡ lt
lt_of_le_lt a b c h k = elim (Ordering-cases (compare_bytes a b)) [
  | inl l ↦ lt_trans_bytes a b c l k
  | inr (inl e) ↦ rw (eq_of_compare_bytes a b e) k
  | inr (inr g) ↦ absurd (ground (arith, g, h))
]

gt_of_le_gt : (a b c : Bytes) → LeBytes a b → compare_bytes a c ≡ gt → compare_bytes b c ≡ gt
gt_of_le_gt a b c h k = elim (Ordering-cases (compare_bytes a b)) [
  | inl l ↦ gt_of_lt_bytes c b (lt_trans_bytes c a b (lt_of_gt_bytes a c k) l)
  | inr (inl e) ↦ rw (sym (eq_of_compare_bytes a b e)) k
  | inr (inr g) ↦ absurd (ground (arith, g, h))
]

insert-All :
    (P : Bytes → Type 0) (x : Bytes) (xs : List Bytes) → P x → All P xs → All P (insert_sorted x xs)
unfolding insert_sorted
insert-All P x [] p h = (p, tt)
insert-All P x (y ∷ ys) p h = elim (Bool-cases (is_le (compare_bytes x y))) [
  | inl le ↦ rw le (p, h)
  | inr later ↦ rw later (h.0, insert-All P x ys p h.1)
]

insert-Pairwise :
    (x : Bytes) (xs : List Bytes) → Pairwise LeBytes xs → Pairwise LeBytes (insert_sorted x xs)
unfolding insert_sorted
insert-Pairwise x [] p = (tt, tt)
insert-Pairwise x (y ∷ ys) p = elim (Bool-cases (is_le (compare_bytes x y))) [
  | inl le ↦
      rw le ((le, All-imp (LeBytes y) (LeBytes x) (λ z k. le_trans_bytes x y z le k) ys p.0), p)
  | inr later ↦
      rw later (insert-All (LeBytes y) x ys (le_total x y later) p.0, insert-Pairwise x ys p.1)
]

sort-Pairwise : (xs : List Bytes) → Pairwise LeBytes (sort xs)
unfolding sort
sort-Pairwise [] = tt
sort-Pairwise (x ∷ xs) = insert-Pairwise x (sort xs) (sort-Pairwise xs)

-- Whether the hash stands in the vector.
abbrev has : Bytes → List Bytes → Bool
has target = any (λ h. is_eq (compare_bytes h target))

has-insert_same : (target : Bytes) (xs : List Bytes) → has target (insert_sorted target xs) ≡ true
unfolding insert_sorted
has-insert_same target [] = ground (arith, compare_bytes_refl target)
has-insert_same target (y ∷ ys) =
    ground (arith, compare_bytes_refl target, has-insert_same target ys)

has-insert :
    (target x : Bytes) (xs : List Bytes)
    → has target xs ≡ true
    → has target (insert_sorted x xs) ≡ true
unfolding insert_sorted
has-insert target x [] h = cc
has-insert target x (y ∷ ys) h = ground (arith, has-insert target x ys)

has-sort : (target : Bytes) (xs : List Bytes) → has target xs ≡ true → has target (sort xs) ≡ true
unfolding sort
has-sort target [] h = h
has-sort target (x ∷ xs) h = elim (Bool-cases (is_eq (compare_bytes x target))) [
  | inl same ↦
      let e = eq_of_compare_bytes x target (ground arith) in rw e (has-insert_same target (sort xs))
  | inr other ↦ has-insert target x (sort xs) (has-sort target xs (ground (arith, other, h)))
]

has_known :
    (target : Bytes) (xs : List Bytes) → any (bytes_eq target) xs ≡ true → has target xs ≡ true
has_known target [] h = h
has_known target (x ∷ xs) h = elim (Bool-cases (bytes_eq target x)) [
  | inl same ↦ let e = (bytes_eq_iff target x).0 same in rw (e, compare_bytes_refl x) refl
  | inr other ↦ ground (arith, has_known target xs, other, h)
]

has-add_same :
    (hashes : List Bytes) (token : IdempotencyToken)
    → Token.is_none token ≡ false
    → has (hash_token token) (add hashes token) ≡ true
unfolding add
has-add_same hashes token real = elim (Bool-cases (any (bytes_eq (hash_token token)) hashes)) [
  | inl known ↦ rw (real, known) (has_known (hash_token token) hashes known)
  | inr new_one ↦ rw (real, new_one) (ground (arith, compare_bytes_refl (hash_token token)))
]

has-add :
    (target : Bytes) (hashes : List Bytes) (token : IdempotencyToken)
    → has target hashes ≡ true
    → has target (add hashes token) ≡ true
unfolding add
has-add target hashes token h = ground (arith, h)

has-add_all_known :
    (target : Bytes) (hashes : List Bytes) (tokens : List IdempotencyToken)
    → has target hashes ≡ true
    → has target (add_all hashes tokens) ≡ true
unfolding add_all
has-add_all_known target hashes [] h = h
has-add_all_known target hashes (t ∷ ts) h =
    has-add_all_known target (add hashes t) ts (has-add target hashes t h)

has-add_all :
    (hashes : List Bytes) (tokens : List IdempotencyToken) (token : IdempotencyToken)
    → any (bytes_eq token) tokens ≡ true
    → Token.is_none token ≡ false
    → has (hash_token token) (add_all hashes tokens) ≡ true
unfolding add_all
has-add_all hashes [] token m real = cc
has-add_all hashes (t ∷ ts) token m real = elim (Bool-cases (bytes_eq token t)) [
  | inl here ↦ has-add_all_known (hash_token token) (add hashes t) ts (
      subst (λ u. has (hash_token token) (add hashes u) ≡ true) ((bytes_eq_iff token t).0 here)
        (has-add_same hashes token real))
  | inr other ↦ has-add_all (add hashes t) ts token (ground (arith, other, m)) real
]

-- The block that is built from tokens contains each of them, but for the none sentinel.
pub contains-build :
    (tokens : List IdempotencyToken) (token : IdempotencyToken)
    → any (bytes_eq token) tokens ≡ true
    → Token.is_none token ≡ false
    → contains (build (add_all [] tokens)) token ≡ true
unfolding contains build
contains-build tokens token m real =
    let hashes = add_all [] tokens in
    let target = hash_token token in
    rw real (
      search-member (λ h. compare_bytes h target) (λ x y r g. gt_of_le_gt x y target r g)
        (λ x y r l. lt_of_le_lt x y target r l) (sort hashes) (sort-Pairwise hashes)
        (has-sort target hashes (has-add_all [] tokens token m real)))

abbrev pub IsHash : Bytes → Type 0
IsHash h = length h ≡ 16

length-put_hashes : (hs : DedupBlock) → All IsHash hs → length (put_hashes hs) ≡ 16 * length hs
unfolding put_hashes
length-put_hashes [] v = omega arith
length-put_hashes (h ∷ hs) v =
    omega (arith, length-append h (put_hashes hs), v.0, length-put_hashes hs v.1)

read_hashes-At :
    (hs : DedupBlock) (i : ℕ) (hash_data : Bytes)
    → All IsHash hs
    → At hash_data (i * 16) (put_hashes hs)
    → read_hashes (length hs) i hash_data ≡ hs
unfolding read_hashes put_hashes
read_hashes-At [] i hash_data v a = refl
read_hashes-At (h ∷ hs) i hash_data v a =
    let (e, b) =
      slice-At hash_data (i * 16) (i * 16 + 16) h (put_hashes hs) a (omega (arith, v.0)) in
    let w : i * 16 + 16 ≡ (i + 1) * 16 = omega arith in
    rw e (
      ap (λ (t : List Bytes). h ∷ t)
        (read_hashes-At hs (i + 1) hash_data v.1 (subst (λ p. At hash_data p (put_hashes hs)) w b)))

serialize_few :
    (hs : DedupBlock) → length hs < 2 ^ 32 → serialize hs ≡ to_le 4 (length hs) ++ put_hashes hs
unfolding serialize
serialize_few hs few = let w : length hs % 2 ^ 32 ≡ length hs = omega arith in rw w refl

-- A block of fewer than 2 ^ 32 hashes of 16 bytes reads back.
pub deserialize-serialize :
    (hashes : DedupBlock)
    → All IsHash hashes
    → length hashes < 2 ^ 32
    → deserialize (serialize hashes) ≡ ok hashes
unfolding deserialize
deserialize-serialize hashes v few =
    let buf = to_le 4 (length hashes) ++ put_hashes hashes in
    let start : At buf 0 (to_le 4 (length hashes) ++ put_hashes hashes) = (refl, omega arith) in
    let (e1, a1) =
      number-At buf 0 4 4 (length hashes) (put_hashes hashes) start (omega arith) few in
    let long : ltb (length buf) 4 ≡ false = ground (arith, a1.1) in
    let size = length-put_hashes hashes v in
    let aligned = ==-eq-true (length (put_hashes hashes) % 16) 0 (omega (arith, size)) in
    let counted =
      ==-eq-true (length (put_hashes hashes) / 16) (length hashes) (omega (arith, size)) in
    rw (serialize_few hashes few, long, e1, a1.0, aligned, counted)
      (ap (λ hs. ok hs) (read_hashes-At hashes 0 (put_hashes hashes) v (refl, omega arith)))
