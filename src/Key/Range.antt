-- ===== src/Key/Range.antt =====
-- The key interval of a record (`min_key_for_record` and `max_key_for_record` of
-- crates/flushdb-types/src/composite_key.rs).
use flushdb.Base.{◌≡◌, refl, Bool, true, false, [], ◌∷◌, arith}
use flushdb.Base.{then_cmp, is_le, is_lt, ◌↔◌, ◌&&◌, All, Bool-cases, inl, inr}
use flushdb.Base.Bytes.{
  Bytes, IsByte, compare_bytes, compare_bytes_refl, eq_of_compare_bytes, gt_of_lt_bytes,
}
use flushdb.Error.{ok, >>=-eq-ok}
use flushdb.Key.{
  CompositeKey, validate_record_id, from_record_only, encode, has_separator, cmp, new,
  min_key_for_record, max_key_for_record, starts_tombstone, range_tombstone_key,
  range_tombstone_prefix, is_range_tombstone, item_key, record_id,
}
use flushdb.Key.RoundTrip.{
  new_valid, validate_record_id_ok, record_id-encode, item_key-encode, IsRecordId,
}
use flushdb.Key.Order.{cmp-encode}

abbrev pub upper : Bytes
upper = range_tombstone_prefix ∷ []

-- The half-open interval test that a scan makes.
abbrev pub in_range : CompositeKey → CompositeKey → CompositeKey → Bool
in_range lo hi key = is_le (cmp lo key) && is_lt (cmp key hi)

below_upper :
    (k : Bytes)
    → All IsByte k
    → (is_lt (compare_bytes k upper) ≡ true) ↔ (starts_tombstone k ≡ false)
unfolding compare_bytes starts_tombstone
below_upper [] h = ground arith
below_upper (b ∷ []) h = ground arith
below_upper (b ∷ c ∷ bs) h = ground arith

is_le_nil : (k : Bytes) → is_le (compare_bytes [] k) ≡ true
unfolding compare_bytes
is_le_nil [] = refl
is_le_nil (b ∷ bs) = refl

module _ (r s k : Bytes) (bk : All IsByte k) where
  -- The two comparisons of a scan, by record id and then by item key.
  abbrev parts_in_range : Bool
  parts_in_range =
      is_le (then_cmp (compare_bytes r s) (compare_bytes [] k))
      && is_lt (then_cmp (compare_bytes s r) (compare_bytes k upper))

  parts_only : parts_in_range ≡ true → (s ≡ r) × (starts_tombstone k ≡ false)
  parts_only h = ground (
    arith,
    eq_of_compare_bytes s r,
    gt_of_lt_bytes r s,
    gt_of_lt_bytes s r,
    eq_of_compare_bytes r s,
    (below_upper k bk).0,
  )

  parts_if : s ≡ r → starts_tombstone k ≡ false → parts_in_range ≡ true
  parts_if e h = rw (e, compare_bytes_refl r) (ground (arith, is_le_nil k, (below_upper k bk).1 h))

encode_bounds :
    (r s k : Bytes)
    → has_separator r ≡ false
    → has_separator s ≡ false
    → All IsByte k
    → (in_range (encode r []) (encode r upper) (encode s k) ≡ true)
      ↔ ((record_id (encode s k) ≡ r) × (is_range_tombstone (encode s k) ≡ false))
unfolding is_range_tombstone
encode_bounds r s k hr hs bk =
    rw
      (
        cmp-encode r s [] k hr hs,
        cmp-encode s r k upper hs hr,
        record_id-encode s k hs,
        item_key-encode s k hs,
      )
      (parts_only r s k bk, λ h. parts_if r s k bk h.0 h.1)

max_key-encode : (r : Bytes) {hi : Bytes} → max_key_for_record r ≡ ok hi → hi ≡ encode r upper
unfolding max_key_for_record encode
max_key-encode r h = let (_, _, e) = >>=-eq-ok (validate_record_id r) _ h in cc

-- For keys of bytes that were built, a scan from the record's least key up to, not including, its
-- greatest one sees exactly the keys of that record whose item key does not begin with 0xFF.
pub scan_bounds :
    (r s k : Bytes) {lo hi key : Bytes}
    → All IsByte k
    → min_key_for_record r ≡ ok lo
    → max_key_for_record r ≡ ok hi
    → new s k ≡ ok key
    → (in_range lo hi key ≡ true) ↔ ((record_id key ≡ r) × (is_range_tombstone key ≡ false))
unfolding min_key_for_record from_record_only
scan_bounds r s k {lo} {hi} {key} bk hlo hhi hk =
    let (vr, _, elo) = new_valid r [] hlo in
    let (vs, _, ek) = new_valid s k hk in
    rw (elo, max_key-encode r hhi, ek) (encode_bounds r s k vr.no_separator vs.no_separator bk)

pub range_tombstone_key_valid :
    (r start : Bytes) {key : Bytes}
    → range_tombstone_key r start ≡ ok key
    → IsRecordId r × (key ≡ encode r (range_tombstone_prefix ∷ start))
unfolding range_tombstone_key encode
range_tombstone_key_valid r start h =
    let (_, v, e) = >>=-eq-ok (validate_record_id r) _ h in
    (validate_record_id_ok r v, ground arith)

-- The key that is built for a range tombstone names its record and, behind the prefix byte, the
-- start of its range, and it lies outside the interval of every record.
pub range_tombstone_outside :
    (r start s : Bytes) {lo hi key : Bytes}
    → All IsByte start
    → range_tombstone_key r start ≡ ok key
    → min_key_for_record s ≡ ok lo
    → max_key_for_record s ≡ ok hi
    → (record_id key ≡ r)
      × (item_key key ≡ range_tombstone_prefix ∷ start)
      × (is_range_tombstone key ≡ true)
      × (in_range lo hi key ≡ false)
unfolding min_key_for_record from_record_only is_range_tombstone starts_tombstone
range_tombstone_outside r start s bs hk hlo hhi =
    let (vs, _, elo) = new_valid s [] hlo in
    let (vr, ek) = range_tombstone_key_valid r start hk in
    let k : Bytes = range_tombstone_prefix ∷ start in
    let sees = encode_bounds s r k vs.no_separator vr.no_separator (omega arith, bs) in
    rw (elo, max_key-encode s hhi, ek)
      (
        record_id-encode r k vr.no_separator,
        item_key-encode r k vr.no_separator,
        rw (item_key-encode r k vr.no_separator) refl,
        elim (Bool-cases (in_range (encode s []) (encode s upper) (encode r k))) [
          | inl e ↦ cc ((sees.0 e).1, item_key-encode r k vr.no_separator)
          | inr e ↦ e
        ],
      )
