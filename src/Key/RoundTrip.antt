-- ===== src/Key/RoundTrip.antt =====
-- Taking a composite key apart again (crates/flushdb-types/src/composite_key.rs).
use flushdb.Base.{◌+◌, ◌≤◌, ◌≡◌, refl, true, false, [], ◌∷◌, ◌++◌, arith}
use flushdb.Base.{some, length, length-append}
use flushdb.Base.{take-append_length, drop-append_add, ◌↔◌}
use flushdb.Base.Bytes.{Bytes}
use flushdb.Error.{ok, >>=-eq-ok}
use flushdb.Key.{
  separator, encode, has_separator, validate_record_id, validate_item_key, new, from_bytes,
  separator_position, record_id, item_key, max_record_id_len, max_item_key_len,
  max_composite_key_len,
}

-- What `validate_record_id` accepts.
pub record IsRecordId (r : Bytes) : Type 0 where
  pub not_empty : 1 ≤ length r
  pub no_separator : has_separator r ≡ false
  pub short : length r ≤ max_record_id_len

pub validate_record_id_ok : (r : Bytes) → validate_record_id r ≡ ok tt → IsRecordId r
unfolding validate_record_id
validate_record_id_ok [] h = cc
validate_record_id_ok (b ∷ bs) h = record {
  not_empty = omega arith;
  no_separator = ground arith;
  short = ground arith;
}

pub validate_record_id_accepts : (r : Bytes) → IsRecordId r → validate_record_id r ≡ ok tt
unfolding validate_record_id
validate_record_id_accepts [] v = absurd (omega (arith, v.not_empty))
validate_record_id_accepts (b ∷ bs) v = ground (arith, v.no_separator, v.short)

pub validate_item_key_ok : (k : Bytes) → validate_item_key k ≡ ok tt → length k ≤ max_item_key_len
unfolding validate_item_key
validate_item_key_ok k h = ground arith

pub validate_item_key_accepts :
    (k : Bytes) → length k ≤ max_item_key_len → validate_item_key k ≡ ok tt
unfolding validate_item_key
validate_item_key_accepts k h = ground arith

pub separator_position-encode :
    (r k : Bytes) → has_separator r ≡ false → separator_position (encode r k) ≡ some (length r)
unfolding separator_position encode has_separator
separator_position-encode [] k h = refl
separator_position-encode (b ∷ bs) k h = ground (arith, separator_position-encode bs k)

pub record_id-encode : (r k : Bytes) → has_separator r ≡ false → record_id (encode r k) ≡ r
unfolding record_id
record_id-encode r k h =
    rw (separator_position-encode r k h, record_id)
      (unfold encode in take-append_length r _ (length r) refl)

pub item_key-encode : (r k : Bytes) → has_separator r ≡ false → item_key (encode r k) ≡ k
unfolding item_key
item_key-encode r k h =
    rw (separator_position-encode r k h, item_key)
      (unfold encode in drop-append_add r _ (length r + 1) 1 refl)

has_separator-append : (r k : Bytes) → has_separator (r ++ (separator ∷ k)) ≡ true
unfolding has_separator
has_separator-append [] k = refl
has_separator-append (b ∷ bs) k = ground (arith, has_separator-append bs k)

pub from_bytes-encode : (r k : Bytes) → from_bytes (encode r k) ≡ ok (encode r k)
unfolding from_bytes encode
from_bytes-encode r k = rw (has_separator-append r k)

pub new_valid :
    (r k : Bytes) {key : Bytes}
    → new r k ≡ ok key
    → IsRecordId r × (length k ≤ max_item_key_len) × (key ≡ encode r k)
unfolding new
new_valid r k {key} h =
    let (_, vr, h') = >>=-eq-ok (validate_record_id r) _ h in
    let (_, vk, e) = >>=-eq-ok (validate_item_key k) _ h' in
    (validate_record_id_ok r vr, validate_item_key_ok k vk, cc)

length-encode : (r k : Bytes) → length (encode r k) ≡ length r + 1 + length k
unfolding encode
length-encode r k = rw length-append (omega arith)

-- A key that `new` builds splits into the record id and the item key that it was built from, it is
-- accepted by `from_bytes`, and it is at most 4353 bytes long.
pub new_parts :
    (r k : Bytes) {key : Bytes}
    → new r k ≡ ok key
    → (record_id key ≡ r)
      × (item_key key ≡ k)
      × (from_bytes key ≡ ok key)
      × (length key ≤ max_composite_key_len)
new_parts r k {key} h =
    let (v, short, e) = new_valid r k h in
    rw e (
      record_id-encode r k v.no_separator,
      item_key-encode r k v.no_separator,
      from_bytes-encode r k,
      omega (arith, length-encode r k, v.short, short),
    )

-- `new` returns the encoding exactly when the record id is 1 to 256 bytes long with no zero byte
-- among them and the item key is at most 4096 bytes long.
pub new_accepts :
    (r k : Bytes) → (new r k ≡ ok (encode r k)) ↔ (IsRecordId r × (length k ≤ max_item_key_len))
unfolding new
new_accepts r k = (
  λ h. let (v, short, e) = new_valid r k h in (v, short),
  λ v. rw (validate_record_id_accepts r v.0, validate_item_key_accepts k v.1) refl,
)
