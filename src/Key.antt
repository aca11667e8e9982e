-- ===== src/Key.antt =====
-- The composite key of crates/flushdb-types/src/composite_key.rs.
pub mod RoundTrip
pub mod Order
pub mod Range
use flushdb.Base.{ℕ, ◌+◌, ◌≡◌, Bool, true, false, List, [], ◌∷◌, ◌++◌, Option, none, some}
use flushdb.Base.{length, is_empty, any, drop, take, ltb, ◌==◌, if◌then◌else◌, Ordering}
use flushdb.Base.Bytes.{Bytes, compare_bytes}
use flushdb.Error.{FlushResult, ok, err, key_too_long, invalid_key, ◌>>=◌, ◌>>◌}

abbrev pub max_record_id_len : ℕ
max_record_id_len = 256

abbrev pub max_item_key_len : ℕ
max_item_key_len = 4096

abbrev pub max_composite_key_len : ℕ
max_composite_key_len = 4353

abbrev pub separator : ℕ
separator = 0x00

abbrev pub range_tombstone_prefix : ℕ
range_tombstone_prefix = 0xFF

-- The struct is its encoded bytes.
abbrev pub CompositeKey : Type 0
CompositeKey = Bytes

unfoldable pub encode : Bytes → Bytes → Bytes
encode record_id item_key = record_id ++ (separator ∷ item_key)

-- `bytes.contains(&SEPARATOR)`
unfoldable pub has_separator : Bytes → Bool
has_separator = any (λ b. b == separator)

unfoldable pub validate_record_id : Bytes → FlushResult (Unit {0})
validate_record_id record_id =
    if is_empty record_id
    then err (invalid_key "record_id must not be empty")
    else if has_separator record_id
    then err (invalid_key "record_id must not contain null bytes")
    else if ltb max_record_id_len (length record_id)
    then err (key_too_long "record_id" (length record_id) max_record_id_len)
    else ok tt

unfoldable pub validate_item_key : Bytes → FlushResult (Unit {0})
validate_item_key item_key =
    if ltb max_item_key_len (length item_key)
    then err (key_too_long "item_key" (length item_key) max_item_key_len)
    else ok tt

-- `CompositeKey::new`
unfoldable pub new : Bytes → Bytes → FlushResult CompositeKey
new record_id item_key = do
  validate_record_id record_id
  validate_item_key item_key
  ok (encode record_id item_key)

unfoldable pub from_record_only : Bytes → FlushResult CompositeKey
unfolding new
from_record_only record_id = new record_id []

unfoldable pub range_tombstone_key : Bytes → Bytes → FlushResult CompositeKey
range_tombstone_key record_id start_key = do
  validate_record_id record_id
  let item_len = 1 + length start_key
  if ltb max_item_key_len item_len
      then err (key_too_long "item_key" item_len max_item_key_len)
      else ok (record_id ++ (separator ∷ range_tombstone_prefix ∷ start_key))

unfoldable pub min_key_for_record : Bytes → FlushResult CompositeKey
unfolding from_record_only
min_key_for_record record_id = from_record_only record_id

unfoldable pub max_key_for_record : Bytes → FlushResult CompositeKey
max_key_for_record record_id = do
  validate_record_id record_id
  ok (record_id ++ (separator ∷ range_tombstone_prefix ∷ []))

unfoldable pub from_bytes : Bytes → FlushResult CompositeKey
from_bytes bytes =
    if has_separator bytes
    then ok bytes
    else err (invalid_key "composite key must contain at least one 0x00 separator")

-- `iter().position(|&b| b == SEPARATOR)`; `none` is where the source's `expect` panics.
unfoldable pub separator_position : Bytes → Option ℕ
separator_position [] = none
separator_position (b ∷ bs) =
    if b == separator
    then some 0
    else (elim (separator_position bs) [ none ↦ none | some i ↦ some (1 + i) ])

-- The bytes before the first separator, and those behind it. A key has one, so the source's
-- `expect` does not fire; on other bytes the model returns all of them, and none.
unfoldable pub record_id : CompositeKey → Bytes
unfolding separator_position
record_id key = elim (separator_position key) [ none ↦ key | some sep ↦ take sep key ]

unfoldable pub item_key : CompositeKey → Bytes
unfolding separator_position
item_key key = elim (separator_position key) [ none ↦ [] | some sep ↦ drop (sep + 1) key ]

-- `ik.first() == Some(&RANGE_TOMBSTONE_PREFIX)`
unfoldable pub starts_tombstone : Bytes → Bool
starts_tombstone [] = false
starts_tombstone (b ∷ bs) = b == range_tombstone_prefix

unfoldable pub is_range_tombstone : CompositeKey → Bool
unfolding item_key starts_tombstone
is_range_tombstone key = starts_tombstone (item_key key)

unfoldable pub is_empty_item_key : CompositeKey → Bool
unfolding item_key
is_empty_item_key key = is_empty (item_key key)

-- `Ord for CompositeKey`
unfoldable pub cmp : CompositeKey → CompositeKey → Ordering
cmp a b = compare_bytes a b
