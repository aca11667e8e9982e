-- ===== src/OrderedKey.antt =====
-- The 12-byte version key of crates/flushdb-types/src/ordered_key.rs.
pub mod Laws
use flushdb.Base.{
  ℕ, Bool, not, ◌++◌, length, slice, ◌==◌, if◌then◌else◌, then_cmp, compare, Ordering,
}
use flushdb.Base.Bytes.{Bytes}
use flushdb.Base.Endian.{to_be, from_be}
use flushdb.Error.{FlushResult, ok, err, invalid_argument}

abbrev pub ordered_key_size : ℕ
ordered_key_size = 12

pub record OrderedKey : Type 0 where
  pub timestamp_ms : ℕ
  pub node_id : ℕ
  pub sequence : ℕ

unfoldable pub to_bytes : OrderedKey → Bytes
to_bytes k = to_be 8 k.timestamp_ms ++ (to_be 2 k.node_id ++ to_be 2 k.sequence)

unfoldable pub from_bytes : Bytes → FlushResult OrderedKey
from_bytes bytes =
    if not (length bytes == ordered_key_size)
    then err (invalid_argument "OrderedKey requires exactly 12 bytes")
    else ok (record {
      timestamp_ms = from_be (slice 0 8 bytes);
      node_id = from_be (slice 8 10 bytes);
      sequence = from_be (slice 10 12 bytes);
    })

-- The derived `Ord`: field by field, in the order of declaration.
unfoldable pub cmp : OrderedKey → OrderedKey → Ordering
cmp a b =
    then_cmp (compare a.timestamp_ms b.timestamp_ms)
      (then_cmp (compare a.node_id b.node_id) (compare a.sequence b.sequence))
