-- ===== src/OrderedKey/Laws.antt =====
-- The wire format of version keys keeps their order (crates/flushdb-types/src/ordered_key.rs).
use flushdb.Base.{◌^◌, ◌<◌, ◌≡◌, sym, ◌∙◌, ◌++◌, arith}
use flushdb.Base.{length-append, slice_head, slice_skip, slice_all}
use flushdb.Base.Bytes.{Bytes, compare_bytes, compare_bytes-append_blocks}
use flushdb.Base.Endian.{to_be, length-to_be, from_be-to_be, compare_bytes-to_be}
use flushdb.Error.{ok}
use flushdb.OrderedKey.{OrderedKey, to_bytes, from_bytes, cmp}

-- The ranges of `u64`, `u16` and `u16`.
pub record IsWide (k : OrderedKey) : Type 0 where
  pub timestamp_fits : k.timestamp_ms < 256 ^ 8
  pub node_fits : k.node_id < 256 ^ 2
  pub sequence_fits : k.sequence < 256 ^ 2

-- Reading the 12 bytes of a version key whose fields fit gives the key back.
pub from_bytes-to_bytes : (k : OrderedKey) → IsWide k → from_bytes (to_bytes k) ≡ ok k
unfolding from_bytes to_bytes
from_bytes-to_bytes k w =
    let t : Bytes = to_be 8 k.timestamp_ms in
    let n : Bytes = to_be 2 k.node_id in
    let s : Bytes = to_be 2 k.sequence in
    rw
      (
        slice_head t (n ++ s) 8 (length-to_be 8 _),
        slice_skip 8 t (n ++ s) 8 10 (length-to_be 8 _) (omega arith),
        slice_head n s 2 (length-to_be 2 _),
        slice_skip 8 t (n ++ s) 10 12 (length-to_be 8 _) (omega arith),
        slice_skip 2 n s 2 4 (length-to_be 2 _) (omega arith),
        slice_all s 2 (length-to_be 2 _),
        from_be-to_be 8 _ w.timestamp_fits,
        from_be-to_be 2 _ w.node_fits,
        from_be-to_be 2 _ w.sequence_fits,
      )
      (ground (
        arith,
        length-append t (n ++ s),
        length-append n s,
        length-to_be 8 k.timestamp_ms,
        length-to_be 2 k.node_id,
        length-to_be 2 k.sequence,
      ))

-- The byte order of the encodings of two version keys whose fields fit is the order of the keys.
pub compare_bytes-to_bytes :
    (a b : OrderedKey) → IsWide a → IsWide b → compare_bytes (to_bytes a) (to_bytes b) ≡ cmp a b
unfolding to_bytes cmp
compare_bytes-to_bytes a b va vb = rw (
  compare_bytes-append_blocks (to_be 8 a.timestamp_ms) (to_be 8 b.timestamp_ms) _ _
      (length-to_be 8 _ ∙ sym (length-to_be 8 _)),
  compare_bytes-append_blocks (to_be 2 a.node_id) (to_be 2 b.node_id) _ _
      (length-to_be 2 _ ∙ sym (length-to_be 2 _)),
  compare_bytes-to_be 8 _ _ va.timestamp_fits vb.timestamp_fits,
  compare_bytes-to_be 2 _ _ va.node_fits vb.node_fits,
  compare_bytes-to_be 2 _ _ va.sequence_fits vb.sequence_fits,
)
