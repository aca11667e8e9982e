-- ===== src/Key/Order.antt =====
-- The order of composite keys, which is raw byte order
-- (crates/flushdb-types/src/composite_key.rs, `Ord for CompositeKey`).
use flushdb.Base.{◌≡◌, false, [], ◌∷◌, arith}
use flushdb.Base.{then_cmp}
use flushdb.Base.Bytes.{Bytes, compare_bytes}
use flushdb.Key.{encode, has_separator, cmp}

-- Keys whose record ids hold no zero byte are ordered by record id, then by item key.
pub cmp-encode :
    (r s k l : Bytes)
    → has_separator r ≡ false
    → has_separator s ≡ false
    → cmp (encode r k) (encode s l) ≡ then_cmp (compare_bytes r s) (compare_bytes k l)
unfolding cmp encode has_separator compare_bytes
cmp-encode [] [] k l hr hs = ground arith
cmp-encode [] (b ∷ bs) k l hr hs = ground arith
cmp-encode (a ∷ as') [] k l hr hs = ground arith
cmp-encode (a ∷ as') (b ∷ bs) k l hr hs = ground (arith, cmp-encode as' bs k l)
