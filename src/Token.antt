-- ===== src/Token.antt =====
-- The idempotency token of crates/flushdb-types/src/idempotency_token.rs: 24 bytes, the first 8 of
-- them the generation time in big-endian order, the other 16 a UUID.
pub mod Laws
use flushdb.Base.{ℕ, ◌-◌, Bool, true, false, List, [], ◌∷◌, ◌++◌, not, ◌||◌}
use flushdb.Base.{length, take, drop, replicate, slice, ltb, leb, ◌==◌, if◌then◌else◌}
use flushdb.Base.Bytes.{Bytes, bytes_eq}
use flushdb.Base.Endian.{to_be, from_be, to_le}
use flushdb.Error.{FlushResult, ok, err, invalid_argument}
use Prim.Native.Nat.{bit_xor}

abbrev pub idempotency_token_size : ℕ
idempotency_token_size = 24

abbrev pub generation_time_size : ℕ
generation_time_size = 8

-- The field `data: [u8; 24]`.
abbrev pub IdempotencyToken : Type 0
IdempotencyToken = Bytes

abbrev pub none_token : IdempotencyToken
none_token = replicate idempotency_token_size 0

unfoldable pub from_bytes : Bytes → FlushResult IdempotencyToken
from_bytes bytes =
    if not (length bytes == idempotency_token_size)
    then err (invalid_argument "IdempotencyToken requires exactly 24 bytes")
    else ok bytes

unfoldable pub from_parts : ℕ → Bytes → IdempotencyToken
from_parts generation_time token = to_be generation_time_size generation_time ++ token

unfoldable pub generation_time : IdempotencyToken → ℕ
generation_time t = from_be (take generation_time_size t)

unfoldable pub token_bytes : IdempotencyToken → Bytes
token_bytes t = drop generation_time_size t

unfoldable pub is_none : IdempotencyToken → Bool
is_none t = bytes_eq t none_token

-- `derived[8] ^= idx[0]` and so on, for as many bytes as both have.
unfoldable pub xor_bytes : Bytes → Bytes → Bytes
xor_bytes [] idx = []
xor_bytes (b ∷ bs) [] = b ∷ bs
xor_bytes (b ∷ bs) (i ∷ idx) = bit_xor b i ∷ xor_bytes bs idx

unfoldable pub derive_for_index : IdempotencyToken → ℕ → IdempotencyToken
unfolding is_none xor_bytes
derive_for_index t index =
    if is_none t || index == 0 then t else take 8 t ++ xor_bytes (drop 8 t) (to_le 4 index)

unfoldable pub is_within_drift : IdempotencyToken → ℕ → ℕ → Bool
is_within_drift t now_ms max_drift_ms =
    if is_none t
    then true
    else let gen = generation_time t in
      let diff = if leb now_ms gen then gen - now_ms else now_ms - gen in leb diff max_drift_ms
