-- ===== src/Tests/Keys.antt =====
-- Tests of the keys, the tokens, the discriminants and the arena.
use flushdb.Base.{
  ℕ, ◌+◌, ◌≤◌, ◌<◌, ◌≡◌, ◌⊎◌, ◌↔◌, refl, Bool, true, false, List, [], ◌∷◌, length, then_cmp, arith,
}
use flushdb.Base.Bytes.{Bytes, compare_bytes}
use flushdb.Error.{ok}
use flushdb.Key
use flushdb.Key.RoundTrip.{IsRecordId, new_parts, new_accepts}
use flushdb.Key.Order.{cmp-encode}
use flushdb.Key.Range.{in_range, scan_bounds, range_tombstone_outside}
use flushdb.OrderedKey
use flushdb.OrderedKey.{OrderedKey}
use flushdb.OrderedKey.Laws.{compare_bytes-to_bytes}
use flushdb.Token
use flushdb.Token.Laws.{IsReal, derive_injective, is_within_drift_iff}
use flushdb.Arena
use flushdb.Arena.Bounds.{IsArena, allocate_bounds}
use flushdb.Tests.Data.{user, users, name, user_name, user_tombstone, token}

new_parts_example :
    (Key.record_id user_name ≡ user)
    × (Key.item_key user_name ≡ name)
    × (Key.from_bytes user_name ≡ ok user_name)
    × (length user_name ≤ Key.max_composite_key_len)
unfolding Key.new Key.validate_record_id Key.has_separator Key.validate_item_key Key.encode
new_parts_example = new_parts user name refl

new_accepts_example :
    (Key.new user name ≡ ok (Key.encode user name))
    ↔ (IsRecordId user × (length name ≤ Key.max_item_key_len))
new_accepts_example = new_accepts user name

cmp-encode_example :
    Key.cmp (Key.encode user name) (Key.encode users [])
    ≡ then_cmp (compare_bytes user users) (compare_bytes name [])
unfolding Key.has_separator
cmp-encode_example = cmp-encode user users name [] refl refl

scan_bounds_example :
    (in_range (117 ∷ 0 ∷ []) (117 ∷ 0 ∷ 255 ∷ []) user_name ≡ true)
    ↔ ((Key.record_id user_name ≡ user) × (Key.is_range_tombstone user_name ≡ false))
unfolding Key.new Key.min_key_for_record Key.max_key_for_record Key.validate_record_id
    Key.has_separator Key.validate_item_key Key.encode
scan_bounds_example = scan_bounds user user name (omega arith, tt) refl refl refl

range_tombstone_outside_example :
    (Key.record_id user_tombstone ≡ user)
    × (Key.item_key user_tombstone ≡ 255 ∷ name)
    × (Key.is_range_tombstone user_tombstone ≡ true)
    × (in_range (117 ∷ 0 ∷ []) (117 ∷ 0 ∷ 255 ∷ []) user_tombstone ≡ false)
unfolding Key.range_tombstone_key Key.min_key_for_record Key.max_key_for_record
    Key.validate_record_id Key.has_separator Key.validate_item_key Key.encode
range_tombstone_outside_example =
    range_tombstone_outside user name user (omega arith, tt) refl refl refl

abbrev early : OrderedKey
early = record { timestamp_ms = 5; node_id = 300; sequence = 1 }

abbrev late : OrderedKey
late = record { timestamp_ms = 260; node_id = 2; sequence = 9 }

compare_bytes-to_bytes_example :
    compare_bytes (OrderedKey.to_bytes early) (OrderedKey.to_bytes late) ≡ OrderedKey.cmp early late
compare_bytes-to_bytes_example =
    compare_bytes-to_bytes early late
      (record {
        timestamp_fits = omega arith;
        node_fits = omega arith;
        sequence_fits = omega arith;
      })
      (record {
        timestamp_fits = omega arith;
        node_fits = omega arith;
        sequence_fits = omega arith;
      })

token-IsReal : IsReal token
unfolding Token.is_none flushdb.Base.Bytes.bytes_eq compare_bytes
token-IsReal = record {
  sized = refl;
  bytes = unfold Token.is_none in ground arith;
  not_none = refl;
}

derive_injective_example : ◌≡◌ {A = ℕ} 3 3
derive_injective_example = derive_injective token 3 3 token-IsReal (omega arith) (omega arith) refl

is_within_drift_iff_example : (Token.is_within_drift token 12 5 ≡ true) ↔ (
    (Token.is_none token ≡ true)
    ⊎ ((Token.generation_time token ≤ 12 + 5) × (12 ≤ Token.generation_time token + 5)))
is_within_drift_iff_example = is_within_drift_iff token 12 5

allocate_bounds_example :
    let (a', s) = Arena.allocate Arena.new 40 in
    IsArena a'
    × (a'.total_allocated ≡ 0 + 40)
    × (s.len ≡ 40)
    × (s.block + 1 ≡ length a'.blocks)
    × (s.offset + s.len ≡ a'.current_offset)
    × ((s.block + 1 ≡ 1) × (s.offset ≡ 0) ⊎ (s.block ≡ 1))
unfolding Arena.current_block_capacity
allocate_bounds_example =
    allocate_bounds Arena.new 40 (record { has_block = omega arith; fits = omega arith })
