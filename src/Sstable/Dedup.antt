-- ===== src/Sstable/Dedup.antt =====
-- The hashes of a table's idempotency tokens: crates/flushdb-engine/src/sstable/dedup_block.rs.
pub mod Laws
use flushdb.Base.{
  ℕ, zero, suc, ◌+◌, ◌-◌, ◌*◌, ◌/◌, ◌%◌, ◌^◌, Bool, true, false, not, List, [], ◌∷◌, ◌++◌, length,
  any, drop, slice, ltb, ◌==◌, if◌then◌else◌, is_le,
}
use flushdb.Base.Bytes.{Bytes, bytes_eq, compare_bytes}
use flushdb.Base.Endian.{to_le, from_le}
use flushdb.Error.{FlushResult, ok, err, corrupted_data, ◌>>=◌}
use flushdb.Token
use flushdb.Token.{IdempotencyToken}
use flushdb.Search.{binary_search_by}
use flushdb.Search.Member.{is_found}
use flushdb.Sstable.Hash.{murmurhash3_x64_128}

unfoldable pub hash_token : IdempotencyToken → Bytes
hash_token token = let h = murmurhash3_x64_128 token 0x42 in to_le 8 (h.0) ++ to_le 8 (h.1)

-- The set of hashes.
abbrev pub DedupBlockBuilder : Type 0
DedupBlockBuilder = List Bytes

unfoldable pub add : DedupBlockBuilder → IdempotencyToken → DedupBlockBuilder
add hashes token =
    let hash = hash_token token in
    if Token.is_none token
    then hashes
    else if any (bytes_eq hash) hashes
    then hashes
    else hash ∷ hashes

unfoldable pub add_all : DedupBlockBuilder → List IdempotencyToken → DedupBlockBuilder
unfolding add
add_all hashes [] = hashes
add_all hashes (token ∷ tokens) = add_all (add hashes token) tokens

-- `sort`, by insertion.
unfoldable pub insert_sorted : Bytes → List Bytes → List Bytes
insert_sorted x [] = x ∷ []
insert_sorted x (y ∷ ys) =
    let later = insert_sorted x ys in if is_le (compare_bytes x y) then x ∷ y ∷ ys else y ∷ later

unfoldable pub sort : List Bytes → List Bytes
unfolding insert_sorted
sort [] = []
sort (x ∷ xs) = insert_sorted x (sort xs)

abbrev pub DedupBlock : Type 0
DedupBlock = List Bytes

unfoldable pub build : DedupBlockBuilder → DedupBlock
unfolding sort
build hashes = sort hashes

unfoldable pub contains : DedupBlock → IdempotencyToken → Bool
contains hashes token =
    let target = hash_token token in
    if Token.is_none token
    then false
    else is_found (binary_search_by (λ h. compare_bytes h target) hashes)

-- `for hash in &self.hashes`
unfoldable pub put_hashes : DedupBlock → Bytes
put_hashes [] = []
put_hashes (h ∷ hs) = h ++ put_hashes hs

unfoldable pub serialize : DedupBlock → Bytes
unfolding put_hashes
serialize hashes = to_le 4 (length hashes % 2 ^ 32) ++ put_hashes hashes

-- `for i in 0..count`, from `i` on.
unfoldable pub read_hashes : ℕ → ℕ → Bytes → DedupBlock
read_hashes zero i hash_data = []
read_hashes (suc count) i hash_data =
    let offset = i * 16 in
    slice offset (offset + 16) hash_data ∷ read_hashes count (i + 1) hash_data

unfoldable pub deserialize : Bytes → FlushResult DedupBlock
unfolding read_hashes
deserialize bytes =
    let count = from_le (slice 0 4 bytes) in
    let hash_data = drop 4 bytes in
    if ltb (length bytes) 4
    then err (corrupted_data "dedup block too short")
    else if not (length hash_data % 16 == 0)
    then err (corrupted_data "dedup block size not aligned to 16-byte hashes")
    else if not (length hash_data / 16 == count)
    then err (corrupted_data "dedup block count mismatch")
    else ok (read_hashes count 0 hash_data)
