-- ===== src/Wal/RoundTrip.antt =====
-- What is written to the log is read back (crates/flushdb-wal/src/entry.rs).
use flushdb.Base.{
  ℕ, ◌+◌, ◌-◌, ◌^◌, ◌<◌, ◌≤◌, ◌≡◌, refl, sym, ap, ◌∙◌, [], ◌∷◌, ◌++◌, length, get_or, slice, ltb,
  arith, length-append, slice_skip, slice_head, slice_all, false,
}
use flushdb.Base.Bytes.{Bytes}
use flushdb.Base.Endian.{to_le, from_le, from_le-to_le, length-to_le}
use flushdb.Error.{ok}
use flushdb.Entry
use flushdb.Entry.{EntryType, MemtableEntry}
use flushdb.Entry.Laws.{from_u8-as_u8}
use mathlib.Core.List.{append_assoc}
use flushdb.Token
use flushdb.Error.{◌>>=◌}
use flushdb.Key
use flushdb.Key.RoundTrip.{new_valid, new_parts}
use flushdb.Wal.Entry.{
  from_memtable_entry, to_memtable_entry, body_size, fixed_body_overhead, WalEntry, put_var,
  encode_body, read_var, read_token, decode_body, as_corrupted,
}

-- The fields fit the widths in which their lengths are stored.
pub record IsWalEntry (e : WalEntry) : Type 0 where
  pub sequence_fits : e.sequence_number < 2 ^ 64
  pub namespace_fits : length e.namespace < 2 ^ 16
  pub record_id_fits : length e.record_id < 2 ^ 16
  pub item_key_fits : length e.item_key < 2 ^ 16
  pub item_value_fits : length e.item_value < 2 ^ 32
  pub item_metadata_fits : length e.item_metadata < 2 ^ 16
  pub token_fits : length e.idempotency_token ≡ 24

pub slice_at :
    (front field rest : Bytes) (a b : ℕ)
    → a ≡ length front
    → b ≡ length front + length field
    → slice a b (front ++ (field ++ rest)) ≡ field
slice_at front field rest a b p q =
    let z : a - length front ≡ 0 = omega arith in
    slice_skip (length front) front (field ++ rest) a b refl (omega arith)
    ∙ rw z (slice_head field rest (b - length front) (omega arith))

-- A field behind a front of any kind is read, and the position moves behind it.
read_var-put_var :
    (n : ℕ) (front field rest : Bytes) (pos : ℕ)
    → pos ≡ length front
    → length field < 256 ^ n
    → read_var n (front ++ (put_var n field ++ rest)) pos ≡ ok (field, pos + n + length field)
unfolding read_var put_var
read_var-put_var n front field rest pos p h =
    let l = to_le n (length field) in
    let w : length l ≡ n = length-to_le n (length field) in
    let inner : (l ++ field) ++ rest ≡ l ++ (field ++ rest) = append_assoc l field rest in
    let outer : front ++ (l ++ (field ++ rest)) ≡ (front ++ l) ++ (field ++ rest) =
      sym (append_assoc front l (field ++ rest)) in
    let fl = length-append front l in
    let size : length (front ++ (l ++ (field ++ rest)))
        ≡ length front + n + length field + length rest =
      rw (outer, length-append (front ++ l) (field ++ rest), length-append field rest)
        (omega arith) in
    let len_at : slice pos (pos + n) (front ++ (l ++ (field ++ rest))) ≡ l =
      slice_at front l (field ++ rest) pos (pos + n) p (omega arith) in
    let value : from_le l ≡ length field = from_le-to_le n (length field) h in
    let field_at : slice (pos + n) (pos + n + length field) (front ++ (l ++ (field ++ rest)))
        ≡ field =
      rw outer (
        slice_at (front ++ l) field rest (pos + n) (pos + n + length field) (omega arith)
          (omega arith)) in
    rw (inner, len_at, value, field_at) (ground (arith, size))

read_step :
    (n : ℕ) (body front field rest : Bytes) (pos : ℕ)
    → body ≡ front ++ (put_var n field ++ rest)
    → pos ≡ length front
    → length field < 256 ^ n
    → (read_var n body pos ≡ ok (field, pos + n + length field))
      × (body ≡ (front ++ put_var n field) ++ rest)
      × (pos + n + length field ≡ length (front ++ put_var n field))
unfolding put_var
read_step n body front field rest pos e p h = (
  rw e (read_var-put_var n front field rest pos p h),
  e ∙ sym (append_assoc front (put_var n field) rest),
  rw
      (
        length-append front (put_var n field),
        length-append (to_le n (length field)) field,
        length-to_le n (length field),
      )
      (omega arith),
)

length-put_var : (n : ℕ) (field : Bytes) → length (put_var n field) ≡ n + length field
unfolding put_var
length-put_var n field =
    length-append (to_le n (length field)) field ∙ rw (length-to_le n (length field)) refl

read_token_end :
    (body front token : Bytes) (pos : ℕ)
    → body ≡ front ++ token
    → pos ≡ length front
    → length token ≡ 24
    → read_token body pos ≡ ok token
unfolding read_token as_corrupted Token.from_bytes
read_token_end body front token pos e p h =
    let z : pos - length front ≡ 0 = omega arith in
    let w : slice pos (pos + 24) (front ++ token) ≡ token =
      slice_skip (length front) front token pos (pos + 24) refl (omega arith)
      ∙ rw z (slice_all token (pos + 24 - length front) (omega arith)) in
    let size = length-append front token in rw (e, w) (ground arith)

module _ (e : WalEntry) (v : IsWalEntry e) where
  abbrev number : Bytes
  number = to_le 8 e.sequence_number

  type_at : get_or (encode_body e) 8 0 ≡ Entry.as_u8 e.entry_type
  unfolding encode_body to_le
  type_at = refl

  number_at : from_le (slice 0 8 (encode_body e)) ≡ e.sequence_number
  unfolding encode_body
  number_at =
      ap from_le (slice_head number _ 8 (length-to_le 8 e.sequence_number))
      ∙ from_le-to_le 8 e.sequence_number (omega (arith, v.sequence_fits))

  -- `encode_into` writes the size that the body has.
  pub length-encode_body : length (encode_body e) ≡ body_size e
  unfolding encode_body body_size
  length-encode_body =
      let f1 = length-put_var 2 e.namespace in
      let f2 = length-put_var 2 e.record_id in
      let f3 = length-put_var 2 e.item_key in
      let f4 = length-put_var 4 e.item_value in
      let f5 = length-put_var 2 e.item_metadata in
      rw
        (
          length-append number _,
          length-to_le 8 e.sequence_number,
          length-append (put_var 2 e.namespace) _,
          length-append (put_var 2 e.record_id) _,
          length-append (put_var 2 e.item_key) _,
          length-append (put_var 4 e.item_value) _,
          length-append (put_var 2 e.item_metadata) _,
          f1,
          f2,
          f3,
          f4,
          f5,
        )
        (omega (arith, v.token_fits))

  long_enough : fixed_body_overhead ≤ length (encode_body e)
  long_enough = rw length-encode_body (unfold body_size in omega arith)

  -- The body of a log entry whose fields fit their widths decodes to the entry.
  pub decode_body-encode_body : decode_body (encode_body e) ≡ ok e
  unfolding decode_body as_corrupted
  decode_body-encode_body =
      let body = encode_body e in
      let start : body
          ≡ (number ++ (Entry.as_u8 e.entry_type ∷ []))
            ++ (put_var 2 e.namespace
                ++ (put_var 2 e.record_id
                    ++ (put_var 2 e.item_key
                        ++ (put_var 4 e.item_value
                            ++ (put_var 2 e.item_metadata ++ e.idempotency_token))))) =
        unfold encode_body in sym (append_assoc number (Entry.as_u8 e.entry_type ∷ []) _) in
      let nine : 9 ≡ length (number ++ (Entry.as_u8 e.entry_type ∷ [])) =
        rw (length-append number (Entry.as_u8 e.entry_type ∷ []), length-to_le 8 e.sequence_number)
          refl in
      let (r1, s1, p1) =
        read_step 2 body _ e.namespace _ 9 start nine (omega (arith, v.namespace_fits)) in
      let (r2, s2, p2) =
        read_step 2 body _ e.record_id _ _ s1 p1 (omega (arith, v.record_id_fits)) in
      let (r3, s3, p3) = read_step 2 body _ e.item_key _ _ s2 p2 (omega (arith, v.item_key_fits)) in
      let (r4, s4, p4) =
        read_step 4 body _ e.item_value _ _ s3 p3 (omega (arith, v.item_value_fits)) in
      let (r5, s5, p5) =
        read_step 2 body _ e.item_metadata _ _ s4 p4 (omega (arith, v.item_metadata_fits)) in
      let r6 = read_token_end body _ e.idempotency_token _ s5 p5 v.token_fits in
      let small : ltb (length body) fixed_body_overhead ≡ false = ground (arith, long_enough) in
      rw (small, type_at, from_u8-as_u8 e.entry_type, r1, r2, r3, r4, r5, r6, number_at) refl

-- A memtable entry with a valid key, a 24-byte token, and a sequence number, value, metadata and
-- namespace that fit their fields is the same after it is turned into a log entry, encoded, decoded
-- and turned back.
pub replay_entry :
    (entry : MemtableEntry) (namespace r k : Bytes)
    → Key.new r k ≡ ok entry.composite_key
    → entry.sequence_number < 2 ^ 64
    → length entry.value < 2 ^ 32
    → length entry.metadata < 2 ^ 16
    → length namespace < 2 ^ 16
    → length entry.idempotency_key ≡ 24
    → (decode_body (encode_body (from_memtable_entry entry namespace)) >>= to_memtable_entry)
      ≡ ok entry
unfolding from_memtable_entry to_memtable_entry Entry.record_id Entry.item_key Entry.with_sequence
replay_entry entry namespace r k made seq value metadata ns token =
    let (vr, short, shape) = new_valid r k made in
    let (ri, ii, _, _) = new_parts r k made in
    let fits : IsWalEntry (from_memtable_entry entry namespace) = record {
      sequence_fits = seq;
      namespace_fits = ns;
      record_id_fits = rw ri (omega (arith, vr.short));
      item_key_fits = rw ii (omega (arith, short));
      item_value_fits = value;
      item_metadata_fits = metadata;
      token_fits = token;
    } in
    rw (decode_body-encode_body (from_memtable_entry entry namespace) fits, ri, ii, made) refl
