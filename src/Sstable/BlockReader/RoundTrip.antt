-- ===== src/Sstable/BlockReader/RoundTrip.antt =====
-- A built block reads back entry by entry.
use flushdb.Base.{
  ℕ, zero, suc, ◌+◌, ◌-◌, ◌^◌, ◌<◌, ◌≤◌, ◌≡◌, refl, sym, ◌∙◌, ap, true, false, Option, none, some,
  List, [], ◌∷◌, ◌++◌, map, arith, length, ltb, leb, ◌==◌,
}
use flushdb.Base.Bytes.{Bytes}
use mathlib.Core.List.{append_assoc}
use flushdb.Sstable.BlockBuilder.{is_last}
use flushdb.Base.Bytes.{bytes_eq_iff}
use flushdb.Base.{length-drop}
use flushdb.Base.Endian.{to_le, from_le, from_le-to_le, length-to_le}
use flushdb.Base.{take-append_length, drop-append_length}
use flushdb.Sstable.Types.{decompress-compress}
use flushdb.Sstable.BlockReader.{open_block}
use flushdb.Sstable.BlockBuilder.{new, finish, seal}
use flushdb.Error.{ok, ◌>>=◌}
use flushdb.Key
use flushdb.Key.{CompositeKey, separator, encode, has_separator}
use flushdb.Key.RoundTrip.{record_id-encode, item_key-encode}
use flushdb.Sstable.Types.{Codec, IsCodec, CompressionType, compress}
use flushdb.Sstable.Cursor.{At, At-skip}
use flushdb.Sstable.BlockBuilder.{BlockBuilder, add_entry, repeats}
use flushdb.Sstable.BlockReader.{BlockEntryIterator, collect, decode_block}
use flushdb.Base.{length-append}
use flushdb.Base.{All}
use mathlib.Core.List.{append-nil}
use flushdb.Sstable.BlockReader.Entry.{
  Added, add, add_all, entry_of, Fits, entry_bytes, length-entry_bytes, decode_next-At,
}

-- What the additions append.
abbrev chunks : BlockBuilder → List Added → Bytes
chunks b [] = []
chunks b (e ∷ es) = entry_bytes (repeats b e.record_id) e ++ chunks (add b e) es

record_id_of : (e : Added) → Fits e → Key.record_id (encode e.record_id e.item_key) ≡ e.record_id
record_id_of e f = record_id-encode e.record_id e.item_key f.no_separator

buffer-add :
    (b : BlockBuilder) (e : Added)
    → Fits e
    → ((add b e).buffer ≡ b.buffer ++ entry_bytes (repeats b e.record_id) e)
      × ((add b e).last_record_id ≡ some e.record_id)
unfolding add_entry
buffer-add b e f =
    let r = record_id_of e f in
    let k = item_key-encode e.record_id e.item_key f.no_separator in (rw (r, k) refl, rw r refl)

buffer-add_all :
    (b : BlockBuilder) (es : List Added)
    → All Fits es
    → (add_all b es).buffer ≡ b.buffer ++ chunks b es
buffer-add_all b [] f = sym (append-nil _)
buffer-add_all b (e ∷ es) f =
    buffer-add_all (add b e) es f.1
    ∙ ap (λ (t : Bytes). t ++ chunks (add b e) es) (buffer-add b e f.0).0
    ∙ append_assoc b.buffer (entry_bytes (repeats b e.record_id) e) (chunks (add b e) es)

last_is : (last : Option Bytes) (rid : Bytes) → is_last last rid ≡ true → last ≡ some rid
last_is none rid h = cc
last_is (some last) rid h = ap (λ r. some r) ((bytes_eq_iff last rid).0 h)

At-end : (buf : Bytes) (pos : ℕ) → At buf pos [] → leb (length buf) pos ≡ true
At-end buf pos a = ground (arith, length-drop pos buf, ap length a.0)

At-inside :
    (buf : Bytes) (pos : ℕ) (xs rest : Bytes)
    → At buf pos (xs ++ rest)
    → 1 ≤ length xs
    → leb (length buf) pos ≡ false
At-inside buf pos xs rest a h = ground (arith, (At-skip buf pos xs rest a).1)

-- A repeated record id is that of the last entry.
repeats-last : (b : BlockBuilder) (rid : Bytes) → repeats b rid ≡ true → b.last_record_id ≡ some rid
unfolding repeats
repeats-last b rid h = last_is b.last_record_id rid (ground arith)

collect-chunks :
    (fuel : ℕ) (b : BlockBuilder) (it : BlockEntryIterator) (es : List Added)
    → All Fits es
    → length es ≤ fuel
    → it.last_record_id ≡ b.last_record_id
    → At it.bytes it.offset (chunks b es)
    → collect fuel it ≡ ok (map entry_of es)
unfolding collect
collect-chunks zero b it [] f enough same a = refl
collect-chunks (suc fuel) b it [] f enough same a =
    let done : leb (length it.bytes) it.offset ≡ true = At-end it.bytes it.offset a in
    rw (done) refl
collect-chunks zero b it (e ∷ es) f enough same a = absurd (omega arith)
collect-chunks (suc fuel) b it (e ∷ es) f enough same a =
    let dedup = repeats b e.record_id in
    let more : leb (length it.bytes) it.offset ≡ false =
      At-inside it.bytes it.offset (entry_bytes dedup e) (chunks (add b e) es) a
        (omega (arith, length-entry_bytes dedup e)) in
    let first =
      decode_next-At dedup it e (chunks (add b e) es) f.0 (λ h. same ∙ repeats-last b e.record_id h)
        a in
    let after = At-skip it.bytes it.offset (entry_bytes dedup e) (chunks (add b e) es) a in
    let later =
      collect-chunks fuel (add b e) _ es f.1 (omega arith) (sym (buffer-add b e f.0).1) after in
    rw (more, first, ◌>>=◌, later) refl

length-chunks : (b : BlockBuilder) (es : List Added) → length es ≤ length (chunks b es)
length-chunks b [] = omega arith
length-chunks b (e ∷ es) = omega (
  arith,
  length-append (entry_bytes (repeats b e.record_id) e) (chunks (add b e) es),
  length-entry_bytes (repeats b e.record_id) e,
  length-chunks (add b e) es,
)

-- A payload with its checksum behind it is opened at its start.
open_block-sealed :
    {c : Codec} (laws : IsCodec c) (kind : CompressionType) (payload : Bytes) {packed : Bytes}
    → compress c kind (payload ++ to_le 4 (c.crc32 payload)) ≡ ok packed
    → open_block c packed kind ≡ ok (record { bytes = payload; offset = 0; last_record_id = none })
unfolding open_block
open_block-sealed {c} laws kind payload {packed} h =
    let crc = to_le 4 (c.crc32 payload) in
    let size : length (payload ++ crc) ≡ length payload + 4 =
      length-append payload crc ∙ omega (arith, length-to_le 4 (c.crc32 payload)) in
    let long : ltb (length payload + 4) 4 ≡ false = ground arith in
    let len : length payload + 4 - 4 ≡ length payload = omega arith in
    let stored : from_le crc ≡ c.crc32 payload =
      from_le-to_le 4 (c.crc32 payload) (laws.crc32_fits payload) in
    let same : c.crc32 payload == c.crc32 payload ≡ true = ground arith in
    rw
      (
        decompress-compress laws kind _ h,
        ◌>>=◌,
        size,
        len,
        long,
        drop-append_length payload crc (length payload) refl,
        take-append_length payload crc (length payload) refl,
        stored,
        same,
      )
      refl

entry_count-add_all :
    (b : BlockBuilder) (es : List Added)
    → b.entry_count + length es < 2 ^ 32
    → (add_all b es).entry_count ≡ b.entry_count + length es
unfolding add_entry
entry_count-add_all b [] h = omega arith
entry_count-add_all b (e ∷ es) h =
    let one : (add b e).entry_count ≡ b.entry_count + 1 = omega arith in
    omega (arith, one, entry_count-add_all (add b e) es (omega (arith, one)))

counted :
    (target : ℕ) (e : Added) (es : List Added)
    → length (e ∷ es) < 2 ^ 32
    → (add_all (new target) (e ∷ es)).entry_count == 0 ≡ false
unfolding new
counted target e es few =
    ground (arith, entry_count-add_all (new target) (e ∷ es) (omega (arith, few)))

finish-decode :
    (c : Codec) (kind : CompressionType) (b : BlockBuilder) {packed : Bytes}
    → b.entry_count == 0 ≡ false
    → compress c kind (seal c b.buffer) ≡ ok packed
    → (finish c b kind >>= λ block. decode_block c block.bytes kind) ≡ decode_block c packed kind
unfolding finish
finish-decode c kind b some_entry h = rw (some_entry, h, ◌>>=◌) refl

decode_block-sealed :
    {c : Codec} (laws : IsCodec c) (kind : CompressionType) (payload : Bytes) {packed : Bytes}
    → compress c kind (seal c payload) ≡ ok packed
    → decode_block c packed kind
      ≡ collect (length payload) (record { bytes = payload; offset = 0; last_record_id = none })
unfolding decode_block
decode_block-sealed laws kind payload h = rw (open_block-sealed laws kind payload h, ◌>>=◌) refl

buffer-built :
    (target : ℕ) (es : List Added)
    → All Fits es
    → (add_all (new target) es).buffer ≡ chunks (new target) es
unfolding new
buffer-built target es f = buffer-add_all (new target) es f

collect-built :
    (target : ℕ) (es : List Added)
    → All Fits es
    → collect
        (length (add_all (new target) es).buffer)
        (record { bytes = (add_all (new target) es).buffer; offset = 0; last_record_id = none })
      ≡ ok (map entry_of es)
unfolding new
collect-built target es f =
    rw (buffer-built target es f) (
      collect-chunks _ (new target) _ es f (length-chunks (new target) es) refl (refl, omega arith))

-- A block that is built from one entry or more, fewer than 2 ^ 32, whose fields fit their formats,
-- is finished where the compression succeeds, and it decodes to exactly the entries in order, their
-- record ids included where the block leaves them out.
pub decode_block-finish :
    {c : Codec} (laws : IsCodec c) (kind : CompressionType) (target : ℕ) (e : Added)
    (es : List Added) {packed : Bytes}
    → All Fits (e ∷ es)
    → length (e ∷ es) < 2 ^ 32
    → compress c kind (seal c (add_all (new target) (e ∷ es)).buffer) ≡ ok packed
    → (finish c (add_all (new target) (e ∷ es)) kind >>= λ block. decode_block c block.bytes kind)
      ≡ ok (map entry_of (e ∷ es))
decode_block-finish {c} laws kind target e es {packed} f few h =
    let b = add_all (new target) (e ∷ es) in
    finish-decode c kind b (counted target e es few) h
    ∙ decode_block-sealed laws kind b.buffer h
    ∙ collect-built target (e ∷ es) f
