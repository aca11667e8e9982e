-- ===== src/Sstable/Cursor.antt =====
-- Reading fields at a position of a buffer, as the decoders of crates/flushdb-engine/src/sstable
-- (block_reader.rs and index_block.rs) do it.
use flushdb.Base.{
  ℕ, zero, suc, ◌+◌, ◌-◌, ◌^◌, ◌<◌, ◌≤◌, ◌≡◌, refl, sym, ap, ◌∙◌, arith, List, [], ◌∷◌, ◌++◌,
  length, drop, slice, get_or, ltb, leb, false, if◌then◌else◌, String, take-append_length,
  drop-append_add, length-append, length-drop,
}
use flushdb.Base.Bytes.{Bytes}
use flushdb.Base.Endian.{to_le, from_le, from_le-to_le, length-to_le}
use flushdb.Error.{FlushResult, ok, err, corrupted_data, ◌>>=◌}
use flushdb.Sstable.Varint.{encode_varint, decode_varint}
use flushdb.Sstable.Varint.RoundTrip.{decode_varint-encode_varint}
use mathlib.Core.Path.{subst}
use mathlib.Core.List.{append_assoc}

-- `decode_varint(&buf[pos..])`, and the position behind it.
unfoldable pub read_len : Bytes → ℕ → FlushResult (ℕ × ℕ)
read_len buf pos = do r ← decode_varint (drop pos buf); ok (r.0, pos + r.1)

-- `buf[pos..pos + len]` after its check. Where `pos + len` passes 2 ^ 64 the source panics; the
-- model reports the field as truncated.
unfoldable pub take_bytes : String → Bytes → ℕ → ℕ → FlushResult (Bytes × ℕ)
take_bytes message buf pos len =
    if ltb (length buf) (pos + len)
    then err (corrupted_data message)
    else ok (slice pos (pos + len) buf, pos + len)

-- A length and as many bytes.
unfoldable pub read_field : String → Bytes → ℕ → FlushResult (Bytes × ℕ)
unfolding read_len take_bytes
read_field message buf pos = do r ← read_len buf pos; take_bytes message buf (r.1) (r.0)

-- `buf[pos]` after its check.
unfoldable pub read_byte : String → Bytes → ℕ → FlushResult (ℕ × ℕ)
read_byte message buf pos =
    if leb (length buf) pos then err (corrupted_data message) else ok (get_or buf pos 0, pos + 1)

-- The rest of the buffer at a position inside it.
abbrev pub At : Bytes → ℕ → Bytes → Type 0
At buf pos rest = (drop pos buf ≡ rest) × (pos ≤ length buf)

-- A length and as many bytes, as the builders write them.
unfoldable pub put_field : Bytes → Bytes
put_field field = encode_varint (length field) ++ field

module _ {ℓ} {A : Type ℓ} where
  drop-drop : (m n k : ℕ) (xs : List A) → k ≡ m + n → drop n (drop m xs) ≡ drop k xs
  drop-drop zero n k xs e = let w : n ≡ k = omega arith in rw w refl
  drop-drop (suc m) n zero xs e = absurd (omega arith)
  drop-drop (suc m) zero (suc k) [] e = refl
  drop-drop (suc m) (suc n) (suc k) [] e = refl
  drop-drop (suc m) n (suc k) (x ∷ xs) e = drop-drop m n k xs (omega arith)

get_or-drop :
    (buf : Bytes) (pos b : ℕ) (rest : Bytes) → drop pos buf ≡ b ∷ rest → get_or buf pos 0 ≡ b
get_or-drop [] zero b rest e = cc
get_or-drop [] (suc pos) b rest e = cc
get_or-drop (x ∷ xs) zero b rest e = cc
get_or-drop (x ∷ xs) (suc pos) b rest e = get_or-drop xs pos b rest e

pub At-skip :
    (buf : Bytes) (pos : ℕ) (xs rest : Bytes)
    → At buf pos (xs ++ rest)
    → At buf (pos + length xs) rest
At-skip buf pos xs rest (e, inside) = (
  sym (drop-drop pos (length xs) (pos + length xs) buf refl)
      ∙ ap (drop (length xs)) e
      ∙ drop-append_add xs rest (length xs) 0 (omega arith),
  omega (arith, length-drop pos buf, ap length e, length-append xs rest, inside),
)

At-length :
    (buf : Bytes) (pos : ℕ) (xs rest : Bytes)
    → At buf pos (xs ++ rest)
    → pos + length xs ≤ length buf
At-length buf pos xs rest a = (At-skip buf pos xs rest a).1

pub read_len-At :
    (buf : Bytes) (pos v : ℕ) (rest : Bytes)
    → At buf pos (encode_varint v ++ rest)
    → v < 2 ^ 64
    → (read_len buf pos ≡ ok (v, pos + length (encode_varint v)))
      × At buf (pos + length (encode_varint v)) rest
unfolding read_len
read_len-At buf pos v rest a small = (
  rw (a.0, decode_varint-encode_varint v rest small) refl,
  At-skip buf pos (encode_varint v) rest a,
)

pub take_bytes-At :
    (message : String) (buf : Bytes) (pos : ℕ) (xs rest : Bytes)
    → At buf pos (xs ++ rest)
    → (take_bytes message buf pos (length xs) ≡ ok (xs, pos + length xs))
      × At buf (pos + length xs) rest
unfolding take_bytes slice
take_bytes-At message buf pos xs rest a =
    let inside : ltb (length buf) (pos + length xs) ≡ false =
      ground (arith, At-length buf pos xs rest a) in
    let w : pos + length xs - pos ≡ length xs = omega arith in
    (
      rw (inside, w, a.0, take-append_length xs rest (length xs) refl) refl,
      At-skip buf pos xs rest a,
    )

pub put_field-At :
    (buf : Bytes) (pos : ℕ) (xs rest : Bytes)
    → At buf pos (put_field xs ++ rest)
    → At buf pos (encode_varint (length xs) ++ (xs ++ rest))
unfolding put_field
put_field-At buf pos xs rest a =
    subst (At buf pos) (append_assoc (encode_varint (length xs)) xs rest) a

pub read_field-At :
    (message : String) (buf : Bytes) (pos : ℕ) (xs rest : Bytes)
    → At buf pos (put_field xs ++ rest)
    → length xs < 2 ^ 64
    → (read_field message buf pos ≡ ok (xs, pos + length (put_field xs)))
      × At buf (pos + length (put_field xs)) rest
unfolding read_field put_field
read_field-At message buf pos xs rest a fits =
    let start = put_field-At buf pos xs rest a in
    let (e, b) = read_len-At buf pos (length xs) (xs ++ rest) start fits in
    let (f, c) = take_bytes-At message buf _ xs rest b in
    let w : pos + length (encode_varint (length xs)) + length xs
        ≡ pos + length (encode_varint (length xs) ++ xs) =
      omega (arith, length-append (encode_varint (length xs)) xs) in
    (rw (e, ◌>>=◌, f, w) refl, subst (λ p. At buf p rest) w c)

pub get_or-At :
    (buf : Bytes) (pos b : ℕ) (rest : Bytes)
    → At buf pos ((b ∷ []) ++ rest)
    → (get_or buf pos 0 ≡ b) × At buf (pos + 1) rest
get_or-At buf pos b rest a = (get_or-drop buf pos b rest a.0, At-skip buf pos (b ∷ []) rest a)

pub read_byte-At :
    (message : String) (buf : Bytes) (pos b : ℕ) (rest : Bytes)
    → At buf pos ((b ∷ []) ++ rest)
    → (read_byte message buf pos ≡ ok (b, pos + 1)) × At buf (pos + 1) rest
unfolding read_byte
read_byte-At message buf pos b rest a =
    let inside : leb (length buf) pos ≡ false = ground (arith, At-length buf pos (b ∷ []) rest a) in
    (rw (inside, get_or-drop buf pos b rest a.0) refl, At-skip buf pos (b ∷ []) rest a)

-- A field of fixed width.
pub slice-At :
    (buf : Bytes) (pos stop : ℕ) (xs rest : Bytes)
    → At buf pos (xs ++ rest)
    → stop ≡ pos + length xs
    → (slice pos stop buf ≡ xs) × At buf stop rest
unfolding slice
slice-At buf pos stop xs rest a e =
    let w : stop - pos ≡ length xs = omega arith in
    (
      rw (w, a.0) (take-append_length xs rest (length xs) refl),
      subst (λ p. At buf p rest) (sym e) (At-skip buf pos xs rest a),
    )

-- An integer of fixed width.
pub number-At :
    (buf : Bytes) (pos stop n v : ℕ) (rest : Bytes)
    → At buf pos (to_le n v ++ rest)
    → stop ≡ pos + n
    → v < 256 ^ n
    → (from_le (slice pos stop buf) ≡ v) × At buf stop rest
number-At buf pos stop n v rest a e small =
    let (f, b) = slice-At buf pos stop (to_le n v) rest a (omega (arith, length-to_le n v)) in
    (rw f (from_le-to_le n v small), b)
