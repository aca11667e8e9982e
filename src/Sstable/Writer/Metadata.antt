-- ===== src/Sstable/Writer/Metadata.antt =====
-- What is read back of a written table: its footer, filter, index and token hashes.
use flushdb.Base.{
  ℕ, ◌+◌, ◌-◌, ◌%◌, ◌^◌, ◌<◌, ◌≤◌, ◌≡◌, refl, sym, ◌∙◌, ap, some, none, [], ◌++◌, arith, All,
  length, drop, slice, length-append, length-drop,
}
use flushdb.Base.Bytes.{Bytes}
use flushdb.Error.{ok, ◌>>=◌}
use mathlib.Core.Path.{subst}
use mathlib.Core.List.{append-nil}
use flushdb.Sstable.Types.{Codec, IsCodec, SstConfig}
use flushdb.Sstable.Cursor.{At, At-skip, slice-At}
use flushdb.Sstable.Footer
use flushdb.Sstable.Footer.{SstFooter, checked_part}
use flushdb.Sstable.Footer.RoundTrip.{IsFooter, decode-encode, length-encode, length-encode_header}
use flushdb.Sstable.Footer.Bounds.{length-truncate_key}
use flushdb.Sstable.Bloom
use flushdb.Sstable.Bloom.Laws.{IsFilter}
use flushdb.Sstable.Bloom.Laws as BloomLaws
use flushdb.Sstable.Index
use flushdb.Sstable.Index.RoundTrip.{IsIndexEntry}
use flushdb.Sstable.Index.RoundTrip as IndexRoundTrip
use flushdb.Sstable.Dedup
use flushdb.Sstable.Dedup.Laws.{IsHash}
use flushdb.Sstable.Dedup.Laws as DedupLaws
use flushdb.Sstable.Reader.{GetRange, open_table, load_metadata}
use flushdb.Sstable.Writer.{
  WriteState, unwrap, dedup_section, filter_section, index_section, footer_of, file_of,
}

-- The storage serves ranges of the file.
abbrev pub Serves : GetRange → Bytes → Type 0
Serves get_range file =
    (offset len : ℕ)
    → offset + len ≤ length file
    → get_range offset len ≡ ok (slice offset (offset + len) file)

-- A state at the end of the writing: room for the header, a count of 64 bits, sections that fit their
-- formats, and a file below 2 ^ 32 bytes.
pub record IsFinal (c : Codec) (times_ln2 : ℕ → ℕ) (config : SstConfig) (s : WriteState)
    : Type 0 where
  pub room : 16 ≤ length s.output
  pub count_fits : s.entry_count < 2 ^ 64
  pub filter_fits : IsFilter (Bloom.build times_ln2 s.bloom_builder)
  pub index_fits : All IsIndexEntry s.index_builder
  pub few_blocks : length s.index_builder < 2 ^ 32
  pub hashes_fit : All IsHash (Dedup.build s.dedup_builder)
  pub few_hashes : length (Dedup.build s.dedup_builder) < 2 ^ 32
  pub small : length (file_of c times_ln2 config s) < 2 ^ 32

module _ {c : Codec} (laws : IsCodec c) (times_ln2 : ℕ → ℕ) (config : SstConfig) (s : WriteState)
    (v : IsFinal c times_ln2 config s) where
  abbrev file : Bytes
  file = file_of c times_ln2 config s

  abbrev footer_bytes : Bytes
  footer_bytes = Footer.encode c.crc32 (footer_of times_ln2 config s)

  abbrev after_blocks : Bytes
  after_blocks =
      dedup_section s ++ (filter_section times_ln2 s ++ (index_section s ++ footer_bytes))

  blocks-At : At file (length s.output) after_blocks
  unfolding file_of
  blocks-At =
      let header =
        Footer.encode_header
          (record { compression = config.compression; entry_count = s.entry_count }) in
      let blocks = drop 16 s.output in
      let size =
        length-encode_header
          (record { compression = config.compression; entry_count = s.entry_count }) in
      let start : At file 0 (header ++ (blocks ++ after_blocks)) = (refl, omega arith) in
      let behind =
        At-skip file _ blocks after_blocks (At-skip file 0 header (blocks ++ after_blocks) start) in
      let pos : 0 + length header + length blocks ≡ length s.output =
        omega (arith, size, length-drop 16 s.output, v.room) in
      subst (λ p. At file p after_blocks) pos behind

  dedup-At :
      At file
        (length s.output + length (dedup_section s))
        (filter_section times_ln2 s ++ (index_section s ++ footer_bytes))
  dedup-At = At-skip file _ (dedup_section s) _ blocks-At

  abbrev filter_end : ℕ
  filter_end = length s.output + length (dedup_section s) + length (filter_section times_ln2 s)

  filter-At : At file filter_end (index_section s ++ footer_bytes)
  filter-At = At-skip file _ (filter_section times_ln2 s) _ dedup-At

  index-At : At file (filter_end + length (index_section s)) (footer_bytes ++ [])
  index-At =
      let (e, i) = At-skip file _ (index_section s) footer_bytes filter-At in
      (e ∙ sym (append-nil _), i)

  footer_of-IsFooter : IsFooter (footer_of times_ln2 config s)
  unfolding footer_of
  footer_of-IsFooter = record {
    bloom_offset_fits = omega (arith, v.small, dedup-At.1);
    bloom_size_fits = omega arith;
    index_offset_fits = omega (arith, v.small, filter-At.1);
    index_size_fits = omega arith;
    count_fits = omega (arith, v.count_fits);
    min_key_size = length-truncate_key (unwrap s.min_key);
    max_key_size = length-truncate_key (unwrap s.max_key);
    version_fits = omega arith;
    dedup_size_fits = omega arith;
  }

  length-footer_bytes : length footer_bytes ≡ 80
  length-footer_bytes = length-encode (footer_of times_ln2 config s) footer_of-IsFooter c.crc32

  -- The end of the file is that of the footer.
  length-file : length file ≡ filter_end + length (index_section s) + 80
  length-file =
      let (e, inside) = index-At in
      omega (
        arith,
        inside,
        ap length e,
        length-drop (filter_end + length (index_section s)) file,
        length-append footer_bytes [],
        length-footer_bytes,
      )

  filter_read :
      Bloom.deserialize (filter_section times_ln2 s) ≡ ok (Bloom.build times_ln2 s.bloom_builder)
  unfolding filter_section
  filter_read =
      BloomLaws.deserialize-serialize (Bloom.build times_ln2 s.bloom_builder) v.filter_fits

  index_read : Index.deserialize (index_section s) ≡ ok s.index_builder
  unfolding index_section
  index_read = IndexRoundTrip.deserialize-serialize s.index_builder v.index_fits v.few_blocks

  dedup_read : Dedup.deserialize (dedup_section s) ≡ ok (Dedup.build s.dedup_builder)
  unfolding dedup_section
  dedup_read =
      DedupLaws.deserialize-serialize (Dedup.build s.dedup_builder) v.hashes_fit v.few_hashes

  dedup_pos : Footer.dedup_block_offset (footer_of times_ln2 config s) ≡ length s.output
  unfolding Footer.dedup_block_offset footer_of
  dedup_pos = omega (arith, v.small, length-file)

  module _ (get_range : GetRange) (serves : Serves get_range file) where
    read_part :
        (pos len : ℕ) (part rest : Bytes)
        → At file pos (part ++ rest)
        → len ≡ length part
        → get_range pos len ≡ ok part
    read_part pos len part rest a e =
        let inside = (At-skip file pos part rest a).1 in
        serves pos len (omega (arith, e, inside))
        ∙ ap (λ x. ok x) (slice-At file pos (pos + len) part rest a (omega (arith, e))).0

    read_footer :
        open_table c get_range (length file)
        ≡ ok (record {
          file_size = length file;
          footer = footer_of times_ln2 config s;
          filter = none;
          index = none;
          dedup = none;
        })
    unfolding open_table
    read_footer =
        let pos : (length file + (2 ^ 64 - 80)) % 2 ^ 64 ≡ filter_end + length (index_section s) =
          omega (arith, length-file, v.small) in
        let bytes =
          read_part (filter_end + length (index_section s)) 80 footer_bytes [] index-At
            (omega (arith, length-footer_bytes)) in
        let decoded =
          decode-encode (footer_of times_ln2 config s) footer_of-IsFooter c.crc32
            (laws.crc32_fits (checked_part (footer_of times_ln2 config s))) in
        rw (pos, bytes, ◌>>=◌, decoded) refl

    abbrev footer : SstFooter
    footer = footer_of times_ln2 config s

    filter_bytes :
        get_range footer.bloom_filter_offset footer.bloom_filter_size
        ≡ ok (filter_section times_ln2 s)
    unfolding footer_of
    filter_bytes =
        read_part _ _ (filter_section times_ln2 s) _ dedup-At (omega (arith, v.small, length-file))

    index_bytes : get_range footer.index_block_offset footer.index_block_size ≡ ok (index_section s)
    unfolding footer_of
    index_bytes =
        read_part _ _ (index_section s) footer_bytes filter-At (omega (arith, v.small, length-file))

    dedup_bytes :
        get_range (Footer.dedup_block_offset footer) footer.dedup_block_size ≡ ok (dedup_section s)
    unfolding footer_of
    dedup_bytes =
        subst (λ p. get_range p (length (dedup_section s) % 2 ^ 32) ≡ ok (dedup_section s))
          (sym dedup_pos)
          (read_part _ _ (dedup_section s) _ blocks-At (omega (arith, v.small, length-file)))

    read_rest :
        load_metadata get_range (record {
          file_size = length file;
          footer = footer_of times_ln2 config s;
          filter = none;
          index = none;
          dedup = none;
        })
        ≡ ok (record {
          file_size = length file;
          footer = footer_of times_ln2 config s;
          filter = some (Bloom.build times_ln2 s.bloom_builder);
          index = some s.index_builder;
          dedup = some (Dedup.build s.dedup_builder);
        })
    unfolding load_metadata
    read_rest =
        rw (filter_bytes, ◌>>=◌, filter_read, index_bytes, index_read, dedup_bytes, dedup_read) refl

    -- Of a file that the writer composed from a final state whose sections fit their formats,
    -- served by ranges and below 2 ^ 32 bytes long, the reader opens the footer that was written
    -- and loads the filter, the index and the token hashes of the state.
    pub load_metadata-file :
        (open_table c get_range (length file) >>= load_metadata get_range)
        ≡ ok (record {
          file_size = length file;
          footer = footer_of times_ln2 config s;
          filter = some (Bloom.build times_ln2 s.bloom_builder);
          index = some s.index_builder;
          dedup = some (Dedup.build s.dedup_builder);
        })
    load_metadata-file = rw (read_footer, ◌>>=◌) read_rest
