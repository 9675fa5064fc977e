-- ===== src/SstParser/Tables.antt =====
-- The parser on a file of the table builder (src/sst_parser/sst_parser.cpp on the output of
-- src/table/sstable_builder.cpp).
use smallkv.Base.{
  ℕ, ◌+◌, ◌-◌, ◌^◌, ◌<◌, ◌≡◌, ◌≢◌, refl, sym, ap, ◌∙◌, true, false, ◌||◌, Option, some, List, [],
  ◌∷◌, ◌++◌, length, All, ltb, ◌==◌, if◌then◌else◌, arith, append_assoc, length-append, if_true,
  if_false, ◌⊎◌,
}
use smallkv.Base.Maybe.{◌>>=◌}
use smallkv.Base.Bytes.{Bytes}
use smallkv.Bloom.{create_filter2}
use smallkv.Codec.{encode_fixed32}
use smallkv.Codec.RoundTrip.{length-encode_fixed32}
use smallkv.Table.DataBlock.{OffsetInfo}
use smallkv.Table.IndexBlock.{add_footer, add_index, Entry, index_bytes}
use smallkv.Table.Builder.Places.{IsPlaced, IsTable, IsSmall, HasFilter, final_filter}
use smallkv.Table.Builder.Layout.{finish_sst-IsTable}
use smallkv.SstParser.{
  SstParser, is_negative, read_string, read_all, parse_header, parse_index, parse_bits, parse,
}
use smallkv.SstParser.Reads.{as_words, read_string-append}
use smallkv.SstParser.Parse.{
  FitsInt, blocks_of, parse_index-index_bytes, parse_header-add_footer, length-add_index_nil,
}
use smallkv.FileWriter.Append.{Reliable}
use smallkv.Table.FilterBlock.{FilterBlockBuilder}
use smallkv.Table.Builder.{SsTableBuilder, finish_sst}
use mathlib.Core.Option.{some-injective}
use mathlib.Core.Path.{subst}

-- A file with no line feed is read whole.
pub read_all_lem : (file : Bytes) → All (λ c. c ≢ 10) file → read_all file ≡ file
unfolding read_all
read_all_lem [] a = refl
read_all_lem (c ∷ cs) a =
    let t : (c == 10) ≡ false = ground (arith, a.0) in
    if_false _ _ _ t ∙ ap (◌∷◌ c) (read_all_lem cs a.1)

-- The keys of an index that is small are small.
All-FitsInt : (es : List Entry) → length (index_bytes es) < 2 ^ 31 → All FitsInt es
unfolding index_bytes
All-FitsInt [] h = tt
All-FitsInt ((key, info) ∷ es) h =
    let size = length-append (add_index [] key info) (index_bytes es) in
    let one = length-add_index_nil key info in
    (omega (arith, size, one), All-FitsInt es (omega (arith, size, one)))

-- The bits of the filter stand where its offset says.
parse_bits-append :
    (content pre bits rest : Bytes) (at : OffsetInfo)
    → content ≡ pre ++ (bits ++ rest)
    → at.offset ≡ length pre
    → at.size ≡ length bits + 4
    → length content < 2 ^ 31
    → at.size < 2 ^ 31
    → parse_bits content at ≡ some bits
unfolding parse_bits
parse_bits-append content pre [] rest at e p l small fits =
    let t₁ : (is_negative at.size || ltb at.size 4) ≡ false = ground arith in
    let t₂ : (at.size == 4) ≡ true = ground arith in if_false _ _ _ t₁ ∙ if_true _ _ _ t₂
parse_bits-append content pre (b ∷ bs) rest at e p l small fits =
    let sizes = ap length e ∙ length-append pre ((b ∷ bs) ++ rest) in
    let t₁ : (is_negative at.size || ltb at.size 4) ≡ false = ground arith in
    let t₂ : (at.size == 4) ≡ false = ground arith in
    let t₃ : is_negative at.offset ≡ false = ground (arith, sizes) in
    let n : at.size - 4 ≡ length (b ∷ bs) = omega arith in
    if_false _ _ _ t₁
    ∙ if_false _ _ _ t₂
    ∙ if_false _ _ _ t₃
    ∙ ap (λ c. read_string c at.offset (at.size - 4)) e
    ∙ ap (read_string (pre ++ ((b ∷ bs) ++ rest)) at.offset) n
    ∙ read_string-append pre (b ∷ bs) rest at.offset p
        (omega (arith, sizes, length-append (b ∷ bs) rest))

-- What the parser holds of a table, with this number of hash functions.
unfoldable pub parsed :
    {File : Type 0} (write : File → Bytes → File × Option ℕ) (contents : File → Bytes)
    (file : Bytes)
    → IsTable write contents file
    → ℕ
    → SstParser
parsed write contents file t n = record {
  filter_policy = create_filter2 (if is_negative n then 0 else n) t.bits;
  index_blocks = blocks_of t.entries;
  sst_content = file;
  header = record { meta_block = as_words t.filter_at; index_block = as_words t.index_at };
}

pub parse-IsTable :
    {File : Type 0} (write : File → Bytes → File × Option ℕ) (contents : File → Bytes)
    (read_address : OffsetInfo → Option ℕ) (file : Bytes) (t : IsTable write contents file)
    → All (λ c. c ≢ 10) file
    → length file < 2 ^ 31
    → parse read_address file
      ≡ (read_address (as_words t.filter_at) >>= λ n. some (parsed write contents file t n))
unfolding parse parsed
parse-IsTable write contents read_address file t lines small =
    let footer = add_footer [] t.filter_at t.index_at in
    let whole : file ≡ (t.front ++ t.filter) ++ (t.index ++ footer) =
      t.joined ∙ append_assoc (t.front ++ t.filter) t.index footer in
    let indexed : file ≡ (t.front ++ t.filter) ++ (index_bytes t.entries ++ footer) =
      whole ∙ ap (λ i. (t.front ++ t.filter) ++ (i ++ footer)) t.indexed in
    let filtered : file
        ≡ t.front ++ (t.bits ++ (encode_fixed32 t.hash_num ++ (t.index ++ footer))) =
      whole
      ∙ append_assoc t.front t.filter (t.index ++ footer)
      ∙ ap (λ f. t.front ++ (f ++ (t.index ++ footer))) t.filtered
      ∙ ap (λ r. t.front ++ r)
          (append_assoc t.bits (encode_fixed32 t.hash_num) (t.index ++ footer)) in
    let sizes = ap length whole ∙ length-append (t.front ++ t.filter) (t.index ++ footer) in
    let size_front = length-append t.front t.filter in
    let size_index = length-append t.index footer in
    let size_filter = ap length t.filtered ∙ length-append t.bits (encode_fixed32 t.hash_num) in
    let same = ap length t.indexed in
    let header =
      parse_header-add_footer ((t.front ++ t.filter) ++ t.index) t.filter_at t.index_at in
    let blocks : parse_index file (as_words t.index_at) ≡ some (blocks_of t.entries) =
      parse_index-index_bytes t.entries file (t.front ++ t.filter) footer (as_words t.index_at)
        indexed (omega (arith, t.index_place.0, sizes))
        (omega (arith, t.index_place.1, sizes, size_index, same)) small
        (All-FitsInt t.entries (omega (arith, sizes, size_index, same))) in
    let bits : parse_bits file (as_words t.filter_at) ≡ some t.bits =
      parse_bits-append file t.front t.bits (encode_fixed32 t.hash_num ++ (t.index ++ footer))
        (as_words t.filter_at) filtered (omega (arith, t.filter_place.0, sizes, size_front))
        (omega (
          arith,
          t.filter_place.1,
          sizes,
          size_front,
          size_filter,
          length-encode_fixed32 t.hash_num,
        ))
        small (omega (arith, t.filter_place.1, sizes, size_front)) in
    rw (read_all_lem file lines)
      (rw (ap parse_header t.joined ∙ header, ◌>>=◌) (rw (blocks, ◌>>=◌) (rw (bits, ◌>>=◌) refl)))

-- The same, from the builder on.
module _ {File : Type 0} (write : File → Bytes → File × Option ℕ) (contents : File → Bytes)
    (os : Reliable write contents) (read_address : OffsetInfo → Option ℕ) where
  -- A table file that the builder finishes, on a placed builder with a record or an index entry and
  -- over a system whose writes are complete, is a table with the filter of the builder, and is
  -- parsed to what stands there: its index entries, the bits of its filter and its places, with the
  -- number of hash functions that stands at the address the parser reads; a fault at that address
  -- is a fault of the parser. The file has no line feed and less than 2^31 bytes, and so have the
  -- last data block, the filter and the index.
  pub parse-finish_sst :
      (fresh : FilterBlockBuilder) (b b' : SsTableBuilder File)
      → IsPlaced write contents b
      → (0 < length b.data_block.block) ⊎ (0 < length b.index_data)
      → IsSmall write contents b
      → finish_sst write fresh b ≡ some b'
      → All (λ c. c ≢ 10) (contents b'.writer.file)
      → length (contents b'.writer.file) < 2 ^ 31
      → (t : IsTable write contents (contents b'.writer.file)) × HasFilter write contents
          (final_filter write contents b)
          (contents b'.writer.file)
          t
        × (parse read_address (contents b'.writer.file) ≡ (
            read_address (as_words t.filter_at) >>= λ n.
            some (parsed write contents (contents b'.writer.file) t n)))
  parse-finish_sst fresh b b' p h sizes run lines small =
      let (d, run', (table, made, _, _), _) =
        finish_sst-IsTable write contents os fresh b p h sizes in
      let same : d ≡ b' = some-injective _ _ (sym run' ∙ run) in
      let (t, filter) =
        subst
          (λ (e : SsTableBuilder File).
            (t : IsTable write contents (contents e.writer.file)) × HasFilter write contents
              (final_filter write contents b) (contents e.writer.file) t)
          same (table, made) in
      (t, filter, parse-IsTable write contents read_address (contents b'.writer.file) t lines small)
