-- ===== src/SstParser/Parse.antt =====
-- Reading back what the table builder wrote (src/sst_parser/sst_parser.cpp against
-- src/table/index_block_builder.cpp, src/table/footer_builder.cpp and
-- src/table/sstable_builder.cpp): the index, entry by entry, and the footer.
use smallkv.Base.{
  ℕ, zero, suc, ◌+◌, ◌-◌, ◌^◌, ◌≤◌, ◌<◌, ◌≡◌, refl, sym, ap, ◌∙◌, true, false, ◌||◌, some, List, [],
  ◌∷◌, ◌++◌, length, All, ltb, ◌==◌, arith, append_assoc, append-nil, length-append, if_true,
  if_false,
}
use smallkv.Base.Maybe.{◌>>=◌}
use smallkv.Base.Bytes.{Bytes}
use smallkv.Codec.{encode_fixed32, encode_fixed64, put_fixed32, put_fixed64}
use smallkv.Codec.RoundTrip.{length-encode_fixed32, length-encode_fixed64}
use smallkv.Table.DataBlock.{OffsetInfo, as_word}
use smallkv.Table.IndexBlock.{add_index, add_footer, Entry, index_bytes}
use smallkv.SstParser.{
  IndexBlock, is_negative, read_int, read_string, read_info, parse_header, parse_index_loop,
  parse_index,
}
use native.Mathlib.Decide.{dec_le}
use smallkv.SstParser.Reads.{
  as_words, read_int-encode_fixed32, read_info-as_word, read_string-append,
}

-- The entries as the parser holds them.
unfoldable pub blocks_of : List Entry → List IndexBlock
blocks_of [] = []
blocks_of ((key, info) ∷ es) =
    record { shortest_key = key; offset_info = as_words info } ∷ blocks_of es

-- What an entry can hold.
abbrev pub FitsInt : Entry → Type 0
FitsInt e = length e.0 < 2 ^ 31

-- The parts of an entry.
add_index-parts :
    (key : Bytes) (info : OffsetInfo) (rest : Bytes)
    → add_index [] key info ++ rest
      ≡ encode_fixed32 (length key) ++ (key ++ (encode_fixed64 (as_word info) ++ rest))
unfolding add_index put_fixed32 put_fixed64
add_index-parts key info rest = simp append_assoc

pub length-add_index_nil :
    (key : Bytes) (info : OffsetInfo) → length (add_index [] key info) ≡ 4 + length key + 8
length-add_index_nil key info =
    let n = encode_fixed32 (length key) in
    let w = encode_fixed64 (as_word info) in
    omega (
      arith,
      ap length (sym (append-nil (add_index [] key info)) ∙ add_index-parts key info []),
      length-append n (key ++ (w ++ [])),
      length-append key (w ++ []),
      length-append w [],
      length-encode_fixed32 (length key),
      length-encode_fixed64 (as_word info),
    )

module _ (content pre rest key : Bytes) (info : OffsetInfo) (at : ℕ)
    (e : content ≡ pre ++ (add_index [] key info ++ rest)) (p : at ≡ length pre)
    (h : length key < 2 ^ 31) where
  abbrev n : Bytes
  n = encode_fixed32 (length key)

  abbrev w : Bytes
  w = encode_fixed64 (as_word info)

  parts : content ≡ pre ++ (n ++ (key ++ (w ++ rest)))
  parts = e ∙ ap (λ t. pre ++ t) (add_index-parts key info rest)

  entry_size : read_int content at ≡ some (length key)
  entry_size =
      ap (λ c. read_int c at) parts
      ∙ read_int-encode_fixed32 pre (key ++ (w ++ rest)) (length key) at p
      ∙ ap some (omega arith)

  entry_key : read_string content (at + 4) (length key) ≡ some key
  entry_key =
      ap (λ c. read_string c (at + 4) (length key))
        (parts ∙ sym (append_assoc pre n (key ++ (w ++ rest))))
      ∙ read_string-append (pre ++ n) key (w ++ rest) (at + 4)
          (omega (arith, p, length-append pre n, length-encode_fixed32 (length key))) h

  entry_info : read_info content (at + 4 + length key) ≡ some (as_words info)
  entry_info =
      ap (λ c. read_info c (at + 4 + length key))
        (parts
          ∙ sym (append_assoc pre n (key ++ (w ++ rest)))
          ∙ sym (append_assoc (pre ++ n) key (w ++ rest)))
      ∙ read_info-as_word ((pre ++ n) ++ key) rest info (at + 4 + length key) (
          omega (
            arith,
            p,
            length-append (pre ++ n) key,
            length-append pre n,
            length-encode_fixed32 (length key),
          ))

-- The loop gives the entries, in order, and stops where they end.
pub parse_index_loop-index_bytes :
    (fuel : ℕ) (es : List Entry) (content pre rest : Bytes) (at left : ℕ)
    → content ≡ pre ++ (index_bytes es ++ rest)
    → at ≡ length pre
    → left ≡ length (index_bytes es)
    → All FitsInt es
    → length es ≤ fuel
    → parse_index_loop fuel content at left ≡ some (blocks_of es)
unfolding parse_index_loop index_bytes blocks_of
parse_index_loop-index_bytes zero [] content pre rest at left e p l a f = ground arith
parse_index_loop-index_bytes (suc fuel) [] content pre rest at left e p l a f =
    let t : (left == 0) ≡ true = ground arith in if_true _ _ _ t
parse_index_loop-index_bytes zero (x ∷ es) content pre rest at left e p l a f = absurd (omega arith)
parse_index_loop-index_bytes (suc fuel) ((key, info) ∷ es) content pre rest at left e p l a f =
    let whole : content ≡ pre ++ (add_index [] key info ++ (index_bytes es ++ rest)) =
      e ∙ ap (λ t. pre ++ t) (append_assoc (add_index [] key info) (index_bytes es) rest) in
    let size = length-add_index_nil key info in
    let more : left ≡ 4 + length key + 8 + length (index_bytes es) =
      omega (arith, l, size, length-append (add_index [] key info) (index_bytes es)) in
    let t₁ : (left == 0) ≡ false = ground arith in
    let t₂ : ltb left (4 + length key + 8) ≡ false = ground arith in
    let rest_of =
      parse_index_loop-index_bytes fuel es content (pre ++ add_index [] key info) rest
        (at + (4 + length key + 8)) (left - (4 + length key + 8))
        (whole ∙ sym (append_assoc pre (add_index [] key info) (index_bytes es ++ rest)))
        (omega (arith, p, size, length-append pre (add_index [] key info))) (omega (arith, more))
        a.1 (omega (arith, f)) in
    if_false _ _ _ t₁
    ∙ rw (entry_size content pre (index_bytes es ++ rest) key info at whole p a.0, ◌>>=◌)
        (rw (entry_key content pre (index_bytes es ++ rest) key info at whole p a.0, ◌>>=◌)
          (rw (entry_info content pre (index_bytes es ++ rest) key info at whole p a.0, ◌>>=◌)
            (if_false _ _ _ t₂ ∙ rw (rest_of, ◌>>=◌) refl)))

-- An entry takes twelve bytes at least.
length-index_bytes : (es : List Entry) → length es ≤ length (index_bytes es)
unfolding index_bytes
length-index_bytes [] = omega arith
length-index_bytes ((key, info) ∷ es) = omega (
  arith,
  length-append (add_index [] key info) (index_bytes es),
  length-add_index_nil key info,
  length-index_bytes es,
)

-- The index stands where its offset says.
pub parse_index-index_bytes :
    (es : List Entry) (content pre rest : Bytes) (at : OffsetInfo)
    → content ≡ pre ++ (index_bytes es ++ rest)
    → at.offset ≡ length pre
    → at.size ≡ length (index_bytes es)
    → length content < 2 ^ 31
    → All FitsInt es
    → parse_index content at ≡ some (blocks_of es)
unfolding parse_index blocks_of
parse_index-index_bytes es content pre rest at e p l small a = elim (dec_le 1 at.size) [
  | yes k ↦
      let sizes = ap length e ∙ length-append pre (index_bytes es ++ rest) in
      let more = length-append (index_bytes es) rest in
      let t₁ : (at.size == 0) ≡ false = ground arith in
      let t₂ : (is_negative at.size || is_negative at.offset) ≡ false =
        ground (arith, sizes, more) in
      if_false _ _ _ t₁
      ∙ if_false _ _ _ t₂
      ∙ parse_index_loop-index_bytes at.size es content pre rest at.offset at.size e p l a
          (omega (arith, l, length-index_bytes es))
  | no k ↦
      let t : (at.size == 0) ≡ true = ground arith in
      if_true _ _ _ t ∙ ap some (none_left es (omega (arith, l, length-index_bytes es)))
]
  where
    none_left : (es : List Entry) → length es ≡ 0 → [] ≡ blocks_of es
    none_left [] h = refl
    none_left (x ∷ es) h = absurd (omega arith)

-- The footer, at the end of any file.
pub parse_header-add_footer :
    (front : Bytes) (meta index : OffsetInfo)
    → parse_header (front ++ add_footer [] meta index)
      ≡ some (record { meta_block = as_words meta; index_block = as_words index })
unfolding parse_header add_footer put_fixed64
parse_header-add_footer front meta index =
    let m = encode_fixed64 (as_word meta) in
    let i = encode_fixed64 (as_word index) in
    let content = front ++ (m ++ i) in
    let size : length content ≡ length front + 16 = omega (
      arith,
      length-append front (m ++ i),
      length-append m i,
      length-encode_fixed64 (as_word meta),
      length-encode_fixed64 (as_word index),
    ) in
    let t : ltb (length content) 16 ≡ false = ground (arith, size) in
    let first : read_info content (length content - 16) ≡ some (as_words meta) =
      read_info-as_word front i meta (length content - 16) (omega (arith, size)) in
    let second : read_info content (length content - 8) ≡ some (as_words index) =
      ap (λ c. read_info c (length content - 8))
        (ap (λ t. front ++ t) (ap (λ t. m ++ t) (sym (append-nil i)))
          ∙ sym (append_assoc front m (i ++ [])))
      ∙ read_info-as_word (front ++ m) [] index (length content - 8)
          (omega (arith, size, length-append front m, length-encode_fixed64 (as_word meta))) in
    if_false _ _ _ t ∙ rw (first, ◌>>=◌) (rw (second, ◌>>=◌) refl)
