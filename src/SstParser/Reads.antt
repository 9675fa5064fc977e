-- ===== src/SstParser/Reads.antt =====
-- What the parser of a table file (src/sst_parser/sst_parser.cpp) reads at the place of a number,
-- of a text, or of an offset that the builders wrote there.
use smallkv.Base.{
  ℕ, ◌+◌, ◌%◌, ◌^◌, ◌<◌, ◌≡◌, refl, sym, ap, ◌∙◌, some, ◌++◌, length, take, drop, arith,
  append_assoc, length-append, take-length-append, drop-length-append,
}
use smallkv.Base.Maybe.{◌>>=◌}
use smallkv.Base.Bytes.{Bytes}
use smallkv.Codec.{byte_at, encode_fixed32, encode_fixed64, decode_fixed32}
use smallkv.Codec.RoundTrip.{decode_fixed32-encode_fixed32, length-encode_fixed32}
use smallkv.Table.DataBlock.{OffsetInfo, as_word}
use smallkv.SstParser.{read_int, read_string, read_info}

-- An offset as the parser reads it: both numbers on 32 bits.
abbrev pub as_words : OffsetInfo → OffsetInfo
as_words info = record { size = info.size % 2 ^ 32; offset = info.offset % 2 ^ 32 }

-- The eight bytes of an offset are those of its size, then those of its place.
pub encode_fixed64-as_word :
    (info : OffsetInfo)
    → encode_fixed64 (as_word info) ≡ encode_fixed32 info.size ++ encode_fixed32 info.offset
unfolding encode_fixed64 encode_fixed32
encode_fixed64-as_word info =
    let s = info.size in
    let o = info.offset in
    let w = as_word info in
    let b₀ : byte_at w 0 ≡ byte_at s 0 = omega arith in
    let b₁ : byte_at w 8 ≡ byte_at s 8 = omega arith in
    let b₂ : byte_at w 16 ≡ byte_at s 16 = omega arith in
    let b₃ : byte_at w 24 ≡ byte_at s 24 = omega arith in
    let b₄ : byte_at w 32 ≡ byte_at o 0 = omega arith in
    let b₅ : byte_at w 40 ≡ byte_at o 8 = omega arith in
    let b₆ : byte_at w 48 ≡ byte_at o 16 = omega arith in
    let b₇ : byte_at w 56 ≡ byte_at o 24 = omega arith in cc (b₀, b₁, b₂, b₃, b₄, b₅, b₆, b₇)

pub read_int-encode_fixed32 :
    (pre rest : Bytes) (val at : ℕ)
    → at ≡ length pre
    → read_int (pre ++ (encode_fixed32 val ++ rest)) at ≡ some (val % 2 ^ 32)
read_int-encode_fixed32 pre rest val at e =
    ap decode_fixed32 (drop-length-append at pre (encode_fixed32 val ++ rest) e)
    ∙ decode_fixed32-encode_fixed32 val rest

pub read_info-as_word :
    (pre rest : Bytes) (info : OffsetInfo) (at : ℕ)
    → at ≡ length pre
    → read_info (pre ++ (encode_fixed64 (as_word info) ++ rest)) at ≡ some (as_words info)
unfolding read_info
read_info-as_word pre rest info at e =
    let s = encode_fixed32 info.size in
    let o = encode_fixed32 info.offset in
    let size : read_int (pre ++ (s ++ (o ++ rest))) at ≡ some (info.size % 2 ^ 32) =
      read_int-encode_fixed32 pre (o ++ rest) info.size at e in
    let place : read_int (pre ++ (s ++ (o ++ rest))) (at + 4) ≡ some (info.offset % 2 ^ 32) =
      ap (λ t. read_int t (at + 4)) (sym (append_assoc pre s (o ++ rest)))
      ∙ read_int-encode_fixed32 (pre ++ s) rest info.offset (at + 4)
          (omega (arith, e, length-append pre s, length-encode_fixed32 info.size)) in
    ap (λ t. read_info (pre ++ t) at)
      (ap (λ t. t ++ rest) (encode_fixed64-as_word info) ∙ append_assoc s o rest)
    ∙ rw (size, place, ◌>>=◌) refl

pub read_string-append :
    (pre text rest : Bytes) (at : ℕ)
    → at ≡ length pre
    → length text < 2 ^ 31
    → read_string (pre ++ (text ++ rest)) at (length text) ≡ some text
unfolding read_string
read_string-append pre text rest at e h =
    let whole : take (length text) (drop at (pre ++ (text ++ rest))) ≡ text =
      ap (take (length text)) (drop-length-append at pre (text ++ rest) e)
      ∙ take-length-append (length text) text rest refl in
    ground (arith, whole)
