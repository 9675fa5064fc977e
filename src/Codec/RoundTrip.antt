-- ===== src/Codec/RoundTrip.antt =====
-- What the decoders read back of what the encoders wrote (src/utils/codec.cpp).
use smallkv.Base.{ℕ, ◌+◌, ◌*◌, ◌%◌, ◌^◌, ◌<◌, ◌≡◌, refl, ap, ◌∙◌, some, ◌++◌, length, arith}
use smallkv.Base.Bytes.{Bytes}
use smallkv.Base.Bits.{bit_or_fields}
use smallkv.Codec.{
  byte_at, encode_fixed32, encode_fixed64, decode_fixed32, decode_fixed64, joined32,
}

-- Four bytes joined are the number that they spell.
joined32-sum :
    (a b c d : ℕ)
    → a < 256
    → b < 256
    → c < 256
    → d < 256
    → joined32 a b c d ≡ a + b * 256 + c * 65536 + d * 16777216
joined32-sum a b c d ha hb hc hd =
    let e₁ = bit_or_fields 8 a b ha in
    let e₂ = bit_or_fields 16 (a + b * 2 ^ 8) c (omega arith) in
    let e₃ = bit_or_fields 24 (a + b * 2 ^ 8 + c * 2 ^ 16) d (omega arith) in
    rw (e₁, e₂, e₃) (omega arith)

-- Decoding the four bytes that EncodeFixed32 writes, whatever follows them, gives the number modulo
-- 2^32.
pub decode_fixed32-encode_fixed32 :
    (val : ℕ) (rest : Bytes) → decode_fixed32 (encode_fixed32 val ++ rest) ≡ some (val % 2 ^ 32)
unfolding decode_fixed32 encode_fixed32
decode_fixed32-encode_fixed32 val rest = ap some (
    joined32-sum (byte_at val 0) (byte_at val 8) (byte_at val 16) (byte_at val 24) (omega arith)
      (omega arith) (omega arith) (omega arith)
    ∙ omega arith)

-- Decoding the eight bytes that EncodeFixed64 writes, whatever follows them, gives the number
-- modulo 2^64.
pub decode_fixed64-encode_fixed64 :
    (val : ℕ) (rest : Bytes) → decode_fixed64 (encode_fixed64 val ++ rest) ≡ some (val % 2 ^ 64)
unfolding decode_fixed64 encode_fixed64
decode_fixed64-encode_fixed64 val rest =
    let low = val % 2 ^ 32 in
    let e₀ : joined32 (byte_at val 0) (byte_at val 8) (byte_at val 16) (byte_at val 24) ≡ low =
      joined32-sum (byte_at val 0) (byte_at val 8) (byte_at val 16) (byte_at val 24) (omega arith)
        (omega arith) (omega arith) (omega arith)
      ∙ omega arith in
    let e₁ = bit_or_fields 32 low (byte_at val 32) (omega arith) in
    let s₁ = low + byte_at val 32 * 2 ^ 32 in
    let e₂ = bit_or_fields 40 s₁ (byte_at val 40) (omega arith) in
    let s₂ = s₁ + byte_at val 40 * 2 ^ 40 in
    let e₃ = bit_or_fields 48 s₂ (byte_at val 48) (omega arith) in
    let s₃ = s₂ + byte_at val 48 * 2 ^ 48 in
    let e₄ = bit_or_fields 56 s₃ (byte_at val 56) (omega arith) in
    rw (e₀, e₁, e₂, e₃, e₄) (ap some (omega arith))

-- The widths of the encodings.
pub length-encode_fixed32 : (val : ℕ) → length (encode_fixed32 val) ≡ 4
unfolding encode_fixed32
length-encode_fixed32 val = refl

pub length-encode_fixed64 : (val : ℕ) → length (encode_fixed64 val) ≡ 8
unfolding encode_fixed64
length-encode_fixed64 val = refl
