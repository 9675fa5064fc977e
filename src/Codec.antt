-- ===== src/Codec.antt =====
-- Fixed-width little-endian integers (src/utils/codec.h, src/utils/codec.cpp). A buffer is a byte
-- string; `encode_fixed*` gives the bytes that the function writes, and `decode_fixed*` reads at
-- the start of a buffer, `none` where it would read past its end.
pub mod RoundTrip
use smallkv.Base.{ℕ, ◌+◌, ◌*◌, ◌/◌, ◌%◌, ◌^◌, Option, none, some, [], ◌∷◌, ◌++◌}
use smallkv.Base.Bytes.{Bytes}
use Prim.Native.Nat.{bit_or}

-- `(val >> s) & 0xff`
abbrev pub byte_at : ℕ → ℕ → ℕ
byte_at val s = val / 2 ^ s % 256

unfoldable pub encode_fixed8 : ℕ → Bytes
encode_fixed8 val = byte_at val 0 ∷ []

unfoldable pub encode_fixed32 : ℕ → Bytes
encode_fixed32 val = byte_at val 0 ∷ byte_at val 8 ∷ byte_at val 16 ∷ byte_at val 24 ∷ []

unfoldable pub encode_fixed64 : ℕ → Bytes
encode_fixed64 val =
    byte_at val 0
    ∷ byte_at val 8
    ∷ byte_at val 16
    ∷ byte_at val 24
    ∷ byte_at val 32
    ∷ byte_at val 40
    ∷ byte_at val 48
    ∷ byte_at val 56
    ∷ []

unfoldable pub decode_fixed8 : Bytes → Option ℕ
decode_fixed8 [] = none
decode_fixed8 (d ∷ _) = some d

-- `d₀ | (d₁ << 8) | (d₂ << 16) | (d₃ << 24)`, from the left
abbrev pub joined32 : ℕ → ℕ → ℕ → ℕ → ℕ
joined32 d₀ d₁ d₂ d₃ = bit_or (bit_or (bit_or d₀ (d₁ * 2 ^ 8)) (d₂ * 2 ^ 16)) (d₃ * 2 ^ 24)

unfoldable pub decode_fixed32 : Bytes → Option ℕ
decode_fixed32 (d₀ ∷ d₁ ∷ d₂ ∷ d₃ ∷ _) = some (joined32 d₀ d₁ d₂ d₃)
decode_fixed32 _ = none

unfoldable pub decode_fixed64 : Bytes → Option ℕ
decode_fixed64 (d₀ ∷ d₁ ∷ d₂ ∷ d₃ ∷ d₄ ∷ d₅ ∷ d₆ ∷ d₇ ∷ _) = some (
    bit_or
      (bit_or (bit_or (bit_or (joined32 d₀ d₁ d₂ d₃) (d₄ * 2 ^ 32)) (d₅ * 2 ^ 40)) (d₆ * 2 ^ 48))
      (d₇ * 2 ^ 56))
decode_fixed64 _ = none

unfoldable pub put_fixed8 : Bytes → ℕ → Bytes
put_fixed8 dst val = dst ++ encode_fixed8 val

unfoldable pub put_fixed32 : Bytes → ℕ → Bytes
put_fixed32 dst val = dst ++ encode_fixed32 val

unfoldable pub put_fixed64 : Bytes → ℕ → Bytes
put_fixed64 dst val = dst ++ encode_fixed64 val
