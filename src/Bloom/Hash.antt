-- ===== src/Bloom/Hash.antt =====
-- MurmurHash2 on 32 bits (src/utils/murmur_hash2.h, src/utils/murmur_hash2.cpp). Four bytes are
-- read as a little-endian word, as on the machines the program runs on.
use smallkv.Base.{ℕ, ◌+◌, ◌*◌, ◌/◌, ◌%◌, ◌^◌, ◌<◌, [], ◌∷◌, length, arith}
use smallkv.Base.Bytes.{Bytes}
use smallkv.Base.Bits.{bit_xor-lt}
use Prim.Native.Nat.{bit_xor}

abbrev pub mult : ℕ
mult = 0x5bd1e995

-- `a * b` of two `uint32_t`
abbrev pub mul32 : ℕ → ℕ → ℕ
mul32 a b = a * b % 2 ^ 32

-- k *= m; k ^= k >> r; k *= m;
unfoldable pub mix : ℕ → ℕ
mix k = let k₁ = mul32 k mult in mul32 (bit_xor k₁ (k₁ / 2 ^ 24)) mult

-- The loop over the words, and the switch over the bytes that are left.
unfoldable pub hash_loop : ℕ → Bytes → ℕ
hash_loop h (a ∷ b ∷ c ∷ d ∷ rest) =
    hash_loop (bit_xor (mul32 h mult) (mix (a + b * 2 ^ 8 + c * 2 ^ 16 + d * 2 ^ 24))) rest
hash_loop h (a ∷ b ∷ c ∷ []) = mul32 (bit_xor (bit_xor (bit_xor h (c * 2 ^ 16)) (b * 2 ^ 8)) a) mult
hash_loop h (a ∷ b ∷ []) = mul32 (bit_xor (bit_xor h (b * 2 ^ 8)) a) mult
hash_loop h (a ∷ []) = mul32 (bit_xor h a) mult
hash_loop h [] = h

-- The last mixes.
unfoldable pub finish : ℕ → ℕ
finish h = let h₁ = mul32 (bit_xor h (h / 2 ^ 13)) mult in bit_xor h₁ (h₁ / 2 ^ 15)

unfoldable pub murmur_hash2 : Bytes → ℕ
unfolding mix hash_loop finish
murmur_hash2 key = finish (hash_loop (bit_xor 0xbc451d34 (length key % 2 ^ 32)) key)

-- The hash is less than 2^32 for every key.
pub murmur_hash2-lt : (key : Bytes) → murmur_hash2 key < 2 ^ 32
unfolding murmur_hash2
murmur_hash2-lt key = bit_xor-lt 32 _ _ (omega arith) (omega arith)
