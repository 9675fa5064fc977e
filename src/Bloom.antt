-- ===== src/Bloom.antt =====
-- The Bloom filter (src/filter/bloom_filter.h, src/filter/bloom_filter.cpp). What its constructor
-- computes with floating-point numbers is a parameter: `bits_num`, the size of the bit array before
-- rounding, and `optimal`, the number of hash functions for so many bits per key.
pub mod Hash
pub mod Members
use smallkv.Base.{
  ℕ, zero, suc, ◌+◌, ◌*◌, ◌/◌, ◌%◌, ◌^◌, Bool, true, false, ◌&&◌, List, [], ◌∷◌, length, ltb, ◌==◌,
  if◌then◌else◌, set, get_or, replicate,
}
use smallkv.Base.Bits.{has_bit}
use smallkv.Base.Bytes.{Bytes}
use Prim.Native.Nat.{bit_or}
use Hash.{murmur_hash2}

pub record BloomFilter : Type 0 where
  pub hash_func_num : ℕ
  pub bits_array : Bytes

-- The number of hash functions, kept within 1 and 32.
unfoldable pub clamp_hash_num : ℕ → ℕ
clamp_hash_num n = if ltb n 1 then 1 else if ltb 32 n then 32 else n

unfoldable pub make_filter : (keys_num bits_num : ℕ) (optimal : ℕ → ℕ) → BloomFilter
make_filter keys_num bits_num optimal =
    let bytes = (bits_num + 7) / 8 in
    record {
      bits_array = replicate bytes 0;
      hash_func_num = clamp_hash_num (optimal (bytes * 8 / keys_num));
    }

-- `(h >> 17) | (h << 15)` on 32 bits
unfoldable pub delta_of : ℕ → ℕ
delta_of h = bit_or (h / 2 ^ 17) (h * 2 ^ 15 % 2 ^ 32)

-- `bits_array[pos / 8] |= (1 << (pos % 8))`
unfoldable pub set_pos : Bytes → ℕ → Bytes
set_pos bits pos = set bits (pos / 8) (bit_or (get_or bits (pos / 8) 0) (2 ^ (pos % 8)))

-- `(bits_array[pos / 8] & (1 << (pos % 8))) != 0`
unfoldable pub test_pos : Bytes → ℕ → Bool
test_pos bits pos = has_bit (get_or bits (pos / 8) 0) (pos % 8)

-- The loop over the hash functions, in `create_filter`; the first argument counts the rounds left.
unfoldable pub add_loop : ℕ → (bits_size h delta : ℕ) → Bytes → Bytes
add_loop zero bits_size h delta bits = bits
add_loop (suc n) bits_size h delta bits =
    add_loop n bits_size ((h + delta) % 2 ^ 32) delta (set_pos bits (h % bits_size))

unfoldable pub add_keys : (hash_func_num bits_size : ℕ) → List Bytes → Bytes → Bytes
add_keys n bits_size [] bits = bits
add_keys n bits_size (key ∷ keys) bits =
    let h = murmur_hash2 key in add_keys n bits_size keys (add_loop n bits_size h (delta_of h) bits)

unfoldable pub create_filter : BloomFilter → List Bytes → BloomFilter
create_filter f keys = record f {
  bits_array = add_keys f.hash_func_num (length f.bits_array * 8 % 2 ^ 32) keys f.bits_array;
}

-- The loop of `exists`.
unfoldable pub check_loop : ℕ → (bits_size h delta : ℕ) → Bytes → Bool
check_loop zero bits_size h delta bits = true
check_loop (suc n) bits_size h delta bits =
    let rest = check_loop n bits_size ((h + delta) % 2 ^ 32) delta bits in
    if test_pos bits (h % bits_size) then rest else false

unfoldable pub exists_key : BloomFilter → Bytes → Bool
exists_key f [] = false
exists_key f (b ∷ bs) =
    let h = murmur_hash2 (b ∷ bs) in
    check_loop f.hash_func_num (length f.bits_array * 8 % 2 ^ 32) h (delta_of h) f.bits_array

-- `create_filter2`, for a filter read from a table.
unfoldable pub create_filter2 : ℕ → Bytes → BloomFilter
create_filter2 hash_func_num bits = record { hash_func_num = hash_func_num; bits_array = bits }
