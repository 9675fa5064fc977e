-- ===== src/Table/Builder/Sizes.antt =====
-- The sizes of what the builder of a table (src/table/sstable_builder.cpp) writes.
use smallkv.Base.{
  ℕ, zero, suc, ◌+◌, ◌%◌, ◌^◌, ◌≤◌, ◌≡◌, refl, sym, ap, ◌∙◌, true, List, [], ◌∷◌, ◌++◌, length,
  arith, length-append, length-set,
}
use smallkv.Base.Bytes.{Bytes, lt, compare_bytes}
use smallkv.FileWriter.Append.{}
use smallkv.Bloom.{add_loop, add_keys, create_filter, set_pos}
use smallkv.Bloom.Hash.{murmur_hash2}
use smallkv.Codec.{put_fixed32}
use smallkv.Codec.RoundTrip.{length-encode_fixed32, length-encode_fixed64}
use smallkv.Codec.{put_fixed64, encode_fixed32, encode_fixed64}
use smallkv.Table.DataBlock.{as_word, OffsetInfo}
use smallkv.Table.FilterBlock.{FilterBlockBuilder, build_filter, finish_filter_block}
use smallkv.Table.IndexBlock.{add_index}
use smallkv.Table.Builder.{less}

-- The bit array keeps its size.
length-add_loop :
    (n size h delta : ℕ) (bits : Bytes) → length (add_loop n size h delta bits) ≡ length bits
unfolding add_loop set_pos
length-add_loop zero size h delta bits = refl
length-add_loop (suc n) size h delta bits =
    length-add_loop n size ((h + delta) % 2 ^ 32) delta (set_pos bits (h % size))
    ∙ length-set bits _ _

length-add_keys :
    (n size : ℕ) (keys : List Bytes) (bits : Bytes)
    → length (add_keys n size keys bits) ≡ length bits
unfolding add_keys
length-add_keys n size [] bits = refl
length-add_keys n size (k ∷ keys) bits =
    length-add_keys n size keys _ ∙ length-add_loop n size (murmur_hash2 k) _ bits

length-build_filter :
    (f : FilterBlockBuilder) (keys : List Bytes)
    → length (build_filter f keys).filter_policy.bits_array ≡ length f.filter_policy.bits_array
unfolding build_filter create_filter
length-build_filter f [] = refl
length-build_filter f (k ∷ keys) = length-add_keys _ _ (k ∷ keys) f.filter_policy.bits_array

pub length-finish_filter_block :
    (f : FilterBlockBuilder)
    → length (finish_filter_block f).block ≡ length f.filter_policy.bits_array + 4
unfolding finish_filter_block put_fixed32
length-finish_filter_block f =
    length-append (build_filter f f.key_data).filter_policy.bits_array _
    ∙ ap (λ n. length (build_filter f f.key_data).filter_policy.bits_array + n)
        (length-encode_fixed32 (build_filter f f.key_data).filter_policy.hash_func_num)
    ∙ ap (λ n. n + 4) (length-build_filter f f.key_data)

-- The block of the filter: its bits, then the number of hash functions.
pub finish_filter_block_lem :
    (f : FilterBlockBuilder)
    → (finish_filter_block f).block
      ≡ (finish_filter_block f).filter_policy.bits_array
        ++ encode_fixed32 (finish_filter_block f).filter_policy.hash_func_num
unfolding finish_filter_block put_fixed32
finish_filter_block_lem f = refl

-- Finishing the filter again changes no size.
pub finish_filter_block_twice :
    (f : FilterBlockBuilder)
    → length (finish_filter_block (finish_filter_block f)).block
      ≡ length (finish_filter_block f).block
unfolding finish_filter_block
finish_filter_block_twice f =
    length-finish_filter_block (finish_filter_block f)
    ∙ ap (λ n. n + 4) (length-build_filter f f.key_data)
    ∙ sym (length-finish_filter_block f)

pub less_lem : (xs ys : Bytes) → compare_bytes xs ys ≡ lt → less xs ys ≡ true
unfolding less
less_lem xs ys h = ground (arith, h)

-- An index entry takes eight bytes at least.
pub length-add_index :
    (block key : Bytes) (info : OffsetInfo) → 8 ≤ length (add_index block key info)
unfolding add_index put_fixed64
length-add_index block key info = omega (
  arith,
  length-append (put_fixed32 block (length key) ++ key) (encode_fixed64 (as_word info)),
  length-encode_fixed64 (as_word info),
)
