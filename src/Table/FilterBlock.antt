-- ===== src/Table/FilterBlock.antt =====
-- The filter block builder (src/table/filter_block_builder.h, src/table/filter_block_builder.cpp),
-- over a Bloom filter.
pub mod Keys
use smallkv.Base.{ℕ, Bool, List, [], ◌∷◌, ◌++◌}
use smallkv.Base.Bytes.{Bytes}
use smallkv.Codec.{put_fixed32}
use smallkv.Bloom.{BloomFilter, make_filter, create_filter, exists_key}

pub record FilterBlockBuilder : Type 0 where
  pub filter_policy : BloomFilter
  pub key_data : List Bytes
  pub block : Bytes

unfoldable pub make_builder : ℕ → ℕ → (ℕ → ℕ) → FilterBlockBuilder
make_builder keys_num bits_num optimal = record {
  filter_policy = make_filter keys_num bits_num optimal;
  key_data = [];
  block = [];
}

unfoldable pub add_key : FilterBlockBuilder → Bytes → FilterBlockBuilder
add_key b [] = b
add_key b (k ∷ ks) = record b { key_data = b.key_data ++ (k ∷ ks) ∷ [] }

unfoldable pub build_filter : FilterBlockBuilder → List Bytes → FilterBlockBuilder
build_filter b [] = b
build_filter b (k ∷ ks) = record b { filter_policy = create_filter b.filter_policy (k ∷ ks) }

unfoldable pub finish_filter_block : FilterBlockBuilder → FilterBlockBuilder
unfolding build_filter
finish_filter_block b =
    let b' = build_filter b b.key_data in
    record b' { block = put_fixed32 b'.filter_policy.bits_array b'.filter_policy.hash_func_num }

unfoldable pub clear : FilterBlockBuilder → FilterBlockBuilder
clear b = record b { key_data = []; block = [] }

unfoldable pub exists_in : FilterBlockBuilder → Bytes → Bool
exists_in b key = exists_key b.filter_policy key
