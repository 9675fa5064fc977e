-- ===== src/Table/FilterBlock/Keys.antt =====
-- The filter that a filter block builder ends with (src/table/filter_block_builder.cpp), and the keys
-- that were added; the builder finishes it twice.
use smallkv.Base.{
  ◌*◌, ◌^◌, ◌<◌, ◌≡◌, ◌≢◌, refl, ap, ◌∙◌, true, List, [], ◌∷◌, ◌++◌, length, All, arith,
}
use smallkv.Base.Bytes.{Bytes}
use smallkv.Bloom.{BloomFilter, create_filter, exists_key}
use smallkv.Bloom.Members.{IsByte, create_filter-IsByte, exists_key-create_filter}
use smallkv.Table.FilterBlock.{FilterBlockBuilder, build_filter, finish_filter_block}

-- With a key there is a filter to build, and the keys are kept.
build_filter-keys :
    (b : FilterBlockBuilder) (pre : List Bytes) (key : Bytes) (post : List Bytes)
    → build_filter b (pre ++ key ∷ post)
      ≡ record b { filter_policy = create_filter b.filter_policy (pre ++ key ∷ post) }
unfolding build_filter
build_filter-keys b [] key post = refl
build_filter-keys b (k ∷ pre) key post = refl

-- A filter block that is finished, once and twice.
finished_once :
    (b : FilterBlockBuilder) (pre : List Bytes) (key : Bytes) (post : List Bytes)
    → b.key_data ≡ pre ++ key ∷ post
    → ((finish_filter_block b).filter_policy ≡ create_filter b.filter_policy (pre ++ key ∷ post))
      × ((finish_filter_block b).key_data ≡ pre ++ key ∷ post)
unfolding finish_filter_block
finished_once b pre key post e =
    let once : build_filter b b.key_data
        ≡ record b { filter_policy = create_filter b.filter_policy (pre ++ key ∷ post) } =
      ap (build_filter b) e ∙ build_filter-keys b pre key post in
    (
      ap (λ (b : FilterBlockBuilder). b.filter_policy) once,
      ap (λ (b : FilterBlockBuilder). b.key_data) once ∙ e,
    )

finished_twice :
    (b : FilterBlockBuilder) (pre : List Bytes) (key : Bytes) (post : List Bytes)
    → b.key_data ≡ pre ++ key ∷ post
    → (finish_filter_block (finish_filter_block b)).filter_policy
      ≡ create_filter (create_filter b.filter_policy (pre ++ key ∷ post)) (pre ++ key ∷ post)
finished_twice b pre key post e =
    let (once, kept) = finished_once b pre key post e in
    (finished_once (finish_filter_block b) pre key post kept).0
    ∙ ap (λ f. create_filter f (pre ++ key ∷ post)) once

-- The filter that is written finds each of its keys.
pub finds :
    (b : FilterBlockBuilder) (pre : List Bytes) (key : Bytes) (post : List Bytes)
    → b.key_data ≡ pre ++ key ∷ post
    → All IsByte b.filter_policy.bits_array
    → 0 < length b.filter_policy.bits_array
    → length b.filter_policy.bits_array * 8 < 2 ^ 32
    → key ≢ []
    → let f = (finish_filter_block (finish_filter_block b)).filter_policy in
      (exists_key f key ≡ true)
      × (length f.bits_array ≡ length b.filter_policy.bits_array)
      × (f.hash_func_num ≡ b.filter_policy.hash_func_num)
finds b pre key post e bytes some_bits small some_key =
    let keys = pre ++ key ∷ post in
    let f = create_filter b.filter_policy keys in
    let (_, size₁, num₁) =
      exists_key-create_filter b.filter_policy pre key post bytes some_bits small some_key in
    let (hit, size₂, num₂) =
      exists_key-create_filter f pre key post (create_filter-IsByte b.filter_policy keys bytes)
        (omega (arith, size₁)) (omega (arith, size₁, small)) some_key in
    let twice = finished_twice b pre key post e in
    (
      ap (λ g. exists_key g key) twice ∙ hit,
      ap (λ (g : BloomFilter). length g.bits_array) twice ∙ size₂ ∙ size₁,
      ap (λ (g : BloomFilter). g.hash_func_num) twice ∙ num₂ ∙ num₁,
    )
