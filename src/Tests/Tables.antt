-- ===== src/Tests/Tables.antt =====
-- The data block builder (src/table/data_block_builder.cpp) and the separators of the index
-- (src/table/sstable_builder.cpp) at concrete inputs.
use smallkv.Base.{◌≡◌, ◌≢◌, refl, some, List, [], ◌∷◌, arith}
use smallkv.Base.Bytes.{Bytes, lt, gt, compare_bytes}
use smallkv.Table.Builder.{find_shortest_key}
use smallkv.Table.Builder.Separators.{find_shortest_key-between}
use smallkv.Table.DataBlock.{empty_block, add_all}
use smallkv.Table.DataBlock.Decode.{read_block, read_block-add_all}

-- Two keys that share two bytes, and one that shares nothing.
abbrev three_pairs : List (Bytes × Bytes)
three_pairs = ((1 ∷ 2 ∷ 3 ∷ []), (30 ∷ [])) ∷ ((1 ∷ 2 ∷ 4 ∷ []), (40 ∷ [])) ∷ ((7 ∷ []), []) ∷ []

read_block-add_all_example :
    read_block 3 [] (add_all empty_block three_pairs).block ≡ some three_pairs
read_block-add_all_example = read_block-add_all three_pairs (
  (ground arith, omega arith, omega arith),
  ((ground arith, omega arith, omega arith), ((ground arith, omega arith, omega arith), tt)),
)

-- The keys `abcd` and `abecd`.
find_shortest_key-between_example :
    (s : Bytes) × (find_shortest_key (97 ∷ 98 ∷ 99 ∷ 100 ∷ []) (97 ∷ 98 ∷ 101 ∷ 99 ∷ 100 ∷ [])
      ≡ some s)
    × (compare_bytes (97 ∷ 98 ∷ 99 ∷ 100 ∷ []) s ≡ lt)
    × (compare_bytes s (97 ∷ 98 ∷ 101 ∷ 99 ∷ 100 ∷ []) ≢ gt)
unfolding compare_bytes
find_shortest_key-between_example =
    find_shortest_key-between (97 ∷ 98 ∷ 99 ∷ 100 ∷ []) (97 ∷ 98 ∷ 101 ∷ 99 ∷ 100 ∷ []) (λ e. cc e)
      (ground arith, (ground arith, (ground arith, (ground arith, tt))))
      (ground arith, (ground arith, (ground arith, (ground arith, (ground arith, tt))))) refl
