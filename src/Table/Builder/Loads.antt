-- ===== src/Table/Builder/Loads.antt =====
-- How many bytes the builder of a table (src/table/sstable_builder.cpp) holds for the pairs that it
-- took: their records, their restart points and the index entries.
use smallkv.Base.{
  ℕ, zero, suc, ◌+◌, ◌-◌, ◌*◌, ◌≤◌, ◌≡◌, ◌≢◌, refl, ap, ◌∙◌, some, List, [], ◌∷◌, ◌++◌, length,
  arith, length-append, length-drop, drop, take,
}
use smallkv.Base.Bytes.{Bytes}
use smallkv.Codec.{put_fixed32, put_fixed64, encode_fixed32, encode_fixed64}
use smallkv.Codec.RoundTrip.{length-encode_fixed32, length-encode_fixed64}
use smallkv.SkipList.Chain.{Entries}
use smallkv.Table.DataBlock
use smallkv.Table.DataBlock.{
  OffsetInfo, as_word, DataBlockBuilder, finish_data_block, put_restart, put_restarts, start_group,
  shared_for,
}
use smallkv.Table.DataBlock.Decode.{record_bytes, length-record_bytes, add-block}
use smallkv.Table.IndexBlock.{add_index, add_footer}
use smallkv.Table.Builder.{count_equal, raise_last, find_shortest_key}

-- What a pair adds at most: its record, a restart point, the end of a block and an index entry.
unfoldable pub weight : Entries → ℕ
weight [] = 0
weight ((k, v) ∷ m) = 41 + 2 * length k + length v + weight m

pub weight-append : (m n : Entries) → weight (m ++ n) ≡ weight m + weight n
unfolding weight
weight-append [] n = omega arith
weight-append ((k, v) ∷ m) n = omega (arith, weight-append m n)

length-put_restart :
    (block : Bytes) (num : ℕ) (info : OffsetInfo)
    → length (put_restart block num info) ≡ length block + 12
unfolding put_restart put_fixed32 put_fixed64
length-put_restart block num info = omega (
  arith,
  length-append (block ++ encode_fixed32 num) (encode_fixed64 (as_word info)),
  length-append block (encode_fixed32 num),
  length-encode_fixed32 num,
  length-encode_fixed64 (as_word info),
)

length-put_restarts :
    (n last : ℕ) (offsets : List ℕ) (block : Bytes)
    → length (put_restarts n last offsets block) ≡ length block + 12 * length offsets
unfolding put_restarts
length-put_restarts n last [] block = omega arith
length-put_restarts n last (o ∷ []) block = omega (arith, length-put_restart block _ _)
length-put_restarts n last (o ∷ p ∷ offsets) block = omega (
  arith,
  length-put_restarts n last (p ∷ offsets) _,
  length-put_restart block 16 (record { size = p - o; offset = o }),
)

-- The end of a block: twelve bytes for each group, and four.
pub length-finish_data_block :
    (b : DataBlockBuilder)
    → length (finish_data_block b).block ≡ length b.block + 12 * length b.record_group_offset + 4
unfolding finish_data_block put_fixed32
length-finish_data_block b = omega (
  arith,
  length-append (put_restarts b.record_num (length b.block) b.record_group_offset b.block) _,
  length-put_restarts b.record_num (length b.block) b.record_group_offset b.block,
  length-encode_fixed32 (DataBlock.restart_point_num b.record_num),
)

groups-start_group :
    (b : DataBlockBuilder)
    → length (start_group b).record_group_offset ≤ length b.record_group_offset + 1
unfolding start_group
groups-start_group b = ground (arith, length-append b.record_group_offset (length b.block ∷ []))

groups-add :
    (b : DataBlockBuilder) (k : ℕ) (ks v : Bytes)
    → length (DataBlock.add b (k ∷ ks) v).record_group_offset ≤ length b.record_group_offset + 1
unfolding DataBlock.add DataBlock.add_record
groups-add b k ks v = groups-start_group b

-- One record more.
pub length-add :
    (b : DataBlockBuilder) (k v : Bytes)
    → k ≢ []
    → (12 ≤ length (DataBlock.add b k v).block)
      × (length (DataBlock.add b k v).block ≤ length b.block + 12 + length k + length v)
      × (length (DataBlock.add b k v).record_group_offset ≤ length b.record_group_offset + 1)
length-add b [] v ne = absurd (ne refl)
length-add b (k ∷ ks) v ne =
    let (grown, _, _) = add-block b (k ∷ ks) v ne in
    let size : length (DataBlock.add b (k ∷ ks) v).block
        ≡ length b.block + (12 + length (drop (shared_for b (k ∷ ks)) (k ∷ ks)) + length v) =
      ap length grown
      ∙ length-append b.block (record_bytes (shared_for b (k ∷ ks)) (k ∷ ks) v)
      ∙ ap (λ n. length b.block + n) (length-record_bytes (shared_for b (k ∷ ks)) (k ∷ ks) v) in
    (
      omega (arith, size),
      omega (arith, size, length-drop (shared_for b (k ∷ ks)) (k ∷ ks)),
      groups-add b k ks v,
    )

pub length-raise_last : (bs : Bytes) → length (raise_last bs) ≡ length bs
unfolding raise_last
length-raise_last [] = refl
length-raise_last (b ∷ []) = refl
length-raise_last (b ∷ c ∷ bs) = ap suc (length-raise_last (c ∷ bs))

count_equal-le : (xs ys : Bytes) → count_equal xs ys ≤ length ys
unfolding count_equal
count_equal-le [] ys = omega arith
count_equal-le (x ∷ xs) [] = omega arith
count_equal-le (x ∷ xs) (y ∷ ys) = ground (arith, count_equal-le xs ys)

take-le : (n : ℕ) (xs : Bytes) → length (take n xs) ≤ n
take-le zero xs = omega arith
take-le (suc n) [] = omega arith
take-le (suc n) (x ∷ xs) = omega (arith, take-le n xs)

-- A separator is at most a byte longer than the key behind it.
pub length-find_shortest_key :
    (pre key s : Bytes) → find_shortest_key pre key ≡ some s → length s ≤ length key + 1
unfolding find_shortest_key
length-find_shortest_key pre key s h =
    let few = count_equal-le pre key in
    let part = take-le (count_equal pre key + 1) pre in
    let raised = length-raise_last (take (count_equal pre key + 1) pre) in
    let spaced = length-append pre (32 ∷ []) in ground (arith, h, few, part, raised, spaced)

pub length-index_entry :
    (key : Bytes) (info : OffsetInfo) → length (add_index [] key info) ≡ 12 + length key
unfolding add_index put_fixed32 put_fixed64
length-index_entry key info = omega (
  arith,
  length-append (encode_fixed32 (length key) ++ key) (encode_fixed64 (as_word info)),
  length-append (encode_fixed32 (length key)) key,
  length-encode_fixed32 (length key),
  length-encode_fixed64 (as_word info),
)

pub length-add_footer : (a b : OffsetInfo) → length (add_footer [] a b) ≡ 16
unfolding add_footer put_fixed64
length-add_footer a b = omega (
  arith,
  length-append (encode_fixed64 (as_word a)) (encode_fixed64 (as_word b)),
  length-encode_fixed64 (as_word a),
  length-encode_fixed64 (as_word b),
)
