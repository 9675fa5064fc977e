-- ===== src/Table/Builder.antt =====
-- The table builder (src/table/sstable_builder.h, src/table/sstable_builder.cpp), over the block
-- builders and the buffered writer. `none` is a failed assertion, of the builder or of the writer.
pub mod Sizes
pub mod Loads
pub mod Places
pub mod Adds
pub mod Layout
pub mod Index
pub mod Contents
pub mod Whole
pub mod Separators
use smallkv.Base.{
  ℕ, zero, suc, ◌+◌, ◌%◌, Bool, true, false, ◌||◌, Option, none, some, List, [], ◌∷◌, ◌++◌, length,
  take, ltb, ◌==◌, if◌then◌else◌,
}
use smallkv.Base.Maybe.{◌>>=◌}
use smallkv.Base.Bytes.{Bytes, Order, lt, eq, gt, compare_bytes}
use smallkv.FileWriter.{FileWriter, append, flush, close}
use smallkv.Table.DataBlock.{OffsetInfo, DataBlockBuilder, empty_block}
use smallkv.Table.DataBlock
use smallkv.Table.FilterBlock.{FilterBlockBuilder, add_key, finish_filter_block}
use smallkv.Table.IndexBlock.{add_index, add_footer}

-- SSTConfigInfo::MAX_DATA_BLOCK_SIZE
abbrev pub max_data_block_size : ℕ
max_data_block_size = 4096

-- The index builder and the footer builder are empty between the calls, so they have no field.
pub record SsTableBuilder (File : Type 0) : Type 0 where
  pub data_block : DataBlockBuilder
  pub filter_block : FilterBlockBuilder
  pub writer : FileWriter File
  pub filter_offset : OffsetInfo
  pub index_offset : OffsetInfo
  pub index_data : Bytes
  pub key_count : ℕ
  pub pre_key : Bytes

abbrev pub no_offset : OffsetInfo
no_offset = record { size = 0; offset = 0 }

unfoldable pub make_builder :
    {File : Type 0} → FilterBlockBuilder → FileWriter File → SsTableBuilder File
make_builder filter writer = record {
  data_block = empty_block;
  filter_block = filter;
  writer = writer;
  filter_offset = no_offset;
  index_offset = no_offset;
  index_data = [];
  key_count = 0;
  pre_key = [];
}

-- The loop that counts the places where the two keys agree.
unfoldable pub count_equal : Bytes → Bytes → ℕ
count_equal [] ys = 0
count_equal (x ∷ xs) [] = 0
count_equal (x ∷ xs) (y ∷ ys) = let rest = count_equal xs ys in if x == y then suc rest else rest

-- `back() += 1`
unfoldable pub raise_last : Bytes → Bytes
raise_last [] = []
raise_last (b ∷ []) = (b + 1) % 256 ∷ []
raise_last (b ∷ c ∷ bs) = b ∷ raise_last (c ∷ bs)

-- `key1 < key2`
unfoldable pub less : Bytes → Bytes → Bool
less xs ys = elim (compare_bytes xs ys) [ lt ↦ true | eq ↦ false | gt ↦ false ]

unfoldable pub find_shortest_key : Bytes → Bytes → Option Bytes
unfolding count_equal raise_last
find_shortest_key key1 key2 =
    if (length key1 == 0) || (length key2 == 0)
    then none
    else (let cnt = count_equal key1 key2 in
        if less key1 key2
        then some (if length key1 == cnt then key1 ++ 32 ∷ [] else raise_last (take (cnt + 1) key1))
        else none)

module _ {File : Type 0} (write : File → Bytes → File × Option ℕ) where
  -- What `add` does once the block is too large.
  unfoldable pub write_block : SsTableBuilder File → Bytes → Option (SsTableBuilder File)
  write_block b key =
      let d = DataBlock.finish_data_block b.data_block in
      let size = length d.block in
      let offset = b.filter_offset.offset + size in
      append write b.writer d.block false >>= λ w.
      find_shortest_key b.pre_key key >>= λ shortest_key. some (record b {
        data_block = DataBlock.clear d;
        writer = w;
        filter_offset = record b.filter_offset { offset = offset };
        index_data =
            b.index_data ++ add_index [] shortest_key (record { size = size; offset = offset });
      })

  unfoldable pub add_pair : SsTableBuilder File → Bytes → Bytes → Option (SsTableBuilder File)
  unfolding write_block
  add_pair b [] val = some b
  add_pair b (k ∷ ks) val =
      let b₁ = record b {
        filter_block = add_key b.filter_block (k ∷ ks);
        data_block = DataBlock.add b.data_block (k ∷ ks) val;
        key_count = b.key_count + 1;
      } in
      (if ltb max_data_block_size (length b₁.data_block.block)
        then write_block b₁ (k ∷ ks)
        else some b₁)
      >>= λ b₂. some (record b₂ { pre_key = k ∷ ks })

  -- The last data block.
  unfoldable pub finish_last : SsTableBuilder File → Option (SsTableBuilder File)
  finish_last b =
      let d = DataBlock.finish_data_block b.data_block in
      let size = length d.block in
      let last = raise_last b.pre_key in
      if ltb 0 (length b.data_block.block)
      then append write b.writer d.block false >>= (λ w. some (record b {
        data_block = DataBlock.clear d;
        writer = w;
        pre_key = last;
        filter_offset = record b.filter_offset { offset = b.filter_offset.offset + size };
        index_data =
            b.index_data
            ++ add_index [] last (record { size = size; offset = b.filter_offset.offset });
      }))
      else some b

  -- The filter is finished twice, before its size is taken and before it is written.
  abbrev pub finish_filter : SsTableBuilder File → SsTableBuilder File
  finish_filter b =
      let once = finish_filter_block b.filter_block in
      record b {
        filter_block = finish_filter_block once;
        filter_offset = record b.filter_offset { size = length once.block };
      }

  -- The filter, the index and the footer.
  unfoldable pub write_tail : SsTableBuilder File → Option (SsTableBuilder File)
  write_tail b =
      let at : OffsetInfo = record {
        size = length b.index_data;
        offset = b.filter_offset.offset + b.filter_offset.size;
      } in
      append write b.writer b.filter_block.block false >>= λ w₁.
      append write w₁ b.index_data false >>= λ w₂.
      if length b.index_data == 0
      then none
      else append write w₂ (add_footer [] b.filter_offset at) false >>= (λ w₃.
        flush write w₃ >>= λ w₄.
        close write w₄ >>= λ w₅. some (record b { writer = w₅; index_offset = at }))

  -- `finish_sst`; `fresh` is the filter builder that it makes at the end.
  unfoldable pub finish_sst :
      FilterBlockBuilder → SsTableBuilder File → Option (SsTableBuilder File)
  unfolding finish_last write_tail
  finish_sst fresh b = finish_last b >>= λ b₁. write_tail (finish_filter b₁) >>= λ b₂.
      some (record b₂ {
        data_block = DataBlock.clear b₂.data_block;
        filter_block = fresh;
        filter_offset = no_offset;
        index_offset = no_offset;
        index_data = [];
        pre_key = [];
      })
