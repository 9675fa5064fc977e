-- ===== src/Table/Builder/Layout.antt =====
-- The builder of a table (src/table/sstable_builder.cpp) over a system whose writes are complete:
-- every pair that it takes, and the file that it ends with.
use smallkv.Base.{
  ℕ, ◌^◌, arith, ◌<◌, ◌≡◌, refl, sym, ap, ◌∙◌, true, Option, some, [], ◌++◌, length, ◌⊎◌,
}
use smallkv.Base.Maybe.{◌>>=◌}
use smallkv.Base.Bytes.{Bytes}
use smallkv.FileWriter.Append.{Reliable, log}
use smallkv.Table.DataBlock
use smallkv.Table.DataBlock.{as_word, OffsetInfo, finish_data_block}
use smallkv.Table.FilterBlock.{FilterBlockBuilder, finish_filter_block}
use smallkv.Table.Builder.{SsTableBuilder, no_offset, finish_filter, finish_sst}
use smallkv.Table.Builder.Sizes.{
  finish_filter_block_lem, finish_filter_block_twice, length-finish_filter_block,
}
use smallkv.Table.Builder.Places.{
  IsPlaced, IsTable, HasFilter, final_filter, write_tail-IsTable, finish_last-IsPlaced, last_block,
  last_entry, IsSmall,
}

module _ {File : Type 0} (write : File → Bytes → File × Option ℕ) (contents : File → Bytes)
    (os : Reliable write contents) where
  pub finish_sst-IsTable :
      (fresh : FilterBlockBuilder) (b : SsTableBuilder File) (p : IsPlaced write contents b)
      → (0 < length b.data_block.block) ⊎ (0 < length b.index_data)
      → IsSmall write contents b
      → (b' : SsTableBuilder File) × (finish_sst write fresh b ≡ some b')
        × ((t : IsTable write contents (contents b'.writer.file)) × HasFilter write contents
              (final_filter write contents b)
              (contents b'.writer.file)
              t
            × (t.front ≡ log write contents b.writer ++ last_block write contents b)
            × (t.entries ≡ p.entries ++ last_entry write contents b))
        × (b'.writer.closed ≡ true)
  unfolding finish_sst
  finish_sst-IsTable fresh b p h small =
      let (b₁, run₁, (p₁, entered), (some_index, few), same, grown) =
        finish_last-IsPlaced write contents os b p h small in
      let placed : IsPlaced write contents (finish_filter write b₁) = record {
        writable = p₁.writable;
        counted = p₁.counted;
        entries = p₁.entries;
        indexed = p₁.indexed;
      } in
      let whole = finish_filter_block (finish_filter_block b₁.filter_block) in
      let size : length whole.block < 2 ^ 31 = omega (
        arith,
        finish_filter_block_twice b₁.filter_block,
        length-finish_filter_block b₁.filter_block,
        ap (λ (f : FilterBlockBuilder). length f.filter_policy.bits_array) same,
        small.filter,
      ) in
      let (b₂, run₂, (table, e, n, front, kept), shut) =
        write_tail-IsTable write contents os (finish_filter write b₁) placed
          (sym (finish_filter_block_twice b₁.filter_block)) whole.filter_policy.bits_array
          whole.filter_policy.hash_func_num
          (finish_filter_block_lem (finish_filter_block b₁.filter_block)) some_index size few in
      (
        record b₂ {
          data_block = DataBlock.clear b₂.data_block;
          filter_block = fresh;
          filter_offset = no_offset;
          index_offset = no_offset;
          index_data = [];
          pre_key = [];
        },
        rw (run₁, ◌>>=◌) (rw (run₂, ◌>>=◌) refl),
        (
          table,
          (
            e
                ∙ ap (λ f. (finish_filter_block (finish_filter_block f)).filter_policy.bits_array)
                    same,
            n
                ∙ ap
                    (λ f. (finish_filter_block (finish_filter_block f)).filter_policy.hash_func_num)
                    same,
          ),
          front ∙ grown,
          kept ∙ entered,
        ),
        shut,
      )
