-- ===== src/Tests/Parsers.antt =====
-- The parser of a table file (src/sst_parser/sst_parser.cpp) at concrete inputs.
use smallkv.Base.{
  ℕ, ◌<◌, ◌^◌, ◌≡◌, ◌≢◌, refl, Bool, true, Option, none, some, List, [], ◌∷◌, ◌++◌, length, arith,
  All, ◌==◌, inl, not, ◌&&◌, replicate,
}
use smallkv.Base.Bytes.{Bytes}
use smallkv.Table.DataBlock.{OffsetInfo, put_record}
use smallkv.SstParser.{IndexBlock, find_key_db_index, find_in_group, parse}
use smallkv.SstParser.Search.{IsFirst, find_key_db_index-IsFirst, find_in_group-first}
use smallkv.SstParser.Tables.{parsed, parse-finish_sst}
use smallkv.Table.Builder.{SsTableBuilder, finish_sst}
use smallkv.Table.Builder.Places.{IsTable, HasFilter, final_filter}
use smallkv.FileWriter
use smallkv.Table.DataBlock
use smallkv.Codec
use smallkv.Table.FilterBlock
use smallkv.Bloom
use smallkv.Bloom.Hash
use smallkv.Table.IndexBlock
use smallkv.Table.Builder
use smallkv.Tests.Databases.{
  write_all, whole, write_all-Reliable, filter, building, building-IsPlaced, building-IsSmall,
}

abbrev somewhere : OffsetInfo
somewhere = record { size = 0; offset = 0 }

abbrev two_blocks : List IndexBlock
two_blocks =
    record { shortest_key = 5 ∷ []; offset_info = somewhere }
    ∷ record { shortest_key = 9 ∷ []; offset_info = somewhere }
    ∷ []

find_key_db_index-IsFirst_example :
    IsFirst (7 ∷ []) two_blocks (find_key_db_index (7 ∷ []) two_blocks)
find_key_db_index-IsFirst_example = find_key_db_index-IsFirst (7 ∷ []) two_blocks

-- A group of one record, at the start of the content.
abbrev group : OffsetInfo
group = record { size = 15; offset = 0 }

abbrev content : Bytes
content = put_record [] 0 (5 ∷ 6 ∷ []) (50 ∷ []) ++ []

find_in_group-first_example :
    find_in_group content 0
      (5 ∷ 6 ∷ [])
      (record { record_num = 1; rp_offset = group; fullkey = 5 ∷ 6 ∷ [] })
    ≡ some none
find_in_group-first_example =
    find_in_group-first content [] (5 ∷ 6 ∷ []) (50 ∷ []) [] refl 0 group refl 0 15
      (ground arith, (ground arith, tt)) refl (omega arith)

-- The bytes of the table that the builder ends with.
abbrev finished : SsTableBuilder Bytes
finished = elim (finish_sst write_all filter building) [ some b ↦ b | none ↦ building ]

finished_lem : finish_sst write_all filter building ≡ some finished
unfolding finish_sst FileWriter.append FileWriter.append_data DataBlock.finish_data_block
    Codec.put_fixed32 Codec.put_fixed64 Codec.encode_fixed32 Codec.encode_fixed64
    FileWriter.open_writer FilterBlock.finish_filter_block Bloom.create_filter Bloom.add_keys
    Bloom.add_loop Bloom.set_pos Hash.murmur_hash2 Bloom.delta_of IndexBlock.add_index
    Builder.raise_last IndexBlock.add_footer replicate Hash.finish Hash.hash_loop Hash.mix
    FileWriter.append_loop FileWriter.append_over FileWriter.buf_persist FileWriter.close
    FileWriter.copy_at FileWriter.flush FileWriter.make_room Builder.finish_last Builder.write_tail
    DataBlock.clear DataBlock.put_restart DataBlock.put_restarts DataBlock.restart_point_num
    FilterBlock.build_filter
finished_lem = refl

abbrev pub is_plain : Bytes → Bool
is_plain [] = true
is_plain (c ∷ cs) = not (c == 10) && is_plain cs

pub is_plain→All : (cs : Bytes) → is_plain cs ≡ true → All (λ c. c ≢ 10) cs
is_plain→All [] e = tt
is_plain→All (c ∷ cs) e = (ground arith, is_plain→All cs (ground arith))

finished-plain : is_plain finished.writer.file ≡ true
unfolding finish_sst FileWriter.append FileWriter.append_data DataBlock.finish_data_block
    Codec.put_fixed32 Codec.put_fixed64 Codec.encode_fixed32 Codec.encode_fixed64
    FileWriter.open_writer FilterBlock.finish_filter_block Bloom.create_filter Bloom.add_keys
    Bloom.add_loop Bloom.set_pos Hash.murmur_hash2 Bloom.delta_of IndexBlock.add_index
    Builder.raise_last IndexBlock.add_footer replicate Hash.finish Hash.hash_loop Hash.mix
    FileWriter.append_loop FileWriter.append_over FileWriter.buf_persist FileWriter.close
    FileWriter.copy_at FileWriter.flush FileWriter.make_room Builder.finish_last Builder.write_tail
    DataBlock.clear DataBlock.put_restart DataBlock.put_restarts DataBlock.restart_point_num
    FilterBlock.build_filter
finished-plain = refl

finished-small : length finished.writer.file < 2 ^ 31
unfolding finish_sst FileWriter.append FileWriter.append_data DataBlock.finish_data_block
    Codec.put_fixed32 Codec.put_fixed64 Codec.encode_fixed32 Codec.encode_fixed64
    FileWriter.open_writer FilterBlock.finish_filter_block Bloom.create_filter Bloom.add_keys
    Bloom.add_loop Bloom.set_pos Hash.murmur_hash2 Bloom.delta_of IndexBlock.add_index
    Builder.raise_last IndexBlock.add_footer replicate Hash.finish Hash.hash_loop Hash.mix
    FileWriter.append_loop FileWriter.append_over FileWriter.buf_persist FileWriter.close
    FileWriter.copy_at FileWriter.flush FileWriter.make_room Builder.finish_last Builder.write_tail
    DataBlock.clear DataBlock.put_restart DataBlock.put_restarts DataBlock.restart_point_num
    FilterBlock.build_filter
finished-small = omega arith

-- The address of the number of hash functions is no pointer into the content: here it holds 2.
abbrev pub two_there : OffsetInfo → Option ℕ
two_there at = some 2

parse-finish_sst_example :
    (t : IsTable write_all whole finished.writer.file) × HasFilter write_all whole
      (final_filter write_all whole building)
      finished.writer.file
      t
    × (parse two_there finished.writer.file
        ≡ some (parsed write_all whole finished.writer.file t 2))
parse-finish_sst_example =
    parse-finish_sst write_all whole write_all-Reliable two_there filter building finished
      building-IsPlaced (inl (omega arith)) building-IsSmall finished_lem
      (is_plain→All _ finished-plain) finished-small
