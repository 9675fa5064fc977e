-- ===== src/Table/DataBlock.antt =====
-- The data block builder (src/table/data_block_builder.h, src/table/data_block_builder.cpp).
pub mod Decode
use smallkv.Base.{
  ℕ, zero, suc, ◌+◌, ◌-◌, ◌*◌, ◌/◌, ◌%◌, ◌^◌, Bool, true, false, ◌&&◌, List, [], ◌∷◌, ◌++◌, length,
  drop, ltb, ◌==◌, if◌then◌else◌,
}
use smallkv.Base.Bytes.{Bytes}
use smallkv.Codec.{put_fixed32, put_fixed64}

-- SSTConfigInfo
abbrev pub restart_interval : ℕ
restart_interval = 16

-- `struct OffsetInfo`, and the eight bytes that it takes: `size` first, each little-endian.
pub record OffsetInfo : Type 0 where
  pub size : ℕ
  pub offset : ℕ

-- `*reinterpret_cast<uint64_t *>(&info)`, on a little-endian machine: the low 32 bits of each number,
-- which are also what `static_cast<int32_t>` keeps.
abbrev pub as_word : OffsetInfo → ℕ
as_word info = info.size % 2 ^ 32 + info.offset % 2 ^ 32 * 2 ^ 32

pub record DataBlockBuilder : Type 0 where
  pub record_group_offset : List ℕ
  pub pre_key : Bytes
  pub block : Bytes
  pub record_num : ℕ

abbrev pub empty_block : DataBlockBuilder
empty_block = record { record_group_offset = []; pre_key = []; block = []; record_num = 0 }

-- The loop over `key[i] == pre_key[i]`, up to the first difference.
unfoldable pub shared_length : Bytes → Bytes → ℕ
shared_length [] ys = 0
shared_length (x ∷ xs) [] = 0
shared_length (x ∷ xs) (y ∷ ys) = if x == y then suc (shared_length xs ys) else 0

-- The bytes of a record that shares `shared` bytes of the key.
unfoldable pub put_record : Bytes → ℕ → Bytes → Bytes → Bytes
put_record block shared key value =
    put_fixed32 (put_fixed32 (put_fixed32 block shared) (length key - shared)) (length value)
    ++ drop shared key
    ++ value

-- The restart point, if the record starts a group.
unfoldable pub start_group : DataBlockBuilder → DataBlockBuilder
start_group b =
    if b.record_num % restart_interval == 0
    then record b { record_group_offset = b.record_group_offset ++ length b.block ∷ [] }
    else b

-- How many bytes of the key the record shares with the key before it.
unfoldable pub shared_for : DataBlockBuilder → Bytes → ℕ
unfolding shared_length
shared_for b key = if b.record_num % restart_interval == 0 then 0 else shared_length key b.pre_key

-- `add`, at a key that is not empty.
unfoldable pub add_record : DataBlockBuilder → Bytes → Bytes → DataBlockBuilder
unfolding start_group shared_for put_record
add_record b key value = record (start_group b) {
  record_num = b.record_num + 1;
  block = put_record b.block (shared_for b key) key value;
  pre_key = key;
}

unfoldable pub add : DataBlockBuilder → Bytes → Bytes → DataBlockBuilder
unfolding add_record
add b [] value = b
add b (k ∷ ks) value = add_record b (k ∷ ks) value

-- One restart point: the number of records of the group, and where it stands.
unfoldable pub put_restart : Bytes → ℕ → OffsetInfo → Bytes
put_restart block num info = put_fixed64 (put_fixed32 block num) (as_word info)

-- The loop of `finish_data_block`; `last` is the size of the records.
unfoldable pub put_restarts : ℕ → ℕ → List ℕ → Bytes → Bytes
unfolding put_restart
put_restarts record_num last [] block = block
put_restarts record_num last (offset ∷ []) block =
    put_restart block (record_num % restart_interval)
      (record { size = last - offset; offset = offset })
put_restarts record_num last (offset ∷ next ∷ offsets) block =
    put_restarts record_num last (next ∷ offsets)
      (put_restart block restart_interval (record { size = next - offset; offset = offset }))

-- `static_cast<int>((record_num - 0.5) / 16) + 1`: with no record the quotient is cut to 0.
unfoldable pub restart_point_num : ℕ → ℕ
restart_point_num zero = 1
restart_point_num (suc n) = n / 16 + 1

unfoldable pub finish_data_block : DataBlockBuilder → DataBlockBuilder
unfolding put_restarts restart_point_num
finish_data_block b = record b {
  block =
      put_fixed32 (put_restarts b.record_num (length b.block) b.record_group_offset b.block)
        (restart_point_num b.record_num);
}

unfoldable pub clear : DataBlockBuilder → DataBlockBuilder
clear b = record b { record_group_offset = []; pre_key = []; block = []; record_num = 0 }

-- A run of calls.
unfoldable pub add_all : DataBlockBuilder → List (Bytes × Bytes) → DataBlockBuilder
add_all b [] = b
add_all b ((k, v) ∷ m) = add_all (add b k v) m
