-- ===== src/SstParser.antt =====
-- The parser of a table file (src/sst_parser/sst_parser.h, src/sst_parser/sst_parser.cpp, and the
-- structures of src/sst_parser/header.h, src/sst_parser/index_block.h and
-- src/sst_parser/restart_point.h). A pointer into the content is its place there. An `int` is read
-- as a word of 32 bits, from 2 ^ 31 on negative. `none` is a fault: a read outside the content, a
-- string of negative size, or a failed assertion.
pub mod Reads
pub mod Parse
pub mod Search
pub mod Tables
use smallkv.Base.{
  ℕ, zero, suc, ◌+◌, ◌-◌, ◌*◌, ◌%◌, ◌^◌, Bool, true, false, ◌&&◌, ◌||◌, Option, none, some, List,
  [], ◌∷◌, ◌++◌, length, take, drop, ltb, leb, ◌==◌, if◌then◌else◌, get_elem?,
}
use smallkv.Base.Maybe.{◌>>=◌}
use smallkv.Base.Bytes.{Bytes, beq, c_str}
use smallkv.Codec.{decode_fixed32}
use smallkv.Bloom.{BloomFilter, exists_key, create_filter2}
use smallkv.Table.DataBlock.{OffsetInfo}
use smallkv.Table.Builder.{less}

pub record Header : Type 0 where
  pub meta_block : OffsetInfo
  pub index_block : OffsetInfo

pub record IndexBlock : Type 0 where
  pub shortest_key : Bytes
  pub offset_info : OffsetInfo

pub record RestartPoint : Type 0 where
  pub record_num : ℕ
  pub rp_offset : OffsetInfo
  pub fullkey : Bytes

pub record SstParser : Type 0 where
  pub filter_policy : BloomFilter
  pub index_blocks : List IndexBlock
  pub sst_content : Bytes
  pub header : Header

abbrev pub is_negative : ℕ → Bool
is_negative word = leb (2 ^ 31) word

-- The pointer that is an `int` further; before the content it is none.
abbrev pub move : ℕ → ℕ → Option ℕ
move at word =
    if is_negative word
    then (if ltb (at + word) (2 ^ 32) then none else some (at + word - 2 ^ 32))
    else some (at + word)

abbrev pub read_int : Bytes → ℕ → Option ℕ
read_int content at = decode_fixed32 (drop at content)

-- `std::string(content + at, size)`
unfoldable pub read_string : Bytes → ℕ → ℕ → Option Bytes
read_string content at size =
    let text = take size (drop at content) in
    if is_negative size then none else if length text == size then some text else none

-- `*reinterpret_cast<OffsetInfo *>(content + at)`
unfoldable pub read_info : Bytes → ℕ → Option OffsetInfo
read_info content at = read_int content at >>= λ size.
    read_int content (at + 4) >>= λ offset. some (record { size = size; offset = offset })

-- The lines of the file, joined without their ends.
unfoldable pub read_all : Bytes → Bytes
read_all [] = []
read_all (c ∷ cs) = if c == 10 then read_all cs else c ∷ read_all cs

-- The last sixteen bytes.
unfoldable pub parse_header : Bytes → Option Header
unfolding read_info
parse_header content =
    let size = length content in
    if ltb size 16
    then none
    else (read_info content (size - 16) >>= λ meta. read_info content (size - 8) >>= λ index.
        some (record { meta_block = meta; index_block = index }))

-- The loop over the index, with `left` bytes to go; an entry takes twelve bytes at least.
unfoldable pub parse_index_loop : ℕ → Bytes → ℕ → ℕ → Option (List IndexBlock)
unfolding read_string read_info
parse_index_loop zero content start left = if left == 0 then some [] else none
parse_index_loop (suc fuel) content start left =
    let entry : Option (List IndexBlock) = read_int content start >>= λ size.
    read_string content (start + 4) size >>= λ key. read_info content (start + 4 + size) >>= λ info.
    if ltb left (4 + size + 8)
    then none
    else (parse_index_loop fuel content (start + (4 + size + 8)) (left - (4 + size + 8))
        >>= λ blocks. some (record { shortest_key = key; offset_info = info } ∷ blocks)) in
    if left == 0 then some [] else entry

unfoldable pub parse_index : Bytes → OffsetInfo → Option (List IndexBlock)
unfolding parse_index_loop
parse_index content at =
    if at.size == 0
    then some []
    else if is_negative at.size || is_negative at.offset
    then none
    else parse_index_loop at.size content at.offset at.size

-- The bits of the filter, less the four bytes behind them.
unfoldable pub parse_bits : Bytes → OffsetInfo → Option Bytes
unfolding read_string
parse_bits content at =
    if is_negative at.size || ltb at.size 4
    then none
    else if at.size == 4
    then some []
    else if is_negative at.offset
    then none
    else read_string content at.offset (at.size - 4)

-- `Parse`, on the content of the file. The number of hash functions is read from the address
-- `offset + size - 4`, not from that place of the content: `read_address` is what stands there,
-- `none` if that faults. A negative number of them is a loop with no round.
unfoldable pub parse : (OffsetInfo → Option ℕ) → Bytes → Option SstParser
unfolding read_all parse_header parse_index parse_bits
parse read_address file =
    let content = read_all file in
    parse_header content >>= λ header. parse_index content header.index_block >>= λ blocks.
    read_address header.meta_block >>= λ hash_func_num.
    parse_bits content header.meta_block >>= λ bits. some (record {
      filter_policy = create_filter2 (if is_negative hash_func_num then 0 else hash_func_num) bits;
      index_blocks = blocks;
      sst_content = content;
      header = header;
    })

-- `Exists`; with no bits the filter divides by zero.
unfoldable pub exists : SstParser → Bytes → Option Bool
exists p [] = some false
exists p (k ∷ ks) =
    if (length p.filter_policy.bits_array == 0) && ltb 0 p.filter_policy.hash_func_num
    then none
    else some (exists_key p.filter_policy (k ∷ ks))

-- `FindKeyDBIndex`, `none` for its -1.
unfoldable pub find_key_db_index : Bytes → List IndexBlock → Option ℕ
find_key_db_index key [] = none
find_key_db_index key (b ∷ bs) =
    let later = find_key_db_index key bs >>= λ i. some (suc i) in
    if less key b.shortest_key then some 0 else later

-- `FindFullKeyByRP`, in the block that starts at `block`.
unfoldable pub find_full_key : Bytes → ℕ → ℕ → OffsetInfo → Option Bytes
unfolding read_string
find_full_key content block record_num group =
    if (record_num == 0) || is_negative record_num
    then none
    else (move block group.offset >>= λ first. read_int content first >>= λ shared.
        read_int content (first + 4) >>= λ unshared.
        if (shared == 0) && (ltb 0 unshared)
        then read_string content (first + 12) unshared
        else none)

-- The loop over the restart points, up to the first whose key is behind the one that is sought.
unfoldable pub find_restarts : ℕ → Bytes → ℕ → ℕ → Bytes → Option (List RestartPoint)
unfolding read_info find_full_key
find_restarts zero content block at key = some []
find_restarts (suc n) content block at key = read_int content at >>= λ record_num.
    read_info content (at + 4) >>= λ group.
    find_full_key content block record_num group >>= λ fullkey. elim (less key fullkey) [
      | true ↦ some []
      | false ↦ find_restarts n content block (at + 12) key >>= λ points.
          some (record { record_num = record_num; rp_offset = group; fullkey = fullkey } ∷ points)
    ]

unfoldable pub last_point : List RestartPoint → Option RestartPoint
last_point [] = none
last_point (p ∷ []) = some p
last_point (p ∷ q ∷ ps) = last_point (q ∷ ps)

-- `parse_record`: all three lengths are read at the same place. The result is the content of the
-- key and of the value, and the size of the record.
unfoldable pub parse_record : Bytes → ℕ → Option (Bytes × Bytes × ℕ)
unfolding read_string
parse_record content at = read_int content at >>= λ len.
    read_string content (at + 12) len >>= λ unshared.
    read_string content (at + 12 + len) len >>= λ value. some (unshared, value, 12 + len + len)

-- The loop over the records of a group: the value, empty if there is none, and where it ends. The
-- shared part of a key is given as a `char *`, and so is the full key up to its first zero byte.
unfoldable pub find_record : ℕ → Bytes → ℕ → Bytes → Bytes → Option (Bytes × ℕ)
unfolding parse_record
find_record zero content at fullkey key = some ([], at)
find_record (suc n) content at fullkey key = parse_record content at >>= λ (unshared, value, size).
    elim (beq (c_str fullkey ++ unshared) key) [
      | true ↦ some (value, at + size)
      | false ↦ find_record n content (at + size) fullkey key
    ]

-- What `FindKeyInDB` does with the last restart point.
unfoldable pub find_in_group : Bytes → ℕ → Bytes → RestartPoint → Option (Option Bytes)
unfolding find_record
find_in_group content block key rp = move block rp.rp_offset.offset >>= λ group.
    move group rp.rp_offset.size >>= λ bound.
    find_record rp.record_num content group rp.fullkey key >>= λ (value, reached).
    if ltb bound reached then none else some (if length value == 0 then none else some value)

unfoldable pub find_key_in_db : Bytes → Bytes → ℕ → ℕ → Option (Option Bytes)
unfolding find_restarts last_point find_in_group
find_key_in_db content key block block_end =
    if ltb block_end 12
    then none
    else (read_int content (block_end - 12) >>= λ restart_num.
        read_info content (block_end - 8) >>= λ restart. move block restart.offset >>= λ points_at.
        find_restarts (if is_negative restart_num then 0 else restart_num) content block points_at
          key
        >>= λ points. elim (last_point points) [
          | none ↦ some none
          | some rp ↦ find_in_group content block key rp
        ])

unfoldable pub seek : SstParser → Bytes → Option (Option Bytes)
unfolding exists find_key_db_index find_key_in_db
seek p key =
    let found : Option (Option Bytes) = elim (find_key_db_index key p.index_blocks) [
      | none ↦ some none
      | some i ↦ get_elem? p.index_blocks i >>= λ b. move 0 b.offset_info.offset >>= λ block.
          move block b.offset_info.size >>= λ block_end.
          find_key_in_db p.sst_content key block block_end
    ] in
    exists p key >>= λ maybe. if maybe then found else some none
