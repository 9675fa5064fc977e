-- ===== src/Db.antt =====
-- The database (src/db/db_impl.h, src/db/db_impl.cpp, src/db/options.h,
-- src/db/status.h): the log, the memtable and the cache behind each call. `none` is a failed
-- assertion or a fault. Calls are taken one at a time. What stands outside is a parameter: the
-- system call `write`, the checksum, `std::hash`, the file that a path opens, the table file that
-- Get finds, what stands at an absolute address, and the floating-point sizing of a filter.
pub mod Reads
pub mod Log
pub mod Gets
pub mod Flush
pub mod Spec
pub mod Bounds
pub mod Refine
pub mod Writes
pub mod Calls
pub mod Runs
pub mod Limits
pub mod Closes
pub mod Logged
pub mod Facade
use smallkv.Base.{
  ℕ, ◌+◌, ◌-◌, ◌^◌, ltb, Bool, true, false, Option, none, some, List, [], ◌∷◌, ◌++◌, length, leb,
  ◌==◌, if◌then◌else◌,
}
use smallkv.Base.Maybe.{◌>>=◌}
use smallkv.Base.Bytes.{Bytes, c_str}
use smallkv.Codec.{encode_fixed32}
use smallkv.SkipList
use smallkv.SkipList.{SkipList}
use smallkv.MemTable
use smallkv.Cache
use smallkv.Cache.{Cache, shard_of}
use smallkv.FileWriter.{FileWriter, open_writer}
use smallkv.Wal.{add_log}
use smallkv.Table.DataBlock.{OffsetInfo}
use smallkv.Table.FilterBlock.{FilterBlockBuilder}
use smallkv.Table.FilterBlock
use smallkv.Table.Builder
use smallkv.Table.Builder.{SsTableBuilder, add_pair, finish_sst}
use smallkv.SstParser.{SstParser, parse, seek}

pub data DbStatus : Type 0 where
  success : DbStatus
  invalid_args : DbStatus
  exec_failed : DbStatus
  not_impl : DbStatus
  not_found : DbStatus

-- `l1_sst_num` is the number of the next table file.
pub record Options : Type 0 where
  pub mem_table_max_size : ℕ
  pub cache_size : ℕ
  pub l1_sst_num : ℕ

-- `tables` holds the files that were written, by their numbers.
pub record Db (File : Type 0) : Type 0 where
  pub options : Options
  pub mem_table : SkipList
  pub wal_writer : FileWriter File
  pub cache : Cache Bytes
  pub closed : Bool
  pub tables : ℕ → Option File

-- The constructor, on the log file that `open` gives.
unfoldable pub open_db : {File : Type 0} → Options → File → Db File
open_db options wal = record {
  options = options;
  mem_table = SkipList.init;
  wal_writer = open_writer wal;
  cache = Cache.make_cache options.cache_size;
  closed = false;
  tables = λ n. none;
}

abbrev pub encoded_kv : Bytes → Bytes → Bytes
encoded_kv key value = encode_fixed32 (length key) ++ key ++ encode_fixed32 (length value) ++ value

-- `assert(value.size() < UINT32_MAX)`
unfoldable pub encode_kv : Bytes → Bytes → Option Bytes
encode_kv key value = if ltb (length value) (2 ^ 32 - 1) then some (encoded_kv key value) else none

module _ {File : Type 0} (write : File → Bytes → File × Option ℕ) (crc hash : Bytes → ℕ)
    (open_table : ℕ → File) (bits_num optimal : ℕ → ℕ) where
  abbrev new_filter : SkipList → FilterBlockBuilder
  new_filter t = FilterBlock.make_builder t.size (bits_num t.size) optimal

  unfoldable pub mem_table_to_sst : Db File → Option (Db File)
  mem_table_to_sst db =
      let n = db.options.l1_sst_num in
      let fresh = new_filter db.mem_table in
      MemTable.convert (add_pair write) (finish_sst write fresh) db.mem_table
        (Builder.make_builder fresh (open_writer (open_table n)))
      >>= λ b. some (record db {
        options = record db.options { l1_sst_num = n + 1 };
        tables = λ i. if i == n then some b.writer.file else db.tables i;
      })

  -- What `Put` and `Delete` end with: a memtable that is too large becomes a table.
  unfoldable pub check_size : Db File → Option (Db File)
  unfolding mem_table_to_sst
  check_size db =
      if leb db.options.mem_table_max_size db.mem_table.mem_usage
      then mem_table_to_sst db >>= (λ db'. some (record db' { mem_table = SkipList.init }))
      else some db

  -- The log is given a `char *`, and so is cut at the first zero byte.
  unfoldable pub put : Db File → Bytes → Bytes → (ℕ → ℕ) → Option (Db File × DbStatus)
  unfolding check_size
  put db key value rand =
      if db.closed
      then none
      else (encode_kv key value >>= λ kv. add_log crc write db.wal_writer (c_str kv) >>= λ w.
          MemTable.put db.mem_table key value rand >>= λ t.
          Cache.insert hash db.cache (c_str key) (c_str value) >>= λ c.
          check_size (record db { wal_writer = w; mem_table = t; cache = c }) >>= λ db'.
          some (db', success))

  unfoldable pub delete : Db File → Bytes → (ℕ → ℕ) → Option (Db File × DbStatus)
  unfolding check_size
  delete db key rand =
      if db.closed
      then none
      else (encode_kv key [] >>= λ kv. add_log crc write db.wal_writer (c_str kv) >>= λ w.
          MemTable.put_tombstone db.mem_table key rand >>= λ t.
          Cache.erase hash db.cache (c_str key) >>= λ c.
          check_size (record db { wal_writer = w; mem_table = t; cache = c }) >>= λ db'.
          some (db', success))

  -- What the cache answers.
  unfoldable pub read_cache : Db File → Bytes → Option (Db File × Option Bytes)
  read_cache db key = Cache.get hash db.cache key >>= λ (c, node). node >>= λ p.
      (c (shard_of hash key)).node p >>= λ n. some (record db { cache = c }, some n.val)

  -- `Get` up to the table files: the value that the cache or the memtable has, if one has it.
  unfoldable pub get_memory : Db File → Bytes → Option (Db File × Option Bytes)
  unfolding read_cache
  get_memory db key =
      let in_table : Option (Db File × Option Bytes) =
        MemTable.contains db.mem_table key >>= λ present.
        if present
        then MemTable.get db.mem_table (c_str key)
          >>= (λ found. found >>= λ val. some (db, some val))
        else some (db, none) in
      if db.closed
      then none
      else Cache.contains hash db.cache (c_str key)
        >>= (λ hit. if hit then read_cache db (c_str key) else in_table)

  -- `find_sst` is the content of the file at the path that `Get` opens, given the tables that were
  -- written: `none` if there is no such file. `read_address` is what the parser reads from an
  -- address that is no pointer into the content.
  module _ (find_sst : (ℕ → Option File) → Option Bytes)
      (read_address : OffsetInfo → Option ℕ) where
    -- What `Get` does with the table file, the text `ret` of the result included.
    unfoldable pub get_table : Db File → Bytes → Bytes → Option (Db File × Bytes × DbStatus)
    get_table db key ret = find_sst db.tables >>= λ file. parse read_address file >>= λ p.
        seek p key >>= λ found. elim found [
          | none ↦ some (db, ret, not_found)
          | some val ↦ Cache.insert hash db.cache (c_str key) val >>= λ c.
              some (record db { cache = c }, ret ++ val, success)
        ]

    unfoldable pub get : Db File → Bytes → Bytes → Option (Db File × Bytes × DbStatus)
    unfolding get_memory get_table
    get db key ret = get_memory db key >>= λ (db', found). elim found [
      | some val ↦ some (db', val, success)
      | none ↦ get_table db' key ret
    ]

  unfoldable pub batch_put : Db File → Option DbStatus
  batch_put db = if db.closed then none else some not_impl

  unfoldable pub batch_delete : Db File → Option DbStatus
  batch_delete db = if db.closed then none else some not_impl

  -- The database is closed only if the memtable has a pair.
  unfoldable pub close_db : Db File → Option (Db File × DbStatus)
  unfolding mem_table_to_sst
  close_db db =
      if db.closed
      then some (db, success)
      else if leb db.mem_table.size 0
      then some (db, success)
      else mem_table_to_sst db >>= (λ db'. some (record db' { closed = true }, success))
