-- ===== src/Lib.antt =====
-- smallkv: a key-value store on an LSM tree.
--
-- A write goes to the write-ahead log (`WALWriter` over `FileWriter`), then into the memtable (a
-- skip list in memory), then into the cache (five LRU caches). A memtable that is too large is
-- written to a table file: data blocks, a filter block, an index block and a footer.
--
-- Base: Boolean tests, lists, bits, byte strings and the order on them, texts as bytes, and `>>=`
--   for code that may fault.
-- Codec: src/utils/codec.h, src/utils/codec.cpp. Bytes are numbers, a string is a list of bytes.
-- SkipList: src/memtable/skiplist.h. Nodes stand on an explicit heap, `next p i` being the cell
--   `p->next[i]`; Get, Contains, Insert, Delete, FindPrevNode, RandomLevel are `get`, `contains`,
--   `insert`, `delete`, `find_prev_node`, `random_level`. `none` is a fault: a null pointer
--   followed, an index out of a vector, or a failed assertion. A walk goes to the right or down
--   at every round, so `size + max_level + 1` rounds are enough. What `rand` returns is an argument.
-- FileWriter: src/file/file_writer.h, src/file/file_writer.cpp. The system call `write` is a
--   parameter. A round of the loop of `append` copies a byte at least, so as many rounds as bytes
--   are enough. `none` is a failed assertion or a fault.
--   A length comes as an `int32_t`, the low 32 bits of the size of a string, and a negative one is a
--   fault. So every theorem that ends without one bounds what is written: Db.Spec bounds the pair
--   of a call (FitsOp), a limit of 2^24 bytes the memtable, and Db.Bounds what a table of it weighs.
-- FileReader: src/file/file_reader.cpp, over parameters for `access`, `open` and `pread`.
-- Wal: src/wal/wal_writer.h, src/wal/wal_writer.cpp. The checksum is a parameter.
-- Lru: src/cache/lru.h, src/cache/node.h. Nodes stand on a heap with their reference counts; the
--   lock is not modelled, since every operation holds it from start to end. The fields `hash_val`
--   and `last_access_time` are left out, since nothing reads them.
-- Bloom: src/filter/bloom_filter.h, src/filter/bloom_filter.cpp, src/utils/murmur_hash2.cpp. What
--   the constructor computes with floating-point numbers is a parameter.
-- Table: src/table. The builders of the data, index and filter blocks and of the footer.
-- MemTable: src/memtable/memtable.cpp, over the skip list and its iterator (SkipList.Iterator).
-- Cache: src/cache/cache.h, five LRU caches; `std::hash` is a parameter.
-- Table.Builder: src/table/sstable_builder.cpp, over the builders of the parts and the writer. Its
--   child modules go from one pair that is added (Adds) to all pairs of a table (Contents, Whole);
--   Index is the data blocks and the index of a table by its pairs, Loads how many bytes the pairs
--   take, and Separators is about the keys of the index.
-- SstParser: src/sst_parser. `parse` and `seek` are Parse and Seek on the content of the file; a
--   pointer into the content is its place there. An entry of the index takes twelve bytes at least,
--   so as many rounds as bytes are enough. What stands at an absolute address is a parameter.
-- Db: src/db/db_impl.cpp. `put`, `delete`, `get` and `close_db` are Put, Delete, Get and Close. The
--   calls are taken one at a time: Put and Delete hold the lock of the database alone, Get shares it
--   with other calls of Get. `get_memory` is Get up to the table file, and `get_table` the rest; the
--   file at the path that Get opens is a parameter, as that path is not the one that a table is
--   written to. Db.Spec is what the calls promise, on lists of pairs: the memory, the cache shards, the
--   log and the tables. Db.Refine ties a database to such a state, Db.Writes, Db.Calls and Db.Runs
--   are about single calls and sequences of calls, Db.Limits, Db.Logged and Db.Closes about what they
--   leave behind, and Db.Flush is the way of a memtable into a file. A
--   specification runs as the program does, on the same calls, so no fuel is needed.
-- Alloc: src/memory/allocate.cpp, over parameters for `malloc` and `free`. `fill_slot` calls itself
--   once where `malloc` succeeds, so two rounds are enough. Alloc.Owners says who owns each byte.
-- Lock: src/utils/lock.h. The guard over any lock, and a step relation for threads that use one spin
--   lock; a round of its loop is one step, since the flag is an atomic.
-- Cli: cli/parse.h, cli/parse.cpp, the commands over Db.Facade (src/db/db.cpp).
-- Tests: every theorem below at a concrete input.
--
-- Not modelled: printing and the loop that reads lines (cli/print.cpp, cli/smallkv_cli.cpp), logging,
-- DefaultAlloc and the comparator, which nothing calls, and the formatting of file names.
pub mod Alloc
pub mod Base
pub mod Bloom
pub mod Cache
pub mod Cli
pub mod Codec
pub mod Db
pub mod FileReader
pub mod FileWriter
pub mod Lock
pub mod Lru
pub mod MemTable
pub mod SkipList
pub mod SstParser
pub mod Table
pub mod Tests
pub mod Wal
