-- ===== src/Tests/Databases.antt =====
-- The memtable, the cache, the table builder and the database (src/memtable/memtable.cpp,
-- src/cache/cache.h, src/table/sstable_builder.cpp, src/db/db_impl.cpp) at concrete inputs, over a
-- file that is the list of its bytes.
use smallkv.Base.{
  ℕ, ◌+◌, ◌<◌, ◌≡◌, refl, Option, none, some, List, [], ◌∷◌, ◌++◌, arith, length, if◌then◌else◌,
}
use smallkv.Base.Bytes.{Bytes, beq, c_str}
use smallkv.SkipList
use smallkv.SkipList.{Ptr, SkipList}
use smallkv.SkipList.Chain.{Represents, entries, lookup}
use smallkv.SkipList.Refine.{Holds, init-Represents}
use smallkv.SkipList.Iterator.{each, each_entry, each-entries}
use smallkv.MemTable
use smallkv.MemTable.{OpType, deletion, add, update}
use smallkv.MemTable.Laws.{write_entry, insert-write_entry, get-put}
use smallkv.Lru
use smallkv.Lru.Shape.{Pairs, put}
use smallkv.Lru.Refine.{Returned}
use smallkv.Lru.Refine
use smallkv.Cache
use smallkv.Cache.{Cache, make_cache, shard_of}
use smallkv.Cache.Shards.{IsCache, SameRoom, set_pairs, insert-set_pairs}
use smallkv.FileWriter.{open_writer}
use smallkv.FileWriter.Append.{Reliable, log, open_writer-IsValid}
use smallkv.Codec
use smallkv.Table.DataBlock
use smallkv.Table.FilterBlock.{FilterBlockBuilder}
use smallkv.Table.Builder.{SsTableBuilder, no_offset}
use smallkv.Table.IndexBlock.{index_bytes}
use smallkv.Table.Builder.Places.{IsPlaced, IsSmall}
use smallkv.Db.{Db, open_db}
use smallkv.Db.Reads.{IsOpen}

abbrev pub write_all : Bytes → Bytes → Bytes × Option ℕ
write_all file bytes = (file ++ bytes, some (length bytes))

abbrev pub whole : Bytes → Bytes
whole file = file

pub write_all-Reliable : Reliable write_all whole
write_all-Reliable = record { complete = λ f bs. refl; appends = λ f bs. refl }

abbrev pub ones : ℕ → ℕ
ones i = 1

-- The hash of a key is its first byte, and its checksum is 7.
abbrev pub first_byte : Bytes → ℕ
first_byte [] = 0
first_byte (b ∷ bs) = b

abbrev pub seven : Bytes → ℕ
seven bs = 7

-- A memtable with one pair.
pub one_pair :
    Holds
      (MemTable.insert SkipList.init add (5 ∷ []) (50 ∷ []) ones)
      (write_entry add (c_str (5 ∷ [])) (c_str (50 ∷ [])) (entries SkipList.init.node []))
one_pair = insert-write_entry SkipList.init [] add (5 ∷ []) (50 ∷ []) ones init-Represents

get-put_example :
    (t' : SkipList) × (qs' : List Ptr) × (MemTable.put one_pair.0 (5 ∷ []) (52 ∷ []) ones ≡ some t')
    × Represents t' qs'
    × (MemTable.get t' (5 ∷ [])
        ≡ some (
            if beq (c_str (5 ∷ [])) (c_str (5 ∷ []))
            then some (c_str (52 ∷ []))
            else lookup (c_str (5 ∷ [])) (entries one_pair.0.node one_pair.1)))
get-put_example = get-put one_pair.0 one_pair.1 (5 ∷ []) (52 ∷ []) (5 ∷ []) ones one_pair.3

-- The number of pairs that a table is given.
abbrev count : ℕ → Bytes → Bytes → Option ℕ
count n k v = some (n + 1)

each-entries_example :
    each count one_pair.0 0 ≡ each_entry count (entries one_pair.0.node one_pair.1) 0
each-entries_example = each-entries count one_pair.0 one_pair.1 0 one_pair.3

abbrev caches : Cache Bytes
caches = make_cache 2

abbrev pub no_pairs : ℕ → Pairs Bytes
no_pairs i = []

caches-IsCache : IsCache caches no_pairs
caches-IsCache i = Refine.init-Represents 2

-- A cache with one pair, in the third shard.
filled :
    (c' : Cache Bytes) × (Cache.insert first_byte caches (7 ∷ []) (70 ∷ []) ≡ some c')
    × IsCache c' (set_pairs no_pairs 2 (put (caches 2).cap (7 ∷ []) (70 ∷ []) []))
    × SameRoom caches c'
filled = insert-set_pairs first_byte caches no_pairs (7 ∷ []) caches-IsCache (70 ∷ [])

abbrev filled_pairs : ℕ → Pairs Bytes
filled_pairs = set_pairs no_pairs 2 (put (caches 2).cap (7 ∷ []) (70 ∷ []) [])

insert-set_pairs_example :
    (c' : Cache Bytes) × (Cache.insert first_byte filled.0 (8 ∷ []) (80 ∷ []) ≡ some c')
    × IsCache c'
        (set_pairs filled_pairs 3 (put (filled.0 3).cap (8 ∷ []) (80 ∷ []) (filled_pairs 3)))
    × SameRoom filled.0 c'
insert-set_pairs_example =
    insert-set_pairs first_byte filled.0 filled_pairs (8 ∷ []) filled.2 (80 ∷ [])

-- A table builder with one record of three bytes.
abbrev pub filter : FilterBlockBuilder
filter = record {
  filter_policy = record { hash_func_num = 2; bits_array = 0 ∷ [] };
  key_data = (5 ∷ []) ∷ [];
  block = [];
}

abbrev pub building : SsTableBuilder Bytes
building = record {
  data_block = record {
    record_group_offset = 0 ∷ [];
    pre_key = 5 ∷ [];
    block = 1 ∷ 2 ∷ 3 ∷ [];
    record_num = 1;
  };
  filter_block = filter;
  writer = open_writer [];
  filter_offset = no_offset;
  index_offset = no_offset;
  index_data = [];
  key_count = 1;
  pre_key = 5 ∷ [];
}

pub building-IsPlaced : IsPlaced write_all whole building
unfolding log open_writer index_bytes
building-IsPlaced = record {
  writable = open_writer-IsValid [];
  counted = refl;
  entries = [];
  indexed = refl;
}

pub building-IsSmall : IsSmall write_all whole building
unfolding DataBlock.finish_data_block DataBlock.put_restarts DataBlock.put_restart
    DataBlock.restart_point_num Codec.put_fixed32 Codec.put_fixed64 Codec.encode_fixed32
    Codec.encode_fixed64
building-IsSmall = record { block = omega arith; filter = omega arith; index = omega arith }

abbrev pub new_db : Db Bytes
new_db = open_db (record { mem_table_max_size = 100; cache_size = 2; l1_sst_num = 0 }) []

pub new_db-IsOpen : IsOpen new_db [] no_pairs
unfolding open_db Lru.init
new_db-IsOpen = record {
  mem = init-Represents;
  cached = caches-IsCache;
  wal = open_writer-IsValid [];
  usable = refl;
  roomy = λ i. omega arith;
}

-- The memtable after the write below.
abbrev pub written : SkipList
written = elim (MemTable.put SkipList.init (5 ∷ []) (50 ∷ []) ones) [
  | some t ↦ t
  | none ↦ SkipList.init
]

pub written_lem : MemTable.put new_db.mem_table (5 ∷ []) (50 ∷ []) ones ≡ some written
unfolding open_db MemTable.put MemTable.contains MemTable.insert SkipList.init SkipList.insert
    SkipList.contains SkipList.contains_loop SkipList.next_at SkipList.insert_new
    SkipList.find_prev_node SkipList.find_prev_loop SkipList.random_level SkipList.random_level_loop
    SkipList.new_node SkipList.link_loop SkipList.link_at c_str
written_lem = refl

pub small : written.mem_usage < new_db.options.mem_table_max_size
unfolding open_db MemTable.put MemTable.contains MemTable.insert SkipList.init SkipList.insert
    SkipList.contains SkipList.contains_loop SkipList.next_at SkipList.insert_new
    SkipList.find_prev_node SkipList.find_prev_loop SkipList.random_level SkipList.random_level_loop
    SkipList.new_node SkipList.link_loop SkipList.link_at c_str
small = omega arith
