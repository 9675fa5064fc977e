-- ===== src/Db/Gets.antt =====
-- What `Get` returns after `Put` and after `Delete` (src/db/db_impl.cpp).
use smallkv.Base.{
  ℕ, ◌<◌, ◌≡◌, refl, ap, ◌∙◌, true, false, Option, none, some, List, [], leb, is_some, arith,
  if_false,
}
use smallkv.Base.Maybe.{◌>>=◌}
use smallkv.Base.Bytes.{Bytes, c_str}
use smallkv.SkipList.{Ptr, SkipList}
use smallkv.Lru.Shape.{Pairs, find, remove, find-remove_self}
use smallkv.MemTable
use smallkv.MemTable.Laws.{read_tombstone}
use smallkv.Cache
use smallkv.Cache.{shard_of}
use smallkv.Cache.Shards.{set_pairs, erase-set_pairs, contains-shard}
use smallkv.FileWriter.Append.{Reliable}
use smallkv.Wal.Recover.{add_log-contents}
use smallkv.Table.DataBlock.{OffsetInfo}
use smallkv.Db.Log.{FitsPair, encode_kv-FitsPair}
use smallkv.Db.{Db, success, encoded_kv, check_size, put, delete, get_memory, get}
use smallkv.Db.Reads.{IsOpen, kept, put-get_memory}

module _ {File : Type 0} (write : File → Bytes → File × Option ℕ) (crc hash : Bytes → ℕ)
    (open_table : ℕ → File) (bits_num optimal : ℕ → ℕ) (contents : File → Bytes)
    (os : Reliable write contents) (find_sst : (ℕ → Option File) → Option Bytes)
    (read_address : OffsetInfo → Option ℕ) where
  pub put-get :
      (db : Db File) (qs : List Ptr) (m : ℕ → Pairs Bytes) (key value ret : Bytes) (rand : ℕ → ℕ)
      (t : SkipList)
      → IsOpen db qs m
      → MemTable.put db.mem_table key value rand ≡ some t
      → t.mem_usage < db.options.mem_table_max_size
      → FitsPair key value
      → (db' : Db File) × (db'' : Db File) × (put write crc hash open_table bits_num optimal db key
            value rand
          ≡ some (db', success))
        × (get write crc hash open_table bits_num optimal find_sst read_address db' key ret
            ≡ some (
              db'',
              kept (find (c_str key) (m (shard_of hash (c_str key)))) (c_str value),
              success,
            ))
  unfolding get
  put-get db qs m key value ret rand t d written small fits =
      let (db', db'', done, read) =
        put-get_memory write crc hash open_table bits_num optimal contents os db qs m key value rand
          t d written small fits in
      (db', db'', done, rw (read, ◌>>=◌) refl)

  -- A key that the cache lacks is read from the memtable.
  get_memory-table :
      (db : Db File) (key val : Bytes)
      → db.closed ≡ false
      → Cache.contains hash db.cache (c_str key) ≡ some false
      → MemTable.contains db.mem_table key ≡ some true
      → MemTable.get db.mem_table (c_str key) ≡ some (some val)
      → get_memory write crc hash open_table bits_num optimal db key ≡ some (db, some val)
  unfolding get_memory
  get_memory-table db key val usable miss present at =
      if_false _ _ _ usable ∙ rw (miss, ◌>>=◌) (rw (present, ◌>>=◌) (rw (at, ◌>>=◌) refl))

  -- On a well-formed, open database whose memtable stays below its limit, over a system whose
  -- writes are complete, Delete of a key whose encoding has fewer than 2^31 bytes succeeds, and Get
  -- of the key then succeeds with the empty value.
  pub delete-get :
      (db : Db File) (qs : List Ptr) (m : ℕ → Pairs Bytes) (key ret : Bytes) (rand : ℕ → ℕ)
      (t : SkipList)
      → IsOpen db qs m
      → MemTable.put_tombstone db.mem_table key rand ≡ some t
      → t.mem_usage < db.options.mem_table_max_size
      → FitsPair key []
      → (db' : Db File) × (delete write crc hash open_table bits_num optimal db key rand
          ≡ some (db', success))
        × (get write crc hash open_table bits_num optimal find_sst read_address db' key ret
            ≡ some (db', [], success))
  unfolding get delete check_size
  delete-get db qs m key ret rand t d written small fits =
      let i = shard_of hash (c_str key) in
      let (coded, short) = encode_kv-FitsPair key [] fits in
      let (w, logged, _, _, _) =
        add_log-contents crc write contents os db.wal_writer (c_str (encoded_kv key [])) d.wal
          short in
      let (c, cached, r, _) = erase-set_pairs hash db.cache m (c_str key) d.cached in
      let db' : Db File = record db { wal_writer = w; mem_table = t; cache = c } in
      let m' = set_pairs m i (remove (c_str key) (m i)) in
      let here : m' i ≡ remove (c_str key) (m i) = ground arith in
      let gone : find (c_str key) (m' i) ≡ none =
        ap (find (c_str key)) here
        ∙ find-remove_self (c_str key) (m i) (d.cached i).linked.distinct in
      let miss : Cache.contains hash c (c_str key) ≡ some false =
        contains-shard hash c m' (c_str key) r ∙ ap (λ o. some (is_some o)) gone in
      let (present, at) = read_tombstone db.mem_table t qs key rand d.mem written in
      let under : leb db.options.mem_table_max_size t.mem_usage ≡ false = ground arith in
      (
        db',
        rw (d.usable, coded, logged, ◌>>=◌)
            (rw (written, ◌>>=◌) (rw (cached, ◌>>=◌) (rw (under, ◌>>=◌) refl))),
        rw (get_memory-table db' key [] d.usable miss present at, ◌>>=◌) refl,
      )
