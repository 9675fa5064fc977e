-- ===== src/Db/Writes.antt =====
-- Put and Delete of the database (src/db/db_impl.cpp) beside the specification.
use smallkv.Base.{
  ℕ, ◌^◌, ◌<◌, ◌≤◌, arith, ◌≡◌, sym, ap, ◌∙◌, Option, some, List, [], ◌∷◌, ◌++◌, if_false,
}
use smallkv.Base.Maybe.{◌>>=◌}
use smallkv.Base.Bytes.{Bytes, c_str}
use smallkv.SkipList.{Ptr, SkipList}
use smallkv.SkipList.Chain.{Represents, entries}
use smallkv.Lru.Shape
use smallkv.Lru.Shape.{Pairs, find, remove, touch}
use smallkv.MemTable.Writes.{
  bytes_of, replace_entry, replace_entry-some, All-replace_entry, put-replace_entry,
  put_tombstone-replace_entry,
}
use smallkv.Cache.{Cache, shard_of}
use smallkv.Cache.Shards.{IsCache, set_pairs, SameRoom, insert-set_pairs, erase-set_pairs}
use smallkv.FileWriter.{FileWriter}
use smallkv.FileWriter.Append.{IsValid, Reliable, log, log_flushed}
use smallkv.Wal.Recover.{log_record, log_records, add_log-contents}
use smallkv.Db.{Db, DbStatus, success, encoded_kv, check_size, put, delete}
use smallkv.Db.Log.{FitsPair, encode_kv-FitsPair}
use smallkv.Db.Bounds.{replace_entry-bytes, weight-bytes_of}
use smallkv.Db.Refine.{Refines, check_size-settle, log_records-append}
use smallkv.Db.Spec.{Store, settle, Storable, put_pair, delete_key}
use mathlib.Core.Path.{subst}

module _ {File : Type 0} (write : File → Bytes → File × Option ℕ) (crc : Bytes → ℕ)
    (contents : File → Bytes) (os : Reliable write contents) (hash : Bytes → ℕ)
    (open_table : ℕ → File) (bits_num optimal : ℕ → ℕ)
    (fresh_file : (n : ℕ) → contents (open_table n) ≡ [])
    (some_bits : (n : ℕ) → 0 < n → (0 < bits_num n) × (bits_num n < 2 ^ 31))
    (room limit first : ℕ) where
  -- One record more in the log.
  add_log-logged :
      (w w' : FileWriter File) (logs : List Bytes) (bytes : Bytes)
      → w.buffer_offset ≡ 0
      → contents w.file ≡ log_records crc logs
      → contents w'.file ≡ log write contents w ++ log_record crc bytes
      → contents w'.file ≡ log_records crc (logs ++ bytes ∷ [])
  add_log-logged w w' logs bytes synced before after =
      after
      ∙ ap (λ t. t ++ log_record crc bytes) (log_flushed write contents w synced ∙ before)
      ∙ sym (log_records-append crc logs bytes)

  -- A write ends with a memtable that has the pair, some shards and a longer log; the size is checked
  -- last.
  settled :
      (db : Db File) (s : Store) (w : FileWriter File) (t : SkipList) (qs : List Ptr)
      (c : Cache Bytes) (k v bytes : Bytes) (shards : ℕ → Pairs Bytes)
      → Refines write crc contents room limit first db s
      → Storable (k, v)
      → bytes_of s.memory ≤ 2 ^ 24
      → IsValid w
        × (contents w.file ≡ log write contents db.wal_writer ++ log_record crc bytes)
        × (w.buffer_offset ≡ 0)
      → Represents t qs × (entries t.node qs ≡ replace_entry k v s.memory)
      → IsCache c shards × SameRoom db.cache c
      → (db' : Db File) × (check_size write crc hash open_table bits_num optimal
            (record db { wal_writer = w; mem_table = t; cache = c })
          ≡ some db')
        × Refines write crc contents room limit first db' (
            settle hash room limit (record s {
              memory = replace_entry k v s.memory;
              shards = shards;
              logged = s.logged ++ bytes ∷ [];
            }))
  settled db s w t qs c k v bytes shards r fits few (valid, after, zeroed) (mem, held)
        (cached, same) =
      check_size-settle write crc contents os hash open_table bits_num optimal fresh_file some_bits
        room limit first (record db { wal_writer = w; mem_table = t; cache = c })
        (record s {
          memory = replace_entry k v s.memory;
          shards = shards;
          logged = s.logged ++ bytes ∷ [];
        })
        (record {
          nodes = qs;
          mem = mem;
          memory = held;
          cached = cached;
          roomy = λ j. same j ∙ r.roomy j;
          wal = valid;
          synced = zeroed;
          logged = add_log-logged db.wal_writer w s.logged bytes r.synced r.logged after;
          usable = r.usable;
          limited = r.limited;
          numbered = r.numbered;
          tables = r.tables;
          storable = All-replace_entry Storable k v s.memory fits r.storable;
          weighs = omega (
            arith,
            fits.1,
            few,
            replace_entry-bytes k v s.memory,
            weight-bytes_of (replace_entry k v s.memory)
                (All-replace_entry Storable k v s.memory fits r.storable),
          );
        })
        (replace_entry-some k v s.memory)

  pub put-put_pair :
      (db : Db File) (s : Store) (key value : Bytes) (rand : ℕ → ℕ)
      → Refines write crc contents room limit first db s
      → Storable (c_str key, c_str value) × FitsPair key value
      → bytes_of s.memory ≤ 2 ^ 24
      → (db' : Db File) × (put write crc hash open_table bits_num optimal db key value rand
          ≡ some (db', success))
        × Refines write crc contents room limit first db' (put_pair hash room limit s key value)
  unfolding put put_pair
  put-put_pair db s key value rand r (fits, pair) few =
      let i = shard_of hash (c_str key) in
      let bytes = c_str (encoded_kv key value) in
      let (coded, short) = encode_kv-FitsPair key value pair in
      let (w, logged, valid, after, zeroed) =
        add_log-contents crc write contents os db.wal_writer bytes r.wal short in
      let (t, qs, written, mem, held) =
        put-replace_entry db.mem_table r.nodes key value rand r.mem in
      let (c, cached, shards, same) =
        insert-set_pairs hash db.cache s.shards (c_str key) r.cached (c_str value) in
      let shards' =
        subst
          (λ n.
            IsCache c (set_pairs s.shards i (Shape.put n (c_str key) (c_str value) (s.shards i))))
          (r.roomy i) shards in
      let (db', checked, r') =
        settled db s w t qs c (c_str key) (c_str value) bytes
          (set_pairs s.shards i (Shape.put room (c_str key) (c_str value) (s.shards i))) r fits few
          (valid, after, zeroed) (mem, held ∙ ap (replace_entry (c_str key) (c_str value)) r.memory)
          (shards', same) in
      let done : Db File → Option (Db File × DbStatus) = λ d. some (d, success) in
      (
        db',
        if_false _ _ _ r.usable
            ∙ rw (coded, logged, ◌>>=◌)
                (rw (written, ◌>>=◌) (rw (cached, ◌>>=◌) (ap (λ o. o >>= done) checked))),
        r',
      )

  pub delete-delete_key :
      (db : Db File) (s : Store) (key : Bytes) (rand : ℕ → ℕ)
      → Refines write crc contents room limit first db s
      → Storable (c_str key, []) × FitsPair key []
      → bytes_of s.memory ≤ 2 ^ 24
      → (db' : Db File) × (delete write crc hash open_table bits_num optimal db key rand
          ≡ some (db', success))
        × Refines write crc contents room limit first db' (delete_key hash room limit s key)
  unfolding delete delete_key
  delete-delete_key db s key rand r (fits, pair) few =
      let i = shard_of hash (c_str key) in
      let bytes = c_str (encoded_kv key []) in
      let (coded, short) = encode_kv-FitsPair key [] pair in
      let (w, logged, valid, after, zeroed) =
        add_log-contents crc write contents os db.wal_writer bytes r.wal short in
      let (t, qs, written, mem, held) =
        put_tombstone-replace_entry db.mem_table r.nodes key rand r.mem in
      let (c, cached, shards, same) = erase-set_pairs hash db.cache s.shards (c_str key) r.cached in
      let (db', checked, r') =
        settled db s w t qs c (c_str key) [] bytes
          (set_pairs s.shards i (remove (c_str key) (s.shards i))) r fits few (valid, after, zeroed)
          (mem, held ∙ ap (replace_entry (c_str key) []) r.memory) (shards, same) in
      let done : Db File → Option (Db File × DbStatus) = λ d. some (d, success) in
      (
        db',
        if_false _ _ _ r.usable
            ∙ rw (coded, logged, ◌>>=◌)
                (rw (written, ◌>>=◌) (rw (cached, ◌>>=◌) (ap (λ o. o >>= done) checked))),
        r',
      )
