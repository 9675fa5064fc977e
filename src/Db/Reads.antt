-- ===== src/Db/Reads.antt =====
-- What a read returns after a write (src/db/db_impl.cpp).
use smallkv.Base.{
  if_false, ℕ, ◌<◌, ◌≡◌, refl, sym, ap, ◌∙◌, true, false, Option, none, some, List, [], ◌∷◌, leb,
  is_some, arith, Option-cases, inl, inr,
}
use smallkv.Base.Maybe.{◌>>=◌}
use smallkv.Base.Bytes.{Bytes, beq_self, c_str}
use smallkv.SkipList.{Ptr, SkipList}
use smallkv.SkipList.Chain.{Represents}
use smallkv.Lru.Shape
use smallkv.Lru.Shape.{Pairs, find, touch}
use smallkv.Lru.Refine.{Returned}
use smallkv.MemTable
use smallkv.Cache
use smallkv.Cache.{Cache, shard_of}
use smallkv.Cache.Shards.{
  IsCache, set_pairs, SameRoom, insert-set_pairs, contains-shard, get-set_pairs,
}
use smallkv.FileWriter.Append.{IsValid, Reliable}
use smallkv.Wal.Recover.{add_log-contents}
use smallkv.Db.Log.{FitsPair, encode_kv-FitsPair}
use smallkv.Db.{Db, success, encoded_kv, check_size, put, read_cache, get_memory}

-- The state is well formed, the database is open, and every shard has room for a pair.
pub record IsOpen {File : Type 0} (db : Db File) (qs : List Ptr) (m : ℕ → Pairs Bytes)
    : Type 0 where
  pub mem : Represents db.mem_table qs
  pub cached : IsCache db.cache m
  pub wal : IsValid db.wal_writer
  pub usable : db.closed ≡ false
  pub roomy : (i : ℕ) → 0 < (db.cache i).cap

-- The value that a cache keeps for a key: the old one, if there was one.
unfoldable pub kept : Option Bytes → Bytes → Bytes
kept none v = v
kept (some w) v = w

find-put :
    (cap : ℕ) (k v : Bytes) (m : Pairs Bytes)
    → 0 < cap
    → find k (Shape.put cap k v m) ≡ some (kept (find k m) v)
unfolding Shape.put find Shape.but_last kept
find-put cap k v [] h = ground (arith, beq_self k)
find-put cap k v ((j, w) ∷ m) h = elim (Option-cases (find k ((j, w) ∷ m))) [
  | inl e ↦ ground (arith, e, beq_self k)
  | inr (u, e) ↦ ground (arith, e, beq_self k)
]

module _ {File : Type 0} (write : File → Bytes → File × Option ℕ) (crc hash : Bytes → ℕ)
    (open_table : ℕ → File) (bits_num optimal : ℕ → ℕ) where
  -- A key that a shard has is read from it, and moves to its front.
  pub read_cache-found :
      (db : Db File) (m : ℕ → Pairs Bytes) (key v : Bytes)
      → IsCache db.cache m
      → find key (m (shard_of hash key)) ≡ some v
      → (c : Cache Bytes) × (read_cache write crc hash open_table bits_num optimal db key
          ≡ some (record db { cache = c }, some v))
        × IsCache c (set_pairs m (shard_of hash key) (touch key (m (shard_of hash key))))
        × SameRoom db.cache c
  unfolding read_cache
  read_cache-found db m key v r e =
      let (c, o, run, after, back, same) = get-set_pairs hash db.cache m key r in
      (c, go c o run back, after, same)
    where
      go :
          (c : Cache Bytes) (o : Option Ptr)
          → Cache.get hash db.cache key ≡ some (c, o)
          → Returned (c (shard_of hash key)) o key (find key (m (shard_of hash key)))
          → read_cache write crc hash open_table bits_num optimal db key
            ≡ some (record db { cache = c }, some v)
      go c none run back = absurd (cc (back, e))
      go c (some p) run (n, at, _, same, _) =
          rw (run, ◌>>=◌)
            (rw (at, ◌>>=◌) (ap (λ u. some (record db { cache = c }, u)) (sym same ∙ e)))

  module _ (contents : File → Bytes) (os : Reliable write contents) where
    -- On a well-formed, open database whose memtable stays below its limit, over a system whose
    -- writes are complete, Put succeeds, and Get of the key then ends with the value that the cache
    -- had for the key before, or with the new one if it had none; keys and values count up to their
    -- first zero bytes.
    pub put-get_memory :
        (db : Db File) (qs : List Ptr) (m : ℕ → Pairs Bytes) (key value : Bytes) (rand : ℕ → ℕ)
        (t : SkipList)
        → IsOpen db qs m
        → MemTable.put db.mem_table key value rand ≡ some t
        → t.mem_usage < db.options.mem_table_max_size
        → FitsPair key value
        → (db' : Db File) × (db'' : Db File) × (put write crc hash open_table bits_num optimal db
              key value rand
            ≡ some (db', success))
          × (get_memory write crc hash open_table bits_num optimal db' key
              ≡ some (
                db'',
                some (kept (find (c_str key) (m (shard_of hash (c_str key)))) (c_str value)),
              ))
    unfolding put get_memory check_size
    put-get_memory db qs m key value rand t d written small fits =
        let i = shard_of hash (c_str key) in
        let (coded, short) = encode_kv-FitsPair key value fits in
        let (w, logged, v, _, _) =
          add_log-contents crc write contents os db.wal_writer (c_str (encoded_kv key value)) d.wal
            short in
        let (c, cached, r, _) =
          insert-set_pairs hash db.cache m (c_str key) d.cached (c_str value) in
        let db' : Db File = record db { wal_writer = w; mem_table = t; cache = c } in
        let m' = set_pairs m i (Shape.put (db.cache i).cap (c_str key) (c_str value) (m i)) in
        let here : m' i ≡ Shape.put (db.cache i).cap (c_str key) (c_str value) (m i) =
          ground arith in
        let found : find (c_str key) (m' i) ≡ some (kept (find (c_str key) (m i)) (c_str value)) =
          ap (find (c_str key)) here
          ∙ find-put (db.cache i).cap (c_str key) (c_str value) (m i) (d.roomy i) in
        let (c', read, _, _) = read_cache-found db' m' (c_str key) _ r found in
        let hit : Cache.contains hash c (c_str key) ≡ some true =
          contains-shard hash c m' (c_str key) r ∙ ap (λ o. some (is_some o)) found in
        let under : leb db.options.mem_table_max_size t.mem_usage ≡ false = ground arith in
        (
          db',
          record db' { cache = c' },
          rw (d.usable, coded, logged, ◌>>=◌)
              (rw (written, ◌>>=◌) (rw (cached, ◌>>=◌) (rw (under, ◌>>=◌) refl))),
          if_false _ _ _ d.usable ∙ rw (hit, ◌>>=◌) read,
        )
