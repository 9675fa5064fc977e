-- ===== src/Db/Calls.antt =====
-- Get of the database up to the table files (src/db/db_impl.cpp) and each call, beside the
-- specification.
use smallkv.Base.{
  ℕ, ◌^◌, Bool, ◌<◌, ◌≤◌, ◌≡◌, refl, sym, ap, ◌∙◌, Option, none, some, List, [], is_some, inl, inr,
  Option-cases, if_false, if◌then◌else◌,
}
use smallkv.Base.Maybe.{◌>>=◌}
use smallkv.Base.Bytes.{Bytes, c_str, c_str-c_str}
use smallkv.SkipList.{Ptr}
use smallkv.SkipList.Chain.{Represents, Entries, entries, lookup}
use smallkv.SkipList.Search.{contains-lookup, get-lookup}
use smallkv.Lru.Shape.{find, touch}
use smallkv.MemTable
use smallkv.MemTable.Writes.{bytes_of}
use smallkv.Cache
use smallkv.Cache.{Cache, shard_of, make_cache}
use smallkv.Cache.Shards.{set_pairs, contains-shard}
use smallkv.FileWriter.Append.{Reliable}
use smallkv.Db.{Db, get_memory}
use smallkv.Db.Reads.{read_cache-found}
use smallkv.Db.Refine.{Refines}
use smallkv.Db.Spec.{Store, Op, put_op, delete_op, get_op, FitsOp, read_key, apply_op, run_op}
use smallkv.Db.Writes.{put-put_pair, delete-delete_key}
use mathlib.Core.Path.{subst}

module _ {File : Type 0} (write : File → Bytes → File × Option ℕ) (crc : Bytes → ℕ)
    (contents : File → Bytes) (os : Reliable write contents) (hash : Bytes → ℕ)
    (open_table : ℕ → File) (bits_num optimal : ℕ → ℕ)
    (fresh_file : (n : ℕ) → contents (open_table n) ≡ [])
    (some_bits : (n : ℕ) → 0 < n → (0 < bits_num n) × (bits_num n < 2 ^ 31))
    (room limit first : ℕ) where
  -- What the memtable answers.
  from_memory :
      (db : Db File) (m : Entries) (qs : List Ptr) (key : Bytes)
      → Represents db.mem_table qs
      → entries db.mem_table.node qs ≡ m
      → let answer : Bool → Option (Db File × Option Bytes) = λ present.
        if present
        then MemTable.get db.mem_table (c_str key)
          >>= (λ found. found >>= λ val. some (db, some val))
        else some (db, none) in
        MemTable.contains db.mem_table key >>= answer ≡ some (db, lookup (c_str key) m)
  unfolding MemTable.contains MemTable.get
  from_memory db m qs key r e =
      let present = contains-lookup db.mem_table qs (c_str key) r in
      let at = get-lookup db.mem_table qs (c_str key) r in
      elim (Option-cases (lookup (c_str key) m)) [
        | inl n ↦ rw (present, e, n, ◌>>=◌) refl
        | inr (v, f) ↦ rw (present, e, f, ◌>>=◌) (rw (c_str-c_str key, at, e, f, ◌>>=◌) refl)
      ]

  read_key-hit :
      (s : Store) (key v : Bytes)
      → find (c_str key) (s.shards (shard_of hash (c_str key))) ≡ some v
      → read_key hash room limit s key ≡ (
        record s {
          shards =
              set_pairs s.shards
                (shard_of hash (c_str key))
                (touch (c_str key) (s.shards (shard_of hash (c_str key))));
        },
        some v,
      )
  unfolding read_key
  read_key-hit s key v e = rw (e, read_key) refl

  read_key-miss :
      (s : Store) (key : Bytes)
      → find (c_str key) (s.shards (shard_of hash (c_str key))) ≡ none
      → read_key hash room limit s key ≡ (s, lookup (c_str key) s.memory)
  unfolding read_key
  read_key-miss s key e = rw (e, read_key) refl

  -- Get, up to the table files.
  pub get_memory-read_key :
      (db : Db File) (s : Store) (key : Bytes)
      → Refines write crc contents room limit first db s
      → (db' : Db File) × (get_memory write crc hash open_table bits_num optimal db key
          ≡ some (db', (read_key hash room limit s key).1))
        × Refines write crc contents room limit first db' (read_key hash room limit s key).0
  unfolding get_memory
  get_memory-read_key db s key r =
      let i = shard_of hash (c_str key) in
      let hit : Cache.contains hash db.cache (c_str key)
          ≡ some (is_some (find (c_str key) (s.shards i))) =
        contains-shard hash db.cache s.shards (c_str key) r.cached in
      elim (Option-cases (find (c_str key) (s.shards i))) [
        | inr (v, e) ↦
            let (c, run, shards, same) =
              read_cache-found write crc hash open_table bits_num optimal db s.shards (c_str key) v
                r.cached e in
            let hold : Refines write crc contents room limit first (record db { cache = c })
                (record s { shards = set_pairs s.shards i (touch (c_str key) (s.shards i)) }) =
              record {
                nodes = r.nodes;
                mem = r.mem;
                memory = r.memory;
                cached = shards;
                roomy = λ j. same j ∙ r.roomy j;
                wal = r.wal;
                synced = r.synced;
                logged = r.logged;
                usable = r.usable;
                limited = r.limited;
                numbered = r.numbered;
                tables = r.tables;
                storable = r.storable;
                weighs = r.weighs;
              } in
            let answer = sym (read_key-hit s key v e) in
            (
              record db { cache = c },
              if_false _ _ _ r.usable
                  ∙ rw (hit ∙ ap (λ o. some (is_some o)) e, ◌>>=◌)
                      (run ∙ ap (λ a. some (record db { cache = c }, a.1)) answer),
              subst (λ a. Refines write crc contents room limit first (record db { cache = c }) a.0)
                  answer hold,
            )
        | inl e ↦
            let answer = sym (read_key-miss s key e) in
            (
              db,
              if_false _ _ _ r.usable
                  ∙ rw (hit ∙ ap (λ o. some (is_some o)) e, ◌>>=◌)
                      (from_memory db s.memory r.nodes key r.mem r.memory
                        ∙ ap (λ a. some (db, a.1)) answer),
              subst (λ a. Refines write crc contents room limit first db a.0) answer r,
            )
      ]

  -- A call.
  pub run_op-apply_op :
      (db : Db File) (s : Store) (o : Op)
      → Refines write crc contents room limit first db s
      → FitsOp o
      → bytes_of s.memory ≤ 2 ^ 24
      → (db' : Db File) × (run_op write crc hash open_table bits_num optimal db o
          ≡ some (db', (apply_op hash room limit s o).1))
        × Refines write crc contents room limit first db' (apply_op hash room limit s o).0
  unfolding run_op apply_op
  run_op-apply_op db s (put_op key value rand) r fits few =
      let (db', run, r') =
        put-put_pair write crc contents os hash open_table bits_num optimal fresh_file some_bits
          room limit first db s key value rand r fits few in
      (db', rw (run, ◌>>=◌) refl, r')
  run_op-apply_op db s (delete_op key rand) r fits few =
      let (db', run, r') =
        delete-delete_key write crc contents os hash open_table bits_num optimal fresh_file
          some_bits room limit first db s key rand r fits few in
      (db', rw (run, ◌>>=◌) refl, r')
  run_op-apply_op db s (get_op key) r fits few =
      let (db', run, r') = get_memory-read_key db s key r in (db', rw (run, ◌>>=◌) refl, r')
