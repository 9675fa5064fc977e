-- ===== src/Db/Limits.antt =====
-- How much the memtable of the database (src/db/db_impl.cpp) holds between the calls.
use smallkv.Base.{
  ℕ, ◌^◌, ◌<◌, ◌≤◌, ◌≡◌, refl, ap, Option, some, List, [], ◌∷◌, All, leb, arith, inl, inr,
  Bool-cases, Option-cases,
}
use smallkv.Base.Bytes.{Bytes, c_str}
use smallkv.Lru.Shape.{find}
use smallkv.Cache.{shard_of}
use mathlib.Core.Path.{subst}
use mathlib.Core.Option.{some-injective}
use smallkv.MemTable.Writes.{bytes_of, usage-bytes_of}
use smallkv.FileWriter.Append.{Reliable}
use smallkv.Db.{Db, Options, open_db}
use smallkv.Db.Spec.{
  Store, empty_store, Op, put_op, delete_op, get_op, Answer, FitsOp, settle, put_pair, delete_key,
  read_key, apply_op, spec_step, run_op, run_ops, run_ops-later,
}
use smallkv.Db.Runs.{run_ops-Refines}

-- The memory of the specification stays below its limit.
module _ (hash : Bytes → ℕ) (room limit : ℕ) (some_limit : 0 < limit) where
  settle-below : (s : Store) → bytes_of (settle hash room limit s).memory < limit
  unfolding settle bytes_of
  settle-below s = elim (Bool-cases (leb limit (bytes_of s.memory))) [
    | inl e ↦ rw e some_limit
    | inr e ↦ rw e (ground (arith, e))
  ]

  apply_op-below :
      (s : Store) (o : Op)
      → bytes_of s.memory < limit
      → bytes_of (apply_op hash room limit s o).0.memory < limit
  unfolding apply_op put_pair delete_key read_key
  apply_op-below s (put_op key value rand) h = settle-below _
  apply_op-below s (delete_op key rand) h = settle-below _
  apply_op-below s (get_op key) h =
      elim (Option-cases (find (c_str key) (s.shards (shard_of hash (c_str key))))) [
        | inl e ↦ rw (e, read_key) h
        | inr (v, e) ↦ rw (e, read_key) h
      ]

  specified-below :
      (ops : List Op) (s s' : Store) (answers : List Answer)
      → bytes_of s.memory < limit
      → run_ops (spec_step hash room limit) ops s ≡ some (s', answers)
      → bytes_of s'.memory < limit
  unfolding run_ops
  specified-below [] s s' answers h e =
      subst (λ (t : Store × List Answer). bytes_of t.0.memory < limit) (some-injective _ _ e) h
  specified-below (o ∷ ops) s s' answers h e =
      let (answers', rest) =
        run_ops-later (spec_step hash room limit) o ops s _ s' _ answers refl e in
      specified-below ops _ s' answers' (apply_op-below s o h) rest

module _ {File : Type 0} (write : File → Bytes → File × Option ℕ) (crc : Bytes → ℕ)
    (contents : File → Bytes) (os : Reliable write contents) (hash : Bytes → ℕ)
    (open_table : ℕ → File) (bits_num optimal : ℕ → ℕ)
    (fresh_file : (n : ℕ) → contents (open_table n) ≡ [])
    (some_bits : (n : ℕ) → 0 < n → (0 < bits_num n) × (bits_num n < 2 ^ 31)) where
  -- After any sequence of calls of Put, Delete and Get up to the table files, from the constructor
  -- on an empty log, over a system whose writes are complete, the memtable uses fewer bytes than
  -- the limit of the options, which is not zero. Every key that is written is not empty and fits
  -- with its value in a block, the encoded pair has fewer than 2^31 bytes, the limit of the
  -- memtable is at most 2^24 bytes, a new table file is empty, and a filter for some keys has from
  -- 1 to 2^31 - 1 bits.
  pub run_ops-below :
      (options : Options) (wal : File) (ops : List Op)
      → contents wal ≡ []
      → All FitsOp ops
      → options.mem_table_max_size ≤ 2 ^ 24
      → 0 < options.mem_table_max_size
      → (db : Db File) × (answers : List Answer) × (run_ops
            (run_op write crc hash open_table bits_num optimal)
            ops
            (open_db options wal)
          ≡ some (db, answers))
        × (db.mem_table.mem_usage < options.mem_table_max_size)
  unfolding bytes_of
  run_ops-below options wal ops e fits few some_limit =
      let (db, s, answers, run, told, r) =
        run_ops-Refines write crc contents os hash open_table bits_num optimal fresh_file some_bits
          options wal ops e fits few in
      let small =
        specified-below hash options.cache_size options.mem_table_max_size some_limit ops
          empty_store s answers some_limit told in
      (
        db,
        answers,
        run,
        omega (
          arith,
          r.mem.mem_usage,
          usage-bytes_of db.mem_table.node r.nodes,
          ap bytes_of r.memory,
          small,
        ),
      )
