-- ===== src/Db/Logged.antt =====
-- What the log of the database (src/db/db_impl.cpp) holds after a sequence of calls, and how it reads
-- back.
use smallkv.Base.{
  ℕ, ◌+◌, ◌*◌, length-append, ◌^◌, ◌<◌, ◌≤◌, ◌≡◌, refl, sym, ap, ◌∙◌, Option, some, List, [], ◌∷◌,
  ◌++◌, length, All, leb, arith, append_assoc, append-nil, inl, inr, Bool-cases, Option-cases,
}
use smallkv.Base.Bytes.{Bytes, c_str}
use smallkv.Lru.Shape.{find}
use smallkv.Cache.{shard_of}
use smallkv.MemTable.Writes.{bytes_of}
use smallkv.FileWriter.Append.{Reliable}
use smallkv.Wal.Recover.{
  IsLoggable, log_record, log_records, read_records, read_records-log_records,
}
use smallkv.Wal.{header}
use smallkv.Db.Log.{length-c_str-encoded_kv}
use smallkv.Db.{Db, Options, encoded_kv, open_db}
use smallkv.Db.Runs.{run_ops-Refines}
use smallkv.Db.Spec.{
  Store, empty_store, Op, put_op, delete_op, get_op, Answer, FitsOp, settle, put_pair, delete_key,
  read_key, apply_op, spec_step, run_op, run_ops, run_ops-later,
}
use mathlib.Core.Option.{some-injective}

-- What the calls hand to the log.
unfoldable pub logs_of : List Op → List Bytes
logs_of [] = []
logs_of (put_op key value rand ∷ ops) = c_str (encoded_kv key value) ∷ logs_of ops
logs_of (delete_op key rand ∷ ops) = c_str (encoded_kv key []) ∷ logs_of ops
logs_of (get_op key ∷ ops) = logs_of ops

-- The keys that are written have fewer than 2^24 bytes.
abbrev pub HasShortKey : Op → Type 0
HasShortKey (put_op key value rand) = length key < 2 ^ 24
HasShortKey (delete_op key rand) = length key < 2 ^ 24
HasShortKey (get_op key) = Unit

length-log_record : (crc : Bytes → ℕ) (b : Bytes) → length (log_record crc b) ≡ 8 + length b
unfolding header
length-log_record crc b = length-append (header crc b) b

length-logs_of :
    (crc : Bytes → ℕ) (ops : List Op)
    → All HasShortKey ops
    → length (log_records crc (logs_of ops)) ≤ 11 * length ops
unfolding logs_of log_records
length-logs_of crc [] a = omega arith
length-logs_of crc (put_op key value rand ∷ ops) a =
    let b = c_str (encoded_kv key value) in
    omega (
      arith,
      length-append (log_record crc b) (log_records crc (logs_of ops)),
      length-log_record crc b,
      length-c_str-encoded_kv key value a.0,
      length-logs_of crc ops a.1,
    )
length-logs_of crc (delete_op key rand ∷ ops) a =
    let b = c_str (encoded_kv key []) in
    omega (
      arith,
      length-append (log_record crc b) (log_records crc (logs_of ops)),
      length-log_record crc b,
      length-c_str-encoded_kv key [] a.0,
      length-logs_of crc ops a.1,
    )
length-logs_of crc (get_op key ∷ ops) a = omega (arith, length-logs_of crc ops a.1)

module _ (hash : Bytes → ℕ) (room limit : ℕ) where
  settle-logged : (s : Store) → (settle hash room limit s).logged ≡ s.logged
  unfolding settle
  settle-logged s = elim (Bool-cases (leb limit (bytes_of s.memory))) [
    | inl e ↦ rw e refl
    | inr e ↦ rw e refl
  ]

  apply_op-logged :
      (s : Store) (o : Op) (ops : List Op)
      → (apply_op hash room limit s o).0.logged ++ logs_of ops ≡ s.logged ++ logs_of (o ∷ ops)
  unfolding apply_op put_pair delete_key read_key logs_of
  apply_op-logged s (put_op key value rand) ops =
      ap (λ t. t ++ logs_of ops) (settle-logged _)
      ∙ append_assoc s.logged (c_str (encoded_kv key value) ∷ []) (logs_of ops)
  apply_op-logged s (delete_op key rand) ops =
      ap (λ t. t ++ logs_of ops) (settle-logged _)
      ∙ append_assoc s.logged (c_str (encoded_kv key []) ∷ []) (logs_of ops)
  apply_op-logged s (get_op key) ops =
      elim (Option-cases (find (c_str key) (s.shards (shard_of hash (c_str key))))) [
        | inl e ↦ rw (e, read_key) refl
        | inr (v, e) ↦ rw (e, read_key) refl
      ]

  specified-logged :
      (ops : List Op) (s s' : Store) (answers : List Answer)
      → run_ops (spec_step hash room limit) ops s ≡ some (s', answers)
      → s'.logged ≡ s.logged ++ logs_of ops
  unfolding run_ops logs_of
  specified-logged [] s s' answers e =
      ap (λ (t : Store × List Answer). t.0.logged) (sym (some-injective _ _ e))
      ∙ sym (append-nil s.logged)
  specified-logged (o ∷ ops) s s' answers e =
      let (answers', rest) =
        run_ops-later (spec_step hash room limit) o ops s _ s' _ answers refl e in
      specified-logged ops (apply_op hash room limit s o).0 s' answers' rest
      ∙ apply_op-logged s o ops

module _ {File : Type 0} (write : File → Bytes → File × Option ℕ) (crc : Bytes → ℕ)
    (contents : File → Bytes) (os : Reliable write contents) (hash : Bytes → ℕ)
    (open_table : ℕ → File) (bits_num optimal : ℕ → ℕ)
    (fresh_file : (n : ℕ) → contents (open_table n) ≡ [])
    (some_bits : (n : ℕ) → 0 < n → (0 < bits_num n) × (bits_num n < 2 ^ 31)) where
  run_ops-logged :
      (options : Options) (wal : File) (ops : List Op)
      → contents wal ≡ []
      → All FitsOp ops
      → options.mem_table_max_size ≤ 2 ^ 24
      → (db : Db File) × (answers : List Answer) × (run_ops
            (run_op write crc hash open_table bits_num optimal)
            ops
            (open_db options wal)
          ≡ some (db, answers))
        × (contents db.wal_writer.file ≡ log_records crc (logs_of ops))
  run_ops-logged options wal ops e fits few =
      let (db, s, answers, run, told, r) =
        run_ops-Refines write crc contents os hash open_table bits_num optimal fresh_file some_bits
          options wal ops e fits few in
      (
        db,
        answers,
        run,
        r.logged
            ∙ ap (log_records crc) (
                specified-logged hash options.cache_size options.mem_table_max_size ops empty_store
                  s answers told),
      )

  -- After any sequence of calls of Put, Delete and Get up to the table files, from the constructor
  -- on an empty log, over a system whose writes are complete, the file of the log reads back by its
  -- schema as what every Put and Delete handed to the log, in order; each log and its checksum must
  -- fit in 32 bits. Every key that is written is not empty and fits with its value in a block, the
  -- encoded pair has fewer than 2^31 bytes, the limit of the memtable is at most 2^24 bytes, a new
  -- table file is empty, and a filter for some keys has from 1 to 2^31 - 1 bits.
  pub read_records-run_ops :
      (options : Options) (wal : File) (ops : List Op)
      → contents wal ≡ []
      → All FitsOp ops
      → options.mem_table_max_size ≤ 2 ^ 24
      → All (IsLoggable crc) (logs_of ops)
      → (db : Db File) × (answers : List Answer) × (run_ops
            (run_op write crc hash open_table bits_num optimal)
            ops
            (open_db options wal)
          ≡ some (db, answers))
        × (read_records crc (length (logs_of ops)) (contents db.wal_writer.file)
            ≡ some (logs_of ops))
  read_records-run_ops options wal ops e fits few loggable =
      let (db, answers, run, logged) = run_ops-logged options wal ops e fits few in
      (
        db,
        answers,
        run,
        ap (read_records crc (length (logs_of ops))) logged
            ∙ read_records-log_records crc (length (logs_of ops)) (logs_of ops) loggable
                (omega arith),
      )

  -- After any sequence of calls of Put, Delete and Get up to the table files, from the constructor
  -- on an empty log, over a system whose writes are complete, the file of the log has at most
  -- eleven bytes for each call, if the keys that are written have fewer than 2^24 bytes each: Put
  -- and Delete hand the encoded pair to AddLog as a char *, which ends at the zero byte in the
  -- length of the key. Every key that is written is not empty and fits with its value in a block,
  -- the encoded pair has fewer than 2^31 bytes, the limit of the memtable is at most 2^24 bytes, a
  -- new table file is empty, and a filter for some keys has from 1 to 2^31 - 1 bits.
  pub length-run_ops :
      (options : Options) (wal : File) (ops : List Op)
      → contents wal ≡ []
      → All FitsOp ops
      → options.mem_table_max_size ≤ 2 ^ 24
      → All HasShortKey ops
      → (db : Db File) × (answers : List Answer) × (run_ops
            (run_op write crc hash open_table bits_num optimal)
            ops
            (open_db options wal)
          ≡ some (db, answers))
        × (length (contents db.wal_writer.file) ≤ 11 * length ops)
  length-run_ops options wal ops e fits few short =
      let (db, answers, run, logged) = run_ops-logged options wal ops e fits few in
      (db, answers, run, omega (arith, ap length logged, length-logs_of crc ops short))
