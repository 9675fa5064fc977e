-- ===== src/Db/Runs.antt =====
-- Sequences of calls of the database (src/db/db_impl.cpp) from its constructor on.
use smallkv.Base.{ℕ, ◌^◌, ◌<◌, ◌≤◌, ◌≡◌, refl, Option, some, List, [], ◌∷◌, All, arith}
use smallkv.Base.Maybe.{◌>>=◌}
use smallkv.Base.Bytes.{Bytes}
use smallkv.SkipList.Chain.{entries}
use smallkv.SkipList.Refine.{init-Represents}
use smallkv.Lru
use smallkv.Lru.Refine
use smallkv.FileWriter.{open_writer}
use smallkv.FileWriter.Append.{Reliable, open_writer-IsValid}
use smallkv.Wal.Recover.{log_records}
use smallkv.Db.{Db, Options, open_db}
use smallkv.MemTable.Writes.{bytes_of}
use smallkv.Table.Builder.Loads.{weight}
use smallkv.Db.Bounds.{apply_op-within}
use smallkv.Db.Refine.{Refines}
use smallkv.Db.Calls.{run_op-apply_op}
use smallkv.Db.Spec.{Store, empty_store, Op, Answer, FitsOp, apply_op, spec_step, run_op, run_ops}

module _ {File : Type 0} (write : File → Bytes → File × Option ℕ) (crc : Bytes → ℕ)
    (contents : File → Bytes) (os : Reliable write contents) (hash : Bytes → ℕ)
    (open_table : ℕ → File) (bits_num optimal : ℕ → ℕ)
    (fresh_file : (n : ℕ) → contents (open_table n) ≡ [])
    (some_bits : (n : ℕ) → 0 < n → (0 < bits_num n) × (bits_num n < 2 ^ 31)) where
  module _ (room limit first : ℕ) where
    run_ops-from :
        (ops : List Op) (db : Db File) (s : Store)
        → Refines write crc contents room limit first db s
        → All FitsOp ops
        → limit ≤ 2 ^ 24
        → bytes_of s.memory ≤ limit
        → (db' : Db File) × (s' : Store) × (answers : List Answer) × (run_ops
              (run_op write crc hash open_table bits_num optimal)
              ops
              db
            ≡ some (db', answers))
          × (run_ops (spec_step hash room limit) ops s ≡ some (s', answers))
          × Refines write crc contents room limit first db' s'
    unfolding run_ops bytes_of
    run_ops-from [] db s r fits few within = (db, s, [], refl, refl, r)
    run_ops-from (o ∷ ops) db s r fits few within =
        let (db₁, run₁, r₁) =
          run_op-apply_op write crc contents os hash open_table bits_num optimal fresh_file
            some_bits room limit first db s o r fits.0 (omega (arith, few, within)) in
        let (db₂, s₂, answers, run₂, told, r₂) =
          run_ops-from ops db₁ (apply_op hash room limit s o).0 r₁ fits.1 few
            (apply_op-within hash room limit s o within) in
        (
          db₂,
          s₂,
          (apply_op hash room limit s o).1 ∷ answers,
          rw (run₁, ◌>>=◌) (rw (run₂, ◌>>=◌) refl),
          rw (told, ◌>>=◌) refl,
          r₂,
        )

  open_db-Refines :
      (options : Options) (wal : File)
      → contents wal ≡ []
      → Refines write crc contents options.cache_size options.mem_table_max_size options.l1_sst_num
          (open_db options wal)
          empty_store
  unfolding open_db Lru.init open_writer entries log_records weight
  open_db-Refines options wal e = record {
    nodes = [];
    mem = init-Represents;
    memory = refl;
    cached = λ i. Refine.init-Represents options.cache_size;
    roomy = λ i. refl;
    wal = open_writer-IsValid wal;
    synced = refl;
    logged = e;
    usable = refl;
    limited = refl;
    numbered = omega arith;
    tables = tt;
    storable = tt;
    weighs = omega arith;
  }

  -- Any sequence of calls of Put, Delete and Get up to the table files, from the constructor on an
  -- empty log, over a system whose writes are complete, ends without a fault and with the answers
  -- of the specification; the database then stands for the state of the specification: its
  -- memtable, its cache shards, its log and its table files. Every key that is written is not empty
  -- and fits with its value in a block, the encoded pair has fewer than 2^31 bytes, the limit of
  -- the memtable is at most 2^24 bytes, a new table file is empty, and a filter for some keys has
  -- from 1 to 2^31 - 1 bits.
  pub run_ops-Refines :
      (options : Options) (wal : File) (ops : List Op)
      → contents wal ≡ []
      → All FitsOp ops
      → options.mem_table_max_size ≤ 2 ^ 24
      → (db : Db File) × (s : Store) × (answers : List Answer) × (run_ops
            (run_op write crc hash open_table bits_num optimal)
            ops
            (open_db options wal)
          ≡ some (db, answers))
        × (run_ops (spec_step hash options.cache_size options.mem_table_max_size) ops empty_store
            ≡ some (s, answers))
        × Refines write crc contents options.cache_size options.mem_table_max_size
            options.l1_sst_num db s
  unfolding bytes_of
  run_ops-Refines options wal ops e fits few =
      run_ops-from options.cache_size options.mem_table_max_size options.l1_sst_num ops
        (open_db options wal) empty_store (open_db-Refines options wal e) fits few (omega arith)
