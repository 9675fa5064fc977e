-- ===== src/Tests/Runs.antt =====
-- Sequences of calls of the database (src/db/db_impl.cpp) at concrete inputs, over a file that is the
-- list of its bytes, with a limit that the first write passes.
use smallkv.Base.{ℕ, min, ◌^◌, ◌*◌, ◌<◌, ◌≤◌, ◌≡◌, refl, some, List, [], ◌∷◌, arith, All, length}
use smallkv.Base.Bytes.{Bytes, c_str}
use smallkv.Wal.Recover.{IsLoggable, read_records}
use smallkv.Db.{Db, Options, open_db}
use smallkv.Db.Log.{length-c_str-encoded_kv}
use smallkv.Db.Spec.{
  Store, empty_store, Op, put_op, delete_op, get_op, Answer, FitsOp, spec_step, run_op, run_ops,
}
use smallkv.Db.Refine.{Refines}
use smallkv.Db.Runs.{run_ops-Refines}
use smallkv.Db.Limits.{run_ops-below}
use smallkv.Db.Logged.{HasShortKey, logs_of, read_records-run_ops, length-run_ops}
use smallkv.Tests.Databases.{write_all, whole, write_all-Reliable, ones, first_byte, seven}

abbrev no_file : ℕ → Bytes
no_file n = []

abbrev ten_each : ℕ → ℕ
ten_each n = min (n * 10) 1000

no_file_lem : (n : ℕ) → whole (no_file n) ≡ []
no_file_lem n = refl

ten_each_lem : (n : ℕ) → 0 < n → (0 < ten_each n) × (ten_each n < 2 ^ 31)
ten_each_lem n h = (omega arith, omega arith)

abbrev tight : Options
tight = record { mem_table_max_size = 3; cache_size = 2; l1_sst_num = 0 }

abbrev calls : List Op
calls =
    put_op (5 ∷ []) (50 ∷ []) ones
    ∷ put_op (6 ∷ []) (60 ∷ []) ones
    ∷ delete_op (5 ∷ []) ones
    ∷ get_op (6 ∷ [])
    ∷ []

calls-FitsOp : All FitsOp calls
unfolding c_str
calls-FitsOp = (
  (((λ e. cc e), omega arith), omega arith),
  (
    (((λ e. cc e), omega arith), omega arith),
    ((((λ e. cc e), omega arith), omega arith), (tt, tt)),
  ),
)

calls-IsLoggable : All (IsLoggable seven) (logs_of calls)
unfolding logs_of
calls-IsLoggable = (
  (omega (arith, length-c_str-encoded_kv (5 ∷ []) (50 ∷ []) (omega arith)), omega arith),
  (
    (omega (arith, length-c_str-encoded_kv (6 ∷ []) (60 ∷ []) (omega arith)), omega arith),
    ((omega (arith, length-c_str-encoded_kv (5 ∷ []) [] (omega arith)), omega arith), tt),
  ),
)

run_ops-Refines_example :
    (db : Db Bytes) × (s : Store) × (answers : List Answer) × (run_ops
        (run_op write_all seven first_byte no_file ten_each ten_each)
        calls
        (open_db tight [])
      ≡ some (db, answers))
    × (run_ops (spec_step first_byte tight.cache_size tight.mem_table_max_size) calls empty_store
        ≡ some (s, answers))
    × Refines write_all seven whole tight.cache_size tight.mem_table_max_size tight.l1_sst_num db s
run_ops-Refines_example =
    run_ops-Refines write_all seven whole write_all-Reliable first_byte no_file ten_each ten_each
      no_file_lem ten_each_lem tight [] calls refl calls-FitsOp (omega arith)

run_ops-below_example :
    (db : Db Bytes) × (answers : List Answer) × (run_ops
        (run_op write_all seven first_byte no_file ten_each ten_each)
        calls
        (open_db tight [])
      ≡ some (db, answers))
    × (db.mem_table.mem_usage < tight.mem_table_max_size)
run_ops-below_example =
    run_ops-below write_all seven whole write_all-Reliable first_byte no_file ten_each ten_each
      no_file_lem ten_each_lem tight [] calls refl calls-FitsOp (omega arith) (omega arith)

read_records-run_ops_example :
    (db : Db Bytes) × (answers : List Answer) × (run_ops
        (run_op write_all seven first_byte no_file ten_each ten_each)
        calls
        (open_db tight [])
      ≡ some (db, answers))
    × (read_records seven (length (logs_of calls)) (whole db.wal_writer.file)
        ≡ some (logs_of calls))
read_records-run_ops_example =
    read_records-run_ops write_all seven whole write_all-Reliable first_byte no_file ten_each
      ten_each no_file_lem ten_each_lem tight [] calls refl calls-FitsOp (omega arith)
      calls-IsLoggable

calls-HasShortKey : All HasShortKey calls
calls-HasShortKey = (omega arith, (omega arith, (omega arith, (tt, tt))))

length-run_ops_example :
    (db : Db Bytes) × (answers : List Answer) × (run_ops
        (run_op write_all seven first_byte no_file ten_each ten_each)
        calls
        (open_db tight [])
      ≡ some (db, answers))
    × (length (whole db.wal_writer.file) ≤ 44)
length-run_ops_example =
    length-run_ops write_all seven whole write_all-Reliable first_byte no_file ten_each ten_each
      no_file_lem ten_each_lem tight [] calls refl calls-FitsOp (omega arith) calls-HasShortKey
