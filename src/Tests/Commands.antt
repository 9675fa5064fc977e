-- ===== src/Tests/Commands.antt =====
-- Get after a write, and the commands (src/db/db_impl.cpp, cli/parse.cpp) at concrete inputs.
use smallkv.Base.{ℕ, ◌<◌, ◌≡◌, refl, Option, none, some, [], ◌∷◌, arith, ap, length}
use smallkv.Base.Bytes.{Bytes, c_str}
use smallkv.SkipList
use smallkv.SkipList.{SkipList}
use smallkv.Lru.Shape.{find}
use smallkv.MemTable
use smallkv.Cache.{shard_of}
use smallkv.Table.DataBlock.{OffsetInfo}
use smallkv.Db.{Db, open_db, success, delete, get}
use smallkv.Db.Reads.{kept}
use smallkv.Db.Gets.{delete-get}
use smallkv.Base.Codes.{codes}
use smallkv.Cli.{
  syntax_err, count_spaces, get_cmd, del_cmd, ok, notfound, deleted_one, replied, get_answer,
}
use smallkv.Cli.Words.{IsBare}
use smallkv.Cli.Commands.{line, set_line, padded, run}
use smallkv.Cli.Refused.{bad_get, parse_and_exec-Refused}
use smallkv.Cli.Sessions.{set-get, del-get}
use smallkv.Tests.Databases.{
  write_all, whole, write_all-Reliable, ones, seven, first_byte, no_pairs, new_db, new_db-IsOpen,
  written, written_lem, small,
}

-- There is no table file.
abbrev no_sst : (ℕ → Option Bytes) → Option Bytes
no_sst tables = none

abbrev nothing_there : OffsetInfo → Option ℕ
nothing_there at = none

abbrev no_file : ℕ → Bytes
no_file n = []

abbrev eight : ℕ → ℕ
eight n = 8

abbrev two : ℕ → ℕ
two n = 2

-- The memtable after a deletion.
abbrev tombstone : SkipList
tombstone = elim (MemTable.put_tombstone SkipList.init (5 ∷ []) ones) [
  | some t ↦ t
  | none ↦ SkipList.init
]

tombstone_lem : MemTable.put_tombstone new_db.mem_table (5 ∷ []) ones ≡ some tombstone
unfolding open_db MemTable.put_tombstone MemTable.contains MemTable.insert SkipList.init
    SkipList.insert SkipList.contains SkipList.contains_loop SkipList.next_at SkipList.insert_new
    SkipList.find_prev_node SkipList.find_prev_loop SkipList.random_level SkipList.random_level_loop
    SkipList.new_node SkipList.link_loop SkipList.link_at c_str
tombstone_lem = refl

tombstone-small : tombstone.mem_usage < new_db.options.mem_table_max_size
unfolding open_db MemTable.put_tombstone MemTable.contains MemTable.insert SkipList.init
    SkipList.insert SkipList.contains SkipList.contains_loop SkipList.next_at SkipList.insert_new
    SkipList.find_prev_node SkipList.find_prev_loop SkipList.random_level SkipList.random_level_loop
    SkipList.new_node SkipList.link_loop SkipList.link_at c_str
tombstone-small = omega arith

delete-get_example :
    (db' : Db Bytes) × (delete write_all seven first_byte no_file eight two new_db (5 ∷ []) ones
      ≡ some (db', success))
    × (get write_all seven first_byte no_file eight two no_sst nothing_there db' (5 ∷ []) []
        ≡ some (db', [], success))
delete-get_example =
    delete-get write_all seven first_byte no_file eight two whole write_all-Reliable no_sst
      nothing_there new_db [] no_pairs (5 ∷ []) [] ones tombstone new_db-IsOpen tombstone_lem
      tombstone-small (omega arith)

-- A key too many.
two_keys-IsBare : IsBare (codes "get a b")
two_keys-IsBare = record {
  first = 103;
  others = codes "et a b";
  starts = refl;
  starts_with = refl;
  before = codes "get a ";
  last = 98;
  ends = refl;
  ends_with = refl;
}

two_spaces : count_spaces (codes "get a b") ≡ 2
unfolding count_spaces
two_spaces = refl

parse_and_exec-Refused_example :
    run write_all seven first_byte no_file eight two no_sst nothing_there new_db
      (padded 2 (codes "get a b") 1)
      ones
    ≡ some (replied new_db syntax_err)
parse_and_exec-Refused_example =
    parse_and_exec-Refused write_all seven first_byte no_file eight two no_sst nothing_there new_db
      2 1 (codes "get a b") syntax_err ones two_keys-IsBare
      (λ e. absurd (omega (arith, ap length e)))
      (bad_get (omega arith) refl (λ e. absurd (omega (arith, two_spaces, e))))

set-get_example :
    (db' : Db Bytes) × (db'' : Db Bytes) × (run write_all seven first_byte no_file eight two no_sst
        nothing_there new_db
        (padded 1 (set_line (5 ∷ []) (50 ∷ [])) 0)
        ones
      ≡ some (replied db' ok))
    × (run write_all seven first_byte no_file eight two no_sst nothing_there db'
          (padded 1 (line get_cmd (5 ∷ [])) 0)
          ones
        ≡ some (
            replied db'' (
              get_answer
                (kept
                  (find (c_str (5 ∷ [])) (no_pairs (shard_of first_byte (c_str (5 ∷ [])))))
                  (c_str (50 ∷ [])))
                success)))
set-get_example =
    set-get write_all seven first_byte no_file eight two whole write_all-Reliable no_sst
      nothing_there new_db [] no_pairs 5 [] 50 [] 1 0 ones written new_db-IsOpen (refl, tt)
      (refl, tt) (omega arith) written_lem small

del-get_example :
    (db' : Db Bytes) × (run write_all seven first_byte no_file eight two no_sst nothing_there new_db
        (padded 0 (line del_cmd (5 ∷ [])) 2)
        ones
      ≡ some (replied db' deleted_one))
    × (run write_all seven first_byte no_file eight two no_sst nothing_there db'
          (padded 0 (line get_cmd (5 ∷ [])) 2)
          ones
        ≡ some (replied db' notfound))
del-get_example =
    del-get write_all seven first_byte no_file eight two whole write_all-Reliable no_sst
      nothing_there new_db [] no_pairs 5 [] 0 2 ones tombstone new_db-IsOpen (refl, tt)
      (omega arith) tombstone_lem tombstone-small
