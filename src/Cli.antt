-- ===== src/Cli.antt =====
-- The command line (cli/parse.h, cli/parse.cpp): a line of text is a command on the database, and
-- its answer is a text. `none` is a fault of the database. The parameters are those of the database.
-- The constructor of `ParseCMD` is `open_db` and its destructor `close_db`; the string of the caller,
-- which `Trim` changes in place, is not read again.
pub mod Words
pub mod Commands
pub mod Refused
pub mod Sessions
use smallkv.Base.{
  ℕ, zero, suc, ◌+◌, ◌-◌, Bool, true, false, not, Option, none, some, List, [], ◌∷◌, ◌++◌, length,
  take, drop, ltb, ◌==◌, if◌then◌else◌,
}
use smallkv.Base.Maybe.{◌>>=◌}
use smallkv.Base.Bytes.{Bytes, beq}
use smallkv.Base.Codes.{codes}
use smallkv.Table.DataBlock.{OffsetInfo}
use smallkv.Db
use smallkv.Db.{Db, DbStatus, Options, success}
use smallkv.Db.Facade.{db_put, db_delete, db_get, db_close}

abbrev pub space : ℕ
space = 32

-- The place of the first byte that passes, and of the last; `none` for `npos`.
unfoldable pub find_first : (ℕ → Bool) → Bytes → Option ℕ
find_first test [] = none
find_first test (b ∷ bs) =
    let rest = find_first test bs >>= λ i. some (suc i) in if test b then some 0 else rest

unfoldable pub find_last : (ℕ → Bool) → Bytes → Option ℕ
find_last test [] = none
find_last test (b ∷ bs) = elim (find_last test bs) [
  | some i ↦ some (suc i)
  | none ↦ if test b then some 0 else none
]

abbrev pub is_space : ℕ → Bool
is_space b = b == space

abbrev pub is_other : ℕ → Bool
is_other b = not (b == space)

-- One more than a place, and 0 for `npos`, whose successor wraps.
abbrev pub behind : Option ℕ → ℕ
behind none = 0
behind (some i) = suc i

-- `cmd.erase(0, i)`, at `npos` everything.
abbrev pub erase_before : Bytes → Option ℕ → Bytes
erase_before cmd none = []
erase_before cmd (some i) = drop i cmd

unfoldable pub trim : Bytes → Bytes
unfolding find_first find_last
trim cmd =
    let rest = erase_before cmd (find_first is_other cmd) in
    take (behind (find_last is_other rest)) rest

unfoldable pub count_spaces : Bytes → ℕ
count_spaces [] = 0
count_spaces (b ∷ bs) = if b == space then suc (count_spaces bs) else count_spaces bs

-- `CMD_TYPE`
abbrev pub exit_cmd : Bytes
exit_cmd = codes "exit"

abbrev pub set_cmd : Bytes
set_cmd = codes "set"

abbrev pub get_cmd : Bytes
get_cmd = codes "get"

abbrev pub del_cmd : Bytes
del_cmd = codes "del"

-- `ExecStatus`
abbrev pub syntax_err : Bytes
syntax_err = codes "(error) ERR syntax error"

abbrev pub unknown_cmd : Bytes
unknown_cmd = codes "(error) ERR unknown command"

abbrev pub toolong_cmd : Bytes
toolong_cmd = codes "(error) ERR too long command"

abbrev pub ok : Bytes
ok = codes "OK"

abbrev pub notfound : Bytes
notfound = codes "(nil)"

abbrev pub exec_failed : Bytes
exec_failed = codes "(error) ERR exec failed"

abbrev pub deleted_one : Bytes
deleted_one = codes "(integer) 1"

-- The program goes on with an answer, or ends.
pub data Outcome (File : Type 0) : Type 0 where
  replied : (db : Db File) (answer : Bytes) → Outcome File
  exited : (db : Db File) → Outcome File

-- `status != Status::Success`
abbrev pub is_failure : DbStatus → Bool
is_failure success = false
is_failure _ = true

-- The text that `get` answers.
abbrev pub get_answer : Bytes → DbStatus → Bytes
get_answer value status =
    if is_failure status then exec_failed else if length value == 0 then notfound else value

module _ {File : Type 0} (write : File → Bytes → File × Option ℕ) (crc hash : Bytes → ℕ)
    (open_table : ℕ → File) (bits_num optimal : ℕ → ℕ) (find_sst : (ℕ → Option File) → Option Bytes)
    (read_address : OffsetInfo → Option ℕ) where
  unfoldable pub exec_set : Db File → Bytes → (ℕ → ℕ) → Option (Outcome File)
  unfolding count_spaces find_first find_last
  exec_set db cmd rand =
      let first = behind (find_first is_space cmd) in
      let last = behind (find_last is_space cmd) in
      let key = take (last - first - 1) (drop first cmd) in
      if not (count_spaces cmd == 2)
      then some (replied db syntax_err)
      else (db_put write crc hash open_table bits_num optimal db key (drop last cmd) rand
          >>= λ (db', status). some (replied db' (if is_failure status then exec_failed else ok)))

  unfoldable pub exec_get : Db File → Bytes → Option (Outcome File)
  unfolding count_spaces find_first
  exec_get db cmd =
      let key = drop (behind (find_first is_space cmd)) cmd in
      if not (count_spaces cmd == 1)
      then some (replied db syntax_err)
      else (db_get write crc hash open_table bits_num optimal find_sst read_address db key []
          >>= λ (db', value, status). some (replied db' (get_answer value status)))

  unfoldable pub exec_del : Db File → Bytes → (ℕ → ℕ) → Option (Outcome File)
  unfolding count_spaces find_first
  exec_del db cmd rand =
      let key = drop (behind (find_first is_space cmd)) cmd in
      if not (count_spaces cmd == 1)
      then some (replied db syntax_err)
      else (db_delete write crc hash open_table bits_num optimal db key rand >>= λ (db', status).
          some (replied db' (if is_failure status then exec_failed else deleted_one)))

  -- The command by its first three bytes.
  unfoldable pub exec_op : Db File → Bytes → (ℕ → ℕ) → Option (Outcome File)
  unfolding exec_set exec_get exec_del
  exec_op db cmd rand =
      let op = take 3 cmd in
      if beq op set_cmd
      then exec_set db cmd rand
      else if beq op get_cmd
      then exec_get db cmd
      else if beq op del_cmd
      then exec_del db cmd rand
      else some (replied db (unknown_cmd ++ codes ": " ++ op))

  unfoldable pub parse_and_exec : Db File → Bytes → (ℕ → ℕ) → Option (Outcome File)
  unfolding trim exec_op
  parse_and_exec db text rand =
      let cmd = trim text in
      if length cmd == 0
      then some (replied db [])
      else if beq cmd exit_cmd
      then db_close write crc hash open_table bits_num optimal db
        >>= (λ (db', status). some (exited db'))
      else if ltb (length cmd) 3
      then some (replied db (unknown_cmd ++ codes ": " ++ cmd))
      else if ltb 1000 (length cmd)
      then some (replied db toolong_cmd)
      else exec_op db cmd rand
