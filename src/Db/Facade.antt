-- ===== src/Db/Facade.antt =====
-- The database that the command line holds (src/db/db.h, src/db/db.cpp): each call is passed on.
use smallkv.Base.{ℕ, Option}
use smallkv.Base.Bytes.{Bytes}
use smallkv.Table.DataBlock.{OffsetInfo}
use smallkv.Db.{Db, DbStatus, Options, open_db, put, delete, get, batch_put, batch_delete, close_db}

abbrev pub make_db : {File : Type 0} → Options → File → Db File
make_db options wal = open_db options wal

module _ {File : Type 0} (write : File → Bytes → File × Option ℕ) (crc hash : Bytes → ℕ)
    (open_table : ℕ → File) (bits_num optimal : ℕ → ℕ) where
  abbrev pub db_put : Db File → Bytes → Bytes → (ℕ → ℕ) → Option (Db File × DbStatus)
  db_put db key value rand = put write crc hash open_table bits_num optimal db key value rand

  abbrev pub db_delete : Db File → Bytes → (ℕ → ℕ) → Option (Db File × DbStatus)
  db_delete db key rand = delete write crc hash open_table bits_num optimal db key rand

  abbrev pub db_get :
      ((ℕ → Option File) → Option Bytes)
      → (OffsetInfo → Option ℕ)
      → Db File
      → Bytes
      → Bytes
      → Option (Db File × Bytes × DbStatus)
  db_get find_sst read_address db key ret =
      get write crc hash open_table bits_num optimal find_sst read_address db key ret

  abbrev pub db_batch_put : Db File → Option DbStatus
  db_batch_put db = batch_put write crc hash open_table bits_num optimal db

  abbrev pub db_batch_delete : Db File → Option DbStatus
  db_batch_delete db = batch_delete write crc hash open_table bits_num optimal db

  abbrev pub db_close : Db File → Option (Db File × DbStatus)
  db_close db = close_db write crc hash open_table bits_num optimal db
