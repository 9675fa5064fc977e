-- ===== src/Db/Closes.antt =====
-- Close after a sequence of calls of the database (src/db/db_impl.cpp).
use smallkv.Base.Bytes.{Bytes}
use smallkv.Db.{Db}
