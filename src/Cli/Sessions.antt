-- ===== src/Cli/Sessions.antt =====
-- Commands one after the other (cli/parse.cpp over src/db/db_impl.cpp).
use smallkv.Base.{ℕ, ◌+◌, ◌≤◌, ◌<◌, ◌≡◌, refl, ◌∙◌, Option, some, List, [], ◌∷◌, length, arith}
use smallkv.Base.Maybe.{◌>>=◌}
use smallkv.Base.Bytes.{Bytes, c_str}
use smallkv.SkipList.{Ptr, SkipList}
use smallkv.Lru.Shape.{Pairs, find}
use smallkv.MemTable
use smallkv.Cache.{shard_of}
use smallkv.FileWriter.Append.{Reliable}
use smallkv.Table.DataBlock.{OffsetInfo}
use smallkv.Db.{Db, success}
use smallkv.Db.Reads.{IsOpen, kept}
use smallkv.Db.Gets.{put-get, delete-get}
use smallkv.Cli.{get_cmd, del_cmd, ok, notfound, deleted_one, replied, get_answer}
use smallkv.Cli.Words.{IsWord}
use smallkv.Cli.Commands.{
  line, set_line, padded, run, parse_and_exec-get, parse_and_exec-set, parse_and_exec-del,
}

module _ {File : Type 0} (write : File → Bytes → File × Option ℕ) (crc hash : Bytes → ℕ)
    (open_table : ℕ → File) (bits_num optimal : ℕ → ℕ) (contents : File → Bytes)
    (os : Reliable write contents) (find_sst : (ℕ → Option File) → Option Bytes)
    (read_address : OffsetInfo → Option ℕ) where
  -- On a well-formed, open database whose memtable stays below its limit, over a system whose
  -- writes are complete: for a key and a value without spaces that are not empty and have at most
  -- 995 bytes together, the line of set, with any spaces around it, answers OK, and get of the key
  -- then answers the value that the cache had for the key before, or the new one if it had none
  -- (that there is none, if this is empty); keys and values count up to their first zero bytes.
  pub set-get :
      (db : Db File) (qs : List Ptr) (m : ℕ → Pairs Bytes) (k : ℕ) (ks : Bytes) (v : ℕ) (vs : Bytes)
      (before after : ℕ) (rand : ℕ → ℕ) (t : SkipList)
      → IsOpen db qs m
      → IsWord (k ∷ ks)
      → IsWord (v ∷ vs)
      → length (k ∷ ks) + length (v ∷ vs) ≤ 995
      → MemTable.put db.mem_table (k ∷ ks) (v ∷ vs) rand ≡ some t
      → t.mem_usage < db.options.mem_table_max_size
      → (db' : Db File) × (db'' : Db File) × (run write crc hash open_table bits_num optimal
            find_sst read_address db
            (padded before (set_line (k ∷ ks) (v ∷ vs)) after)
            rand
          ≡ some (replied db' ok))
        × (run write crc hash open_table bits_num optimal find_sst read_address db'
              (padded before (line get_cmd (k ∷ ks)) after)
              rand
            ≡ some (
                replied db'' (
                  get_answer
                    (kept
                      (find (c_str (k ∷ ks)) (m (shard_of hash (c_str (k ∷ ks)))))
                      (c_str (v ∷ vs)))
                    success)))
  set-get db qs m k ks v vs before after rand t d wk wv small written room =
      let (db', db'', done, read) =
        put-get write crc hash open_table bits_num optimal contents os find_sst read_address db qs m
          (k ∷ ks) (v ∷ vs) [] rand t d written room (omega (arith, small)) in
      (
        db',
        db'',
        parse_and_exec-set write crc hash open_table bits_num optimal find_sst read_address db
              before after (k ∷ ks) v vs rand wk wv small
            ∙ rw (done, ◌>>=◌) refl,
        parse_and_exec-get write crc hash open_table bits_num optimal find_sst read_address db'
              before after k ks rand wk (omega arith)
            ∙ rw (read, ◌>>=◌) refl,
      )

  -- On a well-formed, open database whose memtable stays below its limit, over a system whose
  -- writes are complete: for a key without spaces of 1 to 996 bytes, the line of del, with any
  -- spaces around it, answers that one was deleted, and get of the key then answers that there is
  -- none.
  pub del-get :
      (db : Db File) (qs : List Ptr) (m : ℕ → Pairs Bytes) (k : ℕ) (ks : Bytes) (before after : ℕ)
      (rand : ℕ → ℕ) (t : SkipList)
      → IsOpen db qs m
      → IsWord (k ∷ ks)
      → length (k ∷ ks) ≤ 996
      → MemTable.put_tombstone db.mem_table (k ∷ ks) rand ≡ some t
      → t.mem_usage < db.options.mem_table_max_size
      → (db' : Db File) × (run write crc hash open_table bits_num optimal find_sst read_address db
            (padded before (line del_cmd (k ∷ ks)) after)
            rand
          ≡ some (replied db' deleted_one))
        × (run write crc hash open_table bits_num optimal find_sst read_address db'
              (padded before (line get_cmd (k ∷ ks)) after)
              rand
            ≡ some (replied db' notfound))
  del-get db qs m k ks before after rand t d wk small written room =
      let (db', done, read) =
        delete-get write crc hash open_table bits_num optimal contents os find_sst read_address db
          qs m (k ∷ ks) [] rand t d written room (omega (arith, small)) in
      (
        db',
        parse_and_exec-del write crc hash open_table bits_num optimal find_sst read_address db
              before after k ks rand wk small
            ∙ rw (done, ◌>>=◌) refl,
        parse_and_exec-get write crc hash open_table bits_num optimal find_sst read_address db'
              before after k ks rand wk small
            ∙ rw (read, ◌>>=◌) refl,
      )
