-- ===== src/Db/Refine.antt =====
-- What it means that the database (src/db/db_impl.cpp) stands for a state of its specification, and
-- the step from a memtable to a table.
use smallkv.Base.{
  ℕ, ◌^◌, ◌+◌, ◌<◌, ◌≤◌, ◌≡◌, ◌≢◌, refl, sym, ap, ◌∙◌, false, Option, some, List, [], ◌∷◌, ◌++◌,
  length, All, leb, arith, append_assoc, append-nil, inl, inr, Bool-cases, if_true, if_false,
}
use smallkv.Base.Maybe.{◌>>=◌}
use smallkv.Base.Bytes.{Bytes}
use smallkv.SkipList
use smallkv.SkipList.{Ptr, SkipList}
use smallkv.SkipList.Chain.{Represents, Entries, entries}
use smallkv.SkipList.Refine.{init-Represents}
use smallkv.MemTable.Writes.{bytes_of, usage-bytes_of}
use smallkv.Cache.Shards.{IsCache}
use smallkv.FileWriter.Append.{IsValid, Reliable}
use smallkv.Wal.Recover.{log_record, log_records}
use smallkv.Table.Builder.Whole.{NamesKey, TableOf, table_limit}
use smallkv.Table.Builder.Loads.{weight}
use smallkv.Db.{Db, check_size, mem_table_to_sst}
use smallkv.Db.Flush.{saved, mem_table_to_sst-TableOf}
use smallkv.Db.Spec.{Store, Storable, settle}
use mathlib.Core.Path.{subst}

pub log_records-append :
    (crc : Bytes → ℕ) (bs : List Bytes) (b : Bytes)
    → log_records crc (bs ++ b ∷ []) ≡ log_records crc bs ++ log_record crc b
unfolding log_records
log_records-append crc [] b = append-nil (log_record crc b)
log_records-append crc (c ∷ bs) b =
    ap (λ t. log_record crc c ++ t) (log_records-append crc bs b)
    ∙ sym (append_assoc (log_record crc c) (log_records crc bs) (log_record crc b))

all_named : (m : Entries) → All Storable m → All NamesKey m
all_named [] a = tt
all_named (e ∷ m) a = (a.0.0, all_named m a.1)

pub first_of :
    (m : Entries) → m ≢ [] → (k : Bytes) × (v : Bytes) × (rest : Entries) × (m ≡ (k, v) ∷ rest)
first_of [] h = absurd (h refl)
first_of ((k, v) ∷ m) h = (k, v, m, refl)

module _ {File : Type 0} (write : File → Bytes → File × Option ℕ) (crc : Bytes → ℕ)
    (contents : File → Bytes) where
  -- The tables that were written, the newest first, with numbers from `first` on.
  pub record Tabled (tables : ℕ → Option File) (n : ℕ) (m : Entries) : Type 0 where
    pub file : File
    pub stands : tables n ≡ some file
    pub holds : TableOf write contents (contents file) m

  abbrev pub Tables : (ℕ → Option File) → ℕ → List Entries → Type 0
  Tables tables first [] = Unit
  Tables tables first (m ∷ ms) = Tabled tables (first + length ms) m × Tables tables first ms

  -- The database is open and well formed, and stands for this store.
  pub record Refines (room limit first : ℕ) (db : Db File) (s : Store) : Type 0 where
    pub nodes : List Ptr
    pub mem : Represents db.mem_table nodes
    pub memory : entries db.mem_table.node nodes ≡ s.memory
    pub cached : IsCache db.cache s.shards
    pub roomy : (i : ℕ) → (db.cache i).cap ≡ room
    pub wal : IsValid db.wal_writer
    pub synced : db.wal_writer.buffer_offset ≡ 0
    pub logged : contents db.wal_writer.file ≡ log_records crc s.logged
    pub usable : db.closed ≡ false
    pub limited : db.options.mem_table_max_size ≡ limit
    pub numbered : db.options.l1_sst_num ≡ first + length s.flushed
    pub tables : Tables db.tables first s.flushed
    pub storable : All Storable s.memory
    pub weighs : weight s.memory ≤ table_limit

  -- A table with a higher number leaves the others alone.
  Tables-below :
      (old new : ℕ → Option File) (first : ℕ) (ms : List Entries)
      → ((i : ℕ) → i < first + length ms → new i ≡ old i)
      → Tables old first ms
      → Tables new first ms
  Tables-below old new first [] same t = tt
  Tables-below old new first (m ∷ ms) same t = (
    record {
      file = t.0.file;
      stands = same (first + length ms) (omega arith) ∙ t.0.stands;
      holds = t.0.holds;
    },
    Tables-below old new first ms (λ i h. same i (omega arith)) t.1,
  )

  module _ (os : Reliable write contents) (hash : Bytes → ℕ) (open_table : ℕ → File)
      (bits_num optimal : ℕ → ℕ) (fresh_file : (n : ℕ) → contents (open_table n) ≡ [])
      (some_bits : (n : ℕ) → 0 < n → (0 < bits_num n) × (bits_num n < 2 ^ 31))
      (room limit first : ℕ) where
    -- The memtable becomes a table.
    pub flushed-Refines :
        (db : Db File) (s : Store) (k v : Bytes) (rest : Entries)
        → Refines room limit first db s
        → s.memory ≡ (k, v) ∷ rest
        → (file : File) × (mem_table_to_sst write crc hash open_table bits_num optimal db
            ≡ some (saved db file))
          × Refines room limit first
              (record (saved db file) { mem_table = SkipList.init })
              (record s { memory = []; flushed = s.memory ∷ s.flushed })
    unfolding entries weight
    flushed-Refines db s k v rest r e =
        let stored : All Storable ((k, v) ∷ rest) = subst (All Storable) e r.storable in
        let (file, run, table) =
          mem_table_to_sst-TableOf write open_table bits_num optimal contents os fresh_file
            some_bits crc hash db r.nodes k v rest r.mem (r.memory ∙ e)
            (stored.0.0, all_named rest stored.1) stored.0.1
            (subst (λ m. weight m ≤ table_limit) e r.weighs) in
        (
          file,
          run,
          record {
            nodes = [];
            mem = init-Represents;
            memory = refl;
            cached = r.cached;
            roomy = r.roomy;
            wal = r.wal;
            synced = r.synced;
            logged = r.logged;
            usable = r.usable;
            limited = r.limited;
            numbered = omega (arith, r.numbered);
            tables = (
              record {
                file = file;
                stands = ground (arith, r.numbered);
                holds = subst (TableOf write contents (contents file)) r.memory table;
              },
              Tables-below db.tables _ first s.flushed (λ i h. ground (arith, r.numbered, h))
                  r.tables,
            );
            storable = tt;
            weighs = omega arith;
          },
        )

    -- The memtable becomes a table, if it is too large.
    pub check_size-settle :
        (db : Db File) (s : Store)
        → Refines room limit first db s
        → s.memory ≢ []
        → (db' : Db File) × (check_size write crc hash open_table bits_num optimal db ≡ some db')
          × Refines room limit first db' (settle hash room limit s)
    unfolding check_size settle
    check_size-settle db s r some_pair =
        let size : db.mem_table.mem_usage ≡ bytes_of s.memory =
          r.mem.mem_usage ∙ usage-bytes_of db.mem_table.node r.nodes ∙ ap bytes_of r.memory in
        let same : leb db.options.mem_table_max_size db.mem_table.mem_usage
            ≡ leb limit (bytes_of s.memory) =
          ap (λ n. leb n db.mem_table.mem_usage) r.limited ∙ ap (leb limit) size in
        let renewed : Db File → Option (Db File) =
          λ db'. some (record db' { mem_table = SkipList.init }) in
        elim (Bool-cases (leb limit (bytes_of s.memory))) [
          | inl e ↦
              let (k, v, rest, first_pair) = first_of s.memory some_pair in
              let (file, run, r') = flushed-Refines db s k v rest r first_pair in
              (
                record (saved db file) { mem_table = SkipList.init },
                if_true _ _ _ (same ∙ e) ∙ ap (λ o. o >>= renewed) run,
                rw e r',
              )
          | inr e ↦ (db, if_false _ _ _ (same ∙ e), rw e r)
        ]
