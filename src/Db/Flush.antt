-- ===== src/Db/Flush.antt =====
-- The memtable as a table file (src/db/db_impl.cpp, MemTableToSST), through the iterator of the skip
-- list and the builder of tables.
use smallkv.Base.{
  ℕ, zero, suc, ◌+◌, ◌*◌, ◌/◌, ◌^◌, ◌<◌, ◌≤◌, ◌≡◌, refl, sym, ◌∙◌, Option, some, List, [], ◌∷◌,
  length, replicate, All, ◌==◌, if◌then◌else◌, arith, length-replicate,
}
use smallkv.Base.Maybe.{◌>>=◌}
use smallkv.Base.Bytes.{Bytes}
use smallkv.Bloom.{make_filter}
use smallkv.Bloom.Members.{IsByte}
use smallkv.SkipList.{Ptr, Node, SkipList}
use smallkv.SkipList.Chain.{Represents, Entries, entries}
use smallkv.SkipList.Laws.{Increasing, Represents-Increasing}
use smallkv.SkipList.Iterator.{each-entries}
use smallkv.MemTable.{convert}
use smallkv.FileWriter.{open_writer}
use smallkv.FileWriter.Append.{Reliable, log, log_flushed, open_writer-IsValid}
use smallkv.Table.FilterBlock
use smallkv.Table.FilterBlock.{FilterBlockBuilder}
use smallkv.Table.Builder
use smallkv.Table.Builder.{SsTableBuilder, add_pair, finish_sst}
use smallkv.Table.Builder.Whole.{
  NamesKey, FitsBlock, table_limit, TableOf, make_builder-each_entry, finish_sst-TableOf,
}
use smallkv.Table.Builder.Loads.{weight}
use smallkv.Db.{Db, mem_table_to_sst}
use mathlib.Core.Path.{subst}

zeros-IsByte : (n : ℕ) → All IsByte (replicate n 0)
unfolding replicate
zeros-IsByte zero = tt
zeros-IsByte (suc n) = (omega arith, zeros-IsByte n)

-- A new filter has no bit set, and room.
make_filter-bits :
    (keys_num bits_num : ℕ) (optimal : ℕ → ℕ)
    → (0 < bits_num) × (bits_num < 2 ^ 31)
    → All IsByte (make_filter keys_num bits_num optimal).bits_array
      × (0 < length (make_filter keys_num bits_num optimal).bits_array)
      × (length (make_filter keys_num bits_num optimal).bits_array * 8 < 2 ^ 32)
unfolding make_filter
make_filter-bits keys_num bits_num optimal h =
    let size = length-replicate {A = ℕ} ((bits_num + 7) / 8) 0 in
    (zeros-IsByte _, omega (arith, h, size), omega (arith, h, size))

some_nodes :
    (nd : Ptr → Node) (qs : List Ptr) (e : Bytes × Bytes) (m : Entries)
    → entries nd qs ≡ e ∷ m
    → 0 < length qs
unfolding entries
some_nodes nd [] e m h = absurd (cc h)
some_nodes nd (q ∷ qs) e m h = omega arith

-- The database with one more table, of this file.
abbrev pub saved : {File : Type 0} → Db File → File → Db File
saved db file = record db {
  options = record db.options { l1_sst_num = db.options.l1_sst_num + 1 };
  tables = λ i. if i == db.options.l1_sst_num then some file else db.tables i;
}

module _ {File : Type 0} (write : File → Bytes → File × Option ℕ) (open_table : ℕ → File)
    (bits_num optimal : ℕ → ℕ) (contents : File → Bytes) where
  module _ (os : Reliable write contents) (fresh_file : (n : ℕ) → contents (open_table n) ≡ [])
      (some_bits : (n : ℕ) → 0 < n → (0 < bits_num n) × (bits_num n < 2 ^ 31)) where
    -- The loop and the end of the table, for the pairs of the memtable.
    convert-TableOf :
        (t : SkipList) (qs : List Ptr) (n : ℕ) (k v : Bytes) (rest : Entries)
        → Represents t qs
        → entries t.node qs ≡ (k, v) ∷ rest
        → 0 < t.size
        → All NamesKey ((k, v) ∷ rest)
        → FitsBlock (k, v)
        → weight ((k, v) ∷ rest) ≤ table_limit
        → let fresh = FilterBlock.make_builder t.size (bits_num t.size) optimal in
          (b : SsTableBuilder File) × (convert
              (add_pair write)
              (finish_sst write fresh)
              t
              (Builder.make_builder fresh (open_writer (open_table n)))
            ≡ some b)
          × TableOf write contents (contents b.writer.file) ((k, v) ∷ rest)
    unfolding convert FilterBlock.make_builder open_writer
    convert-TableOf t qs n k v rest r e more named fits light =
        let fresh = FilterBlock.make_builder t.size (bits_num t.size) optimal in
        let w = open_writer (open_table n) in
        let sorted = subst Increasing e (Represents-Increasing t qs r) in
        let nothing : log write contents w ≡ [] =
          log_flushed write contents w refl ∙ fresh_file n in
        let (bytes, room, few) =
          make_filter-bits t.size (bits_num t.size) optimal (some_bits t.size more) in
        let (b₁, run₁, t₁) =
          make_builder-each_entry write contents os fresh w k v rest
            (open_writer-IsValid (open_table n)) nothing refl sorted named fits
            (omega (arith, light)) in
        let (b₂, run₂, (table, _), _) =
          finish_sst-TableOf write contents os fresh fresh.filter_policy b₁ k v rest t₁ named bytes
            room few light in
        (
          b₂,
          rw (each-entries (add_pair write) t qs (Builder.make_builder fresh w) r, e)
              (rw (run₁, ◌>>=◌) run₂),
          table,
        )

    pub mem_table_to_sst-TableOf :
        (crc hash : Bytes → ℕ) (db : Db File) (qs : List Ptr) (k v : Bytes) (rest : Entries)
        → Represents db.mem_table qs
        → entries db.mem_table.node qs ≡ (k, v) ∷ rest
        → All NamesKey ((k, v) ∷ rest)
        → FitsBlock (k, v)
        → weight ((k, v) ∷ rest) ≤ table_limit
        → (file : File) × (mem_table_to_sst write crc hash open_table bits_num optimal db
            ≡ some (saved db file))
          × TableOf write contents (contents file) (entries db.mem_table.node qs)
    unfolding mem_table_to_sst
    mem_table_to_sst-TableOf crc hash db qs k v rest r e named fits light =
        let more : 0 < db.mem_table.size =
          omega (arith, r.size, some_nodes db.mem_table.node qs (k, v) rest e) in
        let (b, run, table) =
          convert-TableOf db.mem_table qs db.options.l1_sst_num k v rest r e more named fits
            light in
        (
          b.writer.file,
          rw (run, ◌>>=◌) refl,
          subst (TableOf write contents (contents b.writer.file)) (sym e) table,
        )
