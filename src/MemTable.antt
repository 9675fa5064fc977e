-- ===== src/MemTable.antt =====
-- The memtable (src/memtable/memtable.h, src/memtable/memtable.cpp, src/memtable/op_type.h): a skip
-- list of strings. A `string_view` goes to the skip list as `data()`, so it is read up to its first
-- zero byte: `c_str`. The text behind a view is taken to end in a zero byte.
pub mod Laws
pub mod Writes
use smallkv.Base.{ℕ, Bool, true, false, Option, none, some, List, [], ◌∷◌, if◌then◌else◌}
use smallkv.Base.Maybe.{◌>>=◌}
use smallkv.Base.Bytes.{Bytes, c_str}
use smallkv.SkipList
use smallkv.SkipList.{SkipList}
use smallkv.SkipList.Iterator.{each}

pub data OpType : Type 0 where
  deletion : OpType
  add : OpType
  update : OpType

-- `rand` is what `rand()` returns during the call.
unfoldable pub insert : SkipList → OpType → Bytes → Bytes → (ℕ → ℕ) → Option SkipList
insert t add key value rand = SkipList.insert t (c_str key) (c_str value) rand
insert t update key value rand =
    SkipList.delete t (c_str key) >>= λ t'. SkipList.insert t' (c_str key) (c_str value) rand
insert t deletion key value rand = SkipList.contains t (c_str key) >>= λ present.
    (if present then SkipList.delete t (c_str key) else some t) >>= λ t'.
    SkipList.insert t' (c_str key) [] rand

unfoldable pub contains : SkipList → Bytes → Option Bool
contains t key = SkipList.contains t (c_str key)

unfoldable pub get : SkipList → Bytes → Option (Option Bytes)
get t key = SkipList.get t (c_str key)

abbrev pub add_pair : SkipList → Bytes → Bytes → (ℕ → ℕ) → Option SkipList
add_pair t key value rand = insert t add key value rand

abbrev pub update_pair : SkipList → Bytes → Bytes → (ℕ → ℕ) → Option SkipList
update_pair t key value rand = insert t update key value rand

abbrev pub delete_key : SkipList → Bytes → (ℕ → ℕ) → Option SkipList
delete_key t key rand = insert t deletion key [] rand

-- How `DBImpl::Put` writes a pair: `Update` for a key that is there, else `Add`.
unfoldable pub put : SkipList → Bytes → Bytes → (ℕ → ℕ) → Option SkipList
unfolding contains
put t key value rand = contains t key >>= λ present.
    if present then update_pair t key value rand else add_pair t key value rand

-- How `DBImpl::Delete` writes a tombstone: the empty value.
unfoldable pub put_tombstone : SkipList → Bytes → (ℕ → ℕ) → Option SkipList
unfolding contains
put_tombstone t key rand =
    contains t key >>= λ present. if present then delete_key t key rand else add_pair t key [] rand

-- `ConvertToL1SST`, with the table builder as a state that `add` and `finish` change.
unfoldable pub convert :
    {S : Type 0} → (S → Bytes → Bytes → Option S) → (S → Option S) → SkipList → S → Option S
convert add_pair finish t s = each add_pair t s >>= finish
