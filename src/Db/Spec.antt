-- ===== src/Db/Spec.antt =====
-- What the database (src/db/db_impl.cpp) promises of its calls: the pairs in memory in the order of
-- their keys, the pairs of each cache shard, what the log was given, and the pairs of the tables.
use smallkv.Base.{
  ℕ, ◌≡◌, ◌∙◌, Option, none, some, List, [], ◌∷◌, ◌++◌, leb, if◌then◌else◌, Option-cases, inl, inr,
  sym, ap,
}
use smallkv.Base.Maybe.{◌>>=◌}
use smallkv.Base.Bytes.{Bytes, c_str}
use smallkv.SkipList.Chain.{Entries, lookup}
use smallkv.Lru.Shape
use smallkv.Lru.Shape.{Pairs, find, remove, touch}
use smallkv.MemTable.Writes.{replace_entry, bytes_of}
use smallkv.Cache.{shard_of}
use smallkv.Cache.Shards.{set_pairs}
use smallkv.Table.Builder.Whole.{NamesKey, FitsBlock}
use smallkv.Db.Log.{FitsPair}
use mathlib.Core.Option.{some-injective}
use smallkv.Db.{Db, DbStatus, success, encoded_kv, put, delete, get_memory}

-- `flushed` has the newest table first.
pub record Store : Type 0 where
  pub memory : Entries
  pub shards : ℕ → Pairs Bytes
  pub logged : List Bytes
  pub flushed : List Entries

abbrev pub empty_store : Store
empty_store = record { memory = []; shards = λ i. []; logged = []; flushed = [] }

-- A client's call, with the values that `rand` returns during it, and what it is told.
pub data Op : Type 0 where
  put_op : Bytes → Bytes → (ℕ → ℕ) → Op
  delete_op : Bytes → (ℕ → ℕ) → Op
  get_op : Bytes → Op

pub data Answer : Type 0 where
  wrote : DbStatus → Answer
  read : Option Bytes → Answer

-- The calls in their order, with the answers.
abbrev pub Run : Type 0 → Type 0
Run S = Option (S × List Answer)

module _ {S : Type 0} (step : S → Op → Option (S × Answer)) where
  unfoldable pub run_ops : List Op → S → Run S
  run_ops [] s = some (s, [])
  run_ops (o ∷ os) s = step s o >>= λ (s', a). run_ops os s' >>= λ (s'', rest). some (s'', a ∷ rest)

  -- A run that ends has a first step, and then the run of the other calls.
  pub run_ops-later :
      (o : Op) (ops : List Op) (s s₁ s' : S) (a : Answer) (answers : List Answer)
      → step s o ≡ some (s₁, a)
      → run_ops (o ∷ ops) s ≡ some (s', answers)
      → (answers' : List Answer) × (run_ops ops s₁ ≡ some (s', answers'))
  unfolding run_ops
  run_ops-later o ops s s₁ s' a answers first e =
      let told : S × List Answer → Option (S × List Answer) = λ (t, rest). some (t, a ∷ rest) in
      let round : S × Answer → Option (S × List Answer) =
        λ (t, b). run_ops ops t >>= λ (u, rest). some (u, b ∷ rest) in
      let later : run_ops ops s₁ >>= told ≡ some (s', answers) =
        sym (ap (λ r. r >>= round) first) ∙ e in
      elim (Option-cases (run_ops ops s₁)) [
        | inl f ↦ absurd (cc (sym (ap (λ r. r >>= told) f) ∙ later))
        | inr ((t, rest), f) ↦
            let same : some (t, a ∷ rest) ≡ some (s', answers) =
              sym (ap (λ r. r >>= told) f) ∙ later in
            (rest, f ∙ ap (λ (u : S × List Answer). some (u.0, rest)) (some-injective _ _ same))
      ]

-- The specification: `room` is what a shard holds, and `limit` what the memory holds, in bytes.
module _ (hash : Bytes → ℕ) (room limit : ℕ) where
  -- Pairs that are too large for the memory become a table.
  unfoldable pub settle : Store → Store
  settle s =
      if leb limit (bytes_of s.memory)
      then record s { memory = []; flushed = s.memory ∷ s.flushed }
      else s

  unfoldable pub put_pair : Store → Bytes → Bytes → Store
  unfolding settle
  put_pair s key value =
      let i = shard_of hash (c_str key) in
      settle (record s {
        memory = replace_entry (c_str key) (c_str value) s.memory;
        shards = set_pairs s.shards i (Shape.put room (c_str key) (c_str value) (s.shards i));
        logged = s.logged ++ c_str (encoded_kv key value) ∷ [];
      })

  -- A key is deleted by the empty value, and leaves its shard.
  unfoldable pub delete_key : Store → Bytes → Store
  unfolding settle
  delete_key s key =
      let i = shard_of hash (c_str key) in
      settle (record s {
        memory = replace_entry (c_str key) [] s.memory;
        shards = set_pairs s.shards i (remove (c_str key) (s.shards i));
        logged = s.logged ++ c_str (encoded_kv key []) ∷ [];
      })

  -- A read of a cached key moves it to the front of its shard.
  unfoldable pub read_key : Store → Bytes → Store × Option Bytes
  read_key s key =
      let i = shard_of hash (c_str key) in
      elim (find (c_str key) (s.shards i)) [
        | some v ↦
            (record s { shards = set_pairs s.shards i (touch (c_str key) (s.shards i)) }, some v)
        | none ↦ (s, lookup (c_str key) s.memory)
      ]

  unfoldable pub apply_op : Store → Op → Store × Answer
  unfolding put_pair delete_key read_key
  apply_op s (put_op key value rand) = (put_pair s key value, wrote success)
  apply_op s (delete_op key rand) = (delete_key s key, wrote success)
  apply_op s (get_op key) = let (s', o) = read_key s key in (s', read o)

  abbrev pub spec_step : Store → Op → Option (Store × Answer)
  spec_step s o = some (apply_op s o)

module _ {File : Type 0} (write : File → Bytes → File × Option ℕ) (crc hash : Bytes → ℕ)
    (open_table : ℕ → File) (bits_num optimal : ℕ → ℕ) where
  unfoldable pub run_op : Db File → Op → Option (Db File × Answer)
  run_op db (put_op key value rand) =
      put write crc hash open_table bits_num optimal db key value rand >>= λ (db', status).
      some (db', wrote status)
  run_op db (delete_op key rand) =
      delete write crc hash open_table bits_num optimal db key rand >>= λ (db', status).
      some (db', wrote status)
  run_op db (get_op key) =
      get_memory write crc hash open_table bits_num optimal db key >>= λ (db', found).
      some (db', read found)

-- What a table can store, and the calls that write such pairs.
abbrev pub Storable : Bytes × Bytes → Type 0
Storable e = NamesKey e × FitsBlock e

abbrev pub FitsOp : Op → Type 0
FitsOp (put_op key value rand) = Storable (c_str key, c_str value) × FitsPair key value
FitsOp (delete_op key rand) = Storable (c_str key, []) × FitsPair key []
FitsOp (get_op key) = Unit
