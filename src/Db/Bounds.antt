-- ===== src/Db/Bounds.antt =====
-- How large the memory of the specification of the database (src/db/db_impl.cpp) grows between the
-- calls, and what a table of it weighs.
use smallkv.Base.{
  ℕ, ◌+◌, ◌*◌, ◌≤◌, refl, [], ◌∷◌, length, All, leb, arith, inl, inr, Bool-cases, Option-cases,
}
use smallkv.Base.Bytes.{Bytes, c_str}
use smallkv.SkipList.Chain.{Entries}
use smallkv.SkipList.Entries.{insert_entry, add_entry}
use smallkv.SkipList.Delete.{remove_entry}
use smallkv.Lru.Shape.{find}
use smallkv.Cache.{shard_of}
use smallkv.MemTable.Writes.{replace_entry, bytes_of}
use smallkv.Table.Builder.Loads.{weight}
use smallkv.Db.Spec.{
  Store, Storable, Op, put_op, delete_op, get_op, settle, put_pair, delete_key, read_key, apply_op,
}

-- A pair with a key weighs at most 43 times its bytes.
pub weight-bytes_of : (m : Entries) → All Storable m → weight m ≤ 43 * bytes_of m
unfolding weight bytes_of
weight-bytes_of [] a = omega arith
weight-bytes_of (([], v) ∷ m) a = absurd (a.0.0 refl)
weight-bytes_of ((k ∷ ks, v) ∷ m) a = omega (arith, weight-bytes_of m a.1)

insert_entry-bytes :
    (k v : Bytes) (m : Entries) → bytes_of (insert_entry k v m) ≤ bytes_of m + length k + length v
unfolding insert_entry bytes_of
insert_entry-bytes k v [] = omega arith
insert_entry-bytes k v ((j, w) ∷ m) = ground (arith, insert_entry-bytes k v m)

remove_entry-bytes : (k : Bytes) (m : Entries) → bytes_of (remove_entry k m) ≤ bytes_of m
unfolding remove_entry bytes_of
remove_entry-bytes k [] = omega arith
remove_entry-bytes k ((j, w) ∷ m) = ground (arith, remove_entry-bytes k m)

pub replace_entry-bytes :
    (k v : Bytes) (m : Entries) → bytes_of (replace_entry k v m) ≤ bytes_of m + length k + length v
unfolding replace_entry add_entry
replace_entry-bytes k v m =
    ground (arith, remove_entry-bytes k m, insert_entry-bytes k v (remove_entry k m))

-- The limit holds after every call.
module _ (hash : Bytes → ℕ) (room limit : ℕ) where
  settle-within : (s : Store) → bytes_of (settle hash room limit s).memory ≤ limit
  unfolding settle bytes_of
  settle-within s = elim (Bool-cases (leb limit (bytes_of s.memory))) [
    | inl e ↦ rw e (omega arith)
    | inr e ↦ rw e (ground (arith, e))
  ]

  pub apply_op-within :
      (s : Store) (o : Op)
      → bytes_of s.memory ≤ limit
      → bytes_of (apply_op hash room limit s o).0.memory ≤ limit
  unfolding apply_op put_pair delete_key read_key
  apply_op-within s (put_op key value rand) h = settle-within _
  apply_op-within s (delete_op key rand) h = settle-within _
  apply_op-within s (get_op key) h =
      elim (Option-cases (find (c_str key) (s.shards (shard_of hash (c_str key))))) [
        | inl e ↦ rw (e, read_key) h
        | inr (v, e) ↦ rw (e, read_key) h
      ]
