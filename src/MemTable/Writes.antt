-- ===== src/MemTable/Writes.antt =====
-- The writes of `Put` and of `Delete` on the memtable (src/db/db_impl.cpp over
-- src/memtable/memtable.cpp), on the pairs that it holds.
use smallkv.Base.{
  ℕ, Bool, true, false, ◌+◌, ◌≡◌, ◌≢◌, refl, sym, ap, ◌∙◌, inl, inr, none, List, [], ◌∷◌, length,
  All, arith, is_some, if◌then◌else◌, Option-cases,
}
use smallkv.Base.Maybe.{◌>>=◌}
use smallkv.Base.Bytes.{Bytes, Order, lt, eq, gt, compare_bytes, c_str}
use smallkv.SkipList.{Ptr, Node, SkipList}
use smallkv.SkipList.Chain.{Represents, Entries, entries, lookup, usage}
use smallkv.SkipList.Search.{contains-lookup}
use smallkv.SkipList.Entries.{insert_entry, add_entry}
use smallkv.SkipList.Delete.{remove_entry, remove_absent}
use smallkv.SkipList.Refine.{Holds}
use smallkv.MemTable.{deletion, add, update, contains, put, put_tombstone}
use smallkv.MemTable.Laws.{write_entry, insert-write_entry}

-- The pairs with the pair of a key replaced, or put in its place.
unfoldable pub replace_entry : Bytes → Bytes → Entries → Entries
replace_entry k v m = add_entry k v (remove_entry k m)

-- A key that is not there has nothing to remove.
added-replaced :
    (t : SkipList) (qs : List Ptr) (k v : Bytes)
    → lookup k (entries t.node qs) ≡ none
    → add_entry k v (entries t.node qs) ≡ replace_entry k v (entries t.node qs)
unfolding replace_entry
added-replaced t qs k v e = ap (add_entry k v) (sym (remove_absent t k (entries t.node qs) e))

pub put-replace_entry :
    (t : SkipList) (qs : List Ptr) (key value : Bytes) (rand : ℕ → ℕ)
    → Represents t qs
    → Holds (put t key value rand) (replace_entry (c_str key) (c_str value) (entries t.node qs))
unfolding put contains write_entry replace_entry
put-replace_entry t qs key value rand r =
    elim (Option-cases (lookup (c_str key) (entries t.node qs))) [
      | inl e ↦
          let (t', qs', run, r', m) = insert-write_entry t qs add key value rand r in
          (
            t',
            qs',
            rw (contains-lookup t qs (c_str key) r, e, ◌>>=◌) run,
            r',
            m ∙ added-replaced t qs (c_str key) (c_str value) e,
          )
      | inr (v, e) ↦
          let (t', qs', run, r', m) = insert-write_entry t qs update key value rand r in
          (t', qs', rw (contains-lookup t qs (c_str key) r, e, ◌>>=◌) run, r', m)
    ]

pub put_tombstone-replace_entry :
    (t : SkipList) (qs : List Ptr) (key : Bytes) (rand : ℕ → ℕ)
    → Represents t qs
    → Holds (put_tombstone t key rand) (replace_entry (c_str key) [] (entries t.node qs))
unfolding put_tombstone contains write_entry replace_entry c_str
put_tombstone-replace_entry t qs key rand r =
    elim (Option-cases (lookup (c_str key) (entries t.node qs))) [
      | inl e ↦
          let (t', qs', run, r', m) = insert-write_entry t qs add key [] rand r in
          (
            t',
            qs',
            rw (contains-lookup t qs (c_str key) r, e, ◌>>=◌) run,
            r',
            m ∙ added-replaced t qs (c_str key) [] e,
          )
      | inr (v, e) ↦
          let (t', qs', run, r', m) = insert-write_entry t qs deletion key [] rand r in
          (t', qs', rw (contains-lookup t qs (c_str key) r, e, ◌>>=◌) run, r', m)
    ]

-- A pair is there afterwards.
insert_entry-some : (k v : Bytes) (m : Entries) → insert_entry k v m ≢ []
unfolding insert_entry
insert_entry-some k v [] e = cc e
insert_entry-some k v ((j, w) ∷ m) e = ground (arith, e)

pub replace_entry-some : (k v : Bytes) (m : Entries) → replace_entry k v m ≢ []
unfolding replace_entry add_entry lookup
replace_entry-some k v m = added (remove_entry k m)
  where
    added : (n : Entries) → add_entry k v n ≢ []
    added [] e = insert_entry-some k v [] e
    added ((j, w) ∷ n) e = ground (arith, e, insert_entry-some k v ((j, w) ∷ n))

module _ (P : Bytes × Bytes → Type 0) where
  All-insert_entry : (k v : Bytes) (m : Entries) → P (k, v) → All P m → All P (insert_entry k v m)
  unfolding insert_entry
  All-insert_entry k v [] p a = (p, tt)
  All-insert_entry k v ((j, w) ∷ m) p a = go (compare_bytes j k) (All-insert_entry k v m p a.1)
    where
      go :
          (o : Order)
          → All P (insert_entry k v m)
          → All P (elim o [ lt ↦ (j, w) ∷ insert_entry k v m | _ ↦ (k, v) ∷ (j, w) ∷ m ])
      go lt r = (a.0, r)
      go eq r = (p, a)
      go gt r = (p, a)

  All-remove_entry : (k : Bytes) (m : Entries) → All P m → All P (remove_entry k m)
  unfolding remove_entry
  All-remove_entry k [] a = tt
  All-remove_entry k ((j, w) ∷ m) a = go (compare_bytes j k) (All-remove_entry k m a.1)
    where
      go :
          (o : Order)
          → All P (remove_entry k m)
          → All P (elim o [ eq ↦ m | _ ↦ (j, w) ∷ remove_entry k m ])
      go lt r = (a.0, r)
      go eq r = a.1
      go gt r = (a.0, r)

  -- What all pairs and the new one have, all pairs have afterwards.
  pub All-replace_entry :
      (k v : Bytes) (m : Entries) → P (k, v) → All P m → All P (replace_entry k v m)
  unfolding replace_entry add_entry
  All-replace_entry k v m p a = go (is_some (lookup k (remove_entry k m)))
    where
      go : (b : Bool) → All P (if b then remove_entry k m else insert_entry k v (remove_entry k m))
      go true = All-remove_entry k m a
      go false = All-insert_entry k v (remove_entry k m) p (All-remove_entry k m a)

-- The bytes of the keys and the values.
unfoldable pub bytes_of : Entries → ℕ
bytes_of [] = 0
bytes_of ((k, v) ∷ m) = length k + length v + bytes_of m

pub usage-bytes_of : (nd : Ptr → Node) (qs : List Ptr) → usage nd qs ≡ bytes_of (entries nd qs)
unfolding usage entries bytes_of
usage-bytes_of nd [] = refl
usage-bytes_of nd (q ∷ qs) = omega (arith, usage-bytes_of nd qs)
