-- ===== src/MemTable/Laws.antt =====
-- What the memtable (src/memtable/memtable.cpp) holds after a write, and what a read then returns.
use smallkv.Base.{
  ℕ, ◌≡◌, sym, ap, ◌∙◌, inl, inr, none, some, List, [], arith, if◌then◌else◌, Option-cases, Option,
  is_some, true,
}
use smallkv.Base.Maybe.{◌>>=◌}
use smallkv.Base.Bytes.{Bytes, beq, beq→eq, beq_self, c_str, c_str-c_str}
use smallkv.SkipList
use smallkv.SkipList.{Ptr, SkipList}
use smallkv.SkipList.Chain.{Represents, Entries, entries, lookup}
use smallkv.SkipList.Search.{contains-lookup, get-lookup}
use smallkv.SkipList.Entries.{add_entry}
use smallkv.SkipList.Delete.{remove_entry, remove_absent}
use smallkv.SkipList.Refine.{Holds, insert-Holds, delete-Holds}
use smallkv.SkipList.Laws.{Represents-Increasing, lookup-add_entry, lookup-remove_entry}
use smallkv.MemTable.{OpType, deletion, add, update, insert, contains, get, put, put_tombstone}

-- The pairs after a write: an update and a deletion replace, an addition does not.
unfoldable pub write_entry : OpType → Bytes → Bytes → Entries → Entries
write_entry add k v m = add_entry k v m
write_entry update k v m = add_entry k v (remove_entry k m)
write_entry deletion k v m = add_entry k [] (remove_entry k m)

-- A deletion of the key, then an insertion.
replace-Holds :
    (t : SkipList) (qs : List Ptr) (key value : Bytes) (rand : ℕ → ℕ)
    → Represents t qs
    → Holds
        (SkipList.delete t key >>= λ t'. SkipList.insert t' key value rand)
        (add_entry key value (remove_entry key (entries t.node qs)))
replace-Holds t qs key value rand r =
    let (t₁, qs₁, run₁, r₁, m₁) = delete-Holds t qs key r in
    let (t₂, qs₂, run₂, r₂, m₂) = insert-Holds t₁ qs₁ key r₁ value rand in
    (t₂, qs₂, rw (run₁, ◌>>=◌) run₂, r₂, m₂ ∙ ap (add_entry key value) m₁)

-- Every kind of write on a well-formed memtable ends without a fault, keeps it well formed, and
-- does to the pairs what the kind says: an addition keeps a pair that is there, an update and a
-- deletion replace it.
pub insert-write_entry :
    (t : SkipList) (qs : List Ptr) (op : OpType) (key value : Bytes) (rand : ℕ → ℕ)
    → Represents t qs
    → Holds
        (insert t op key value rand)
        (write_entry op (c_str key) (c_str value) (entries t.node qs))
unfolding insert write_entry
insert-write_entry t qs add key value rand r = insert-Holds t qs (c_str key) r (c_str value) rand
insert-write_entry t qs update key value rand r =
    replace-Holds t qs (c_str key) (c_str value) rand r
insert-write_entry t qs deletion key value rand r =
    elim (Option-cases (lookup (c_str key) (entries t.node qs))) [
      | inl e ↦
          let (t', qs', run, r', m) = insert-Holds t qs (c_str key) r [] rand in
          (
            t',
            qs',
            rw (contains-lookup t qs (c_str key) r, e, ◌>>=◌) run,
            r',
            m
                ∙ ap (add_entry (c_str key) [])
                    (sym (remove_absent t (c_str key) (entries t.node qs) e)),
          )
      | inr (v, e) ↦
          let (t', qs', run, r', m) = replace-Holds t qs (c_str key) [] rand r in
          (t', qs', rw (contains-lookup t qs (c_str key) r, e, ◌>>=◌) run, r', m)
    ]

-- What is found after the pair has been replaced.
lookup-replaced :
    (t : SkipList) (qs : List Ptr) (k j v : Bytes)
    → Represents t qs
    → lookup j (add_entry k v (remove_entry k (entries t.node qs)))
      ≡ (if beq k j then some v else lookup j (entries t.node qs))
lookup-replaced t qs k j v r = ground (
  arith,
  lookup-add_entry k j v (remove_entry k (entries t.node qs)),
  lookup-remove_entry k j (entries t.node qs) (Represents-Increasing t qs r),
)

-- The same for a key that was not there.
lookup-added :
    (t : SkipList) (qs : List Ptr) (k j v : Bytes)
    → lookup k (entries t.node qs) ≡ none
    → lookup j (add_entry k v (entries t.node qs))
      ≡ (if beq k j then some v else lookup j (entries t.node qs))
lookup-added t qs k j v e = ground (
  arith,
  lookup-add_entry k j v (entries t.node qs),
  beq→eq k j,
  ap (λ i. lookup i (entries t.node qs)),
)

-- The write of Put on a well-formed memtable ends without a fault and keeps it well formed; Get
-- then returns the new value for the key and what it would have returned for every other key; keys
-- and values count up to their first zero bytes.
pub get-put :
    (t : SkipList) (qs : List Ptr) (key value j : Bytes) (rand : ℕ → ℕ)
    → Represents t qs
    → (t' : SkipList) × (qs' : List Ptr) × (put t key value rand ≡ some t')
      × Represents t' qs'
      × (get t' j
          ≡ some (
              if beq (c_str key) (c_str j)
              then some (c_str value)
              else lookup (c_str j) (entries t.node qs)))
unfolding put get contains write_entry
get-put t qs key value j rand r = elim (Option-cases (lookup (c_str key) (entries t.node qs))) [
  | inl e ↦
      let (t', qs', run, r', m) = insert-write_entry t qs add key value rand r in
      (
        t',
        qs',
        rw (contains-lookup t qs (c_str key) r, e, ◌>>=◌) run,
        r',
        get-lookup t' qs' (c_str j) r'
            ∙ ap (λ m. some (lookup (c_str j) m)) m
            ∙ ap some (lookup-added t qs (c_str key) (c_str j) (c_str value) e),
      )
  | inr (v, e) ↦
      let (t', qs', run, r', m) = insert-write_entry t qs update key value rand r in
      (
        t',
        qs',
        rw (contains-lookup t qs (c_str key) r, e, ◌>>=◌) run,
        r',
        get-lookup t' qs' (c_str j) r'
            ∙ ap (λ m. some (lookup (c_str j) m)) m
            ∙ ap some (lookup-replaced t qs (c_str key) (c_str j) (c_str value) r),
      )
]

-- What a read of `j` gives once `key` has the empty value.
abbrev found : Bytes → SkipList → List Ptr → Bytes → Option Bytes
found j t qs key =
    if beq (c_str key) (c_str j) then some [] else lookup (c_str j) (entries t.node qs)

-- The same for the tombstone that Delete writes: the key is then there, with the empty value.
pub get-put_tombstone :
    (t : SkipList) (qs : List Ptr) (key j : Bytes) (rand : ℕ → ℕ)
    → Represents t qs
    → (t' : SkipList) × (qs' : List Ptr) × (put_tombstone t key rand ≡ some t')
      × Represents t' qs'
      × (contains t' j ≡ some (is_some (found j t qs key)))
      × (get t' j ≡ some (found j t qs key))
unfolding put_tombstone get contains write_entry c_str
get-put_tombstone t qs key j rand r = elim (Option-cases (lookup (c_str key) (entries t.node qs))) [
  | inl e ↦
      let (t', qs', run, r', m) = insert-write_entry t qs add key [] rand r in
      let now = ap (lookup (c_str j)) m ∙ lookup-added t qs (c_str key) (c_str j) [] e in
      (
        t',
        qs',
        rw (contains-lookup t qs (c_str key) r, e, ◌>>=◌) run,
        r',
        contains-lookup t' qs' (c_str j) r' ∙ ap (λ o. some (is_some o)) now,
        get-lookup t' qs' (c_str j) r' ∙ ap some now,
      )
  | inr (v, e) ↦
      let (t', qs', run, r', m) = insert-write_entry t qs deletion key [] rand r in
      let now = ap (lookup (c_str j)) m ∙ lookup-replaced t qs (c_str key) (c_str j) [] r in
      (
        t',
        qs',
        rw (contains-lookup t qs (c_str key) r, e, ◌>>=◌) run,
        r',
        contains-lookup t' qs' (c_str j) r' ∙ ap (λ o. some (is_some o)) now,
        get-lookup t' qs' (c_str j) r' ∙ ap some now,
      )
]

-- So the key of a tombstone is present, with the empty value.
pub read_tombstone :
    (t t' : SkipList) (qs : List Ptr) (key : Bytes) (rand : ℕ → ℕ)
    → Represents t qs
    → put_tombstone t key rand ≡ some t'
    → (contains t' key ≡ some true) × (get t' (c_str key) ≡ some (some []))
unfolding get
read_tombstone t t' qs key rand r done =
    let (u, _, run, _, there, at) = get-put_tombstone t qs key key rand r in
    let same : u ≡ t' = cc (run, done) in
    let hit : found key t qs key ≡ some [] = ground (arith, beq_self (c_str key)) in
    (
      ap (λ u. contains u key) (sym same) ∙ there ∙ ap (λ o. some (is_some o)) hit,
      ap (SkipList.get t') (c_str-c_str key)
          ∙ ap (λ u. SkipList.get u (c_str key)) (sym same)
          ∙ at
          ∙ ap some hit,
    )
