-- ===== src/SkipList/Laws.antt =====
-- What can be looked up in the ordered pairs after an insertion or a removal: the specification of
-- src/memtable/skiplist.h read through `Get`.
use smallkv.Base.{
  ℕ, ◌≡◌, refl, sym, ap, ◌∙◌, Option, none, some, List, [], ◌∷◌, All, arith, is_some, if◌then◌else◌,
}
use mathlib.Core.Option.{some-injective}
use smallkv.Base.Bytes.{Bytes, lt, compare_bytes, beq, compare_bytes-eq, compare_bytes_self}
use smallkv.SkipList.{Ptr, SkipList, insert, delete, get}
use smallkv.SkipList.Search.{get-lookup}
use smallkv.SkipList.Refine.{insert-Holds, delete-Holds}
use smallkv.SkipList.Chain.{Ordered, Represents, Above, Entries, entries, lookup}
use smallkv.SkipList.Entries.{insert_entry, add_entry}
use smallkv.SkipList.Delete.{remove_entry}

-- The keys increase strictly.
abbrev pub Increasing : Entries → Type 0
Increasing [] = Unit
Increasing ((k, v) ∷ m) = All (λ e. compare_bytes k e.0 ≡ lt) m × Increasing m

pub entries-Increasing :
    (l : SkipList) (qs : List Ptr) → Ordered l qs → Increasing (entries l.node qs)
unfolding entries
entries-Increasing l [] o = tt
entries-Increasing l (q ∷ qs) o = (above qs o.0, entries-Increasing l qs o.1)
  where
    above :
        (rs : List Ptr)
        → All (Above l (l.node q).key) rs
        → All (λ e. compare_bytes (l.node q).key e.0 ≡ lt) (entries l.node rs)
    above [] a = tt
    above (r ∷ rs) a = (a.0, above rs a.1)

lookup-insert_entry :
    (k j v : Bytes) (m : Entries)
    → lookup j (insert_entry k v m) ≡ (if beq k j then some v else lookup j m)
unfolding lookup insert_entry beq
lookup-insert_entry k j v [] = ground arith
lookup-insert_entry k j v ((i, w) ∷ m) = ground (
  arith,
  lookup-insert_entry k j v m,
  compare_bytes-eq i j,
  compare_bytes-eq k j,
  compare_bytes_self j,
)

-- A key that is there keeps its value; a new one gets the value given.
pub lookup-add_entry :
    (k j v : Bytes) (m : Entries)
    → lookup j (add_entry k v m)
      ≡ (if beq k j then (if is_some (lookup j m) then lookup j m else some v) else lookup j m)
unfolding add_entry beq
lookup-add_entry k j v m = ground (arith, lookup-insert_entry k j v m, compare_bytes-eq k j)

not_found_above :
    (j : Bytes) (m : Entries) → All (λ e. compare_bytes j e.0 ≡ lt) m → lookup j m ≡ none
unfolding lookup
not_found_above j [] a = refl
not_found_above j ((k, v) ∷ m) a =
    ground (arith, not_found_above j m a.1, compare_bytes-eq k j, compare_bytes_self j, a.0)

-- A removed key is gone, and no other.
pub lookup-remove_entry :
    (k j : Bytes) (m : Entries)
    → Increasing m
    → lookup j (remove_entry k m) ≡ (if beq k j then none else lookup j m)
unfolding lookup remove_entry beq
lookup-remove_entry k j [] s = ground arith
lookup-remove_entry k j ((i, w) ∷ m) s = ground (
  arith,
  lookup-remove_entry k j m s.1,
  compare_bytes-eq i j,
  compare_bytes-eq k j,
  compare_bytes-eq i k,
  compare_bytes_self j,
  compare_bytes_self i,
  not_found_above i m s.0,
)

-- The entries that a represented list holds increase.
pub Represents-Increasing :
    (l : SkipList) (qs : List Ptr) → Represents l qs → Increasing (entries l.node qs)
Represents-Increasing l qs r = entries-Increasing l qs r.ordered

-- After Insert on a well-formed list, Get returns the value given for the key if it was new, and
-- what it returned before for every other key and for a key that was there.
pub get-insert :
    (l : SkipList) (qs : List Ptr) (key value j : Bytes) (rand : ℕ → ℕ) (found : Option Bytes)
    → Represents l qs
    → get l j ≡ some found
    → (l' : SkipList) × (insert l key value rand ≡ some l')
      × (get l' j
          ≡ some (if beq key j then (if is_some found then found else some value) else found))
get-insert l qs key value j rand found r before =
    let (l', qs', run, r', m) = insert-Holds l qs key r value rand in
    let same : found ≡ lookup j (entries l.node qs) =
      some-injective _ _ (sym before ∙ get-lookup l qs j r) in
    (
      l',
      run,
      get-lookup l' qs' j r'
          ∙ ap (λ t. some (lookup j t)) m
          ∙ ap some (lookup-add_entry key j value (entries l.node qs))
          ∙ ap (λ o. some (if beq key j then (if is_some o then o else some value) else o))
              (sym same),
    )

-- After Delete on a well-formed list, Get returns nothing for the key, and for every other key what
-- it returned before.
pub get-delete :
    (l : SkipList) (qs : List Ptr) (key j : Bytes) (found : Option Bytes)
    → Represents l qs
    → get l j ≡ some found
    → (l' : SkipList) × (delete l key ≡ some l')
      × (get l' j ≡ some (if beq key j then none else found))
get-delete l qs key j found r before =
    let (l', qs', run, r', m) = delete-Holds l qs key r in
    let same : found ≡ lookup j (entries l.node qs) =
      some-injective _ _ (sym before ∙ get-lookup l qs j r) in
    (
      l',
      run,
      get-lookup l' qs' j r'
          ∙ ap (λ t. some (lookup j t)) m
          ∙ ap some (lookup-remove_entry key j (entries l.node qs) (Represents-Increasing l qs r))
          ∙ ap (λ o. some (if beq key j then none else o)) (sym same),
    )
