-- ===== src/SkipList/Entries.antt =====
-- The pairs of a skip list under insertion (src/memtable/skiplist.h): the abstract operation, and
-- what a node put between others does to the order, the pairs and the bytes in use.
use smallkv.Base.{
  ◌+◌, ◌≡◌, ◌≢◌, refl, ap, none, List, [], ◌∷◌, ◌++◌, length, All, if◌then◌else◌, arith, is_some,
}
use smallkv.Base.Bytes.{Bytes, Order, lt, eq, gt, compare_bytes, compare_bytes-gt}
use smallkv.SkipList.{Ptr, Node, SkipList}
use smallkv.SkipList.Chain.{
  Ordered, Entries, entries, lookup, usage, Below, Above, NotBelow, All-append, All-join,
}
use smallkv.SkipList.Towers.{}

-- The pair goes before the first key that is not below it.
unfoldable pub insert_entry : Bytes → Bytes → Entries → Entries
insert_entry key value [] = (key, value) ∷ []
insert_entry key value ((k, v) ∷ m) = elim (compare_bytes k key) [
  | lt ↦ (k, v) ∷ insert_entry key value m
  | _ ↦ (key, value) ∷ (k, v) ∷ m
]

-- A key that is there already keeps its value.
unfoldable pub add_entry : Bytes → Bytes → Entries → Entries
add_entry key value m = if is_some (lookup key m) then m else insert_entry key value m

-- What depends on the nodes alone, with a node `n` of this key and value between others.
module _ (l l' : SkipList) (n : Ptr) (key value : Bytes)
    (same : (q : Ptr) → q ≢ n → l'.node q ≡ l.node q) (has_key : (l'.node n).key ≡ key)
    (has_value : (l'.node n).value ≡ value) where
  Above-same :
      (k : Bytes) (qs : List Ptr) → All (λ q. q ≢ n) qs → All (Above l k) qs → All (Above l' k) qs
  Above-same k [] a b = tt
  Above-same k (q ∷ qs) a b = (rw (same q a.0) b.0, Above-same k qs a.1 b.1)

  Ordered-same : (qs : List Ptr) → All (λ q. q ≢ n) qs → Ordered l qs → Ordered l' qs
  Ordered-same [] a o = tt
  Ordered-same (q ∷ qs) a o =
      (rw (same q a.0) (Above-same (l.node q).key qs a.1 o.0), Ordered-same qs a.1 o.1)

  pub Ordered-grown :
      (pre post : List Ptr)
      → All (λ q. q ≢ n) (pre ++ post)
      → All (Below l key) pre
      → All (Above l key) post
      → Ordered l (pre ++ post)
      → Ordered l' (pre ++ n ∷ post)
  Ordered-grown [] post a b c o = (rw has_key (Above-same key post a c), Ordered-same post a o)
  Ordered-grown (p ∷ pre) post a b c o =
      let parts = All-append (Above l (l.node p).key) pre post o.0 in
      let apart = All-append (λ q. q ≢ n) pre post a.1 in
      let here : Above l' (l.node p).key n = rw has_key b.0 in
      (
        rw (same p a.0) (
            All-join (Above l' (l.node p).key) pre (n ∷ post)
              (Above-same (l.node p).key pre apart.0 parts.0)
              (here, Above-same (l.node p).key post apart.1 parts.1)),
        Ordered-grown pre post a.1 b.1 c o.1,
      )

  entries_same : (qs : List Ptr) → All (λ q. q ≢ n) qs → entries l'.node qs ≡ entries l.node qs
  unfolding entries
  entries_same [] a = refl
  entries_same (q ∷ qs) a = ground (arith, same q a.0, entries_same qs a.1)

  pub entries_grown :
      (pre post : List Ptr)
      → All (λ q. q ≢ n) (pre ++ post)
      → entries l'.node (pre ++ n ∷ post) ≡ entries l.node pre ++ (key, value) ∷ entries l.node post
  unfolding entries
  entries_grown [] post a = ground (arith, has_key, has_value, entries_same post a)
  entries_grown (p ∷ pre) post a = ground (arith, same p a.0, entries_grown pre post a.1)

  usage_same : (qs : List Ptr) → All (λ q. q ≢ n) qs → usage l'.node qs ≡ usage l.node qs
  unfolding usage
  usage_same [] a = refl
  usage_same (q ∷ qs) a =
      ground
        (arith, ap (λ (t : Node). length t.key + length t.value) (same q a.0), usage_same qs a.1)

  pub usage_grown :
      (pre post : List Ptr)
      → All (λ q. q ≢ n) (pre ++ post)
      → usage l'.node (pre ++ n ∷ post) ≡ usage l.node (pre ++ post) + length key + length value
  unfolding usage
  usage_grown [] post a = omega (arith, ap length has_key, ap length has_value, usage_same post a)
  usage_grown (p ∷ pre) post a = omega (
    arith,
    ap (λ (t : Node). length t.key + length t.value) (same p a.0),
    usage_grown pre post a.1,
  )

module _ (l : SkipList) (key value : Bytes) where
  -- In a list with no such key, what is not below the key is above it.
  pub absent-Above :
      (qs : List Ptr)
      → All (NotBelow l key) qs
      → lookup key (entries l.node qs) ≡ none
      → All (Above l key) qs
  unfolding lookup entries
  absent-Above [] n e = tt
  absent-Above (q ∷ qs) n e =
      (go (compare_bytes (l.node q).key key) refl, absent-Above qs n.1 (ground arith))
    where
      go : (o : Order) → compare_bytes (l.node q).key key ≡ o → Above l key q
      go lt k = absurd (n.0 k)
      go eq k = absurd (ground arith)
      go gt k = compare_bytes-gt _ _ k

  pub insert_entry-split :
      (pre post : List Ptr)
      → All (Below l key) pre
      → All (NotBelow l key) post
      → insert_entry key value (entries l.node (pre ++ post))
        ≡ entries l.node pre ++ (key, value) ∷ entries l.node post
  unfolding insert_entry entries
  insert_entry-split [] [] b n = refl
  insert_entry-split [] (q ∷ post) b n = ground arith
  insert_entry-split (p ∷ pre) post b n = ground (arith, insert_entry-split pre post b.1 n)
