-- ===== src/Lru.antt =====
-- The LRU cache (src/cache/lru.h, src/cache/node.h, src/cache/cache_policy.h), with string keys as
-- the database has them. Nodes stand on a heap: `node p` is `none` where nothing is allocated or
-- what was there has been deleted. The list `nodes` and its iterators are the addresses of the
-- nodes, since every element of the list is a different node. The lock is not modelled: every
-- operation holds it from start to end. `none` as a result is a fault: a deleted node read, or
-- `index[key]` of a key that is not there used as an iterator.
pub mod Shape
pub mod Refine
pub mod Insert
use smallkv.Base.{
  ℕ, zero, suc, ◌+◌, ◌-◌, Bool, true, false, Option, none, some, List, [], ◌∷◌, ◌++◌, length, ltb,
  leb, ◌==◌, if◌then◌else◌, is_some,
}
use smallkv.Base.Maybe.{◌>>=◌}
use smallkv.Base.Bytes.{Bytes, beq}

abbrev pub Ptr : Type 0
Ptr = ℕ

-- `hash_val` and `last_access_time` are written and never read; they are left out.
pub record CacheNode (V : Type 0) : Type 0 where
  pub key : Bytes
  pub val : V
  pub ref_cnt : ℕ
  pub in_cache : Bool

-- `destroyed` are the calls of the clean handle so far.
pub record Lru (V : Type 0) : Type 0 where
  pub cap : ℕ
  pub nodes : List Ptr
  pub index : Bytes → Option Ptr
  pub garbage_station : Bytes → Option Ptr
  pub node : Ptr → Option (CacheNode V)
  pub fresh : Ptr
  pub destroyed : List (Bytes × V)

unfoldable pub init : {V : Type 0} → ℕ → Lru V
init cap = record {
  cap = cap;
  nodes = [];
  index = λ k. none;
  garbage_station = λ k. none;
  node = λ p. none;
  fresh = 0;
  destroyed = [];
}

-- `m[k] = v` and `m.erase(k)`, for a map from keys
abbrev pub set_key : (Bytes → Option Ptr) → Bytes → Option Ptr → Bytes → Option Ptr
set_key m k v j = if beq k j then v else m j

-- `nodes.erase(it)`
unfoldable pub erase_ptr : Ptr → List Ptr → List Ptr
erase_ptr p [] = []
erase_ptr p (q ∷ qs) = if q == p then qs else q ∷ erase_ptr p qs

-- `nodes.back()`
unfoldable pub back : Ptr → List Ptr → Ptr
back p [] = p
back p (q ∷ qs) = back q qs

module _ {V : Type 0} where
  abbrev pub set_node :
      (Ptr → Option (CacheNode V)) → Ptr → Option (CacheNode V) → Ptr → Option (CacheNode V)
  set_node m p n q = if q == p then n else m q

  -- The count is at least 1 wherever the code counts down, so it does not pass below 0.
  unfoldable pub unref : Lru V → Ptr → Option (Lru V)
  unref l p = l.node p >>= λ n.
      let count = n.ref_cnt - 1 in
      if leb count 0
      then some (record l {
        destroyed = l.destroyed ++ (n.key, n.val) ∷ [];
        garbage_station = set_key l.garbage_station n.key none;
        node = set_node l.node p none;
      })
      else some (record l { node = set_node l.node p (some (record n { ref_cnt = count })) })

  unfoldable pub ref : Lru V → Ptr → Option (Lru V)
  ref l p = l.node p >>= λ n.
      some (record l { node = set_node l.node p (some (record n { ref_cnt = n.ref_cnt + 1 })) })

  unfoldable pub phantom_erase_node : Lru V → Ptr → Option (Lru V)
  phantom_erase_node l p = l.node p >>= λ n. l.index n.key >>= λ it.
      unref
        (record l {
          node = set_node l.node p (some (record n { in_cache = false }));
          nodes = erase_ptr it l.nodes;
          index = set_key l.index n.key none;
          garbage_station = set_key l.garbage_station n.key (some p);
        })
        p

  -- The eviction at the end of an insertion; `nodes` is `p ∷ qs`.
  unfoldable pub evict : Lru V → Ptr → List Ptr → Option (Lru V)
  evict l p qs = if ltb l.cap (length (p ∷ qs)) then phantom_erase_node l (back p qs) else some l

  unfoldable pub insert : Lru V → Bytes → V → Option (Lru V)
  insert l key val =
      let new = l.fresh in
      let n : CacheNode V = record { key = key; val = val; ref_cnt = 1; in_cache = true } in
      let l₁ = record l { node = set_node l.node new (some n); fresh = new + 1 } in
      elim (l.index key) [
        | none ↦
            evict (record l₁ { nodes = new ∷ l.nodes; index = set_key l.index key (some new) }) new
              l.nodes
        | some it ↦
            some (record l₁ {
              nodes = it ∷ erase_ptr it l.nodes;
              index = set_key l.index key (some it);
            })
      ]

  unfoldable pub erase : Lru V → Bytes → Option (Lru V)
  erase l key = elim (l.index key) [ none ↦ some l | some it ↦ phantom_erase_node l it ]

  -- The node's address, null if the key is not cached.
  unfoldable pub get : Lru V → Bytes → Option (Lru V × Option Ptr)
  get l key = elim (l.index key) [
    | none ↦ some (l, none)
    | some it ↦
        ref (record l { nodes = it ∷ erase_ptr it l.nodes; index = set_key l.index key (some it) })
          it
        >>= λ l'. some (l', some it)
  ]

  unfoldable pub contains : Lru V → Bytes → Bool
  contains l key = is_some (l.index key)

  unfoldable pub release : Lru V → Bytes → Option (Lru V)
  release l key = l.index key >>= λ it. unref l it
