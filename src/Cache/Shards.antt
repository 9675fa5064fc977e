-- ===== src/Cache/Shards.antt =====
-- The operations of the cache (src/cache/cache.h) on the pairs of its shards.
use smallkv.Base.{
  ℕ, ◌≡◌, refl, Bool, true, false, Option, some, ◌==◌, if◌then◌else◌, is_some, arith, ap, ltb,
  if_true, ◌%◌,
}
use smallkv.Base.Maybe.{◌>>=◌}
use smallkv.Base.Bytes.{Bytes}
use smallkv.Lru.{Ptr, Lru}
use smallkv.Lru.Shape.{Pairs, find, remove, put, touch, Represents}
use smallkv.Lru.Refine.{Returned, contains-find, erase-remove, get-touch}
use smallkv.Lru.Insert.{insert-put}
use smallkv.Cache.{Cache, set_shard, shard_of, shard_at, insert, erase, get, contains}

module _ {V : Type 0} where
  -- Every shard is well formed and holds these pairs.
  abbrev pub IsCache : Cache V → (ℕ → Pairs V) → Type 0
  IsCache c m = (i : ℕ) → Represents (c i) (m i)

  -- The pairs with those of one shard replaced.
  abbrev pub set_pairs : (ℕ → Pairs V) → ℕ → Pairs V → ℕ → Pairs V
  set_pairs m i n j = if j == i then n else m j

  -- Every shard has the room that it had.
  abbrev pub SameRoom : Cache V → Cache V → Type 0
  SameRoom c c' = (i : ℕ) → (c' i).cap ≡ (c i).cap

  set_shard-SameRoom :
      (c : Cache V) (i : ℕ) (l : Lru V) → l.cap ≡ (c i).cap → SameRoom c (set_shard c i l)
  set_shard-SameRoom c i l e j = ground (arith, e, ap (λ k. (c k).cap))

  set_shard-IsCache :
      (c : Cache V) (m : ℕ → Pairs V) (i : ℕ) (l : Lru V) (n : Pairs V)
      → IsCache c m
      → Represents l n
      → IsCache (set_shard c i l) (set_pairs m i n)
  set_shard-IsCache c m i l n r s j = go (j == i)
    where
      go : (b : Bool) → Represents (if b then l else c j) (if b then n else m j)
      go true = s
      go false = r j

  -- The index of a key is within the vector.
  shard_at-shard_of :
      (hash : Bytes → ℕ) (c : Cache V) (key : Bytes)
      → shard_at c (shard_of hash key) ≡ some (c (hash key % 5))
  shard_at-shard_of hash c key =
      let t : ltb (hash key % 5) 5 ≡ true = ground arith in if_true _ _ _ t

  module _ (hash : Bytes → ℕ) (c : Cache V) (m : ℕ → Pairs V) (key : Bytes) (r : IsCache c m) where
    -- insert on a cache whose shards are well formed ends without a fault: the shard of the key,
    -- which is its hash modulo five and one of the five, takes the pair as an LRU cache does, the
    -- other shards hold what they held, and every shard keeps its room.
    pub insert-set_pairs :
        (val : V)
        → (c' : Cache V) × (insert hash c key val ≡ some c')
          × IsCache c'
              (set_pairs m (hash key % 5) (put (c (hash key % 5)).cap key val (m (hash key % 5))))
          × SameRoom c c'
    unfolding insert
    insert-set_pairs val =
        let i = hash key % 5 in
        let (l, run, s, same) = insert-put (c i) (m i) key val (r i) in
        (
          set_shard c i l,
          rw (shard_at-shard_of hash c key, ◌>>=◌) (rw (run, ◌>>=◌) refl),
          set_shard-IsCache c m i l _ r s,
          set_shard-SameRoom c i l same,
        )

    -- erase on a cache whose shards are well formed ends without a fault: the pair of the key
    -- leaves its shard, and the other shards hold what they held.
    pub erase-set_pairs :
        (c' : Cache V) × (erase hash c key ≡ some c')
        × IsCache c' (set_pairs m (hash key % 5) (remove key (m (hash key % 5))))
        × SameRoom c c'
    unfolding erase
    erase-set_pairs =
        let i = hash key % 5 in
        let (l, run, s, same) = erase-remove (c i) (m i) key (r i) in
        (
          set_shard c i l,
          rw (shard_at-shard_of hash c key, ◌>>=◌) (rw (run, ◌>>=◌) refl),
          set_shard-IsCache c m i l _ r s,
          set_shard-SameRoom c i l same,
        )

    -- contains on a cache whose shards are well formed tells whether the key is among the pairs of
    -- its shard.
    pub contains-shard : contains hash c key ≡ some (is_some (find key (m (hash key % 5))))
    unfolding contains
    contains-shard =
        rw (shard_at-shard_of hash c key, ◌>>=◌)
          (ap some (contains-find (c (hash key % 5)) (m (hash key % 5)) key (r _)))

    -- get on a cache whose shards are well formed ends without a fault, moves the pair to the front
    -- of its shard and returns its node, null exactly for a key that its shard does not have.
    pub get-set_pairs :
        (c' : Cache V) × (o : Option Ptr) × (get hash c key ≡ some (c', o))
        × IsCache c' (set_pairs m (hash key % 5) (touch key (m (hash key % 5))))
        × Returned (c' (hash key % 5)) o key (find key (m (hash key % 5)))
        × SameRoom c c'
    unfolding get
    get-set_pairs =
        let i = hash key % 5 in
        let (l, o, run, s, back, same) = get-touch (c i) (m i) key (r i) in
        (
          set_shard c i l,
          o,
          rw (shard_at-shard_of hash c key, ◌>>=◌) (rw (run, ◌>>=◌) refl),
          set_shard-IsCache c m i l _ r s,
          go i l o (ground arith) back,
          set_shard-SameRoom c i l same,
        )
      where
        go :
            (i : ℕ) (l : Lru V) (o : Option Ptr)
            → (i == i) ≡ true
            → Returned l o key (find key (m i))
            → Returned (set_shard c i l i) o key (find key (m i))
        go i l o e back = rw e back
