-- ===== src/Cache.antt =====
-- The cache of the database (src/cache/cache.h): five LRU caches, a key belonging to the one that
-- its hash names. `std::hash` is a parameter.
pub mod Shards
use smallkv.Base.{ℕ, ◌%◌, Bool, Option, none, some, ltb, ◌==◌, if◌then◌else◌}
use smallkv.Base.Maybe.{◌>>=◌}
use smallkv.Base.Bytes.{Bytes}
use smallkv.Lru
use smallkv.Lru.{Ptr, Lru}

-- SHARDING_NUM
abbrev pub sharding_num : ℕ
sharding_num = 5

-- The LRU cache of each index below `sharding_num`.
abbrev pub Cache : Type 0 → Type 0
Cache V = ℕ → Lru V

abbrev pub make_cache : {V : Type 0} → ℕ → Cache V
make_cache cap i = Lru.init cap

abbrev pub set_shard : {V : Type 0} → Cache V → ℕ → Lru V → Cache V
set_shard c i l j = if j == i then l else c j

abbrev pub shard_of : (Bytes → ℕ) → Bytes → ℕ
shard_of hash key = hash key % sharding_num

-- `caches[i]`, a fault outside the vector.
abbrev pub shard_at : {V : Type 0} → Cache V → ℕ → Option (Lru V)
shard_at c i = if ltb i sharding_num then some (c i) else none

module _ (hash : Bytes → ℕ) {V : Type 0} where
  unfoldable pub insert : Cache V → Bytes → V → Option (Cache V)
  insert c key val = shard_at c (shard_of hash key) >>= λ l.
      Lru.insert l key val >>= λ l'. some (set_shard c (shard_of hash key) l')

  unfoldable pub erase : Cache V → Bytes → Option (Cache V)
  erase c key = shard_at c (shard_of hash key) >>= λ l.
      Lru.erase l key >>= λ l'. some (set_shard c (shard_of hash key) l')

  unfoldable pub get : Cache V → Bytes → Option (Cache V × Option Ptr)
  get c key = shard_at c (shard_of hash key) >>= λ l.
      Lru.get l key >>= λ (l', node). some (set_shard c (shard_of hash key) l', node)

  unfoldable pub contains : Cache V → Bytes → Option Bool
  contains c key = shard_at c (shard_of hash key) >>= λ l. some (Lru.contains l key)

  unfoldable pub release : Cache V → Bytes → Option (Cache V)
  release c key = shard_at c (shard_of hash key) >>= λ l.
      Lru.release l key >>= λ l'. some (set_shard c (shard_of hash key) l')
