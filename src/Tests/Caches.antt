-- ===== src/Tests/Caches.antt =====
-- The LRU cache (src/cache/lru.h) and the Bloom filter (src/filter/bloom_filter.cpp) at concrete
-- inputs.
use smallkv.Base.{ℕ, ◌≡◌, true, some, [], ◌∷◌, arith, length}
use smallkv.Base.Bytes.{Bytes}
use smallkv.Lru.{Lru, init, insert}
use smallkv.Lru.Shape.{Pairs, put, Represents}
use smallkv.Lru.Refine.{init-Represents}
use smallkv.Lru.Insert.{insert-put}
use smallkv.Bloom.{BloomFilter, create_filter, exists_key}
use smallkv.Bloom.Members.{exists_key-create_filter}

Step : Lru ℕ → Pairs ℕ → Bytes → ℕ → Type 0
Step l m k v =
    (l' : Lru ℕ) × (insert l k v ≡ some l') × Represents l' (put l.cap k v m) × (l'.cap ≡ l.cap)

first : Step (init 1) [] (5 ∷ []) 50
unfolding Step
first = insert-put (init 1) [] (5 ∷ []) 50 (init-Represents 1)

-- A cache with room for one pair, which holds one.
abbrev one : Lru ℕ
unfolding Step
one = first.0

abbrev pairs : Pairs ℕ
pairs = put 1 (5 ∷ []) 50 []

one-Represents : Represents one pairs
unfolding Step init
one-Represents = first.2

insert-put_example :
    (l' : Lru ℕ) × (insert one (7 ∷ []) 70 ≡ some l')
    × Represents l' (put one.cap (7 ∷ []) 70 pairs)
    × (l'.cap ≡ one.cap)
insert-put_example = insert-put one pairs (7 ∷ []) 70 one-Represents

-- Two bytes and three hash functions.
abbrev two_bytes : BloomFilter
two_bytes = record { hash_func_num = 3; bits_array = 0 ∷ 0 ∷ [] }

exists_key-create_filter_example :
    (exists_key (create_filter two_bytes ((1 ∷ []) ∷ (2 ∷ 3 ∷ []) ∷ [])) (1 ∷ []) ≡ true)
    × (length (create_filter two_bytes ((1 ∷ []) ∷ (2 ∷ 3 ∷ []) ∷ [])).bits_array ≡ 2)
    × ((create_filter two_bytes ((1 ∷ []) ∷ (2 ∷ 3 ∷ []) ∷ [])).hash_func_num ≡ 3)
exists_key-create_filter_example =
    exists_key-create_filter two_bytes [] (1 ∷ []) ((2 ∷ 3 ∷ []) ∷ [])
      (omega arith, (omega arith, tt)) (omega arith) (omega arith) (ground arith)
