-- ===== src/Bloom/Members.antt =====
-- The filter has no false negatives (src/filter/bloom_filter.cpp).
use smallkv.Base.{
  ℕ, zero, suc, ◌+◌, ◌*◌, ◌/◌, ◌%◌, ◌^◌, ◌≤◌, ◌<◌, ◌≡◌, ◌≢◌, refl, sym, ap, ◌∙◌, true, List, [],
  ◌∷◌, ◌++◌, length, set, get_or, All, arith, length-set, get_or-set_self, get_or-set_ne,
  length-replicate,
}
use smallkv.Base.Bits.{has_bit, set_bit, set_bit-keeps}
use smallkv.Base.Bytes.{Bytes}
use Prim.Native.Nat.{bit_or}
use smallkv.Bloom.{
  BloomFilter, clamp_hash_num, make_filter, delta_of, set_pos, test_pos, add_loop, add_keys,
  create_filter, check_loop, exists_key,
}
use smallkv.Bloom.Hash.{murmur_hash2}
use native.Mathlib.Decide.{ℕ_discrete}
use native.Mathlib.Nat.{mod-lt}

abbrev pub IsByte : ℕ → Type 0
IsByte b = b < 256

get_or-IsByte : (bits : Bytes) (i : ℕ) → All IsByte bits → get_or bits i 0 < 256
get_or-IsByte [] i a = omega arith
get_or-IsByte (b ∷ bs) zero a = a.0
get_or-IsByte (b ∷ bs) (suc i) a = get_or-IsByte bs i a.1

set-IsByte : (bits : Bytes) (i v : ℕ) → v < 256 → All IsByte bits → All IsByte (set bits i v)
set-IsByte [] i v h a = tt
set-IsByte (b ∷ bs) zero v h a = (h, a.1)
set-IsByte (b ∷ bs) (suc i) v h a = (a.0, set-IsByte bs i v h a.1)

-- The array, as the loops keep it: bytes, and always as many.
pub record IsArray (bytes : ℕ) (bits : Bytes) : Type 0 where
  pub all : All IsByte bits
  pub size : length bits ≡ bytes

module _ (bytes : ℕ) where
  set_pos-IsArray : (bits : Bytes) (pos : ℕ) → IsArray bytes bits → IsArray bytes (set_pos bits pos)
  unfolding set_pos
  set_pos-IsArray bits pos a = record {
    all =
        set-IsByte bits (pos / 8) _
          (set_bit (get_or bits (pos / 8) 0) (pos % 8) (get_or-IsByte bits (pos / 8) a.all)
            (omega arith)).1
          a.all;
    size = length-set bits (pos / 8) _ ∙ a.size;
  }

  test_pos-set_pos :
      (bits : Bytes) (pos : ℕ)
      → IsArray bytes bits
      → pos < bytes * 8
      → test_pos (set_pos bits pos) pos ≡ true
  unfolding set_pos test_pos
  test_pos-set_pos bits pos a h =
      let old = get_or bits (pos / 8) 0 in
      ap (λ (b : ℕ). has_bit b (pos % 8))
        (get_or-set_self bits (pos / 8) (bit_or old (2 ^ (pos % 8))) 0 (omega (arith, a.size)))
      ∙ (set_bit old (pos % 8) (get_or-IsByte bits (pos / 8) a.all) (omega arith)).0

  -- A bit once set stays set.
  test_pos-keeps :
      (bits : Bytes) (pos q : ℕ)
      → IsArray bytes bits
      → q < bytes * 8
      → test_pos bits q ≡ true
      → test_pos (set_pos bits pos) q ≡ true
  unfolding set_pos test_pos
  test_pos-keeps bits pos q a h t = elim (ℕ_discrete (pos / 8) (q / 8)) [
    | yes e ↦
        let old = get_or bits (pos / 8) 0 in
        let new = bit_or old (2 ^ (pos % 8)) in
        let read : get_or (set bits (pos / 8) new) (q / 8) 0 ≡ new =
          ap (λ i. get_or (set bits (pos / 8) new) i 0) (sym e)
          ∙ get_or-set_self bits (pos / 8) new 0 (omega (arith, a.size, e)) in
        ap (λ (b : ℕ). has_bit b (q % 8)) read
        ∙ set_bit-keeps old (pos % 8) (q % 8) (get_or-IsByte bits (pos / 8) a.all) (omega arith)
            (omega arith) (ap (λ i. has_bit (get_or bits i 0) (q % 8)) e ∙ t)
    | no e ↦ ap (λ (b : ℕ). has_bit b (q % 8)) (get_or-set_ne bits (pos / 8) (q / 8) _ 0 e) ∙ t
  ]

  -- What a step may do to the array: it stays one, and no bit is cleared.
  abbrev Grows : Bytes → Bytes → Type 0
  Grows bits bits' =
      IsArray bytes bits'
      × ((q : ℕ) → q < bytes * 8 → test_pos bits q ≡ true → test_pos bits' q ≡ true)

  add_loop-Grows :
      (n size h delta : ℕ) (bits : Bytes)
      → IsArray bytes bits
      → Grows bits (add_loop n size h delta bits)
  unfolding add_loop
  add_loop-Grows zero size h delta bits a = (a, λ q k t. t)
  add_loop-Grows (suc n) size h delta bits a =
      let (a', more) =
        add_loop-Grows n size ((h + delta) % 2 ^ 32) delta (set_pos bits (h % size))
          (set_pos-IsArray bits (h % size) a) in
      (a', λ q k t. more q k (test_pos-keeps bits (h % size) q a k t))

  add_keys-Grows :
      (n size : ℕ) (keys : List Bytes) (bits : Bytes)
      → IsArray bytes bits
      → Grows bits (add_keys n size keys bits)
  unfolding add_keys
  add_keys-Grows n size [] bits a = (a, λ q k t. t)
  add_keys-Grows n size (key ∷ keys) bits a =
      let h = murmur_hash2 key in
      let (a₁, more₁) = add_loop-Grows n size h (delta_of h) bits a in
      let (a₂, more₂) = add_keys-Grows n size keys (add_loop n size h (delta_of h) bits) a₁ in
      (a₂, λ q k t. more₂ q k (more₁ q k t))

  -- The positions that a loop sets are found set, then and later.
  check_loop-add_loop :
      (n size h delta : ℕ) (bits final : Bytes)
      → 0 < size
      → size ≤ bytes * 8
      → IsArray bytes bits
      → ((q : ℕ)
          → q < bytes * 8
          → test_pos (add_loop n size h delta bits) q ≡ true
          → test_pos final q ≡ true)
      → check_loop n size h delta final ≡ true
  unfolding check_loop add_loop
  check_loop-add_loop zero size h delta bits final p s a later = refl
  check_loop-add_loop (suc n) size h delta bits final p s a later =
      let pos = h % size in
      let here : pos < bytes * 8 = omega (arith, mod-lt h p) in
      let a' = set_pos-IsArray bits pos a in
      let kept =
        (add_loop-Grows n size ((h + delta) % 2 ^ 32) delta (set_pos bits pos) a').1 pos here
          (test_pos-set_pos bits pos a here) in
      rw (later pos here kept) (
        check_loop-add_loop n size ((h + delta) % 2 ^ 32) delta (set_pos bits pos) final p s a'
          later)

  check_loop-add_keys :
      (n size : ℕ) (pre : List Bytes) (key : Bytes) (post : List Bytes) (bits : Bytes)
      → 0 < size
      → size ≤ bytes * 8
      → IsArray bytes bits
      → check_loop n size
          (murmur_hash2 key)
          (delta_of (murmur_hash2 key))
          (add_keys n size (pre ++ key ∷ post) bits)
        ≡ true
  unfolding add_keys
  check_loop-add_keys n size [] key post bits p s a =
      let h = murmur_hash2 key in
      let a' = (add_loop-Grows n size h (delta_of h) bits a).0 in
      check_loop-add_loop n size h (delta_of h) bits _ p s a
        (add_keys-Grows n size post (add_loop n size h (delta_of h) bits) a').1
  check_loop-add_keys n size (k ∷ pre) key post bits p s a =
      let h = murmur_hash2 k in
      check_loop-add_keys n size pre key post (add_loop n size h (delta_of h) bits) p s
        (add_loop-Grows n size h (delta_of h) bits a).0

-- The array stays one of bytes.
pub create_filter-IsByte :
    (f : BloomFilter) (keys : List Bytes)
    → All IsByte f.bits_array
    → All IsByte (create_filter f keys).bits_array
unfolding create_filter
create_filter-IsByte f keys a =
    let array : IsArray (length f.bits_array) f.bits_array = record { all = a; size = refl } in
    (add_keys-Grows (length f.bits_array) f.hash_func_num (length f.bits_array * 8 % 2 ^ 32) keys
      f.bits_array array).0.all

-- A Bloom filter has no false negatives: a key that is not empty is found after create_filter with
-- any keys around it; the array, which must not be empty and has fewer than 2^29 bytes, keeps its
-- size, and the number of hash functions does not change.
pub exists_key-create_filter :
    (f : BloomFilter) (pre : List Bytes) (key : Bytes) (post : List Bytes)
    → All IsByte f.bits_array
    → 0 < length f.bits_array
    → length f.bits_array * 8 < 2 ^ 32
    → key ≢ []
    → (exists_key (create_filter f (pre ++ key ∷ post)) key ≡ true)
      × (length (create_filter f (pre ++ key ∷ post)).bits_array ≡ length f.bits_array)
      × ((create_filter f (pre ++ key ∷ post)).hash_func_num ≡ f.hash_func_num)
unfolding exists_key create_filter
exists_key-create_filter f pre [] post a h small ne = absurd (ne refl)
exists_key-create_filter f pre (b ∷ bs) post a h small ne =
    let bytes = length f.bits_array in
    let array : IsArray bytes f.bits_array = record { all = a; size = refl } in
    let same =
      (add_keys-Grows bytes f.hash_func_num (bytes * 8 % 2 ^ 32) (pre ++ (b ∷ bs) ∷ post)
        f.bits_array array).0.size in
    (
      rw same (
          check_loop-add_keys bytes f.hash_func_num (bytes * 8 % 2 ^ 32) pre (b ∷ bs) post
            f.bits_array (omega arith) (omega arith) array),
      same,
      refl,
    )

-- The constructor keeps the number of hash functions within 1 and 32, and rounds the number of bits
-- up to whole bytes.
pub make_filter-bounds :
    (keys_num bits_num : ℕ) (optimal : ℕ → ℕ)
    → (1 ≤ (make_filter keys_num bits_num optimal).hash_func_num)
      × ((make_filter keys_num bits_num optimal).hash_func_num ≤ 32)
      × (bits_num ≤ length (make_filter keys_num bits_num optimal).bits_array * 8)
      × (length (make_filter keys_num bits_num optimal).bits_array * 8 < bits_num + 8)
unfolding make_filter clamp_hash_num
make_filter-bounds keys_num bits_num optimal =
    let size = length-replicate {A = ℕ} ((bits_num + 7) / 8) 0 in
    (ground arith, ground arith, omega (arith, size), omega (arith, size))
