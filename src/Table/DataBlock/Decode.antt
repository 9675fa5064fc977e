-- ===== src/Table/DataBlock/Decode.antt =====
-- What `add` writes can be read back (src/table/data_block_builder.cpp): the reader below goes by the
-- schema of a record, with the shared part of a key taken from the key before it.
use smallkv.Base.{
  ℕ, zero, suc, ◌+◌, ◌-◌, ◌/◌, ◌%◌, ◌^◌, ◌≤◌, ◌<◌, ◌≡◌, ◌≢◌, refl, sym, ap, ◌∙◌, ◌&&◌, Option, none,
  some, List, [], ◌∷◌, ◌++◌, length, take, drop, All, ◌==◌, if◌then◌else◌, arith, append_assoc,
  append-nil, length-append, length-drop, take-append-drop, take-length-append, drop-length-append,
  Bool-cases, inl, inr,
}
use mathlib.Core.Path.{subst}
use smallkv.Base.Maybe.{◌>>=◌}
use smallkv.Base.Bytes.{Bytes}
use smallkv.Codec.{encode_fixed32, decode_fixed32, put_fixed32}
use smallkv.Codec.RoundTrip.{decode_fixed32-encode_fixed32, length-encode_fixed32}
use smallkv.Table.DataBlock.{
  DataBlockBuilder, empty_block, restart_interval, shared_length, shared_for, put_record,
  start_group, add, add_all, restart_point_num,
}

-- One record behind the key `pre`: its key, its value, and the bytes behind it. It is refused if it
-- is cut short.
unfoldable pub read_record : Bytes → Bytes → Option (Bytes × Bytes × Bytes)
read_record pre block = decode_fixed32 block >>= λ shared.
    decode_fixed32 (drop 4 block) >>= λ unshared. decode_fixed32 (drop 8 block) >>= λ value_len.
    let body = drop 12 block in
    let tail = drop unshared body in
    if (length (take unshared body) == unshared) && (length (take value_len tail) == value_len)
    then some (take shared pre ++ take unshared body, take value_len tail, drop value_len tail)
    else none

unfoldable pub read_block : ℕ → Bytes → Bytes → Option (List (Bytes × Bytes))
read_block fuel pre [] = some []
read_block zero pre (b ∷ bs) = none
read_block (suc fuel) pre (b ∷ bs) = read_record pre (b ∷ bs) >>= λ (key, value, rest).
    read_block fuel key rest >>= λ m. some ((key, value) ∷ m)

-- The bytes of one record.
pub record_bytes : ℕ → Bytes → Bytes → Bytes
record_bytes shared key value =
    encode_fixed32 shared
    ++ (encode_fixed32 (length key - shared)
        ++ (encode_fixed32 (length value) ++ (drop shared key ++ value)))

-- The twelve bytes of its lengths, and what it does not share.
pub length-record_bytes :
    (shared : ℕ) (k v : Bytes)
    → length (record_bytes shared k v) ≡ 12 + length (drop shared k) + length v
unfolding record_bytes
length-record_bytes shared k v = omega (
  arith,
  length-append (encode_fixed32 shared)
      (encode_fixed32 (length k - shared) ++ (encode_fixed32 (length v) ++ (drop shared k ++ v))),
  length-append (encode_fixed32 (length k - shared))
      (encode_fixed32 (length v) ++ (drop shared k ++ v)),
  length-append (encode_fixed32 (length v)) (drop shared k ++ v),
  length-append (drop shared k) v,
  length-encode_fixed32 shared,
  length-encode_fixed32 (length k - shared),
  length-encode_fixed32 (length v),
)

pub put_record-bytes :
    (block : Bytes) (shared : ℕ) (key value : Bytes)
    → put_record block shared key value ≡ block ++ record_bytes shared key value
unfolding put_record put_fixed32 record_bytes
put_record-bytes block shared key value = simp append_assoc

shared_length-le : (xs ys : Bytes) → shared_length xs ys ≤ length xs
unfolding shared_length
shared_length-le [] ys = omega arith
shared_length-le (x ∷ xs) [] = omega arith
shared_length-le (x ∷ xs) (y ∷ ys) = ground (arith, shared_length-le xs ys)

take-shared_length : (xs ys : Bytes) → take (shared_length xs ys) ys ≡ take (shared_length xs ys) xs
unfolding shared_length
take-shared_length [] ys = refl
take-shared_length (x ∷ xs) [] = refl
take-shared_length (x ∷ xs) (y ∷ ys) = ground (arith, take-shared_length xs ys)

-- The shared part of the key before, and the rest, are the key.
shared_for-key :
    (b : DataBlockBuilder) (key : Bytes)
    → (take (shared_for b key) b.pre_key ++ drop (shared_for b key) key ≡ key)
      × (shared_for b key ≤ length key)
unfolding shared_for
shared_for-key b key = elim (Bool-cases (b.record_num % restart_interval == 0)) [
  | inl e ↦ rw e (refl, omega arith)
  | inr e ↦ rw e (
    ap (λ t. t ++ drop (shared_length key b.pre_key) key) (take-shared_length key b.pre_key)
        ∙ take-append-drop (shared_length key b.pre_key) key,
    shared_length-le key b.pre_key,
  )
]

decode_small :
    (val : ℕ) (rest : Bytes) → val < 2 ^ 32 → decode_fixed32 (encode_fixed32 val ++ rest) ≡ some val
decode_small val rest h = decode_fixed32-encode_fixed32 val rest ∙ ap some (omega arith)

-- What a record can hold.
abbrev pub FitsRecord : Bytes × Bytes → Type 0
FitsRecord e = (e.0 ≢ []) × (length e.0 < 2 ^ 32) × (length e.1 < 2 ^ 32)

read_record-record_bytes :
    (pre : Bytes) (shared : ℕ) (key value rest : Bytes)
    → take shared pre ++ drop shared key ≡ key
    → shared ≤ length key
    → length key < 2 ^ 32
    → length value < 2 ^ 32
    → read_record pre (record_bytes shared key value ++ rest) ≡ some (key, value, rest)
unfolding read_record record_bytes encode_fixed32
read_record-record_bytes pre shared key value rest joined h k v =
    let size = length-drop shared key in
    let tail = drop shared key ++ (value ++ rest) in
    let assoc = append_assoc (drop shared key) value rest in
    let first =
      decode_small shared
        (encode_fixed32 (length key - shared)
          ++ (encode_fixed32 (length value) ++ (drop shared key ++ value ++ rest)))
        (omega arith) in
    let second =
      decode_small (length key - shared)
        (encode_fixed32 (length value) ++ (drop shared key ++ value ++ rest)) (omega arith) in
    let third = decode_small (length value) (drop shared key ++ value ++ rest) v in
    let key_part : take (length key - shared) tail ≡ drop shared key =
      take-length-append (length key - shared) (drop shared key) (value ++ rest)
        (omega (arith, size)) in
    let behind : drop (length key - shared) tail ≡ value ++ rest =
      drop-length-append (length key - shared) (drop shared key) (value ++ rest)
        (omega (arith, size)) in
    let value_part = take-length-append (length value) value rest refl in
    let after = drop-length-append (length value) value rest refl in
    ground (arith, first, second, third, assoc, key_part, behind, value_part, after, size, joined)

pub add-block :
    (b : DataBlockBuilder) (key value : Bytes)
    → key ≢ []
    → ((add b key value).block ≡ b.block ++ record_bytes (shared_for b key) key value)
      × ((add b key value).pre_key ≡ key)
      × ((add b key value).record_num ≡ b.record_num + 1)
unfolding add
add-block b [] value ne = absurd (ne refl)
add-block b (k ∷ ks) value ne =
    (put_record-bytes b.block (shared_for b (k ∷ ks)) (k ∷ ks) value, refl, refl)

read_block-step :
    (fuel : ℕ) (pre block key value rest : Bytes) (m : List (Bytes × Bytes))
    → read_record pre block ≡ some (key, value, rest)
    → read_block fuel key rest ≡ some m
    → read_block (suc fuel) pre block ≡ some ((key, value) ∷ m)
unfolding read_block read_record decode_fixed32
read_block-step fuel pre [] key value rest m e f = cc
read_block-step fuel pre (b ∷ bs) key value rest m e f = step (read_record pre (b ∷ bs)) e
  where
    step :
        (r : Option (Bytes × Bytes × Bytes))
        → r ≡ some (key, value, rest)
        → (r >>= λ (k, v, left). read_block fuel k left >>= λ n. some ((k, v) ∷ n))
          ≡ some ((key, value) ∷ m)
    step r h = rw (h, ◌>>=◌) (rw (f, ◌>>=◌) refl)

-- The records behind those of `b`.
records_from :
    (b : DataBlockBuilder) (m : List (Bytes × Bytes))
    → All FitsRecord m
    → (fuel : ℕ) → length m ≤ fuel
    → (bytes : Bytes) × ((add_all b m).block ≡ b.block ++ bytes)
      × (read_block fuel b.pre_key bytes ≡ some m)
unfolding add_all read_block
records_from b [] a fuel h = ([], sym (append-nil b.block), refl)
records_from b ((k, v) ∷ m) a zero h = absurd (omega arith)
records_from b ((k, v) ∷ m) a (suc fuel) h =
    let (block, pre, num) = add-block b k v a.0.0 in
    let (bytes, whole, read) = records_from (add b k v) m a.1 fuel (omega arith) in
    let (joined, fits) = shared_for-key b k in
    let here =
      read_record-record_bytes b.pre_key (shared_for b k) k v bytes joined fits a.0.1 a.0.2 in
    (
      record_bytes (shared_for b k) k v ++ bytes,
      whole
          ∙ ap (λ t. t ++ bytes) block
          ∙ append_assoc b.block (record_bytes (shared_for b k) k v) bytes,
      read_block-step fuel b.pre_key _ k v bytes m here
          (subst (λ p. read_block fuel p bytes ≡ some m) pre read),
    )

-- The records of a data block read back as the pairs that were added, in order, if a reader takes
-- the shared part of a key from the key before it, and not from the key of the restart point, as
-- the schema of a record says; no key is empty and the lengths fit in 32 bits.
pub read_block-add_all :
    (m : List (Bytes × Bytes))
    → All FitsRecord m
    → read_block (length m) [] (add_all empty_block m).block ≡ some m
read_block-add_all m a =
    let (bytes, whole, read) = records_from empty_block m a (length m) (omega arith) in
    ap (read_block (length m) []) whole ∙ read

-- The groups and the records of a block.
pub record IsCounted (b : DataBlockBuilder) : Type 0 where
  pub groups : length b.record_group_offset ≡ (b.record_num + 15) / 16
  pub within : All (λ o. o ≤ length b.block) b.record_group_offset

within_more : (n k : ℕ) (os : List ℕ) → n ≤ k → All (λ o. o ≤ n) os → All (λ o. o ≤ k) os
within_more n k [] h a = tt
within_more n k (o ∷ os) h a = (omega (arith, a.0), within_more n k os h a.1)

within_end : (n : ℕ) (os : List ℕ) → All (λ o. o ≤ n) os → All (λ o. o ≤ n) (os ++ n ∷ [])
within_end n [] a = (omega arith, tt)
within_end n (o ∷ os) a = (a.0, within_end n os a.1)

start_group-IsCounted :
    (b : DataBlockBuilder)
    → IsCounted b
    → (length (start_group b).record_group_offset ≡ (b.record_num + 16) / 16)
      × All (λ o. o ≤ length b.block) (start_group b).record_group_offset
unfolding start_group
start_group-IsCounted b c = elim (Bool-cases (b.record_num % restart_interval == 0)) [
  | inl e ↦ rw e (
    ground (arith, length-append b.record_group_offset (length b.block ∷ []), c.groups),
    within_end (length b.block) b.record_group_offset c.within,
  )
  | inr e ↦ rw e (ground (arith, c.groups), c.within)
]

-- add keeps the invariant of a data block: one restart point for every sixteen records, each at a
-- place within the block.
pub add-IsCounted :
    (b : DataBlockBuilder) (key value : Bytes) → IsCounted b → IsCounted (add b key value)
unfolding add
add-IsCounted b [] value c = c
add-IsCounted b (k ∷ ks) value c =
    let (groups, within) = start_group-IsCounted b c in
    let grown = put_record-bytes b.block (shared_for b (k ∷ ks)) (k ∷ ks) value in
    let more : length b.block ≤ length (put_record b.block (shared_for b (k ∷ ks)) (k ∷ ks) value) =
      omega (
        arith,
        ap length grown,
        length-append b.block (record_bytes (shared_for b (k ∷ ks)) (k ∷ ks) value),
      ) in
    record {
      groups = omega (arith, groups);
      within = within_more _ _ (start_group b).record_group_offset more within;
    }

-- For a block that keeps the invariant and has a record, the number of restart points that
-- finish_data_block announces is the number of groups.
pub restart_point_num-IsCounted :
    (b : DataBlockBuilder)
    → IsCounted b
    → 0 < b.record_num
    → restart_point_num b.record_num ≡ length b.record_group_offset
unfolding restart_point_num
restart_point_num-IsCounted b c h = go b.record_num h ∙ sym c.groups
  where
    go : (n : ℕ) → 0 < n → restart_point_num n ≡ (n + 15) / 16
    go zero p = absurd (omega arith)
    go (suc n) p = omega arith
