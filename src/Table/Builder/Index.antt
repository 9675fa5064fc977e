-- ===== src/Table/Builder/Index.antt =====
-- The data blocks of a table and its index (src/table/sstable_builder.cpp), by the pairs in them.
use smallkv.Base.{
  ℕ, ◌^◌, ◌<◌, ◌≤◌, ◌≡◌, ◌≢◌, refl, sym, ap, ◌∙◌, some, List, [], ◌∷◌, ◌++◌, length, All, arith,
  append_assoc, append-nil,
}
use smallkv.Base.Bytes.{Bytes}
use smallkv.Codec.{put_fixed32, put_fixed64, encode_fixed32}
use smallkv.SkipList.Chain.{Entries}
use smallkv.Table.DataBlock.{
  empty_block, add_all, finish_data_block, put_restart, put_restarts, restart_point_num,
}
use smallkv.Table.DataBlock.Decode.{FitsRecord, read_block, read_block-add_all}
use smallkv.Table.IndexBlock.{Entry}
use smallkv.Table.Builder.{find_shortest_key, raise_last}
use smallkv.Table.Builder.Loads.{weight}
use mathlib.Core.Path.{subst}

-- The bytes of one data block with these pairs, and of such blocks one after the other.
abbrev pub block_bytes : Entries → Bytes
block_bytes ps = (finish_data_block (add_all empty_block ps)).block

unfoldable pub front_of : List Entries → Bytes
front_of [] = []
front_of (ps ∷ bs) = block_bytes ps ++ front_of bs

unfoldable pub flatten : List Entries → Entries
flatten [] = []
flatten (ps ∷ bs) = ps ++ flatten bs

abbrev pub keys_of : Entries → List Bytes
keys_of [] = []
keys_of ((k, v) ∷ m) = k ∷ keys_of m

unfoldable pub last_key : Entries → Bytes
last_key [] = []
last_key ((k, v) ∷ []) = k
last_key (e ∷ f ∷ m) = last_key (f ∷ m)

pub last_key-append : (m : Entries) (k v : Bytes) → last_key (m ++ (k, v) ∷ []) ≡ k
unfolding last_key
last_key-append [] k v = refl
last_key-append (e ∷ []) k v = refl
last_key-append (e ∷ f ∷ m) k v = last_key-append (f ∷ m) k v

pub last_key-weight : (m : Entries) → length (last_key m) ≤ weight m
unfolding last_key weight
last_key-weight [] = omega arith
last_key-weight ((k, v) ∷ []) = omega arith
last_key-weight ((j, u) ∷ (k, v) ∷ m) = omega (arith, last_key-weight ((k, v) ∷ m))

-- The index of full blocks: the entry of a block has a separator between the key before its last
-- one and the last one, the size of the block, and the place where the block ends.
pub data Indexed : List Entries → List Entry → Type 0 where
  no_block : Indexed [] []
  full_block :
      (bs : List Entries) (es : List Entry) (ps : Entries) (k v s : Bytes)
      → Indexed bs es
      → find_shortest_key (last_key (flatten bs ++ ps)) k ≡ some s
      → Indexed (bs ++ (ps ++ (k, v) ∷ []) ∷ []) (
          es
          ++ (
            s,
            record {
              size = length (block_bytes (ps ++ (k, v) ∷ []));
              offset = length (front_of (bs ++ (ps ++ (k, v) ∷ []) ∷ []));
            },
          )
            ∷ [])

-- The last block, if some pairs are left for it, and its index entry: the last key with its last byte
-- raised, and the place where the block begins.
unfoldable pub tail_bytes : Entries → Bytes
tail_bytes [] = []
tail_bytes (p ∷ ps) = block_bytes (p ∷ ps)

unfoldable pub tail_entry : Bytes → ℕ → Entries → List Entry
tail_entry last at [] = []
tail_entry last at (p ∷ ps) =
    (raise_last last, record { size = length (block_bytes (p ∷ ps)); offset = at }) ∷ []

-- A block whose records read back as its pairs; the restart points stand behind them.
pub record Decodes (ps : Entries) : Type 0 where
  pub records : Bytes
  pub trailer : Bytes
  pub made : block_bytes ps ≡ records ++ trailer
  pub readable : read_block (length ps) [] records ≡ some ps

put_restarts-append :
    (n last : ℕ) (offsets : List ℕ) (block : Bytes)
    → (t : Bytes) × (put_restarts n last offsets block ≡ block ++ t)
unfolding put_restarts put_restart put_fixed32 put_fixed64
put_restarts-append n last [] block = ([], sym (append-nil block))
put_restarts-append n last (o ∷ []) block = (_, append_assoc block _ _)
put_restarts-append n last (o ∷ p ∷ offsets) block =
    let (t, e) = put_restarts-append n last (p ∷ offsets) _ in
    (_, e ∙ ap (λ b. b ++ t) (append_assoc block _ _) ∙ append_assoc block _ t)

pub block-Decodes : (ps : Entries) → All FitsRecord ps → Decodes ps
unfolding finish_data_block put_fixed32
block-Decodes ps a =
    let b = add_all empty_block ps in
    let (t, e) = put_restarts-append b.record_num (length b.block) b.record_group_offset b.block in
    let num = encode_fixed32 (restart_point_num b.record_num) in
    record {
      records = b.block;
      trailer = t ++ num;
      made = ap (λ c. c ++ num) e ∙ append_assoc b.block t num;
      readable = read_block-add_all ps a;
    }

-- Pairs of a small weight have lengths that a record can hold.
pub weight-FitsRecord : (m : Entries) → All (λ e. e.0 ≢ []) m → weight m < 2 ^ 31 → All FitsRecord m
unfolding weight
weight-FitsRecord [] a h = tt
weight-FitsRecord ((k, v) ∷ m) a h =
    ((a.0, omega (arith, h), omega (arith, h)), weight-FitsRecord m a.1 (omega (arith, h)))

All-left : (m n : Entries) → All FitsRecord (m ++ n) → All FitsRecord m × All FitsRecord n
All-left [] n a = (tt, a)
All-left (e ∷ m) n a = let (l, r) = All-left m n a.1 in ((a.0, l), r)

pub blocks-Decodes :
    (bs : List Entries) (rest : Entries)
    → All FitsRecord (flatten bs ++ rest)
    → All Decodes bs × Decodes rest
unfolding flatten
blocks-Decodes [] rest a = (tt, block-Decodes rest a)
blocks-Decodes (ps ∷ bs) rest a =
    let (l, r) = All-left ps (flatten bs ++ rest) (split ps bs rest a) in
    let (all, last) = blocks-Decodes bs rest r in ((block-Decodes ps l, all), last)
  where
    split :
        (ps : Entries) (bs : List Entries) (rest : Entries)
        → All FitsRecord ((ps ++ flatten bs) ++ rest)
        → All FitsRecord (ps ++ (flatten bs ++ rest))
    split ps bs rest a = subst (All FitsRecord) (append_assoc ps (flatten bs) rest) a
