-- ===== src/Table/Builder/Whole.antt =====
-- A table from its first pair to its last (src/table/sstable_builder.cpp), over a system whose writes
-- are complete: the pairs that were added, and what the file holds.
use smallkv.Base.{
  ltb, false, ℕ, ◌+◌, ◌*◌, ◌^◌, ◌≤◌, ◌<◌, ◌≡◌, ◌≢◌, refl, sym, ap, ◌∙◌, true, Option, some, List,
  [], ◌∷◌, ◌++◌, length, All, arith, append_assoc, append-nil, length-drop, inl, inr, ◌⊎◌, if_true,
  if_false, lt→ltb,
}
use smallkv.Base.Maybe.{◌>>=◌}
use smallkv.Base.Bytes.{Bytes, lt, compare_bytes}
use smallkv.Bloom.{BloomFilter, exists_key}
use smallkv.Bloom.Members.{IsByte}
use smallkv.FileWriter.{FileWriter}
use smallkv.FileWriter.Append.{IsValid, Reliable, log}
use smallkv.SkipList.Chain.{Entries}
use smallkv.SkipList.Laws.{Increasing}
use smallkv.SkipList.Iterator.{each_entry}
use smallkv.Table.DataBlock
use smallkv.Table.DataBlock.{empty_block, add_all, finish_data_block, shared_for}
use smallkv.Table.DataBlock.Decode.{length-record_bytes, add-block}
use smallkv.Table.FilterBlock.{FilterBlockBuilder, finish_filter_block}
use smallkv.Table.FilterBlock.Keys.{finds}
use smallkv.Table.IndexBlock.{Entry, index_bytes}
use smallkv.Table.Builder.{
  SsTableBuilder, max_data_block_size, make_builder, add_pair, finish_sst, raise_last,
}
use smallkv.Table.Builder.Places.{IsTable, IsSmall, final_filter, last_block, last_entry}
use smallkv.Table.Builder.Layout.{finish_sst-IsTable}
use smallkv.Table.Builder.Contents.{IsBuilt, add_pair-IsBuilt}
use smallkv.Table.Builder.Index.{
  front_of, flatten, keys_of, last_key, last_key-weight, Indexed, no_block, tail_bytes, tail_entry,
  Decodes, blocks-Decodes, weight-FitsRecord,
}
use smallkv.Table.Builder.Loads.{weight, weight-append, length-finish_data_block}
use smallkv.Table.DataBlock.{DataBlockBuilder}
use smallkv.Table.DataBlock.Decode.{FitsRecord}
use mathlib.Core.Path.{subst}

abbrev pub NamesKey : Bytes × Bytes → Type 0
NamesKey e = e.0 ≢ []

-- The most that the pairs of a table may weigh, so that its places are those of an `int32_t`.
abbrev pub table_limit : ℕ
table_limit = 10 ^ 9

-- A pair that fits in an empty block.
abbrev pub FitsBlock : Bytes × Bytes → Type 0
FitsBlock e = 12 + length e.0 + length e.1 ≤ max_data_block_size

-- The record is the first one of its block.
length-first :
    (k v : Bytes) → k ≢ [] → length (DataBlock.add empty_block k v).block ≤ 12 + length k + length v
length-first k v some_key =
    let (grown, _, _) = add-block empty_block k v some_key in
    omega (
      arith,
      ap length grown,
      length-record_bytes (shared_for empty_block k) k v,
      length-drop (shared_for empty_block k) k,
    )

-- Each key behind `pre` is found.
all_found :
    (b : FilterBlockBuilder) (pre : List Bytes) (m : Entries) (g : BloomFilter)
    → b.key_data ≡ pre ++ keys_of m
    → All IsByte b.filter_policy.bits_array
    → 0 < length b.filter_policy.bits_array
    → length b.filter_policy.bits_array * 8 < 2 ^ 32
    → All NamesKey m
    → g ≡ (finish_filter_block (finish_filter_block b)).filter_policy
    → All (λ k. exists_key g k ≡ true) (keys_of m)
all_found b pre [] g keyed bytes some_bits few named e = tt
all_found b pre ((k, v) ∷ m) g keyed bytes some_bits few named e =
    let (hit, _, _) = finds b pre k (keys_of m) keyed bytes some_bits few named.0 in
    (
      ap (λ h. exists_key h k) e ∙ hit,
      all_found b (pre ++ k ∷ []) m g (keyed ∙ sym (append_assoc pre (k ∷ []) (keys_of m))) bytes
          some_bits few named.1 e,
    )

module _ {File : Type 0} (write : File → Bytes → File × Option ℕ) (contents : File → Bytes) where
  -- A table with these pairs: data blocks whose records read back as the pairs, in this order, an
  -- index with an entry for each block, and a filter that finds every key.
  pub record TableOf (file : Bytes) (m : Entries) : Type 0 where
    pub table : IsTable write contents file
    pub blocks : List Entries
    pub rest : Entries
    pub joined : flatten blocks ++ rest ≡ m
    pub front : table.front ≡ front_of blocks ++ tail_bytes rest
    pub readable : All Decodes blocks × Decodes rest
    pub full : List Entry
    pub indexed : Indexed blocks full
    pub entries : table.entries ≡ full ++ tail_entry (last_key m) (length (front_of blocks)) rest
    pub found :
        All
          (λ k.
            exists_key (record { hash_func_num = table.hash_num; bits_array = table.bits }) k
            ≡ true)
          (keys_of m)
    pub room : 0 < length table.bits

  make_builder-IsBuilt :
      (f : FilterBlockBuilder) (w : FileWriter File)
      → IsValid w
      → log write contents w ≡ []
      → f.key_data ≡ []
      → IsBuilt write contents f.filter_policy (make_builder f w) []
  unfolding make_builder flatten front_of add_all index_bytes last_key weight
  make_builder-IsBuilt f w v e h = record {
    placed = record { writable = v; counted = ap length e; entries = []; indexed = refl };
    blocks = [];
    current = [];
    joined = refl;
    written = e;
    waiting = refl;
    alive = inl refl;
    begun = inl refl;
    keyed = h;
    policy = refl;
    indexed = no_block;
    last = refl;
    load = omega (arith, ap length e);
  }

  module _ (os : Reliable write contents) where
    -- Pairs behind a pair.
    each_entry-IsBuilt :
        (f : BloomFilter) (b : SsTableBuilder File) (m rest : Entries)
        → IsBuilt write contents f b m
        → b.pre_key ≢ []
        → All (λ e. compare_bytes b.pre_key e.0 ≡ lt) rest
        → Increasing rest
        → All NamesKey rest
        → weight (m ++ rest) < 2 ^ 31
        → (b' : SsTableBuilder File) × (each_entry (add_pair write) rest b ≡ some b')
          × IsBuilt write contents f b' (m ++ rest)
    unfolding each_entry weight
    each_entry-IsBuilt f b m [] t pre above sorted named light =
        (b, refl, subst (IsBuilt write contents f b) (sym (append-nil m)) t)
    each_entry-IsBuilt f b m ((k, v) ∷ rest) t pre above sorted named light =
        let sizes = weight-append m ((k, v) ∷ rest) in
        let one = weight-append m ((k, v) ∷ []) in
        let (b₁, run₁, t₁, last) =
          add_pair-IsBuilt write contents os f b m k v t named.0 (inr (pre, above.0))
            (omega (arith, light, sizes, one)) in
        let (b₂, run₂, t₂) =
          each_entry-IsBuilt f b₁ (m ++ (k, v) ∷ []) rest t₁ (λ e. named.0 (sym last ∙ e))
            (subst (λ p. All (λ e. compare_bytes p e.0 ≡ lt) rest) (sym last) sorted.0) sorted.1
            named.1 (omega (arith, light, ap weight (append_assoc m ((k, v) ∷ []) rest))) in
        (
          b₂,
          rw (run₁, ◌>>=◌) run₂,
          subst (IsBuilt write contents f b₂) (append_assoc m ((k, v) ∷ []) rest) t₂,
        )

    -- All pairs of a table.
    pub make_builder-each_entry :
        (f : FilterBlockBuilder) (w : FileWriter File) (k v : Bytes) (rest : Entries)
        → IsValid w
        → log write contents w ≡ []
        → f.key_data ≡ []
        → Increasing ((k, v) ∷ rest)
        → All NamesKey ((k, v) ∷ rest)
        → FitsBlock (k, v)
        → weight ((k, v) ∷ rest) < 2 ^ 31
        → (b : SsTableBuilder File) × (each_entry
              (add_pair write)
              ((k, v) ∷ rest)
              (make_builder f w)
            ≡ some b)
          × IsBuilt write contents f.filter_policy b ((k, v) ∷ rest)
    unfolding each_entry make_builder weight
    make_builder-each_entry f w k v rest valid e h sorted named fits light =
        let (b₁, run₁, t₁, last) =
          add_pair-IsBuilt write contents os f.filter_policy (make_builder f w) [] k v
            (make_builder-IsBuilt f w valid e h) named.0
            (inl (omega (arith, fits, length-first k v named.0))) (omega (arith, light)) in
        let (b₂, run₂, t₂) =
          each_entry-IsBuilt f.filter_policy b₁ ((k, v) ∷ []) rest t₁ (λ n. named.0 (sym last ∙ n))
            (subst (λ p. All (λ e. compare_bytes p e.0 ≡ lt) rest) (sym last) sorted.0) sorted.1
            named.1 (omega (arith, light)) in
        (b₂, rw (run₁, ◌>>=◌) run₂, t₂)

    -- What is left for the last block.
    tail_lem :
        (b : SsTableBuilder File) (c : Entries)
        → b.data_block ≡ add_all empty_block c
        → (c ≡ []) ⊎ (0 < length b.data_block.block)
        → (last_block write contents b ≡ tail_bytes c)
          × (last_entry write contents b ≡ tail_entry b.pre_key b.filter_offset.offset c)
    unfolding add_all tail_bytes tail_entry
    tail_lem b [] w a =
        let t : ltb 0 (length b.data_block.block) ≡ false =
          ground (arith, ap (λ (d : DataBlockBuilder). length d.block) w) in
        (if_false _ _ _ t, if_false _ _ _ t)
    tail_lem b (e ∷ c) w (inl n) = absurd (cc n)
    tail_lem b (e ∷ c) w (inr h) = (
      if_true _ _ _ (lt→ltb 0 (length b.data_block.block) h)
          ∙ ap (λ d. (finish_data_block d).block) w,
      if_true _ _ _ (lt→ltb 0 (length b.data_block.block) h)
          ∙ ap
              (λ d.
                (
                  raise_last b.pre_key,
                  record {
                    size = length (finish_data_block d).block;
                    offset = b.filter_offset.offset;
                  },
                )
                ∷ [])
              w,
    )

    -- The end of the table.
    pub finish_sst-TableOf :
        (fresh : FilterBlockBuilder) (f : BloomFilter) (b : SsTableBuilder File) (k v : Bytes)
        (rest : Entries)
        → IsBuilt write contents f b ((k, v) ∷ rest)
        → All NamesKey ((k, v) ∷ rest)
        → All IsByte f.bits_array
        → 0 < length f.bits_array
        → length f.bits_array * 8 < 2 ^ 32
        → weight ((k, v) ∷ rest) ≤ table_limit
        → (b' : SsTableBuilder File) × (finish_sst write fresh b ≡ some b')
          × ((t : TableOf (contents b'.writer.file) ((k, v) ∷ rest)) × (t.table.hash_num
                ≡ f.hash_func_num))
          × (b'.writer.closed ≡ true)
    finish_sst-TableOf fresh f b k v rest t named bytes some_bits few light =
        let begun : (0 < length b.data_block.block) ⊎ (0 < length b.index_data) = elim t.begun [
          | inl e ↦ absurd (cc e)
          | inr h ↦ h
        ] in
        let bytes' = subst (λ (g : BloomFilter). All IsByte g.bits_array) (sym t.policy) bytes in
        let some_bits' =
          subst (λ (g : BloomFilter). 0 < length g.bits_array) (sym t.policy) some_bits in
        let few' =
          subst (λ (g : BloomFilter). length g.bits_array * 8 < 2 ^ 32) (sym t.policy) few in
        let m = (k, v) ∷ rest in
        let last = ap length t.last in
        let small : IsSmall write contents b = record {
          block = omega (arith, light, t.load, length-finish_data_block b.data_block);
          filter = omega (arith, few');
          index = omega (arith, light, t.load, last, last_key-weight m);
        } in
        let (b', run, (table, (bits, num), front, entered), shut) =
          finish_sst-IsTable write contents os fresh b t.placed begun small in
        let (_, size, hashes) =
          finds b.filter_block [] k (keys_of rest) t.keyed bytes' some_bits' few' named.0 in
        let (tail, entry) = tail_lem b t.current t.waiting t.alive in
        let fits = weight-FitsRecord m named (omega (arith, light)) in
        (
          b',
          run,
          (
            record {
              table = table;
              blocks = t.blocks;
              rest = t.current;
              joined = t.joined;
              front =
                  front
                  ∙ ap (λ c. c ++ last_block write contents b) t.written
                  ∙ ap (λ c. front_of t.blocks ++ c) tail;
              readable =
                  blocks-Decodes t.blocks t.current (subst (All FitsRecord) (sym t.joined) fits);
              full = t.placed.entries;
              indexed = t.indexed;
              entries =
                  entered
                  ∙ ap (λ c. t.placed.entries ++ c) entry
                  ∙ ap (λ c. t.placed.entries ++ tail_entry c b.filter_offset.offset t.current)
                      t.last
                  ∙ ap (λ n. t.placed.entries ++ tail_entry (last_key m) n t.current)
                      (sym t.placed.counted ∙ ap length t.written);
              found =
                  all_found b.filter_block [] ((k, v) ∷ rest)
                    (record { hash_func_num = table.hash_num; bits_array = table.bits }) t.keyed
                    bytes' some_bits' few' named
                    (ap (λ n. record { hash_func_num = n; bits_array = table.bits }) num
                      ∙ ap
                          (λ c. record {
                            hash_func_num = (final_filter write contents b).hash_func_num;
                            bits_array = c;
                          })
                          bits);
              room = omega (arith, ap length bits, size, some_bits');
            },
            num ∙ hashes ∙ ap (λ (g : BloomFilter). g.hash_func_num) t.policy,
          ),
          shut,
        )
