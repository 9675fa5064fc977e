-- ===== src/Table/Builder/Contents.antt =====
-- What the pairs that a table builder took (src/table/sstable_builder.cpp) become: data blocks in the
-- file, the block that is not written yet, and the keys of the filter.
use smallkv.Base.{
  ℕ, ◌+◌, ◌*◌, ◌^◌, ◌≤◌, ◌<◌, ◌≡◌, ◌≢◌, refl, sym, ap, ◌∙◌, Option, some, List, [], ◌∷◌, ◌++◌,
  length, arith, append_assoc, append-nil, length-append, inl, inr, ◌⊎◌,
}
use smallkv.Base.Bytes.{Bytes, lt, compare_bytes}
use smallkv.Bloom.{BloomFilter}
use smallkv.FileWriter.Append.{Reliable, log}
use smallkv.SkipList.Chain.{Entries}
use smallkv.Table.DataBlock
use smallkv.Table.DataBlock.{DataBlockBuilder, empty_block, add_all, finish_data_block}
use smallkv.Table.IndexBlock.{add_index}
use smallkv.Table.Builder.Index.{
  block_bytes, front_of, flatten, keys_of, last_key, last_key-append, Indexed, full_block,
}
use smallkv.Table.Builder.Loads.{
  weight, weight-append, length-add, length-finish_data_block, length-index_entry,
  length-find_shortest_key,
}
use mathlib.Core.Path.{subst}
use smallkv.Table.FilterBlock.{FilterBlockBuilder, add_key}
use smallkv.Table.Builder.{SsTableBuilder, max_data_block_size, add_pair, find_shortest_key}
use smallkv.Table.Builder.Places.{IsPlaced}
use smallkv.Table.Builder.Adds.{add_pair-cases, full_place, Writes, Enters}

pub front_of-append :
    (bs : List Entries) (ps : Entries) → front_of (bs ++ ps ∷ []) ≡ front_of bs ++ block_bytes ps
unfolding front_of
front_of-append [] ps = append-nil (block_bytes ps)
front_of-append (b ∷ bs) ps =
    ap (λ t. block_bytes b ++ t) (front_of-append bs ps)
    ∙ sym (append_assoc (block_bytes b) (front_of bs) (block_bytes ps))

pub flatten-append : (bs : List Entries) (ps : Entries) → flatten (bs ++ ps ∷ []) ≡ flatten bs ++ ps
unfolding flatten
flatten-append [] ps = append-nil ps
flatten-append (b ∷ bs) ps =
    ap (λ t. b ++ t) (flatten-append bs ps) ∙ sym (append_assoc b (flatten bs) ps)

add_key-key_data :
    (f : FilterBlockBuilder) (key : Bytes)
    → key ≢ []
    → (add_key f key).key_data ≡ f.key_data ++ key ∷ []
unfolding add_key
add_key-key_data f [] h = absurd (h refl)
add_key-key_data f (k ∷ ks) h = refl

add_key-filter_policy :
    (f : FilterBlockBuilder) (key : Bytes) → (add_key f key).filter_policy ≡ f.filter_policy
unfolding add_key
add_key-filter_policy f [] = refl
add_key-filter_policy f (k ∷ ks) = refl

keys_of-append : (m : Entries) (k v : Bytes) → keys_of (m ++ (k, v) ∷ []) ≡ keys_of m ++ k ∷ []
keys_of-append [] k v = refl
keys_of-append ((j, w) ∷ m) k v = ap (λ t. j ∷ t) (keys_of-append m k v)

add_all-append :
    (b : DataBlockBuilder) (m : Entries) (k v : Bytes)
    → add_all b (m ++ (k, v) ∷ []) ≡ DataBlock.add (add_all b m) k v
unfolding add_all
add_all-append b [] k v = refl
add_all-append b ((j, w) ∷ m) k v = add_all-append (DataBlock.add b j w) m k v

module _ {File : Type 0} (write : File → Bytes → File × Option ℕ) (contents : File → Bytes) where
  -- The builder has taken these pairs, in this order: some are in data blocks of the file, and the
  -- others wait in the block that is not written yet.
  pub record IsBuilt (f : BloomFilter) (b : SsTableBuilder File) (m : Entries) : Type 0 where
    pub placed : IsPlaced write contents b
    pub blocks : List Entries
    pub current : Entries
    pub joined : flatten blocks ++ current ≡ m
    pub written : log write contents b.writer ≡ front_of blocks
    pub waiting : b.data_block ≡ add_all empty_block current
    pub alive : (current ≡ []) ⊎ (0 < length b.data_block.block)
    pub begun : (m ≡ []) ⊎ ((0 < length b.data_block.block) ⊎ (0 < length b.index_data))
    pub keyed : b.filter_block.key_data ≡ keys_of m
    pub policy : b.filter_block.filter_policy ≡ f
    pub indexed : Indexed blocks placed.entries
    pub last : b.pre_key ≡ last_key m
    pub load :
        length (log write contents b.writer)
          + length b.index_data
          + length b.data_block.block
          + 12 * length b.data_block.record_group_offset
        ≤ weight m

  -- The place of a full block, by its pairs.
  full_place-block :
      (b : SsTableBuilder File) (d : DataBlockBuilder) (blocks : List Entries) (next : Entries)
      → d ≡ add_all empty_block next
      → b.filter_offset.offset + length (finish_data_block d).block
        ≡ length (front_of (blocks ++ next ∷ []))
      → full_place write contents b d ≡ record {
        size = length (block_bytes next);
        offset = length (front_of (blocks ++ next ∷ []));
      }
  full_place-block b d blocks next same at =
      ap (λ o. record { size = length (finish_data_block d).block; offset = o }) at
      ∙ ap
          (λ c. record {
            size = length (finish_data_block c).block;
            offset = length (front_of (blocks ++ next ∷ []));
          })
          same

  -- The block with the record, by its pairs.
  add-next :
      (f : BloomFilter) (b : SsTableBuilder File) (m : Entries) (key val : Bytes)
      (t : IsBuilt f b m)
      → DataBlock.add b.data_block key val ≡ add_all empty_block (t.current ++ (key, val) ∷ [])
  unfolding add_all
  add-next f b m key val t =
      ap (λ c. DataBlock.add c key val) t.waiting
      ∙ sym (add_all-append empty_block t.current key val)

  -- A block that is written stands in the file and in the index.
  written-Indexed :
      (f : BloomFilter) (b b' : SsTableBuilder File) (m : Entries) (key val : Bytes)
      (t : IsBuilt f b m) (p' : IsPlaced write contents b')
      → Writes write contents b b' (DataBlock.add b.data_block key val)
      → Enters write contents b b' t.placed p' key (DataBlock.add b.data_block key val)
      → let blocks = t.blocks ++ (t.current ++ (key, val) ∷ []) ∷ [] in
        (log write contents b'.writer ≡ front_of blocks) × Indexed blocks p'.entries
  written-Indexed f b b' m key val t p' (_, grown) (s, found, entered, _) =
      let d = DataBlock.add b.data_block key val in
      let next = t.current ++ (key, val) ∷ [] in
      let same = add-next f b m key val t in
      let between : find_shortest_key (last_key (flatten t.blocks ++ t.current)) key ≡ some s =
        ap (λ p. find_shortest_key p key) (ap last_key t.joined ∙ sym t.last) ∙ found in
      let written : log write contents b'.writer ≡ front_of (t.blocks ++ next ∷ []) =
        grown
        ∙ ap (λ c. c ++ (finish_data_block d).block) t.written
        ∙ ap (λ c. front_of t.blocks ++ (finish_data_block c).block) same
        ∙ sym (front_of-append t.blocks next) in
      let at : b.filter_offset.offset + length (finish_data_block d).block
          ≡ length (front_of (t.blocks ++ next ∷ [])) =
        omega (
          arith,
          t.placed.counted,
          ap length grown,
          ap length written,
          length-append (log write contents b.writer) (finish_data_block d).block,
        ) in
      let place = full_place-block b d t.blocks next same at in
      (
        written,
        subst (Indexed (t.blocks ++ next ∷ []))
            (sym (entered ∙ ap (λ i. t.placed.entries ++ (s, i) ∷ []) place))
            (full_block t.blocks t.placed.entries t.current key val s t.indexed between),
      )

  module _ (os : Reliable write contents) where
    -- A key and its value, behind what the builder has.
    pub add_pair-IsBuilt :
        (f : BloomFilter) (b : SsTableBuilder File) (m : Entries) (key val : Bytes)
        → IsBuilt f b m
        → key ≢ []
        → (length (DataBlock.add b.data_block key val).block ≤ max_data_block_size)
          ⊎ ((b.pre_key ≢ []) × (compare_bytes b.pre_key key ≡ lt))
        → weight (m ++ (key, val) ∷ []) < 2 ^ 31
        → (b' : SsTableBuilder File) × (add_pair write b key val ≡ some b')
          × IsBuilt f b' (m ++ (key, val) ∷ [])
          × (b'.pre_key ≡ key)
    unfolding add_all weight
    add_pair-IsBuilt f b m key val t some_key h light =
        let d = DataBlock.add b.data_block key val in
        let more = weight-append m ((key, val) ∷ []) in
        let (size, grows, groups) = length-add b.data_block key val some_key in
        let whole = length-finish_data_block d in
        let (b', run, p', pre, filter, cases) =
          add_pair-cases write contents os b key val t.placed some_key h
            (omega (arith, light, more, grows, groups, whole, t.load)) in
        let next = t.current ++ (key, val) ∷ [] in
        let same = add-next f b m key val t in
        let keyed : b'.filter_block.key_data ≡ keys_of (m ++ (key, val) ∷ []) =
          ap (λ (g : FilterBlockBuilder). g.key_data) filter
          ∙ add_key-key_data b.filter_block key some_key
          ∙ ap (λ ks. ks ++ key ∷ []) t.keyed
          ∙ sym (keys_of-append m key val) in
        let policy : b'.filter_block.filter_policy ≡ f =
          ap (λ (g : FilterBlockBuilder). g.filter_policy) filter
          ∙ add_key-filter_policy b.filter_block key
          ∙ t.policy in
        let joined : flatten t.blocks ++ next ≡ m ++ (key, val) ∷ [] =
          sym (append_assoc (flatten t.blocks) t.current ((key, val) ∷ []))
          ∙ ap (λ n. n ++ (key, val) ∷ []) t.joined in
        let last : b'.pre_key ≡ last_key (m ++ (key, val) ∷ []) =
          pre ∙ sym (last_key-append m key val) in
        (
          b',
          run,
          elim cases [
            | inl ((block, writer, index), kept) ↦
                let some_data : 0 < length b'.data_block.block =
                  omega (arith, ap (λ (c : DataBlockBuilder). length c.block) block, size) in
                record {
                  placed = p';
                  blocks = t.blocks;
                  current = next;
                  joined = joined;
                  written = ap (log write contents) writer ∙ t.written;
                  waiting = block ∙ same;
                  alive = inr some_data;
                  begun = inr (inl some_data);
                  keyed = keyed;
                  policy = policy;
                  indexed = subst (Indexed t.blocks) (sym kept) t.indexed;
                  last = last;
                  load = omega (
                    arith,
                    t.load,
                    more,
                    grows,
                    groups,
                    ap (λ w. length (log write contents w)) writer,
                    ap length index,
                    ap (λ (c : DataBlockBuilder). length c.block) block,
                    ap (λ (c : DataBlockBuilder). length c.record_group_offset) block,
                  );
                }
            | inr ((block, grown), (s, found, entered, index)) ↦
                let info = full_place write contents b d in
                let bytes = ap length index ∙ length-append b.index_data (add_index [] s info) in
                let entry = length-index_entry s info in
                let (written, indexed) =
                  written-Indexed f b b' m key val t p' (block, grown) (s, found, entered, index) in
                record {
                  placed = p';
                  blocks = t.blocks ++ next ∷ [];
                  current = [];
                  joined =
                      append-nil (flatten (t.blocks ++ next ∷ []))
                      ∙ flatten-append t.blocks next
                      ∙ joined;
                  written = written;
                  waiting = block;
                  alive = inl refl;
                  begun = inr (inr (omega (arith, bytes, entry)));
                  keyed = keyed;
                  policy = policy;
                  indexed = indexed;
                  last = last;
                  load = omega (
                    arith,
                    t.load,
                    more,
                    grows,
                    groups,
                    whole,
                    bytes,
                    entry,
                    length-find_shortest_key b.pre_key key s found,
                    ap length grown,
                    length-append (log write contents b.writer) (finish_data_block d).block,
                    ap (λ (c : DataBlockBuilder). length c.block) block,
                    ap (λ (c : DataBlockBuilder). length c.record_group_offset) block,
                  );
                }
          ],
          pre,
        )
