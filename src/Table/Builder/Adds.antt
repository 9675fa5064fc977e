-- ===== src/Table/Builder/Adds.antt =====
-- A pair that is added to the builder of a table (src/table/sstable_builder.cpp), over a system whose
-- writes are complete.
use smallkv.Base.{
  ℕ, ◌^◌, ◌<◌, ◌+◌, ◌≤◌, ◌<◌, ◌≡◌, ◌≢◌, refl, sym, ap, ◌∙◌, true, false, Option, some, [], ◌∷◌,
  ◌++◌, length, arith, length-append, Option-cases, inl, inr, ◌⊎◌, lt→ltb, nlt→ltb,
}
use smallkv.Base.Maybe.{◌>>=◌}
use smallkv.Base.Bytes.{Bytes, lt, compare_bytes}
use smallkv.FileWriter.Append.{Reliable, log, append-log}
use smallkv.Table.DataBlock
use smallkv.Table.DataBlock.{DataBlockBuilder, empty_block, OffsetInfo, finish_data_block}
use smallkv.Table.FilterBlock.{add_key}
use smallkv.Table.IndexBlock.{add_index}
use smallkv.Table.Builder.{
  SsTableBuilder, find_shortest_key, less, max_data_block_size, write_block, add_pair,
}
use smallkv.Table.Builder.Sizes.{less_lem}
use smallkv.Table.IndexBlock.{index_bytes-append}
use native.Mathlib.Decide.{dec_lt}
use smallkv.Table.Builder.Places.{IsPlaced}

module _ {File : Type 0} (write : File → Bytes → File × Option ℕ) (contents : File → Bytes) where
  -- The block with the record stays, and nothing is written.
  abbrev pub Keeps : SsTableBuilder File → SsTableBuilder File → DataBlockBuilder → Type 0
  Keeps b b' d = (b'.data_block ≡ d) × (b'.writer ≡ b.writer) × (b'.index_data ≡ b.index_data)

  -- The block with the record is written, and a new one begins.
  abbrev pub Writes : SsTableBuilder File → SsTableBuilder File → DataBlockBuilder → Type 0
  Writes b b' d =
      (b'.data_block ≡ empty_block)
      × (log write contents b'.writer ≡ log write contents b.writer ++ (finish_data_block d).block)

  -- The place of such a block in the index: its offset is where it ends.
  abbrev pub full_place : SsTableBuilder File → DataBlockBuilder → OffsetInfo
  full_place b d =
      let size = length (finish_data_block d).block in
      record { size = size; offset = b.filter_offset.offset + size }

  -- The index has one more entry, under a separator between the key before and this one.
  abbrev pub Enters :
      (b b' : SsTableBuilder File)
      → IsPlaced write contents b
      → IsPlaced write contents b'
      → Bytes
      → DataBlockBuilder
      → Type 0
  Enters b b' p p' key d =
      (s : Bytes) × (find_shortest_key b.pre_key key ≡ some s)
      × (p'.entries ≡ p.entries ++ (s, full_place b d) ∷ [])
      × (b'.index_data ≡ b.index_data ++ add_index [] s (full_place b d))

  module _ (os : Reliable write contents) where
    -- A key that follows the key before it has a separator.
    shortest_exists :
        (pre key : Bytes)
        → pre ≢ []
        → key ≢ []
        → compare_bytes pre key ≡ lt
        → (s : Bytes) × (find_shortest_key pre key ≡ some s)
    unfolding find_shortest_key
    shortest_exists [] key e f h = absurd (e refl)
    shortest_exists (x ∷ xs) [] e f h = absurd (f refl)
    shortest_exists (x ∷ xs) (y ∷ ys) e f h =
        let smaller : less (x ∷ xs) (y ∷ ys) ≡ true = less_lem (x ∷ xs) (y ∷ ys) h in
        elim (Option-cases (find_shortest_key (x ∷ xs) (y ∷ ys))) [
          | inl n ↦ absurd (ground (arith, n, smaller))
          | inr s ↦ s
        ]

    -- add ends without a failed assertion if the record fits or a key stands before it.
    pub add_pair-cases :
        (b : SsTableBuilder File) (key val : Bytes) (p : IsPlaced write contents b)
        → key ≢ []
        → (length (DataBlock.add b.data_block key val).block ≤ max_data_block_size)
          ⊎ ((b.pre_key ≢ []) × (compare_bytes b.pre_key key ≡ lt))
        → length (finish_data_block (DataBlock.add b.data_block key val)).block < 2 ^ 31
        → (b' : SsTableBuilder File) × (add_pair write b key val ≡ some b')
          × (p' : IsPlaced write contents b') × (b'.pre_key ≡ key)
          × (b'.filter_block ≡ add_key b.filter_block key)
          × ((Keeps b b' (DataBlock.add b.data_block key val) × (p'.entries ≡ p.entries))
              ⊎ (Writes b b' (DataBlock.add b.data_block key val)
                  × Enters b b' p p' key (DataBlock.add b.data_block key val)))
    unfolding add_pair write_block DataBlock.clear
    add_pair-cases b [] val p f h small = absurd (f refl)
    add_pair-cases b (k ∷ ks) val p f h small =
        let d₁ = DataBlock.add b.data_block (k ∷ ks) val in
        elim (dec_lt max_data_block_size (length d₁.block)) [
          | yes q ↦
              let d = finish_data_block d₁ in
              let (w, run, v, grown) =
                append-log write contents os b.writer d.block false p.writable small in
              let (s, found) : (s : Bytes) × (find_shortest_key b.pre_key (k ∷ ks) ≡ some s) =
                elim h [
                  | inl fits ↦ absurd (omega (arith, fits, q))
                  | inr (e, before) ↦ shortest_exists b.pre_key (k ∷ ks) e f before
                ] in
              let size = length d.block in
              let offset = b.filter_offset.offset + size in
              (
                record b {
                  data_block = DataBlock.clear d;
                  filter_block = add_key b.filter_block (k ∷ ks);
                  writer = w;
                  filter_offset = record b.filter_offset { offset = offset };
                  index_data =
                      b.index_data ++ add_index [] s (record { size = size; offset = offset });
                  key_count = b.key_count + 1;
                  pre_key = k ∷ ks;
                },
                rw (lt→ltb max_data_block_size (length d₁.block) q, run, ◌>>=◌)
                    (rw (found, ◌>>=◌) refl),
                record {
                  writable = v;
                  counted =
                      ap length grown
                      ∙ length-append (log write contents b.writer) d.block
                      ∙ ap (λ n. n + length d.block) p.counted;
                  entries = p.entries ++ (s, record { size = size; offset = offset }) ∷ [];
                  indexed =
                      ap (λ t. t ++ add_index [] s (record { size = size; offset = offset }))
                        p.indexed
                      ∙ sym (
                          index_bytes-append p.entries s (record { size = size; offset = offset }));
                },
                refl,
                refl,
                inr ((refl, grown), (s, found, refl, refl)),
              )
          | no q ↦ (
            record b {
              data_block = d₁;
              filter_block = add_key b.filter_block (k ∷ ks);
              key_count = b.key_count + 1;
              pre_key = k ∷ ks;
            },
            rw (nlt→ltb max_data_block_size (length d₁.block) q, ◌>>=◌) refl,
            record {
              writable = p.writable;
              counted = p.counted;
              entries = p.entries;
              indexed = p.indexed;
            },
            refl,
            refl,
            inl ((refl, refl, refl), refl),
          )
        ]
