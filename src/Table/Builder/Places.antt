-- ===== src/Table/Builder/Places.antt =====
-- Where the parts of a table stand in its file (src/table/sstable_builder.cpp): what that means of a
-- builder and of a file, and the steps that end a table, over a system whose writes are complete.
use smallkv.Base.{
  ℕ, ◌+◌, ◌^◌, ◌<◌, ◌≡◌, refl, sym, ap, ◌∙◌, true, false, Option, some, List, [], ◌∷◌, ◌++◌, length,
  ◌==◌, arith, length-append, inl, inr, ◌⊎◌, lt→ltb, nlt→ltb, ltb, if◌then◌else◌, if_true, if_false,
  append-nil,
}
use smallkv.Base.Maybe.{◌>>=◌}
use smallkv.Base.Bytes.{Bytes}
use smallkv.FileWriter.Append.{
  IsValid, Reliable, log, log_flushed, append-log, flush-contents, close-contents,
}
use smallkv.Table.DataBlock
use smallkv.Table.DataBlock.{as_word, OffsetInfo, finish_data_block}
use smallkv.Bloom.{BloomFilter}
use smallkv.Table.FilterBlock.{finish_filter_block}
use smallkv.Table.IndexBlock.{add_index, add_footer}
use smallkv.Table.Builder.{SsTableBuilder, raise_last, finish_last, write_tail}
use smallkv.Table.Builder.Loads.{length-index_entry, length-add_footer, length-raise_last}
use smallkv.Table.IndexBlock.{Entry, index_bytes, index_bytes-append}
use smallkv.Codec.{encode_fixed32}
use native.Mathlib.Decide.{dec_lt}

module _ {File : Type 0} (write : File → Bytes → File × Option ℕ) (contents : File → Bytes) where
  -- The writer is valid, the offset counts the bytes that went to it, and the index so far is a
  -- list of entries.
  pub record IsPlaced (b : SsTableBuilder File) : Type 0 where
    pub writable : IsValid b.writer
    pub counted : length (log write contents b.writer) ≡ b.filter_offset.offset
    pub entries : List Entry
    pub indexed : b.index_data ≡ index_bytes entries

  -- A table file: what stands before the filter, the filter, the index, and the footer, which
  -- says where the filter and the index stand.
  pub record IsTable (file : Bytes) : Type 0 where
    pub front : Bytes
    pub filter : Bytes
    pub bits : Bytes
    pub hash_num : ℕ
    pub filtered : filter ≡ bits ++ encode_fixed32 hash_num
    pub index : Bytes
    pub entries : List Entry
    pub indexed : index ≡ index_bytes entries
    pub filter_at : OffsetInfo
    pub index_at : OffsetInfo
    pub joined : file ≡ ((front ++ filter) ++ index) ++ add_footer [] filter_at index_at
    pub filter_place : (filter_at.offset ≡ length front) × (filter_at.size ≡ length filter)
    pub index_place : (index_at.offset ≡ length (front ++ filter)) × (index_at.size ≡ length index)

  -- The filter of the table is this one.
  abbrev pub HasFilter : BloomFilter → (file : Bytes) → IsTable file → Type 0
  HasFilter f file t = (t.bits ≡ f.bits_array) × (t.hash_num ≡ f.hash_func_num)

  -- The filter that the builder ends with, as it is finished twice.
  abbrev pub final_filter : SsTableBuilder File → BloomFilter
  final_filter b = (finish_filter_block (finish_filter_block b.filter_block)).filter_policy

  -- The last data block, if there is one.
  abbrev pub last_block : SsTableBuilder File → Bytes
  last_block b =
      if ltb 0 (length b.data_block.block) then (finish_data_block b.data_block).block else []

  -- The index entry of the last data block, if there is one: where it stands, under the last key
  -- with its last byte raised.
  abbrev pub last_entry : SsTableBuilder File → List Entry
  last_entry b =
      let place : OffsetInfo = record {
        size = length (finish_data_block b.data_block).block;
        offset = b.filter_offset.offset;
      } in
      if ltb 0 (length b.data_block.block) then (raise_last b.pre_key, place) ∷ [] else []

  -- What is left to write has lengths that an `int32_t` holds.
  pub record IsSmall (b : SsTableBuilder File) : Type 0 where
    pub block : length (finish_data_block b.data_block).block < 2 ^ 31
    pub filter : length b.filter_block.filter_policy.bits_array + 4 < 2 ^ 31
    pub index : length b.index_data + length b.pre_key + 12 < 2 ^ 31

  module _ (os : Reliable write contents) where
    -- The tail, behind what is already written.
    pub write_tail-IsTable :
        (b : SsTableBuilder File) (p : IsPlaced b)
        → b.filter_offset.size ≡ length b.filter_block.block
        → (bits : Bytes) (hash_num : ℕ) → b.filter_block.block ≡ bits ++ encode_fixed32 hash_num
        → 0 < length b.index_data
        → length b.filter_block.block < 2 ^ 31
        → length b.index_data < 2 ^ 31
        → (b' : SsTableBuilder File) × (write_tail write b ≡ some b')
          × ((t : IsTable (contents b'.writer.file)) × (t.bits ≡ bits)
              × (t.hash_num ≡ hash_num)
              × (t.front ≡ log write contents b.writer)
              × (t.entries ≡ p.entries))
          × (b'.writer.closed ≡ true)
    unfolding write_tail
    write_tail-IsTable b p sized bits hash_num filtered h small₁ small₂ =
        let at : OffsetInfo = record {
          size = length b.index_data;
          offset = b.filter_offset.offset + b.filter_offset.size;
        } in
        let (w₁, run₁, v₁, log₁) =
          append-log write contents os b.writer b.filter_block.block false p.writable small₁ in
        let (w₂, run₂, v₂, log₂) = append-log write contents os w₁ b.index_data false v₁ small₂ in
        let (w₃, run₃, v₃, log₃) =
          append-log write contents os w₂ (add_footer [] b.filter_offset at) false v₂
            (omega (arith, length-add_footer b.filter_offset at)) in
        let (w₄, run₄, v₄, all₄, zeroed) = flush-contents write contents os w₃ v₃ in
        let (w₅, run₅, all₅, shut) = close-contents write contents os w₄ v₄ in
        let some_index : (length b.index_data == 0) ≡ false = ground arith in
        let table : IsTable (contents w₅.file) = record {
          front = log write contents b.writer;
          filter = b.filter_block.block;
          bits = bits;
          hash_num = hash_num;
          filtered = filtered;
          index = b.index_data;
          entries = p.entries;
          indexed = p.indexed;
          filter_at = b.filter_offset;
          index_at = at;
          joined =
              all₅
              ∙ log_flushed write contents w₄ zeroed
              ∙ all₄
              ∙ log₃
              ∙ ap (λ t. t ++ add_footer [] b.filter_offset at)
                  (log₂ ∙ ap (λ t. t ++ b.index_data) log₁);
          filter_place = (sym p.counted, sized);
          index_place = (
            omega (
              arith,
              p.counted,
              sized,
              length-append (log write contents b.writer) b.filter_block.block,
            ),
            refl,
          );
        } in
        (
          record b { writer = w₅; index_offset = at },
          rw (run₁, ◌>>=◌)
              (rw (run₂, ◌>>=◌)
                (rw (some_index, run₃, ◌>>=◌) (rw (run₄, ◌>>=◌) (rw (run₅, ◌>>=◌) refl)))),
          (table, refl, refl, refl, refl),
          shut,
        )

    -- The last data block leaves an index that is not empty.
    pub finish_last-IsPlaced :
        (b : SsTableBuilder File) (p : IsPlaced b)
        → (0 < length b.data_block.block) ⊎ (0 < length b.index_data)
        → IsSmall b
        → (b' : SsTableBuilder File) × (finish_last write b ≡ some b')
          × ((p' : IsPlaced b') × (p'.entries ≡ p.entries ++ last_entry b))
          × ((0 < length b'.index_data) × (length b'.index_data < 2 ^ 31))
          × (b'.filter_block ≡ b.filter_block)
          × (log write contents b'.writer ≡ log write contents b.writer ++ last_block b)
    unfolding finish_last
    finish_last-IsPlaced b p h small = elim (dec_lt 0 (length b.data_block.block)) [
      | yes q ↦
          let d = finish_data_block b.data_block in
          let entry =
            add_index [] (raise_last b.pre_key)
              (record { size = length d.block; offset = b.filter_offset.offset }) in
          let (w, run, v, grown) =
            append-log write contents os b.writer d.block false p.writable small.block in
          (
            record b {
              data_block = DataBlock.clear d;
              writer = w;
              pre_key = raise_last b.pre_key;
              filter_offset = record b.filter_offset {
                offset = b.filter_offset.offset + length d.block;
              };
              index_data = b.index_data ++ entry;
            },
            rw (lt→ltb 0 (length b.data_block.block) q, run, ◌>>=◌) refl,
            (
              record {
                writable = v;
                counted =
                    ap length grown
                    ∙ length-append (log write contents b.writer) d.block
                    ∙ ap (λ n. n + length d.block) p.counted;
                entries =
                    p.entries
                    ++ (
                      raise_last b.pre_key,
                      record { size = length d.block; offset = b.filter_offset.offset },
                    )
                      ∷ [];
                indexed =
                    ap (λ t. t ++ entry) p.indexed
                    ∙ sym (
                        index_bytes-append p.entries (raise_last b.pre_key)
                          (record { size = length d.block; offset = b.filter_offset.offset }));
              },
              ap (λ t. p.entries ++ t)
                  (sym (if_true _ _ _ (lt→ltb 0 (length b.data_block.block) q))),
            ),
            (
              omega (
                arith,
                length-append b.index_data entry,
                length-index_entry (raise_last b.pre_key)
                    (record { size = length d.block; offset = b.filter_offset.offset }),
              ),
              omega (
                arith,
                length-append b.index_data entry,
                length-index_entry (raise_last b.pre_key)
                    (record { size = length d.block; offset = b.filter_offset.offset }),
                length-raise_last b.pre_key,
                small.index,
              ),
            ),
            refl,
            grown
                ∙ ap (λ t. log write contents b.writer ++ t)
                    (sym (if_true _ _ _ (lt→ltb 0 (length b.data_block.block) q))),
          )
      | no q ↦ (
        b,
        rw (nlt→ltb 0 (length b.data_block.block) q) refl,
        (
          p,
          sym (append-nil p.entries)
              ∙ ap (λ t. p.entries ++ t)
                  (sym (if_false _ _ _ (nlt→ltb 0 (length b.data_block.block) q))),
        ),
        (elim h [ inl e ↦ absurd (q e) | inr e ↦ e ], omega (arith, small.index)),
        refl,
        sym (
            ap (λ t. log write contents b.writer ++ t)
              (if_false _ _ _ (nlt→ltb 0 (length b.data_block.block) q))
            ∙ append-nil (log write contents b.writer)),
      )
    ]
