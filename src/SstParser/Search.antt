-- ===== src/SstParser/Search.antt =====
-- The search for a key in a table (src/sst_parser/sst_parser.cpp): what it finds in the index, and
-- what it reads of a data block of the builder (src/table/data_block_builder.cpp).
use smallkv.Base.{
  ℕ, suc, ◌+◌, ◌-◌, ◌^◌, ◌≤◌, ◌<◌, ◌≡◌, refl, sym, ap, ◌∙◌, Bool, true, false, ◌||◌, Option, none,
  some, List, [], ◌∷◌, ◌++◌, length, take, All, ltb, ◌==◌, if◌then◌else◌, arith, append_assoc,
  append-nil, length-append, if_false, get_elem?,
}
use smallkv.Base.Maybe.{◌>>=◌}
use smallkv.Base.Bytes.{Bytes, beq, beq_self, c_str, HasNoNul, c_str_of_HasNoNul}
use smallkv.Codec.{encode_fixed32, put_fixed32}
use smallkv.Codec.RoundTrip.{length-encode_fixed32}
use smallkv.Table.DataBlock.{OffsetInfo, put_record}
use smallkv.Table.Builder.{less}
use smallkv.SstParser.{
  IndexBlock, is_negative, move, read_int, read_string, find_key_db_index, find_full_key,
  parse_record, find_record, find_in_group,
}
use smallkv.SstParser.Reads.{read_int-encode_fixed32, read_string-append}

-- The first block whose separator is behind the key; none if there is no such block.
abbrev pub IsFirst : Bytes → List IndexBlock → Option ℕ → Type 0
IsFirst key bs none = All (λ b. less key b.shortest_key ≡ false) bs
IsFirst key bs (some i) =
    (b : IndexBlock) × (get_elem? bs i ≡ some b)
    × (less key b.shortest_key ≡ true)
    × All (λ c. less key c.shortest_key ≡ false) (take i bs)

-- FindKeyDBIndex finds the first block whose separator is behind the key, and nothing exactly if
-- there is none.
pub find_key_db_index-IsFirst :
    (key : Bytes) (bs : List IndexBlock) → IsFirst key bs (find_key_db_index key bs)
unfolding find_key_db_index
find_key_db_index-IsFirst key [] = tt
find_key_db_index-IsFirst key (b ∷ bs) =
    go (less key b.shortest_key) refl (find_key_db_index key bs) (find_key_db_index-IsFirst key bs)
  where
    go :
        (t : Bool)
        → less key b.shortest_key ≡ t
        → (o : Option ℕ) → IsFirst key bs o
        → IsFirst key (b ∷ bs) (if t then some 0 else o >>= λ i. some (suc i))
    go true e o f = (b, refl, e, tt)
    go false e none f = (e, f)
    go false e (some i) (c, at, hit, before) = (c, at, hit, (e, before))

-- The records of the first of a group: no shared part.
put_record-first :
    (pre key value rest : Bytes)
    → put_record pre 0 key value ++ rest
      ≡ pre
        ++ (encode_fixed32 0
            ++ (encode_fixed32 (length key)
                ++ (encode_fixed32 (length value) ++ (key ++ (value ++ rest)))))
unfolding put_record put_fixed32
put_record-first pre key value rest =
    let n : length key - 0 ≡ length key = omega arith in simp (n, append_assoc)

module _ (content pre key value rest : Bytes) (e : content ≡ put_record pre 0 key value ++ rest)
    (block : ℕ) (group : OffsetInfo) (p : move block group.offset ≡ some (length pre)) where
  abbrev behind : Bytes
  behind = encode_fixed32 (length value) ++ (key ++ (value ++ rest))

  parts : content ≡ pre ++ (encode_fixed32 0 ++ (encode_fixed32 (length key) ++ behind))
  parts = e ∙ put_record-first pre key value rest

  shared : read_int content (length pre) ≡ some 0
  shared =
      ap (λ c. read_int c (length pre)) parts
      ∙ read_int-encode_fixed32 pre (encode_fixed32 (length key) ++ behind) 0 (length pre) refl

  unshared : length key < 2 ^ 31 → read_int content (length pre + 4) ≡ some (length key)
  unshared h =
      ap (λ c. read_int c (length pre + 4))
        (parts ∙ sym (append_assoc pre (encode_fixed32 0) (encode_fixed32 (length key) ++ behind)))
      ∙ read_int-encode_fixed32 (pre ++ encode_fixed32 0) behind (length key) (length pre + 4)
          (omega (arith, length-append pre (encode_fixed32 0), length-encode_fixed32 0))
      ∙ ap some (omega arith)

  text : length key < 2 ^ 31 → read_string content (length pre + 12) (length key) ≡ some key
  text h =
      let n = encode_fixed32 (length key) in
      let v = encode_fixed32 (length value) in
      let start = ((pre ++ encode_fixed32 0) ++ n) ++ v in
      let joined : content ≡ start ++ (key ++ (value ++ rest)) =
        parts
        ∙ sym (append_assoc pre (encode_fixed32 0) (n ++ behind))
        ∙ sym (append_assoc (pre ++ encode_fixed32 0) n behind)
        ∙ sym (append_assoc ((pre ++ encode_fixed32 0) ++ n) v (key ++ (value ++ rest))) in
      ap (λ c. read_string c (length pre + 12) (length key)) joined
      ∙ read_string-append start key (value ++ rest) (length pre + 12)
          (omega (
            arith,
            length-append ((pre ++ encode_fixed32 0) ++ n) v,
            length-append (pre ++ encode_fixed32 0) n,
            length-append pre (encode_fixed32 0),
            length-encode_fixed32 0,
            length-encode_fixed32 (length key),
            length-encode_fixed32 (length value),
          ))
          h

  -- FindFullKeyByRP, at a group that starts with a record of the builder which shares nothing,
  -- gives the key of that record; the key has 1 to 2^31 - 1 bytes, and the group some records,
  -- fewer than 2^31.
  pub find_full_key-put_record :
      (record_num : ℕ)
      → 0 < record_num
      → record_num < 2 ^ 31
      → 0 < length key
      → length key < 2 ^ 31
      → find_full_key content block record_num group ≡ some key
  unfolding find_full_key
  find_full_key-put_record n some_records few some_key small =
      let t₁ : ((n == 0) || is_negative n) ≡ false = ground arith in
      let t₂ : ltb 0 (length key) ≡ true = ground arith in
      if_false _ _ _ t₁
      ∙ rw (p, ◌>>=◌) (rw (shared, ◌>>=◌) (rw (unshared small, ◌>>=◌) (rw t₂ (text small))))

  -- The first record of a group is read with all its lengths zero.
  parse_record-first : parse_record content (length pre) ≡ some ([], [], 12)
  unfolding parse_record read_string
  parse_record-first = rw (shared, ◌>>=◌) refl

  find_record-first :
      (n : ℕ)
      → HasNoNul key
      → find_record (suc n) content (length pre) key key ≡ some ([], length pre + 12)
  unfolding find_record
  find_record-first n whole =
      let same : beq (c_str key ++ []) key ≡ true =
        ap (λ k. beq k key) (append-nil (c_str key) ∙ c_str_of_HasNoNul key whole) ∙ beq_self key in
      rw (parse_record-first, ◌>>=◌, same) refl

  -- The search of a group does not find the first record that the builder wrote there, under its
  -- own key without a zero byte: since all three lengths are read where the shared length stands,
  -- the value comes out empty, and the answer is that there is none. The group has room for the
  -- lengths.
  pub find_in_group-first :
      (n bound : ℕ)
      → HasNoNul key
      → move (length pre) group.size ≡ some bound
      → length pre + 12 ≤ bound
      → find_in_group content block key
          (record { record_num = suc n; rp_offset = group; fullkey = key })
        ≡ some none
  unfolding find_in_group
  find_in_group-first n bound whole ends fits =
      let inside : ltb bound (length pre + 12) ≡ false = ground arith in
      rw (p, ◌>>=◌) (rw (ends, ◌>>=◌) (rw (find_record-first n whole, ◌>>=◌, inside) refl))
