-- ===== src/Table/IndexBlock.antt =====
-- The index block and the footer (src/table/index_block_builder.h, src/table/index_block_builder.cpp,
-- src/table/footer_builder.h, src/table/footer_builder.cpp).
use smallkv.Base.{◌≡◌, sym, ap, List, [], ◌∙◌, ◌∷◌, append_assoc, append-nil, ◌++◌, length}
use smallkv.Base.Bytes.{Bytes}
use smallkv.Codec.{put_fixed32, put_fixed64}
use smallkv.Table.DataBlock.{OffsetInfo, as_word}

-- `IndexBlockBuilder::add`, on its bytes.
unfoldable pub add_index : Bytes → Bytes → OffsetInfo → Bytes
add_index block shortest_key info =
    put_fixed64 (put_fixed32 block (length shortest_key) ++ shortest_key) (as_word info)

-- `FooterBuilder::add`, on its bytes.
unfoldable pub add_footer : Bytes → OffsetInfo → OffsetInfo → Bytes
add_footer block meta_block index_block =
    put_fixed64 (put_fixed64 block (as_word meta_block)) (as_word index_block)

abbrev pub Entry : Type 0
Entry = Bytes × OffsetInfo

-- The bytes of an index with these entries.
unfoldable pub index_bytes : List Entry → Bytes
index_bytes [] = []
index_bytes ((key, info) ∷ es) = add_index [] key info ++ index_bytes es

pub index_bytes-append :
    (es : List Entry) (key : Bytes) (info : OffsetInfo)
    → index_bytes (es ++ (key, info) ∷ []) ≡ index_bytes es ++ add_index [] key info
unfolding index_bytes
index_bytes-append [] key info = append-nil (add_index [] key info)
index_bytes-append ((k, i) ∷ es) key info =
    ap (λ t. add_index [] k i ++ t) (index_bytes-append es key info)
    ∙ sym (append_assoc (add_index [] k i) (index_bytes es) (add_index [] key info))
