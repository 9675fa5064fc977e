-- ===== src/Db/Log.antt =====
-- What a write hands to the log (src/db/db_impl.cpp): the encoded pair as a `char *`, which the log
-- reads up to its first zero byte.
use smallkv.Base.{
  some, true, [], ◌++◌, ltb, ◌+◌, ◌-◌, if_true, length-append, ℕ, ◌≤◌, ◌<◌, ◌≡◌, ◌^◌, ◌∷◌, length,
  arith,
}
use smallkv.Base.Bytes.{Bytes, c_str}
use smallkv.Codec.{byte_at, encode_fixed32}
use smallkv.Codec.RoundTrip.{length-encode_fixed32}
use smallkv.Db.{encoded_kv, encode_kv}

-- A zero byte in the fourth place ends the string.
length-c_str_cut : (a b c d : ℕ) (rest : Bytes) → d ≡ 0 → length (c_str (a ∷ b ∷ c ∷ d ∷ rest)) ≤ 3
unfolding c_str
length-c_str_cut a b c d rest e = ground (arith, e)

-- For a key of fewer than 2^24 bytes, what a write hands to the log is at most three bytes long:
-- the encoded pair is cut at the zero byte in the length of its key.
pub length-c_str-encoded_kv :
    (key value : Bytes) → length key < 2 ^ 24 → length (c_str (encoded_kv key value)) ≤ 3
unfolding encode_fixed32
length-c_str-encoded_kv key value h =
    length-c_str_cut (byte_at (length key) 0) (byte_at (length key) 8) (byte_at (length key) 16)
      (byte_at (length key) 24) _ (omega arith)

length-c_str : (bs : Bytes) → length (c_str bs) ≤ length bs
unfolding c_str
length-c_str [] = omega arith
length-c_str (b ∷ bs) = ground (arith, length-c_str bs)

-- What Put and AddLog can take: the length of the encoded pair is that of an `int32_t`.
abbrev pub FitsPair : Bytes → Bytes → Type 0
FitsPair key value = 8 + length key + length value < 2 ^ 31

-- Such a pair is encoded, and its log is short enough.
pub encode_kv-FitsPair :
    (key value : Bytes)
    → FitsPair key value
    → (encode_kv key value ≡ some (encoded_kv key value))
      × (length (c_str (encoded_kv key value)) < 2 ^ 31)
unfolding encode_kv
encode_kv-FitsPair key value h =
    let t : ltb (length value) (2 ^ 32 - 1) ≡ true = ground arith in
    (
      if_true _ _ _ t,
      omega (
        arith,
        length-c_str (encoded_kv key value),
        length-append (encode_fixed32 (length key) ++ key ++ encode_fixed32 (length value)) value,
        length-append (encode_fixed32 (length key) ++ key) (encode_fixed32 (length value)),
        length-append (encode_fixed32 (length key)) key,
        length-encode_fixed32 (length key),
        length-encode_fixed32 (length value),
      ),
    )
