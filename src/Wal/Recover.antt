-- ===== src/Wal/Recover.antt =====
-- What stands in the file after calls of `AddLog` (src/wal/wal_writer.cpp) can be read back: by the
-- schema of a log record, and by nothing else, the reader below finds every log, in order.
use smallkv.Base.{
  ℕ, zero, suc, ◌^◌, ◌≤◌, ◌<◌, ◌≡◌, refl, sym, ap, ◌∙◌, true, false, Option, none, some, List, [],
  ◌∷◌, ◌++◌, length, take, drop, All, arith, append_assoc, append-nil, ◌==◌, if◌then◌else◌,
  take-length-append, drop-length-append,
}
use smallkv.Base.Maybe.{◌>>=◌}
use smallkv.Base.Bytes.{Bytes}
use smallkv.Codec.{encode_fixed32, decode_fixed32}
use smallkv.Codec.RoundTrip.{decode_fixed32-encode_fixed32}
use smallkv.FileWriter.{FileWriter, sync}
use smallkv.FileWriter.Append.{IsValid, Reliable, log, log_flushed, append-log, flush-contents}
use smallkv.Wal.{header, add_log, add_logs}

module _ (crc : Bytes → ℕ) where
  -- A record by its schema: the checksum, the length, the bytes.
  abbrev pub log_record : Bytes → Bytes
  log_record bytes = header crc bytes ++ bytes

  unfoldable pub log_records : List Bytes → Bytes
  log_records [] = []
  log_records (b ∷ bs) = log_record b ++ log_records bs

  -- One record: it is refused if it is cut short or if its checksum is wrong.
  unfoldable pub read_record : Bytes → Option (Bytes × Bytes)
  read_record file = decode_fixed32 file >>= λ checksum. decode_fixed32 (drop 4 file) >>= λ len.
      let body = take len (drop 8 file) in
      if length body == len
      then (if crc body == checksum then some (body, drop len (drop 8 file)) else none)
      else none

  -- All the records of a file; each takes eight bytes at least.
  unfoldable pub read_records : ℕ → Bytes → Option (List Bytes)
  read_records fuel [] = some []
  read_records zero (b ∷ bs) = none
  read_records (suc fuel) (b ∷ bs) = read_record (b ∷ bs) >>= λ (body, rest).
      read_records fuel rest >>= λ bodies. some (body ∷ bodies)

  -- What the header can hold.
  abbrev pub IsLoggable : Bytes → Type 0
  IsLoggable bytes = (length bytes < 2 ^ 32) × (crc bytes < 2 ^ 32)

  -- The number back, if it fits in 32 bits.
  decode_small :
      (val : ℕ) (rest : Bytes)
      → val < 2 ^ 32
      → decode_fixed32 (encode_fixed32 val ++ rest) ≡ some val
  decode_small val rest h = decode_fixed32-encode_fixed32 val rest ∙ ap some (omega arith)

  pub read_record-log_record :
      (bytes rest : Bytes)
      → IsLoggable bytes
      → read_record (log_record bytes ++ rest) ≡ some (bytes, rest)
  unfolding read_record header encode_fixed32
  read_record-log_record bytes rest h =
      let first = decode_small (crc bytes) (encode_fixed32 (length bytes) ++ (bytes ++ rest)) h.1 in
      let second = decode_small (length bytes) (bytes ++ rest) h.0 in
      let body : take (length bytes) (bytes ++ rest) ≡ bytes =
        take-length-append (length bytes) bytes rest refl in
      let after : drop (length bytes) (bytes ++ rest) ≡ rest =
        drop-length-append (length bytes) bytes rest refl in
      ground (arith, first, second, body, after)

  -- Reading back any records, each of which fits its header, gives the logs in order.
  pub read_records-log_records :
      (fuel : ℕ) (bodies : List Bytes)
      → All IsLoggable bodies
      → length bodies ≤ fuel
      → read_records fuel (log_records bodies) ≡ some bodies
  unfolding read_records log_records header
  read_records-log_records fuel [] a h = refl
  read_records-log_records zero (b ∷ bs) a h = absurd (omega arith)
  read_records-log_records (suc fuel) (b ∷ bs) a h =
      rw (read_record-log_record b (log_records bs) a.0, ◌>>=◌)
        (rw (read_records-log_records fuel bs a.1 (omega arith), ◌>>=◌) refl)

  module _ {File : Type 0} (write : File → Bytes → File × Option ℕ) (contents : File → Bytes)
      (os : Reliable write contents) where
    -- One AddLog on a valid writer, over a system whose writes are complete, ends with the file one
    -- record longer and nothing waiting in the buffer; the writer stays valid.
    pub add_log-contents :
        (w : FileWriter File) (bytes : Bytes)
        → IsValid w
        → length bytes < 2 ^ 31
        → (w' : FileWriter File) × (add_log crc write w bytes ≡ some w')
          × IsValid w'
          × (contents w'.file ≡ log write contents w ++ log_record bytes)
          × (w'.buffer_offset ≡ 0)
    unfolding add_log header sync
    add_log-contents w bytes v small =
        let (w₁, run₁, v₁, log₁) =
          append-log write contents os w (header crc bytes) false v (omega arith) in
        let (w₂, run₂, v₂, log₂) = append-log write contents os w₁ bytes true v₁ small in
        let (w₃, run₃, v₃, all, zeroed) = flush-contents write contents os w₂ v₂ in
        (
          w₃,
          rw (run₁, ◌>>=◌) (rw (run₂, ◌>>=◌) run₃),
          v₃,
          all
              ∙ log₂
              ∙ ap (λ t. t ++ bytes) log₁
              ∙ append_assoc (log write contents w) (header crc bytes) bytes,
          zeroed,
        )

    -- What AddLog can take as an `int32_t`.
    abbrev pub FitsLog : Bytes → Type 0
    FitsLog bytes = length bytes < 2 ^ 31

    add_logs-from :
        (logs : List Bytes) (w : FileWriter File)
        → IsValid w
        → w.buffer_offset ≡ 0
        → All FitsLog logs
        → (w' : FileWriter File) × (add_logs crc write w logs ≡ some w')
          × (contents w'.file ≡ contents w.file ++ log_records logs)
    unfolding add_logs log_records
    add_logs-from [] w v e a = (w, refl, sym (append-nil (contents w.file)))
    add_logs-from (b ∷ bs) w v e a =
        let (w₁, run₁, v₁, all₁, zeroed) = add_log-contents w b v a.0 in
        let (w₂, run₂, all₂) = add_logs-from bs w₁ v₁ zeroed a.1 in
        (
          w₂,
          rw (run₁, ◌>>=◌) run₂,
          all₂
              ∙ ap (λ t. t ++ log_records bs)
                  (all₁ ∙ ap (λ t. t ++ log_record b) (log_flushed write contents w e))
              ∙ append_assoc (contents w.file) (log_record b) (log_records bs),
        )

    loggable :
        (logs : List Bytes)
        → All FitsLog logs
        → All (λ b. crc b < 2 ^ 32) logs
        → All IsLoggable logs
    loggable [] a c = tt
    loggable (b ∷ bs) a c = ((omega (arith, a.0), c.0), loggable bs a.1 c.1)

    -- After any calls of AddLog, and nothing else, on a valid writer with an empty file and nothing
    -- in its buffer, over a system whose writes are complete, the file reads back by the schema as
    -- exactly the logs of the calls, in order; each log has fewer than 2^31 bytes, and its checksum
    -- fits in 32 bits.
    pub read_records-add_logs :
        (logs : List Bytes) (w : FileWriter File)
        → IsValid w
        → w.buffer_offset ≡ 0
        → contents w.file ≡ []
        → All FitsLog logs
        → All (λ b. crc b < 2 ^ 32) logs
        → (w' : FileWriter File) × (add_logs crc write w logs ≡ some w')
          × (read_records (length logs) (contents w'.file) ≡ some logs)
    read_records-add_logs logs w v e empty a c =
        let (w', run, all) = add_logs-from logs w v e a in
        (
          w',
          run,
          ap (read_records (length logs)) (all ∙ ap (λ t. t ++ log_records logs) empty)
              ∙ read_records-log_records (length logs) logs (loggable logs a c) (omega arith),
        )
