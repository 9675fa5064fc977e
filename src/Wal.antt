-- ===== src/Wal.antt =====
-- The write-ahead log (src/wal/wal_writer.h, src/wal/wal_writer.cpp, src/wal/log_format.h), over the
-- buffered file writer. The checksum `absl::ComputeCrc32c` is a parameter, and so is `write`.
pub mod Recover
use smallkv.Base.{
  some, ℕ, ◌*◌, ◌/◌, ◌%◌, ◌^◌, Bool, true, false, Option, List, [], ◌∷◌, ◌++◌, length,
}
use smallkv.Base.Maybe.{◌>>=◌}
use smallkv.Base.Bytes.{Bytes}
use smallkv.Codec.{byte_at}
use smallkv.FileWriter.{FileWriter, append, sync, close}

module _ (crc : Bytes → ℕ) where
  -- The eight bytes before a log: `checksum & 0xff`, …, `(len >> 24) & 0xff`.
  unfoldable pub header : Bytes → Bytes
  header log =
      byte_at (crc log) 0
      ∷ byte_at (crc log) 8
      ∷ byte_at (crc log) 16
      ∷ byte_at (crc log) 24
      ∷ byte_at (length log) 0
      ∷ byte_at (length log) 8
      ∷ byte_at (length log) 16
      ∷ byte_at (length log) 24
      ∷ []

  module _ {File : Type 0} (write : File → Bytes → File × Option ℕ) where
    unfoldable pub add_log : FileWriter File → Bytes → Option (FileWriter File)
    unfolding header
    add_log w log =
        append write w (header log) false >>= λ w₁. append write w₁ log true >>= λ w₂. sync write w₂

    -- A run of calls.
    unfoldable pub add_logs : FileWriter File → List Bytes → Option (FileWriter File)
    add_logs w [] = some w
    add_logs w (log ∷ logs) = add_log w log >>= λ w'. add_logs w' logs
