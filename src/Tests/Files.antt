-- ===== src/Tests/Files.antt =====
-- The codec, the buffered writer and the log (src/utils/codec.cpp, src/file/file_writer.cpp,
-- src/wal/wal_writer.cpp) at concrete inputs, over a file that is the list of its bytes.
use smallkv.Base.{
  ℕ, ◌<◌, ◌^◌, ◌≡◌, refl, true, false, Option, some, List, [], ◌∷◌, ◌++◌, arith, length, take, drop,
}
use smallkv.Base.Bytes.{Bytes}
use smallkv.FileWriter.{FileWriter, open_writer, append, close, buf_persist}
use smallkv.FileWriter.Append.{IsValid, Reliable, log, Logs, open_writer-IsValid, append-log}
use smallkv.FileReader.{open_reader, read}
use smallkv.FileReader.Whole.{read-append}
use smallkv.Db.{success}
use smallkv.Wal.{add_logs}
use smallkv.Wal.Recover.{read_records, read_records-add_logs}

abbrev write_all : Bytes → Bytes → Bytes × Option ℕ
write_all file bytes = (file ++ bytes, some (length bytes))

abbrev whole : Bytes → Bytes
whole file = file

write_all-Reliable : Reliable write_all whole
write_all-Reliable = record { complete = λ f bs. refl; appends = λ f bs. refl }

abbrev opened : FileWriter Bytes
opened = open_writer []

opened-IsValid : IsValid opened
opened-IsValid = open_writer-IsValid []

-- A checksum that fits in 32 bits.
abbrev sum : Bytes → ℕ
sum [] = 7
sum (b ∷ bs) = 9

append-log_example :
    Logs write_all whole
      (append write_all opened (1 ∷ 2 ∷ []) true)
      (log write_all whole opened ++ 1 ∷ 2 ∷ [])
append-log_example =
    append-log write_all whole write_all-Reliable opened (1 ∷ 2 ∷ []) true opened-IsValid
      (omega arith)

-- A writer with two bytes waiting.
waiting :
    Logs write_all whole
      (append write_all opened (1 ∷ 2 ∷ []) false)
      (log write_all whole opened ++ 1 ∷ 2 ∷ [])
waiting =
    append-log write_all whole write_all-Reliable opened (1 ∷ 2 ∷ []) false opened-IsValid
      (omega arith)

-- A writer with a buffer of three bytes, the first two in use.
abbrev short : FileWriter Bytes
short = record { buffer_offset = 2; buffer = 1 ∷ 2 ∷ 3 ∷ []; file = 9 ∷ []; closed = false }

abbrev written : FileWriter Bytes
written = record {
  buffer_offset = 0;
  buffer = 1 ∷ 2 ∷ 3 ∷ [];
  file = 9 ∷ 1 ∷ 2 ∷ [];
  closed = false;
}

short-run : buf_persist write_all short 2 ≡ some written
unfolding buf_persist
short-run = refl

opened-offset : opened.buffer_offset ≡ 0
unfolding open_writer
opened-offset = refl

opened-file : whole opened.file ≡ []
unfolding open_writer
opened-file = refl

opened-log : length (log write_all whole opened) < 2 ^ 31
unfolding log open_writer
opened-log = omega arith

abbrev two_logs : List Bytes
two_logs = (1 ∷ 2 ∷ []) ∷ (3 ∷ []) ∷ []

read_records-add_logs_example :
    (w' : FileWriter Bytes) × (add_logs sum write_all opened two_logs ≡ some w')
    × (read_records sum 2 (whole w'.file) ≡ some two_logs)
read_records-add_logs_example =
    read_records-add_logs sum write_all whole write_all-Reliable two_logs opened opened-IsValid
      opened-offset opened-file (omega arith, (omega arith, tt)) (omega arith, (omega arith, tt))

-- The system call `pread` on such a file.
abbrev bytes_at : Bytes → ℕ → ℕ → Option Bytes
bytes_at file count offset = some (take count (drop offset file))

read-append_example :
    (w₁ : FileWriter Bytes) × (w₂ : FileWriter Bytes) × (append write_all opened (5 ∷ 6 ∷ []) false
      ≡ some w₁)
    × (close write_all w₁ ≡ some w₂)
    × (read bytes_at
          (open_reader [] true (some w₂.file))
          (some (0 ∷ 0 ∷ 9 ∷ []))
          2
          (length (log write_all whole opened))
        ≡ some (success, some (5 ∷ 6 ∷ 9 ∷ [])))
read-append_example =
    read-append write_all whole write_all-Reliable bytes_at
      (record { given = λ f count offset. refl }) opened (5 ∷ 6 ∷ []) (0 ∷ 0 ∷ 9 ∷ []) false []
      opened-IsValid (omega arith) opened-log (omega arith)
