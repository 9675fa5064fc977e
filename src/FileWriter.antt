-- ===== src/FileWriter.antt =====
-- The buffered file writer (src/file/file_writer.h, src/file/file_writer.cpp). The operating
-- system is a parameter: `write file bytes` is the call `write(fd, bytes, len)`, with the file after
-- it and what it returns, `none` for -1. `none` as a result of an operation is a failed assertion.
pub mod Buffer
pub mod Append
use smallkv.Base.{
  ℕ, zero, suc, ◌+◌, ◌-◌, ◌%◌, ◌^◌, Bool, true, false, Option, none, some, List, [], ◌∷◌, ◌++◌,
  length, take, drop, ltb, ◌==◌, if◌then◌else◌, min, replicate,
}
use smallkv.Base.Maybe.{◌>>=◌}
use smallkv.Base.Bytes.{Bytes}

-- BUFFER_SIZE
abbrev pub buffer_size : ℕ
buffer_size = 65536

-- `file` is the open file behind `fd`; `closed` stands for `fd == -1`.
pub record FileWriter (File : Type 0) : Type 0 where
  pub buffer_offset : ℕ
  pub buffer : Bytes
  pub file : File
  pub closed : Bool

-- The constructor, on the file that `open` gives.
unfoldable pub open_writer : {File : Type 0} → File → FileWriter File
open_writer file = record {
  buffer_offset = 0;
  buffer = replicate buffer_size 0;
  file = file;
  closed = false;
}

-- memcpy(buffer + at, bytes, bytes.size())
unfoldable pub copy_at : Bytes → ℕ → Bytes → Bytes
copy_at buffer at bytes = take at buffer ++ bytes ++ drop (at + length bytes) buffer

module _ {File : Type 0} (write : File → Bytes → File × Option ℕ) where
  -- The assertion `ret == len`, and what follows it.
  persisted : FileWriter File → ℕ → File × Option ℕ → Option (FileWriter File)
  persisted w len (file, none) = none
  persisted w len (file, some ret) =
      if ret == len then some (record w { file = file; buffer_offset = 0 }) else none

  -- `write(-1, …)` returns -1.
  unfoldable pub buf_persist : FileWriter File → ℕ → Option (FileWriter File)
  unfolding persisted
  buf_persist w len = if w.closed then none else persisted w len (write w.file (take len w.buffer))

  -- Bytes go into the buffer behind what it holds.
  abbrev pub copy_in : FileWriter File → Bytes → FileWriter File
  copy_in w bytes = record w {
    buffer = copy_at w.buffer w.buffer_offset bytes;
    buffer_offset = w.buffer_offset + length bytes;
  }

  unfoldable pub make_room : FileWriter File → Option (FileWriter File)
  make_room w = if w.buffer_offset == buffer_size then buf_persist w buffer_size else some w

  -- The loop `while (len > 0)`; a round copies a byte at least, so `length data` rounds are enough.
  unfoldable pub append_loop : ℕ → FileWriter File → Bytes → Option (FileWriter File)
  append_loop fuel w [] = some w
  append_loop zero w (b ∷ bs) = none
  append_loop (suc fuel) w (b ∷ bs) = make_room w >>= λ w'.
      let need = min (length (b ∷ bs)) (buffer_size - w'.buffer_offset) in
      append_loop fuel (copy_in w' (take need (b ∷ bs))) (drop need (b ∷ bs))

  -- The branch of `append` for what does not fit.
  unfoldable pub append_over : FileWriter File → Bytes → Option (FileWriter File)
  append_over w bytes =
      let remain = buffer_size - w.buffer_offset in
      buf_persist (copy_in w (take remain bytes)) buffer_size >>= λ w'.
      append_loop (length bytes) w' (drop remain bytes)

  -- `append` for as many bytes as `len` says.
  unfoldable pub append_data : FileWriter File → Bytes → Bool → Option (FileWriter File)
  append_data w bytes flush =
      if length bytes == 0
      then some w
      else (if ltb (length bytes) (buffer_size - w.buffer_offset)
          then some (copy_in w bytes)
          else append_over w bytes)
        >>= λ w'. if flush then buf_persist w' w'.buffer_offset else some w'

  -- The length of the bytes comes as an `int32_t`, `static_cast<int32_t>(bytes.size())`: its low 32
  -- bits. A negative one is a fault of `memcpy`.
  unfoldable pub append : FileWriter File → Bytes → Bool → Option (FileWriter File)
  unfolding append_data
  append w bytes flush =
      let len = length bytes % 2 ^ 32 in
      if ltb len (2 ^ 31) then append_data w (take len bytes) flush else none

  unfoldable pub flush : FileWriter File → Option (FileWriter File)
  flush w = if ltb 0 w.buffer_offset then buf_persist w w.buffer_offset else some w

  -- What is flushed stays in the file: `fsync` changes nothing that the program can read.
  unfoldable pub sync : FileWriter File → Option (FileWriter File)
  unfolding flush
  sync w = flush w

  unfoldable pub close : FileWriter File → Option (FileWriter File)
  unfolding flush
  close w = flush w >>= λ w'. some (record w' { closed = true })
