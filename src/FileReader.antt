-- ===== src/FileReader.antt =====
-- The reader of files (src/file/file_reader.h, src/file/file_reader.cpp). A descriptor is the file that
-- it stands for, and `none` is the descriptor -1. The system calls `access`, `open` and `pread` are
-- parameters: whether the path is there, what `open` gives, and the bytes that `pread` puts into the
-- buffer, `none` for an error.
pub mod Whole
use smallkv.Base.{
  ℕ, ◌^◌, ltb, leb, ◌&&◌, Bool, Option, none, some, ◌++◌, length, drop, ◌==◌, if◌then◌else◌,
}
use smallkv.Base.Bytes.{Bytes}
use smallkv.Db.{DbStatus, success, invalid_args, exec_failed}

pub record FileReader (File : Type 0) : Type 0 where
  pub fd : Option File

-- The constructor; the descriptor is first 0, the standard input.
unfoldable pub open_reader : {File : Type 0} → File → Bool → Option File → FileReader File
open_reader standard_input accessible opened = record {
  fd = if accessible then opened else some standard_input;
}

-- The destructor, with the file that it closes.
unfoldable pub close_reader : {File : Type 0} → FileReader File → FileReader File × Option File
close_reader r = (record r { fd = none }, r.fd)

-- `buf` is what the buffer holds, before and after; `none` is a null pointer. The result is `none`
-- for a fault: more bytes than the buffer has, or a number that an `int32_t` does not hold.
module _ {File : Type 0} (pread : File → ℕ → ℕ → Option Bytes) where
  -- What `pread` puts into the buffer.
  unfoldable pub filled : Bytes → ℕ → Option Bytes → Option (DbStatus × Option Bytes)
  filled buf count none = some (exec_failed, some buf)
  filled buf count (some bytes) =
      if leb (length bytes) (length buf)
      then some (
        if length bytes == count then success else exec_failed,
        some (bytes ++ drop (length bytes) buf),
      )
      else none

  unfoldable pub read : FileReader File → Option Bytes → ℕ → ℕ → Option (DbStatus × Option Bytes)
  unfolding filled
  read r none count offset = some (invalid_args, none)
  read r (some buf) count offset = elim r.fd [
    | none ↦ some (exec_failed, some buf)
    | some file ↦
        if ltb count (2 ^ 31) && ltb offset (2 ^ 31)
        then filled buf count (pread file count offset)
        else none
  ]
