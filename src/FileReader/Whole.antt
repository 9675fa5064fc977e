-- ===== src/FileReader/Whole.antt =====
-- What the writer of files (src/file/file_writer.cpp) wrote, read back by the reader
-- (src/file/file_reader.cpp).
use smallkv.Base.{
  ℕ, Bool, ◌≡◌, refl, ap, ◌∙◌, true, Option, some, ◌++◌, length, take, drop, ◌==◌, arith,
  drop-length-append, ltb, leb, ◌&&◌, ◌^◌, ◌<◌, ◌≤◌, if_true,
}
use smallkv.Base.Bytes.{Bytes}
use smallkv.Db.{success}
use smallkv.FileWriter.{FileWriter, append, close}
use smallkv.FileWriter.Append.{IsValid, Reliable, log, append-log, close-contents, take-all}
use smallkv.FileReader.{open_reader, filled, read}

-- What is relied on: `pread` gives the bytes of the file from that place on, as many as there are.
pub record Reads {File : Type 0} (pread : File → ℕ → ℕ → Option Bytes) (contents : File → Bytes)
    : Type 0 where
  pub given :
      (f : File) (count offset : ℕ)
      → pread f count offset ≡ some (take count (drop offset (contents f)))

module _ {File : Type 0} (write : File → Bytes → File × Option ℕ) (contents : File → Bytes)
    (os : Reliable write contents) (pread : File → ℕ → ℕ → Option Bytes)
    (gives : Reads pread contents) where
  -- Fewer than 2^31 bytes that append takes on a valid writer, over a system whose writes are
  -- complete, are what FileReader reads from the closed file at the place where the log of the
  -- writer ended before, if that place is below 2^31, the buffer has room for the bytes, and pread
  -- gives the bytes of the file: read succeeds with a buffer that begins with the bytes and is
  -- otherwise as it was.
  pub read-append :
      (w : FileWriter File) (bytes buf : Bytes) (at_once : Bool) (standard_input : File)
      → IsValid w
      → length bytes < 2 ^ 31
      → length (log write contents w) < 2 ^ 31
      → length bytes ≤ length buf
      → (w₁ : FileWriter File) × (w₂ : FileWriter File) × (append write w bytes at_once ≡ some w₁)
        × (close write w₁ ≡ some w₂)
        × (read pread
              (open_reader standard_input true (some w₂.file))
              (some buf)
              (length bytes)
              (length (log write contents w))
            ≡ some (success, some (bytes ++ drop (length bytes) buf)))
  unfolding read open_reader filled
  read-append w bytes buf at_once standard_input v small place room =
      let (w₁, run₁, v₁, grown) = append-log write contents os w bytes at_once v small in
      let (w₂, run₂, all, _) = close-contents write contents os w₁ v₁ in
      let there : pread w₂.file (length bytes) (length (log write contents w)) ≡ some bytes =
        gives.given w₂.file (length bytes) (length (log write contents w))
        ∙ ap (λ c. some (take (length bytes) (drop (length (log write contents w)) c)))
            (all ∙ grown)
        ∙ ap (λ c. some (take (length bytes) c))
            (drop-length-append (length (log write contents w)) (log write contents w) bytes refl)
        ∙ ap some (take-all bytes) in
      let held : (ltb (length bytes) (2 ^ 31) && ltb (length (log write contents w)) (2 ^ 31))
          ≡ true =
        ground arith in
      let full : (length bytes == length bytes) ≡ true = ground arith in
      let fits : leb (length bytes) (length buf) ≡ true = ground arith in
      (w₁, w₂, run₁, run₂, if_true _ _ _ held ∙ rw (there, fits, full) refl)
