-- ===== src/FileWriter/Buffer.antt =====
-- The buffer as the bytes that wait in it (src/file/file_writer.cpp).
use smallkv.Base.{
  ℕ, ◌+◌, ◌≤◌, ◌≡◌, ◌++◌, length, take, drop, arith, length-append, length-take, length-drop,
  take-length-append,
}
use smallkv.Base.Bytes.{Bytes}
use smallkv.FileWriter.{copy_at}

-- A copy within the buffer keeps its size.
pub length-copy_at :
    (buffer : Bytes) (at : ℕ) (bytes : Bytes)
    → at + length bytes ≤ length buffer
    → length (copy_at buffer at bytes) ≡ length buffer
unfolding copy_at
length-copy_at buffer at bytes h = omega (
  arith,
  length-append (take at buffer ++ bytes) (drop (at + length bytes) buffer),
  length-append (take at buffer) bytes,
  length-take at buffer (omega arith),
  length-drop (at + length bytes) buffer,
)

-- What waits afterwards is what waited, and the new bytes.
pub take-copy_at :
    (buffer : Bytes) (at : ℕ) (bytes : Bytes)
    → at + length bytes ≤ length buffer
    → take (at + length bytes) (copy_at buffer at bytes) ≡ take at buffer ++ bytes
unfolding copy_at
take-copy_at buffer at bytes h =
    take-length-append (at + length bytes) (take at buffer ++ bytes)
      (drop (at + length bytes) buffer)
      (omega (arith, length-append (take at buffer) bytes, length-take at buffer (omega arith)))
