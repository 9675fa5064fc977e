-- ===== src/FileWriter/Append.antt =====
-- The writer is an append-only log (src/file/file_writer.cpp): what is in the file, and what waits
-- in the buffer, are the bytes of all appends, in order.
use smallkv.Base.{
  ℕ, zero, suc, ◌+◌, ◌-◌, ◌≤◌, ◌<◌, ◌≡◌, refl, sym, ap, ◌∙◌, Bool, true, false, Option, none, some,
  [], ◌∷◌, ◌++◌, length, take, drop, ◌==◌, if◌then◌else◌, min, arith, append_assoc, append-nil,
  take-append-drop, length-take, length-drop, length-replicate, ltb, if_true, take-length-append,
  ◌%◌, ◌^◌, lt→ltb, nlt→ltb,
}
use smallkv.Base.Maybe.{◌>>=◌}
use smallkv.Base.Bytes.{Bytes}
use smallkv.FileWriter.{
  FileWriter, buffer_size, open_writer, persisted, buf_persist, copy_in, make_room, append_loop,
  append_over, append_data, append, flush, close,
}
use native.Mathlib.Decide.{ℕ_discrete, dec_lt}
use smallkv.FileWriter.Buffer.{length-copy_at, take-copy_at}

pub take-all : (bytes : Bytes) → take (length bytes) bytes ≡ bytes
take-all bytes =
    ap (take (length bytes)) (sym (append-nil bytes))
    ∙ take-length-append (length bytes) bytes [] refl

-- The buffer has its size, and the offset is within it.
pub record IsValid {File : Type 0} (w : FileWriter File) : Type 0 where
  pub sized : length w.buffer ≡ buffer_size
  pub within : w.buffer_offset ≤ buffer_size
  pub usable : w.closed ≡ false

pub open_writer-IsValid : {File : Type 0} (file : File) → IsValid (open_writer file)
unfolding open_writer
open_writer-IsValid file = record {
  sized = length-replicate buffer_size 0;
  within = omega arith;
  usable = refl;
}

-- What the program relies on: `write` takes all the bytes, appends them and returns their number.
-- `contents` is what a reader of the file sees.
pub record Reliable {File : Type 0} (write : File → Bytes → File × Option ℕ)
    (contents : File → Bytes) : Type 0 where
  pub complete : (f : File) (bs : Bytes) → (write f bs).1 ≡ some (length bs)
  pub appends : (f : File) (bs : Bytes) → contents (write f bs).0 ≡ contents f ++ bs

module _ {File : Type 0} (write : File → Bytes → File × Option ℕ) (contents : File → Bytes) where
  -- The log: the file, then what waits in the buffer.
  unfoldable pub log : FileWriter File → Bytes
  log w = contents w.file ++ take w.buffer_offset w.buffer

  pub log_flushed : (w : FileWriter File) → w.buffer_offset ≡ 0 → log w ≡ contents w.file
  unfolding log
  log_flushed w e = ap (λ n. contents w.file ++ take n w.buffer) e ∙ append-nil (contents w.file)

  -- The result of an operation: it ends, on a valid writer with this log.
  abbrev pub Logs : Option (FileWriter File) → Bytes → Type 0
  Logs o bytes = (w : FileWriter File) × (o ≡ some w) × IsValid w × (log w ≡ bytes)

  persisted_complete :
      (w : FileWriter File) (len : ℕ) (r : File × Option ℕ)
      → r.1 ≡ some len
      → persisted write w len r ≡ some (record w { file = r.0; buffer_offset = 0 })
  unfolding persisted
  persisted_complete w len (f, none) e = cc
  persisted_complete w len (f, some ret) e = ground arith

  module _ (os : Reliable write contents) where
    persist-log :
        (w : FileWriter File) (len : ℕ)
        → IsValid w
        → len ≡ w.buffer_offset
        → (w' : FileWriter File) × (buf_persist write w len ≡ some w')
          × IsValid w'
          × (log w' ≡ log w)
          × (w'.buffer_offset ≡ 0)
    unfolding buf_persist log
    persist-log w len v e =
        let bytes = take len w.buffer in
        let w' = record w { file = (write w.file bytes).0; buffer_offset = 0 } in
        (
          w',
          ground (
            arith,
            persisted_complete w len (write w.file bytes),
            os.complete w.file bytes,
            length-take len w.buffer,
          ),
          record { sized = v.sized; within = omega arith; usable = v.usable },
          append-nil (contents (write w.file bytes).0)
              ∙ os.appends w.file bytes
              ∙ ap (λ n. contents w.file ++ take n w.buffer) e,
          refl,
        )

    copy-log :
        (w : FileWriter File) (bytes : Bytes)
        → IsValid w
        → w.buffer_offset + length bytes ≤ buffer_size
        → IsValid (copy_in write w bytes) × (log (copy_in write w bytes) ≡ log w ++ bytes)
    unfolding log
    copy-log w bytes v h = (
      record {
        sized = omega (
          arith,
          v.sized,
          length-copy_at w.buffer w.buffer_offset bytes (omega (arith, v.sized)),
        );
        within = h;
        usable = v.usable;
      },
      ap (λ t. contents w.file ++ t)
            (take-copy_at w.buffer w.buffer_offset bytes (omega (arith, v.sized)))
          ∙ sym (append_assoc (contents w.file) (take w.buffer_offset w.buffer) bytes),
    )

    make_room-log :
        (w : FileWriter File)
        → IsValid w
        → (w' : FileWriter File) × (make_room write w ≡ some w')
          × IsValid w'
          × (log w' ≡ log w)
          × (w'.buffer_offset < buffer_size)
    unfolding make_room
    make_room-log w v = elim (ℕ_discrete w.buffer_offset buffer_size) [
      | yes e ↦
          let (w', run, v', same, zeroed) = persist-log w buffer_size v (sym e) in
          (w', ground (arith, e, run), v', same, omega arith)
      | no e ↦ (w, ground (arith, e), v, refl, omega (arith, v.within, e))
    ]

    append_loop-log :
        (fuel : ℕ) (w : FileWriter File) (bytes : Bytes)
        → IsValid w
        → length bytes ≤ fuel
        → Logs (append_loop write fuel w bytes) (log w ++ bytes)
    unfolding append_loop
    append_loop-log fuel w [] v h = (w, refl, v, sym (append-nil (log w)))
    append_loop-log zero w (b ∷ bs) v h = absurd (omega arith)
    append_loop-log (suc fuel) w (b ∷ bs) v h =
        let (w', run, v', same, room) = make_room-log w v in
        let need = min (length (b ∷ bs)) (buffer_size - w'.buffer_offset) in
        let now = take need (b ∷ bs) in
        let later = drop need (b ∷ bs) in
        let size_now : length now ≡ need = length-take need (b ∷ bs) (omega arith) in
        let (v₁, log₁) = copy-log w' now v' (omega arith) in
        let (w₂, run₂, v₂, log₂) =
          append_loop-log fuel (copy_in write w' now) later v₁
            (omega (arith, length-drop need (b ∷ bs))) in
        (
          w₂,
          rw (run, ◌>>=◌) run₂,
          v₂,
          log₂
              ∙ ap (λ t. t ++ later) (log₁ ∙ ap (λ t. t ++ now) same)
              ∙ append_assoc (log w) now later
              ∙ ap (λ t. log w ++ t) (take-append-drop need (b ∷ bs)),
        )

    append_over-log :
        (w : FileWriter File) (bytes : Bytes)
        → IsValid w
        → buffer_size ≤ w.buffer_offset + length bytes
        → Logs (append_over write w bytes) (log w ++ bytes)
    unfolding append_over
    append_over-log w bytes v h =
        let remain = buffer_size - w.buffer_offset in
        let now = take remain bytes in
        let later = drop remain bytes in
        let size_now : length now ≡ remain = length-take remain bytes (omega arith) in
        let (v₁, log₁) = copy-log w now v (omega (arith, v.within)) in
        let (w₂, run₂, v₂, log₂, zeroed) =
          persist-log (copy_in write w now) buffer_size v₁ (omega (arith, v.within)) in
        let (w₃, run₃, v₃, log₃) =
          append_loop-log (length bytes) w₂ later v₂ (omega (arith, length-drop remain bytes)) in
        (
          w₃,
          rw (run₂, ◌>>=◌) run₃,
          v₃,
          log₃
              ∙ ap (λ t. t ++ later) (log₂ ∙ log₁)
              ∙ append_assoc (log w) now later
              ∙ ap (λ t. log w ++ t) (take-append-drop remain bytes),
        )

    flushed-log :
        (o : Option (FileWriter File)) (bytes : Bytes) (at_once : Bool)
        → Logs o bytes
        → Logs
            (o >>= λ w'. if at_once then buf_persist write w' w'.buffer_offset else some w')
            bytes
    flushed-log o bytes true (w, run, v, same) =
        let (w', run', v', same', zeroed) = persist-log w w.buffer_offset v refl in
        (w', rw (run, ◌>>=◌) run', v', same' ∙ same)
    flushed-log o bytes false (w, run, v, same) = (w, rw run, v, same)

    append_data-log :
        (w : FileWriter File) (bytes : Bytes) (at_once : Bool)
        → IsValid w
        → Logs (append_data write w bytes at_once) (log w ++ bytes)
    unfolding append_data
    append_data-log w [] at_once v = (w, refl, v, sym (append-nil (log w)))
    append_data-log w (b ∷ bs) at_once v =
        let some_bytes : (length (b ∷ bs) == 0) ≡ false = ground arith in
        elim (dec_lt (length (b ∷ bs)) (buffer_size - w.buffer_offset)) [
          | yes h ↦
              let (v', same) = copy-log w (b ∷ bs) v (omega arith) in
              rw (some_bytes, lt→ltb _ _ h)
                (flushed-log (some (copy_in write w (b ∷ bs))) (log w ++ b ∷ bs) at_once
                  (copy_in write w (b ∷ bs), refl, v', same))
          | no h ↦
              rw (some_bytes, nlt→ltb _ _ h)
                (flushed-log (append_over write w (b ∷ bs)) (log w ++ b ∷ bs) at_once
                  (append_over-log w (b ∷ bs) v (omega (arith, v.within))))
        ]

    -- append on a valid writer, over a system whose writes are complete, ends without a failed
    -- assertion for fewer than 2^31 bytes; the writer stays valid and its log (the file, then the
    -- buffer in use) grows by exactly the bytes.
    pub append-log :
        (w : FileWriter File) (bytes : Bytes) (at_once : Bool)
        → IsValid w
        → length bytes < 2 ^ 31
        → Logs (append write w bytes at_once) (log w ++ bytes)
    unfolding append
    append-log w bytes at_once v small =
        let plain : ltb (length bytes % 2 ^ 32) (2 ^ 31) ≡ true = ground arith in
        let len : length bytes % 2 ^ 32 ≡ length bytes = omega arith in
        let whole : take (length bytes % 2 ^ 32) bytes ≡ bytes =
          ap (λ n. take n bytes) len ∙ take-all bytes in
        let (w', run, valid, done) = append_data-log w bytes at_once v in
        (w', if_true _ _ _ plain ∙ ap (λ t. append_data write w t at_once) whole ∙ run, valid, done)

    -- flush on a valid writer, over a system whose writes are complete, ends with the whole log in
    -- the file and nothing waiting; the writer stays valid.
    pub flush-contents :
        (w : FileWriter File)
        → IsValid w
        → (w' : FileWriter File) × (flush write w ≡ some w')
          × IsValid w'
          × (contents w'.file ≡ log w)
          × (w'.buffer_offset ≡ 0)
    unfolding flush log
    flush-contents w v = elim (dec_lt 0 w.buffer_offset) [
      | yes h ↦
          let (w', run, v', same, zeroed) = persist-log w w.buffer_offset v refl in
          (
            w',
            rw (lt→ltb _ _ h) run,
            v',
            sym (append-nil (contents w'.file))
                ∙ ap (λ n. contents w'.file ++ take n w'.buffer) (sym zeroed)
                ∙ same,
            zeroed,
          )
      | no h ↦
          let zeroed : w.buffer_offset ≡ 0 = omega arith in
          (
            w,
            rw (nlt→ltb _ _ h),
            v,
            sym (append-nil (contents w.file))
                ∙ ap (λ n. contents w.file ++ take n w.buffer) (sym zeroed),
            zeroed,
          )
    ]

    -- close on a valid writer, over a system whose writes are complete, ends with the whole log in
    -- the file, and the file closed.
    pub close-contents :
        (w : FileWriter File)
        → IsValid w
        → (w' : FileWriter File) × (close write w ≡ some w')
          × (contents w'.file ≡ log w)
          × (w'.closed ≡ true)
    unfolding close
    close-contents w v =
        let (w', run, v', all, zeroed) = flush-contents w v in
        (record w' { closed = true }, rw (run, ◌>>=◌), all, refl)
