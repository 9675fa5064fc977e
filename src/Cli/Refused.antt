-- ===== src/Cli/Refused.antt =====
-- The lines that are refused (`ParseAndExec` of cli/parse.cpp).
use smallkv.Base.{
  ℕ, ◌≤◌, ◌<◌, ◌≡◌, ◌≢◌, refl, ap, ◌∙◌, true, false, not, Option, some, [], ◌∷◌, ◌++◌, length, take,
  ltb, ◌==◌, arith, if_false, if_true,
}
use smallkv.Base.Bytes.{Bytes, beq, beq_self, ne→beq, compare_bytes}
use smallkv.Base.Codes.{codes}
use smallkv.Table.DataBlock.{OffsetInfo}
use smallkv.Db.{Db}
use smallkv.Cli.{
  count_spaces, set_cmd, get_cmd, del_cmd, exit_cmd, unknown_cmd, toolong_cmd, syntax_err, replied,
  exec_set, exec_get, exec_del, exec_op, parse_and_exec,
}
use smallkv.Cli.Words.{IsBare, trim-replicate}
use smallkv.Cli.Commands.{padded, run, run-bare}

-- The lines, without spaces around them, that are refused, with the answer.
pub data Refused (cmd : Bytes) : Bytes → Type 0 where
  too_short : length cmd < 3 → Refused cmd (unknown_cmd ++ codes ": " ++ cmd)
  too_long : 1000 < length cmd → Refused cmd toolong_cmd
  unknown :
      3 ≤ length cmd
      → length cmd ≤ 1000
      → take 3 cmd ≢ set_cmd
      → take 3 cmd ≢ get_cmd
      → take 3 cmd ≢ del_cmd
      → Refused cmd (unknown_cmd ++ codes ": " ++ take 3 cmd)
  bad_set : length cmd ≤ 1000 → take 3 cmd ≡ set_cmd → count_spaces cmd ≢ 2 → Refused cmd syntax_err
  bad_get : length cmd ≤ 1000 → take 3 cmd ≡ get_cmd → count_spaces cmd ≢ 1 → Refused cmd syntax_err
  bad_del : length cmd ≤ 1000 → take 3 cmd ≡ del_cmd → count_spaces cmd ≢ 1 → Refused cmd syntax_err

-- A text whose first three bytes are three bytes has as many.
length-take_three : (cmd op : Bytes) → take 3 cmd ≡ op → length op ≡ 3 → 3 ≤ length cmd
length-take_three [] op e h = absurd (omega (arith, ap length e))
length-take_three (a ∷ []) op e h = absurd (omega (arith, ap length e))
length-take_three (a ∷ b ∷ []) op e h = absurd (omega (arith, ap length e))
length-take_three (a ∷ b ∷ c ∷ cmd) op e h = omega arith

get_is_not_set : beq get_cmd set_cmd ≡ false
unfolding beq compare_bytes
get_is_not_set = refl

del_is_neither : (beq del_cmd set_cmd ≡ false) × (beq del_cmd get_cmd ≡ false)
unfolding beq compare_bytes
del_is_neither = (refl, refl)

module _ {File : Type 0} (write : File → Bytes → File × Option ℕ) (crc hash : Bytes → ℕ)
    (open_table : ℕ → File) (bits_num optimal : ℕ → ℕ) (find_sst : (ℕ → Option File) → Option Bytes)
    (read_address : OffsetInfo → Option ℕ) where
  exec_op-Refused :
      (db : Db File) (cmd answer : Bytes) (rand : ℕ → ℕ)
      → 3 ≤ length cmd
      → length cmd ≤ 1000
      → Refused cmd answer
      → exec_op write crc hash open_table bits_num optimal find_sst read_address db cmd rand
        ≡ some (replied db answer)
  unfolding exec_op exec_set exec_get exec_del
  exec_op-Refused db cmd _ rand long short (too_short h) = absurd (omega arith)
  exec_op-Refused db cmd _ rand long short (too_long h) = absurd (omega arith)
  exec_op-Refused db cmd _ rand long short (unknown _ _ s g d) =
      if_false _ _ _ (ne→beq _ _ s)
      ∙ (if_false _ _ _ (ne→beq _ _ g) ∙ if_false _ _ _ (ne→beq _ _ d))
  exec_op-Refused db cmd _ rand long short (bad_set _ e n) =
      let t : not (count_spaces cmd == 2) ≡ true = ground arith in
      if_true _ _ _ (ap (λ o. beq o set_cmd) e ∙ beq_self set_cmd) ∙ if_true _ _ _ t
  exec_op-Refused db cmd _ rand long short (bad_get _ e n) =
      let t : not (count_spaces cmd == 1) ≡ true = ground arith in
      if_false _ _ _ (ap (λ o. beq o set_cmd) e ∙ get_is_not_set)
      ∙ (if_true _ _ _ (ap (λ o. beq o get_cmd) e ∙ beq_self get_cmd) ∙ if_true _ _ _ t)
  exec_op-Refused db cmd _ rand long short (bad_del _ e n) =
      let t : not (count_spaces cmd == 1) ≡ true = ground arith in
      if_false _ _ _ (ap (λ o. beq o set_cmd) e ∙ del_is_neither.0)
      ∙ (if_false _ _ _ (ap (λ o. beq o get_cmd) e ∙ del_is_neither.1)
          ∙ (if_true _ _ _ (ap (λ o. beq o del_cmd) e ∙ beq_self del_cmd) ∙ if_true _ _ _ t))

  -- A line of the wrong size.
  short-refused :
      (db : Db File) (n m : ℕ) (cmd : Bytes) (rand : ℕ → ℕ)
      → IsBare cmd
      → cmd ≢ exit_cmd
      → length cmd < 3
      → run write crc hash open_table bits_num optimal find_sst read_address db
          (padded n cmd m)
          rand
        ≡ some (replied db (unknown_cmd ++ codes ": " ++ cmd))
  unfolding parse_and_exec
  short-refused db n m cmd rand bare other short =
      let some_text : (length cmd == 0) ≡ false = ground (arith, ap length bare.starts) in
      let t : ltb (length cmd) 3 ≡ true = ground arith in
      rw (trim-replicate n m cmd bare)
        (if_false _ _ _ some_text ∙ (if_false _ _ _ (ne→beq _ _ other) ∙ if_true _ _ _ t))

  long-refused :
      (db : Db File) (n m : ℕ) (cmd : Bytes) (rand : ℕ → ℕ)
      → IsBare cmd
      → cmd ≢ exit_cmd
      → 1000 < length cmd
      → run write crc hash open_table bits_num optimal find_sst read_address db
          (padded n cmd m)
          rand
        ≡ some (replied db toolong_cmd)
  unfolding parse_and_exec
  long-refused db n m cmd rand bare other long =
      let some_text : (length cmd == 0) ≡ false = ground arith in
      let t₁ : ltb (length cmd) 3 ≡ false = ground arith in
      let t₂ : ltb 1000 (length cmd) ≡ true = ground arith in
      rw (trim-replicate n m cmd bare) (
        if_false _ _ _ some_text
        ∙ (if_false _ _ _ (ne→beq _ _ other) ∙ (if_false _ _ _ t₁ ∙ if_true _ _ _ t₂)))

  op-Refused :
      (db : Db File) (n m : ℕ) (cmd answer : Bytes) (rand : ℕ → ℕ)
      → IsBare cmd
      → cmd ≢ exit_cmd
      → 3 ≤ length cmd
      → length cmd ≤ 1000
      → Refused cmd answer
      → run write crc hash open_table bits_num optimal find_sst read_address db
          (padded n cmd m)
          rand
        ≡ some (replied db answer)
  op-Refused db n m cmd answer rand bare other long short r =
      run-bare write crc hash open_table bits_num optimal find_sst read_address db n m cmd rand bare
        long short (ne→beq _ _ other)
      ∙ exec_op-Refused db cmd answer rand long short r

  -- A line, with any spaces around it, that is not exit and is refused answers the error of its
  -- kind and leaves the database as it was: fewer than three bytes, more than 1000, another
  -- operation than set, get and del, or the wrong number of spaces for its operation.
  pub parse_and_exec-Refused :
      (db : Db File) (n m : ℕ) (cmd answer : Bytes) (rand : ℕ → ℕ)
      → IsBare cmd
      → cmd ≢ exit_cmd
      → Refused cmd answer
      → run write crc hash open_table bits_num optimal find_sst read_address db
          (padded n cmd m)
          rand
        ≡ some (replied db answer)
  parse_and_exec-Refused db n m cmd _ rand bare other (too_short h) =
      short-refused db n m cmd rand bare other h
  parse_and_exec-Refused db n m cmd _ rand bare other (too_long h) =
      long-refused db n m cmd rand bare other h
  parse_and_exec-Refused db n m cmd _ rand bare other (unknown l h s g d) =
      op-Refused db n m cmd _ rand bare other l h (unknown l h s g d)
  parse_and_exec-Refused db n m cmd _ rand bare other (bad_set h e c) =
      op-Refused db n m cmd _ rand bare other (length-take_three cmd _ e refl) h (bad_set h e c)
  parse_and_exec-Refused db n m cmd _ rand bare other (bad_get h e c) =
      op-Refused db n m cmd _ rand bare other (length-take_three cmd _ e refl) h (bad_get h e c)
  parse_and_exec-Refused db n m cmd _ rand bare other (bad_del h e c) =
      op-Refused db n m cmd _ rand bare other (length-take_three cmd _ e refl) h (bad_del h e c)
