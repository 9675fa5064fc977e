-- ===== src/Cli/Commands.antt =====
-- What the commands do (`ParseAndExec` of cli/parse.cpp).
use smallkv.Base.{
  ℕ, suc, ◌+◌, ◌-◌, ◌≤◌, ◌≡◌, refl, sym, ap, ◌∙◌, true, false, not, Option, some, [], ◌∷◌, ◌++◌,
  length, take, drop, replicate, ltb, ◌==◌, if◌then◌else◌, arith, append_assoc, length-append,
  take-length-append, drop-length-append, if_false,
}
use mathlib.Core.Path.{subst}
use smallkv.Base.Maybe.{◌>>=◌}
use smallkv.Base.Bytes.{Bytes, beq, compare_bytes}
use smallkv.Base.Codes.{codes}
use smallkv.Table.DataBlock.{OffsetInfo}
use smallkv.Db.{Db, put, delete, get}
use smallkv.Cli.{
  space, find_first, find_last, is_space, is_other, behind, count_spaces, set_cmd, get_cmd, del_cmd,
  ok, exec_failed, deleted_one, Outcome, replied, is_failure, get_answer, exec_set, exec_get,
  exec_del, exec_op, parse_and_exec,
}
use smallkv.Cli.Words.{
  IsWord, IsBare, find_first-append, find_last-append, count_spaces-append, count_spaces-word,
  trim-replicate,
}

-- The line of an operation on a key.
abbrev pub line : Bytes → Bytes → Bytes
line op key = op ++ space ∷ key

-- The line of `set`.
abbrev pub set_line : Bytes → Bytes → Bytes
set_line key value = line set_cmd (key ++ space ∷ value)

-- The same with spaces on both sides.
abbrev pub padded : ℕ → Bytes → ℕ → Bytes
padded n text m = replicate n space ++ (text ++ replicate m space)

find_first-line :
    (op s : Bytes) → IsWord op → behind (find_first is_space (op ++ space ∷ s)) ≡ suc (length op)
find_first-line op s w = ap behind (find_first-append is_space op space s w refl)

drop-line : (op s : Bytes) → drop (suc (length op)) (op ++ space ∷ s) ≡ s
drop-line op s =
    ap (drop (suc (length op))) (sym (append_assoc op (space ∷ []) s))
    ∙ drop-length-append (suc (length op)) (op ++ space ∷ []) s
        (omega (arith, length-append op (space ∷ [])))

count_spaces-line :
    (op s : Bytes) → IsWord op → count_spaces (op ++ space ∷ s) ≡ suc (count_spaces s)
unfolding count_spaces
count_spaces-line op s w = omega (arith, count_spaces-append op (space ∷ s), count_spaces-word op w)

-- The key behind an operation, and the one space before it.
key-line :
    (op s : Bytes)
    → IsWord op
    → drop (behind (find_first is_space (op ++ space ∷ s))) (op ++ space ∷ s) ≡ s
key-line op s w = ap (λ i. drop i (op ++ space ∷ s)) (find_first-line op s w) ∙ drop-line op s

one_space :
    (op s : Bytes) → IsWord op → IsWord s → not (count_spaces (op ++ space ∷ s) == 1) ≡ false
one_space op s w v = ground (arith, count_spaces-line op s w, count_spaces-word s v)

-- The key and the value behind `set`.
last-line :
    (op key s : Bytes)
    → IsWord s
    → behind (find_last is_space (op ++ space ∷ (key ++ space ∷ s)))
      ≡ suc (length op + 1 + length key)
last-line op key s v =
    ap (λ t. behind (find_last is_space t)) (sym (append_assoc op (space ∷ key) (space ∷ s)))
    ∙ ap behind (find_last-append is_space (op ++ space ∷ key) space s refl v)
    ∙ omega (arith, length-append op (space ∷ key))

-- The last byte of a word that is not empty.
ends-word :
    (b : ℕ) (s pre : Bytes)
    → IsWord (b ∷ s)
    → (u : Bytes) × (c : ℕ) × (pre ++ b ∷ s ≡ u ++ c ∷ []) × (is_other c ≡ true)
ends-word b [] pre w = (pre, b, refl, ap not w.0)
ends-word b (c ∷ s) pre w =
    let (u, d, e, o) = ends-word c s (pre ++ b ∷ []) w.1 in
    (u, d, sym (append_assoc pre (b ∷ []) (c ∷ s)) ∙ e, o)

-- A line that ends in such a word is bare.
IsBare-line :
    (o : ℕ) (op : Bytes) (b : ℕ) (s : Bytes)
    → is_other o ≡ true
    → IsWord (b ∷ s)
    → IsBare (o ∷ op ++ space ∷ b ∷ s)
IsBare-line o op b s starts w =
    let (u, c, e, l) = ends-word b s (o ∷ op ++ space ∷ []) w in
    record {
      first = o;
      others = op ++ space ∷ b ∷ s;
      starts = refl;
      starts_with = starts;
      before = u;
      last = c;
      ends = sym (append_assoc (o ∷ op) (space ∷ []) (b ∷ s)) ∙ e;
      ends_with = l;
    }

key-set :
    (op key s : Bytes)
    → IsWord op
    → IsWord s
    → take
        (behind (find_last is_space (op ++ space ∷ (key ++ space ∷ s)))
          - behind (find_first is_space (op ++ space ∷ (key ++ space ∷ s)))
          - 1)
        (drop
          (behind (find_first is_space (op ++ space ∷ (key ++ space ∷ s))))
          (op ++ space ∷ (key ++ space ∷ s)))
      ≡ key
key-set op key s w v =
    let l = op ++ space ∷ (key ++ space ∷ s) in
    ap (λ t. take (behind (find_last is_space l) - behind (find_first is_space l) - 1) t)
      (key-line op (key ++ space ∷ s) w)
    ∙ take-length-append _ key (space ∷ s)
        (omega (arith, last-line op key s v, find_first-line op (key ++ space ∷ s) w))

value-set :
    (op key s : Bytes)
    → IsWord s
    → drop
        (behind (find_last is_space (op ++ space ∷ (key ++ space ∷ s))))
        (op ++ space ∷ (key ++ space ∷ s))
      ≡ s
value-set op key s v =
    let size : suc (length op + 1 + length key) ≡ suc (length (op ++ space ∷ key)) =
      omega (arith, length-append op (space ∷ key)) in
    ap (λ i. drop i (op ++ space ∷ (key ++ space ∷ s))) (last-line op key s v ∙ size)
    ∙ ap (drop (suc (length (op ++ space ∷ key)))) (sym (append_assoc op (space ∷ key) (space ∷ s)))
    ∙ drop-line (op ++ space ∷ key) s

module _ {File : Type 0} (write : File → Bytes → File × Option ℕ) (crc hash : Bytes → ℕ)
    (open_table : ℕ → File) (bits_num optimal : ℕ → ℕ) (find_sst : (ℕ → Option File) → Option Bytes)
    (read_address : OffsetInfo → Option ℕ) where
  abbrev pub run : Db File → Bytes → (ℕ → ℕ) → Option (Outcome File)
  run = parse_and_exec write crc hash open_table bits_num optimal find_sst read_address

  abbrev pub op_of : Db File → Bytes → (ℕ → ℕ) → Option (Outcome File)
  op_of = exec_op write crc hash open_table bits_num optimal find_sst read_address

  pub run-bare :
      (db : Db File) (n m : ℕ) (cmd : Bytes) (rand : ℕ → ℕ)
      → IsBare cmd
      → 3 ≤ length cmd
      → length cmd ≤ 1000
      → beq cmd (codes "exit") ≡ false
      → run db (padded n cmd m) rand ≡ op_of db cmd rand
  unfolding parse_and_exec
  run-bare db n m cmd rand bare long short other =
      let some_text : (length cmd == 0) ≡ false = ground arith in
      let t₁ : ltb (length cmd) 3 ≡ false = ground arith in
      let t₂ : ltb 1000 (length cmd) ≡ false = ground arith in
      rw (trim-replicate n m cmd bare) (
        if_false _ _ _ some_text ∙ (if_false _ _ _ other ∙ (if_false _ _ _ t₁ ∙ if_false _ _ _ t₂)))

  pub parse_and_exec-get :
      (db : Db File) (n m b : ℕ) (s : Bytes) (rand : ℕ → ℕ)
      → IsWord (b ∷ s)
      → length (b ∷ s) ≤ 996
      → run db (padded n (line get_cmd (b ∷ s)) m) rand ≡ (
          get write crc hash open_table bits_num optimal find_sst read_address db (b ∷ s) []
          >>= λ (db', value, status). some (replied db' (get_answer value status)))
  unfolding exec_op exec_get beq compare_bytes
  parse_and_exec-get db n m b s rand w small =
      let cmd = line get_cmd (b ∷ s) in
      let one : not (count_spaces cmd == 1) ≡ false =
        one_space get_cmd (b ∷ s) (refl, (refl, (refl, tt))) w in
      run-bare db n m cmd rand (IsBare-line 103 (codes "et") b s refl w) (omega arith) (omega arith)
        refl
      ∙ (if_false _ _ _ one
          ∙ ap
              (λ k.
                get write crc hash open_table bits_num optimal find_sst read_address db k []
                >>= λ (db', value, status). some (replied db' (get_answer value status)))
              (key-line get_cmd (b ∷ s) (refl, (refl, (refl, tt)))))

  pub parse_and_exec-del :
      (db : Db File) (n m b : ℕ) (s : Bytes) (rand : ℕ → ℕ)
      → IsWord (b ∷ s)
      → length (b ∷ s) ≤ 996
      → run db (padded n (line del_cmd (b ∷ s)) m) rand ≡ (
          delete write crc hash open_table bits_num optimal db (b ∷ s) rand >>= λ (db', status).
          some (replied db' (if is_failure status then exec_failed else deleted_one)))
  unfolding exec_op exec_del beq compare_bytes
  parse_and_exec-del db n m b s rand w small =
      let cmd = line del_cmd (b ∷ s) in
      let one : not (count_spaces cmd == 1) ≡ false =
        one_space del_cmd (b ∷ s) (refl, (refl, (refl, tt))) w in
      run-bare db n m cmd rand (IsBare-line 100 (codes "el") b s refl w) (omega arith) (omega arith)
        refl
      ∙ (if_false _ _ _ one
          ∙ ap
              (λ k. delete write crc hash open_table bits_num optimal db k rand >>= λ (db', status).
                some (replied db' (if is_failure status then exec_failed else deleted_one)))
              (key-line del_cmd (b ∷ s) (refl, (refl, (refl, tt)))))

  pub parse_and_exec-set :
      (db : Db File) (n m : ℕ) (key : Bytes) (b : ℕ) (s : Bytes) (rand : ℕ → ℕ)
      → IsWord key
      → IsWord (b ∷ s)
      → length key + length (b ∷ s) ≤ 995
      → run db (padded n (set_line key (b ∷ s)) m) rand ≡ (
          put write crc hash open_table bits_num optimal db key (b ∷ s) rand >>= λ (db', status).
          some (replied db' (if is_failure status then exec_failed else ok)))
  unfolding exec_op exec_set beq compare_bytes
  parse_and_exec-set db n m key b s rand w v small =
      let cmd = set_line key (b ∷ s) in
      let two : not (count_spaces cmd == 2) ≡ false = ground (
        arith,
        count_spaces-line set_cmd (key ++ space ∷ b ∷ s) (refl, (refl, (refl, tt))),
        count_spaces-line key (b ∷ s) w,
        count_spaces-word (b ∷ s) v,
      ) in
      let size = length-append key (space ∷ b ∷ s) in
      run-bare db n m cmd rand
        (subst IsBare (append_assoc (codes "set ") key (space ∷ b ∷ s))
          (IsBare-line 115 (codes "et " ++ key) b s refl v))
        (omega arith) (omega (arith, size)) refl
      ∙ (if_false _ _ _ two
          ∙ (ap (λ k. answer k (drop (behind (find_last is_space cmd)) cmd))
                (key-set set_cmd key (b ∷ s) (refl, (refl, (refl, tt))) v)
              ∙ ap (answer key) (value-set set_cmd key (b ∷ s) v)))
    where
      answer : Bytes → Bytes → Option (Outcome File)
      answer k t = put write crc hash open_table bits_num optimal db k t rand >>= λ (db', status).
          some (replied db' (if is_failure status then exec_failed else ok))
