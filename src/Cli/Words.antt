-- ===== src/Cli/Words.antt =====
-- Words, spaces and places in a line (`Trim` and the searches of cli/parse.cpp).
use smallkv.Base.{
  ℕ, zero, suc, ◌+◌, ◌≡◌, refl, sym, ap, ◌∙◌, Bool, true, false, none, some, [], ◌∷◌, ◌++◌, length,
  take, drop, All, replicate, length-replicate, arith, append_assoc, length-append,
  take-length-append, drop-length-append,
}
use smallkv.Base.Bytes.{Bytes}
use smallkv.Cli.{
  space, find_first, find_last, is_space, is_other, behind, erase_before, trim, count_spaces,
}

-- No byte passes the test.
abbrev pub Fails : (ℕ → Bool) → Bytes → Type 0
Fails test = All (λ b. test b ≡ false)

pub find_first-append :
    (test : ℕ → Bool) (a : Bytes) (b : ℕ) (s : Bytes)
    → Fails test a
    → test b ≡ true
    → find_first test (a ++ b ∷ s) ≡ some (length a)
unfolding find_first
find_first-append test [] b s f e = rw e refl
find_first-append test (x ∷ a) b s f e = rw (f.0, find_first-append test a b s f.1 e) refl

find_last-none : (test : ℕ → Bool) (s : Bytes) → Fails test s → find_last test s ≡ none
unfolding find_last
find_last-none test [] f = refl
find_last-none test (b ∷ s) f = rw (find_last-none test s f.1, f.0) refl

pub find_last-append :
    (test : ℕ → Bool) (a : Bytes) (b : ℕ) (s : Bytes)
    → test b ≡ true
    → Fails test s
    → find_last test (a ++ b ∷ s) ≡ some (length a)
unfolding find_last
find_last-append test [] b s e f = rw (find_last-none test s f, e) refl
find_last-append test (x ∷ a) b s e f = rw (find_last-append test a b s e f) refl

pub count_spaces-append : (a s : Bytes) → count_spaces (a ++ s) ≡ count_spaces a + count_spaces s
unfolding count_spaces
count_spaces-append [] s = omega arith
count_spaces-append (b ∷ a) s = ground (arith, count_spaces-append a s)

-- A text without spaces.
abbrev pub IsWord : Bytes → Type 0
IsWord = Fails is_space

pub count_spaces-word : (s : Bytes) → IsWord s → count_spaces s ≡ 0
unfolding count_spaces
count_spaces-word [] w = refl
count_spaces-word (b ∷ s) w = rw w.0 (count_spaces-word s w.1)

Fails-replicate : (n : ℕ) → Fails is_other (replicate n space)
unfolding replicate
Fails-replicate zero = tt
Fails-replicate (suc n) = (refl, Fails-replicate n)

-- Neither the first byte nor the last is a space, and there is one.
pub record IsBare (s : Bytes) : Type 0 where
  pub first : ℕ
  pub others : Bytes
  pub starts : s ≡ first ∷ others
  pub starts_with : is_other first ≡ true
  pub before : Bytes
  pub last : ℕ
  pub ends : s ≡ before ++ last ∷ []
  pub ends_with : is_other last ≡ true

trim-parts :
    (cmd : Bytes) (i j : ℕ)
    → find_first is_other cmd ≡ some i
    → find_last is_other (drop i cmd) ≡ some j
    → trim cmd ≡ take (suc j) (drop i cmd)
unfolding trim
trim-parts cmd i j e f =
    ap (λ o. take (behind (find_last is_other (erase_before cmd o))) (erase_before cmd o)) e
    ∙ ap (λ o. take (behind o) (drop i cmd)) f

-- Trim takes off any number of spaces on both sides of a text that neither starts nor ends with one
-- and is not empty.
pub trim-replicate :
    (n m : ℕ) (s : Bytes) → IsBare s → trim (replicate n space ++ (s ++ replicate m space)) ≡ s
trim-replicate n m s b =
    let tail = replicate m space in
    let front : find_first is_other (replicate n space ++ (s ++ tail)) ≡ some n =
      ap (λ t. find_first is_other (replicate n space ++ (t ++ tail))) b.starts
      ∙ find_first-append is_other (replicate n space) b.first (b.others ++ tail)
          (Fails-replicate n) b.starts_with
      ∙ ap some (length-replicate n space) in
    let rest : drop n (replicate n space ++ (s ++ tail)) ≡ s ++ tail =
      drop-length-append n (replicate n space) (s ++ tail) (sym (length-replicate n space)) in
    let back : find_last is_other (s ++ tail) ≡ some (length b.before) =
      ap (λ t. find_last is_other (t ++ tail)) b.ends
      ∙ ap (find_last is_other) (append_assoc b.before (b.last ∷ []) tail)
      ∙ find_last-append is_other b.before b.last tail b.ends_with (Fails-replicate m) in
    let size : suc (length b.before) ≡ length s =
      omega (arith, ap length b.ends, length-append b.before (b.last ∷ [])) in
    trim-parts (replicate n space ++ (s ++ tail)) n (length b.before) front
      (ap (find_last is_other) rest ∙ back)
    ∙ ap (take (suc (length b.before))) rest
    ∙ (take-length-append (suc (length b.before)) s tail size)
