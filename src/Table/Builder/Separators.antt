-- ===== src/Table/Builder/Separators.antt =====
-- The separator that the index gets for a full block (src/table/sstable_builder.cpp,
-- find_shortest_key).
use smallkv.Base.{
  ℕ, zero, suc, ◌+◌, ◌≤◌, ◌<◌, ◌≡◌, ◌≢◌, refl, sym, ap, ◌∙◌, true, false, ◌||◌, some, [], ◌∷◌, ◌++◌,
  length, take, All, ◌==◌, if◌then◌else◌, arith, if_true, if_false,
}
use smallkv.Base.Bytes.{Bytes, lt, gt, compare_bytes}
use smallkv.Table.Builder.{count_equal, raise_last, less, find_shortest_key}
use smallkv.Table.Builder.Sizes.{less_lem}
use native.Mathlib.Decide.{ℕ_discrete}

-- The characters from the space on, without the last one, which cannot be raised.
abbrev pub IsText : ℕ → Type 0
IsText c = (32 ≤ c) × (c < 255)

count_equal-le : (xs ys : Bytes) → count_equal xs ys ≤ length xs
unfolding count_equal
count_equal-le [] ys = omega arith
count_equal-le (x ∷ xs) [] = omega arith
count_equal-le (x ∷ xs) (y ∷ ys) = ground (arith, count_equal-le xs ys)

-- A prefix with its last character raised lies behind.
raise_last-above :
    (n x : ℕ) (xs : Bytes)
    → x < 255
    → All IsText xs
    → compare_bytes (x ∷ xs) (raise_last (x ∷ take n xs)) ≡ lt
unfolding compare_bytes raise_last
raise_last-above zero x xs h a = ground (arith, h)
raise_last-above (suc n) x [] h a = ground (arith, h)
raise_last-above (suc n) x (y ∷ ys) h a = ground (arith, raise_last-above n y ys a.0.1 a.1)

nil-least : (ys : Bytes) → compare_bytes [] ys ≢ gt
unfolding compare_bytes
nil-least [] e = cc e
nil-least (y ∷ ys) e = cc e

nothing-below : (x : ℕ) (xs : Bytes) → compare_bytes (x ∷ xs) [] ≢ lt
unfolding compare_bytes
nothing-below x xs e = cc e

-- If the first characters differ, it does not lie behind the second key.
raise_last-below :
    (n x y : ℕ) (xs ys : Bytes)
    → x < y
    → x < 255
    → compare_bytes (raise_last (x ∷ take n xs)) (y ∷ ys) ≢ gt
unfolding compare_bytes raise_last
raise_last-below zero x y xs ys h k e = ground (arith, e, nil-least ys)
raise_last-below (suc n) x y [] ys h k e = ground (arith, e, nil-least ys)
raise_last-below (suc n) x y (z ∷ zs) ys h k e = ground (arith, e)

cons-compare : (x : ℕ) (xs ys : Bytes) → compare_bytes (x ∷ xs) (x ∷ ys) ≡ compare_bytes xs ys
unfolding compare_bytes
cons-compare x xs ys = ground arith

-- What find_shortest_key returns, where its assertions hold.
abbrev shortest : Bytes → Bytes → Bytes
shortest xs ys =
    if length xs == count_equal xs ys
    then xs ++ 32 ∷ []
    else raise_last (take (count_equal xs ys + 1) xs)

-- A shared first character stays in front.
shortest_same : (x : ℕ) (xs ys : Bytes) → shortest (x ∷ xs) (x ∷ ys) ≡ x ∷ shortest xs ys
unfolding count_equal raise_last
shortest_same x [] ys = ground arith
shortest_same x (y ∷ xs) ys =
    let shared : (x == x) ≡ true = ground arith in rw shared (step (count_equal (y ∷ xs) ys))
  where
    step :
        (c : ℕ)
        → (if suc (suc (length xs)) == suc c
            then x ∷ y ∷ (xs ++ 32 ∷ [])
            else raise_last (take (suc c + 1) (x ∷ y ∷ xs)))
          ≡ x
            ∷ (if suc (length xs) == c
                then y ∷ (xs ++ 32 ∷ [])
                else raise_last (take (c + 1) (y ∷ xs)))
    step c = elim (ℕ_discrete (suc (length xs)) c) [
      | yes e ↦ ground (arith, e)
      | no d ↦
          let one_more : c + 1 ≡ suc c = omega arith in
          let two_more : suc c + 1 ≡ suc (suc c) = omega arith in
          rw (one_more, two_more) (ground (arith, d))
    ]

-- Otherwise the first key is longer than what the keys share.
shortest_differ :
    (x y : ℕ) (xs ys : Bytes)
    → x ≢ y
    → shortest (x ∷ xs) (y ∷ ys) ≡ raise_last (x ∷ take (count_equal xs ys) xs)
unfolding count_equal
shortest_differ x y xs ys d = ground (arith, d, count_equal-le xs ys)

shortest-between :
    (xs ys : Bytes)
    → All IsText xs
    → All IsText ys
    → compare_bytes xs ys ≡ lt
    → (compare_bytes xs (shortest xs ys) ≡ lt) × (compare_bytes (shortest xs ys) ys ≢ gt)
unfolding compare_bytes count_equal raise_last
shortest-between [] [] a b h = absurd (cc h)
shortest-between [] (y ∷ ys) a b h = (refl, λ e. ground (arith, e, b.0.0, nil-least ys))
shortest-between (x ∷ xs) [] a b h = absurd (cc h)
shortest-between (x ∷ xs) (y ∷ ys) a b h = elim (ℕ_discrete x y) [
  | yes e ↦
      let (above, below) = shortest-between xs ys a.1 b.1 (ground (arith, h, e)) in
      let same : shortest (x ∷ xs) (y ∷ ys) ≡ x ∷ shortest xs ys =
        ap (λ z. shortest (x ∷ xs) (z ∷ ys)) (sym e) ∙ shortest_same x xs ys in
      (
        ap (compare_bytes (x ∷ xs)) same ∙ cons-compare x xs (shortest xs ys) ∙ above,
        λ f. below (
            sym (cons-compare x (shortest xs ys) ys)
            ∙ ap (λ z. compare_bytes (x ∷ shortest xs ys) (z ∷ ys)) e
            ∙ sym (ap (λ t. compare_bytes t (y ∷ ys)) same)
            ∙ f),
      )
  | no d ↦
      let smaller : x < y = ground (arith, h, d) in
      let same = shortest_differ x y xs ys d in
      (
        ap (compare_bytes (x ∷ xs)) same ∙ raise_last-above (count_equal xs ys) x xs a.0.1 a.1,
        λ f.
            raise_last-below (count_equal xs ys) x y xs ys smaller a.0.1
              (sym (ap (λ t. compare_bytes t (y ∷ ys)) same) ∙ f),
      )
]

-- For two keys of characters from the space on, without the character 255, the first below the
-- second and not empty, find_shortest_key ends without a failed assertion, and what it returns lies
-- behind the first key and not behind the second.
pub find_shortest_key-between :
    (xs ys : Bytes)
    → xs ≢ []
    → All IsText xs
    → All IsText ys
    → compare_bytes xs ys ≡ lt
    → (s : Bytes) × (find_shortest_key xs ys ≡ some s)
      × (compare_bytes xs s ≡ lt)
      × (compare_bytes s ys ≢ gt)
unfolding find_shortest_key
find_shortest_key-between [] ys n a b h = absurd (n refl)
find_shortest_key-between (x ∷ xs) [] n a b h = absurd (nothing-below x xs h)
find_shortest_key-between (x ∷ xs) (y ∷ ys) n a b h =
    let (above, below) = shortest-between (x ∷ xs) (y ∷ ys) a b h in
    let smaller : less (x ∷ xs) (y ∷ ys) ≡ true = less_lem (x ∷ xs) (y ∷ ys) h in
    let some_keys : ((length (x ∷ xs) == 0) || (length (y ∷ ys) == 0)) ≡ false = ground arith in
    (shortest (x ∷ xs) (y ∷ ys), if_false _ _ _ some_keys ∙ if_true _ _ _ smaller, above, below)
