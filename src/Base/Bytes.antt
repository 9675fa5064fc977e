-- ===== src/Base/Bytes.antt =====
-- Byte strings, and the order of `std::string`: lexicographic on unsigned bytes, a prefix first.
use Prim.Native.Nat.{ℕ, compare, Ordering}
use mathlib.Core.Path.{◌≡◌, refl, ap}
use mathlib.Core.Logic.{◌≢◌}
use mathlib.Core.Bool.{Bool, true, false}
use mathlib.Core.List.{List, [], ◌∷◌}
use native.Mathlib.Omega.{arith}
use smallkv.Base.Tests.{if◌then◌else◌, ◌==◌}

abbrev pub Bytes : Type 0
Bytes = List ℕ

pub data Order : Type 0 where
  lt eq gt : Order

-- `a.compare(b)`: the sign of the first difference.
unfoldable pub compare_bytes : Bytes → Bytes → Order
compare_bytes [] [] = eq
compare_bytes [] (y ∷ ys) = lt
compare_bytes (x ∷ xs) [] = gt
compare_bytes (x ∷ xs) (y ∷ ys) = elim (compare x y) [
  | Ordering.lt ↦ lt
  | Ordering.eq ↦ compare_bytes xs ys
  | Ordering.gt ↦ gt
]

abbrev pub flip : Order → Order
flip lt = gt
flip eq = eq
flip gt = lt

pub compare_bytes_self : (a : Bytes) → compare_bytes a a ≡ eq
unfolding compare_bytes
compare_bytes_self [] = refl
compare_bytes_self (x ∷ xs) = ground (arith, compare_bytes_self xs)

pub compare_bytes-eq : (a b : Bytes) → compare_bytes a b ≡ eq → a ≡ b
unfolding compare_bytes
compare_bytes-eq [] [] h = refl
compare_bytes-eq [] (y ∷ ys) h = cc
compare_bytes-eq (x ∷ xs) [] h = cc
compare_bytes-eq (x ∷ xs) (y ∷ ys) h = ground (arith, compare_bytes-eq xs ys)

pub compare_bytes-flip : (a b : Bytes) → compare_bytes b a ≡ flip (compare_bytes a b)
unfolding compare_bytes
compare_bytes-flip [] [] = refl
compare_bytes-flip [] (y ∷ ys) = refl
compare_bytes-flip (x ∷ xs) [] = refl
compare_bytes-flip (x ∷ xs) (y ∷ ys) = ground (arith, compare_bytes-flip xs ys)

pub compare_bytes_trans :
    (a b c : Bytes) → compare_bytes a b ≡ lt → compare_bytes b c ≡ lt → compare_bytes a c ≡ lt
unfolding compare_bytes
compare_bytes_trans [] [] c p q = cc
compare_bytes_trans [] (y ∷ ys) [] p q = cc
compare_bytes_trans [] (y ∷ ys) (z ∷ zs) p q = refl
compare_bytes_trans (x ∷ xs) [] c p q = cc
compare_bytes_trans (x ∷ xs) (y ∷ ys) [] p q = cc
compare_bytes_trans (x ∷ xs) (y ∷ ys) (z ∷ zs) p q = ground (arith, compare_bytes_trans xs ys zs)

pub compare_bytes-gt : (a b : Bytes) → compare_bytes a b ≡ gt → compare_bytes b a ≡ lt
compare_bytes-gt a b h = ground (arith, compare_bytes-flip a b)

-- Equality and order as tests.
unfoldable pub beq : Bytes → Bytes → Bool
beq a b = elim (compare_bytes a b) [ eq ↦ true | _ ↦ false ]

pub beq_self : (a : Bytes) → beq a a ≡ true
unfolding beq
beq_self a = ground (arith, compare_bytes_self a)

pub beq→eq : (a b : Bytes) → beq a b ≡ true → a ≡ b
unfolding beq
beq→eq a b h = ground (arith, compare_bytes-eq a b)

-- A string read through a `char *`: it ends before the first zero byte.
unfoldable pub c_str : Bytes → Bytes
c_str [] = []
c_str (b ∷ bs) = if b == 0 then [] else b ∷ c_str bs

pub c_str-c_str : (bs : Bytes) → c_str (c_str bs) ≡ c_str bs
unfolding c_str
c_str-c_str [] = refl
c_str-c_str (b ∷ bs) = ground (arith, c_str-c_str bs)

-- A string that `c_str` keeps whole.
abbrev pub HasNoNul : Bytes → Type 0
HasNoNul [] = Unit
HasNoNul (b ∷ bs) = (b ≢ 0) × HasNoNul bs

pub c_str_of_HasNoNul : (bs : Bytes) → HasNoNul bs → c_str bs ≡ bs
unfolding c_str
c_str_of_HasNoNul [] h = refl
c_str_of_HasNoNul (b ∷ bs) h = ground (arith, c_str_of_HasNoNul bs h.1)

ge-lt_trans_of :
    (o : Order) (k a b : Bytes)
    → compare_bytes a k ≡ o
    → o ≢ lt
    → compare_bytes a b ≡ lt
    → compare_bytes k b ≡ lt
ge-lt_trans_of lt k a b e h p = absurd (h refl)
ge-lt_trans_of eq k a b e h p = rw (compare_bytes-eq a k e) at p
ge-lt_trans_of gt k a b e h p = compare_bytes_trans k a b (compare_bytes-gt a k e) p

-- Not below `k` and below `b`: `k` is below `b`.
pub ge-lt_trans :
    (k a b : Bytes) → compare_bytes a k ≢ lt → compare_bytes a b ≡ lt → compare_bytes k b ≡ lt
ge-lt_trans k a b h p = ge-lt_trans_of (compare_bytes a k) k a b refl h p

-- A larger string is neither equal nor below.
pub compare_bytes-above : (a b : Bytes) → compare_bytes a b ≡ lt → compare_bytes b a ≡ gt
compare_bytes-above a b h = ground (arith, compare_bytes-flip a b)

pub beq-false : (a b : Bytes) → beq a b ≡ false → a ≢ b
beq-false a b h e = cc (h, beq_self a, ap (λ t. beq a t) e)

pub ne→beq : (a b : Bytes) → a ≢ b → beq a b ≡ false
ne→beq a b h = ground (arith, beq→eq a b)

pub beq_sym : (a b : Bytes) → beq a b ≡ beq b a
beq_sym a b = ground (arith, beq→eq a b, beq→eq b a, beq_self a, beq_self b)
