-- ===== src/Base/Bits.antt =====
-- Bitwise or: of disjoint fields it is the sum; on bytes its laws are tables.
use Prim.Native.Nat.{
  ℕ, zero, suc, ◌+◌, ◌*◌, ◌/◌, ◌%◌, ◌^◌, ◌≤◌, ◌<◌, max, bit_and, bit_or, bit_xor, digits, differ,
  bit_or-bitwise, bit_xor-bitwise,
}
use mathlib.Core.Path.{◌≡◌, refl, sym, ◌∙◌}
use mathlib.Core.Bool.{Bool, true, ◌&&◌, ◌||◌, not}
use native.Mathlib.Omega.{arith}
use native.Mathlib.Nat.{pow-suc}
use native.Mathlib.Decide.{dec_le}
use smallkv.Base.Tests.{◌==◌}

-- The digits of the bitwise or, with an explicit bound on their number.
abbrev joined : ℕ → ℕ → ℕ → ℕ
joined n a b = digits (λ r. r) max n a b

joined-more : (n a b : ℕ) → a ≤ n → joined (suc n) a b ≡ joined n a b
joined-more zero zero b h = refl
joined-more zero (suc a) b h = absurd (omega arith)
joined-more (suc n) zero b h = refl
joined-more (suc n) (suc a) b h = omega (arith, joined-more n (suc a / 2) (b / 2) (omega arith))

joined-enough : (n a b : ℕ) → a ≤ n → joined n a b ≡ bit_or a b
joined-enough zero zero b h = sym (bit_or-bitwise 0 b)
joined-enough zero (suc a) b h = absurd (omega arith)
joined-enough (suc n) a b h = elim (dec_le a n) [
  | yes p ↦ joined-more n a b p ∙ joined-enough n a b p
  | no p ↦ let e : a ≡ suc n = omega arith in rw e (sym (bit_or-bitwise (suc n) b))
]

zero-bit_or : (b : ℕ) → bit_or 0 b ≡ b
zero-bit_or b = bit_or-bitwise 0 b

pub bit_or_step : (a b : ℕ) → bit_or a b ≡ bit_or (a / 2) (b / 2) * 2 + max (a % 2) (b % 2)
bit_or_step zero b = omega (arith, zero-bit_or b, zero-bit_or (b / 2))
bit_or_step (suc a) b =
    omega (arith, bit_or-bitwise (suc a) b, joined-enough a (suc a / 2) (b / 2) (omega arith))

-- A field of `k` bits below another: the or is the sum.
pub bit_or_fields : (k lo hi : ℕ) → lo < 2 ^ k → bit_or lo (hi * 2 ^ k) ≡ lo + hi * 2 ^ k
bit_or_fields zero lo hi h =
    let e : lo ≡ 0 = omega arith in rw e (omega (arith, zero-bit_or (hi * 2 ^ 0)))
bit_or_fields (suc k) lo hi h =
    let double : hi * 2 ^ suc k ≡ hi * 2 ^ k * 2 = simp pow-suc (omega arith) in
    let half : lo / 2 < 2 ^ k = omega (arith, pow-suc 2 k) in
    let even : hi * 2 ^ suc k / 2 ≡ hi * 2 ^ k = omega (arith, double) in
    let step : bit_or lo (hi * 2 ^ suc k)
        ≡ bit_or (lo / 2) (hi * 2 ^ k) * 2 + max (lo % 2) (hi * 2 ^ suc k % 2) =
      rw even at (bit_or_step lo (hi * 2 ^ suc k)) in
    omega (arith, step, double, bit_or_fields k (lo / 2) hi half)

-- A test at every number below a bound, so that a law of bytes is a table.
tested : (ℕ → Bool) → ℕ → Bool
tested law zero = true
tested law (suc bound) = tested law bound && law bound

tested_at : (law : ℕ → Bool) (bound at : ℕ) → at < bound → tested law bound ≡ true → law at ≡ true
unfolding tested
tested_at law zero at small whole = absurd (omega arith)
tested_at law (suc bound) at small whole = ground (arith, tested_at law bound at)

-- The bit `q` of the byte `x`, as `x & (1 << q)` tests it.
abbrev pub has_bit : ℕ → ℕ → Bool
has_bit x q = not (bit_and x (2 ^ q) == 0)

or_table :
    tested
      (λ x.
        tested
          (λ p. not (bit_and (bit_or x (2 ^ p)) (2 ^ p) == 0) && (bit_or x (2 ^ p) / 256 == 0))
          8)
      256
    ≡ true
unfolding tested
or_table = refl

keep_table :
    tested
      (λ x.
        tested
          (λ p.
            tested
              (λ q. (bit_and x (2 ^ q) == 0) || not (bit_and (bit_or x (2 ^ p)) (2 ^ q) == 0))
              8)
          8)
      256
    ≡ true
unfolding tested
keep_table = refl

-- Setting a bit of a byte sets it, and the result is a byte.
pub set_bit :
    (x p : ℕ) → x < 256 → p < 8 → (has_bit (bit_or x (2 ^ p)) p ≡ true) × (bit_or x (2 ^ p) < 256)
set_bit x p hx hp = ground (arith, tested_at _ 8 p hp (tested_at _ 256 x hx or_table))

-- It clears no other bit.
pub set_bit-keeps :
    (x p q : ℕ) → x < 256 → p < 8 → q < 8 → has_bit x q ≡ true → has_bit (bit_or x (2 ^ p)) q ≡ true
set_bit-keeps x p q hx hp hq h =
    ground (arith, tested_at _ 8 q hq (tested_at _ 8 p hp (tested_at _ 256 x hx keep_table)))

-- The exclusive or, by the same recursion on the digits.
abbrev differing : ℕ → ℕ → ℕ → ℕ
differing n a b = digits (λ r. r) differ n a b

differ_small : (a b : ℕ) → differ (a % 2) (b % 2) < 2
differ_small a b = small (a % 2) (b % 2) (omega arith) (omega arith)
  where
    small : (x y : ℕ) → x < 2 → y < 2 → differ x y < 2
    small zero y p q = q
    small (suc zero) zero p q = omega arith
    small (suc zero) (suc zero) p q = omega arith
    small (suc zero) (suc (suc y)) p q = absurd (omega arith)
    small (suc (suc x)) y p q = absurd (omega arith)

differing-lt : (k n a b : ℕ) → a < 2 ^ k → b < 2 ^ k → differing n a b < 2 ^ k
differing-lt k zero a b p q = q
differing-lt k (suc n) zero b p q = q
differing-lt zero (suc n) (suc a) b p q = absurd (omega arith)
differing-lt (suc k) (suc n) (suc a) b p q = omega (
  arith,
  pow-suc 2 k,
  differ_small (suc a) b,
  differing-lt k n (suc a / 2) (b / 2) (omega (arith, pow-suc 2 k)) (omega (arith, pow-suc 2 k)),
)

-- It stays within as many bits as its arguments.
pub bit_xor-lt : (k a b : ℕ) → a < 2 ^ k → b < 2 ^ k → bit_xor a b < 2 ^ k
bit_xor-lt k a b p q = rw (bit_xor-bitwise a b) (differing-lt k a a b p q)
