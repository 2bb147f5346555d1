-- ===== src/Common/Bits.antt =====
-- Laws of `&`, `|` and `^` on numbers of any width, and tables for single bytes.
mod Digits
pub mod Table
use Digits.{bit_and_digit, bit_or_digit, bit_xor_digit}
use Prim.Native.Nat.{ℕ, zero, suc, ◌+◌, ◌-◌, ◌*◌, ◌/◌, ◌%◌, ◌^◌, ◌≤◌, ◌<◌, bit_and, bit_or, bit_xor}
use Prim.Native.Nat.{bit_or-bitwise}
use mathlib.Core.Path.{◌≡◌, refl, ap}
use native.Mathlib.Nat.{pow-suc, one-le-pow}
use native.Mathlib.Omega.{arith}

-- `x << k` and `x >> k`.
abbrev pub shl : ℕ → ℕ → ℕ
shl x k = x * 2 ^ k

abbrev pub shr : ℕ → ℕ → ℕ
shr x k = x / 2 ^ k

half-le : (n a : ℕ) → a ≤ suc n → a / 2 ≤ n
half-le n a h = omega arith

and_zero_below : (n a : ℕ) → a ≤ n → bit_and a 0 ≡ 0
and_zero_below n zero h = refl
and_zero_below zero (suc a) h = absurd (omega arith)
and_zero_below (suc n) (suc a) h =
    omega (arith, bit_and_digit (suc a) 0, and_zero_below n (suc a / 2) (half-le n (suc a) h))

or_zero_below : (n a : ℕ) → a ≤ n → bit_or a 0 ≡ a
or_zero_below n zero h = refl
or_zero_below zero (suc a) h = absurd (omega arith)
or_zero_below (suc n) (suc a) h =
    omega (arith, bit_or_digit (suc a) 0, or_zero_below n (suc a / 2) (half-le n (suc a) h))

double_pow : (q k : ℕ) → q * 2 ^ suc k ≡ q * 2 ^ k + q * 2 ^ k
double_pow q k = omega (arith, ap (λ (t : ℕ). q * t) (pow-suc 2 k))

-- `x & (2^k - 1)` is the remainder.
and_split : (k q r : ℕ) → r < 2 ^ k → bit_and (q * 2 ^ k + r) (2 ^ k - 1) ≡ r
and_split zero q r h = ground (arith, and_zero_below (q * 1 + r) (q * 1 + r))
and_split (suc k) q r h = ground (
  arith,
  pow-suc 2 k,
  one-le-pow k 2,
  double_pow q k,
  bit_and_digit (q * 2 ^ suc k + r) (2 ^ suc k - 1),
  and_split k q (r / 2) (omega (arith, pow-suc 2 k)),
)

pub bit_and_mask : (k a : ℕ) → bit_and a (2 ^ k - 1) ≡ a % 2 ^ k
bit_and_mask k a = ground (arith, one-le-pow k 2, and_split k (a / 2 ^ k) (a % 2 ^ k))

-- `(q << k) | r` is a sum where the fields do not overlap.
pub bit_or_join : (k q r : ℕ) → r < 2 ^ k → bit_or (shl q k) r ≡ q * 2 ^ k + r
bit_or_join zero q r h = ground (arith, or_zero_below (q * 1) (q * 1))
bit_or_join (suc k) q r h = ground (
  arith,
  pow-suc 2 k,
  double_pow q k,
  bit_or_digit (q * 2 ^ suc k) r,
  bit_or_join k q (r / 2) (omega (arith, pow-suc 2 k)),
)

zero-or : (b : ℕ) → bit_or 0 b ≡ b
zero-or b = simp bit_or-bitwise

-- The same with the low field first, `r | (q << k)`.
pub bit_or_join_low : (k q r : ℕ) → r < 2 ^ k → bit_or r (shl q k) ≡ q * 2 ^ k + r
bit_or_join_low zero q zero h = ground (arith, zero-or (q * 1))
bit_or_join_low zero q (suc r) h = absurd (omega arith)
bit_or_join_low (suc k) q r h = ground (
  arith,
  pow-suc 2 k,
  double_pow q k,
  bit_or_digit r (q * 2 ^ suc k),
  bit_or_join_low k q (r / 2) (omega (arith, pow-suc 2 k)),
)

pub bit_xor-lt : (k a b : ℕ) → a < 2 ^ k → b < 2 ^ k → bit_xor a b < 2 ^ k
bit_xor-lt zero zero zero ha hb = omega arith
bit_xor-lt zero zero (suc b) ha hb = absurd (omega arith)
bit_xor-lt zero (suc a) b ha hb = absurd (omega arith)
bit_xor-lt (suc k) a b ha hb = omega (
  arith,
  pow-suc 2 k,
  bit_xor_digit a b,
  bit_xor-lt k (a / 2) (b / 2) (omega (arith, pow-suc 2 k)) (omega (arith, pow-suc 2 k)),
)

xor_cancel_below : (k a b : ℕ) → a < 2 ^ k → b < 2 ^ k → bit_xor (bit_xor a b) b ≡ a
xor_cancel_below zero zero zero ha hb = refl
xor_cancel_below zero zero (suc b) ha hb = absurd (omega arith)
xor_cancel_below zero (suc a) b ha hb = absurd (omega arith)
xor_cancel_below (suc k) a b ha hb = ground (
  arith,
  pow-suc 2 k,
  bit_xor_digit a b,
  bit_xor_digit (bit_xor a b) b,
  xor_cancel_below k (a / 2) (b / 2),
)

xor_cancel_left_below : (k a b : ℕ) → a < 2 ^ k → b < 2 ^ k → bit_xor a (bit_xor a b) ≡ b
xor_cancel_left_below zero zero zero ha hb = refl
xor_cancel_left_below zero zero (suc b) ha hb = absurd (omega arith)
xor_cancel_left_below zero (suc a) b ha hb = absurd (omega arith)
xor_cancel_left_below (suc k) a b ha hb = ground (
  arith,
  pow-suc 2 k,
  bit_xor_digit a b,
  bit_xor_digit a (bit_xor a b),
  xor_cancel_left_below k (a / 2) (b / 2),
)

lt-two_pow : (a k : ℕ) → a ≤ k → a < 2 ^ k
lt-two_pow zero zero h = omega arith
lt-two_pow (suc a) zero h = absurd (omega arith)
lt-two_pow zero (suc k) h = omega (arith, pow-suc 2 k, lt-two_pow zero k (omega arith))
lt-two_pow (suc a) (suc k) h = omega (arith, pow-suc 2 k, lt-two_pow a k (omega arith))

-- `a ^ b ^ b` is `a`.
pub bit_xor_cancel : (a b : ℕ) → bit_xor (bit_xor a b) b ≡ a
bit_xor_cancel a b =
    xor_cancel_below (a + b) a b (lt-two_pow a (a + b) (omega arith))
      (lt-two_pow b (a + b) (omega arith))

pub bit_xor_cancel_left : (a b : ℕ) → bit_xor a (bit_xor a b) ≡ b
bit_xor_cancel_left a b =
    xor_cancel_left_below (a + b) a b (lt-two_pow a (a + b) (omega arith))
      (lt-two_pow b (a + b) (omega arith))
