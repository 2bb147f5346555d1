-- ===== src/Common/Decimal.antt =====
-- Decimal numerals, as code points.
use Prim.Native.Nat.{ℕ, zero, suc, ◌+◌, ◌-◌, ◌*◌, ◌/◌, ◌%◌, ◌<◌}
use mathlib.Core.Path.{◌≡◌, refl, sym, ap, ◌∙◌}
use mathlib.Core.List.{List, [], ◌∷◌, ◌++◌}
use native.Mathlib.Omega.{arith}
use ser2net.Common.Tests.{ltb, if◌then◌else◌}

-- The decimal digits of a number, on fuel: more than the number is enough.
unfoldable pub decimal : ℕ → ℕ → List ℕ
decimal zero n = []
decimal (suc fuel) n =
    let high = decimal fuel (n / 10) in
    if ltb n 10 then (48 + n) ∷ [] else high ++ ((48 + n % 10) ∷ [])

-- The number that digits stand for, after those read before.
unfoldable pub digits_value : ℕ → List ℕ → ℕ
digits_value acc [] = acc
digits_value acc (c ∷ cs) = digits_value (acc * 10 + (c - 48)) cs

digits_value-append :
    (acc : ℕ) (xs ys : List ℕ) → digits_value acc (xs ++ ys) ≡ digits_value (digits_value acc xs) ys
unfolding digits_value
digits_value-append acc [] ys = refl
digits_value-append acc (x ∷ xs) ys = digits_value-append (acc * 10 + (x - 48)) xs ys

pub digits_value-decimal : (fuel n : ℕ) → n < fuel → digits_value 0 (decimal fuel n) ≡ n
unfolding decimal digits_value
digits_value-decimal zero n h = absurd (omega arith)
digits_value-decimal (suc fuel) n h = ground (
  arith,
  digits_value-decimal fuel (n / 10),
  digits_value-append 0 (decimal fuel (n / 10)) ((48 + n % 10) ∷ []),
)

-- `str(n)`
abbrev pub str : ℕ → List ℕ
str n = decimal (suc n) n

pub str-injective : (n m : ℕ) → str n ≡ str m → n ≡ m
str-injective n m h =
    sym (digits_value-decimal (suc n) n (omega arith))
    ∙ ap (digits_value 0) h
    ∙ digits_value-decimal (suc m) m (omega arith)
