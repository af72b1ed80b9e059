-- ===== src/Prelude/Decimal.antt =====
-- `String(n)` for a natural number and `Number(text)` for a text of decimal digits.
use Prim.Native.Nat.{ℕ, zero, suc, ◌+◌, ◌-◌, ◌*◌, ◌/◌, ◌%◌, ◌≤◌, ◌<◌}
use mathlib.Core.Path.{◌≡◌, refl}
use mathlib.Core.Bool.{Bool, ◌&&◌}
use mathlib.Core.List.{[], ◌∷◌, ◌++◌}
use native.Mathlib.Omega.{arith}
use rootcell.Prelude.Tests.{ltb, leb, if◌then◌else◌}
use rootcell.Prelude.Lists.{All, All-append}
use rootcell.Prelude.Strings.{Text}

abbrev pub is_digit : ℕ → Bool
is_digit c = leb 48 c && leb c 57

decimal_fuel : ℕ → ℕ → Text
decimal_fuel zero n = []
decimal_fuel (suc f) n =
    let rest = decimal_fuel f (n / 10) in
    if ltb n 10 then (48 + n) ∷ [] else rest ++ (48 + n % 10) ∷ []

unfoldable pub decimal : ℕ → Text
unfolding decimal_fuel
decimal n = decimal_fuel (suc n) n

number_from : ℕ → Text → ℕ
number_from acc [] = acc
number_from acc (c ∷ s) = number_from (acc * 10 + (c - 48)) s

unfoldable pub number : Text → ℕ
unfolding number_from
number s = number_from 0 s

decimal_fuel_enough : (f g n : ℕ) → n < f → n < g → decimal_fuel f n ≡ decimal_fuel g n
unfolding decimal_fuel
decimal_fuel_enough zero g n h k = absurd (omega arith)
decimal_fuel_enough (suc f) zero n h k = absurd (omega arith)
decimal_fuel_enough (suc f) (suc g) n h k = ground (arith, decimal_fuel_enough f g (n / 10))

-- The digits of a number are those of its tenth and its last one.
pub decimal_step :
    (n : ℕ)
    → decimal n ≡ (if ltb n 10 then (48 + n) ∷ [] else decimal (n / 10) ++ (48 + n % 10) ∷ [])
unfolding decimal
decimal_step n = ground (arith, decimal_fuel_enough n (suc (n / 10)) (n / 10))

number_from-snoc :
    (acc c : ℕ) (s : Text) → number_from acc (s ++ c ∷ []) ≡ number_from acc s * 10 + (c - 48)
unfolding number_from
number_from-snoc acc c [] = refl
number_from-snoc acc c (d ∷ s) = number_from-snoc (acc * 10 + (d - 48)) c s

number_from_one : (c : ℕ) → number_from 0 (c ∷ []) ≡ c - 48
unfolding number_from
number_from_one c = omega arith

number_from-decimal_fuel : (f n : ℕ) → n < f → number_from 0 (decimal_fuel f n) ≡ n
unfolding decimal_fuel
number_from-decimal_fuel zero n h = absurd (omega arith)
number_from-decimal_fuel (suc f) n h = ground (
  arith,
  number_from_one (48 + n),
  number_from-decimal_fuel f (n / 10),
  number_from-snoc 0 (48 + n % 10) (decimal_fuel f (n / 10)),
)

-- Reading a printed number gives it back.
pub number-decimal : (n : ℕ) → number (decimal n) ≡ n
unfolding number decimal
number-decimal n = number_from-decimal_fuel (suc n) n (omega arith)

abbrev pub IsDigit : ℕ → Type 0
IsDigit c = (48 ≤ c) × (c ≤ 57)

All-IsDigit_fuel : (f n : ℕ) → All IsDigit (decimal_fuel f n)
unfolding decimal_fuel
All-IsDigit_fuel zero n = tt
All-IsDigit_fuel (suc f) n = ground (
  arith,
  All-IsDigit_fuel f (n / 10),
  All-append IsDigit (decimal_fuel f (n / 10)) ((48 + n % 10) ∷ []) (All-IsDigit_fuel f (n / 10)),
)

-- Printed numbers consist of digits.
pub decimal-IsDigit : (n : ℕ) → All IsDigit (decimal n)
unfolding decimal
decimal-IsDigit n = All-IsDigit_fuel (suc n) n
