-- ===== src/Prelude/Bits.antt =====
-- The bitwise operators of JavaScript at variables: shifted values meet `|` as a sum.
pub mod Xor
use Prim.Native.Nat.{
  ℕ, zero, suc, ◌+◌, ◌*◌, ◌/◌, ◌%◌, ◌^◌, ◌≤◌, ◌<◌, max, bit_or, digits, bit_or-bitwise,
}
use mathlib.Core.Path.{◌≡◌, refl, ap, ◌∙◌}
use native.Mathlib.Nat.{pow-suc}
use native.Mathlib.Omega.{arith}

abbrev or_digits : ℕ → ℕ → ℕ → ℕ
or_digits n a b = digits (λ b. b) max n a b

or_digits_fuel : (n m a b : ℕ) → a ≤ n → a ≤ m → or_digits n a b ≡ or_digits m a b
or_digits_fuel zero zero a b p q = refl
or_digits_fuel zero (suc m) zero b p q = refl
or_digits_fuel zero (suc m) (suc a) b p q = absurd (omega arith)
or_digits_fuel (suc n) zero zero b p q = refl
or_digits_fuel (suc n) zero (suc a) b p q = absurd (omega arith)
or_digits_fuel (suc n) (suc m) zero b p q = refl
or_digits_fuel (suc n) (suc m) (suc a) b p q =
    omega (arith, or_digits_fuel n m (suc a / 2) (b / 2) (omega arith) (omega arith))

pub zero-bit_or : (b : ℕ) → bit_or 0 b ≡ b
zero-bit_or b = bit_or-bitwise 0 b

-- One binary digit of `|`.
pub bit_or_step : (a b : ℕ) → bit_or a b ≡ bit_or (a / 2) (b / 2) * 2 + max (a % 2) (b % 2)
bit_or_step zero b = omega (arith, zero-bit_or b, zero-bit_or (b / 2))
bit_or_step (suc a) b = omega (
  arith,
  bit_or-bitwise (suc a) b,
  bit_or-bitwise (suc a / 2) (b / 2),
  or_digits_fuel a (suc a / 2) (suc a / 2) (b / 2) (omega arith) (omega arith),
)

bit_or-zero_fuel : (n a : ℕ) → a ≤ n → bit_or a 0 ≡ a
bit_or-zero_fuel n zero h = refl
bit_or-zero_fuel zero (suc a) h = absurd (omega arith)
bit_or-zero_fuel (suc n) (suc a) h =
    omega (arith, bit_or_step (suc a) 0, bit_or-zero_fuel n (suc a / 2) (omega arith))

pub bit_or-zero : (a : ℕ) → bit_or a 0 ≡ a
bit_or-zero a = bit_or-zero_fuel a a (omega arith)

twice_pow : (b k : ℕ) → b * 2 ^ suc k ≡ b * 2 ^ k * 2
twice_pow b k = grind (arith, pow-suc 2 k)

bit_or-double : (a c : ℕ) → bit_or a (c * 2) ≡ bit_or (a / 2) c * 2 + a % 2
bit_or-double a c =
    let e : c * 2 / 2 ≡ c = omega arith in
    omega (arith, bit_or_step a (c * 2), ap (bit_or (a / 2)) e)

double-bit_or : (a c : ℕ) → bit_or (c * 2) a ≡ bit_or c (a / 2) * 2 + a % 2
double-bit_or a c =
    let e : c * 2 / 2 ≡ c = omega arith in
    omega (arith, bit_or_step (c * 2) a, ap (λ x. bit_or x (a / 2)) e)

half_lt : (k a : ℕ) → a < 2 ^ suc k → a / 2 < 2 ^ k
half_lt k a h = omega (arith, pow-suc 2 k)

-- Low bits under shifted ones: `|` is a sum.
pub bit_or_shifted : (k a b : ℕ) → a < 2 ^ k → bit_or a (b * 2 ^ k) ≡ a + b * 2 ^ k
bit_or_shifted zero a b h = let e : a ≡ 0 = omega arith in rw e (zero-bit_or (b * 1) ∙ omega arith)
bit_or_shifted (suc k) a b h =
    rw (twice_pow b k)
      (omega (arith, bit_or-double a (b * 2 ^ k), bit_or_shifted k (a / 2) b (half_lt k a h)))

pub shifted-bit_or : (k a b : ℕ) → a < 2 ^ k → bit_or (b * 2 ^ k) a ≡ b * 2 ^ k + a
shifted-bit_or zero a b h = let e : a ≡ 0 = omega arith in rw e (bit_or-zero (b * 1) ∙ omega arith)
shifted-bit_or (suc k) a b h =
    rw (twice_pow b k)
      (omega (arith, double-bit_or a (b * 2 ^ k), shifted-bit_or k (a / 2) b (half_lt k a h)))
