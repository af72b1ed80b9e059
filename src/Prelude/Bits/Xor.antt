-- ===== src/Prelude/Bits/Xor.antt =====
-- `^` at variables: its digits, its bound, and that it is associative and commutative.
use Prim.Native.Nat.{
  ℕ, zero, suc, ◌+◌, ◌*◌, ◌/◌, ◌%◌, ◌^◌, ◌≤◌, ◌<◌, bit_xor, digits, bit_xor-bitwise, differ,
}
use mathlib.Core.Path.{◌≡◌, refl, sym, ap, ◌∙◌}
use native.Mathlib.Nat.{pow-suc}
use native.Mathlib.Omega.{arith}

abbrev xor_digits : ℕ → ℕ → ℕ → ℕ
xor_digits n a b = digits (λ b. b) differ n a b

xor_digits_fuel : (n m a b : ℕ) → a ≤ n → a ≤ m → xor_digits n a b ≡ xor_digits m a b
xor_digits_fuel zero zero a b h k = refl
xor_digits_fuel zero (suc m) zero b h k = refl
xor_digits_fuel (suc n) zero zero b h k = refl
xor_digits_fuel zero (suc m) (suc a) b h k = absurd (omega arith)
xor_digits_fuel (suc n) zero (suc a) b h k = absurd (omega arith)
xor_digits_fuel (suc n) (suc m) zero b h k = refl
xor_digits_fuel (suc n) (suc m) (suc a) b h k =
    omega (arith, xor_digits_fuel n m (suc a / 2) (b / 2) (omega arith) (omega arith))

pub zero-bit_xor : (b : ℕ) → bit_xor 0 b ≡ b
zero-bit_xor b = bit_xor-bitwise 0 b

differ_digits : (x y : ℕ) → x < 2 → y < 2 → differ x y ≡ (x + y) % 2
differ_digits zero zero h k = refl
differ_digits zero (suc zero) h k = refl
differ_digits zero (suc (suc y)) h k = absurd (omega arith)
differ_digits (suc zero) zero h k = refl
differ_digits (suc zero) (suc zero) h k = refl
differ_digits (suc zero) (suc (suc y)) h k = absurd (omega arith)
differ_digits (suc (suc x)) y h k = absurd (omega arith)

digit_lt : (a : ℕ) → a % 2 < 2
digit_lt a = omega arith

-- One binary digit of `^`.
pub bit_xor_step : (a b : ℕ) → bit_xor a b ≡ bit_xor (a / 2) (b / 2) * 2 + (a % 2 + b % 2) % 2
bit_xor_step zero b = omega (arith, zero-bit_xor b, zero-bit_xor (b / 2))
bit_xor_step (suc a) b = omega (
  arith,
  bit_xor-bitwise (suc a) b,
  bit_xor-bitwise (suc a / 2) (b / 2),
  xor_digits_fuel a (suc a / 2) (suc a / 2) (b / 2) (omega arith) (omega arith),
  differ_digits (suc a % 2) (b % 2) (digit_lt (suc a)) (digit_lt b),
)

pub bit_xor_half : (a b : ℕ) → bit_xor a b / 2 ≡ bit_xor (a / 2) (b / 2)
bit_xor_half a b = omega (arith, bit_xor_step a b)

pub bit_xor_parity : (a b : ℕ) → bit_xor a b % 2 ≡ (a % 2 + b % 2) % 2
bit_xor_parity a b = omega (arith, bit_xor_step a b)

-- Two numbers are equal if their halves and their last digits are.
eq_of_digits : (a b : ℕ) → a / 2 ≡ b / 2 → a % 2 ≡ b % 2 → a ≡ b
eq_of_digits a b h k = omega arith

bit_xor-zero_fuel : (n a : ℕ) → a ≤ n → bit_xor a 0 ≡ a
bit_xor-zero_fuel n zero h = refl
bit_xor-zero_fuel zero (suc a) h = absurd (omega arith)
bit_xor-zero_fuel (suc n) (suc a) h =
    omega (arith, bit_xor_step (suc a) 0, bit_xor-zero_fuel n (suc a / 2) (omega arith))

pub bit_xor-zero : (a : ℕ) → bit_xor a 0 ≡ a
bit_xor-zero a = bit_xor-zero_fuel a a (omega arith)

bit_xor_assoc_fuel :
    (n a b c : ℕ) → a ≤ n → b ≤ n → c ≤ n → bit_xor a (bit_xor b c) ≡ bit_xor (bit_xor a b) c
bit_xor_assoc_fuel zero zero zero zero p q r = refl
bit_xor_assoc_fuel zero a b c p q r =
    let ea : a ≡ 0 = omega arith in
    let eb : b ≡ 0 = omega arith in let ec : c ≡ 0 = omega arith in rw (ea, eb, ec)
bit_xor_assoc_fuel (suc n) a b c p q r =
    eq_of_digits (bit_xor a (bit_xor b c)) (bit_xor (bit_xor a b) c)
      (bit_xor_half a (bit_xor b c)
        ∙ ap (bit_xor (a / 2)) (bit_xor_half b c)
        ∙ bit_xor_assoc_fuel n (a / 2) (b / 2) (c / 2) (omega arith) (omega arith) (omega arith)
        ∙ ap (λ x. bit_xor x (c / 2)) (sym (bit_xor_half a b))
        ∙ sym (bit_xor_half (bit_xor a b) c))
      (omega (
        arith,
        bit_xor_parity a (bit_xor b c),
        bit_xor_parity b c,
        bit_xor_parity (bit_xor a b) c,
        bit_xor_parity a b,
      ))

pub bit_xor_assoc : (a b c : ℕ) → bit_xor a (bit_xor b c) ≡ bit_xor (bit_xor a b) c
bit_xor_assoc a b c = bit_xor_assoc_fuel (a + b + c) a b c (omega arith) (omega arith) (omega arith)

pub bit_xor_bound : (k a b : ℕ) → a < 2 ^ k → b < 2 ^ k → bit_xor a b < 2 ^ k
bit_xor_bound zero a b h l =
    let ea : a ≡ 0 = omega arith in let eb : b ≡ 0 = omega arith in rw (ea, eb) (omega arith)
bit_xor_bound (suc k) a b h l =
    let half = pow-suc 2 k in
    omega
      (arith, bit_xor_step a b, half, bit_xor_bound k (a / 2) (b / 2) (omega arith) (omega arith))

twice_pow : (b k : ℕ) → b * 2 ^ suc k ≡ b * 2 ^ k * 2
twice_pow b k = grind (arith, pow-suc 2 k)

pub bit_xor-double : (a b : ℕ) → bit_xor a (b * 2) ≡ bit_xor (a / 2) b * 2 + a % 2
bit_xor-double a b =
    let e : b * 2 / 2 ≡ b = omega arith in
    omega (arith, bit_xor_step a (b * 2), ap (bit_xor (a / 2)) e)

-- Low bits under shifted ones: `^` is a sum.
pub bit_xor_shifted : (k a b : ℕ) → a < 2 ^ k → bit_xor a (b * 2 ^ k) ≡ a + b * 2 ^ k
bit_xor_shifted zero a b h =
    let e : a ≡ 0 = omega arith in rw e (zero-bit_xor (b * 1) ∙ omega arith)
bit_xor_shifted (suc k) a b h = rw (twice_pow b k) (
    omega (
      arith,
      bit_xor-double a (b * 2 ^ k),
      bit_xor_shifted k (a / 2) b (omega (arith, pow-suc 2 k)),
    ))
