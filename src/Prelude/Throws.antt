-- ===== src/Prelude/Throws.antt =====
-- Code that may throw: a value, or the error thrown.
use mathlib.Core.Logic.{◌⊎◌, inl, inr}
use mathlib.Core.Path.{◌≡◌, refl}
use mathlib.Core.Bool.{Bool, true, false}

pub data Result {ℓ κ} (E : Type ℓ) (A : Type κ) : Type (ℓ ⊔ κ) where
  ok : A → Result E A
  err : E → Result E A

infixl 5 ◌>>=◌ ◌>>◌
abbrev pub ◌>>=◌ {ℓ κ μ} :
    {E : Type ℓ} {A : Type κ} {B : Type μ} → Result E A → (A → Result E B) → Result E B
err e >>= next = err e
ok a >>= next = next a

abbrev pub ◌>>◌ {ℓ κ} : {E : Type ℓ} {B : Type κ} → Result E (Unit {0}) → Result E B → Result E B
first >> next = first >>= λ _. next

-- `if (test) throw error`.
abbrev pub throw_if {ℓ} : {E : Type ℓ} → Bool → E → Result E (Unit {0})
throw_if true e = err e
throw_if false e = ok tt

pub throw_if-eq-ok {ℓ κ} :
    {E : Type ℓ} {A : Type κ} (b : Bool) (e : E) (m : Result E A) {a : A}
    → (throw_if b e >> m) ≡ ok a
    → (b ≡ false) × (m ≡ ok a)
throw_if-eq-ok true e m h = cc
throw_if-eq-ok false e m h = (refl, h)

pub Result-cases {ℓ κ} :
    {E : Type ℓ} {A : Type κ} (r : Result E A) → ((a : A) × (r ≡ ok a)) ⊎ ((e : E) × (r ≡ err e))
Result-cases (ok a) = inl (a, refl)
Result-cases (err e) = inr (e, refl)

pub >>=-eq-ok {ℓ κ μ} :
    {E : Type ℓ} {A : Type κ} {B : Type μ} (first : Result E A) (next : A → Result E B) {b : B}
    → (first >>= next) ≡ ok b
    → (a : A) × (first ≡ ok a) × (next a ≡ ok b)
>>=-eq-ok (err e) next eq = cc
>>=-eq-ok (ok a) next eq = (a, refl, eq)

-- What a result is when it is one.
abbrev pub OnOk {ℓ κ μ} : {E : Type ℓ} {A : Type κ} → (A → Type μ) → Result E A → Type μ
OnOk P (err e) = Unit
OnOk P (ok a) = P a

pub OnOk-of {ℓ κ μ} :
    {E : Type ℓ} {A : Type κ} (P : A → Type μ) (r : Result E A)
    → ((a : A) → r ≡ ok a → P a)
    → OnOk P r
OnOk-of P (err e) h = tt
OnOk-of P (ok a) h = h a refl

pub OnOk-bind {ℓ κ μ ν ξ} :
    {E : Type ℓ} {A : Type κ} {B : Type μ} (P : A → Type ν) (Q : B → Type ξ) (r : Result E A)
    (f : A → Result E B)
    → OnOk P r
    → ((a : A) → P a → OnOk Q (f a))
    → OnOk Q (r >>= f)
OnOk-bind P Q (err e) f h k = tt
OnOk-bind P Q (ok a) f h k = k a h

-- Whatever the first step gives.
pub OnOk-after {ℓ κ μ ν} :
    {E : Type ℓ} {A : Type κ} {B : Type μ} (Q : B → Type ν) (r : Result E A) (f : A → Result E B)
    → ((a : A) → OnOk Q (f a))
    → OnOk Q (r >>= f)
OnOk-after Q (err e) f k = tt
OnOk-after Q (ok a) f k = k a

pub OnOk-throw_if {ℓ κ μ} :
    {E : Type ℓ} {A : Type κ} (P : A → Type μ) (b : Bool) (e : E) (m : Result E A)
    → (b ≡ false → OnOk P m)
    → OnOk P (throw_if b e >> m)
OnOk-throw_if P true e m h = tt
OnOk-throw_if P false e m h = h refl
