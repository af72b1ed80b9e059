-- ===== src/Spy/Bytes.antt =====
-- Node buffers as lists of bytes: big-endian reads, and `subarray`.
use rootcell.Prelude.{
  ℕ, zero, suc, ◌+◌, ◌-◌, ◌*◌, ◌/◌, ◌%◌, ◌^◌, ◌≤◌, ◌<◌, ◌≡◌, refl, sym, ap, ◌∙◌, List, [], ◌∷◌,
  ◌++◌, arith, length, take, drop, All,
}

abbrev pub Bytes : Type 0
Bytes = List ℕ

abbrev pub IsByte : ℕ → Type 0
IsByte b = b < 256

-- `buffer.readUInt32BE(0)` of a buffer with four bytes; callers test the length before.
unfoldable pub u32_be : Bytes → ℕ
u32_be (a ∷ b ∷ c ∷ d ∷ rest) = a * 2 ^ 24 + b * 2 ^ 16 + c * 2 ^ 8 + d
u32_be _ = 0

-- `buffer.readUInt32BE(offset)`
abbrev pub read_u32_be : Bytes → ℕ → ℕ
read_u32_be buffer offset = u32_be (drop offset buffer)

-- `buffer.subarray(start, end)`
abbrev pub subarray : Bytes → ℕ → ℕ → Bytes
subarray buffer start end = take (end - start) (drop start buffer)

-- The four bytes of a number below 2 ^ 32.
unfoldable pub u32_bytes : ℕ → Bytes
u32_bytes n = n / 2 ^ 24 % 256 ∷ n / 2 ^ 16 % 256 ∷ n / 2 ^ 8 % 256 ∷ n % 256 ∷ []

pub u32_be-u32_bytes : (n : ℕ) (rest : Bytes) → n < 2 ^ 32 → u32_be (u32_bytes n ++ rest) ≡ n
unfolding u32_be u32_bytes
u32_be-u32_bytes n rest h = omega arith

pub u32_bytes-u32_be :
    (bs : Bytes) → All IsByte bs → 4 ≤ length bs → u32_bytes (u32_be bs) ≡ take 4 bs
unfolding u32_be u32_bytes
u32_bytes-u32_be [] h k = absurd (omega arith)
u32_bytes-u32_be (a ∷ []) h k = absurd (omega arith)
u32_bytes-u32_be (a ∷ b ∷ []) h k = absurd (omega arith)
u32_bytes-u32_be (a ∷ b ∷ c ∷ []) h k = absurd (omega arith)
u32_bytes-u32_be (a ∷ b ∷ c ∷ d ∷ rest) h k = ground arith

pub u32_be_bound : (bs : Bytes) → All IsByte bs → u32_be bs < 2 ^ 32
unfolding u32_be
u32_be_bound [] h = omega arith
u32_be_bound (a ∷ []) h = omega arith
u32_be_bound (a ∷ b ∷ []) h = omega arith
u32_be_bound (a ∷ b ∷ c ∷ []) h = omega arith
u32_be_bound (a ∷ b ∷ c ∷ d ∷ rest) h = omega arith

pub drop-nil {ℓ} : {A : Type ℓ} (n : ℕ) → drop {A = A} n [] ≡ []
drop-nil zero = refl
drop-nil (suc n) = refl

pub drop-drop {ℓ} : {A : Type ℓ} (m n : ℕ) (xs : List A) → drop n (drop m xs) ≡ drop (m + n) xs
drop-drop zero n xs = ap (λ k. drop k xs) (omega arith)
drop-drop (suc m) n [] = drop-nil n ∙ sym (drop-nil (suc m + n))
drop-drop (suc m) n (x ∷ xs) =
    let e : suc (m + n) ≡ suc m + n = omega arith in drop-drop m n xs ∙ ap (λ k. drop k (x ∷ xs)) e

pub All-drop {ℓ κ} :
    {A : Type ℓ} (P : A → Type κ) (n : ℕ) (xs : List A) → All P xs → All P (drop n xs)
All-drop P zero xs h = h
All-drop P (suc n) [] h = h
All-drop P (suc n) (x ∷ xs) h = All-drop P n xs h.1

pub All-take {ℓ κ} :
    {A : Type ℓ} (P : A → Type κ) (n : ℕ) (xs : List A) → All P xs → All P (take n xs)
All-take P zero xs h = tt
All-take P (suc n) [] h = h
All-take P (suc n) (x ∷ xs) h = (h.0, All-take P n xs h.1)
