-- ===== src/Spy/EventStream/Crc/Bitwise.antt =====
-- The table computes the bitwise CRC-32: the table of all byte values stands for eight rounds.
use Prim.Native.Nat.{bit_xor}
use rootcell.Prelude.{
  ℕ, zero, suc, ◌+◌, ◌*◌, ◌/◌, ◌%◌, ◌^◌, ◌<◌, ◌≡◌, refl, sym, ap, ◌∙◌, [], ◌∷◌, Option, none, some,
  arith, ◌==◌, get_elem?, All, Bool-cases, inl, inr,
}
use native.Mathlib.Nat.{pow-suc}
use rootcell.Prelude.Bits.Xor.{
  bit_xor_half, bit_xor_parity, bit_xor_assoc, bit_xor_bound, bit_xor_shifted, bit_xor-zero,
}
use rootcell.Spy.Bytes.{Bytes, IsByte}
use rootcell.Spy.EventStream.Crc.{
  crc_round, crc_rounds, crc_table_from, table_at, crc32_from, crc32,
}

-- The definition of CRC-32 by shifts: eight rounds for each byte.
unfoldable pub crc32_bitwise_from : ℕ → Bytes → ℕ
crc32_bitwise_from crc [] = crc
crc32_bitwise_from crc (byte ∷ bytes) = crc32_bitwise_from (crc_rounds 8 (bit_xor crc byte)) bytes

pub crc32_bitwise : Bytes → ℕ
crc32_bitwise bytes = bit_xor (crc32_bitwise_from 0xFFFFFFFF bytes) 0xFFFFFFFF

twice_half : (b : ℕ) → b * 2 / 2 ≡ b
twice_half b = omega arith

-- A round passes over higher bits.
crc_round-bit_xor : (a b : ℕ) → crc_round (bit_xor a (b * 2)) ≡ bit_xor (crc_round a) b
unfolding crc_round
crc_round-bit_xor a b =
    let half = bit_xor_half a (b * 2) ∙ ap (bit_xor (a / 2)) (twice_half b) in
    let parity : bit_xor a (b * 2) % 2 ≡ a % 2 = omega (arith, bit_xor_parity a (b * 2)) in
    rw (parity, half)
      (elim (Bool-cases (a % 2 == 1)) [
        | inl odd ↦ rw odd (bit_xor_assoc 0xEDB88320 (a / 2) b)
        | inr even ↦ rw even
      ])

pow_step : (b k : ℕ) → b * 2 ^ suc k ≡ b * 2 ^ k * 2
pow_step b k = grind (arith, pow-suc 2 k)

crc_rounds-bit_xor : (k a b : ℕ) → crc_rounds k (bit_xor a (b * 2 ^ k)) ≡ bit_xor (crc_rounds k a) b
unfolding crc_rounds
crc_rounds-bit_xor zero a b = ap (bit_xor a) (omega arith)
crc_rounds-bit_xor (suc k) a b =
    ap (λ x. crc_rounds k (crc_round (bit_xor a x))) (pow_step b k)
    ∙ ap (crc_rounds k) (crc_round-bit_xor a (b * 2 ^ k))
    ∙ crc_rounds-bit_xor k (crc_round a) b

-- Eight rounds on a value: those on its low byte, and the rest shifted.
crc_rounds_split : (x : ℕ) → crc_rounds 8 x ≡ bit_xor (crc_rounds 8 (x % 256)) (x / 256)
crc_rounds_split x =
    let sum : x ≡ x % 256 + x / 256 * 2 ^ 8 = omega arith in
    ap (crc_rounds 8) (sum ∙ sym (bit_xor_shifted 8 (x % 256) (x / 256) (omega arith)))
    ∙ crc_rounds-bit_xor 8 (x % 256) (x / 256)

table_from_at :
    (count index i : ℕ)
    → i < count
    → get_elem? (crc_table_from count index) i ≡ some (crc_rounds 8 (index + i))
unfolding crc_table_from
table_from_at zero index i h = absurd (omega arith)
table_from_at (suc count) index zero h = ap (λ j. some (crc_rounds 8 j)) (omega arith)
table_from_at (suc count) index (suc i) h =
    table_from_at count (index + 1) i (omega arith) ∙ ap (λ j. some (crc_rounds 8 j)) (omega arith)

abbrev entry_or_zero : Option ℕ → ℕ
entry_or_zero o = elim o [ none ↦ 0 | some entry ↦ entry ]

table_at_lem : (i : ℕ) → i < 256 → table_at i ≡ crc_rounds 8 i
unfolding table_at
table_at_lem i h = ap entry_or_zero (table_from_at 256 0 i h) ∙ ap (crc_rounds 8) (omega arith)

-- The high bits of a sum with a byte.
bit_xor_high : (crc byte : ℕ) → byte < 256 → bit_xor crc byte / 256 ≡ crc / 256
bit_xor_high crc byte h =
    let none_left : byte / 2 / 2 / 2 / 2 / 2 / 2 / 2 / 2 ≡ 0 = omega arith in
    omega (
      arith,
      bit_xor_half crc byte,
      bit_xor_half (crc / 2) (byte / 2),
      bit_xor_half (crc / 2 / 2) (byte / 2 / 2),
      bit_xor_half (crc / 2 / 2 / 2) (byte / 2 / 2 / 2),
      bit_xor_half (crc / 2 / 2 / 2 / 2) (byte / 2 / 2 / 2 / 2),
      bit_xor_half (crc / 2 / 2 / 2 / 2 / 2) (byte / 2 / 2 / 2 / 2 / 2),
      bit_xor_half (crc / 2 / 2 / 2 / 2 / 2 / 2) (byte / 2 / 2 / 2 / 2 / 2 / 2),
      bit_xor_half (crc / 2 / 2 / 2 / 2 / 2 / 2 / 2) (byte / 2 / 2 / 2 / 2 / 2 / 2 / 2),
      ap (bit_xor (crc / 2 / 2 / 2 / 2 / 2 / 2 / 2 / 2)) none_left,
      bit_xor-zero (crc / 2 / 2 / 2 / 2 / 2 / 2 / 2 / 2),
    )

crc_step :
    (crc byte : ℕ)
    → byte < 256
    → bit_xor (table_at (bit_xor crc byte % 256)) (crc / 256) ≡ crc_rounds 8 (bit_xor crc byte)
crc_step crc byte h =
    let x = bit_xor crc byte in
    ap (λ t. bit_xor t (crc / 256)) (table_at_lem (x % 256) (omega arith))
    ∙ ap (bit_xor (crc_rounds 8 (x % 256))) (sym (bit_xor_high crc byte h))
    ∙ sym (crc_rounds_split x)

crc32_from-eq-bitwise :
    (crc : ℕ) (bytes : Bytes)
    → All IsByte bytes
    → crc32_from crc bytes ≡ crc32_bitwise_from crc bytes
unfolding crc32_from crc32_bitwise_from
crc32_from-eq-bitwise crc [] h = refl
crc32_from-eq-bitwise crc (byte ∷ bytes) (small, h) =
    ap (λ c. crc32_from c bytes) (crc_step crc byte small)
    ∙ crc32_from-eq-bitwise (crc_rounds 8 (bit_xor crc byte)) bytes h

-- The checksum that is computed with the table is the bitwise CRC-32.
pub crc32-eq-bitwise : (bytes : Bytes) → All IsByte bytes → crc32 bytes ≡ crc32_bitwise bytes
unfolding crc32 crc32_bitwise
crc32-eq-bitwise bytes h = ap (λ c. bit_xor c 0xFFFFFFFF) (crc32_from-eq-bitwise 0xFFFFFFFF bytes h)

-- The checksum fits 32 bits.
crc_rounds_bound : (k x : ℕ) → x < 2 ^ 32 → crc_rounds k x < 2 ^ 32
unfolding crc_rounds crc_round
crc_rounds_bound zero x h = h
crc_rounds_bound (suc k) x h = crc_rounds_bound k (crc_round x) (round_bound x h)
  where
    round_bound : (y : ℕ) → y < 2 ^ 32 → crc_round y < 2 ^ 32
    round_bound y l =
        ground (arith, bit_xor_bound 32 0xEDB88320 (y / 2) (omega arith) (omega arith))

crc32_bitwise_from_bound :
    (crc : ℕ) (bytes : Bytes)
    → crc < 2 ^ 32
    → All IsByte bytes
    → crc32_bitwise_from crc bytes < 2 ^ 32
unfolding crc32_bitwise_from
crc32_bitwise_from_bound crc [] h _ = h
crc32_bitwise_from_bound crc (byte ∷ bytes) h (small, rest) =
    crc32_bitwise_from_bound (crc_rounds 8 (bit_xor crc byte)) bytes
      (crc_rounds_bound 8 _ (bit_xor_bound 32 crc byte h (omega arith))) rest

pub crc32_bound : (bytes : Bytes) → All IsByte bytes → crc32 bytes < 2 ^ 32
unfolding crc32_bitwise
crc32_bound bytes h = rw (crc32-eq-bitwise bytes h) (
    bit_xor_bound 32 _ 0xFFFFFFFF (crc32_bitwise_from_bound 0xFFFFFFFF bytes (omega arith) h)
      (omega arith))
