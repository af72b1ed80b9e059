-- ===== src/Spy/Cursor/Varint/RoundTrip.antt =====
-- What `readProtoVarint` reads: the base-128 numerals of numbers below 2 ^ 70.
use rootcell.Prelude.{
  ℕ, zero, suc, ◌+◌, ◌*◌, ◌/◌, ◌%◌, ◌^◌, ◌≤◌, ◌<◌, ◌≡◌, refl, ap, ap₂, ◌∙◌, [], ◌∷◌, ◌++◌, some,
  ltb, if◌then◌else◌, length, get_elem?, drop, arith, Bool-cases, inl, inr,
}
use native.Mathlib.Nat.{pow-suc}
use Prim.Native.Nat.{bit_or}
use rootcell.Prelude.Bits.{bit_or_shifted}
use rootcell.Spy.Bytes.{Bytes}
use rootcell.Spy.Cursor.Varint.{read_varint_from, read_proto_varint}

-- The numeral of a number: seven bits in each byte, the lowest first, and the high bit set in all
-- bytes but the last.
varint_bytes_fuel : ℕ → ℕ → Bytes
varint_bytes_fuel zero n = n % 128 ∷ []
varint_bytes_fuel (suc fuel) n =
    let rest = varint_bytes_fuel fuel (n / 128) in
    if ltb n 128 then n ∷ [] else (n % 128 + 128) ∷ rest

-- Ten bytes hold 70 bits.
unfoldable pub varint_bytes : ℕ → Bytes
unfolding varint_bytes_fuel
varint_bytes n = varint_bytes_fuel 9 n

get_elem?-append :
    (pre : Bytes) (b : ℕ) (rest : Bytes) → get_elem? (pre ++ b ∷ rest) (length pre) ≡ some b
get_elem?-append [] b rest = refl
get_elem?-append (x ∷ pre) b rest = get_elem?-append pre b rest

-- The element at an index, and what stands behind it.
get_elem?-of_drop :
    (k : ℕ) (xs : Bytes) {x : ℕ} {ys : Bytes}
    → drop k xs ≡ x ∷ ys
    → (get_elem? xs k ≡ some x) × (drop (suc k) xs ≡ ys)
get_elem?-of_drop zero [] h = absurd (cc)
get_elem?-of_drop zero (a ∷ xs) h = (cc, cc)
get_elem?-of_drop (suc k) [] h = absurd (cc)
get_elem?-of_drop (suc k) (a ∷ xs) h = get_elem?-of_drop k xs h

pow_seven : (k : ℕ) → 2 ^ suc (suc (suc (suc (suc (suc (suc k)))))) ≡ 128 * 2 ^ k
pow_seven k = omega (
  arith,
  pow-suc 2 (suc (suc (suc (suc (suc (suc k)))))),
  pow-suc 2 (suc (suc (suc (suc (suc k))))),
  pow-suc 2 (suc (suc (suc (suc k)))),
  pow-suc 2 (suc (suc (suc k))),
  pow-suc 2 (suc (suc k)),
  pow-suc 2 (suc k),
  pow-suc 2 k,
)

pow_next_byte : (i : ℕ) → 2 ^ (7 * (i + 1)) ≡ 128 * 2 ^ (7 * i)
pow_next_byte i =
    let e : 7 * (i + 1) ≡ suc (suc (suc (suc (suc (suc (suc (7 * i))))))) = omega arith in
    ap (λ k. 2 ^ k) e ∙ pow_seven (7 * i)

-- A further byte of seven bits on a result of `i` bytes.
add_byte :
    (i result b : ℕ)
    → result < 2 ^ (7 * i)
    → b < 128
    → (bit_or result (b * 2 ^ (7 * i)) ≡ result + b * 2 ^ (7 * i))
      × (result + b * 2 ^ (7 * i) < 2 ^ (7 * (i + 1)))
add_byte i result b h k = (bit_or_shifted (7 * i) result b h, grind (arith, pow_next_byte i))

-- A last byte ends the loop.
read_last :
    (left i result : ℕ) (buffer : Bytes) (offset b : ℕ) {rest : Bytes}
    → drop (offset + i) buffer ≡ b ∷ rest
    → result < 2 ^ (7 * i)
    → b < 128
    → read_varint_from (suc left) i result buffer offset
      ≡ some (record { value = result + b * 2 ^ (7 * i); next_offset = offset + i + 1 })
unfolding read_varint_from
read_last left i result buffer offset b there small last =
    let same : b % 128 ≡ b = omega arith in
    let ends : b / 128 % 2 ≡ 0 = omega arith in
    rw
      (
        read_varint_from,
        (get_elem?-of_drop (offset + i) buffer there).0,
        ends,
        same,
        (add_byte i result b small last).0,
      )
      refl

-- Any other byte adds its low seven bits.
read_next :
    (left i result : ℕ) (buffer : Bytes) (offset b : ℕ) {rest : Bytes}
    → drop (offset + i) buffer ≡ (b + 128) ∷ rest
    → result < 2 ^ (7 * i)
    → b < 128
    → read_varint_from (suc left) i result buffer offset
      ≡ read_varint_from left (i + 1) (result + b * 2 ^ (7 * i)) buffer offset
unfolding read_varint_from
read_next left i result buffer offset b there small last =
    let same : (b + 128) % 128 ≡ b = omega arith in
    let goes_on : (b + 128) / 128 % 2 ≡ 1 = omega arith in
    rw
      (
        read_varint_from,
        (get_elem?-of_drop (offset + i) buffer there).0,
        goes_on,
        same,
        (add_byte i result b small last).0,
      )
      refl

pow_rest : (fuel n : ℕ) → n < 2 ^ (7 * (suc fuel + 1)) → n / 128 < 2 ^ (7 * (fuel + 1))
pow_rest fuel n h = omega (arith, pow_next_byte (suc fuel), ap (λ k. 2 ^ (7 * k)) (same fuel))
  where
    same : (f : ℕ) → suc f ≡ f + 1
    same f = omega arith

-- The value of a numeral, cut behind its first byte.
cut_value : (result n q : ℕ) → result + n % 128 * q + n / 128 * (128 * q) ≡ result + n * q
cut_value result n q =
    let cut : n / 128 * 128 + n % 128 ≡ n = omega arith in
    distribute (n % 128) (n / 128) ∙ ap (λ m. result + m * q) cut
  where
    distribute : (a b : ℕ) → result + a * q + b * (128 * q) ≡ result + (b * 128 + a) * q
    distribute a b = grind arith

next_index : (offset i : ℕ) → offset + (i + 1) ≡ suc (offset + i)
next_index offset i = omega arith

read_varint_bytes :
    (fuel left i result n : ℕ) (buffer : Bytes) (offset : ℕ) (rest : Bytes)
    → fuel ≤ left
    → drop (offset + i) buffer ≡ varint_bytes_fuel fuel n ++ rest
    → result < 2 ^ (7 * i)
    → n < 2 ^ (7 * (fuel + 1))
    → read_varint_from (suc left) i result buffer offset
      ≡ some (record {
        value = result + n * 2 ^ (7 * i);
        next_offset = offset + i + length (varint_bytes_fuel fuel n);
      })
unfolding varint_bytes_fuel
read_varint_bytes zero left i result n buffer offset rest enough there small fits =
    let same : n % 128 ≡ n = omega arith in
    read_last left i result buffer offset (n % 128) there small (omega arith)
    ∙ ap (λ m. some (record { value = result + m * 2 ^ (7 * i); next_offset = offset + i + 1 }))
        same
read_varint_bytes (suc fuel) zero i result n buffer offset rest enough there small fits =
    absurd (omega arith)
read_varint_bytes (suc fuel) (suc left) i result n buffer offset rest enough there small fits =
    elim (Bool-cases (ltb n 128)) [
      | inl last ↦
          rw last
            (read_last (suc left) i result buffer offset n (rw last at there) small (ground arith))
      | inr more ↦
          let here = rw more at there in
          let behind : drop (offset + (i + 1)) buffer ≡ varint_bytes_fuel fuel (n / 128) ++ rest =
            rw (next_index offset i) (get_elem?-of_drop (offset + i) buffer here).1 in
          rw more (
            read_next (suc left) i result buffer offset (n % 128) here small (omega arith)
            ∙ read_varint_bytes fuel left (i + 1) (result + n % 128 * 2 ^ (7 * i)) (n / 128) buffer
                offset rest (omega arith) behind (add_byte i result (n % 128) small (omega arith)).1
                (pow_rest fuel n fits)
            ∙ ap₂ (λ v o. some (record { value = v; next_offset = o }))
                (ap (λ p. result + n % 128 * 2 ^ (7 * i) + n / 128 * p) (pow_next_byte i)
                  ∙ cut_value result n (2 ^ (7 * i)))
                (omega arith))
    ]

add_zero : (n : ℕ) → n + 0 ≡ n
add_zero n = omega arith

-- The numeral of a number below 2 ^ 70 is read as the number, wherever it stands in the buffer, and
-- reading goes on behind it.
pub read_proto_varint-varint_bytes :
    (n : ℕ) (buffer : Bytes) (offset : ℕ) (rest : Bytes)
    → n < 2 ^ 70
    → drop offset buffer ≡ varint_bytes n ++ rest
    → read_proto_varint buffer offset
      ≡ some (record { value = n; next_offset = offset + length (varint_bytes n) })
unfolding read_proto_varint varint_bytes
read_proto_varint-varint_bytes n buffer offset rest fits there =
    read_varint_bytes 9 9 0 0 n buffer offset rest (omega arith) (rw (add_zero offset) there)
      (omega arith) fits
    ∙ ap₂ (λ v o. some (record { value = v; next_offset = o })) (omega arith) (omega arith)
