-- ===== src/Instance/Ipv4.antt =====
-- `parseIpv4`, `formatIpv4`, `subnet24` and `isPrivateIpv4` of src/rootcell/instance.ts, over
-- unsigned 32-bit numbers: `>>> 0` is written as the remainder by 2 ^ 32.
pub mod RoundTrip
pub mod Hosts
use Prim.Native.Nat.{bit_or}
use rootcell.Prelude.{
  ℕ, ◌+◌, ◌-◌, ◌*◌, ◌/◌, ◌%◌, ◌^◌, Bool, true, false, not, ◌&&◌, ◌||◌, List, [], ◌∷◌, ◌==◌, ltb,
  leb, if◌then◌else◌, length, Text, split, join, Result, ok, err, throw_if, ◌>>=◌, ◌>>◌,
}
use rootcell.Prelude.Decimal.{is_digit, decimal, number}
use rootcell.Instance.Error.{Error, invalid_ipv4}

-- `/^(0|[1-9][0-9]{0,2})$/.test(part)`
unfoldable pub is_octet_text : Text → Bool
is_octet_text [] = false
is_octet_text (c ∷ []) = is_digit c
is_octet_text (c ∷ d ∷ []) = leb 49 c && leb c 57 && is_digit d
is_octet_text (c ∷ d ∷ e ∷ []) = leb 49 c && leb c 57 && (is_digit d && is_digit e)
is_octet_text (c ∷ d ∷ e ∷ f ∷ rest) = false

-- `((output << 8) | octet) >>> 0`
unfoldable pub push_octet : ℕ → ℕ → ℕ
push_octet output octet = bit_or (output * 2 ^ 8 % 2 ^ 32) octet

-- The loop over the parts; a number read from digits is never negative.
unfoldable pub parse_octets : ℕ → List Text → Result Error ℕ
parse_octets output [] = ok output
parse_octets output (part ∷ parts) =
    let rest = parse_octets (push_octet output (number part)) parts in
    if not (is_octet_text part)
    then err invalid_ipv4
    else if ltb 255 (number part)
    then err invalid_ipv4
    else rest

unfoldable pub parse_ipv4 : Text → Result Error ℕ
parse_ipv4 value =
    if not (length (split b'.' value) == 4)
    then err invalid_ipv4
    else parse_octets 0 (split b'.' value)

-- `(value >>> k) & 0xff`
abbrev pub octet_at : ℕ → ℕ → ℕ
octet_at value k = value / 2 ^ k % 256

unfoldable pub format_ipv4 : ℕ → Text
format_ipv4 value = join b'.' (
    decimal (octet_at value 24)
    ∷ decimal (octet_at value 16)
    ∷ decimal (octet_at value 8)
    ∷ decimal (octet_at value 0)
    ∷ [])

-- `(value & 0xffffff00) >>> 0`
unfoldable pub subnet24 : ℕ → ℕ
subnet24 value = value - value % 256

-- RFC1918 space.
unfoldable pub is_private_ipv4 : ℕ → Bool
is_private_ipv4 value =
    let first = octet_at value 24 in
    let second = octet_at value 16 in
    first == 10
    || (first == 172 && leb 16 second && leb second 31)
    || (first == 192 && second == 168)
