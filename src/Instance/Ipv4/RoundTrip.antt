-- ===== src/Instance/Ipv4/RoundTrip.antt =====
-- Printing and reading IPv4 addresses undo one another, both ways.
use rootcell.Prelude.{
  ℕ, ◌+◌, ◌-◌, ◌*◌, ◌/◌, ◌%◌, ◌^◌, ◌≤◌, ◌<◌, ◌≡◌, refl, sym, ap, ◌∙◌, true, List, [], ◌∷◌, arith,
  ◌==◌, All, Text, split, join, split-join, join-split, Lacks, ok, length,
}
use rootcell.Prelude.Bits.{shifted-bit_or}
use rootcell.Prelude.Decimal.{
  decimal, number, number-decimal, decimal_step, decimal-IsDigit, IsDigit,
}
use rootcell.Instance.Ipv4.{
  is_octet_text, push_octet, parse_octets, parse_ipv4, octet_at, format_ipv4,
}

push_octet_lem :
    (output octet : ℕ)
    → octet < 256
    → output < 2 ^ 24
    → push_octet output octet ≡ output * 256 + octet
unfolding push_octet
push_octet_lem output octet h k =
    let e : output * 2 ^ 8 % 2 ^ 32 ≡ output * 2 ^ 8 = omega arith in
    rw e (shifted-bit_or 8 octet output h)

-- The texts of octets are those that the pattern accepts.
decimal_below_ten : (n : ℕ) → n < 10 → decimal n ≡ (48 + n) ∷ []
decimal_below_ten n h = ground (arith, decimal_step n)

decimal_below_hundred : (n : ℕ) → 10 ≤ n → n < 100 → decimal n ≡ (48 + n / 10) ∷ (48 + n % 10) ∷ []
decimal_below_hundred n l h = ground (arith, decimal_step n, decimal_below_ten (n / 10))

decimal_below_thousand :
    (n : ℕ)
    → 100 ≤ n
    → n < 1000
    → decimal n ≡ (48 + n / 10 / 10) ∷ (48 + n / 10 % 10) ∷ (48 + n % 10) ∷ []
decimal_below_thousand n l h = ground (arith, decimal_step n, decimal_below_hundred (n / 10))

decimal-is_octet_text : (n : ℕ) → n < 256 → is_octet_text (decimal n) ≡ true
unfolding is_octet_text
decimal-is_octet_text n h =
    ground (arith, decimal_below_ten n, decimal_below_hundred n, decimal_below_thousand n)

Lacks-of_IsDigit : (s : Text) → All IsDigit s → Lacks b'.' s
Lacks-of_IsDigit [] h = tt
Lacks-of_IsDigit (c ∷ s) (p, h) = (omega arith, Lacks-of_IsDigit s h)

parse_octets-decimal :
    (output n : ℕ) (parts : List Text)
    → n < 256
    → output < 2 ^ 24
    → parse_octets output (decimal n ∷ parts) ≡ parse_octets (output * 256 + n) parts
unfolding parse_octets
parse_octets-decimal output n parts h k =
    ground (arith, decimal-is_octet_text n, number-decimal n, push_octet_lem output n h k)

octet_bound : (value k : ℕ) → octet_at value k < 256
octet_bound value k = omega arith

octets_sum :
    (value : ℕ)
    → value < 2 ^ 32
    → ((octet_at value 24 * 256 + octet_at value 16) * 256 + octet_at value 8) * 256
        + octet_at value 0
      ≡ value
octets_sum value h = omega arith

pub decimal-Lacks : (n : ℕ) → Lacks b'.' (decimal n)
decimal-Lacks n = Lacks-of_IsDigit (decimal n) (decimal-IsDigit n)

parse_octets_four :
    (a b c d : ℕ)
    → a < 256
    → b < 256
    → c < 256
    → d < 256
    → parse_octets 0 (decimal a ∷ decimal b ∷ decimal c ∷ decimal d ∷ [])
      ≡ ok ((((0 * 256 + a) * 256 + b) * 256 + c) * 256 + d)
parse_octets_four a b c d ha hb hc hd =
    parse_octets-decimal 0 a _ ha (omega arith)
    ∙ parse_octets-decimal (0 * 256 + a) b _ hb (omega arith)
    ∙ parse_octets-decimal ((0 * 256 + a) * 256 + b) c _ hc (omega arith)
    ∙ parse_octets-decimal (((0 * 256 + a) * 256 + b) * 256 + c) d _ hd (omega arith)
    ∙ (unfold parse_octets in refl)

-- Reading a printed address gives the 32-bit number back.
pub parse-format : (value : ℕ) → value < 2 ^ 32 → parse_ipv4 (format_ipv4 value) ≡ ok value
unfolding parse_ipv4 format_ipv4
parse-format value h =
    rw
      (split-join b'.' (decimal (octet_at value 24))
        (decimal (octet_at value 16) ∷ decimal (octet_at value 8) ∷ decimal (octet_at value 0) ∷ [])
        (decimal-Lacks _, (decimal-Lacks _, (decimal-Lacks _, (decimal-Lacks _, tt)))))
      (parse_octets_four (octet_at value 24) (octet_at value 16) (octet_at value 8)
          (octet_at value 0) (omega arith) (omega arith) (omega arith) (omega arith)
        ∙ ap ok (omega (arith, octets_sum value h)))

decimal-number : (part : Text) → is_octet_text part ≡ true → decimal (number part) ≡ part
unfolding is_octet_text number
decimal-number [] h = cc
decimal-number (c ∷ []) h = ground (arith, decimal_below_ten (c - 48))
decimal-number (c ∷ d ∷ []) h =
    ground (arith, decimal_below_hundred ((0 * 10 + (c - 48)) * 10 + (d - 48)))
decimal-number (c ∷ d ∷ e ∷ []) h =
    ground (arith, decimal_below_thousand (((0 * 10 + (c - 48)) * 10 + (d - 48)) * 10 + (e - 48)))
decimal-number (c ∷ d ∷ e ∷ f ∷ rest) h = cc

abbrev pub IsOctet : Text → Type 0
IsOctet part = (decimal (number part) ≡ part) × (number part < 256)

parse_octets-eq-ok :
    (output : ℕ) (part : Text) (parts : List Text) {v : ℕ}
    → output < 2 ^ 24
    → parse_octets output (part ∷ parts) ≡ ok v
    → IsOctet part × (parse_octets (output * 256 + number part) parts ≡ ok v)
unfolding parse_octets
parse_octets-eq-ok output part parts k h =
    ground (arith, decimal-number part, push_octet_lem output (number part))

four_parts :
    (ps : List Text) → (length ps == 4) ≡ true → (a b c d : Text) × (ps ≡ a ∷ b ∷ c ∷ d ∷ [])
four_parts [] h = cc
four_parts (a ∷ []) h = cc
four_parts (a ∷ b ∷ []) h = cc
four_parts (a ∷ b ∷ c ∷ []) h = cc
four_parts (a ∷ b ∷ c ∷ d ∷ []) h = (a, b, c, d, refl)
four_parts (a ∷ b ∷ c ∷ d ∷ e ∷ ps) h = absurd (ground arith)

parse_octets-nil : {output v : ℕ} → parse_octets output [] ≡ ok v → v ≡ output
unfolding parse_octets
parse_octets-nil h = cc

-- What `parse_octets` accepts of four parts, and the number that it returns.
pub parse_octets-eq-ok_four :
    (a b c d : Text) {v : ℕ}
    → parse_octets 0 (a ∷ b ∷ c ∷ d ∷ []) ≡ ok v
    → IsOctet a
      × IsOctet b
      × IsOctet c
      × IsOctet d
      × (v ≡ ((number a * 256 + number b) * 256 + number c) * 256 + number d)
parse_octets-eq-ok_four a b c d h =
    let (oa, h₁) = parse_octets-eq-ok 0 a _ (omega arith) h in
    let (ob, h₂) = parse_octets-eq-ok _ b _ (omega (arith, oa.1)) h₁ in
    let (oc, h₃) = parse_octets-eq-ok _ c _ (omega (arith, oa.1, ob.1)) h₂ in
    let (od, h₄) = parse_octets-eq-ok _ d _ (omega (arith, oa.1, ob.1, oc.1)) h₃ in
    (oa, ob, oc, od, parse_octets-nil h₄ ∙ omega arith)

octet_at_sum :
    (a b c d : ℕ)
    → a < 256
    → b < 256
    → c < 256
    → d < 256
    → let v : ℕ = ((a * 256 + b) * 256 + c) * 256 + d in
      (octet_at v 24 ≡ a)
      × (octet_at v 16 ≡ b)
      × (octet_at v 8 ≡ c)
      × (octet_at v 0 ≡ d)
      × (v < 2 ^ 32)
octet_at_sum a b c d ha hb hc hd = omega arith

parse_ipv4-eq-ok :
    (value : Text) {v : ℕ}
    → parse_ipv4 value ≡ ok v
    → ((length (split b'.' value) == 4) ≡ true) × (parse_octets 0 (split b'.' value) ≡ ok v)
unfolding parse_ipv4
parse_ipv4-eq-ok value h = ground arith

format_four :
    (a b c d : Text) {v : ℕ}
    → parse_octets 0 (a ∷ b ∷ c ∷ d ∷ []) ≡ ok v
    → (format_ipv4 v ≡ join b'.' (a ∷ b ∷ c ∷ d ∷ [])) × (v < 2 ^ 32)
unfolding format_ipv4
format_four a b c d h =
    let ((sa, ba), (sb, bb), (sc, bc), (sd, bd), e) = parse_octets-eq-ok_four a b c d h in
    let (ea, eb, ec, ed, bound) =
      octet_at_sum (number a) (number b) (number c) (number d) ba bb bc bd in
    (rw (e, ea, eb, ec, ed, sa, sb, sc, sd), rw e bound)

-- An accepted address is the canonical text of its number, which fits 32 bits.
pub format-parse :
    (value : Text) {v : ℕ} → parse_ipv4 value ≡ ok v → (format_ipv4 v ≡ value) × (v < 2 ^ 32)
format-parse value h =
    let (four, parsed) = parse_ipv4-eq-ok value h in
    let (a, b, c, d, parts) = four_parts (split b'.' value) four in
    let (same, bound) = format_four a b c d (rw parts at parsed) in
    (same ∙ ap (join b'.') (sym parts) ∙ join-split b'.' value, bound)
