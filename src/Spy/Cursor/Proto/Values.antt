-- ===== src/Spy/Cursor/Proto/Values.antt =====
-- The values of protobuf fields: `protoNumber`, `protoString` and `protoHexBytes` of
-- src/spy/cursor.ts, and the little-endian reads.
use rootcell.Prelude.{
  ℕ, ◌+◌, ◌-◌, ◌*◌, ◌%◌, Bool, not, ◌&&◌, ◌||◌, [], ◌∷◌, Option, none, some, ◌==◌, ltb, leb,
  if◌then◌else◌, length, all, any, filter, drop, take, Text,
}
use rootcell.Prelude.Decimal.{decimal, is_digit}
use rootcell.Spy.Bytes.{Bytes}
use rootcell.Spy.Cursor.Varint.{max_safe_integer}

-- A number that JavaScript holds exactly, or the decimal text of a larger one.
pub data ProtoNumber : Type 0 where
  small : ℕ → ProtoNumber
  large : Text → ProtoNumber

unfoldable pub proto_number : ℕ → ProtoNumber
proto_number value = if leb value max_safe_integer then small value else large (decimal value)

-- The little-endian number of some bytes.
unfoldable pub le_number : Bytes → ℕ
le_number [] = 0
le_number (b ∷ bs) = b + le_number bs * 256

-- `readUInt32LE` and `readBigUInt64LE`; the callers test the length before.
unfoldable pub u32_le : Bytes → ℕ → ℕ
u32_le buffer offset = le_number (take 4 (drop offset buffer))

unfoldable pub u64_le : Bytes → ℕ → ℕ
u64_le buffer offset = le_number (take 8 (drop offset buffer))

abbrev pub is_control : ℕ → Bool
is_control c = ltb c 32 && not (c == b'\n') && not (c == b'\r') && not (c == b'\t')

-- Too many control characters: more than one, and more than 0.05 of the code units.
abbrev pub is_binary : Text → Bool
is_binary text =
    let control_count = length (filter is_control text) in
    ltb 1 control_count && ltb (length text) (control_count * 20)

unfoldable pub proto_string : (Bytes → Text) → Bytes → Option Text
proto_string utf8 buffer =
    if length buffer == 0 || ltb 128000 (length buffer)
    then none
    else (let text = utf8 buffer in
        if any (λ c. c == 0xFFFD) text || is_binary text || length text == 0
        then none
        else some text)

abbrev pub is_hex_digit : ℕ → Bool
is_hex_digit byte =
    is_digit byte || (leb 0x61 byte && leb byte 0x66) || (leb 0x41 byte && leb byte 0x46)

abbrev pub hex_value : ℕ → ℕ
hex_value c = if is_digit c then c - 48 else if leb 0x61 c then c - 0x61 + 10 else c - 0x41 + 10

-- `Buffer.from(text, "hex")` of an even number of digits.
unfoldable pub hex_bytes : Bytes → Bytes
hex_bytes (a ∷ b ∷ rest) = (hex_value a * 16 + hex_value b) ∷ hex_bytes rest
hex_bytes _ = []

unfoldable pub proto_hex_bytes : Bytes → Option Bytes
proto_hex_bytes buffer =
    if ltb (length buffer) 16 || not (length buffer % 2 == 0)
    then none
    else if all is_hex_digit buffer
    then some (hex_bytes buffer)
    else none
