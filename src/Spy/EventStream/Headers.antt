-- ===== src/Spy/EventStream/Headers.antt =====
-- `decodeHeaders` of src/spy/eventstream.ts. A name or a value of type string is kept as its
-- UTF-8 bytes; a 64-bit number `n` stands for `Number(n)`, and a timestamp for the ISO text of its
-- milliseconds.
use rootcell.Prelude.{
  ℕ, zero, suc, ◌+◌, ◌-◌, ◌*◌, ◌^◌, Bool, true, false, ◌||◌, List, [], ◌∷◌, none, some, ◌==◌, ltb,
  if◌then◌else◌, length, get_elem?, text_eq, Result, ok, err, throw_if, ◌>>=◌, ◌>>◌,
}
use rootcell.Spy.Bytes.{Bytes, subarray}

pub data DecodeError : Type 0 where
  out_of_fuel : DecodeError
  truncated_prelude : DecodeError
  invalid_total_length : ℕ → DecodeError
  truncated_message : DecodeError
  prelude_crc_mismatch : DecodeError
  message_crc_mismatch : DecodeError
  headers_exceed_message : DecodeError
  truncated_header : DecodeError
  unknown_header_type : ℕ → DecodeError
  out_of_range : DecodeError
  invalid_time_value : DecodeError

-- The bit pattern of a signed number of `bits` bits, and the number: `minus n` is -n.
pub data Signed : Type 0 where
  plus : ℕ → Signed
  minus : ℕ → Signed

unfoldable pub to_signed : ℕ → ℕ → Signed
to_signed bits n = if ltb n (2 ^ (bits - 1)) then plus n else minus (2 ^ bits - n)

unfoldable pub magnitude : Signed → ℕ
magnitude (plus n) = n
magnitude (minus n) = n

pub data HeaderValue : Type 0 where
  flag : Bool → HeaderValue
  number : Signed → HeaderValue
  bytes : Bytes → HeaderValue
  string : Bytes → HeaderValue
  timestamp : Signed → HeaderValue
  uuid : Bytes → HeaderValue

abbrev pub Header : Type 0
Header = Bytes × HeaderValue

-- The big-endian number of some bytes.
unfoldable pub be_from : ℕ → Bytes → ℕ
be_from acc [] = acc
be_from acc (b ∷ bs) = be_from (acc * 256 + b) bs

-- `readInt8`, `readInt16BE`, `readInt32BE`, `readBigInt64BE`, `readUInt16BE`: reads of `width`
-- bytes, which throw where the buffer has fewer.
unfoldable pub read_be : ℕ → Bytes → ℕ → Result DecodeError ℕ
unfolding be_from
read_be width buffer offset =
    if ltb (length buffer) (offset + width)
    then err out_of_range
    else ok (be_from 0 (subarray buffer offset (offset + width)))

-- The largest distance of a `Date` from the epoch, in milliseconds.
abbrev pub max_time : ℕ
max_time = 8640000000000000

-- The value of a header of type `value_type` at `offset`, and the offset behind it.
unfoldable pub decode_value : ℕ → Bytes → ℕ → Result DecodeError (HeaderValue × ℕ)
unfolding read_be
decode_value value_type buffer offset =
    if value_type == 0
    then ok (flag true, offset)
    else if value_type == 1
    then ok (flag false, offset)
    else if value_type == 2
    then (do n ← read_be 1 buffer offset; ok (number (to_signed 8 n), offset + 1))
    else if value_type == 3
    then (do n ← read_be 2 buffer offset; ok (number (to_signed 16 n), offset + 2))
    else if value_type == 4
    then (do n ← read_be 4 buffer offset; ok (number (to_signed 32 n), offset + 4))
    else if value_type == 5
    then (do n ← read_be 8 buffer offset; ok (number (to_signed 64 n), offset + 8))
    else if value_type == 6 || value_type == 7
    then (do
      size ← read_be 2 buffer offset
      let raw = subarray buffer (offset + 2) (offset + 2 + size)
      ok (if value_type == 6 then bytes raw else string raw, offset + 2 + size))
    else if value_type == 8
    then (do
      n ← read_be 8 buffer offset
      throw_if (ltb max_time (magnitude (to_signed 64 n))) invalid_time_value
      ok (timestamp (to_signed 64 n), offset + 8))
    else if value_type == 9
    then ok (uuid (subarray buffer offset (offset + 16)), offset + 16)
    else err (unknown_header_type value_type)

-- `headers[name] = value`
unfoldable pub set_header : Bytes → HeaderValue → List Header → List Header
set_header name value [] = (name, value) ∷ []
set_header name value ((key, old) ∷ rest) =
    if text_eq key name then (key, value) ∷ rest else (key, old) ∷ set_header name value rest

-- One round of the loop at `offset`.
unfoldable pub decode_header : Bytes → ℕ → Result DecodeError (Bytes × HeaderValue × ℕ)
unfolding decode_value
decode_header buffer offset = elim (get_elem? buffer offset) [
  | none ↦ err truncated_header
  | some name_length ↦ do
    throw_if (ltb (length buffer) (offset + 1 + name_length + 1)) truncated_header
    let name = subarray buffer (offset + 1) (offset + 1 + name_length)
    elim (get_elem? buffer (offset + 1 + name_length)) [
      | none ↦ err truncated_header
      | some value_type ↦ do
        value ← decode_value value_type buffer (offset + 1 + name_length + 1)
        ok (name, value.0, value.1)
    ]
]

-- The loop. Each header takes at least two bytes.
unfoldable pub decode_headers_from : ℕ → Bytes → ℕ → List Header → Result DecodeError (List Header)
decode_headers_from zero buffer offset headers =
    if ltb offset (length buffer) then err out_of_fuel else ok headers
decode_headers_from (suc fuel) buffer offset headers =
    if ltb offset (length buffer)
    then (do
      header ← decode_header buffer offset
      decode_headers_from fuel buffer header.2 (set_header header.0 header.1 headers))
    else ok headers

unfoldable pub decode_headers : Bytes → Result DecodeError (List Header)
decode_headers buffer = decode_headers_from (length buffer) buffer 0 []
