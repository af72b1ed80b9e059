-- ===== src/Spy/Cursor/Proto.antt =====
-- `decodeProtoMessage` of src/spy/cursor.ts: protobuf fields read without a schema. The decoding of
-- UTF-8 and the hash are functions of the platform, and arguments here.
pub mod Values
pub mod Fuel
use rootcell.Prelude.{
  ℕ, zero, suc, ◌+◌, ◌-◌, ◌*◌, ◌/◌, ◌%◌, Bool, true, false, not, ◌&&◌, ◌||◌, List, [], ◌∷◌, ◌++◌,
  Option, none, some, ◌==◌, ltb, leb, if◌then◌else◌, length, Text, codes, is_some,
}
use rootcell.Prelude.Decimal.{decimal}
use rootcell.Spy.Bytes.{Bytes, subarray}
use rootcell.Spy.Cursor.Varint.{
  VarintRead, read_proto_varint, max_safe_integer, decode_packed_proto_varints,
}
use Values.{ProtoNumber, small, proto_number, u32_le, u64_le, proto_string, proto_hex_bytes}

-- A message has its path, its length and its fields; `undefined` stands for no message.
mutual
  pub data ProtoMessage : Type 0 where
    undefined : ProtoMessage
    message : Text → ℕ → ProtoFields → ProtoMessage

  -- `number_field path field_number wire_type value byte_length`, and
  -- `bytes_field path field_number byte_length text packed_varints nested hex_decoded`.
  pub data ProtoFields : Type 0 where
    no_fields : ProtoFields
    number_field : Text → ℕ → ℕ → ProtoNumber → Option ℕ → ProtoFields → ProtoFields
    bytes_field :
        Text
        → ℕ
        → ℕ
        → Option Text
        → Option (List ℕ)
        → ProtoMessage
        → HexDecoded
        → ProtoFields
        → ProtoFields

  -- The message in the hexadecimal digits of a field, the number of its bytes and their hash.
  pub data HexDecoded : Type 0 where
    no_hex : HexDecoded
    hex_decoded : ProtoMessage → ℕ → Text → HexDecoded

-- What the loop returns: nothing where the message is given up.
abbrev pub FieldsRead : Type 0
FieldsRead = Option ProtoFields

abbrev pub push_field : (ProtoFields → ProtoFields) → FieldsRead → FieldsRead
push_field push none = none
push_field push (some fields) = some (push fields)

abbrev pub hex_part : ProtoMessage → Bytes → (Bytes → Text) → HexDecoded
hex_part undefined bytes sha256 = no_hex
hex_part (message path size fields) bytes sha256 =
    hex_decoded (message path size fields) (length bytes) (sha256 bytes)

-- A key: the field number and the wire type.
unfoldable pub read_key : Bytes → ℕ → Option (ℕ × ℕ × ℕ)
read_key buffer offset = elim (read_proto_varint buffer offset) [
  | none ↦ none
  | some key ↦
      if key.value == 0 || ltb max_safe_integer key.value || leb (key.value / 8) 0
      then none
      else some (key.value / 8, key.value % 8, key.next_offset)
]

module _ (utf8 : Bytes → Text) (sha256 : Bytes → Text) where
  -- The field with the bytes `bytes`; `nested` decodes a message one level deeper.
  unfoldable pub bytes_field_of :
      (Bytes → Text → ProtoMessage) → Text → ℕ → Bytes → ProtoFields → ProtoFields
  bytes_field_of nested path number bytes =
      bytes_field path number (length bytes) (proto_string utf8 bytes)
        (decode_packed_proto_varints bytes) (nested bytes path)
        (elim (proto_hex_bytes bytes) [
          | none ↦ no_hex
          | some hex ↦ hex_part (nested hex (path ++ codes "[hex]")) hex sha256
        ])

  -- The loop at `offset`, with `count` fields read. Each field has a byte at least, so the length of
  -- the buffer is fuel enough.
  unfoldable pub decode_fields_from :
      (Bytes → Text → ProtoMessage) → ℕ → Bytes → Text → ℕ → ℕ → FieldsRead
  decode_fields_from nested zero buffer path offset count =
      if ltb offset (length buffer) then none else some no_fields
  decode_fields_from nested (suc fuel) buffer path offset count =
      let go : ℕ → FieldsRead =
        λ next. decode_fields_from nested fuel buffer path next (count + 1) in
      if ltb offset (length buffer)
      then elim (read_key buffer offset) [
        | none ↦ none
        | some (number, wire_type, start) ↦
            let field_path = path ++ (codes "." ++ decimal number) in
            let fits = leb (count + 1) 2000 in
            if wire_type == 0
            then elim (read_proto_varint buffer start) [
              | none ↦ none
              | some value ↦
                  let rest = go value.next_offset in
                  if fits
                  then push_field (number_field field_path number 0 (proto_number value.value) none)
                      rest
                  else none
            ]
            else if wire_type == 1
            then (let rest = go (start + 8) in
                if leb (start + 8) (length buffer) && fits
                then push_field
                    (number_field field_path number 1 (proto_number (u64_le buffer start)) (some 8))
                    rest
                else none)
            else if wire_type == 2
            then elim (read_proto_varint buffer start) [
              | none ↦ none
              | some size ↦
                  let end = size.next_offset + size.value in
                  let rest = go end in
                  if leb size.value max_safe_integer && leb end (length buffer) && fits
                  then push_field
                      (bytes_field_of nested field_path number
                        (subarray buffer size.next_offset end))
                      rest
                  else none
            ]
            else if wire_type == 5
            then (let rest = go (start + 4) in
                if leb (start + 4) (length buffer) && fits
                then push_field
                    (number_field field_path number 5 (small (u32_le buffer start)) (some 4)) rest
                else none)
            else none
      ]
      else some no_fields

  abbrev pub message_of_fields : Text → ℕ → FieldsRead → ProtoMessage
  message_of_fields path size none = undefined
  message_of_fields path size (some no_fields) = undefined
  message_of_fields path size (some fields) = message path size fields

  -- `levels` counts the levels that are left of nine: `depth` is 9 - levels.
  unfoldable pub decode_proto_message_at : ℕ → Bytes → Text → ProtoMessage
  decode_proto_message_at zero buffer path = undefined
  decode_proto_message_at (suc levels) buffer path =
      let nested = decode_proto_message_at levels in
      if length buffer == 0
      then undefined
      else message_of_fields path (length buffer)
          (decode_fields_from nested (length buffer) buffer path 0 0)

  unfoldable pub decode_proto_message : Bytes → Text → ProtoMessage
  decode_proto_message buffer path = decode_proto_message_at 9 buffer path
